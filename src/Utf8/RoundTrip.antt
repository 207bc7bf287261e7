-- ===== src/Utf8/RoundTrip.antt =====
-- src/core/strutil.c: decoding an encoded character.
use Prim.Native.Nat.{bit_and, bit_or}
use native.Mathlib.Nat.{mod-eq_of_lt, add-mul-mod_self_left}
use zis_lang.Common.{
  ℕ, suc, ◌+◌, ◌-◌, ◌*◌, ◌/◌, ◌%◌, ◌^◌, ◌≤◌, ◌<◌, ◌≡◌, refl, ap, sym, ◌∙◌, some, List, [], ◌∷◌,
  ◌++◌, length, length-append, arith, Bool-cases, inl, inr, ltb, leb, le→leb,
}
use zis_lang.Common.Bits.{bit_and-mask, bit_or-high_low}
use zis_lang.Utf8.{byte, from_code, len_from_code, len_1, code_of, to_code}
use zis_lang.Utf8.Ranges.{len_1-lead, lead}

-- the four forms of an encoded character, with the fields of its code
pub data Encoded (code : ℕ) : List ℕ → Type 0 where
  one : code < 0x80 → Encoded code (code ∷ [])
  two :
      (x y : ℕ)
      → code ≡ x * 64 + y
      → 2 ≤ x
      → x < 32
      → y < 64
      → Encoded code ((0xc0 + x) ∷ (0x80 + y) ∷ [])
  three :
      (x y z : ℕ)
      → code ≡ x * 64 * 64 + y * 64 + z
      → 0x800 ≤ code
      → x < 16
      → y < 64
      → z < 64
      → Encoded code ((0xe0 + x) ∷ (0x80 + y) ∷ (0x80 + z) ∷ [])
  four :
      (x y z w : ℕ)
      → code ≡ x * 64 * 64 * 64 + y * 64 * 64 + z * 64 + w
      → 0x10000 ≤ code
      → x < 8
      → y < 64
      → z < 64
      → w < 64
      → Encoded code ((0xf0 + x) ∷ (0x80 + y) ∷ (0x80 + z) ∷ (0x80 + w) ∷ [])

-- a further byte holds six bits
further_byte : (x : ℕ) → bit_or 0x80 (byte (bit_and x 0x3f)) ≡ 0x80 + x % 64
further_byte x =
    rw (bit_and-mask 6 x, mod-eq_of_lt {n = x % 64} {m = 256} (omega arith))
      (bit_or-high_low 6 2 (x % 64) (omega arith))

-- a first byte holds the highest bits of the code below its mark
first_byte : (k q x : ℕ) → x < 2 ^ k → x < 256 → bit_or (q * 2 ^ k) (byte x) ≡ q * 2 ^ k + x
first_byte k q x h l = rw (mod-eq_of_lt {n = x} {m = 256} l) (bit_or-high_low k q x h)

pub from_code-Encoded : (code : ℕ) → code ≤ 0x1fffff → Encoded code (from_code code)
unfolding from_code
from_code-Encoded code h = elim (Bool-cases (ltb code 0x80)) [
  | inl a ↦ rw (a, mod-eq_of_lt {n = code} {m = 256} (ground (arith, a))) (one (ground (arith, a)))
  | inr a ↦ elim (Bool-cases (leb code 0x7ff)) [
    | inl b ↦
        rw (a, b)
          (rw
            (
              first_byte 5 6 (code / 2 ^ 6) (ground (arith, a, b)) (ground (arith, a, b)),
              further_byte code,
            )
            (two (code / 64) (code % 64) (omega arith) (ground (arith, a)) (ground (arith, b))
              (omega arith)))
    | inr b ↦ elim (Bool-cases (leb code 0xffff)) [
      | inl c ↦
          rw (a, b, c)
            (rw
              (
                first_byte 4 14 (code / 2 ^ 12) (ground (arith, c)) (ground (arith, c)),
                further_byte (code / 2 ^ 6),
                further_byte code,
              )
              (three (code / 4096) (code / 64 % 64) (code % 64) (omega arith) (ground (arith, b))
                (ground (arith, c)) (omega arith) (omega arith)))
      | inr c ↦
          rw (a, b, c, le→leb code 0x1fffff h)
            (rw
              (
                first_byte 3 30 (code / 2 ^ 18) (omega arith) (omega arith),
                further_byte (code / 2 ^ 12),
                further_byte (code / 2 ^ 6),
                further_byte code,
              )
              (four (code / 262144) (code / 4096 % 64) (code / 64 % 64) (code % 64) (omega arith)
                (ground (arith, c)) (omega arith) (omega arith) (omega arith) (omega arith)))
    ]
  ]
]

first_byte-len_1 : (c n : ℕ) → c < 256 → lead c ≡ n → len_1 c ≡ n
first_byte-len_1 c n h e = len_1-lead c h ∙ e

-- a mask gives back the field below the mark of a byte
field : (k q x : ℕ) → x < 2 ^ k → bit_and (q * 2 ^ k + x) (2 ^ k - 1) ≡ x
field k q x h =
    bit_and-mask k (q * 2 ^ k + x)
    ∙ ap (λ t. t % 2 ^ k) (omega arith)
    ∙ add-mul-mod_self_left x (2 ^ k) q
    ∙ mod-eq_of_lt h

-- fields that do not overlap add up
join : (k q m x : ℕ) → m ≡ q * 2 ^ k → x < 2 ^ k → bit_or m x ≡ m + x
join k q m x e h = rw e (bit_or-high_low k q x h)

-- the test of the length that comes before the switch
switched :
    (c : ℕ) (t s : List ℕ)
    → s ≡ c ∷ t
    → len_1 c ≡ length s
    → (rest : List ℕ) → to_code (s ++ rest) ≡ code_of (length s) (s ++ rest)
unfolding to_code
switched c t s e l rest =
    let w : len_1 c ≡ suc (length t) = l ∙ ap length e in
    rw (e, w) (ground (arith, length-append t rest))

module _ {code : ℕ} where
  pub Encoded-len_from_code : {s : List ℕ} → Encoded code s → len_from_code code ≡ length s
  unfolding len_from_code
  Encoded-len_from_code (one h) = ground arith
  Encoded-len_from_code (two x y e h1 h2 h3) = ground arith
  Encoded-len_from_code (three x y z e h h1 h2 h3) = ground arith
  Encoded-len_from_code (four x y z w e h h1 h2 h3 h4) = ground arith

  -- what every other byte is
  pub first :
      {s : List ℕ} → Encoded code s → (c : ℕ) × (t : List ℕ) × (s ≡ c ∷ t) × (len_1 c ≡ length s)
  unfolding lead
  first (one h) = (code, [], refl, first_byte-len_1 code 1 (omega arith) (ground arith))
  first (two x y e h1 h2 h3) =
      (0xc0 + x, _, refl, first_byte-len_1 (0xc0 + x) 2 (omega arith) (ground arith))
  first (three x y z e h h1 h2 h3) =
      (0xe0 + x, _, refl, first_byte-len_1 (0xe0 + x) 3 (omega arith) (ground arith))
  first (four x y z w e h h1 h2 h3 h4) =
      (0xf0 + x, _, refl, first_byte-len_1 (0xf0 + x) 4 (omega arith) (ground arith))

  -- the fields of the bytes
  Encoded-code_of :
      {s : List ℕ}
      → Encoded code s
      → (rest : List ℕ) → code_of (length s) (s ++ rest) ≡ some (code, length s)
  unfolding code_of
  Encoded-code_of (one h) rest = refl
  Encoded-code_of (two x y e h1 h2 h3) rest =
      rw (field 5 6 x h2, field 6 2 y h3, join 6 x (x * 64) y refl h3, e) refl
  Encoded-code_of (three x y z e h h1 h2 h3) rest =
      rw
        (
          field 4 14 x h1,
          field 6 2 y h2,
          field 6 2 z h3,
          join 12 x (x * 4096) (y * 64) refl (omega arith),
          join 6 (x * 64 + y) (x * 4096 + y * 64) z (omega arith) h3,
        )
        (ap (λ t. some (t, 3)) (omega arith))
  Encoded-code_of (four x y z w e h h1 h2 h3 h4) rest =
      rw
        (
          field 3 30 x h1,
          field 6 2 y h2,
          field 6 2 z h3,
          field 6 2 w h4,
          join 18 x (x * 262144) (y * 4096) refl (omega arith),
          join 12 (x * 64 + y) (x * 262144 + y * 4096) (z * 64) (omega arith) (omega arith),
          join 6 (x * 4096 + y * 64 + z) (x * 262144 + y * 4096 + z * 64) w (omega arith) h4,
        )
        (ap (λ t. some (t, 4)) (omega arith))

  to_code-Encoded :
      {s : List ℕ} → Encoded code s → (rest : List ℕ) → to_code (s ++ rest) ≡ some (code, length s)
  to_code-Encoded {s = s} v rest =
      let (c, t, e, l) = first v in switched c t s e l rest ∙ Encoded-code_of v rest

-- Decoding an encoded code, up to the largest of four bytes, gives it back together with the
-- length that was written; the bytes behind it do not matter.
pub to_code-from_code :
    (code : ℕ)
    → code ≤ 0x1fffff
    → (rest : List ℕ) → to_code (from_code code ++ rest) ≡ some (code, len_from_code code)
to_code-from_code code h rest =
    let v = from_code-Encoded code h in
    to_code-Encoded v rest ∙ ap (λ n. some (code, n)) (sym (Encoded-len_from_code v))
