-- ===== src/Utf8/Count.antt =====
-- src/core/strutil.c: the lengths of strings, of encoded characters and of any bytes.
use Prim.Native.Nat.{bit_and}
use mathlib.Core.Path.{subst}
use zis_lang.Common.{
  ℕ, zero, suc, ◌+◌, ◌≤◌, ◌<◌, ◌≡◌, refl, ap, sym, ◌∙◌, true, some, List, [], ◌∷◌, ◌++◌, ◌==◌,
  length, length-append, length-drop, drop, arith,
}
use zis_lang.Common.Int.{ℤ, pos, negsuc}
use zis_lang.Utf8.{from_code, len_1, len_1_mb}
use zis_lang.Utf8.Text.{len_checked, str_len_loop, str_len, str_len_checked_loop, str_len_checked}
use zis_lang.Utf8.Ranges.{in_range, is_ascii, is_further, leads_two, leads_three, leads_four}
use zis_lang.Utf8.RoundTrip.{Encoded, one, two, three, four, from_code-Encoded, first}

further_byte-further : (x : ℕ) → x < 64 → (bit_and (0x80 + x) 0xc0 == 0x80) ≡ true
unfolding in_range
further_byte-further x h = is_further (0x80 + x) (omega arith) ∙ ground arith

-- Where the checked length of a character is n, its first byte gives n, and n bytes are there.
pub len_checked-len_1 :
    (c : ℕ) (s : List ℕ) (n : ℕ)
    → len_checked (c ∷ s) ≡ pos n
    → (len_1 c ≡ n) × (1 ≤ n) × (n ≤ suc (length s))
unfolding len_checked len_1 len_1_mb
len_checked-len_1 c [] n h = ground arith
len_checked-len_1 c (c2 ∷ []) n h = ground arith
len_checked-len_1 c (c2 ∷ c3 ∷ []) n h = ground arith
len_checked-len_1 c (c2 ∷ c3 ∷ c4 ∷ s) n h = ground arith

-- The bytes of an encoded character pass the check, whatever is behind them.
len_checked-Encoded :
    {code : ℕ} {s : List ℕ}
    → Encoded code s
    → (rest : List ℕ) → len_checked (s ++ rest) ≡ pos (length s)
unfolding len_checked in_range
len_checked-Encoded {code = code} (one h) rest = rw (is_ascii code (omega arith)) (ground arith)
len_checked-Encoded (two x y e h1 h2 h3) rest =
    let c = 0xc0 + x in
    let p : c < 256 = omega arith in
    rw (is_ascii c p, further_byte-further y h3, leads_two c p) (ground arith)
len_checked-Encoded (three x y z e h h1 h2 h3) rest =
    let c = 0xe0 + x in
    let p : c < 256 = omega arith in
    rw
      (
        is_ascii c p,
        further_byte-further y h2,
        leads_two c p,
        further_byte-further z h3,
        leads_three c p,
      )
      (ground arith)
len_checked-Encoded (four x y z w e h h1 h2 h3 h4) rest =
    let c = 0xf0 + x in
    let p : c < 256 = omega arith in
    rw
      (
        is_ascii c p,
        further_byte-further y h2,
        leads_two c p,
        further_byte-further z h3,
        leads_three c p,
        further_byte-further w h4,
        leads_four c p,
      )
      (ground arith)

-- the codes of a text, encoded one after another
unfoldable pub encode : List ℕ → List ℕ
encode [] = []
encode (code ∷ codes) = from_code code ++ encode codes

-- codes that have an encoding
unfoldable pub IsText : List ℕ → Type 0
IsText [] = Unit {0}
IsText (code ∷ codes) = (code ≤ 0x1fffff) × IsText codes

-- One turn of each loop passes over one character.
pub drop-append : (s t : List ℕ) → drop (length s) (s ++ t) ≡ t
drop-append [] t = refl
drop-append (x ∷ s) t = drop-append s t

checked_step :
    (fuel c : ℕ) (s : List ℕ) (n off len : ℕ)
    → len_checked (c ∷ s) ≡ pos (suc n)
    → str_len_checked_loop (suc fuel) (c ∷ s) off len
      ≡ str_len_checked_loop fuel (drop (suc n) (c ∷ s)) (off + suc n) (len + 1)
unfolding str_len_checked_loop
checked_step fuel c s n off len h = rw (str_len_checked_loop, h) refl

checked_turn :
    (fuel c : ℕ) (t s rest : List ℕ)
    → s ≡ c ∷ t
    → len_checked (s ++ rest) ≡ pos (length s)
    → (off len : ℕ)
    → str_len_checked_loop (suc fuel) (s ++ rest) off len
      ≡ str_len_checked_loop fuel rest (off + length s) (len + 1)
checked_turn fuel c t s rest e h off len = rw e (
    checked_step fuel c (t ++ rest) (length t) off len
      (subst (λ u. len_checked (u ++ rest) ≡ pos (length u)) e h)
    ∙ ap (λ r. str_len_checked_loop fuel r (off + suc (length t)) (len + 1)) (drop-append t rest))

str_len_checked_loop-encode :
    (fuel : ℕ) (codes : List ℕ)
    → IsText codes
    → length (encode codes) ≤ fuel
    → (off len : ℕ) → str_len_checked_loop fuel (encode codes) off len ≡ pos (len + length codes)
unfolding encode IsText str_len_checked_loop
str_len_checked_loop-encode fuel [] h f off len = ap pos (omega arith)
str_len_checked_loop-encode fuel (code ∷ codes) (h, hs) f off len =
    let v = from_code-Encoded code h in
    let (c, t, e, l) = first v in
    let size : length (from_code code) ≡ suc (length t) = ap length e in
    let total = length-append (from_code code) (encode codes) in
    elim fuel
        as (λ k.
          length (from_code code ++ encode codes) ≤ k
          → str_len_checked_loop k (from_code code ++ encode codes) off len
            ≡ pos (len + suc (length codes))) [
              | zero ↦ λ w. absurd (omega (arith, size, total))
              | suc k ↦ λ w.
                  checked_turn k c t (from_code code) (encode codes) e
                    (len_checked-Encoded v (encode codes)) off len
                  ∙ str_len_checked_loop-encode k codes hs (omega (arith, size, total))
                      (off + length (from_code code)) (len + 1)
                  ∙ ap pos (omega arith)
            ]
      f

-- A text of any codes that have an encoding is accepted, with the number of its codes.
pub str_len_checked-encode :
    (codes : List ℕ) → IsText codes → str_len_checked (encode codes) ≡ pos (length codes)
unfolding str_len_checked
str_len_checked-encode codes h =
    str_len_checked_loop-encode (length (encode codes)) codes h (omega arith) 0 0
    ∙ ap pos (omega arith)

-- The two loops take the same turns while the checked one finds no error.
str_len_loop-checked :
    (fuel : ℕ) (s : List ℕ) (off len n : ℕ)
    → length s ≤ fuel
    → str_len_checked_loop fuel s off len ≡ pos n
    → str_len_loop fuel s len ≡ some n
unfolding str_len_checked_loop str_len_loop
str_len_loop-checked fuel [] off len n f h = cc
str_len_loop-checked zero (c ∷ s) off len n f h = absurd (omega arith)
str_len_loop-checked (suc fuel) (c ∷ s) off len n f h = turn (len_checked (c ∷ s)) refl (λ m w.
    str_len_loop-checked fuel (drop m s) (off + suc m) (len + 1) n (omega (arith, length-drop m s))
      w)
  where
    turn :
        (v : ℤ)
        → len_checked (c ∷ s) ≡ v
        → ((m : ℕ)
            → str_len_checked_loop fuel (drop m s) (off + suc m) (len + 1) ≡ pos n
            → str_len_loop fuel (drop m s) (len + 1) ≡ some n)
        → str_len_loop (suc fuel) (c ∷ s) len ≡ some n
    turn (negsuc k) e rest =
        let stops : str_len_checked_loop (suc fuel) (c ∷ s) off len ≡ negsuc (off + k) =
          rw (str_len_checked_loop, e) refl in
        absurd (cc (sym h ∙ stops))
    turn (pos zero) e rest = absurd (ground (arith, len_checked-len_1 c s 0 e))
    turn (pos (suc m)) e rest =
        let (l, p, q) = len_checked-len_1 c s (suc m) e in
        let w = rest m (sym (checked_step fuel c s m off len e) ∙ h) in
        rw (str_len_loop, l) (ground (arith, w))

-- Where the checked length of some bytes is a number, the unchecked one is the same.
pub str_len_checked-str_len : (s : List ℕ) (n : ℕ) → str_len_checked s ≡ pos n → str_len s ≡ some n
unfolding str_len_checked str_len
str_len_checked-str_len s n h = str_len_loop-checked (length s) s 0 0 n (omega arith) h
