-- ===== src/Utf8/Ranges.antt =====
-- src/core/strutil.c: the first bytes and the further bytes of characters, as ranges of numbers.
use Prim.Native.Nat.{bit_and}
use zis_lang.Common.{
  ℕ, zero, suc, ◌<◌, ◌≡◌, refl, sym, ap, Bool, true, false, ◌&&◌, not, ltb, leb, ◌==◌, ==_iff,
  if◌then◌else◌, Bool-cases, inl, inr, arith,
}
use zis_lang.Utf8.{len_1, len_1_mb}

-- a test that every number below a bound passes
unfoldable every : (ℕ → Bool) → ℕ → Bool
every p zero = true
every p (suc n) = p n && every p n

every-at : (p : ℕ → Bool) (n i : ℕ) → every p n ≡ true → i < n → p i ≡ true
unfolding every
every-at p zero i e h = absurd (omega arith)
every-at p (suc n) i e h = elim (Bool-cases (p n)) [
  | inr w ↦ ground (arith, w, e)
  | inl w ↦ elim (Bool-cases (i == n)) [
    | inl q ↦ rw ((==_iff i n).0 q) w
    | inr q ↦ every-at p n i (rw (sym (ap (λ b. b && every p n) w)) e) (ground (arith, q))
  ]
]

-- the length of a character by its first byte
unfoldable pub lead : ℕ → ℕ
lead c =
    if ltb c 0x80
    then 1
    else if ltb c 0xc0
    then 0
    else if ltb c 0xe0
    then 2
    else if ltb c 0xf0
    then 3
    else if ltb c 0xf8
    then 4
    else 0

all_leads : every (λ c. len_1 c == lead c) 256 ≡ true
unfolding every len_1 len_1_mb lead
all_leads = refl

pub len_1-lead : (c : ℕ) → c < 256 → len_1 c ≡ lead c
len_1-lead c h = (==_iff (len_1 c) (lead c)).0 (every-at (λ c. len_1 c == lead c) 256 c all_leads h)

same : Bool → Bool → Bool
same a b = if a then b else not b

same→≡ : (a b : Bool) → same a b ≡ true → a ≡ b
unfolding same
same→≡ true true h = refl
same→≡ true false h = sym h
same→≡ false true h = h
same→≡ false false h = refl

unfoldable pub in_range : ℕ → ℕ → ℕ → Bool
in_range low high c = leb low c && ltb c high

-- a mask tests for a range of first bytes where it does so on every byte
masked :
    (m v low high c : ℕ)
    → every (λ c. same (bit_and c m == v) (in_range low high c)) 256 ≡ true
    → c < 256
    → (bit_and c m == v) ≡ in_range low high c
masked m v low high c e h =
    same→≡ (bit_and c m == v) (in_range low high c)
      (every-at (λ c. same (bit_and c m == v) (in_range low high c)) 256 c e h)

module _ (c : ℕ) (h : c < 256) where
  pub is_ascii : (bit_and c 0x80 == 0) ≡ in_range 0 0x80 c
  unfolding every same in_range
  is_ascii = masked 0x80 0 0 0x80 c refl h

  pub is_further : (bit_and c 0xc0 == 0x80) ≡ in_range 0x80 0xc0 c
  unfolding every same in_range
  is_further = masked 0xc0 0x80 0x80 0xc0 c refl h

  pub leads_two : (bit_and c 0xe0 == 0xc0) ≡ in_range 0xc0 0xe0 c
  unfolding every same in_range
  leads_two = masked 0xe0 0xc0 0xc0 0xe0 c refl h

  pub leads_three : (bit_and c 0xf0 == 0xe0) ≡ in_range 0xe0 0xf0 c
  unfolding every same in_range
  leads_three = masked 0xf0 0xe0 0xe0 0xf0 c refl h

  pub leads_four : (bit_and c 0xf8 == 0xf0) ≡ in_range 0xf0 0xf8 c
  unfolding every same in_range
  leads_four = masked 0xf8 0xf0 0xf0 0xf8 c refl h
