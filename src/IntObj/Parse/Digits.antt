-- ===== src/IntObj/Parse/Digits.antt =====
-- What zis_int_obj_or_smallint_s finds of a text: its sign, its digits and what follows.
use native.Mathlib.Nat.{pow-suc, pow-zero, mul-le-mul_right}
use zis_lang.Common.{
  ℕ, suc, ◌+◌, ◌*◌, ◌^◌, ◌≤◌, ◌<◌, ◌≡◌, refl, ap, Bool, true, false, Bool-cases, inl, inr, List, [],
  ◌∷◌, ◌++◌, length, ltb, ◌==◌, if◌then◌else◌, arith, ◌||◌,
}
use zis_lang.IntObj.Parse.{digit, read_sign, scan_digits}

-- A digit of the base or an underscore.
abbrev pub is_part : ℕ → ℕ → Bool
is_part base c = ltb (digit c) base || c == 95

abbrev pub AreDigits : ℕ → List ℕ → Type 0
AreDigits base [] = Unit {0}
AreDigits base (c ∷ s) = (is_part base c ≡ true) × AreDigits base s

abbrev pub Stops : ℕ → List ℕ → Type 0
Stops base [] = Unit {0}
Stops base (c ∷ s) = is_part base c ≡ false

-- The digits without the underscores.
abbrev pub digits : List ℕ → List ℕ
digits [] = []
digits (c ∷ s) = if c == 95 then digits s else digit c ∷ digits s

-- Each digit counts with the power of the base for the number of digits behind it.
abbrev pub positional : ℕ → List ℕ → ℕ
positional base [] = 0
positional base (d ∷ ds) = d * base ^ length ds + positional base ds

abbrev pub sign_text : Bool → List ℕ
sign_text true = 45 ∷ []
sign_text false = []

underscore : (base c : ℕ) → base ≤ 36 → (c == 95) ≡ true → ltb (digit c) base ≡ false
unfolding digit
underscore base c h e = let c95 : c ≡ 95 = ground arith in rw c95 (ground arith)

pub digit_lt : (base c : ℕ) → is_part base c ≡ true → (c == 95) ≡ false → ltb (digit c) base ≡ true
digit_lt base c h e = ground arith

not_minus : (base c : ℕ) → base ≤ 36 → is_part base c ≡ true → (c == 45) ≡ false
unfolding digit
not_minus base c h e = elim (Bool-cases (c == 45)) [
  | inl m ↦
      let c45 : c ≡ 45 = ground arith in
      absurd (let f : is_part base 45 ≡ true = rw (c45) at e in ground arith)
  | inr n ↦ n
]

pub scan_digits-AreDigits :
    (base : ℕ) (s t : List ℕ)
    → base ≤ 36
    → AreDigits base s
    → Stops base t
    → scan_digits base (s ++ t) ≡ (length (digits s), s, t)
unfolding scan_digits
scan_digits-AreDigits base [] [] b h e = refl
scan_digits-AreDigits base [] (c ∷ t) b h e =
    let d : ltb (digit c) base ≡ false = ground arith in
    let u : (c == 95) ≡ false = ground arith in rw (d, u) refl
scan_digits-AreDigits base (c ∷ s) t b h e =
    rw (scan_digits-AreDigits base s t b h.1 e) (elim (Bool-cases (c == 95)) [
      | inl u ↦ rw (underscore base c b u, u) refl
      | inr u ↦ rw (digit_lt base c h.0 u, u) (ap (λ (n : ℕ). (n, c ∷ s, t)) (omega arith))
    ])

-- The digits of a base make a number below its power for their count.
pub positional-lt :
    (base : ℕ) (s : List ℕ)
    → AreDigits base s
    → positional base (digits s) < base ^ length (digits s)
positional-lt base [] h = omega (arith, pow-zero base)
positional-lt base (c ∷ s) h = elim (Bool-cases (c == 95)) [
  | inl e ↦ rw e (positional-lt base s h.1)
  | inr e ↦
      let n = length (digits s) in
      let d : digit c < base = (let t = digit_lt base c h.0 e in ground arith) in
      rw e (
        omega (
          arith,
          positional-lt base s h.1,
          pow-suc base n,
          mul-le-mul_right {m = suc (digit c)} {n = base} (base ^ n) d,
        ))
]

pub read_sign-sign_text :
    (base : ℕ) (negative : Bool) (s t : List ℕ)
    → base ≤ 36
    → AreDigits base s
    → 0 < length (digits s)
    → read_sign (sign_text negative ++ (s ++ t)) ≡ (negative, s ++ t)
unfolding read_sign
read_sign-sign_text base true s t b hs p = refl
read_sign-sign_text base false [] t b hs p = absurd (omega arith)
read_sign-sign_text base false (c ∷ s) t b hs p = rw (not_minus base c b hs.0) refl
