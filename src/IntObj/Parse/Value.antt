-- ===== src/IntObj/Parse/Value.antt =====
-- Reading a text gives the number whose digits it shows.
use native.Mathlib.Nat.{
  pow-suc, pow-zero, one-le-pow, pow-le-pow_right, mul-le-mul_left, mod-eq_of_lt,
}
use zis_lang.Common.{
  ℕ, zero, suc, ◌+◌, ◌*◌, ◌^◌, ◌≤◌, ◌<◌, ◌≡◌, refl, ap, ◌∙◌, Bool, false, Bool-cases, inl, inr,
  List, [], ◌∷◌, ◌++◌, length, ltb, ◌==◌, arith, le→leb, length-replicate,
}
use zis_lang.Bigint.{zero_cells, self_mul_add_1}
use zis_lang.Bigint.Value.{value, span, IsCells, value-zero_cells, zero_cells-IsCells}
use zis_lang.Bigint.Small.{self_mul_add_1-value}
use zis_lang.Bigint.Shift.{span-two_pow}
use zis_lang.IntObj.{signed, cell_count_max}
use zis_lang.IntObj.Shrink.{Gives, Gives-eq, shrink-IsInt, signed-in_range}
use zis_lang.IntObj.Parse.Digits.{
  AreDigits, Stops, digits, positional, sign_text, digit_lt, scan_digits-AreDigits, positional-lt,
  read_sign-sign_text,
}
use zis_lang.IntObj.Parse.{
  digit, small_loop, cell_loop, cell_count, from_digits, int_obj_or_smallint_s,
}

-- A digit moves from the number that stands to the front of the number that is read.
pub shift_digit :
    (base num d k n : ℕ) → num * base ^ suc k + (d * base ^ k + n) ≡ (num * base + d) * base ^ k + n
shift_digit base num d k n = omega (arith, ap (λ (t : ℕ). num * t) (pow-suc base k))

head_bound : (base num d k n : ℕ) → 0 < base → num * base + d ≤ (num * base + d) * base ^ k + n
head_bound base num d k n h = omega (arith, mul-le-mul_left (num * base + d) (one-le-pow k base h))

small_loop-positional :
    (base num : ℕ) (s : List ℕ)
    → 0 < base
    → let t = num * base ^ length (digits s) + positional base (digits s) in
      t < 2 ^ 64 → small_loop base num s ≡ t
unfolding small_loop
small_loop-positional base num [] b = λ h. omega (arith, ap (λ (t : ℕ). num * t) (pow-zero base))
small_loop-positional base num (c ∷ s) b = elim (Bool-cases (c == 95)) [
  | inl e ↦ rw e (small_loop-positional base num s b)
  | inr e ↦
      let k = length (digits s) in
      let n = positional base (digits s) in
      rw (e, shift_digit base num (digit c) k n)
        (λ h.
          rw
            (mod-eq_of_lt {n = num * base + digit c} {m = 2 ^ 64}
              (omega (arith, head_bound base num (digit c) k n b)))
            (small_loop-positional base (num * base + digit c) s b h))
]

no_carry : (s c v n : ℕ) → v + s * c ≡ n → n < s → v ≡ n
no_carry s zero v n e h = omega arith
no_carry s (suc c) v n e h = absurd (omega arith)

cell_loop-positional :
    (base : ℕ) (cells s : List ℕ)
    → 0 < base
    → base ≤ 36
    → IsCells cells
    → AreDigits base s
    → let t = value cells * base ^ length (digits s) + positional base (digits s) in
      t < span (length cells)
      → let r = cell_loop base cells s in (value r ≡ t) × IsCells r × (length r ≡ length cells)
unfolding cell_loop
cell_loop-positional base cells [] b b' hc hs =
    λ h. (omega (arith, ap (λ (t : ℕ). value cells * t) (pow-zero base)), hc, refl)
cell_loop-positional base cells (c ∷ s) b b' hc hs = elim (Bool-cases (c == 95)) [
  | inl e ↦ rw e (cell_loop-positional base cells s b b' hc hs.1)
  | inr e ↦
      let k = length (digits s) in
      let n = positional base (digits s) in
      let d : digit c < base = (let t = digit_lt base c hs.0 e in ground arith) in
      let r = self_mul_add_1-value cells base (digit c) hc (omega arith) (omega arith) in
      let next = (self_mul_add_1 cells base (digit c)).0 in
      rw (e, shift_digit base (value cells) (digit c) k n)
        (λ h.
          let v : value next ≡ value cells * base + digit c =
            no_carry (span (length cells)) (self_mul_add_1 cells base (digit c)).1 _ _ r.0
              (omega (arith, head_bound base (value cells) (digit c) k n b)) in
          let ih = cell_loop-positional base next s b b' r.1 hs.1 (rw (v, r.3) h) in
          (ih.0 ∙ ap (λ (t : ℕ). t * base ^ k + n) v, ih.1, ih.2 ∙ r.3))
]

cells_enough : (w : ℕ) → w ≤ 32 * cell_count_max → 2 ^ w ≤ span (cell_count w)
cells_enough w h =
    rw (span-two_pow (cell_count w)) (pow-le-pow_right {n = 2} (omega arith) (omega arith))

from_digits-positional :
    (base w : ℕ) (negative : Bool) (s : List ℕ)
    → 0 < base
    → base ≤ 36
    → AreDigits base s
    → base ^ length (digits s) ≤ 2 ^ w
    → w ≤ 32 * cell_count_max
    → Gives (from_digits base w negative s) (signed negative (positional base (digits s)))
unfolding from_digits
from_digits-positional base w negative s b b' hs fit room = elim (Bool-cases (ltb w 63)) [
  | inl e ↦
      let small : 2 ^ w ≤ 2 ^ 62 =
        pow-le-pow_right {n = 2} (omega arith) {i = w} {j = 62} (ground arith) in
      let l : positional base (digits s) < 2 ^ 62 = omega (arith, positional-lt base s hs) in
      let v : small_loop base 0 s ≡ positional base (digits s) =
        small_loop-positional base 0 s b (omega arith) ∙ omega arith in
      rw (e, v) (refl, signed-in_range negative (positional base (digits s)) l)
  | inr e ↦
      let k = cell_count w in
      let e' : 63 ≤ w = ground arith in
      let z : value (zero_cells k) ≡ 0 = value-zero_cells k in
      let len : length (zero_cells k) ≡ k = length-replicate k 0 in
      let r =
        cell_loop-positional base (zero_cells k) s b b' (zero_cells-IsCells k) hs
          (rw (z, len) (omega (arith, positional-lt base s hs, cells_enough w room))) in
      let x =
        shrink-IsInt (record { negative = negative; cells = cell_loop base (zero_cells k) s }) r.1
          (omega (arith, r.2, e')) (omega arith) in
      let n : value (cell_loop base (zero_cells k) s) ≡ positional base (digits s) =
        omega (arith, r.0, ap (λ (t : ℕ). t * base ^ length (digits s)) z) in
      rw (e, le→leb k cell_count_max (omega arith)) (Gives-eq _ _ _ (ap (signed negative) n) x)
]

-- Let `s` be digits of a base from 2 to 36 with underscores among them and at least one digit, behind
-- it a text that starts with none, and before it a minus sign or nothing. If the width computed for
-- the number of the digits is enough bits for it and not more than the greatest object has, then
-- zis_int_obj_or_smallint_s returns the one form of the integer with that sign whose digits, each
-- weighted with its power of the base, are those of `s`, and leaves the text behind them.
pub int_obj_or_smallint_s-positional :
    (width : ℕ → ℕ → ℕ) (base : ℕ) (negative : Bool) (s behind : List ℕ)
    → 2 ≤ base
    → base ≤ 36
    → AreDigits base s
    → Stops base behind
    → 0 < length (digits s)
    → base ^ length (digits s) ≤ 2 ^ width (length (digits s)) base
    → width (length (digits s)) base ≤ 32 * cell_count_max
    → let r = int_obj_or_smallint_s width (sign_text negative ++ (s ++ behind)) base in
      Gives r.0 (signed negative (positional base (digits s))) × (r.1 ≡ behind)
unfolding int_obj_or_smallint_s
int_obj_or_smallint_s-positional width base negative s behind b b' hs stop p fit room =
    let some_digit : (length (digits s) == 0) ≡ false = ground arith in
    rw
      (
        read_sign-sign_text base negative s behind b' hs p,
        scan_digits-AreDigits base s behind b' hs stop,
        some_digit,
      )
      (
        from_digits-positional base (width (length (digits s)) base) negative s (omega arith) b' hs
            fit room,
        refl,
      )
