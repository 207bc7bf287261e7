-- ===== src/IntObj/Print/RoundTrip.antt =====
-- The text that zis_int_obj_value_s writes reads back as the integer.
use native.Mathlib.Nat.{pow-suc, pow-zero, mul-le-mul_right, mul-le-mul_left}
use mathlib.Core.List.{append-nil}
use native.Mathlib.Decide.{dec_lt}
use zis_lang.Common.{
  ℕ, zero, suc, ◌+◌, ◌*◌, ◌^◌, ◌≤◌, ◌<◌, ◌≡◌, refl, ap, ◌∙◌, sym, Bool, true, false, Option, none,
  some, List, [], ◌∷◌, ◌++◌, length, ◌==◌, arith,
}
use zis_lang.Common.Int.{ℤ}
use zis_lang.Utf8.{char_digit, char_digit_1}
use zis_lang.Bigint.{self_div_1}
use zis_lang.Bigint.Value.{value, span, IsCells, value-lt-span, span-pos, span-le-value}
use zis_lang.Bigint.Small.{self_div_1-value}
use zis_lang.IntObj.{IntObj, cell_count_max}
use zis_lang.IntObj.Denote.{denote_obj, IsIntObj}
use zis_lang.IntObj.Shrink.{Gives}
use zis_lang.IntObj.Parse.{digit, int_obj_or_smallint_s}
use zis_lang.IntObj.Parse.Digits.{AreDigits, digits, positional, sign_text, is_part}
use zis_lang.IntObj.Parse.Value.{int_obj_or_smallint_s-positional, shift_digit}
use zis_lang.IntObj.Print.{digit_char, reset, print_loop, print_sign, value_s}
use zis_lang.IntObj.Print.Reset.{reset-value}

digit-digit_char :
    (uppercase : Bool) (r : ℕ)
    → r < 36
    → (digit (digit_char uppercase r) ≡ r) × ((digit_char uppercase r == 95) ≡ false)
unfolding digit char_digit char_digit_1 digit_char
digit-digit_char false r h = elim (dec_lt r 10) [ yes l ↦ ground arith | no g ↦ ground arith ]
digit-digit_char true r h = ground arith

is_part-digit_char :
    (base r : ℕ) (uppercase : Bool)
    → base ≤ 36
    → r < base
    → is_part base (digit_char uppercase r) ≡ true
is_part-digit_char base r uppercase b h =
    let d = digit-digit_char uppercase r (omega arith) in rw (d.0) (ground arith)

-- Of a number below a power, the quotient is below the power before it.
quotient-lt : (base q r n : ℕ) → 0 < base → q * base + r < base ^ suc n → q < base ^ n
quotient-lt base q r n b h = elim (dec_lt q (base ^ n)) [
  | yes l ↦ l
  | no g ↦
      absurd
        (omega (arith, pow-suc base n, mul-le-mul_right {m = base ^ n} {n = q} base (omega arith)))
]

-- The characters written, with what a text behind them adds; n of them are enough.
abbrev Writes : (room base n v : ℕ) → List ℕ → Option (ℕ × List ℕ) → Type 0
Writes room base n v text none = ⊥
Writes room base n v text (some (left, u)) =
    (room ≤ left + n)
    × AreDigits base u
    × (length (digits u) ≤ length (digits text) + n)
    × (positional base (digits u) ≡ v * base ^ length (digits text) + positional base (digits text))

module _ (base : ℕ) (b : 2 ≤ base) (b' : base ≤ 36) (uppercase : Bool) where
  written :
      (room n v q r : ℕ) (text : List ℕ) (o : Option (ℕ × List ℕ))
      → r < base
      → v ≡ q * base + r
      → Writes room base n q (digit_char uppercase r ∷ text) o
      → Writes (suc room) base (suc n) v text o
  written room n v q r text none h e w = w
  written room n v q r text (some (left, u)) h e w =
      let d = digit-digit_char uppercase r (omega arith) in
      let k = length (digits text) in
      let p = positional base (digits text) in
      let e' : digits (digit_char uppercase r ∷ text) ≡ r ∷ digits text = rw (d.1, d.0) refl in
      (
        omega (arith, w.0),
        w.1,
        omega (arith, w.2, ap (λ (ds : List ℕ). length ds) e'),
        w.3
            ∙ ap (λ (ds : List ℕ). q * base ^ length ds + positional base ds) e'
            ∙ shift_digit base q r k p
            ∙ ap (λ (t : ℕ). t * base ^ k + p) (sym e),
      )

  print_loop-Writes :
      (room n : ℕ) (cells : List ℕ) (k : ℕ) (text : List ℕ)
      → IsCells cells
      → value cells < span k
      → (0 < k → 0 < value cells)
      → value cells < base ^ n
      → n ≤ room
      → AreDigits base text
      → Writes room base n (value cells) text (print_loop room base uppercase cells k text)
  unfolding print_loop
  print_loop-Writes room n cells zero text hc lt pos fits l ht =
      (omega arith, ht, omega arith, (let v : value cells ≡ 0 = omega arith in rw v (omega arith)))
  print_loop-Writes zero n cells (suc k) text hc lt pos fits l ht =
      (let n0 : n ≡ 0 = omega arith in
        let f = rw n0 at fits in absurd (omega (arith, f, pow-zero base, pos (omega arith))))
  print_loop-Writes (suc room) zero cells (suc k) text hc lt pos fits l ht =
      absurd (omega (arith, pow-zero base, pos (omega arith)))
  print_loop-Writes (suc room) (suc n) cells (suc k) text hc lt pos fits l ht =
      let d = self_div_1-value cells base hc (omega arith) (omega arith) in
      let q = (self_div_1 cells base).0 in
      let r = (self_div_1 cells base).1 in
      let small : value q < span (suc k) =
        omega (arith, d.0, mul-le-mul_left {m = 1} {n = base} (value q) (omega arith)) in
      let z = reset-value q (suc k) d.1 small in
      written room n (value cells) (value q) r text _ d.2 d.0 (
        print_loop-Writes room n q (reset q (suc k)) (digit_char uppercase r ∷ text) d.1 z.0 z.1
          (quotient-lt base (value q) r n (omega arith) (omega (arith, d.0))) (omega arith)
          (is_part-digit_char base r uppercase (omega arith) d.2, ht))

-- The text is there and reads back as v.
abbrev pub ReadsBack : (width : ℕ → ℕ → ℕ) (base : ℕ) (v : ℤ) → Option (List ℕ) → Type 0
ReadsBack width base v none = ⊥
ReadsBack width base v (some t) =
    let r = int_obj_or_smallint_s width t base in Gives r.0 v × (r.1 ≡ [])

signed_text :
    (negative : Bool) (left : ℕ) (u : List ℕ)
    → 0 < left
    → print_sign negative (left, u) ≡ some (sign_text negative ++ (u ++ []))
unfolding print_sign
signed_text false left u h = ap some (sym (append-nil u))
signed_text true zero u h = absurd (omega arith)
signed_text true (suc left) u h = ap (λ (t : List ℕ). some (45 ∷ t)) (sym (append-nil u))

some_digit : (base : ℕ) (ds : List ℕ) → 0 < positional base ds → 0 < length ds
some_digit base [] h = omega arith
some_digit base (d ∷ ds) h = omega arith

module _ (width : ℕ → ℕ → ℕ) (o : IntObj) (base : ℕ) (b : 2 ≤ base) (b' : base ≤ 36) (n : ℕ)
    (enough : (k : ℕ) → k ≤ n → base ^ k ≤ 2 ^ width k base)
    (bounded : (k : ℕ) → k ≤ n → width k base ≤ 32 * cell_count_max) where
  reads_back :
      (buf_sz : ℕ) (r : Option (ℕ × List ℕ))
      → n < buf_sz
      → 0 < value o.cells
      → Writes buf_sz base n (value o.cells) [] r
      → ReadsBack width base
          (denote_obj o)
          (elim r [ none ↦ none | some t ↦ print_sign o.negative t ])
  reads_back buf_sz none l p w = w
  reads_back buf_sz (some (left, u)) l p w =
      let v : positional base (digits u) ≡ value o.cells =
        omega (arith, w.3, ap (λ (t : ℕ). value o.cells * t) (pow-zero base)) in
      let r =
        int_obj_or_smallint_s-positional width base o.negative u [] b b' w.1 tt
          (some_digit base (digits u) (omega (arith, v))) (enough _ (omega (arith, w.2)))
          (bounded _ (omega (arith, w.2))) in
      rw (signed_text o.negative left u (omega (arith, w.0))) (rw v at r)

-- For an integer object and a base from 2 to 36 for which n digits are enough, and a buffer of more
-- than n characters, zis_int_obj_value_s writes a text, in the upper or the lower case, and
-- zis_int_obj_or_smallint_s reads all of that text as the one form of the same integer. Assumed is
-- that the width computed for a number of digits up to n is enough bits for it, and not more than the
-- greatest object has.
pub value_s-ReadsBack :
    (width : ℕ → ℕ → ℕ) (o : IntObj) (base n buf_sz : ℕ) (uppercase : Bool)
    → IsIntObj o
    → 2 ≤ base
    → base ≤ 36
    → value o.cells < base ^ n
    → n < buf_sz
    → ((k : ℕ) → k ≤ n → base ^ k ≤ 2 ^ width k base)
    → ((k : ℕ) → k ≤ n → width k base ≤ 32 * cell_count_max)
    → ReadsBack width base (denote_obj o) (value_s o buf_sz base uppercase)
unfolding value_s
value_s-ReadsBack width o base n buf_sz uppercase h b b' fits l enough bounded =
    let pos : 0 < value o.cells =
      omega (arith, span-le-value o.cells h.trimmed, span-pos (length o.cells)) in
    reads_back width o base b b' n enough bounded buf_sz _ l pos (
      print_loop-Writes base b b' uppercase buf_sz n o.cells (length o.cells) [] h.cells
        (value-lt-span o.cells h.cells) (λ z. pos) fits (omega arith) tt)
