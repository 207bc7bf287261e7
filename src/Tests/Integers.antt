-- ===== src/Tests/Integers.antt =====
-- Integers: 2 to the 62 is the first one that is no small integer.
use native.Mathlib.Nat.{pow-zero, pow-suc}
use zis_lang.Common.Bits.{pow_add}
use zis_lang.Common.{
  zero, suc, ap, ◌+◌, ◌*◌, ◌^◌, ◌≤◌, ℕ, List, ◌++◌, ◌≡◌, ◌≢◌, refl, true, false, not, [], ◌∷◌, some,
  none, if◌then◌else◌, arith,
}
use zis_lang.Common.Int.{pos, negsuc, ◌+ℤ◌, ◌-ℤ◌}
use zis_lang.Smallint.{is_smallint, from_ptr, to_ptr, try_to_ptr, in_range, is_int64}
use zis_lang.Smallint.Laws.{from_ptr-to_ptr, try_to_ptr_lem}
use zis_lang.Bigint.Value.{value}
use zis_lang.IntObj.{
  IntObj, smallint, int_obj, signed, dummy_int_obj, cells_of, shrink, add, sub, compare_int, equals,
}
use zis_lang.IntObj.Denote.{denote_obj, IsIntObj}
use zis_lang.IntObj.Shrink.{Gives, shrink-IsInt}
use zis_lang.IntObj.Arith.{add-Gives, sub-Gives}
use zis_lang.IntObj.Parse.{digit, int_obj_or_smallint_s}
use zis_lang.Utf8.{char_digit, char_digit_1}
use zis_lang.IntObj.Parse.Digits.{digits, positional}
use zis_lang.IntObj.Print.{value_s}
use zis_lang.IntObj.Print.RoundTrip.{ReadsBack, value_s-ReadsBack}
use zis_lang.IntObj.Parse.Value.{int_obj_or_smallint_s-positional}
use zis_lang.IntObj.Order.{order, compare_int-order, compare_int-reversed, equals-opposite}

from_ptr-to_ptr_example :
    (from_ptr (to_ptr (negsuc 41)) ≡ negsuc 41) × (is_smallint (to_ptr (negsuc 41)) ≡ true)
from_ptr-to_ptr_example = from_ptr-to_ptr (negsuc 41) (unfold in_range in refl)

try_to_ptr_lem_example :
    try_to_ptr (pos 4611686018427387904)
    ≡ (if in_range (pos 4611686018427387904) then some (to_ptr (pos 4611686018427387904)) else none)
try_to_ptr_lem_example = try_to_ptr_lem (pos 4611686018427387904) (unfold is_int64 in refl)

abbrev first_large : IntObj
first_large = record { negative = false; cells = 0 ∷ 1073741824 ∷ [] }

abbrev below_small : IntObj
below_small = record { negative = true; cells = 1 ∷ 1073741824 ∷ [] }

abbrev further_below : IntObj
further_below = record { negative = true; cells = 2 ∷ 1073741824 ∷ [] }

first_large-IsIntObj : IsIntObj first_large
unfolding in_range
first_large-IsIntObj = record {
  cells = (omega arith, (omega arith, tt));
  trimmed = omega arith;
  bounded = omega arith;
  large = refl;
}

below_small-IsIntObj : IsIntObj below_small
unfolding in_range
below_small-IsIntObj = record {
  cells = (omega arith, (omega arith, tt));
  trimmed = omega arith;
  bounded = omega arith;
  large = refl;
}

further_below-IsIntObj : IsIntObj further_below
unfolding in_range
further_below-IsIntObj = record {
  cells = (omega arith, (omega arith, tt));
  trimmed = omega arith;
  bounded = omega arith;
  large = refl;
}

abbrev untrimmed : IntObj
untrimmed = record { negative = true; cells = 7 ∷ 0 ∷ 0 ∷ [] }

shrink-IsInt_example : Gives (shrink untrimmed) (signed true (value (7 ∷ 0 ∷ 0 ∷ [])))
shrink-IsInt_example =
    shrink-IsInt untrimmed (omega arith, (omega arith, (omega arith, tt))) (omega arith)
      (omega arith)

add-Gives_example :
    Gives (add (int_obj first_large) (smallint (negsuc 0))) (denote_obj first_large +ℤ negsuc 0)
unfolding in_range dummy_int_obj cells_of
add-Gives_example =
    add-Gives (int_obj first_large) (smallint (negsuc 0)) first_large-IsIntObj refl (omega arith)
      (omega arith) (λ q. ground (arith, q))

sub-Gives_example :
    Gives
      (sub (int_obj below_small) (int_obj first_large))
      (denote_obj below_small -ℤ denote_obj first_large)
sub-Gives_example =
    sub-Gives (int_obj below_small) (int_obj first_large) below_small-IsIntObj first_large-IsIntObj
      (omega arith) (omega arith) tt

compare_int-order_example :
    compare_int (int_obj below_small) (smallint (pos 3)) ≡ order (denote_obj below_small) (pos 3)
unfolding in_range
compare_int-order_example =
    compare_int-order (int_obj below_small) (smallint (pos 3)) below_small-IsIntObj refl tt

compare_int-reversed_example :
    compare_int (int_obj below_small) (int_obj further_below)
    ≡ order (denote_obj further_below) (denote_obj below_small)
compare_int-reversed_example =
    compare_int-reversed below_small further_below below_small-IsIntObj further_below-IsIntObj refl
      refl

equals-opposite_example :
    let n = record first_large { negative = not first_large.negative } in
    (equals (int_obj first_large) (int_obj n) ≡ true) × (denote_obj first_large ≢ denote_obj n)
equals-opposite_example = equals-opposite first_large first_large-IsIntObj

-- "zz_zz_zz_zz_zz_zz_zz", 14 digits in base 36, with 73 bits
abbrev large_text : List ℕ
large_text =
    122 ∷ 122 ∷ 95 ∷ 122 ∷ 122 ∷ 95 ∷ 122 ∷ 122 ∷ 95 ∷ 122 ∷ 122 ∷ 95 ∷ 122 ∷ 122 ∷ 95 ∷ 122 ∷ 122
    ∷ 95 ∷ 122 ∷ 122 ∷ []

-- Six bits for each digit.
abbrev six_bits : ℕ → ℕ → ℕ
six_bits n base = 6 * n

int_obj_or_smallint_s-positional_example :
    let r = int_obj_or_smallint_s six_bits (45 ∷ large_text ++ (59 ∷ [])) 36 in
    Gives r.0 (signed true (positional 36 (digits large_text))) × (r.1 ≡ 59 ∷ [])
unfolding digit char_digit char_digit_1
int_obj_or_smallint_s-positional_example =
    int_obj_or_smallint_s-positional six_bits 36 true large_text (59 ∷ []) (omega arith)
      (omega arith)
      (
        refl,
        (
          refl,
          (
            refl,
            (
              refl,
              (
                refl,
                (
                  refl,
                  (
                    refl,
                    (
                      refl,
                      (
                        refl,
                        (
                          refl,
                          (
                            refl,
                            (
                              refl,
                              (refl, (refl, (refl, (refl, (refl, (refl, (refl, (refl, tt)))))))),
                            ),
                          ),
                        ),
                      ),
                    ),
                  ),
                ),
              ),
            ),
          ),
        ),
      )
      refl (omega arith) (omega arith) (omega arith)

value_s-ReadsBack_example :
    ReadsBack six_bits 36 (denote_obj below_small) (value_s below_small 14 36 true)
unfolding in_range
value_s-ReadsBack_example =
    value_s-ReadsBack six_bits below_small 36 13 14 true below_small-IsIntObj (omega arith)
      (omega arith) (omega arith) (omega arith) (λ k l. six_bits_enough k) (λ k l. omega arith)
  where
    six_bits_enough : (k : ℕ) → 36 ^ k ≤ 2 ^ (6 * k)
    six_bits_enough zero = omega (arith, pow-zero 36)
    six_bits_enough (suc k) = omega (
      arith,
      six_bits_enough k,
      pow-suc 36 k,
      pow_add (6 * k) 6,
      ap (λ (t : ℕ). 2 ^ t) {x = 6 * k + 6} {y = 6 * suc k} (omega arith),
    )
