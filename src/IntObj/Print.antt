-- ===== src/IntObj/Print.antt =====
-- src/core/intobj.c, zis_int_obj_value_s with a buffer: the digits of an integer object in a base.
-- The buffer fills from its end; what is written is a list and `room` the characters before it.
-- `none` is (size_t)-1. The estimate for no buffer, in floating point, is not modelled.
pub mod Reset
pub mod RoundTrip
use zis_lang.Common.{
  ℕ, zero, suc, ◌+◌, ◌-◌, Bool, true, false, Option, none, some, List, [], ◌∷◌, length, get_or, ltb,
  ◌==◌, if◌then◌else◌,
}
use zis_lang.Bigint.{self_div_1}
use zis_lang.IntObj.{IntObj}

-- An entry of digits_upper or digits_lower.
unfoldable pub digit_char : Bool → ℕ → ℕ
digit_char uppercase r = if ltb r 10 then 48 + r else (if uppercase then 65 else 97) + (r - 10)

-- The loop that steps reset_cell_count down over zero cells.
unfoldable pub reset : List ℕ → ℕ → ℕ
reset cells zero = 0
reset cells (suc n) = let rest = reset cells n in if get_or cells n 0 == 0 then rest else suc n

-- The loop on the digits, from the lowest.
unfoldable pub print_loop :
    (room base : ℕ) (uppercase : Bool) → List ℕ → ℕ → List ℕ → Option (ℕ × List ℕ)
unfolding digit_char reset
print_loop room base uppercase cells zero text = some (room, text)
print_loop zero base uppercase cells (suc n) text = none
print_loop (suc room) base uppercase cells (suc n) text =
    let (q, r) = self_div_1 cells base in
    print_loop room base uppercase q (reset q (suc n)) (digit_char uppercase r ∷ text)

-- The sign in front
unfoldable pub print_sign : Bool → ℕ × List ℕ → Option (List ℕ)
print_sign true (zero, text) = none
print_sign true (suc room, text) = some (45 ∷ text)
print_sign false (room, text) = some text

-- zis_int_obj_value_s
unfoldable pub value_s : IntObj → (buf_sz base : ℕ) → Bool → Option (List ℕ)
unfolding print_loop print_sign
value_s self buf_sz base uppercase =
    elim (print_loop buf_sz base uppercase self.cells (length self.cells) []) [
      | none ↦ none
      | some r ↦ print_sign self.negative r
    ]
