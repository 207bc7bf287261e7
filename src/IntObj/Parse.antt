-- ===== src/IntObj/Parse.antt =====
-- src/core/intobj.c, zis_int_obj_or_smallint_s: the integer that digits in a base stand for.
-- A text is its characters from `str` on up to the end; the code's end pointer is the text that it
-- leaves. `width n base` is ceil(n * log2(base)) as the C library's floating point numbers give it,
-- a parameter.
pub mod Digits
pub mod Value
use zis_lang.Common.{
  ℕ, ◌+◌, ◌-◌, ◌*◌, ◌/◌, ◌%◌, ◌^◌, Bool, true, false, Option, none, some, List, [], ◌∷◌, ltb, leb,
  ◌==◌, if◌then◌else◌,
}
use zis_lang.Utf8.{char_digit}
use zis_lang.Bigint.{zero_cells, self_mul_add_1}
use zis_lang.IntObj.{IntValue, smallint, signed, shrink, cell_count_max}

-- zis_char_digit as an unsigned int
unfoldable pub digit : ℕ → ℕ
unfolding char_digit
digit c = elim (char_digit c) [ none ↦ 2 ^ 32 - 1 | some d ↦ d ]

-- The text behind a minus sign, if there is one.
unfoldable pub read_sign : List ℕ → Bool × List ℕ
read_sign [] = (false, [])
read_sign (c ∷ s) = if c == 45 then (true, s) else (false, c ∷ s)

-- The loop that counts the digits; the number of them, the text up to str_end and the text behind it.
unfoldable pub scan_digits : ℕ → List ℕ → ℕ × List ℕ × List ℕ
unfolding digit
scan_digits base [] = (0, [], [])
scan_digits base (c ∷ s) =
    let r = scan_digits base s in
    if ltb (digit c) base
    then (r.0 + 1, c ∷ r.1, r.2)
    else if c == 95
    then (r.0, c ∷ r.1, r.2)
    else (0, [], c ∷ s)

-- The loop on a zis_smallint_t.
unfoldable pub small_loop : ℕ → ℕ → List ℕ → ℕ
unfolding digit
small_loop base num [] = num
small_loop base num (c ∷ s) =
    small_loop base (if c == 95 then num else (num * base + digit c) % 2 ^ 64) s

-- The loop on the cells.
unfoldable pub cell_loop : ℕ → List ℕ → List ℕ → List ℕ
unfolding digit
cell_loop base cells [] = cells
cell_loop base cells (c ∷ s) =
    cell_loop base (if c == 95 then cells else (self_mul_add_1 cells base (digit c)).0) s

-- zis_round_up_to_n_pow2(BIGINT_CELL_WIDTH, num_width) / BIGINT_CELL_WIDTH on an unsigned int
abbrev pub cell_count : ℕ → ℕ
cell_count num_width = (num_width + 31) % 2 ^ 32 / 32

-- Both branches on the width; `none` is too large.
unfoldable pub from_digits : ℕ → ℕ → Bool → List ℕ → Option IntValue
unfolding small_loop cell_loop shrink
from_digits base num_width negative s =
    if ltb num_width 63
    then some (smallint (signed negative (small_loop base 0 s)))
    else if leb (cell_count num_width) cell_count_max
    then shrink (record {
      negative = negative;
      cells = cell_loop base (zero_cells (cell_count num_width)) s;
    })
    else none

-- zis_int_obj_or_smallint_s
unfoldable pub int_obj_or_smallint_s : (width : ℕ → ℕ → ℕ) → List ℕ → ℕ → Option IntValue × List ℕ
unfolding read_sign scan_digits from_digits
int_obj_or_smallint_s width str base =
    let (negative, s) = read_sign str in
    let (digit_count, digits, behind) = scan_digits base s in
    if digit_count == 0
    then (none, s)
    else (from_digits base (width digit_count base) negative digits, behind)
