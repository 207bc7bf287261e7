-- ===== src/Smallint.antt =====
-- src/core/smallint.h: integers held in an object pointer, on a platform with 64-bit pointers.
-- A pointer is its 64-bit pattern. An intptr_t is an integer; its pattern is taken modulo 2 ^ 64.
pub mod Laws
use zis_lang.Common.{
  ℕ, suc, ◌+◌, ◌-◌, ◌*◌, ◌/◌, ◌%◌, ◌^◌, Bool, ◌&&◌, Option, some, none, ltb, ◌==◌, if◌then◌else◌,
}
use zis_lang.Common.Int.{ℤ, pos, negsuc}

-- the bit pattern of an intptr_t, and the intptr_t of a pattern
unfoldable pub to_word : ℤ → ℕ
to_word (pos n) = n % 2 ^ 64
to_word (negsuc n) = 2 ^ 64 - 1 - n % 2 ^ 64

unfoldable pub of_word : ℕ → ℤ
of_word w = if ltb w (2 ^ 63) then pos w else negsuc (2 ^ 64 - 1 - w)

abbrev pub eqb_ℤ : ℤ → ℤ → Bool
eqb_ℤ (pos m) (pos n) = m == n
eqb_ℤ (pos m) (negsuc n) = Bool.false
eqb_ℤ (negsuc m) (pos n) = Bool.false
eqb_ℤ (negsuc m) (negsuc n) = m == n

-- `>> 1` of a signed value rounds down
unfoldable pub shr_one : ℤ → ℤ
shr_one (pos n) = pos (n / 2)
shr_one (negsuc n) = negsuc (n / 2)

-- zis_object_is_smallint
pub is_smallint : ℕ → Bool
is_smallint ptr = ptr % 2 == 1

-- zis_smallint_from_ptr
unfoldable pub from_ptr : ℕ → ℤ
unfolding of_word shr_one
from_ptr ptr = shr_one (of_word ptr)

-- zis_smallint_to_ptr: `val << 1` leaves the lowest bit free for the tag
unfoldable pub to_ptr : ℤ → ℕ
unfolding to_word
to_ptr val = to_word val * 2 % 2 ^ 64 + 1

-- zis_smallint_try_to_ptr
unfoldable pub try_to_ptr : ℤ → Option ℕ
unfolding to_ptr from_ptr
try_to_ptr val = let ptr = to_ptr val in if eqb_ℤ (from_ptr ptr) val then some ptr else none

-- zis_smallint_hash
pub smallint_hash : ℤ → ℕ
unfolding to_word
smallint_hash val = to_word val

-- ZIS_SMALLINT_MIN <= val && val <= ZIS_SMALLINT_MAX
unfoldable pub in_range : ℤ → Bool
in_range (pos n) = ltb n (2 ^ 62)
in_range (negsuc n) = ltb n (2 ^ 62)

-- INT64_MIN <= val && val <= INT64_MAX
unfoldable pub is_int64 : ℤ → Bool
is_int64 (pos n) = ltb n (2 ^ 63)
is_int64 (negsuc n) = ltb n (2 ^ 63)
