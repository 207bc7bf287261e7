-- ===== src/Smallint/Laws.antt =====
-- Tagging loses nothing of a small integer, and the checked conversion finds the others.
use zis_lang.Common.{◌≡◌, true, some, none, arith, if◌then◌else◌}
use zis_lang.Common.Int.{ℤ, pos, negsuc}
use zis_lang.Smallint.{is_smallint, from_ptr, to_ptr, try_to_ptr, in_range, is_int64}

-- A small integer comes back from its pointer, and the pointer carries the tag.
pub from_ptr-to_ptr :
    (v : ℤ) → in_range v ≡ true → (from_ptr (to_ptr v) ≡ v) × (is_smallint (to_ptr v) ≡ true)
unfolding from_ptr to_ptr is_smallint in_range
from_ptr-to_ptr (pos n) h = ground arith
from_ptr-to_ptr (negsuc n) h = ground arith

-- The checked conversion of an int64_t succeeds exactly on the small integers, and gives the
-- pointer that the unchecked one gives.
pub try_to_ptr_lem :
    (v : ℤ) → is_int64 v ≡ true → try_to_ptr v ≡ (if in_range v then some (to_ptr v) else none)
unfolding try_to_ptr in_range is_int64
try_to_ptr_lem (pos n) h = ground arith
try_to_ptr_lem (negsuc n) h = ground arith
