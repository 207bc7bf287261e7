-- ===== src/Assembler/Shift.antt =====
-- src/core/assembly.c: what an inserted instruction does to addresses.
use zis_lang.Common.{
  ℕ, suc, ◌-◌, ◌^◌, ◌≤◌, ◌<◌, ◌≡◌, arith, List, ◌∷◌, length, take, drop, length-append, length-take,
  length-drop, le→leb,
}
use zis_lang.Assembler.{instr_buffer_insert, shift_address}

-- Where no address wraps around, the addresses from the start on are one higher.
pub shift_address-above : (at x : ℕ) → at ≤ x → x < 2 ^ 32 - 1 → shift_address at x ≡ suc x
unfolding shift_address
shift_address-above at x h l = rw (le→leb at x h) (omega arith)

pub shift_address-below : (at x : ℕ) → x < at → shift_address at x ≡ x
unfolding shift_address
shift_address-below at x h = ground arith

pub length-instr_buffer_insert :
    (ib : List ℕ) (at x : ℕ) → length (instr_buffer_insert ib at x) ≡ suc (length ib)
unfolding instr_buffer_insert
length-instr_buffer_insert ib at x =
    omega (arith, length-append (take at ib) (x ∷ drop at ib), length-take at ib, length-drop at ib)
