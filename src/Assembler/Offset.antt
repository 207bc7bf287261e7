-- ===== src/Assembler/Offset.antt =====
-- src/core/assembly.c, zis_assembler_finish: the offset from an address to a label, modulo 2 ^ 32.
use zis_lang.Common.{ℕ, ◌^◌, ◌<◌, ◌≡◌, false, arith}
use zis_lang.Common.Int.{sub_ℕ}
use zis_lang.Instr.{signed32}
use zis_lang.Assembler.Finish.{jump_offset, outside_i25}

-- What is behind is a negative offset.
pub jump_offset-sub_ℕ :
    (label address : ℕ)
    → label < 2 ^ 31
    → address < 2 ^ 31
    → jump_offset label address ≡ sub_ℕ label address
unfolding jump_offset signed32
jump_offset-sub_ℕ label address h k = ground arith

pub jump_offset-inside :
    (label address : ℕ)
    → label < 2 ^ 24
    → address < 2 ^ 24
    → outside_i25 (jump_offset label address) ≡ false
unfolding outside_i25
jump_offset-inside label address h k =
    rw (jump_offset-sub_ℕ label address (omega arith) (omega arith)) (ground arith)
