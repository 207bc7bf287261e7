-- ===== src/Opcode.antt =====
-- src/core/oplist.h and instr.h: opcodes, and the formats of their operands.
use zis_lang.Common.{ℕ, List, [], ◌∷◌, get_or}

-- enum zis_op_type
pub data OpType : Type 0 where
  x : OpType
  aw : OpType
  asw : OpType
  abw : OpType
  asbw : OpType
  absw : OpType
  abc : OpType
  asbc : OpType
  abscs : OpType

-- the opcodes that the assembler itself uses, and _ZIS_OPC_COUNT
abbrev pub thr : ℕ
thr = 0x10

abbrev pub retnil : ℕ
retnil = 0x11

abbrev pub ret : ℕ
ret = 0x12

abbrev pub jmp : ℕ
jmp = 0x28

abbrev pub count : ℕ
count = 0x47

-- op_types, from opcode 0 on; the entries from _ZIS_OPC_COUNT on are all X
abbrev pub op_types : List OpType
op_types =
    OpType.aw ∷ OpType.aw ∷ OpType.x ∷ OpType.aw ∷ OpType.abw ∷ OpType.abw ∷ OpType.abw ∷ OpType.abw
    ∷ OpType.absw ∷ OpType.abscs ∷ OpType.abc ∷ OpType.abc ∷ OpType.abc ∷ OpType.abc ∷ OpType.abc
    ∷ OpType.x ∷ OpType.aw ∷ OpType.aw ∷ OpType.aw ∷ OpType.aw ∷ OpType.x ∷ OpType.abc ∷ OpType.abw
    ∷ OpType.abw ∷ OpType.abw ∷ OpType.abw ∷ OpType.abw ∷ OpType.abw ∷ OpType.abw ∷ OpType.abw
    ∷ OpType.abw ∷ OpType.abw ∷ OpType.abc ∷ OpType.abc ∷ OpType.abc ∷ OpType.abc ∷ OpType.abc
    ∷ OpType.abc ∷ OpType.asbc ∷ OpType.asbc ∷ OpType.asw ∷ OpType.asbw ∷ OpType.asbw ∷ OpType.asbc
    ∷ OpType.asbc ∷ OpType.asbc ∷ OpType.asbc ∷ OpType.asbc ∷ OpType.asbc ∷ OpType.abc ∷ OpType.abc
    ∷ OpType.abc ∷ OpType.abc ∷ OpType.abc ∷ OpType.abc ∷ OpType.abc ∷ OpType.abc ∷ OpType.abc
    ∷ OpType.abc ∷ OpType.abc ∷ OpType.abc ∷ OpType.abc ∷ OpType.abc ∷ OpType.abc ∷ OpType.abc
    ∷ OpType.abc ∷ OpType.abc ∷ OpType.x ∷ OpType.abw ∷ OpType.abw ∷ OpType.abw ∷ []

unfoldable pub op_type_of : ℕ → OpType
op_type_of opcode = get_or op_types opcode OpType.x
