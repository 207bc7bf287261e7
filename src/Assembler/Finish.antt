-- ===== src/Assembler/Finish.antt =====
-- src/core/assembly.c, zis_assembler_finish: jumps get their offsets, and a conditional jump that is
-- too far becomes the opposite jump over a JMP.
use zis_lang.Common.{
  ℕ, zero, suc, ◌+◌, ◌-◌, ◌^◌, Bool, not, ◌&&◌, ◌||◌, Option, none, some, List, [], ◌∷◌, length,
  set, get_or, get_elem?, ltb, ◌==◌, if◌then◌else◌,
}
use zis_lang.Common.Int.{ℤ, pos, negsuc, pos_part, neg_part}
use zis_lang.Instr.{u32, signed32, make_asw, make_asbw, extract_opcode, extract_asbw}
use zis_lang.Opcode
use zis_lang.Opcode.{OpType, op_type_of}
use zis_lang.Assembler.{
  Assembler, Jump, is_extended, instr_buffer_insert, label_table_shift, jumpinstr_table_shift,
  append_aw,
}

abbrev pub jmpt : ℕ
jmpt = 0x29

-- _opposite_jump_instr_table
abbrev pub opposite_jump_instr_table : List ℕ
opposite_jump_instr_table = 0x2a ∷ 0x29 ∷ 0x2e ∷ 0x2f ∷ 0x30 ∷ 0x2b ∷ 0x2c ∷ 0x2d ∷ []

-- _as_finish_opposite_jump_instr; an index outside the table fails an assertion
unfoldable pub opposite_jump_instr : ℕ → ℕ
opposite_jump_instr opcode = get_or opposite_jump_instr_table (opcode - Opcode.jmp - 1) 0

-- `<` of two int32_t
unfoldable pub lt_int : ℤ → ℤ → Bool
lt_int a b = ltb (pos_part a + neg_part b) (pos_part b + neg_part a)

-- ZIS_INSTR_I25_MIN … ZIS_INSTR_I25_MAX and ZIS_INSTR_I9_MIN … ZIS_INSTR_I9_MAX
unfoldable pub outside_i25 : ℤ → Bool
unfolding lt_int
outside_i25 n = lt_int n (negsuc (2 ^ 24 - 1)) || lt_int (pos (2 ^ 24 - 1)) n

unfoldable pub outside_i9 : ℤ → Bool
unfolding lt_int
outside_i9 n = lt_int n (negsuc (2 ^ 8 - 1)) || lt_int (pos (2 ^ 8 - 1)) n

unfoldable pub jump_offset : ℕ → ℕ → ℤ
jump_offset label address = signed32 (u32 (label + 2 ^ 32 - address))

-- what filling an entry comes to
pub data Filled : Type 0 where
  fills : Jump → Filled
  extends : Jump → Filled
  panics : Filled

-- case ZIS_OP_Asw, where the entry is not extended
unfoldable pub fill_wide : ℕ → ℤ → Jump → Filled
unfolding outside_i25
fill_wide opcode offset e =
    if outside_i25 offset then panics else fills (record e { instr0 = make_asw opcode offset })

-- case ZIS_OP_AsBw and ZIS_OP_AsBC
unfoldable pub fill_narrow : ℕ → ℤ → Jump → Filled
unfolding is_extended outside_i25 outside_i9 opposite_jump_instr
fill_narrow opcode offset e =
    let operand = (extract_asbw e.instr0).1 in
    if is_extended e
    then (if outside_i25 offset
        then panics
        else fills (record e { instr1 = make_asw Opcode.jmp offset }))
    else if outside_i9 offset
    then extends (record e {
      instr0 = make_asbw (opposite_jump_instr opcode) (pos 2) operand;
      instr1 = make_asw Opcode.jmp offset;
    })
    else fills (record e { instr0 = make_asbw opcode offset operand })

-- the switch; its other cases are not reached
unfoldable pub fill_as : OpType → ℕ → ℤ → Jump → Filled
unfolding fill_wide fill_narrow
fill_as OpType.asw opcode offset e = fill_wide opcode offset e
fill_as OpType.asbw opcode offset e = fill_narrow opcode offset e
fill_as OpType.asbc opcode offset e = fill_narrow opcode offset e
fill_as OpType.x opcode offset e = panics
fill_as OpType.aw opcode offset e = panics
fill_as OpType.abw opcode offset e = panics
fill_as OpType.absw opcode offset e = panics
fill_as OpType.abc opcode offset e = panics
fill_as OpType.abscs opcode offset e = panics

unfoldable pub fill_entry : ℕ → Jump → Filled
unfolding jump_offset fill_as
fill_entry label e =
    let opcode = extract_opcode e.instr0 in
    fill_as (op_type_of opcode) opcode (jump_offset label e.address) e

-- the entry with label_table_get, which asserts that there is such a label
unfoldable pub fill_at : List ℕ → Jump → Filled
unfolding fill_entry
fill_at labels e = elim (get_elem? labels e.label) [ none ↦ panics | some l ↦ fill_entry l e ]

-- What the loop over the table comes to: its end, the jump to _re_fill_jump_instr, or a panic.
pub data Turn {ℓ} (V : Type ℓ) : Type ℓ where
  ends : Assembler V → Turn V
  restarts : Assembler V → Turn V
  panic : Turn V

module _ {ℓ} {V : Type ℓ} where
  -- the entry ji, which becomes e, gets a second instruction behind the one it stands for
  unfoldable pub extend : Assembler V → ℕ → Jump → Assembler V
  extend self ji e =
      let at = e.address + 1 in
      record self {
        instrs = instr_buffer_insert self.instrs at (make_asw Opcode.count (pos ji));
        labels = label_table_shift at self.labels;
        jumps = jumpinstr_table_shift at (set self.jumps ji e);
      }

  -- the loop that fills the entries from ji on, of which n are left
  unfoldable pub fill_pass : ℕ → ℕ → Assembler V → Turn V
  unfolding fill_at extend
  fill_pass zero ji self = ends self
  fill_pass (suc n) ji self = elim (get_elem? self.jumps ji) [
    | none ↦ panic
    | some e ↦ elim (fill_at self.labels e) [
      | fills f ↦ fill_pass n (suc ji) (record self { jumps = set self.jumps ji f })
      | extends f ↦ restarts (extend self ji f)
      | panics ↦ panic
    ]
  ]

  -- _re_fill_jump_instr and what it is left by; a restart at the end is one that fuel forbids
  unfoldable pub fill_jumps : ℕ → Assembler V → Turn V
  unfolding fill_pass
  fill_jumps zero self = restarts self
  fill_jumps (suc fuel) self = elim (fill_pass (length self.jumps) 0 self) [
    | ends f ↦ ends f
    | restarts f ↦ fill_jumps fuel f
    | panic ↦ panic
  ]

  -- the last instruction returns or throws; otherwise a RETNIL is appended
  unfoldable pub append_retnil : Assembler V → Assembler V
  unfolding append_aw
  append_retnil self =
      let n = length self.instrs in
      let last_op = extract_opcode (get_or self.instrs (n - 1) 0) in
      if not (n == 0)
        && (last_op == Opcode.ret || last_op == Opcode.retnil || last_op == Opcode.thr)
      then self
      else append_aw Opcode.retnil 0 self

-- the loop that copies the instructions of the table
unfoldable pub copy_jumps : List Jump → List ℕ → List ℕ
unfolding is_extended
copy_jumps [] code = code
copy_jumps (e ∷ es) code =
    let first = set code e.address e.instr0 in
    copy_jumps es (if is_extended e then set first (e.address + 1) e.instr1 else first)

-- The code of zis_assembler_finish with the tables as they are then; none where it panics.
unfoldable pub finish {ℓ} : {V : Type ℓ} → Assembler V → Option (List ℕ × Assembler V)
unfolding append_retnil fill_jumps copy_jumps
finish self =
    let s = append_retnil self in
    elim (fill_jumps (suc (length s.jumps)) s) [
      | ends f ↦ some (copy_jumps f.jumps f.instrs, f)
      | restarts f ↦ none
      | panic ↦ none
    ]
