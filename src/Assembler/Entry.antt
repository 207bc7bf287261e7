-- ===== src/Assembler/Entry.antt =====
-- src/core/assembly.c, zis_assembler_finish: what filling an entry keeps of it.
use zis_lang.Common.{
  ℕ, List, get_elem?, Option-cases, ◌≡◌, refl, ap, sym, ◌∙◌, true, false, Bool-cases, inl, inr,
  arith, ◌==◌, not,
}
use zis_lang.Common.Int.{ℤ}
use zis_lang.Instr.{make_asw, pattern32, extract_opcode}
use zis_lang.Instr.Fields.{place_wide_a}
use zis_lang.Opcode
use zis_lang.Opcode.{OpType, op_type_of}
use zis_lang.Assembler.{Jump, is_extended, uint32_max}
use zis_lang.Assembler.Finish.{
  Filled, fills, extends, panics, fill_narrow, fill_as, fill_wide, fill_at, fill_entry, jump_offset,
  outside_i25, outside_i9,
}

-- A JMP is not the mark of an entry that is not extended.
pub make_asw-mark : (n : ℤ) → (make_asw Opcode.jmp n == uint32_max) ≡ false
unfolding make_asw
make_asw-mark n = rw (place_wide_a Opcode.jmp (pattern32 n) (omega arith)) (ground arith)

-- where an entry stands, and what it jumps to
abbrev pub SamePlace : Jump → Jump → Type 0
SamePlace e f = (f.address ≡ e.address) × (f.label ≡ e.label)

unfoldable pub Keeps : Jump → Filled → Type 0
Keeps e (fills f) = SamePlace e f × (is_extended f ≡ is_extended e)
Keeps e (extends f) = SamePlace e f × (is_extended e ≡ false) × (is_extended f ≡ true)
Keeps e panics = Unit {0}

fill_narrow-Keeps : (opcode : ℕ) (offset : ℤ) (e : Jump) → Keeps e (fill_narrow opcode offset e)
unfolding is_extended fill_narrow Keeps
fill_narrow-Keeps opcode offset e = elim (Bool-cases (is_extended e)) [
  | inl w ↦ elim (Bool-cases (outside_i25 offset)) [
    | inl v ↦ rw (fill_narrow, w, v) tt
    | inr v ↦ rw (fill_narrow, w, v) ((refl, refl), ap not (make_asw-mark offset) ∙ sym w)
  ]
  | inr w ↦ elim (Bool-cases (outside_i9 offset)) [
    | inl v ↦ rw (fill_narrow, w, v) ((refl, refl), w, ap not (make_asw-mark offset))
    | inr v ↦ rw (fill_narrow, w, v) ((refl, refl), refl)
  ]
]

pub fill_as-Keeps :
    (t : OpType) (opcode : ℕ) (offset : ℤ) (e : Jump) → Keeps e (fill_as t opcode offset e)
unfolding fill_as Keeps
fill_as-Keeps OpType.asw opcode offset e = elim (Bool-cases (outside_i25 offset)) [
  | inl v ↦ rw (fill_wide, v) tt
  | inr v ↦ rw (fill_wide, v) ((refl, refl), refl)
]
fill_as-Keeps OpType.asbw opcode offset e = fill_narrow-Keeps opcode offset e
fill_as-Keeps OpType.asbc opcode offset e = fill_narrow-Keeps opcode offset e
fill_as-Keeps OpType.x opcode offset e = tt
fill_as-Keeps OpType.aw opcode offset e = tt
fill_as-Keeps OpType.abw opcode offset e = tt
fill_as-Keeps OpType.absw opcode offset e = tt
fill_as-Keeps OpType.abc opcode offset e = tt
fill_as-Keeps OpType.abscs opcode offset e = tt

pub fill_at-Keeps : (labels : List ℕ) (e : Jump) → Keeps e (fill_at labels e)
unfolding fill_at fill_entry Keeps
fill_at-Keeps labels e = elim (Option-cases (get_elem? labels e.label)) [
  | inl w ↦ rw (fill_at, w) tt
  | inr (l, w) ↦
      rw (fill_at, w)
        (fill_as-Keeps (op_type_of (extract_opcode e.instr0)) (extract_opcode e.instr0)
          (jump_offset l e.address) e)
]
