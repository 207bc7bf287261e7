-- ===== src/Assembler/View.antt =====
-- src/core/assembly.c, zis_assembler_finish: the cases of filling an entry for a jump.
use zis_lang.Common.{
  ℕ, zero, suc, ◌+◌, ◌-◌, ◌*◌, ◌%◌, ◌≤◌, ◌<◌, ◌≡◌, refl, true, false, Bool-cases, inl, inr, ◌⊎◌,
  arith, List, length, get_elem?, some,
}
use mathlib.Core.Path.{subst}
use zis_lang.Common.Int.{ℤ, pos}
use zis_lang.Instr.{pattern32, make_asw, make_asbw, extract_opcode, extract_asbw}
use zis_lang.Instr.Fields.{place_wide_a, place_a, place_wide_b, mask7}
use zis_lang.Opcode
use zis_lang.Opcode.{op_type_of}
use zis_lang.Assembler.{Jump, is_extended}
use zis_lang.Assembler.Finish.{
  Filled, fills, extends, panics, fill_at, fill_entry, fill_as, fill_wide, fill_narrow, outside_i9,
  outside_i25, jump_offset, opposite_jump_instr,
}
use zis_lang.Assembler.Pass.{get_elem?-inside}

-- An entry for a JMP is never extended; the other jumps have the opcodes behind it.
unfoldable pub IsEntry : ℕ → Jump → Type 0
IsEntry labels e =
    (e.label < labels)
    × (((extract_opcode e.instr0 ≡ Opcode.jmp) × (is_extended e ≡ false))
        ⊎ ((0x29 ≤ extract_opcode e.instr0) × (extract_opcode e.instr0 ≤ 0x30)))

pub opcode_asw : (op : ℕ) (a : ℤ) → op < 128 → extract_opcode (make_asw op a) ≡ op
unfolding make_asw extract_opcode
opcode_asw op a h = rw (place_wide_a op (pattern32 a) h, mask7) (omega arith)

pub opcode_asbw : (op : ℕ) (a : ℤ) (b : ℕ) → op < 128 → extract_opcode (make_asbw op a b) ≡ op
unfolding make_asbw extract_opcode
opcode_asbw op a b h =
    rw
      (
        place_a op (pattern32 a) h,
        place_wide_b (pattern32 a % 512 * 128 + op) b (omega arith),
        mask7,
      )
      (omega arith)

-- the conditional jumps
narrow :
    (k opcode : ℕ) (offset : ℤ) (e : Jump)
    → k < 8
    → opcode ≡ 0x29 + k
    → fill_as (op_type_of opcode) opcode offset e ≡ fill_narrow opcode offset e
unfolding fill_as op_type_of
narrow zero opcode offset e h q = rw q refl
narrow (suc zero) opcode offset e h q = rw q refl
narrow (suc (suc zero)) opcode offset e h q = rw q refl
narrow (suc (suc (suc zero))) opcode offset e h q = rw q refl
narrow (suc (suc (suc (suc zero)))) opcode offset e h q = rw q refl
narrow (suc (suc (suc (suc (suc zero))))) opcode offset e h q = rw q refl
narrow (suc (suc (suc (suc (suc (suc zero)))))) opcode offset e h q = rw q refl
narrow (suc (suc (suc (suc (suc (suc (suc zero))))))) opcode offset e h q = rw q refl
narrow (suc (suc (suc (suc (suc (suc (suc (suc k)))))))) opcode offset e h q = absurd (omega arith)

abbrev pub IsCondition : Jump → Type 0
IsCondition e = (0x29 ≤ extract_opcode e.instr0) × (extract_opcode e.instr0 ≤ 0x30)

-- The cases, with the label's address.
pub data View (labels : List ℕ) (e : Jump) : Filled → Type 0 where
  jumps :
      (l : ℕ)
      → get_elem? labels e.label ≡ some l
      → extract_opcode e.instr0 ≡ Opcode.jmp
      → is_extended e ≡ false
      → outside_i25 (jump_offset l e.address) ≡ false
      → View labels e (fills (record e { instr0 = make_asw Opcode.jmp (jump_offset l e.address) }))
  near :
      (l : ℕ)
      → get_elem? labels e.label ≡ some l
      → IsCondition e
      → is_extended e ≡ false
      → outside_i9 (jump_offset l e.address) ≡ false
      → View labels e (
          fills (record e {
            instr0 =
                make_asbw
                  (extract_opcode e.instr0)
                  (jump_offset l e.address)
                  (extract_asbw e.instr0).1;
          }))
  far :
      (l : ℕ)
      → get_elem? labels e.label ≡ some l
      → IsCondition e
      → is_extended e ≡ false
      → View labels e (
          extends (record e {
            instr0 =
                make_asbw
                  (opposite_jump_instr (extract_opcode e.instr0))
                  (pos 2)
                  (extract_asbw e.instr0).1;
            instr1 = make_asw Opcode.jmp (jump_offset l e.address);
          }))
  again :
      (l : ℕ)
      → get_elem? labels e.label ≡ some l
      → IsCondition e
      → is_extended e ≡ true
      → outside_i25 (jump_offset l e.address) ≡ false
      → View labels e (fills (record e { instr1 = make_asw Opcode.jmp (jump_offset l e.address) }))
  too_far :
      (l : ℕ)
      → get_elem? labels e.label ≡ some l
      → outside_i25 (jump_offset l e.address) ≡ true
      → View labels e panics

wide :
    (opcode : ℕ) (offset : ℤ) (e : Jump)
    → opcode ≡ Opcode.jmp
    → fill_as (op_type_of opcode) opcode offset e ≡ fill_wide Opcode.jmp offset e
unfolding fill_as op_type_of
wide opcode offset e q = rw q refl

-- The cases of the switch, where the label is placed at l.
fill_wide-View :
    (labels : List ℕ) (e : Jump) (l : ℕ)
    → get_elem? labels e.label ≡ some l
    → extract_opcode e.instr0 ≡ Opcode.jmp
    → is_extended e ≡ false
    → View labels e (fill_wide Opcode.jmp (jump_offset l e.address) e)
unfolding fill_wide
fill_wide-View labels e l q c w = elim (Bool-cases (outside_i25 (jump_offset l e.address))) [
  | inl v ↦ rw (fill_wide, v) (too_far l q v)
  | inr v ↦ rw (fill_wide, v) (jumps l q c w v)
]

fill_narrow-View :
    (labels : List ℕ) (e : Jump) (l : ℕ)
    → get_elem? labels e.label ≡ some l
    → IsCondition e
    → View labels e (fill_narrow (extract_opcode e.instr0) (jump_offset l e.address) e)
unfolding fill_narrow
fill_narrow-View labels e l q c =
    let offset = jump_offset l e.address in
    elim (Bool-cases (is_extended e)) [
      | inl w ↦ elim (Bool-cases (outside_i25 offset)) [
        | inl v ↦ rw (fill_narrow, w, v) (too_far l q v)
        | inr v ↦ rw (fill_narrow, w, v) (again l q c w v)
      ]
      | inr w ↦ elim (Bool-cases (outside_i9 offset)) [
        | inl v ↦ rw (fill_narrow, w, v) (far l q c w)
        | inr v ↦ rw (fill_narrow, w, v) (near l q c w v)
      ]
    ]

pub fill_at-View :
    (labels : List ℕ) (e : Jump) → IsEntry (length labels) e → View labels e (fill_at labels e)
unfolding fill_at fill_entry IsEntry
fill_at-View labels e (b, c) =
    let (l, q) = get_elem?-inside labels e.label b in
    let op = extract_opcode e.instr0 in
    let offset = jump_offset l e.address in
    elim c [
      | inl (a, w) ↦
          rw (fill_at, q, fill_entry, wide op offset e a) (fill_wide-View labels e l q a w)
      | inr (a, d) ↦
          rw (fill_at, q, fill_entry, narrow (op - 0x29) op offset e (omega arith) (omega arith))
            (fill_narrow-View labels e l q (a, d))
    ]

-- Filling an entry leaves an entry.
pub fill_at-IsEntry :
    (labels : List ℕ) (e f : Jump)
    → IsEntry (length labels) e
    → fill_at labels e ≡ fills f
    → IsEntry (length labels) f
unfolding IsEntry is_extended
fill_at-IsEntry labels e f i q = kept e f (subst (View labels e) q (fill_at-View labels e i)) i
  where
    kept :
        (e f : Jump)
        → View labels e (fills f)
        → IsEntry (length labels) e
        → IsEntry (length labels) f
    kept e f (jumps l q a w v) (b, c) =
        (b, inl (opcode_asw Opcode.jmp (jump_offset l e.address) (omega arith), w))
    kept e f (near l q a w v) (b, c) =
        let o =
          opcode_asbw (extract_opcode e.instr0) (jump_offset l e.address) (extract_asbw e.instr0).1
            (omega (arith, a.1)) in
        (b, inr (omega (arith, o, a.0), omega (arith, o, a.1)))
    kept e f (again l q a w v) (b, c) = (b, inr a)
