-- ===== src/Assembler/Landing.antt =====
-- src/core/assembly.c and invoke.c: where the instructions of a filled entry lead.
use zis_lang.Common.{
  ℕ, ◌+◌, ◌^◌, ◌≤◌, ◌<◌, ◌≡◌, ◌≢◌, sym, ap, ◌∙◌, true, false, inl, inr, ◌⊎◌, arith, List, get_elem?,
  some,
}
use mathlib.Core.Path.{subst}
use mathlib.Core.Option.{some_inj}
use mathlib.Core.Bool.{true≢false, not}
use zis_lang.Common.Int.{pos, ◌+ℤ◌}
use zis_lang.Instr.{make_asbw, extract_opcode, extract_asbw}
use zis_lang.Assembler.{Jump, is_extended}
use zis_lang.Assembler.Finish.{fills, jump_offset, outside_i9}
use zis_lang.Assembler.Entry.{make_asw-mark}
use zis_lang.Assembler.View.{View, jumps, near, again, opcode_asbw}
use zis_lang.Assembler.Decode.{jump_target, jmp_target, condition_target, landing, landing_past}

-- An entry is filled for the label that the table holds for it.
same_label :
    (labels : List ℕ) (n t l : ℕ)
    → get_elem? labels n ≡ some t
    → get_elem? labels n ≡ some l
    → t ≡ l
same_label labels n t l u k = some_inj.0 (sym u ∙ k)

-- not a JMPT or JMPF back
abbrev pub IsExact : Jump → ℕ → Type 0
IsExact e l =
    ((extract_opcode e.instr0 ≢ 0x29) × (extract_opcode e.instr0 ≢ 0x2a)) ⊎ (e.address ≤ l)

pub first_target :
    (labels : List ℕ) (d e : Jump) (l : ℕ)
    → View labels d (fills e)
    → get_elem? labels e.label ≡ some l
    → l < 2 ^ 31
    → e.address < 2 ^ 31
    → is_extended e ≡ false
    → IsExact e l
    → jump_target e.address e.instr0 ≡ pos l
unfolding is_extended
first_target labels d e l (jumps t u o x v) k h b w c =
    jmp_target d.address (jump_offset t d.address) v
    ∙ ap (λ n. pos d.address +ℤ jump_offset n d.address) (same_label labels d.label t l u k)
    ∙ landing l d.address h b
first_target labels d e l (near t u (o1, o2) x v) k h b w c =
    let op = extract_opcode d.instr0 in
    let operand = (extract_asbw d.instr0).1 in
    let q = same_label labels d.label t l u k in
    let kept = opcode_asbw op (jump_offset t d.address) operand (omega arith) in
    let exact : (0x2b ≤ op) ⊎ (d.address ≤ l) = elim c [
      | inl (c1, c2) ↦ inl (omega (arith, kept, c1, c2))
      | inr p ↦ inr p
    ] in
    ap (λ n. jump_target d.address (make_asbw op (jump_offset n d.address) operand)) q
    ∙ condition_target op d.address l operand o1 o2 h b
        (subst (λ n. outside_i9 (jump_offset n d.address) ≡ false) q v) exact
first_target labels d e l (again t u o x v) k h b w c =
    absurd (true≢false (sym (ap not (make_asw-mark (jump_offset t d.address))) ∙ w))

pub second_target :
    (labels : List ℕ) (d e : Jump) (l : ℕ)
    → View labels d (fills e)
    → get_elem? labels e.label ≡ some l
    → l < 2 ^ 31
    → e.address < 2 ^ 31
    → is_extended e ≡ true
    → jump_target (e.address + 1) e.instr1 ≡ pos (l + 1)
unfolding is_extended
second_target labels d e l (jumps t u o x v) k h b w = absurd (true≢false (sym w ∙ x))
second_target labels d e l (near t u o x v) k h b w = absurd (true≢false (sym w ∙ x))
second_target labels d e l (again t u o x v) k h b w =
    jmp_target (d.address + 1) (jump_offset t d.address) v
    ∙ ap (λ n. pos (d.address + 1) +ℤ jump_offset n d.address) (same_label labels d.label t l u k)
    ∙ landing_past l d.address h b
