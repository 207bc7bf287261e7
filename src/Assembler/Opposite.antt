-- ===== src/Assembler/Opposite.antt =====
-- src/core/assembly.c, _as_finish_opposite_jump_instr: the opposite of a conditional jump.
use zis_lang.Common.{ℕ, zero, suc, ◌+◌, ◌-◌, ◌≤◌, ◌<◌, ◌≡◌, ◌≢◌, refl, inr, arith, List, length}
use mathlib.Core.Path.{subst}
use zis_lang.Common.Int.{pos}
use zis_lang.Instr.{extract_opcode, extract_asbw}
use zis_lang.Assembler.{Jump}
use zis_lang.Assembler.Finish.{extends, fill_at, opposite_jump_instr}
use zis_lang.Assembler.View.{IsEntry, View, far, fill_at-View, opcode_asbw}

opposites :
    (k opcode : ℕ)
    → k < 8
    → opcode ≡ 0x29 + k
    → (0x29 ≤ opposite_jump_instr opcode)
      × (opposite_jump_instr opcode ≤ 0x30)
      × (opposite_jump_instr opcode ≢ opcode)
      × (opposite_jump_instr (opposite_jump_instr opcode) ≡ opcode)
unfolding opposite_jump_instr
opposites zero opcode h q = rw q (omega arith, omega arith, (λ z. omega (arith, z)), refl)
opposites (suc zero) opcode h q = rw q (omega arith, omega arith, (λ z. omega (arith, z)), refl)
opposites (suc (suc zero)) opcode h q =
    rw q (omega arith, omega arith, (λ z. omega (arith, z)), refl)
opposites (suc (suc (suc zero))) opcode h q =
    rw q (omega arith, omega arith, (λ z. omega (arith, z)), refl)
opposites (suc (suc (suc (suc zero)))) opcode h q =
    rw q (omega arith, omega arith, (λ z. omega (arith, z)), refl)
opposites (suc (suc (suc (suc (suc zero))))) opcode h q =
    rw q (omega arith, omega arith, (λ z. omega (arith, z)), refl)
opposites (suc (suc (suc (suc (suc (suc zero)))))) opcode h q =
    rw q (omega arith, omega arith, (λ z. omega (arith, z)), refl)
opposites (suc (suc (suc (suc (suc (suc (suc zero))))))) opcode h q =
    rw q (omega arith, omega arith, (λ z. omega (arith, z)), refl)
opposites (suc (suc (suc (suc (suc (suc (suc (suc k)))))))) opcode h q = absurd (omega arith)

-- Each conditional jump has an opposite one, a different one whose opposite it is.
opposite_jump_instr-involution :
    (opcode : ℕ)
    → 0x29 ≤ opcode
    → opcode ≤ 0x30
    → (0x29 ≤ opposite_jump_instr opcode)
      × (opposite_jump_instr opcode ≤ 0x30)
      × (opposite_jump_instr opcode ≢ opcode)
      × (opposite_jump_instr (opposite_jump_instr opcode) ≡ opcode)
opposite_jump_instr-involution opcode a b =
    opposites (opcode - 0x29) opcode (omega arith) (omega arith)

-- Extending an entry leaves an entry.
pub extends-IsEntry :
    (labels : List ℕ) (e f : Jump)
    → IsEntry (length labels) e
    → fill_at labels e ≡ extends f
    → IsEntry (length labels) f
unfolding IsEntry
extends-IsEntry labels e f i q = kept e f (subst (View labels e) q (fill_at-View labels e i)) i
  where
    kept :
        (e f : Jump)
        → View labels e (extends f)
        → IsEntry (length labels) e
        → IsEntry (length labels) f
    kept e f (far l q a w) (b, c) =
        let op = opposite_jump_instr (extract_opcode e.instr0) in
        let (x, y, z, v) = opposite_jump_instr-involution (extract_opcode e.instr0) a.0 a.1 in
        let o = opcode_asbw op (pos 2) (extract_asbw e.instr0).1 (omega (arith, y)) in
        (b, inr (omega (arith, o, x), omega (arith, o, y)))
