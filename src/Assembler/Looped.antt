-- ===== src/Assembler/Looped.antt =====
-- src/core/assembly.c, zis_assembler_finish: what the loop over the jumps leaves.
use zis_lang.Common.{
  ℕ, suc, ◌+◌, ◌-◌, ◌^◌, ◌≤◌, ◌<◌, ◌≡◌, refl, ap, Bool-cases, inl, inr, not, ◌&&◌, ◌||◌, ◌==◌,
  arith, List, [], ◌∷◌, length, get_elem?, get_or, some, length-append,
}
use zis_lang.Instr.{make_aw, extract_opcode}
use zis_lang.Opcode
use zis_lang.Assembler.{Assembler, Jump, append_aw}
use zis_lang.Assembler.Finish.{ends, fill_jumps, append_retnil, copy_jumps, finish}
use zis_lang.Assembler.Layout.{width, Layout}
use zis_lang.Assembler.Fill.{pending-le}
use zis_lang.Assembler.Pass.{IsFilled}
use zis_lang.Assembler.View.{IsEntry}
use zis_lang.Assembler.Extend.{IsSound}
use zis_lang.Assembler.Resolve.{fill_jumps-Resolved}
use zis_lang.Assembler.Follow.{IsMoved, IsMoved-refl}

-- A longer code has the same layout.
pub Layout-longer : (from len : ℕ) (es : List Jump) → Layout from len es → Layout from (suc len) es
unfolding Layout
Layout-longer from len [] l = omega arith
Layout-longer from len (e ∷ es) (l, r) = (l, Layout-longer (e.address + width e) len es r)

-- The instructions that a function may have: with one more for RETNIL and one for each jump, all
-- addresses are below 2 ^ 24.
abbrev pub IsShort : {V : Type 0} → Assembler V → Type 0
IsShort s = suc (length s.instrs) + length s.jumps < 2 ^ 24

module _ {V : Type 0} where
  appended : (s : Assembler V) → IsSound s → IsSound (append_aw Opcode.retnil 0 s)
  unfolding append_aw IsSound
  appended s (l, p, i) =
      rw (length-append s.instrs (make_aw Opcode.retnil 0 ∷ []), plus_one (length s.instrs))
        (Layout-longer 0 (length s.instrs) s.jumps l, λ k x q. omega (arith, p k x q), i)
    where
      plus_one : (n : ℕ) → n + 1 ≡ suc n
      plus_one n = omega arith

  pub returning :
      (s : Assembler V)
      → IsSound s
      → let r = append_retnil s in
        IsSound r
        × (length r.instrs ≤ suc (length s.instrs))
        × (r.jumps ≡ s.jumps)
        × (r.labels ≡ s.labels)
  unfolding append_retnil
  returning s h =
      let n = length s.instrs in
      let last_op = extract_opcode (get_or s.instrs (n - 1) 0) in
      elim (Bool-cases (
        not (n == 0)
        && (last_op == Opcode.ret || last_op == Opcode.retnil || last_op == Opcode.thr))) [
          | inl w ↦ rw (append_retnil, w) (h, omega arith, refl, refl)
          | inr w ↦
              rw (append_retnil, w)
                (
                  appended s h,
                  omega (arith, length-append s.instrs (make_aw Opcode.retnil 0 ∷ [])),
                  refl,
                  refl,
                )
        ]

  -- what the loop over the jumps leaves
  abbrev pub IsFinished : Assembler V → Assembler V → Type 0
  IsFinished s f =
      IsSound f
      × (length f.instrs ≤ suc (length s.instrs) + length s.jumps)
      × ((i : ℕ) (e : Jump)
          → get_elem? f.jumps i ≡ some e
          → IsFilled (IsEntry (length f.labels)) f.labels e)
      × IsMoved (append_retnil s) f

  pub looped :
      (s : Assembler V)
      → IsSound s
      → IsShort s
      → (f : Assembler V) × (fill_jumps (suc (length (append_retnil s).jumps)) (append_retnil s)
          ≡ ends f)
        × IsFinished s f
  looped s h b =
      let r = append_retnil s in
      let (sound, n, j, lb) = returning s h in
      let jumps_kept = ap length j in
      let (f, q, so, le, fi, mv) =
        fill_jumps-Resolved r (suc (length r.jumps)) r (IsMoved-refl r) sound
          (omega (arith, pending-le r.jumps)) (omega (arith, pending-le r.jumps, jumps_kept, n)) in
      (f, q, (so, omega (arith, le, pending-le r.jumps, jumps_kept, n), fi, mv))

  pub made :
      (s : Assembler V)
      → (h : IsSound s) → (b : IsShort s)
      → let f = (looped s h b).0 in finish s ≡ some (copy_jumps f.jumps f.instrs, f)
  unfolding finish
  made s h b = let (f, q, d) = looped s h b in rw (finish, q) refl
