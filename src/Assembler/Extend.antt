-- ===== src/Assembler/Extend.antt =====
-- src/core/assembly.c: the state after a jump is extended.
use zis_lang.Common.{
  ℕ, zero, suc, ◌+◌, ◌-◌, ◌^◌, ◌≤◌, ◌<◌, ◌≡◌, refl, ap, sym, ◌∙◌, true, false, arith, List, [], ◌∷◌,
  length, get_elem?, set, map, some, length-map, length-set,
}
use mathlib.Core.Path.{subst}
use mathlib.Core.Option.{none-ne-some, some_inj}
use zis_lang.Common.Int.{pos}
use zis_lang.Instr.{make_asw}
use zis_lang.Opcode
use zis_lang.Assembler.{
  Assembler, Jump, is_extended, shift_address, shift_jump, jumpinstr_table_shift, label_table_shift,
}
use zis_lang.Assembler.Shift.{length-instr_buffer_insert}
use zis_lang.Assembler.Finish.{extends, fill_at, extend}
use zis_lang.Assembler.Entry.{Keeps, fill_at-Keeps}
use zis_lang.Assembler.Layout.{Layout, Layout-extend, width-single, width-extended}
use zis_lang.Assembler.Fill.{Alike-Layout, pending}
use zis_lang.Assembler.Pass.{All, All-set, Same}
use zis_lang.Assembler.View.{IsEntry}
use zis_lang.Assembler.Opposite.{extends-IsEntry}

All-map {ℓ} :
    {A : Type ℓ} (P Q : A → Type 0) (f : A → A) (xs : List A)
    → ((x : A) → P x → Q (f x))
    → All P xs
    → All Q (map f xs)
All-map P Q f [] h a i x q = absurd (none-ne-some x q)
All-map P Q f (y ∷ xs) h a zero x q = subst Q (some_inj.0 q) (h y (a 0 y refl))
All-map P Q f (y ∷ xs) h a (suc i) x q = All-map P Q f xs h (λ j. a (suc j)) i x q

shift_address-le : (at x : ℕ) → shift_address at x ≤ suc x
unfolding shift_address
shift_address-le at x = ground arith

pending-shift : (at : ℕ) (es : List Jump) → pending (jumpinstr_table_shift at es) ≡ pending es
unfolding pending jumpinstr_table_shift shift_jump is_extended
pending-shift at [] = refl
pending-shift at (e ∷ es) = omega (arith, pending-shift at es)

-- The jumps that are not extended are one fewer.
pending-set :
    (es : List Jump) (k : ℕ) (e d : Jump)
    → get_elem? es k ≡ some e
    → is_extended e ≡ false
    → is_extended d ≡ true
    → suc (pending (set es k d)) ≡ pending es
unfolding pending
pending-set [] k e d q a b = absurd (none-ne-some e q)
pending-set (x ∷ es) zero e d q a b = rw (b, ap is_extended (some_inj.0 q) ∙ a) (omega arith)
pending-set (x ∷ es) (suc k) e d q a b = omega (arith, pending-set es k e d q a b)

-- The entries do not overlap and have labels, and the labels are placed.
unfoldable pub IsSound : {V : Type 0} → Assembler V → Type 0
IsSound s =
    Layout 0 (length s.instrs) s.jumps
    × All (λ l. l ≤ length s.instrs) s.labels
    × All (IsEntry (length s.labels)) s.jumps

shifted_entries :
    (at m : ℕ) (es : List Jump) → All (IsEntry m) es → All (IsEntry m) (jumpinstr_table_shift at es)
unfolding IsEntry jumpinstr_table_shift shift_jump is_extended
shifted_entries at m es a = All-map (IsEntry m) (IsEntry m) (shift_jump at) es (λ e h. h) a

module _ {V : Type 0} where
  pub Same-IsSound :
      (s g : Assembler V)
      → Same s g
      → All (IsEntry (length s.labels)) g.jumps
      → IsSound s
      → IsSound g
  unfolding IsSound
  Same-IsSound s g (a, b, al) ps (l, p, i) =
      rw (a, b) (Alike-Layout 0 (length s.instrs) al l, p, ps)

  -- An extended jump takes one more instruction.
  pub extend-IsSound :
      (g : Assembler V) (k : ℕ) (e d : Jump)
      → IsSound g
      → length g.instrs < 2 ^ 32 - 1
      → get_elem? g.jumps k ≡ some e
      → fill_at g.labels e ≡ extends d
      → let f = extend g k d in
        IsSound f
        × (length f.instrs ≡ suc (length g.instrs))
        × (length f.labels ≡ length g.labels)
        × (length f.jumps ≡ length g.jumps)
        × (suc (pending f.jumps) ≡ pending g.jumps)
  unfolding IsSound extend Keeps label_table_shift jumpinstr_table_shift
  extend-IsSound g k e d (l, p, i) s q w =
      let at = d.address + 1 in
      let ((a, b), x, y) = subst (Keeps e) w (fill_at-Keeps g.labels e) in
      let n = length-instr_buffer_insert g.instrs at (make_asw Opcode.count (pos k)) in
      let m = length-map g.labels (shift_address at) in
      (
        rw (n, m)
            (
              subst
                  (λ u.
                    Layout 0 (suc (length g.instrs))
                      (jumpinstr_table_shift (u + 1) (set g.jumps k d)))
                  (sym a)
                  (Layout-extend 0 (length g.instrs) g.jumps k e d s l q a (width-single e x)
                    (width-extended d y)),
              All-map (λ u. u ≤ length g.instrs) (λ u. u ≤ suc (length g.instrs)) (shift_address at)
                  g.labels (λ u h. omega (arith, shift_address-le at u)) p,
              shifted_entries at (length g.labels) (set g.jumps k d) (
                  All-set (IsEntry (length g.labels)) g.jumps k d i
                    (extends-IsEntry g.labels e d (i k e q) w)),
            ),
        n,
        m,
        length-map (set g.jumps k d) (shift_jump at) ∙ length-set g.jumps k d,
        ap suc (pending-shift at (set g.jumps k d)) ∙ pending-set g.jumps k e d q x y,
      )
