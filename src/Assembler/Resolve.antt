-- ===== src/Assembler/Resolve.antt =====
-- src/core/assembly.c, zis_assembler_finish: the loop that fills the jumps comes to an end.
use zis_lang.Common.{
  ℕ, zero, suc, ◌+◌, ◌^◌, ◌≤◌, ◌<◌, ◌≡◌, ◌≢◌, refl, ap, sym, ◌∙◌, arith, length, get_elem?, some,
}
use mathlib.Core.Path.{subst}
use mathlib.Core.Bool.{true≢false}
use zis_lang.Assembler.{Assembler, Jump}
use zis_lang.Assembler.Finish.{panics, fill_at, Turn, ends, restarts, panic, fill_pass, fill_jumps}
use zis_lang.Assembler.Layout.{Layout-get_elem?, width-pos}
use zis_lang.Assembler.Fill.{Alike-length, Alike-pending, pending}
use zis_lang.Assembler.Pass.{IsFilled, Outcome, fill_pass-Outcome, get_elem?-length}
use zis_lang.Assembler.View.{IsEntry, View, too_far, fill_at-View, fill_at-IsEntry}
use zis_lang.Assembler.Extend.{IsSound, Same-IsSound, extend-IsSound}
use zis_lang.Assembler.Follow.{IsMoved, Same-IsMoved, extend-IsMoved}
use zis_lang.Assembler.Offset.{jump_offset-inside}

module _ {V : Type 0} where
  -- In code that is short enough, no jump is too far for 25 bits.
  no_panic :
      (g : Assembler V) (k : ℕ) (e : Jump)
      → IsSound g
      → length g.instrs < 2 ^ 24
      → get_elem? g.jumps k ≡ some e
      → fill_at g.labels e ≢ panics
  unfolding IsSound
  no_panic g k e (l, p, i) s q w =
      seen (subst (View g.labels e) w (fill_at-View g.labels e (i k e q)))
    where
      seen : View g.labels e panics → ⊥
      seen (too_far t u v) = true≢false (
          sym v
          ∙ jump_offset-inside t e.address (omega (arith, p e.label t u)) (
              omega (arith, (Layout-get_elem? 0 (length g.instrs) g.jumps k e l q).1, width-pos e)))

  -- the outcome of the loop: every entry is filled, and all has moved from where it was in r
  abbrev pub Resolved : Assembler V → Assembler V → ℕ → Turn V → Type 0
  Resolved r s fuel t =
      (f : Assembler V) × (t ≡ ends f)
      × IsSound f
      × (length f.instrs ≤ length s.instrs + pending s.jumps)
      × ((i : ℕ) (e : Jump)
          → get_elem? f.jumps i ≡ some e
          → IsFilled (IsEntry (length f.labels)) f.labels e)
      × IsMoved r f

  -- As many restarts as there are jumps that are not extended are enough, and the jumps of code
  -- that stays short enough with an instruction more for each of them are all filled.
  pub fill_jumps-Resolved :
      (r : Assembler V) (fuel : ℕ) (s : Assembler V)
      → IsMoved r s
      → IsSound s
      → pending s.jumps < fuel
      → length s.instrs + pending s.jumps < 2 ^ 24
      → Resolved r s fuel (fill_jumps fuel s)
  unfolding fill_jumps IsSound Outcome
  fill_jumps-Resolved r zero s mv h p b = absurd (omega arith)
  fill_jumps-Resolved r (suc fuel) s mv (l, pl, en) p b =
      turn (fill_pass (length s.jumps) 0 s) refl
        (fill_pass-Outcome (IsEntry (length s.labels)) (length s.jumps) 0 s
          (fill_at-IsEntry s.labels) en (omega arith))
        (λ g. fill_jumps-Resolved r fuel g)
    where
      turn :
          (t : Turn V)
          → fill_pass (length s.jumps) 0 s ≡ t
          → Outcome (IsEntry (length s.labels)) s 0 (length s.jumps) t
          → ((g : Assembler V)
              → IsMoved r g
              → IsSound g
              → pending g.jumps < fuel
              → length g.instrs + pending g.jumps < 2 ^ 24
              → Resolved r g fuel (fill_jumps fuel g))
          → Resolved r s (suc fuel) (fill_jumps (suc fuel) s)
      turn (ends f) q ((a, c, al), ps, below, above) ih = (
        f,
        rw (fill_jumps, q) refl,
        Same-IsSound s f (a, c, al) ps (l, pl, en),
        omega (arith, ap length a),
        λ i e j. rw c (
            above i e (omega arith) (omega (arith, get_elem?-length f.jumps i e j, Alike-length al))
              j),
        Same-IsMoved r s f (a, c, al) mv,
      )
      turn (restarts f) q (g, k, e, d, ((a, c, al), ps, j), w, z) ih =
          let size = ap length a in
          let (sf, n, m, o, pe) =
            extend-IsSound g k e d (Same-IsSound s g (a, c, al) ps (l, pl, en))
              (omega (arith, size)) j (rw c w) in
          let mg =
            extend-IsMoved r g k e d (Same-IsSound s g (a, c, al) ps (l, pl, en))
              (omega (arith, size)) j (rw c w) (Same-IsMoved r s g (a, c, al) mv) in
          let grown : length f.instrs ≡ suc (length g.instrs) =
            ap (λ (u : Assembler V). length u.instrs) z ∙ n in
          let fewer : suc (pending f.jumps) ≡ pending g.jumps =
            ap (λ (u : Assembler V). suc (pending u.jumps)) z ∙ pe in
          let kept = Alike-pending al in
          let (h, ends_at, sound, bound, filled, mh) =
            ih f (subst (IsMoved r) (sym z) mg) (subst IsSound (sym z) sf)
              (omega (arith, fewer, kept)) (omega (arith, fewer, kept, grown, size)) in
          (
            h,
            rw (fill_jumps, q) ends_at,
            sound,
            omega (arith, bound, fewer, kept, grown, size),
            filled,
            mh,
          )
      turn panic q (g, k, e, ((a, c, al), ps, j), w) ih = absurd (
          no_panic g k e (Same-IsSound s g (a, c, al) ps (l, pl, en)) (omega (arith, ap length a)) j
            (rw c w))
