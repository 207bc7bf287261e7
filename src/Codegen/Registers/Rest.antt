-- ===== src/Codegen/Registers/Rest.antt =====
-- frame_scope_alloc_regs where one register is left of a free entry: its assertion fails.
use zis_lang.Common.{
  ℕ, suc, ◌+◌, ◌%◌, ◌^◌, ◌≤◌, ◌<◌, ◌≡◌, ◌≢◌, ◌⊎◌, inl, inr, refl, ap, sym, ◌∙◌, false, ◌&&◌, List,
  [], ◌∷◌, some, none, ltb, get_elem?, arith, ◌==◌, Bool-cases, zero, ◌-◌,
}
use mathlib.Core.Option.{some_inj, none-ne-some}
use mathlib.Core.Path.{subst}
use zis_lang.Codegen.Registers.{
  FreeRegs, Frame, Fit, exact, best, find_fit, alloc_fit, alloc_regs, minus,
}
use zis_lang.Codegen.Registers.Ranges.{IsFrame, nth_bounds}

-- A search ends with an entry of a length.
abbrev Ends : List FreeRegs → ℕ → Fit → Type 0
Ends all m (exact k) = ⊥
Ends all m (best b k) =
    (b ≡ m) × (x : FreeRegs) × (get_elem? all k ≡ some x) × (minus x.end x.start ≡ m)

le→not_ltb : (a b : ℕ) → b ≤ a → ltb a b ≡ false
le→not_ltb a b l = ground arith

module _ (n : ℕ) (all : List FreeRegs) where
  -- what the search has found, or is to find in a list
  abbrev Pending : List FreeRegs → ℕ → ℕ → Type 0
  Pending list min_n min_n_i =
      Ends all (suc n) (best min_n min_n_i)
      ⊎ ((suc n < min_n)
          × (j : ℕ) × (x : FreeRegs) × (get_elem? list j ≡ some x)
          × (minus x.end x.start ≡ suc n))

  -- no entry of n registers, and one of n + 1, found already or to come
  find_fit-Ends :
      (i : ℕ) (list : List FreeRegs) (min_n min_n_i : ℕ)
      → ((j : ℕ) → get_elem? all (i + j) ≡ get_elem? list j)
      → ((j : ℕ) (x : FreeRegs) → get_elem? list j ≡ some x → minus x.end x.start ≢ n)
      → suc n ≤ min_n
      → Pending list min_n min_n_i
      → Ends all (suc n) (find_fit n i list min_n min_n_i)
  unfolding find_fit
  find_fit-Ends i [] min_n min_n_i h differ l (inl m) = m
  find_fit-Ends i [] min_n min_n_i h differ l (inr (s, j, x, q, e)) = absurd (none-ne-some x q)
  find_fit-Ends i (x ∷ list) min_n min_n_i h differ l c =
      let here : get_elem? all i ≡ some x = ap (get_elem? all) (omega arith) ∙ h 0 in
      let tail : (j : ℕ) → get_elem? all (suc i + j) ≡ get_elem? list j =
        λ j. ap (get_elem? all) (omega arith) ∙ h (suc j) in
      let later = λ (j : ℕ) (y : FreeRegs) (q : get_elem? list j ≡ some y). differ (suc j) y q in
      let k = minus x.end x.start in
      let d = differ 0 x refl in
      let other : (k == n) ≡ false = ground (arith, d) in
      rw (find_fit, other)
        (elim (Bool-cases (ltb n k && ltb k min_n)) [
          | inl w ↦ rw w (
              let above : suc n ≤ k = ground (arith, w) in
              find_fit-Ends (suc i) list k i tail later above
                (taken x here above (ground (arith, w)) c))
          | inr w ↦ rw w (find_fit-Ends (suc i) list min_n min_n_i tail later l (passed x w d l c))
        ])
    where
      taken :
          (x : FreeRegs)
          → get_elem? all i ≡ some x
          → suc n ≤ minus x.end x.start
          → minus x.end x.start < min_n
          → Pending (x ∷ list) min_n min_n_i
          → Pending list (minus x.end x.start) i
      taken x here a b (inl (e, y, r, o)) = absurd (omega (arith, e))
      taken x here a b (inr (s, zero, y, q, e)) =
          let p : minus x.end x.start ≡ suc n =
            subst (λ (u : FreeRegs). minus u.end u.start ≡ suc n) (sym (some_inj.0 q)) e in
          inl (p, x, here, p)
      taken x here a b (inr (s, suc j, y, q, e)) =
          elim (Bool-cases (minus x.end x.start == suc n)) [
            | inl t ↦
                (let p : minus x.end x.start ≡ suc n = ground (arith, t) in inl (p, x, here, p))
            | inr t ↦ inr (ground (arith, t, a), j, y, q, e)
          ]

      passed :
          (x : FreeRegs)
          → (ltb n (minus x.end x.start) && ltb (minus x.end x.start) min_n) ≡ false
          → minus x.end x.start ≢ n
          → suc n ≤ min_n
          → Pending (x ∷ list) min_n min_n_i
          → Pending list min_n min_n_i
      passed x w d l (inl m) = inl m
      passed x w d l (inr (s, zero, y, q, e)) =
          let p : minus x.end x.start ≡ suc n =
            subst (λ (u : FreeRegs). minus u.end u.start ≡ suc n) (sym (some_inj.0 q)) e in
          absurd (ground (arith, w, p, s))
      passed x w d l (inr (s, suc j, y, q, e)) = inr (s, j, y, q, e)

-- For a frame whose free entries are in order, apart and below its greatest register in use, itself
-- below 2 to the 32, where no free entry has just n registers and one has n + 1: the entry that
-- frame_scope_alloc_regs takes n registers from keeps one, and the assertion behind the search fails.
pub alloc_regs-fault :
    (fs : Frame) (n i : ℕ) (x : FreeRegs)
    → 0 < n
    → IsFrame fs
    → fs.reg_allocated_max < 2 ^ 32
    → ((j : ℕ) (y : FreeRegs) → get_elem? fs.free_regs_list j ≡ some y → y.end ≢ y.start + n)
    → get_elem? fs.free_regs_list i ≡ some x
    → x.end ≡ x.start + suc n
    → alloc_regs fs n ≡ none
unfolding alloc_regs alloc_fit
alloc_regs-fault fs n i x pos h room differ q e =
    let a = fs.reg_allocated_max in
    let list = fs.free_regs_list in
    let x' = nth_bounds 1 a i list x h.ranges q in
    failed (find_fit n 0 list (2 ^ 32 - 1) 0) (
      find_fit-Ends n list 0 list (2 ^ 32 - 1) 0 (λ j. ap (get_elem? list) (omega arith))
        (λ j y r.
          let y' = nth_bounds 1 a j list y h.ranges r in
          let d = differ j y r in λ t. d (omega (arith, t, y'.above, y'.filled, y'.below)))
        (omega (arith, x'.above, x'.below, e))
        (inr (omega (arith, x'.above, x'.below, e), i, x, q, omega (arith, x'.above, x'.below, e))))
  where
    failed : (f : Fit) → Ends fs.free_regs_list (suc n) f → alloc_fit fs n f ≡ none
    failed (exact k) w = absurd w
    failed (best b k) (t, y, r, o) =
        let a = fs.reg_allocated_max in
        let y' = nth_bounds 1 a k fs.free_regs_list y h.ranges r in
        let x' = nth_bounds 1 a i fs.free_regs_list x h.ranges q in
        let other : (b == 2 ^ 32 - 1) ≡ false = ground (arith, t, x'.above, x'.below, e) in
        let over : ltb (((y.start + n) % 2 ^ 32 + 1) % 2 ^ 32) y.end ≡ false =
          le→not_ltb _ _ (omega (arith, o, y'.above, y'.filled, y'.below)) in
        rw (alloc_fit, other, r, over) refl
