-- ===== src/Codegen/Registers/Alloc.antt =====
-- frame_scope_alloc_regs hands out registers that are not in use.
use zis_lang.Common.{
  ℕ, suc, ◌+◌, ◌-◌, ◌^◌, ◌≤◌, ◌<◌, ◌≡◌, ◌⊎◌, inl, inr, refl, ap, ◌∙◌, true, false, ◌&&◌, ◌||◌, List,
  [], ◌∷◌, some, none, Option, ltb, get_elem?, arith, ◌==◌, Bool-cases, ◌≢◌, lt→ltb, ◌%◌,
}
use zis_lang.Codegen.Registers.{
  FreeRegs, Frame, Fit, exact, best, find_fit, alloc_fit, alloc_new, alloc_regs, remove_at,
  advance_start, minus,
}
use zis_lang.Codegen.Registers.Ranges.{
  among, is_live, IsFrame, nth_bounds, remove_at-AreRanges, remove_at-covers,
  advance_start-AreRanges, advance_start-covers, AreRanges-upper, covers-above,
}

-- The entry that a search stands for, or none.
abbrev Fits : ℕ → List FreeRegs → Fit → Type 0
Fits n all (exact k) = (x : FreeRegs) × (get_elem? all k ≡ some x) × (minus x.end x.start ≡ n)
Fits n all (best m k) =
    (m ≡ 2 ^ 32 - 1) ⊎ ((x : FreeRegs) × (get_elem? all k ≡ some x) × (n < minus x.end x.start))

module _ (n : ℕ) (all : List FreeRegs) where
  find_fit-Fits :
      (i : ℕ) (list : List FreeRegs) (min_n min_n_i : ℕ)
      → ((j : ℕ) → get_elem? all (i + j) ≡ get_elem? list j)
      → Fits n all (best min_n min_n_i)
      → Fits n all (find_fit n i list min_n min_n_i)
  unfolding find_fit
  find_fit-Fits i [] min_n min_n_i h m = m
  find_fit-Fits i (x ∷ list) min_n min_n_i h m =
      let here : get_elem? all i ≡ some x = ap (get_elem? all) (omega arith) ∙ h 0 in
      let tail : (j : ℕ) → get_elem? all (suc i + j) ≡ get_elem? list j =
        λ j. ap (get_elem? all) (omega arith) ∙ h (suc j) in
      let l = minus x.end x.start in
      elim (Bool-cases (l == n)) [
        | inl e ↦ rw e (x, here, ground arith)
        | inr e ↦ rw e (elim (Bool-cases (ltb n l && ltb l min_n)) [
          | inl s ↦ rw s (find_fit-Fits (suc i) list l i tail (inr (x, here, ground arith)))
          | inr s ↦ rw s (find_fit-Fits (suc i) list min_n min_n_i tail m)
        ])
      ]

-- n registers from reg on were free and are in use now; nothing else changed.
pub record Allocates (fs : Frame) (n reg : ℕ) (fs' : Frame) : Type 0 where
  pub frame : IsFrame fs'
  pub fresh : (r : ℕ) → among reg n r ≡ true → is_live fs r ≡ false
  pub live : (r : ℕ) → is_live fs' r ≡ (is_live fs r || among reg n r)
  pub first : 0 < reg
  pub last : reg + n ≤ suc fs'.reg_touched_max
  pub grown : fs'.reg_allocated_max ≤ fs.reg_allocated_max + n

abbrev pub AllocatesSome : Frame → ℕ → Option (ℕ × Frame) → Type 0
AllocatesSome fs n none = ⊥
AllocatesSome fs n (some (reg, fs')) = Allocates fs n reg fs'

-- No free entry has one register more than n.
abbrev pub LeavesMore : Frame → ℕ → Type 0
LeavesMore fs n =
    (i : ℕ) (x : FreeRegs) → get_elem? fs.free_regs_list i ≡ some x → x.end ≢ x.start + n + 1

module _ (fs : Frame) (n : ℕ) (pos : 0 < n) (h : IsFrame fs)
    (room : fs.reg_allocated_max + n < 2 ^ 32) (apart : LeavesMore fs n) where
  new : let (reg, fs') = alloc_new fs n in Allocates fs n reg fs'
  unfolding alloc_new
  new =
      let a = fs.reg_allocated_max in
      let above = λ (r : ℕ) (l : a ≤ r). covers-above 1 a r fs.free_regs_list h.ranges l in
      record {
        frame = record {
          ranges = AreRanges-upper 1 a _ fs.free_regs_list (omega arith) h.ranges;
          touched = ground arith;
        };
        fresh = λ r m. ground arith;
        live = λ r. ground (arith, above r);
        first = omega arith;
        last = ground arith;
        grown = omega arith;
      }

  whole :
      (i : ℕ) (x : FreeRegs)
      → get_elem? fs.free_regs_list i ≡ some x
      → minus x.end x.start ≡ n
      → Allocates fs n x.start (record fs { free_regs_list = remove_at i fs.free_regs_list })
  whole i x e l =
      let a = fs.reg_allocated_max in
      let x' = nth_bounds 1 a i fs.free_regs_list x h.ranges e in
      record {
        frame = record {
          ranges = remove_at-AreRanges 1 a i fs.free_regs_list h.ranges;
          touched = h.touched;
        };
        fresh = λ r m. ground (arith, x'.covered r);
        live = λ r. ground (
          arith,
          x'.above,
          x'.filled,
          x'.below,
          x'.covered r,
          remove_at-covers 1 a i r fs.free_regs_list x h.ranges e,
        );
        first = omega (arith, x'.above);
        last = omega (arith, x'.filled, x'.below, h.touched);
        grown = omega arith;
      }

  part :
      (i : ℕ) (x : FreeRegs)
      → get_elem? fs.free_regs_list i ≡ some x
      → n < minus x.end x.start
      → Allocates fs n x.start (record fs { free_regs_list = advance_start i n fs.free_regs_list })
  part i x e l =
      let a = fs.reg_allocated_max in
      let x' = nth_bounds 1 a i fs.free_regs_list x h.ranges e in
      record {
        frame = record {
          ranges =
              advance_start-AreRanges 1 a i n fs.free_regs_list x h.ranges e
                (omega (arith, x'.below, x'.filled)) (omega (arith, x'.below));
          touched = h.touched;
        };
        fresh = λ r m. ground (arith, x'.covered r);
        live = λ r. ground (
          arith,
          x'.above,
          x'.filled,
          x'.below,
          x'.covered r,
          advance_start-covers 1 a i n r fs.free_regs_list x h.ranges e
              (omega (arith, x'.below, x'.filled)) (omega (arith, x'.below)),
        );
        first = omega (arith, x'.above);
        last = omega (arith, x'.filled, x'.below, h.touched);
        grown = omega arith;
      }

  fitted : (f : Fit) → Fits n fs.free_regs_list f → AllocatesSome fs n (alloc_fit fs n f)
  unfolding alloc_fit
  fitted (exact k) (x, e, l) = rw (AllocatesSome, e) (whole k x e l)
  fitted (best m k) w = elim (Bool-cases (m == 2 ^ 32 - 1)) [
    | inl full ↦ rw full new
    | inr other ↦ rw other (elim w [
      | inl z ↦ absurd (ground arith)
      | inr (x, e, l) ↦
          let x' = nth_bounds 1 fs.reg_allocated_max k fs.free_regs_list x h.ranges e in
          let more = apart k x e in
          let left : ltb (((x.start + n) % 2 ^ 32 + 1) % 2 ^ 32) x.end ≡ true =
            lt→ltb _ _ (omega (arith, x'.above, x'.filled, x'.below, more)) in
          rw (AllocatesSome, e, left) (part k x e l)
    ])
  ]

  -- For n registers, not none, such that their numbers stay below 2 to the 32, and a frame whose free
  -- entries are in order, apart and below its greatest register in use, and none of which has one
  -- register more than n (the assertion behind the search fails there), frame_scope_alloc_regs
  -- returns the first of n registers that were not in use. They are in use afterwards, all other
  -- registers stay as they were, the entries stay in order, the greatest register ever used covers
  -- them, and the greatest register in use grows by no more than n.
  pub alloc_regs-Allocates : AllocatesSome fs n (alloc_regs fs n)
  unfolding alloc_regs
  alloc_regs-Allocates = fitted _ (
      find_fit-Fits n fs.free_regs_list 0 fs.free_regs_list (2 ^ 32 - 1) 0
        (λ j. ap (get_elem? fs.free_regs_list) (omega arith)) (inl refl))
