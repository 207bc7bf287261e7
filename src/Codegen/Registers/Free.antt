-- ===== src/Codegen/Registers/Free.antt =====
-- frame_scope_free_regs takes registers back.
use zis_lang.Common.{
  ℕ, suc, ◌+◌, ◌-◌, ◌%◌, ◌^◌, ◌≤◌, ◌<◌, ◌≡◌, refl, true, ◌&&◌, not, List, [], ◌∷◌, arith, ◌==◌,
  Bool-cases, inl, inr, Option, some, none, length, get_elem?,
}
use zis_lang.Codegen.Registers.{
  FreeRegs, Frame, remove_at, insert_at, shrink_tail, free_regs, minus,
}
use zis_lang.Codegen.Registers.Ranges.{
  AreRanges, among, is_live, IsFrame, nth_bounds, remove_at-covers,
}
use zis_lang.Codegen.Registers.Insert.{insert_at-AreRanges}
use zis_lang.Codegen.Registers.Search.{Places, place-Places, last_entry}

-- Without the last entry, the others end before it.
tail_removed :
    (lo hi : ℕ) (x : FreeRegs) (list : List FreeRegs) (y : FreeRegs)
    → AreRanges lo (x ∷ list) hi
    → get_elem? (x ∷ list) (length list) ≡ some y
    → AreRanges lo (remove_at (length list) (x ∷ list)) (y.start - 1)
unfolding remove_at
tail_removed lo hi x [] y h e = tt
tail_removed lo hi x (z ∷ list) y h e =
    let t = nth_bounds (suc x.end) hi (length list) (z ∷ list) y h.3 e in
    (h.0, h.1, omega (arith, t.above), tail_removed (suc x.end) hi z list y h.3 e)

-- The end of the last entry bounds all.
tail_lowered :
    (lo hi hi' : ℕ) (x : FreeRegs) (list : List FreeRegs) (y : FreeRegs)
    → AreRanges lo (x ∷ list) hi
    → get_elem? (x ∷ list) (length list) ≡ some y
    → y.end ≤ hi'
    → AreRanges lo (x ∷ list) hi'
tail_lowered lo hi hi' x [] y h e l =
    let q : x ≡ y = cc in let l' : x.end ≤ hi' = (rw q l) in (h.0, h.1, l', tt)
tail_lowered lo hi hi' x (z ∷ list) y h e l =
    let t = nth_bounds (suc x.end) hi (length list) (z ∷ list) y h.3 e in
    (h.0, h.1, omega (arith, t.above, t.filled), tail_lowered (suc x.end) hi hi' z list y h.3 e l)

-- n registers from start on were in use and are free now; nothing else changed.
pub record Releases (fs : Frame) (start n : ℕ) (fs' : Frame) : Type 0 where
  pub frame : IsFrame fs'
  pub live : (r : ℕ) → is_live fs' r ≡ (is_live fs r && not (among start n r))
  pub same_touched : fs'.reg_touched_max ≡ fs.reg_touched_max
  pub shrunk : fs'.reg_allocated_max ≤ fs.reg_allocated_max

abbrev pub ReleasesSome : Frame → ℕ → ℕ → Option Frame → Type 0
ReleasesSome fs start n none = ⊥
ReleasesSome fs start n (some fs') = Releases fs start n fs'

module _ (start n touched a : ℕ) (pos : 0 < n) (room : suc a < 2 ^ 32) where
  abbrev at_list : List FreeRegs → Frame
  at_list list = record { reg_touched_max = touched; reg_allocated_max = a; free_regs_list = list }

  shrink_tail-Releases :
      (list : List FreeRegs)
      → IsFrame (at_list list)
      → ((r : ℕ) → among start n r ≡ true → is_live (at_list list) r ≡ true)
      → start + n ≡ suc a
      → Releases (at_list list) start n (shrink_tail (at_list list) n)
  unfolding shrink_tail
  shrink_tail-Releases [] h all e =
      let s = all start (ground arith) in
      let s' : 1 ≤ start = ground arith in
      let m : minus a n ≡ a - n = omega arith in
      rw (shrink_tail, m)
        (record {
          frame = record { ranges = tt; touched = omega (arith, h.touched) };
          live = λ r. ground arith;
          same_touched = refl;
          shrunk = omega (arith);
        })
  shrink_tail-Releases (x ∷ list) h all e =
      let (y, ey) = last_entry x list in
      let t = nth_bounds 1 a (length list) (x ∷ list) y h.ranges ey in
      let s = all start (ground arith) in
      let s' : 1 ≤ start = ground arith in
      let u : y.end ≤ start =
        ground (arith, t.filled, t.below, t.covered (y.end - 1), all (y.end - 1)) in
      let i : suc (length list) - 1 ≡ length list = omega arith in
      let k = suc (length list) - 1 in
      let ek : get_elem? (x ∷ list) k ≡ some y = rw i ey in
      let m : minus a n ≡ a - n = omega arith in
      let m1 : minus y.end 1 ≡ y.end - 1 = omega (arith, t.filled, t.below) in
      let m2 : minus y.start 1 ≡ y.start - 1 = omega (arith, t.above, t.filled, t.below) in
      rw (shrink_tail, ek, m, m1, m2)
        (elim (Bool-cases (y.end - 1 == a - n)) [
          | inl q ↦ rw q (record {
            frame = record {
              ranges = rw i (tail_removed 1 a x list y h.ranges ey);
              touched = omega (arith, h.touched, t.above, t.filled, t.below);
            };
            live = λ r. ground (
              arith,
              t.above,
              t.filled,
              t.covered r,
              remove_at-covers 1 a k r (x ∷ list) y h.ranges ek,
            );
            same_touched = refl;
            shrunk = omega (arith, t.above, t.filled, t.below);
          })
          | inr q ↦ rw q (record {
            frame = record {
              ranges = tail_lowered 1 a (a - n) x list y h.ranges ey (ground (arith, t.filled));
              touched = omega (arith, h.touched);
            };
            live = λ r. ground arith;
            same_touched = refl;
            shrunk = omega (arith);
          })
        ])

  inserted :
      (stop : ℕ) (list : List FreeRegs)
      → stop ≡ start + n
      → IsFrame (at_list list)
      → ((r : ℕ) → among start n r ≡ true → is_live (at_list list) r ≡ true)
      → start + n ≤ a
      → (o : Option ℕ) → Places (record { start = start; end = stop }) list o
      → let d : FreeRegs = record { start = start; end = stop } in
        ReleasesSome (at_list list) start n (elim o [
          | none ↦ none
          | some p ↦ some (record (at_list list) { free_regs_list = insert_at p d list })
        ])
  inserted stop list e h all l none q = q
  inserted stop list e h all l (some p) q =
      let d : FreeRegs = record { start = start; end = stop } in
      let s = all start (ground arith) in
      let t =
        insert_at-AreRanges a d (omega arith) (omega arith) 1 p list h.ranges (ground arith) q
          (λ r w. ground (arith, all r)) in
      record {
        frame = record { ranges = t.0; touched = h.touched };
        live = λ r. ground (arith, t.1 r);
        same_touched = refl;
        shrunk = omega (arith);
      }

-- For a frame whose greatest register in use is below 2 ^ 32 - 1 and whose free entries are in order,
-- apart and below that register, and n registers, not none, that are all in use, frame_scope_free_regs finds the place for them: they are
-- not in use afterwards, all other registers stay as they were, the entries are in order again,
-- the greatest register ever used stays, and the greatest register in use does not grow.
pub free_regs-Releases :
    (fs : Frame) (start n : ℕ)
    → 0 < n
    → IsFrame fs
    → fs.reg_allocated_max < 2 ^ 32 - 1
    → ((r : ℕ) → among start n r ≡ true → is_live fs r ≡ true)
    → ReleasesSome fs start n (free_regs fs start n)
unfolding free_regs
free_regs-Releases fs start n pos h room all =
    let a = fs.reg_allocated_max in
    let last = all (start + (n - 1)) (ground arith) in
    let l : start + n ≤ suc a = ground arith in
    let e : (start + n) % 2 ^ 32 ≡ start + n = omega arith in
    let stop = (start + n) % 2 ^ 32 in
    let d : FreeRegs = record { start = start; end = stop } in
    let t = fs.reg_touched_max in
    let m : minus stop 1 ≡ stop - 1 = ground (arith, all start (ground arith)) in
    elim (Bool-cases (stop - 1 == a)) [
      | inl q ↦
          rw (free_regs, m, q)
            (shrink_tail-Releases start n t a pos (omega arith) fs.free_regs_list h all
              (ground arith))
      | inr q ↦
          rw (free_regs, m, q)
            (inserted start n t a pos (omega arith) stop fs.free_regs_list e h all (ground arith) _
              (place-Places a d 1 fs.free_regs_list h.ranges (omega arith)
                (λ r w. ground (arith, all r))))
    ]
