-- ===== src/Codegen/Registers/Insert.antt =====
-- frame_scope__free_regs_list_insert adds the registers of an entry.
use zis_lang.Common.{
  ℕ, zero, suc, ◌≤◌, ◌<◌, ◌≡◌, true, false, ◌||◌, List, [], ◌∷◌, arith, ◌==◌, Bool-cases, inl, inr,
}
use zis_lang.Codegen.Registers.{FreeRegs, insert_at, join_next, join_both}
use zis_lang.Codegen.Registers.Ranges.{AreRanges, within, covers}

-- The position is between the entries that begin before d and those that begin behind it.
abbrev pub IsPlace : ℕ → FreeRegs → List FreeRegs → Type 0
IsPlace zero d [] = Unit {0}
IsPlace zero d (y ∷ list) = d.start < y.start
IsPlace (suc p) d [] = ⊥
IsPlace (suc p) d (x ∷ list) = (x.start < d.start) × IsPlace p d list

-- No register of d is in an entry.
abbrev pub AreApart : FreeRegs → List FreeRegs → Type 0
AreApart d list = (r : ℕ) → within d r ≡ true → covers list r ≡ false

module _ (hi : ℕ) (d : FreeRegs) (filled : d.start < d.end) (below : d.end ≤ hi) where
  next_apart :
      (y : FreeRegs) (list : List FreeRegs)
      → y.start < y.end
      → d.start < y.start
      → AreApart d (y ∷ list)
      → d.end ≤ y.start
  next_apart y list f l a = ground (arith, a y.start)

  prev_apart :
      (x : FreeRegs) (list : List FreeRegs)
      → x.start < d.start
      → AreApart d (x ∷ list)
      → x.end ≤ d.start
  prev_apart x list l a = ground (arith, a d.start)

  tail_apart : (x : FreeRegs) (list : List FreeRegs) → AreApart d (x ∷ list) → AreApart d list
  tail_apart x list a = λ r w. ground (arith, a r)

  join_next-AreRanges :
      (lo : ℕ) (list : List FreeRegs)
      → AreRanges lo list hi
      → lo ≤ d.start
      → IsPlace zero d list
      → AreApart d list
      → AreRanges lo (join_next d list) hi
        × ((r : ℕ) → covers (join_next d list) r ≡ (covers list r || within d r))
  unfolding join_next
  join_next-AreRanges lo [] h l p a = (omega arith, λ r. ground arith)
  join_next-AreRanges lo (y ∷ list) h l p a =
      let e = next_apart y list h.1 p a in (ground arith, λ r. ground arith)

  join_both-AreRanges :
      (lo : ℕ) (x : FreeRegs) (list : List FreeRegs)
      → AreRanges lo (x ∷ list) hi
      → x.end ≡ d.start
      → IsPlace zero d list
      → AreApart d (x ∷ list)
      → AreRanges lo (join_both x d list) hi
        × ((r : ℕ) → covers (join_both x d list) r ≡ (covers (x ∷ list) r || within d r))
  unfolding join_both
  join_both-AreRanges lo x [] h l p a = (omega arith, λ r. ground arith)
  join_both-AreRanges lo x (y ∷ list) h l p a =
      let e = next_apart y list h.3.1 p (tail_apart x (y ∷ list) a) in
      (ground arith, λ r. ground arith)

  pub insert_at-AreRanges :
      (lo p : ℕ) (list : List FreeRegs)
      → AreRanges lo list hi
      → lo ≤ d.start
      → IsPlace p d list
      → AreApart d list
      → AreRanges lo (insert_at p d list) hi
        × ((r : ℕ) → covers (insert_at p d list) r ≡ (covers list r || within d r))
  unfolding insert_at
  insert_at-AreRanges lo zero list h l p a = join_next-AreRanges lo list h l p a
  insert_at-AreRanges lo (suc p) [] h l q a = absurd q
  insert_at-AreRanges lo (suc zero) (x ∷ list) h l q a = elim (Bool-cases (x.end == d.start)) [
    | inl e ↦ rw e (join_both-AreRanges lo x list h (ground arith) q.1 a)
    | inr e ↦
        let v = prev_apart x list q.0 a in
        let t = join_next-AreRanges (suc x.end) list h.3 (ground arith) q.1 (tail_apart x list a) in
        rw e ((h.0, h.1, h.2, t.0), λ r. ground (arith, t.1 r))
  ]
  insert_at-AreRanges lo (suc (suc p)) (x ∷ []) h l q a = absurd q.1
  insert_at-AreRanges lo (suc (suc p)) (x ∷ y ∷ list) h l q a =
      let t =
        insert_at-AreRanges (suc x.end) (suc p) (y ∷ list) h.3 (omega arith) q.1
          (tail_apart x (y ∷ list) a) in
      ((h.0, h.1, h.2, t.0), λ r. ground (arith, t.1 r))
