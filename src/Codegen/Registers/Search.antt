-- ===== src/Codegen/Registers/Search.antt =====
-- The search of frame_scope_free_regs finds the position of an entry.
use mathlib.Core.Path.{subst}
use native.Mathlib.Decide.{dec_lt}
use zis_lang.Common.{
  ℕ, zero, suc, ◌+◌, ◌-◌, ◌/◌, ◌≤◌, ◌<◌, ◌≡◌, ◌≢◌, ◌⊎◌, refl, false, List, [], ◌∷◌, ltb, leb, arith,
  ◌==◌, Bool-cases, inl, inr, Option, some, none, length, get_elem?,
}
use zis_lang.Codegen.Registers.{FreeRegs, search, place}
use zis_lang.Codegen.Registers.Ranges.{AreRanges, covers, nth_bounds}
use zis_lang.Codegen.Registers.Insert.{IsPlace, AreApart}

entry_before :
    (list : List FreeRegs) (i j : ℕ) (b : FreeRegs)
    → i ≤ j
    → get_elem? list j ≡ some b
    → (x : FreeRegs) × (get_elem? list i ≡ some x)
entry_before [] i j b l e = cc
entry_before (x ∷ list) zero j b l e = (x, refl)
entry_before (x ∷ list) (suc i) zero b l e = absurd (omega arith)
entry_before (x ∷ list) (suc i) (suc j) b l e = entry_before list i j b (omega arith) e

pub last_entry :
    (x : FreeRegs) (list : List FreeRegs)
    → (y : FreeRegs) × (get_elem? (x ∷ list) (length list) ≡ some y)
last_entry x [] = (x, refl)
last_entry x (y ∷ list) = last_entry y list

abbrev pub Places : FreeRegs → List FreeRegs → Option ℕ → Type 0
Places d list none = ⊥
Places d list (some p) = IsPlace p d list

module _ (hi : ℕ) (d : FreeRegs) where
  between :
      (lo p : ℕ) (list : List FreeRegs) (x y : FreeRegs)
      → AreRanges lo list hi
      → get_elem? list p ≡ some x
      → x.start < d.start
      → get_elem? list (suc p) ≡ some y
      → d.start < y.start
      → IsPlace (suc p) d list
  between lo p [] x y h e l f m = cc
  between lo zero (z ∷ []) x y h e l f m = cc
  between lo zero (z ∷ w ∷ list) x y h e l f m =
      let u : z ≡ x = cc in let v : w ≡ y = cc in (rw u l, rw v m)
  between lo (suc p) (z ∷ list) x y h e l f m =
      let t = nth_bounds (suc z.end) hi p list x h.3 e in
      (omega (arith, t.above, h.1), between (suc z.end) p list x y h.3 e l f m)

  between_at :
      (lo p q : ℕ) (list : List FreeRegs) (x y : FreeRegs)
      → AreRanges lo list hi
      → suc p ≡ q
      → get_elem? list p ≡ some x
      → x.start < d.start
      → get_elem? list q ≡ some y
      → d.start < y.start
      → IsPlace q d list
  between_at lo p q list x y h s e l f m =
      subst (λ k. IsPlace k d list) s (between lo p list x y h e l (rw s f) m)

  differ :
      (i j : ℕ) (list : List FreeRegs) (x y : FreeRegs)
      → get_elem? list i ≡ some x
      → x.start < d.start
      → get_elem? list j ≡ some y
      → d.start < y.start
      → i ≢ j
  differ i j list x y e l f m = λ q. ground arith

  behind :
      (lo : ℕ) (x : FreeRegs) (list : List FreeRegs) (y : FreeRegs)
      → AreRanges lo (x ∷ list) hi
      → get_elem? (x ∷ list) (length list) ≡ some y
      → y.start < d.start
      → IsPlace (suc (length list)) d (x ∷ list)
  behind lo x [] y h e l = let u : x ≡ y = cc in (rw u l, tt)
  behind lo x (z ∷ list) y h e l =
      let t = nth_bounds (suc x.end) hi (length list) (z ∷ list) y h.3 e in
      (omega (arith, t.above, h.1), behind (suc x.end) z list y h.3 e l)

  module _ (lo : ℕ) (list : List FreeRegs) (h : AreRanges lo list hi)
      (apart : (i : ℕ) (x : FreeRegs) → get_elem? list i ≡ some x → x.start ≢ d.start) where
    search-Places :
        (fuel l r : ℕ) (a b : FreeRegs)
        → l < r
        → r - l < fuel
        → get_elem? list l ≡ some a
        → a.start < d.start
        → get_elem? list r ≡ some b
        → d.start < b.start
        → Places d list (search fuel list d.start l r)
    unfolding search
    search-Places zero l r a b lt f ea la eb lb = absurd (omega arith)
    search-Places (suc fuel) l r a b lt f ea la eb lb =
        let m = l + (r - l) / 2 in
        let (x, ex) = entry_before list m r b (omega arith) eb in
        elim (Bool-cases (ltb d.start x.start)) [
          | inl s ↦
              let ne : l ≢ m = differ l m list a x ea la ex (ground arith) in
              let (p, ep) = entry_before list (m - 1) r b (omega arith) eb in
              let some_left : (m == 0) ≡ false = ground arith in
              rw (Places, ex, s, some_left, ep)
                (elim (Bool-cases (ltb p.start d.start)) [
                  | inl t ↦ rw t (
                      between_at lo (m - 1) m list p x h (omega arith) ep (ground arith) ex
                        (ground arith))
                  | inr t ↦ rw t (
                      search-Places fuel l (m - 1) a p
                        (let k =
                            differ l (m - 1) list a p ea la ep
                              (ground (arith, apart (m - 1) p ep)) in
                          omega arith)
                        (omega arith) ea la ep (ground (arith, apart (m - 1) p ep)))
                ])
          | inr s ↦
              let (q, eq) = entry_before list (m + 1) r b (omega arith) eb in
              rw (Places, ex, s, eq)
                (elim (Bool-cases (ltb d.start q.start)) [
                  | inl t ↦ rw t (
                      between_at lo m (m + 1) list x q h (omega arith) ex
                        (ground (arith, apart m x ex)) eq (ground arith))
                  | inr t ↦ rw t (
                      search-Places fuel (m + 1) r q b
                        (let k =
                            differ (m + 1) r list q b eq (ground (arith, apart (m + 1) q eq)) eb
                              lb in
                          omega arith)
                        (omega arith) eq (ground (arith, apart (m + 1) q eq)) eb lb)
                ])
        ]

  -- The entry that ends before d is behind the others, and none begins with d.
  clear_of :
      (lo i : ℕ) (list : List FreeRegs) (x : FreeRegs)
      → AreRanges lo list hi
      → d.start < d.end
      → AreApart d list
      → get_elem? list i ≡ some x
      → (x.end ≤ d.start) ⊎ (d.start < x.start)
  clear_of lo i list x h f a e =
      let t = nth_bounds lo hi i list x h e in
      let c : covers list d.start ≡ false = a d.start (ground arith) in
      elim (dec_lt d.start x.start) [
        | yes l ↦ inr l
        | no g ↦ inl (ground (arith, t.covered d.start))
      ]

  pub place-Places :
      (lo : ℕ) (list : List FreeRegs)
      → AreRanges lo list hi
      → d.start < d.end
      → AreApart d list
      → Places d list (place list d.start)
  unfolding place
  place-Places lo [] h f a = tt
  place-Places lo (x ∷ list) h f a =
      let apart : (i : ℕ) (z : FreeRegs) → get_elem? (x ∷ list) i ≡ some z → z.start ≢ d.start =
        λ i z e q.
          let t = nth_bounds lo hi i (x ∷ list) z h e in
          elim (clear_of lo i (x ∷ list) z h f a e) [
            | inl l ↦ omega (arith, t.filled)
            | inr l ↦ omega arith
          ] in
      let (y, ey) = last_entry x list in
      elim (Bool-cases (ltb d.start x.start)) [
        | inl s ↦ rw s (ground arith)
        | inr s ↦
            let first : x.start < d.start = (let n = apart 0 x refl in ground arith) in
            rw (Places, s, ey)
              (elim (Bool-cases (leb y.end d.start)) [
                | inl t ↦
                    let w = nth_bounds lo hi (length list) (x ∷ list) y h ey in
                    rw t (behind lo x list y h ey (ground (arith, w.filled)))
                | inr t ↦
                    let l : d.start < y.start =
                      elim (clear_of lo (length list) (x ∷ list) y h f a ey) [
                        | inl g ↦ absurd (ground arith)
                        | inr g ↦ g
                      ] in
                    let ne = differ 0 (length list) (x ∷ list) x y refl first ey l in
                    rw t (
                      search-Places lo (x ∷ list) h apart (suc (length list)) 0 (length list) x y
                        (omega arith) (omega arith) refl first ey l)
              ])
      ]
