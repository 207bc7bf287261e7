-- ===== src/Array/Middle.antt =====
-- Insertion into an array and removal from it, with and without a new vector of slots.
use mathlib.Core.Path.{subst}
use zis_lang.Common.{
  ℕ, suc, ◌+◌, ◌-◌, ◌/◌, ◌≡◌, refl, sym, ap, ◌∙◌, true, false, ◌&&◌, List, [], ◌∷◌, ◌++◌, Option,
  none, some, arith, ltb, leb, ◌==◌, if◌then◌else◌, length, set, replicate, Bool-cases, inl, inr,
}
use zis_lang.Array.{Array, write_at, slots, new_cap, pop, insert, remove}
use zis_lang.Array.Laws.{
  full, Holds, append-Holds, pop-Holds, HasGap, fresh-HasGap, insert-slots, remove-slots, drop-more,
  length-full, length-append, length-full_only, slots-full, slots-after, full-append, drop,
  new_cap-more,
}

module _ {A : Type 0} where
  nothing_more : (xs : List A) → xs ++ [] ≡ xs
  nothing_more [] = refl
  nothing_more (x ∷ xs) = ap (λ t. x ∷ t) (nothing_more xs)

  -- The slots that zis_array_obj_insert moves the elements into.
  abbrev room : Array A → ℕ → List (Option A)
  room a pos =
      if a.len == length a.data_
      then write_at 0 (slots 0 pos a.data_) (replicate (new_cap (length a.data_)) none)
      else a.data_

  room-HasGap :
      (a : Array A) (xs ys : List A) (y : A)
      → Holds a (xs ++ y ∷ ys)
      → HasGap xs (length (y ∷ ys)) (room a (length xs))
  room-HasGap a xs ys y h = by_spare h.spare (h.slots_eq ∙ full-append xs (y ∷ ys) h.spare)
    where
      n : a.len ≡ length xs + suc (length ys)
      n = h.len_eq ∙ length-append xs (y ∷ ys)

      by_spare :
          (sp : List (Option A))
          → a.data_ ≡ full xs ++ (full (y ∷ ys) ++ sp)
          → HasGap xs (length (y ∷ ys)) (room a (length xs))
      by_spare [] e =
          let l : length a.data_ ≡ length xs + suc (length ys) =
            omega
              (arith, ap length e, length-full xs (full (y ∷ ys) ++ []), length-full (y ∷ ys) []) in
          let t : (a.len == length a.data_) ≡ true = grind (arith, l, n) in
          let c = new_cap-more (length a.data_) in
          rw (t, l, e)
            (fresh-HasGap xs (y ∷ ys) (new_cap (length xs + suc (length ys))) (full (y ∷ ys) ++ [])
              (new_cap-more (length xs + suc (length ys))))
      by_spare (d ∷ ds) e =
          let l : length a.data_ ≡ length xs + (suc (length ys) + suc (length ds)) = omega (
            arith,
            ap length e,
            length-full xs (full (y ∷ ys) ++ d ∷ ds),
            length-full (y ∷ ys) (d ∷ ds),
          ) in
          let t : (a.len == length a.data_) ≡ false = grind (arith, l, n) in
          rw t (record {
            first = some y;
            others = full ys ++ d ∷ ds;
            gap_eq = e;
            wide = omega (arith, length-full ys (d ∷ ds));
          })

  -- Inserting at a position up to the length succeeds and puts the element there, moves the later
  -- ones up, and keeps all, whether the slots are reused or a new vector is made.
  pub insert-Holds :
      (a : Array A) (xs ys : List A) (v : A)
      → Holds a (xs ++ ys)
      → ((insert a (length xs) v).0 ≡ true) × Holds (insert a (length xs) v).1 (xs ++ v ∷ ys)
  unfolding insert
  insert-Holds a xs [] v h =
      let h' : Holds a xs = subst (Holds a) (nothing_more xs) h in
      let t : leb a.len (length xs) ≡ true = grind (arith, h'.len_eq) in
      let f : ltb a.len (length xs) ≡ false = grind (arith, h'.len_eq) in
      rw (t, f) (refl, append-Holds a xs v h')
  insert-Holds a xs (y ∷ ys) v h =
      let n : a.len ≡ length xs + suc (length ys) = h.len_eq ∙ length-append xs (y ∷ ys) in
      let g = room-HasGap a xs ys y h in
      let f : leb a.len (length xs) ≡ false = grind (arith, n) in
      let k : a.len - length xs ≡ length (y ∷ ys) = omega (arith, n) in
      let s : slots (length xs) (a.len - length xs) a.data_ ≡ full (y ∷ ys) =
        ap (λ m. slots (length xs) m a.data_) k
        ∙ ap (slots (length xs) (length (y ∷ ys))) (h.slots_eq ∙ full-append xs (y ∷ ys) h.spare)
        ∙ slots-full xs (y ∷ ys) h.spare in
      rw f (
        refl,
        record {
          spare = drop (length (full (y ∷ ys))) g.others;
          slots_eq =
              ap (λ t. set (write_at (length xs + 1) t (room a (length xs))) (length xs) (some v)) s
              ∙ ap (λ t. set (write_at (length xs + 1) (full (y ∷ ys)) t) (length xs) (some v))
                  g.gap_eq
              ∙ insert-slots xs (y ∷ ys) g.first g.others v g.wide;
          len_eq = omega (arith, n, length-append xs (v ∷ y ∷ ys));
        },
      )

  -- The slots that zis_array_obj_remove moves the elements into.
  abbrev kept : Array A → ℕ → List (Option A)
  kept a pos =
      if leb a.len (length a.data_ / 2) && leb 16 a.len
      then write_at 0 (slots 0 pos a.data_) (replicate a.len none)
      else a.data_

  kept-HasGap :
      (a : Array A) (xs ys : List A) (v y : A)
      → Holds a (xs ++ v ∷ y ∷ ys)
      → HasGap xs (length (y ∷ ys)) (kept a (length xs))
  kept-HasGap a xs ys v y h =
      let e : a.data_ ≡ full xs ++ (full (v ∷ y ∷ ys) ++ h.spare) =
        h.slots_eq ∙ full-append xs (v ∷ y ∷ ys) h.spare in
      let n : a.len ≡ length xs + suc (suc (length ys)) =
        h.len_eq ∙ length-append xs (v ∷ y ∷ ys) in
      elim (Bool-cases (leb a.len (length a.data_ / 2) && leb 16 a.len)) [
        | inl t ↦
            rw (t, n, e)
              (fresh-HasGap xs (y ∷ ys) (length xs + suc (suc (length ys)))
                (full (v ∷ y ∷ ys) ++ h.spare) (omega arith))
        | inr f ↦ rw f (record {
          first = some v;
          others = full (y ∷ ys) ++ h.spare;
          gap_eq = e;
          wide = omega (arith, length-full (y ∷ ys) h.spare);
        })
      ]

  -- Removing at a position below the length succeeds, takes that element out, moves the later ones
  -- down, and keeps all others, whether the slots are reused or a new vector is made.
  pub remove-Holds :
      (a : Array A) (xs ys : List A) (v : A)
      → Holds a (xs ++ v ∷ ys)
      → ((remove a (length xs)).0 ≡ true) × Holds (remove a (length xs)).1 (xs ++ ys)
  unfolding remove
  remove-Holds a xs [] v h =
      let n : a.len ≡ length xs + 1 = h.len_eq ∙ length-append xs (v ∷ []) in
      let f : leb a.len (length xs) ≡ false = grind (arith, n) in
      let t : (length xs == a.len - 1) ≡ true = grind (arith, n) in
      rw (f, t) (refl, subst (Holds (pop a).1) (sym (nothing_more xs)) (pop-Holds a xs v h).1)
  remove-Holds a xs (y ∷ ys) v h =
      let n : a.len ≡ length xs + suc (suc (length ys)) =
        h.len_eq ∙ length-append xs (v ∷ y ∷ ys) in
      let f : leb a.len (length xs) ≡ false = grind (arith, n) in
      let t : (length xs == a.len - 1) ≡ false = grind (arith, n) in
      let g = kept-HasGap a xs ys v y h in
      let k : a.len - 1 - length xs ≡ length (y ∷ ys) = omega (arith, n) in
      let m : a.len - 1 ≡ length (xs ++ y ∷ ys) = omega (arith, n, length-append xs (y ∷ ys)) in
      let s : slots (length xs + 1) (a.len - 1 - length xs) a.data_ ≡ full (y ∷ ys) =
        ap (λ m. slots (length xs + 1) m a.data_) k
        ∙ ap (slots (length xs + 1) (length (y ∷ ys)))
            (h.slots_eq ∙ full-append xs (v ∷ y ∷ ys) h.spare)
        ∙ slots-after xs (y ∷ ys) (some v) h.spare in
      let d =
        drop-more (length (full (y ∷ ys))) (g.first ∷ g.others)
          (omega (arith, g.wide, length-full_only (y ∷ ys))) in
      let w = g.wide in
      rw (f, t)
        (
          refl,
          record {
            spare = none ∷ d.1;
            slots_eq =
                ap (λ r. set (write_at (length xs) r (kept a (length xs))) (a.len - 1) none) s
                ∙ ap (λ r. set (write_at (length xs) (full (y ∷ ys)) r) (a.len - 1) none) g.gap_eq
                ∙ ap
                    (λ j.
                      set (write_at (length xs) (full (y ∷ ys)) (full xs ++ g.first ∷ g.others)) j
                        none)
                    m
                ∙ remove-slots xs (y ∷ ys) d.0 (g.first ∷ g.others) d.1 (omega arith) d.2;
            len_eq = m;
          },
        )
