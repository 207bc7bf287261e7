-- ===== src/Array/Laws.antt =====
-- What the operations of an array do to its list of elements.
use zis_lang.Common.{
  ℕ, zero, suc, ◌+◌, ◌-◌, ◌≤◌, ◌<◌, ◌≡◌, refl, sym, ap, ◌∙◌, true, false, List, [], ◌∷◌, ◌++◌, map,
  Option, none, some, arith, ◌==◌, length, get_or, set, replicate, length-replicate,
}
use zis_lang.Array.{Array, write_at, slots, grow, new_cap, append, pop}

pub new_cap-more : (n : ℕ) → n < new_cap n
unfolding new_cap
new_cap-more n = ground arith

module _ {A : Type 0} where
  -- The slots of some elements.
  abbrev pub full : List A → List (Option A)
  full xs = map some xs

  -- The array has the elements xs and then spare slots.
  pub record Holds (a : Array A) (xs : List A) : Type 0 where
    pub spare : List (Option A)
    pub slots_eq : a.data_ ≡ full xs ++ spare
    pub len_eq : a.len ≡ length xs

  pub length-full :
      (xs : List A) (ds : List (Option A)) → length (full xs ++ ds) ≡ length xs + length ds
  length-full [] ds = omega arith
  length-full (x ∷ xs) ds = omega (arith, length-full xs ds)

  pub set-full :
      (xs : List A) (d o : Option A) (ds : List (Option A))
      → set (full xs ++ d ∷ ds) (length xs) o ≡ full xs ++ o ∷ ds
  set-full [] d o ds = refl
  set-full (x ∷ xs) d o ds = ap (λ t. some x ∷ t) (set-full xs d o ds)

  get-full :
      (xs : List A) (d : Option A) (ds : List (Option A))
      → get_or (full xs ++ d ∷ ds) (length xs) none ≡ d
  get-full [] d ds = refl
  get-full (x ∷ xs) d ds = get-full xs d ds

  pub full-append :
      (xs ys : List A) (ds : List (Option A)) → full (xs ++ ys) ++ ds ≡ full xs ++ (full ys ++ ds)
  full-append [] ys ds = refl
  full-append (x ∷ xs) ys ds = ap (λ t. some x ∷ t) (full-append xs ys ds)

  pub slots-full :
      (xs ys : List A) (ds : List (Option A))
      → slots (length xs) (length ys) (full xs ++ (full ys ++ ds)) ≡ full ys
  unfolding slots
  slots-full [] [] [] = refl
  slots-full [] [] (d ∷ ds) = refl
  slots-full [] (y ∷ ys) ds = ap (λ t. some y ∷ t) (slots-full [] ys ds)
  slots-full (x ∷ xs) ys ds = slots-full xs ys ds

  -- Writing behind some elements.
  write_at-full :
      (xs : List A) (vs ds : List (Option A))
      → write_at (length xs) vs (full xs ++ ds) ≡ full xs ++ write_at 0 vs ds
  unfolding write_at
  write_at-full [] vs ds = refl
  write_at-full (x ∷ xs) vs ds = ap (λ t. some x ∷ t) (write_at-full xs vs ds)

  pub drop : ℕ → List (Option A) → List (Option A)
  drop zero ds = ds
  drop (suc n) [] = []
  drop (suc n) (d ∷ ds) = drop n ds

  write_at-start :
      (vs ds : List (Option A))
      → length vs ≤ length ds
      → write_at 0 vs ds ≡ vs ++ drop (length vs) ds
  unfolding write_at drop
  write_at-start [] ds h = refl
  write_at-start (v ∷ vs) [] h = absurd (omega arith)
  write_at-start (v ∷ vs) (d ∷ ds) h = ap (λ t. v ∷ t) (write_at-start vs ds (omega arith))

  pub length-append : (xs ys : List A) → length (xs ++ ys) ≡ length xs + length ys
  length-append [] ys = omega arith
  length-append (x ∷ xs) ys = omega (arith, length-append xs ys)

  pub append_nil : (ds : List (Option A)) → ds ++ [] ≡ ds
  append_nil [] = refl
  append_nil (d ∷ ds) = ap (λ t. d ∷ t) (append_nil ds)

  replicate-more :
      (m n : ℕ)
      → m < n
      → (k : ℕ) × (replicate {A = Option A} (n - m) none ≡ none ∷ replicate k none)
  replicate-more m n h = (
    n - m - 1,
    ap (λ t. replicate {A = Option A} t none) {x = n - m} {y = suc (n - m - 1)} (omega arith),
  )

  -- Appending puts the element behind the others, whether or not the array is full.
  pub append-Holds :
      (a : Array A) (xs : List A) (v : A) → Holds a xs → Holds (append a v) (xs ++ v ∷ [])
  unfolding append grow
  append-Holds a xs v h = by_spare h.spare h.slots_eq
    where
      by_spare :
          (sp : List (Option A)) → a.data_ ≡ full xs ++ sp → Holds (append a v) (xs ++ v ∷ [])
      by_spare [] e =
          let l : length a.data_ ≡ length xs = ap length e ∙ length-full xs [] ∙ omega arith in
          let r = replicate-more (length xs) (new_cap (length xs)) (new_cap-more (length xs)) in
          let t : (a.len == length a.data_) ≡ true = grind (arith, l, h.len_eq) in
          record {
            spare = replicate r.0 none;
            slots_eq =
                rw (t, h.len_eq, l, e, append_nil (full xs), r.1)
                  (set-full xs none (some v) (replicate r.0 none)
                    ∙ sym (full-append xs (v ∷ []) (replicate r.0 none)));
            len_eq = omega (arith, h.len_eq, length-append xs (v ∷ []));
          }
      by_spare (d ∷ ds) e =
          let l : length a.data_ ≡ length xs + suc (length ds) =
            ap length e ∙ length-full xs (d ∷ ds) in
          let t : (a.len == length a.data_) ≡ false = grind (arith, l, h.len_eq) in
          record {
            spare = ds;
            slots_eq =
                rw (t, h.len_eq, e) (set-full xs d (some v) ds ∙ sym (full-append xs (v ∷ []) ds));
            len_eq = omega (arith, h.len_eq, length-append xs (v ∷ []));
          }

  pub length-full_only : (xs : List A) → length (full xs) ≡ length xs
  length-full_only [] = refl
  length-full_only (x ∷ xs) = ap suc (length-full_only xs)

  write_at-next :
      (xs : List A) (e : Option A) (vs rest : List (Option A))
      → write_at (length xs + 1) vs (full xs ++ e ∷ rest) ≡ full xs ++ e ∷ write_at 0 vs rest
  unfolding write_at
  write_at-next [] e vs rest = refl
  write_at-next (x ∷ xs) e vs rest =
      ap (λ n. write_at n vs (some x ∷ (full xs ++ e ∷ rest))) {x = suc (length xs) + 1}
        {y = suc (length xs + 1)} (omega arith)
      ∙ ap (λ t. some x ∷ t) (write_at-next xs e vs rest)

  pub slots-after :
      (xs ys : List A) (e : Option A) (ds : List (Option A))
      → slots (length xs + 1) (length ys) (full xs ++ e ∷ (full ys ++ ds)) ≡ full ys
  unfolding slots
  slots-after [] ys e ds = slots-full [] ys ds
  slots-after (x ∷ xs) ys e ds =
      ap (λ n. slots n (length ys) (some x ∷ (full xs ++ e ∷ (full ys ++ ds))))
        {x = suc (length xs) + 1} {y = suc (length xs + 1)} (omega arith)
      ∙ slots-after xs ys e ds

  pub length-drop :
      (n : ℕ) (ds : List (Option A)) → n ≤ length ds → length (drop n ds) + n ≡ length ds
  unfolding drop
  length-drop zero ds h = omega arith
  length-drop (suc n) [] h = absurd (omega arith)
  length-drop (suc n) (d ∷ ds) h = omega (arith, length-drop n ds (omega arith))

  -- More than n slots are not used up by n.
  pub drop-more :
      (n : ℕ) (ds : List (Option A))
      → n < length ds
      → (d : Option A) × (tail : List (Option A)) × (drop n ds ≡ d ∷ tail)
  drop-more n ds h = by_rest (drop n ds) (length-drop n ds (omega arith))
    where
      by_rest :
          (r : List (Option A))
          → length r + n ≡ length ds
          → (d : Option A) × (tail : List (Option A)) × (r ≡ d ∷ tail)
      by_rest [] e = absurd (omega arith)
      by_rest (d ∷ tail) e = (d, tail, refl)

  -- A gap is made behind xs, and the new element put into it.
  pub insert-slots :
      (xs ys : List A) (e : Option A) (rest : List (Option A)) (v : A)
      → length ys ≤ length rest
      → set (write_at (length xs + 1) (full ys) (full xs ++ e ∷ rest)) (length xs) (some v)
        ≡ full (xs ++ v ∷ ys) ++ drop (length (full ys)) rest
  insert-slots xs ys e rest v h =
      ap (λ t. set t (length xs) (some v)) (write_at-next xs e (full ys) rest)
      ∙ set-full xs e (some v) (write_at 0 (full ys) rest)
      ∙ ap (λ t. full xs ++ some v ∷ t)
          (write_at-start (full ys) rest (omega (arith, length-full_only ys)))
      ∙ sym (full-append xs (v ∷ ys) (drop (length (full ys)) rest))

  -- The slots from xs on are written over by ys, and the slot behind is cleared.
  pub remove-slots :
      (xs ys : List A) (d : Option A) (rest tail : List (Option A))
      → length ys ≤ length rest
      → drop (length (full ys)) rest ≡ d ∷ tail
      → set (write_at (length xs) (full ys) (full xs ++ rest)) (length (xs ++ ys)) none
        ≡ full (xs ++ ys) ++ none ∷ tail
  remove-slots xs ys d rest tail h e =
      ap (λ t. set t (length (xs ++ ys)) none)
        (write_at-full xs (full ys) rest
          ∙ ap (λ t. full xs ++ t)
              (write_at-start (full ys) rest (omega (arith, length-full_only ys))
                ∙ ap (λ t. full ys ++ t) e)
          ∙ sym (full-append xs ys (d ∷ tail)))
      ∙ set-full (xs ++ ys) d none tail

  -- Popping gives the last element and leaves the others.
  pub pop-Holds :
      (a : Array A) (xs : List A) (v : A)
      → Holds a (xs ++ v ∷ [])
      → ((pop a).0 ≡ some v) × Holds (pop a).1 xs
  unfolding pop
  pop-Holds a xs v h =
      let n : a.len ≡ suc (length xs) = omega (arith, h.len_eq, length-append xs (v ∷ [])) in
      let e : a.data_ ≡ full xs ++ some v ∷ h.spare =
        h.slots_eq ∙ full-append xs (v ∷ []) h.spare in
      let t : (a.len == 0) ≡ false = grind (arith, n) in
      let p : a.len - 1 ≡ length xs = omega (arith, n) in
      rw (t, p, e)
        (
          get-full xs (some v) h.spare,
          record {
            spare = none ∷ h.spare;
            slots_eq = set-full xs (some v) none h.spare;
            len_eq = refl;
          },
        )

  -- What the two ways to make room leave behind xs: a slot and enough slots behind it.
  pub record HasGap (xs : List A) (n : ℕ) (ds : List (Option A)) : Type 0 where
    pub first : Option A
    pub others : List (Option A)
    pub gap_eq : ds ≡ full xs ++ first ∷ others
    pub wide : n ≤ length others

  pub fresh-HasGap :
      (xs ys : List A) (cap : ℕ) (sp : List (Option A))
      → length xs + length ys < cap
      → HasGap xs
          (length ys)
          (write_at 0 (slots 0 (length xs) (full xs ++ sp)) (replicate cap none))
  fresh-HasGap xs ys cap sp h =
      let r : List (Option A) = replicate cap none in
      let l : length r ≡ cap = length-replicate cap none in
      let n : length xs < length r = omega (arith, l) in
      let d = drop-more (length xs) r n in
      record {
        first = d.0;
        others = d.1;
        gap_eq =
            ap (λ t. write_at 0 t r) (slots-full [] xs sp)
            ∙ write_at-start (full xs) r (omega (arith, length-full_only xs))
            ∙ ap (λ k. full xs ++ drop k r) (length-full_only xs)
            ∙ ap (λ t. full xs ++ t) d.2;
        wide = omega (arith, l, length-drop (length xs) r (omega arith), ap length d.2);
      }
