-- ===== src/Map/Buckets.antt =====
-- Where nodes stand in the buckets, and what a search finds after a node is put in front of a chain.
use zis_lang.Common.{
  ℕ, zero, suc, ◌+◌, ◌%◌, ◌<◌, ◌≡◌, ◌≢◌, refl, ap, ◌∙◌, Bool, true, List, [], ◌∷◌, none, arith,
  if◌then◌else◌, length, get_or, set, Bool-cases, inl, inr,
}
use mathlib.Core.Path.{subst}
use zis_lang.Map.{Node, Chain, find, new_buckets}

module _ {K V : Type 0} where
  abbrev pub count : (Node K V → Bool) → Chain K V → ℕ
  count p [] = 0
  count p (node ∷ nodes) = (if p node then 1 else 0) + count p nodes

  abbrev pub total : (Node K V → Bool) → List (Chain K V) → ℕ
  total p [] = 0
  total p (c ∷ cs) = count p c + total p cs

  -- All nodes of a chain belong into bucket i of n.
  abbrev pub AllIn : ℕ → ℕ → Chain K V → Type 0
  AllIn n i [] = Unit {0}
  AllIn n i (node ∷ nodes) = (node.key_hash % n ≡ i) × AllIn n i nodes

  -- The chains from bucket i on hold nodes that belong there.
  abbrev pub ArePlaced : ℕ → ℕ → List (Chain K V) → Type 0
  ArePlaced n i [] = Unit {0}
  ArePlaced n i (c ∷ cs) = AllIn n i c × ArePlaced n (suc i) cs

  -- A test that only nodes of one hash pass.
  abbrev pub OnlyHash : (Node K V → Bool) → ℕ → Type 0
  OnlyHash p h = (node : Node K V) → p node ≡ true → h ≡ node.key_hash

  pub count-elsewhere :
      (p : Node K V → Bool) (h n i : ℕ) (c : Chain K V)
      → OnlyHash p h
      → AllIn n i c
      → h % n ≢ i
      → count p c ≡ 0
  count-elsewhere p h n i [] only a ne = refl
  count-elsewhere p h n i (node ∷ nodes) only a ne = elim (Bool-cases (p node)) [
    | inl e ↦ absurd (ne (ap (λ t. t % n) (only node e) ∙ a.0))
    | inr e ↦ rw e (omega (arith, count-elsewhere p h n i nodes only a.1 ne))
  ]

  pub total-elsewhere :
      (p : Node K V → Bool) (h n i : ℕ) (cs : List (Chain K V))
      → OnlyHash p h
      → ArePlaced n i cs
      → h % n < i
      → total p cs ≡ 0
  total-elsewhere p h n i [] only a lt = refl
  total-elsewhere p h n i (c ∷ cs) only a lt = omega (
    arith,
    count-elsewhere p h n i c only a.0 (omega arith),
    total-elsewhere p h n (suc i) cs only a.1 (omega arith),
  )

  -- All nodes that pass the test stand in the bucket of the hash.
  pub total-bucket :
      (p : Node K V → Bool) (h n i j : ℕ) (cs : List (Chain K V))
      → OnlyHash p h
      → ArePlaced n i cs
      → h % n ≡ i + j
      → j < length cs
      → total p cs ≡ count p (get_or cs j [])
  total-bucket p h n i j [] only a e l = absurd (omega arith)
  total-bucket p h n i zero (c ∷ cs) only a e l =
      omega (arith, total-elsewhere p h n (suc i) cs only a.1 (omega arith))
  total-bucket p h n i (suc j) (c ∷ cs) only a e l = omega (
    arith,
    count-elsewhere p h n i c only a.0 (omega arith),
    total-bucket p h n (suc i) j cs only a.1 (omega arith) (omega arith),
  )

  pub find-count : (p : Node K V → Bool) (c : Chain K V) → find p c ≡ none → count p c ≡ 0
  unfolding find
  find-count p [] h = refl
  find-count p (node ∷ nodes) h = ground (arith, find-count p nodes)

  pub count-find : (p : Node K V → Bool) (c : Chain K V) → count p c ≡ 0 → find p c ≡ none
  unfolding find
  count-find p [] h = refl
  count-find p (node ∷ nodes) h = ground (arith, count-find p nodes)

  pub ArePlaced-get :
      (n i j : ℕ) (cs : List (Chain K V)) → ArePlaced n i cs → AllIn n (i + j) (get_or cs j [])
  ArePlaced-get n i j [] a = tt
  ArePlaced-get n i zero (c ∷ cs) a = subst (λ k. AllIn n k c) {x = i} {y = i + 0} (omega arith) a.0
  ArePlaced-get n i (suc j) (c ∷ cs) a =
      subst (λ k. AllIn n k (get_or cs j [])) {x = suc i + j} {y = i + suc j} (omega arith)
        (ArePlaced-get n (suc i) j cs a.1)

  pub ArePlaced-set :
      (n i j : ℕ) (cs : List (Chain K V)) (c : Chain K V)
      → ArePlaced n i cs
      → AllIn n (i + j) c
      → ArePlaced n i (set cs j c)
  ArePlaced-set n i j [] c a h = tt
  ArePlaced-set n i zero (d ∷ cs) c a h =
      (subst (λ k. AllIn n k c) {x = i + 0} {y = i} (omega arith) h, a.1)
  ArePlaced-set n i (suc j) (d ∷ cs) c a h = (
    a.0,
    ArePlaced-set n (suc i) j cs c a.1
        (subst (λ k. AllIn n k c) {x = i + suc j} {y = suc i + j} (omega arith) h),
  )

  pub total-set :
      (p : Node K V → Bool) (cs : List (Chain K V)) (j : ℕ) (c : Chain K V)
      → j < length cs
      → total p (set cs j c) + count p (get_or cs j []) ≡ total p cs + count p c
  total-set p [] j c h = absurd (omega arith)
  total-set p (d ∷ cs) zero c h = omega arith
  total-set p (d ∷ cs) (suc j) c h = omega (arith, total-set p cs j c (omega arith))

  pub get_or-set_self :
      (cs : List (Chain K V)) (j : ℕ) (c : Chain K V) → j < length cs → get_or (set cs j c) j [] ≡ c
  get_or-set_self [] j c h = absurd (omega arith)
  get_or-set_self (d ∷ cs) zero c h = refl
  get_or-set_self (d ∷ cs) (suc j) c h = get_or-set_self cs j c (omega arith)

  pub get_or-set_ne :
      (cs : List (Chain K V)) (i j : ℕ) (c : Chain K V)
      → i ≢ j
      → get_or (set cs i c) j [] ≡ get_or cs j []
  get_or-set_ne [] i j c h = refl
  get_or-set_ne (d ∷ cs) zero zero c h = absurd (h refl)
  get_or-set_ne (d ∷ cs) zero (suc j) c h = refl
  get_or-set_ne (d ∷ cs) (suc i) zero c h = refl
  get_or-set_ne (d ∷ cs) (suc i) (suc j) c h = get_or-set_ne cs i j c (λ e. h (ap suc e))

  pub total-new : (p : Node K V → Bool) (m : ℕ) → total p (new_buckets m) ≡ 0
  total-new p zero = refl
  total-new p (suc m) = omega (arith, total-new p m)

pub ArePlaced-new : (K V : Type 0) (n i m : ℕ) → ArePlaced n i (new_buckets {K = K} {V = V} m)
ArePlaced-new K V n i zero = tt
ArePlaced-new K V n i (suc m) = (tt, ArePlaced-new K V n (suc i) m)
