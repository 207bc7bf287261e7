-- ===== src/Map/Assign.antt =====
-- The change of a node's value, which no search for another node notices.
use mathlib.Core.Option.{none-ne-some}
use zis_lang.Common.{ℕ, ◌≡◌, refl, Bool, true, false, [], ◌∷◌, some, arith, Bool-cases, inl, inr}
use zis_lang.Map.{Node, Chain, find, assign}
use zis_lang.Map.Buckets.{count, AllIn}

module _ {K V : Type 0} where
  -- A test that does not look at the value.
  abbrev pub Ignores : (Node K V → Bool) → Type 0
  Ignores q = (node : Node K V) (v : V) → q (record node { value = v }) ≡ q node

  pub count-assign :
      (q p : Node K V → Bool) (v : V) (c : Chain K V)
      → Ignores q
      → count q (assign p v c) ≡ count q c
  unfolding assign
  count-assign q p v [] g = refl
  count-assign q p v (node ∷ nodes) g = ground (arith, count-assign q p v nodes g, g node v)

  pub AllIn-assign :
      (n i : ℕ) (p : Node K V → Bool) (v : V) (c : Chain K V)
      → AllIn n i c
      → AllIn n i (assign p v c)
  unfolding assign
  AllIn-assign n i p v [] a = tt
  AllIn-assign n i p v (node ∷ nodes) a = elim (Bool-cases (p node)) [
    | inl t ↦ rw t a
    | inr f ↦ rw f (a.0, AllIn-assign n i p v nodes a.1)
  ]

  pub find-assign_self :
      (p : Node K V → Bool) (v old : V) (c : Chain K V)
      → Ignores p
      → find p c ≡ some old
      → find p (assign p v c) ≡ some v
  unfolding find assign
  find-assign_self p v old [] g e = absurd (none-ne-some _ e)
  find-assign_self p v old (node ∷ nodes) g e =
      ground (arith, find-assign_self p v old nodes g, g node v)

  pub find-assign_other :
      (q p : Node K V → Bool) (v : V) (c : Chain K V)
      → Ignores q
      → ((node : Node K V) → p node ≡ true → q node ≡ false)
      → find q (assign p v c) ≡ find q c
  unfolding find assign
  find-assign_other q p v [] g e = refl
  find-assign_other q p v (node ∷ nodes) g e =
      ground (arith, find-assign_other q p v nodes g e, g node v, e node)
