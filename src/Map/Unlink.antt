-- ===== src/Map/Unlink.antt =====
-- A chain without the node that a search found.
use mathlib.Core.Option.{none-ne-some}
use zis_lang.Common.{
  ℕ, ◌+◌, ◌≤◌, ◌≡◌, refl, Bool, true, false, [], ◌∷◌, none, some, arith, Bool-cases, inl, inr,
}
use zis_lang.Map.{Node, Chain, find, unlink}
use zis_lang.Map.Buckets.{count, AllIn, count-find}

module _ {K V : Type 0} where
  pub count-unlink : (q p : Node K V → Bool) (c : Chain K V) → count q (unlink p c) ≤ count q c
  unfolding unlink
  count-unlink q p [] = omega arith
  count-unlink q p (node ∷ nodes) = ground (arith, count-unlink q p nodes)

  pub find-unlink_self :
      (p : Node K V → Bool) (c : Chain K V) → count p c ≤ 1 → find p (unlink p c) ≡ none
  unfolding find unlink
  find-unlink_self p [] u = refl
  find-unlink_self p (node ∷ nodes) u = ground (arith, find-unlink_self p nodes, count-find p nodes)

  pub find-unlink_other :
      (q p : Node K V → Bool) (c : Chain K V)
      → ((node : Node K V) → p node ≡ true → q node ≡ false)
      → find q (unlink p c) ≡ find q c
  unfolding find unlink
  find-unlink_other q p [] e = refl
  find-unlink_other q p (node ∷ nodes) e = ground (arith, find-unlink_other q p nodes e, e node)

  pub length-unlink :
      (any p : Node K V → Bool) (c : Chain K V) (old : V)
      → ((node : Node K V) → any node ≡ true)
      → find p c ≡ some old
      → count any (unlink p c) + 1 ≡ count any c
  unfolding find unlink
  length-unlink any p [] old a e = absurd (none-ne-some _ e)
  length-unlink any p (node ∷ nodes) old a e =
      ground (arith, length-unlink any p nodes old a, a node)

  pub AllIn-unlink :
      (n i : ℕ) (p : Node K V → Bool) (c : Chain K V) → AllIn n i c → AllIn n i (unlink p c)
  unfolding unlink
  AllIn-unlink n i p [] a = tt
  AllIn-unlink n i p (node ∷ nodes) a = elim (Bool-cases (p node)) [
    | inl t ↦ rw t a.1
    | inr f ↦ rw f (a.0, AllIn-unlink n i p nodes a.1)
  ]
