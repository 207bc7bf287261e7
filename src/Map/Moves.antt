-- ===== src/Map/Moves.antt =====
-- What putting a node, and moving all nodes into new buckets, does to the searches.
use zis_lang.Common.{
  ℕ, ◌+◌, ◌%◌, ◌<◌, ◌≡◌, refl, sym, ap, ◌∙◌, Bool, List, [], ◌∷◌, Option, some, arith,
  if◌then◌else◌, length, get_or, set, length-set, Bool-cases, inl, inr,
}
use native.Mathlib.Decide.{ℕ_discrete}
use zis_lang.Map.{Node, Chain, find, get_bucket, put_node, move_chain, move_all, ok}
use zis_lang.Map.Buckets.{
  count, total, ArePlaced, OnlyHash, ArePlaced-get, ArePlaced-set, total-set, get_or-set_self,
  get_or-set_ne,
}

module _ {K V : Type 0} where
  -- The chain that a search for a hash goes through.
  abbrev pub chain_at : List (Chain K V) → ℕ → Chain K V
  chain_at buckets h = get_or buckets (h % length buckets) []

  pub get_bucket-chain_at :
      (buckets : List (Chain K V)) (h : ℕ) → get_bucket buckets h ≡ chain_at buckets h
  unfolding get_bucket
  get_bucket-chain_at [] h = refl
  get_bucket-chain_at (c ∷ cs) h = ground arith

  abbrev pub put : List (Chain K V) → Node K V → List (Chain K V)
  put buckets node =
      set buckets (node.key_hash % length buckets) (node ∷ chain_at buckets node.key_hash)

  pub put_node-put :
      (buckets : List (Chain K V)) (node : Node K V)
      → 0 < length buckets
      → put_node buckets node ≡ ok (put buckets node)
  unfolding put_node
  put_node-put buckets node h = ground arith

  pub find-put :
      (p : Node K V → Bool) (h : ℕ) (buckets : List (Chain K V)) (node : Node K V)
      → OnlyHash p h
      → 0 < length buckets
      → find p (chain_at (put buckets node) h)
        ≡ (if p node then some node.value else find p (chain_at buckets h))
  find-put p h buckets node only l =
      let n = length buckets in
      let e : length (put buckets node) ≡ n = length-set buckets _ _ in
      rw e (elim (ℕ_discrete (node.key_hash % n) (h % n)) [
        | yes same ↦
            rw
              (
                ← same,
                get_or-set_self buckets (node.key_hash % n) (node ∷ chain_at buckets node.key_hash)
                    (omega arith),
              )
              (unfold find in refl)
        | no differ ↦
            rw
              (get_or-set_ne buckets (node.key_hash % n) (h % n)
                (node ∷ chain_at buckets node.key_hash) differ)
              (elim (Bool-cases (p node)) [
                | inl t ↦ absurd (differ (ap (λ t. t % n) (sym (only node t))))
                | inr f ↦ rw f refl
              ])
      ])

  pub ArePlaced-put :
      (n : ℕ) (buckets : List (Chain K V)) (node : Node K V)
      → length buckets ≡ n
      → ArePlaced n 0 buckets
      → ArePlaced n 0 (put buckets node)
  ArePlaced-put n buckets node e a =
      let j = node.key_hash % length buckets in
      ArePlaced-set n 0 j buckets (node ∷ chain_at buckets node.key_hash) a
        (ap (λ t. node.key_hash % t) (sym e) ∙ omega arith, ArePlaced-get n 0 j buckets a)

  pub total-put :
      (p : Node K V → Bool) (buckets : List (Chain K V)) (node : Node K V)
      → 0 < length buckets
      → total p (put buckets node) ≡ (if p node then 1 else 0) + total p buckets
  total-put p buckets node h = omega (
    arith,
    total-set p buckets (node.key_hash % length buckets) (node ∷ chain_at buckets node.key_hash)
        (omega arith),
  )

  -- The last node that passes the test is found, if there is one.
  abbrev pub find_last : (Node K V → Bool) → Chain K V → Option V → Option V
  find_last p [] d = d
  find_last p (node ∷ nodes) d = find_last p nodes (if p node then some node.value else d)

  abbrev pub find_last_all : (Node K V → Bool) → List (Chain K V) → Option V → Option V
  find_last_all p [] d = d
  find_last_all p (c ∷ cs) d = find_last_all p cs (find_last p c d)

  -- The buckets after some nodes were put into `fresh`: how many nodes pass a test (`more` of them
  -- new), and which value a search finds.
  pub record IsMoved (n : ℕ) (more : (Node K V → Bool) → ℕ)
      (last : (Node K V → Bool) → Option V → Option V) (fresh : List (Chain K V))
      (result : List (Chain K V)) : Type 0 where
    pub same_length : length result ≡ n
    pub placed : ArePlaced n 0 result
    pub totals : (p : Node K V → Bool) → total p result ≡ more p + total p fresh
    pub finds :
        (p : Node K V → Bool) (h : ℕ)
        → OnlyHash p h
        → find p (chain_at result h) ≡ last p (find p (chain_at fresh h))

  pub move_chain-IsMoved :
      (n : ℕ) (nodes : Chain K V) (fresh : List (Chain K V))
      → 0 < n
      → length fresh ≡ n
      → ArePlaced n 0 fresh
      → (r : List (Chain K V)) × (move_chain nodes fresh ≡ ok r)
        × IsMoved n (λ p. count p nodes) (λ p d. find_last p nodes d) fresh r
  unfolding move_chain
  move_chain-IsMoved n [] fresh pos e a = (
    fresh,
    refl,
    record { same_length = e; placed = a; totals = λ p. omega arith; finds = λ p h o. refl },
  )
  move_chain-IsMoved n (node ∷ nodes) fresh pos e a =
      let l : length (put fresh node) ≡ n = length-set fresh _ _ ∙ e in
      let ih = move_chain-IsMoved n nodes (put fresh node) pos l (ArePlaced-put n fresh node e a) in
      (
        ih.0,
        rw (put_node-put fresh node (omega arith)) ih.1,
        record {
          same_length = ih.2.same_length;
          placed = ih.2.placed;
          totals = λ p. omega (arith, ih.2.totals p, total-put p fresh node (omega arith));
          finds = λ p h o.
              ih.2.finds p h o ∙ ap (find_last p nodes) (find-put p h fresh node o (omega arith));
        },
      )

  pub move_all-IsMoved :
      (n : ℕ) (chains fresh : List (Chain K V))
      → 0 < n
      → length fresh ≡ n
      → ArePlaced n 0 fresh
      → (r : List (Chain K V)) × (move_all chains fresh ≡ ok r)
        × IsMoved n (λ p. total p chains) (λ p d. find_last_all p chains d) fresh r
  unfolding move_all
  move_all-IsMoved n [] fresh pos e a = (
    fresh,
    refl,
    record { same_length = e; placed = a; totals = λ p. omega arith; finds = λ p h o. refl },
  )
  move_all-IsMoved n (c ∷ cs) fresh pos e a =
      let m = move_chain-IsMoved n c fresh pos e a in
      let ih = move_all-IsMoved n cs m.0 pos m.2.same_length m.2.placed in
      (
        ih.0,
        rw m.1 ih.1,
        record {
          same_length = ih.2.same_length;
          placed = ih.2.placed;
          totals = λ p. omega (arith, ih.2.totals p, m.2.totals p);
          finds = λ p h o. ih.2.finds p h o ∙ ap (find_last_all p cs) (m.2.finds p h o);
        },
      )
