-- ===== src/Map/Update.antt =====
-- zis_map_obj_set for a key that has a node: the value of the node is changed.
use mathlib.Core.Option.{none-ne-some}
use mathlib.Core.Path.{subst}
use native.Mathlib.Decide.{ℕ_discrete}
use zis_lang.Common.{
  ℕ, ◌+◌, ◌%◌, ◌<◌, ◌≡◌, ◌≢◌, refl, sym, ap, ◌∙◌, Bool, true, false, ◌&&◌, List, [], ◌∷◌, Option,
  some, arith, ◌==◌, if◌then◌else◌, length, length-set, get_or, set, Bool-cases, inl, inr,
}
use zis_lang.Map.{Node, Chain, MapObj, find, assign, matches, get_node, update}
use zis_lang.Map.Interface.{Keys, LoadFactor, equals-same}
use zis_lang.Map.Buckets.{
  total, ArePlaced, ArePlaced-get, ArePlaced-set, total-set, get_or-set_self, get_or-set_ne,
}
use zis_lang.Map.Moves.{chain_at, get_bucket-chain_at}
use zis_lang.Map.Rehash.{any, IsMap, matches-OnlyHash}
use zis_lang.Map.Assign.{Ignores, count-assign, AllIn-assign, find-assign_self, find-assign_other}
use zis_lang.Map.Insert.{IsUpdated, matches-same}

module _ {K V : Type 0} ⦃keys : Keys K⦄ where
  pub found-length :
      (buckets : List (Chain K V)) (p : Node K V → Bool) (h : ℕ) (old : V)
      → find p (chain_at buckets h) ≡ some old
      → 0 < length buckets
  unfolding find
  found-length [] p h old e = absurd (none-ne-some _ e)
  found-length (c ∷ cs) p h old e = omega arith

  abbrev changed : List (Chain K V) → (Node K V → Bool) → ℕ → V → List (Chain K V)
  changed buckets p h value = set buckets (h % length buckets) (assign p value (chain_at buckets h))

  total-changed :
      (q p : Node K V → Bool) (buckets : List (Chain K V)) (h : ℕ) (value : V)
      → Ignores q
      → 0 < length buckets
      → total q (changed buckets p h value) ≡ total q buckets
  total-changed q p buckets h value g pos = omega (
    arith,
    total-set q buckets (h % length buckets) (assign p value (chain_at buckets h)) (omega arith),
    count-assign q p value (chain_at buckets h) g,
  )

  -- A node that one search finds is not found by the search for another key or hash.
  pub matches-other :
      (key k : K) (h g : ℕ) (node : Node K V)
      → (g == h && keys.equals k key) ≡ false
      → matches h key node ≡ true
      → matches g k node ≡ false
  matches-other key k h g node differ e =
      let s : keys.equals key node.key ≡ true = grind (arith, e) in
      let t : keys.equals k node.key ≡ keys.equals k key =
        keys.equals_symm k node.key ∙ sym (equals-same key node.key k s) ∙ keys.equals_symm key k in
      ap (λ x. g == x && keys.equals k node.key) (sym (matches-OnlyHash h key node e))
      ∙ ap (λ b. g == h && b) t
      ∙ differ

  chain_at-changed_same :
      (p : Node K V → Bool) (buckets : List (Chain K V)) (h g : ℕ) (value : V)
      → 0 < length buckets
      → h % length buckets ≡ g % length buckets
      → chain_at (changed buckets p h value) g ≡ assign p value (chain_at buckets h)
  chain_at-changed_same p buckets h g value pos e =
      rw (length-set buckets (h % length buckets) (assign p value (chain_at buckets h)), ← e)
        (get_or-set_self buckets (h % length buckets) (assign p value (chain_at buckets h))
          (omega arith))

  chain_at-changed_other :
      (p : Node K V → Bool) (buckets : List (Chain K V)) (h g : ℕ) (value : V)
      → h % length buckets ≢ g % length buckets
      → chain_at (changed buckets p h value) g ≡ chain_at buckets g
  chain_at-changed_other p buckets h g value ne =
      rw (length-set buckets (h % length buckets) (assign p value (chain_at buckets h))) (
        get_or-set_ne buckets (h % length buckets) (g % length buckets)
          (assign p value (chain_at buckets h)) ne)

  find-changed_self :
      (p : Node K V → Bool) (buckets : List (Chain K V)) (h : ℕ) (value old : V)
      → Ignores p
      → find p (chain_at buckets h) ≡ some old
      → find p (chain_at (changed buckets p h value) h) ≡ some value
  find-changed_self p buckets h value old g found =
      ap (find p)
        (chain_at-changed_same p buckets h h value (found-length buckets p h old found) refl)
      ∙ find-assign_self p value old (chain_at buckets h) g found

  find-changed_other :
      (q p : Node K V → Bool) (buckets : List (Chain K V)) (h g : ℕ) (value old : V)
      → Ignores q
      → ((node : Node K V) → p node ≡ true → q node ≡ false)
      → find p (chain_at buckets h) ≡ some old
      → find q (chain_at (changed buckets p h value) g) ≡ find q (chain_at buckets g)
  find-changed_other q p buckets h g value old ig other found =
      elim (ℕ_discrete (h % length buckets) (g % length buckets)) [
        | yes e ↦
            ap (find q)
              (chain_at-changed_same p buckets h g value (found-length buckets p h old found) e)
            ∙ find-assign_other q p value (chain_at buckets h) ig other
            ∙ ap (λ j. find q (get_or buckets j [])) e
        | no ne ↦ ap (find q) (chain_at-changed_other p buckets h g value ne)
      ]

  find-changed :
      (buckets : List (Chain K V)) (key k : K) (h g : ℕ) (value old : V)
      → find (matches h key) (chain_at buckets h) ≡ some old
      → find (matches g k) (chain_at (changed buckets (matches h key) h value) g) ≡ (
          if g == h && keys.equals k key
          then some value
          else find (matches g k) (chain_at buckets g))
  find-changed buckets key k h g value old found =
      let if_ : Bool → Option V =
        λ b. if b then some value else find (matches g k) (chain_at buckets g) in
      elim (Bool-cases (g == h && keys.equals k key)) [
        | inl t ↦
            let e : g ≡ h = grind (arith, t) in
            let same : keys.equals k key ≡ true = grind (arith, t) in
            ap (λ x. find (matches x k) (chain_at (changed buckets (matches h key) h value) x)) e
            ∙ ap (λ q. find q (chain_at (changed buckets (matches h key) h value) h))
                (matches-same key k h same)
            ∙ find-changed_self (matches h key) buckets h value old (λ node v. refl) found
            ∙ ap if_ (sym t)
        | inr f ↦
            find-changed_other (matches g k) (matches h key) buckets h g value old (λ node v. refl)
              (λ node. matches-other key k h g node f) found
            ∙ ap if_ (sym f)
      ]

  -- A changed value keeps the invariant and the count.
  pub update_lem :
      (load : LoadFactor) (m : MapObj K V) (key : K) (value old : V) (h : ℕ)
      → IsMap m
      → get_node m.buckets key h ≡ some old
      → IsUpdated m (update load m key value h) key value h
        × ((update load m key value h).node_count ≡ m.node_count)
  unfolding update get_node
  update_lem load m key value old h i found =
      let p = matches {V = V} h key in
      let found' : find p (chain_at m.buckets h) ≡ some old =
        ap (find p) (sym (get_bucket-chain_at m.buckets h)) ∙ found in
      let pos = found-length m.buckets p h old found' in
      let n = length m.buckets in
      let b = changed m.buckets p h value in
      let l : length b ≡ n = length-set m.buckets _ _ in
      rw (get_bucket-chain_at m.buckets h) (
        record {
          valid = record {
            placed =
                subst (λ t. ArePlaced t 0 b) (sym l)
                  (ArePlaced-set n 0 (h % n) m.buckets (assign p value (chain_at m.buckets h))
                    i.placed
                    (AllIn-assign n (0 + h % n) p value (chain_at m.buckets h)
                      (ArePlaced-get n 0 (h % n) m.buckets i.placed)));
            unique = λ k g. omega (
              arith,
              total-changed (matches g k) p m.buckets h value (λ node v. refl) pos,
              i.unique k g,
            );
            counted =
                omega
                  (arith, total-changed any p m.buckets h value (λ node v. refl) pos, i.counted);
            room = λ e. absurd (omega (arith, pos));
          };
          finds = λ k g.
              rw (get_bucket-chain_at b g, get_bucket-chain_at m.buckets g)
                (find-changed m.buckets key k h g value old found');
        },
        refl,
      )
