-- ===== src/Map/Unset.antt =====
-- zis_map_obj_unset: when it works, and when it writes out of the bounds of the buckets.
use mathlib.Core.Option.{none-ne-some}
use mathlib.Core.Path.{subst}
use native.Mathlib.Decide.{ℕ_discrete}
use native.Mathlib.Nat.{mod-eq_of_lt}
use zis_lang.Common.{
  ℕ, ◌+◌, ◌-◌, ◌%◌, ◌≤◌, ◌<◌, ◌≡◌, ◌≢◌, refl, sym, ap, ◌∙◌, Bool, true, false, ◌&&◌, List, [], ◌∷◌,
  Option, none, some, arith, ltb, ◌==◌, if◌then◌else◌, length, length-set, get_or, set, Bool-cases,
  inl, inr,
}
use zis_lang.Map.{
  Node, Chain, MapObj, find, unlink, matches, get_node, get_bucket, del_from_chain, del_node, unset,
  get, Status, ok, thr, fault, not_found,
}
use zis_lang.Map.Interface.{Keys}
use zis_lang.Map.Buckets.{
  count, total, ArePlaced, ArePlaced-get, ArePlaced-set, total-set, total-bucket, get_or-set_self,
  get_or-set_ne,
}
use zis_lang.Map.Moves.{chain_at, get_bucket-chain_at}
use zis_lang.Map.Rehash.{any, IsMap, matches-OnlyHash}
use zis_lang.Map.Insert.{matches-same}
use zis_lang.Map.Update.{matches-other, found-length}
use zis_lang.Map.Unlink.{
  count-unlink, find-unlink_self, find-unlink_other, length-unlink, AllIn-unlink,
}
use zis_lang.Map.Laws.{answer, get-answer, get-changed}

abbrev value_of : {A : Type 0} → Status A → Option A
value_of (ok a) = some a
value_of thr = none
value_of not_found = none
value_of fault = none

answer-value_of : {A : Type 0} (o : Option A) → o ≡ value_of (answer o)
answer-value_of none = refl
answer-value_of (some a) = refl

module _ {K V : Type 0} where
  abbrev without : List (Chain K V) → (Node K V → Bool) → ℕ → List (Chain K V)
  without buckets p h = set buckets (h % length buckets) (unlink p (chain_at buckets h))

  -- A hash below the number of buckets is its own slot: the node that is found is taken out.
  del_from_chain_lem :
      (buckets : List (Chain K V)) (p : Node K V → Bool) (h : ℕ) (c : Chain K V) (old : V)
      → h < length buckets
      → find p c ≡ some old
      → del_from_chain buckets p h c ≡ ok (set buckets (h % length buckets) (unlink p c))
  unfolding del_from_chain find unlink
  del_from_chain_lem buckets p h [] old lt e = absurd (none-ne-some _ e)
  del_from_chain_lem buckets p h (node ∷ nodes) old lt e =
      let m : h % length buckets ≡ h = mod-eq_of_lt lt in
      elim (Bool-cases (p node)) [
        | inl t ↦ let b : ltb h (length buckets) ≡ true = grind arith in rw (t, b, m) refl
        | inr f ↦
            let e' : find p nodes ≡ some old =
              sym (ap (λ b. if b then some node.value else find p nodes) f) ∙ e in
            rw (f, e') refl
      ]

  total-without :
      (q p : Node K V → Bool) (buckets : List (Chain K V)) (h : ℕ)
      → 0 < length buckets
      → total q (without buckets p h) + count q (chain_at buckets h)
        ≡ total q buckets + count q (unlink p (chain_at buckets h))
  total-without q p buckets h pos =
      total-set q buckets (h % length buckets) (unlink p (chain_at buckets h)) (omega arith)

  chain_at-without_same :
      (p : Node K V → Bool) (buckets : List (Chain K V)) (h g : ℕ)
      → 0 < length buckets
      → h % length buckets ≡ g % length buckets
      → chain_at (without buckets p h) g ≡ unlink p (chain_at buckets h)
  chain_at-without_same p buckets h g pos e =
      rw (length-set buckets (h % length buckets) (unlink p (chain_at buckets h)), ← e)
        (get_or-set_self buckets (h % length buckets) (unlink p (chain_at buckets h)) (omega arith))

  chain_at-without_other :
      (p : Node K V → Bool) (buckets : List (Chain K V)) (h g : ℕ)
      → h % length buckets ≢ g % length buckets
      → chain_at (without buckets p h) g ≡ chain_at buckets g
  chain_at-without_other p buckets h g ne =
      rw (length-set buckets (h % length buckets) (unlink p (chain_at buckets h))) (
        get_or-set_ne buckets (h % length buckets) (g % length buckets)
          (unlink p (chain_at buckets h)) ne)

  find-without_other :
      (q p : Node K V → Bool) (buckets : List (Chain K V)) (h g : ℕ)
      → 0 < length buckets
      → ((node : Node K V) → p node ≡ true → q node ≡ false)
      → find q (chain_at (without buckets p h) g) ≡ find q (chain_at buckets g)
  find-without_other q p buckets h g pos other =
      elim (ℕ_discrete (h % length buckets) (g % length buckets)) [
        | yes e ↦
            ap (find q) (chain_at-without_same p buckets h g pos e)
            ∙ find-unlink_other q p (chain_at buckets h) other
            ∙ ap (λ j. find q (get_or buckets j [])) e
        | no ne ↦ ap (find q) (chain_at-without_other p buckets h g ne)
      ]

module _ {K V : Type 0} ⦃keys : Keys K⦄ where
  find-without :
      (buckets : List (Chain K V)) (key k : K) (h g : ℕ)
      → 0 < length buckets
      → count (matches h key) (chain_at buckets h) ≤ 1
      → find (matches g k) (chain_at (without buckets (matches h key) h) g)
        ≡ (if g == h && keys.equals k key then none else find (matches g k) (chain_at buckets g))
  find-without buckets key k h g pos u =
      let p = matches {V = V} h key in
      let if_ : Bool → Option V =
        λ b. if b then none else find (matches g k) (chain_at buckets g) in
      elim (Bool-cases (g == h && keys.equals k key)) [
        | inl t ↦
            let e : g ≡ h = grind (arith, t) in
            let same : keys.equals k key ≡ true = grind (arith, t) in
            ap (λ x. find (matches x k) (chain_at (without buckets p h) x)) e
            ∙ ap (λ q. find q (chain_at (without buckets p h) h)) (matches-same key k h same)
            ∙ ap (find p) (chain_at-without_same p buckets h h pos refl)
            ∙ find-unlink_self p (chain_at buckets h) u
            ∙ ap if_ (sym t)
        | inr f ↦
            find-without_other (matches g k) p buckets h g pos
              (λ node. matches-other key k h g node f)
            ∙ ap if_ (sym f)
      ]

  without-IsMap :
      (m : MapObj K V) (key : K) (h c t : ℕ) (old : V)
      → IsMap m
      → find (matches h key) (chain_at m.buckets h) ≡ some old
      → c + 1 ≡ m.node_count
      → IsMap (record {
        buckets = without m.buckets (matches h key) h;
        node_count = c;
        node_count_threshold = t;
      })
  without-IsMap m key h c t old i found cnt =
      let p = matches {V = V} h key in
      let n = length m.buckets in
      let pos = found-length m.buckets p h old found in
      let b = without m.buckets p h in
      let l : length b ≡ n = length-set m.buckets _ _ in
      record {
        placed =
            subst (λ t. ArePlaced t 0 b) (sym l)
              (ArePlaced-set n 0 (h % n) m.buckets (unlink p (chain_at m.buckets h)) i.placed (
                AllIn-unlink n (0 + h % n) p (chain_at m.buckets h)
                  (ArePlaced-get n 0 (h % n) m.buckets i.placed)));
        unique = λ k g. omega (
          arith,
          total-without (matches g k) p m.buckets h pos,
          count-unlink (matches g k) p (chain_at m.buckets h),
          i.unique k g,
        );
        counted = omega (
          arith,
          total-without any p m.buckets h pos,
          length-unlink any p (chain_at m.buckets h) old (λ node. refl) found,
          i.counted,
          cnt,
        );
        room = λ e. absurd (omega (arith, pos));
      }

  -- For keys whose equality is reflexive, symmetric and transitive, and where equal keys have equal
  -- hash codes (integers mixed with floating point numbers do not): unsetting a key that is in the
  -- map, and whose hash is below the number of buckets, succeeds. The
  -- map stays valid; a get then finds nothing for every key equal to the one unset, and gives for
  -- every other key what it gave before; the count drops by one.
  pub unset-get :
      (m : MapObj K V) (key : K) (old : V) (h : ℕ)
      → IsMap m
      → keys.hash key ≡ some h
      → get m key ≡ ok old
      → h < length m.buckets
      → (m' : MapObj K V) × (unset m key ≡ ok m')
        × IsMap m'
        × ((k : K) → get m' k ≡ (if keys.equals k key then not_found else get m k))
        × (m'.node_count + 1 ≡ m.node_count)
  unfolding unset del_node get_node
  unset-get m key old h i e got lt =
      let p = matches {V = V} h key in
      let node : get_node m.buckets key h ≡ some old =
        answer-value_of (get_node m.buckets key h)
        ∙ ap value_of (sym (get-answer m key h e) ∙ got) in
      let found : find p (chain_at m.buckets h) ≡ some old =
        ap (find p) (sym (get_bucket-chain_at m.buckets h)) ∙ node in
      let pos = found-length m.buckets p h old found in
      let u : count p (chain_at m.buckets h) ≤ 1 = omega (
        arith,
        total-bucket p h (length m.buckets) 0 (h % length m.buckets) m.buckets
            (matches-OnlyHash h key) i.placed (omega arith) (omega arith),
        i.unique key h,
      ) in
      let c : m.node_count - 1 + 1 ≡ m.node_count = omega (
        arith,
        i.counted,
        total-without any p m.buckets h pos,
        length-unlink any p (chain_at m.buckets h) old (λ node. refl) found,
      ) in
      let m' : MapObj K V = record m {
        buckets = without m.buckets p h;
        node_count = m.node_count - 1;
      } in
      (
        m',
        rw
            (
              unset,
              e,
              get_bucket-chain_at m.buckets h,
              del_from_chain_lem m.buckets p h (chain_at m.buckets h) old lt found,
            )
            refl,
        without-IsMap m key h (m.node_count - 1) m.node_count_threshold old i found c,
        λ k. get-changed m m' key k none h e (λ g.
            rw (get_bucket-chain_at (without m.buckets p h) g, get_bucket-chain_at m.buckets g)
              (find-without m.buckets key k h g pos u)),
        c,
      )

  -- Unsetting a key that is the first of its chain, and whose hash is not below the number of
  -- buckets, writes to a slot outside of the buckets.
  pub unset-fault :
      (m : MapObj K V) (key : K) (h : ℕ) (node : Node K V) (nodes : Chain K V)
      → keys.hash key ≡ some h
      → get_bucket m.buckets h ≡ node ∷ nodes
      → matches h key node ≡ true
      → length m.buckets ≤ h
      → unset m key ≡ fault
  unfolding unset del_node del_from_chain
  unset-fault m key h node nodes e b t le =
      let o : ltb h (length m.buckets) ≡ false = grind arith in rw (unset, e, b, t, o) refl
