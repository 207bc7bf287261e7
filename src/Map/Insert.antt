-- ===== src/Map/Insert.antt =====
-- zis_map_obj_set for a new key: room is made, and a node is put in front of its chain.
use mathlib.Core.Bool.{true≢false}
use mathlib.Core.Path.{subst, fun_ext}
use zis_lang.Common.{
  ℕ, ◌+◌, ◌*◌, ◌%◌, ◌<◌, ◌≡◌, refl, sym, ap, ◌∙◌, Bool, true, ◌&&◌, List, [], ◌∷◌, none, some,
  arith, ltb, ◌==◌, if◌then◌else◌, length, length-set, Bool-cases, inl, inr,
}
use native.Mathlib.Decide.{ℕ_discrete}
use zis_lang.Map.{
  Node, Chain, MapObj, find, matches, get_node, get_bucket, is_full, insert, reserve, ok,
}
use zis_lang.Map.Interface.{Keys, LoadFactor, equals-same}
use zis_lang.Map.Buckets.{total, ArePlaced, total-bucket, find-count}
use zis_lang.Map.Moves.{
  chain_at, get_bucket-chain_at, put, put_node-put, find-put, ArePlaced-put, total-put,
}
use zis_lang.Map.Rehash.{any, IsMap, IsSame, matches-OnlyHash, reserve_lem}

total-empty :
    {K V : Type 0} (p : Node K V → Bool) (cs : List (Chain K V)) → length cs ≡ 0 → total p cs ≡ 0
total-empty p [] h = refl
total-empty p (c ∷ cs) h = absurd (omega arith)

module _ {K V : Type 0} ⦃keys : Keys K⦄ where
  pub matches-same :
      (k k' : K) (h : ℕ) → keys.equals k' k ≡ true → matches {V = V} h k' ≡ matches h k
  matches-same k k' h e =
      fun_ext (λ node. ap (λ b. h == node.key_hash && b) (equals-same k' k node.key e))

  -- Equal keys have the same search.
  get_node-same :
      (m : MapObj K V) (k k' : K) (h : ℕ)
      → keys.equals k' k ≡ true
      → get_node m.buckets k' h ≡ get_node m.buckets k h
  unfolding get_node
  get_node-same m k k' h e = ap (λ p. find p (get_bucket m.buckets h)) (matches-same k k' h e)

  -- A map after a value was set for a key of some hash: what each search finds.
  pub record IsUpdated (m m' : MapObj K V) (key : K) (value : V) (key_hash : ℕ) : Type 0 where
    pub valid : IsMap m'
    pub finds :
        (k : K) (h : ℕ)
        → get_node m'.buckets k h
          ≡ (if h == key_hash && keys.equals k key then some value else get_node m.buckets k h)

module _ {K V : Type 0} ⦃keys : Keys K⦄ (load : LoadFactor) where
  empty-is_full :
      (m : MapObj K V) (h : ℕ) → IsMap m → length m.buckets ≡ 0 → is_full load m h ≡ true
  unfolding is_full
  empty-is_full m h i e =
      let c : m.node_count ≡ 0 = sym i.counted ∙ total-empty any m.buckets e in
      ground (arith, c, i.room e)

  -- What room is made before a node is put: the map has a bucket, and is the same to every search.
  room_lem :
      (m : MapObj K V) (h : ℕ)
      → IsMap m
      → (s : MapObj K V) × ((if is_full load m h
            then reserve load m (if ltb 4 m.node_count then m.node_count * 2 else 6)
            else ok m)
          ≡ ok s)
        × IsMap s
        × IsSame m s
        × (0 < length s.buckets)
        × (s.node_count ≡ m.node_count)
  unfolding is_full
  room_lem m h i = elim (Bool-cases (is_full load m h)) [
    | inl e ↦
        let r =
          reserve_lem load m (if ltb 4 m.node_count then m.node_count * 2 else 6) i (grind arith) in
        (r.0, rw e r.1, r.2, r.3, r.4, r.5)
    | inr e ↦ (
      m,
      rw e refl,
      i,
      λ k h. refl,
      elim (ℕ_discrete (length m.buckets) 0) [
        | yes z ↦ absurd (true≢false (sym (empty-is_full m h i z) ∙ e))
        | no z ↦ omega arith
      ],
      refl,
    )
  ]

  total-absent :
      (m : MapObj K V) (k : K) (h : ℕ)
      → IsMap m
      → 0 < length m.buckets
      → get_node m.buckets k h ≡ none
      → total (matches h k) m.buckets ≡ 0
  unfolding get_node
  total-absent m k h i pos e =
      let p = matches {V = V} h k in
      total-bucket p h (length m.buckets) 0 (h % length m.buckets) m.buckets (matches-OnlyHash h k)
        i.placed (omega arith) (omega arith)
      ∙ find-count p (chain_at m.buckets h)
          (ap (find p) (sym (get_bucket-chain_at m.buckets h)) ∙ e)

  -- A new key is always inserted, whatever the load factor: the invariant holds after it.
  pub insert_lem :
      (m : MapObj K V) (key : K) (value : V) (h : ℕ)
      → IsMap m
      → get_node m.buckets key h ≡ none
      → (m' : MapObj K V) × (insert load m key value h ≡ ok m')
        × IsUpdated m m' key value h
        × (m'.node_count ≡ m.node_count + 1)
  unfolding insert get_node
  insert_lem m key value h i absent =
      let r = room_lem m h i in
      let s = r.0 in
      let node : Node K V = record { key = key; value = value; key_hash = h } in
      let l : length (put s.buckets node) ≡ length s.buckets = length-set s.buckets _ _ in
      (
        record s { buckets = put s.buckets node; node_count = m.node_count + 1 },
        rw (r.1, put_node-put s.buckets node r.4) refl,
        record {
          valid = record {
            placed =
                subst (λ t. ArePlaced t 0 (put s.buckets node)) (sym l)
                  (ArePlaced-put (length s.buckets) s.buckets node refl r.2.placed);
            unique = λ k g. elim (Bool-cases (matches g k node)) [
              | inl t ↦
                  let g≡h : g ≡ h = matches-OnlyHash g k node t in
                  let same : keys.equals k key ≡ true = grind (arith, t) in
                  let z = total-absent s k g r.2 r.4 (
                    r.3 k g
                    ∙ ap (get_node m.buckets k) g≡h
                    ∙ get_node-same m key k h same
                    ∙ absent) in
                  omega (
                    arith,
                    z,
                    (total-put (matches g k) s.buckets node r.4
                        ∙ ap (λ b. (if b then 1 else 0) + total (matches g k) s.buckets) t),
                  )
              | inr f ↦ omega (
                arith,
                r.2.unique k g,
                (total-put (matches g k) s.buckets node r.4
                    ∙ ap (λ b. (if b then 1 else 0) + total (matches g k) s.buckets) f),
              )
            ];
            counted = omega (arith, total-put any s.buckets node r.4, r.2.counted, r.5);
            room = λ e. absurd (omega (arith, r.4));
          };
          finds = λ k g. rw (get_bucket-chain_at (put s.buckets node) g) (
              find-put (matches g k) g s.buckets node (matches-OnlyHash g k) r.4
              ∙ ap (λ o. if matches g k node then some value else o)
                  (ap (find (matches g k)) (sym (get_bucket-chain_at s.buckets g)) ∙ r.3 k g));
        },
        refl,
      )
