-- ===== src/Map/Rehash.antt =====
-- zis_map_obj_rehash and zis_map_obj_reserve: the invariant of a map, and what a rehash keeps.
use mathlib.Core.Path.{subst}
use zis_lang.Common.{
  ℕ, zero, suc, ◌+◌, ◌%◌, ◌≤◌, ◌<◌, ◌≡◌, refl, sym, ap, ◌∙◌, Bool, true, List, [], ◌∷◌, Option,
  none, some, arith, ltb, Bool-cases, inl, inr, length, get_or, length-replicate,
}
use zis_lang.Map.{Node, Chain, MapObj, find, matches, get_node, new_buckets, rehash, reserve, ok}
use zis_lang.Map.Interface.{Keys, LoadFactor}
use zis_lang.Map.Buckets.{
  count, total, ArePlaced, OnlyHash, count-elsewhere, total-elsewhere, ArePlaced-new, total-new,
}
use zis_lang.Map.Moves.{get_bucket-chain_at, find_last, find_last_all, move_all-IsMoved}

abbrev or_else : {V : Type 0} → Option V → Option V → Option V
or_else none d = d
or_else (some v) d = some v

or_else-none : {V : Type 0} (o : Option V) → or_else o none ≡ o
or_else-none none = refl
or_else-none (some v) = refl

module _ {K V : Type 0} where
  find_last-none :
      (p : Node K V → Bool) (c : Chain K V) (d : Option V) → count p c ≡ 0 → find_last p c d ≡ d
  find_last-none p [] d h = refl
  find_last-none p (node ∷ nodes) d h = ground (arith, find_last-none p nodes d)

  find_last-find :
      (p : Node K V → Bool) (c : Chain K V) (d : Option V)
      → count p c ≤ 1
      → find_last p c d ≡ or_else (find p c) d
  unfolding find
  find_last-find p [] d h = refl
  find_last-find p (node ∷ nodes) d h =
      ground (arith, find_last-find p nodes d, find_last-none p nodes (some node.value))

  find_last_all-none :
      (p : Node K V → Bool) (cs : List (Chain K V)) (d : Option V)
      → total p cs ≡ 0
      → find_last_all p cs d ≡ d
  find_last_all-none p [] d h = refl
  find_last_all-none p (c ∷ cs) d h =
      ap (find_last_all p cs) (find_last-none p c d (omega arith))
      ∙ find_last_all-none p cs d (omega arith)

  -- When at most one node passes the test, the last one found is the one in the bucket.
  find_last_all-bucket :
      (p : Node K V → Bool) (h n i j : ℕ) (cs : List (Chain K V)) (d : Option V)
      → OnlyHash p h
      → ArePlaced n i cs
      → h % n ≡ i + j
      → total p cs ≤ 1
      → find_last_all p cs d ≡ or_else (find p (get_or cs j [])) d
  unfolding find
  find_last_all-bucket p h n i j [] d only a e u = refl
  find_last_all-bucket p h n i zero (c ∷ cs) d only a e u =
      find_last_all-none p cs (find_last p c d)
        (total-elsewhere p h n (suc i) cs only a.1 (omega arith))
      ∙ find_last-find p c d (omega arith)
  find_last_all-bucket p h n i (suc j) (c ∷ cs) d only a e u =
      let z = count-elsewhere p h n i c only a.0 (omega arith) in
      ap (find_last_all p cs) (find_last-none p c d z)
      ∙ find_last_all-bucket p h n (suc i) j cs d only a.1 (omega arith) (omega arith)

  abbrev pub any : Node K V → Bool
  any node = true

  pub find-new : (p : Node K V → Bool) (n j : ℕ) → find p (get_or (new_buckets n) j []) ≡ none
  unfolding find
  find-new p zero j = refl
  find-new p (suc n) zero = refl
  find-new p (suc n) (suc j) = find-new p n j

module _ {K V : Type 0} ⦃keys : Keys K⦄ where
  pub matches-OnlyHash : (h : ℕ) (k : K) → OnlyHash {V = V} (matches h k) h
  matches-OnlyHash h k node e = ground arith

  -- Each node is in the bucket of its hash, no two nodes hold equal keys of one hash, the nodes are
  -- counted, and a map with no bucket asks for room at the first element.
  pub record IsMap (m : MapObj K V) : Type 0 where
    pub placed : ArePlaced (length m.buckets) 0 m.buckets
    pub unique : (k : K) (h : ℕ) → total (matches h k) m.buckets ≤ 1
    pub counted : total any m.buckets ≡ m.node_count
    pub room : length m.buckets ≡ 0 → m.node_count_threshold ≡ 0

  -- Two maps in which every search gives the same.
  abbrev pub IsSame : MapObj K V → MapObj K V → Type 0
  IsSame m m' = (k : K) (h : ℕ) → get_node m'.buckets k h ≡ get_node m.buckets k h

  module _ (load : LoadFactor) where
    -- A rehash into at least one bucket succeeds, keeps the invariant, every search and the count.
    pub rehash_lem :
        (m : MapObj K V) (n : ℕ)
        → IsMap m
        → 0 < n
        → (m' : MapObj K V) × (rehash load m n ≡ ok m')
          × IsMap m'
          × IsSame m m'
          × (length m'.buckets ≡ n)
          × (m'.node_count ≡ m.node_count)
    unfolding rehash get_node
    rehash_lem m n i pos =
        let r =
          move_all-IsMoved n m.buckets (new_buckets n) pos (length-replicate n [])
            (ArePlaced-new K V n 0 n) in
        let w = r.2 in
        let m' : MapObj K V = record {
          buckets = r.0;
          node_count = m.node_count;
          node_count_threshold = load.threshold n;
        } in
        (
          m',
          rw r.1 refl,
          record {
            placed = subst (λ t. ArePlaced t 0 r.0) (sym w.same_length) w.placed;
            unique = λ k h.
                omega
                  (arith, w.totals (matches h k), total-new (matches {V = V} h k) n, i.unique k h);
            counted = omega (arith, w.totals any, total-new {V = V} any n, i.counted);
            room = λ e. absurd (omega (arith, w.same_length));
          },
          λ k h.
              rw (get_bucket-chain_at r.0 h, get_bucket-chain_at m.buckets h)
                (w.finds (matches h k) h (matches-OnlyHash h k)
                  ∙ ap (find_last_all (matches h k) m.buckets)
                      (find-new (matches h k) n (h % length (new_buckets {K = K} {V = V} n)))
                  ∙ find_last_all-bucket (matches h k) h (length m.buckets) 0 (h % length m.buckets)
                      m.buckets none (matches-OnlyHash h k) i.placed (omega arith) (i.unique k h)
                  ∙ or_else-none _),
          w.same_length,
          refl,
        )

    -- Room for at least one element is always made, whatever the load factor.
    pub reserve_lem :
        (m : MapObj K V) (n : ℕ)
        → IsMap m
        → 0 < n
        → (m' : MapObj K V) × (reserve load m n ≡ ok m')
          × IsMap m'
          × IsSame m m'
          × (0 < length m'.buckets)
          × (m'.node_count ≡ m.node_count)
    unfolding reserve
    reserve_lem m n i pos =
        let b = load.min_bkt_cnt-pos n pos in
        elim (Bool-cases (ltb (length m.buckets) (load.min_bkt_cnt n))) [
          | inl e ↦
              let r = rehash_lem m (load.min_bkt_cnt n) i b in
              (r.0, rw e r.1, r.2, r.3, omega (arith, r.4), r.5)
          | inr e ↦ (m, rw e refl, i, λ k h. refl, grind (arith, e), refl)
        ]
