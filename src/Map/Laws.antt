-- ===== src/Map/Laws.antt =====
-- What zis_map_obj_new, zis_map_obj_rehash and zis_map_obj_set promise to zis_map_obj_get.
use mathlib.Core.Path.{subst}
use zis_lang.Common.{
  ℕ, ◌⊎◌, ◌+◌, ◌%◌, ◌<◌, ◌≡◌, refl, sym, ap, ◌∙◌, ◌&&◌, [], Option, none, some, arith, ◌==◌,
  if◌then◌else◌, length, length-replicate, Bool-cases, inl, inr,
}
use zis_lang.Map.{
  MapObj, matches, find, clear, get_node, get, new, rehash, set_elem, update, new_buckets, Status,
  ok, thr, not_found,
}
use zis_lang.Map.Interface.{Keys, LoadFactor}
use zis_lang.Map.Buckets.{ArePlaced, ArePlaced-new, total-new}
use zis_lang.Map.Moves.{get_bucket-chain_at}
use zis_lang.Map.Rehash.{any, IsMap, find-new, rehash_lem}
use zis_lang.Map.Insert.{insert_lem}
use zis_lang.Map.Update.{update_lem}

pub Option-cases : {A : Type 0} (o : Option A) → (o ≡ none) ⊎ ((a : A) × (o ≡ some a))
Option-cases none = inl refl
Option-cases (some a) = inr (a, refl)

abbrev pub added : {A : Type 0} → Option A → ℕ
added none = 1
added (some old) = 0

abbrev pub answer : {A : Type 0} → Option A → Status A
answer none = not_found
answer (some v) = ok v

module _ {K V : Type 0} ⦃keys : Keys K⦄ where
  pub get-answer :
      (m : MapObj K V) (k : K) (h : ℕ)
      → keys.hash k ≡ some h
      → get m k ≡ answer (get_node m.buckets k h)
  unfolding get
  get-answer m k h e = elim (Option-cases (get_node m.buckets k h)) [
    | inl f ↦ rw (get, e, f) refl
    | inr f ↦ rw (get, e, f.1) refl
  ]

  pub get-thr : (m : MapObj K V) (k : K) → keys.hash k ≡ none → get m k ≡ thr
  unfolding get
  get-thr m k e = rw (get, e) refl

  -- A get only depends on the search for the key.
  pub get-search :
      (m m' : MapObj K V) (k : K)
      → ((h : ℕ) → get_node m'.buckets k h ≡ get_node m.buckets k h)
      → get m' k ≡ get m k
  get-search m m' k e = elim (Option-cases (keys.hash k)) [
    | inl n ↦ get-thr m' k n ∙ sym (get-thr m k n)
    | inr h ↦ get-answer m' k h.0 h.1 ∙ ap answer (e h.0) ∙ sym (get-answer m k h.0 h.1)
  ]

  -- What a get finds when a search finds `new` for the keys equal to one key, the old value else.
  pub get-changed :
      (m m' : MapObj K V) (key k : K) (new : Option V) (h : ℕ)
      → keys.hash key ≡ some h
      → ((g : ℕ)
          → get_node m'.buckets k g
            ≡ (if g == h && keys.equals k key then new else get_node m.buckets k g))
      → get m' k ≡ (if keys.equals k key then answer new else get m k)
  get-changed m m' key k new h e s = elim (Bool-cases (keys.equals k key)) [
    | inl t ↦
        get-answer m' k h (keys.hash-equals k key t ∙ e)
        ∙ ap answer (s h ∙ grind (arith, t))
        ∙ ap (λ b. if b then answer new else get m k) (sym t)
    | inr f ↦
        get-search m m' k (λ g. s g ∙ grind (arith, f))
        ∙ ap (λ b. if b then answer new else get m k) (sym f)
  ]

  -- For keys whose equality is reflexive, symmetric and transitive, and where equal keys have equal
  -- hash codes (integers mixed with floating point numbers do not): setting a key that can be hashed
  -- always succeeds, whatever the load factor. The map stays valid;
  -- a get then gives the new value for every key equal to the one set, and for every other key, one
  -- that cannot be hashed too, what it gave before; the count grows by one when the key was absent.
  pub set_elem_lem :
      (load : LoadFactor) (m : MapObj K V) (key : K) (value : V) (h : ℕ)
      → IsMap m
      → keys.hash key ≡ some h
      → (m' : MapObj K V) × (set_elem load m key value ≡ ok m')
        × IsMap m'
        × ((k : K) → get m' k ≡ (if keys.equals k key then ok value else get m k))
        × (m'.node_count ≡ m.node_count + added (get_node m.buckets key h))
  unfolding set_elem
  set_elem_lem load m key value h i e = elim (Option-cases (get_node m.buckets key h)) [
    | inl absent ↦
        let r = insert_lem load m key value h i absent in
        (
          r.0,
          rw (set_elem, e, absent) r.1,
          r.2.valid,
          λ k. get-changed m r.0 key k (some value) h e (r.2.finds k),
          r.3 ∙ ap (λ o. m.node_count + added o) (sym absent),
        )
    | inr f ↦
        let r = update_lem load m key value f.0 h i f.1 in
        (
          update load m key value h,
          rw (set_elem, e, f.1) refl,
          r.0.valid,
          λ k. get-changed m (update load m key value h) key k (some value) h e (r.0.finds k),
          r.1 ∙ sym (ap (λ o. m.node_count + added o) f.1 ∙ omega arith),
        )
  ]

  -- A rehash into at least one bucket succeeds, with exactly that many buckets; the map stays valid,
  -- and every get and the count are as before.
  pub rehash-get :
      (load : LoadFactor) (m : MapObj K V) (n : ℕ)
      → IsMap m
      → 0 < n
      → (m' : MapObj K V) × (rehash load m n ≡ ok m')
        × IsMap m'
        × (length m'.buckets ≡ n)
        × ((k : K) → get m' k ≡ get m k)
        × (m'.node_count ≡ m.node_count)
  rehash-get load m n i pos =
      let r = rehash_lem load m n i pos in
      (r.0, r.1, r.2, r.4, λ k. get-search m r.0 k (λ h. r.3 k h), r.5)

  get_node-new : (b : ℕ) (k : K) (h : ℕ) → get_node (new_buckets {K = K} {V = V} b) k h ≡ none
  unfolding get_node
  get_node-new b k h =
      ap (find (matches h k)) (get_bucket-chain_at (new_buckets b) h)
      ∙ find-new (matches h k) b (h % length (new_buckets {K = K} {V = V} b))

  -- A map of empty chains.
  fresh : ℕ → ℕ → MapObj K V
  fresh buckets threshold = record {
    buckets = new_buckets buckets;
    node_count = 0;
    node_count_threshold = threshold;
  }

  fresh-IsMap :
      (b t : ℕ)
      → (b ≡ 0 → t ≡ 0)
      → IsMap (fresh b t) × ((k : K) (h : ℕ) → keys.hash k ≡ some h → get (fresh b t) k ≡ not_found)
  unfolding fresh
  fresh-IsMap b t room =
      let l : length (new_buckets {K = K} {V = V} b) ≡ b = length-replicate b [] in
      (
        record {
          placed =
              subst (λ n. ArePlaced n 0 (new_buckets {K = K} {V = V} b)) (sym l)
                (ArePlaced-new K V b 0 b);
          unique = λ k h. omega (arith, total-new (matches {V = V} h k) b);
          counted = total-new (any {K = K} {V = V}) b;
          room = λ e. room (sym l ∙ e);
        },
        λ k h e. get-answer (fresh b t) k h e ∙ ap answer (get_node-new b k h),
      )

  new-fresh :
      (load : LoadFactor) (n : ℕ)
      → new {K = K} {V = V} load n ≡ fresh (if n == 0 then 0 else load.min_bkt_cnt n) n
  unfolding new fresh
  new-fresh load n = ground arith

  -- A new map is valid, whatever number of elements it has room for, and no key is found in it.
  pub new-IsMap :
      (load : LoadFactor) (n : ℕ)
      → IsMap {K = K} {V = V} (new load n)
        × ((k : K) (h : ℕ) → keys.hash k ≡ some h → get {V = V} (new load n) k ≡ not_found)
  new-IsMap load n = rw (new-fresh load n) (
      fresh-IsMap (if n == 0 then 0 else load.min_bkt_cnt n) n
        (λ e. grind (arith, e, load.min_bkt_cnt-pos n)))

  -- A cleared map is valid, has no elements, keeps its buckets, and no key is found in it.
  pub clear-IsMap :
      (m : MapObj K V)
      → IsMap m
      → IsMap (clear m)
        × ((clear m).node_count ≡ 0)
        × (length (clear m).buckets ≡ length m.buckets)
        × ((k : K) (h : ℕ) → keys.hash k ≡ some h → get (clear m) k ≡ not_found)
  unfolding clear fresh
  clear-IsMap m i =
      let r = fresh-IsMap (length m.buckets) m.node_count_threshold i.room in
      (r.0, refl, length-replicate (length m.buckets) [], r.1)
