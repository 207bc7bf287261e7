-- ===== src/Map.antt =====
-- src/core/mapobj.c: a hash map with a chain of nodes in each bucket.
-- A chain is the list of its nodes; a node that is changed through a pointer is changed in its chain.
pub mod Interface
pub mod Buckets
pub mod Moves
pub mod Rehash
pub mod Assign
pub mod Insert
pub mod Update
pub mod Laws
pub mod Unlink
pub mod Unset
use zis_lang.Common.{
  ℕ, zero, suc, ◌+◌, ◌-◌, ◌*◌, ◌%◌, Bool, true, false, ◌&&◌, ◌||◌, List, [], ◌∷◌, ◌++◌, Option,
  none, some, ltb, leb, ◌==◌, if◌then◌else◌, length, get_or, set, replicate,
}
use zis_lang.Map.Interface.{Keys, LoadFactor}

-- struct zis_hashmap_bucket_node_obj
pub record Node (K V : Type 0) : Type 0 where
  pub key : K
  pub value : V
  pub key_hash : ℕ

abbrev pub Chain : Type 0 → Type 0 → Type 0
Chain K V = List (Node K V)

-- struct zis_map_obj; the load factor is a parameter of the operations
pub record MapObj (K V : Type 0) : Type 0 where
  pub buckets : List (Chain K V)
  pub node_count : ℕ
  pub node_count_threshold : ℕ

-- ZIS_OK with a result, ZIS_THR, ZIS_E_ARG, and what C leaves undefined
pub data Status (A : Type 0) : Type 0 where
  ok : A → Status A
  thr not_found fault : Status A

infixl 5 ◌>>=◌
abbrev pub ◌>>=◌ : {A B : Type 0} → Status A → (A → Status B) → Status B
ok a >>= f = f a
thr >>= f = thr
not_found >>= f = not_found
fault >>= f = fault

-- zis_hashmap_buckets_obj_new
abbrev pub new_buckets : {K V : Type 0} → ℕ → List (Chain K V)
new_buckets n = replicate n []

-- zis_hashmap_buckets_get_bucket; NULL is the empty chain
unfoldable pub get_bucket : {K V : Type 0} → List (Chain K V) → ℕ → Chain K V
get_bucket buckets key_hash =
    let bkt_count = length buckets in
    if bkt_count == 0 then [] else get_or buckets (key_hash % bkt_count) []

-- zis_hashmap_buckets_put_node; with no bucket the index is a division by zero
pub put_node : {K V : Type 0} → List (Chain K V) → Node K V → Status (List (Chain K V))
unfolding get_bucket
put_node buckets node =
    let bkt_count = length buckets in
    if bkt_count == 0
    then fault
    else ok (
        set buckets (node.key_hash % bkt_count)
          (node ∷ get_or buckets (node.key_hash % bkt_count) []))

-- zis_hashmap_buckets_foreach_node_r with the body of zis_map_obj_rehash: the nodes of a chain, and
-- of all chains, are put into new buckets in order.
pub move_chain : {K V : Type 0} → Chain K V → List (Chain K V) → Status (List (Chain K V))
unfolding put_node
move_chain [] fresh = ok fresh
move_chain (node ∷ nodes) fresh = put_node fresh node >>= move_chain nodes

pub move_all : {K V : Type 0} → List (Chain K V) → List (Chain K V) → Status (List (Chain K V))
unfolding move_chain
move_all [] fresh = ok fresh
move_all (chain ∷ chains) fresh = move_chain chain fresh >>= move_all chains

-- zis_map_obj_clear
pub clear : {K V : Type 0} → MapObj K V → MapObj K V
clear self = record self { buckets = new_buckets (length self.buckets); node_count = 0 }

module _ {K V : Type 0} where
  -- The value of the first node of a chain that passes a test, or NULL.
  unfoldable pub find : (Node K V → Bool) → Chain K V → Option V
  find p [] = none
  find p (node ∷ nodes) = if p node then some node.value else find p nodes

  -- `node->_value = value` for the node that the search gave
  pub assign : (Node K V → Bool) → V → Chain K V → Chain K V
  assign p value [] = []
  assign p value (node ∷ nodes) =
      if p node then record node { value = value } ∷ nodes else node ∷ assign p value nodes

  -- The chain behind a node that a search found at its head, and an unlinked later node.
  pub unlink : (Node K V → Bool) → Chain K V → Chain K V
  unlink p [] = []
  unlink p (node ∷ nodes) = if p node then nodes else node ∷ unlink p nodes

  -- zis_hashmap_buckets_del_node once the chain of the hash is known. A first node is dropped by a
  -- write to the slot `key_hash`, a later one by its predecessor.
  pub del_from_chain :
      List (Chain K V) → (Node K V → Bool) → ℕ → Chain K V → Status (List (Chain K V))
  unfolding unlink
  del_from_chain buckets p key_hash [] = not_found
  del_from_chain buckets p key_hash (node ∷ nodes) =
      if p node
      then if ltb key_hash (length buckets) then ok (set buckets key_hash nodes) else fault
      else elim (find p nodes) [
        | none ↦ not_found
        | some v ↦ ok (set buckets (key_hash % length buckets) (node ∷ unlink p nodes))
      ]

module _ {K V : Type 0} ⦃keys : Keys K⦄ where
  -- `key_hash == node->key_hash && zis_object_equals(z, key, node->_key)`
  abbrev pub matches : ℕ → K → Node K V → Bool
  matches key_hash key node = key_hash == node.key_hash && keys.equals key node.key

  -- zis_hashmap_buckets_get_node, with the value of the node
  unfoldable pub get_node : List (Chain K V) → K → ℕ → Option V
  unfolding get_bucket find
  get_node buckets key key_hash = find (matches key_hash key) (get_bucket buckets key_hash)

  -- zis_map_obj_get
  unfoldable pub get : MapObj K V → K → Status V
  get self key = elim (keys.hash key) [
    | none ↦ thr
    | some key_hash ↦ elim (get_node self.buckets key key_hash) [ none ↦ not_found | some v ↦ ok v ]
  ]

  -- zis_hashmap_buckets_del_node
  pub del_node : List (Chain K V) → K → ℕ → Status (List (Chain K V))
  unfolding del_from_chain
  del_node buckets key key_hash =
      del_from_chain buckets (matches key_hash key) key_hash (get_bucket buckets key_hash)

  -- zis_map_obj_unset
  pub unset : MapObj K V → K → Status (MapObj K V)
  unset self key = elim (keys.hash key) [
    | none ↦ thr
    | some key_hash ↦ del_node self.buckets key key_hash >>= λ b.
        ok (record self { buckets = b; node_count = self.node_count - 1 })
  ]

  module _ (load : LoadFactor) where
    -- zis_map_obj_new with its buckets; no bucket is made for no element.
    pub new : ℕ → MapObj K V
    new reserved = record {
      buckets = if reserved == 0 then [] else new_buckets (load.min_bkt_cnt reserved);
      node_count = 0;
      node_count_threshold = reserved;
    }

    -- zis_map_obj_rehash
    pub rehash : MapObj K V → ℕ → Status (MapObj K V)
    rehash self n_buckets = move_all self.buckets (new_buckets n_buckets) >>= λ b.
        ok (record self { buckets = b; node_count_threshold = load.threshold n_buckets })

    -- zis_map_obj_reserve
    pub reserve : MapObj K V → ℕ → Status (MapObj K V)
    unfolding rehash
    reserve self n =
        if ltb (length self.buckets) (load.min_bkt_cnt n)
        then rehash self (load.min_bkt_cnt n)
        else ok self

    -- Whether zis_map_obj_set makes room before it inserts: too many nodes, and a collision.
    pub is_full : MapObj K V → ℕ → Bool
    unfolding get_bucket
    is_full self key_hash =
        leb self.node_count_threshold self.node_count
        && ((elim (get_bucket self.buckets key_hash) [ [] ↦ false | n ∷ ns ↦ true ])
            || self.node_count == 0)

    -- zis_map_obj_set for a key that has no node
    pub insert : MapObj K V → K → V → ℕ → Status (MapObj K V)
    unfolding is_full reserve
    insert self key value key_hash =
        let n = self.node_count in
        (if is_full self key_hash then reserve self (if ltb 4 n then n * 2 else 6) else ok self)
        >>= λ s.
            put_node s.buckets (record { key = key; value = value; key_hash = key_hash }) >>= λ b.
            ok (record s { buckets = b; node_count = n + 1 })

    -- zis_map_obj_set for a key that has a node
    pub update : MapObj K V → K → V → ℕ → MapObj K V
    unfolding assign get_bucket
    update self key value key_hash = record self {
      buckets =
          set self.buckets (key_hash % length self.buckets)
            (assign (matches key_hash key) value (get_bucket self.buckets key_hash));
    }

    -- zis_map_obj_set
    pub set_elem : MapObj K V → K → V → Status (MapObj K V)
    unfolding insert update
    set_elem self key value = elim (keys.hash key) [
      | none ↦ thr
      | some key_hash ↦ elim (get_node self.buckets key key_hash) [
        | none ↦ insert self key value key_hash
        | some old ↦ ok (update self key value key_hash)
      ]
    ]
