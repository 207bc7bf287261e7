-- ===== src/Tests/Maps.antt =====
-- Maps whose keys are numbers; a number hashes to its half, but 99 does not hash.
use zis_lang.Common.{
  ℕ, ◌+◌, ◌/◌, ◌≡◌, refl, ap, true, [], ◌∷◌, Option, none, some, arith, ◌==◌, if◌then◌else◌, length,
}
use zis_lang.Map.{
  MapObj, ok, fault, not_found, get, get_bucket, get_node, find, rehash, set_elem, unset,
}
use zis_lang.Map.Interface.{Keys, LoadFactor}
use zis_lang.Map.Rehash.{IsMap}
use zis_lang.Map.Laws.{set_elem_lem, rehash-get, added}
use zis_lang.Map.Unset.{unset-get, unset-fault}

abbrev half : ℕ → Option ℕ
half k = if k == 99 then none else some (k / 2)

==-refl : (a : ℕ) → (a == a) ≡ true
==-refl a = grind arith

==-symm : (a b : ℕ) → (a == b) ≡ (b == a)
==-symm a b = ground arith

==-trans : (a b c : ℕ) → (a == b) ≡ true → (b == c) ≡ true → (a == c) ≡ true
==-trans a b c e f = grind arith

half-same : (a b : ℕ) → (a == b) ≡ true → half a ≡ half b
half-same a b e = ap half (grind arith)

instance abbrev halves : Keys ℕ
halves = record {
  hash = half;
  equals = λ a b. a == b;
  equals_refl = ==-refl;
  equals_symm = ==-symm;
  equals_trans = ==-trans;
  hash-equals = half-same;
}

-- A load factor of one.
abbrev one_each : LoadFactor
one_each = record { min_bkt_cnt = λ n. n; threshold = λ n. n; min_bkt_cnt-pos = λ n h. h }

-- The key 6 in the bucket 3 of 4, the key 2 in the bucket 1
abbrev two_elements : MapObj ℕ ℕ
two_elements = record {
  buckets =
      []
      ∷ (record { key = 2; value = 20; key_hash = 1 } ∷ [])
      ∷ []
      ∷ (record { key = 6; value = 60; key_hash = 3 } ∷ [])
      ∷ [];
  node_count = 2;
  node_count_threshold = 4;
}

two_elements-IsMap : IsMap two_elements
two_elements-IsMap = record {
  placed = (tt, ((refl, tt), (tt, ((refl, tt), tt))));
  unique = λ k h. ground arith;
  counted = refl;
  room = λ e. absurd (omega (arith, e));
}

set_elem_lem_example :
    (m' : MapObj ℕ ℕ) × (set_elem one_each two_elements 7 70 ≡ ok m')
    × IsMap m'
    × ((k : ℕ) → get m' k ≡ (if k == 7 then ok 70 else get two_elements k))
    × (m'.node_count ≡ 2 + added (get_node two_elements.buckets 7 3))
set_elem_lem_example = set_elem_lem one_each two_elements 7 70 3 two_elements-IsMap refl

rehash-get_example :
    (m' : MapObj ℕ ℕ) × (rehash one_each two_elements 3 ≡ ok m')
    × IsMap m'
    × (length m'.buckets ≡ 3)
    × ((k : ℕ) → get m' k ≡ get two_elements k)
    × (m'.node_count ≡ 2)
rehash-get_example = rehash-get one_each two_elements 3 two_elements-IsMap (omega arith)

unset-get_example :
    (m' : MapObj ℕ ℕ) × (unset two_elements 6 ≡ ok m')
    × IsMap m'
    × ((k : ℕ) → get m' k ≡ (if k == 6 then not_found else get two_elements k))
    × (m'.node_count + 1 ≡ 2)
unfolding get get_node get_bucket find
unset-get_example = unset-get two_elements 6 60 3 two_elements-IsMap refl refl (omega arith)

-- The key 12 has the hash 6: it stands in the bucket 2 of 4.
abbrev beyond : MapObj ℕ ℕ
beyond = record {
  buckets = [] ∷ [] ∷ (record { key = 12; value = 5; key_hash = 6 } ∷ []) ∷ [] ∷ [];
  node_count = 1;
  node_count_threshold = 4;
}

unset-fault_example : unset beyond 12 ≡ fault
unfolding get_bucket
unset-fault_example =
    unset-fault beyond 12 6 (record { key = 12; value = 5; key_hash = 6 }) [] refl refl refl
      (omega arith)
