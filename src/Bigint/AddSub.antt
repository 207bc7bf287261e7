-- ===== src/Bigint/AddSub.antt =====
-- Addition and subtraction of vectors.
use Prim.Native.Nat.{compare, Ordering}
use zis_lang.Common.{
  ℕ, zero, suc, ◌+◌, ◌*◌, ◌/◌, ◌≤◌, ◌<◌, ◌≡◌, refl, sym, Bool, true, false, List, [], ◌∷◌, arith,
  length, ltb, length-replicate, min, max,
}
use zis_lang.Bigint.{
  cell_base, to_cell, to_cell2, front, rest, cmp, add, add_loop, add_round, add_round_gnuc, sub,
  sub_loop, sub_round, sub_round_gnuc, self_sub, zero_cells,
}
use zis_lang.Bigint.Value.{
  value, span, IsCells, IsNormal, value-lt-span, value-zero_cells, zero_cells-IsCells,
}
use zis_lang.Bigint.Compare.{lt-compare, gt-compare, eq-compare, cmp-value, span_mono}

front-lt : (us : List ℕ) → IsCells us → front us < cell_base
front-lt [] h = omega arith
front-lt (a ∷ us) h = h.0

rest-IsCells : (us : List ℕ) → IsCells us → IsCells (rest us)
rest-IsCells [] h = tt
rest-IsCells (a ∷ us) h = h.1

value-front-rest : (us : List ℕ) → value us ≡ front us + cell_base * value (rest us)
value-front-rest [] = omega arith
value-front-rest (a ∷ us) = refl

length-rest : (us : List ℕ) (n : ℕ) → length us ≤ suc n → length (rest us) ≤ n
length-rest [] n h = omega arith
length-rest (a ∷ us) n h = omega arith

-- On cells and a carry of 0 or 1, a round of bigint_add gives the same cell and carry with and
-- without the overflow builtins.
pub add_round-eq-gnuc :
    (a b carry : ℕ)
    → a < cell_base
    → b < cell_base
    → carry ≤ 1
    → add_round a b carry ≡ add_round_gnuc a b carry
unfolding add_round add_round_gnuc
add_round-eq-gnuc a b carry ha hb hc = ground arith

-- On cells and a borrow of 0 or 1, a round of bigint_sub gives the same cell and borrow with and
-- without the overflow builtins.
pub sub_round-eq-gnuc :
    (a b borrow : ℕ)
    → a < cell_base
    → b < cell_base
    → borrow ≤ 1
    → sub_round a b borrow ≡ sub_round_gnuc a b borrow
unfolding sub_round sub_round_gnuc
sub_round-eq-gnuc a b borrow ha hb hc = ground arith

add_loop-value :
    (n : ℕ) (us vs : List ℕ) (carry : ℕ)
    → IsCells us
    → IsCells vs
    → length us ≤ n
    → length vs ≤ n
    → carry ≤ 1
    → let r = add_loop n us vs carry in
      (value r.0 + span n * r.1 ≡ value us + value vs + carry)
      × IsCells r.0
      × (length r.0 ≡ n)
      × (r.1 ≤ 1)
unfolding add_loop
add_loop-value zero [] [] carry hu hv lu lv hc = (omega arith, tt, refl, hc)
add_loop-value zero (a ∷ us) vs carry hu hv lu lv hc = absurd (omega arith)
add_loop-value zero [] (b ∷ vs) carry hu hv lu lv hc = absurd (omega arith)
add_loop-value (suc n) us vs carry hu hv lu lv hc =
    let fu = front-lt us hu in
    let fv = front-lt vs hv in
    let eu = value-front-rest us in
    let ev = value-front-rest vs in
    let ih =
      add_loop-value n (rest us) (rest vs)
        (to_cell (to_cell2 (front us + front vs + carry) / cell_base)) (rest-IsCells us hu)
        (rest-IsCells vs hv) (length-rest us n lu) (length-rest vs n lv) (omega arith) in
    (omega arith, (omega arith, ih.1), omega (arith, ih.2), ih.3)

sub_loop-value :
    (n : ℕ) (us vs : List ℕ) (borrow : ℕ)
    → IsCells us
    → IsCells vs
    → length us ≤ n
    → length vs ≤ n
    → borrow ≤ 1
    → let r = sub_loop n us vs borrow in
      (value r.0 + value vs + borrow ≡ value us + span n * r.1)
      × IsCells r.0
      × (length r.0 ≡ n)
      × (r.1 ≤ 1)
unfolding sub_loop
sub_loop-value zero [] [] borrow hu hv lu lv hc = (omega arith, tt, refl, hc)
sub_loop-value zero (a ∷ us) vs borrow hu hv lu lv hc = absurd (omega arith)
sub_loop-value zero [] (b ∷ vs) borrow hu hv lu lv hc = absurd (omega arith)
sub_loop-value (suc n) us vs borrow hu hv lu lv hc =
    let fu = front-lt us hu in
    let fv = front-lt vs hv in
    let eu = value-front-rest us in
    let ev = value-front-rest vs in
    let round = sub_round (front us) (front vs) borrow in
    let ih =
      sub_loop-value n (rest us) (rest vs) round.1 (rest-IsCells us hu) (rest-IsCells vs hv)
        (length-rest us n lu) (length-rest vs n lv) (omega arith) in
    (omega arith, (omega arith, ih.1), omega (arith, ih.2), ih.3)

-- With a result vector longer than both operands, bigint_add fills it with the cells of the sum.
pub add-value :
    (us vs : List ℕ) (y_len : ℕ)
    → IsCells us
    → IsCells vs
    → length us < y_len
    → length vs < y_len
    → (value (add us vs y_len) ≡ value us + value vs)
      × IsCells (add us vs y_len)
      × (length (add us vs y_len) ≡ y_len)
unfolding add
add-value us vs y_len hu hv lu lv =
    let r = add_loop-value y_len us vs 0 hu hv (omega arith) (omega arith) (omega arith) in
    let bu = value-lt-span us hu in
    let bv = value-lt-span vs hv in
    let mu = span_mono (length us) y_len lu in
    let mv = span_mono (length vs) y_len lv in
    (no_overflow (span y_len) (add_loop y_len us vs 0).1 _ _ r.0 (omega arith), r.1, r.2)
  where
    no_overflow : (s c y w : ℕ) → y + s * c ≡ w + 0 → w < s → y ≡ w
    no_overflow s zero y w e h = omega arith
    no_overflow s (suc c) y w e h = absurd (omega arith)

-- Without a borrow out of the last cell the loop gives the difference.
sub_loop-diff :
    (us vs : List ℕ) (n : ℕ)
    → IsCells us
    → IsCells vs
    → length us ≤ n
    → length vs ≤ n
    → value vs ≤ value us
    → (value (sub_loop n us vs 0).0 + value vs ≡ value us)
      × IsCells (sub_loop n us vs 0).0
      × (length (sub_loop n us vs 0).0 ≡ n)
sub_loop-diff us vs n hu hv lu lv le =
    let r = sub_loop-value n us vs 0 hu hv lu lv (omega arith) in
    let b = value-lt-span (sub_loop n us vs 0).0 r.1 in
    (
      no_borrow (span n) (sub_loop n us vs 0).1 _ (value us) (value vs) r.0 (rw r.2 at b) le,
      r.1,
      r.2,
    )
  where
    no_borrow : (s c y u v : ℕ) → y + v + 0 ≡ u + s * c → y < s → v ≤ u → y + v ≡ u
    no_borrow s zero y u v e h le = omega arith
    no_borrow s (suc c) y u v e h le = absurd (omega arith)

-- bigint_self_sub leaves the cells of the difference in place, in the same number, when the
-- subtracted vector is no longer and its number not greater.
pub self_sub-value :
    (us vs : List ℕ)
    → IsCells us
    → IsCells vs
    → length vs ≤ length us
    → value vs ≤ value us
    → (value (self_sub us vs) + value vs ≡ value us)
      × IsCells (self_sub us vs)
      × (length (self_sub us vs) ≡ length us)
unfolding self_sub
self_sub-value us vs hu hv l le = sub_loop-diff us vs (length us) hu hv (omega arith) l le

-- What bigint_sub promises of its two results.
pub record IsDifference (u v y_len : ℕ) (negative : Bool) (y : List ℕ) : Type 0 where
  pub sign : negative ≡ ltb u v
  pub distance : value y + min u v ≡ max u v
  pub cells : IsCells y
  pub same_length : length y ≡ y_len

-- For vectors of cells whose last cell is not zero or is the only one, and a result vector not
-- shorter than both, bigint_sub returns whether the first number is less and fills the result with
-- the distance of the two.
pub sub-IsDifference :
    (us vs : List ℕ) (y_len : ℕ)
    → IsCells us
    → IsCells vs
    → IsNormal us
    → IsNormal vs
    → length us ≤ y_len
    → length vs ≤ y_len
    → IsDifference (value us) (value vs) y_len (sub us vs y_len).0 (sub us vs y_len).1
unfolding sub
sub-IsDifference us vs y_len hu hv tu tv lu lv =
    by_order (cmp us vs) (sym (cmp-value us vs hu hv tu tv))
  where
    by_order :
        (o : Ordering)
        → compare (value us) (value vs) ≡ o
        → let r : Bool × List ℕ = elim o [
          | Ordering.gt ↦ (false, (sub_loop y_len us vs 0).0)
          | Ordering.lt ↦ (true, (sub_loop y_len vs us 0).0)
          | Ordering.eq ↦ (false, zero_cells y_len)
        ] in
          IsDifference (value us) (value vs) y_len r.0 r.1
    by_order Ordering.lt e =
        let l = lt-compare _ _ e in
        let d = sub_loop-diff vs us y_len hv hu lv lu (omega arith) in
        record { sign = ground arith; distance = omega arith; cells = d.1; same_length = d.2 }
    by_order Ordering.gt e =
        let l = gt-compare _ _ e in
        let d = sub_loop-diff us vs y_len hu hv lu lv (omega arith) in
        record { sign = ground arith; distance = omega arith; cells = d.1; same_length = d.2 }
    by_order Ordering.eq e =
        let l = eq-compare _ _ e in
        record {
          sign = ground arith;
          distance = omega (arith, value-zero_cells y_len);
          cells = zero_cells-IsCells y_len;
          same_length = length-replicate y_len 0;
        }
