-- ===== src/Bigint/Compare.antt =====
-- Comparison of vectors.
use Prim.Native.Nat.{compare, Ordering}
use zis_lang.Common.{
  ℕ, zero, suc, ◌+◌, ◌*◌, ◌≤◌, ◌<◌, ◌≡◌, refl, sym, List, [], ◌∷◌, arith, length, ltb, ◌==◌, inl,
  inr, Bool-cases, ==_iff,
}
use zis_lang.Bigint.{cell_base, cmp, cmp_cells}
use zis_lang.Bigint.Value.{value, span, IsCells, IsNormal, value-lt-span, span-pos, span-le-value}

-- The order of two numbers as the order of their last cells, then of the rest.
compare-lt : (a b : ℕ) → a < b → compare a b ≡ Ordering.lt
compare-lt a b h = ground arith

compare-gt : (a b : ℕ) → b < a → compare a b ≡ Ordering.gt
compare-gt a b h = ground arith

compare-eq : (a b : ℕ) → a ≡ b → compare a b ≡ Ordering.eq
compare-eq a b h = ground arith

pub lt-compare : (a b : ℕ) → compare a b ≡ Ordering.lt → a < b
lt-compare a b h = ground arith

pub gt-compare : (a b : ℕ) → compare a b ≡ Ordering.gt → b < a
gt-compare a b h = ground arith

pub eq-compare : (a b : ℕ) → compare a b ≡ Ordering.eq → a ≡ b
eq-compare a b h = ground arith

compare-cons :
    (a b u v : ℕ)
    → a < cell_base
    → b < cell_base
    → compare (a + cell_base * u) (b + cell_base * v) ≡ elim (compare u v) [
      | Ordering.lt ↦ Ordering.lt
      | Ordering.eq ↦ compare a b
      | Ordering.gt ↦ Ordering.gt
    ]
compare-cons a b u v ha hb = ground arith

cmp_cells-value :
    (us vs : List ℕ)
    → IsCells us
    → IsCells vs
    → length us ≡ length vs
    → cmp_cells us vs ≡ compare (value us) (value vs)
unfolding cmp_cells
cmp_cells-value [] [] hu hv e = refl
cmp_cells-value [] (b ∷ vs) hu hv e = absurd (omega arith)
cmp_cells-value (a ∷ us) [] hu hv e = absurd (omega arith)
cmp_cells-value (a ∷ us) (b ∷ vs) hu hv e =
    rw (cmp_cells-value us vs hu.1 hv.1 (omega arith))
      (sym (compare-cons a b (value us) (value vs) hu.0 hv.0))

pub span_mono : (m n : ℕ) → m < n → cell_base * span m ≤ span n
span_mono m zero h = elim h [ ]
span_mono zero (suc n) h = omega (arith, span-pos n)
span_mono (suc m) (suc n) h = omega (arith, span_mono m n (omega arith))

-- A normal vector that is shorter stands for a smaller number.
value-lt_of_length :
    (us vs : List ℕ)
    → IsCells us
    → IsNormal us
    → IsNormal vs
    → length us < length vs
    → value us < value vs
value-lt_of_length us [] hu tu tv l = absurd tv
value-lt_of_length [] (b ∷ vs) hu tu tv l = absurd tu
value-lt_of_length (a ∷ us) (b ∷ []) hu tu tv l = absurd (omega arith)
value-lt_of_length (a ∷ us) (b ∷ c ∷ vs) hu tu tv l = omega (
  arith,
  value-lt-span (a ∷ us) hu,
  span-le-value (b ∷ c ∷ vs) tv,
  span_mono (length (a ∷ us)) (length (b ∷ c ∷ vs)) l,
)

-- bigint_cmp gives the order of the two numbers, for vectors of cells whose last cell is not zero
-- or is the only one.
pub cmp-value :
    (us vs : List ℕ)
    → IsCells us
    → IsCells vs
    → IsNormal us
    → IsNormal vs
    → cmp us vs ≡ compare (value us) (value vs)
unfolding cmp
cmp-value us vs hu hv tu tv = elim (Bool-cases (length us == length vs)) [
  | inl same ↦ rw same (cmp_cells-value us vs hu hv ((==_iff _ _).0 same))
  | inr differ ↦ rw differ (elim (Bool-cases (ltb (length us) (length vs))) [
    | inl less ↦ rw less (sym (compare-lt _ _ (value-lt_of_length us vs hu tu tv (ground arith))))
    | inr more ↦ rw more (sym (compare-gt _ _ (value-lt_of_length vs us hv tv tu (ground arith))))
  ])
]
