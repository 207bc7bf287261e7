-- ===== src/Map/Interface.antt =====
-- What the map calls: the hash and the equality of objects, which dispatch to methods of their
-- types, and the arithmetic of the load factor, which is done in floating point.
use mathlib.Core.Bool.{true≢false}
use zis_lang.Common.{ℕ, ◌<◌, ◌≡◌, sym, ◌∙◌, Bool, true, Option, Bool-cases, inl, inr}

-- zis_object_hash, which may throw, and zis_object_equals, for a kind of keys on which the methods
-- fit together: integers, or symbols, or strings. The methods of Int and Float together break
-- hash-equals.
pub record Keys (K : Type 0) : Type 0 where
  pub hash : K → Option ℕ
  pub equals : K → K → Bool
  pub equals_refl : (a : K) → equals a a ≡ true
  pub equals_symm : (a b : K) → equals a b ≡ equals b a
  pub equals_trans : (a b c : K) → equals a b ≡ true → equals b c ≡ true → equals a c ≡ true
  pub hash-equals : (a b : K) → equals a b ≡ true → hash a ≡ hash b

-- `ceil(n / load_factor)` and `(size_t)(n * load_factor)`
pub record LoadFactor : Type 0 where
  pub min_bkt_cnt : ℕ → ℕ
  pub threshold : ℕ → ℕ
  pub min_bkt_cnt-pos : (n : ℕ) → 0 < n → 0 < min_bkt_cnt n

-- Equal keys are equal to the same keys.
pub equals-same :
    {K : Type 0} ⦃keys : Keys K⦄ (a b x : K)
    → keys.equals a b ≡ true
    → keys.equals a x ≡ keys.equals b x
equals-same ⦃keys = keys⦄ a b x e =
    let e' : keys.equals b a ≡ true = keys.equals_symm b a ∙ e in
    elim (Bool-cases (keys.equals a x)) [
      | inl t ↦ t ∙ sym (keys.equals_trans b a x e' t)
      | inr f ↦ elim (Bool-cases (keys.equals b x)) [
        | inl t ↦ absurd (true≢false (sym (keys.equals_trans a b x e t) ∙ f))
        | inr g ↦ f ∙ sym g
      ]
    ]
