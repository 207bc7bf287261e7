-- ===== src/IntObj/Print/Reset.antt =====
-- The loop of zis_int_obj_value_s that steps over zero cells keeps the bound on the number.
use zis_lang.Common.{
  ℕ, zero, suc, ◌<◌, ◌≡◌, true, false, Bool-cases, inl, inr, List, [], ◌∷◌, get_or, ◌==◌, arith,
}
use zis_lang.Bigint.Value.{value, span, IsCells, span-pos}
use zis_lang.IntObj.Print.{reset}

zero_top :
    (cells : List ℕ) (n : ℕ)
    → IsCells cells
    → value cells < span (suc n)
    → (get_or cells n 0 == 0) ≡ true
    → value cells < span n
zero_top [] n hc h e = span-pos n
zero_top (c ∷ cells) zero hc h e = ground arith
zero_top (c ∷ cells) (suc n) hc h e = omega (arith, zero_top cells n hc.1 (omega arith) e, hc.0)

nonzero_top : (cells : List ℕ) (n : ℕ) → (get_or cells n 0 == 0) ≡ false → 0 < value cells
nonzero_top [] n e = absurd (ground arith)
nonzero_top (c ∷ cells) zero e = ground arith
nonzero_top (c ∷ cells) (suc n) e = omega (arith, nonzero_top cells n e)

-- Where the number fits the cells below n, it fits the cells below the count that is left, and is
-- not zero if a cell is left.
pub reset-value :
    (cells : List ℕ) (n : ℕ)
    → IsCells cells
    → value cells < span n
    → (value cells < span (reset cells n)) × (0 < reset cells n → 0 < value cells)
unfolding reset
reset-value cells zero hc h = (h, λ p. omega arith)
reset-value cells (suc n) hc h = elim (Bool-cases (get_or cells n 0 == 0)) [
  | inl e ↦ rw e (reset-value cells n hc (zero_top cells n hc h e))
  | inr e ↦ rw e (h, λ p. nonzero_top cells n e)
]
