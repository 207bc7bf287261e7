-- ===== src/Bigint/Value.antt =====
-- The number that a vector of cells stands for.
use zis_lang.Common.{ℕ, zero, suc, ◌+◌, ◌*◌, ◌≤◌, ◌<◌, ◌≡◌, refl, List, [], ◌∷◌, arith, length}
use zis_lang.Bigint.{cell_base, zero_cells}

abbrev pub value : List ℕ → ℕ
value [] = 0
value (c ∷ cs) = c + cell_base * value cs

-- cell_base to the power n
abbrev pub span : ℕ → ℕ
span zero = 1
span (suc n) = cell_base * span n

abbrev pub IsCells : List ℕ → Type 0
IsCells [] = Unit {0}
IsCells (c ∷ cs) = (c < cell_base) × IsCells cs

-- The last cell is there and is not zero, as the asserts of bigint_cmp and bigint_sub want it.
abbrev pub IsTrimmed : List ℕ → Type 0
IsTrimmed [] = ⊥
IsTrimmed (c ∷ []) = 0 < c
IsTrimmed (c ∷ d ∷ cs) = IsTrimmed (d ∷ cs)

-- As IsTrimmed, but a lone cell may be zero: the vector of the small integer 0.
abbrev pub IsNormal : List ℕ → Type 0
IsNormal [] = ⊥
IsNormal (c ∷ []) = Unit {0}
IsNormal (c ∷ d ∷ cs) = IsTrimmed (d ∷ cs)

pub IsTrimmed-IsNormal : (cs : List ℕ) → IsTrimmed cs → IsNormal cs
IsTrimmed-IsNormal [] h = h
IsTrimmed-IsNormal (c ∷ []) h = tt
IsTrimmed-IsNormal (c ∷ d ∷ cs) h = h

pub value-lt-span : (cs : List ℕ) → IsCells cs → value cs < span (length cs)
value-lt-span [] h = omega arith
value-lt-span (c ∷ cs) h = omega (arith, value-lt-span cs h.1)

pub span-pos : (n : ℕ) → 0 < span n
span-pos zero = omega arith
span-pos (suc n) = omega (arith, span-pos n)

pub span-le-value : (cs : List ℕ) → IsTrimmed cs → span (length cs) ≤ cell_base * value cs
span-le-value [] h = absurd h
span-le-value (c ∷ []) h = omega arith
span-le-value (c ∷ d ∷ cs) h = omega (arith, span-le-value (d ∷ cs) h)

pub value-zero_cells : (n : ℕ) → value (zero_cells n) ≡ 0
value-zero_cells zero = refl
value-zero_cells (suc n) = omega (arith, value-zero_cells n)

pub zero_cells-IsCells : (n : ℕ) → IsCells (zero_cells n)
zero_cells-IsCells zero = tt
zero_cells-IsCells (suc n) = (omega arith, zero_cells-IsCells n)
