-- ===== src/Bigint/Mul.antt =====
-- Multiplication of vectors.
use zis_lang.Common.{
  ℕ, zero, suc, ◌+◌, ◌*◌, ◌/◌, ◌^◌, ◌≤◌, ◌<◌, ◌≡◌, refl, Option, some, none, List, [], ◌∷◌, arith,
  length, lt→ltb, length-replicate, true,
}
use zis_lang.Bigint.{
  cell_base, to_cell, to_cell2, front, rest, mul, mul_loop, mul_row, mul_carry, zero_cells, ◌>>=◌,
}
use zis_lang.Bigint.Value.{
  value, span, IsCells, value-lt-span, span-pos, value-zero_cells, zero_cells-IsCells,
}
use zis_lang.Bigint.Small.{mul-lt-cell2}

-- A vector that stands for a given number, in a given number of cells.
abbrev pub Holds : Option (List ℕ) → ℕ → ℕ → Type 0
Holds none v n = ⊥
Holds (some y) v n = (value y ≡ v) × IsCells y × (length y ≡ n)

Holds-eq : (o : Option (List ℕ)) (v w n : ℕ) → v ≡ w → Holds o v n → Holds o w n
Holds-eq none v w n e h = h
Holds-eq (some y) v w n e h = (omega arith, h.1, h.2)

Holds-cons :
    (o : Option (List ℕ)) (c v w n : ℕ)
    → c < cell_base
    → c + cell_base * v ≡ w
    → Holds o v n
    → Holds (o >>= λ t. some (c ∷ t)) w (suc n)
Holds-cons none c v w n hc e h = h
Holds-cons (some y) c v w n hc e h = (omega arith, (hc, h.1), omega arith)

mul_carry-Holds :
    (ys : List ℕ) (carry : ℕ)
    → IsCells ys
    → value ys ≡ 0
    → carry < cell_base
    → 0 < length ys
    → Holds (mul_carry true ys carry) carry (length ys)
unfolding mul_carry
mul_carry-Holds ys zero h z hc l = (z, h, refl)
mul_carry-Holds [] (suc c) h z hc l = absurd (omega arith)
mul_carry-Holds (y ∷ ys) (suc c) h z hc l =
    rw (lt→ltb (suc c + y) cell_base (omega arith)) (omega arith, (omega arith, h.1), refl)

-- A row adds the product of a and one cell of b. It reaches no overflow where the vector holds less
-- than a has room for.
mul_row-Holds :
    (us : List ℕ) (b : ℕ) (ys : List ℕ) (carry : ℕ)
    → IsCells us
    → b < cell_base
    → IsCells ys
    → carry < cell_base
    → value ys < span (length us)
    → length us < length ys
    → Holds (mul_row true us b ys carry) (value ys + value us * b + carry) (length ys)
unfolding mul_row
mul_row-Holds [] b ys carry hu hb hy hc lt l =
    Holds-eq (mul_carry true ys carry) carry _ (length ys) (omega arith)
      (mul_carry-Holds ys carry hy (omega arith) hc l)
mul_row-Holds (a ∷ us) b [] carry hu hb hy hc lt l = absurd (omega arith)
mul_row-Holds (a ∷ us) b (y ∷ ys) carry hu hb hy hc lt l =
    let big : a * b + (y + carry) < 2 ^ 64 = mul-lt-cell2 a b y carry hu.0 hb hy.0 hc in
    let c = to_cell ((to_cell2 (a * b) + to_cell2 (y + carry)) / cell_base) in
    let ih = mul_row-Holds us b ys c hu.1 hb hy.1 (omega arith) (omega arith) (omega arith) in
    rw (lt→ltb (to_cell2 (a * b) + to_cell2 (y + carry)) (2 ^ 64) (omega arith))
      (Holds-cons (mul_row true us b ys c) _ _ _ _ (omega arith) (omega arith) ih)

row_bound : (s u y b : ℕ) → u < s → y < s → b < cell_base → y + u * b + 0 < cell_base * s
row_bound s u y b hu hy hb = grind arith

-- The first cell of a row is final, and the next row starts behind it.
next_row :
    (us vs : List ℕ) (b v n : ℕ) (o : Option (List ℕ))
    → IsCells us
    → b < cell_base
    → v < span (length us)
    → length us + suc (length vs) ≤ n
    → ((rs : List ℕ)
        → IsCells rs
        → value rs < span (length us)
        → length us + length vs ≤ length rs
        → Holds (mul_loop true us vs rs) (value rs + value us * value vs) (length rs))
    → Holds o (v + value us * b + 0) n
    → Holds
        (o >>= λ r. mul_loop true us vs (rest r) >>= λ t. some (front r ∷ t))
        (v + value us * value (b ∷ vs))
        n
next_row us vs b v n none hu hb lt l later h = h
next_row us vs b v n (some []) hu hb lt l later h = absurd (omega arith)
next_row us vs b v n (some (r ∷ rs)) hu hb lt l later h =
    let lim = row_bound (span (length us)) (value us) v b (value-lt-span us hu) lt hb in
    let e : suc (length rs) ≡ n = h.2 in
    rw (← e) (
      Holds-cons (mul_loop true us vs rs) r (value rs + value us * value vs) _ (length rs) h.1.0
        (omega arith) (later rs h.1.1 (omega arith) (omega arith)))

-- Row after row: what the vector holds stays below what the next row needs.
mul_loop-Holds :
    (us vs ys : List ℕ)
    → IsCells us
    → IsCells vs
    → IsCells ys
    → value ys < span (length us)
    → length us + length vs ≤ length ys
    → Holds (mul_loop true us vs ys) (value ys + value us * value vs) (length ys)
unfolding mul_loop
mul_loop-Holds us [] ys hu hv hy lt l = (omega arith, hy, refl)
mul_loop-Holds us (b ∷ vs) ys hu hv hy lt l =
    next_row us vs b (value ys) (length ys) (mul_row true us b ys 0) hu hv.0 lt l
      (λ rs hr lr nr. mul_loop-Holds us vs rs hu hv.1 hr lr nr)
      (mul_row-Holds us b ys 0 hu hv.0 hy (omega arith) lt (omega arith))

-- Compiled with the overflow builtins (ZIS_USE_GNUC_OVERFLOW_ARITH), on cells and with a result
-- vector not shorter than both operands together, bigint_mul never meets the overflow that it panics
-- on, and fills the result with the cells of the product.
pub mul-Holds :
    (us vs : List ℕ) (y_len : ℕ)
    → IsCells us
    → IsCells vs
    → length us + length vs ≤ y_len
    → Holds (mul true us vs y_len) (value us * value vs) y_len
unfolding mul
mul-Holds us vs y_len hu hv l =
    let e : length (zero_cells y_len) ≡ y_len = length-replicate y_len 0 in
    let z : value (zero_cells y_len) ≡ 0 = value-zero_cells y_len in
    rw e at (
      Holds-eq (mul_loop true us vs (zero_cells y_len)) _ (value us * value vs) _ (omega arith) (
        mul_loop-Holds us vs (zero_cells y_len) hu hv (zero_cells-IsCells y_len)
          (omega (arith, span-pos (length us))) (omega arith)))
