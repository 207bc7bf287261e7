-- ===== src/Bigint/Small.antt =====
-- Multiplication and division of a vector by one cell, and the complement.
use native.Mathlib.Nat.{mod-eq_of_lt, div-add-mod', div-lt_iff_lt-mul}
use zis_lang.Common.{
  ℕ, zero, suc, ◌+◌, ◌-◌, ◌*◌, ◌/◌, ◌%◌, ◌^◌, ◌≤◌, ◌<◌, ◌≡◌, refl, List, [], ◌∷◌, arith, length,
  ◌≢◌,
}
use zis_lang.Bigint.{
  cell_base, to_cell, to_cell2, self_mul_add_1, self_div_1, complement, complement_loop,
}
use zis_lang.Bigint.Value.{value, span, IsCells, span-pos}

pub mul-lt-cell2 :
    (a b c d : ℕ)
    → a < cell_base
    → b < cell_base
    → c < cell_base
    → d < cell_base
    → a * b + (c + d) < 2 ^ 64
mul-lt-cell2 a b c d ha hb hc hd = grind arith

div-lt-base : (t : ℕ) → t < 2 ^ 64 → t / cell_base < cell_base
div-lt-base t h = omega arith

-- For cells us and cells b and carry, the vector that bigint_self_mul_add_1 leaves and the carry
-- it returns are together the product of us and b plus the carry; all are cells, and the length
-- stays.
pub self_mul_add_1-value :
    (us : List ℕ) (b carry : ℕ)
    → IsCells us
    → b < cell_base
    → carry < cell_base
    → let r = self_mul_add_1 us b carry in
      (value r.0 + span (length us) * r.1 ≡ value us * b + carry)
      × IsCells r.0
      × (r.1 < cell_base)
      × (length r.0 ≡ length us)
unfolding self_mul_add_1
self_mul_add_1-value [] b carry hu hb hc = (omega arith, tt, hc, refl)
self_mul_add_1-value (a ∷ us) b carry hu hb hc =
    let big : a * b + (carry + 0) < 2 ^ 64 = mul-lt-cell2 a b carry 0 hu.0 hb hc (omega arith) in
    let ih =
      self_mul_add_1-value us b (to_cell (to_cell2 (to_cell2 (a * b) + carry) / cell_base)) hu.1 hb
        (omega arith) in
    (omega arith, (omega arith, ih.1), ih.2, omega (arith, ih.3))

quot-lt-base : (a rem b : ℕ) → a < cell_base → rem < b → (a + rem * cell_base) / b < cell_base
quot-lt-base a rem b ha hr =
    (div-lt_iff_lt-mul {k = b} {x = a + rem * cell_base} {y = cell_base} (omega arith)).1
      (omega arith)

-- One round of the division loop wraps nowhere.
div_round :
    (a rem b : ℕ)
    → a < cell_base
    → rem < b
    → b < cell_base
    → let t = to_cell2 (a + to_cell2 (rem * cell_base)) in
      (to_cell (t / b) * b + to_cell (t % b) ≡ a + rem * cell_base) × (to_cell (t % b) < b)
div_round a rem b ha hr hb =
    let e : to_cell2 (a + to_cell2 (rem * cell_base)) ≡ a + rem * cell_base = omega arith in
    let q : (a + rem * cell_base) / b < cell_base = quot-lt-base a rem b ha hr in
    rw
      (
        e,
        mod-eq_of_lt q,
        mod-eq_of_lt {n = (a + rem * cell_base) % b} {m = cell_base} (omega arith),
      )
      (div-add-mod' (a + rem * cell_base) b, omega arith)

-- Dividing cells by a cell that is not zero, bigint_self_div_1 leaves the cells of the quotient,
-- in the same number, and returns the remainder, which is less than the divisor.
pub self_div_1-value :
    (us : List ℕ) (b : ℕ)
    → IsCells us
    → 0 < b
    → b < cell_base
    → let r = self_div_1 us b in
      (value us ≡ value r.0 * b + r.1) × IsCells r.0 × (r.1 < b) × (length r.0 ≡ length us)
unfolding self_div_1
self_div_1-value [] b hu hp hb = (omega arith, tt, hp, refl)
self_div_1-value (a ∷ us) b hu hp hb =
    let ih = self_div_1-value us b hu.1 hp hb in
    let round = div_round a (self_div_1 us b).1 b hu.0 ih.2 hb in
    (omega arith, (omega arith, ih.1), round.1, omega (arith, ih.3))

complement_loop-value :
    (us : List ℕ) (carry : ℕ)
    → IsCells us
    → carry ≤ 1
    → let r = complement_loop us carry in
      (value r.0 + span (length us) * r.1 + value us + 1 ≡ span (length us) + carry)
      × IsCells r.0
      × (length r.0 ≡ length us)
unfolding complement_loop
complement_loop-value [] carry h hc = (omega arith, tt, refl)
complement_loop-value (a ∷ us) carry h hc =
    let ih =
      complement_loop-value us (to_cell2 (carry + (cell_base - 1 - a)) / cell_base) h.1
        (omega arith) in
    (omega arith, (omega arith, ih.1), omega arith)

drop_carry : (s out v w : ℕ) → v + s * out + w + 1 ≡ s + 1 → 0 < w → v + w ≡ s
drop_carry s zero v w e h = omega arith
drop_carry s (suc out) v w e h = absurd (omega arith)

-- The complement of cells whose number is not zero adds up with it to the power of the cell base
-- for their length.
pub complement-value :
    (us : List ℕ)
    → IsCells us
    → value us ≢ 0
    → (value (complement us) + value us ≡ span (length us)) × IsCells (complement us)
unfolding complement
complement-value us h nz =
    let r = complement_loop-value us 1 h (omega arith) in
    let pos : 0 < span (length us) = span-pos (length us) in
    (drop_carry (span (length us)) (complement_loop us 1).1 _ (value us) r.0 (omega arith), r.1)
