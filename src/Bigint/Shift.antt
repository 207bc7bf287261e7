-- ===== src/Bigint/Shift.antt =====
-- Shifts of vectors.
use native.Mathlib.Nat.{div-add-mod, mod-lt, div-lt_iff_lt-mul, one-le-pow, mul-le-mul_left}
use native.Mathlib.Decide.{dec_lt}
use mathlib.Core.Path.{ap₂}
use zis_lang.Common.{
  ℕ, zero, suc, ◌+◌, ◌-◌, ◌*◌, ◌/◌, ◌%◌, ◌^◌, ◌≤◌, ◌<◌, ◌≡◌, refl, ap, ◌∙◌, false, ◌⊎◌, inl, inr,
  List, [], ◌∷◌, ◌++◌, arith, length, le→leb, ◌==◌, if◌then◌else◌, length-replicate, length-append,
}
use zis_lang.Common.Bits.{bit_or-high_low, pow_add}
use zis_lang.Bigint.{cell_base, to_cell, to_cell2, shl, shl_loop, fill, zero_cells}
use zis_lang.Bigint.Value.{value, span, IsCells, value-zero_cells, zero_cells-IsCells}
use zis_lang.Bigint.Mul.{Holds}

-- A cell shifted by k bits: what stays in the cell, and what is carried on.
record IsSplit (a k low high : ℕ) : Type 0 where
  sum : low * 2 ^ k + cell_base * high ≡ a * 2 ^ k
  low_fits : low * 2 ^ k + 2 ^ k ≤ cell_base
  high_fits : high < 2 ^ k

fits : (r p q : ℕ) → r < q → p * q ≡ cell_base → r * p + p ≤ cell_base
fits r p q h e = grind arith

split : (a k : ℕ) → a < cell_base → k ≤ 32 → IsSplit a k (a % 2 ^ (32 - k)) (a / 2 ^ (32 - k))
split a k ha hk =
    let q = 2 ^ (32 - k) in
    let e : 2 ^ k * q ≡ cell_base =
      pow_add k (32 - k) ∙ ap (λ (t : ℕ). 2 ^ t) {y = 32} (omega arith) in
    let pq : 1 ≤ q = one-le-pow (32 - k) 2 (omega arith) in
    let d = div-add-mod a q in
    let l : a % q < q = mod-lt a {m = q} pq in
    record {
      sum = omega (arith, ap (λ (t : ℕ). t * 2 ^ k) d, ap (λ (t : ℕ). t * (a / q)) e);
      low_fits = fits (a % q) (2 ^ k) q l e;
      high_fits = (div-lt_iff_lt-mul {k = q} {x = a} {y = 2 ^ k} pq).1 (omega arith);
    }

-- The loop multiplies by the power of two, and writes one more cell at most: only if it is not zero.
shl_loop-value :
    (us : List ℕ) (k carry : ℕ)
    → IsCells us
    → k ≤ 32
    → carry < 2 ^ k
    → 2 ^ k ≤ cell_base
    → let y = shl_loop us k carry in
      (value y ≡ value us * 2 ^ k + carry)
      × IsCells y
      × ((length y ≡ length us) ⊎ ((length y ≡ suc (length us)) × (span (length us) ≤ value y)))
unfolding shl_loop
shl_loop-value [] k zero hu hk hc hb = (omega arith, tt, inl refl)
shl_loop-value [] k (suc c) hu hk hc hb = (omega arith, (omega arith, tt), inr (refl, omega arith))
shl_loop-value (a ∷ us) k carry hu hk hc hb =
    let s = split a k hu.0 hk in
    let low = a % 2 ^ (32 - k) in
    let high = a / 2 ^ (32 - k) in
    let e1 : to_cell (to_cell2 (a * 2 ^ k)) ≡ low * 2 ^ k =
      omega (arith, s.sum, s.low_fits, s.high_fits) in
    let e2 : to_cell (to_cell2 (a * 2 ^ k) / cell_base) ≡ high =
      omega (arith, s.sum, s.low_fits, s.high_fits) in
    let o = bit_or-high_low k low carry hc in
    let ih = shl_loop-value us k high hu.1 hk s.high_fits hb in
    rw (e1, e2, o) (omega (arith, s.sum), (omega (arith, s.low_fits), ih.1), longer _ _ ih.2)
  where
    longer :
        (c : ℕ) (y : List ℕ)
        → (length y ≡ length us) ⊎ ((length y ≡ suc (length us)) × (span (length us) ≤ value y))
        → (suc (length y) ≡ suc (length us))
          ⊎ ((suc (length y) ≡ suc (suc (length us)))
              × (cell_base * span (length us) ≤ c + cell_base * value y))
    longer c y (inl e) = inl (omega arith)
    longer c y (inr (e, l)) = inr (omega arith, omega arith)

value-append : (us vs : List ℕ) → value (us ++ vs) ≡ value us + span (length us) * value vs
value-append [] vs = omega arith
value-append (a ∷ us) vs = omega (arith, ap (λ (t : ℕ). cell_base * t) (value-append us vs))

IsCells-append : (us vs : List ℕ) → IsCells us → IsCells vs → IsCells (us ++ vs)
IsCells-append [] vs hu hv = hv
IsCells-append (a ∷ us) vs hu hv = (hu.0, IsCells-append us vs hu.1 hv)

pub span-two_pow : (m : ℕ) → span m ≡ 2 ^ (32 * m)
span-two_pow zero = refl
span-two_pow (suc m) = omega (
  arith,
  span-two_pow m,
  pow_add 32 (32 * m),
  ap (λ (t : ℕ). 2 ^ t) {x = 32 + 32 * m} {y = 32 * suc m} (omega arith),
)

pub fill-Holds :
    (y : List ℕ) (y_len v : ℕ)
    → IsCells y
    → length y ≤ y_len
    → value y ≡ v
    → Holds (fill y y_len) v y_len
unfolding fill
fill-Holds y y_len v h l e =
    let pad = zero_cells (y_len - length y) in
    let z : value pad ≡ 0 = value-zero_cells (y_len - length y) in
    let n : length pad ≡ y_len - length y = length-replicate (y_len - length y) 0 in
    rw (le→leb (length y) y_len l) (
      omega (arith, value-append y pad, ap (λ (t : ℕ). span (length y) * t) z),
      IsCells-append y pad h (zero_cells-IsCells (y_len - length y)),
      omega (arith, length-append {0} y pad),
    )

le_product : (p q c : ℕ) → p * q ≡ c → 1 ≤ q → p ≤ c
le_product p zero c e h = elim h [ ]
le_product p (suc q) c e h = omega arith

two_pow-le-cell_base : (k : ℕ) → k ≤ 32 → 2 ^ k ≤ cell_base
two_pow-le-cell_base k h =
    le_product (2 ^ k) (2 ^ (32 - k)) cell_base
      (pow_add k (32 - k) ∙ ap (λ (t : ℕ). 2 ^ t) {y = 32} (omega arith))
      (one-le-pow (32 - k) 2 (omega arith))

-- The cells behind the offset, by the two branches of the code.
body-value :
    (us : List ℕ) (k : ℕ)
    → IsCells us
    → k < 32
    → let y = if k == 0 then us else shl_loop us k 0 in
      (value y ≡ value us * 2 ^ k)
      × IsCells y
      × ((length y ≡ length us) ⊎ ((length y ≡ suc (length us)) × (span (length us) ≤ value y)))
body-value us zero hu hk = (omega arith, hu, inl refl)
body-value us (suc k) hu hk =
    let p : 1 ≤ 2 ^ suc k = one-le-pow (suc k) 2 (omega arith) in
    let r =
      shl_loop-value us (suc k) 0 hu (omega arith) p (two_pow-le-cell_base (suc k) (omega arith)) in
    let differ : suc k == 0 ≡ false = ground arith in rw differ (omega (arith, r.0), r.1, r.2)

span_add : (m n : ℕ) → span m * span n ≡ span (m + n)
span_add m n = omega (
  arith,
  ap₂ (λ (s t : ℕ). s * t) (span-two_pow m) (span-two_pow n),
  pow_add (32 * m) (32 * n),
  ap (λ (t : ℕ). 2 ^ t) {x = 32 * m + 32 * n} {y = 32 * (m + n)} (omega arith),
  span-two_pow (m + n),
)

-- The offset and the body together.
behind_offset : (off u y n : ℕ) → n / 32 ≡ off → y ≡ u * 2 ^ (n % 32) → span off * y ≡ u * 2 ^ n
behind_offset off u y n e h =
    let p : span off * 2 ^ (n % 32) ≡ 2 ^ n =
      ap (λ (t : ℕ). t * 2 ^ (n % 32)) (span-two_pow off)
      ∙ pow_add (32 * off) (n % 32)
      ∙ ap (λ (t : ℕ). 2 ^ t) {x = 32 * off + n % 32} {y = n} (omega arith) in
    omega (arith, ap (λ (t : ℕ). span off * t) h, ap (λ (t : ℕ). u * t) p)

-- A cell more is written only if the result needs it.
behind_offset-fits :
    (off l len v y_len : ℕ)
    → off + l ≤ y_len
    → span off * v < span y_len
    → (len ≡ l) ⊎ ((len ≡ suc l) × (span l ≤ v))
    → off + len ≤ y_len
behind_offset-fits off l len v y_len room fit (inl e) = omega arith
behind_offset-fits off l len v y_len room fit (inr (e, h)) = elim (dec_lt (off + l) y_len) [
  | yes lt ↦ omega arith
  | no ge ↦ absurd (
      omega (
        arith,
        mul-le-mul_left {m = span l} {n = v} (span off) h,
        span_add off l,
        ap span {x = off + l} {y = y_len} (omega arith),
      ))
]

-- On cells, bigint_shl fills the result vector with the number times the power of two, when the
-- vector has room for the whole cells that are copied and the product fits it.
pub shl-Holds :
    (us : List ℕ) (n y_len : ℕ)
    → IsCells us
    → n / 32 + length us ≤ y_len
    → value us * 2 ^ n < span y_len
    → Holds (shl us n y_len) (value us * 2 ^ n) y_len
unfolding shl
shl-Holds us n y_len hu l fit =
    arranged (if n % 32 == 0 then us else shl_loop us (n % 32) 0)
      (body-value us (n % 32) hu (omega arith))
  where
    arranged :
        (y : List ℕ)
        → (value y ≡ value us * 2 ^ (n % 32))
          × IsCells y
          × ((length y ≡ length us) ⊎ ((length y ≡ suc (length us)) × (span (length us) ≤ value y)))
        → Holds (fill (zero_cells (n / 32) ++ y) y_len) (value us * 2 ^ n) y_len
    arranged y b =
        let zs = zero_cells (n / 32) in
        let v = behind_offset (n / 32) (value us) (value y) n refl b.0 in
        let e : length zs ≡ n / 32 = length-replicate (n / 32) 0 in
        let z : value zs ≡ 0 = value-zero_cells (n / 32) in
        let room =
          behind_offset-fits (n / 32) (length us) (length y) (value y) y_len l (omega arith) b.2 in
        fill-Holds (zs ++ y) y_len (value us * 2 ^ n)
          (IsCells-append zs y (zero_cells-IsCells (n / 32)) b.1)
          (omega (arith, length-append {0} zs y))
          (omega (arith, value-append zs y, ap (λ (t : ℕ). span t * value y) e))
