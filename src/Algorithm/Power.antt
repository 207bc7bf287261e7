-- ===== src/Algorithm/Power.antt =====
-- Exponentiation by squaring, with its overflow check.
use native.Mathlib.Nat.{
  pow-zero, pow-suc, pow-le-pow_right, mul-le-mul_left, mul-le-mul_right, mul_comm, mul_assoc,
}
use zis_lang.Common.{
  ℕ, zero, suc, ◌+◌, ◌*◌, ◌/◌, ◌%◌, ◌^◌, ◌≤◌, ◌<◌, ◌≡◌, refl, sym, ap, ◌∙◌, arith, Option, none,
  some, ltb, ◌==◌, if◌then◌else◌, Bool-cases, ==_iff, inl, inr, ◌⊎◌,
}
use zis_lang.Algorithm.{mul_u32, odd_step, pow_loop, math_pow_u32, stop, go_on}

-- A power if a uint32_t holds it, and 0 if none does.
abbrev pub fit : ℕ → ℕ
fit n = if ltb n (2 ^ 32) then n else 0

double_pow : (b n : ℕ) → (b * b) ^ n ≡ b ^ (n + n)
double_pow b zero = pow-zero (b * b) ∙ sym (pow-zero b)
double_pow b (suc n) =
    let e : b ^ (suc n + suc n) ≡ b ^ (n + n) * b * b =
      ap (λ (t : ℕ). b ^ t) {x = suc n + suc n} {y = suc (suc (n + n))} (omega arith)
      ∙ pow-suc b (suc (n + n))
      ∙ ap (λ (t : ℕ). t * b) (pow-suc b (n + n)) in
    omega (arith, pow-suc (b * b) n, ap (λ (t : ℕ). t * (b * b)) (double_pow b n), e)

-- A round keeps the product of the result and the power.
even_power : (r b e : ℕ) → e % 2 ≡ 0 → r * b ^ e ≡ r * (b * b) ^ (e / 2)
even_power r b e h =
    ap (λ (t : ℕ). r * t)
      (ap (λ (t : ℕ). b ^ t) {y = e / 2 + e / 2} (omega arith) ∙ sym (double_pow b (e / 2)))

odd_power : (r b e : ℕ) → e % 2 ≡ 1 → r * b ^ e ≡ r * b * (b * b) ^ (e / 2)
odd_power r b e h =
    let p : b ^ e ≡ b * (b * b) ^ (e / 2) =
      ap (λ (t : ℕ). b ^ t) {y = suc (e / 2 + e / 2)} (omega arith)
      ∙ pow-suc b (e / 2 + e / 2)
      ∙ ap (λ (t : ℕ). t * b) (sym (double_pow b (e / 2)))
      ∙ mul_comm _ b in
    ap (λ (t : ℕ). r * t) p ∙ sym (mul_assoc r b _)

power-ge : (r b e k : ℕ) → 0 < b → k ≤ e → r * b ^ k ≤ r * b ^ e
power-ge r b e k p h = mul-le-mul_left r (pow-le-pow_right p h)

power_one : (b : ℕ) → b ^ 1 ≡ b
power_one b = omega (arith, pow-suc b 0, ap (λ (t : ℕ). t * b) (pow-zero b))

-- If the squared base overflows and is needed, so does the power.
square-ge : (r b e : ℕ) → 0 < r → 0 < b → 2 ≤ e → b * b ≤ r * b ^ e
square-ge r b e pr pb h =
    let s : b ^ 2 ≡ b * b = pow-suc b 1 ∙ ap (λ (t : ℕ). t * b) (power_one b) in
    omega (arith, power-ge 1 b e 2 pb h, mul-le-mul_right {m = 1} {n = r} (b ^ e) pr, s)

-- The second half of a round, with the rest of the loop given.
squared :
    (r b e v : ℕ) (later : ℕ → Option ℕ)
    → r * (b * b) ^ (e / 2) ≡ v
    → b * b ≤ v
    → later (b * b) ≡ some (fit (r * (b * b) ^ (e / 2)))
    → (elim (mul_u32 b b) [ none ↦ some 0 | some b' ↦ later b' ]) ≡ some (fit v)
unfolding mul_u32
squared r b e v later h ge ih = elim (Bool-cases (ltb (b * b) (2 ^ 32))) [
  | inl t ↦ rw t (ih ∙ ap (λ x. some (fit x)) h)
  | inr t ↦ rw t (ground arith)
]

halved-lt : (fuel e : ℕ) → e < 2 ^ suc fuel → e / 2 < 2 ^ fuel
halved-lt fuel e h = omega (arith, pow-suc 2 fuel)

mul_pos : (a b : ℕ) → 0 < a → 0 < b → 0 < a * b
mul_pos a b pa pb = grind arith

-- A round with an odd exponent stops with the answer, or goes on with the product kept.
odd_step-cases :
    (r b e : ℕ)
    → 0 < r
    → 0 < b
    → 0 < e
    → (odd_step r b e ≡ stop (fit (r * b ^ e)))
      ⊎ ((q : ℕ) × (odd_step r b e ≡ go_on q)
          × (0 < q)
          × (2 ≤ e)
          × (q * (b * b) ^ (e / 2) ≡ r * b ^ e))
unfolding odd_step
odd_step-cases r b e pr pb pe = elim (Bool-cases (e % 2 == 1)) [
  | inl odd ↦
      let o : e % 2 ≡ 1 = (==_iff _ _).0 odd in
      let ge : r * b ≤ r * b ^ e =
        omega (arith, power-ge r b e 1 pb pe, ap (λ (t : ℕ). r * t) (power_one b)) in
      elim (Bool-cases (ltb (r * b) (2 ^ 32))) [
        | inl small ↦ elim (Bool-cases (e == 1)) [
          | inl last ↦
              let l : e ≡ 1 = (==_iff _ _).0 last in
              let v : r * b ≡ r * b ^ e =
                ap (λ (t : ℕ). r * t) (sym (power_one b) ∙ ap (λ (t : ℕ). b ^ t) (sym l)) in
              inl (rw (odd, small, last) (ap stop (sym (rw (sym v) (rw small refl)))))
          | inr more ↦ inr (
            r * b,
            rw (odd, small, more) refl,
            mul_pos r b pr pb,
            ground arith,
            sym (odd_power r b e o),
          )
        ]
        | inr big ↦ inl (rw (odd, big) (ap stop (ground arith)))
      ]
  | inr even ↦ inr (r, rw even refl, pr, ground arith, sym (even_power r b e (ground arith)))
]

pow_loop-fit :
    (fuel r b e : ℕ)
    → 0 < r
    → 0 < b
    → 0 < e
    → e < 2 ^ fuel
    → pow_loop fuel r b e ≡ some (fit (r * b ^ e))
unfolding pow_loop
pow_loop-fit zero r b e pr pb pe h = absurd (omega (arith, pow-zero 2))
pow_loop-fit (suc fuel) r b e pr pb pe h = elim (odd_step-cases r b e pr pb pe) [
  | inl done ↦ rw (pow_loop, done) refl
  | inr (q, goes, pq, two, keeps) ↦
      rw (pow_loop, goes)
        (squared q b e (r * b ^ e) (λ b'. pow_loop fuel q b' (e / 2)) keeps
          (square-ge r b e pr pb two)
          (pow_loop-fit fuel q (b * b) (e / 2) pq (mul_pos b b pb pb) (omega arith)
            (halved-lt fuel e h)))
]

-- With base 0 every product is 0.
pow_loop-zero : (fuel r e : ℕ) → 0 < e → e < 2 ^ fuel → pow_loop fuel r 0 e ≡ some 0
unfolding pow_loop odd_step mul_u32
pow_loop-zero zero r e pe h = absurd (omega (arith, pow-zero 2))
pow_loop-zero (suc fuel) r e pe h =
    ground
      (arith, pow_loop-zero fuel r (e / 2), pow_loop-zero fuel (r * 0) (e / 2), halved-lt fuel e h)

entered : (b e : ℕ) → math_pow_u32 b (suc e) ≡ pow_loop 32 1 b (suc e)
unfolding math_pow_u32
entered b e = ground arith

-- For an exponent that is a uint32_t, zis_math_pow_u32 ends within 32 rounds with the power, or
-- with 0 if no uint32_t holds the power.
pub math_pow_u32-fit :
    (base exponent : ℕ)
    → exponent < 2 ^ 32
    → math_pow_u32 base exponent ≡ some (fit (base ^ exponent))
unfolding math_pow_u32
math_pow_u32-fit base zero h = ap (λ t. some (fit t)) (sym (pow-zero base))
math_pow_u32-fit zero (suc e) h =
    entered 0 e
    ∙ pow_loop-zero 32 1 (suc e) (omega arith) h
    ∙ ap (λ t. some (fit t)) {x = 0} {y = 0 ^ suc e} (omega (arith, pow-suc 0 e))
math_pow_u32-fit (suc b) (suc e) h =
    entered (suc b) e
    ∙ pow_loop-fit 32 1 (suc b) (suc e) (omega arith) (omega arith) (omega arith) h
    ∙ ap (λ t. some (fit t)) {x = 1 * suc b ^ suc e} {y = suc b ^ suc e} (omega arith)
