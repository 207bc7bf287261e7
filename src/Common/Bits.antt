-- ===== src/Common/Bits.antt =====
-- `&` and `|` of native numbers as arithmetic: disjoint fields add up, and a mask of low ones is a
-- remainder.
use Prim.Native.Nat.{
  ℕ, zero, suc, ◌+◌, ◌-◌, ◌*◌, ◌/◌, ◌%◌, ◌^◌, ◌≤◌, ◌<◌, min, max, digits, bitwise, bit_and, bit_or,
  bit_and-bitwise, bit_or-bitwise,
}
use mathlib.Core.Path.{◌≡◌, refl, ap, sym, ◌∙◌}
use native.Mathlib.Nat.{
  pow-suc, one-le-pow, div-add-mod, mod-lt, mod-eq_of_lt, add-mul-mod_self_left, zero-add, suc-add,
}
use native.Mathlib.Omega.{arith}

module _ (z : ℕ → ℕ) (f : ℕ → ℕ → ℕ) where
  -- Rounds to spare do not matter: any two counts that reach the first number agree.
  spare : (n a m b : ℕ) → a ≤ n → a ≤ m → digits z f n a b ≡ digits z f m a b
  spare n zero m b p q = both n m
    where
      both : (n m : ℕ) → digits z f n zero b ≡ digits z f m zero b
      both zero zero = refl
      both zero (suc m) = refl
      both (suc n) zero = refl
      both (suc n) (suc m) = refl
  spare n (suc a) zero b p q = absurd (omega arith)
  spare zero (suc a) (suc m) b p q = absurd (omega arith)
  spare (suc n) (suc a) (suc m) b p q =
      ap (λ t. t * 2 + f (suc a % 2) (b % 2))
        (spare n (suc a / 2) m (b / 2) (omega arith) (omega arith))

  lowest_digit :
      (a b : ℕ)
      → bitwise z f (suc a) b ≡ bitwise z f (suc a / 2) (b / 2) * 2 + f (suc a % 2) (b % 2)
  lowest_digit a b =
      ap (λ t. t * 2 + f (suc a % 2) (b % 2))
        (spare a (suc a / 2) (suc a / 2) (b / 2) (omega arith) (omega arith))

and_digit : (a b : ℕ) → bit_and a b ≡ bit_and (a / 2) (b / 2) * 2 + min (a % 2) (b % 2)
and_digit zero b = omega (arith, bit_and-bitwise 0 b, bit_and-bitwise 0 (b / 2))
and_digit (suc a) b = omega (
  arith,
  bit_and-bitwise (suc a) b,
  bit_and-bitwise (suc a / 2) (b / 2),
  lowest_digit (λ y. 0) min a b,
)

or_digit : (a b : ℕ) → bit_or a b ≡ bit_or (a / 2) (b / 2) * 2 + max (a % 2) (b % 2)
or_digit zero b = omega (arith, bit_or-bitwise 0 b, bit_or-bitwise 0 (b / 2))
or_digit (suc a) b = omega (
  arith,
  bit_or-bitwise (suc a) b,
  bit_or-bitwise (suc a / 2) (b / 2),
  lowest_digit (λ y. y) max a b,
)

or_zero : (n a : ℕ) → a ≤ n → bit_or a 0 ≡ a
or_zero n zero h = bit_or-bitwise 0 0
or_zero zero (suc a) h = absurd (omega arith)
or_zero (suc n) (suc a) h = omega (arith, or_digit (suc a) 0, or_zero n (suc a / 2) (omega arith))

and_zero : (n a : ℕ) → a ≤ n → bit_and a 0 ≡ 0
and_zero n zero h = bit_and-bitwise 0 0
and_zero zero (suc a) h = absurd (omega arith)
and_zero (suc n) (suc a) h =
    omega (arith, and_digit (suc a) 0, and_zero n (suc a / 2) (omega arith))

zero_or : (b : ℕ) → bit_or 0 b ≡ b
zero_or b = bit_or-bitwise 0 b

-- A field above another is added to it.
pub bit_or-high_low : (k q r : ℕ) → r < 2 ^ k → bit_or (q * 2 ^ k) r ≡ q * 2 ^ k + r
bit_or-high_low zero q zero h = omega (arith, or_zero (q * 1) (q * 1) (omega arith))
bit_or-high_low zero q (suc r) h = absurd (omega arith)
bit_or-high_low (suc k) q r h =
    let e : q * 2 ^ suc k ≡ q * 2 ^ k * 2 = omega (arith, ap (λ (t : ℕ). q * t) (pow-suc 2 k)) in
    let d : 2 ^ suc k ≡ 2 ^ k * 2 = pow-suc 2 k in
    rw e (
      omega (
        arith,
        or_digit (q * 2 ^ k * 2) r,
        halved (q * 2 ^ k),
        bit_or-high_low k q (r / 2) (omega arith),
      ))
  where
    halved : (x : ℕ) → bit_or (x * 2 / 2) (r / 2) ≡ bit_or x (r / 2)
    halved x = ap (λ t. bit_or t (r / 2)) (omega arith)

pub bit_or-low_high : (k q r : ℕ) → r < 2 ^ k → bit_or r (q * 2 ^ k) ≡ q * 2 ^ k + r
bit_or-low_high zero q zero h = omega (arith, zero_or (q * 1))
bit_or-low_high zero q (suc r) h = absurd (omega arith)
bit_or-low_high (suc k) q r h =
    let e : q * 2 ^ suc k ≡ q * 2 ^ k * 2 = omega (arith, ap (λ (t : ℕ). q * t) (pow-suc 2 k)) in
    let d : 2 ^ suc k ≡ 2 ^ k * 2 = pow-suc 2 k in
    rw e (
      omega (
        arith,
        or_digit r (q * 2 ^ k * 2),
        halved (q * 2 ^ k),
        bit_or-low_high k q (r / 2) (omega arith),
      ))
  where
    halved : (x : ℕ) → bit_or (r / 2) (x * 2 / 2) ≡ bit_or (r / 2) x
    halved x = ap (λ t. bit_or (r / 2) t) {x = x * 2 / 2} {y = x} (omega arith)

mod_double : (p a : ℕ) → 1 ≤ p → a / 2 % p * 2 + a % 2 ≡ a % (p * 2)
mod_double p a h =
    let x = a / 2 in
    let e : a ≡ (x % p * 2 + a % 2) + p * 2 * (x / p) = omega (arith, div-add-mod x p) in
    let l : x % p * 2 + a % 2 < p * 2 = omega (arith, mod-lt x {m = p} h) in
    sym (
      ap (λ t. t % (p * 2)) e
      ∙ add-mul-mod_self_left (x % p * 2 + a % 2) (p * 2) (x / p)
      ∙ mod-eq_of_lt l)

-- A mask of k ones keeps the remainder by 2 ^ k.
pub bit_and-mask : (k a : ℕ) → bit_and a (2 ^ k - 1) ≡ a % 2 ^ k
bit_and-mask zero a = omega (arith, and_zero a a (omega arith))
bit_and-mask (suc k) a =
    let d : 2 ^ suc k ≡ 2 ^ k * 2 = pow-suc 2 k in
    let p : 1 ≤ 2 ^ k = one-le-pow k 2 (omega arith) in
    let halved : (2 ^ k * 2 - 1) / 2 ≡ 2 ^ k - 1 = omega arith in
    rw d (
      omega (
        arith,
        and_digit a (2 ^ k * 2 - 1),
        ap (λ t. bit_and (a / 2) t) halved,
        bit_and-mask k (a / 2),
        mod_double (2 ^ k) a p,
      ))

pub pow_add : (j k : ℕ) → 2 ^ j * 2 ^ k ≡ 2 ^ (j + k)
pow_add zero k = omega (arith, ap (λ (t : ℕ). 2 ^ t) (zero-add k))
pow_add (suc j) k = omega (
  arith,
  pow-suc 2 j,
  ap (λ (t : ℕ). t * 2 ^ k) (pow-suc 2 j),
  pow_add j k,
  pow-suc 2 (j + k),
  ap (λ (t : ℕ). 2 ^ t) (suc-add j k),
)
