-- ===== src/Algorithm.antt =====
-- src/core/algorithm.c and algorithm.h: powers, hash codes and rounding, with a 64-bit size_t.
-- zis_math_pow_u32 halves its exponent in each round, so 32 rounds are enough for a uint32_t.
pub mod Power
pub mod Hash
use Prim.Native.Nat.{bit_and, bit_or, bit_xor}
use zis_lang.Common.{
  ℕ, zero, suc, ◌+◌, ◌-◌, ◌*◌, ◌/◌, ◌%◌, ◌^◌, Option, none, some, List, [], ◌∷◌, length, ltb, leb,
  ◌==◌, if◌then◌else◌,
}
use zis_lang.Common.Int.{ℤ, pos, negsuc}
use zis_lang.Smallint.{of_word, to_word, shr_one}

-- uint32_mul_overflow: the product, or `none` if it overflows
pub mul_u32 : ℕ → ℕ → Option ℕ
mul_u32 a b = if ltb (a * b) (2 ^ 32) then some (a * b) else none

-- What is left of a round of the loop: the result is known, or the loop goes on with it.
pub data Round : Type 0 where
  stop : ℕ → Round
  go_on : ℕ → Round

-- `if (exponent & 1) …`
pub odd_step : ℕ → ℕ → ℕ → Round
unfolding mul_u32
odd_step result base exponent =
    if exponent % 2 == 1
    then elim (mul_u32 result base) [
      | none ↦ stop 0
      | some r ↦ if exponent == 1 then stop r else go_on r
    ]
    else go_on result

-- The loop of zis_math_pow_u32 on fuel; `none` means that the fuel ran out.
pub pow_loop : ℕ → ℕ → ℕ → ℕ → Option ℕ
pow_loop zero result base exponent = none
pow_loop (suc fuel) result base exponent = elim (odd_step result base exponent) [
  | stop r ↦ some r
  | go_on r ↦ elim (mul_u32 base base) [ none ↦ some 0 | some b ↦ pow_loop fuel r b (exponent / 2) ]
]

-- zis_math_pow_u32
pub math_pow_u32 : ℕ → ℕ → Option ℕ
math_pow_u32 base exponent = if exponent == 0 then some 1 else pow_loop 32 1 base exponent

-- zis_hash_pointer
pub hash_pointer : ℕ → ℕ
hash_pointer ptr = ptr / 2 ^ 4

-- rotl32 by r, for 0 < r < 32
pub rotl32 : ℕ → ℕ → ℕ
rotl32 x r = bit_or (x * 2 ^ r % 2 ^ 32) (x / 2 ^ (32 - r))

-- A step of the hash_combine mixer: `x ^= x >> n`
abbrev xor_shift : ℕ → ℕ → ℕ
xor_shift x n = bit_xor x (x / 2 ^ n)

-- zis_hash_combine with 64-bit words
pub hash_combine : ℕ → ℕ → ℕ
hash_combine hash_code new_hash_code =
    let m : ℕ = 0xe9846af9b1a615d in
    let x = (hash_code + 0x9e3779b9 + new_hash_code) % 2 ^ 64 in
    let y = xor_shift x 32 * m % 2 ^ 64 in let z = xor_shift y 32 * m % 2 ^ 64 in xor_shift z 28

-- zis_hash_truncate
pub hash_truncate : ℕ → ℕ
hash_truncate hash_code = to_word (shr_one (of_word (hash_code * 2 % 2 ^ 64)))
