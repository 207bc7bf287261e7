-- ===== src/Bigint.antt =====
-- src/core/intobj.c, "big int arithmetics": vectors of 32-bit cells, the least significant first.
-- A vector with its length is a list; a write past its end and a shift by a full word are `none`.
pub mod Value
pub mod Small
pub mod Compare
pub mod AddSub
pub mod Mul
pub mod Shift
use Prim.Native.Nat.{compare, Ordering, bit_or, bit_and}
use zis_lang.Common.{
  ℕ, zero, suc, ◌+◌, ◌-◌, ◌*◌, ◌/◌, ◌%◌, ◌^◌, Bool, true, false, ◌||◌, List, [], ◌∷◌, ◌++◌, Option,
  none, some, ltb, leb, ◌==◌, if◌then◌else◌, length, take, drop, replicate, not,
}

-- BIGINT_CELL_MAX + 1 and BIGINT_2CELL_MAX + 1
abbrev pub cell_base : ℕ
cell_base = 2 ^ 32

abbrev pub cell2_base : ℕ
cell2_base = 2 ^ 64

-- casts to bigint_cell_t and bigint_2cell_t
abbrev pub to_cell : ℕ → ℕ
to_cell x = x % cell_base

abbrev pub to_cell2 : ℕ → ℕ
to_cell2 x = x % cell2_base

-- `i < a_len ? a_vec[i] : 0` at the front of what is left of a vector
abbrev pub front : List ℕ → ℕ
front [] = 0
front (a ∷ us) = a

abbrev pub rest : List ℕ → List ℕ
rest [] = []
rest (a ∷ us) = us

-- bigint_zero
abbrev pub zero_cells : ℕ → List ℕ
zero_cells n = replicate n 0

-- bigint_self_mul_add_1, with the carry that it returns
pub self_mul_add_1 : List ℕ → ℕ → ℕ → List ℕ × ℕ
self_mul_add_1 [] b carry = ([], carry)
self_mul_add_1 (a ∷ us) b carry =
    let p = to_cell2 (to_cell2 (a * b) + carry) in
    let (r, out) = self_mul_add_1 us b (to_cell (p / cell_base)) in (to_cell p ∷ r, out)

-- bigint_self_div_1, with the remainder that it returns. The loop starts at the last cell.
pub self_div_1 : List ℕ → ℕ → List ℕ × ℕ
self_div_1 [] b = ([], 0)
self_div_1 (a ∷ us) b =
    let (qs, rem) = self_div_1 us b in
    let t = to_cell2 (a + to_cell2 (rem * cell_base)) in (to_cell (t / b) ∷ qs, to_cell (t % b))

-- The loop of bigint_cmp on vectors of one length: the last cells that differ decide.
pub cmp_cells : List ℕ → List ℕ → Ordering
cmp_cells [] vs = Ordering.eq
cmp_cells (a ∷ us) [] = Ordering.eq
cmp_cells (a ∷ us) (b ∷ vs) = elim (cmp_cells us vs) [
  | Ordering.lt ↦ Ordering.lt
  | Ordering.eq ↦ compare a b
  | Ordering.gt ↦ Ordering.gt
]

-- bigint_cmp
pub cmp : List ℕ → List ℕ → Ordering
unfolding cmp_cells
cmp us vs =
    if length us == length vs
    then cmp_cells us vs
    else if ltb (length us) (length vs)
    then Ordering.lt
    else Ordering.gt

-- One round of bigint_add: the sum cell and the carry, as the portable branch has them.
pub add_round : ℕ → ℕ → ℕ → ℕ × ℕ
add_round a b carry = let s = to_cell2 (a + b + carry) in (to_cell s, to_cell (s / cell_base))

-- __builtin_add_overflow and __builtin_sub_overflow on cells: the result and the flag
abbrev pub add_overflow : ℕ → ℕ → ℕ × ℕ
add_overflow a b = (to_cell (a + b), if ltb (a + b) cell_base then 0 else 1)

abbrev pub sub_overflow : ℕ → ℕ → ℕ × ℕ
sub_overflow a b = (to_cell (a + cell_base - b), if ltb a b then 1 else 0)

-- `c1 | c2` of two flags
abbrev pub or_flag : ℕ → ℕ → ℕ
or_flag zero c = c
or_flag (suc b) c = 1

-- The round as the ZIS_USE_GNUC_OVERFLOW_ARITH branch has it.
pub add_round_gnuc : ℕ → ℕ → ℕ → ℕ × ℕ
add_round_gnuc a b carry =
    let (s, c1) = add_overflow a b in let (s', c2) = add_overflow s carry in (s', or_flag c1 c2)

-- The loop of bigint_add over y_len cells, with the last carry.
pub add_loop : ℕ → List ℕ → List ℕ → ℕ → List ℕ × ℕ
unfolding add_round
add_loop zero us vs carry = ([], carry)
add_loop (suc n) us vs carry =
    let (s, c) = add_round (front us) (front vs) carry in
    let (y, out) = add_loop n (rest us) (rest vs) c in (s ∷ y, out)

-- bigint_add
pub add : List ℕ → List ℕ → ℕ → List ℕ
unfolding add_loop
add us vs y_len = (add_loop y_len us vs 0).0

-- One round of bigint_sub and bigint_self_sub, in both branches.
pub sub_round : ℕ → ℕ → ℕ → ℕ × ℕ
sub_round a b borrow =
    let s = to_cell2 ((cell_base - 1) * cell_base + a + cell2_base - b - borrow) in
    (to_cell s, cell_base - 1 - to_cell (s / cell_base))

pub sub_round_gnuc : ℕ → ℕ → ℕ → ℕ × ℕ
sub_round_gnuc a b borrow =
    let (s, c1) = sub_overflow a b in let (s', c2) = sub_overflow s borrow in (s', or_flag c1 c2)

-- The loop of bigint_sub over y_len cells, and of bigint_self_sub over a_len, with the last borrow.
pub sub_loop : ℕ → List ℕ → List ℕ → ℕ → List ℕ × ℕ
unfolding sub_round
sub_loop zero us vs borrow = ([], borrow)
sub_loop (suc n) us vs borrow =
    let (s, c) = sub_round (front us) (front vs) borrow in
    let (y, out) = sub_loop n (rest us) (rest vs) c in (s ∷ y, out)

-- bigint_sub: whether the result is negative, and the difference
pub sub : List ℕ → List ℕ → ℕ → Bool × List ℕ
unfolding cmp sub_loop
sub us vs y_len = elim (cmp us vs) [
  | Ordering.gt ↦ (false, (sub_loop y_len us vs 0).0)
  | Ordering.lt ↦ (true, (sub_loop y_len vs us 0).0)
  | Ordering.eq ↦ (false, zero_cells y_len)
]

-- bigint_self_sub
pub self_sub : List ℕ → List ℕ → List ℕ
unfolding sub_loop
self_sub us vs = (sub_loop (length us) us vs 0).0

infixl 5 ◌>>=◌
abbrev pub ◌>>=◌ : {A : Type 0} → Option (List ℕ) → (List ℕ → Option A) → Option A
none >>= k = none
some y >>= k = k y

-- The test for an overflow at the end of a row: __builtin_add_overflow where
-- ZIS_USE_GNUC_OVERFLOW_ARITH is set, and otherwise a comparison that reads y after `y += carry`.
abbrev pub carry_overflow : Bool → ℕ → ℕ → Bool
carry_overflow true carry y = not (ltb (carry + y) cell_base)
carry_overflow false carry y = ltb (cell_base - 1 - to_cell (y + carry)) carry

-- The end of a row of bigint_mul, `if (carry)`; `none` is _bigint_mul_unexpected_overflow.
pub mul_carry : Bool → List ℕ → ℕ → Option (List ℕ)
mul_carry gnuc ys zero = some ys
mul_carry gnuc [] (suc c) = none
mul_carry gnuc (y ∷ ys) (suc c) =
    if carry_overflow gnuc (suc c) y then none else some (to_cell (y + suc c) ∷ ys)

-- The loop over j for one cell of b, on y_vec from index k on.
pub mul_row : Bool → List ℕ → ℕ → List ℕ → ℕ → Option (List ℕ)
unfolding mul_carry
mul_row gnuc [] b ys carry = mul_carry gnuc ys carry
mul_row gnuc (a ∷ us) b [] carry = none
mul_row gnuc (a ∷ us) b (y ∷ ys) carry =
    let yw1 = to_cell2 (a * b) in
    let yw2 = to_cell2 (y + carry) in
    let r = mul_row gnuc us b ys (to_cell ((yw1 + yw2) / cell_base)) in
    if ltb (yw1 + yw2) cell2_base then (r >>= λ t. some (to_cell (yw1 + yw2) ∷ t)) else none

-- The loop over k: a row is done with its first cell, and the next one starts behind it.
pub mul_loop : Bool → List ℕ → List ℕ → List ℕ → Option (List ℕ)
unfolding mul_row
mul_loop gnuc us [] ys = some ys
mul_loop gnuc us (b ∷ vs) ys =
    mul_row gnuc us b ys 0 >>= λ r. mul_loop gnuc us vs (rest r) >>= λ t. some (front r ∷ t)

-- bigint_mul
pub mul : Bool → List ℕ → List ℕ → ℕ → Option (List ℕ)
unfolding mul_loop
mul gnuc us vs y_len = mul_loop gnuc us vs (zero_cells y_len)

-- bigint_complement from a carry on, with the last carry
pub complement_loop : List ℕ → ℕ → List ℕ × ℕ
complement_loop [] carry = ([], carry)
complement_loop (a ∷ us) carry =
    let c = to_cell2 (carry + (cell_base - 1 - a)) in
    let (y, out) = complement_loop us (c / cell_base) in (to_cell c ∷ y, out)

-- bigint_complement
pub complement : List ℕ → List ℕ
unfolding complement_loop
complement us = (complement_loop us 1).0

-- `if (carry)` behind the loop
abbrev pub carry_cell : ℕ → List ℕ
carry_cell zero = []
carry_cell (suc c) = suc c ∷ []

-- The loop of bigint_shl for a bit offset that is not zero, with the carry put behind the cells.
pub shl_loop : List ℕ → ℕ → ℕ → List ℕ
shl_loop [] bit_offset carry = carry_cell carry
shl_loop (a ∷ us) bit_offset carry =
    let s = to_cell2 (a * 2 ^ bit_offset) in
    bit_or (to_cell s) carry ∷ shl_loop us bit_offset (to_cell (s / cell_base))

-- `bigint_zero(y_vec + y_len_min, y_len - y_len_min)`, behind the assert on the lengths
pub fill : List ℕ → ℕ → Option (List ℕ)
fill y y_len = if leb (length y) y_len then some (y ++ zero_cells (y_len - length y)) else none

-- bigint_shl; `none` where y_vec is too short
pub shl : List ℕ → ℕ → ℕ → Option (List ℕ)
unfolding shl_loop fill
shl us n y_len =
    let cell_offset = n / 32 in
    let bit_offset = n % 32 in
    fill (zero_cells cell_offset ++ (if bit_offset == 0 then us else shl_loop us bit_offset 0))
      y_len
