-- ===== src/Instr/RoundTrip.antt =====
-- What is packed into an instruction comes back, operand by operand.
use Prim.Native.Nat.{bit_and, bit_or}
use zis_lang.Common.{ℕ, ◌+◌, ◌-◌, ◌*◌, ◌%◌, ◌^◌, ◌<◌, ◌≡◌, arith}
use zis_lang.Common.Int.{ℤ, pos, negsuc}
use zis_lang.Instr.{
  u32, pattern32, make_aw, make_asw, make_abw, make_asbw, make_absw, make_abc, make_asbc,
  make_abscs, extract_opcode, extract_aw, extract_asw, extract_abw, extract_asbw, extract_absw,
  extract_abc, extract_asbc, extract_abscs, signed32, sar,
}
use zis_lang.Instr.Fields.{
  mask7, mask8, mask9, place_a, place_wide_a, place_b, place_wide_b, place_c,
}

-- -(2 ^ (k - 1)) ≤ v < 2 ^ (k - 1), for half = 2 ^ (k - 1)
abbrev pub IsSigned : ℕ → ℤ → Type 0
IsSigned half (pos n) = n < half
IsSigned half (negsuc n) = n < half

-- The opcode and an operand of 25 bits come back from the instruction word.
pub aw-round_trip :
    (op a : ℕ)
    → op < 128
    → a < 2 ^ 25
    → (extract_opcode (make_aw op a) ≡ op) × (extract_aw (make_aw op a) ≡ a)
unfolding make_aw extract_aw extract_opcode
aw-round_trip op a ho ha = rw (place_wide_a op a ho, mask7) (omega arith, omega arith)

-- The opcode and a signed operand of 25 bits come back from the instruction word.
pub asw-round_trip :
    (op : ℕ) (a : ℤ)
    → op < 128
    → IsSigned (2 ^ 24) a
    → (extract_opcode (make_asw op a) ≡ op) × (extract_asw (make_asw op a) ≡ a)
unfolding make_asw extract_asw extract_opcode
asw-round_trip op (pos n) ho ha =
    rw (place_wide_a op (n % 2 ^ 32) ho, mask7) (omega arith, ground arith)
asw-round_trip op (negsuc n) ho ha =
    rw (place_wide_a op (2 ^ 32 - 1 - n % 2 ^ 32) ho, mask7) (omega arith, ground arith)

-- The opcode and operands of 9 and 16 bits come back from the instruction word.
pub abw-round_trip :
    (op a b : ℕ)
    → op < 128
    → a < 512
    → b < 65536
    → (extract_opcode (make_abw op a b) ≡ op) × (extract_abw (make_abw op a b) ≡ (a, b))
unfolding make_abw extract_abw extract_opcode
abw-round_trip op a b ho ha hb =
    rw (place_a op a ho, place_wide_b (a % 512 * 128 + op) b (omega arith), mask7, mask9)
      (omega arith, ground arith)

-- For an opcode of 7 bits, a signed operand of 9 bits and an operand of 16 bits, the extraction
-- gives the low 9 bits of the signed operand as a number that is not negative, and the other
-- operand.
pub asbw-sign_lost :
    (op : ℕ) (a : ℤ) (b : ℕ)
    → op < 128
    → IsSigned 256 a
    → b < 65536
    → extract_asbw (make_asbw op a b) ≡ (pos (pattern32 a % 512), b)
unfolding make_asbw extract_asbw
asbw-sign_lost op (pos n) b ho ha hb =
    rw
      (
        place_a op (n % 2 ^ 32) ho,
        place_wide_b (n % 2 ^ 32 % 512 * 128 + op) b (omega arith),
        mask9,
      )
      (ground arith)
asbw-sign_lost op (negsuc n) b ho ha hb =
    rw
      (
        place_a op (2 ^ 32 - 1 - n % 2 ^ 32) ho,
        place_wide_b ((2 ^ 32 - 1 - n % 2 ^ 32) % 512 * 128 + op) b (omega arith),
        mask9,
      )
      (ground arith)

-- The opcode, an operand of 9 bits and a signed operand of 16 bits come back from the instruction
-- word.
pub absw-round_trip :
    (op a : ℕ) (b : ℤ)
    → op < 128
    → a < 512
    → IsSigned (2 ^ 15) b
    → (extract_opcode (make_absw op a b) ≡ op) × (extract_absw (make_absw op a b) ≡ (a, b))
unfolding make_absw extract_absw extract_opcode
absw-round_trip op a (pos n) ho ha hb =
    rw (place_a op a ho, place_wide_b (a % 512 * 128 + op) (n % 2 ^ 32) (omega arith), mask7, mask9)
      (omega arith, ground arith)
absw-round_trip op a (negsuc n) ho ha hb =
    rw
      (
        place_a op a ho,
        place_wide_b (a % 512 * 128 + op) (2 ^ 32 - 1 - n % 2 ^ 32) (omega arith),
        mask7,
        mask9,
      )
      (omega arith, ground arith)

abbrev low24 : ℕ → ℕ → ℕ → ℕ
low24 op a b = b % 256 * 65536 + (a % 512 * 128 + op)

low24-lt : (op a b : ℕ) → op < 128 → low24 op a b < 2 ^ 24
low24-lt op a b h = omega arith

-- The opcode and operands of 9, 8 and 8 bits come back from the instruction word.
pub abc-round_trip :
    (op a b c : ℕ)
    → op < 128
    → a < 512
    → b < 256
    → c < 256
    → (extract_opcode (make_abc op a b c) ≡ op) × (extract_abc (make_abc op a b c) ≡ (a, b, c))
unfolding make_abc extract_abc extract_opcode
abc-round_trip op a b c ho ha hb hc =
    rw
      (
        place_a op a ho,
        place_b (a % 512 * 128 + op) b (omega arith),
        place_c (low24 op a b) c (low24-lt op a b ho),
        mask7,
        mask9,
        mask8,
      )
      (omega arith, ground arith)

asbc-word :
    (op p b c : ℕ) (a : ℤ)
    → op < 128
    → b < 256
    → c < 256
    → sar (signed32 (u32 ((c % 256 * 2 ^ 24 + low24 op p b) * 2 ^ 16))) 23 ≡ a
    → let w =
        bit_or
          (bit_or (bit_or op (u32 (bit_and p 0x1ff * 2 ^ 7))) (u32 (bit_and b 0xff * 2 ^ 16)))
          (u32 (c * 2 ^ 24)) in
      (extract_opcode w ≡ op) × (extract_asbc w ≡ (a, b, c))
unfolding extract_asbc extract_opcode
asbc-word op p b c a ho hb hc e =
    rw
      (
        place_a op p ho,
        place_b (p % 512 * 128 + op) b (omega arith),
        place_c (low24 op p b) c (low24-lt op p b ho),
        mask7,
        mask8,
      )
      (omega arith, ground arith)

-- The opcode, a signed operand of 9 bits and two operands of 8 bits come back from the instruction
-- word.
pub asbc-round_trip :
    (op : ℕ) (a : ℤ) (b c : ℕ)
    → op < 128
    → IsSigned 256 a
    → b < 256
    → c < 256
    → (extract_opcode (make_asbc op a b c) ≡ op) × (extract_asbc (make_asbc op a b c) ≡ (a, b, c))
unfolding make_asbc
asbc-round_trip op (pos n) b c ho ha hb hc =
    asbc-word op (n % 2 ^ 32) b c (pos n) ho hb hc (unfold sar signed32 in ground arith)
asbc-round_trip op (negsuc n) b c ho ha hb hc =
    asbc-word op (2 ^ 32 - 1 - n % 2 ^ 32) b c (negsuc n) ho hb hc
      (unfold sar signed32 in ground arith)

abscs-word :
    (op a p q : ℕ) (b c : ℤ)
    → op < 128
    → a < 512
    → sar (signed32 (u32 ((q % 256 * 2 ^ 24 + low24 op a p) * 2 ^ 8))) 24 ≡ b
    → sar (signed32 (q % 256 * 2 ^ 24 + low24 op a p)) 24 ≡ c
    → let w =
        bit_or
          (bit_or (bit_or op (u32 (bit_and a 0x1ff * 2 ^ 7))) (u32 (bit_and p 0xff * 2 ^ 16)))
          (u32 (q * 2 ^ 24)) in
      (extract_opcode w ≡ op) × (extract_abscs w ≡ (a, b, c))
unfolding extract_abscs extract_opcode
abscs-word op a p q b c ho ha eb ec =
    rw
      (
        place_a op a ho,
        place_b (a % 512 * 128 + op) p (omega arith),
        place_c (low24 op a p) q (low24-lt op a p ho),
        mask7,
        mask9,
      )
      (omega arith, ground arith)

-- The opcode, an operand of 9 bits and two signed operands of 8 bits come back from the
-- instruction word.
pub abscs-round_trip :
    (op a : ℕ) (b c : ℤ)
    → op < 128
    → a < 512
    → IsSigned 128 b
    → IsSigned 128 c
    → (extract_opcode (make_abscs op a b c) ≡ op)
      × (extract_abscs (make_abscs op a b c) ≡ (a, b, c))
unfolding make_abscs
abscs-round_trip op a b c ho ha hb hc =
    abscs-word op a (pattern32 b) (pattern32 c) b c ho ha (field_b op a b c ho ha hb hc)
      (field_c op a b c ho ha hb hc)
  where
    field_b :
        (op a : ℕ) (b c : ℤ)
        → op < 128
        → a < 512
        → IsSigned 128 b
        → IsSigned 128 c
        → sar (signed32 (u32 ((pattern32 c % 256 * 2 ^ 24 + low24 op a (pattern32 b)) * 2 ^ 8))) 24
          ≡ b
    field_b op a (pos m) (pos n) ho ha hb hc = unfold sar signed32 pattern32 in ground arith
    field_b op a (pos m) (negsuc n) ho ha hb hc = unfold sar signed32 pattern32 in ground arith
    field_b op a (negsuc m) (pos n) ho ha hb hc = unfold sar signed32 pattern32 in ground arith
    field_b op a (negsuc m) (negsuc n) ho ha hb hc = unfold sar signed32 pattern32 in ground arith

    field_c :
        (op a : ℕ) (b c : ℤ)
        → op < 128
        → a < 512
        → IsSigned 128 b
        → IsSigned 128 c
        → sar (signed32 (pattern32 c % 256 * 2 ^ 24 + low24 op a (pattern32 b))) 24 ≡ c
    field_c op a (pos m) (pos n) ho ha hb hc = unfold sar signed32 pattern32 in ground arith
    field_c op a (pos m) (negsuc n) ho ha hb hc = unfold sar signed32 pattern32 in ground arith
    field_c op a (negsuc m) (pos n) ho ha hb hc = unfold sar signed32 pattern32 in ground arith
    field_c op a (negsuc m) (negsuc n) ho ha hb hc = unfold sar signed32 pattern32 in ground arith
