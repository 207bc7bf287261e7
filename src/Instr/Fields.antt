-- ===== src/Instr/Fields.antt =====
-- The words and the operands as sums and remainders.
use Prim.Native.Nat.{bit_and, bit_or}
use zis_lang.Common.{ℕ, ◌+◌, ◌*◌, ◌%◌, ◌^◌, ◌<◌, ◌≡◌, ◌∙◌, ap, arith}
use zis_lang.Instr.{u32}
use zis_lang.Common.Bits.{bit_or-low_high, bit_and-mask}

pub mask9 : (x : ℕ) → bit_and x 0x1ff ≡ x % 512
mask9 x = bit_and-mask 9 x

pub mask8 : (x : ℕ) → bit_and x 0xff ≡ x % 256
mask8 x = bit_and-mask 8 x

pub mask7 : (x : ℕ) → bit_and x 0x7f ≡ x % 128
mask7 x = bit_and-mask 7 x

-- The operands in their places, cut to their widths.
pub place_a : (op a : ℕ) → op < 128 → bit_or op (u32 (bit_and a 0x1ff * 2 ^ 7)) ≡ a % 512 * 128 + op
place_a op a h =
    rw (mask9 a)
      (ap (bit_or op) {y = a % 512 * 2 ^ 7} (omega arith) ∙ bit_or-low_high 7 (a % 512) op h)

pub place_wide_a : (op a : ℕ) → op < 128 → bit_or op (u32 (a * 2 ^ 7)) ≡ a % 2 ^ 25 * 128 + op
place_wide_a op a h =
    ap (bit_or op) {y = a % 2 ^ 25 * 2 ^ 7} (omega arith) ∙ bit_or-low_high 7 (a % 2 ^ 25) op h

pub place_b : (w b : ℕ) → w < 65536 → bit_or w (u32 (bit_and b 0xff * 2 ^ 16)) ≡ b % 256 * 65536 + w
place_b w b h =
    rw (mask8 b)
      (ap (bit_or w) {y = b % 256 * 2 ^ 16} (omega arith) ∙ bit_or-low_high 16 (b % 256) w h)

pub place_wide_b : (w b : ℕ) → w < 65536 → bit_or w (u32 (b * 2 ^ 16)) ≡ b % 65536 * 65536 + w
place_wide_b w b h =
    ap (bit_or w) {y = b % 65536 * 2 ^ 16} (omega arith) ∙ bit_or-low_high 16 (b % 65536) w h

pub place_c : (w c : ℕ) → w < 2 ^ 24 → bit_or w (u32 (c * 2 ^ 24)) ≡ c % 256 * 2 ^ 24 + w
place_c w c h =
    ap (bit_or w) {y = c % 256 * 2 ^ 24} (omega arith) ∙ bit_or-low_high 24 (c % 256) w h
