-- ===== src/Instr.antt =====
-- src/core/instr.h: a 32-bit instruction word is a 7-bit opcode and packed operands.
-- An int32_t is an integer; its pattern is taken modulo 2 ^ 32, and `>>` of it rounds down.
pub mod Fields
pub mod Formats
pub mod RoundTrip
use Prim.Native.Nat.{bit_and, bit_or}
use zis_lang.Common.{ℕ, suc, ◌+◌, ◌-◌, ◌*◌, ◌/◌, ◌%◌, ◌^◌, ltb, if◌then◌else◌}
use zis_lang.Common.Int.{ℤ, pos, negsuc}

abbrev pub u32 : ℕ → ℕ
u32 x = x % 2 ^ 32

-- casts between int32_t and uint32_t
unfoldable pub pattern32 : ℤ → ℕ
pattern32 (pos n) = u32 n
pattern32 (negsuc n) = 2 ^ 32 - 1 - u32 n

unfoldable pub signed32 : ℕ → ℤ
signed32 w = if ltb w (2 ^ 31) then pos w else negsuc (2 ^ 32 - 1 - w)

unfoldable pub sar : ℤ → ℕ → ℤ
sar (pos n) k = pos (n / 2 ^ k)
sar (negsuc n) k = negsuc (n / 2 ^ k)

unfoldable pub make_aw : ℕ → ℕ → ℕ
make_aw op a = bit_or op (u32 (a * 2 ^ 7))

unfoldable pub make_asw : ℕ → ℤ → ℕ
unfolding pattern32
make_asw op a = bit_or op (u32 (pattern32 a * 2 ^ 7))

unfoldable pub make_abw : ℕ → ℕ → ℕ → ℕ
make_abw op a b = bit_or (bit_or op (u32 (bit_and a 0x1ff * 2 ^ 7))) (u32 (b * 2 ^ 16))

unfoldable pub make_asbw : ℕ → ℤ → ℕ → ℕ
unfolding pattern32
make_asbw op a b = bit_or (bit_or op (u32 (bit_and (pattern32 a) 0x1ff * 2 ^ 7))) (u32 (b * 2 ^ 16))

unfoldable pub make_absw : ℕ → ℕ → ℤ → ℕ
unfolding pattern32
make_absw op a b = bit_or (bit_or op (u32 (bit_and a 0x1ff * 2 ^ 7))) (u32 (pattern32 b * 2 ^ 16))

unfoldable pub make_abc : ℕ → ℕ → ℕ → ℕ → ℕ
make_abc op a b c =
    bit_or (bit_or (bit_or op (u32 (bit_and a 0x1ff * 2 ^ 7))) (u32 (bit_and b 0xff * 2 ^ 16)))
      (u32 (c * 2 ^ 24))

unfoldable pub make_asbc : ℕ → ℤ → ℕ → ℕ → ℕ
unfolding pattern32
make_asbc op a b c =
    bit_or
      (bit_or (bit_or op (u32 (bit_and (pattern32 a) 0x1ff * 2 ^ 7)))
        (u32 (bit_and b 0xff * 2 ^ 16)))
      (u32 (c * 2 ^ 24))

unfoldable pub make_abscs : ℕ → ℕ → ℤ → ℤ → ℕ
unfolding pattern32
make_abscs op a b c =
    bit_or
      (bit_or (bit_or op (u32 (bit_and a 0x1ff * 2 ^ 7)))
        (u32 (bit_and (pattern32 b) 0xff * 2 ^ 16)))
      (u32 (pattern32 c * 2 ^ 24))

unfoldable pub extract_opcode : ℕ → ℕ
extract_opcode i = bit_and i 0x7f

unfoldable pub extract_aw : ℕ → ℕ
extract_aw i = i / 2 ^ 7

unfoldable pub extract_asw : ℕ → ℤ
unfolding signed32 sar
extract_asw i = sar (signed32 i) 7

unfoldable pub extract_abw : ℕ → ℕ × ℕ
extract_abw i = (bit_and (i / 2 ^ 7) 0x1ff, i / 2 ^ 16)

-- `>>` binds tighter than `&`, so the sign of the field is masked off.
unfoldable pub extract_asbw : ℕ → ℤ × ℕ
unfolding signed32 sar pattern32
extract_asbw i = (pos (bit_and (pattern32 (sar (signed32 i) 7)) 0x1ff), i / 2 ^ 16)

unfoldable pub extract_absw : ℕ → ℕ × ℤ
unfolding signed32 sar
extract_absw i = (bit_and (i / 2 ^ 7) 0x1ff, sar (signed32 i) 16)

unfoldable pub extract_abc : ℕ → ℕ × ℕ × ℕ
extract_abc i = (bit_and (i / 2 ^ 7) 0x1ff, bit_and (i / 2 ^ 16) 0xff, i / 2 ^ 24)

unfoldable pub extract_asbc : ℕ → ℤ × ℕ × ℕ
unfolding signed32 sar
extract_asbc i = (sar (signed32 (u32 (i * 2 ^ 16))) 23, bit_and (i / 2 ^ 16) 0xff, i / 2 ^ 24)

unfoldable pub extract_abscs : ℕ → ℕ × ℤ × ℤ
unfolding signed32 sar
extract_abscs i =
    (bit_and (i / 2 ^ 7) 0x1ff, sar (signed32 (u32 (i * 2 ^ 8))) 24, sar (signed32 i) 24)
