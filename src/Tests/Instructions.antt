-- ===== src/Tests/Instructions.antt =====
-- Operands at the ends of their ranges, powers, hash codes and indices.
use zis_lang.Common.{◌+◌, ◌-◌, ◌%◌, ◌^◌, ◌≤◌, ◌<◌, ◌≡◌, ◌↔◌, refl, some, arith}
use zis_lang.Common.Int.{pos, negsuc}
use zis_lang.Smallint.{in_range}
use zis_lang.Instr.{pattern32, make_asbw, extract_opcode, extract_asbw}
use zis_lang.Instr.RoundTrip.{asbw-sign_lost}
use zis_lang.Instr.Formats.{in_asbc, encode, decode_as, Fits, encode-round_trip}
use zis_lang.Algorithm.{math_pow_u32}
use zis_lang.Algorithm.Power.{fit, math_pow_u32-fit}
use zis_lang.Index.{Range, index_convert, index_range_convert}
use zis_lang.Index.Laws.{
  LeadsTo, index_convert-LeadsTo, index_range_convert-inside, index_range_convert-whole,
}

encode-round_trip_example :
    (extract_opcode (encode 3 (in_asbc (negsuc 255, 255, 1))) ≡ 3)
    × (decode_as (in_asbc (negsuc 255, 255, 1)) (encode 3 (in_asbc (negsuc 255, 255, 1)))
        ≡ in_asbc (negsuc 255, 255, 1))
unfolding Fits
encode-round_trip_example =
    encode-round_trip 3 (in_asbc (negsuc 255, 255, 1)) (omega arith)
      (omega arith, omega arith, omega arith)

asbw-sign_lost_example :
    extract_asbw (make_asbw 3 (negsuc 0) 7) ≡ (pos (pattern32 (negsuc 0) % 512), 7)
asbw-sign_lost_example = asbw-sign_lost 3 (negsuc 0) 7 (omega arith) (omega arith) (omega arith)

math_pow_u32-fit_example : math_pow_u32 3 20 ≡ some (fit (3 ^ 20))
math_pow_u32-fit_example = math_pow_u32-fit 3 20 (omega arith)

index_convert-LeadsTo_example : (index_convert 5 (negsuc 1) ≡ some 3) ↔ LeadsTo 5 (negsuc 1) 3
index_convert-LeadsTo_example =
    index_convert-LeadsTo 5 (negsuc 1) 3 (omega arith) (unfold in_range in refl)

abbrev middle : Range
middle = record { begin = pos 2; end = negsuc 1 }

whole_range : index_range_convert 5 middle ≡ some (record { offset = 1; count = 3 - 1 + 1 })
whole_range =
    index_range_convert-whole 5 middle 1 3 (omega arith) (unfold in_range in refl)
      (unfold in_range in refl) (omega arith, omega arith) (omega arith, omega arith) (omega arith)

index_range_convert-inside_example :
    LeadsTo 5 (pos 2) 1 × (1 + 3 ≤ 5) × (0 < 3 → LeadsTo 5 (negsuc 1) (1 + 3 - 1))
index_range_convert-inside_example =
    index_range_convert-inside 5 middle (record { offset = 1; count = 3 }) (omega arith)
      (unfold in_range in refl) (unfold in_range in refl) whole_range
