-- ===== src/Instr/Formats.antt =====
-- src/core/instr.h: the formats of operands together, by the type of an opcode.
use zis_lang.Common.{ℕ, ◌^◌, ◌<◌, ◌≡◌, ap}
use zis_lang.Common.Int.{ℤ}
use zis_lang.Instr.{
  make_aw, make_asw, make_abw, make_absw, make_abc, make_asbc, make_abscs, extract_opcode,
  extract_aw, extract_asw, extract_abw, extract_absw, extract_abc, extract_asbc, extract_abscs,
}
use zis_lang.Instr.RoundTrip.{
  IsSigned, aw-round_trip, asw-round_trip, abw-round_trip, absw-round_trip, abc-round_trip,
  asbc-round_trip, abscs-round_trip,
}

-- operands in each format but AsBw, which does not give its sign back
pub data Operands : Type 0 where
  in_aw : ℕ → Operands
  in_asw : ℤ → Operands
  in_abw : ℕ × ℕ → Operands
  in_absw : ℕ × ℤ → Operands
  in_abc : ℕ × ℕ × ℕ → Operands
  in_asbc : ℤ × ℕ × ℕ → Operands
  in_abscs : ℕ × ℤ × ℤ → Operands

-- zis_instr_make_…
unfoldable pub encode : ℕ → Operands → ℕ
encode op (in_aw a) = make_aw op a
encode op (in_asw a) = make_asw op a
encode op (in_abw (a, b)) = make_abw op a b
encode op (in_absw (a, b)) = make_absw op a b
encode op (in_abc (a, b, c)) = make_abc op a b c
encode op (in_asbc (a, b, c)) = make_asbc op a b c
encode op (in_abscs (a, b, c)) = make_abscs op a b c

-- zis_instr_extract_operands_…, in the format of other operands
unfoldable pub decode_as : Operands → ℕ → Operands
decode_as (in_aw _) w = in_aw (extract_aw w)
decode_as (in_asw _) w = in_asw (extract_asw w)
decode_as (in_abw _) w = in_abw (extract_abw w)
decode_as (in_absw _) w = in_absw (extract_absw w)
decode_as (in_abc _) w = in_abc (extract_abc w)
decode_as (in_asbc _) w = in_asbc (extract_asbc w)
decode_as (in_abscs _) w = in_abscs (extract_abscs w)

-- operands that fit their fields
unfoldable pub Fits : Operands → Type 0
Fits (in_aw a) = a < 2 ^ 25
Fits (in_asw a) = IsSigned (2 ^ 24) a
Fits (in_abw (a, b)) = (a < 512) × (b < 65536)
Fits (in_absw (a, b)) = (a < 512) × IsSigned (2 ^ 15) b
Fits (in_abc (a, b, c)) = (a < 512) × (b < 256) × (c < 256)
Fits (in_asbc (a, b, c)) = IsSigned 256 a × (b < 256) × (c < 256)
Fits (in_abscs (a, b, c)) = (a < 512) × IsSigned 128 b × IsSigned 128 c

-- In every format but AsBw, an opcode of 7 bits and operands that fit their fields come back from
-- the instruction word.
pub encode-round_trip :
    (op : ℕ) (x : Operands)
    → op < 128
    → Fits x
    → (extract_opcode (encode op x) ≡ op) × (decode_as x (encode op x) ≡ x)
unfolding encode decode_as Fits
encode-round_trip op (in_aw a) o h = let (p, q) = aw-round_trip op a o h in (p, ap in_aw q)
encode-round_trip op (in_asw a) o h = let (p, q) = asw-round_trip op a o h in (p, ap in_asw q)
encode-round_trip op (in_abw (a, b)) o (x, y) =
    let (p, q) = abw-round_trip op a b o x y in (p, ap in_abw q)
encode-round_trip op (in_absw (a, b)) o (x, y) =
    let (p, q) = absw-round_trip op a b o x y in (p, ap in_absw q)
encode-round_trip op (in_abc (a, b, c)) o (x, y, z) =
    let (p, q) = abc-round_trip op a b c o x y z in (p, ap in_abc q)
encode-round_trip op (in_asbc (a, b, c)) o (x, y, z) =
    let (p, q) = asbc-round_trip op a b c o x y z in (p, ap in_asbc q)
encode-round_trip op (in_abscs (a, b, c)) o (x, y, z) =
    let (p, q) = abscs-round_trip op a b c o x y z in (p, ap in_abscs q)
