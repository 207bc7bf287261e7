-- ===== src/Utf8.antt =====
-- src/core/strutil.c and strutil.h: characters and strings in UTF-8.
-- A byte is a number below 256; a pointer into a buffer is the list of the bytes from there on, and
-- a size_t is a natural number. A function that returns 0 or NULL for an error returns none.
pub mod Count
pub mod Find
pub mod Ranges
pub mod RoundTrip
pub mod Text
use Prim.Native.Nat.{bit_and, bit_or}
use zis_lang.Common.{
  ℕ, ◌-◌, ◌+◌, ◌*◌, ◌/◌, ◌%◌, ◌^◌, Bool, ◌&&◌, ◌||◌, not, Option, none, some, List, [], ◌∷◌, length,
  ltb, leb, ◌==◌, if◌then◌else◌, get_or, drop,
}
use zis_lang.Common.Int.{ℤ, pos, negsuc}

-- a cast to zis_char8_t
abbrev pub byte : ℕ → ℕ
byte n = n % 256

-- the bytes that zis_u8char_from_code writes, as many as it returns
unfoldable pub from_code : ℕ → List ℕ
from_code code =
    if ltb code 0x80
    then byte code ∷ []
    else if leb code 0x7ff
    then bit_or 0xc0 (byte (code / 2 ^ 6)) ∷ bit_or 0x80 (byte (bit_and code 0x3f)) ∷ []
    else if leb code 0xffff
    then bit_or 0xe0 (byte (code / 2 ^ 12))
      ∷ bit_or 0x80 (byte (bit_and (code / 2 ^ 6) 0x3f))
      ∷ bit_or 0x80 (byte (bit_and code 0x3f))
      ∷ []
    else if leb code 0x1fffff
    then bit_or 0xf0 (byte (code / 2 ^ 18))
      ∷ bit_or 0x80 (byte (bit_and (code / 2 ^ 12) 0x3f))
      ∷ bit_or 0x80 (byte (bit_and (code / 2 ^ 6) 0x3f))
      ∷ bit_or 0x80 (byte (bit_and code 0x3f))
      ∷ []
    else []

unfoldable pub len_from_code : ℕ → ℕ
len_from_code code =
    if ltb code 0x80
    then 1
    else if leb code 0x7ff
    then 2
    else if leb code 0xffff
    then 3
    else if leb code 0x1fffff
    then 4
    else 0

unfoldable pub len_1_mb : ℕ → ℕ
len_1_mb c =
    if bit_and c 0xe0 == 0xc0
    then 2
    else if bit_and c 0xf0 == 0xe0
    then 3
    else if bit_and c 0xf8 == 0xf0
    then 4
    else 0

unfoldable pub len_1 : ℕ → ℕ
unfolding len_1_mb
len_1 c = if bit_and c 0x80 == 0 then 1 else len_1_mb c

-- the switch of zis_u8char_to_code: the code and the length n
unfoldable pub code_of : ℕ → List ℕ → Option (ℕ × ℕ)
code_of n s =
    let c : ℕ → ℕ = λ i. get_or s i 0 in
    if n == 1
    then some (c 0, n)
    else if n == 2
    then some (bit_or (bit_and (c 0) 0x1f * 2 ^ 6) (bit_and (c 1) 0x3f), n)
    else if n == 3
    then some (
      bit_or (bit_or (bit_and (c 0) 0x0f * 2 ^ 12) (bit_and (c 1) 0x3f * 2 ^ 6))
          (bit_and (c 2) 0x3f),
      n,
    )
    else if n == 4
    then some (
      bit_or
          (bit_or (bit_or (bit_and (c 0) 0x07 * 2 ^ 18) (bit_and (c 1) 0x3f * 2 ^ 12))
            (bit_and (c 2) 0x3f * 2 ^ 6))
          (bit_and (c 3) 0x3f),
      n,
    )
    else none

-- zis_u8char_to_code; of no bytes it returns 0 whatever the byte behind the end is
unfoldable pub to_code : List ℕ → Option (ℕ × ℕ)
unfolding len_1 code_of
to_code [] = none
to_code (c ∷ s) = if ltb (length (c ∷ s)) (len_1 c) then none else code_of (len_1 c) (c ∷ s)

-- zis_char_digit_1 of an ASCII character; none is (unsigned int)-1
unfoldable pub char_digit_1 : ℕ → Option ℕ
char_digit_1 c =
    if leb 48 c && leb c 57
    then some (c - 48)
    else if leb 65 c && leb c 90
    then some (c + 32 - 97 + 10)
    else if leb 97 c && leb c 122
    then some (c - 97 + 10)
    else none

unfoldable pub char_digit : ℕ → Option ℕ
unfolding char_digit_1
char_digit c = if ltb c 0x80 then char_digit_1 c else none
