-- ===== src/Tests/Texts.antt =====
-- Texts of characters of one to four bytes.
use zis_lang.Common.{◌≡◌, refl, arith, ◌++◌, [], ◌∷◌, some}
use zis_lang.Common.Int.{pos}
use zis_lang.Utf8.{from_code, len_from_code, to_code}
use zis_lang.Utf8.RoundTrip.{to_code-from_code}
use zis_lang.Utf8.Text.{len_checked, str_len, str_len_checked, find_pos}
use zis_lang.Utf8.Count.{encode, IsText, str_len_checked-encode, str_len_checked-str_len}
use zis_lang.Utf8.Find.{find_pos-encode}

to_code-from_code_example :
    to_code (from_code 0x20ac ++ 0x41 ∷ []) ≡ some (0x20ac, len_from_code 0x20ac)
to_code-from_code_example = to_code-from_code 0x20ac (omega arith) (0x41 ∷ [])

str_len_checked-encode_example :
    str_len_checked (encode (0x41 ∷ 0xe9 ∷ 0x20ac ∷ 0x1f600 ∷ [])) ≡ pos 4
unfolding IsText
str_len_checked-encode_example =
    str_len_checked-encode (0x41 ∷ 0xe9 ∷ 0x20ac ∷ 0x1f600 ∷ [])
      (omega arith, (omega arith, (omega arith, (omega arith, tt))))

accents : str_len_checked (0xc3 ∷ 0xa9 ∷ 0x41 ∷ []) ≡ pos 2
unfolding str_len_checked len_checked
accents = refl

str_len_checked-str_len_example : str_len (0xc3 ∷ 0xa9 ∷ 0x41 ∷ []) ≡ some 2
str_len_checked-str_len_example = str_len_checked-str_len (0xc3 ∷ 0xa9 ∷ 0x41 ∷ []) 2 accents

find_pos-encode_example :
    find_pos 2 (encode (0xe9 ∷ 0x41 ∷ []) ++ encode (0x20ac ∷ [])) ≡ some (encode (0x20ac ∷ []))
unfolding IsText
find_pos-encode_example =
    find_pos-encode (0xe9 ∷ 0x41 ∷ []) (0x20ac ∷ []) (omega arith, (omega arith, tt))
