-- ===== src/Lexer/Escape.antt =====
-- src/core/lexer.c, _lit_str_esc_trans: the characters that escape sequences in strings stand for.
-- The characters are those from behind the backslash on, also behind the end of the string, of which
-- n stand before its end. The result is a code with the number of characters that it takes.
use zis_lang.Common.{
  ℕ, ◌+◌, ◌-◌, ◌*◌, ◌≤◌, ◌<◌, ◌≡◌, refl, ap, ◌∙◌, Bool, true, false, Bool-cases, inl, inr, ◌||◌,
  ◌&&◌, not, Option, none, some, List, [], ◌∷◌, ◌++◌, length, get_or, ltb, leb, ◌==◌, le→leb,
  if◌then◌else◌, arith,
}

abbrev is_xdigit : ℕ → Bool
is_xdigit c = leb 48 c && leb c 57 || (leb 65 c && leb c 70 || leb 97 c && leb c 102)

unfoldable pub digit_value : ℕ → ℕ
digit_value c =
    if leb 48 c && leb c 57 then c - 48 else (if leb 65 c && leb c 90 then c + 32 else c) - 97 + 10

-- case 'x', where s begins behind the x
unfoldable pub esc_byte : List ℕ → ℕ → Option (ℕ × ℕ)
unfolding digit_value
esc_byte s n =
    let c1 = get_or s 0 0 in
    let c2 = get_or s 1 0 in
    let x = (c1 - 48) * 16 + digit_value c2 in
    if leb 3 n && (leb 48 c1 && leb c1 57 && is_xdigit c2) && ltb x 0x80 then some (x, 3) else none

-- the loop of case 'u', with s the characters from index i on
unfoldable pub esc_code_loop : List ℕ → ℕ → ℕ → ℕ → Option (ℕ × ℕ)
unfolding digit_value
esc_code_loop [] i n result = none
esc_code_loop (c ∷ s) i n result =
    let next = result * 16 + digit_value c in
    let rest = esc_code_loop s (i + 1) n next in
    if c == 125
    then some (result, i + 1)
    else if leb n i || not (is_xdigit c)
    then none
    else if ltb 0x10fff next
    then none
    else rest

-- case 'u', where s begins behind the u
unfoldable pub esc_code : List ℕ → ℕ → Option (ℕ × ℕ)
unfolding esc_code_loop
esc_code [] n = none
esc_code (c ∷ s) n = if ltb n 4 || not (c == 123) then none else esc_code_loop s 2 n 0

unfoldable pub lit_str_esc_trans : List ℕ → ℕ → Option (ℕ × ℕ)
unfolding esc_byte esc_code
lit_str_esc_trans [] n = none
lit_str_esc_trans (c ∷ s) n =
    if n == 0
    then none
    else if c == 39 || c == 34 || c == 92
    then some (c, 1)
    else if c == 97
    then some (7, 1)
    else if c == 98
    then some (8, 1)
    else if c == 102
    then some (12, 1)
    else if c == 110
    then some (10, 1)
    else if c == 114
    then some (13, 1)
    else if c == 116
    then some (9, 1)
    else if c == 118
    then some (11, 1)
    else if c == 120
    then esc_byte s n
    else if c == 117
    then esc_code s n
    else none

-- a hexadecimal digit in the upper or the lower case, and the number that digits make behind another
-- number
unfoldable pub hex_char : ℕ × Bool → ℕ
hex_char (d, upper) = if ltb d 10 then 48 + d else if upper then 55 + d else 87 + d

abbrev pub hex_chars : List (ℕ × Bool) → List ℕ
hex_chars [] = []
hex_chars (d ∷ ds) = hex_char d ∷ hex_chars ds

unfoldable pub horner : ℕ → List (ℕ × Bool) → ℕ
horner r [] = r
horner r ((d, u) ∷ ds) = horner (r * 16 + d) ds

unfoldable pub AreDigits : List (ℕ × Bool) → Type 0
AreDigits [] = Unit {0}
AreDigits ((d, u) ∷ ds) = (d < 16) × AreDigits ds

horner-le : (r : ℕ) (ds : List (ℕ × Bool)) → r ≤ horner r ds
unfolding horner
horner-le r [] = omega arith
horner-le r ((d, u) ∷ ds) = omega (arith, horner-le (r * 16 + d) ds)

hex_char_lem :
    (d : ℕ) (u : Bool)
    → d < 16
    → ((hex_char (d, u) == 125) ≡ false)
      × (is_xdigit (hex_char (d, u)) ≡ true)
      × (digit_value (hex_char (d, u)) ≡ d)
unfolding hex_char digit_value
hex_char_lem d true h = (ground arith, ground arith, ground arith)
hex_char_lem d false h = (ground arith, ground arith, ground arith)

-- the code that digits and a closing brace make
unfoldable pub code_or_none : ℕ → ℕ → Option (ℕ × ℕ)
code_or_none v taken = if leb v 0x10fff then some (v, taken) else none

loop_digits :
    (ds : List (ℕ × Bool)) (rest : List ℕ) (i n r : ℕ)
    → AreDigits ds
    → i + length ds ≤ n
    → r ≤ 0x10fff
    → esc_code_loop (hex_chars ds ++ 125 ∷ rest) i n r
      ≡ code_or_none (horner r ds) (i + length ds + 1)
unfolding esc_code_loop AreDigits horner code_or_none
loop_digits [] rest i n r h l b = rw (le→leb r 0x10fff b) (ap (λ k. some (r, k)) (omega arith))
loop_digits ((d, u) ∷ ds) rest i n r (h, hs) l b =
    let (x, y, z) = hex_char_lem d u h in
    let inside : leb n i ≡ false = ground arith in
    let next = r * 16 + d in
    rw (x, y, z, inside)
      (elim (Bool-cases (ltb 0x10fff next)) [
        | inl w ↦
            let large : leb (horner next ds) 0x10fff ≡ false =
              ground (arith, w, horner-le next ds) in
            rw (w, large) refl
        | inr w ↦ rw w (
            loop_digits ds rest (i + 1) n next hs (omega arith) (ground (arith, w))
            ∙ ap (λ k. code_or_none (horner next ds) k) (omega arith))
      ])

-- The escape sequence of a code in hexadecimal digits, in the upper or the lower case, which ends inside the string, stands for
-- the code if that is at most 0x10fff, and for nothing otherwise.
pub lit_str_esc_trans-horner :
    (d : ℕ × Bool) (ds : List (ℕ × Bool)) (rest : List ℕ) (n : ℕ)
    → AreDigits (d ∷ ds)
    → length ds + 4 ≤ n
    → lit_str_esc_trans (117 ∷ 123 ∷ hex_chars (d ∷ ds) ++ 125 ∷ rest) n
      ≡ code_or_none (horner 0 (d ∷ ds)) (length ds + 4)
unfolding lit_str_esc_trans esc_code
lit_str_esc_trans-horner d ds rest n h l =
    let some_left : (n == 0) ≡ false = ground arith in
    let enough : ltb n 4 ≡ false = ground arith in
    rw (some_left, enough)
      (loop_digits (d ∷ ds) rest 2 n 0 h (omega arith) (omega arith)
        ∙ ap (λ k. code_or_none (horner 0 (d ∷ ds)) k) (omega arith))
