-- ===== src/Utf8/Text.antt =====
-- src/core/strutil.c: lengths of characters and of strings, and searches in them.
-- A number of bytes and a pointer are together the list of those bytes.
use Prim.Native.Nat.{bit_and}
use zis_lang.Common.{
  ℕ, zero, suc, ◌+◌, ◌-◌, ◌&&◌, not, Option, none, some, List, [], ◌∷◌, length, drop, get_or, ltb,
  leb, ◌==◌, if◌then◌else◌,
}
use zis_lang.Common.Int.{ℤ, pos, negsuc}
use zis_lang.Utf8.{len_1}

-- What a call of zis_u8char_len_s comes to: an assertion that fails, or a length.
pub data Asserted : Type 0 where
  assert_fails : Asserted
  returns : ℕ → Asserted

unfoldable pub len_s : List ℕ → Asserted
len_s [] = returns 0
len_s (c ∷ s) =
    let fits : ℕ → Asserted = λ n. returns (if leb (length (c ∷ s)) n then n else 0) in
    if bit_and c 0x80 == 0
    then assert_fails
    else if bit_and c 0x80 == 0
    then returns 1
    else if bit_and c 0xe0 == 0xc0
    then fits 2
    else if bit_and c 0xf0 == 0xe0
    then fits 3
    else if bit_and c 0xf8 == 0xf0
    then fits 4
    else returns 0

unfoldable pub len_checked : List ℕ → ℤ
len_checked [] = negsuc 0
len_checked (c1 ∷ s) = if bit_and c1 0x80 == 0 then pos 1 else elim s [
  | [] ↦ negsuc 0
  | c2 ∷ s2 ↦
      if not (bit_and c2 0xc0 == 0x80)
      then negsuc 1
      else if bit_and c1 0xe0 == 0xc0
      then pos 2
      else elim s2 [
        | [] ↦ negsuc 0
        | c3 ∷ s3 ↦
            if not (bit_and c3 0xc0 == 0x80)
            then negsuc 2
            else if bit_and c1 0xf0 == 0xe0
            then pos 3
            else elim s3 [
              | [] ↦ negsuc 0
              | c4 ∷ s4 ↦
                  if not (bit_and c4 0xc0 == 0x80)
                  then negsuc 3
                  else if bit_and c1 0xf8 == 0xf0
                  then pos 4
                  else negsuc 0
            ]
      ]
]

-- the loop of zis_u8str_len over n_bytes bytes, on fuel; none is the error
unfoldable pub str_len_loop : ℕ → List ℕ → ℕ → Option ℕ
str_len_loop fuel [] len = some len
str_len_loop zero (c ∷ s) len = none
str_len_loop (suc fuel) (c ∷ s) len =
    let n = len_1 c in
    let rest = str_len_loop fuel (drop n (c ∷ s)) (len + 1) in
    if n == 0 then none else if ltb (length (c ∷ s)) n then none else rest

-- zis_u8str_len with a number of bytes: one turn of the loop for each is enough
unfoldable pub str_len : List ℕ → Option ℕ
unfolding str_len_loop
str_len s = str_len_loop (length s) s 0

-- the loop of zis_u8str_len up to a NUL; none also where it leaves the bytes that are given
unfoldable pub str_len_nul_loop : ℕ → List ℕ → ℕ → Option ℕ
str_len_nul_loop fuel [] len = none
str_len_nul_loop zero (c ∷ s) len = none
str_len_nul_loop (suc fuel) (c ∷ s) len =
    let n = len_1 c in
    let rest = str_len_nul_loop fuel (drop n (c ∷ s)) (len + 1) in
    if c == 0 then some len else if n == 0 then none else rest

-- zis_u8str_len with n_bytes = -1
unfoldable pub str_len_nul : List ℕ → Option ℕ
unfolding str_len_nul_loop
str_len_nul s = str_len_nul_loop (length s) s 0

-- the loop of zis_u8str_len_checked: off bytes are behind it
unfoldable pub str_len_checked_loop : ℕ → List ℕ → ℕ → ℕ → ℤ
str_len_checked_loop fuel [] off len = pos len
str_len_checked_loop zero (c ∷ s) off len = negsuc off
str_len_checked_loop (suc fuel) (c ∷ s) off len =
    let next : ℕ → ℤ = λ n. str_len_checked_loop fuel (drop n (c ∷ s)) (off + n) (len + 1) in
    elim (len_checked (c ∷ s)) [
      | pos zero ↦ (if off == 0 then pos 0 else negsuc (off - 1))
      | pos (suc n) ↦ next (suc n)
      | negsuc k ↦ negsuc (off + k)
    ]

unfoldable pub str_len_checked : List ℕ → ℤ
unfolding str_len_checked_loop
str_len_checked s = str_len_checked_loop (length s) s 0 0

-- zis_u8str_find_pos: the string from there on; n_chars out of range is undefined, here none
unfoldable pub find_pos : ℕ → List ℕ → Option (List ℕ)
find_pos zero s = some s
find_pos (suc n) [] = none
find_pos (suc n) (c ∷ s) =
    let rest = find_pos n (drop (len_1 c) (c ∷ s)) in if len_1 c == 0 then none else rest

-- the end of a whole character at p, in a buffer s
unfoldable pub end_at : List ℕ → ℕ → ℕ → Option ℕ
end_at s end p =
    let c = get_or s p 0 in
    let n = len_1 c in
    if not (bit_and c 0xc0 == 0x80) && (not (n == 0) && leb (p + n) end) then some (p + n) else none

-- the loop of zis_u8str_find_end, from p down
unfoldable pub find_end_loop : List ℕ → ℕ → ℕ → Option ℕ
find_end_loop s end zero = end_at s end zero
find_end_loop s end (suc p) = elim (end_at s end (suc p)) [
  | some e ↦ some e
  | none ↦ find_end_loop s end p
]

-- zis_u8str_find_end: the end of the last character that is whole, as an offset
unfoldable pub find_end : List ℕ → ℕ → Option ℕ
unfolding find_end_loop
find_end s max_bytes = find_end_loop s max_bytes max_bytes
