-- ===== src/Index.antt =====
-- src/core/object.c and src/core/object.h: indices from 1 on, or from -1 downwards, as offsets.
-- A size_t is a number below 2 ^ 64, and (size_t)-1 is `none`.
pub mod Laws
use zis_lang.Common.{
  ℕ, suc, ◌+◌, ◌-◌, ◌%◌, ◌^◌, Bool, ◌&&◌, ◌||◌, Option, none, some, ltb, leb, ◌==◌, if◌then◌else◌,
}
use zis_lang.Common.Int.{ℤ, pos, negsuc, ◌+ℤ◌, pos_part}
use zis_lang.Smallint.{to_word, of_word}

-- _zis_object_index_convert_slow; the length is added as a zis_smallint_t.
pub index_convert_slow : ℕ → ℤ → Option ℕ
index_convert_slow length (pos n) = none
index_convert_slow length (negsuc n) =
    let index = to_word (negsuc n +ℤ of_word length) in
    if leb length index then none else some index

-- zis_object_index_convert
pub index_convert : ℕ → ℤ → Option ℕ
unfolding index_convert_slow
index_convert length (pos n) =
    if ltb 0 n && leb n length then some (n - 1) else index_convert_slow length (pos n)
index_convert length (negsuc n) = index_convert_slow length (negsuc n)

-- struct zis_range_obj
pub record Range : Type 0 where
  pub begin : ℤ
  pub end : ℤ

-- the offset and the count that zis_object_index_range_convert writes
pub record Span : Type 0 where
  pub offset : ℕ
  pub count : ℕ

abbrev or_max : Option ℕ → ℕ
or_max none = 2 ^ 64 - 1
or_max (some i) = i

-- zis_object_index_range_convert once `begin` is in range
pub range_from : ℕ → ℕ → ℤ → Option Span
range_from length begin range_end =
    let end = index_convert length range_end in
    let empty : Option Span = some (record { offset = begin; count = 0 }) in
    let before = (begin + 2 ^ 64 - 1) % 2 ^ 64 in
    elim end [
      | none ↦ if or_max (index_convert (2 ^ 64 - 1) range_end) == before then empty else none
      | some e ↦
          if ltb e begin
          then if e == before then empty else none
          else some (record { offset = begin; count = e - begin + 1 })
    ]

-- zis_object_index_range_convert
pub index_range_convert : ℕ → Range → Option Span
index_range_convert length range = elim (index_convert length range.begin) [
  | none ↦ none
  | some begin ↦ range_from length begin range.end
]
