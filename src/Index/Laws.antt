-- ===== src/Index/Laws.antt =====
-- Which indices are in range, and where they lead.
use zis_lang.Common.{
  ℕ, ◌+◌, ◌-◌, ◌≤◌, ◌<◌, ◌≡◌, ◌⊎◌, ◌↔◌, refl, true, Option, none, some, arith, ◌^◌, ◌%◌, ltb, ◌==◌,
  if◌then◌else◌, sym,
}
use zis_lang.Common.Int.{ℤ, pos, negsuc, ◌+ℤ◌}
use mathlib.Core.Path.{subst}
use zis_lang.Smallint.{in_range}
use zis_lang.Smallint
use zis_lang.Index.{index_convert, or_max, range_from, index_range_convert, Range, Span}

-- An index i from 1 on leads to i - 1, and -i to length - i, where that is an offset.
abbrev pub LeadsTo : ℕ → ℤ → ℕ → Type 0
LeadsTo length (pos n) offset = (n ≡ offset + 1) × (offset < length)
LeadsTo length (negsuc n) offset = (offset + n + 1 ≡ length) × (offset < length)

-- For a length below 2 ^ 62 and an index that is a small integer, the conversion gives an offset
-- exactly if the index leads to it: from 1 upwards from the start, from -1 downwards from the end,
-- and inside the length. So it fails on all other indices, 0 among them.
pub index_convert-LeadsTo :
    (length : ℕ) (index : ℤ) (offset : ℕ)
    → length < 2 ^ 62
    → in_range index ≡ true
    → (index_convert length index ≡ some offset) ↔ LeadsTo length index offset
unfolding index_convert in_range Smallint.to_word Smallint.of_word ◌+ℤ◌
index_convert-LeadsTo length (pos n) offset hl hi = ground arith
index_convert-LeadsTo length (negsuc n) offset hl hi = ground arith

range_from-inside :
    (length begin : ℕ) (end : ℤ) (s : Span)
    → length < 2 ^ 62
    → in_range end ≡ true
    → begin < length
    → range_from length begin end ≡ some s
    → (s.offset ≡ begin)
      × (s.offset + s.count ≤ length)
      × (0 < s.count → LeadsTo length end (s.offset + s.count - 1))
unfolding range_from
range_from-inside length begin end s hl he hb h =
    by_end (index_convert length end) (λ e. (index_convert-LeadsTo length end e hl he).0) h
  where
    by_end :
        (o : Option ℕ)
        → ((e : ℕ) → o ≡ some e → LeadsTo length end e)
        → (elim o [
          | none ↦
              if or_max (index_convert (2 ^ 64 - 1) end) == (begin + 2 ^ 64 - 1) % 2 ^ 64
              then some (record { offset = begin; count = 0 })
              else none
          | some e ↦
              if ltb e begin
              then (if e == (begin + 2 ^ 64 - 1) % 2 ^ 64
                  then some (record { offset = begin; count = 0 })
                  else none)
              else some (record { offset = begin; count = e - begin + 1 })
        ])
          ≡ some s
        → (s.offset ≡ begin)
          × (s.offset + s.count ≤ length)
          × (0 < s.count → LeadsTo length end (s.offset + s.count - 1))
    by_end none leads h = ground arith
    by_end (some e) leads h = last end (leads e refl) (ground arith)
      where
        last :
            (i : ℤ)
            → LeadsTo length i e
            → ((s.offset ≡ begin) × (s.count ≡ 0))
              ⊎ ((begin ≤ e) × (s.offset ≡ begin) × (s.count ≡ e - begin + 1))
            → (s.offset ≡ begin)
              × (s.offset + s.count ≤ length)
              × (0 < s.count → LeadsTo length i (s.offset + s.count - 1))
        last (pos n) l c = omega arith
        last (negsuc n) l c = omega arith

-- For a length below 2 ^ 62 and ends that are small integers, a range that converts starts where
-- its first index leads and stays inside the length, and if it is not empty ends where its last
-- index leads.
pub index_range_convert-inside :
    (length : ℕ) (range : Range) (s : Span)
    → length < 2 ^ 62
    → in_range range.begin ≡ true
    → in_range range.end ≡ true
    → index_range_convert length range ≡ some s
    → LeadsTo length range.begin s.offset
      × (s.offset + s.count ≤ length)
      × (0 < s.count → LeadsTo length range.end (s.offset + s.count - 1))
unfolding index_range_convert
index_range_convert-inside length range s hl hb he h =
    by_begin (index_convert length range.begin)
      (λ b. (index_convert-LeadsTo length range.begin b hl hb).0) h
  where
    below : (i : ℤ) (b : ℕ) → LeadsTo length i b → b < length
    below (pos n) b l = l.1
    below (negsuc n) b l = l.1

    by_begin :
        (o : Option ℕ)
        → ((b : ℕ) → o ≡ some b → LeadsTo length range.begin b)
        → (elim o [ none ↦ none | some b ↦ range_from length b range.end ]) ≡ some s
        → LeadsTo length range.begin s.offset
          × (s.offset + s.count ≤ length)
          × (0 < s.count → LeadsTo length range.end (s.offset + s.count - 1))
    by_begin none leads h = cc
    by_begin (some b) leads h =
        let l = leads b refl in
        let r = range_from-inside length b range.end s hl he (below range.begin b l) h in
        (subst (LeadsTo length range.begin) (sym r.0) l, r.1, r.2)

-- For a length below 2 ^ 62 and ends that are small integers, a range whose indices lead to two
-- offsets in order converts to all offsets from the first to the last.
pub index_range_convert-whole :
    (length : ℕ) (range : Range) (b e : ℕ)
    → length < 2 ^ 62
    → in_range range.begin ≡ true
    → in_range range.end ≡ true
    → LeadsTo length range.begin b
    → LeadsTo length range.end e
    → b ≤ e
    → index_range_convert length range ≡ some (record { offset = b; count = e - b + 1 })
unfolding index_range_convert range_from
index_range_convert-whole length range b e hl hb he lb le h =
    let p = (index_convert-LeadsTo length range.begin b hl hb).1 lb in
    let q = (index_convert-LeadsTo length range.end e hl he).1 le in ground arith
