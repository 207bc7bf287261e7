-- ===== src/Algorithm/Hash.antt =====
-- A truncated hash code is a small integer.
use zis_lang.Common.{ℕ, ◌%◌, ◌^◌, ◌<◌, ◌≡◌, true, arith}
use zis_lang.Smallint
use zis_lang.Smallint.{in_range, of_word}
use zis_lang.Algorithm.{hash_truncate}

-- For a hash code of 64 bits, what zis_hash_truncate gives is a small integer, so that its asserts
-- hold, with the same low 63 bits; a hash code that is a small integer stays.
hash_truncate-in_range :
    (h : ℕ)
    → h < 2 ^ 64
    → (in_range (of_word (hash_truncate h)) ≡ true)
      × (hash_truncate h % 2 ^ 63 ≡ h % 2 ^ 63)
      × (in_range (of_word h) ≡ true → hash_truncate h ≡ h)
unfolding hash_truncate in_range Smallint.of_word Smallint.to_word Smallint.shr_one
hash_truncate-in_range h lt = ground arith
