-- ===== src/Utf8/Find.antt =====
-- src/core/strutil.c: positions of characters in strings.
use mathlib.Core.List.{append_assoc}
use zis_lang.Common.{
  ℕ, zero, suc, ◌≤◌, ◌≡◌, refl, ap, ◌∙◌, some, List, [], ◌∷◌, ◌++◌, length, arith, inl, inr,
  Option-cases,
}
use zis_lang.Utf8.{from_code, len_1}
use zis_lang.Utf8.Text.{find_pos, find_end, find_end_loop, end_at}
use zis_lang.Utf8.RoundTrip.{from_code-Encoded, first}
use zis_lang.Utf8.Count.{encode, IsText, drop-append}

find_pos_step :
    (n c : ℕ) (t s rest : List ℕ)
    → s ≡ c ∷ t
    → len_1 c ≡ length s
    → find_pos (suc n) (s ++ rest) ≡ find_pos n rest
unfolding find_pos
find_pos_step n c t s rest e l =
    let w : len_1 c ≡ suc (length t) = l ∙ ap length e in
    rw (e, w) (ground (arith, ap (find_pos n) (drop-append t rest)))

-- In a text, the position of its n-th character is where the encodings of the codes behind it begin.
pub find_pos-encode :
    (before after : List ℕ)
    → IsText before
    → find_pos (length before) (encode before ++ encode after) ≡ some (encode after)
unfolding find_pos encode IsText
find_pos-encode [] after h = refl
find_pos-encode (code ∷ codes) after (h, hs) =
    let v = from_code-Encoded code h in
    let (c, t, e, l) = first v in
    rw (append_assoc (from_code code) (encode codes) (encode after)) (
      find_pos_step (length codes) c t (from_code code) (encode codes ++ encode after) e l
      ∙ find_pos-encode codes after hs)

end_at-le : (s : List ℕ) (end p e : ℕ) → end_at s end p ≡ some e → e ≤ end
unfolding end_at
end_at-le s end p e h = ground arith

find_end_loop-le : (s : List ℕ) (end p e : ℕ) → find_end_loop s end p ≡ some e → e ≤ end
unfolding find_end_loop
find_end_loop-le s end zero e h = end_at-le s end 0 e h
find_end_loop-le s end (suc p) e h = elim (Option-cases (end_at s end (suc p))) [
  | inl w ↦ find_end_loop-le s end p e (rw (find_end_loop, w) at h)
  | inr (u, w) ↦ end_at-le s end (suc p) e (w ∙ (rw (find_end_loop, w) at h))
]

-- What zis_u8str_find_end finds is inside the bytes it was given, whatever they are.
pub find_end-le : (s : List ℕ) (max_bytes e : ℕ) → find_end s max_bytes ≡ some e → e ≤ max_bytes
unfolding find_end
find_end-le s max_bytes e h = find_end_loop-le s max_bytes max_bytes e h
