-- ===== src/Lexer/Lines.antt =====
-- src/core/lexer.c, scan_next: blanks before a token, and two operators that go wrong.
use zis_lang.Common.{
  ℕ, ◌+◌, ◌<◌, ◌≡◌, ◌≢◌, refl, ap, sym, ◌∙◌, Bool, true, false, Bool-cases, inl, inr, ◌||◌, ◌&&◌,
  List, [], ◌∷◌, ◌++◌, length, lt→ltb, ◌==◌, arith,
}
use native.Mathlib.Nat.{zero-add, suc-add}
use mathlib.Core.Bool.{true≢false}
use zis_lang.Token.{op_xrange}
use zis_lang.Lexer.{Lexer, Step, Scanners, case_of}
use zis_lang.Lexer.Scan.{
  next_is, ignore_1, ends, ignore_ends, next_ignore_ends, next_char, scan_dot, scan_case, scan_step,
  scan_next,
}
use zis_lang.Lexer.Operators.{after, lexed}

unfoldable is_blank : ℕ → Bool
is_blank c = c == 9 || c == 11 || c == 12 || c == 32

unfoldable all_blank : List ℕ → Bool
unfolding is_blank
all_blank [] = true
all_blank (c ∷ s) = is_blank c && all_blank s

module _ (scanners : Scanners) where
  blank_step :
      (c : ℕ) (rest : List ℕ) (l : Lexer)
      → is_blank c ≡ true
      → scan_step scanners (record l { input = c ∷ rest })
        ≡ Step.again (next_char (record l { input = rest }))
  unfolding scan_step case_of scan_case is_blank
  blank_step c rest l h = rw (case_of, h) refl

  -- Blanks before a token are passed over, a column for each.
  scan_next-all_blank :
      (blanks rest : List ℕ) (fuel : ℕ) (l : Lexer)
      → all_blank blanks ≡ true
      → scan_next scanners (length blanks + fuel) (record l { input = blanks ++ rest })
        ≡ scan_next scanners fuel
            (record l { column = after (length blanks) l.column; input = rest })
  unfolding scan_next all_blank after next_char
  scan_next-all_blank [] rest fuel l h = rw (zero-add fuel) refl
  scan_next-all_blank (c ∷ s) rest fuel l h = elim (Bool-cases (is_blank c)) [
    | inl w ↦
        rw (suc-add (length s) fuel, scan_next, blank_step c (s ++ rest) l w)
          (scan_next-all_blank s rest fuel (next_char l)
            (rw (sym (ap (λ b. b && all_blank s) w)) h))
    | inr w ↦ absurd (true≢false (sym h ∙ ap (λ b. b && all_blank s) w))
  ]

  -- The operator ".." before an ASCII character that is not a third dot takes that character too:
  -- the scanner goes on behind it, with columns that count the two dots only.
  pub scan_step-op_xrange :
      (c : ℕ) (rest : List ℕ) (l : Lexer)
      → c < 0x80
      → c ≢ 46
      → scan_step scanners (record l { input = 46 ∷ 46 ∷ c ∷ rest }) ≡ lexed l op_xrange 1 rest
  unfolding scan_step case_of scan_case scan_dot next_is ignore_1 next_ignore_ends ignore_ends
      next_char ends lexed
  scan_step-op_xrange c rest l h k =
      let no_dot : (c == 46) ≡ false = ground arith in
      rw (no_dot, next_ignore_ends, ignore_ends, ignore_1, lt→ltb c 0x80 h) refl
