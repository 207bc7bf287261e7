-- ===== src/Lexer/Total.antt =====
-- src/core/lexer.c: scan_next comes to an end.
use zis_lang.Common.{ℕ, ◌≤◌, ◌≢◌, Bool, true, false, Option, length}
use zis_lang.Token.{TokenType}
use zis_lang.Lexer.{Lexer, Step, again, done, fails, fault, Scanners}
use zis_lang.Lexer.Scan.{ends}

-- a turn that jumps back leaves at most n characters
unfoldable pub Shrinks : ℕ → Step → Type 0
Shrinks n (again m) = length m.input ≤ n
Shrinks n (done tok m) = Unit {0}
Shrinks n (fails e) = Unit {0}
Shrinks n fault = Unit {0}

-- The scanners of numbers, strings and identifiers do not jump back.
pub record NeverAgain (scanners : Scanners) : Type 0 where
  pub number : (start l m : Lexer) → scanners.scan_number start l ≢ again m
  pub string : (c : ℕ) (b : Bool) (start l m : Lexer) → scanners.scan_string c b start l ≢ again m
  pub identifier_ : (start l m : Lexer) → scanners.scan_identifier start l ≢ again m

ends-Shrinks : (n : ℕ) (start l : Lexer) (t : TokenType) → Shrinks n (ends start t l)
unfolding Shrinks ends
ends-Shrinks n start l t = tt

unfoldable is_again : Step → Bool
is_again (again m) = true
is_again (done tok m) = false
is_again (fails e) = false
is_again fault = false
