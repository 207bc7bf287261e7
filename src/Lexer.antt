-- ===== src/Lexer.antt =====
-- src/core/lexer.c: the scanner's dispatch on characters: blanks, lines, comments and operators.
-- The input stream is the list of the characters that are left; where it is empty, a peek gives -1.
-- Numbers, strings, identifiers and keywords are scanned by functions that a client hands over.
pub mod Total
pub mod Operators
pub mod Scan
pub mod Escape
pub mod Lines
use zis_lang.Common.{
  ℕ, zero, suc, ◌+◌, ◌-◌, Bool, true, false, ◌&&◌, ◌||◌, not, Option, none, some, List, [], ◌∷◌,
  length, ltb, leb, ◌==◌, if◌then◌else◌,
}
use zis_lang.Token.{
  TokenType, op_not, op_ne, op_add, op_sub, op_mul, op_div, op_rem, op_shl, op_shr, op_bit_and,
  op_bit_or, op_bit_xor, op_bit_not, op_pow, op_eql, op_eq, op_lt, op_le, op_gt, op_ge, op_cmp,
  op_and, op_period, op_add_eql, op_sub_eql, op_mul_eql, op_div_eql, op_rem_eql, op_bit_and_eql,
  op_bit_or_eql, op_bit_xor_eql, op_xrange, op_range, op_colon, tok_at, tok_question, tok_dollar,
  tok_l_arrow, tok_r_arrow, tok_comma, tok_l_paren, tok_r_paren, tok_l_bracket, tok_r_bracket,
  tok_l_brace, tok_r_brace, identifier, end_of_statement, end_of_file,
}

-- struct zis_lexer, without the objects
pub record Lexer : Type 0 where
  pub line : ℕ
  pub column : ℕ
  pub ignore_eol : ℕ
  pub input_eof : Bool
  pub input : List ℕ

-- struct zis_token, without its value
pub record Token : Type 0 where
  pub line0 : ℕ
  pub column0 : ℕ
  pub line1 : ℕ
  pub column1 : ℕ
  pub type_of : TokenType

-- the calls of the error handler, which do not return
pub data LexError : Type 0 where
  unexpected_char : ℕ → LexError
  unexpected_end : LexError
  other_error : LexError

-- What one turn of scan_next comes to: the jump to scan_next_char, a token, an error, or a failed
-- assertion of stream_ignore_1.
pub data Step : Type 0 where
  again : Lexer → Step
  done : Token → Lexer → Step
  fails : LexError → Step
  fault : Step

-- scan_number, scan_string with its delimiter and whether it escapes, and
-- scan_identifier_or_keyword: from where the token begins, and from where they start, a token or an
-- error
pub record Scanners : Type 0 where
  pub scan_number : Lexer → Lexer → Step
  pub scan_string : ℕ → Bool → Lexer → Lexer → Step
  pub scan_identifier : Lexer → Lexer → Step

-- the labels and the macros of the switch
pub data Case : Type 0 where
  blank : Case
  carriage_return : Case
  line_feed : Case
  semicolon : Case
  hash_sign : Case
  backslash : Case
  operator_1 : TokenType → Case
  operator_2 : TokenType → TokenType → Case
  operator_3x : TokenType → TokenType → ℕ → TokenType → Case
  dot : Case
  less_than : Case
  at_sign : Case
  digit : Case
  letter : Case
  quote : Case
  no_case : Case

-- the switch, on a character
unfoldable pub case_of : ℕ → Case
case_of c =
    if c == 9 || c == 11 || c == 12 || c == 32
    then blank
    else if c == 13
    then carriage_return
    else if c == 10
    then line_feed
    else if c == 59
    then semicolon
    else if c == 35
    then hash_sign
    else if c == 92
    then backslash
    else if c == 33
    then operator_2 op_not op_ne
    else if c == 36
    then operator_1 tok_dollar
    else if c == 37
    then operator_2 op_rem op_rem_eql
    else if c == 38
    then operator_3x op_bit_and op_bit_and_eql 38 op_and
    else if c == 42
    then operator_3x op_mul op_mul_eql 42 op_pow
    else if c == 43
    then operator_2 op_add op_add_eql
    else if c == 44
    then operator_1 tok_comma
    else if c == 45
    then operator_3x op_sub op_sub_eql 62 tok_r_arrow
    else if c == 46
    then dot
    else if c == 47
    then operator_2 op_div op_div_eql
    else if c == 58
    then operator_1 op_colon
    else if c == 60
    then less_than
    else if c == 61
    then operator_2 op_eql op_eq
    else if c == 62
    then operator_3x op_gt op_ge 62 op_shr
    else if c == 63
    then operator_1 tok_question
    else if c == 64
    then at_sign
    else if c == 94
    then operator_2 op_bit_xor op_bit_xor_eql
    else if c == 124
    then operator_2 op_bit_or op_bit_or_eql
    else if c == 126
    then operator_1 op_bit_not
    else if leb 48 c && leb c 57
    then digit
    else if leb 65 c && leb c 90 || leb 97 c && leb c 122 || c == 95
    then letter
    else if c == 34 || c == 39
    then quote
    else if c == 40
    then operator_1 tok_l_paren
    else if c == 41
    then operator_1 tok_r_paren
    else if c == 91
    then operator_1 tok_l_bracket
    else if c == 93
    then operator_1 tok_r_bracket
    else if c == 123
    then operator_1 tok_l_brace
    else if c == 125
    then operator_1 tok_r_brace
    else if leb 0x80 c
    then letter
    else no_case
