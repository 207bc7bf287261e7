-- ===== src/Lexer/Operators.antt =====
-- src/core/lexer.c: the operators are scanned by their texts.
use zis_lang.Common.{
  ℕ, zero, suc, ◌+◌, ◌-◌, ◌≡◌, refl, ap, sym, ◌∙◌, Bool, true, false, Bool-cases, inl, inr, ◌||◌,
  not, List, [], ◌∷◌, ◌++◌, length, ◌==◌, ==_iff,
}
use mathlib.Core.Bool.{true≢false}
use zis_lang.Token.{
  TokenType, operator_text, op_pos, op_neg, op_bit_not, op_not, op_add, op_sub, op_mul, op_div,
  op_rem, op_shl, op_shr, op_bit_and, op_bit_or, op_bit_xor, op_pow, op_eql, op_eq, op_ne, op_lt,
  op_le, op_gt, op_ge, op_cmp, op_and, op_or, op_subscript, op_period, op_add_eql, op_sub_eql,
  op_mul_eql, op_div_eql, op_rem_eql, op_shl_eql, op_shr_eql, op_bit_and_eql, op_bit_or_eql,
  op_bit_xor_eql, op_xrange, op_range, op_colon, op_call, tok_at, tok_question, tok_dollar,
  tok_l_arrow, tok_r_arrow, tok_comma, tok_l_paren, tok_r_paren, tok_l_bracket, tok_r_bracket,
  tok_l_brace, tok_r_brace, kw_nil, kw_true, kw_false, kw_func, kw_struct, kw_if, kw_elif, kw_else,
  kw_while, kw_for, kw_break, kw_continue, kw_import, kw_return, kw_throw, kw_end, lit_int,
  lit_float, lit_string, lit_symbol, identifier, end_of_statement, end_of_file,
}
use zis_lang.Lexer.{Lexer, Token, Step, done, Scanners, case_of, operator_2, operator_3x}
use zis_lang.Lexer.Scan.{
  next_is, ignore_1, ends, ignore_ends, next_ignore_ends, next_char, scan_dot, scan_less_than,
  scan_at, scan_case, scan_step,
}

-- The scanner takes ".." with the character behind it, "||", "<<=" and ">>=" as two tokens, "+" and
-- "-" as binary, and "[...]" and "(...)" are no tokens.
unfoldable pub is_scanned : TokenType → Bool
is_scanned op_pos = false
is_scanned op_neg = false
is_scanned op_or = false
is_scanned op_subscript = false
is_scanned op_shl_eql = false
is_scanned op_shr_eql = false
is_scanned op_xrange = false
is_scanned op_call = false
is_scanned kw_nil = false
is_scanned kw_true = false
is_scanned kw_false = false
is_scanned kw_func = false
is_scanned kw_struct = false
is_scanned kw_if = false
is_scanned kw_elif = false
is_scanned kw_else = false
is_scanned kw_while = false
is_scanned kw_for = false
is_scanned kw_break = false
is_scanned kw_continue = false
is_scanned kw_import = false
is_scanned kw_return = false
is_scanned kw_throw = false
is_scanned kw_end = false
is_scanned lit_int = false
is_scanned lit_float = false
is_scanned lit_string = false
is_scanned lit_symbol = false
is_scanned identifier = false
is_scanned end_of_statement = false
is_scanned end_of_file = false
is_scanned _ = true

-- the characters that make another operator behind the text of one, or a string behind an @
unfoldable pub continues : TokenType → ℕ → Bool
continues op_not d = d == 61
continues op_add d = d == 61
continues op_sub d = d == 61 || d == 62
continues op_mul d = d == 61 || d == 42
continues op_div d = d == 61
continues op_rem d = d == 61
continues op_bit_and d = d == 61 || d == 38
continues op_bit_or d = d == 61
continues op_bit_xor d = d == 61
continues op_eql d = d == 61
continues op_lt d = d == 61 || (d == 60 || d == 45)
continues op_le d = d == 62
continues op_gt d = d == 61 || d == 62
continues op_period d = d == 46
continues tok_at d = d == 34 || d == 39
continues _ d = false

unfoldable pub separates : TokenType → List ℕ → Bool
separates t [] = true
separates t (d ∷ r) = not (continues t d)

-- n columns further
unfoldable pub after : ℕ → ℕ → ℕ
after zero column = column
after (suc n) column = after n (column + 1)

-- a token of n + 1 characters from where the scanner was, with rest behind it
unfoldable pub lexed : Lexer → TokenType → ℕ → List ℕ → Step
unfolding after
lexed l t n rest =
    let tok : Token = record {
      line0 = l.line;
      column0 = l.column;
      line1 = l.line;
      column1 = after n l.column;
      type_of = t;
    } in
    done tok (record l { column = after (suc n) l.column; input = rest })

next_other :
    (t : TokenType) (l : Lexer) (x : ℕ) (rest : List ℕ)
    → continues t x ≡ true
    → separates t rest ≡ true
    → next_is x (record l { input = rest }) ≡ false
unfolding separates next_is
next_other t l x [] c s = refl
next_other t l x (d ∷ r) c s = elim (Bool-cases (d == x)) [
  | inr w ↦ w
  | inl w ↦ absurd (true≢false (sym s ∙ ap not (ap (continues t) ((==_iff d x).0 w) ∙ c)))
]

module _ (scanners : Scanners) where
  single_2 :
      (t t_eql : TokenType) (c : ℕ) (rest : List ℕ) (l : Lexer)
      → next_is 61 (record l { input = rest }) ≡ false
      → scan_case scanners (operator_2 t t_eql) c rest l ≡ lexed l t 0 rest
  unfolding scan_case lexed ends
  single_2 t t_eql c rest l w = rw (scan_case, w) refl

  single_3x :
      (t t_eql : TokenType) (x : ℕ) (t_x : TokenType) (c : ℕ) (rest : List ℕ) (l : Lexer)
      → next_is x (record l { input = rest }) ≡ false
      → next_is 61 (record l { input = rest }) ≡ false
      → scan_case scanners (operator_3x t t_eql x t_x) c rest l ≡ lexed l t 0 rest
  unfolding scan_case lexed ends
  single_3x t t_eql x t_x c rest l v w = rw (scan_case, v, w) refl

  single_dot :
      (rest : List ℕ) (l : Lexer)
      → next_is 46 (record l { input = rest }) ≡ false
      → scan_dot l rest ≡ lexed l op_period 0 rest
  unfolding scan_dot lexed ends
  single_dot rest l w = rw (scan_dot, w) refl

  single_less_than :
      (rest : List ℕ) (l : Lexer)
      → next_is 61 (record l { input = rest }) ≡ false
      → next_is 60 (record l { input = rest }) ≡ false
      → next_is 45 (record l { input = rest }) ≡ false
      → scan_less_than l rest ≡ lexed l op_lt 0 rest
  unfolding scan_less_than lexed ends
  single_less_than rest l u v w = rw (scan_less_than, u, v, w) refl

  less_than_or_equal :
      (rest : List ℕ) (l : Lexer)
      → next_is 62 (next_char (record l { input = rest })) ≡ false
      → scan_less_than l (61 ∷ rest) ≡ lexed l op_le 1 rest
  unfolding scan_less_than lexed ends next_is ignore_1 next_char
  less_than_or_equal rest l u = rw u refl

  single_at :
      (rest : List ℕ) (l : Lexer)
      → separates tok_at rest ≡ true
      → scan_at scanners l rest ≡ lexed l tok_at 0 rest
  unfolding scan_at lexed ends next_is continues
  single_at [] l s = refl
  single_at (d ∷ r) l s =
      let double : (d == 34) ≡ false = next_other tok_at l 34 (d ∷ r) refl s in
      let single : (d == 39) ≡ false = next_other tok_at l 39 (d ∷ r) refl s in
      rw (double, single) refl

  -- An operator that the scanner knows, with no character behind it that makes another
  -- operator of it (or, behind an @, a string), is scanned as itself; the characters behind it are left, and the columns count its characters.
  pub scan_step-operator_text :
      (t : TokenType) (l : Lexer) (rest : List ℕ)
      → is_scanned t ≡ true
      → separates t rest ≡ true
      → scan_step scanners (record l { input = operator_text t ++ rest })
        ≡ lexed l t (length (operator_text t) - 1) rest
  unfolding scan_step operator_text case_of lexed is_scanned continues ends ignore_ends
      next_ignore_ends next_is ignore_1 next_char scan_case
  scan_step-operator_text op_bit_not l rest h s = refl
  scan_step-operator_text op_not l rest h s =
      single_2 op_not op_ne 33 rest l (next_other op_not l 61 rest refl s)
  scan_step-operator_text op_add l rest h s =
      single_2 op_add op_add_eql 43 rest l (next_other op_add l 61 rest refl s)
  scan_step-operator_text op_sub l rest h s =
      single_3x op_sub op_sub_eql 62 tok_r_arrow 45 rest l (next_other op_sub l 62 rest refl s)
        (next_other op_sub l 61 rest refl s)
  scan_step-operator_text op_mul l rest h s =
      single_3x op_mul op_mul_eql 42 op_pow 42 rest l (next_other op_mul l 42 rest refl s)
        (next_other op_mul l 61 rest refl s)
  scan_step-operator_text op_div l rest h s =
      single_2 op_div op_div_eql 47 rest l (next_other op_div l 61 rest refl s)
  scan_step-operator_text op_rem l rest h s =
      single_2 op_rem op_rem_eql 37 rest l (next_other op_rem l 61 rest refl s)
  scan_step-operator_text op_shl l rest h s = refl
  scan_step-operator_text op_shr l rest h s = refl
  scan_step-operator_text op_bit_and l rest h s =
      single_3x op_bit_and op_bit_and_eql 38 op_and 38 rest l
        (next_other op_bit_and l 38 rest refl s) (next_other op_bit_and l 61 rest refl s)
  scan_step-operator_text op_bit_or l rest h s =
      single_2 op_bit_or op_bit_or_eql 124 rest l (next_other op_bit_or l 61 rest refl s)
  scan_step-operator_text op_bit_xor l rest h s =
      single_2 op_bit_xor op_bit_xor_eql 94 rest l (next_other op_bit_xor l 61 rest refl s)
  scan_step-operator_text op_pow l rest h s = refl
  scan_step-operator_text op_eql l rest h s =
      single_2 op_eql op_eq 61 rest l (next_other op_eql l 61 rest refl s)
  scan_step-operator_text op_eq l rest h s = refl
  scan_step-operator_text op_ne l rest h s = refl
  scan_step-operator_text op_lt l rest h s =
      single_less_than rest l (next_other op_lt l 61 rest refl s)
        (next_other op_lt l 60 rest refl s) (next_other op_lt l 45 rest refl s)
  scan_step-operator_text op_le l rest h s =
      less_than_or_equal rest l (next_other op_le (next_char l) 62 rest refl s)
  scan_step-operator_text op_gt l rest h s =
      single_3x op_gt op_ge 62 op_shr 62 rest l (next_other op_gt l 62 rest refl s)
        (next_other op_gt l 61 rest refl s)
  scan_step-operator_text op_ge l rest h s = refl
  scan_step-operator_text op_cmp l rest h s = refl
  scan_step-operator_text op_and l rest h s = refl
  scan_step-operator_text op_period l rest h s =
      single_dot rest l (next_other op_period l 46 rest refl s)
  scan_step-operator_text op_add_eql l rest h s = refl
  scan_step-operator_text op_sub_eql l rest h s = refl
  scan_step-operator_text op_mul_eql l rest h s = refl
  scan_step-operator_text op_div_eql l rest h s = refl
  scan_step-operator_text op_rem_eql l rest h s = refl
  scan_step-operator_text op_bit_and_eql l rest h s = refl
  scan_step-operator_text op_bit_or_eql l rest h s = refl
  scan_step-operator_text op_bit_xor_eql l rest h s = refl
  scan_step-operator_text op_range l rest h s = refl
  scan_step-operator_text op_colon l rest h s = refl
  scan_step-operator_text tok_at l rest h s = single_at rest (record l { input = 64 ∷ rest }) s
  scan_step-operator_text tok_question l rest h s = refl
  scan_step-operator_text tok_dollar l rest h s = refl
  scan_step-operator_text tok_l_arrow l rest h s = refl
  scan_step-operator_text tok_r_arrow l rest h s = refl
  scan_step-operator_text tok_comma l rest h s = refl
  scan_step-operator_text tok_l_paren l rest h s = refl
  scan_step-operator_text tok_r_paren l rest h s = refl
  scan_step-operator_text tok_l_bracket l rest h s = refl
  scan_step-operator_text tok_r_bracket l rest h s = refl
  scan_step-operator_text tok_l_brace l rest h s = refl
  scan_step-operator_text tok_r_brace l rest h s = refl
  scan_step-operator_text op_pos l rest h s = absurd (true≢false (sym h))
  scan_step-operator_text op_neg l rest h s = absurd (true≢false (sym h))
  scan_step-operator_text op_or l rest h s = absurd (true≢false (sym h))
  scan_step-operator_text op_subscript l rest h s = absurd (true≢false (sym h))
  scan_step-operator_text op_shl_eql l rest h s = absurd (true≢false (sym h))
  scan_step-operator_text op_shr_eql l rest h s = absurd (true≢false (sym h))
  scan_step-operator_text op_xrange l rest h s = absurd (true≢false (sym h))
  scan_step-operator_text op_call l rest h s = absurd (true≢false (sym h))
  scan_step-operator_text kw_nil l rest h s = absurd (true≢false (sym h))
  scan_step-operator_text kw_true l rest h s = absurd (true≢false (sym h))
  scan_step-operator_text kw_false l rest h s = absurd (true≢false (sym h))
  scan_step-operator_text kw_func l rest h s = absurd (true≢false (sym h))
  scan_step-operator_text kw_struct l rest h s = absurd (true≢false (sym h))
  scan_step-operator_text kw_if l rest h s = absurd (true≢false (sym h))
  scan_step-operator_text kw_elif l rest h s = absurd (true≢false (sym h))
  scan_step-operator_text kw_else l rest h s = absurd (true≢false (sym h))
  scan_step-operator_text kw_while l rest h s = absurd (true≢false (sym h))
  scan_step-operator_text kw_for l rest h s = absurd (true≢false (sym h))
  scan_step-operator_text kw_break l rest h s = absurd (true≢false (sym h))
  scan_step-operator_text kw_continue l rest h s = absurd (true≢false (sym h))
  scan_step-operator_text kw_import l rest h s = absurd (true≢false (sym h))
  scan_step-operator_text kw_return l rest h s = absurd (true≢false (sym h))
  scan_step-operator_text kw_throw l rest h s = absurd (true≢false (sym h))
  scan_step-operator_text kw_end l rest h s = absurd (true≢false (sym h))
  scan_step-operator_text lit_int l rest h s = absurd (true≢false (sym h))
  scan_step-operator_text lit_float l rest h s = absurd (true≢false (sym h))
  scan_step-operator_text lit_string l rest h s = absurd (true≢false (sym h))
  scan_step-operator_text lit_symbol l rest h s = absurd (true≢false (sym h))
  scan_step-operator_text identifier l rest h s = absurd (true≢false (sym h))
  scan_step-operator_text end_of_statement l rest h s = absurd (true≢false (sym h))
  scan_step-operator_text end_of_file l rest h s = absurd (true≢false (sym h))
