-- ===== src/Parser/RoundTrip.antt =====
-- What is written as the precedences demand is read back as the same expression.
use zis_lang.Common.{
  ℕ, suc, ◌*◌, ◌<◌, ◌≡◌, refl, Bool, true, false, List, [], ◌∷◌, ◌++◌, if◌then◌else◌, arith, length,
  Bool-cases, inl, inr,
}
use zis_lang.Token.{
  TokenType, op_period, op_xrange, op_range, op_colon, tok_l_paren, tok_l_bracket, identifier,
  kw_nil, kw_true, kw_false, lit_int, tok_r_bracket,
}
use zis_lang.Parser
use zis_lang.Parser.{
  Node, Nodes, no_nodes, node, nil, bool, constant, name, un, bin, range, field, send, call,
  args_only, tuple, array, UnType, BinType, Tok, ok, skip_eol,
}
use zis_lang.Parser.Operators.{operator_precedence}
use zis_lang.Parser.Builder.{gen_one_expr}
use zis_lang.Parser.Expression.{
  Closing, paren, bracket, kind_of, sign_of, a_literal, a_nil, a_bool, a_name, parse_expression,
}
use zis_lang.Parser.Expression.Reads.{tok, at_tokens, Reads, IsInfix, infix-Reads}
use zis_lang.Parser.Expression.Parts.{StartsWell-stays, operand-Reads, prefix-Reads}
use zis_lang.Parser.Expression.Lists.{
  ReadsList, no_elements-ReadsList, last_element-ReadsList, more_elements-ReadsList,
  expression_loop-Reads, IsEnd,
}
use zis_lang.Parser.Expression.Calls.{call-Reads, subscript-Reads}
use zis_lang.Parser.Expression.Groups.{array-Reads, unit-Reads, tuple-Reads}
use zis_lang.Parser.Print.{
  un_token, un_operator, bin_token, bin_level, bin_left, is_subscript, level, left_level, as_left,
  as_right, print, print_list, IsExpression, AreExpressions,
}
use zis_lang.Parser.Starts.{print-StartsWell, print_list-Stays, print_list-StartsWell}
use zis_lang.Parser.Operands.{
  level_bounds, bin-IsInfix, bin-gen, un-IsPrefix, un-gen, AsOperand, left-AsOperand,
  right-AsOperand, bin_level-pos,
}

range-IsInfix : (x : Bool) → IsInfix (if x then op_xrange else op_range) 13 13
unfolding kind_of sign_of operator_precedence skip_eol
range-IsInfix true = record {
  kind = refl;
  sign = refl;
  prec = refl;
  tight = (omega arith, omega arith);
  no_paren = refl;
  no_end = λ n v ts. refl;
}
range-IsInfix false = record {
  kind = refl;
  sign = refl;
  prec = refl;
  tight = (omega arith, omega arith);
  no_paren = refl;
  no_end = λ n v ts. refl;
}

range-gen :
    (x : Bool) (l r : Node) (ns : List Node)
    → gen_one_expr (if x then op_xrange else op_range) (r ∷ l ∷ ns) ≡ ok (range l r x ∷ ns)
unfolding gen_one_expr
range-gen true l r ns = refl
range-gen false l r ns = refl

period-IsInfix : IsInfix op_period 1 1
unfolding kind_of sign_of operator_precedence skip_eol
period-IsInfix = record {
  kind = refl;
  sign = refl;
  prec = refl;
  tight = (omega arith, omega arith);
  no_paren = refl;
  no_end = λ n v ts. refl;
}

colon-IsInfix : IsInfix op_colon 3 3
unfolding kind_of sign_of operator_precedence skip_eol
colon-IsInfix = record {
  kind = refl;
  sign = refl;
  prec = refl;
  tight = (omega arith, omega arith);
  no_paren = refl;
  no_end = λ n v ts. refl;
}

period-gen :
    (e : Node) (n : ℕ) (ns : List Node)
    → gen_one_expr op_period (name n ∷ e ∷ ns) ≡ ok (field e n ∷ ns)
unfolding gen_one_expr
period-gen e n ns = refl

colon-gen :
    (e : Node) (m : ℕ) (args : Nodes) (ns : List Node)
    → gen_one_expr op_colon (call (name m) args ∷ e ∷ ns) ≡ ok (send m (node e args) ∷ ns)
unfolding gen_one_expr
colon-gen e m args ns = refl

-- An operator between two nodes as they are written
infix_case :
    (t : TokenType) (v b : ℕ) (l r e : Node)
    → IsInfix t v b
    → ((ns : List Node) → gen_one_expr t (r ∷ l ∷ ns) ≡ ok (e ∷ ns))
    → 0 < v
    → IsExpression l
    → IsExpression r
    → Reads (print l) l (level l) (left_level l)
    → Reads (print r) r (level r) (left_level r)
    → Reads (as_left b (level l) (print l) ++ tok t 0 ∷ as_right v (left_level r) (print r)) e v b
infix_case t v b l r e i g p hl hr rl rr =
    let x = left-AsOperand b l (print l) rl (print-StartsWell l hl) in
    let y = right-AsOperand v r (print r) p rr (print-StartsWell r hr) in
    infix-Reads t v b 0 _ _ l r e x.level x.left y.level y.left i g x.reads x.fits
      (omega (arith, x.left_fits)) y.reads y.fits y.left_fits (StartsWell-stays _ y.starts)

name-Reads : (n : ℕ) → Reads (tok identifier n ∷ []) (name n) 0 0
unfolding kind_of
name-Reads n = operand-Reads a_name identifier n (name n) refl refl

-- A name behind an operator
name_case :
    (t : TokenType) (v b n : ℕ) (ts : List Tok) (l r e : Node) (x : AsOperand ts l b (suc b))
    (us : List Tok) (w : ℕ)
    → IsInfix t v b
    → ((ns : List Node) → gen_one_expr t (r ∷ l ∷ ns) ≡ ok (e ∷ ns))
    → Reads (tok identifier n ∷ us) r w w
    → w < v
    → Reads (ts ++ tok t 0 ∷ (tok identifier n ∷ us)) e v b
unfolding skip_eol
name_case t v b n ts l r e x us w i g c h =
    infix-Reads t v b 0 ts _ l r e x.level x.left w w i g x.reads x.fits
      (omega (arith, x.left_fits)) c (omega arith) h (λ m rest. refl)

subscript_only : (b : BinType) → is_subscript b ≡ true → b ≡ BinType.subscript
subscript_only BinType.subscript h = refl
subscript_only BinType.add h = cc
subscript_only _ h = cc

subscript_case :
    (l r : Node)
    → IsExpression l
    → IsExpression r
    → Reads (print l) l (level l) (left_level l)
    → Reads (print r) r (level r) (left_level r)
    → Reads
        (as_left 2 (level l) (print l)
          ++ tok tok_l_bracket 0 ∷ (print r ++ tok tok_r_bracket 0 ∷ []))
        (bin BinType.subscript l r)
        2
        2
subscript_case l r hl hr rl rr =
    let x = left-AsOperand 2 l (print l) rl (print-StartsWell l hl) in
    subscript-Reads _ (print r) l r x.level x.left (level r) (left_level r) x.reads x.fits
      (omega (arith, x.left_fits)) rr (print-StartsWell r hr)

mutual
  unfolding print print_list IsExpression AreExpressions kind_of

  print-Reads : (e : Node) → IsExpression e → Reads (print e) e (level e) (left_level e)
  print-Reads nil h = operand-Reads a_nil kw_nil 0 nil refl refl
  print-Reads (bool true) h = operand-Reads (a_bool true) kw_true 0 (bool true) refl refl
  print-Reads (bool false) h = operand-Reads (a_bool false) kw_false 0 (bool false) refl refl
  print-Reads (constant v) h = operand-Reads a_literal lit_int v (constant v) refl refl
  print-Reads (name n) h = name-Reads n
  print-Reads (un u e) h =
      let x =
        right-AsOperand 3 e (print e) (omega arith) (print-Reads e h) (print-StartsWell e h) in
      prefix-Reads (un_token u) (un_operator u) 0 _ e (un u e) x.level x.left (un-IsPrefix u)
        (un-gen u e) x.reads x.fits x.left_fits (StartsWell-stays _ x.starts)
  print-Reads (bin b l r) h = elim (Bool-cases (is_subscript b)) [
    | inl y ↦
        rw (subscript_only b y) (subscript_case l r h.0 h.1 (print-Reads l h.0) (print-Reads r h.1))
    | inr n ↦ rw n (
        infix_case (bin_token b) (bin_level b) (bin_left b) l r (bin b l r) (bin-IsInfix b n)
          (bin-gen b l r) (bin_level-pos b) h.0 h.1 (print-Reads l h.0) (print-Reads r h.1))
  ]
  print-Reads (range l r x) h =
      infix_case (if x then op_xrange else op_range) 13 13 l r (range l r x) (range-IsInfix x)
        (range-gen x l r) (omega arith) h.0 h.1 (print-Reads l h.0) (print-Reads r h.1)
  print-Reads (field e n) h =
      let x = left-AsOperand 1 e (print e) (print-Reads e h) (print-StartsWell e h) in
      name_case op_period 1 1 n _ e (name n) (field e n) x [] 0 period-IsInfix (period-gen e n)
        (name-Reads n) (omega arith)
  print-Reads (send m no_nodes) h = absurd h
  print-Reads (send m (node e args)) h =
      let x = left-AsOperand 3 e (print e) (print-Reads e h.0) (print-StartsWell e h.0) in
      name_case op_colon 3 3 m _ e (call (name m) args) (send m (node e args)) x
        (tok tok_l_paren 0 ∷ print_list paren args) 2 colon-IsInfix (colon-gen e m args)
        (call-Reads (tok identifier m ∷ []) (print_list paren args) (name m) args 0 0 (name-Reads m)
          (omega arith) (omega arith) (print_list-Stays paren args h.1)
          (print_list-Reads paren args h.1))
        (omega arith)
  print-Reads (call e args) h =
      let x = left-AsOperand 2 e (print e) (print-Reads e h.0) (print-StartsWell e h.0) in
      call-Reads _ (print_list paren args) e args x.level x.left x.reads x.fits
        (omega (arith, x.left_fits)) (print_list-Stays paren args h.1)
        (print_list-Reads paren args h.1)
  print-Reads (tuple no_nodes) h = unit-Reads
  print-Reads (tuple (node e es)) h =
      tuple-Reads (print e) (print_list paren es) e es (level e) (left_level e) (print-Reads e h.0)
        (level_bounds e).2 (print-StartsWell e h.0) (print_list-Stays paren es h.1)
        (print_list-Reads paren es h.1)
  print-Reads (array es) h =
      array-Reads (print_list bracket es) es (print_list-Stays bracket es h)
        (print_list-Reads bracket es h)
  print-Reads (Parser.map es) h = absurd h
  print-Reads (args_only es) h = absurd h

  print_list-Reads :
      (end : Closing) (es : Nodes) → AreExpressions es → ReadsList (print_list end es) es end
  print_list-Reads end no_nodes h = no_elements-ReadsList end
  print_list-Reads end (node e no_nodes) h =
      last_element-ReadsList (print e) e (level e) (left_level e) end (print-Reads e h.0)
        (print-StartsWell e h.0)
  print_list-Reads end (node e (node e' es)) h =
      more_elements-ReadsList (print e) e (level e) (left_level e) end (print_list end (node e' es))
        (node e' es) (print-Reads e h.0) (print-StartsWell e h.0)
        (print_list-StartsWell end e' es h.1.0) (print_list-Reads end (node e' es) h.1)

-- An expression of names, literals of integers, nil, booleans, signs, operators with two operands,
-- ranges, fields, subscripts, calls, messages, tuples and arrays, written with parentheses only where
-- an operator of the table would take an operand otherwise, and followed by a token that cannot go on
-- with it and that is not skipped as the end of a line: with fuel for twice its tokens,
-- parse_expression reads exactly this expression and stops at the token.
pub parse_expression-print :
    (e : Node) (fuel n : ℕ) (t : Tok) (rest : List Tok)
    → IsExpression e
    → 2 * length (print e) < fuel
    → IsEnd (kind_of t.type)
    → skip_eol n (t ∷ rest) ≡ ok (t ∷ rest)
    → parse_expression fuel (at_tokens n (print e ++ t ∷ rest)) ≡ ok (e, at_tokens n (t ∷ rest))
unfolding parse_expression
parse_expression-print e fuel n t rest h l k s =
    expression_loop-Reads (print e) e (level e) (left_level e) fuel n t rest (kind_of t.type)
      (print-Reads e h) l s refl k
