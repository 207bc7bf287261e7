-- ===== src/Parser/Print.antt =====
-- How expressions are written, for reading them back: a description that is independent of the parser.
-- An operand is put in parentheses exactly where its operator would be taken otherwise.
use zis_lang.Common.{ℕ, Bool, true, false, List, [], ◌∷◌, ◌++◌, ltb, leb, if◌then◌else◌}
use zis_lang.Token.{
  TokenType, op_pos, op_neg, op_bit_not, op_not, op_add, op_sub, op_mul, op_div, op_rem, op_shl,
  op_shr, op_bit_and, op_bit_or, op_bit_xor, op_pow, op_eql, op_eq, op_ne, op_lt, op_le, op_gt,
  op_ge, op_cmp, op_and, op_or, op_subscript, op_period, op_xrange, op_range, op_colon, tok_l_paren,
  tok_r_paren, tok_l_bracket, tok_r_bracket, tok_comma, kw_nil, kw_true, kw_false, identifier,
  lit_int,
}
use zis_lang.Parser
use zis_lang.Parser.{
  Node, Nodes, no_nodes, node, nil, bool, constant, name, un, bin, range, field, send, call,
  args_only, tuple, array, UnType, BinType, Tok,
}
use zis_lang.Parser.Expression.{Closing, paren, bracket}
use zis_lang.Parser.Expression.Reads.{tok}
use zis_lang.Parser.Expression.Parts.{parenthesised}
use zis_lang.Parser.Expression.Lists.{closing_type}

-- The token before an operand, and the operator that it is there.
abbrev pub un_token : UnType → TokenType
un_token UnType.pos = op_add
un_token UnType.neg = op_sub
un_token UnType.bit_not = op_bit_not
un_token UnType.not_ = op_not

abbrev pub un_operator : UnType → TokenType
un_operator UnType.pos = op_pos
un_operator UnType.neg = op_neg
un_operator UnType.bit_not = op_bit_not
un_operator UnType.not_ = op_not

abbrev pub bin_token : BinType → TokenType
bin_token BinType.add = op_add
bin_token BinType.sub = op_sub
bin_token BinType.mul = op_mul
bin_token BinType.div = op_div
bin_token BinType.rem = op_rem
bin_token BinType.shl = op_shl
bin_token BinType.shr = op_shr
bin_token BinType.bit_and = op_bit_and
bin_token BinType.bit_or = op_bit_or
bin_token BinType.bit_xor = op_bit_xor
bin_token BinType.pow = op_pow
bin_token BinType.assign = op_eql
bin_token BinType.eq = op_eq
bin_token BinType.ne = op_ne
bin_token BinType.lt = op_lt
bin_token BinType.le = op_le
bin_token BinType.gt = op_gt
bin_token BinType.ge = op_ge
bin_token BinType.cmp = op_cmp
bin_token BinType.and = op_and
bin_token BinType.or = op_or
bin_token BinType.subscript = op_subscript

-- How loosely an operator binds
abbrev pub bin_level : BinType → ℕ
bin_level BinType.add = 5
bin_level BinType.sub = 5
bin_level BinType.mul = 4
bin_level BinType.div = 4
bin_level BinType.rem = 4
bin_level BinType.shl = 6
bin_level BinType.shr = 6
bin_level BinType.bit_and = 10
bin_level BinType.bit_or = 12
bin_level BinType.bit_xor = 11
bin_level BinType.pow = 3
bin_level BinType.assign = 15
bin_level BinType.eq = 9
bin_level BinType.ne = 9
bin_level BinType.lt = 8
bin_level BinType.le = 8
bin_level BinType.gt = 8
bin_level BinType.ge = 8
bin_level BinType.cmp = 8
bin_level BinType.and = 13
bin_level BinType.or = 14
bin_level BinType.subscript = 2

-- The loosest operator that may stand unbracketed to its left: an assignment is from right to left.
abbrev pub bin_left : BinType → ℕ
bin_left BinType.assign = 14
bin_left b = bin_level b

abbrev pub is_subscript : BinType → Bool
is_subscript b = elim b [ BinType.subscript ↦ true | _ ↦ false ]

unfoldable pub level : Node → ℕ
level (un u e) = 3
level (bin b l r) = bin_level b
level (range l r x) = 13
level (field e n) = 1
level (send m args) = 3
level (call e args) = 2
level _ = 0

-- The loosest operator that the one of a node leaves to its left
unfoldable pub left_level : Node → ℕ
left_level (un u e) = 2
left_level (bin b l r) = bin_left b
left_level (range l r x) = 13
left_level (field e n) = 1
left_level (send m args) = 3
left_level (call e args) = 2
left_level _ = 0

abbrev pub as_left : ℕ → ℕ → List Tok → List Tok
as_left c v ts = if leb v c then ts else parenthesised ts

abbrev pub as_right : ℕ → ℕ → List Tok → List Tok
as_right v b ts = if ltb b v then ts else parenthesised ts

-- The tokens of an expression; of nodes that the theorem leaves out, none.
unfoldable mutual
  unfolding level left_level

  pub print : Node → List Tok
  print nil = tok kw_nil 0 ∷ []
  print (bool true) = tok kw_true 0 ∷ []
  print (bool false) = tok kw_false 0 ∷ []
  print (constant v) = tok lit_int v ∷ []
  print (name n) = tok identifier n ∷ []
  print (un u e) = tok (un_token u) 0 ∷ as_right 3 (left_level e) (print e)
  print (bin b l r) =
      if is_subscript b
      then as_left 2 (level l) (print l)
        ++ tok tok_l_bracket 0 ∷ (print r ++ tok tok_r_bracket 0 ∷ [])
      else as_left (bin_left b) (level l) (print l)
        ++ tok (bin_token b) 0 ∷ as_right (bin_level b) (left_level r) (print r)
  print (range l r x) =
      as_left 13 (level l) (print l)
      ++ tok (if x then op_xrange else op_range) 0 ∷ as_right 13 (left_level r) (print r)
  print (field e n) = as_left 1 (level e) (print e) ++ tok op_period 0 ∷ tok identifier n ∷ []
  print (send m no_nodes) = []
  print (send m (node e args)) =
      as_left 3 (level e) (print e)
      ++ tok op_colon 0 ∷ (tok identifier m ∷ tok tok_l_paren 0 ∷ print_list paren args)
  print (call e args) = as_left 2 (level e) (print e) ++ tok tok_l_paren 0 ∷ print_list paren args
  print (tuple no_nodes) = tok tok_l_paren 0 ∷ tok tok_r_paren 0 ∷ []
  print (tuple (node e es)) = tok tok_l_paren 0 ∷ (print e ++ tok tok_comma 0 ∷ print_list paren es)
  print (array es) = tok tok_l_bracket 0 ∷ print_list bracket es
  print (Parser.map es) = []
  print (args_only es) = []

  pub print_list : Closing → Nodes → List Tok
  print_list end no_nodes = tok (closing_type end) 0 ∷ []
  print_list end (node e no_nodes) = print e ++ tok (closing_type end) 0 ∷ []
  print_list end (node e (node e' es)) = print e ++ tok tok_comma 0 ∷ print_list end (node e' es)

-- The expressions that the theorem is about: without maps, and with a target for each message.
unfoldable mutual
  pub IsExpression : Node → Type 0
  IsExpression (un u e) = IsExpression e
  IsExpression (bin b l r) = IsExpression l × IsExpression r
  IsExpression (range l r x) = IsExpression l × IsExpression r
  IsExpression (field e n) = IsExpression e
  IsExpression (send m no_nodes) = ⊥
  IsExpression (send m (node e args)) = IsExpression e × AreExpressions args
  IsExpression (call e args) = IsExpression e × AreExpressions args
  IsExpression (tuple es) = AreExpressions es
  IsExpression (array es) = AreExpressions es
  IsExpression (Parser.map es) = ⊥
  IsExpression (args_only es) = ⊥
  IsExpression nil = Unit {0}
  IsExpression (bool b) = Unit {0}
  IsExpression (constant v) = Unit {0}
  IsExpression (name n) = Unit {0}

  pub AreExpressions : Nodes → Type 0
  AreExpressions no_nodes = Unit {0}
  AreExpressions (node e es) = IsExpression e × AreExpressions es
