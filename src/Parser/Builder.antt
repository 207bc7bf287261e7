-- ===== src/Parser/Builder.antt =====
-- src/core/parser.c, struct expr_builder_state: operators wait on one stack for the operands on the
-- other. The top of a stack is the head of its list.
use zis_lang.Common.{ℕ, suc, Bool, true, false, List, [], ◌∷◌, ltb, if◌then◌else◌}
use zis_lang.Common.Int.{ℤ, pos, negsuc}
use zis_lang.Token.{TokenType, tok_l_paren, tok_r_paren}
use zis_lang.Parser.{
  Node, node, bin, un, range, field, send, call, args_only, name, BinType, too_few_operands,
  unexpected_token, unexpected_node, fault, Result, ok, err, ◌>>=◌,
}
use zis_lang.Parser.Operators.{
  operator_precedence, operation, Operation, unary, binary, binary_assign, make_range, make_field,
  make_send, make_call, no_operator,
}

-- An entry of operator_stack
pub record Operator : Type 0 where
  pub type : TokenType
  pub prec_abs : ℕ

-- struct expr_builder_state
pub record Builder : Type 0 where
  pub operator_stack : List Operator
  pub operand_stack : List Node

-- expr_builder_init
abbrev pub fresh_builder : Builder
fresh_builder = record { operator_stack = []; operand_stack = [] }

-- expr_builder_put_operand
abbrev pub put_operand : Builder → Node → Builder
put_operand eb n = record eb { operand_stack = n ∷ eb.operand_stack }

-- ZIS_TOK_OP_COLON: the target becomes the first argument of a call of a name.
unfoldable pub send_node : Node → Node → Result Node
send_node target (call (name m) args) = ok (send m (node target args))
send_node target (args_only args) = err fault
send_node target _ = err unexpected_node

-- ZIS_TOK_OP_PERIOD
unfoldable pub field_node : Node → Node → Result Node
field_node value (name n) = ok (field value n)
field_node value _ = err unexpected_node

-- ZIS_TOK_OP_CALL: the value is set in the node of the arguments.
unfoldable pub call_node : Node → Node → Result Node
call_node value (args_only args) = ok (call value args)
call_node value (call v args) = ok (call value args)
call_node value _ = err unexpected_node

-- The node of an operator with two operands
unfoldable pub binary_node : Operation → Node → Node → Result Node
unfolding send_node field_node call_node
binary_node (binary b) lhs rhs = ok (bin b lhs rhs)
binary_node (binary_assign b) lhs rhs = ok (bin BinType.assign lhs (bin b lhs rhs))
binary_node (make_range exclude_end) lhs rhs = ok (range lhs rhs exclude_end)
binary_node make_field lhs rhs = field_node lhs rhs
binary_node make_send lhs rhs = send_node lhs rhs
binary_node make_call lhs rhs = call_node lhs rhs
binary_node (unary u) lhs rhs = err fault
binary_node no_operator lhs rhs = err fault

-- The operands of expr_builder_gen_one_expr behind its switch, for the operator t
unfoldable pub take_operands : TokenType → Operation → List Node → Result (List Node)
unfolding binary_node
take_operands t no_operator operands = err (unexpected_token tok_r_paren)
take_operands t (unary u) [] = err (too_few_operands t)
take_operands t (unary u) (value ∷ operands) = ok (un u value ∷ operands)
take_operands t o [] = err (too_few_operands t)
take_operands t o (rhs ∷ []) = err (too_few_operands t)
take_operands t o (rhs ∷ lhs ∷ operands) = binary_node o lhs rhs >>= λ n. ok (n ∷ operands)

-- expr_builder_gen_one_expr on the operator taken off the stack
unfoldable pub gen_one_expr : TokenType → List Node → Result (List Node)
unfolding take_operands operation
gen_one_expr t operands = take_operands t (operation t) operands

-- op_prec_abs
abbrev pub prec_abs_of : ℤ → ℕ
prec_abs_of (pos n) = n
prec_abs_of (negsuc n) = suc n

-- op_prec_cmp
abbrev pub prec_cmp_of : ℤ → ℕ
prec_cmp_of (pos n) = n
prec_cmp_of (negsuc n) = n

-- The loop of expr_builder_put_operator: operators that bind at least as tightly as op_prec_cmp
unfoldable pub gen_tighter : ℕ → List Operator → List Node → Result Builder
unfolding gen_one_expr
gen_tighter op_prec_cmp [] operands = ok (record { operator_stack = []; operand_stack = operands })
gen_tighter op_prec_cmp (top ∷ operators) operands =
    if ltb op_prec_cmp top.prec_abs
    then ok (record { operator_stack = top ∷ operators; operand_stack = operands })
    else gen_one_expr top.type operands >>= gen_tighter op_prec_cmp operators

-- expr_builder_put_operator
unfoldable pub put_operator : Builder → TokenType → Result Builder
unfolding gen_tighter operator_precedence
put_operator eb op_type =
    let prec = operator_precedence op_type in
    gen_tighter (prec_cmp_of prec) eb.operator_stack eb.operand_stack >>= λ eb'. ok (record eb' {
      operator_stack = record { type = op_type; prec_abs = prec_abs_of prec } ∷ eb'.operator_stack;
    })

-- expr_builder_put_l_paren, with UINT8_MAX - 2
abbrev pub put_l_paren : Builder → Builder
put_l_paren eb = record eb {
  operator_stack = record { type = tok_l_paren; prec_abs = 253 } ∷ eb.operator_stack;
}

abbrev pub is_l_paren : TokenType → Bool
is_l_paren t = elim t [ tok_l_paren ↦ true | _ ↦ false ]

-- The loop of expr_builder_put_r_paren
unfoldable pub gen_to_paren : List Operator → List Node → Result (Bool × Builder)
unfolding gen_one_expr
gen_to_paren [] operands = ok (false, record { operator_stack = []; operand_stack = operands })
gen_to_paren (top ∷ operators) operands =
    if is_l_paren top.type
    then ok (true, record { operator_stack = operators; operand_stack = operands })
    else gen_one_expr top.type operands >>= gen_to_paren operators

-- expr_builder_put_r_paren
unfoldable pub put_r_paren : Builder → Result (Bool × Builder)
unfolding gen_to_paren
put_r_paren eb = gen_to_paren eb.operator_stack eb.operand_stack

-- The loop of expr_builder_generate_expr
unfoldable pub gen_all : List Operator → List Node → Result (List Node)
unfolding gen_one_expr
gen_all [] operands = ok operands
gen_all (top ∷ operators) operands = gen_one_expr top.type operands >>= gen_all operators

-- The operand that is left, for the current token t
unfoldable pub only_operand : TokenType → List Node → Result Node
only_operand t [] = err (unexpected_token t)
only_operand t (n ∷ []) = ok n
only_operand t (n ∷ m ∷ operands) = err unexpected_node

-- expr_builder_generate_expr
unfoldable pub generate_expr : Builder → TokenType → Result Node
unfolding gen_all only_operand
generate_expr eb t = gen_all eb.operator_stack eb.operand_stack >>= only_operand t
