-- ===== src/Parser/Operators.antt =====
-- src/core/token.h and src/core/token.c, the precedences of operators, and which node each makes.
use zis_lang.Common.{Bool, true, false}
use zis_lang.Common.Int.{ℤ, pos, negsuc}
use zis_lang.Token.{
  TokenType, op_pos, op_neg, op_bit_not, op_not, op_add, op_sub, op_mul, op_div, op_rem, op_shl,
  op_shr, op_bit_and, op_bit_or, op_bit_xor, op_pow, op_eql, op_eq, op_ne, op_lt, op_le, op_gt,
  op_ge, op_cmp, op_and, op_or, op_subscript, op_period, op_add_eql, op_sub_eql, op_mul_eql,
  op_div_eql, op_rem_eql, op_shl_eql, op_shr_eql, op_bit_and_eql, op_bit_or_eql, op_bit_xor_eql,
  op_xrange, op_range, op_colon, op_call, lit_int, lit_float, lit_string, lit_symbol,
}
use zis_lang.Parser.{UnType, BinType}

-- zis_token_operator_precedence; 0 for all other types. Negative is from right to left.
unfoldable pub operator_precedence : TokenType → ℤ
operator_precedence op_pos = negsuc 2
operator_precedence op_neg = negsuc 2
operator_precedence op_bit_not = negsuc 2
operator_precedence op_not = negsuc 2
operator_precedence op_add = pos 5
operator_precedence op_sub = pos 5
operator_precedence op_mul = pos 4
operator_precedence op_div = pos 4
operator_precedence op_rem = pos 4
operator_precedence op_shl = pos 6
operator_precedence op_shr = pos 6
operator_precedence op_bit_and = pos 10
operator_precedence op_bit_or = pos 12
operator_precedence op_bit_xor = pos 11
operator_precedence op_pow = pos 3
operator_precedence op_eql = negsuc 14
operator_precedence op_eq = pos 9
operator_precedence op_ne = pos 9
operator_precedence op_lt = pos 8
operator_precedence op_le = pos 8
operator_precedence op_gt = pos 8
operator_precedence op_ge = pos 8
operator_precedence op_cmp = pos 8
operator_precedence op_and = pos 13
operator_precedence op_or = pos 14
operator_precedence op_subscript = pos 2
operator_precedence op_period = pos 1
operator_precedence op_add_eql = negsuc 14
operator_precedence op_sub_eql = negsuc 14
operator_precedence op_mul_eql = negsuc 14
operator_precedence op_div_eql = negsuc 14
operator_precedence op_rem_eql = negsuc 14
operator_precedence op_shl_eql = negsuc 14
operator_precedence op_shr_eql = negsuc 14
operator_precedence op_bit_and_eql = negsuc 14
operator_precedence op_bit_or_eql = negsuc 14
operator_precedence op_bit_xor_eql = negsuc 14
operator_precedence op_xrange = pos 13
operator_precedence op_range = pos 13
operator_precedence op_colon = pos 3
operator_precedence op_call = pos 2
operator_precedence _ = pos 0

-- What expr_builder_gen_one_expr makes of an operator
pub data Operation : Type 0 where
  unary : UnType → Operation
  binary : BinType → Operation
  binary_assign : BinType → Operation
  make_range : Bool → Operation
  make_field : Operation
  make_send : Operation
  make_call : Operation
  no_operator : Operation

unfoldable pub operation : TokenType → Operation
operation op_pos = unary UnType.pos
operation op_neg = unary UnType.neg
operation op_bit_not = unary UnType.bit_not
operation op_not = unary UnType.not_
operation op_add = binary BinType.add
operation op_sub = binary BinType.sub
operation op_mul = binary BinType.mul
operation op_div = binary BinType.div
operation op_rem = binary BinType.rem
operation op_shl = binary BinType.shl
operation op_shr = binary BinType.shr
operation op_bit_and = binary BinType.bit_and
operation op_bit_or = binary BinType.bit_or
operation op_bit_xor = binary BinType.bit_xor
operation op_pow = binary BinType.pow
operation op_eql = binary BinType.assign
operation op_eq = binary BinType.eq
operation op_ne = binary BinType.ne
operation op_lt = binary BinType.lt
operation op_le = binary BinType.le
operation op_gt = binary BinType.gt
operation op_ge = binary BinType.ge
operation op_cmp = binary BinType.cmp
operation op_and = binary BinType.and
operation op_or = binary BinType.or
operation op_subscript = binary BinType.subscript
operation op_add_eql = binary_assign BinType.add
operation op_sub_eql = binary_assign BinType.sub
operation op_mul_eql = binary_assign BinType.mul
operation op_div_eql = binary_assign BinType.div
operation op_rem_eql = binary_assign BinType.rem
operation op_shl_eql = binary_assign BinType.shl
operation op_shr_eql = binary_assign BinType.shr
operation op_bit_and_eql = binary_assign BinType.bit_and
operation op_bit_or_eql = binary_assign BinType.bit_or
operation op_bit_xor_eql = binary_assign BinType.bit_xor
operation op_xrange = make_range true
operation op_range = make_range false
operation op_period = make_field
operation op_colon = make_send
operation op_call = make_call
operation _ = no_operator

-- zis_token_type_is_operator
abbrev pub is_operator : TokenType → Bool
is_operator t = elim (operation t) [ no_operator ↦ false | _ ↦ true ]

-- zis_token_type_is_literal
unfoldable pub is_literal : TokenType → Bool
is_literal lit_int = true
is_literal lit_float = true
is_literal lit_string = true
is_literal lit_symbol = true
is_literal _ = false
