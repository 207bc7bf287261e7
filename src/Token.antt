-- ===== src/Token.antt =====
-- src/core/token.h: the types of tokens, and the texts of those that stand for one text.
use zis_lang.Common.{ℕ, List, [], ◌∷◌}

-- enum zis_token_type
pub data TokenType : Type 0 where
  op_pos : TokenType
  op_neg : TokenType
  op_bit_not : TokenType
  op_not : TokenType
  op_add : TokenType
  op_sub : TokenType
  op_mul : TokenType
  op_div : TokenType
  op_rem : TokenType
  op_shl : TokenType
  op_shr : TokenType
  op_bit_and : TokenType
  op_bit_or : TokenType
  op_bit_xor : TokenType
  op_pow : TokenType
  op_eql : TokenType
  op_eq : TokenType
  op_ne : TokenType
  op_lt : TokenType
  op_le : TokenType
  op_gt : TokenType
  op_ge : TokenType
  op_cmp : TokenType
  op_and : TokenType
  op_or : TokenType
  op_subscript : TokenType
  op_period : TokenType
  op_add_eql : TokenType
  op_sub_eql : TokenType
  op_mul_eql : TokenType
  op_div_eql : TokenType
  op_rem_eql : TokenType
  op_shl_eql : TokenType
  op_shr_eql : TokenType
  op_bit_and_eql : TokenType
  op_bit_or_eql : TokenType
  op_bit_xor_eql : TokenType
  op_xrange : TokenType
  op_range : TokenType
  op_colon : TokenType
  op_call : TokenType
  tok_at : TokenType
  tok_question : TokenType
  tok_dollar : TokenType
  tok_l_arrow : TokenType
  tok_r_arrow : TokenType
  tok_comma : TokenType
  tok_l_paren : TokenType
  tok_r_paren : TokenType
  tok_l_bracket : TokenType
  tok_r_bracket : TokenType
  tok_l_brace : TokenType
  tok_r_brace : TokenType
  kw_nil : TokenType
  kw_true : TokenType
  kw_false : TokenType
  kw_func : TokenType
  kw_struct : TokenType
  kw_if : TokenType
  kw_elif : TokenType
  kw_else : TokenType
  kw_while : TokenType
  kw_for : TokenType
  kw_break : TokenType
  kw_continue : TokenType
  kw_import : TokenType
  kw_return : TokenType
  kw_throw : TokenType
  kw_end : TokenType
  lit_int : TokenType
  lit_float : TokenType
  lit_string : TokenType
  lit_symbol : TokenType
  identifier : TokenType
  end_of_statement : TokenType
  end_of_file : TokenType

-- the texts in ZIS_UNARY_OPERATOR_LIST, ZIS_BINARY_OPERATOR_LIST and ZIS_SPECIAL_OPERATOR_LIST, as
-- code points; the other types have none of their own
unfoldable pub operator_text : TokenType → List ℕ
operator_text op_pos = 43 ∷ []
operator_text op_neg = 45 ∷ []
operator_text op_bit_not = 126 ∷ []
operator_text op_not = 33 ∷ []
operator_text op_add = 43 ∷ []
operator_text op_sub = 45 ∷ []
operator_text op_mul = 42 ∷ []
operator_text op_div = 47 ∷ []
operator_text op_rem = 37 ∷ []
operator_text op_shl = 60 ∷ 60 ∷ []
operator_text op_shr = 62 ∷ 62 ∷ []
operator_text op_bit_and = 38 ∷ []
operator_text op_bit_or = 124 ∷ []
operator_text op_bit_xor = 94 ∷ []
operator_text op_pow = 42 ∷ 42 ∷ []
operator_text op_eql = 61 ∷ []
operator_text op_eq = 61 ∷ 61 ∷ []
operator_text op_ne = 33 ∷ 61 ∷ []
operator_text op_lt = 60 ∷ []
operator_text op_le = 60 ∷ 61 ∷ []
operator_text op_gt = 62 ∷ []
operator_text op_ge = 62 ∷ 61 ∷ []
operator_text op_cmp = 60 ∷ 61 ∷ 62 ∷ []
operator_text op_and = 38 ∷ 38 ∷ []
operator_text op_or = 124 ∷ 124 ∷ []
operator_text op_subscript = 91 ∷ 46 ∷ 46 ∷ 46 ∷ 93 ∷ []
operator_text op_period = 46 ∷ []
operator_text op_add_eql = 43 ∷ 61 ∷ []
operator_text op_sub_eql = 45 ∷ 61 ∷ []
operator_text op_mul_eql = 42 ∷ 61 ∷ []
operator_text op_div_eql = 47 ∷ 61 ∷ []
operator_text op_rem_eql = 37 ∷ 61 ∷ []
operator_text op_shl_eql = 60 ∷ 60 ∷ 61 ∷ []
operator_text op_shr_eql = 62 ∷ 62 ∷ 61 ∷ []
operator_text op_bit_and_eql = 38 ∷ 61 ∷ []
operator_text op_bit_or_eql = 124 ∷ 61 ∷ []
operator_text op_bit_xor_eql = 94 ∷ 61 ∷ []
operator_text op_xrange = 46 ∷ 46 ∷ []
operator_text op_range = 46 ∷ 46 ∷ 46 ∷ []
operator_text op_colon = 58 ∷ []
operator_text op_call = 40 ∷ 46 ∷ 46 ∷ 46 ∷ 41 ∷ []
operator_text tok_at = 64 ∷ []
operator_text tok_question = 63 ∷ []
operator_text tok_dollar = 36 ∷ []
operator_text tok_l_arrow = 60 ∷ 45 ∷ []
operator_text tok_r_arrow = 45 ∷ 62 ∷ []
operator_text tok_comma = 44 ∷ []
operator_text tok_l_paren = 40 ∷ []
operator_text tok_r_paren = 41 ∷ []
operator_text tok_l_bracket = 91 ∷ []
operator_text tok_r_bracket = 93 ∷ []
operator_text tok_l_brace = 123 ∷ []
operator_text tok_r_brace = 125 ∷ []
operator_text kw_nil = []
operator_text kw_true = []
operator_text kw_false = []
operator_text kw_func = []
operator_text kw_struct = []
operator_text kw_if = []
operator_text kw_elif = []
operator_text kw_else = []
operator_text kw_while = []
operator_text kw_for = []
operator_text kw_break = []
operator_text kw_continue = []
operator_text kw_import = []
operator_text kw_return = []
operator_text kw_throw = []
operator_text kw_end = []
operator_text lit_int = []
operator_text lit_float = []
operator_text lit_string = []
operator_text lit_symbol = []
operator_text identifier = []
operator_text end_of_statement = []
operator_text end_of_file = []

-- the texts in ZIS_KEYWORD_LIST
unfoldable pub keyword_text : TokenType → List ℕ
keyword_text kw_nil = 110 ∷ 105 ∷ 108 ∷ []
keyword_text kw_true = 116 ∷ 114 ∷ 117 ∷ 101 ∷ []
keyword_text kw_false = 102 ∷ 97 ∷ 108 ∷ 115 ∷ 101 ∷ []
keyword_text kw_func = 102 ∷ 117 ∷ 110 ∷ 99 ∷ []
keyword_text kw_struct = 115 ∷ 116 ∷ 114 ∷ 117 ∷ 99 ∷ 116 ∷ []
keyword_text kw_if = 105 ∷ 102 ∷ []
keyword_text kw_elif = 101 ∷ 108 ∷ 105 ∷ 102 ∷ []
keyword_text kw_else = 101 ∷ 108 ∷ 115 ∷ 101 ∷ []
keyword_text kw_while = 119 ∷ 104 ∷ 105 ∷ 108 ∷ 101 ∷ []
keyword_text kw_for = 102 ∷ 111 ∷ 114 ∷ []
keyword_text kw_break = 98 ∷ 114 ∷ 101 ∷ 97 ∷ 107 ∷ []
keyword_text kw_continue = 99 ∷ 111 ∷ 110 ∷ 116 ∷ 105 ∷ 110 ∷ 117 ∷ 101 ∷ []
keyword_text kw_import = 105 ∷ 109 ∷ 112 ∷ 111 ∷ 114 ∷ 116 ∷ []
keyword_text kw_return = 114 ∷ 101 ∷ 116 ∷ 117 ∷ 114 ∷ 110 ∷ []
keyword_text kw_throw = 116 ∷ 104 ∷ 114 ∷ 111 ∷ 119 ∷ []
keyword_text kw_end = 101 ∷ 110 ∷ 100 ∷ []
keyword_text _ = []
