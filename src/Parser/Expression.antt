-- ===== src/Parser/Expression.antt =====
-- src/core/parser.c, parse_expression and the lists in expressions. Each call takes a unit of fuel.
-- Every call of parse_expression_1 starts with empty stacks, which is how the calls before leave
-- them.
pub mod Reads
pub mod Parts
pub mod Lists
pub mod Calls
pub mod Groups
use zis_lang.Common.{
  ℕ, zero, suc, ◌+◌, ◌-◌, Bool, true, false, List, [], ◌∷◌, Option, none, some, if◌then◌else◌,
}
use zis_lang.Token.{
  TokenType, op_add, op_sub, op_pos, op_neg, op_call, op_subscript, tok_l_paren, tok_r_paren,
  tok_l_bracket, tok_r_bracket, tok_l_brace, tok_r_brace, tok_comma, tok_r_arrow, kw_nil, kw_true,
  kw_false, identifier,
}
use zis_lang.Parser
use zis_lang.Parser.{
  Parser, Node, Nodes, no_nodes, node, nil, bool, constant, name, tuple, array, args_only, Error,
  unexpected_token, empty_subscript, Result, ok, err, out_of_fuel, ◌>>=◌, Tok, this_token,
  next_token, ignore_begin, ignore_end,
}
use zis_lang.Parser.Operators.{operation, is_operator, is_literal, no_operator}
use zis_lang.Parser.Builder.{
  Builder, fresh_builder, put_operand, put_operator, put_l_paren, put_r_paren, generate_expr,
}

-- What the branches of parse_expression_1 distinguish
pub data Kind : Type 0 where
  a_literal : Kind
  an_operator : Kind
  l_paren : Kind
  r_paren : Kind
  l_bracket : Kind
  l_brace : Kind
  comma : Kind
  a_nil : Kind
  a_bool : Bool → Kind
  a_name : Kind
  no_part : Kind

unfoldable pub kind_of_other : TokenType → Kind
kind_of_other tok_l_paren = l_paren
kind_of_other tok_r_paren = r_paren
kind_of_other tok_l_bracket = l_bracket
kind_of_other tok_l_brace = l_brace
kind_of_other tok_comma = comma
kind_of_other kw_nil = a_nil
kind_of_other kw_true = a_bool true
kind_of_other kw_false = a_bool false
kind_of_other identifier = a_name
kind_of_other _ = no_part

unfoldable pub kind_of : TokenType → Kind
unfolding kind_of_other operation is_literal
kind_of t =
    if is_literal t then a_literal else if is_operator t then an_operator else kind_of_other t

-- The sign that an operator becomes where no operand stands before it
unfoldable pub sign_of : Bool → TokenType → TokenType
sign_of false op_add = op_pos
sign_of false op_sub = op_neg
sign_of _ t = t

abbrev pub is_r_paren : TokenType → Bool
is_r_paren t = elim t [ tok_r_paren ↦ true | _ ↦ false ]

abbrev pub is_r_bracket : TokenType → Bool
is_r_bracket t = elim t [ tok_r_bracket ↦ true | _ ↦ false ]

abbrev pub is_comma : TokenType → Bool
is_comma t = elim t [ tok_comma ↦ true | _ ↦ false ]

abbrev pub is_r_arrow : TokenType → Bool
is_r_arrow t = elim t [ tok_r_arrow ↦ true | _ ↦ false ]

-- The token that ends a list
pub data Closing : Type 0 where
  paren : Closing
  bracket : Closing
  brace : Closing

unfoldable pub closes : Closing → TokenType → Bool
closes paren tok_r_paren = true
closes bracket tok_r_bracket = true
closes brace tok_r_brace = true
closes _ _ = false

-- check_token_type_and_ignore
unfoldable pub expect : (TokenType → Bool) → TokenType → Parser → Result Parser
unfolding next_token
expect test t p = if test (this_token p).type then next_token p else err (unexpected_token t)

abbrev pub append_node : Nodes → Node → Nodes
append_node no_nodes n = node n no_nodes
append_node (node m ns) n = node m (append_node ns n)

unfoldable mutual
  unfolding next_token expect kind_of sign_of put_operator put_r_paren generate_expr closes

  -- parse_expression_1, from the loop on
  pub expression_loop : ℕ → Parser → Builder → Bool → Result (Node × Parser)
  expression_loop zero p eb last_is_operand = out_of_fuel
  expression_loop (suc f) p eb last_is_operand =
      let t = this_token p in
      let done = λ (b : Builder). generate_expr b t.type >>= λ n. ok (n, p) in
      let put = λ (n : Node) (q : Parser). expression_loop f q (put_operand eb n) true in
      let put_next = λ (n : Node). next_token p >>= put n in
      elim (kind_of t.type) [
        | a_literal ↦ put_next (constant t.object)
        | an_operator ↦ next_token p >>= λ q.
            put_operator eb (sign_of last_is_operand t.type) >>= λ eb'.
            expression_loop f q eb' false
        | l_paren ↦
            if last_is_operand
            then (put_operator eb op_call >>= λ eb'.
                next_token (ignore_begin p) >>= parse_list f paren false no_nodes >>= λ (args, q).
                expression_loop f q (put_operand eb' (args_only args)) true)
            else (next_token (ignore_begin p) >>= λ q.
                if is_r_paren (this_token q).type
                then next_token (ignore_end q) >>= put (tuple no_nodes)
                else expression_loop f q (put_l_paren eb) false)
        | r_paren ↦ put_r_paren eb >>= λ (found, eb').
            if found
            then (next_token (ignore_end p) >>= λ q. expression_loop f q eb' true)
            else (generate_expr eb' t.type >>= λ n. ok (n, p))
        | l_bracket ↦
            if last_is_operand
            then (put_operator eb op_subscript >>= λ eb'.
                next_token (ignore_begin p) >>= parse_subs f >>= λ (key, q).
                expression_loop f q (put_operand eb' key) true)
            else (next_token (ignore_begin p)
                >>= parse_list f bracket false no_nodes
                >>= λ (args, q). put (array args) q)
        | l_brace ↦
            if last_is_operand
            then err (unexpected_token t.type)
            else (next_token (ignore_begin p) >>= parse_list f brace true no_nodes >>= λ (args, q).
                put (Parser.map args) q)
        | comma ↦ put_r_paren eb >>= λ (found, eb').
            if found
            then (elim eb'.operand_stack [
              | [] ↦ generate_expr eb' t.type >>= λ n. ok (n, p)
              | first ∷ operands ↦ next_token p >>= λ q.
                  parse_list f paren false (node first no_nodes) (ignore_begin (ignore_end q))
                  >>= λ (args, q').
                      expression_loop f q' (record eb' { operand_stack = tuple args ∷ operands })
                        true
            ])
            else (generate_expr eb' t.type >>= λ n. ok (n, p))
        | a_nil ↦ put_next nil
        | a_bool b ↦ put_next (bool b)
        | a_name ↦ put_next (name t.object)
        | no_part ↦ done eb
      ]

  -- parse_list behind its first token, with ends of lines ignored
  pub parse_list : ℕ → Closing → Bool → Nodes → Parser → Result (Nodes × Parser)
  parse_list zero end pairs elements p = out_of_fuel
  parse_list (suc f) end pairs elements p =
      let more = expression_loop f p fresh_builder false >>= λ (n, q).
      (if pairs
        then (expect is_r_arrow tok_r_arrow q >>= λ q'.
            expression_loop f q' fresh_builder false >>= λ (m, r).
            ok (append_node (append_node elements n) m, r))
        else ok (append_node elements n, q))
      >>= λ (elements', r).
          if closes end (this_token r).type
          then (next_token (ignore_end r) >>= λ s. ok (elements', s))
          else (expect is_comma tok_comma r >>= parse_list f end pairs elements') in
      if closes end (this_token p).type
      then (next_token (ignore_end p) >>= λ q. ok (elements, q))
      else more

  -- parse_Subs_args behind its first token
  pub parse_subs : ℕ → Parser → Result (Node × Parser)
  parse_subs zero p = out_of_fuel
  parse_subs (suc f) p =
      if is_r_bracket (this_token p).type
      then err empty_subscript
      else (expression_loop f p fresh_builder false >>= λ (n, q).
          if is_r_bracket (this_token q).type
          then (next_token (ignore_end q) >>= λ r. ok (n, r))
          else (expect is_comma tok_comma q >>= λ r.
              parse_list f bracket false (node n no_nodes) (ignore_begin (ignore_end r))
              >>= λ (args, s). ok (tuple args, s)))

-- parse_expression
unfoldable pub parse_expression : ℕ → Parser → Result (Node × Parser)
unfolding expression_loop
parse_expression fuel p = expression_loop fuel p fresh_builder false
