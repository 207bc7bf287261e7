-- ===== src/Tests/Parsing.antt =====
-- Expressions of the parser.
use zis_lang.Common.{ℕ, ◌≡◌, refl, ◌++◌, [], ◌∷◌, arith}
use zis_lang.Token.{
  end_of_statement, identifier, tok_l_bracket, tok_r_bracket, tok_l_paren, tok_r_paren, op_period,
}
use zis_lang.Parser.{
  Node, no_nodes, node, constant, name, un, bin, field, call, UnType, BinType, ok, err,
  unexpected_node, skip_eol,
}
use zis_lang.Parser.Expression.{parse_expression, kind_of}
use zis_lang.Parser.Expression.Reads.{tok, at_tokens}
use zis_lang.Parser.Print.{print, IsExpression, level, left_level}
use zis_lang.Parser.RoundTrip.{parse_expression-print}
use zis_lang.Parser.Postfix.{parse_expression-period_behind}

-- -f(x, y[1]) * (a + b.c)
abbrev sample : Node
sample =
    bin BinType.mul
      (un UnType.neg (
        call (name 1)
          (node (name 2) (node (bin BinType.subscript (name 3) (constant 4)) no_nodes))))
      (bin BinType.add (name 5) (field (name 6) 7))

parse_expression-print_example :
    parse_expression 60 (at_tokens 0 (print sample ++ tok end_of_statement 0 ∷ []))
    ≡ ok (sample, at_tokens 0 (tok end_of_statement 0 ∷ []))
unfolding skip_eol kind_of IsExpression print level left_level
parse_expression-print_example =
    parse_expression-print sample 60 0 (tok end_of_statement 0) []
      ((tt, (tt, ((tt, tt), tt))), (tt, tt)) (omega arith) tt refl

parse_expression-period_behind_example :
    let name_of = λ (v : ℕ). tok identifier v in
    (parse_expression 9 (
        at_tokens 0 (
          name_of 1
          ∷ tok tok_l_bracket 0
          ∷ name_of 2
          ∷ tok tok_r_bracket 0
          ∷ tok op_period 0
          ∷ name_of 3
          ∷ []))
      ≡ ok (bin BinType.subscript (name 1) (field (name 2) 3), at_tokens 0 []))
    × (parse_expression 9 (
          at_tokens 0 (
            name_of 1
            ∷ tok tok_l_paren 0
            ∷ name_of 2
            ∷ tok tok_r_paren 0
            ∷ tok op_period 0
            ∷ name_of 3
            ∷ []))
        ≡ err unexpected_node)
parse_expression-period_behind_example = parse_expression-period_behind 1 2 3 0 1
