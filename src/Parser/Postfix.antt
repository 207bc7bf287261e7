-- ===== src/Parser/Postfix.antt =====
-- parse_expression_1 where a period stands behind brackets or parentheses.
use zis_lang.Common.{ℕ, suc, ◌+◌, ◌-◌, ◌≡◌, refl, [], ◌∷◌, arith}
use zis_lang.Token.{op_period, tok_l_paren, tok_r_paren, tok_l_bracket, tok_r_bracket, identifier}
use zis_lang.Parser.{name, field, bin, BinType, ok, err, unexpected_node, next_token, skip_eol}
use zis_lang.Parser.Builder.{put_operator, put_r_paren, generate_expr}
use zis_lang.Parser.Expression.{
  parse_expression, expression_loop, parse_list, parse_subs, kind_of, sign_of, expect, closes,
}
use zis_lang.Parser.Expression.Reads.{tok, at_tokens}

-- For all names, `a[i].b` is read as `a[i.b]`, and `a(i).b` is refused.
pub parse_expression-period_behind :
    (a i b n f : ℕ)
    → let fuel = suc (suc (suc (suc (suc (suc (suc (suc f))))))) in
      let name_of = λ (v : ℕ). tok identifier v in
      (parse_expression fuel (
          at_tokens n (
            name_of a
            ∷ tok tok_l_bracket 0
            ∷ name_of i
            ∷ tok tok_r_bracket 0
            ∷ tok op_period 0
            ∷ name_of b
            ∷ []))
        ≡ ok (bin BinType.subscript (name a) (field (name i) b), at_tokens n []))
      × (parse_expression fuel (
            at_tokens n (
              name_of a
              ∷ tok tok_l_paren 0
              ∷ name_of i
              ∷ tok tok_r_paren 0
              ∷ tok op_period 0
              ∷ name_of b
              ∷ []))
          ≡ err unexpected_node)
unfolding parse_expression expression_loop parse_list parse_subs kind_of sign_of expect closes
    put_operator put_r_paren generate_expr next_token skip_eol
parse_expression-period_behind a i b n f =
    let m : n + 1 - 1 ≡ n = omega arith in (rw (expression_loop, m) refl, refl)
