-- ===== src/Parser/Expression/Calls.antt =====
-- parse_expression_1 on calls, subscripts, arrays and tuples.
use mathlib.Core.List.{append_assoc}
use zis_lang.Common.{
  ℕ, zero, suc, ◌+◌, ◌-◌, ◌*◌, ◌≤◌, ◌<◌, ◌≡◌, refl, ap, ◌∙◌, true, false, List, [], ◌∷◌, ◌++◌,
  arith, length, length-append,
}
use zis_lang.Token.{TokenType, tok_l_paren, tok_r_bracket, tok_l_bracket, op_call, op_subscript}
use zis_lang.Parser.{
  Node, Nodes, no_nodes, Tok, ok, skip_eol, next_token, this_token, call, args_only, bin, BinType,
}
use zis_lang.Parser.Operators.{operator_precedence}
use zis_lang.Parser.Builder.{Builder, gen_one_expr, put_operator, put_operand}
use zis_lang.Parser.Expression.{
  expression_loop, parse_subs, kind_of, no_part, paren, bracket, closes, is_r_bracket, sign_of,
}
use zis_lang.Parser.Expression.Reads.{
  tok, at_tokens, stacks, Reads, IsInfix, entry, put_operator-Stands, Stands-operator,
  IsAbove-lower,
}
use zis_lang.Parser.Expression.Parts.{StartsWell, StartsWell-stays, Stands-refl}
use zis_lang.Parser.Expression.Lists.{ReadsList, append_nodes-no_nodes, expression_loop-Reads}

-- The tokens of a list do not start with the end of a statement.
abbrev pub Stays : List Tok → Type 0
Stays us = (n : ℕ) (rest : List Tok) → skip_eol n (us ++ rest) ≡ ok (us ++ rest)

op_call-IsInfix : IsInfix op_call 2 2
unfolding kind_of sign_of operator_precedence skip_eol
op_call-IsInfix = record {
  kind = refl;
  sign = refl;
  prec = refl;
  tight = (omega arith, omega arith);
  no_paren = refl;
  no_end = λ n v ts. refl;
}

op_subscript-IsInfix : IsInfix op_subscript 2 2
unfolding kind_of sign_of operator_precedence skip_eol
op_subscript-IsInfix = record {
  kind = refl;
  sign = refl;
  prec = refl;
  tight = (omega arith, omega arith);
  no_paren = refl;
  no_end = λ n v ts. refl;
}

call_step :
    (f n : ℕ) (us rest : List Tok) (args : Nodes) (eb eb' : Builder)
    → put_operator eb op_call ≡ ok eb'
    → Stays us
    → ReadsList us args paren
    → 2 * length us ≤ f
    → skip_eol n rest ≡ ok rest
    → expression_loop (suc f) (at_tokens n (tok tok_l_paren 0 ∷ (us ++ rest))) eb true
      ≡ expression_loop f (at_tokens n rest) (put_operand eb' (args_only args)) true
unfolding expression_loop next_token kind_of
call_step f n us rest args eb eb' q s r l h =
    rw (expression_loop, q, s (n + 1) rest, r f n rest no_nodes l h, append_nodes-no_nodes args)
      refl

pub call-Reads :
    (tv us : List Tok) (v : Node) (args : Nodes) (lv bv : ℕ)
    → Reads tv v lv bv
    → lv ≤ 2
    → bv ≤ 2
    → Stays us
    → ReadsList us args paren
    → Reads (tv ++ tok tok_l_paren 0 ∷ us) (call v args) 2 2
unfolding gen_one_expr skip_eol
call-Reads tv us v args lv bv c hl hb s r = record {
  steps = c.steps + 1;
  extra = c.extra + 2 * length us;
  enough = omega (arith, c.enough, length-append tv (tok tok_l_paren 0 ∷ us));
  from = λ f n rest ops ns hf hr ha.
      let x =
        c.from (suc f) n (tok tok_l_paren 0 ∷ (us ++ rest)) ops ns (omega arith) refl
          (IsAbove-lower bv 2 ops hb ha) in
      record {
        ops' = entry op_call 2 ∷ ops;
        ns' = args_only args ∷ v ∷ ns;
        run =
            ap
              (λ (j : ℕ).
                expression_loop j (at_tokens n ((tv ++ tok tok_l_paren 0 ∷ us) ++ rest))
                  (stacks ops ns) false)
              (omega arith)
            ∙ ap
                (λ (ts : List Tok).
                  expression_loop (c.steps + suc f) (at_tokens n ts) (stacks ops ns) false)
                (append_assoc tv (tok tok_l_paren 0 ∷ us) rest)
            ∙ x.run
            ∙ call_step f n us rest args (stacks x.ops' x.ns') _
                (put_operator-Stands op_call 2 2 lv ops x.ops' (v ∷ ns) x.ns' op_call-IsInfix
                  x.stands hl ha)
                s r (omega arith) hr;
        stands =
            Stands-operator op_call 2 2 2 ops (entry op_call 2 ∷ ops) ns (args_only args ∷ v ∷ ns) v
              (args_only args) (call v args) op_call-IsInfix refl (Stands-refl _ _ 2) (omega arith);
      };
}

closes-is_r_bracket : (t : TokenType) → closes bracket t ≡ false → is_r_bracket t ≡ false
unfolding closes
closes-is_r_bracket tok_r_bracket h = cc
closes-is_r_bracket t h = ground arith

subscript_step :
    (f n : ℕ) (tk rest : List Tok) (key : Node) (lk bk : ℕ) (eb eb' : Builder)
    → put_operator eb op_subscript ≡ ok eb'
    → Reads tk key lk bk
    → StartsWell tk
    → 2 * length tk + 1 < f
    → skip_eol n rest ≡ ok rest
    → expression_loop
        (suc f)
        (at_tokens n (tok tok_l_bracket 0 ∷ (tk ++ tok tok_r_bracket 0 ∷ rest)))
        eb
        true
      ≡ expression_loop f (at_tokens n rest) (put_operand eb' key) true
unfolding expression_loop parse_subs next_token kind_of skip_eol
subscript_step zero n tk rest key lk bk eb eb' q c s l h = absurd (omega arith)
subscript_step (suc f) n tk rest key lk bk eb eb' q c s l h =
    let behind = tok tok_r_bracket 0 ∷ rest in
    let m : n + 1 - 1 ≡ n = omega arith in
    let d : is_r_bracket (this_token (at_tokens (n + 1) (tk ++ behind))).type ≡ false =
      rw s.shape (closes-is_r_bracket s.first.type (s.no_close bracket)) in
    let x =
      expression_loop-Reads tk key lk bk f (n + 1) (tok tok_r_bracket 0) rest no_part c
        (omega arith) refl refl tt in
    rw (expression_loop, q, StartsWell-stays tk s (n + 1) behind, parse_subs, d, x, m, h) refl

pub subscript-Reads :
    (tv tk : List Tok) (v key : Node) (lv bv lk bk : ℕ)
    → Reads tv v lv bv
    → lv ≤ 2
    → bv ≤ 2
    → Reads tk key lk bk
    → StartsWell tk
    → Reads
        (tv ++ tok tok_l_bracket 0 ∷ (tk ++ tok tok_r_bracket 0 ∷ []))
        (bin BinType.subscript v key)
        2
        2
unfolding gen_one_expr skip_eol
subscript-Reads tv tk v key lv bv lk bk c hl hb ck s = record {
  steps = c.steps + 1;
  extra = c.extra + (2 * length tk + 2);
  enough = omega (
    arith,
    c.enough,
    length-append tv (tok tok_l_bracket 0 ∷ (tk ++ tok tok_r_bracket 0 ∷ [])),
    length-append tk (tok tok_r_bracket 0 ∷ []),
  );
  from = λ f n rest ops ns hf hr ha.
      let behind = tok tok_r_bracket 0 ∷ rest in
      let us = tk ++ tok tok_r_bracket 0 ∷ [] in
      let x =
        c.from (suc f) n (tok tok_l_bracket 0 ∷ (tk ++ behind)) ops ns (omega arith) refl
          (IsAbove-lower bv 2 ops hb ha) in
      record {
        ops' = entry op_subscript 2 ∷ ops;
        ns' = key ∷ v ∷ ns;
        run =
            ap
              (λ (j : ℕ).
                expression_loop j (at_tokens n ((tv ++ tok tok_l_bracket 0 ∷ us) ++ rest))
                  (stacks ops ns) false)
              (omega arith)
            ∙ ap
                (λ (ts : List Tok).
                  expression_loop (c.steps + suc f) (at_tokens n ts) (stacks ops ns) false)
                (append_assoc tv (tok tok_l_bracket 0 ∷ us) rest
                  ∙ ap (λ (ts : List Tok). tv ++ tok tok_l_bracket 0 ∷ ts)
                      (append_assoc tk (tok tok_r_bracket 0 ∷ []) rest))
            ∙ x.run
            ∙ subscript_step f n tk rest key lk bk (stacks x.ops' x.ns') _
                (put_operator-Stands op_subscript 2 2 lv ops x.ops' (v ∷ ns) x.ns'
                  op_subscript-IsInfix x.stands hl ha)
                ck s (omega arith) hr;
        stands =
            Stands-operator op_subscript 2 2 2 ops (entry op_subscript 2 ∷ ops) ns (key ∷ v ∷ ns) v
              key (bin BinType.subscript v key) op_subscript-IsInfix refl (Stands-refl _ _ 2)
              (omega arith);
      };
}
