-- ===== src/Parser/Expression/Groups.antt =====
-- parse_expression_1 on arrays and tuples.
use mathlib.Core.List.{append_assoc}
use zis_lang.Common.{
  ℕ, suc, ◌+◌, ◌-◌, ◌*◌, ◌≤◌, ◌<◌, ◌≡◌, refl, sym, ap, ◌∙◌, true, false, List, [], ◌∷◌, ◌++◌, arith,
  length, length-append,
}
use zis_lang.Token.{tok_l_paren, tok_r_paren, tok_comma, tok_l_bracket}
use zis_lang.Parser.{Node, Nodes, no_nodes, node, Tok, ok, skip_eol, next_token, array, tuple}
use zis_lang.Parser.Builder.{Builder, put_operand, put_l_paren, put_r_paren, gen_to_paren}
use zis_lang.Parser.Expression.{expression_loop, kind_of, paren, bracket}
use zis_lang.Parser.Expression.Reads.{tok, at_tokens, stacks, Reads}
use zis_lang.Parser.Expression.Parts.{StartsWell, Stands-refl, l_paren_step, closes-is_r_paren}
use zis_lang.Parser.Expression.Lists.{
  ReadsList, append_nodes, append_nodes-no_nodes, append_nodes-node,
}
use zis_lang.Parser.Expression.Calls.{Stays}

array_step :
    (f n : ℕ) (us rest : List Tok) (args : Nodes) (eb : Builder)
    → Stays us
    → ReadsList us args bracket
    → 2 * length us ≤ f
    → skip_eol n rest ≡ ok rest
    → expression_loop (suc f) (at_tokens n (tok tok_l_bracket 0 ∷ (us ++ rest))) eb false
      ≡ expression_loop f (at_tokens n rest) (put_operand eb (array args)) true
unfolding expression_loop next_token kind_of
array_step f n us rest args eb s r l h =
    rw (expression_loop, s (n + 1) rest, r f n rest no_nodes l h, append_nodes-no_nodes args) refl

pub array-Reads :
    (us : List Tok) (args : Nodes)
    → Stays us
    → ReadsList us args bracket
    → Reads (tok tok_l_bracket 0 ∷ us) (array args) 0 0
array-Reads us args s r = record {
  steps = 1;
  extra = 2 * length us;
  enough = omega arith;
  from = λ f n rest ops ns hf hr ha. record {
    ops' = ops;
    ns' = array args ∷ ns;
    run =
        ap
          (λ (j : ℕ).
            expression_loop j (at_tokens n (tok tok_l_bracket 0 ∷ (us ++ rest))) (stacks ops ns)
              false)
          (omega arith)
        ∙ array_step f n us rest args (stacks ops ns) s r hf hr;
    stands = Stands-refl ops (array args ∷ ns) 0;
  };
}

unit_step :
    (f n : ℕ) (rest : List Tok) (eb : Builder)
    → skip_eol n rest ≡ ok rest
    → expression_loop (suc f) (at_tokens n (tok tok_l_paren 0 ∷ tok tok_r_paren 0 ∷ rest)) eb false
      ≡ expression_loop f (at_tokens n rest) (put_operand eb (tuple no_nodes)) true
unfolding expression_loop next_token kind_of skip_eol
unit_step f n rest eb h = let m : n + 1 - 1 ≡ n = omega arith in rw (expression_loop, m, h) refl

pub unit-Reads : Reads (tok tok_l_paren 0 ∷ tok tok_r_paren 0 ∷ []) (tuple no_nodes) 0 0
unit-Reads = record {
  steps = 1;
  extra = 0;
  enough = omega arith;
  from = λ f n rest ops ns hf hr ha. record {
    ops' = ops;
    ns' = tuple no_nodes ∷ ns;
    run =
        ap
          (λ (j : ℕ).
            expression_loop j (at_tokens n (tok tok_l_paren 0 ∷ tok tok_r_paren 0 ∷ rest))
              (stacks ops ns) false)
          (omega arith)
        ∙ unit_step f n rest (stacks ops ns) hr;
    stands = Stands-refl ops (tuple no_nodes ∷ ns) 0;
  };
}

comma_step :
    (f n : ℕ) (us rest : List Tok) (e : Node) (es : Nodes) (eb eb' : Builder) (ns : List Node)
    → put_r_paren eb ≡ ok (true, record eb' { operand_stack = e ∷ ns })
    → Stays us
    → ReadsList us es paren
    → 2 * length us ≤ f
    → skip_eol n rest ≡ ok rest
    → expression_loop (suc f) (at_tokens (n + 1) (tok tok_comma 0 ∷ (us ++ rest))) eb true
      ≡ expression_loop f
          (at_tokens n rest)
          (record eb' { operand_stack = tuple (node e es) ∷ ns })
          true
unfolding expression_loop next_token kind_of
comma_step f n us rest e es eb eb' ns q s r l h =
    let m : n + 1 - 1 ≡ n = omega arith in
    let all : append_nodes (node e no_nodes) es ≡ node e es =
      append_nodes-node e no_nodes es ∙ ap (node e) (append_nodes-no_nodes es) in
    rw (expression_loop, q, s (n + 1) rest, m, r f n rest (node e no_nodes) l h, all) refl

pub tuple-Reads :
    (ts us : List Tok) (e : Node) (es : Nodes) (level b : ℕ)
    → Reads ts e level b
    → b < 253
    → StartsWell ts
    → Stays us
    → ReadsList us es paren
    → Reads (tok tok_l_paren 0 ∷ (ts ++ tok tok_comma 0 ∷ us)) (tuple (node e es)) 0 0
unfolding put_r_paren gen_to_paren skip_eol
tuple-Reads ts us e es level b c hb s hs r = record {
  steps = suc (c.steps + 1);
  extra = c.extra + 2 * length us;
  enough = omega (arith, c.enough, length-append ts (tok tok_comma 0 ∷ us));
  from = λ f n rest ops ns hf hr ha.
      let behind = tok tok_comma 0 ∷ (us ++ rest) in
      let opened = (put_l_paren (stacks ops ns)).operator_stack in
      let y = c.from (suc f) (n + 1) behind opened ns (omega arith) refl hb in
      record {
        ops' = ops;
        ns' = tuple (node e es) ∷ ns;
        run =
            ap
              (λ (j : ℕ).
                expression_loop j
                  (at_tokens n (tok tok_l_paren 0 ∷ ((ts ++ tok tok_comma 0 ∷ us) ++ rest)))
                  (stacks ops ns) false)
              (omega arith)
            ∙ ap
                (λ (vs : List Tok).
                  expression_loop (suc (c.steps + suc f)) (at_tokens n (tok tok_l_paren 0 ∷ vs))
                    (stacks ops ns) false)
                (append_assoc ts (tok tok_comma 0 ∷ us) rest
                  ∙ ap (λ (vs : List Tok). vs ++ behind) s.shape)
            ∙ l_paren_step 0 (c.steps + suc f) n s.first (s.others ++ behind) (stacks ops ns)
                (s.stays (n + 1) (s.others ++ behind))
                (closes-is_r_paren s.first.type (s.no_close paren))
            ∙ ap
                (λ (vs : List Tok).
                  expression_loop (c.steps + suc f) (at_tokens (n + 1) (vs ++ behind))
                    (put_l_paren (stacks ops ns)) false)
                (sym s.shape)
            ∙ y.run
            ∙ comma_step f n us rest e es (stacks y.ops' y.ns') (stacks ops ns) ns y.stands.to_paren
                hs r (omega arith) hr;
        stands = Stands-refl ops (tuple (node e es) ∷ ns) 0;
      };
}
