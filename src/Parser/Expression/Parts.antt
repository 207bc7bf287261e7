-- ===== src/Parser/Expression/Parts.antt =====
-- parse_expression_1 on the parts of an expression: operands, signs and parentheses.
use mathlib.Core.List.{append_assoc}
use zis_lang.Common.{
  ℕ, suc, ◌+◌, ◌-◌, ◌≤◌, ◌<◌, ◌≡◌, refl, sym, ap, ◌∙◌, true, false, List, [], ◌∷◌, ◌++◌, ltb, arith,
  length-append,
}
use zis_lang.Common.Int.{negsuc}
use zis_lang.Token.{TokenType, tok_l_paren, tok_r_paren}
use zis_lang.Parser.{Node, Tok, ok, skip_eol, next_token, name, nil, bool, constant}
use zis_lang.Parser.Operators.{operator_precedence}
use zis_lang.Parser.Builder.{
  Operator, Builder, gen_one_expr, gen_tighter, gen_to_paren, gen_all, is_l_paren, put_operator,
  put_operand, put_l_paren, put_r_paren,
}
use zis_lang.Parser.Expression.{
  expression_loop, kind_of, an_operator, a_literal, a_nil, a_bool, a_name, sign_of, Kind,
  is_r_paren, Closing, paren, closes,
}
use zis_lang.Parser.Expression.Reads.{
  tok, at_tokens, stacks, Stands, Reads, entry, gen_tighter-above, operator_step,
}

pub Stands-refl : (ops : List Operator) (ns : List Node) (level : ℕ) → Stands ops ns ops ns level
Stands-refl ops ns level = record { tighter = λ k h. refl; to_paren = refl; all = refl }

-- A kind of token that is an operand by itself
abbrev IsOperand : Kind → ℕ → Node → Type 0
IsOperand a_literal v e = e ≡ constant v
IsOperand a_nil v e = e ≡ nil
IsOperand (a_bool b) v e = e ≡ bool b
IsOperand a_name v e = e ≡ name v
IsOperand _ v e = ⊥

operand_step :
    (k : Kind) (t : TokenType) (v : ℕ) (e : Node) (f n : ℕ) (rest : List Tok) (eb : Builder)
    → kind_of t ≡ k
    → IsOperand k v e
    → skip_eol n rest ≡ ok rest
    → expression_loop (suc f) (at_tokens n (tok t v ∷ rest)) eb false
      ≡ expression_loop f (at_tokens n rest) (put_operand eb e) true
unfolding expression_loop next_token
operand_step a_literal t v e f n rest eb q h s = rw (expression_loop, q, s, h) refl
operand_step a_nil t v e f n rest eb q h s = rw (expression_loop, q, s, h) refl
operand_step (a_bool b) t v e f n rest eb q h s = rw (expression_loop, q, s, h) refl
operand_step a_name t v e f n rest eb q h s = rw (expression_loop, q, s, h) refl
operand_step _ t v e f n rest eb q h s = absurd h

pub operand-Reads :
    (k : Kind) (t : TokenType) (v : ℕ) (e : Node)
    → kind_of t ≡ k
    → IsOperand k v e
    → Reads (tok t v ∷ []) e 0 0
operand-Reads k t v e q h = record {
  steps = 1;
  extra = 0;
  enough = omega arith;
  from = λ f n rest ops ns hf hr ha. record {
    ops' = ops;
    ns' = e ∷ ns;
    run =
        ap (λ (j : ℕ). expression_loop j (at_tokens n (tok t v ∷ rest)) (stacks ops ns) false)
          (omega arith)
        ∙ operand_step k t v e f n rest (stacks ops ns) q h hr;
    stands = Stands-refl ops (e ∷ ns) 0;
  };
}

-- A token that makes the operator u before its operand
pub record IsPrefix (t u : TokenType) : Type 0 where
  pub kind : kind_of t ≡ an_operator
  pub sign : sign_of false t ≡ u
  pub prec : operator_precedence u ≡ negsuc 2
  pub no_paren : is_l_paren u ≡ false

pub prefix-Reads :
    (t u : TokenType) (v : ℕ) (tr : List Tok) (r e : Node) (vr br : ℕ)
    → IsPrefix t u
    → ((ns : List Node) → gen_one_expr u (r ∷ ns) ≡ ok (e ∷ ns))
    → Reads tr r vr br
    → vr ≤ 3
    → br < 3
    → ((n : ℕ) (rest : List Tok) → skip_eol n (tr ++ rest) ≡ ok (tr ++ rest))
    → Reads (tok t v ∷ tr) e 3 2
unfolding put_operator gen_tighter gen_to_paren gen_all
prefix-Reads t u v tr r e vr br i g c hv hb starts = record {
  steps = suc c.steps;
  extra = c.extra;
  enough = omega (arith, c.enough);
  from = λ f n rest ops ns hf hr ha.
      let y = c.from f n rest (entry u 3 ∷ ops) ns (omega arith) hr hb in
      record {
        ops' = y.ops';
        ns' = y.ns';
        run =
            ap
              (λ (j : ℕ).
                expression_loop j (at_tokens n (tok t v ∷ (tr ++ rest))) (stacks ops ns) false)
              (omega arith)
            ∙ operator_step t v (c.steps + f) n (tr ++ rest) (stacks ops ns) _ false u i.kind i.sign
                (starts n rest) (rw (i.prec, gen_tighter-above 2 ops ns ha) refl)
            ∙ y.run;
        stands = record {
          tighter = λ k hk.
              y.stands.tighter k (omega arith)
              ∙ (let x : ltb k 3 ≡ false = ground arith in rw (x, g ns) refl);
          to_paren = y.stands.to_paren ∙ rw (i.no_paren, g ns) refl;
          all = y.stands.all ∙ rw (g ns) refl;
        };
      };
}

-- Parentheses
pub l_paren_step :
    (v f n : ℕ) (t : Tok) (ts : List Tok) (eb : Builder)
    → skip_eol (n + 1) (t ∷ ts) ≡ ok (t ∷ ts)
    → is_r_paren t.type ≡ false
    → expression_loop (suc f) (at_tokens n (tok tok_l_paren v ∷ t ∷ ts)) eb false
      ≡ expression_loop f (at_tokens (n + 1) (t ∷ ts)) (put_l_paren eb) false
unfolding expression_loop next_token kind_of
l_paren_step v f n t ts eb s h = rw (expression_loop, s, h) refl

r_paren_step :
    (v f n : ℕ) (ts : List Tok) (eb eb' : Builder)
    → put_r_paren eb ≡ ok (true, eb')
    → skip_eol n ts ≡ ok ts
    → expression_loop (suc f) (at_tokens (n + 1) (tok tok_r_paren v ∷ ts)) eb true
      ≡ expression_loop f (at_tokens n ts) eb' true
unfolding expression_loop next_token kind_of
r_paren_step v f n ts eb eb' q s =
    let m : n + 1 - 1 ≡ n = omega arith in rw (expression_loop, q, m, s) refl

-- The first token of an expression neither ends a statement nor closes parentheses.
pub record StartsWell (ts : List Tok) : Type 0 where
  pub first : Tok
  pub others : List Tok
  pub shape : ts ≡ first ∷ others
  pub stays : (n : ℕ) (us : List Tok) → skip_eol n (first ∷ us) ≡ ok (first ∷ us)
  pub no_close : (end : Closing) → closes end first.type ≡ false

pub closes-is_r_paren : (t : TokenType) → closes paren t ≡ false → is_r_paren t ≡ false
unfolding closes
closes-is_r_paren tok_r_paren h = cc
closes-is_r_paren t h = ground arith

pub StartsWell-stays :
    (ts : List Tok)
    → StartsWell ts
    → (n : ℕ) (rest : List Tok) → skip_eol n (ts ++ rest) ≡ ok (ts ++ rest)
StartsWell-stays ts s n rest = rw s.shape (s.stays n (s.others ++ rest))

abbrev pub parenthesised : List Tok → List Tok
parenthesised ts = tok tok_l_paren 0 ∷ (ts ++ tok tok_r_paren 0 ∷ [])

pub paren-Reads :
    (ts : List Tok) (e : Node) (level b : ℕ)
    → Reads ts e level b
    → b < 253
    → StartsWell ts
    → Reads (parenthesised ts) e 0 0
unfolding put_r_paren gen_to_paren skip_eol
paren-Reads ts e level b c hb s = record {
  steps = suc (c.steps + 1);
  extra = c.extra;
  enough = omega (arith, c.enough, length-append ts (tok tok_r_paren 0 ∷ []));
  from = λ f n rest ops ns hf hr ha.
      let y =
        c.from (suc f) (n + 1) (tok tok_r_paren 0 ∷ rest)
          (put_l_paren (stacks ops ns)).operator_stack ns (omega arith) refl hb in
      let behind = tok tok_r_paren 0 ∷ rest in
      record {
        ops' = ops;
        ns' = e ∷ ns;
        run =
            ap
              (λ (j : ℕ).
                expression_loop j (at_tokens n (parenthesised ts ++ rest)) (stacks ops ns) false)
              (omega arith)
            ∙ ap
                (λ (us : List Tok).
                  expression_loop (suc (c.steps + suc f)) (at_tokens n (tok tok_l_paren 0 ∷ us))
                    (stacks ops ns) false)
                (append_assoc ts (tok tok_r_paren 0 ∷ []) rest
                  ∙ ap (λ (us : List Tok). us ++ behind) s.shape)
            ∙ l_paren_step 0 (c.steps + suc f) n s.first (s.others ++ behind) (stacks ops ns)
                (s.stays (n + 1) (s.others ++ behind))
                (closes-is_r_paren s.first.type (s.no_close paren))
            ∙ ap
                (λ (us : List Tok).
                  expression_loop (c.steps + suc f) (at_tokens (n + 1) (us ++ behind))
                    (put_l_paren (stacks ops ns)) false)
                (sym s.shape)
            ∙ y.run
            ∙ r_paren_step 0 f n rest (stacks y.ops' y.ns') (stacks ops (e ∷ ns)) y.stands.to_paren
                hr;
        stands = Stands-refl ops (e ∷ ns) 0;
      };
}
