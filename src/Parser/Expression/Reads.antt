-- ===== src/Parser/Expression/Reads.antt =====
-- What it means that parse_expression_1 reads tokens as a node, wherever they stand.
use mathlib.Core.List.{append_assoc}
use zis_lang.Common.{
  ℕ, suc, ◌+◌, ◌*◌, ◌≤◌, ◌<◌, ◌≡◌, refl, ap, ◌∙◌, Bool, true, false, List, [], ◌∷◌, ◌++◌, ltb,
  arith, ◌==◌, if◌then◌else◌, length, length-append,
}
use zis_lang.Common.Int.{pos, negsuc}
use zis_lang.Token.{TokenType}
use zis_lang.Parser.{Parser, Node, Tok, ok, skip_eol, next_token}
use zis_lang.Parser.Operators.{operator_precedence}
use zis_lang.Parser.Builder.{
  Operator, Builder, gen_one_expr, gen_tighter, gen_to_paren, gen_all, is_l_paren, prec_abs_of,
  prec_cmp_of, put_operator,
}
use zis_lang.Parser.Expression.{expression_loop, kind_of, an_operator, sign_of}

abbrev pub tok : TokenType → ℕ → Tok
tok t v = record { type = t; object = v }

abbrev pub at_tokens : ℕ → List Tok → Parser
at_tokens n ts = record { tokens = ts; ignore_eol = n }

abbrev pub stacks : List Operator → List Node → Builder
stacks ops ns = record { operator_stack = ops; operand_stack = ns }

-- The operator on the top binds less tightly than b.
abbrev pub IsAbove : ℕ → List Operator → Type 0
IsAbove b [] = Unit {0}
IsAbove b (top ∷ ops) = b < top.prec_abs

-- However the stacks are worked off, down to operators of level or more, they end as if the node had
-- been the operand.
pub record Stands (ops : List Operator) (ns : List Node) (ops' : List Operator) (ns' : List Node)
    (level : ℕ) : Type 0 where
  pub tighter : (k : ℕ) → level ≤ k → gen_tighter k ops ns ≡ gen_tighter k ops' ns'
  pub to_paren : gen_to_paren ops ns ≡ gen_to_paren ops' ns'
  pub all : gen_all ops ns ≡ gen_all ops' ns'

-- From any stacks on which the node may start, the loop reads the tokens and leaves stacks that stand
-- for the node.
pub record ReadsFrom (ts : List Tok) (steps : ℕ) (e : Node) (level : ℕ) (f n : ℕ) (rest : List Tok)
    (ops : List Operator) (ns : List Node) : Type 0 where
  pub ops' : List Operator
  pub ns' : List Node
  pub run :
      expression_loop (steps + f) (at_tokens n (ts ++ rest)) (stacks ops ns) false
      ≡ expression_loop f (at_tokens n rest) (stacks ops' ns') true
  pub stands : Stands ops' ns' ops (e ∷ ns) level

pub record Reads (ts : List Tok) (e : Node) (level b : ℕ) : Type 0 where
  pub steps : ℕ
  pub extra : ℕ
  pub enough : steps + extra ≤ 2 * length ts
  pub from :
      (f n : ℕ) (rest : List Tok) (ops : List Operator) (ns : List Node)
      → extra ≤ f
      → skip_eol n rest ≡ ok rest
      → IsAbove b ops
      → ReadsFrom ts steps e level f n rest ops ns

-- An operator between two operands, with what the table says of it
pub record IsInfix (t : TokenType) (level b : ℕ) : Type 0 where
  pub kind : kind_of t ≡ an_operator
  pub sign : sign_of true t ≡ t
  pub prec : operator_precedence t ≡ (if b == level then pos level else negsuc b)
  pub tight : (b ≤ level) × (level ≤ suc b)
  pub no_paren : is_l_paren t ≡ false
  pub no_end : (n : ℕ) (v : ℕ) (ts : List Tok) → skip_eol n (tok t v ∷ ts) ≡ ok (tok t v ∷ ts)

abbrev pub entry : TokenType → ℕ → Operator
entry t level = record { type = t; prec_abs = level }

prec_of :
    (level b : ℕ)
    → b ≤ level
    → level ≤ suc b
    → let p = if b == level then pos level else negsuc b in
      (prec_abs_of p ≡ level) × (prec_cmp_of p ≡ b)
prec_of level b h l = ground arith

pub gen_tighter-above :
    (b : ℕ) (ops : List Operator) (ns : List Node)
    → IsAbove b ops
    → gen_tighter b ops ns ≡ ok (stacks ops ns)
unfolding gen_tighter
gen_tighter-above b [] ns h = refl
gen_tighter-above b (top ∷ ops) ns h = ground arith

pub put_operator-Stands :
    (t : TokenType) (level b v : ℕ) (ops ops' : List Operator) (ns ns' : List Node)
    → IsInfix t level b
    → Stands ops' ns' ops ns v
    → v ≤ b
    → IsAbove b ops
    → put_operator (stacks ops' ns') t ≡ ok (stacks (entry t level ∷ ops) ns)
unfolding put_operator
put_operator-Stands t level b v ops ops' ns ns' i s l a =
    let p = prec_of level b i.tight.0 i.tight.1 in
    rw (i.prec, p.0, p.1, s.tighter b l, gen_tighter-above b ops ns a) refl

pub Stands-operator :
    (t : TokenType) (level b v : ℕ) (ops ops' : List Operator) (ns ns' : List Node) (l r e : Node)
    → IsInfix t level b
    → gen_one_expr t (r ∷ l ∷ ns) ≡ ok (e ∷ ns)
    → Stands ops' ns' (entry t level ∷ ops) (r ∷ l ∷ ns) v
    → v ≤ level
    → Stands ops' ns' ops (e ∷ ns) level
unfolding gen_tighter gen_to_paren gen_all
Stands-operator t level b v ops ops' ns ns' l r e i g s h = record {
  tighter = λ k hk.
      s.tighter k (omega arith) ∙ (let x : ltb k level ≡ false = ground arith in rw (x, g) refl);
  to_paren = s.to_paren ∙ rw (i.no_paren, g) refl;
  all = s.all ∙ rw g refl;
}

pub IsAbove-lower : (b b' : ℕ) (ops : List Operator) → b ≤ b' → IsAbove b' ops → IsAbove b ops
IsAbove-lower b b' [] l h = tt
IsAbove-lower b b' (top ∷ ops) l h = omega arith

pub operator_step :
    (t : TokenType) (v f n : ℕ) (ts : List Tok) (eb eb' : Builder) (last : Bool) (u : TokenType)
    → kind_of t ≡ an_operator
    → sign_of last t ≡ u
    → skip_eol n ts ≡ ok ts
    → put_operator eb u ≡ ok eb'
    → expression_loop (suc f) (at_tokens n (tok t v ∷ ts)) eb last
      ≡ expression_loop f (at_tokens n ts) eb' false
unfolding expression_loop next_token
operator_step t v f n ts eb eb' last u k s h q = rw (expression_loop, k, h, s, q) refl

pub infix-Reads :
    (t : TokenType) (level b v : ℕ) (tl tr : List Tok) (l r e : Node) (vl bl vr br : ℕ)
    → IsInfix t level b
    → ((ns : List Node) → gen_one_expr t (r ∷ l ∷ ns) ≡ ok (e ∷ ns))
    → Reads tl l vl bl
    → vl ≤ b
    → bl ≤ b
    → Reads tr r vr br
    → vr ≤ level
    → br < level
    → ((n : ℕ) (rest : List Tok) → skip_eol n (tr ++ rest) ≡ ok (tr ++ rest))
    → Reads (tl ++ tok t v ∷ tr) e level b
infix-Reads t level b v tl tr l r e vl bl vr br i g cl hvl hbl cr hvr hbr starts = record {
  steps = cl.steps + suc cr.steps;
  extra = cl.extra + cr.extra;
  enough = omega (arith, cl.enough, cr.enough, length-append tl (tok t v ∷ tr));
  from = λ f n rest ops ns hf hr ha.
      let x =
        cl.from (suc (cr.steps + f)) n (tok t v ∷ (tr ++ rest)) ops ns (omega arith)
          (i.no_end n v (tr ++ rest)) (IsAbove-lower bl b ops hbl ha) in
      let y = cr.from f n rest (entry t level ∷ ops) (l ∷ ns) (omega arith) hr hbr in
      record {
        ops' = y.ops';
        ns' = y.ns';
        run =
            ap
              (λ (k : ℕ).
                expression_loop k (at_tokens n ((tl ++ tok t v ∷ tr) ++ rest)) (stacks ops ns)
                  false)
              (omega arith)
            ∙ ap
                (λ (ts : List Tok).
                  expression_loop (cl.steps + suc (cr.steps + f)) (at_tokens n ts) (stacks ops ns)
                    false)
                (append_assoc tl (tok t v ∷ tr) rest)
            ∙ x.run
            ∙ operator_step t v (cr.steps + f) n (tr ++ rest) (stacks x.ops' x.ns') _ true t i.kind
                i.sign (starts n rest)
                (put_operator-Stands t level b vl ops x.ops' (l ∷ ns) x.ns' i x.stands hvl ha)
            ∙ y.run;
        stands = Stands-operator t level b vr ops y.ops' ns y.ns' l r e i (g ns) y.stands hvr;
      };
}
