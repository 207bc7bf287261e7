-- ===== src/Parser/Expression/Lists.antt =====
-- parse_expression up to a token that ends it, and the lists in expressions.
use mathlib.Core.List.{append_assoc}
use zis_lang.Common.{
  ℕ, zero, suc, ◌+◌, ◌-◌, ◌*◌, ◌≤◌, ◌<◌, ◌≡◌, refl, ap, ◌∙◌, true, false, List, [], ◌∷◌, ◌++◌,
  arith, if◌then◌else◌, length, length-append,
}
use zis_lang.Token.{TokenType, tok_r_paren, tok_r_bracket, tok_r_brace, tok_comma}
use zis_lang.Parser.{
  Node, Nodes, no_nodes, node, Tok, ok, ◌>>=◌, skip_eol, next_token, ignore_end, this_token,
}
use zis_lang.Parser.Builder.{
  Operator, gen_to_paren, gen_all, put_r_paren, generate_expr, only_operand, fresh_builder,
}
use zis_lang.Parser.Expression.{
  expression_loop, parse_list, kind_of, r_paren, comma, no_part, Kind, Closing, paren, bracket,
  brace, closes, append_node, expect, is_comma,
}
use zis_lang.Parser.Expression.Reads.{tok, at_tokens, stacks, Stands, Reads}
use zis_lang.Parser.Expression.Parts.{StartsWell, StartsWell-stays}

-- A kind of token behind an expression
abbrev pub IsEnd : Kind → Type 0
IsEnd comma = Unit {0}
IsEnd r_paren = Unit {0}
IsEnd no_part = Unit {0}
IsEnd _ = ⊥

end_step :
    (k : Kind) (t : Tok) (e : Node) (f n level : ℕ) (rest : List Tok) (ops : List Operator)
    (ns : List Node)
    → kind_of t.type ≡ k
    → IsEnd k
    → Stands ops ns [] (e ∷ []) level
    → expression_loop (suc f) (at_tokens n (t ∷ rest)) (stacks ops ns) true
      ≡ ok (e, at_tokens n (t ∷ rest))
unfolding expression_loop put_r_paren generate_expr gen_all gen_to_paren only_operand
end_step comma t e f n level rest ops ns q h s = rw (expression_loop, q, s.to_paren) refl
end_step r_paren t e f n level rest ops ns q h s = rw (expression_loop, q, s.to_paren) refl
end_step no_part t e f n level rest ops ns q h s = rw (expression_loop, q, s.all) refl
end_step _ t e f n level rest ops ns q h s = absurd h

-- With enough fuel, a whole expression is read up to the token behind it.
pub expression_loop-Reads :
    (ts : List Tok) (e : Node) (level b : ℕ) (fuel n : ℕ) (t : Tok) (rest : List Tok) (k : Kind)
    → Reads ts e level b
    → 2 * length ts < fuel
    → skip_eol n (t ∷ rest) ≡ ok (t ∷ rest)
    → kind_of t.type ≡ k
    → IsEnd k
    → expression_loop fuel (at_tokens n (ts ++ t ∷ rest)) fresh_builder false
      ≡ ok (e, at_tokens n (t ∷ rest))
expression_loop-Reads ts e level b fuel n t rest k c lf s q h =
    let f = fuel - suc c.steps in
    let y = c.from (suc f) n (t ∷ rest) [] [] (omega (arith, c.enough)) s tt in
    ap (λ (j : ℕ). expression_loop j (at_tokens n (ts ++ t ∷ rest)) fresh_builder false)
      (omega (arith, c.enough))
    ∙ y.run
    ∙ end_step k t e f n level rest y.ops' y.ns' q h y.stands

abbrev pub closing_type : Closing → TokenType
closing_type paren = tok_r_paren
closing_type bracket = tok_r_bracket
closing_type brace = tok_r_brace

abbrev pub closing_kind : Closing → Kind
closing_kind paren = r_paren
closing_kind bracket = no_part
closing_kind brace = no_part

closing-kind : (end : Closing) → kind_of (closing_type end) ≡ closing_kind end
unfolding kind_of
closing-kind paren = refl
closing-kind bracket = refl
closing-kind brace = refl

closing-IsEnd : (end : Closing) → IsEnd (closing_kind end)
closing-IsEnd paren = tt
closing-IsEnd bracket = tt
closing-IsEnd brace = tt

closing-closes : (end : Closing) → closes end (closing_type end) ≡ true
unfolding closes
closing-closes paren = refl
closing-closes bracket = refl
closing-closes brace = refl

pub closing-stays :
    (end : Closing) (n : ℕ) (rest : List Tok)
    → skip_eol n (tok (closing_type end) 0 ∷ rest) ≡ ok (tok (closing_type end) 0 ∷ rest)
unfolding skip_eol
closing-stays paren n rest = refl
closing-stays bracket n rest = refl
closing-stays brace n rest = refl

comma-closes : (end : Closing) → closes end tok_comma ≡ false
unfolding closes
comma-closes paren = refl
comma-closes bracket = refl
comma-closes brace = refl

abbrev pub append_nodes : Nodes → Nodes → Nodes
append_nodes ns no_nodes = ns
append_nodes ns (node m ms) = append_nodes (append_node ns m) ms

-- From any elements before, the list is read up to its last token.
abbrev pub ReadsList : List Tok → Nodes → Closing → Type 0
ReadsList us elements end =
    (fuel n : ℕ) (rest : List Tok) (before : Nodes)
    → 2 * length us ≤ fuel
    → skip_eol n rest ≡ ok rest
    → parse_list fuel end false before (at_tokens (n + 1) (us ++ rest))
      ≡ ok (append_nodes before elements, at_tokens n rest)

pub no_elements-ReadsList : (end : Closing) → ReadsList (tok (closing_type end) 0 ∷ []) no_nodes end
unfolding parse_list next_token
no_elements-ReadsList end zero n rest before l s = absurd (omega arith)
no_elements-ReadsList end (suc f) n rest before l s =
    let m : n + 1 - 1 ≡ n = omega arith in rw (parse_list, closing-closes end, m, s) refl

-- An element and what stands behind it, a comma or the last token.
element_step :
    (ts : List Tok) (e : Node) (level b : ℕ) (end : Closing) (f n : ℕ) (t : Tok) (rest : List Tok)
    (before : Nodes) (k : Kind)
    → Reads ts e level b
    → StartsWell ts
    → 2 * length ts < f
    → skip_eol (n + 1) (t ∷ rest) ≡ ok (t ∷ rest)
    → kind_of t.type ≡ k
    → IsEnd k
    → parse_list (suc f) end false before (at_tokens (n + 1) (ts ++ t ∷ rest)) ≡ (
        if closes end t.type
        then (next_token (ignore_end (at_tokens (n + 1) (t ∷ rest))) >>= λ s.
            ok (append_node before e, s))
        else (expect is_comma tok_comma (at_tokens (n + 1) (t ∷ rest))
            >>= parse_list f end false (append_node before e)))
unfolding parse_list
element_step ts e level b end f n t rest before k c w l s q h =
    let x = expression_loop-Reads ts e level b f (n + 1) t rest k c l s q h in
    let d : closes end (this_token (at_tokens (n + 1) (ts ++ t ∷ rest))).type ≡ false =
      rw w.shape (w.no_close end) in
    rw (d, x) refl

pub last_element-ReadsList :
    (ts : List Tok) (e : Node) (level b : ℕ) (end : Closing)
    → Reads ts e level b
    → StartsWell ts
    → ReadsList (ts ++ tok (closing_type end) 0 ∷ []) (node e no_nodes) end
unfolding next_token
last_element-ReadsList ts e level b end c w zero n rest before l s =
    absurd (omega (arith, length-append ts (tok (closing_type end) 0 ∷ [])))
last_element-ReadsList ts e level b end c w (suc f) n rest before l s =
    let t = tok (closing_type end) 0 in
    let m : n + 1 - 1 ≡ n = omega arith in
    ap (λ (us : List Tok). parse_list (suc f) end false before (at_tokens (n + 1) us))
      (append_assoc ts (t ∷ []) rest)
    ∙ element_step ts e level b end f n t rest before (closing_kind end) c w
        (omega (arith, length-append ts (t ∷ []))) (closing-stays end (n + 1) rest)
        (closing-kind end) (closing-IsEnd end)
    ∙ rw (closing-closes end, m, s) refl

pub more_elements-ReadsList :
    (ts : List Tok) (e : Node) (level b : ℕ) (end : Closing) (us : List Tok) (es : Nodes)
    → Reads ts e level b
    → StartsWell ts
    → StartsWell us
    → ReadsList us es end
    → ReadsList (ts ++ tok tok_comma 0 ∷ us) (node e es) end
unfolding next_token expect kind_of skip_eol
more_elements-ReadsList ts e level b end us es c w w' r zero n rest before l s =
    absurd (omega (arith, length-append ts (tok tok_comma 0 ∷ us)))
more_elements-ReadsList ts e level b end us es c w w' r (suc f) n rest before l s =
    let t = tok tok_comma 0 in
    ap (λ (vs : List Tok). parse_list (suc f) end false before (at_tokens (n + 1) vs))
      (append_assoc ts (t ∷ us) rest)
    ∙ element_step ts e level b end f n t (us ++ rest) before comma c w
        (omega (arith, length-append ts (t ∷ us))) refl refl tt
    ∙ rw (comma-closes end, StartsWell-stays us w' (n + 1) rest) refl
    ∙ r f n rest (append_node before e) (omega (arith, length-append ts (t ∷ us))) s

pub append_nodes-node :
    (m : Node) (ns es : Nodes) → append_nodes (node m ns) es ≡ node m (append_nodes ns es)
append_nodes-node m ns no_nodes = refl
append_nodes-node m ns (node e es) = append_nodes-node m (append_node ns e) es

pub append_nodes-no_nodes : (es : Nodes) → append_nodes no_nodes es ≡ es
append_nodes-no_nodes no_nodes = refl
append_nodes-no_nodes (node e es) =
    append_nodes-node e no_nodes es ∙ ap (node e) (append_nodes-no_nodes es)
