-- ===== src/Parser/Starts.antt =====
-- What is written starts with a token that neither ends a list nor is skipped as the end of a line.
use zis_lang.Common.{ℕ, ◌≡◌, refl, true, false, List, [], ◌∷◌, ◌++◌, leb, Bool-cases, inl, inr}
use zis_lang.Token.{
  TokenType, tok_l_paren, tok_l_bracket, identifier, kw_nil, kw_true, kw_false, lit_int, op_add,
}
use zis_lang.Parser
use zis_lang.Parser.{
  Node, Nodes, no_nodes, node, nil, bool, constant, name, un, bin, range, field, send, call,
  args_only, tuple, array, UnType, BinType, Tok, ok, skip_eol,
}
use zis_lang.Parser.Expression.{Closing, paren, bracket, brace, closes}
use zis_lang.Parser.Expression.Reads.{tok}
use zis_lang.Parser.Expression.Parts.{StartsWell, StartsWell-stays, parenthesised}
use zis_lang.Parser.Expression.Lists.{closing-stays}
use zis_lang.Parser.Expression.Calls.{Stays}
use zis_lang.Parser.Print.{
  un_token, bin_left, is_subscript, level, as_left, print, print_list, IsExpression, AreExpressions,
}
use zis_lang.Parser.Operands.{starts_with, StartsWell-append, paren-StartsWell}

-- Types of tokens with which an expression may start
module _ (t : TokenType) (v : ℕ) (others : List Tok)
    (s : (n : ℕ) (us : List Tok) → skip_eol n (tok t v ∷ us) ≡ ok (tok t v ∷ us))
    (p : closes paren t ≡ false) (q : closes bracket t ≡ false) (r : closes brace t ≡ false) where
  starting : StartsWell (tok t v ∷ others)
  starting = starts_with t v others s not_closing
    where
      not_closing : (end : Closing) → closes end t ≡ false
      not_closing paren = p
      not_closing bracket = q
      not_closing brace = r

un-StartsWell : (u : UnType) (others : List Tok) → StartsWell (tok (un_token u) 0 ∷ others)
unfolding skip_eol closes
un-StartsWell UnType.pos others = starting op_add 0 others (λ n us. refl) refl refl refl
un-StartsWell u others = starting (un_token u) 0 others (λ n us. refl) refl refl refl

pub left-StartsWell :
    (c v : ℕ) (ts us : List Tok) → StartsWell ts → StartsWell (as_left c v ts ++ us)
left-StartsWell c v ts us s = elim (Bool-cases (leb v c)) [
  | inl y ↦ rw y (StartsWell-append ts us s)
  | inr n ↦ rw n (StartsWell-append (parenthesised ts) us (paren-StartsWell ts))
]

pub print-StartsWell : (e : Node) → IsExpression e → StartsWell (print e)
unfolding print skip_eol closes IsExpression
print-StartsWell nil h = starting kw_nil 0 [] (λ n us. refl) refl refl refl
print-StartsWell (bool true) h = starting kw_true 0 [] (λ n us. refl) refl refl refl
print-StartsWell (bool false) h = starting kw_false 0 [] (λ n us. refl) refl refl refl
print-StartsWell (constant v) h = starting lit_int v [] (λ n us. refl) refl refl refl
print-StartsWell (name n) h = starting identifier n [] (λ m us. refl) refl refl refl
print-StartsWell (un u e) h = un-StartsWell u _
print-StartsWell (bin b l r) h = elim (Bool-cases (is_subscript b)) [
  | inl y ↦ rw y (left-StartsWell 2 (level l) (print l) _ (print-StartsWell l h.0))
  | inr n ↦ rw n (left-StartsWell (bin_left b) (level l) (print l) _ (print-StartsWell l h.0))
]
print-StartsWell (range l r x) h = left-StartsWell 13 (level l) (print l) _ (print-StartsWell l h.0)
print-StartsWell (field e n) h = left-StartsWell 1 (level e) (print e) _ (print-StartsWell e h)
print-StartsWell (send m no_nodes) h = absurd h
print-StartsWell (send m (node e args)) h =
    left-StartsWell 3 (level e) (print e) _ (print-StartsWell e h.0)
print-StartsWell (call e args) h = left-StartsWell 2 (level e) (print e) _ (print-StartsWell e h.0)
print-StartsWell (tuple no_nodes) h = starting tok_l_paren 0 _ (λ n us. refl) refl refl refl
print-StartsWell (tuple (node e es)) h = starting tok_l_paren 0 _ (λ n us. refl) refl refl refl
print-StartsWell (array es) h = starting tok_l_bracket 0 _ (λ n us. refl) refl refl refl
print-StartsWell (Parser.map es) h = absurd h
print-StartsWell (args_only es) h = absurd h

pub print_list-Stays : (end : Closing) (es : Nodes) → AreExpressions es → Stays (print_list end es)
unfolding print_list AreExpressions
print_list-Stays end no_nodes h n rest = closing-stays end n rest
print_list-Stays end (node e no_nodes) h n rest =
    StartsWell-stays _ (StartsWell-append (print e) _ (print-StartsWell e h.0)) n rest
print_list-Stays end (node e (node e' es)) h n rest =
    StartsWell-stays _ (StartsWell-append (print e) _ (print-StartsWell e h.0)) n rest

pub print_list-StartsWell :
    (end : Closing) (e : Node) (es : Nodes)
    → IsExpression e
    → StartsWell (print_list end (node e es))
unfolding print_list
print_list-StartsWell end e no_nodes h = StartsWell-append (print e) _ (print-StartsWell e h)
print_list-StartsWell end e (node e' es) h = StartsWell-append (print e) _ (print-StartsWell e h)
