-- ===== src/Parser/Operands.antt =====
-- The operators of the table and their operands, as they are written, are read back.
use zis_lang.Common.{
  ℕ, suc, ◌≤◌, ◌<◌, ◌≡◌, refl, false, List, ◌∷◌, ◌++◌, ltb, leb, arith, Bool-cases, inl, inr,
}
use zis_lang.Token.{TokenType, tok_l_paren}
use zis_lang.Parser
use zis_lang.Parser.{
  Node, Nodes, no_nodes, node, nil, bool, constant, name, un, bin, range, field, send, call,
  args_only, tuple, array, UnType, BinType, Tok, ok, skip_eol,
}
use zis_lang.Parser.Operators.{operator_precedence}
use zis_lang.Parser.Builder.{gen_one_expr}
use zis_lang.Parser.Expression.{Closing, paren, closes, kind_of, sign_of}
use zis_lang.Parser.Expression.Reads.{tok, Reads, IsInfix}
use zis_lang.Parser.Expression.Parts.{StartsWell, parenthesised, paren-Reads, IsPrefix}
use zis_lang.Parser.Print.{
  un_token, un_operator, bin_token, bin_level, bin_left, is_subscript, level, left_level, as_left,
  as_right,
}

pub level_bounds :
    (e : Node) → (left_level e ≤ level e) × (level e ≤ suc (left_level e)) × (left_level e < 253)
unfolding level left_level
level_bounds nil = omega arith
level_bounds (bool b) = omega arith
level_bounds (constant v) = omega arith
level_bounds (name n) = omega arith
level_bounds (un u e) = omega arith
level_bounds (bin b l r) = bin_bounds b
  where
    bin_bounds :
        (b : BinType)
        → (bin_left b ≤ bin_level b) × (bin_level b ≤ suc (bin_left b)) × (bin_left b < 253)
    bin_bounds BinType.add = omega arith
    bin_bounds BinType.assign = omega arith
    bin_bounds _ = omega arith
level_bounds (range l r x) = omega arith
level_bounds (field e n) = omega arith
level_bounds (send m args) = omega arith
level_bounds (call e args) = omega arith
level_bounds (tuple es) = omega arith
level_bounds (array es) = omega arith
level_bounds (Parser.map es) = omega arith
level_bounds (args_only es) = omega arith

pub bin-IsInfix :
    (b : BinType) → is_subscript b ≡ false → IsInfix (bin_token b) (bin_level b) (bin_left b)
unfolding kind_of sign_of operator_precedence skip_eol
bin-IsInfix BinType.subscript h = cc
bin-IsInfix BinType.add h = record {
  kind = refl;
  sign = refl;
  prec = refl;
  tight = (omega arith, omega arith);
  no_paren = refl;
  no_end = λ n v ts. refl;
}
bin-IsInfix _ h = record {
  kind = refl;
  sign = refl;
  prec = refl;
  tight = (omega arith, omega arith);
  no_paren = refl;
  no_end = λ n v ts. refl;
}

pub bin-gen :
    (b : BinType) (l r : Node) (ns : List Node)
    → gen_one_expr (bin_token b) (r ∷ l ∷ ns) ≡ ok (bin b l r ∷ ns)
unfolding gen_one_expr
bin-gen BinType.add l r ns = refl
bin-gen _ l r ns = refl

pub un-IsPrefix : (u : UnType) → IsPrefix (un_token u) (un_operator u)
unfolding kind_of sign_of operator_precedence
un-IsPrefix UnType.pos = record { kind = refl; sign = refl; prec = refl; no_paren = refl }
un-IsPrefix _ = record { kind = refl; sign = refl; prec = refl; no_paren = refl }

pub un-gen :
    (u : UnType) (e : Node) (ns : List Node)
    → gen_one_expr (un_operator u) (e ∷ ns) ≡ ok (un u e ∷ ns)
unfolding gen_one_expr
un-gen UnType.pos e ns = refl
un-gen _ e ns = refl

-- A token that starts an expression
pub starts_with :
    (t : TokenType) (v : ℕ) (others : List Tok)
    → ((n : ℕ) (us : List Tok) → skip_eol n (tok t v ∷ us) ≡ ok (tok t v ∷ us))
    → ((end : Closing) → closes end t ≡ false)
    → StartsWell (tok t v ∷ others)
starts_with t v others s c = record {
  first = tok t v;
  others = others;
  shape = refl;
  stays = s;
  no_close = c;
}

pub StartsWell-append : (ts us : List Tok) → StartsWell ts → StartsWell (ts ++ us)
StartsWell-append ts us s = record {
  first = s.first;
  others = s.others ++ us;
  shape = rw s.shape refl;
  stays = s.stays;
  no_close = s.no_close;
}

pub paren-StartsWell : (ts : List Tok) → StartsWell (parenthesised ts)
unfolding skip_eol closes
paren-StartsWell ts = starts_with tok_l_paren 0 _ (λ n us. refl) not_closing
  where
    not_closing : (end : Closing) → closes end tok_l_paren ≡ false
    not_closing paren = refl
    not_closing _ = refl

-- An operand of an operator, in parentheses or not
pub record AsOperand (ts : List Tok) (e : Node) (most left_most : ℕ) : Type 0 where
  pub level : ℕ
  pub left : ℕ
  pub reads : Reads ts e level left
  pub starts : StartsWell ts
  pub fits : level ≤ most
  pub left_fits : left < left_most

pub left-AsOperand :
    (c : ℕ) (e : Node) (ts : List Tok)
    → Reads ts e (level e) (left_level e)
    → StartsWell ts
    → AsOperand (as_left c (level e) ts) e c (suc c)
left-AsOperand c e ts r s = elim (Bool-cases (leb (level e) c)) [
  | inl y ↦ rw y (record {
    level = level e;
    left = left_level e;
    reads = r;
    starts = s;
    fits = ground arith;
    left_fits = ground (arith, (level_bounds e).0);
  })
  | inr n ↦ rw n (record {
    level = 0;
    left = 0;
    reads = paren-Reads ts e (level e) (left_level e) r (level_bounds e).2 s;
    starts = paren-StartsWell ts;
    fits = omega arith;
    left_fits = omega arith;
  })
]

pub right-AsOperand :
    (v : ℕ) (e : Node) (ts : List Tok)
    → 0 < v
    → Reads ts e (level e) (left_level e)
    → StartsWell ts
    → AsOperand (as_right v (left_level e) ts) e v v
right-AsOperand v e ts p r s = elim (Bool-cases (ltb (left_level e) v)) [
  | inl y ↦ rw y (record {
    level = level e;
    left = left_level e;
    reads = r;
    starts = s;
    fits = ground (arith, (level_bounds e).1);
    left_fits = ground arith;
  })
  | inr n ↦ rw n (record {
    level = 0;
    left = 0;
    reads = paren-Reads ts e (level e) (left_level e) r (level_bounds e).2 s;
    starts = paren-StartsWell ts;
    fits = omega arith;
    left_fits = omega arith;
  })
]

-- Any operator binds less tightly than an operand by itself.
pub bin_level-pos : (b : BinType) → 0 < bin_level b
bin_level-pos BinType.add = omega arith
bin_level-pos _ = omega arith
