-- ===== src/Parser.antt =====
-- src/core/parser.c, the parser of expressions, and src/core/ast.h: what the two share.
-- Locations are not modelled. A token's object is a number that names it; a token that ends a
-- statement is a line feed (object 0) or a semicolon (any other).
pub mod Operators
pub mod Builder
pub mod Expression
pub mod Print
pub mod Operands
pub mod Starts
pub mod RoundTrip
pub mod Postfix
use zis_lang.Common.{
  ℕ, zero, suc, ◌+◌, ◌-◌, Bool, true, false, not, ◌&&◌, List, [], ◌∷◌, ◌==◌, if◌then◌else◌,
}
use zis_lang.Token.{TokenType, end_of_statement, end_of_file, tok_r_paren}

-- struct zis_token
pub record Tok : Type 0 where
  pub type : TokenType
  pub object : ℕ

-- The types of nodes for unary and for binary operators, of enum zis_ast_node_type
pub data UnType : Type 0 where
  pos : UnType
  neg : UnType
  bit_not : UnType
  not_ : UnType

pub data BinType : Type 0 where
  add : BinType
  sub : BinType
  mul : BinType
  div : BinType
  rem : BinType
  shl : BinType
  shr : BinType
  bit_and : BinType
  bit_or : BinType
  bit_xor : BinType
  pow : BinType
  assign : BinType
  eq : BinType
  ne : BinType
  lt : BinType
  le : BinType
  gt : BinType
  ge : BinType
  cmp : BinType
  and : BinType
  or : BinType
  subscript : BinType

-- struct zis_ast_node_obj, the nodes of expressions. A Call node has no value until its operator is
-- taken off the stack (args_only).
mutual
  pub data Node : Type 0 where
    nil : Node
    bool : Bool → Node
    constant : ℕ → Node
    name : ℕ → Node
    un : UnType → Node → Node
    bin : BinType → Node → Node → Node
    range : Node → Node → Bool → Node
    field : Node → ℕ → Node
    send : ℕ → Nodes → Node
    call : Node → Nodes → Node
    args_only : Nodes → Node
    tuple : Nodes → Node
    array : Nodes → Node
    map : Nodes → Node

  pub data Nodes : Type 0 where
    no_nodes : Nodes
    node : Node → Nodes → Nodes

-- error, error_unexpected_token, error_unexpected_node; `fault` is the use of a value that is not
-- set
pub data Error : Type 0 where
  too_few_operands : TokenType → Error
  unexpected_token : TokenType → Error
  unexpected_node : Error
  unexpected_char : Error
  empty_subscript : Error
  fault : Error

pub data Result {ℓ} (A : Type ℓ) : Type ℓ where
  ok : A → Result A
  err : Error → Result A
  out_of_fuel : Result A

infixl 5 ◌>>=◌
abbrev pub ◌>>=◌ {ℓ κ} : {A : Type ℓ} {B : Type κ} → Result A → (A → Result B) → Result B
ok a >>= f = f a
err e >>= f = err e
out_of_fuel >>= f = out_of_fuel

-- The lexer of a struct zis_parser: the tokens from this_token on, and how often ends of lines are
-- being ignored.
pub record Parser : Type 0 where
  pub tokens : List Tok
  pub ignore_eol : ℕ

-- this_token
abbrev pub this_token : Parser → Tok
this_token p = elim p.tokens [ [] ↦ record { type = end_of_file; object = 0 } | t ∷ ts ↦ t ]

-- scan_next on the end of a statement, while ends of lines are ignored
unfoldable pub skip_eol : ℕ → List Tok → Result (List Tok)
skip_eol ignoring [] = ok []
skip_eol ignoring (t ∷ ts) =
    let rest = skip_eol ignoring ts in
    elim t.type [
      | end_of_statement ↦
          if ignoring == 0 then ok (t ∷ ts) else if t.object == 0 then rest else err unexpected_char
      | _ ↦ ok (t ∷ ts)
    ]

-- next_token
unfoldable pub next_token : Parser → Result Parser
unfolding skip_eol
next_token p = elim p.tokens [
  | [] ↦ ok p
  | t ∷ ts ↦ skip_eol p.ignore_eol ts >>= λ ts'. ok (record p { tokens = ts' })
]

-- zis_lexer_ignore_eol_begin
abbrev pub ignore_begin : Parser → Parser
ignore_begin p = record p { ignore_eol = p.ignore_eol + 1 }

-- zis_lexer_ignore_eol_end
abbrev pub ignore_end : Parser → Parser
ignore_end p = record p { ignore_eol = p.ignore_eol - 1 }
