-- ===== src/Filter/Grammar.antt =====
-- The grammar that the header of filterexpr.cpp states, over tokens, and what an expression means.
use clumsy.Prelude.{
  ℕ, ◌<◌, ◌≡◌, Bool, true, false, not, ◌&&◌, ◌||◌, some, List, [], ◌∷◌, ◌++◌, get_elem?,
}
use clumsy.Packet.{PacketMeta}
use clumsy.Filter.{
  Node, Program, Field, Op, PacketFields, compare_field, both, either, negate, eval_kind,
}
use clumsy.Filter.Lexer.{Conversions, Token, Cursor, next}
use clumsy.Filter.Parser.{
  ok, is_or, is_and, is_not, is_open, is_close, is_end, is_ident, keyword, lookup_field, operator,
  value_for,
}

-- An atom is a keyword or a comparison.
pub data Expr : Type 0 where
  atom : Node → Expr
  conj disj : Expr → Expr → Expr
  neg : Expr → Expr

-- The grammar, with the tokens of each phrase: `or` binds less than `and`, both group to the left,
-- and `not` binds most.
mutual
  pub data OrExpr : List Token → Expr → Type 0 where
    or_one : {ts : List Token} {e : Expr} → AndExpr ts e → OrExpr ts e
    or_more :
        {ts us : List Token} {d e : Expr} (t : Token)
        → OrExpr ts d
        → is_or t ≡ true
        → AndExpr us e
        → OrExpr (ts ++ t ∷ us) (disj d e)

  pub data AndExpr : List Token → Expr → Type 0 where
    and_one : {ts : List Token} {e : Expr} → NotExpr ts e → AndExpr ts e
    and_more :
        {ts us : List Token} {d e : Expr} (t : Token)
        → AndExpr ts d
        → is_and t ≡ true
        → NotExpr us e
        → AndExpr (ts ++ t ∷ us) (conj d e)

  pub data NotExpr : List Token → Expr → Type 0 where
    not_one : {ts : List Token} {e : Expr} → PrimaryExpr ts e → NotExpr ts e
    not_more :
        {ts : List Token} {e : Expr} (t : Token)
        → is_not t ≡ true
        → NotExpr ts e
        → NotExpr (t ∷ ts) (neg e)

  pub data PrimaryExpr : List Token → Expr → Type 0 where
    group :
        {ts : List Token} {e : Expr} (t u : Token)
        → is_open t ≡ true
        → OrExpr ts e
        → is_close u ≡ true
        → PrimaryExpr (t ∷ (ts ++ u ∷ [])) e
    word :
        (t : Token) (n : Node)
        → is_ident t.kind ≡ true
        → keyword t.text ≡ some n
        → PrimaryExpr (t ∷ []) (atom n)
    comparison :
        (t u v : Token) (field : Field) (op : Op) (x : ℕ)
        → is_ident t.kind ≡ true
        → lookup_field t.text ≡ some field
        → operator u ≡ some op
        → value_for t.text field v ≡ ok x
        → PrimaryExpr (t ∷ u ∷ v ∷ []) (atom (compare_field field op x))

-- What an expression says of a packet.
abbrev pub meaning : PacketMeta → PacketFields → Expr → Bool
meaning meta f (atom n) = eval_kind (λ i. false) meta f n
meaning meta f (conj d e) = meaning meta f d && meaning meta f e
meaning meta f (disj d e) = meaning meta f d || meaning meta f e
meaning meta f (neg e) = not (meaning meta f e)

-- The lexer hands out these tokens, none of them the end, between two cursors.
pub data Reads (conv : Conversions) : Cursor → List Token → Cursor → Type 0 where
  stop : {c : Cursor} → Reads conv c [] c
  step :
      {c d : Cursor} {ts : List Token}
      → is_end c.cur.kind ≡ false
      → Reads conv (next conv c.input) ts d
      → Reads conv c (c.cur ∷ ts) d

pub Reads-append :
    (conv : Conversions) {c d e : Cursor} {ts us : List Token}
    → Reads conv c ts d
    → Reads conv d us e
    → Reads conv c (ts ++ us) e
Reads-append conv stop s = s
Reads-append conv (step h r) s = step h (Reads-append conv r s)

-- Nodes without operands.
abbrev pub is_atom : Node → Bool
is_atom (both l r) = false
is_atom (either l r) = false
is_atom (negate l) = false
is_atom n = true

-- The node at an index stands for an expression; operands stand before the node that uses them.
abbrev pub Represents : Program → Expr → ℕ → Type 0
Represents ns (atom n) i = (get_elem? ns i ≡ some n) × (is_atom n ≡ true)
Represents ns (conj d e) i =
    (l : ℕ) × (r : ℕ) × (get_elem? ns i ≡ some (both l r))
    × (l < i)
    × (r < i)
    × Represents ns d l
    × Represents ns e r
Represents ns (disj d e) i =
    (l : ℕ) × (r : ℕ) × (get_elem? ns i ≡ some (either l r))
    × (l < i)
    × (r < i)
    × Represents ns d l
    × Represents ns e r
Represents ns (neg e) i = (l : ℕ) × (get_elem? ns i ≡ some (negate l)) × (l < i) × Represents ns e l
