-- ===== src/Filter/Compiled.antt =====
-- filterexpr.cpp: what filterCompile returns for a text, and what filterMatch then says.
use clumsy.Prelude.{ℕ, suc, ◌+◌, ◌*◌, ◌≤◌, ◌≡◌, inl, inr, true, false, List, arith, Bool-cases}
use clumsy.Packet.{PacketMeta}
use clumsy.Filter.Represented.{eval-meaning}
use clumsy.Filter.{filter_match, extract_fields, Program}
use clumsy.Filter.Lexer.{Conversions, Token, Cursor, next, is_blank}
use clumsy.Filter.Parser.{State, is_end, parse_or, start, finish, fuel_for, filter_compile}
use clumsy.Filter.Grammar.{Expr, OrExpr, Reads, meaning}
use clumsy.Filter.Consumes.{size, size-next}
use clumsy.Filter.Phrase.{Ensures, Ensures-bind, Parsed}
use clumsy.Filter.{eval_node}
use clumsy.Filter.Enough.{enough}

module _ (conv : Conversions) where
  -- The tokens of the whole text are a phrase, and the program and its root say of every packet what it means.
  abbrev pub Compiled : List ℕ → Program × ℕ → Type 0
  Compiled expr (prog, root) =
      (ts : List Token) × (e : Expr) × (c : Cursor) × OrExpr ts e
      × Reads conv (next conv expr) ts c
      × (is_end c.cur.kind ≡ true)
      × ((meta : PacketMeta) (packet : List ℕ) (len : ℕ)
          → filter_match prog root meta packet len ≡ meaning meta (extract_fields packet len) e)

  finish-Compiled :
      (expr : List ℕ) (r : ℕ × State)
      → Parsed conv OrExpr (start conv expr) r
      → Ensures (Compiled expr) (finish r)
  unfolding finish filter_match eval_node
  finish-Compiled expr (root, s) p = elim (Bool-cases (is_end s.cursor.cur.kind)) [
    | inl over ↦
        rw (over, Ensures)
          (
            p.tokens,
            p.expr,
            s.cursor,
            p.phrase,
            p.reads,
            over,
            λ meta packet len.
                eval-meaning (suc root) s.nodes meta (extract_fields packet len) p.expr root
                  p.stands (omega arith),
          )
    | inr more ↦ rw (more, Ensures) tt
  ]

  size-start : (expr : List ℕ) → 6 * size (next conv expr) + 4 ≤ fuel_for expr
  unfolding fuel_for
  size-start expr = omega (arith, size-next conv expr)

  -- For a text that is not blank, filterCompile always returns (the fuel of the model never runs out). If it returns a
  -- program, the text is a sentence of the grammar in the header of filterexpr.cpp, with no token after it, and
  -- filterMatch says of every packet what the expression so read means.
  pub filter_compile-Compiled :
      (expr : List ℕ) → is_blank expr ≡ false → Ensures (Compiled expr) (filter_compile conv expr)
  unfolding filter_compile
  filter_compile-Compiled expr h =
      rw (h, Ensures)
        (Ensures-bind (Parsed conv OrExpr (start conv expr)) (Compiled expr)
          (parse_or conv (fuel_for expr) (start conv expr)) finish
          ((enough conv (fuel_for expr)).ors (start conv expr) (size-start expr))
          (λ r p. finish-Compiled expr r p))
