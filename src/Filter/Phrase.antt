-- ===== src/Filter/Phrase.antt =====
-- What a parsing function of filterexpr.cpp leaves: a phrase of the grammar was read, and its node was added.
use clumsy.Prelude.{
  ℕ, ◌<◌, ◌≡◌, sym, ap, ◌∙◌, subst, Bool, true, false, some, List, [], ◌∷◌, ◌++◌, arith, length,
  length-append, append_assoc, get_elem?,
}
use clumsy.Filter.{Node, Program, negate, Field, Op}
use clumsy.Filter.Lexer.{Conversions, Token}
use clumsy.Filter.Parser.{
  Result, ok, err, out_of_fuel, ◌>>=◌, State, is_end, is_or, is_and, is_not, is_open, is_close,
  operator, value_for, advance, add,
}
use clumsy.Filter.Grammar.{
  Expr, atom, neg, OrExpr, NotExpr, PrimaryExpr, not_more, group, Reads, stop, step, Reads-append,
  Represents, is_atom,
}
use clumsy.Filter.Represented.{get_elem?-last, Represents-append}
use clumsy.Filter.Consumes.{size, size-next}

-- The fuel lasted, and `P` holds of the value if there is one.
abbrev pub Ensures : {A : Type 0} → (A → Type 0) → Result A → Type 0
Ensures P (ok a) = P a
Ensures P (err e) = Unit {0}
Ensures P out_of_fuel = ⊥

pub Ensures-bind :
    {A B : Type 0} (P : A → Type 0) (Q : B → Type 0) (r : Result A) (f : A → Result B)
    → Ensures P r
    → ((a : A) → P a → Ensures Q (f a))
    → Ensures Q (r >>= f)
Ensures-bind P Q (ok a) f p k = k a p
Ensures-bind P Q (err e) f p k = tt
Ensures-bind P Q out_of_fuel f p k = elim p [ ]

-- None of these is the end of the input.
pub is_or-not_end : (t : Token) → is_or t ≡ true → is_end t.kind ≡ false
unfolding is_or
is_or-not_end t h = ground arith

pub is_and-not_end : (t : Token) → is_and t ≡ true → is_end t.kind ≡ false
unfolding is_and
is_and-not_end t h = ground arith

pub is_not-not_end : (t : Token) → is_not t ≡ true → is_end t.kind ≡ false
unfolding is_not
is_not-not_end t h = ground arith

pub is_open-not_end : (t : Token) → is_open t ≡ true → is_end t.kind ≡ false
unfolding is_open
is_open-not_end t h = ground arith

pub is_close-not_end : (t : Token) → is_close t ≡ true → is_end t.kind ≡ false
unfolding is_close
is_close-not_end t h = ground arith

pub operator-not_end : (t : Token) (op : Op) → operator t ≡ some op → is_end t.kind ≡ false
unfolding operator
operator-not_end t op h = ground arith

pub value_for-not_end :
    (word : List ℕ) (field : Field) (t : Token) (x : ℕ)
    → value_for word field t ≡ ok x
    → is_end t.kind ≡ false
unfolding value_for
value_for-not_end word field t x h = ground arith

module _ (conv : Conversions) where
  -- `r` is the index and the state that a function returned, called in `s`.
  pub record Parsed (G : List Token → Expr → Type 0) (s : State) (r : ℕ × State) : Type 0 where
    pub tokens : List Token
    pub expr : Expr
    pub phrase : G tokens expr
    pub reads : Reads conv s.cursor tokens r.1.cursor
    pub more : Program
    pub grown : r.1.nodes ≡ s.nodes ++ more
    pub stands : Represents r.1.nodes expr r.0
    pub inside : r.0 < length r.1.nodes
    pub gets_on : size r.1.cursor < size s.cursor

  pub size-advance :
      (s : State) → is_end s.cursor.cur.kind ≡ false → size (advance conv s).cursor < size s.cursor
  size-advance s h = ground (arith, size-next conv s.cursor.input)

  -- A phrase of one level is one of the next.
  pub Parsed-as :
      (G H : List Token → Expr → Type 0) (s : State) (r : ℕ × State)
      → ((ts : List Token) (e : Expr) → G ts e → H ts e)
      → Parsed G s r
      → Parsed H s r
  Parsed-as G H s r up p = record {
    tokens = p.tokens;
    expr = p.expr;
    phrase = up p.tokens p.expr p.phrase;
    reads = p.reads;
    more = p.more;
    grown = p.grown;
    stands = p.stands;
    inside = p.inside;
    gets_on = p.gets_on;
  }

  length_snoc : (ns : Program) (n : Node) → length ns < length (ns ++ n ∷ [])
  length_snoc ns n = omega (arith, length-append ns (n ∷ []))

  regrown :
      (old ns ns' more more' : Program) (n : Node)
      → ns ≡ old ++ more
      → ns' ≡ ns ++ more'
      → ns' ++ n ∷ [] ≡ old ++ (more ++ (more' ++ n ∷ []))
  regrown old ns ns' more more' n e e' =
      rw (e', e)
        (append_assoc (old ++ more) more' (n ∷ []) ∙ append_assoc old more (more' ++ n ∷ []))

  kept_on :
      (ns ns' more : Program) (n : Node) (e : Expr) (i : ℕ)
      → ns' ≡ ns ++ more
      → Represents ns e i
      → Represents (ns' ++ n ∷ []) e i
  kept_on ns ns' more n e i g r =
      Represents-append ns' (n ∷ []) e i
        (subst (λ (xs : Program). Represents xs e i) (sym g) (Represents-append ns more e i r))

  -- An operator and its right operand join what was read so far.
  module _ (G H : List Token → Expr → Type 0) (test : Token → Bool) (join : Expr → Expr → Expr)
      (node : ℕ → ℕ → Node)
      (rule : (ts us : List Token) (d e : Expr) (t : Token)
        → G ts d
        → test t ≡ true
        → H us e
        → G (ts ++ t ∷ us) (join d e))
      (represents : (ns : Program) (d e : Expr) (l r i : ℕ)
        → get_elem? ns i ≡ some (node l r)
        → l < i
        → r < i
        → Represents ns d l
        → Represents ns e r
        → Represents ns (join d e) i) where
    pub Parsed-join :
        (s s1 s2 : State) (left right : ℕ)
        → test s1.cursor.cur ≡ true
        → is_end s1.cursor.cur.kind ≡ false
        → Parsed G s (left, s1)
        → Parsed H (advance conv s1) (right, s2)
        → Parsed G s (length s2.nodes, record s2 { nodes = s2.nodes ++ node left right ∷ [] })
    Parsed-join s s1 s2 left right hit going p q =
        let n = node left right in
        record {
          tokens = p.tokens ++ s1.cursor.cur ∷ q.tokens;
          expr = join p.expr q.expr;
          phrase = rule p.tokens q.tokens p.expr q.expr s1.cursor.cur p.phrase hit q.phrase;
          reads = Reads-append conv p.reads (step going q.reads);
          more = p.more ++ (q.more ++ n ∷ []);
          grown = regrown s.nodes s1.nodes s2.nodes p.more q.more n p.grown q.grown;
          stands =
              represents (s2.nodes ++ n ∷ []) p.expr q.expr left right (length s2.nodes)
                (get_elem?-last s2.nodes n)
                (omega (arith, p.inside, ap length q.grown, length-append s1.nodes q.more)) q.inside
                (kept_on s1.nodes s2.nodes q.more n p.expr left q.grown p.stands)
                (Represents-append s2.nodes (n ∷ []) q.expr right q.stands);
          inside = length_snoc s2.nodes n;
          gets_on = omega (arith, p.gets_on, q.gets_on, size-advance s1 going);
        }

  -- `not` and its operand.
  pub Parsed-not :
      (s s1 : State) (operand : ℕ)
      → is_not s.cursor.cur ≡ true
      → Parsed NotExpr (advance conv s) (operand, s1)
      → Parsed NotExpr s (add (negate operand) s1)
  Parsed-not s s1 operand hit q =
      let going = is_not-not_end s.cursor.cur hit in
      let n = negate operand in
      record {
        tokens = s.cursor.cur ∷ q.tokens;
        expr = neg q.expr;
        phrase = not_more s.cursor.cur hit q.phrase;
        reads = step going q.reads;
        more = q.more ++ n ∷ [];
        grown = rw (q.grown) (append_assoc s.nodes q.more (n ∷ []));
        stands = (
          operand,
          get_elem?-last s1.nodes n,
          q.inside,
          Represents-append s1.nodes (n ∷ []) q.expr operand q.stands,
        );
        inside = length_snoc s1.nodes n;
        gets_on = omega (arith, q.gets_on, size-advance s going);
      }

  -- A phrase in parentheses.
  pub Parsed-group :
      (s s1 : State) (n : ℕ)
      → is_open s.cursor.cur ≡ true
      → is_close s1.cursor.cur ≡ true
      → Parsed OrExpr (advance conv s) (n, s1)
      → Parsed PrimaryExpr s (n, advance conv s1)
  Parsed-group s s1 n opened closed q =
      let going = is_open-not_end s.cursor.cur opened in
      let on = is_close-not_end s1.cursor.cur closed in
      record {
        tokens = s.cursor.cur ∷ (q.tokens ++ s1.cursor.cur ∷ []);
        expr = q.expr;
        phrase = group s.cursor.cur s1.cursor.cur opened q.phrase closed;
        reads = step going (Reads-append conv q.reads (step on stop));
        more = q.more;
        grown = q.grown;
        stands = q.stands;
        inside = q.inside;
        gets_on = omega (arith, q.gets_on, size-advance s going, size-advance s1 on);
      }

  -- A single node, for the tokens up to `s1`.
  pub Parsed-atom :
      (s s1 : State) (ts : List Token) (n : Node)
      → PrimaryExpr ts (atom n)
      → is_atom n ≡ true
      → Reads conv s.cursor ts s1.cursor
      → s1.nodes ≡ s.nodes
      → size s1.cursor < size s.cursor
      → Parsed PrimaryExpr s (add n s1)
  Parsed-atom s s1 ts n phrase alone reads same less = record {
    tokens = ts;
    expr = atom n;
    phrase = phrase;
    reads = reads;
    more = n ∷ [];
    grown = ap (λ (xs : Program). xs ++ n ∷ []) same;
    stands = (get_elem?-last s1.nodes n, alone);
    inside = length_snoc s1.nodes n;
    gets_on = less;
  }
