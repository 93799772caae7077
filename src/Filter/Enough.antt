-- ===== src/Filter/Enough.antt =====
-- filterexpr.cpp: the recursive descent returns, and what it leaves is a phrase of the grammar.
use clumsy.Prelude.{ℕ, zero, suc, ◌+◌, ◌*◌, ◌≤◌, inl, inr, [], ◌∷◌, ◌++◌, arith, length, Bool-cases}
use clumsy.Filter.{both, either}
use clumsy.Filter.Lexer.{Conversions}
use clumsy.Filter.Parser.{
  Result, ok, err, out_of_fuel, State, is_ident, is_or, is_and, is_not, is_open, advance, close,
  parse_or, or_loop, parse_and, and_loop, parse_not, parse_primary,
}
use clumsy.Filter.Grammar.{
  conj, disj, OrExpr, AndExpr, NotExpr, PrimaryExpr, or_one, or_more, and_one, and_more, not_one,
}
use clumsy.Filter.Consumes.{size}
use clumsy.Filter.Phrase.{
  Ensures, Ensures-bind, is_or-not_end, is_and-not_end, is_not-not_end, is_open-not_end, Parsed,
  size-advance, Parsed-as, Parsed-join, Parsed-not,
}
use clumsy.Filter.Primary.{close-Parsed, parse_word-Parsed}

Ensures-map :
    {A : Type 0} {P Q : A → Type 0} (r : Result A)
    → ((a : A) → P a → Q a)
    → Ensures P r
    → Ensures Q r
Ensures-map (ok a) k p = k a p
Ensures-map (err e) k p = tt
Ensures-map out_of_fuel k p = p

module _ (conv : Conversions) where
  -- What each function does with enough fuel: six units for each character that is left.
  pub record Enough (f : ℕ) : Type 0 where
    pub ors :
        (s : State) → 6 * size s.cursor + 4 ≤ f → Ensures (Parsed conv OrExpr s) (parse_or conv f s)
    pub or_rest :
        (s s' : State) (left : ℕ)
        → Parsed conv OrExpr s (left, s')
        → 6 * size s'.cursor + 1 ≤ f
        → Ensures (Parsed conv OrExpr s) (or_loop conv f left s')
    pub ands :
        (s : State)
        → 6 * size s.cursor + 3 ≤ f
        → Ensures (Parsed conv AndExpr s) (parse_and conv f s)
    pub and_rest :
        (s s' : State) (left : ℕ)
        → Parsed conv AndExpr s (left, s')
        → 6 * size s'.cursor + 1 ≤ f
        → Ensures (Parsed conv AndExpr s) (and_loop conv f left s')
    pub nots :
        (s : State)
        → 6 * size s.cursor + 2 ≤ f
        → Ensures (Parsed conv NotExpr s) (parse_not conv f s)
    pub primaries :
        (s : State)
        → 6 * size s.cursor + 1 ≤ f
        → Ensures (Parsed conv PrimaryExpr s) (parse_primary conv f s)

  module _ (f : ℕ) (less : Enough f) where
    parse_or-Parsed :
        (s : State)
        → 6 * size s.cursor + 4 ≤ suc f
        → Ensures (Parsed conv OrExpr s) (parse_or conv (suc f) s)
    unfolding parse_or
    parse_or-Parsed s h =
        Ensures-bind (Parsed conv AndExpr s) (Parsed conv OrExpr s) (parse_and conv f s)
          (λ (left, s'). or_loop conv f left s') (less.ands s (omega arith))
          (λ (left, s') p.
            less.or_rest s s' left (Parsed-as conv AndExpr OrExpr s (left, s') (λ ts e. or_one) p)
              (omega (arith, p.gets_on)))

    parse_and-Parsed :
        (s : State)
        → 6 * size s.cursor + 3 ≤ suc f
        → Ensures (Parsed conv AndExpr s) (parse_and conv (suc f) s)
    unfolding parse_or
    parse_and-Parsed s h =
        Ensures-bind (Parsed conv NotExpr s) (Parsed conv AndExpr s) (parse_not conv f s)
          (λ (left, s'). and_loop conv f left s') (less.nots s (omega arith))
          (λ (left, s') p.
            less.and_rest s s' left
              (Parsed-as conv NotExpr AndExpr s (left, s') (λ ts e. and_one) p)
              (omega (arith, p.gets_on)))

    or_loop-Parsed :
        (s s' : State) (left : ℕ)
        → Parsed conv OrExpr s (left, s')
        → 6 * size s'.cursor + 1 ≤ suc f
        → Ensures (Parsed conv OrExpr s) (or_loop conv (suc f) left s')
    unfolding parse_or
    or_loop-Parsed s s' left p h = elim (Bool-cases (is_or s'.cursor.cur)) [
      | inl hit ↦
          let going = is_or-not_end s'.cursor.cur hit in
          let shorter = size-advance conv s' going in
          rw (hit, Ensures)
            (Ensures-bind (Parsed conv AndExpr (advance conv s')) (Parsed conv OrExpr s)
              (parse_and conv f (advance conv s')) _ (less.ands (advance conv s') (omega arith))
              (λ (right, s2) q.
                less.or_rest s (record s2 { nodes = s2.nodes ++ either left right ∷ [] })
                  (length s2.nodes)
                  (Parsed-join conv OrExpr AndExpr is_or disj either
                    (λ ts us d e t g k a. or_more t g k a)
                    (λ ns d e l r i at hl hr rl rr. (l, r, at, hl, hr, rl, rr)) s s' s2 left right
                    hit going p q)
                  (omega (arith, q.gets_on))))
      | inr other ↦ rw (other, Ensures) p
    ]

    and_loop-Parsed :
        (s s' : State) (left : ℕ)
        → Parsed conv AndExpr s (left, s')
        → 6 * size s'.cursor + 1 ≤ suc f
        → Ensures (Parsed conv AndExpr s) (and_loop conv (suc f) left s')
    unfolding parse_or
    and_loop-Parsed s s' left p h = elim (Bool-cases (is_and s'.cursor.cur)) [
      | inl hit ↦
          let going = is_and-not_end s'.cursor.cur hit in
          let shorter = size-advance conv s' going in
          rw (hit, Ensures)
            (Ensures-bind (Parsed conv NotExpr (advance conv s')) (Parsed conv AndExpr s)
              (parse_not conv f (advance conv s')) _ (less.nots (advance conv s') (omega arith))
              (λ (right, s2) q.
                less.and_rest s (record s2 { nodes = s2.nodes ++ both left right ∷ [] })
                  (length s2.nodes)
                  (Parsed-join conv AndExpr NotExpr is_and conj both
                    (λ ts us d e t g k a. and_more t g k a)
                    (λ ns d e l r i at hl hr rl rr. (l, r, at, hl, hr, rl, rr)) s s' s2 left right
                    hit going p q)
                  (omega (arith, q.gets_on))))
      | inr other ↦ rw (other, Ensures) p
    ]

    parse_not-Parsed :
        (s : State)
        → 6 * size s.cursor + 2 ≤ suc f
        → Ensures (Parsed conv NotExpr s) (parse_not conv (suc f) s)
    unfolding parse_or
    parse_not-Parsed s h = elim (Bool-cases (is_not s.cursor.cur)) [
      | inl hit ↦
          let shorter = size-advance conv s (is_not-not_end s.cursor.cur hit) in
          rw (hit, Ensures)
            (Ensures-bind (Parsed conv NotExpr (advance conv s)) (Parsed conv NotExpr s)
              (parse_not conv f (advance conv s)) _ (less.nots (advance conv s) (omega arith))
              (λ (operand, s1) q. Parsed-not conv s s1 operand hit q))
      | inr other ↦
          rw (other, Ensures)
            (Ensures-map (parse_primary conv f s)
              (λ r p. Parsed-as conv PrimaryExpr NotExpr s r (λ ts e. not_one) p)
              (less.primaries s (omega arith)))
    ]

    parse_primary-Parsed :
        (s : State)
        → 6 * size s.cursor + 1 ≤ suc f
        → Ensures (Parsed conv PrimaryExpr s) (parse_primary conv (suc f) s)
    unfolding parse_or
    parse_primary-Parsed s h = elim (Bool-cases (is_open s.cursor.cur)) [
      | inl hit ↦
          let shorter = size-advance conv s (is_open-not_end s.cursor.cur hit) in
          rw (hit, Ensures)
            (Ensures-bind (Parsed conv OrExpr (advance conv s)) (Parsed conv PrimaryExpr s)
              (parse_or conv f (advance conv s)) (close conv)
              (less.ors (advance conv s) (omega arith))
              (λ (n, s1) q. close-Parsed conv s s1 n hit q))
      | inr not_open ↦ elim (Bool-cases (is_ident s.cursor.cur.kind)) [
        | inl named ↦ rw (not_open, named, Ensures) (parse_word-Parsed conv s named)
        | inr other ↦ rw (not_open, other, Ensures) tt
      ]
    ]

  pub enough : (f : ℕ) → Enough f
  enough zero = record {
    ors = λ s h. absurd (omega arith);
    or_rest = λ s s' left p h. absurd (omega arith);
    ands = λ s h. absurd (omega arith);
    and_rest = λ s s' left p h. absurd (omega arith);
    nots = λ s h. absurd (omega arith);
    primaries = λ s h. absurd (omega arith);
  }
  enough (suc f) =
      let less = enough f in
      record {
        ors = parse_or-Parsed f less;
        or_rest = or_loop-Parsed f less;
        ands = parse_and-Parsed f less;
        and_rest = and_loop-Parsed f less;
        nots = parse_not-Parsed f less;
        primaries = parse_primary-Parsed f less;
      }
