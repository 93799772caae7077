-- ===== src/Filter/Primary.antt =====
-- filterexpr.cpp: what parsePrimary leaves when it reads a keyword, a comparison or a closing parenthesis.
use clumsy.Prelude.{
  ℕ, ◌≡◌, refl, inl, inr, Bool, true, false, ◌&&◌, some, List, [], ◌∷◌, arith, Bool-cases,
  Option-cases,
}
use clumsy.Filter.{Node, compare_field, Field, Op}
use clumsy.Filter.Lexer.{Conversions, Token}
use clumsy.Filter.Parser.{
  Result, ok, err, out_of_fuel, ◌>>=◌, State, is_end, is_ident, is_open, is_close, operator,
  lookup_field, value_for, advance, add, keyword, keywords, look_up, parse_comparison, parse_word,
  close,
}
use clumsy.Filter.Grammar.{OrExpr, PrimaryExpr, word, comparison, stop, step, is_atom}
use clumsy.Filter.Phrase.{
  Ensures, operator-not_end, value_for-not_end, Parsed, size-advance, Parsed-group, Parsed-atom,
}

abbrev all_atoms : List (List ℕ × Node) → Bool
all_atoms [] = true
all_atoms ((name, n) ∷ table) = is_atom n && all_atoms table

look_up-atom :
    (table : List (List ℕ × Node)) (w : List ℕ) (n : Node)
    → all_atoms table ≡ true
    → look_up table w ≡ some n
    → is_atom n ≡ true
look_up-atom [] w n a e = cc
look_up-atom ((name, m) ∷ table) w n a e = ground (arith, look_up-atom table w n)

keyword-atom : (w : List ℕ) (n : Node) → keyword w ≡ some n → is_atom n ≡ true
unfolding keyword
keyword-atom w n e = look_up-atom keywords w n refl e

is_ident-not_end : (t : Token) → is_ident t.kind ≡ true → is_end t.kind ≡ false
is_ident-not_end t h = ground arith

value_for-in_fuel : (w : List ℕ) (field : Field) (t : Token) → value_for w field t ≡ out_of_fuel → ⊥
unfolding value_for
value_for-in_fuel w field t h = ground arith

module _ (conv : Conversions) where
  -- A field, an operator and a value.
  comparison-Parsed :
      (s : State) (field : Field) (op : Op) (r : Result ℕ)
      → is_ident s.cursor.cur.kind ≡ true
      → lookup_field s.cursor.cur.text ≡ some field
      → operator (advance conv s).cursor.cur ≡ some op
      → value_for s.cursor.cur.text field (advance conv (advance conv s)).cursor.cur ≡ r
      → Ensures (Parsed conv PrimaryExpr s) (
          r >>= λ v.
          ok (add (compare_field field op v) (advance conv (advance conv (advance conv s)))))
  comparison-Parsed s field op (ok v) h e o w =
      let s1 = advance conv s in
      let s2 = advance conv s1 in
      let s3 = advance conv s2 in
      let t = s.cursor.cur in
      let h1 = operator-not_end s1.cursor.cur op o in
      let h2 = value_for-not_end t.text field s2.cursor.cur v w in
      let h0 = is_ident-not_end t h in
      Parsed-atom conv s s3 (t ∷ s1.cursor.cur ∷ s2.cursor.cur ∷ []) (compare_field field op v)
        (comparison t s1.cursor.cur s2.cursor.cur field op v h e o w) refl
        (step h0 (step h1 (step h2 stop))) refl
        (omega (arith, size-advance conv s h0, size-advance conv s1 h1, size-advance conv s2 h2))
  comparison-Parsed s field op (err x) h e o w = tt
  comparison-Parsed s field op out_of_fuel h e o w =
      absurd
        (value_for-in_fuel s.cursor.cur.text field (advance conv (advance conv s)).cursor.cur w)

  parse_comparison-Parsed :
      (s : State)
      → is_ident s.cursor.cur.kind ≡ true
      → Ensures (Parsed conv PrimaryExpr s) (parse_comparison conv s)
  unfolding parse_comparison
  parse_comparison-Parsed s h = elim (Option-cases (lookup_field s.cursor.cur.text)) [
    | inl none_there ↦ rw (none_there, Ensures) tt
    | inr (field, e) ↦ elim (Option-cases (operator (advance conv s).cursor.cur)) [
      | inl no_op ↦ rw (e, no_op, Ensures) tt
      | inr (op, o) ↦
          rw (e, o, Ensures)
            (comparison-Parsed s field op
              (value_for s.cursor.cur.text field (advance conv (advance conv s)).cursor.cur) h e o
              refl)
    ]
  ]

  pub parse_word-Parsed :
      (s : State)
      → is_ident s.cursor.cur.kind ≡ true
      → Ensures (Parsed conv PrimaryExpr s) (parse_word conv s)
  unfolding parse_word
  parse_word-Parsed s h = elim (Option-cases (keyword s.cursor.cur.text)) [
    | inl e ↦ rw (e, Ensures) (parse_comparison-Parsed s h)
    | inr (n, e) ↦
        let h0 = is_ident-not_end s.cursor.cur h in
        rw (e, Ensures)
          (Parsed-atom conv s (advance conv s) (s.cursor.cur ∷ []) n (word s.cursor.cur n h e)
            (keyword-atom s.cursor.cur.text n e) (step h0 stop) refl (size-advance conv s h0))
  ]

  pub close-Parsed :
      (s s1 : State) (n : ℕ)
      → is_open s.cursor.cur ≡ true
      → Parsed conv OrExpr (advance conv s) (n, s1)
      → Ensures (Parsed conv PrimaryExpr s) (close conv (n, s1))
  unfolding close
  close-Parsed s s1 n hit q = elim (Bool-cases (is_close s1.cursor.cur)) [
    | inl closed ↦ rw (closed, Ensures) (Parsed-group conv s s1 n hit closed q)
    | inr other ↦ rw (other, Ensures) tt
  ]
