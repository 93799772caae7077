-- ===== src/Filter/Consumes.antt =====
-- The lexer of filterexpr.cpp gets on: each token but the end takes a character at least.
use clumsy.Prelude.{ℕ, suc, ◌+◌, ◌≤◌, ◌≡◌, Bool, true, List, [], ◌∷◌, arith, if◌then◌else◌, length}
use clumsy.Filter.Lexer.{
  Conversions, Cursor, skip_space, span, lex, next, is_number_char, is_ident_char, lex_punct,
  lex_number, lex_ident,
}
use clumsy.Filter.Parser.{is_end}

-- What is left to read: the characters, and the token that stands ready.
abbrev pub size : Cursor → ℕ
size c = length c.input + (if is_end c.cur.kind then 0 else 1)

length-skip_space : (cs : List ℕ) → length (skip_space cs) ≤ length cs
unfolding skip_space
length-skip_space [] = omega arith
length-skip_space (c ∷ cs) = ground (arith, length-skip_space cs)

length-span : (test : ℕ → Bool) (cs : List ℕ) → length ((span test cs).1) ≤ length cs
unfolding span
length-span test [] = omega arith
length-span test (c ∷ cs) = ground (arith, length-span test cs)

span_first :
    (test : ℕ → Bool) (c : ℕ) (cs : List ℕ)
    → test c ≡ true
    → length ((span test (c ∷ cs)).1) ≤ length cs
unfolding span
span_first test c cs h = ground (arith, length-span test cs)

size_le : (c : Cursor) → size c ≤ length c.input + 1
size_le c = ground arith

size-lex_punct : (c : ℕ) (cs : List ℕ) → size (lex_punct c cs) ≤ suc (length cs)
size-lex_punct c [] = ground arith
size-lex_punct c (d ∷ ds) = ground arith

size-lex : (conv : Conversions) (cs : List ℕ) → size (lex conv cs) ≤ length cs
unfolding lex
size-lex conv [] = omega arith
size-lex conv (c ∷ cs) = ground (
  arith,
  size-lex_punct c cs,
  span_first is_number_char c cs,
  span_first is_ident_char c cs,
  size_le (lex_number conv (span is_number_char (c ∷ cs))),
  size_le (lex_ident (span is_ident_char (c ∷ cs))),
)

pub size-next : (conv : Conversions) (cs : List ℕ) → size (next conv cs) ≤ length cs
unfolding next
size-next conv cs = omega (arith, size-lex conv (skip_space cs), length-skip_space cs)
