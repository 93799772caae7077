-- ===== src/Filter/Lexer.antt =====
-- filterexpr.cpp: the tokens of a filter expression. A text is the list of its character codes.
--
-- `Conversions` stands for the C library: `strtoul` in base 10, cut to a UINT32, and the four numbers
-- that `sscanf` reads with "%u.%u.%u.%u%c", where it reads exactly four.
use clumsy.Prelude.{
  ℕ, ◌+◌, ◌*◌, Bool, true, false, ◌&&◌, ◌||◌, Option, none, some, List, [], ◌∷◌, ltb, leb, ◌==◌,
  if◌then◌else◌,
}
use clumsy.Utils.{codes}

pub record Conversions : Type 0 where
  pub strtoul : List ℕ → ℕ
  pub scan_ipv4 : List ℕ → Option (ℕ × ℕ × ℕ × ℕ)

pub data Kind : Type 0 where
  end ident number ipv4_literal punct : Kind

pub record Token : Type 0 where
  pub kind : Kind
  pub text : List ℕ
  pub num : ℕ

-- What the lexer has read, and what it has still to read.
pub record Cursor : Type 0 where
  pub cur : Token
  pub input : List ℕ

abbrev pub one_of : ℕ → List ℕ → Bool
one_of c [] = false
one_of c (d ∷ ds) = c == d || one_of c ds

abbrev pub is_space : ℕ → Bool
is_space c = c == 32 || c == 9 || c == 13 || c == 10

abbrev pub is_digit : ℕ → Bool
is_digit c = leb b'0' c && leb c b'9'

abbrev pub is_ident_start : ℕ → Bool
is_ident_start c = (leb b'a' c && leb c b'z') || (leb b'A' c && leb c b'Z') || c == b'_'

abbrev pub is_ident_char : ℕ → Bool
is_ident_char c = is_ident_start c || is_digit c || c == b'.'

abbrev pub is_number_char : ℕ → Bool
is_number_char c = is_digit c || c == b'.'

unfoldable pub skip_space : List ℕ → List ℕ
skip_space [] = []
skip_space (c ∷ cs) = if is_space c then skip_space cs else c ∷ cs

-- The characters from the front that pass a test, and the rest.
unfoldable pub span : (ℕ → Bool) → List ℕ → List ℕ × List ℕ
span test [] = ([], [])
span test (c ∷ cs) =
    let (more, rest) = span test cs in if test c then (c ∷ more, rest) else ([], c ∷ cs)

-- Whether two characters are one operator.
abbrev pub pairs_up : ℕ → ℕ → Bool
pairs_up c d =
    (one_of c (codes "!<>=") && d == b'=') || (c == b'&' && d == b'&') || (c == b'|' && d == b'|')

abbrev pub token_of : Kind → List ℕ → Token
token_of kind text = record { kind = kind; text = text; num = 0 }

abbrev pub lex_punct : ℕ → List ℕ → Cursor
lex_punct c [] = record { cur = token_of punct (c ∷ []); input = [] }
lex_punct c (d ∷ ds) =
    if pairs_up c d
    then record { cur = token_of punct (c ∷ d ∷ []); input = ds }
    else record { cur = token_of punct (c ∷ []); input = d ∷ ds }

-- `parseIPv4`: four bytes, the first the highest.
unfoldable pub parse_ipv4 : Conversions → List ℕ → Option ℕ
parse_ipv4 conv text = elim (conv.scan_ipv4 text) [
  | none ↦ none
  | some (a, b, c, d) ↦
      if ltb 255 a || ltb 255 b || ltb 255 c || ltb 255 d
      then none
      else some (a * 16777216 + b * 65536 + c * 256 + d)
]

abbrev pub address_token : List ℕ → Option ℕ → Token
address_token text none = token_of punct (codes "?")
address_token text (some addr) = record { kind = ipv4_literal; text = text; num = addr }

unfoldable pub number_token : Conversions → List ℕ → Token
unfolding parse_ipv4
number_token conv text =
    if one_of b'.' text
    then address_token text (parse_ipv4 conv text)
    else record { kind = number; text = text; num = conv.strtoul text }

abbrev pub lex_number : Conversions → List ℕ × List ℕ → Cursor
lex_number conv (text, rest) = record { cur = number_token conv text; input = rest }

abbrev pub lex_ident : List ℕ × List ℕ → Cursor
lex_ident (text, rest) = record { cur = token_of ident text; input = rest }

unfoldable pub lex : Conversions → List ℕ → Cursor
unfolding span number_token
lex conv [] = record { cur = token_of end []; input = [] }
lex conv (c ∷ cs) =
    if one_of c (codes "()!<>=&|")
    then lex_punct c cs
    else if is_digit c
    then lex_number conv (span is_number_char (c ∷ cs))
    else if is_ident_start c
    then lex_ident (span is_ident_char (c ∷ cs))
    else record { cur = token_of punct (c ∷ []); input = cs }

-- `Lexer::next`.
unfoldable pub next : Conversions → List ℕ → Cursor
unfolding lex skip_space
next conv input = lex conv (skip_space input)

-- `isBlank`.
unfoldable pub is_blank : List ℕ → Bool
is_blank [] = true
is_blank (c ∷ cs) = is_space c && is_blank cs
