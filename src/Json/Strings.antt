-- ===== src/Json/Strings.antt =====
-- json.cpp: parseString and jsonEscape.
use clumsy.Prelude.{
  ℕ, zero, suc, ◌+◌, ◌/◌, ◌%◌, Bool, false, Option, none, some, List, [], ◌∷◌, ◌++◌, if◌then◌else◌,
  ltb, ◌==◌,
}

-- Where parseString stands: at the head of its loop, behind a backslash, or in the loop that copies the
-- four characters of a \u, with this many to go.
pub data Place : Type 0 where
  head escape : Place
  unicode : ℕ → Place

unfoldable pub after_unicode : ℕ → Place
after_unicode zero = head
after_unicode (suc zero) = head
after_unicode (suc (suc k)) = unicode (suc k)

unfoldable pub next_place : Place → ℕ → Place
unfolding after_unicode
next_place head c = if c == b'\\' then escape else head
next_place escape c = if c == b'u' then unicode 4 else head
next_place (unicode k) c = after_unicode k

-- The character that an escape other than \u stands for.
unfoldable pub unescaped : ℕ → ℕ
unescaped c =
    if c == b'b'
    then 8
    else if c == b'f'
    then 12
    else if c == b'n'
    then 10
    else if c == b'r'
    then 13
    else if c == b't'
    then 9
    else c

-- What a character appends to the string.
unfoldable pub output : Place → ℕ → List ℕ
unfolding unescaped
output head c = if c == b'\\' then [] else c ∷ []
output escape c = if c == b'u' then b'\\' ∷ b'u' ∷ [] else unescaped c ∷ []
output (unicode k) c = c ∷ []

unfoldable pub closes : Place → ℕ → Bool
closes head c = c == b'"'
closes _ c = false

-- The loop: the string and the rest of the text, or `none` for an unterminated string.
unfoldable pub read_string : Place → List ℕ → List ℕ → Option (List ℕ × List ℕ)
unfolding closes next_place output
read_string at [] out = none
read_string at (c ∷ cs) out =
    let rest = read_string (next_place at c) cs (out ++ output at c) in
    if closes at c then some (out, cs) else rest

unfoldable pub parse_string : List ℕ → Option (List ℕ × List ℕ)
unfolding read_string
parse_string [] = none
parse_string (c ∷ cs) = if c == b'"' then read_string head cs [] else none

unfoldable pub hex_digit : ℕ → ℕ
hex_digit n = if ltb n 10 then n + 48 else n + 87

-- `snprintf(buf, sizeof(buf), "\\u%04x", c)` for a byte.
unfoldable pub unicode_escape : ℕ → List ℕ
unfolding hex_digit
unicode_escape c = b'\\' ∷ b'u' ∷ b'0' ∷ b'0' ∷ hex_digit (c / 16) ∷ hex_digit (c % 16) ∷ []

unfoldable pub escape_byte : ℕ → List ℕ
unfolding unicode_escape
escape_byte c =
    if c == b'"'
    then b'\\' ∷ b'"' ∷ []
    else if c == b'\\'
    then b'\\' ∷ b'\\' ∷ []
    else if c == 8
    then b'\\' ∷ b'b' ∷ []
    else if c == 12
    then b'\\' ∷ b'f' ∷ []
    else if c == 10
    then b'\\' ∷ b'n' ∷ []
    else if c == 13
    then b'\\' ∷ b'r' ∷ []
    else if c == 9
    then b'\\' ∷ b't' ∷ []
    else if ltb c 32
    then unicode_escape c
    else c ∷ []

unfoldable pub json_escape : List ℕ → List ℕ
unfolding escape_byte
json_escape [] = []
json_escape (c ∷ cs) = escape_byte c ++ json_escape cs
