-- ===== src/Examples/Json.antt =====
-- Texts and values on which the theorems about json.cpp are tried out. Numbers are bits, printed as a digit.
use clumsy.Prelude.{
  ℕ, ◌+◌, ◌≡◌, ◌≤◌, ◌↔◌, ◌⊎◌, refl, Bool, true, false, List, [], ◌∷◌, ◌++◌, ◌==◌, arith,
  if◌then◌else◌, replicate,
}
use clumsy.Utils.{codes}
use clumsy.Json.{
  Double, JsonValue, null, bool, number, string, array, object, none_left, item, no_more, member,
}
use clumsy.Json.Strings.{json_escape, parse_string}
use clumsy.Json.Escape.{all_clean, json_parse-json_escape}
use clumsy.Json.Parser.{is_ws}
use clumsy.Json.Parser.{
  ok, refused, json_parse, fuel_for, parse_value, parse_scalar, parse_number, literal, expect,
  skip_ws, go_on,
}
use clumsy.Json.Shorter.{levels}
use clumsy.Json.Total.{json_parse-total}
use clumsy.Json.Deep.{json_parse-brackets}
use clumsy.Json.Print.{Delimits, ReadsBack, render, clean_value, starts_number}
use clumsy.Json.RoundTrip.{json_parse-render}

abbrev digit : Bool → ℕ
digit b = if b then b'1' else b'0'

abbrev read_digit : List ℕ → Bool × ℕ
read_digit [] = (false, 0)
read_digit (c ∷ cs) = if c == b'1' then (true, 1) else if c == b'0' then (false, 1) else (false, 0)

abbrev bits : Double Bool
bits = record {
  strtod = read_digit;
  atof = λ t. (read_digit t).0;
  zero_value = false;
  one_value = true;
  is_zero = λ b. if b then false else true;
  integral = λ b. true;
  print_integer = λ b. digit b ∷ [];
  print_general = λ b. digit b ∷ [];
}

bits-ReadsBack : ReadsBack bits digit (λ b. [])
unfolding is_ws
bits-ReadsBack = record { starts = starts; back = back }
  where
    starts : (b : Bool) → starts_number (digit b) ≡ true
    starts true = refl
    starts false = refl

    back : (b : Bool) (rest : List ℕ) → Delimits rest → read_digit (digit b ∷ rest) ≡ (b, 1)
    back true rest ends = refl
    back false rest ends = refl

-- {"lag":[1,null,"a\n"],"x":{}}
abbrev request : JsonValue Bool
request = object (
    member (codes "lag")
      (array (item (number true) (item null (item (string (b'a' ∷ 10 ∷ [])) none_left))))
      (member (codes "x") (object no_more) no_more))

json_parse-render_example : json_parse bits (render digit (λ b. []) request []) ≡ ok request
json_parse-render_example =
    json_parse-render bits digit (λ b. []) bits-ReadsBack request [] (unfold clean_value in refl)
      (unfold levels in omega arith) tt

json_parse-json_escape_example :
    (json_parse bits (b'"' ∷ (json_escape (10 ∷ 7 ∷ []) ++ b'"' ∷ [])) ≡ ok (string (10 ∷ 7 ∷ [])))
    ↔ (all_clean (10 ∷ 7 ∷ []) ≡ true)
json_parse-json_escape_example = json_parse-json_escape bits (10 ∷ 7 ∷ []) []

json_parse-total_example :
    (json_parse bits (codes "[1, {") ≡ refused)
    ⊎ ((v : JsonValue Bool) × (json_parse bits (codes "[1, {") ≡ ok v) × (levels v ≤ 32))
json_parse-total_example = json_parse-total bits (codes "[1, {")

json_parse-brackets_example : json_parse bits (replicate (33 + 1) b'[' ++ codes "1]") ≡ refused
json_parse-brackets_example = json_parse-brackets bits 1 (codes "1]")

-- White space is skipped, and what follows the value is not looked at.
padded :
    json_parse bits (codes " [1 , true] x")
    ≡ ok (array (item (number true) (item (bool true) none_left)))
unfolding json_parse fuel_for parse_value parse_scalar parse_number literal expect skip_ws go_on
padded = refl

unfinished : json_parse bits (codes "[1, {") ≡ refused
unfolding json_parse fuel_for parse_value parse_scalar parse_number literal expect skip_ws go_on
    parse_string
unfinished = refl

-- A control character comes back as the text of its escape.
bell : json_parse bits (b'"' ∷ (json_escape (7 ∷ []) ++ b'"' ∷ [])) ≡ ok (string (codes "\\u0007"))
unfolding json_parse fuel_for parse_value parse_scalar expect skip_ws parse_string json_escape
bell = refl
