-- ===== src/Json/Parser.antt =====
-- json.cpp: the class Parser and jsonParse.
--
-- `p` is the rest of the text, and `p >= end` its emptiness. A result that the source writes through a
-- reference is returned with the rest. `depth` is handed down: both ways out of an object or an array
-- restore it. Each call costs a unit of fuel; `out_of_fuel` has no counterpart in the source.
use clumsy.Prelude.{
  ℕ, zero, suc, ◌+◌, ◌*◌, Bool, true, false, ◌||◌, Option, none, some, List, [], ◌∷◌, if◌then◌else◌,
  leb, ◌==◌, length, drop,
}
use clumsy.Utils.{codes}
use clumsy.Json.{
  JsonValue, null, bool, number, string, array, object, Values, none_left, item, Members, no_more,
  member, Double,
}
use clumsy.Json.Strings.{parse_string}

pub data Result (A : Type 0) : Type 0 where
  ok : A → Result A
  refused out_of_fuel : Result A

infixl 5 ◌>>=◌
abbrev pub ◌>>=◌ : {A B : Type 0} → Result A → (A → Result B) → Result B
ok a >>= f = f a
refused >>= f = refused
out_of_fuel >>= f = out_of_fuel

-- A call that may fail for the text only.
abbrev pub answered : {A : Type 0} → Option A → Result A
answered none = refused
answered (some a) = ok a

abbrev pub max_depth : ℕ
max_depth = 32

unfoldable pub is_ws : ℕ → Bool
is_ws c = c == b' ' || c == 9 || c == 13 || c == 10

unfoldable pub skip_ws : List ℕ → List ℕ
unfolding is_ws
skip_ws [] = []
skip_ws (c ∷ cs) = let rest = skip_ws cs in if is_ws c then rest else c ∷ cs

-- `end - p >= n && memcmp(p, word, n) == 0`, and the text behind the word.
unfoldable pub literal : List ℕ → List ℕ → Result (List ℕ)
literal [] text = ok text
literal (w ∷ word) [] = refused
literal (w ∷ word) (c ∷ cs) = let rest = literal word cs in if c == w then rest else refused

-- The first character is read if it is the one asked for.
unfoldable pub expect : ℕ → List ℕ → Option (List ℕ)
expect c [] = none
expect c (x ∷ xs) = if x == c then some xs else none

-- Fuel for every call: three units for each character, and one.
unfoldable pub fuel_for : List ℕ → ℕ
fuel_for text = 3 * length text + 1

-- Behind an entry of an array or an object stands a comma, and the loop goes on, or the closing bracket.
unfoldable pub go_on :
    {L : Type 0} → ℕ → (List ℕ → Result (L × List ℕ)) → (L → L) → L → List ℕ → Result (L × List ℕ)
go_on close loop add last rest = elim (expect b',' (skip_ws rest)) [
  | some more ↦ loop more >>= λ (l, rest'). ok (add l, rest')
  | none ↦ elim (expect close (skip_ws rest)) [ some rest' ↦ ok (add last, rest') | none ↦ refused ]
]

module _ {Num : Type 0} (double : Double Num) where
  unfoldable pub parse_number : List ℕ → Result (JsonValue Num × List ℕ)
  parse_number text =
      let (v, read) = double.strtod text in
      if read == 0 then refused else ok (number v, drop read text)

  -- What starts no object and no array.
  unfoldable pub parse_scalar : List ℕ → Result (JsonValue Num × List ℕ)
  parse_scalar [] = refused
  parse_scalar (c ∷ cs) =
      if c == b'"'
      then (answered (parse_string (c ∷ cs)) >>= λ (s, rest). ok (string s, rest))
      else if c == b't'
      then (literal (codes "true") (c ∷ cs) >>= λ rest. ok (bool true, rest))
      else if c == b'f'
      then (literal (codes "false") (c ∷ cs) >>= λ rest. ok (bool false, rest))
      else if c == b'n'
      then (literal (codes "null") (c ∷ cs) >>= λ rest. ok (null, rest))
      else parse_number (c ∷ cs)

  unfoldable mutual
    pub parse_value : ℕ → ℕ → List ℕ → Result (JsonValue Num × List ℕ)
    parse_value zero depth text = out_of_fuel
    parse_value (suc f) depth text = elim (leb max_depth depth) [
      | true ↦ refused
      | false ↦ elim (expect b'{' (skip_ws text)) [
        | some rest ↦ parse_object f (suc depth) rest
        | none ↦ elim (expect b'[' (skip_ws text)) [
          | some rest ↦ parse_array f (suc depth) rest
          | none ↦ parse_scalar (skip_ws text)
        ]
      ]
    ]

    -- From behind the opening bracket on.
    pub parse_array : ℕ → ℕ → List ℕ → Result (JsonValue Num × List ℕ)
    parse_array zero depth text = out_of_fuel
    parse_array (suc f) depth text = elim (expect b']' (skip_ws text)) [
      | some rest ↦ ok (array none_left, rest)
      | none ↦ array_items f depth text >>= λ (vs, rest). ok (array vs, rest)
    ]

    -- The `for (;;)` of parseArray.
    pub array_items : ℕ → ℕ → List ℕ → Result (Values Num × List ℕ)
    array_items zero depth text = out_of_fuel
    array_items (suc f) depth text = parse_value f depth (skip_ws text) >>= λ (v, rest).
        go_on b']' (array_items f depth) (item v) none_left rest

    -- From behind the opening brace on.
    pub parse_object : ℕ → ℕ → List ℕ → Result (JsonValue Num × List ℕ)
    parse_object zero depth text = out_of_fuel
    parse_object (suc f) depth text = elim (expect b'}' (skip_ws text)) [
      | some rest ↦ ok (object no_more, rest)
      | none ↦ object_members f depth text >>= λ (ms, rest). ok (object ms, rest)
    ]

    -- The `for (;;)` of parseObject.
    pub object_members : ℕ → ℕ → List ℕ → Result (Members Num × List ℕ)
    object_members zero depth text = out_of_fuel
    object_members (suc f) depth text = answered (parse_string (skip_ws text)) >>= λ (key, behind).
        answered (expect b':' (skip_ws behind)) >>= λ rest0.
        parse_value f depth (skip_ws rest0) >>= λ (v, rest).
        go_on b'}' (object_members f depth) (member key v) no_more rest

  -- Whatever follows the value is tolerated.
  unfoldable pub json_parse : List ℕ → Result (JsonValue Num)
  json_parse text = parse_value (fuel_for text) 0 text >>= λ (v, rest). ok v
