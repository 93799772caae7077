-- ===== src/Json/Pieces.antt =====
-- json.cpp: how the parser reads each piece of a document that was written from a value.
use clumsy.Prelude.{
  ℕ, suc, ◌<◌, ◌≡◌, refl, ◌∙◌, Bool, true, false, ◌||◌, none, some, List, [], ◌∷◌, ◌++◌, arith,
  length, drop, leb, ◌==◌,
}
use clumsy.Json.{
  Double, JsonValue, Values, Members, null, bool, number, string, array, object, none_left, item,
  no_more, member,
}
use clumsy.Json.Strings.{parse_string}
use clumsy.Json.Escape.{all_clean, parse_string-json_escape, returned-eq}
use clumsy.Json.Parser.{
  Result, literal, ok, skip_ws, expect, parse_scalar, parse_number, go_on, parse_value, parse_array,
  array_items, parse_object, object_members,
}
use clumsy.Json.Print.{Delimits, ReadsBack, quoted, render, render_items, render_members}

drop-length : (xs rest : List ℕ) → drop (length xs) (xs ++ rest) ≡ rest
drop-length [] rest = refl
drop-length (x ∷ xs) rest = drop-length xs rest

parse_string-quoted :
    (k rest : List ℕ) → all_clean k ≡ true → parse_string (quoted k rest) ≡ some (k, rest)
parse_string-quoted k rest clean = parse_string-json_escape k rest ∙ rw (returned-eq k clean)

module _ {L : Type 0} (loop : List ℕ → Result (L × List ℕ)) (add : L → L) (last : L) where
  pub go_on-comma :
      (close : ℕ) (more rest : List ℕ) (l : L)
      → loop more ≡ ok (l, rest)
      → go_on close loop add last (b',' ∷ more) ≡ ok (add l, rest)
  unfolding go_on skip_ws expect
  go_on-comma close more rest l e = rw e

  pub go_on-bracket : (rest : List ℕ) → go_on b']' loop add last (b']' ∷ rest) ≡ ok (add last, rest)
  unfolding go_on skip_ws expect
  go_on-bracket rest = refl

  pub go_on-brace : (rest : List ℕ) → go_on b'}' loop add last (b'}' ∷ rest) ≡ ok (add last, rest)
  unfolding go_on skip_ws expect
  go_on-brace rest = refl

module _ {Num : Type 0} (double : Double Num) (first : Num → ℕ) (others : Num → List ℕ)
    (numbers : ReadsBack double first others) where
  abbrev pub text : JsonValue Num → List ℕ → List ℕ
  text = render first others

  abbrev pub starts_word : ℕ → Bool
  starts_word c = c == b't' || c == b'f' || c == b'n'

  -- A document starts with no white space and with no closing bracket.
  skip_ws-render : (v : JsonValue Num) (rest : List ℕ) → skip_ws (text v rest) ≡ text v rest
  unfolding render skip_ws
  skip_ws-render null rest = refl
  skip_ws-render (bool true) rest = refl
  skip_ws-render (bool false) rest = refl
  skip_ws-render (number x) rest = ground (arith, numbers.starts x)
  skip_ws-render (string s) rest = refl
  skip_ws-render (array none_left) rest = refl
  skip_ws-render (array (item v vs)) rest = refl
  skip_ws-render (object no_more) rest = refl
  skip_ws-render (object (member k v ms)) rest = refl

  expect-render : (v : JsonValue Num) (rest : List ℕ) → expect b']' (text v rest) ≡ none
  unfolding render expect
  expect-render null rest = refl
  expect-render (bool true) rest = refl
  expect-render (bool false) rest = refl
  expect-render (number x) rest = ground (arith, numbers.starts x)
  expect-render (string s) rest = refl
  expect-render (array none_left) rest = refl
  expect-render (array (item v vs)) rest = refl
  expect-render (object no_more) rest = refl
  expect-render (object (member k v ms)) rest = refl

  parse_number-back :
      (x : Num) (rest : List ℕ)
      → Delimits rest
      → parse_number double (first x ∷ (others x ++ rest)) ≡ ok (number x, rest)
  unfolding parse_number
  parse_number-back x rest ends =
      let some_read : (suc (length (others x)) == 0) ≡ false = ground arith in
      rw (numbers.back x rest ends) (rw some_read (rw (drop-length (others x) rest)))

  parse_scalar-number :
      (x : Num) (rest : List ℕ)
      → parse_scalar double (first x ∷ (others x ++ rest))
        ≡ parse_number double (first x ∷ (others x ++ rest))
  unfolding parse_scalar
  parse_scalar-number x rest = ground (arith, numbers.starts x)

  at_scalar :
      (f d : ℕ) (t : List ℕ)
      → d < 32
      → skip_ws t ≡ t
      → expect b'{' t ≡ none
      → expect b'[' t ≡ none
      → parse_value double (suc f) d t ≡ parse_scalar double t
  unfolding parse_value
  at_scalar f d t room skip brace bracket =
      let deep : leb 32 d ≡ false = ground arith in
      let no_object : expect b'{' (skip_ws t) ≡ none = rw skip brace in
      let no_array : expect b'[' (skip_ws t) ≡ none = rw skip bracket in
      rw (deep, parse_value) (rw no_object (rw no_array (rw skip)))

  pub number_read :
      (f d : ℕ) (x : Num) (rest : List ℕ)
      → d < 32
      → Delimits rest
      → parse_value double (suc f) d (text (number x) rest) ≡ ok (number x, rest)
  unfolding render
  number_read f d x rest room ends =
      at_scalar f d (text (number x) rest) room (skip_ws-render (number x) rest)
        (unfold expect in ground (arith, numbers.starts x))
        (unfold expect in ground (arith, numbers.starts x))
      ∙ parse_scalar-number x rest
      ∙ parse_number-back x rest ends

  pub string_read :
      (f d : ℕ) (s rest : List ℕ)
      → d < 32
      → all_clean s ≡ true
      → parse_value double (suc f) d (text (string s) rest) ≡ ok (string s, rest)
  unfolding render
  string_read f d s rest room clean =
      at_scalar f d (quoted s rest) room (skip_ws-render (string s) rest) (unfold expect in refl)
        (unfold expect in refl)
      ∙ unfold parse_scalar in rw (parse_string-quoted s rest clean)

  -- A bracket opens an array.
  at_array :
      (f d : ℕ) (t : List ℕ)
      → d < 32
      → parse_value double (suc f) d (b'[' ∷ t) ≡ parse_array double f (suc d) t
  unfolding parse_value skip_ws expect
  at_array f d t room = let deep : leb 32 d ≡ false = ground arith in rw (deep, parse_value)

  at_object :
      (f d : ℕ) (t : List ℕ)
      → d < 32
      → parse_value double (suc f) d (b'{' ∷ t) ≡ parse_object double f (suc d) t
  unfolding parse_value skip_ws expect
  at_object f d t room = let deep : leb 32 d ≡ false = ground arith in rw (deep, parse_value)

  pub item_read :
      (f d : ℕ) (v : JsonValue Num) (rest : List ℕ)
      → parse_value double f d (text v rest) ≡ ok (v, rest)
      → array_items double (suc f) d (text v rest)
        ≡ go_on b']' (array_items double f d) (item v) none_left rest
  unfolding parse_value
  item_read f d v rest e = rw (skip_ws-render v rest, e) refl

  pub member_read :
      (f d : ℕ) (k : List ℕ) (v : JsonValue Num) (rest : List ℕ)
      → all_clean k ≡ true
      → parse_value double f d (text v rest) ≡ ok (v, rest)
      → object_members double (suc f) d (quoted k (b':' ∷ text v rest))
        ≡ go_on b'}' (object_members double f d) (member k v) no_more rest
  unfolding parse_value
  member_read f d k v rest clean e =
      let key : skip_ws (quoted k (b':' ∷ text v rest)) ≡ quoted k (b':' ∷ text v rest) =
        unfold skip_ws in refl in
      let colon : expect b':' (skip_ws (b':' ∷ text v rest)) ≡ some (text v rest) =
        unfold skip_ws expect in refl in
      rw (key, parse_string-quoted k (b':' ∷ text v rest) clean)
        (rw (colon) (rw (skip_ws-render v rest) (rw e)))

  pub array_read :
      (f d : ℕ) (v : JsonValue Num) (vs : Values Num) (rest : List ℕ)
      → d < 32
      → array_items double f (suc d) (text v (render_items first others vs rest))
        ≡ ok (item v vs, rest)
      → parse_value double (suc (suc f)) d (text (array (item v vs)) rest)
        ≡ ok (array (item v vs), rest)
  unfolding render parse_array
  array_read f d v vs rest room e =
      let tail = render_items first others vs rest in
      let first_item : expect b']' (skip_ws (text v tail)) ≡ none =
        rw (skip_ws-render v tail) (expect-render v tail) in
      at_array (suc f) d (text v tail) room ∙ rw (first_item, parse_array) (rw e)

  pub object_read :
      (f d : ℕ) (k : List ℕ) (v : JsonValue Num) (ms : Members Num) (rest : List ℕ)
      → d < 32
      → object_members double f
          (suc d)
          (quoted k (b':' ∷ text v (render_members first others ms rest)))
        ≡ ok (member k v ms, rest)
      → parse_value double (suc (suc f)) d (text (object (member k v ms)) rest)
        ≡ ok (object (member k v ms), rest)
  unfolding render
  object_read f d k v ms rest room e =
      at_object (suc f) d _ room ∙ unfold parse_value in unfold skip_ws in unfold expect in rw e

  word_read :
      (f d : ℕ) (c : ℕ) (cs rest : List ℕ) (v : JsonValue Num)
      → d < 32
      → starts_word c ≡ true
      → parse_scalar double (c ∷ cs) ≡ ok (v, rest)
      → parse_value double (suc f) d (c ∷ cs) ≡ ok (v, rest)
  unfolding skip_ws expect
  word_read f d c cs rest v room first e =
      at_scalar f d (c ∷ cs) room (ground (arith, first)) (ground (arith, first))
        (ground (arith, first))
      ∙ e

  pub none_read :
      (f d : ℕ) (rest : List ℕ)
      → d < 32
      → parse_value double (suc (suc f)) d (b'[' ∷ b']' ∷ rest) ≡ ok (array none_left, rest)
  none_read f d rest room =
      at_array (suc f) d (b']' ∷ rest) room ∙ unfold parse_array skip_ws expect in refl

  pub no_more_read :
      (f d : ℕ) (rest : List ℕ)
      → d < 32
      → parse_value double (suc (suc f)) d (b'{' ∷ b'}' ∷ rest) ≡ ok (object no_more, rest)
  no_more_read f d rest room =
      at_object (suc f) d (b'}' ∷ rest) room ∙ unfold parse_object skip_ws expect in refl

  pub null_read :
      (f d : ℕ) (rest : List ℕ)
      → d < 32
      → parse_value double (suc f) d (text null rest) ≡ ok (null, rest)
  unfolding render parse_scalar literal
  null_read f d rest room = word_read f d _ _ rest null room refl refl

  pub bool_read :
      (f d : ℕ) (b : Bool) (rest : List ℕ)
      → d < 32
      → parse_value double (suc f) d (text (bool b) rest) ≡ ok (bool b, rest)
  unfolding render parse_scalar literal
  bool_read f d true rest room = word_read f d _ _ rest (bool true) room refl refl
  bool_read f d false rest room = word_read f d _ _ rest (bool false) room refl refl
