-- ===== src/Json/RoundTrip.antt =====
-- json.cpp: jsonParse reads the documents that are written from values with jsonEscape.
use clumsy.Prelude.{
  both_true, ℕ, suc, ◌+◌, ◌-◌, ◌*◌, ◌≤◌, ◌<◌, ◌≡◌, ◌∙◌, true, ◌&&◌, List, ◌∷◌, arith, length,
}
use clumsy.Json.{
  Double, JsonValue, Values, Members, null, bool, number, string, array, object, none_left, item,
  no_more, member,
}
use clumsy.Json.Escape.{all_clean}
use clumsy.Json.Parser.{ok, go_on, fuel_for, parse_value, array_items, object_members, json_parse}
use clumsy.Json.Shorter.{levels, levels_of_items, levels_of_members}
use clumsy.Json.Print.{
  Delimits, ReadsBack, quoted, render, render_items, render_members, clean_value, clean_items,
  clean_members,
}
use clumsy.Json.Documents.{length-render, Delimits-items, Delimits-members, length-quoted}
use clumsy.Json.Pieces.{
  number_read, string_read, item_read, member_read, array_read, object_read, null_read, bool_read,
  go_on-comma, go_on-bracket, go_on-brace, none_read, no_more_read,
}

module _ {Num : Type 0} (double : Double Num) (first : Num → ℕ) (others : Num → List ℕ)
    (numbers : ReadsBack double first others) where
  abbrev text : JsonValue Num → List ℕ → List ℕ
  text = render first others

  abbrev items_text : Values Num → List ℕ → List ℕ
  items_text = render_items first others

  abbrev members_text : Members Num → List ℕ → List ℕ
  members_text = render_members first others

  -- With three units of fuel for each character, a value is read, and so is what goes on behind an entry.
  mutual
    unfolding render levels clean_value

    value_read :
        (v : JsonValue Num) (f d : ℕ) (rest : List ℕ)
        → clean_value v ≡ true
        → d + levels v < 32
        → 3 * length (text v rest) ≤ f
        → Delimits rest
        → parse_value double (suc f) d (text v rest) ≡ ok (v, rest)
    value_read null f d rest clean room enough ends =
        null_read double first others numbers f d rest (omega arith)
    value_read (bool b) f d rest clean room enough ends =
        bool_read double first others numbers f d b rest (omega arith)
    value_read (number x) f d rest clean room enough ends =
        number_read double first others numbers f d x rest (omega arith) ends
    value_read (string s) f d rest clean room enough ends =
        string_read double first others numbers f d s rest (omega arith) clean
    value_read (array none_left) f d rest clean room enough ends =
        let e : f ≡ suc (f - 1) = omega arith in
        rw e (none_read double first others numbers (f - 1) d rest (omega arith))
    value_read (array (item v vs)) f d rest clean room enough ends =
        let tail = items_text vs rest in
        let (clean_v, clean_vs) = both_true (clean_value v) (clean_items vs) clean in
        let i = f - 3 in
        let e : f ≡ suc (suc (suc i)) = omega arith in
        rw e (
          array_read double first others numbers (suc (suc i)) d v vs rest (omega arith) (
            item_read double first others numbers (suc i) (suc d) v tail (
              value_read v i (suc d) tail clean_v (omega arith) (omega arith)
                (Delimits-items first others vs rest))
            ∙ items_read vs v i (suc d) rest clean_vs (omega arith)
                (omega (arith, length-render first others v tail)) ends))
    value_read (object no_more) f d rest clean room enough ends =
        let e : f ≡ suc (f - 1) = omega arith in
        rw e (no_more_read double first others numbers (f - 1) d rest (omega arith))
    value_read (object (member k v ms)) f d rest clean room enough ends =
        let tail = members_text ms rest in
        let (clean_k, clean_both) =
          both_true (all_clean k) (clean_value v && clean_members ms) clean in
        let (clean_v, clean_ms) = both_true (clean_value v) (clean_members ms) clean_both in
        let i = f - 3 in
        let shorter = length-quoted first others k (b':' ∷ text v tail) in
        let e : f ≡ suc (suc (suc i)) = omega arith in
        rw e (
          object_read double first others numbers (suc (suc i)) d k v ms rest (omega arith) (
            member_read double first others numbers (suc i) (suc d) k v tail clean_k (
              value_read v i (suc d) tail clean_v (omega arith) (omega arith)
                (Delimits-members first others ms rest))
            ∙ members_read ms k v i (suc d) rest clean_ms (omega arith)
                (omega (arith, length-render first others v tail)) ends))

    items_read :
        (vs : Values Num) (v : JsonValue Num) (f d : ℕ) (rest : List ℕ)
        → clean_items vs ≡ true
        → d + levels_of_items vs < 32
        → 3 * length (items_text vs rest) ≤ f
        → Delimits rest
        → go_on b']' (array_items double (suc f) d) (item v) none_left (items_text vs rest)
          ≡ ok (item v vs, rest)
    items_read none_left v f d rest clean room enough ends =
        go_on-bracket (array_items double (suc f) d) (item v) none_left rest
    items_read (item v' vs) v f d rest clean room enough ends =
        let tail = items_text vs rest in
        let (clean_v, clean_vs) = both_true (clean_value v') (clean_items vs) clean in
        let i = f - 2 in
        let e : f ≡ suc (suc i) = omega arith in
        rw e (
          go_on-comma (array_items double (suc (suc (suc i))) d) (item v) none_left b']'
            (text v' tail) rest (item v' vs)
            (item_read double first others numbers (suc (suc i)) d v' tail (
                value_read v' (suc i) d tail clean_v (omega arith) (omega arith)
                  (Delimits-items first others vs rest))
              ∙ items_read vs v' (suc i) d rest clean_vs (omega arith)
                  (omega (arith, length-render first others v' tail)) ends))

    members_read :
        (ms : Members Num) (k : List ℕ) (v : JsonValue Num) (f d : ℕ) (rest : List ℕ)
        → clean_members ms ≡ true
        → d + levels_of_members ms < 32
        → 3 * length (members_text ms rest) ≤ f
        → Delimits rest
        → go_on b'}' (object_members double (suc f) d) (member k v) no_more (members_text ms rest)
          ≡ ok (member k v ms, rest)
    members_read no_more k v f d rest clean room enough ends =
        go_on-brace (object_members double (suc f) d) (member k v) no_more rest
    members_read (member k' v' ms) k v f d rest clean room enough ends =
        let tail = members_text ms rest in
        let (clean_k, clean_both) =
          both_true (all_clean k') (clean_value v' && clean_members ms) clean in
        let (clean_v, clean_ms) = both_true (clean_value v') (clean_members ms) clean_both in
        let i = f - 2 in
        let shorter = length-quoted first others k' (b':' ∷ text v' tail) in
        let e : f ≡ suc (suc i) = omega arith in
        rw e (
          go_on-comma (object_members double (suc (suc (suc i))) d) (member k v) no_more b'}'
            (quoted k' (b':' ∷ text v' tail)) rest (member k' v' ms)
            (member_read double first others numbers (suc (suc i)) d k' v' tail clean_k (
                value_read v' (suc i) d tail clean_v (omega arith) (omega arith)
                  (Delimits-members first others ms rest))
              ∙ members_read ms k' v' (suc i) d rest clean_ms (omega arith)
                  (omega (arith, length-render first others v' tail)) ends))

  -- If strtod reads back what is printed for a number, then jsonParse reads every value back from its
  -- document, whatever delimiter and text follows: of values with at most 31 arrays and objects in one
  -- another, whose strings and keys hold no control character but \b, \t, \n, \f and \r.
  pub json_parse-render :
      (v : JsonValue Num) (rest : List ℕ)
      → clean_value v ≡ true
      → levels v < 32
      → Delimits rest
      → json_parse double (text v rest) ≡ ok v
  unfolding json_parse fuel_for
  json_parse-render v rest clean room ends =
      let e : fuel_for (text v rest) ≡ suc (3 * length (text v rest)) = omega arith in
      rw e
        (rw (value_read v (3 * length (text v rest)) 0 rest clean (omega arith) (omega arith) ends))
