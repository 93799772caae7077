-- ===== src/Json/Print.antt =====
-- json.cpp: documents that are written from values with jsonEscape, as the sources that answer requests do.
use clumsy.Prelude.{
  ℕ, suc, ◌≡◌, ◌⊎◌, Bool, true, ◌&&◌, ◌||◌, not, List, [], ◌∷◌, ◌++◌, length, if◌then◌else◌, ◌==◌,
}
use clumsy.Utils.{codes}
use clumsy.Json.{
  Double, JsonValue, Values, Members, null, bool, number, string, array, object, none_left, item,
  no_more, member,
}
use clumsy.Json.Strings.{json_escape}
use clumsy.Json.Escape.{all_clean}
use clumsy.Json.Parser.{is_ws}

-- What may follow a value inside a document.
abbrev pub Delimits : List ℕ → Type 0
Delimits [] = Unit {0}
Delimits (c ∷ cs) = (c ≡ b',') ⊎ (c ≡ b']') ⊎ (c ≡ b'}')

-- No number starts with a character that starts another value, ends a list, or is white space.
abbrev pub starts_number : ℕ → Bool
starts_number c = not (
    is_ws c
    || c == b'{'
    || c == b'['
    || c == b'"'
    || c == b't'
    || c == b'f'
    || c == b'n'
    || c == b']')

-- strtod reads the text that was printed for a number, and stops behind it.
pub record ReadsBack {Num : Type 0} (double : Double Num) (first : Num → ℕ) (others : Num → List ℕ)
    : Type 0 where
  pub starts : (x : Num) → starts_number (first x) ≡ true
  pub back :
      (x : Num) (rest : List ℕ)
      → Delimits rest
      → double.strtod (first x ∷ (others x ++ rest)) ≡ (x, suc (length (others x)))

abbrev pub quoted : List ℕ → List ℕ → List ℕ
quoted s rest = b'"' ∷ (json_escape s ++ b'"' ∷ rest)

module _ {Num : Type 0} (first : Num → ℕ) (others : Num → List ℕ) where
  -- The document of a value, without white space, in front of what follows it.
  unfoldable mutual
    pub render : JsonValue Num → List ℕ → List ℕ
    render null rest = codes "null" ++ rest
    render (bool b) rest = (if b then codes "true" else codes "false") ++ rest
    render (number x) rest = first x ∷ (others x ++ rest)
    render (string s) rest = quoted s rest
    render (array none_left) rest = b'[' ∷ b']' ∷ rest
    render (array (item v vs)) rest = b'[' ∷ render v (render_items vs rest)
    render (object no_more) rest = b'{' ∷ b'}' ∷ rest
    render (object (member k v ms)) rest =
        b'{' ∷ quoted k (b':' ∷ render v (render_members ms rest))

    pub render_items : Values Num → List ℕ → List ℕ
    render_items none_left rest = b']' ∷ rest
    render_items (item v vs) rest = b',' ∷ render v (render_items vs rest)

    pub render_members : Members Num → List ℕ → List ℕ
    render_members no_more rest = b'}' ∷ rest
    render_members (member k v ms) rest = b',' ∷ quoted k (b':' ∷ render v (render_members ms rest))

-- No string in the value holds a control character that the reader leaves as the text of its escape.
unfoldable mutual
  pub clean_value : {Num : Type 0} → JsonValue Num → Bool
  clean_value (string s) = all_clean s
  clean_value (array vs) = clean_items vs
  clean_value (object ms) = clean_members ms
  clean_value _ = true

  pub clean_items : {Num : Type 0} → Values Num → Bool
  clean_items none_left = true
  clean_items (item v vs) = clean_value v && clean_items vs

  pub clean_members : {Num : Type 0} → Members Num → Bool
  clean_members no_more = true
  clean_members (member k v ms) = all_clean k && (clean_value v && clean_members ms)
