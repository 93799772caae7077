-- ===== src/Json/Documents.antt =====
-- json.cpp: the length of a document that was written from a value, and what may follow its parts.
use clumsy.Prelude.{ℕ, ◌<◌, refl, inl, inr, true, false, List, ◌∷◌, arith, length, length-append}
use clumsy.Json.{
  JsonValue, Values, Members, null, bool, number, string, array, object, none_left, item, no_more,
  member,
}
use clumsy.Json.Strings.{json_escape}
use clumsy.Json.Print.{Delimits, quoted, render, render_items, render_members}

module _ {Num : Type 0} (first : Num → ℕ) (others : Num → List ℕ) where
  pub length-quoted : (k rest : List ℕ) → length rest < length (quoted k rest)
  length-quoted k rest = omega (arith, length-append (json_escape k) (b'"' ∷ rest))

  mutual
    unfolding render

    pub length-render :
        (v : JsonValue Num) (rest : List ℕ) → length rest < length (render first others v rest)
    length-render null rest = omega arith
    length-render (bool true) rest = omega arith
    length-render (bool false) rest = omega arith
    length-render (number x) rest = omega (arith, length-append (others x) rest)
    length-render (string s) rest = length-quoted s rest
    length-render (array none_left) rest = omega arith
    length-render (array (item v vs)) rest =
        omega
          (arith, length-render v (render_items first others vs rest), length-render_items vs rest)
    length-render (object no_more) rest = omega arith
    length-render (object (member k v ms)) rest = omega (
      arith,
      length-quoted k (b':' ∷ render first others v (render_members first others ms rest)),
      length-render v (render_members first others ms rest),
      length-render_members ms rest,
    )

    pub length-render_items :
        (vs : Values Num) (rest : List ℕ) → length rest < length (render_items first others vs rest)
    length-render_items none_left rest = omega arith
    length-render_items (item v vs) rest =
        omega
          (arith, length-render v (render_items first others vs rest), length-render_items vs rest)

    pub length-render_members :
        (ms : Members Num) (rest : List ℕ)
        → length rest < length (render_members first others ms rest)
    length-render_members no_more rest = omega arith
    length-render_members (member k v ms) rest = omega (
      arith,
      length-quoted k (b':' ∷ render first others v (render_members first others ms rest)),
      length-render v (render_members first others ms rest),
      length-render_members ms rest,
    )

  pub Delimits-items :
      (vs : Values Num) (rest : List ℕ) → Delimits (render_items first others vs rest)
  unfolding render
  Delimits-items none_left rest = inr (inl refl)
  Delimits-items (item v vs) rest = inl refl

  pub Delimits-members :
      (ms : Members Num) (rest : List ℕ) → Delimits (render_members first others ms rest)
  unfolding render
  Delimits-members no_more rest = inr (inr refl)
  Delimits-members (member k v ms) rest = inl refl
