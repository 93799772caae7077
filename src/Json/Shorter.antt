-- ===== src/Json/Shorter.antt =====
-- json.cpp: every piece that the parser reads leaves a shorter text.
use clumsy.Prelude.{
  ℕ, suc, ◌+◌, ◌≤◌, ◌<◌, ◌≡◌, refl, Option, none, some, List, [], ◌∷◌, ◌++◌, arith, ◌==◌, length,
  length-drop, Bool-cases, inl, inr, max, either_way, true, false,
}
use clumsy.Utils.{codes}
use clumsy.Json.{
  Double, JsonValue, Values, Members, null, bool, string, array, object, none_left, item, no_more,
  member,
}
use clumsy.Json.Strings.{Place, read_string, parse_string, next_place, output}
use clumsy.Json.Parser.{
  Result, ok, refused, out_of_fuel, ◌>>=◌, answered, skip_ws, literal, expect, parse_number,
  parse_scalar,
}

-- The fuel lasted, and `P` holds of the value if there is one.
abbrev pub Ensures : {A : Type 0} → (A → Type 0) → Result A → Type 0
Ensures P (ok a) = P a
Ensures P refused = Unit {0}
Ensures P out_of_fuel = ⊥

pub Ensures-bind :
    {A B : Type 0} (P : A → Type 0) (Q : B → Type 0) (r : Result A) (f : A → Result B)
    → Ensures P r
    → ((a : A) → P a → Ensures Q (f a))
    → Ensures Q (r >>= f)
Ensures-bind P Q (ok a) f p k = k a p
Ensures-bind P Q refused f p k = tt
Ensures-bind P Q out_of_fuel f p k = elim p [ ]

pub Ensures-map :
    {A : Type 0} (P Q : A → Type 0) (r : Result A)
    → ((a : A) → P a → Q a)
    → Ensures P r
    → Ensures Q r
Ensures-map P Q (ok a) k p = k a p
Ensures-map P Q refused k p = tt
Ensures-map P Q out_of_fuel k p = p

pub Ensures-answered :
    {A : Type 0} (P : A → Type 0) (o : Option A)
    → ((a : A) → o ≡ some a → P a)
    → Ensures P (answered o)
Ensures-answered P none k = tt
Ensures-answered P (some a) k = k a refl

-- How many arrays and objects stand in one another.
unfoldable mutual
  pub levels : {Num : Type 0} → JsonValue Num → ℕ
  levels (array vs) = suc (levels_of_items vs)
  levels (object ms) = suc (levels_of_members ms)
  levels _ = 0

  pub levels_of_items : {Num : Type 0} → Values Num → ℕ
  levels_of_items none_left = 0
  levels_of_items (item v vs) = max (levels v) (levels_of_items vs)

  pub levels_of_members : {Num : Type 0} → Members Num → ℕ
  levels_of_members no_more = 0
  levels_of_members (member k v ms) = max (levels v) (levels_of_members ms)

pub length-skip_ws : (t : List ℕ) → length (skip_ws t) ≤ length t
unfolding skip_ws
length-skip_ws [] = omega arith
length-skip_ws (c ∷ cs) = ground (arith, length-skip_ws cs)

pub length-expect : (c : ℕ) (t rest : List ℕ) → expect c t ≡ some rest → length rest < length t
unfolding expect
length-expect c [] rest h = cc
length-expect c (x ∷ xs) rest h = ground arith

length-read_string :
    (at : Place) (t out s rest : List ℕ)
    → read_string at t out ≡ some (s, rest)
    → length rest < length t
unfolding read_string
length-read_string at [] out s rest h = cc
length-read_string at (c ∷ cs) out s rest h =
    ground (arith, length-read_string (next_place at c) cs (out ++ output at c) s rest)

pub length-parse_string :
    (t s rest : List ℕ) → parse_string t ≡ some (s, rest) → length rest < length t
unfolding parse_string
length-parse_string [] s rest h = cc
length-parse_string (c ∷ cs) s rest h = ground (arith, length-read_string Place.head cs [] s rest)

length-literal :
    (word t : List ℕ) → Ensures (λ rest. length rest + length word ≡ length t) (literal word t)
unfolding literal
length-literal [] t = omega arith
length-literal (w ∷ word) [] = tt
length-literal (w ∷ word) (c ∷ cs) = elim (Bool-cases (c == w)) [
  | inl e ↦
      rw (e, Ensures)
        (Ensures-map _ _ (literal word cs) (λ rest h. omega (arith, h)) (length-literal word cs))
  | inr e ↦ rw (e, Ensures) tt
]

module _ {Num : Type 0} (double : Double Num) where
  -- A scalar was read, and at least one character.
  abbrev pub Scalar : List ℕ → JsonValue Num × List ℕ → Type 0
  Scalar t (v, rest) = (length rest < length t) × (levels v ≡ 0)

  literal-Scalar :
      (w : ℕ) (word t : List ℕ) (v : JsonValue Num)
      → levels v ≡ 0
      → Ensures (Scalar t) (literal (w ∷ word) t >>= λ rest. ok (v, rest))
  literal-Scalar w word t v flat =
      Ensures-bind (λ rest. length rest + length (w ∷ word) ≡ length t) (Scalar t)
        (literal (w ∷ word) t) (λ rest. ok (v, rest)) (length-literal (w ∷ word) t)
        (λ rest h. (omega (arith, h), flat))

  string-Scalar :
      (t : List ℕ)
      → Ensures (Scalar t) (answered (parse_string t) >>= λ (s, rest). ok (string s, rest))
  unfolding levels
  string-Scalar t =
      Ensures-bind (λ (s, rest). length rest < length t) (Scalar t) (answered (parse_string t))
        (λ (s, rest). ok (string s, rest))
        (Ensures-answered _ (parse_string t) (λ (s, rest) e. length-parse_string t s rest e))
        (λ (s, rest) h. (h, refl))

  parse_number-Scalar :
      (c : ℕ) (cs : List ℕ) → Ensures (Scalar (c ∷ cs)) (parse_number double (c ∷ cs))
  unfolding parse_number levels
  parse_number-Scalar c cs = ground (arith, length-drop (double.strtod (c ∷ cs)).1 (c ∷ cs))

  pub parse_scalar-Scalar : (t : List ℕ) → Ensures (Scalar t) (parse_scalar double t)
  unfolding parse_scalar levels
  parse_scalar-Scalar [] = tt
  parse_scalar-Scalar (c ∷ cs) =
      let t = c ∷ cs in
      let text = answered (parse_string t) >>= λ (s, rest). ok (string s, rest) in
      let yes_word = literal (codes "true") t >>= λ rest. ok (bool true, rest) in
      let no_word = literal (codes "false") t >>= λ rest. ok (bool false, rest) in
      let null_word = literal (codes "null") t >>= λ rest. ok (null, rest) in
      let P = Ensures (Scalar t) in
      either_way P (c == b'"') text _ (λ _. string-Scalar t)
        (λ _.
          either_way P (c == b't') yes_word _
            (λ _. literal-Scalar b't' (codes "rue") t (bool true) refl)
            (λ _.
              either_way P (c == b'f') no_word _
                (λ _. literal-Scalar b'f' (codes "alse") t (bool false) refl)
                (λ _.
                  either_way P (c == b'n') null_word _
                    (λ _. literal-Scalar b'n' (codes "ull") t null refl)
                    (λ _. parse_number-Scalar c cs))))
