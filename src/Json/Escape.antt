-- ===== src/Json/Escape.antt =====
-- json.cpp: what parseString gives back of a string that jsonEscape wrote.
use clumsy.Prelude.{
  ℕ, ◌*◌, ◌≤◌, ◌≡◌, refl, ap, sym, ◌∙◌, ◌↔◌, Bool, true, false, ◌&&◌, ◌||◌, some, List, [], ◌∷◌,
  ◌++◌, arith, if◌then◌else◌, leb, ◌==◌, length, append-nil, append_assoc, Bool-cases, inl, inr,
  ◌≢◌, subst, ◌<◌, suc,
}
use native.Mathlib.Decide.{ℕ_discrete}
use clumsy.Json.{string}
use clumsy.Json.{Double}
use clumsy.Json.Strings.{head, read_string, parse_string, unicode_escape, escape_byte, json_escape}
use clumsy.Json.Parser.{ok, json_parse, parse_value, parse_scalar, expect, fuel_for, skip_ws}

-- The characters that jsonEscape writes as they are, or as an escape that the reader knows.
abbrev pub is_clean : ℕ → Bool
is_clean c = leb 32 c || c == 8 || c == 9 || c == 10 || c == 12 || c == 13

abbrev pub all_clean : List ℕ → Bool
all_clean [] = true
all_clean (c ∷ cs) = is_clean c && all_clean cs

-- The other control characters come back as the text of their escape.
pub returned : List ℕ → List ℕ
returned [] = []
returned (c ∷ cs) = (if is_clean c then c ∷ [] else unicode_escape c) ++ returned cs

-- The loop behind \u copies four characters.
read_string-unicode :
    (a b c d : ℕ) (rest out : List ℕ)
    → read_string head (b'\\' ∷ b'u' ∷ a ∷ b ∷ c ∷ d ∷ rest) out
      ≡ read_string head rest (out ++ (b'\\' ∷ b'u' ∷ a ∷ b ∷ c ∷ d ∷ []))
unfolding read_string
read_string-unicode a b c d rest out = simp (append_assoc, append-nil)

read_string-plain :
    (c : ℕ) (rest out : List ℕ)
    → (c == b'"') ≡ false
    → (c == b'\\') ≡ false
    → read_string head (c ∷ rest) out ≡ read_string head rest (out ++ c ∷ [])
unfolding read_string
read_string-plain c rest out quote slash = rw (quote, slash) refl

module _ (P : ℕ → Type 0) where
  -- The characters with an escape of two characters, and the others.
  by_escape :
      P b'"'
      → P b'\\'
      → P 8
      → P 9
      → P 10
      → P 12
      → P 13
      → ((c : ℕ)
          → (c ≢ b'"') × (c ≢ b'\\') × (c ≢ 8) × (c ≢ 9) × (c ≢ 10) × (c ≢ 12) × (c ≢ 13)
          → P c)
      → (c : ℕ) → P c
  unfolding ℕ_discrete
  by_escape quote slash b t n f r other c = elim (ℕ_discrete c b'"') [
    | yes e ↦ subst P (sym e) quote
    | no q ↦ elim (ℕ_discrete c b'\\') [
      | yes e ↦ subst P (sym e) slash
      | no s ↦ elim (ℕ_discrete c 8) [
        | yes e ↦ subst P (sym e) b
        | no b' ↦ elim (ℕ_discrete c 9) [
          | yes e ↦ subst P (sym e) t
          | no t' ↦ elim (ℕ_discrete c 10) [
            | yes e ↦ subst P (sym e) n
            | no n' ↦ elim (ℕ_discrete c 12) [
              | yes e ↦ subst P (sym e) f
              | no f' ↦ elim (ℕ_discrete c 13) [
                | yes e ↦ subst P (sym e) r
                | no r' ↦ other c (q, s, b', t', n', f', r')
              ]
            ]
          ]
        ]
      ]
    ]
  ]

abbrev back : ℕ → List ℕ
back c = if is_clean c then c ∷ [] else unicode_escape c

abbrev IsOther : ℕ → Type 0
IsOther c = (c ≢ b'"') × (c ≢ b'\\') × (c ≢ 8) × (c ≢ 9) × (c ≢ 10) × (c ≢ 12) × (c ≢ 13)

escape_byte-other : (c : ℕ) → IsOther c → escape_byte c ≡ back c
unfolding escape_byte
escape_byte-other c h = ground arith

read_string-back :
    (rest out : List ℕ) (c : ℕ)
    → IsOther c
    → read_string head (back c ++ rest) out ≡ read_string head rest (out ++ back c)
unfolding unicode_escape
read_string-back rest out c h = elim (Bool-cases (is_clean c)) [
  | inl clean ↦ rw clean (read_string-plain c rest out (ground arith) (ground arith))
  | inr control ↦ rw control (read_string-unicode _ _ _ _ rest out)
]

-- What jsonEscape writes for a character is read as that character, or as the text of its escape.
read_string-escape_byte :
    (rest out : List ℕ) (c : ℕ)
    → read_string head (escape_byte c ++ rest) out ≡ read_string head rest (out ++ back c)
unfolding read_string escape_byte
read_string-escape_byte rest out =
    by_escape
      (λ c. read_string head (escape_byte c ++ rest) out ≡ read_string head rest (out ++ back c))
      (rw append-nil) (rw append-nil) (rw append-nil) (rw append-nil) (rw append-nil)
      (rw append-nil) (rw append-nil)
      (λ c h. rw (escape_byte-other c h) (read_string-back rest out c h))

read_string-json_escape :
    (s rest out : List ℕ)
    → read_string head (json_escape s ++ b'"' ∷ rest) out ≡ some (out ++ returned s, rest)
unfolding read_string json_escape returned
read_string-json_escape [] rest out = rw append-nil
read_string-json_escape (c ∷ cs) rest out = rw append_assoc (
    read_string-escape_byte (json_escape cs ++ b'"' ∷ rest) out c
    ∙ read_string-json_escape cs rest (out ++ back c)
    ∙ rw append_assoc)

pub parse_string-json_escape :
    (s rest : List ℕ)
    → parse_string (b'"' ∷ (json_escape s ++ b'"' ∷ rest)) ≡ some (returned s, rest)
unfolding parse_string
parse_string-json_escape s rest = read_string-json_escape s rest []

length-returned_le : (s : List ℕ) → length s ≤ length (returned s)
unfolding returned unicode_escape
length-returned_le [] = omega arith
length-returned_le (c ∷ cs) = ground (arith, length-returned_le cs)

longer-returned : (s : List ℕ) → all_clean s ≡ false → length s < length (returned s)
unfolding returned unicode_escape
longer-returned [] h = cc
longer-returned (c ∷ cs) h = ground (arith, longer-returned cs, length-returned_le cs)

pub returned-eq : (s : List ℕ) → all_clean s ≡ true → returned s ≡ s
unfolding returned
returned-eq [] h = refl
returned-eq (c ∷ cs) h = ground (arith, returned-eq cs)

returned_iff : (s : List ℕ) → (returned s ≡ s) ↔ (all_clean s ≡ true)
returned_iff s = (
  λ e. elim (Bool-cases (all_clean s)) [
    | inl clean ↦ clean
    | inr control ↦ absurd (omega (arith, longer-returned s control, ap length e))
  ],
  returned-eq s,
)

module _ {Num : Type 0} (double : Double Num) where
  parse_value-json_escape :
      (f : ℕ) (s rest : List ℕ)
      → parse_value double (suc f) 0 (b'"' ∷ (json_escape s ++ b'"' ∷ rest))
        ≡ ok (string (returned s), rest)
  unfolding parse_value skip_ws expect parse_scalar
  parse_value-json_escape f s rest = rw (parse_string-json_escape s rest) refl

  pub json_parse-returned :
      (s rest : List ℕ)
      → json_parse double (b'"' ∷ (json_escape s ++ b'"' ∷ rest)) ≡ ok (string (returned s))
  unfolding json_parse fuel_for
  json_parse-returned s rest =
      let text = b'"' ∷ (json_escape s ++ b'"' ∷ rest) in
      let e : fuel_for text ≡ suc (3 * length text) = omega arith in
      rw e (rw (parse_value-json_escape (3 * length text) s rest))

  -- A string that jsonEscape wrote between quotes, whatever follows, is read back by jsonParse as the same
  -- string exactly when it holds no control character but \b, \t, \n, \f and \r.
  pub json_parse-json_escape :
      (s rest : List ℕ)
      → (json_parse double (b'"' ∷ (json_escape s ++ b'"' ∷ rest)) ≡ ok (string s))
        ↔ (all_clean s ≡ true)
  json_parse-json_escape s rest =
      let back_again = json_parse-returned s rest in
      (λ e. (returned_iff s).0 (cc), λ clean. back_again ∙ rw (returned-eq s clean))
