-- ===== src/Json.antt =====
-- json.cpp: the values that the JSON reader of the control API returns, and how they are read.
--
-- A text is the list of its bytes. `Double` stands for the C type and its conversions.
pub mod Strings
pub mod Parser
pub mod Escape
pub mod Shorter
pub mod Total
pub mod Deep
pub mod Print
pub mod Documents
pub mod Pieces
pub mod RoundTrip
use clumsy.Prelude.{
  ℕ, Bool, true, false, ◌&&◌, ◌||◌, not, Option, none, some, List, [], if◌then◌else◌,
}
use clumsy.Utils.{codes, same_codes}

-- The members of JsonValue that its `type` selects.
mutual
  pub data JsonValue (Num : Type 0) : Type 0 where
    null : JsonValue Num
    bool : Bool → JsonValue Num
    number : Num → JsonValue Num
    string : List ℕ → JsonValue Num
    array : Values Num → JsonValue Num
    object : Members Num → JsonValue Num

  pub data Values (Num : Type 0) : Type 0 where
    none_left : Values Num
    item : JsonValue Num → Values Num → Values Num

  pub data Members (Num : Type 0) : Type 0 where
    no_more : Members Num
    member : List ℕ → JsonValue Num → Members Num → Members Num

-- `strtod p` is the value and how many characters were read; `integral` is the test of asString that a
-- value is below 1e15 in size and whole; `print_integer` and `print_general` are %lld and %.6g.
pub record Double (Num : Type 0) : Type 0 where
  pub strtod : List ℕ → Num × ℕ
  pub atof : List ℕ → Num
  pub zero_value : Num
  pub one_value : Num
  pub is_zero : Num → Bool
  pub integral : Num → Bool
  pub print_integer : Num → List ℕ
  pub print_general : Num → List ℕ

module _ {Num : Type 0} where
  unfoldable pub find_in : List ℕ → Members Num → Option (JsonValue Num)
  find_in key no_more = none
  find_in key (member k v ms) =
      let rest = find_in key ms in if same_codes k key then some v else rest

  unfoldable pub find : List ℕ → JsonValue Num → Option (JsonValue Num)
  unfolding find_in
  find key (object ms) = find_in key ms
  find key _ = none

module _ {Num : Type 0} (double : Double Num) where
  unfoldable pub as_string : JsonValue Num → List ℕ
  as_string (string s) = s
  as_string (bool b) = if b then codes "true" else codes "false"
  as_string (number x) =
      if double.integral x then double.print_integer x else double.print_general x
  as_string _ = []

  unfoldable pub as_number : JsonValue Num → Num
  as_number (number x) = x
  as_number (bool b) = if b then double.one_value else double.zero_value
  as_number (string s) = double.atof s
  as_number _ = double.zero_value

  unfoldable pub as_bool : JsonValue Num → Bool
  as_bool (bool b) = b
  as_bool (number x) = not (double.is_zero x)
  as_bool (string s) =
      same_codes s (codes "true")
      || same_codes s (codes "1")
      || same_codes s (codes "on")
      || same_codes s (codes "yes")
  as_bool _ = false

  unfoldable pub str : JsonValue Num → List ℕ → List ℕ → List ℕ
  unfolding find as_string
  str v key fallback = elim (find key v) [ none ↦ fallback | some x ↦ as_string x ]
