-- ===== src/Filter/Parser.antt =====
-- filterexpr.cpp: the recursive descent that compiles a filter expression to a program.
--
-- Each call of a parsing function costs a unit of fuel. A failed parse stops at once in the source (every
-- caller returns -1 on -1), so the first error is the only one.
use clumsy.Prelude.{
  ℕ, zero, suc, ◌+◌, ◌*◌, Bool, true, false, ◌&&◌, ◌||◌, Option, none, some, List, [], ◌∷◌, ◌++◌,
  if◌then◌else◌, length,
}
use clumsy.Utils.{codes, lower, same_codes}
use clumsy.Prelude.{map}
use clumsy.Filter.{
  Node, Program, Field, Op, op_eq, op_ne, op_gt, op_lt, op_ge, op_le, ip_src, ip_dst, ip_proto,
  tcp_src_port, tcp_dst_port, udp_src_port, udp_dst_port, always, never, outbound, inbound,
  loopback, ipv4, ipv6, both, either, negate, compare_field,
}
use clumsy.Filter.Lexer.{
  Conversions, Kind, end, ident, number, ipv4_literal, punct, Token, Cursor, next, is_blank,
}

pub data ParseError : Type 0 where
  unexpected expected_keyword unknown_term expected_operator expected_value : List ℕ → ParseError
  needs_address needs_number : List ℕ → ParseError
  expected_close unexpected_end : ParseError

-- `out_of_fuel` has no counterpart in the source.
pub data Result (A : Type 0) : Type 0 where
  ok : A → Result A
  err : ParseError → Result A
  out_of_fuel : Result A

pub record State : Type 0 where
  pub cursor : Cursor
  pub nodes : Program

infixl 5 ◌>>=◌
abbrev pub ◌>>=◌ : {A B : Type 0} → Result A → (A → Result B) → Result B
ok a >>= f = f a
err e >>= f = err e
out_of_fuel >>= f = out_of_fuel

abbrev pub same_word : List ℕ → List ℕ → Bool
same_word a b = same_codes (map lower a) (map lower b)

abbrev pub is_end : Kind → Bool
is_end end = true
is_end _ = false

abbrev pub is_ident : Kind → Bool
is_ident ident = true
is_ident _ = false

abbrev pub is_punct : Kind → Bool
is_punct punct = true
is_punct _ = false

abbrev pub is_number : Kind → Bool
is_number number = true
is_number _ = false

abbrev pub is_address : Kind → Bool
is_address ipv4_literal = true
is_address _ = false

-- `isIdent(kw)` and `isPunct(s)` of a token.
unfoldable pub ident_is : Token → List ℕ → Bool
ident_is t kw = is_ident t.kind && same_word t.text kw

unfoldable pub punct_is : Token → List ℕ → Bool
punct_is t s = is_punct t.kind && same_codes t.text s

unfoldable pub is_or : Token → Bool
unfolding ident_is punct_is
is_or t = ident_is t (codes "or") || punct_is t (codes "||")

unfoldable pub is_and : Token → Bool
unfolding ident_is punct_is
is_and t = ident_is t (codes "and") || punct_is t (codes "&&")

unfoldable pub is_not : Token → Bool
unfolding ident_is punct_is
is_not t = ident_is t (codes "not") || punct_is t (codes "!")

unfoldable pub is_open : Token → Bool
unfolding punct_is
is_open t = punct_is t (codes "(")

unfoldable pub is_close : Token → Bool
unfolding punct_is
is_close t = punct_is t (codes ")")

-- The first entry of a table whose name is the word, in any case.
abbrev pub look_up : {A : Type 0} → List (List ℕ × A) → List ℕ → Option A
look_up [] word = none
look_up ((name, a) ∷ table) word =
    let rest = look_up table word in if same_word word name then some a else rest

-- The bare keywords and the protocol keywords, in the order in which they are tried.
abbrev pub keywords : List (List ℕ × Node)
keywords =
    (codes "true", always)
    ∷ (codes "false", never)
    ∷ (codes "outbound", outbound)
    ∷ (codes "inbound", inbound)
    ∷ (codes "loopback", loopback)
    ∷ (codes "ip", ipv4)
    ∷ (codes "ipv6", ipv6)
    ∷ (codes "tcp", compare_field ip_proto op_eq 6)
    ∷ (codes "udp", compare_field ip_proto op_eq 17)
    ∷ (codes "icmp", compare_field ip_proto op_eq 1)
    ∷ (codes "icmpv6", compare_field ip_proto op_eq 58)
    ∷ []

unfoldable pub keyword : List ℕ → Option Node
keyword = look_up keywords

unfoldable pub lookup_field : List ℕ → Option Field
lookup_field = look_up (
    (codes "ip.SrcAddr", ip_src)
    ∷ (codes "ip.DstAddr", ip_dst)
    ∷ (codes "ip.Protocol", ip_proto)
    ∷ (codes "tcp.SrcPort", tcp_src_port)
    ∷ (codes "tcp.DstPort", tcp_dst_port)
    ∷ (codes "udp.SrcPort", udp_src_port)
    ∷ (codes "udp.DstPort", udp_dst_port)
    ∷ [])

unfoldable pub lookup_op : List ℕ → Option Op
lookup_op s =
    if same_codes s (codes "==") || same_codes s (codes "=")
    then some op_eq
    else if same_codes s (codes "!=")
    then some op_ne
    else if same_codes s (codes ">=")
    then some op_ge
    else if same_codes s (codes "<=")
    then some op_le
    else if same_codes s (codes ">")
    then some op_gt
    else if same_codes s (codes "<")
    then some op_lt
    else none

unfoldable pub operator : Token → Option Op
unfolding lookup_op
operator t = if is_punct t.kind then lookup_op t.text else none

abbrev pub wants_address : Field → Bool
wants_address ip_src = true
wants_address ip_dst = true
wants_address _ = false

-- The value of a comparison with a field, or what is wrong with it.
unfoldable pub value_for : List ℕ → Field → Token → Result ℕ
value_for word field t =
    if is_number t.kind
    then (if wants_address field then err (needs_address word) else ok t.num)
    else if is_address t.kind
    then (if wants_address field then ok t.num else err (needs_number word))
    else err (expected_value word)

-- `add`: the node goes to the end, and its index is returned.
abbrev pub add : Node → State → ℕ × State
add n s = (length s.nodes, record s { nodes = s.nodes ++ n ∷ [] })

unfoldable pub no_word : Token → ParseError
no_word t = if is_end t.kind then unexpected_end else expected_keyword t.text

-- `Parser::parse`: nothing may follow the expression.
unfoldable pub finish : ℕ × State → Result (Program × ℕ)
finish (root, s) =
    if is_end s.cursor.cur.kind then ok (s.nodes, root) else err (unexpected s.cursor.cur.text)

-- Fuel for every call: six for each character, and ten.
unfoldable pub fuel_for : List ℕ → ℕ
fuel_for expr = 6 * length expr + 10

module _ (conv : Conversions) where
  abbrev pub advance : State → State
  advance s = record s { cursor = next conv s.cursor.input }

  -- `parsePrimary` from a field name on.
  unfoldable pub parse_comparison : State → Result (ℕ × State)
  parse_comparison s =
      let word = s.cursor.cur.text in
      elim (lookup_field word) [
        | none ↦ err (unknown_term word)
        | some field ↦ elim (operator (advance s).cursor.cur) [
          | none ↦ err (expected_operator word)
          | some op ↦ value_for word field (advance (advance s)).cursor.cur >>= λ v.
              ok (add (compare_field field op v) (advance (advance (advance s))))
        ]
      ]

  unfoldable pub parse_word : State → Result (ℕ × State)
  unfolding parse_comparison
  parse_word s = elim (keyword s.cursor.cur.text) [
    | some n ↦ ok (add n (advance s))
    | none ↦ parse_comparison s
  ]

  unfoldable pub close : ℕ × State → Result (ℕ × State)
  close (n, s) = if is_close s.cursor.cur then ok (n, advance s) else err expected_close

  unfoldable mutual
    pub parse_or : ℕ → State → Result (ℕ × State)
    parse_or zero s = out_of_fuel
    parse_or (suc f) s = parse_and f s >>= λ (left, s'). or_loop f left s'

    pub or_loop : ℕ → ℕ → State → Result (ℕ × State)
    or_loop zero left s = out_of_fuel
    or_loop (suc f) left s = elim (is_or s.cursor.cur) [
      | true ↦ parse_and f (advance s) >>= λ (right, s').
          or_loop f (length s'.nodes) (record s' { nodes = s'.nodes ++ either left right ∷ [] })
      | false ↦ ok (left, s)
    ]

    pub parse_and : ℕ → State → Result (ℕ × State)
    parse_and zero s = out_of_fuel
    parse_and (suc f) s = parse_not f s >>= λ (left, s'). and_loop f left s'

    pub and_loop : ℕ → ℕ → State → Result (ℕ × State)
    and_loop zero left s = out_of_fuel
    and_loop (suc f) left s = elim (is_and s.cursor.cur) [
      | true ↦ parse_not f (advance s) >>= λ (right, s').
          and_loop f (length s'.nodes) (record s' { nodes = s'.nodes ++ both left right ∷ [] })
      | false ↦ ok (left, s)
    ]

    pub parse_not : ℕ → State → Result (ℕ × State)
    parse_not zero s = out_of_fuel
    parse_not (suc f) s = elim (is_not s.cursor.cur) [
      | true ↦ parse_not f (advance s) >>= λ (operand, s'). ok (add (negate operand) s')
      | false ↦ parse_primary f s
    ]

    pub parse_primary : ℕ → State → Result (ℕ × State)
    parse_primary zero s = out_of_fuel
    parse_primary (suc f) s = elim (is_open s.cursor.cur) [
      | true ↦ parse_or f (advance s) >>= close
      | false ↦ if is_ident s.cursor.cur.kind then parse_word s else err (no_word s.cursor.cur)
    ]

  abbrev pub start : List ℕ → State
  start expr = record { cursor = next conv expr; nodes = [] }

  -- The program and its root.
  unfoldable pub filter_compile : List ℕ → Result (Program × ℕ)
  unfolding finish
  filter_compile expr =
      let parsed = parse_or (fuel_for expr) (start expr) >>= finish in
      if is_blank expr then ok (always ∷ [], 0) else parsed
