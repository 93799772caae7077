-- ===== src/Filter/Derive.antt =====
-- filterexpr.cpp: the iptables rules derived from a filter expression.
--
-- The match text of a rule is the list of the pieces that `buildMatch` appends; they fit its buffer
-- of 256 bytes (86 at most), so no piece is cut.
use native.Mathlib.Decide.{ℕ_discrete}
use mathlib.Core.Logic.{ite}
use clumsy.Prelude.{
  ℕ, zero, suc, ◌^◌, Bool, true, false, not, ◌&&◌, ◌||◌, Option, none, some, List, [], ◌∷◌, ◌++◌,
  ltb, leb, ◌==◌, if◌then◌else◌, get_elem?, length, take,
}
use clumsy.Filter.{
  Node, Program, Field, Op, op_eq, ip_src, ip_dst, ip_proto, tcp_src_port, tcp_dst_port,
  udp_src_port, udp_dst_port, always, never, outbound, inbound, loopback, ipv4, ipv6, both, either,
  negate, compare_field,
}

pub data Chains : Type 0 where
  output_only input_only output_and_input : Chains

-- `ipv6` and the ports are -1 in the source where `none` stands here; a protocol or an address of 0
-- means "any" there too.
pub record Constraints : Type 0 where
  pub chains : Chains
  pub proto : ℕ
  pub version6 : Option Bool
  pub dst_port : Option ℕ
  pub src_port : Option ℕ
  pub dst_addr : ℕ
  pub src_addr : ℕ
  pub widened : Bool

abbrev pub unconstrained : Constraints
unconstrained = record {
  chains = output_and_input;
  proto = 0;
  version6 = none;
  dst_port = none;
  src_port = none;
  dst_addr = 0;
  src_addr = 0;
  widened = false;
}

abbrev pub widen : Constraints → Constraints
widen c = record c { widened = true }

-- The protocol numbers that pin the version.
unfoldable pub pin_version : ℕ → Constraints → Constraints
pin_version v c =
    if v == 1
    then record c { version6 = some false }
    else if v == 58
    then record c { version6 = some true }
    else c

unfoldable pub collect_equal : Field → ℕ → Constraints → Constraints
unfolding pin_version
collect_equal ip_proto v c = pin_version v (record c { proto = v })
collect_equal tcp_src_port v c = record c { proto = 6; src_port = some v }
collect_equal tcp_dst_port v c = record c { proto = 6; dst_port = some v }
collect_equal udp_src_port v c = record c { proto = 17; src_port = some v }
collect_equal udp_dst_port v c = record c { proto = 17; dst_port = some v }
collect_equal ip_src v c = record c { src_addr = v; version6 = some false }
collect_equal ip_dst v c = record c { dst_addr = v; version6 = some false }

abbrev pub collect_compare : Field → Op → ℕ → Constraints → Bool → Constraints
collect_compare field op_eq v c false = collect_equal field v c
collect_compare field op v c negated = widen c

-- One node, given how its operands are collected.
unfoldable pub collect_kind :
    (ℕ → Constraints → Bool → Constraints) → Node → Constraints → Bool → Constraints
unfolding collect_equal
collect_kind go (both l r) c negated = go r (go l c negated) negated
collect_kind go (negate l) c negated = go l (widen c) (not negated)
collect_kind go (either l r) c negated = widen c
collect_kind go always c negated = c
collect_kind go never c negated = widen c
collect_kind go outbound c negated = if negated then c else record c { chains = output_only }
collect_kind go inbound c negated = if negated then c else record c { chains = input_only }
collect_kind go loopback c negated = widen c
collect_kind go ipv4 c negated = if negated then c else record c { version6 = some false }
collect_kind go ipv6 c negated = if negated then c else record c { version6 = some true }
collect_kind go (compare_field field op v) c negated = collect_compare field op v c negated

abbrev pub collect_entry :
    (ℕ → Constraints → Bool → Constraints) → Option Node → Constraints → Bool → Constraints
collect_entry go none c negated = c
collect_entry go (some n) c negated = collect_kind go n c negated

unfoldable pub collect : ℕ → Program → ℕ → Constraints → Bool → Constraints
collect zero prog idx c negated = c
collect (suc n) prog idx c negated = collect_entry (collect n prog) (get_elem? prog idx) c negated

abbrev pub split_branch_limit : ℕ
split_branch_limit = 64

abbrev pub split_depth : ℕ
split_depth = 16

-- `splitOr` with `d` = 16 - depth levels left; it recurs on an OR only while some are.
abbrev pub split_entry : (ℕ → List ℕ → List ℕ) → ℕ → Option Node → List ℕ → List ℕ
split_entry go idx none out = out
split_entry go idx (some (either l r)) out = go r (go l out)
split_entry go idx (some n) out = out ++ idx ∷ []

abbrev pub split_leaf : Program → ℕ → List ℕ → List ℕ
split_leaf prog idx out = elim (get_elem? prog idx) [ none ↦ out | some n ↦ out ++ idx ∷ [] ]

unfoldable pub split_or : ℕ → Program → ℕ → List ℕ → List ℕ
split_or zero prog idx out =
    if leb split_branch_limit (length out) then out else split_leaf prog idx out
split_or (suc d) prog idx out =
    if leb split_branch_limit (length out)
    then out
    else split_entry (split_or d prog) idx (get_elem? prog idx) out

-- The pieces of a match text.
pub data Arg : Type 0 where
  proto_tcp proto_udp proto_icmp proto_icmpv6 : Arg
  proto_number dport sport source destination : ℕ → Arg

abbrev pub proto_args : ℕ → Bool → List Arg
proto_args p v6 =
    if p == 6
    then proto_tcp ∷ []
    else if p == 17
    then proto_udp ∷ []
    else if p == 1 && not v6
    then proto_icmp ∷ []
    else if p == 58 && v6
    then proto_icmpv6 ∷ []
    else if ltb 0 p && ltb p (2 ^ 31)
    then proto_number p ∷ []
    else []

abbrev pub port_args : (ℕ → Arg) → Option ℕ → List Arg
port_args piece none = []
port_args piece (some n) = piece n ∷ []

abbrev pub addr_args : (ℕ → Arg) → ℕ → List Arg
addr_args piece a = if a == 0 then [] else piece a ∷ []

unfoldable pub build_match : Constraints → Bool → List Arg
build_match c v6 =
    proto_args c.proto v6
    ++ ((if c.proto == 6 || c.proto == 17
          then port_args dport c.dst_port ++ port_args sport c.src_port
          else [])
        ++ (addr_args source c.src_addr ++ addr_args destination c.dst_addr))

pub record IptablesRule : Type 0 where
  pub chains : Chains
  pub match_args : List Arg
  pub ipv6 : Bool

abbrev pub rule_for : Constraints → Bool → IptablesRule
rule_for c v6 = record { chains = c.chains; match_args = build_match c v6; ipv6 = v6 }

unfoldable pub rules_of : Constraints → Option Bool → List IptablesRule
rules_of c none = rule_for c false ∷ rule_for c true ∷ []
rules_of c (some false) = rule_for c false ∷ []
rules_of c (some true) = rule_for c true ∷ []

-- `emitRules` appends; the second part is whether `*exact` is cleared.
unfoldable pub emit_rules : Program → ℕ → List IptablesRule × Bool
unfolding rules_of
emit_rules prog branch =
    let c = collect (suc branch) prog branch unconstrained false in
    (rules_of c c.version6, c.widened)

unfoldable pub emit_all : Program → List ℕ → List IptablesRule × Bool
unfolding emit_rules
emit_all prog [] = ([], false)
emit_all prog (branch ∷ branches) =
    let (rules, wide) = emit_rules prog branch in
    let (more, wider) = emit_all prog branches in (rules ++ more, wide || wider)

pub Rule-discrete : Discrete IptablesRule
Rule-discrete = hlevel ℕ_discrete

-- The search for a rule with equal chains, version and match text.
unfoldable pub is_dup : IptablesRule → List IptablesRule → Bool
is_dup r [] = false
is_dup r (u ∷ uniq) = ite (Rule-discrete u r) true (is_dup r uniq)

unfoldable pub dedupe_rules : List IptablesRule → List IptablesRule → List IptablesRule
dedupe_rules uniq [] = uniq
dedupe_rules uniq (r ∷ rules) = dedupe_rules (if is_dup r uniq then uniq else uniq ++ r ∷ []) rules

abbrev pub or_root : ℕ → List ℕ → List ℕ
or_root root [] = root ∷ []
or_root root (b ∷ bs) = b ∷ bs

unfoldable pub branches_of : Program → ℕ → List ℕ
branches_of prog root = or_root root (split_or split_depth prog root [])

-- The rules, at most `max_rules` of them, and whether they are exact.
unfoldable pub filter_derive_iptables : Program → ℕ → ℕ → List IptablesRule × Bool
filter_derive_iptables prog root max_rules =
    let (all_rules, wide) = emit_all prog (branches_of prog root) in
    let derived = dedupe_rules [] all_rules in
    if max_rules == 0
    then ([], true)
    else if ltb max_rules (length derived)
    then (take max_rules (dedupe_rules [] (emit_rules prog root).0), false)
    else (take max_rules derived, not wide)
