-- ===== src/Filter/Covers.antt =====
-- The contract of the derived iptables rules: they capture every packet that the expression matches.
use clumsy.Prelude.{
  ℕ, zero, suc, ◌<◌, ◌≡◌, ◌⊎◌, Bool, true, false, not, ◌&&◌, ◌||◌, ◌==◌, Option, none, some, arith,
  get_elem?,
}
use clumsy.Packet.{PacketMeta}
use clumsy.Filter.{
  Node, Program, PacketFields, Field, op_eq, ip_src, ip_dst, ip_proto, tcp_src_port, tcp_dst_port,
  udp_src_port, udp_dst_port, both, either, negate, eval_field,
}
use clumsy.Filter.Derive.{
  Chains, output_only, input_only, output_and_input, Constraints, collect_equal,
}

-- Operands stand before the node that uses them, as the parser adds them.
abbrev pub Below : ℕ → Node → Type 0
Below i (both l r) = (l < i) × (r < i)
Below i (either l r) = (l < i) × (r < i)
Below i (negate l) = l < i
Below i n = Unit {0}

abbrev pub WellFormed : Program → Type 0
WellFormed prog = (i : ℕ) (n : Node) → get_elem? prog i ≡ some n → Below i n

-- Whether `collect` meets a `not` below an index.
abbrev pub negation_free_kind : (ℕ → Bool) → Option Node → Bool
negation_free_kind go (some (both l r)) = go l && go r
negation_free_kind go (some (negate l)) = false
negation_free_kind go n = true

unfoldable pub negation_free : ℕ → Program → ℕ → Bool
negation_free zero prog idx = false
negation_free (suc n) prog idx = negation_free_kind (negation_free n prog) (get_elem? prog idx)

-- No `not` stands under another.
abbrev pub FlatNegations : Program → Type 0
FlatNegations prog =
    (i l : ℕ) → get_elem? prog i ≡ some (negate l) → (k : ℕ) × (negation_free k prog l ≡ true)

abbrev pub chain_sees : Chains → Bool → Bool
chain_sees output_only out = out
chain_sees input_only out = not out
chain_sees output_and_input out = true

abbrev pub version_fits : Option Bool → Bool → Bool
version_fits none v6 = true
version_fits (some true) v6 = v6
version_fits (some false) v6 = not v6

abbrev pub PortFits : Option ℕ → Bool → ℕ → Type 0
PortFits none has port = Unit {0}
PortFits (some n) has port = (has ≡ true) × (port ≡ n)

-- A packet as both sides see it: `v6` tells by which of the two tables it passes. The version that
-- was read is that of the table.
pub record Packet : Type 0 where
  pub meta : PacketMeta
  pub fields : PacketFields
  pub v6 : Bool
  pub version_read : fields.valid ≡ true → fields.is_v4 ≡ not v6

-- Next-header numbers of IPv6 that announce an extension header, for which ip6tables has no `-p`.
abbrev pub is_extension : ℕ → Bool
is_extension n =
    n == 43
    || n == 44
    || n == 50
    || n == 51
    || n == 59
    || n == 60
    || n == 135
    || n == 139
    || n == 140

-- A packet without extension headers, whose ICMP is that of its own version.
pub record Plain (p : Packet) : Type 0 where
  pub icmp_is_v4 : p.fields.protocol ≡ 1 → p.v6 ≡ false
  pub icmpv6_is_v6 : p.fields.protocol ≡ 58 → p.v6 ≡ true
  pub no_extension : p.v6 ≡ true → is_extension p.fields.protocol ≡ false

-- The packet meets the constraints.
pub record Admits (p : Packet) (c : Constraints) : Type 0 where
  pub chain : chain_sees c.chains p.meta.outbound ≡ true
  pub proto : (c.proto ≡ 0) ⊎ (p.fields.protocol ≡ c.proto)
  pub version : version_fits c.version6 p.v6 ≡ true
  pub dport_fits : PortFits c.dst_port p.fields.has_ports p.fields.dst_port
  pub sport_fits : PortFits c.src_port p.fields.has_ports p.fields.src_port
  pub source_fits : (c.src_addr ≡ 0) ⊎ ((p.v6 ≡ false) × (p.fields.src_addr ≡ c.src_addr))
  pub destination_fits : (c.dst_addr ≡ 0) ⊎ ((p.v6 ≡ false) × (p.fields.dst_addr ≡ c.dst_addr))

module _ (p : Packet) (plain : Plain p) where
  abbrev f : PacketFields
  f = p.fields

  pub collect_equal-Admits :
      (field : Field) (v : ℕ) (c : Constraints)
      → f.valid ≡ true
      → eval_field f field op_eq v ≡ true
      → Admits p c
      → Admits p (collect_equal field v c)
  unfolding eval_field collect_equal
  collect_equal-Admits ip_src v c valid e a = ground (arith, p.version_read valid)
  collect_equal-Admits ip_dst v c valid e a = ground (arith, p.version_read valid)
  collect_equal-Admits ip_proto v c valid e a = ground (arith, plain.icmp_is_v4, plain.icmpv6_is_v6)
  collect_equal-Admits tcp_src_port v c valid e a = ground arith
  collect_equal-Admits tcp_dst_port v c valid e a = ground arith
  collect_equal-Admits udp_src_port v c valid e a = ground arith
  collect_equal-Admits udp_dst_port v c valid e a = ground arith
