-- ===== src/Examples/Filters.antt =====
-- The theorem on the derived iptables rules, applied to a filter and a packet.
use clumsy.Prelude.{ℕ, refl, Bool, true, false, ◌&&◌, not, List, [], ◌∷◌, arith, ◌==◌}
use clumsy.Examples.{meta_of}
use clumsy.Filter.{
  Program, extract_fields, both, either, negate, outbound, compare_field, op_eq, udp_dst_port,
  udp_src_port, ip_proto, filter_match,
}
use clumsy.Filter.Derive.{
  Arg, proto_tcp, proto_udp, proto_icmp, proto_icmpv6, proto_number, dport, sport, source,
  destination, filter_derive_iptables, split_or,
}
use clumsy.Filter.Covers.{Packet, Plain, FlatNegations, negation_free}
use clumsy.Filter.Captures.{Iptables, Captures}
use clumsy.Filter.Split.{Some}
use clumsy.Filter.Superset.{filter_derive_iptables-Superset}

-- iptables, as it is documented for these matches.
abbrev accepts : Arg → Packet → Bool
accepts proto_tcp p = p.fields.protocol == 6
accepts proto_udp p = p.fields.protocol == 17
accepts proto_icmp p = p.fields.protocol == 1
accepts proto_icmpv6 p = p.fields.protocol == 58
accepts (proto_number n) p = p.fields.protocol == n
accepts (dport n) p = p.fields.has_ports && p.fields.dst_port == n
accepts (sport n) p = p.fields.has_ports && p.fields.src_port == n
accepts (source a) p = not p.v6 && p.fields.src_addr == a
accepts (destination a) p = not p.v6 && p.fields.dst_addr == a

abbrev pub iptables : Iptables
iptables = record {
  accepts = accepts;
  tcp_law = λ p e. ground arith;
  udp_law = λ p e. ground arith;
  icmp_law = λ p e. ground arith;
  icmpv6_law = λ p e. ground arith;
  number_law = λ p n h e. ground arith;
  dport_law = λ p n h e. ground arith;
  sport_law = λ p n h e. ground arith;
  source_law = λ p a v e. ground arith;
  destination_law = λ p a v e. ground arith;
}

-- `outbound and (udp.DstPort == 7777 or udp.SrcPort == 7777) and not icmp`, with the OR on top.
abbrev program : Program
program =
    compare_field udp_dst_port op_eq 7777
    ∷ compare_field udp_src_port op_eq 7777
    ∷ compare_field ip_proto op_eq 1
    ∷ negate 2
    ∷ both 1 3
    ∷ outbound
    ∷ both 5 0
    ∷ either 6 4
    ∷ []

program-FlatNegations : FlatNegations program
unfolding negation_free
program-FlatNegations i l e = (1, ground arith)

-- A UDP datagram over IPv4 to port 7777.
abbrev pub datagram : List ℕ
datagram =
    69 ∷ 0 ∷ 0 ∷ 28 ∷ 0 ∷ 0 ∷ 0 ∷ 0 ∷ 64 ∷ 17 ∷ 0 ∷ 0 ∷ 10 ∷ 0 ∷ 0 ∷ 1 ∷ 10 ∷ 0 ∷ 0 ∷ 2 ∷ 4 ∷ 0 ∷ 30
    ∷ 97 ∷ 0 ∷ 8 ∷ 0 ∷ 0 ∷ []

abbrev packet : Packet
packet = record {
  meta = meta_of true;
  fields = record {
    valid = true;
    is_v4 = true;
    src_addr = 167772161;
    dst_addr = 167772162;
    protocol = 17;
    has_ports = true;
    src_port = 1024;
    dst_port = 7777;
  };
  v6 = false;
  version_read = λ v. refl;
}

packet-Plain : Plain packet
packet-Plain = record {
  icmp_is_v4 = λ e. refl;
  icmpv6_is_v6 = λ e. ground arith;
  no_extension = λ e. ground arith;
}

filter_derive_iptables-Superset_example :
    Some (Captures iptables packet) ((filter_derive_iptables program 7 8).0)
unfolding extract_fields filter_match split_or
filter_derive_iptables-Superset_example =
    filter_derive_iptables-Superset iptables packet packet-Plain program 7 8 datagram 28 refl
      program-FlatNegations (omega arith) (omega arith) refl
