-- ===== src/Examples/Parsing.antt =====
-- The theorems on compiling a filter, and on filters whose rules go wrong, applied to texts and packets.
use clumsy.Prelude.{ℕ, ◌≡◌, refl, true, false, some, List, [], ◌∷◌, arith}
use clumsy.Utils.{codes}
use clumsy.Examples.{meta_of}
use clumsy.Examples.Filters.{iptables}
use clumsy.Filter.{
  extract_fields, filter_match, compare_field, ip_proto, op_eq, op_ge, udp_dst_port, ip_src, negate,
  either, both,
}
use clumsy.Filter.Lexer.{Conversions, is_blank, next}
use clumsy.Filter.Parser.{
  filter_compile, ok, err, expected_close, parse_or, fuel_for, is_not, is_open, parse_word, keyword,
  is_and, lookup_field, operator, value_for, is_or, close, is_close,
}
use clumsy.Filter.Phrase.{Ensures}
use clumsy.Filter.Compiled.{Compiled, filter_compile-Compiled}
use clumsy.Filter.Covers.{Packet}
use clumsy.Filter.Captures.{Captures}
use clumsy.Filter.Split.{Some}
use clumsy.Filter.Derive.{filter_derive_iptables}
use clumsy.Filter.Gaps.{nested, nested_missed, wildcard, wildcard_inexact}

-- A C library that knows one number and one address.
abbrev conv : Conversions
conv = record { strtoul = λ s. 7777; scan_ipv4 = λ s. some (10, 0, 0, 1) }

abbrev text : List ℕ
text = codes "not TCP && udp.DstPort >= 7777 or (ip.SrcAddr == 10.0.0.1)"

-- `or` is on top, and `not` holds for the first word only.
compiles :
    filter_compile conv text
    ≡ ok (
      compare_field ip_proto op_eq 6
          ∷ negate 0
          ∷ compare_field udp_dst_port op_ge 7777
          ∷ both 1 2
          ∷ compare_field ip_src op_eq 167772161
          ∷ either 3 4
          ∷ [],
      5,
    )
unfolding filter_compile is_blank parse_or fuel_for is_not next is_open parse_word keyword is_and
    lookup_field operator value_for is_or close is_close
compiles = refl

left_open : filter_compile conv (codes "(tcp") ≡ err expected_close
unfolding filter_compile is_blank parse_or fuel_for is_not next is_open parse_word keyword is_and
    is_or close is_close
left_open = refl

filter_compile-Compiled_example : Ensures (Compiled conv text) (filter_compile conv text)
unfolding is_blank
filter_compile-Compiled_example = filter_compile-Compiled conv text refl

-- A TCP segment over IPv4, on its way in.
abbrev segment : List ℕ
segment =
    69 ∷ 0 ∷ 0 ∷ 28 ∷ 0 ∷ 0 ∷ 0 ∷ 0 ∷ 64 ∷ 6 ∷ 0 ∷ 0 ∷ 10 ∷ 0 ∷ 0 ∷ 1 ∷ 10 ∷ 0 ∷ 0 ∷ 2 ∷ 4 ∷ 0 ∷ 30
    ∷ 97 ∷ 0 ∷ 8 ∷ 0 ∷ 0 ∷ []

abbrev arrival : Packet
arrival = record {
  meta = meta_of false;
  fields = record {
    valid = true;
    is_v4 = true;
    src_addr = 167772161;
    dst_addr = 167772162;
    protocol = 6;
    has_ports = true;
    src_port = 1024;
    dst_port = 7777;
  };
  v6 = false;
  version_read = λ v. refl;
}

nested_missed_example :
    (filter_match (nested 17) 4 arrival.meta segment 28 ≡ true)
    × (¬ (Some (Captures iptables arrival) ((filter_derive_iptables (nested 17) 4 8).0)))
unfolding extract_fields
nested_missed_example = nested_missed iptables arrival 17 8 segment 28 refl refl (λ e. ground arith)

wildcard_inexact_example :
    ((filter_derive_iptables wildcard 0 8).1 ≡ true)
    × Some (Captures iptables arrival) ((filter_derive_iptables wildcard 0 8).0)
    × (filter_match wildcard 0 arrival.meta segment 28 ≡ false)
unfolding extract_fields
wildcard_inexact_example = wildcard_inexact iptables arrival segment 28 refl (λ e. ground arith)
