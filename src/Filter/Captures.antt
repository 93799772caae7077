-- ===== src/Filter/Captures.antt =====
-- The rules of one branch capture every packet that its constraints admit.
use clumsy.Prelude.{
  ℕ, ◌≡◌, ◌⊎◌, inl, inr, refl, sym, subst, Bool, true, false, ◌&&◌, ◌||◌, Option, none, some, List,
  [], ◌∷◌, ◌++◌, arith, ◌==◌, if◌then◌else◌, Bool-cases,
}
use clumsy.Filter.Derive.{
  Constraints, unconstrained, IptablesRule, Arg, proto_tcp, proto_udp, proto_icmp, proto_icmpv6,
  proto_number, dport, sport, source, destination, build_match, proto_args, port_args, addr_args,
  rule_for, rules_of,
}
use clumsy.Filter.Covers.{chain_sees, version_fits, PortFits, Packet, Plain, is_extension, Admits}
use clumsy.Filter.Split.{Some}

-- What iptables documents of the matches that the rules use: a packet that has what a match asks
-- for is matched. `-p` with a number matches the protocol of IPv4, and the next header of IPv6 unless that is
-- the number of an extension header.
pub record Iptables : Type 0 where
  pub accepts : Arg → Packet → Bool
  pub tcp_law : (p : Packet) → p.fields.protocol ≡ 6 → accepts proto_tcp p ≡ true
  pub udp_law : (p : Packet) → p.fields.protocol ≡ 17 → accepts proto_udp p ≡ true
  pub icmp_law : (p : Packet) → p.fields.protocol ≡ 1 → accepts proto_icmp p ≡ true
  pub icmpv6_law : (p : Packet) → p.fields.protocol ≡ 58 → accepts proto_icmpv6 p ≡ true
  pub number_law :
      (p : Packet) (n : ℕ)
      → (p.v6 ≡ true → is_extension n ≡ false)
      → p.fields.protocol ≡ n
      → accepts (proto_number n) p ≡ true
  pub dport_law :
      (p : Packet) (n : ℕ)
      → p.fields.has_ports ≡ true
      → p.fields.dst_port ≡ n
      → accepts (dport n) p ≡ true
  pub sport_law :
      (p : Packet) (n : ℕ)
      → p.fields.has_ports ≡ true
      → p.fields.src_port ≡ n
      → accepts (sport n) p ≡ true
  pub source_law :
      (p : Packet) (a : ℕ) → p.v6 ≡ false → p.fields.src_addr ≡ a → accepts (source a) p ≡ true
  pub destination_law :
      (p : Packet) (a : ℕ) → p.v6 ≡ false → p.fields.dst_addr ≡ a → accepts (destination a) p ≡ true

abbrev all_accept : (Arg → Bool) → List Arg → Bool
all_accept accepts [] = true
all_accept accepts (a ∷ rest) = accepts a && all_accept accepts rest

all_accept-append :
    (f : Arg → Bool) (xs ys : List Arg)
    → all_accept f xs ≡ true
    → all_accept f ys ≡ true
    → all_accept f (xs ++ ys) ≡ true
all_accept-append f [] ys e e' = e'
all_accept-append f (a ∷ xs) ys e e' = ground (arith, all_accept-append f xs ys)

module _ (ipt : Iptables) (p : Packet) where
  -- The rule stands in the table and in a chain that the packet passes, and its match takes it.
  abbrev pub Captures : IptablesRule → Type 0
  Captures r =
      (chain_sees r.chains p.meta.outbound ≡ true)
      × (r.ipv6 ≡ p.v6)
      × (all_accept (λ a. ipt.accepts a p) r.match_args ≡ true)

module _ (ipt : Iptables) (p : Packet) (plain : Plain p) where
  proto-accepted :
      (c : Constraints)
      → Admits p c
      → all_accept (λ a. ipt.accepts a p) (proto_args c.proto p.v6) ≡ true
  proto-accepted c a = ground (
    arith,
    a.proto,
    ipt.tcp_law p,
    ipt.udp_law p,
    ipt.icmp_law p,
    ipt.icmpv6_law p,
    ipt.number_law p c.proto,
    plain.no_extension,
  )

  abbrev Accepted : List Arg → Type 0
  Accepted xs = all_accept (λ a. ipt.accepts a p) xs ≡ true

  port-Accepted :
      (piece : ℕ → Arg) (o : Option ℕ) (has : Bool) (port : ℕ)
      → ((n : ℕ) → has ≡ true → port ≡ n → ipt.accepts (piece n) p ≡ true)
      → PortFits o has port
      → Accepted (port_args piece o)
  port-Accepted piece none has port law fits = refl
  port-Accepted piece (some n) has port law fits = ground (arith, law n (fits.0) (fits.1))

  addr-Accepted :
      (piece : ℕ → Arg) (a addr : ℕ)
      → ((n : ℕ) → p.v6 ≡ false → addr ≡ n → ipt.accepts (piece n) p ≡ true)
      → (a ≡ 0) ⊎ ((p.v6 ≡ false) × (addr ≡ a))
      → Accepted (addr_args piece a)
  addr-Accepted piece a addr law (inl z) = ground arith
  addr-Accepted piece a addr law (inr (v, e)) = ground (arith, law a v e)

  guarded-Accepted : (b : Bool) (xs : List Arg) → Accepted xs → Accepted (if b then xs else [])
  guarded-Accepted true xs e = e
  guarded-Accepted false xs e = refl

  build_match-Accepted : (c : Constraints) → Admits p c → Accepted (build_match c p.v6)
  unfolding build_match
  build_match-Accepted c a =
      let ok : Arg → Bool = λ x. ipt.accepts x p in
      let ports : List Arg = port_args dport c.dst_port ++ port_args sport c.src_port in
      let addrs : List Arg = addr_args source c.src_addr ++ addr_args destination c.dst_addr in
      let with_proto : Bool = c.proto == 6 || c.proto == 17 in
      all_accept-append ok (proto_args c.proto p.v6) ((if with_proto then ports else []) ++ addrs)
        (proto-accepted c a)
        (all_accept-append ok (if with_proto then ports else []) addrs
          (guarded-Accepted with_proto ports (
            all_accept-append ok (port_args dport c.dst_port) (port_args sport c.src_port)
              (port-Accepted dport c.dst_port p.fields.has_ports p.fields.dst_port (ipt.dport_law p)
                a.dport_fits)
              (port-Accepted sport c.src_port p.fields.has_ports p.fields.src_port (ipt.sport_law p)
                a.sport_fits)))
          (all_accept-append ok (addr_args source c.src_addr) (addr_args destination c.dst_addr)
            (addr-Accepted source c.src_addr p.fields.src_addr (ipt.source_law p) a.source_fits)
            (addr-Accepted destination c.dst_addr p.fields.dst_addr (ipt.destination_law p)
              a.destination_fits)))

  rule_for-Captures : (c : Constraints) → Admits p c → Captures ipt p (rule_for c p.v6)
  rule_for-Captures c a = (a.chain, refl, build_match-Accepted c a)

  table-Captures :
      (c : Constraints) (v : Bool) → v ≡ p.v6 → Admits p c → Captures ipt p (rule_for c v)
  table-Captures c v e a =
      subst (λ x. Captures ipt p (rule_for c x)) (sym e) (rule_for-Captures c a)

  pub rules_of-Captures :
      (c : Constraints) (o : Option Bool)
      → version_fits o p.v6 ≡ true
      → Admits p c
      → Some (Captures ipt p) (rules_of c o)
  unfolding rules_of
  rules_of-Captures c none fits a = elim (Bool-cases p.v6) [
    | inl six ↦ inr (inl (table-Captures c true (sym six) a))
    | inr four ↦ inl (table-Captures c false (sym four) a)
  ]
  rules_of-Captures c (some true) fits a = inl (table-Captures c true (sym fits) a)
  rules_of-Captures c (some false) fits a = inl (table-Captures c false (ground arith) a)

  pub unconstrained-Admits : Admits p unconstrained
  unconstrained-Admits = ground arith
