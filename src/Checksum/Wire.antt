-- ===== src/Checksum/Wire.antt =====
-- The places in a packet as the standards give them (RFC 791, 8200, 9293, 768), read off its bytes, and what
-- `parse` of packetutil_linux.cpp makes of them.
use clumsy.Prelude.{
  ℕ, ◌+◌, ◌-◌, ◌*◌, ◌/◌, ◌%◌, ◌≤◌, ◌≡◌, ◌⊎◌, refl, sym, subst, Bool, true, false, ◌&&◌, ◌||◌, not,
  List, arith, ltb, leb, ◌==◌, if◌then◌else◌, min, either_way, ==_iff, ◌<◌,
}
use clumsy.Filter.{byte_at, read16be}
use clumsy.Checksum.{
  Layout, no_layout, with_transport, parse_v4, parse_v6, parse, total_v4, transport_total,
}

-- The length of the IP header, the protocol, the length of the packet, and that of the transport header.
abbrev pub ip_header : Bool → List ℕ → ℕ
ip_header v6 p = if v6 then 40 else 4 * (byte_at p 0 % 16)

abbrev pub protocol : Bool → List ℕ → ℕ
protocol v6 p = byte_at p (if v6 then 6 else 9)

abbrev pub ip_length : Bool → List ℕ → ℕ
ip_length v6 p =
    if v6 then 40 + (byte_at p 4 * 256 + byte_at p 5) else byte_at p 2 * 256 + byte_at p 3

abbrev pub transport_header : Bool → List ℕ → ℕ
transport_header v6 p = if protocol v6 p == 6 then 4 * (byte_at p (ip_header v6 p + 12) / 16) else 8

-- Whether the packet is long enough for the TCP or UDP header that an IPv4 header announces.
abbrev pub is_readable : List ℕ → ℕ → Bool
is_readable p len =
    if not (byte_at p 6 % 32 * 256 + byte_at p 7 == 0)
    then true
    else if protocol false p == 6
    then leb (ip_header false p + 20) len
      && leb 20 (transport_header false p)
      && leb (ip_header false p + transport_header false p) len
    else if protocol false p == 17
    then leb (ip_header false p + 8) len
    else true

-- An IPv4 header with its options, and what follows it.
pub record Ipv4 (p : List ℕ) (len : ℕ) : Type 0 where
  pub version : byte_at p 0 / 16 ≡ 4
  pub least : 20 ≤ ip_header false p
  pub fits : ip_header false p ≤ len
  pub readable : is_readable p len ≡ true

-- A whole TCP or UDP packet over IPv4 or IPv6: no fragment, no extension header, and its lengths fit.
pub record Whole (v6 : Bool) (p : List ℕ) (len : ℕ) : Type 0 where
  pub version : byte_at p 0 / 16 ≡ (if v6 then 6 else 4)
  pub least : 20 ≤ ip_header v6 p
  pub unfragmented : (v6 ≡ true) ⊎ ((byte_at p 6 % 64 ≡ 0) × (byte_at p 7 ≡ 0))
  pub carried : (protocol v6 p ≡ 6) ⊎ (protocol v6 p ≡ 17)
  pub header : (if protocol v6 p == 6 then 20 else 8) ≤ transport_header v6 p
  pub inside : ip_header v6 p + transport_header v6 p ≤ ip_length v6 p
  pub whole : ip_length v6 p ≤ len

abbrev started_v4 : List ℕ → Layout
started_v4 p = record no_layout {
  is_v4 = true;
  ip_hdr_len = byte_at p 0 % 16 * 4;
  proto = byte_at p 9;
  transport_offset = byte_at p 0 % 16 * 4;
  fragment = not (read16be p 6 % 8192 == 0);
}

abbrev started_v6 : List ℕ → Layout
started_v6 p = record no_layout { ip_hdr_len = 40; proto = byte_at p 6; transport_offset = 40 }

parse-started_v4 :
    (p : List ℕ) (len : ℕ)
    → byte_at p 0 / 16 ≡ 4
    → 20 ≤ ip_header false p
    → ip_header false p ≤ len
    → parse p len ≡ with_transport p len (total_v4 p len) (started_v4 p)
unfolding parse parse_v4
parse-started_v4 p len version least fits =
    let long : ltb len 20 ≡ false = ground (arith, least, fits) in
    let four : (byte_at p 0 / 16 == 4) ≡ true = ground (arith, version) in
    let good : (ltb (byte_at p 0 % 16 * 4) 20 || ltb len (byte_at p 0 % 16 * 4)) ≡ false =
      ground (arith, least, fits) in
    rw (long, four, good) refl

parse-started_v6 :
    (p : List ℕ) (len : ℕ)
    → byte_at p 0 / 16 ≡ 6
    → 40 ≤ len
    → parse p len ≡ with_transport p len (min (40 + read16be p 4) len) (started_v6 p)
unfolding parse parse_v6
parse-started_v6 p len version fits =
    let long : ltb len 20 ≡ false = ground (arith, fits) in
    let four : (byte_at p 0 / 16 == 4) ≡ false = ground (arith, version) in
    let six : (byte_at p 0 / 16 == 6) ≡ true = ground (arith, version) in
    let good : ltb len 40 ≡ false = ground (arith, fits) in rw (long, four, six, good) refl

-- What the layout of a whole packet says of its places.
pub record Placed (v6 : Bool) (p : List ℕ) (l : Layout) : Type 0 where
  pub valid : l.valid ≡ true
  pub is_v4 : l.is_v4 ≡ not v6
  pub offset : l.transport_offset ≡ ip_header v6 p
  pub proto : l.proto ≡ protocol v6 p
  pub fragment : l.fragment ≡ false
  pub total : transport_total l ≡ ip_length v6 p - ip_header v6 p

with_transport-Placed_v4 :
    (p : List ℕ) (len : ℕ)
    → Whole false p len
    → Placed false p (with_transport p len (total_v4 p len) (started_v4 p))
unfolding with_transport read16be
with_transport-Placed_v4 p len w = record {
  valid = ground (arith, w.unfragmented, w.carried, w.header, w.inside, w.whole);
  is_v4 = ground arith;
  offset = ground arith;
  proto = ground arith;
  fragment = ground (arith, w.unfragmented);
  total = ground (arith, w.unfragmented, w.carried, w.header, w.inside, w.whole, w.least);
}

with_transport-Placed_v6 :
    (p : List ℕ) (len : ℕ)
    → Whole true p len
    → Placed true p (with_transport p len (min (40 + read16be p 4) len) (started_v6 p))
unfolding with_transport read16be
with_transport-Placed_v6 p len w = record {
  valid = ground (arith, w.carried, w.header, w.inside, w.whole);
  is_v4 = ground arith;
  offset = ground arith;
  proto = ground arith;
  fragment = ground arith;
  total = ground (arith, w.carried, w.header, w.inside, w.whole);
}

pub parse-Placed : (v6 : Bool) (p : List ℕ) (len : ℕ) → Whole v6 p len → Placed v6 p (parse p len)
parse-Placed true p len w =
    subst (Placed true p)
      (sym (parse-started_v6 p len w.version (omega (arith, w.inside, w.whole))))
      (with_transport-Placed_v6 p len w)
parse-Placed false p len w =
    subst (Placed false p)
      (sym (parse-started_v4 p len w.version w.least (omega (arith, w.inside, w.whole))))
      (with_transport-Placed_v4 p len w)

abbrev pub ReadV4 : List ℕ → Layout → Type 0
ReadV4 p l = (l.valid ≡ true) × (l.is_v4 ≡ true) × (l.ip_hdr_len ≡ ip_header false p)

with_transport-ReadV4 :
    (p : List ℕ) (len : ℕ)
    → Ipv4 p len
    → byte_at p 7 < 256
    → ReadV4 p (with_transport p len (total_v4 p len) (started_v4 p))
unfolding with_transport read16be
with_transport-ReadV4 p len i small = (ground (arith, i.readable), ground arith, ground arith)

pub parse-ReadV4 : (p : List ℕ) (len : ℕ) → Ipv4 p len → byte_at p 7 < 256 → ReadV4 p (parse p len)
parse-ReadV4 p len i small =
    subst (ReadV4 p) (sym (parse-started_v4 p len i.version i.least i.fits))
      (with_transport-ReadV4 p len i small)

-- What a layout says of any packet that it calls valid.
pub record Read (v6 : Bool) (p : List ℕ) (l : Layout) : Type 0 where
  pub version : byte_at p 0 / 16 ≡ (if v6 then 6 else 4)
  pub is_v4 : l.is_v4 ≡ not v6
  pub offset : l.transport_offset ≡ ip_header v6 p
  pub proto : l.proto ≡ protocol v6 p

with_transport-Read_v4 :
    (p : List ℕ) (len : ℕ)
    → byte_at p 0 / 16 ≡ 4
    → Read false p (with_transport p len (total_v4 p len) (started_v4 p))
unfolding with_transport
with_transport-Read_v4 p len e = record {
  version = e;
  is_v4 = ground arith;
  offset = ground arith;
  proto = ground arith;
}

with_transport-Read_v6 :
    (p : List ℕ) (len : ℕ)
    → byte_at p 0 / 16 ≡ 6
    → Read true p (with_transport p len (min (40 + read16be p 4) len) (started_v6 p))
unfolding with_transport
with_transport-Read_v6 p len e = record {
  version = e;
  is_v4 = ground arith;
  offset = ground arith;
  proto = ground arith;
}

abbrev IfRead : List ℕ → Layout → Type 0
IfRead p l = l.valid ≡ true → (v6 : Bool) × Read v6 p l

parse_v4-Read : (p : List ℕ) (len : ℕ) → byte_at p 0 / 16 ≡ 4 → IfRead p (parse_v4 p len)
unfolding parse_v4
parse_v4-Read p len e =
    either_way (IfRead p) (ltb (byte_at p 0 % 16 * 4) 20 || ltb len (byte_at p 0 % 16 * 4))
      (record no_layout { is_v4 = true; ip_hdr_len = byte_at p 0 % 16 * 4 })
      (with_transport p len (total_v4 p len) (started_v4 p)) (λ _ v. cc v)
      (λ _ _. (false, with_transport-Read_v4 p len e))

parse_v6-Read : (p : List ℕ) (len : ℕ) → byte_at p 0 / 16 ≡ 6 → IfRead p (parse_v6 p len)
unfolding parse_v6
parse_v6-Read p len e =
    either_way (IfRead p) (ltb len 40) no_layout
      (with_transport p len (min (40 + read16be p 4) len) (started_v6 p)) (λ _ v. cc v)
      (λ _ _. (true, with_transport-Read_v6 p len e))

pub parse-Read : (p : List ℕ) (len : ℕ) → IfRead p (parse p len)
unfolding parse
parse-Read p len =
    let six = if byte_at p 0 / 16 == 6 then parse_v6 p len else no_layout in
    let four = if byte_at p 0 / 16 == 4 then parse_v4 p len else six in
    either_way (IfRead p) (ltb len 20) no_layout four (λ _ v. cc v)
      (λ _.
        either_way (IfRead p) (byte_at p 0 / 16 == 4) (parse_v4 p len) six
          (λ e. parse_v4-Read p len ((==_iff (byte_at p 0 / 16) 4).0 e))
          (λ _.
            either_way (IfRead p) (byte_at p 0 / 16 == 6) (parse_v6 p len) no_layout
              (λ e. parse_v6-Read p len ((==_iff (byte_at p 0 / 16) 6).0 e)) (λ _ v. cc v)))
