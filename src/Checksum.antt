-- ===== src/Checksum.antt =====
-- packetutil_linux.cpp: the headers of a packet, and its checksums. `read16be` is that of filterexpr.cpp, whose
-- text is the same. The packet is there (a null pointer is not modelled), and its bytes are the list.
pub mod Sums
pub mod Wire
pub mod Checked
pub mod Verifies
pub mod Frame
pub mod Right
pub mod Rst
use clumsy.Prelude.{
  ℕ, zero, suc, ◌+◌, ◌-◌, ◌*◌, ◌/◌, ◌%◌, Bool, true, false, ◌&&◌, ◌||◌, not, Option, none, some,
  List, [], ◌∷◌, ltb, leb, ◌==◌, if◌then◌else◌, set, get_or, add32, min,
}
use clumsy.Filter.{byte_at, read16be}

unfoldable pub write16be : List ℕ → ℕ → ℕ → List ℕ
write16be p i v = set (set p i (v / 256 % 256)) (i + 1) (v % 256)

-- `sum16(p + off, len, acc)`, with an odd last byte as the high half of a word.
unfoldable pub sum16 : List ℕ → ℕ → ℕ → ℕ → ℕ
sum16 p off zero acc = acc
sum16 p off (suc zero) acc = add32 acc (byte_at p off * 256)
sum16 p off (suc (suc n)) acc = sum16 p (off + 2) n (add32 acc (read16be p off))

-- `while (acc >> 16)`, on fuel.
unfoldable pub fold : ℕ → ℕ → ℕ
fold zero acc = acc
fold (suc f) acc =
    let rest = fold f (acc % 65536 + acc / 65536) in if acc / 65536 == 0 then acc else rest

-- Two turns are enough for 32 bits.
unfoldable pub fold_checksum : ℕ → ℕ
unfolding fold
fold_checksum acc = 65535 - fold 2 acc

pub record Layout : Type 0 where
  pub valid : Bool
  pub is_v4 : Bool
  pub ip_hdr_len : ℕ
  pub proto : ℕ
  pub transport_offset : ℕ
  pub transport_len : ℕ
  pub payload_offset : ℕ
  pub payload_len : ℕ
  pub fragment : Bool

abbrev pub no_layout : Layout
no_layout = record {
  valid = false;
  is_v4 = false;
  ip_hdr_len = 0;
  proto = 0;
  transport_offset = 0;
  transport_len = 0;
  payload_offset = 0;
  payload_len = 0;
  fragment = false;
}

-- The end of `parse`: the payload, up to `ip_total`.
abbrev pub with_payload : ℕ → ℕ → Layout → Layout
with_payload ip_total transport_len l = record l {
  transport_len = transport_len;
  payload_offset = l.transport_offset + transport_len;
  payload_len = ip_total - (l.transport_offset + transport_len);
  valid = true;
}

abbrev pub tcp_len : List ℕ → Layout → ℕ
tcp_len p l = byte_at p (l.transport_offset + 12) / 16 * 4

-- The middle of `parse`: the transport header.
unfoldable pub with_transport : List ℕ → ℕ → ℕ → Layout → Layout
with_transport p len ip_total l =
    if l.fragment
    then record l { valid = true }
    else if l.proto == 6
    then (if ltb len (l.transport_offset + 20)
        then l
        else if ltb (tcp_len p l) 20 || ltb len (l.transport_offset + tcp_len p l)
        then record l { transport_len = tcp_len p l }
        else with_payload ip_total (tcp_len p l) l)
    else if l.proto == 17
    then (if ltb len (l.transport_offset + 8) then l else with_payload ip_total 8 l)
    else record l { valid = true }

abbrev pub header_len : List ℕ → ℕ
header_len p = byte_at p 0 % 16 * 4

abbrev pub total_v4 : List ℕ → ℕ → ℕ
total_v4 p len =
    if ltb len (read16be p 2) || ltb (read16be p 2) (header_len p) then len else read16be p 2

unfoldable pub parse_v4 : List ℕ → ℕ → Layout
unfolding with_transport
parse_v4 p len =
    if ltb (header_len p) 20 || ltb len (header_len p)
    then record no_layout { is_v4 = true; ip_hdr_len = header_len p }
    else with_transport p len (total_v4 p len) (record no_layout {
      is_v4 = true;
      ip_hdr_len = header_len p;
      proto = byte_at p 9;
      transport_offset = header_len p;
      fragment = not (read16be p 6 % 8192 == 0);
    })

unfoldable pub parse_v6 : List ℕ → ℕ → Layout
unfolding with_transport
parse_v6 p len =
    if ltb len 40
    then no_layout
    else with_transport p len (min (40 + read16be p 4) len)
        (record no_layout { ip_hdr_len = 40; proto = byte_at p 6; transport_offset = 40 })

unfoldable pub parse : List ℕ → ℕ → Layout
unfolding parse_v4 parse_v6
parse p len =
    if ltb len 20
    then no_layout
    else if byte_at p 0 / 16 == 4
    then parse_v4 p len
    else if byte_at p 0 / 16 == 6
    then parse_v6 p len
    else no_layout

unfoldable pub pseudo_header_sum : List ℕ → Layout → ℕ → ℕ
unfolding sum16
pseudo_header_sum p l transport_total =
    if l.is_v4
    then add32 (add32 (sum16 p 12 8 0) l.proto) transport_total
    else add32
        (add32 (add32 (sum16 p 8 32 0) (transport_total / 65536 % 65536)) (transport_total % 65536))
        l.proto

-- Where the payload starts, and its length.
unfoldable pub packet_get_payload : List ℕ → ℕ → Option (ℕ × ℕ)
packet_get_payload p len =
    let l = parse p len in
    if len == 0 || not l.valid || l.fragment || l.payload_len == 0
    then none
    else if ltb len (l.payload_offset + l.payload_len)
    then none
    else some (l.payload_offset, l.payload_len)

-- The IPv4 header checksum.
unfoldable pub recalc_header : List ℕ → Layout → List ℕ
unfolding write16be sum16 fold_checksum
recalc_header p l =
    if l.is_v4
    then write16be (write16be p 10 0) 10 (fold_checksum (sum16 (write16be p 10 0) 0 l.ip_hdr_len 0))
    else p

abbrev pub transport_total : Layout → ℕ
transport_total l = l.transport_len + l.payload_len

abbrev pub cksum_offset : Layout → ℕ
cksum_offset l = l.transport_offset + (if l.proto == 6 then 16 else 6)

-- A UDP checksum of 0 means that there is none.
abbrev pub never_zero : Layout → ℕ → ℕ
never_zero l ck = if l.proto == 17 && ck == 0 then 65535 else ck

-- The TCP or UDP checksum.
unfoldable pub recalc_transport : List ℕ → Layout → List ℕ
unfolding write16be sum16 fold_checksum pseudo_header_sum
recalc_transport p l =
    let p0 = write16be p (cksum_offset l) 0 in
    let acc =
      sum16 p0 l.transport_offset (transport_total l)
        (pseudo_header_sum p0 l (transport_total l)) in
    write16be p0 (cksum_offset l) (never_zero l (fold_checksum acc))

unfoldable pub packet_recalc_checksums : List ℕ → ℕ → List ℕ
unfolding parse recalc_header recalc_transport
packet_recalc_checksums p len =
    let l = parse p len in
    let p1 = recalc_header p l in
    if len == 0 || not l.valid
    then p
    else if l.fragment || not (l.proto == 6 || l.proto == 17)
    then p1
    else if ltb len (l.transport_offset + transport_total l)
    then p1
    else if ltb len (cksum_offset l + 2)
    then p1
    else recalc_transport p1 l

-- A byte with the RST flag.
abbrev pub with_rst : ℕ → ℕ
with_rst b = if b / 4 % 2 == 0 then b + 4 else b

unfoldable pub packet_set_tcp_rst : List ℕ → ℕ → Bool × List ℕ
packet_set_tcp_rst p len =
    let l = parse p len in
    let at = l.transport_offset + 13 in
    if len == 0 || not l.valid || l.fragment || not (l.proto == 6)
    then (false, p)
    else if ltb len (l.transport_offset + 20)
    then (false, p)
    else (true, packet_recalc_checksums (set p at (with_rst (byte_at p at))) len)

abbrev pub packet_min_tcp_size : ℕ
packet_min_tcp_size = 40
