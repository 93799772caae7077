-- ===== src/Filter.antt =====
-- filterexpr.h and filterexpr.cpp: the compiled filter expression and its evaluation.
--
-- A program is the vector of its nodes; a node names its operands by their index. A node's kind
-- carries the fields that the source's `Node` has for it.
pub mod Derive
pub mod Covers
pub mod Admitted
pub mod Captures
pub mod Split
pub mod Superset
pub mod Gaps
pub mod Lexer
pub mod Parser
pub mod Grammar
pub mod Represented
pub mod Consumes
pub mod Phrase
pub mod Primary
pub mod Enough
pub mod Compiled
use clumsy.Prelude.{
  ℕ, zero, suc, ◌+◌, ◌*◌, ◌/◌, ◌%◌, ◌<◌, ◌≡◌, Bool, true, false, not, ◌&&◌, ◌||◌, Option, none,
  some, List, [], ◌∷◌, ltb, leb, ◌==◌, if◌then◌else◌, get_elem?, get_or, length,
}
use clumsy.Packet.{PacketMeta}

pub data Field : Type 0 where
  ip_src ip_dst ip_proto tcp_src_port tcp_dst_port udp_src_port udp_dst_port : Field

pub data Op : Type 0 where
  op_eq op_ne op_gt op_lt op_ge op_le : Op

pub data Node : Type 0 where
  always never outbound inbound loopback ipv4 ipv6 : Node
  both either : ℕ → ℕ → Node
  negate : ℕ → Node
  compare_field : Field → Op → ℕ → Node

abbrev pub Program : Type 0
Program = List Node

-- What is read out of one packet.
pub record PacketFields : Type 0 where
  pub valid : Bool
  pub is_v4 : Bool
  pub src_addr : ℕ
  pub dst_addr : ℕ
  pub protocol : ℕ
  pub has_ports : Bool
  pub src_port : ℕ
  pub dst_port : ℕ

abbrev pub no_fields : PacketFields
no_fields = record {
  valid = false;
  is_v4 = false;
  src_addr = 0;
  dst_addr = 0;
  protocol = 0;
  has_ports = false;
  src_port = 0;
  dst_port = 0;
}

abbrev pub byte_at : List ℕ → ℕ → ℕ
byte_at p i = get_or p i 0

unfoldable pub read16be : List ℕ → ℕ → ℕ
read16be p i = byte_at p i * 256 + byte_at p (i + 1)

unfoldable pub read32be : List ℕ → ℕ → ℕ
read32be p i =
    byte_at p i * 16777216 + byte_at p (i + 1) * 65536 + byte_at p (i + 2) * 256 + byte_at p (i + 3)

-- The ports, where the packet is long enough to carry them.
unfoldable pub with_ports : List ℕ → ℕ → ℕ → PacketFields → PacketFields
unfolding read16be
with_ports p len offset f =
    if (f.protocol == 6 || f.protocol == 17) && leb (offset + 4) len
    then record f {
      has_ports = true;
      src_port = read16be p offset;
      dst_port = read16be p (offset + 2);
      valid = true;
    }
    else record f { valid = true }

unfoldable pub extract_v4 : List ℕ → ℕ → PacketFields
unfolding read16be read32be with_ports
extract_v4 p len =
    let ihl = byte_at p 0 % 16 * 4 in
    let f = record no_fields {
      is_v4 = true;
      protocol = byte_at p 9;
      src_addr = read32be p 12;
      dst_addr = read32be p 16;
    } in
    if ltb ihl 20 || ltb len ihl
    then no_fields
    else if not (read16be p 6 % 8192 == 0)
    then record f { valid = true }
    else with_ports p len ihl f

unfoldable pub extract_v6 : List ℕ → ℕ → PacketFields
unfolding with_ports
extract_v6 p len =
    if ltb len 40
    then no_fields
    else with_ports p len 40 (record no_fields { protocol = byte_at p 6 })

-- Bytes beyond `len` are never read.
unfoldable pub extract_fields : List ℕ → ℕ → PacketFields
unfolding extract_v4 extract_v6
extract_fields p len =
    if ltb len 20
    then no_fields
    else if byte_at p 0 / 16 == 4
    then extract_v4 p len
    else if byte_at p 0 / 16 == 6
    then extract_v6 p len
    else no_fields

unfoldable pub compare_op : ℕ → Op → ℕ → Bool
compare_op lhs op_eq rhs = lhs == rhs
compare_op lhs op_ne rhs = not (lhs == rhs)
compare_op lhs op_gt rhs = ltb rhs lhs
compare_op lhs op_lt rhs = ltb lhs rhs
compare_op lhs op_ge rhs = leb rhs lhs
compare_op lhs op_le rhs = leb lhs rhs

unfoldable pub eval_field : PacketFields → Field → Op → ℕ → Bool
unfolding compare_op
eval_field f ip_src op v = f.is_v4 && compare_op f.src_addr op v
eval_field f ip_dst op v = f.is_v4 && compare_op f.dst_addr op v
eval_field f ip_proto op v = compare_op f.protocol op v
eval_field f tcp_src_port op v = f.has_ports && f.protocol == 6 && compare_op f.src_port op v
eval_field f tcp_dst_port op v = f.has_ports && f.protocol == 6 && compare_op f.dst_port op v
eval_field f udp_src_port op v = f.has_ports && f.protocol == 17 && compare_op f.src_port op v
eval_field f udp_dst_port op v = f.has_ports && f.protocol == 17 && compare_op f.dst_port op v

-- One node, given how its operands evaluate.
unfoldable pub eval_kind : (ℕ → Bool) → PacketMeta → PacketFields → Node → Bool
unfolding eval_field
eval_kind ev meta f always = true
eval_kind ev meta f never = false
eval_kind ev meta f (both l r) = ev l && ev r
eval_kind ev meta f (either l r) = ev l || ev r
eval_kind ev meta f (negate l) = not (ev l)
eval_kind ev meta f outbound = meta.outbound
eval_kind ev meta f inbound = not meta.outbound
eval_kind ev meta f loopback = meta.loopback
eval_kind ev meta f ipv4 = f.valid && f.is_v4
eval_kind ev meta f ipv6 = f.valid && not f.is_v4
eval_kind ev meta f (compare_field field op v) = f.valid && eval_field f field op v

abbrev pub eval_entry : (ℕ → Bool) → PacketMeta → PacketFields → Option Node → Bool
eval_entry ev meta f none = false
eval_entry ev meta f (some n) = eval_kind ev meta f n

-- `evalNode`, on fuel for the depth of its calls.
unfoldable pub eval_node : ℕ → Program → PacketMeta → PacketFields → ℕ → Bool
eval_node zero prog meta f idx = false
eval_node (suc n) prog meta f idx = eval_entry (eval_node n prog meta f) meta f (get_elem? prog idx)

-- Operands stand before the nodes that use them, so an index bounds the depth below it.
unfoldable pub filter_match : Program → ℕ → PacketMeta → List ℕ → ℕ → Bool
unfolding eval_node eval_kind extract_fields
filter_match prog root meta packet len =
    eval_node (suc root) prog meta (extract_fields packet len) root
