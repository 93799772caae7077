-- ===== src/Tamper.antt =====
-- tamper.cpp: a quarter of the payload is overwritten by its XOR with eight patterns.
--
-- `patIx` is kept as a number that grows; only its last three bits are used. `rand` is the sequence that
-- rand() returns.
pub mod Slice
pub mod Tampers
use text.Mathlib.Text.{◌==◌ as str_eq}
use Prim.Native.String.{String}
use Prim.Native.Nat.{bit_xor}
use clumsy.Prelude.{
  ℕ, zero, suc, ◌+◌, ◌-◌, ◌/◌, ◌%◌, Bool, true, false, ◌&&◌, Option, none, some, List, [], ◌∷◌, set,
  leb, ◌==◌, if◌then◌else◌, interlocked_increment, get_or,
}
use clumsy.Packet.{PacketNode, World, Outcome, check_direction, calc_chance}
use clumsy.Packet.Rewrite.{Touched, visit_all}
use clumsy.Filter.{byte_at}
use clumsy.Checksum.{packet_get_payload, packet_recalc_checksums}
use clumsy.Utils.{Libc, parse_bool_value, short_in}

-- `pos` 0 is the front, 2 the back, 3 a random place and anything else the centre.
pub record Tamper : Type 0 where
  pub enabled : Bool
  pub inbound : Bool
  pub outbound : Bool
  pub chance : ℕ
  pub do_checksum : Bool
  pub pos : ℕ
  pub pat_ix : ℕ
  pub affected : ℕ

abbrev pub patterns : List ℕ
patterns = 0x64 ∷ 0x13 ∷ 0x88 ∷ 0x40 ∷ 0x1F ∷ 0xA0 ∷ 0xAA ∷ 0x55 ∷ []

unfoldable pub pattern : ℕ → ℕ
pattern ix = get_or patterns (ix % 8) 0

unfoldable pub matches : Tamper → PacketNode → Bool
matches t pac = check_direction pac.meta.outbound t.inbound t.outbound

unfoldable pub start_up : Tamper → World → Tamper × World
start_up t w = (record t { pat_ix = 0 }, w)

-- tamper_buf on `len` bytes from `at` on.
unfoldable pub tamper_buf : ℕ → ℕ → ℕ → List ℕ → List ℕ × ℕ
unfolding pattern
tamper_buf zero at ix p = (p, ix)
tamper_buf (suc len) at ix p =
    tamper_buf len (at + 1) (ix + 1) (set p at (bit_xor (byte_at p at) (pattern ix)))

-- The tampered part of a payload: its offset in it and its length. Only a random place calls rand().
unfoldable pub region : (ℕ → ℕ) → ℕ → ℕ → World → ℕ × ℕ × World
region rand pos data_len w =
    let quarter = data_len / 4 in
    if leb data_len 4
    then (0, data_len, w)
    else if pos == 0
    then (0, quarter, w)
    else if pos == 2
    then (data_len - quarter, quarter, w)
    else if pos == 3
    then (rand w.draws % (data_len - quarter + 1), quarter, record w { draws = w.draws + 1 })
    else (data_len / 2 - quarter / 2 + 1, quarter, w)

abbrev pub untouched : Tamper → World → PacketNode → Touched Tamper
untouched t w pac = record { node = pac; hit = false; state = t; world = w }

abbrev pub rewritten : Tamper → PacketNode → List ℕ → List ℕ
rewritten t pac p = if t.do_checksum then packet_recalc_checksums p pac.packet_len else p

-- What is done to a packet with a payload.
unfoldable pub tamper_packet : (ℕ → ℕ) → Tamper → World → PacketNode → ℕ → ℕ → Touched Tamper
tamper_packet rand t w pac start data_len =
    let (offset, len, w') = region rand t.pos data_len w in
    let (p, ix) = tamper_buf len (start + offset) t.pat_ix pac.packet in
    record {
      node = record pac { packet = rewritten t pac p };
      hit = true;
      state = record t { pat_ix = ix; affected = interlocked_increment t.affected };
      world = w';
    }

unfoldable pub tamper_chosen : (ℕ → ℕ) → Tamper → World → PacketNode → Touched Tamper
tamper_chosen rand t w pac = elim (packet_get_payload pac.packet pac.packet_len) [
  | none ↦ untouched t w pac
  | some (start, data_len) ↦ tamper_packet rand t w pac start data_len
]

-- The body of the `while` loop.
unfoldable pub visit : (ℕ → ℕ) → Tamper → World → PacketNode → Touched Tamper
visit rand t w pac =
    if matches t pac
    then (let (hit, w') = calc_chance rand t.chance w in
        if hit then tamper_chosen rand t w' pac else untouched t w' pac)
    else untouched t w pac

unfoldable pub process : (ℕ → ℕ) → Tamper → List PacketNode → World → Outcome Tamper
unfolding visit_all
process rand t queue w = visit_all (visit rand) t queue w

unfoldable pub set_param : Libc → Tamper → String → String → Bool × Tamper
unfolding parse_bool_value short_in
set_param c t key value =
    if str_eq key "tamper-chance"
    then (true, record t { chance = short_in 0 10000 (c.percent value) })
    else if str_eq key "tamper-position"
    then (true, record t { pos = short_in 0 3 (c.atoi value) })
    else if str_eq key "tamper-checksum"
    then (true, record t { do_checksum = parse_bool_value value })
    else if str_eq key "tamper-inbound"
    then (true, record t { inbound = parse_bool_value value })
    else if str_eq key "tamper-outbound"
    then (true, record t { outbound = parse_bool_value value })
    else (false, t)
