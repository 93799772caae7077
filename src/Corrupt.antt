-- ===== src/Corrupt.antt =====
-- corrupt.cpp: single bits of the payload are flipped, as a radio link does.
--
-- `gap ppm r` stands for `log(randUnit()) / logq` where rand() returned r, cut to an integer, and is `none`
-- where that is negative or no number. `rand` is the sequence that rand() returns.
pub mod Flips
pub mod Bits
pub mod Corrupts
use text.Mathlib.Text.{◌==◌ as str_eq}
use Prim.Native.String.{String}
use Prim.Native.Nat.{bit_xor}
use clumsy.Prelude.{
  ℕ, zero, suc, ◌+◌, ◌-◌, ◌*◌, ◌/◌, ◌%◌, ◌^◌, Bool, true, false, ◌||◌, Option, none, some, List,
  set, leb, ◌==◌, if◌then◌else◌, interlocked_increment, add32,
}
use clumsy.Packet.{PacketNode, World, Outcome, check_direction, calc_chance}
use clumsy.Packet.Rewrite.{Touched, visit_all}
use clumsy.Filter.{byte_at}
use clumsy.Checksum.{packet_get_payload, packet_recalc_checksums}
use clumsy.Utils.{Libc, parse_bool_value, short_in, long_in}

pub record Corrupt : Type 0 where
  pub enabled : Bool
  pub inbound : Bool
  pub outbound : Bool
  pub chance : ℕ
  pub do_checksum : Bool
  pub ber : ℕ
  pub bits_flipped : ℕ
  pub affected : ℕ

unfoldable pub matches : Corrupt → PacketNode → Bool
matches c pac = check_direction pac.meta.outbound c.inbound c.outbound

-- The data, how many bits were flipped, and the state of rand().
pub record Flipping : Type 0 where
  pub bytes : List ℕ
  pub count : ℕ
  pub world : World

-- `data[bit >> 3] ^= 1u << (bit & 7u)`, for data that starts at `at`.
unfoldable pub flip_bit : ℕ → List ℕ → ℕ → List ℕ
flip_bit at p bit = set p (at + bit / 8) (bit_xor (byte_at p (at + bit / 8)) (2 ^ (bit % 8)))

-- The loop that inverts `len` bytes.
unfoldable pub invert : ℕ → ℕ → List ℕ → List ℕ
invert zero at p = p
invert (suc len) at p = invert len (at + 1) (set p at (255 - byte_at p at))

abbrev pub untouched : Corrupt → World → PacketNode → Touched Corrupt
untouched c w pac = record { node = pac; hit = false; state = c; world = w }

abbrev pub rewritten : Corrupt → PacketNode → List ℕ → List ℕ
rewritten c pac p = if c.do_checksum then packet_recalc_checksums p pac.packet_len else p

module _ (gap : ℕ → ℕ → Option ℕ) (rand : ℕ → ℕ) where
  -- The `for (;;)`, for data of `total` bits from `at` on; `bit` is where it stands.
  unfoldable pub flip_loop : ℕ → ℕ → ℕ → ℕ → ℕ → Flipping → Flipping
  flip_loop zero ppm at total bit f = f
  flip_loop (suc fuel) ppm at total bit f =
      let drawn = record f { world = record f.world { draws = f.world.draws + 1 } } in
      elim (gap ppm (rand f.world.draws)) [
        | none ↦ drawn
        | some g ↦ elim (leb total g || leb total (bit + g)) [
          | true ↦ drawn
          | false ↦
              flip_loop fuel ppm at total (bit + g + 1)
                (record drawn { bytes = flip_bit at f.bytes (bit + g); count = f.count + 1 })
        ]
      ]

  -- flipBits: one unit of fuel more than there are bits.
  unfoldable pub flip_bits : ℕ → ℕ → ℕ → List ℕ → World → Flipping
  unfolding flip_loop invert
  flip_bits ppm at len p w =
      let none_yet : Flipping = record { bytes = p; count = 0; world = w } in
      if len == 0 || ppm == 0
      then none_yet
      else if leb 1000000 ppm
      then record { bytes = invert len at p; count = len * 8; world = w }
      else flip_loop (len * 8 + 1) ppm at (len * 8) 0 none_yet

  -- What is done to a packet with a payload; `ppm` is the rate at the start of the call.
  unfoldable pub corrupt_packet : ℕ → Corrupt → World → PacketNode → ℕ → ℕ → Touched Corrupt
  corrupt_packet ppm c w pac start data_len =
      let f = flip_bits ppm start data_len pac.packet w in
      if f.count == 0 then untouched c f.world (record pac { packet = f.bytes }) else record {
        node = record pac { packet = rewritten c pac f.bytes };
        hit = true;
        state = record c {
          bits_flipped = add32 c.bits_flipped f.count;
          affected = interlocked_increment c.affected;
        };
        world = f.world;
      }

  unfoldable pub corrupt_chosen : ℕ → Corrupt → World → PacketNode → Touched Corrupt
  corrupt_chosen ppm c w pac = elim (packet_get_payload pac.packet pac.packet_len) [
    | none ↦ untouched c w pac
    | some (start, data_len) ↦
        if data_len == 0 then untouched c w pac else corrupt_packet ppm c w pac start data_len
  ]

  -- The body of the `while` loop.
  unfoldable pub visit : ℕ → Corrupt → World → PacketNode → Touched Corrupt
  visit ppm c w pac =
      if matches c pac
      then (let (hit, w') = calc_chance rand c.chance w in
          if hit then corrupt_chosen ppm c w' pac else untouched c w' pac)
      else untouched c w pac

  unfoldable pub process : Corrupt → List PacketNode → World → Outcome Corrupt
  unfolding visit_all
  process c queue w = visit_all (visit c.ber) c queue w

unfoldable pub set_param : Libc → Corrupt → String → String → Bool × Corrupt
unfolding parse_bool_value short_in long_in
set_param libc c key value =
    if str_eq key "corrupt-chance"
    then (true, record c { chance = short_in 0 10000 (libc.percent value) })
    else if str_eq key "corrupt-ber"
    then (true, record c { ber = long_in 0 1000000 (libc.atol value) })
    else if str_eq key "corrupt-checksum"
    then (true, record c { do_checksum = parse_bool_value value })
    else if str_eq key "corrupt-inbound"
    then (true, record c { inbound = parse_bool_value value })
    else if str_eq key "corrupt-outbound"
    then (true, record c { outbound = parse_bool_value value })
    else (false, c)

-- corruptResetStats.
unfoldable pub reset_stats : Corrupt → Corrupt
reset_stats c = record c { bits_flipped = 0 }
