-- ===== src/Reset.antt =====
-- reset.cpp: TCP packets get their RST flag set, by chance or on demand.
pub mod Resets
use text.Mathlib.Text.{◌==◌ as str_eq}
use Prim.Native.String.{String}
use clumsy.Prelude.{
  ℕ, ◌+◌, ◌-◌, ◌%◌, ◌^◌, Bool, true, false, ◌&&◌, not, Option, none, some, List, [], ◌∷◌, leb, ltb,
  ◌==◌, if◌then◌else◌, interlocked_increment,
}
use clumsy.Packet.{PacketNode, World, Outcome, check_direction, calc_chance}
use clumsy.Packet.Rewrite.{Touched, visit_all}
use clumsy.Checksum.{packet_set_tcp_rst, packet_min_tcp_size}
use clumsy.Utils.{Libc, parse_bool_value, short_in}

-- `set_next` is a short as its 16-bit pattern; it is negative from 2^15 on.
pub record Reset : Type 0 where
  pub enabled : Bool
  pub inbound : Bool
  pub outbound : Bool
  pub chance : ℕ
  pub set_next : ℕ
  pub affected : ℕ

unfoldable pub matches : Reset → PacketNode → Bool
matches r pac =
    check_direction pac.meta.outbound r.inbound r.outbound && leb packet_min_tcp_size pac.packet_len

unfoldable pub start_up : Reset → World → Reset × World
start_up r w = (record r { set_next = 0 }, w)

unfoldable pub close_down : Reset → List PacketNode → World → Outcome Reset
close_down r queue w = record {
  queue = queue;
  triggered = false;
  state = record r { set_next = 0 };
  world = w;
}

abbrev pub untouched : Reset → World → PacketNode → Touched Reset
untouched r w pac = record { node = pac; hit = false; state = r; world = w }

-- `setNextCount > 0` on the short.
abbrev pub above_zero : ℕ → Bool
above_zero n = ltb 0 n && ltb n (2 ^ 15)

abbrev pub one_less : ℕ → ℕ
one_less n = if above_zero n then n - 1 else n

-- What is done to a chosen packet.
unfoldable pub reset_chosen : Reset → World → PacketNode → Touched Reset
reset_chosen r w pac =
    let (done, p) = packet_set_tcp_rst pac.packet pac.packet_len in
    if done
    then record {
      node = record pac { packet = p };
      hit = true;
      state = record r {
        affected = interlocked_increment r.affected;
        set_next = one_less r.set_next;
      };
      world = w;
    }
    else untouched r w pac

-- `setNextCount || calcChance(chance)`
unfoldable pub chosen : (ℕ → ℕ) → Reset → World → Bool × World
chosen rand r w = if not (r.set_next == 0) then (true, w) else calc_chance rand r.chance w

-- The body of the `while` loop.
unfoldable pub visit : (ℕ → ℕ) → Reset → World → PacketNode → Touched Reset
visit rand r w pac =
    if matches r pac
    then (let (hit, w') = chosen rand r w in
        if hit then reset_chosen r w' pac else untouched r w' pac)
    else untouched r w pac

unfoldable pub process : (ℕ → ℕ) → Reset → List PacketNode → World → Outcome Reset
unfolding visit_all
process rand r queue w = visit_all (visit rand) r queue w

unfoldable pub set_param : Libc → Reset → String → String → Bool × Reset
unfolding parse_bool_value short_in
set_param c r key value =
    if str_eq key "reset-chance"
    then (true, record r { chance = short_in 0 10000 (c.percent value) })
    else if str_eq key "reset-inbound"
    then (true, record r { inbound = parse_bool_value value })
    else if str_eq key "reset-outbound"
    then (true, record r { outbound = parse_bool_value value })
    else if str_eq key "reset-next"
    then (
      true,
      (if parse_bool_value value && r.enabled
          then record r { set_next = (r.set_next + 1) % 2 ^ 16 }
          else r),
    )
    else (false, r)
