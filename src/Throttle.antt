-- ===== src/Throttle.antt =====
-- throttle.cpp: from time to time all packets of the handled directions are held back for a time
-- frame, and then sent together or dropped together.
pub mod Window
use text.Mathlib.Text.{◌==◌ as str_eq}
use Prim.Native.String.{String}
use clumsy.Prelude.{
  ℕ, ◌-◌, ◌==◌, ◌||◌, Bool, true, false, List, [], ◌∷◌, ◌++◌, reverse, sub32, ltb, leb,
  if◌then◌else◌, length,
}
use clumsy.Packet.{
  PacketNode, World, Outcome, check_direction, calc_chance, free_node, start_time_period,
  end_time_period,
}
use clumsy.Packet.Collect.{Buffer, collect, fuel_for, flush_all}
use clumsy.Utils.{Libc, parse_bool_value, short_in}

abbrev pub keep_at_most : ℕ
keep_at_most = 1000

-- `start_tick` 0 is the source's mark for "not throttling".
pub record Throttle : Type 0 where
  pub enabled : Bool
  pub inbound : Bool
  pub outbound : Bool
  pub chance : ℕ
  pub frame : ℕ
  pub drop_throttled : Bool
  pub buf : List PacketNode
  pub buf_size : ℕ
  pub start_tick : ℕ
  pub affected : ℕ

unfoldable pub matches : Throttle → PacketNode → Bool
matches t pac = check_direction pac.meta.outbound t.inbound t.outbound

-- A node goes into the buffer as it is.
abbrev pub as_is : World → PacketNode → PacketNode × World
as_is w pac = (pac, w)

unfoldable pub start_up : Throttle → World → Throttle × World
start_up t w = (record t { start_tick = 0 }, start_time_period w)

abbrev cleared : Throttle → Throttle
cleared t = record t { buf = []; buf_size = t.buf_size - length t.buf; start_tick = 0 }

unfoldable pub clear_buf_packets : Throttle → List PacketNode → World → Outcome Throttle
clear_buf_packets t queue w = record {
  queue = queue ++ flush_all t.buf [];
  triggered = false;
  state = cleared t;
  world = w;
}

unfoldable pub free_all : List PacketNode → World → World
free_all [] w = w
free_all (pac ∷ rest) w = free_all rest (free_node w pac)

unfoldable pub drop_buf_packets : Throttle → List PacketNode → World → Outcome Throttle
drop_buf_packets t queue w = record {
  queue = queue;
  triggered = false;
  state = cleared t;
  world = free_all t.buf w;
}

unfoldable pub close_down : Throttle → List PacketNode → World → Outcome Throttle
close_down t queue w =
    let r = clear_buf_packets t queue w in record r { world = end_time_period r.world }

unfoldable pub fill : Throttle → List PacketNode → World → List PacketNode × Buffer
fill t queue w =
    collect (matches t) as_is keep_at_most (fuel_for queue) (reverse queue) []
      (record { nodes = t.buf; size = t.buf_size; affected = t.affected; world = w })

abbrev pub held : Throttle → Buffer → Throttle
held t b = record t { buf = b.nodes; buf_size = b.size; affected = b.affected }

abbrev pub window_over : Throttle → ℕ → Bool
window_over t current_tick =
    leb keep_at_most t.buf_size || ltb t.frame (sub32 current_tick t.start_tick)

-- The end of the window, tested in every call.
unfoldable pub settle : Throttle → ℕ → List PacketNode → World → Outcome Throttle
settle t current_tick queue w =
    if window_over t current_tick
    then (if t.drop_throttled then drop_buf_packets t queue w else clear_buf_packets t queue w)
    else record { queue = queue; triggered = false; state = t; world = w }

-- The block behind THROTTLE_START.
unfoldable pub keep_filling : Throttle → ℕ → List PacketNode → World → Outcome Throttle
keep_filling t current_tick queue w =
    let (left, b) = fill t queue w in settle (held t b) current_tick left b.world

-- `!isListEmpty() && calcChance(chance)`: no draw on an empty list.
unfoldable pub decide : (ℕ → ℕ) → Throttle → List PacketNode → World → Bool × World
decide rand t [] w = (false, w)
decide rand t (pac ∷ rest) w = calc_chance rand t.chance w

-- The clock is read twice, once for a new window and once in the block.
unfoldable pub process : (ℕ → ℕ) → Throttle → ℕ → ℕ → List PacketNode → World → Outcome Throttle
process rand t now current_tick queue w =
    if t.start_tick == 0
    then (let (go, w') = decide rand t queue w in
        let idle : Outcome Throttle = record {
          queue = queue;
          triggered = false;
          state = t;
          world = w';
        } in
        let begun = keep_filling (record t { start_tick = now }) current_tick queue w' in
        if go then record begun { triggered = true } else idle)
    else keep_filling t current_tick queue w

unfoldable pub set_param : Libc → Throttle → String → String → Bool × Throttle
set_param c t key value =
    if str_eq key "throttle-chance"
    then (true, record t { chance = short_in 0 10000 (c.percent value) })
    else if str_eq key "throttle-frame"
    then (true, record t { frame = short_in 0 1000 (c.atoi value) })
    else if str_eq key "throttle-drop"
    then (true, record t { drop_throttled = parse_bool_value value })
    else if str_eq key "throttle-inbound"
    then (true, record t { inbound = parse_bool_value value })
    else if str_eq key "throttle-outbound"
    then (true, record t { outbound = parse_bool_value value })
    else (false, t)
