-- ===== src/Lag.antt =====
-- lag.cpp: every packet of the handled directions waits in a buffer for a set time.
--
-- A buffer is the list of its nodes from `bufTail->prev` to `bufHead->next`, oldest first.
pub mod Released
pub mod Delay
use text.Mathlib.Text.{◌==◌ as str_eq}
use Prim.Native.String.{String}
use clumsy.Prelude.{
  ℕ, zero, suc, ◌+◌, ◌-◌, ◌*◌, Bool, true, false, List, [], ◌∷◌, ◌++◌, reverse, add32, sub32, ltb,
  if◌then◌else◌, length,
}
use clumsy.Latency.{latency_record}
use clumsy.Packet.{PacketNode, World, Outcome, check_direction, start_time_period, end_time_period}
use clumsy.Packet.Collect.{Buffer, collect, fuel_for, flush_all}
use clumsy.Utils.{Libc, parse_bool_value, short_in}

abbrev pub keep_at_most : ℕ
keep_at_most = 2000

abbrev pub flush_when_full : ℕ
flush_when_full = 800

pub record Lag : Type 0 where
  pub enabled : Bool
  pub inbound : Bool
  pub outbound : Bool
  pub lag_time : ℕ
  pub buf : List PacketNode
  pub buf_size : ℕ
  pub affected : ℕ

unfoldable pub matches : Lag → PacketNode → Bool
matches l pac = check_direction pac.meta.outbound l.inbound l.outbound

-- What the loop writes into a node that it queues.
unfoldable pub stamp : ℕ → World → PacketNode → PacketNode × World
stamp now w pac = (record pac { timestamp = now; enqueue_time = now }, w)

-- The state that the later loops of one call work on.
pub record Release : Type 0 where
  pub queue : List PacketNode
  pub buf : List PacketNode
  pub buf_size : ℕ
  pub world : World

-- `latencyRecord`, `insertAfter(popNode(...), head)` and `--bufSize`, for the oldest node.
unfoldable pub release_one : ℕ → PacketNode → List PacketNode → Release → Release
release_one now pac rest r = record {
  queue = pac ∷ r.queue;
  buf = rest;
  buf_size = r.buf_size - 1;
  world = record r.world { hist = latency_record r.world.hist (sub32 now pac.enqueue_time) };
}

-- The overdue packets, from the buffer's tail, up to the first that is not due.
unfoldable pub send_overdue : ℕ → ℕ → List PacketNode → Release → Release
send_overdue now lag_time [] r = r
send_overdue now lag_time (pac ∷ rest) r =
    let next = send_overdue now lag_time rest (release_one now pac rest r) in
    if ltb (add32 pac.timestamp lag_time) now then next else r

-- The flush of a full buffer. An empty buffer is not met: it holds more than the flush takes.
unfoldable pub flush : ℕ → ℕ → List PacketNode → Release → Release
flush zero now buf r = r
flush (suc n) now [] r = r
flush (suc n) now (pac ∷ rest) r = flush n now rest (release_one now pac rest r)

unfoldable pub take_up : Lag → ℕ → List PacketNode → World → List PacketNode × Buffer
take_up l now queue w =
    collect (matches l) (stamp now) keep_at_most (fuel_for queue) (reverse queue) []
      (record { nodes = l.buf; size = l.buf_size; affected = l.affected; world = w })

unfoldable pub flush_if_full : ℕ → Release → Release
flush_if_full now r =
    let flushed = flush flush_when_full now r.buf r in
    if ltb r.buf_size keep_at_most then r else flushed

unfoldable pub let_out : Lag → ℕ → List PacketNode × Buffer → Release
let_out l now (queue, b) = flush_if_full now (
    send_overdue now l.lag_time b.nodes
      (record { queue = queue; buf = b.nodes; buf_size = b.size; world = b.world }))

unfoldable pub process : Lag → ℕ → List PacketNode → World → Outcome Lag
process l now queue w =
    let taken = take_up l now queue w in
    let r = let_out l now taken in
    record {
      queue = r.queue;
      triggered = ltb 0 r.buf_size;
      state = record l { buf = r.buf; buf_size = r.buf_size; affected = taken.1.affected };
      world = r.world;
    }

-- `startUp` links the buffer when it was never used; later it only checks that it is empty.
unfoldable pub start_up : Lag → World → Lag × World
start_up l w = (l, start_time_period w)

unfoldable pub close_down : Lag → List PacketNode → World → Outcome Lag
close_down l queue w = record {
  queue = queue ++ flush_all l.buf [];
  triggered = false;
  state = record l { buf = []; buf_size = l.buf_size - length l.buf };
  world = end_time_period w;
}

unfoldable pub set_param : Libc → Lag → String → String → Bool × Lag
set_param c l key value =
    if str_eq key "lag-time"
    then (true, record l { lag_time = short_in 0 15000 (c.atoi value) })
    else if str_eq key "lag-inbound"
    then (true, record l { inbound = parse_bool_value value })
    else if str_eq key "lag-outbound"
    then (true, record l { outbound = parse_bool_value value })
    else (false, l)
