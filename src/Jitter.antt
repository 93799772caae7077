-- ===== src/Jitter.antt =====
-- jitter.cpp: every packet of the handled directions waits for a random time.
--
-- The buffer is the list of its nodes from `bufTail->prev` to `bufHead->next`, oldest first. `Sampler` stands
-- for the floating-point arithmetic of `jitterSampleDelay`: for a range and what `rand()` returned,
-- the delay that the distribution gives, rounded to the nearest number but not yet clamped to the range. (As the bounds of the range
-- are whole, to round and then clamp is to clamp and then round.)
pub mod Scheduled
pub mod Delays
pub mod Wrap
use text.Mathlib.Text.{◌==◌ as str_eq}
use Prim.Native.String.{String}
use clumsy.Prelude.{
  ℕ, ◌+◌, ◌-◌, Bool, true, false, List, [], ◌∷◌, ◌++◌, reverse, add32, sub32, ltb, leb, ◌==◌,
  if◌then◌else◌, length,
}
use clumsy.Prelude.Int.{ℤ, pos, negsuc}
use clumsy.Latency.{latency_record}
use clumsy.Packet.{PacketNode, World, Outcome, check_direction, start_time_period, end_time_period}
use clumsy.Packet.Collect.{Buffer, collect, fuel_for, flush_all}
use clumsy.Lag.{Release, flush_if_full, keep_at_most}
use clumsy.Utils.{Libc, parse_bool_value, short_in, long_in, stricmp}

pub data Dist : Type 0 where
  uniform normal pareto : Dist

pub record Sampler : Type 0 where
  pub uniform_at : ℕ → ℕ → ℕ → ℤ
  pub normal_at : ℕ → ℕ → ℕ → ℕ → ℤ
  pub pareto_at : ℕ → ℕ → ℕ → ℤ

pub record Jitter : Type 0 where
  pub enabled : Bool
  pub inbound : Bool
  pub outbound : Bool
  pub min : ℕ
  pub max : ℕ
  pub dist : Dist
  pub buf : List PacketNode
  pub buf_size : ℕ
  pub affected : ℕ

unfoldable pub matches : Jitter → PacketNode → Bool
matches j pac = check_direction pac.meta.outbound j.inbound j.outbound

-- `min > max` is put right at each call.
abbrev pub low : Jitter → ℕ
low j = if ltb j.max j.min then j.max else j.min

abbrev pub high : Jitter → ℕ
high j = if ltb j.max j.min then j.min else j.max

module _ (sampler : Sampler) (rand : ℕ → ℕ) where
  -- `randUnit` calls `rand()` once.
  unfoldable pub draw : Dist → ℕ → ℕ → World → ℤ × World
  draw normal lo hi w = (
    sampler.normal_at lo hi (rand w.draws) (rand (w.draws + 1)),
    record w { draws = w.draws + 2 },
  )
  draw pareto lo hi w = (sampler.pareto_at lo hi (rand w.draws), record w { draws = w.draws + 1 })
  draw uniform lo hi w = (sampler.uniform_at lo hi (rand w.draws), record w { draws = w.draws + 1 })

  unfoldable pub sample_delay : ℕ → ℕ → Dist → World → ℕ × World
  sample_delay lo hi dist w =
      let (v, w') = draw dist lo hi w in if leb hi lo then (lo, w) else (long_in lo hi v, w')

  -- What the loop writes into a node that it queues.
  unfoldable pub stamp : Jitter → ℕ → World → PacketNode → PacketNode × World
  stamp j now w pac =
      let (delay, w') = sample_delay (low j) (high j) j.dist w in
      (record pac { timestamp = add32 now delay; enqueue_time = now }, w')

  unfoldable pub take_up : Jitter → ℕ → List PacketNode → World → List PacketNode × Buffer
  take_up j now queue w =
      collect (matches j) (stamp j now) keep_at_most (fuel_for queue) (reverse queue) []
        (record { nodes = j.buf; size = j.buf_size; affected = j.affected; world = w })

-- `currentTime >= pac->timestamp`.
abbrev pub ready : ℕ → PacketNode → Bool
ready now pac = leb pac.timestamp now

-- One turn of the scan; `buf` holds what the scan has left behind.
unfoldable pub send_one : ℕ → PacketNode → Release → Release
send_one now pac r =
    if ready now pac
    then record {
      queue = pac ∷ r.queue;
      buf = r.buf;
      buf_size = r.buf_size - 1;
      world = record r.world { hist = latency_record r.world.hist (sub32 now pac.enqueue_time) };
    }
    else record r { buf = r.buf ++ pac ∷ [] }

-- The whole buffer, oldest first.
unfoldable pub send_ready : ℕ → List PacketNode → Release → Release
send_ready now [] r = r
send_ready now (pac ∷ newer) r = send_ready now newer (send_one now pac r)

-- The flush of a full buffer is the loop of lag.cpp, with the same limits.
unfoldable pub let_out : ℕ → List PacketNode × Buffer → Release
let_out now (queue, b) = flush_if_full now (
    send_ready now b.nodes (record { queue = queue; buf = []; buf_size = b.size; world = b.world }))

unfoldable pub process : Sampler → (ℕ → ℕ) → Jitter → ℕ → List PacketNode → World → Outcome Jitter
process sampler rand j now queue w =
    let taken = take_up sampler rand j now queue w in
    let r = let_out now taken in
    record {
      queue = r.queue;
      triggered = ltb 0 r.buf_size;
      state = record j { buf = r.buf; buf_size = r.buf_size; affected = taken.1.affected };
      world = r.world;
    }

-- `startUp` links the buffer when it was never used; later it only checks that it is empty.
unfoldable pub start_up : Jitter → World → Jitter × World
start_up j w = (j, start_time_period w)

unfoldable pub close_down : Jitter → List PacketNode → World → Outcome Jitter
close_down j queue w = record {
  queue = queue ++ flush_all j.buf [];
  triggered = false;
  state = record j { buf = []; buf_size = j.buf_size - length j.buf };
  world = end_time_period w;
}

-- The name of a distribution, or its index; anything else is uniform.
abbrev dist_of_index : ℤ → Dist
dist_of_index (pos n) = if n == 1 then normal else if n == 2 then pareto else uniform
dist_of_index (negsuc n) = uniform

unfoldable pub dist_of : Libc → String → Dist
dist_of c value =
    if stricmp value "normal"
    then normal
    else if stricmp value "pareto"
    then pareto
    else if stricmp value "uniform"
    then uniform
    else dist_of_index (c.atoi value)

unfoldable pub set_param : Libc → Jitter → String → String → Bool × Jitter
set_param c j key value =
    if str_eq key "jitter-min"
    then (true, record j { min = short_in 0 5000 (c.atoi value) })
    else if str_eq key "jitter-max"
    then (true, record j { max = short_in 0 5000 (c.atoi value) })
    else if str_eq key "jitter-dist"
    then (true, record j { dist = dist_of c value })
    else if str_eq key "jitter-inbound"
    then (true, record j { inbound = parse_bool_value value })
    else if str_eq key "jitter-outbound"
    then (true, record j { outbound = parse_bool_value value })
    else (false, j)
