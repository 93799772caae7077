-- ===== src/Bandwidth.antt =====
-- bandwidth.cpp: a token bucket over a first-in first-out queue.
--
-- The source keeps tokens as doubles of a byte. Here a token is a thousandth of a byte, so that
-- `elapsed_ms * limit * 1024 / 1000.0` is a whole number of tokens: the arithmetic is exact, and the
-- rounding of doubles is not modelled. A buffer lists its nodes oldest first.
pub mod Rate
pub mod Fifo
pub mod Loops
use text.Mathlib.Text.{◌==◌ as str_eq}
use Prim.Native.String.{String}
use clumsy.Prelude.{
  ℕ, ◌+◌, ◌-◌, ◌*◌, Bool, true, false, List, [], ◌∷◌, ◌++◌, reverse, sub32, ltb, leb, ◌==◌,
  if◌then◌else◌, length, interlocked_increment,
}
use clumsy.Packet.{
  PacketNode, World, Outcome, check_direction, free_node, start_time_period, end_time_period,
}
use clumsy.Packet.Collect.{flush_all}
use clumsy.Utils.{Libc, parse_bool_value, long_in}

abbrev pub keep_at_most : ℕ
keep_at_most = 2000

abbrev pub bucket_secs : ℕ
bucket_secs = 2

-- Tokens in a byte.
abbrev pub scale : ℕ
scale = 1000

pub record Bandwidth : Type 0 where
  pub enabled : Bool
  pub inbound : Bool
  pub outbound : Bool
  pub limit : ℕ
  pub buf : List PacketNode
  pub buf_size : ℕ
  pub token_bucket : ℕ
  pub max_tokens : ℕ
  pub last_fill_time : ℕ
  pub affected : ℕ

unfoldable pub matches : Bandwidth → PacketNode → Bool
matches b pac = check_direction pac.meta.outbound b.inbound b.outbound

abbrev pub at_least : ℕ → ℕ → ℕ
at_least floor n = if ltb n floor then floor else n

abbrev pub at_most : ℕ → ℕ → ℕ
at_most cap n = if ltb cap n then cap else n

-- `max(65535, limit * 1024 * BUCKET_SECS)` bytes, in tokens.
unfoldable pub capacity : ℕ → ℕ
capacity limit = at_least (65535 * scale) (limit * 1024 * bucket_secs * scale)

unfoldable pub start_up : Bandwidth → ℕ → World → Bandwidth × World
start_up b now w = (
  record b { max_tokens = capacity b.limit; token_bucket = capacity b.limit; last_fill_time = now },
  start_time_period w,
)

unfoldable pub close_down : Bandwidth → List PacketNode → World → Outcome Bandwidth
close_down b queue w = record {
  queue = queue ++ flush_all b.buf [];
  triggered = false;
  state = record b { buf = []; buf_size = b.buf_size - length b.buf };
  world = end_time_period w;
}

-- 1. Replenish.
unfoldable pub replenish : Bandwidth → ℕ → Bandwidth
replenish b now =
    if ltb 0 b.limit
    then record b {
      max_tokens = capacity b.limit;
      token_bucket =
          at_most (capacity b.limit)
            (b.token_bucket + sub32 now b.last_fill_time * (b.limit * 1024));
      last_fill_time = now;
    }
    else record b { last_fill_time = now }

-- The state of the three loops.
pub record Flow : Type 0 where
  pub queue : List PacketNode
  pub nodes : List PacketNode
  pub size : ℕ
  pub tokens : ℕ
  pub affected : ℕ
  pub world : World

-- 2. One packet on the way from `tail` to `head`; those that stay pile up in `queue`.
unfoldable pub enqueue_one : Bandwidth → Flow → PacketNode → Flow
enqueue_one b f pac =
    if matches b pac
    then (if ltb f.size keep_at_most
        then record f {
          nodes = f.nodes ++ pac ∷ [];
          size = f.size + 1;
          affected = interlocked_increment f.affected;
        }
        else record f { world = free_node f.world pac })
    else record f { queue = pac ∷ f.queue }

unfoldable pub enqueue : Bandwidth → List PacketNode → Flow → Flow
enqueue b [] f = f
enqueue b (pac ∷ before) f = enqueue b before (enqueue_one b f pac)

-- 3. Drain while the tokens last.
abbrev pub cost : PacketNode → ℕ
cost pac = pac.packet_len * scale

unfoldable pub drain : List PacketNode → Flow → Flow
drain [] f = f
drain (oldest ∷ rest) f =
    let next = drain rest (record f {
      queue = oldest ∷ f.queue;
      nodes = rest;
      size = f.size - 1;
      tokens = f.tokens - cost oldest;
    }) in
    if leb (cost oldest) f.tokens then next else f

unfoldable pub flow : Bandwidth → List PacketNode → World → Flow
flow b queue w =
    let f = enqueue b (reverse queue) (record {
      queue = [];
      nodes = b.buf;
      size = b.buf_size;
      tokens = b.token_bucket;
      affected = b.affected;
      world = w;
    }) in
    let drained = drain f.nodes f in if ltb 0 b.limit then drained else f

unfoldable pub process : Bandwidth → ℕ → List PacketNode → World → Outcome Bandwidth
process b now queue w =
    let b1 = replenish b now in
    let f = flow b1 queue w in
    record {
      queue = f.queue;
      triggered = ltb 0 f.size;
      state = record b1 {
        buf = f.nodes;
        buf_size = f.size;
        token_bucket = f.tokens;
        affected = f.affected;
      };
      world = f.world;
    }

unfoldable pub set_param : Libc → Bandwidth → String → String → Bool × Bandwidth
set_param c b key value =
    if str_eq key "bandwidth-bandwidth"
    then (true, record b { limit = long_in 0 99999 (c.atol value) })
    else if str_eq key "bandwidth-inbound"
    then (true, record b { inbound = parse_bool_value value })
    else if str_eq key "bandwidth-outbound"
    then (true, record b { outbound = parse_bool_value value })
    else (false, b)
