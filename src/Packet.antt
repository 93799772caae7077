-- ===== src/Packet.antt =====
-- common.h, packet.cpp and the chance helper of utils.cpp: packets, the state that every module
-- shares, and the tests that the modules make on a packet.
--
-- The packet list is the list of its nodes from `head->next` to `tail->prev`. `World` holds what the
-- modules share: how often `rand()` has been called, which nodes `freeNode` released (newest first),
-- whether `startTimePeriod` is in force, and the latency histogram.
pub mod Sweep
pub mod Collect
pub mod Gathered
pub mod Rewrite
use clumsy.Latency.{Histogram}
use clumsy.Prelude.{
  ℕ, ◌+◌, ◌-◌, ◌%◌, ◌^◌, Bool, true, false, ◌&&◌, ◌||◌, not, List, ◌∷◌, ◌≡◌, ◌≤◌, ◌<◌, arith, ltb,
  ◌==◌, if◌then◌else◌, tally,
}

pub record PacketMeta : Type 0 where
  pub outbound : Bool
  pub ip_version : ℕ
  pub loopback : Bool
  pub impostor : Bool
  pub if_idx : ℕ
  pub sub_if_idx : ℕ

-- `packet_len` is kept beside the bytes, as in the source; times are DWORDs, below 2^32.
pub record PacketNode : Type 0 where
  pub packet : List ℕ
  pub packet_len : ℕ
  pub meta : PacketMeta
  pub backend : List ℕ
  pub timestamp : ℕ
  pub enqueue_time : ℕ

pub record World : Type 0 where
  pub draws : ℕ
  pub freed : List PacketNode
  pub resolution_set : Bool
  pub hist : Histogram

abbrev pub check_direction : Bool → Bool → Bool → Bool
check_direction outbound handle_inbound handle_outbound =
    (handle_inbound && not outbound) || (handle_outbound && outbound)

abbrev pub free_node : World → PacketNode → World
free_node w node = record w { freed = node ∷ w.freed }

unfoldable pub start_time_period : World → World
start_time_period w = record w { resolution_set = true }

unfoldable pub end_time_period : World → World
end_time_period w = record w { resolution_set = false }

-- `rand k` is the value that call number `k` of the C library's `rand()` returns. `||` does not draw
-- where the chance is certain.
unfoldable pub calc_chance : (ℕ → ℕ) → ℕ → World → Bool × World
calc_chance rand chance w =
    if chance == 10000
    then (true, w)
    else (ltb (rand w.draws % 10000) chance, record w { draws = w.draws + 1 })

-- What `process` leaves: the packet list, its result, the module's own state and the shared one.
pub record Outcome (S : Type 0) : Type 0 where
  pub queue : List PacketNode
  pub triggered : Bool
  pub state : S
  pub world : World

-- What no module changes of a packet it only holds back: all but the two times.
pub record Content : Type 0 where
  pub packet : List ℕ
  pub packet_len : ℕ
  pub meta : PacketMeta
  pub backend : List ℕ

abbrev pub content : PacketNode → Content
content n = record {
  packet = n.packet;
  packet_len = n.packet_len;
  meta = n.meta;
  backend = n.backend;
}

-- The packets in `xs` whose content passes `p`, counted.
abbrev pub holding : (Content → Bool) → List PacketNode → ℕ
holding p = tally (λ n. p (content n))

pub calc_chance-freed :
    (rand : ℕ → ℕ) (chance : ℕ) (w : World) → (calc_chance rand chance w).1.freed ≡ w.freed
unfolding calc_chance
calc_chance-freed rand chance w = ground arith
