-- ===== src/Examples.antt =====
-- Packets, settings and programs that the tests of this folder run the modules on.
pub mod Modules
pub mod Buffers
pub mod Filters
pub mod Parsing
pub mod Holding
pub mod Capturing
pub mod Checksums
pub mod Json
pub mod Scenarios
pub mod Rewriting
pub mod Profiles
use Prim.Native.String.{String}
use text.Mathlib.Text.{◌==◌ as str_eq}
use clumsy.Prelude.{ℕ, ◌+◌, Bool, true, false, List, [], ◌∷◌, if◌then◌else◌}
use clumsy.Prelude.Int.{ℤ, pos}
use clumsy.Latency.{Histogram, empty_buckets}
use clumsy.Packet.{PacketMeta, PacketNode, World}
use clumsy.Utils.{Libc}

abbrev pub meta_of : Bool → PacketMeta
meta_of out = record {
  outbound = out;
  ip_version = 4;
  loopback = false;
  impostor = false;
  if_idx = 0;
  sub_if_idx = 0;
}

-- A packet of `n` bytes that are not looked at.
abbrev pub packet_of : Bool → ℕ → PacketNode
packet_of out n = record {
  packet = [];
  packet_len = n;
  meta = meta_of out;
  backend = [];
  timestamp = 0;
  enqueue_time = 0;
}

abbrev pub traffic : List PacketNode
traffic = packet_of true 100 ∷ packet_of false 40 ∷ packet_of true 60 ∷ []

abbrev pub no_delays : Histogram
no_delays = record {
  buckets = empty_buckets;
  total_count = 0;
  min_ms = 0;
  max_ms = 0;
  sum_low = 0;
  sum_high = 0;
}

abbrev pub quiet : World
quiet = record { draws = 0; freed = []; resolution_set = true; hist = no_delays }

-- A C library that reads one text.
abbrev pub libc : Libc
libc = record {
  atoi = λ s. if str_eq s "500" then pos 500 else pos 0;
  atol = λ s. if str_eq s "500" then pos 500 else pos 0;
  percent = λ s. if str_eq s "500" then pos 50000 else pos 0;
}

-- Draws that grow, so that some chances hit and some do not.
abbrev pub draws : ℕ → ℕ
draws n = n + 2999
