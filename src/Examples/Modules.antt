-- ===== src/Examples/Modules.antt =====
-- The theorems on drop.cpp, burstloss.cpp, blackout.cpp, latency.cpp and the value helpers of utils.cpp,
-- each applied to concrete traffic.
use clumsy.Prelude.{ℕ, ◌≤◌, ◌≡◌, refl, true, false, List, [], ◌∷◌, arith, tally, ◌==◌}
use clumsy.Examples.{traffic, quiet, libc, draws, no_delays}
use clumsy.Packet.Sweep.{Parted}
use clumsy.Latency.{latency_sum_ms, record_all, reset, bucket_of, bounds, latency_bucket_count}
use clumsy.Latency.Counts.{plausible, reset-record_all}
use clumsy.Drop
use clumsy.BurstLoss
use clumsy.Blackout
use clumsy.Blackout.Phases

abbrev lossy : Drop.Drop
lossy = record { enabled = true; inbound = false; outbound = true; chance = 3000; affected = 0 }

drop_process-Parted_example :
    let r = Drop.process draws lossy traffic quiet in
    Parted (Drop.Handled lossy) traffic quiet 0 r.triggered r.queue r.world r.state.affected
drop_process-Parted_example = Drop.drop_process-Parted draws lossy traffic quiet

abbrev harmless : Drop.Drop
harmless = record lossy { chance = 0 }

process_never_example :
    let r = Drop.process draws harmless traffic quiet in (r.queue ≡ traffic) × (r.world.freed ≡ [])
process_never_example = Drop.process_never draws harmless traffic quiet refl

abbrev total : Drop.Drop
total = record lossy { chance = 10000 }

drop_set_param_range_example : (Drop.set_param libc lossy "drop-chance" "500").1.chance ≤ 10000
drop_set_param_range_example =
    Drop.drop_set_param_range libc lossy "drop-chance" "500" (omega arith)

abbrev gusty : BurstLoss.BurstLoss
gusty = record {
  enabled = true;
  inbound = true;
  outbound = true;
  chance_good = 3000;
  chance_bad = 9000;
  chance_gb = 10000;
  chance_bg = 500;
  state = BurstLoss.good;
  affected = 0;
}

burst_process-Parted_example :
    let r = BurstLoss.process draws gusty traffic quiet in
    Parted (BurstLoss.Handled gusty) traffic quiet 0 r.triggered r.queue r.world r.state.affected
burst_process-Parted_example = BurstLoss.burst_process-Parted draws gusty traffic quiet

gusty-Ranges : BurstLoss.Ranges gusty
gusty-Ranges = record {
  good_range = omega arith;
  bad_range = omega arith;
  gb_range = omega arith;
  bg_range = omega arith;
}

abbrev dark : Blackout.Blackout
dark = record {
  enabled = true;
  inbound = true;
  outbound = false;
  trigger_pending = false;
  duration_ms = 2000;
  gap_ms = 5000;
  current_phase = Blackout.normal;
  phase_start = 4294967000;
  affected = 0;
}

dark-Ranges : Phases.Ranges dark
dark-Ranges = record {
  duration_low = omega arith;
  duration_high = omega arith;
  gap_low = omega arith;
  gap_high = omega arith;
}

abbrev armed : Blackout.Blackout
armed = record dark { trigger_pending = true }

armed-Ranges : Phases.Ranges armed
armed-Ranges = record {
  duration_low = omega arith;
  duration_high = omega arith;
  gap_low = omega arith;
  gap_high = omega arith;
}

process-Effect_example :
    let r = Blackout.process armed 7 traffic quiet in
    Phases.Effect
      (Blackout.matches armed)
      r.state.current_phase
      traffic
      quiet
      r.queue
      r.world
      r.triggered
process-Effect_example = Phases.process-Effect armed 7 traffic quiet

abbrev delays : List ℕ
delays = 12 ∷ 4294967290 ∷ 700 ∷ []

reset-record_all_example :
    let r = record_all (reset no_delays) delays in
    (r.total_count ≡ 2)
    × (latency_sum_ms r ≡ 712)
    × (r.max_ms ≡ 700)
    × ((j : ℕ) → latency_bucket_count r j ≡ tally (λ d. bucket_of bounds d == j) (plausible delays))
unfolding clumsy.Latency.implausible
reset-record_all_example = reset-record_all no_delays delays (omega arith)
