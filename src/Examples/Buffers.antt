-- ===== src/Examples/Buffers.antt =====
-- The theorems on lag.cpp, throttle.cpp and bandwidth.cpp, each applied to concrete traffic.
use clumsy.Prelude.{ℕ, ◌+◌, ◌*◌, ◌≤◌, ◌≡◌, refl, true, false, List, [], ◌∷◌, arith, reject, add32}
use clumsy.Examples.{traffic, quiet, draws, packet_of}
use clumsy.Packet.{PacketNode}
use clumsy.Lag
use clumsy.Lag.Delay
use clumsy.Throttle
use clumsy.Throttle.Window
use clumsy.Bandwidth
use clumsy.Bandwidth.Fifo
use clumsy.Bandwidth.Loops.{bytes}
use clumsy.Bandwidth.Rate

abbrev stamped : ℕ → PacketNode
stamped t = record (packet_of true 80) { timestamp = t; enqueue_time = t }

abbrev pub slow : Lag.Lag
slow = record {
  enabled = true;
  inbound = false;
  outbound = true;
  lag_time = 50;
  buf = stamped 1000 ∷ stamped 1040 ∷ [];
  buf_size = 2;
  affected = 2;
}

slow-IsValid : Delay.IsValid slow
slow-IsValid = record { counted = refl; room = omega arith }

process-Delays_example : Delay.Delays slow 1060 traffic quiet (Lag.process slow 1060 traffic quiet)
process-Delays_example = Delay.process-Delays slow 1060 traffic quiet

-- One packet is overdue, one waits on, and two join.
process_uncongested_example :
    let r = Lag.process slow 1060 traffic quiet in
    (r.queue ≡ stamped 1000 ∷ packet_of false 40 ∷ [])
    × (r.state.buf
        ≡ stamped 1040
          ∷ Delay.queued_at 1060 (packet_of true 60)
          ∷ Delay.queued_at 1060 (packet_of true 100)
          ∷ [])
unfolding Lag.matches add32
process_uncongested_example =
    Delay.process_uncongested slow 1060 traffic quiet slow-IsValid (omega arith)

abbrev stuck : Lag.Lag
stuck = record slow { buf = stamped 4294967245 ∷ []; buf_size = 1 }

stuck-IsValid : Delay.IsValid stuck
stuck-IsValid = record { counted = refl; room = omega arith }

process_stalls_example :
    let r = Lag.process stuck 100000 traffic quiet in
    (r.queue ≡ reject (Lag.matches stuck) traffic) × (r.state.buf ≡ Delay.line stuck 100000 traffic)
unfolding add32
process_stalls_example =
    Delay.process_stalls stuck 100000 (stamped 4294967245) [] traffic quiet stuck-IsValid
      (omega arith) (omega arith) refl refl

abbrev throttling : Throttle.Throttle
throttling = record {
  enabled = true;
  inbound = true;
  outbound = true;
  chance = 3000;
  frame = 30;
  drop_throttled = true;
  buf = stamped 900 ∷ [];
  buf_size = 1;
  start_tick = 900;
  affected = 1;
}

throttling-IsValid : Window.IsValid throttling
throttling-IsValid = record { counted = refl; room = omega arith }

process_running_example :
    Window.Window throttling 940 traffic quiet
      (Throttle.process draws throttling 940 940 traffic quiet)
process_running_example =
    Window.process_running draws throttling 940 940 traffic quiet throttling-IsValid (omega arith)

abbrev waiting : Throttle.Throttle
waiting = record throttling { buf = []; buf_size = 0; start_tick = 0 }

waiting-IsValid : Window.IsValid waiting
waiting-IsValid = record { counted = refl; room = omega arith }

abbrev narrow : Bandwidth.Bandwidth
narrow = record {
  enabled = true;
  inbound = true;
  outbound = true;
  limit = 1;
  buf = stamped 0 ∷ [];
  buf_size = 1;
  token_bucket = 70000;
  max_tokens = 65535000;
  last_fill_time = 4294967290;
  affected = 1;
}

narrow-IsValid : Fifo.IsValid narrow
narrow-IsValid = record { counted = refl; room = omega arith }

process-Shaped_example :
    Fifo.Shaped
      (Bandwidth.matches narrow)
      narrow.buf
      1
      1999
      (Bandwidth.replenish narrow 14).token_bucket
      traffic
      quiet
      (Rate.final (Bandwidth.process narrow 14 traffic quiet))
process-Shaped_example = Rate.process-Shaped narrow 14 traffic quiet narrow-IsValid

abbrev calls : List (ℕ × List PacketNode)
calls = (20, traffic) ∷ (40, []) ∷ []

run_rate_example :
    let (last, sent) = Rate.run narrow 4294967290 quiet calls in
    last.token_bucket + bytes sent * 1000
    ≤ 70000
      + Rate.total_gap calls * (1 * 1024)
      + Rate.unhandled (Bandwidth.matches narrow) calls * 1000
run_rate_example =
    Rate.run_rate narrow 4294967290 quiet calls narrow-IsValid refl (omega arith, (omega arith, tt))
