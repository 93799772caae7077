-- ===== src/Examples/Capturing.antt =====
-- The theorems on divert_linux.cpp, each applied to a pipeline of five modules and two captured packets.
use clumsy.Prelude.{ℕ, ◌+◌, ◌≡◌, refl, true, false, none, some, List, [], ◌∷◌, arith}
use clumsy.Examples.{packet_of, quiet, draws}
use clumsy.Examples.Holding.{sampler, shaky, mixer, copier}
use clumsy.Examples.Buffers.{slow}
use clumsy.Drop
use clumsy.Pipeline.{Stage, Module, Divert, Message, consume_step, queued_blob, stop}
use clumsy.Pipeline.Lawful.{AllLawful, answers, held_by, waiting}
use clumsy.Pipeline.Verdicts.{Idle, accounted, consume_step-Answers}
use clumsy.Pipeline.Run.{Event, captured, clock_tick, run, brought, run-Accounted}
use clumsy.Pipeline.Stop.{stop-Stranded}
use clumsy.Pipeline.Adapters.{
  drop_module, dup_module, lag_module, jitter_module, ood_module, drop_module-Lawful,
  dup_module-Lawful, lag_module-Lawful, jitter_module-Lawful, ood_module-Lawful,
}

abbrev off : Drop.Drop
off = record { enabled = false; inbound = true; outbound = true; chance = 5000; affected = 0 }

abbrev stage_of : {S : Type 0} → Module S → S → Stage
stage_of {S = S} ops s = record {
  State = S;
  ops = ops;
  state = s;
  last_enabled = true;
  triggered = 0;
}

abbrev stages : List Stage
stages =
    stage_of lag_module (record slow { buf = []; buf_size = 0 })
    ∷ stage_of (drop_module draws) off
    ∷ stage_of (ood_module draws) (record mixer { buf = []; buf_size = 0 })
    ∷ stage_of (dup_module draws (λ i. true)) copier
    ∷ stage_of (jitter_module sampler draws) (record shaky { buf = []; buf_size = 0 })
    ∷ []

stages-AllLawful : AllLawful stages
stages-AllLawful = (
  lag_module-Lawful,
  (
    drop_module-Lawful draws,
    (
      ood_module-Lawful draws,
      (dup_module-Lawful draws (λ i. true), (jitter_module-Lawful sampler draws, tt)),
    ),
  ),
)

abbrev capture : Divert
capture = record {
  stages = stages;
  queue = [];
  world = quiet;
  kernel = record { queue_open = true; verdicts = []; raw = []; sent_total = 0 };
  captured_total = 0;
}

capture-Idle : Idle capture
capture-Idle = record { laws = stages-AllLawful; live = refl; settled = refl; empty = refl }

abbrev message : ℕ → Message
message id = record {
  header = some id;
  payload = 69 ∷ 0 ∷ 0 ∷ 1 ∷ [];
  indev = 0;
  outdev = 2;
  physindev = 0;
  physoutdev = 0;
}

abbrev events : List Event
events =
    captured none true 1000 (message 7)
    ∷ clock_tick 1040
    ∷ captured none false 1060 (message 8)
    ∷ clock_tick 1080
    ∷ []

run-Accounted_example :
    (accounted 7 (run events capture) ≡ accounted 7 capture + brought 7 events)
    × Idle (run events capture)
run-Accounted_example = run-Accounted 7 events capture (λ e. ground arith) capture-Idle

-- A packet is held back by a lag module that was switched off a moment ago.
abbrev switched_off : Divert
switched_off = record capture {
  stages =
      stage_of lag_module (record slow {
        enabled = false;
        buf =
            record {
              packet = 69 ∷ 0 ∷ [];
              packet_len = 2;
              meta = record {
                outbound = true;
                ip_version = 4;
                loopback = false;
                impostor = false;
                if_idx = 2;
                sub_if_idx = 0;
              };
              backend = queued_blob 7;
              timestamp = 1000;
              enqueue_time = 1000;
            }
            ∷ [];
        buf_size = 1;
      })
      ∷ [];
}

switched_off-Idle : Idle switched_off
switched_off-Idle = record {
  laws = (lag_module-Lawful, tt);
  live = refl;
  settled = refl;
  empty = refl;
}

stop-Stranded_example :
    let d' = stop switched_off in (answers 7 d'.kernel.verdicts + 1 ≡ 1) × (held_by 7 d'.stages ≡ 1)
stop-Stranded_example = stop-Stranded 7 switched_off (λ e. ground arith) switched_off-Idle

-- Another packet waits in the list.
abbrev loaded : Divert
loaded = record switched_off { queue = record (packet_of true 20) { backend = queued_blob 8 } ∷ [] }

consume_step-Answers_example :
    let d' = consume_step 1000 loaded in
    (answers 8 d'.kernel.verdicts + held_by 8 d'.stages
      ≡ answers 8 loaded.kernel.verdicts + (waiting 8 loaded.queue + held_by 8 loaded.stages))
    × (d'.queue ≡ [])
    × (d'.world.freed ≡ [])
    × (d'.kernel.queue_open ≡ true)
consume_step-Answers_example =
    consume_step-Answers 8 1000 loaded (λ e. ground arith) (lag_module-Lawful, tt) refl refl
