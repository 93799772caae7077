-- ===== src/Examples/Holding.antt =====
-- The theorems on jitter.cpp, ood.cpp and duplicate.cpp, each applied to concrete traffic.
use clumsy.Prelude.{
  ℕ, ◌+◌, ◌%◌, ◌≡◌, refl, true, false, List, [], ◌∷◌, arith, reject, select, reverse, reverse_aux,
  word, ◌++◌,
}
use clumsy.Prelude.Int.{pos}
use clumsy.Examples.{traffic, quiet, draws, packet_of}
use clumsy.Packet.{PacketNode, holding}
use clumsy.Packet.Gathered.{Each}
use clumsy.Jitter
use clumsy.Jitter.Scheduled
use clumsy.Jitter.Delays
use clumsy.Jitter.Wrap
use clumsy.Ood
use clumsy.Ood.Conserved
use clumsy.Duplicate
use clumsy.Duplicate.Repeats

-- A sampler that keeps to the lower end, or falls short of it.
abbrev pub sampler : Jitter.Sampler
sampler = record {
  uniform_at = λ lo hi r. pos lo;
  normal_at = λ lo hi r s. pos 0;
  pareto_at = λ lo hi r. pos lo;
}

abbrev due_at : ℕ → PacketNode
due_at t = record (packet_of true 80) { timestamp = t; enqueue_time = 1000 }

abbrev pub shaky : Jitter.Jitter
shaky = record {
  enabled = true;
  inbound = false;
  outbound = true;
  min = 20;
  max = 100;
  dist = Jitter.normal;
  buf = due_at 1090 ∷ due_at 1040 ∷ [];
  buf_size = 2;
  affected = 2;
}

shaky-IsValid : Scheduled.IsValid shaky
shaky-IsValid = record { counted = refl; room = omega arith }

jitter_process-Delays_example :
    Delays.Delays sampler draws shaky 1060 traffic quiet
      (Jitter.process sampler draws shaky 1060 traffic quiet)
    × Scheduled.IsValid (Jitter.process sampler draws shaky 1060 traffic quiet).state
jitter_process-Delays_example =
    Delays.jitter_process-Delays sampler draws shaky 1060 traffic quiet shaky-IsValid

jitter_process_uncongested_example :
    let r = Jitter.process sampler draws shaky 1060 traffic quiet in
    (queued : List PacketNode) × Each
      (Scheduled.Queued shaky 1060)
      queued
      (select (Jitter.matches shaky) (reverse traffic))
    × (r.state.buf ≡ reject (Jitter.ready 1060) (shaky.buf ++ queued))
    × (r.queue
        ≡ reverse_aux
            (select (Jitter.ready 1060) (shaky.buf ++ queued))
            (reject (Jitter.matches shaky) traffic))
jitter_process_uncongested_example =
    Delays.jitter_process_uncongested sampler draws shaky 1060 traffic quiet shaky-IsValid
      (omega arith)

-- Ten ticks before the clock wraps.
process_early_example :
    (Jitter.process sampler draws shaky 4294967286 traffic quiet).state.buf
    ≡ reject (Jitter.ready 4294967286) shaky.buf
process_early_example =
    Wrap.process_early sampler draws shaky 4294967286 traffic quiet shaky-IsValid (omega arith)
      (omega arith) (ground arith) (ground arith)

abbrev pub mixer : Ood.Ood
mixer = record {
  enabled = true;
  inbound = true;
  outbound = true;
  chance = 10000;
  max_buffer = 4;
  max_delay = 100;
  buf = due_at 1000 ∷ due_at 1010 ∷ [];
  buf_size = 2;
  affected = 2;
}

ood_process-Conserves_example :
    let r = Ood.process draws mixer 1060 traffic quiet in
    (holding (λ c. true) r.queue + holding (λ c. true) r.state.buf
      ≡ holding (λ c. true) traffic + holding (λ c. true) mixer.buf)
    × (r.world.freed ≡ quiet.freed)
ood_process-Conserves_example =
    Conserved.ood_process-Conserves draws mixer 1060 traffic quiet (λ c. true)

process-Fresh_example :
    let r = Ood.process draws mixer 1060 traffic quiet in
    Conserved.IsValid r.state × Conserved.Fresh mixer 1060 r.state.buf
process-Fresh_example =
    Conserved.process-Fresh draws mixer 1060 traffic quiet
      (record { counted = refl; fits = omega arith; small = omega arith })

abbrev pub copier : Duplicate.Dup
copier = record {
  enabled = true;
  inbound = false;
  outbound = true;
  chance = 10000;
  count = 3;
  affected = 0;
}

dup_process-Repeats_example :
    let r = Duplicate.process draws (λ i. false) (λ b. b) copier traffic quiet in
    (n : ℕ) × Repeats.Repeats
      (Duplicate.clone_node (λ b. b))
      (Duplicate.matches copier)
      2
      traffic
      r.queue
      n
    × (r.state.affected % word ≡ (copier.affected + n) % word)
    × (r.world.freed ≡ quiet.freed)
dup_process-Repeats_example =
    Repeats.dup_process-Repeats draws (λ i. false) (λ b. b) copier traffic quiet

process-multiplied_example :
    (Duplicate.process draws (λ i. true) (λ b. b) copier traffic quiet).queue
    ≡ Repeats.multiplied draws (λ i. true) (λ b. b) copier traffic
process-multiplied_example =
    Repeats.process-multiplied draws (λ i. true) (λ b. b) copier refl (λ i. refl) traffic quiet
