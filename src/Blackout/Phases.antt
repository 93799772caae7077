-- ===== src/Blackout/Phases.antt =====
-- When blackout.cpp turns its phase, and what a phase does to the packets.
use Prim.Native.String.{String}
use mathlib.Core.Path.{fun_ext}
use clumsy.Prelude.{
  word, sub32_elapsed, sub32_self, ℕ, ◌+◌, ◌-◌, ◌%◌, ◌≤◌, ◌<◌, ◌≡◌, refl, Bool, true, false, List,
  reverse_aux, arith, leb, if◌then◌else◌, subst, select, reject,
}
use clumsy.Packet.{PacketNode, World}
use clumsy.Utils.{Libc, clamp_long_range}
use clumsy.Blackout.{
  Blackout, Phase, normal, blackout, toggled, phase_length, take_trigger, advance, act,
  act_blackout, process, matches, set_param,
}

pub record Ranges (b : Blackout) : Type 0 where
  pub duration_low : 100 ≤ b.duration_ms
  pub duration_high : b.duration_ms ≤ 60000
  pub gap_low : 1000 ≤ b.gap_ms
  pub gap_high : b.gap_ms ≤ 300000

-- Whatever key and text `setParam` gets, a duration within 100 and 60000 ms stays within them, and a
-- gap within 1000 and 300000 ms too.
blackout_set_param-Ranges :
    (c : Libc) (b : Blackout) (key value : String) → Ranges b → Ranges (set_param c b key value).1
unfolding set_param
blackout_set_param-Ranges c b key value h = ground (
  arith,
  clamp_long_range (c.atol value) 100 60000 (omega arith),
  clamp_long_range (c.atol value) 1000 300000 (omega arith),
)

act_state :
    (b : Blackout) (p : Phase) (queue : List PacketNode) (w : World)
    → ((act b p queue w).state.current_phase ≡ b.current_phase)
      × ((act b p queue w).state.phase_start ≡ b.phase_start)
      × ((act b p queue w).state.trigger_pending ≡ b.trigger_pending)
unfolding act
act_state b normal queue w = (refl, refl, refl)
act_state b blackout queue w = (refl, refl, refl)

advance_kept :
    (b : Blackout) (since now : ℕ) (p : Phase)
    → b.current_phase ≡ p
    → b.phase_start ≡ since % word
    → since ≤ now
    → now < since + word
    → (let due = leb (phase_length b p) (now - since) in
        ((advance b (now % word)).current_phase ≡ (if due then toggled p else p))
        × ((advance b (now % word)).phase_start ≡ (if due then now % word else since % word))
        × ((advance b (now % word)).trigger_pending ≡ b.trigger_pending))
unfolding advance
advance_kept b since now normal e s h k = ground (arith, sub32_elapsed since now h k)
advance_kept b since now blackout e s h k = ground (arith, sub32_elapsed since now h k)

take_trigger_kept :
    (b : Blackout) (now : ℕ) (p : Phase)
    → Ranges b
    → b.current_phase ≡ p
    → b.trigger_pending ≡ true
    → ((advance (take_trigger b now) now).current_phase ≡ toggled p)
      × ((advance (take_trigger b now) now).phase_start ≡ now)
      × ((advance (take_trigger b now) now).trigger_pending ≡ false)
unfolding advance take_trigger
take_trigger_kept b now normal r e t = ground (arith, sub32_self now)
take_trigger_kept b now blackout r e t = ground (arith, sub32_self now)

-- With no trigger pending and the current phase begun less than 2^32 ms ago, a call turns the phase
-- exactly where it is at least as old as its length, and the new phase starts at the tick of that call;
-- the 32-bit clock may have wrapped in between.
pub process_periodic :
    (b : Blackout) (since now : ℕ) (p : Phase) (queue : List PacketNode) (w : World)
    → b.trigger_pending ≡ false
    → b.current_phase ≡ p
    → b.phase_start ≡ since % word
    → since ≤ now
    → now < since + word
    → let due = leb (phase_length b p) (now - since) in
      let r = (process b (now % word) queue w).state in
      (r.current_phase ≡ (if due then toggled p else p))
      × (r.phase_start ≡ (if due then now % word else since % word))
      × (r.trigger_pending ≡ false)
unfolding process take_trigger
process_periodic b since now p queue w t e s h k = ground (
  arith,
  advance_kept b since now p e s h k,
  act_state (advance b (now % word)) (advance b (now % word)).current_phase queue w,
)

-- With the duration and the gap in their ranges, a pending trigger turns the phase exactly once in a
-- call, whatever the phase's age, restarts its clock at the tick of the call and is spent.
process_triggered :
    (b : Blackout) (now : ℕ) (p : Phase) (queue : List PacketNode) (w : World)
    → Ranges b
    → b.current_phase ≡ p
    → b.trigger_pending ≡ true
    → let r = (process b now queue w).state in
      (r.current_phase ≡ toggled p) × (r.phase_start ≡ now) × (r.trigger_pending ≡ false)
unfolding process
process_triggered b now p queue w r e t =
    let b' = advance (take_trigger b now) now in
    ground (arith, take_trigger_kept b now p r e t, act_state b' b'.current_phase queue w)

-- What a phase does.
abbrev pub Effect :
    (PacketNode → Bool) → Phase → List PacketNode → World → List PacketNode → World → Bool → Type 0
Effect m normal queue w queue' w' triggered =
    (queue' ≡ queue) × (w'.freed ≡ w.freed) × (triggered ≡ false)
Effect m blackout queue w queue' w' triggered =
    (queue' ≡ reject m queue)
    × (w'.freed ≡ reverse_aux (select m queue) w.freed)
    × (triggered ≡ true)

matches-advance :
    (b : Blackout) (now : ℕ) (pac : PacketNode)
    → matches (advance (take_trigger b now) now) pac ≡ matches b pac
unfolding matches advance take_trigger
matches-advance b now pac = ground arith

act-Effect :
    (b : Blackout) (p : Phase) (queue : List PacketNode) (w : World)
    → let r = act b p queue w in Effect (matches b) p queue w r.queue r.world r.triggered
unfolding act
act-Effect b normal queue w = (refl, refl, refl)
act-Effect b blackout queue w = act_blackout b queue w

-- The phase that a call leaves decides what it did: in a blackout every packet of the handled
-- directions is freed, once each, the others stay in order, and the call reports that it triggered;
-- in a normal phase the list stays, nothing is freed and the call reports nothing.
pub process-Effect :
    (b : Blackout) (now : ℕ) (queue : List PacketNode) (w : World)
    → let r = process b now queue w in
      Effect (matches b) r.state.current_phase queue w r.queue r.world r.triggered
unfolding process
process-Effect b now queue w =
    let b' = advance (take_trigger b now) now in
    let p = b'.current_phase in
    let r = act b' p queue w in
    rw ((act_state b' p queue w).0) (
      subst (λ m. Effect m p queue w r.queue r.world r.triggered) (fun_ext (matches-advance b now))
        (act-Effect b' p queue w))
