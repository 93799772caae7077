-- ===== src/Blackout.antt =====
-- blackout.cpp: a cycle of normal phases and of phases that drop every handled packet, with a
-- trigger that turns the phase at once.
pub mod Phases
use text.Mathlib.Text.{◌==◌ as str_eq}
use Prim.Native.String.{String}
use clumsy.Prelude.{
  sub32, ℕ, ◌≡◌, refl, Bool, true, false, ◌&&◌, List, [], ◌∷◌, reverse, reverse_aux,
  reverse-reverse, arith, leb, if◌then◌else◌, select, reject,
}
use clumsy.Packet.{PacketNode, World, Outcome, check_direction, start_time_period, end_time_period}
use clumsy.Packet.Sweep.{Sweep, begin, pass, discard}
use clumsy.Utils.{Libc, parse_bool_value, long_in}

pub data Phase : Type 0 where
  normal blackout : Phase

pub record Blackout : Type 0 where
  pub enabled : Bool
  pub inbound : Bool
  pub outbound : Bool
  pub trigger_pending : Bool
  pub duration_ms : ℕ
  pub gap_ms : ℕ
  pub current_phase : Phase
  pub phase_start : ℕ
  pub affected : ℕ

unfoldable pub matches : Blackout → PacketNode → Bool
matches b pac = check_direction pac.meta.outbound b.inbound b.outbound

unfoldable pub start_up : Blackout → ℕ → World → Blackout × World
start_up b now w = (
  record b { current_phase = normal; phase_start = now; trigger_pending = false },
  start_time_period w,
)

unfoldable pub close_down : Blackout → World → Blackout × World
close_down b w = (record b { current_phase = normal }, end_time_period w)

abbrev pub toggled : Phase → Phase
toggled normal = blackout
toggled blackout = normal

-- The manual trigger.
unfoldable pub take_trigger : Blackout → ℕ → Blackout
take_trigger b now =
    if b.trigger_pending
    then record b {
      trigger_pending = false;
      current_phase = toggled b.current_phase;
      phase_start = now;
    }
    else b

-- How long a phase lasts.
abbrev pub phase_length : Blackout → Phase → ℕ
phase_length b normal = b.gap_ms
phase_length b blackout = b.duration_ms

-- The periodic transition.
unfoldable pub advance : Blackout → ℕ → Blackout
advance b now =
    if leb (phase_length b b.current_phase) (sub32 now b.phase_start)
    then record b { current_phase = toggled b.current_phase; phase_start = now }
    else b

visit : Blackout → Sweep → PacketNode → Sweep
visit b s pac = if matches b pac then discard s s.world pac else pass s s.world pac

sweep : Blackout → Sweep → List PacketNode → Sweep
sweep b s [] = s
sweep b s (pac ∷ rest) = sweep b (visit b s pac) rest

-- The packet loop, which runs in the blackout phase only.
act : Blackout → Phase → List PacketNode → World → Outcome Blackout
act b normal queue w = record { queue = queue; triggered = false; state = b; world = w }
act b blackout queue w =
    let s = sweep b (begin w b.affected) queue in
    record {
      queue = reverse s.passed;
      triggered = true;
      state = record b { affected = s.affected };
      world = s.world;
    }

unfoldable pub process : Blackout → ℕ → List PacketNode → World → Outcome Blackout
unfolding act sweep visit
process b now queue w = let b' = advance (take_trigger b now) now in act b' b'.current_phase queue w

unfoldable pub set_param : Libc → Blackout → String → String → Bool × Blackout
set_param c b key value =
    if str_eq key "blackout-duration"
    then (true, record b { duration_ms = long_in 100 60000 (c.atol value) })
    else if str_eq key "blackout-gap"
    then (true, record b { gap_ms = long_in 1000 300000 (c.atol value) })
    else if str_eq key "blackout-inbound"
    then (true, record b { inbound = parse_bool_value value })
    else if str_eq key "blackout-outbound"
    then (true, record b { outbound = parse_bool_value value })
    else if str_eq key "blackout-trigger"
    then (
      true,
      if parse_bool_value value && b.enabled then record b { trigger_pending = true } else b,
    )
    else (false, b)

sweep_all :
    (b : Blackout) (s : Sweep) (xs : List PacketNode)
    → ((sweep b s xs).passed ≡ reverse_aux (reject (matches b) xs) s.passed)
      × ((sweep b s xs).world.freed ≡ reverse_aux (select (matches b) xs) s.world.freed)
unfolding sweep visit
sweep_all b s [] = (refl, refl)
sweep_all b s (x ∷ xs) = ground (arith, sweep_all b (visit b s x) xs)

act_blackout :
    (b : Blackout) (queue : List PacketNode) (w : World)
    → ((act b blackout queue w).queue ≡ reject (matches b) queue)
      × ((act b blackout queue w).world.freed ≡ reverse_aux (select (matches b) queue) w.freed)
      × ((act b blackout queue w).triggered ≡ true)
unfolding act
act_blackout b queue w =
    let (p, f) = sweep_all b (begin w b.affected) queue in
    (rw p (reverse-reverse (reject (matches b) queue)), f, refl)
