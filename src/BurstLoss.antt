-- ===== src/BurstLoss.antt =====
-- burstloss.cpp: packets are lost by a Gilbert-Elliott chain with a good and a bad state.
use text.Mathlib.Text.{◌==◌ as str_eq}
use Prim.Native.String.{String}
use clumsy.Prelude.{
  ℕ, ◌≤◌, ◌≡◌, Bool, true, false, List, [], ◌∷◌, reverse, arith, ltb, if◌then◌else◌,
}
use clumsy.Packet.{PacketNode, World, Outcome, check_direction, calc_chance}
use clumsy.Packet.Sweep.{
  Sweep, begin, pass, discard, Visit, Visit-roll, Swept, Swept-nil, Swept-pass, Parted,
  Parted-sweep,
}
use clumsy.Utils.{Libc, parse_bool_value, short_in, clamp_short_range}

pub data Weather : Type 0 where
  good bad : Weather

-- `state` is the source's `currentState`; the chances are per 10000.
pub record BurstLoss : Type 0 where
  pub enabled : Bool
  pub inbound : Bool
  pub outbound : Bool
  pub chance_good : ℕ
  pub chance_bad : ℕ
  pub chance_gb : ℕ
  pub chance_bg : ℕ
  pub state : Weather
  pub affected : ℕ

unfoldable pub matches : BurstLoss → PacketNode → Bool
matches b pac = check_direction pac.meta.outbound b.inbound b.outbound

abbrev pub Handled : BurstLoss → PacketNode → Type 0
Handled b pac = matches b pac ≡ true

unfoldable pub start_up : BurstLoss → BurstLoss
start_up b = record b { state = good }

-- The drop decision of one packet, by the state it finds.
unfoldable pub drop_decision : (ℕ → ℕ) → BurstLoss → Weather → World → Bool × World
drop_decision rand b good w = calc_chance rand b.chance_good w
drop_decision rand b bad w = calc_chance rand b.chance_bad w

-- The transition that follows it.
unfoldable pub transition : (ℕ → ℕ) → BurstLoss → Weather → World → Weather × World
transition rand b good w =
    let (turn, w') = calc_chance rand b.chance_gb w in ((if turn then bad else good), w')
transition rand b bad w =
    let (turn, w') = calc_chance rand b.chance_bg w in ((if turn then good else bad), w')

-- Both draws of a handled packet, in the order of the source: the drop is decided in the old state.
unfoldable pub roll : (ℕ → ℕ) → BurstLoss → Weather → World → Bool × Weather × World
unfolding drop_decision transition
roll rand b now w =
    let (dropped, w1) = drop_decision rand b now w in
    let (next, w2) = transition rand b now w1 in (dropped, next, w2)

next_state : (ℕ → ℕ) → BurstLoss → Weather → World → PacketNode → Weather
next_state rand b now w pac = if matches b pac then (roll rand b now w).1 else now

visit : (ℕ → ℕ) → BurstLoss → Weather → Sweep → PacketNode → Sweep
visit rand b now s pac =
    if matches b pac
    then (let (dropped, _, w) = roll rand b now s.world in
        if dropped then discard s w pac else pass s w pac)
    else pass s s.world pac

sweep : (ℕ → ℕ) → BurstLoss → Weather → Sweep → List PacketNode → Weather × Sweep
sweep rand b now s [] = (now, s)
sweep rand b now s (pac ∷ rest) =
    sweep rand b (next_state rand b now s.world pac) (visit rand b now s pac) rest

unfoldable pub process : (ℕ → ℕ) → BurstLoss → List PacketNode → World → Outcome BurstLoss
unfolding sweep visit next_state
process rand b queue w =
    let (now, s) = sweep rand b b.state (begin w b.affected) queue in
    record {
      queue = reverse s.passed;
      triggered = ltb 0 s.dropped;
      state = record b { state = now; affected = s.affected };
      world = s.world;
    }

-- `v` is computed before the four percentage keys are tried.
unfoldable pub set_param : Libc → BurstLoss → String → String → Bool × BurstLoss
set_param c b key value =
    let v = short_in 0 10000 (c.percent value) in
    if str_eq key "burstloss-inbound"
    then (true, record b { inbound = parse_bool_value value })
    else if str_eq key "burstloss-outbound"
    then (true, record b { outbound = parse_bool_value value })
    else if str_eq key "burstloss-good"
    then (true, record b { chance_good = v })
    else if str_eq key "burstloss-bad"
    then (true, record b { chance_bad = v })
    else if str_eq key "burstloss-gb"
    then (true, record b { chance_gb = v })
    else if str_eq key "burstloss-bg"
    then (true, record b { chance_bg = v })
    else (false, b)

roll-freed :
    (rand : ℕ → ℕ) (b : BurstLoss) (now : Weather) (w : World)
    → (roll rand b now w).2.freed ≡ w.freed
unfolding roll calc_chance
roll-freed rand b good w = ground arith
roll-freed rand b bad w = ground arith

visit-Visit :
    (rand : ℕ → ℕ) (b : BurstLoss) (now : Weather) (s : Sweep) (pac : PacketNode)
    → Visit (Handled b) s pac (visit rand b now s pac)
unfolding visit
visit-Visit rand b now s pac =
    Visit-roll (Handled b) (matches b pac) (roll rand b now s.world).0 (roll rand b now s.world).2 s
      pac (roll-freed rand b now s.world) (λ e. e)

sweep-Swept :
    (rand : ℕ → ℕ) (b : BurstLoss) (now : Weather) (s : Sweep) (xs : List PacketNode)
    → Swept (Handled b) s xs (sweep rand b now s xs).1
unfolding sweep
sweep-Swept rand b now s [] = Swept-nil (Handled b) s
sweep-Swept rand b now s (x ∷ xs) =
    Swept-pass (Handled b) s x xs (visit rand b now s x)
      (sweep rand b (next_state rand b now s.world x) (visit rand b now s x) xs).1
      (visit-Visit rand b now s x)
      (sweep-Swept rand b (next_state rand b now s.world x) (visit rand b now s x) xs)

-- Whatever `rand()` returns, a call of `burstlossProcess` parts the packet list in two, keeping the
-- order: the packets left in the list, and the lost ones, all of a handled direction. The lost ones
-- and no others are freed, once each; the counter grows by their number, modulo 2^32; and the call
-- reports that it triggered exactly where some packet was lost.
pub burst_process-Parted :
    (rand : ℕ → ℕ) (b : BurstLoss) (queue : List PacketNode) (w : World)
    → let r = process rand b queue w in
      Parted (Handled b) queue w b.affected r.triggered r.queue r.world r.state.affected
unfolding process
burst_process-Parted rand b queue w =
    Parted-sweep (Handled b) queue w b.affected (sweep rand b b.state (begin w b.affected) queue).1
      (sweep-Swept rand b b.state (begin w b.affected) queue)

pub record Ranges (b : BurstLoss) : Type 0 where
  pub good_range : b.chance_good ≤ 10000
  pub bad_range : b.chance_bad ≤ 10000
  pub gb_range : b.chance_gb ≤ 10000
  pub bg_range : b.chance_bg ≤ 10000

-- Whatever key and text `setParam` gets, four chances of at most 10000 stay ones of at most 10000.
burst_set_param-Ranges :
    (c : Libc) (b : BurstLoss) (key value : String) → Ranges b → Ranges (set_param c b key value).1
unfolding set_param
burst_set_param-Ranges c b key value h =
    ground (arith, clamp_short_range (c.percent value) 0 10000 (omega arith) (omega arith))
