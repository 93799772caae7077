-- ===== src/Scenario/Limits.antt =====
-- scenario.cpp: how often the steps of a scenario fire over any run of ticks, and when the scenario ends.
use clumsy.Prelude.{
  ℕ, suc, ◌+◌, ◌≤◌, ◌<◌, ◌≡◌, refl, Bool, true, false, ◌&&◌, ◌||◌, not, ap, either_way, Option,
  none, some, List, [], ◌∷◌, arith, if◌then◌else◌, length, Bool-cases, inl, inr, ◌==◌, sub32,
}
use clumsy.Prelude.Int.{pos, pos_part, ltb_ℤ}
use clumsy.Utils.Apply.{Tunable}
use clumsy.Scenario.{Step, Real, Metrics, Scenario, retire_step, apply_params}
use clumsy.Scenario.Tick.{
  due, refresh, tick_step, tick_steps, tick_active, scenario_tick, armed, scenario_start,
}

-- A step is done exactly when it has fired as often as it may, and has not fired more often.
abbrev pub KeptTo : Option ℕ → ℕ → Bool → Type 0
KeptTo none count done = done ≡ false
KeptTo (some n) count done =
    (0 < n) × (count ≤ n) × (done ≡ true → count ≡ n) × (count ≡ n → done ≡ true)

module _ {R : Type 0} where
  -- How often a step may fire: once, `times` times, or without a limit.
  abbrev pub allowance : Step R → Option ℕ
  allowance step =
      if not (ltb_ℤ (pos 0) step.repeat_sec)
      then some 1
      else if not (ltb_ℤ (pos 0) step.max_times)
      then none
      else some (pos_part step.max_times)

  abbrev pub Counted : Step R → Type 0
  Counted step = KeptTo (allowance step) step.fire_count step.done

  abbrev pub All : (Step R → Type 0) → List (Step R) → Type 0
  All P [] = Unit {0}
  All P (s ∷ steps) = P s × All P steps

  abbrev pub all_done : List (Step R) → Bool
  all_done [] = true
  all_done (s ∷ steps) = s.done && all_done steps

  armed-Counted : (steps : List (Step R)) → All Counted (armed steps)
  unfolding armed
  armed-Counted [] = tt
  armed-Counted (s ∷ steps) = (ground arith, armed-Counted steps)

  length-armed : (steps : List (Step R)) → length (armed steps) ≡ length steps
  unfolding armed
  length-armed [] = refl
  length-armed (s ∷ steps) = ap suc (length-armed steps)

  armed-open : (steps : List (Step R)) → 0 < length steps → all_done (armed steps) ≡ false
  unfolding armed
  armed-open [] h = elim h [ ]
  armed-open (s ∷ steps) h = refl

  fired-Counted :
      (step : Step R) (now : ℕ)
      → Counted step
      → step.done ≡ false
      → Counted (retire_step (record step { fire_count = step.fire_count + 1 }) now)
  unfolding retire_step
  fired-Counted step now c open_still = ground arith

count_open :
    (done : Bool) (n : ℕ) (b : Bool)
    → (n == 0) ≡ b
    → ((if done then n else n + 1) == 0) ≡ (done && b)
count_open true n b h = h
count_open false n b h = ground arith

module _ {R : Type 0} (real : Real R) {Settings : Type 0} (modules : List (Tunable Settings)) where
  -- Ticks one after another: what the counters said, and the time.
  unfoldable pub run : List (Metrics × ℕ) → Scenario R → Settings → Scenario R × Settings
  run [] sc s = (sc, s)
  run ((metrics, now) ∷ ticks) sc s =
      let (sc', s') = scenario_tick real modules metrics now sc s in run ticks sc' s'

  tick_step-Counted :
      (metrics : Metrics) (last_pps : R) (now elapsed : ℕ) (step : Step R) (s : Settings)
      → Counted step
      → Counted (tick_step real modules metrics last_pps now elapsed step s).0
  unfolding tick_step
  tick_step-Counted metrics last_pps now elapsed step s c =
      let fired = retire_step (record step { fire_count = step.fire_count + 1 }) now in
      let P : Step R × Settings → Type 0 = λ r. Counted r.0 in
      either_way P step.done (step, s) _ (λ _. c)
        (λ open_still.
          either_way P (due real metrics last_pps now elapsed step)
            (fired, apply_params modules step.params s) (step, s)
            (λ _. fired-Counted step now c open_still) (λ _. c))

  tick_steps-Counted :
      (metrics : Metrics) (last_pps : R) (now elapsed : ℕ) (steps : List (Step R)) (s : Settings)
      → All Counted steps
      → let r = tick_steps real modules metrics last_pps now elapsed steps s in
        All Counted r.0 × ((r.1 == 0) ≡ all_done r.0)
  unfolding tick_steps
  tick_steps-Counted metrics last_pps now elapsed [] s c = (tt, refl)
  tick_steps-Counted metrics last_pps now elapsed (step ∷ steps) s (c, cs) =
      let (step', s1) = tick_step real modules metrics last_pps now elapsed step s in
      let (later, counted) = tick_steps-Counted metrics last_pps now elapsed steps s1 cs in
      (
        (tick_step-Counted metrics last_pps now elapsed step s c, later),
        count_open step'.done _ _ counted,
      )

  -- Between two ticks.
  pub record Running (sc : Scenario R) : Type 0 where
    pub loaded : 0 < length sc.steps
    pub counted : All Counted sc.steps
    pub ends : sc.active ≡ not (all_done sc.steps)

  length-tick_steps :
      (metrics : Metrics) (last_pps : R) (now elapsed : ℕ) (steps : List (Step R)) (s : Settings)
      → length (tick_steps real modules metrics last_pps now elapsed steps s).0 ≡ length steps
  unfolding tick_steps
  length-tick_steps metrics last_pps now elapsed [] s = refl
  length-tick_steps metrics last_pps now elapsed (step ∷ steps) s = ap suc (
      length-tick_steps metrics last_pps now elapsed steps
        (tick_step real modules metrics last_pps now elapsed step s).1)

  pub refresh-steps :
      (metrics : Metrics) (now : ℕ) (sc : Scenario R)
      → (refresh real metrics now sc).steps ≡ sc.steps
  unfolding refresh
  refresh-steps metrics now sc = ground arith

  tick_active-Running :
      (metrics : Metrics) (now : ℕ) (sc : Scenario R) (s : Settings)
      → Running sc
      → Running (tick_active real modules metrics now sc s).0
  unfolding tick_active
  tick_active-Running metrics now sc s r =
      let fresh = refresh real metrics now sc in
      let kept = refresh-steps metrics now sc in
      let elapsed = sub32 now fresh.start_ms in
      let (counted, left) =
        tick_steps-Counted metrics fresh.last_pps now elapsed fresh.steps s (rw kept r.counted) in
      record {
        loaded =
            rw (length-tick_steps metrics fresh.last_pps now elapsed fresh.steps s)
              (rw kept r.loaded);
        counted = counted;
        ends = ap not left;
      }

  pub scenario_tick-Running :
      (metrics : Metrics) (now : ℕ) (sc : Scenario R) (s : Settings)
      → Running sc
      → Running (scenario_tick real modules metrics now sc s).0
  unfolding scenario_tick
  scenario_tick-Running metrics now sc s r =
      elim (Bool-cases (not sc.active || length sc.steps == 0)) [
        | inl idle ↦ rw idle r
        | inr busy ↦ rw busy (tick_active-Running metrics now sc s r)
      ]

  run-Running :
      (ticks : List (Metrics × ℕ)) (sc : Scenario R) (s : Settings)
      → Running sc
      → Running (run ticks sc s).0
  unfolding run
  run-Running [] sc s r = r
  run-Running ((metrics, now) ∷ ticks) sc s r =
      run-Running ticks (scenario_tick real modules metrics now sc s).0
        (scenario_tick real modules metrics now sc s).1 (scenario_tick-Running metrics now sc s r)

  pub start-Running :
      (metrics : Metrics) (now : ℕ) (sc : Scenario R)
      → 0 < length sc.steps
      → Running (scenario_start real metrics now sc)
  unfolding scenario_start
  start-Running metrics now sc h =
      let some_steps : (length sc.steps == 0) ≡ false = ground arith in
      rw some_steps (record {
        loaded = rw (length-armed sc.steps) h;
        counted = armed-Counted sc.steps;
        ends = rw (armed-open sc.steps h) refl;
      })

  -- After scenarioStart on a scenario with steps, and any ticks: each step is done exactly when it has fired as
  -- often as it may, which is once, or `times` times if it repeats, and has fired no more often than that;
  -- and the scenario is active exactly as long as a step is not done.
  pub scenario_run-Running :
      (first : Metrics) (now : ℕ) (ticks : List (Metrics × ℕ)) (sc : Scenario R) (s : Settings)
      → 0 < length sc.steps
      → Running (run ticks (scenario_start real first now sc) s).0
  scenario_run-Running first now ticks sc s h =
      run-Running ticks (scenario_start real first now sc) s (start-Running first now sc h)
