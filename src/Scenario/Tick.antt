-- ===== src/Scenario/Tick.antt =====
-- scenario.cpp: scenarioStart, scenarioTick and scenarioStop.
--
-- A step fires if it is due: the loop of the tick looks at each step that is not done, in order.
use clumsy.Prelude.{
  ℕ, ◌+◌, ◌/◌, Bool, true, false, ◌||◌, not, List, [], ◌∷◌, if◌then◌else◌, leb, ◌==◌, sub32, drop,
  take, length,
}
use clumsy.Utils.{codes, same_codes}
use clumsy.Utils.Apply.{Tunable}
use clumsy.Scenario.{
  Op, ge, gt, le, lt, eq, time, condition, Step, Real, Metrics, Scenario, retire_step, as_unsigned,
  apply_params,
}

module _ {R : Type 0} where
  unfoldable pub armed : List (Step R) → List (Step R)
  armed [] = []
  armed (step ∷ steps) = record step { fire_count = 0; done = false; next_fire = 0 } ∷ armed steps

  unfoldable pub scenario_stop : Scenario R → Scenario R
  scenario_stop sc = record sc { active = false }

module _ {R : Type 0} (real : Real R) where
  unfoldable pub compare_op : R → Op → R → Bool
  compare_op lhs gt rhs = real.above lhs rhs
  compare_op lhs le rhs = real.above rhs lhs || real.same lhs rhs
  compare_op lhs lt rhs = real.above rhs lhs
  compare_op lhs eq rhs = real.same lhs rhs
  compare_op lhs ge rhs = real.above lhs rhs || real.same lhs rhs

  unfoldable pub affected_of : List (List ℕ × ℕ) → List ℕ → R
  affected_of [] name = real.zero_value
  affected_of ((m, n) ∷ ms) name =
      let rest = affected_of ms name in if same_codes m name then real.of_long n else rest

  unfoldable pub read_metric : Metrics → R → ℕ → List ℕ → R
  unfolding affected_of
  read_metric metrics last_pps elapsed name =
      if same_codes name (codes "captured_count")
      then real.of_long metrics.captured
      else if same_codes name (codes "sent_count")
      then real.of_long metrics.sent
      else if same_codes name (codes "elapsed_sec")
      then real.seconds elapsed
      else if same_codes name (codes "pps")
      then last_pps
      else if same_codes name (codes "lag_buf")
      then real.of_long metrics.lag_buf
      else if same_codes name (codes "jitter_buf")
      then real.of_long metrics.jitter_buf
      else if same_codes name (codes "bandwidth_buf")
      then real.of_long metrics.bandwidth_buf
      else if same_codes (take 9 name) (codes "affected:")
      then affected_of metrics.affected (drop 9 name)
      else real.zero_value

  -- Whether a step that is not done fires. `next_fire` 0 marks a step that has not fired yet.
  unfoldable pub due : Metrics → R → ℕ → ℕ → Step R → Bool
  due metrics last_pps now elapsed step =
      if not (step.next_fire == 0) then leb step.next_fire now else elim step.trigger [
        | time ↦ leb (as_unsigned step.at_sec) (elapsed / 1000)
        | condition ↦
            compare_op (read_metric metrics last_pps elapsed step.when_metric) step.op step.value
      ]

  -- The pps metric, refreshed once a second.
  unfoldable pub refresh : Metrics → ℕ → Scenario R → Scenario R
  refresh metrics now sc =
      if leb 1000 (sub32 now sc.prev_pps_ms)
      then record sc {
        last_pps =
            real.per_second (sub32 metrics.captured sc.prev_captured) (sub32 now sc.prev_pps_ms);
        prev_captured = metrics.captured;
        prev_pps_ms = now;
      }
      else sc

  module _ {Settings : Type 0} (modules : List (Tunable Settings)) where
    -- A turn of the loop of scenarioTick.
    unfoldable pub tick_step : Metrics → R → ℕ → ℕ → Step R → Settings → Step R × Settings
    tick_step metrics last_pps now elapsed step s =
        if step.done
        then (step, s)
        else if due metrics last_pps now elapsed step
        then (
          retire_step (record step { fire_count = step.fire_count + 1 }) now,
          apply_params modules step.params s,
        )
        else (step, s)

    -- The loop, with `remaining`: how many steps are not done.
    unfoldable pub tick_steps :
        Metrics → R → ℕ → ℕ → List (Step R) → Settings → List (Step R) × ℕ × Settings
    tick_steps metrics last_pps now elapsed [] s = ([], 0, s)
    tick_steps metrics last_pps now elapsed (step ∷ steps) s =
        let (step', s1) = tick_step metrics last_pps now elapsed step s in
        let (steps', remaining, s2) = tick_steps metrics last_pps now elapsed steps s1 in
        (step' ∷ steps', (if step'.done then remaining else remaining + 1), s2)

    unfoldable pub tick_active : Metrics → ℕ → Scenario R → Settings → Scenario R × Settings
    tick_active metrics now sc0 s =
        let sc = refresh metrics now sc0 in
        let (steps', remaining, s') =
          tick_steps metrics sc.last_pps now (sub32 now sc.start_ms) sc.steps s in
        (record sc { steps = steps'; active = not (remaining == 0) }, s')

    unfoldable pub scenario_tick : Metrics → ℕ → Scenario R → Settings → Scenario R × Settings
    scenario_tick metrics now sc s =
        if not sc.active || length sc.steps == 0 then (sc, s) else tick_active metrics now sc s

  unfoldable pub scenario_start : Metrics → ℕ → Scenario R → Scenario R
  unfolding armed
  scenario_start metrics now sc = if length sc.steps == 0 then sc else record sc {
    start_ms = now;
    active = true;
    prev_captured = metrics.captured;
    prev_pps_ms = now;
    last_pps = real.zero_value;
    steps = armed sc.steps;
  }
