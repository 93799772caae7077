-- ===== src/Examples/Scenarios.antt =====
-- A scenario on which the theorems about scenario.cpp are tried out. Numbers stand for doubles.
use clumsy.Prelude.{
  add32, sub32, ℕ, ◌*◌, ◌/◌, ◌≡◌, refl, Bool, true, false, some, List, [], ◌∷◌, ◌==◌, ltb, arith,
  map, select,
}
use clumsy.Prelude.Int.{ℤ, pos}
use clumsy.Utils.{codes}
use clumsy.Utils.Apply.{Tunable}
use clumsy.Scenario.{
  ge, time, condition, Step, Real, Metrics, Scenario, sort_steps, retire_step, as_unsigned,
}
use clumsy.Scenario.Tick.{
  due, tick_step, tick_steps, tick_active, refresh, compare_op, read_metric, scenario_tick,
  scenario_start, armed,
}
use clumsy.Scenario.Sorted.{ascends, comes_at, sort_steps-IsStable}
use clumsy.Scenario.Limits.{All, Running, run, scenario_run-Running}
use clumsy.Scenario.Timely.{reached, by_clock, Timely}
use clumsy.Scenario.OnTime.{scenario_run-Timely}
use clumsy.Scenario.Wrap.{Tick, tick_all, fires_again}

abbrev real : Real ℕ
real = record {
  atof = λ s. 0;
  zero_value = 0;
  of_long = λ n. n;
  seconds = λ ms. ms / 1000;
  per_second = λ n ms. n * 1000 / ms;
  above = λ a b. ltb b a;
  same = λ a b. a == b;
}

-- One module, `lag`, whose settings are a flag and what was last set.
abbrev Settings : Type 0
Settings = Bool × List ℕ

abbrev modules : List (Tunable Settings)
modules =
    record {
      short_name = codes "lag";
      set_enabled = λ on s. (on, s.1);
      set_param = some (λ key value s. some (s.0, value));
    }
    ∷ []

abbrev metrics : Metrics
metrics = record {
  captured = 7;
  sent = 0;
  lag_buf = 0;
  jitter_buf = 0;
  bandwidth_buf = 0;
  affected = [];
}

abbrev at_second : ℕ → ℤ → ℤ → Step ℕ
at_second n again times = record {
  trigger = time;
  at_sec = pos n;
  when_metric = [];
  op = ge;
  value = 0;
  repeat_sec = again;
  max_times = times;
  params = (codes "lag", codes "true") ∷ [];
  fire_count = 0;
  next_fire = 0;
  done = false;
}

abbrev when_captured : ℕ → Step ℕ
when_captured n = record (at_second 0 (pos 0) (pos 0)) {
  trigger = condition;
  when_metric = codes "captured_count";
  value = n;
}

abbrev steps : List (Step ℕ)
steps = when_captured 5 ∷ at_second 10 (pos 2) (pos 3) ∷ at_second 2 (pos 0) (pos 0) ∷ []

abbrev scenario : Scenario ℕ
scenario = record {
  steps = steps;
  start_ms = 0;
  active = false;
  prev_captured = 0;
  prev_pps_ms = 0;
  last_pps = 0;
}

-- Three seconds and eleven seconds after the start.
abbrev ticks : List (Metrics × ℕ)
ticks = (metrics, 3000) ∷ (metrics, 11000) ∷ []

sort_steps-IsStable_example :
    (ascends (sort_steps steps) ≡ true)
    × ((k : ℤ) → select (comes_at k) (sort_steps steps) ≡ select (comes_at k) steps)
sort_steps-IsStable_example = sort_steps-IsStable steps

abbrev tick_at : ℕ → Tick ℕ
tick_at now = record { now = now; elapsed = 5000; metrics = metrics; last_pps = 0 }

abbrev close_ticks : List (Tick ℕ)
close_ticks = tick_at 4294967000 ∷ tick_at 4294967100 ∷ tick_at 4294967290 ∷ []

scenario_run-Running_example :
    Running real modules
      (run real modules
        (by_clock 500 ticks)
        (scenario_start real metrics 500 scenario)
        (false, [])).0
scenario_run-Running_example =
    scenario_run-Running real modules metrics 500 (by_clock 500 ticks) scenario (false, [])
      (omega arith)

scenario_run-Timely_example :
    All
      (Timely (reached ticks))
      (run real modules
        (by_clock 4294967000 ticks)
        (scenario_start real metrics 4294967000 scenario)
        (false, [])).0.steps
scenario_run-Timely_example =
    scenario_run-Timely real modules metrics 4294967000 ticks scenario (false, []) (omega arith)
      (omega arith) (omega arith)

-- A step every 30 s fires three times within 400 ms.
fires_again_example :
    (tick_all real modules close_ticks (at_second 0 (pos 30) (pos 0)) (false, [])).0.fire_count ≡ 3
fires_again_example =
    fires_again real modules 0 30 4294967000 close_ticks (at_second 0 (pos 30) (pos 0)) (false, [])
      (record { timed = refl; at = refl; still = refl; forever = refl; again = refl }) (omega arith)
      (omega arith) (omega arith) (omega arith) (omega arith)
      (
        omega arith,
        omega arith,
        omega arith,
        (omega arith, omega arith, omega arith, (omega arith, omega arith, omega arith, tt)),
      )

-- The second tick comes in the eleventh second: the step at second 10 fires for the first time.
fire_counts :
    map
      (λ (s : Step ℕ). s.fire_count)
      (run real modules
        (by_clock 500 ticks)
        (scenario_start real metrics 500 scenario)
        (false, [])).0.steps
    ≡ 1 ∷ 1 ∷ 1 ∷ []
unfolding run scenario_start scenario_tick tick_active tick_steps tick_step due refresh armed
    retire_step as_unsigned compare_op read_metric add32 sub32
fire_counts = refl
