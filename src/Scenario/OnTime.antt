-- ===== src/Scenario/OnTime.antt =====
-- scenario.cpp: over any run of ticks, a step with a time fires for the first time when it should.
use mathlib.Core.Path.{fun_ext}
use clumsy.Prelude.{
  both_true, or_false, or_assoc, subst, ℕ, ◌+◌, ◌/◌, ◌%◌, ◌<◌, ◌≡◌, refl, ◌∙◌, Bool, true, false,
  ◌||◌, not, List, [], ◌∷◌, arith, length, ◌==◌, leb, sub32, word, either_way,
}
use clumsy.Utils.Apply.{Tunable}
use clumsy.Scenario.{Step, Real, Metrics, Scenario}
use clumsy.Scenario.Tick.{refresh, tick_active, scenario_tick, armed, scenario_start}
use clumsy.Scenario.Limits.{
  All, Counted, all_done, run, Running, refresh-steps, start-Running, scenario_tick-Running,
}
use clumsy.Scenario.Timely.{
  reached, by_clock, InReach, Timely, later, done-Timely, refresh-start, tick_steps-Timely,
  elapsed_since,
}

module _ {R : Type 0} (real : Real R) {Settings : Type 0} (modules : List (Tunable Settings)) where
  spent-Timely :
      (past : ℕ → Bool) (elapsed : ℕ) (steps : List (Step R))
      → all_done steps ≡ true
      → All Counted steps
      → All (Timely past) steps
      → All (Timely (later past elapsed)) steps
  spent-Timely past elapsed [] spent c h = tt
  spent-Timely past elapsed (step ∷ steps) spent (c, cs) (h, hs) =
      let (this, others) = both_true step.done (all_done steps) spent in
      (done-Timely past elapsed step c this h, spent-Timely past elapsed steps others cs hs)

  tick_active-Timely :
      (metrics : Metrics) (now : ℕ) (past : ℕ → Bool) (sc : Scenario R) (s : Settings)
      → All Counted sc.steps
      → All (Timely past) sc.steps
      → All
          (Timely (later past (sub32 now sc.start_ms)))
          (tick_active real modules metrics now sc s).0.steps
  unfolding tick_active
  tick_active-Timely metrics now past sc s c h =
      let fresh = refresh real metrics now sc in
      let same = refresh-steps real modules metrics now sc in
      subst
        (λ (e : ℕ).
          All (Timely (later past (sub32 now e)))
            (tick_active real modules metrics now sc s).0.steps)
        (refresh-start real metrics now sc)
        (tick_steps-Timely real modules metrics fresh.last_pps now (sub32 now fresh.start_ms) past
          fresh.steps s (rw same c) (rw same h))

  scenario_tick-Timely :
      (metrics : Metrics) (now : ℕ) (past : ℕ → Bool) (sc : Scenario R) (s : Settings)
      → Running real modules sc
      → All (Timely past) sc.steps
      → All
          (Timely (later past (sub32 now sc.start_ms)))
          (scenario_tick real modules metrics now sc s).0.steps
  unfolding scenario_tick
  scenario_tick-Timely metrics now past sc s r h =
      let P : Scenario R × Settings → Type 0 =
        λ x. All (Timely (later past (sub32 now sc.start_ms))) x.0.steps in
      either_way P (not sc.active || length sc.steps == 0) (sc, s) _
        (λ idle. spent-Timely past _ sc.steps (ground (arith, r)) r.counted h)
        (λ busy. tick_active-Timely metrics now past sc s r.counted h)

  start-scenario_tick :
      (metrics : Metrics) (now : ℕ) (sc : Scenario R) (s : Settings)
      → (scenario_tick real modules metrics now sc s).0.start_ms ≡ sc.start_ms
  unfolding scenario_tick tick_active
  start-scenario_tick metrics now sc s = ground (arith, refresh-start real metrics now sc)

  run-Timely :
      (ticks : List (Metrics × ℕ)) (start : ℕ) (past : ℕ → Bool) (sc : Scenario R) (s : Settings)
      → InReach ticks
      → start < word
      → sc.start_ms ≡ start
      → Running real modules sc
      → All (Timely past) sc.steps
      → All
          (Timely (λ n. past n || reached ticks n))
          (run real modules (by_clock start ticks) sc s).0.steps
  unfolding run
  run-Timely [] start past sc s near small at r h =
      subst (λ (f : ℕ → Bool). All (Timely f) sc.steps) (fun_ext (λ n. or_false (past n))) h
  run-Timely ((metrics, t) ∷ ticks) start past sc s (near, more) small at r h =
      let now = (start + t) % word in
      let next = scenario_tick real modules metrics now sc s in
      let passed : sub32 now sc.start_ms ≡ t = rw at (elapsed_since start t small near) in
      let again =
        run-Timely ticks start (later past t) next.0 next.1 more small
          (start-scenario_tick metrics now sc s ∙ at)
          (scenario_tick-Running real modules metrics now sc s r)
          (subst (λ (e : ℕ). All (Timely (later past e)) next.0.steps) passed
            (scenario_tick-Timely metrics now past sc s r h)) in
      subst
        (λ (f : ℕ → Bool).
          All (Timely f) (run real modules (by_clock start ticks) next.0 next.1).0.steps)
        (fun_ext (λ n. or_assoc (past n) (leb n (t / 1000)) (reached ticks n))) again

  start-Timely : (sc : List (Step R)) → All (Timely (λ n. false)) (armed sc)
  unfolding armed
  start-Timely [] = tt
  start-Timely (step ∷ steps) =
      ((λ n trigger at small. (λ e. cc, λ e. (refl, refl))), start-Timely steps)

  -- After scenarioStart, and ticks that come less than 2^32 ms after it (the clock may wrap around): a step
  -- with a time has fired if a tick came at or after its second, and has not fired if none did.
  pub scenario_run-Timely :
      (first : Metrics) (start : ℕ) (ticks : List (Metrics × ℕ)) (sc : Scenario R) (s : Settings)
      → 0 < length sc.steps
      → start < word
      → InReach ticks
      → All
          (Timely (reached ticks))
          (run real modules (by_clock start ticks) (scenario_start real first start sc) s).0.steps
  scenario_run-Timely first start ticks sc s some_steps small near =
      let begun = scenario_start real first start sc in
      let e : (length sc.steps == 0) ≡ false = ground arith in
      run-Timely ticks start (λ n. false) begun s near small (unfold scenario_start in rw e refl)
        (start-Running real modules first start sc some_steps)
        (unfold scenario_start in rw e (start-Timely sc.steps))
