-- ===== src/Scenario/Timely.antt =====
-- scenario.cpp: when the steps with a time fire for the first time.
use clumsy.Prelude.{
  ℕ, ◌+◌, ◌/◌, ◌%◌, ◌<◌, ◌≡◌, refl, sym, ◌∙◌, Bool, true, false, ◌||◌, List, [], ◌∷◌, arith, leb,
  sub32, word, either_way,
}
use clumsy.Prelude.Int.{pos}
use clumsy.Utils.Apply.{Tunable}
use clumsy.Scenario.{Step, Real, Metrics, Scenario, time, retire_step, apply_params, as_unsigned}
use clumsy.Scenario.Tick.{due, refresh, tick_step, tick_steps}
use clumsy.Scenario.Limits.{All, Counted}

-- Whether a second was reached by a tick; the ticks say how many milliseconds after the start they came.
abbrev pub reached : List (Metrics × ℕ) → ℕ → Bool
reached [] n = false
reached ((metrics, t) ∷ ticks) n = leb n (t / 1000) || reached ticks n

-- The ticks by the clock, for a start at this time.
abbrev pub by_clock : ℕ → List (Metrics × ℕ) → List (Metrics × ℕ)
by_clock start [] = []
by_clock start ((metrics, t) ∷ ticks) = (metrics, (start + t) % word) ∷ by_clock start ticks

abbrev pub InReach : List (Metrics × ℕ) → Type 0
InReach [] = Unit {0}
InReach ((metrics, t) ∷ ticks) = (t < word) × InReach ticks

abbrev pub later : (ℕ → Bool) → ℕ → ℕ → Bool
later past elapsed n = past n || leb n (elapsed / 1000)

module _ {R : Type 0} where
  -- A step with a time has fired if its second was reached, and is untouched if not.
  abbrev pub Timely : (ℕ → Bool) → Step R → Type 0
  Timely past step =
      (n : ℕ)
      → step.trigger ≡ time
      → step.at_sec ≡ pos n
      → n < word
      → (past n ≡ true → 0 < step.fire_count)
        × (past n ≡ false → (step.fire_count ≡ 0) × (step.next_fire ≡ 0))

  pub done-Timely :
      (past : ℕ → Bool) (elapsed : ℕ) (step : Step R)
      → Counted step
      → step.done ≡ true
      → Timely past step
      → Timely (later past elapsed) step
  done-Timely past elapsed step c spent h n trigger at small = ground (arith, h n trigger at small)

  retire_step-keeps :
      (step : Step R) (now : ℕ)
      → ((retire_step step now).trigger ≡ step.trigger)
        × ((retire_step step now).at_sec ≡ step.at_sec)
        × ((retire_step step now).fire_count ≡ step.fire_count)
  unfolding retire_step
  retire_step-keeps step now = ground arith

  -- A step that fires for the first time has reached its second.
  fired-Timely :
      (past : ℕ → Bool) (elapsed now : ℕ) (step : Step R)
      → ((n : ℕ)
          → step.trigger ≡ time
          → step.at_sec ≡ pos n
          → n < word
          → step.next_fire ≡ 0
          → leb n (elapsed / 1000) ≡ true)
      → Timely past step
      → Timely
          (later past elapsed)
          (retire_step (record step { fire_count = step.fire_count + 1 }) now)
  fired-Timely past elapsed now step d h n trigger at small =
      let once_more : Step R = record step { fire_count = step.fire_count + 1 } in
      let (same_trigger, same_at, same_count) = retire_step-keeps once_more now in
      let trigger' : step.trigger ≡ time = sym same_trigger ∙ trigger in
      let at' : step.at_sec ≡ pos n = sym same_at ∙ at in
      let (hit, miss) = h n trigger' at' small in
      (
        λ e. omega (arith, same_count),
        λ e.
            absurd
              (late (past n) (leb n (elapsed / 1000)) e (λ p. d n trigger' at' small (miss p).1)),
      )
    where
      late : (a b : Bool) → (a || b) ≡ false → (a ≡ false → b ≡ true) → ⊥
      late true b e f = cc
      late false true e f = cc
      late false false e f = cc (f refl)

  waiting-Timely :
      (past : ℕ → Bool) (elapsed : ℕ) (step : Step R)
      → ((n : ℕ)
          → step.trigger ≡ time
          → step.at_sec ≡ pos n
          → n < word
          → step.next_fire ≡ 0
          → leb n (elapsed / 1000) ≡ false)
      → Timely past step
      → Timely (later past elapsed) step
  waiting-Timely past elapsed step d h n trigger at small =
      ground (arith, h n trigger at small, d n trigger at small)

pub elapsed_since : (start t : ℕ) → start < word → t < word → sub32 ((start + t) % word) start ≡ t
unfolding sub32
elapsed_since start t a b = omega arith

module _ {R : Type 0} (real : Real R) where
  pub refresh-start :
      (metrics : Metrics) (now : ℕ) (sc : Scenario R)
      → (refresh real metrics now sc).start_ms ≡ sc.start_ms
  unfolding refresh
  refresh-start metrics now sc = ground arith

  -- Before its first firing, a step with a time is due from its second on.
  due-time :
      (metrics : Metrics) (last_pps : R) (now elapsed : ℕ) (step : Step R) (n : ℕ)
      → step.trigger ≡ time
      → step.at_sec ≡ pos n
      → n < word
      → step.next_fire ≡ 0
      → due real metrics last_pps now elapsed step ≡ leb n (elapsed / 1000)
  unfolding due as_unsigned
  due-time metrics last_pps now elapsed step n trigger at small fresh = ground arith

module _ {R : Type 0} (real : Real R) {Settings : Type 0} (modules : List (Tunable Settings)) where
  tick_step-Timely :
      (metrics : Metrics) (last_pps : R) (now elapsed : ℕ) (past : ℕ → Bool) (step : Step R)
      (s : Settings)
      → Counted step
      → Timely past step
      → Timely (later past elapsed) (tick_step real modules metrics last_pps now elapsed step s).0
  unfolding tick_step
  tick_step-Timely metrics last_pps now elapsed past step s c h =
      let fired = retire_step (record step { fire_count = step.fire_count + 1 }) now in
      let P : Step R × Settings → Type 0 = λ r. Timely (later past elapsed) r.0 in
      let at_second = due-time real metrics last_pps now elapsed step in
      either_way P step.done (step, s) _ (λ spent. done-Timely past elapsed step c spent h)
        (λ _.
          either_way P (due real metrics last_pps now elapsed step)
            (fired, apply_params modules step.params s) (step, s)
            (λ e. fired-Timely past elapsed now step (λ n t a m f. sym (at_second n t a m f) ∙ e) h)
            (λ e. waiting-Timely past elapsed step (λ n t a m f. sym (at_second n t a m f) ∙ e) h))

  pub tick_steps-Timely :
      (metrics : Metrics) (last_pps : R) (now elapsed : ℕ) (past : ℕ → Bool) (steps : List (Step R))
      (s : Settings)
      → All Counted steps
      → All (Timely past) steps
      → All
          (Timely (later past elapsed))
          (tick_steps real modules metrics last_pps now elapsed steps s).0
  unfolding tick_steps
  tick_steps-Timely metrics last_pps now elapsed past [] s c h = tt
  tick_steps-Timely metrics last_pps now elapsed past (step ∷ steps) s (c, cs) (h, hs) = (
    tick_step-Timely metrics last_pps now elapsed past step s c h,
    tick_steps-Timely metrics last_pps now elapsed past steps
        (tick_step real modules metrics last_pps now elapsed step s).1 cs hs,
  )
