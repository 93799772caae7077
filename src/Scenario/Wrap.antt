-- ===== src/Scenario/Wrap.antt =====
-- scenario.cpp: a repeating step just before the tick counter wraps around.
use clumsy.Prelude.{
  either_way, le→leb, List, [], ◌∷◌, ap, ◌∙◌, length, ℕ, ◌+◌, ◌*◌, ◌/◌, ◌%◌, ◌≤◌, ◌<◌, ◌≡◌, refl,
  true, false, arith, leb, word, add32,
}
use clumsy.Prelude.Int.{pos}
use clumsy.Utils.Apply.{Tunable}
use clumsy.Scenario.{Step, Real, Metrics, time, retire_step, as_unsigned, apply_params}
use clumsy.Scenario.Tick.{due, tick_step}

early_lem :
    (from now r : ℕ)
    → r * 1000 < word
    → word ≤ from + r * 1000
    → from ≤ now
    → now < word
    → add32 now (r * 1000 % word) ≤ now
unfolding add32
early_lem from now r fits wraps later here = omega arith

-- What a tick finds: the clock, the time since the start, and the metrics.
pub record Tick (R : Type 0) : Type 0 where
  pub now : ℕ
  pub elapsed : ℕ
  pub metrics : Metrics
  pub last_pps : R

-- Ticks in the order of the clock, from a time on and before the wrap, none of them before second `n`.
abbrev pub InOrder : {R : Type 0} → ℕ → ℕ → List (Tick R) → Type 0
InOrder n from [] = Unit {0}
InOrder n from (t ∷ ticks) =
    (from ≤ t.now) × (t.now < word) × (n ≤ t.elapsed / 1000) × InOrder n t.now ticks

module _ {R : Type 0} (real : Real R) where
  due-early :
      (metrics : Metrics) (last_pps : R) (now' elapsed : ℕ) (step : Step R) (n : ℕ)
      → step.trigger ≡ time
      → step.at_sec ≡ pos n
      → n < word
      → n ≤ elapsed / 1000
      → leb step.next_fire now' ≡ true
      → due real metrics last_pps now' elapsed step ≡ true
  unfolding due as_unsigned
  due-early metrics last_pps now' elapsed step n t a small past early = ground arith

module _ {R : Type 0} (real : Real R) {Settings : Type 0} (modules : List (Tunable Settings)) where
  forever_fired :
      (step : Step R) (now r : ℕ)
      → step.repeat_sec ≡ pos r
      → 0 < r
      → step.max_times ≡ pos 0
      → retire_step step now ≡ record step { next_fire = add32 now (r * 1000 % word) }
  unfolding retire_step
  forever_fired step now r e some max = ground arith

  fires :
      (metrics : Metrics) (last_pps : R) (now elapsed : ℕ) (step : Step R) (s : Settings)
      → step.done ≡ false
      → due real metrics last_pps now elapsed step ≡ true
      → (tick_step real modules metrics last_pps now elapsed step s).0
        ≡ retire_step (record step { fire_count = step.fire_count + 1 }) now
  unfolding tick_step
  fires metrics last_pps now elapsed step s still d =
      let fired = retire_step (record step { fire_count = step.fire_count + 1 }) now in
      let P : Step R × Settings → Type 0 = λ x. x.0 ≡ fired in
      either_way P step.done (step, s) _ (λ e. cc)
        (λ _.
          either_way P (due real metrics last_pps now elapsed step)
            (fired, apply_params modules step.params s) (step, s) (λ _. refl) (λ e. cc))

  unfoldable pub tick_all : List (Tick R) → Step R → Settings → Step R × Settings
  tick_all [] step s = (step, s)
  tick_all (t ∷ ticks) step s =
      let (step', s') = tick_step real modules t.metrics t.last_pps t.now t.elapsed step s in
      tick_all ticks step' s'

  -- What does not change while the step repeats.
  pub record Repeats (n r : ℕ) (step : Step R) : Type 0 where
    pub timed : step.trigger ≡ time
    pub at : step.at_sec ≡ pos n
    pub still : step.done ≡ false
    pub forever : step.max_times ≡ pos 0
    pub again : step.repeat_sec ≡ pos r

  fired_once :
      (n r from : ℕ) (t : Tick R) (step : Step R) (s : Settings)
      → Repeats n r step
      → n < word
      → 0 < r
      → step.next_fire ≤ from
      → from ≤ t.now
      → n ≤ t.elapsed / 1000
      → (tick_step real modules t.metrics t.last_pps t.now t.elapsed step s).0 ≡ record step {
        fire_count = step.fire_count + 1;
        next_fire = add32 t.now (r * 1000 % word);
      }
  fired_once n r from t step s rep small some armed later past =
      fires t.metrics t.last_pps t.now t.elapsed step s rep.still (
        due-early real t.metrics t.last_pps t.now t.elapsed step n rep.timed rep.at small past
          (le→leb step.next_fire t.now (omega arith)))
      ∙ forever_fired (record step { fire_count = step.fire_count + 1 }) t.now r rep.again some
          rep.forever

  -- A step with a time that repeats for ever, less than its interval before the 32-bit clock wraps around, and
  -- that is to fire by then, for the first time or again: it fires at every tick before the wrap, however
  -- many there are and however soon they come.
  pub fires_again :
      (n r from : ℕ) (ticks : List (Tick R)) (step : Step R) (s : Settings)
      → Repeats n r step
      → n < word
      → 0 < r
      → r * 1000 < word
      → word ≤ from + r * 1000
      → step.next_fire ≤ from
      → InOrder n from ticks
      → (tick_all ticks step s).0.fire_count ≡ step.fire_count + length ticks
  unfolding tick_all
  fires_again n r from [] step s rep small some fits wraps armed order = omega arith
  fires_again n r from (t ∷ ticks) step s rep small some fits wraps armed
        (later, here, past, order) =
      let fired : Step R = record step {
        fire_count = step.fire_count + 1;
        next_fire = add32 t.now (r * 1000 % word);
      } in
      let s' = (tick_step real modules t.metrics t.last_pps t.now t.elapsed step s).1 in
      ap (λ (x : Step R). (tick_all ticks x s').0.fire_count)
        (fired_once n r from t step s rep small some armed later past)
      ∙ fires_again n r t.now ticks fired s'
          (record {
            timed = rep.timed;
            at = rep.at;
            still = rep.still;
            forever = rep.forever;
            again = rep.again;
          })
          small some fits (omega arith) (early_lem from t.now r fits wraps later here) order
      ∙ omega arith
