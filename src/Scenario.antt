-- ===== src/Scenario.antt =====
-- scenario.cpp: the steps of a scenario, their order, and what the firing of a step does.
--
-- `Real` stands for the C type double and the few operations on it that are used. `Metrics` is what a tick
-- reads of the counters, at the start of the tick. A text is the list of its bytes. `fireCount` is a number:
-- it grows by one at most every 200 ms. Log lines and reportNoteEvent are left out.
pub mod Tick
pub mod Sorted
pub mod Limits
pub mod Timely
pub mod OnTime
pub mod Wrap
use clumsy.Prelude.{
  ℕ, zero, suc, ◌+◌, ◌-◌, ◌*◌, ◌/◌, ◌%◌, Bool, true, false, ◌&&◌, ◌||◌, not, Option, none, some,
  List, [], ◌∷◌, ◌++◌, reverse, if◌then◌else◌, ltb, leb, ◌==◌, add32, sub32, word, drop, take,
  length,
}
use clumsy.Prelude.Int.{ℤ, pos, negsuc, pos_part, ltb_ℤ}
use clumsy.Utils.{codes, same_codes}
use clumsy.Utils.Apply.{Tunable, apply_module_kv}

pub data Op : Type 0 where
  ge gt le lt eq : Op

pub data Trigger : Type 0 where
  time condition : Trigger

pub record Step (R : Type 0) : Type 0 where
  pub trigger : Trigger
  pub at_sec : ℤ
  pub when_metric : List ℕ
  pub op : Op
  pub value : R
  pub repeat_sec : ℤ
  pub max_times : ℤ
  pub params : List (List ℕ × List ℕ)
  pub fire_count : ℕ
  pub next_fire : ℕ
  pub done : Bool

pub record Real (R : Type 0) : Type 0 where
  pub atof : List ℕ → R
  pub zero_value : R
  pub of_long : ℕ → R
  pub seconds : ℕ → R
  pub per_second : ℕ → ℕ → R
  pub above : R → R → Bool
  pub same : R → R → Bool

pub record Metrics : Type 0 where
  pub captured : ℕ
  pub sent : ℕ
  pub lag_buf : ℕ
  pub jitter_buf : ℕ
  pub bandwidth_buf : ℕ
  pub affected : List (List ℕ × ℕ)

pub record Scenario (R : Type 0) : Type 0 where
  pub steps : List (Step R)
  pub start_ms : ℕ
  pub active : Bool
  pub prev_captured : ℕ
  pub prev_pps_ms : ℕ
  pub last_pps : R

unfoldable pub parse_op : List ℕ → Op
parse_op s =
    if same_codes s (codes ">")
    then gt
    else if same_codes s (codes "<=")
    then le
    else if same_codes s (codes "<")
    then lt
    else if same_codes s (codes "==") || same_codes s (codes "=")
    then eq
    else ge

-- `(unsigned int)step->atSec`
unfoldable pub as_unsigned : ℤ → ℕ
as_unsigned (pos n) = n % word
as_unsigned (negsuc n) = word - 1 - n % word

module _ {R : Type 0} where
  -- By what sortSteps orders the steps.
  unfoldable pub sort_key : Step R → ℤ
  sort_key step = elim step.trigger [ time ↦ step.at_sec | condition ↦ pos 0x7FFFFFFF ]

  -- The inner loop of sortSteps, from the step before the hole on: `before` is steps[j], steps[j - 1], ...
  unfoldable pub slide : Step R → List (Step R) → List (Step R)
  slide tmp [] = tmp ∷ []
  slide tmp (s ∷ before) =
      let rest = slide tmp before in
      if not (ltb_ℤ (sort_key tmp) (sort_key s)) then tmp ∷ s ∷ before else s ∷ rest

  -- The outer loop; `sorted` is what stands before steps[i], the last first.
  unfoldable pub sort_from : List (Step R) → List (Step R) → List (Step R)
  sort_from [] sorted = sorted
  sort_from (tmp ∷ later) sorted = sort_from later (slide tmp sorted)

  unfoldable pub sort_steps : List (Step R) → List (Step R)
  sort_steps steps = reverse (sort_from steps [])

  -- retireStep. `(DWORD)step->repeatSec * 1000` wraps around.
  unfoldable pub retire_step : Step R → ℕ → Step R
  retire_step step now =
      if ltb_ℤ (pos 0) step.repeat_sec
        && (not (ltb_ℤ (pos 0) step.max_times) || ltb_ℤ (pos step.fire_count) step.max_times)
      then record step { next_fire = add32 now (pos_part step.repeat_sec * 1000 % word) }
      else record step { done = true }

module _ {Settings : Type 0} (modules : List (Tunable Settings)) where
  -- The loop of applyStep: a pair that no module knows changes nothing.
  unfoldable pub apply_params : List (List ℕ × List ℕ) → Settings → Settings
  apply_params [] s = s
  apply_params ((k, v) ∷ params) s = elim (apply_module_kv modules k v s) [
    | some s' ↦ apply_params params s'
    | none ↦ apply_params params s
  ]
