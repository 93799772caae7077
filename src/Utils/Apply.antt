-- ===== src/Utils/Apply.antt =====
-- utils.cpp: applyModuleKV, and parseBoolValue on texts that are lists of bytes.
--
-- `Settings` is what all modules store. Of the table `modules` an entry gives the name, the writing of
-- `enabledFlag`, and `setParam` (some entries have none), which says whether it knows the key.
use clumsy.Prelude.{ℕ, Bool, ◌||◌, Option, none, some, List, [], ◌∷◌, map, if◌then◌else◌}
use clumsy.Utils.{codes, lower, same_codes}

pub record Tunable (Settings : Type 0) : Type 0 where
  pub short_name : List ℕ
  pub set_enabled : Bool → Settings → Settings
  pub set_param : Option (List ℕ → List ℕ → Settings → Option Settings)

unfoldable pub bool_of_bytes : List ℕ → Bool
bool_of_bytes value =
    same_codes value (codes "true")
    || same_codes value (codes "1")
    || same_codes (map lower value) (codes "on")
    || same_codes (map lower value) (codes "yes")

module _ {Settings : Type 0} where
  -- The first loop: the module whose name is the key.
  unfoldable pub named : List (Tunable Settings) → List ℕ → Option (Tunable Settings)
  named [] key = none
  named (m ∷ ms) key =
      let rest = named ms key in if same_codes m.short_name key then some m else rest

  unfoldable pub try_param : Tunable Settings → List ℕ → List ℕ → Settings → Option Settings
  try_param m key value s = elim m.set_param [ none ↦ none | some set ↦ set key value s ]

  -- The second loop: the first module that knows the key.
  unfoldable pub owner_sets : List (Tunable Settings) → List ℕ → List ℕ → Settings → Option Settings
  unfolding try_param
  owner_sets [] key value s = none
  owner_sets (m ∷ ms) key value s = elim (try_param m key value s) [
    | some s' ↦ some s'
    | none ↦ owner_sets ms key value s
  ]

  -- `none` is the result 0.
  unfoldable pub apply_module_kv :
      List (Tunable Settings) → List ℕ → List ℕ → Settings → Option Settings
  unfolding named owner_sets
  apply_module_kv modules key value s = elim (named modules key) [
    | some m ↦ some (m.set_enabled (bool_of_bytes value) s)
    | none ↦ owner_sets modules key value s
  ]
