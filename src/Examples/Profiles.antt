-- ===== src/Examples/Profiles.antt =====
-- The theorems on profile.cpp, applied to a table with one profile.
use clumsy.Prelude.{
  ℕ, ◌≡◌, refl, arith, Bool, true, false, none, some, List, [], ◌∷◌, replicate, if◌then◌else◌,
}
use clumsy.Utils.{codes, same_codes}
use clumsy.Utils.Apply.{Tunable}
use clumsy.Scenario.{apply_params}
use clumsy.Profile.{
  Profile, Described, find_profile, collect, profile_save_current, profile_apply, profile_delete,
}
use clumsy.Profile.Saved.{profile_apply-profile_save_current, profile_apply_lost}

-- Two modules; the first has no parameters and is not enabled.
abbrev modules : List Described
modules =
    record { enabled = false; short_name = codes "drop"; get_params = none }
    ∷ record {
      enabled = true;
      short_name = codes "lag";
      get_params = some (λ room. (codes "lag-time", codes "50") ∷ []);
    }
    ∷ []

-- The settings are a flag and what was last set.
abbrev tunables : List (Tunable (Bool × List ℕ))
tunables =
    record {
      short_name = codes "lag";
      set_enabled = λ on s. (on, s.1);
      set_param = some (λ key value s. some (s.0, value));
    }
    ∷ []

abbrev profiles : List Profile
profiles = record { name = codes "wifi"; params = (codes "lag", codes "false") ∷ [] } ∷ []

abbrev long_name : List ℕ
long_name = replicate 48 97

profile_apply-profile_save_current_example :
    profile_apply tunables
      (profile_save_current modules (codes "radio") profiles).1
      (codes "wifi")
      (true, [])
    ≡ (if same_codes (codes "radio") (codes "wifi")
        then (true, apply_params tunables (collect modules []) (true, []))
        else profile_apply tunables profiles (codes "wifi") (true, []))
unfolding profile_save_current find_profile
profile_apply-profile_save_current_example =
    profile_apply-profile_save_current tunables modules (codes "radio") (codes "wifi") profiles
      (true, []) (omega arith) refl

profile_apply_lost_example :
    profile_apply tunables (profile_save_current modules long_name profiles).1 long_name (true, [])
    ≡ (false, (true, []))
unfolding profile_save_current find_profile
profile_apply_lost_example =
    profile_apply_lost tunables modules long_name profiles (true, []) (omega arith)
      (omega arith, tt) refl

deleted : (profile_delete (codes "wifi") profiles).1 ≡ []
unfolding profile_delete
deleted = refl
