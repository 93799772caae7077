-- ===== src/Profile.antt =====
-- profile.cpp: named sets of parameters, in a table of 32 slots.
--
-- Texts are lists of bytes without the NUL. Of the modules an entry gives the name, the enabled flag and what
-- `getParams` writes when there is room for so many pairs (some modules have no `getParams`).
pub mod Saved
use clumsy.Prelude.{
  ℕ, ◌-◌, Bool, true, false, ◌&&◌, ◌||◌, not, Option, none, some, List, [], ◌∷◌, ◌++◌, map, length,
  take, min, leb, if◌then◌else◌,
}
use clumsy.Utils.{codes, same_codes}
use clumsy.Utils.Apply.{Tunable}
use clumsy.Scenario.{apply_params}

pub record Profile : Type 0 where
  pub name : List ℕ
  pub params : List (List ℕ × List ℕ)

pub record Described : Type 0 where
  pub enabled : Bool
  pub short_name : List ℕ
  pub get_params : Option (ℕ → List (List ℕ × List ℕ))

abbrev pub max_profiles : ℕ
max_profiles = 32

abbrev pub max_profile_params : ℕ
max_profile_params = 32

-- The first profile of that name.
unfoldable pub find_profile : List Profile → List ℕ → Option Profile
find_profile [] name = none
find_profile (p ∷ profiles) name =
    let rest = find_profile profiles name in if same_codes p.name name then some p else rest

-- The pairs that an enabled module adds: its flag, then its parameters if there is room.
unfoldable pub with_params : Described → List (List ℕ × List ℕ) → List (List ℕ × List ℕ)
with_params m kv =
    let flagged = kv ++ (take 47 m.short_name, codes "true") ∷ [] in
    elim m.get_params [
      | none ↦ flagged
      | some get ↦ flagged ++ get (max_profile_params - length flagged)
    ]

unfoldable pub collect : List Described → List (List ℕ × List ℕ) → List (List ℕ × List ℕ)
collect [] kv = kv
collect (m ∷ modules) kv = elim m.enabled [
  | false ↦ collect modules kv
  | true ↦ elim (leb max_profile_params (length kv)) [
    | true ↦ kv
    | false ↦ collect modules (with_params m kv)
  ]
]

-- The slot of that name is overwritten, or a new one is filled; the name is cut to 47 bytes.
unfoldable pub store : List (List ℕ × List ℕ) → List ℕ → List Profile → List Profile
store kv name [] = record { name = take 47 name; params = kv } ∷ []
store kv name (p ∷ profiles) =
    let rest = store kv name profiles in
    if same_codes p.name name
    then record { name = take 47 name; params = kv } ∷ profiles
    else p ∷ rest

abbrev pub is_known : List Profile → List ℕ → Bool
is_known profiles name = elim (find_profile profiles name) [ none ↦ false | some _ ↦ true ]

unfoldable pub profile_save_current : List Described → List ℕ → List Profile → Bool × List Profile
profile_save_current modules name profiles =
    if not (is_known profiles name) && leb max_profiles (length profiles)
    then (false, profiles)
    else (true, store (collect modules []) name profiles)

-- Only the first profile of that name goes.
unfoldable pub profile_delete : List ℕ → List Profile → Bool × List Profile
profile_delete name [] = (false, [])
profile_delete name (p ∷ profiles) =
    let (found, rest) = profile_delete name profiles in
    if same_codes p.name name then (true, profiles) else (found, p ∷ rest)

unfoldable pub profile_names_snapshot : ℕ → List Profile → List (List ℕ)
profile_names_snapshot max_names profiles = take max_names (map (λ (p : Profile). p.name) profiles)

module _ {Settings : Type 0} (modules : List (Tunable Settings)) where
  -- The result, and the settings that the found profile leaves.
  unfoldable pub profile_apply : List Profile → List ℕ → Settings → Bool × Settings
  profile_apply profiles name s = elim (find_profile profiles name) [
    | none ↦ (false, s)
    | some p ↦ (true, apply_params modules p.params s)
  ]
