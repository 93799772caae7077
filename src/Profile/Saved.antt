-- ===== src/Profile/Saved.antt =====
-- profile.cpp: what profileApply finds after profileSaveCurrent.
use clumsy.Prelude.{
  ℕ, zero, suc, ◌≤◌, ◌<◌, ◌≡◌, refl, sym, ap, ap₂, ◌∙◌, Bool, true, false, ◌&&◌, not, Option, none,
  some, List, [], ◌∷◌, take, length, length-take, arith, leb, ◌==◌, if◌then◌else◌, both_true,
  ==_iff, either_way,
}
use clumsy.Utils.{same_codes}
use clumsy.Utils.Apply.{Tunable}
use clumsy.Scenario.{apply_params}
use clumsy.Profile.{
  Profile, Described, find_profile, collect, store, is_known, profile_save_current, profile_apply,
  max_profiles,
}

distinct : true ≡ false → ⊥
distinct e = ground (arith, e)

same_codes_sound : (a b : List ℕ) → same_codes a b ≡ true → a ≡ b
same_codes_sound [] [] h = refl
same_codes_sound [] (y ∷ b) h = absurd (ground arith)
same_codes_sound (x ∷ a) [] h = absurd (ground arith)
same_codes_sound (x ∷ a) (y ∷ b) h =
    let (first, rest) = both_true (x == y) (same_codes a b) h in
    ap₂ (λ (z : ℕ) (c : List ℕ). z ∷ c) ((==_iff x y).0 first) (same_codes_sound a b rest)

take_all : (n : ℕ) (a : List ℕ) → length a ≤ n → take n a ≡ a
take_all zero [] h = refl
take_all zero (x ∷ a) h = absurd (omega (arith, h))
take_all (suc n) [] h = refl
take_all (suc n) (x ∷ a) h = rw (take_all n a (omega arith))

-- Tests of which one is the other, or excludes it.
if-same :
    {A : Type 0} (x y z : A) (b c : Bool)
    → b ≡ c
    → (if b then x else z) ≡ (if b then x else if c then y else z)
if-same x y z true c e = refl
if-same x y z false true e = absurd (distinct (sym e))
if-same x y z false false e = refl

if-apart :
    {A : Type 0} (x y z w : A) (b c : Bool)
    → w ≡ (if b then x else z)
    → (b ≡ true → c ≡ true → ⊥)
    → (if c then y else w) ≡ (if b then x else if c then y else z)
if-apart x y z w true true e apart = absurd (apart refl refl)
if-apart x y z w true false e apart = e
if-apart x y z w false true e apart = refl
if-apart x y z w false false e apart = e

-- A name that fits is found under that name, and the others as before.
find_profile-store :
    (kv : List (List ℕ × List ℕ)) (name other : List ℕ) (profiles : List Profile)
    → length name < 48
    → find_profile (store kv name profiles) other ≡ (
        if same_codes name other
        then some (record { name = name; params = kv })
        else find_profile profiles other)
unfolding find_profile store
find_profile-store kv name other [] fits = rw (take_all 47 name (omega arith)) refl
find_profile-store kv name other (p ∷ profiles) fits =
    either_way
      (λ (q : List Profile). find_profile q other ≡ (
        if same_codes name other
        then some (record { name = name; params = kv })
        else find_profile (p ∷ profiles) other))
      (same_codes p.name name) _ _
      (λ same. rw (take_all 47 name (omega arith)) (
        if-same _ _ _ (same_codes name other) (same_codes p.name other)
          (ap (λ (z : List ℕ). same_codes z other) (sym (same_codes_sound p.name name same)))))
      (λ differs.
        if-apart _ _ _ _ (same_codes name other) (same_codes p.name other)
          (find_profile-store kv name other profiles fits)
          (λ here there. absurd (
            distinct (
              sym there
              ∙ ap (same_codes p.name) (sym (same_codes_sound name other here))
              ∙ differs))))

-- The names in the table have at most 47 bytes.
abbrev pub Stored : List Profile → Type 0
Stored [] = Unit {0}
Stored (p ∷ profiles) = (length p.name < 48) × Stored profiles

find_profile-store_long :
    (kv : List (List ℕ × List ℕ)) (name : List ℕ) (profiles : List Profile)
    → 48 ≤ length name
    → Stored profiles
    → find_profile (store kv name profiles) name ≡ none
unfolding find_profile store
find_profile-store_long kv name [] long fit =
    either_way (λ (o : Option Profile). o ≡ none) (same_codes (take 47 name) name) _ _
      (λ uncut. absurd (
        omega (arith, length-take 47 name, ap length (same_codes_sound (take 47 name) name uncut))))
      (λ _. refl)
find_profile-store_long kv name (p ∷ profiles) long (short, fit) =
    either_way (λ (q : List Profile). find_profile q name ≡ none) (same_codes p.name name) _ _
      (λ same. absurd (omega (arith, ap length (same_codes_sound p.name name same))))
      (λ differs. rw (differs, find_profile-store_long kv name profiles long fit))

-- What profileSaveCurrent does when it returns 1.
save-store :
    (modules : List Described) (name : List ℕ) (profiles : List Profile)
    → (profile_save_current modules name profiles).0 ≡ true
    → (profile_save_current modules name profiles).1 ≡ store (collect modules []) name profiles
unfolding profile_save_current
save-store modules name profiles =
    either_way
      (λ (r : Bool × List Profile). r.0 ≡ true → r.1 ≡ store (collect modules []) name profiles)
      (not (is_known profiles name) && leb max_profiles (length profiles)) _ _
      (λ _ e. absurd (distinct (sym e))) (λ _ _. refl)

module _ {Settings : Type 0} (tunables : List (Tunable Settings)) (modules : List Described) where
  apply_found : Option Profile → Settings → Bool × Settings
  apply_found o s = elim o [ none ↦ (false, s) | some p ↦ (true, apply_params tunables p.params s) ]

  apply_found-if :
      (b : Bool) (p : Profile) (o : Option Profile) (s : Settings)
      → apply_found (if b then some p else o) s
        ≡ (if b then (true, apply_params tunables p.params s) else apply_found o s)
  unfolding apply_found
  apply_found-if true p o s = refl
  apply_found-if false p o s = refl

  -- After profileSaveCurrent has returned 1 for a name of at most 47 bytes, profileApply of that name applies
  -- the pairs that were collected from the enabled modules, and profileApply of every other name does what
  -- it did before.
  pub profile_apply-profile_save_current :
      (name other : List ℕ) (profiles : List Profile) (s : Settings)
      → length name < 48
      → (profile_save_current modules name profiles).0 ≡ true
      → profile_apply tunables (profile_save_current modules name profiles).1 other s ≡ (
          if same_codes name other
          then (true, apply_params tunables (collect modules []) s)
          else profile_apply tunables profiles other s)
  unfolding profile_apply apply_found
  profile_apply-profile_save_current name other profiles s fits saved =
      ap (λ (q : List Profile). apply_found (find_profile q other) s)
        (save-store modules name profiles saved)
      ∙ ap (λ (o : Option Profile). apply_found o s)
          (find_profile-store (collect modules []) name other profiles fits)
      ∙ apply_found-if (same_codes name other) (record { name = name; params = collect modules [] })
          (find_profile profiles other) s

  -- After profileSaveCurrent has returned 1 for a name of more than 47 bytes, profileApply of that name finds
  -- nothing and returns 0, if the names in the table have at most 47 bytes.
  pub profile_apply_lost :
      (name : List ℕ) (profiles : List Profile) (s : Settings)
      → 48 ≤ length name
      → Stored profiles
      → (profile_save_current modules name profiles).0 ≡ true
      → profile_apply tunables (profile_save_current modules name profiles).1 name s ≡ (false, s)
  unfolding profile_apply apply_found
  profile_apply_lost name profiles s long fit saved =
      ap (λ (q : List Profile). apply_found (find_profile q name) s)
        (save-store modules name profiles saved)
      ∙ ap (λ (o : Option Profile). apply_found o s)
          (find_profile-store_long (collect modules []) name profiles long fit)
