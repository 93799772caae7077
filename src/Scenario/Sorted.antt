-- ===== src/Scenario/Sorted.antt =====
-- scenario.cpp: sortSteps puts the steps in ascending order and keeps the order of equal steps.
use clumsy.Prelude.{
  ◌≡◌, refl, ◌∙◌, Bool, true, not, List, [], ◌∷◌, ◌++◌, reverse, reverse_aux, reverse-cons,
  reverse-reverse, arith, ◌&&◌, Bool-cases, inl, inr, select,
}
use clumsy.Prelude.Int.{ℤ, ltb_ℤ}
use clumsy.Scenario.{Step, sort_key, slide, sort_from, sort_steps}

-- a ≤ b.
abbrev pub leb_ℤ : ℤ → ℤ → Bool
leb_ℤ a b = not (ltb_ℤ b a)

module _ {R : Type 0} where
  -- Whether a step comes at this point of the order.
  abbrev pub comes_at : ℤ → Step R → Bool
  comes_at k s = leb_ℤ (sort_key s) k && leb_ℤ k (sort_key s)

  -- No step of a list comes after a given step.
  abbrev none_after : Step R → List (Step R) → Bool
  none_after x [] = true
  none_after x (s ∷ l) = leb_ℤ (sort_key s) (sort_key x) && none_after x l

  -- Descending: what stands before a step in the reversed list comes no earlier.
  abbrev descends : List (Step R) → Bool
  descends [] = true
  descends (s ∷ l) = none_after s l && descends l

  abbrev none_before : Step R → List (Step R) → Bool
  none_before x [] = true
  none_before x (s ∷ l) = leb_ℤ (sort_key x) (sort_key s) && none_before x l

  -- Every step comes no later than all behind it.
  abbrev pub ascends : List (Step R) → Bool
  ascends [] = true
  ascends (s ∷ l) = none_before s l && ascends l

  none_after_trans :
      (x y : Step R) (l : List (Step R))
      → leb_ℤ (sort_key y) (sort_key x) ≡ true
      → none_after y l ≡ true
      → none_after x l ≡ true
  none_after_trans x y [] h a = refl
  none_after_trans x y (s ∷ l) h a = ground (arith, none_after_trans x y l h)

  none_after-slide :
      (x tmp : Step R) (l : List (Step R))
      → leb_ℤ (sort_key tmp) (sort_key x) ≡ true
      → none_after x l ≡ true
      → none_after x (slide tmp l) ≡ true
  unfolding slide
  none_after-slide x tmp [] h a = ground arith
  none_after-slide x tmp (s ∷ l) h a = ground (arith, none_after-slide x tmp l h)

  descends-slide :
      (tmp : Step R) (l : List (Step R)) → descends l ≡ true → descends (slide tmp l) ≡ true
  unfolding slide
  descends-slide tmp [] d = refl
  descends-slide tmp (s ∷ l) d =
      ground (arith, descends-slide tmp l, none_after-slide s tmp l, none_after_trans tmp s l)

  descends-sort_from :
      (steps sorted : List (Step R))
      → descends sorted ≡ true
      → descends (sort_from steps sorted) ≡ true
  unfolding sort_from
  descends-sort_from [] sorted d = d
  descends-sort_from (tmp ∷ later) sorted d =
      descends-sort_from later (slide tmp sorted) (descends-slide tmp sorted d)

  none_after-append :
      (x : Step R) (l r : List (Step R))
      → none_after x (l ++ r) ≡ (none_after x l && none_after x r)
  none_after-append x [] r = refl
  none_after-append x (s ∷ l) r = ground (arith, none_after-append x l r)

  none_after-reverse : (x : Step R) (l : List (Step R)) → none_after x (reverse l) ≡ none_after x l
  none_after-reverse x [] = refl
  none_after-reverse x (s ∷ l) =
      rw (reverse-cons s l)
        (ground (arith, none_after-append x (reverse l) (s ∷ []), none_after-reverse x l))

  none_before-snoc :
      (x s : Step R) (l : List (Step R))
      → none_before s l ≡ true
      → leb_ℤ (sort_key s) (sort_key x) ≡ true
      → none_before s (l ++ x ∷ []) ≡ true
  none_before-snoc x s [] n h = ground arith
  none_before-snoc x s (t ∷ l) n h = ground (arith, none_before-snoc x s l)

  ascends-snoc :
      (x : Step R) (l : List (Step R))
      → ascends l ≡ true
      → none_after x l ≡ true
      → ascends (l ++ x ∷ []) ≡ true
  ascends-snoc x [] a n = refl
  ascends-snoc x (s ∷ l) a n = ground (arith, ascends-snoc x l, none_before-snoc x s l)

  ascends-reverse : (l : List (Step R)) → descends l ≡ true → ascends (reverse l) ≡ true
  ascends-reverse [] d = refl
  ascends-reverse (s ∷ l) d =
      rw (reverse-cons s l)
        (ground (arith, ascends-snoc s (reverse l), none_after-reverse s l, ascends-reverse l))

  -- Moving a step past those with a greater key does not change the order of the steps of one key.
  select-slide :
      (k : ℤ) (tmp : Step R) (l : List (Step R))
      → select (comes_at k) (slide tmp l) ≡ select (comes_at k) (tmp ∷ l)
  unfolding slide
  select-slide k tmp [] = refl
  select-slide k tmp (s ∷ l) = ground (arith, select-slide k tmp l)

  select-reverse_aux :
      (p : Step R → Bool) (xs acc : List (Step R))
      → select p (reverse_aux xs acc) ≡ reverse_aux (select p xs) (select p acc)
  select-reverse_aux p [] acc = refl
  select-reverse_aux p (x ∷ xs) acc = elim (Bool-cases (p x)) [
    | inl e ↦ select-reverse_aux p xs (x ∷ acc) ∙ rw e refl
    | inr e ↦ select-reverse_aux p xs (x ∷ acc) ∙ rw e refl
  ]

  select-sort_from :
      (k : ℤ) (steps sorted : List (Step R))
      → select (comes_at k) (sort_from steps sorted)
        ≡ reverse_aux (select (comes_at k) steps) (select (comes_at k) sorted)
  unfolding sort_from
  select-sort_from k [] sorted = refl
  select-sort_from k (tmp ∷ later) sorted = elim (Bool-cases (comes_at k tmp)) [
    | inl e ↦
        select-sort_from k later (slide tmp sorted) ∙ rw (select-slide k tmp sorted) (rw e refl)
    | inr e ↦
        select-sort_from k later (slide tmp sorted) ∙ rw (select-slide k tmp sorted) (rw e refl)
  ]

  -- sortSteps puts the steps in ascending order of their second, the steps with a condition last, and keeps
  -- the steps of one second, and those with a condition, in the order of the file.
  pub sort_steps-IsStable :
      (steps : List (Step R))
      → (ascends (sort_steps steps) ≡ true)
        × ((k : ℤ) → select (comes_at k) (sort_steps steps) ≡ select (comes_at k) steps)
  unfolding sort_steps
  sort_steps-IsStable steps = (
    ascends-reverse (sort_from steps []) (descends-sort_from steps [] refl),
    λ k.
        select-reverse_aux (comes_at k) (sort_from steps []) []
        ∙ rw (select-sort_from k steps []) (reverse-reverse (select (comes_at k) steps)),
  )
