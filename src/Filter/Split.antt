-- ===== src/Filter/Split.antt =====
-- The branches that `splitOr` collects, and the rules that `emitRules` and `dedupeRules` keep.
use mathlib.Core.Logic.{ite}
use clumsy.Prelude.{
  ℕ, zero, suc, ◌≤◌, ◌<◌, ◌≡◌, ◌⊎◌, inl, inr, refl, sym, ap, ◌∙◌, subst, Bool, true, false, Option,
  none, some, List, [], ◌∷◌, ◌++◌, arith, leb, if◌then◌else◌, get_elem?, length, length-append,
  take, Bool-cases,
}
use clumsy.Filter.{
  Node, Program, always, never, outbound, inbound, loopback, ipv4, ipv6, both, either, negate,
  compare_field,
}
use clumsy.Filter.Derive.{
  IptablesRule, Rule-discrete, split_or, split_entry, split_branch_limit, split_leaf, is_dup,
  dedupe_rules,
}

-- Some element satisfies the predicate.
abbrev pub Some {ℓ} : {A : Type ℓ} → (A → Type 0) → List A → Type 0
Some P [] = ⊥
Some P (x ∷ xs) = P x ⊎ Some P xs

module _ {ℓ} {A : Type ℓ} (P : A → Type 0) where
  pub Some-append_left : (xs ys : List A) → Some P xs → Some P (xs ++ ys)
  Some-append_left [] ys s = elim s [ ]
  Some-append_left (x ∷ xs) ys (inl p) = inl p
  Some-append_left (x ∷ xs) ys (inr s) = inr (Some-append_left xs ys s)

  pub Some-append_right : (xs ys : List A) → Some P ys → Some P (xs ++ ys)
  Some-append_right [] ys s = s
  Some-append_right (x ∷ xs) ys s = inr (Some-append_right xs ys s)

  pub Some-append : (xs ys : List A) → Some P (xs ++ ys) → Some P xs ⊎ Some P ys
  Some-append [] ys s = inr s
  Some-append (x ∷ xs) ys (inl p) = inl (inl p)
  Some-append (x ∷ xs) ys (inr s) = elim (Some-append xs ys s) [
    | inl a ↦ inl (inr a)
    | inr b ↦ inr b
  ]

  pub Some-take : (n : ℕ) (xs : List A) → length xs ≤ n → Some P xs → Some P (take n xs)
  Some-take zero [] le s = elim s [ ]
  Some-take (suc n) [] le s = elim s [ ]
  Some-take zero (x ∷ xs) le s = ground arith
  Some-take (suc n) (x ∷ xs) le (inl p) = inl p
  Some-take (suc n) (x ∷ xs) le (inr s) = inr (Some-take n xs (ground arith) s)

-- Only an OR is split; any other node is a branch of its own.
node-shape :
    (n : Node)
    → ((l : ℕ) × (r : ℕ) × (n ≡ either l r))
      ⊎ ((go : ℕ → List ℕ → List ℕ) (i : ℕ) (out : List ℕ)
          → split_entry go i (some n) out ≡ out ++ i ∷ [])
node-shape always = inr (λ go i out. refl)
node-shape never = inr (λ go i out. refl)
node-shape outbound = inr (λ go i out. refl)
node-shape inbound = inr (λ go i out. refl)
node-shape loopback = inr (λ go i out. refl)
node-shape ipv4 = inr (λ go i out. refl)
node-shape ipv6 = inr (λ go i out. refl)
node-shape (both l r) = inr (λ go i out. refl)
node-shape (either l r) = inl (l, r, refl)
node-shape (negate l) = inr (λ go i out. refl)
node-shape (compare_field field op v) = inr (λ go i out. refl)

-- `P` holds of an OR only where it holds of an operand, and of no index out of range.
module _ (prog : Program) (P : ℕ → Type 0)
    (splits : (i l r : ℕ) → get_elem? prog i ≡ some (either l r) → P i → P l ⊎ P r)
    (present : (i : ℕ) → get_elem? prog i ≡ none → ¬ P i) where
  -- What a call of `splitOr` on `i` does to the branches collected so far.
  record Call (i : ℕ) (out out' : List ℕ) : Type 0 where
    longer : length out ≤ length out'
    keeps : Some P out → Some P out'
    finds : P i → length out' < split_branch_limit → Some P out'

  Call-leaf : (i : ℕ) (out : List ℕ) → Call i out (out ++ i ∷ [])
  Call-leaf i out = record {
    longer = ground (arith, length-append out (i ∷ []));
    keeps = Some-append_left P out (i ∷ []);
    finds = λ p few. Some-append_right P out (i ∷ []) (inl p);
  }

  Call-full : (i : ℕ) (out : List ℕ) → split_branch_limit ≤ length out → Call i out out
  Call-full i out full = record {
    longer = ground arith;
    keeps = λ s. s;
    finds = λ p few. ground arith;
  }

  Call-absent : (i : ℕ) (out : List ℕ) → get_elem? prog i ≡ none → Call i out out
  Call-absent i out none_there = record {
    longer = ground arith;
    keeps = λ s. s;
    finds = λ p few. absurd (present i none_there p);
  }

  Call-or :
      (i l r : ℕ) (out mid out' : List ℕ)
      → get_elem? prog i ≡ some (either l r)
      → Call l out mid
      → Call r mid out'
      → Call i out out'
  Call-or i l r out mid out' at left right = record {
    longer = ground (arith, left.longer, right.longer);
    keeps = λ s. right.keeps (left.keeps s);
    finds = λ p few. elim (splits i l r at p) [
      | inl pl ↦ right.keeps (left.finds pl (ground (arith, right.longer)))
      | inr pr ↦ right.finds pr few
    ];
  }

  Call-entry :
      (go : ℕ → List ℕ → List ℕ)
      → ((i : ℕ) (out : List ℕ) → Call i out (go i out))
      → (i : ℕ) (out : List ℕ) (o : Option Node) → get_elem? prog i ≡ o
      → Call i out (split_entry go i o out)
  Call-entry go calls i out none at = Call-absent i out at
  Call-entry go calls i out (some n) at = elim (node-shape n) [
    | inl (l, r, e) ↦
        subst (λ m. Call i out (split_entry go i (some m) out)) (sym e)
          (Call-or i l r out (go l out) (go r (go l out)) (at ∙ ap some e) (calls l out)
            (calls r (go l out)))
    | inr leaf ↦ subst (λ x. Call i out x) (sym (leaf go i out)) (Call-leaf i out)
  ]

  Call-leaf_entry :
      (i : ℕ) (out : List ℕ) (o : Option Node)
      → get_elem? prog i ≡ o
      → Call i out (elim o [ none ↦ out | some n ↦ out ++ i ∷ [] ])
  Call-leaf_entry i out none at = Call-absent i out at
  Call-leaf_entry i out (some n) at = Call-leaf i out

  Call-guarded :
      (i : ℕ) (out out' : List ℕ)
      → Call i out out'
      → Call i out (if leb split_branch_limit (length out) then out else out')
  Call-guarded i out out' call = elim (Bool-cases (leb split_branch_limit (length out))) [
    | inl full ↦
        subst (λ b. Call i out (if b then out else out')) (sym full)
          (Call-full i out (ground arith))
    | inr room ↦ subst (λ b. Call i out (if b then out else out')) (sym room) call
  ]

  split_or-Call : (d : ℕ) (i : ℕ) (out : List ℕ) → Call i out (split_or d prog i out)
  unfolding split_or
  split_or-Call zero i out =
      Call-guarded i out (split_leaf prog i out) (Call-leaf_entry i out (get_elem? prog i) refl)
  split_or-Call (suc d) i out =
      Call-guarded i out (split_entry (split_or d prog) i (get_elem? prog i) out)
        (Call-entry (split_or d prog) (split_or-Call d) i out (get_elem? prog i) refl)

  -- Below the branch limit, a packet that satisfies the whole expression satisfies a branch.
  pub split_or-finds :
      (d i : ℕ)
      → P i
      → length (split_or d prog i []) < split_branch_limit
      → Some P (split_or d prog i [])
  split_or-finds d i p few = (split_or-Call d i []).finds p few

ite-true : {X : Type 0} (d : Dec X) (b : Bool) → ite d true b ≡ true → X ⊎ (b ≡ true)
ite-true (yes x) b e = inl x
ite-true (no n) b e = inr e

-- A rule is found again when duplicates are dropped.
module _ (P : IptablesRule → Type 0) where
  is_dup-Some :
      (r : IptablesRule) (uniq : List IptablesRule) → is_dup r uniq ≡ true → P r → Some P uniq
  unfolding is_dup
  is_dup-Some r [] e p = ground arith
  is_dup-Some r (u ∷ uniq) e p = elim (ite-true (Rule-discrete u r) (is_dup r uniq) e) [
    | inl same ↦ inl (subst P (sym same) p)
    | inr later ↦ inr (is_dup-Some r uniq later p)
  ]

  -- One rule is added unless an equal one is there.
  insert-Some :
      (r : IptablesRule) (uniq : List IptablesRule) (dup : Bool)
      → is_dup r uniq ≡ dup
      → Some P uniq ⊎ P r
      → Some P (if dup then uniq else uniq ++ r ∷ [])
  insert-Some r uniq true e (inl s) = s
  insert-Some r uniq false e (inl s) = Some-append_left P uniq (r ∷ []) s
  insert-Some r uniq true e (inr p) = is_dup-Some r uniq e p
  insert-Some r uniq false e (inr p) = Some-append_right P uniq (r ∷ []) (inl p)

  pub dedupe-Some :
      (uniq rules : List IptablesRule)
      → Some P uniq ⊎ Some P rules
      → Some P (dedupe_rules uniq rules)
  unfolding dedupe_rules
  dedupe-Some uniq [] (inl s) = s
  dedupe-Some uniq [] (inr s) = elim s [ ]
  dedupe-Some uniq (r ∷ rules) s =
      dedupe-Some (if is_dup r uniq then uniq else uniq ++ r ∷ []) rules (elim s [
        | inl there ↦ inl (insert-Some r uniq (is_dup r uniq) refl (inl there))
        | inr (inl p) ↦ inl (insert-Some r uniq (is_dup r uniq) refl (inr p))
        | inr (inr later) ↦ inr later
      ])
