-- ===== src/Duplicate/Repeats.antt =====
-- duplicate.cpp: where the copies stand, how many there are, and what is left alone.
use clumsy.Prelude.{
  ◌⊎◌, ℕ, zero, suc, ◌+◌, ◌-◌, ◌%◌, ◌≤◌, ◌≡◌, refl, sym, ap, ◌∙◌, inl, inr, Bool, true, false, List,
  [], ◌∷◌, ◌++◌, reverse, reverse_aux, reverse-reverse, arith, if◌then◌else◌, replicate, word,
  Bool-cases,
}
use clumsy.Packet.{PacketNode, World, calc_chance, calc_chance-freed}
use clumsy.Duplicate.{Dup, Walk, matches, clone_node, clones, visit, walk, process}

-- Each packet of the first list stands in the second, in order, and straight before it `k` copies of it, where `k` is at
-- most `most`, and 0 for packets that are not handled. The number counts the copies.
pub data Repeats (copy : PacketNode → PacketNode) (handled : PacketNode → Bool) (most : ℕ)
    : List PacketNode → List PacketNode → ℕ → Type 0 where
  done : Repeats copy handled most [] [] 0
  once :
      {x : PacketNode} {xs ys : List PacketNode} {n : ℕ}
      → Repeats copy handled most xs ys n
      → Repeats copy handled most (x ∷ xs) (x ∷ ys) n
  copied :
      {x : PacketNode} {xs ys : List PacketNode} {n : ℕ} (k : ℕ)
      → handled x ≡ true
      → k ≤ most
      → Repeats copy handled most xs ys n
      → Repeats copy handled most (x ∷ xs) (replicate k (copy x) ++ x ∷ ys) (k + n)

shift :
    (k : ℕ) (c : PacketNode) (ys : List PacketNode)
    → replicate k c ++ c ∷ ys ≡ c ∷ (replicate k c ++ ys)
shift zero c ys = refl
shift (suc k) c ys = ap (λ (zs : List PacketNode). c ∷ zs) (shift k c ys)

reverse_aux-replicate :
    (k : ℕ) (c : PacketNode) (xs ys : List PacketNode)
    → reverse_aux (replicate k c ++ xs) ys ≡ reverse_aux xs (replicate k c ++ ys)
reverse_aux-replicate zero c xs ys = refl
reverse_aux-replicate (suc k) c xs ys =
    reverse_aux-replicate k c xs (c ∷ ys) ∙ ap (reverse_aux xs) (shift k c ys)

module _ (rand : ℕ → ℕ) (alloc : ℕ → Bool) (prepare : List ℕ → List ℕ) where
  -- `k` copies went in before the cursor.
  abbrev Cloned : ℕ → PacketNode → Walk → ℕ → Walk → Type 0
  Cloned copies pac s k t =
      (k ≤ copies)
      × (t.passed ≡ replicate k (clone_node prepare pac) ++ s.passed)
      × (t.affected % word ≡ (s.affected + k) % word)
      × (t.world ≡ s.world)
      × (((i : ℕ) → alloc i ≡ true) → k ≡ copies)

  clones-Cloned :
      (copies : ℕ) (pac : PacketNode) (s : Walk)
      → (k : ℕ) × Cloned copies pac s k (clones rand alloc prepare copies pac s)
  unfolding clones
  clones-Cloned zero pac s = (0, (omega arith, refl, ground arith, refl, λ h. refl))
  clones-Cloned (suc copies) pac s =
      let c = clone_node prepare pac in
      let s' = record s {
        passed = c ∷ s.passed;
        allocs = s.allocs + 1;
        affected = (s.affected + 1) % word;
      } in
      let (k, (le, p, a, w, all)) = clones-Cloned copies pac s' in
      elim (Bool-cases (alloc s.allocs)) [
        | inl got ↦ (
          suc k,
          rw got (omega arith, p ∙ shift k c s.passed, omega (arith, a), w, λ h. ap suc (all h)),
        )
        | inr failed ↦ (
          0,
          rw failed
              (omega arith, refl, ground arith, refl, λ h. absurd (ground (arith, h s.allocs))),
        )
      ]

  module _ (d : Dup) where
    abbrev Copies : List PacketNode → List PacketNode → ℕ → Type 0
    Copies = Repeats (clone_node prepare) (matches d) (d.count - 1)

    abbrev Walked : List PacketNode → Walk → Walk → Type 0
    Walked xs s t =
        (ys : List PacketNode) × (n : ℕ) × Copies xs ys n
        × (t.passed ≡ reverse_aux ys s.passed)
        × (t.affected % word ≡ (s.affected + n) % word)
        × (t.world.freed ≡ s.world.freed)

    -- The three ways of a visit.
    abbrev Visited : PacketNode → Walk → Walk → Type 0
    Visited pac s t =
        ((t.passed ≡ pac ∷ s.passed) × (t.affected ≡ s.affected) × (t.world.freed ≡ s.world.freed))
        ⊎ ((k : ℕ) × (matches d pac ≡ true)
            × (k ≤ d.count - 1)
            × (t.passed ≡ pac ∷ (replicate k (clone_node prepare pac) ++ s.passed))
            × (t.affected % word ≡ (s.affected + k) % word)
            × (t.world.freed ≡ s.world.freed))

    visit-Visited : (pac : PacketNode) (s : Walk) → Visited pac s (visit rand alloc prepare d pac s)
    unfolding visit
    visit-Visited pac s =
        let (hit, w) = calc_chance rand d.chance s.world in
        let same = calc_chance-freed rand d.chance s.world in
        let (k, (le, p, a, e, _)) = clones-Cloned (d.count - 1) pac (record s { world = w }) in
        elim (Bool-cases (matches d pac)) [
          | inr no_match ↦ rw no_match (inl (refl, refl, refl))
          | inl m ↦ elim (Bool-cases hit) [
            | inl h ↦
                rw (m, h)
                  (inr (
                    k,
                    refl,
                    le,
                    ap (λ (xs : List PacketNode). pac ∷ xs) p,
                    a,
                    ap (λ (v : World). v.freed) e ∙ same,
                  ))
            | inr miss ↦ rw (m, miss) (inl (refl, refl, same))
          ]
        ]

    walk-Walked : (xs : List PacketNode) (s : Walk) → Walked xs s (walk rand alloc prepare d xs s)
    unfolding walk
    walk-Walked [] s = ([], 0, done, refl, ground arith, refl)
    walk-Walked (x ∷ xs) s =
        let (ys, n, r, p, a, f) = walk-Walked xs (visit rand alloc prepare d x s) in
        elim (visit-Visited x s) [
          | inl (p', a', f') ↦
              (x ∷ ys, n, once r, p ∙ ap (reverse_aux ys) p', ground (arith, a, a'), f ∙ f')
          | inr (k, m, le, p', a', f') ↦ (
            replicate k (clone_node prepare x) ++ x ∷ ys,
            k + n,
            copied k m le r,
            p
                ∙ ap (reverse_aux ys) p'
                ∙ sym (reverse_aux-replicate k (clone_node prepare x) (x ∷ ys) s.passed),
            omega (arith, a, a'),
            f ∙ f',
          )
        ]

    -- Whatever `rand()` returns and whichever allocations fail, a call of `dupProcess` keeps every packet of the
    -- list, in order, and puts straight before it at most `count - 1` copies of it, none where its direction is not
    -- handled. Nothing is freed, and the counter grows by the number of copies, modulo 2^32.
    pub dup_process-Repeats :
        (queue : List PacketNode) (w : World)
        → let r = process rand alloc prepare d queue w in
          (n : ℕ) × Repeats (clone_node prepare) (matches d) (d.count - 1) queue r.queue n
          × (r.state.affected % word ≡ (d.affected + n) % word)
          × (r.world.freed ≡ w.freed)
    unfolding process
    dup_process-Repeats queue w =
        let (ys, n, r, p, a, f) =
          walk-Walked queue
            (record { passed = []; allocs = 0; affected = d.affected; world = w; duped = false }) in
        (n, rw (p, reverse-reverse ys) r, a, f)

    -- Each packet that is handled, `count` times.
    abbrev pub multiplied : List PacketNode → List PacketNode
    multiplied [] = []
    multiplied (x ∷ xs) =
        let rest = multiplied xs in
        if matches d x then replicate (d.count - 1) (clone_node prepare x) ++ x ∷ rest else x ∷ rest

    module _ (always : d.chance ≡ 10000) (plenty : (i : ℕ) → alloc i ≡ true) where
      visit_certain :
          (x : PacketNode) (s : Walk)
          → matches d x ≡ true
          → (visit rand alloc prepare d x s).passed
            ≡ x ∷ (replicate (d.count - 1) (clone_node prepare x) ++ s.passed)
      unfolding visit calc_chance
      visit_certain x s m =
          let (k, (_, p, _, _, all)) = clones-Cloned (d.count - 1) x s in
          let full : replicate k (clone_node prepare x)
              ≡ replicate (d.count - 1) (clone_node prepare x) =
            ap (λ (i : ℕ). replicate i (clone_node prepare x)) (all plenty) in
          let q : (clones rand alloc prepare (d.count - 1) x s).passed
              ≡ replicate (d.count - 1) (clone_node prepare x) ++ s.passed =
            p ∙ ap (λ (zs : List PacketNode). zs ++ s.passed) full in
          ground (arith, q)

      visit_other :
          (x : PacketNode) (s : Walk)
          → matches d x ≡ false
          → (visit rand alloc prepare d x s).passed ≡ x ∷ s.passed
      unfolding visit
      visit_other x s m = ground arith

      walk-multiplied :
          (xs : List PacketNode) (s : Walk)
          → (walk rand alloc prepare d xs s).passed ≡ reverse_aux (multiplied xs) s.passed
      unfolding walk
      walk-multiplied [] s = refl
      walk-multiplied (x ∷ xs) s =
          let rest = walk-multiplied xs (visit rand alloc prepare d x s) in
          let copies = replicate (d.count - 1) (clone_node prepare x) in
          elim (Bool-cases (matches d x)) [
            | inl m ↦ rw m (
                rest
                ∙ ap (reverse_aux (multiplied xs)) (visit_certain x s m)
                ∙ sym (
                    reverse_aux-replicate (d.count - 1) (clone_node prepare x) (x ∷ multiplied xs)
                      s.passed))
            | inr other ↦ rw other (rest ∙ ap (reverse_aux (multiplied xs)) (visit_other x s other))
          ]

      -- With chance 10000, and memory for every copy, `dupProcess` leaves exactly `count` of every packet of a handled
      -- direction, the copies straight before the original, and one of every other, in order.
      pub process-multiplied :
          (queue : List PacketNode) (w : World)
          → (process rand alloc prepare d queue w).queue ≡ multiplied queue
      unfolding process
      process-multiplied queue w =
          ap reverse (
            walk-multiplied queue
              (record { passed = []; allocs = 0; affected = d.affected; world = w; duped = false }))
          ∙ reverse-reverse (multiplied queue)
