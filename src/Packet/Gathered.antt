-- ===== src/Packet/Gathered.antt =====
-- What the collecting loop of lag.cpp, jitter.cpp and throttle.cpp leaves in the list and the buffer.
use clumsy.Prelude.{
  ap₂, ℕ, suc, ◌+◌, ◌≤◌, ◌≡◌, refl, sym, ap, ◌∙◌, subst, Bool, true, false, List, [], ◌∷◌, ◌++◌,
  ◌%◌, reverse_aux, append-nil, append_assoc, arith, ltb, length, reject, select, map, Bool-cases,
  inl, inr, word,
}
use clumsy.Packet.{PacketNode, World, content, Content, holding}
use clumsy.Packet.Sweep.{Sift, done, kept, lost}
use clumsy.Packet.Collect.{Buffer, take_in, gather}

-- Two lists of one length, related entry by entry.
abbrev pub Each : (PacketNode → PacketNode → Type 0) → List PacketNode → List PacketNode → Type 0
Each R [] [] = Unit {0}
Each R [] (y ∷ ys) = ⊥
Each R (x ∷ xs) [] = ⊥
Each R (x ∷ xs) (y ∷ ys) = R x y × Each R xs ys

-- Nothing was freed and no delay recorded.
abbrev pub Settled : World → World → Type 0
Settled w' w = (w'.freed ≡ w.freed) × (w'.hist ≡ w.hist)

-- `stamp` relates what it stores to what it took, frees nothing and records nothing.
abbrev pub Stamps :
    (PacketNode → PacketNode → Type 0) → (World → PacketNode → PacketNode × World) → Type 0
Stamps R stamp = (w : World) (n : PacketNode) → R (stamp w n).0 n × Settled (stamp w n).1 w

module _ (matches : PacketNode → Bool) (stamp : World → PacketNode → PacketNode × World) (cap : ℕ)
    (R : PacketNode → PacketNode → Type 0) (stamps : Stamps R stamp) where
  -- `ks` stayed in the list and `ts` were taken, nearest to `tail` first; `ns` is what the buffer
  -- holds of them. With room to spare, exactly the matching packets were taken.
  abbrev pub Gathered :
      Buffer → List PacketNode → List PacketNode → List PacketNode × Buffer → Type 0
  Gathered b before after r =
      (ks : List PacketNode) × (ts : List PacketNode) × (ns : List PacketNode) × Sift
        (λ x. matches x ≡ true) before ks ts
      × (r.0 ≡ reverse_aux ks after)
      × (r.1.nodes ≡ b.nodes ++ ns)
      × Each R ns ts
      × (r.1.size ≡ b.size + length ns)
      × (r.1.affected % word ≡ (b.affected + length ns) % word)
      × Settled r.1.world b.world
      × (b.size ≤ cap → r.1.size ≤ cap)
      × (ltb r.1.size cap ≡ true → (ks ≡ reject matches before) × (ts ≡ select matches before))

  all_kept : (xs : List PacketNode) → Sift (λ x. matches x ≡ true) xs xs []
  all_kept [] = done
  all_kept (x ∷ xs) = kept (all_kept xs)

  Gathered-nil : (b : Buffer) (after : List PacketNode) → Gathered b [] after (after, b)
  Gathered-nil b after = (
    [],
    [],
    [],
    done,
    refl,
    sym (append-nil b.nodes),
    tt,
    omega arith,
    ground arith,
    (refl, refl),
    (λ h. h),
    λ h. (refl, refl),
  )

  gather_nil :
      (after : List PacketNode) (b : Buffer) → gather matches stamp cap [] after b ≡ (after, b)
  unfolding gather
  gather_nil after b = refl

  Gathered-stop :
      (b : Buffer) (before after : List PacketNode)
      → ltb b.size cap ≡ false
      → Gathered b before after (reverse_aux before after, b)
  Gathered-stop b before after e = (
    before,
    [],
    [],
    all_kept before,
    refl,
    sym (append-nil b.nodes),
    tt,
    omega arith,
    ground arith,
    (refl, refl),
    (λ h. h),
    λ h. cc,
  )

  Gathered-take :
      (b : Buffer) (x : PacketNode) (before after : List PacketNode) (r : List PacketNode × Buffer)
      → ltb b.size cap ≡ true
      → matches x ≡ true
      → Gathered (take_in matches stamp cap b x) before after r
      → Gathered b (x ∷ before) after r
  Gathered-take b x before after r room m (ks, ts, ns, s, q, n, e, z, a, f, l, t) = (
    ks,
    x ∷ ts,
    (stamp b.world x).0 ∷ ns,
    lost m s,
    q,
    n ∙ append_assoc b.nodes ((stamp b.world x).0 ∷ []) ns,
    ((stamps b.world x).0, e),
    omega arith,
    ground arith,
    (f.0 ∙ (stamps b.world x).1.0, f.1 ∙ (stamps b.world x).1.1),
    (λ h. l (ground arith)),
    λ h. ground (arith, t h),
  )

  Gathered-skip :
      (b : Buffer) (x : PacketNode) (before after : List PacketNode) (r : List PacketNode × Buffer)
      → matches x ≡ false
      → Gathered b before (x ∷ after) r
      → Gathered b (x ∷ before) after r
  Gathered-skip b x before after r m (ks, ts, ns, s, q, n, e, z, a, f, l, t) =
      (x ∷ ks, ts, ns, kept s, q, n, e, z, a, f, l, λ h. ground (arith, t h))

  module _ (x : PacketNode) (before after : List PacketNode) (b : Buffer) where
    gather_full :
        ltb b.size cap ≡ false
        → gather matches stamp cap (x ∷ before) after b ≡ (reverse_aux (x ∷ before) after, b)
    unfolding gather
    gather_full e = ground arith

    gather_take :
        ltb b.size cap ≡ true
        → matches x ≡ true
        → gather matches stamp cap (x ∷ before) after b
          ≡ gather matches stamp cap before after (take_in matches stamp cap b x)
    unfolding gather
    gather_take e m = ground arith

    gather_skip :
        ltb b.size cap ≡ true
        → matches x ≡ false
        → gather matches stamp cap (x ∷ before) after b
          ≡ gather matches stamp cap before (x ∷ after) b
    unfolding gather
    gather_skip e m = ground arith

  pub gather-Gathered :
      (before after : List PacketNode) (b : Buffer)
      → Gathered b before after (gather matches stamp cap before after b)
  gather-Gathered [] after b =
      subst (Gathered b [] after) (sym (gather_nil after b)) (Gathered-nil b after)
  gather-Gathered (x ∷ before) after b = elim (Bool-cases (ltb b.size cap)) [
    | inr full ↦
        subst (Gathered b (x ∷ before) after) (sym (gather_full x before after b full))
          (Gathered-stop b (x ∷ before) after full)
    | inl room ↦ elim (Bool-cases (matches x)) [
      | inl m ↦ subst (Gathered b (x ∷ before) after) (sym (gather_take x before after b room m)) (
          Gathered-take b x before after
            (gather matches stamp cap before after (take_in matches stamp cap b x)) room m
            (gather-Gathered before after (take_in matches stamp cap b x)))
      | inr m ↦ subst (Gathered b (x ∷ before) after) (sym (gather_skip x before after b room m)) (
          Gathered-skip b x before after (gather matches stamp cap before (x ∷ after) b) m
            (gather-Gathered before (x ∷ after) b))
    ]
  ]

-- What a node keeps through stamping, it keeps in the buffer: contents are neither lost nor made up.
pub holding-Each :
    (R : PacketNode → PacketNode → Type 0) (p : Content → Bool) (ns ts : List PacketNode)
    → ((x y : PacketNode) → R x y → content x ≡ content y)
    → Each R ns ts
    → holding p ns ≡ holding p ts
holding-Each R p [] [] h e = refl
holding-Each R p [] (y ∷ ys) h e = elim e [ ]
holding-Each R p (x ∷ xs) [] h e = elim e [ ]
holding-Each R p (x ∷ xs) (y ∷ ys) h e =
    let same : p (content x) ≡ p (content y) = ap p (h x y e.0) in
    rw same (omega (arith, holding-Each R p xs ys h e.1))

pub holding-Sift :
    {m : PacketNode → Type 0} {xs ks ls : List PacketNode} (p : Content → Bool)
    → Sift m xs ks ls
    → holding p xs ≡ holding p ks + holding p ls
holding-Sift p done = omega arith
holding-Sift p (kept s) = omega (arith, holding-Sift p s)
holding-Sift p (lost h s) = omega (arith, holding-Sift p s)

pub holding-reverse_aux :
    (p : Content → Bool) (xs ys : List PacketNode)
    → holding p (reverse_aux xs ys) ≡ holding p xs + holding p ys
holding-reverse_aux p [] ys = omega arith
holding-reverse_aux p (x ∷ xs) ys = omega (arith, holding-reverse_aux p xs (x ∷ ys))

pub length-Each :
    (R : PacketNode → PacketNode → Type 0) (ns ts : List PacketNode)
    → Each R ns ts
    → length ns ≡ length ts
length-Each R [] [] e = refl
length-Each R [] (y ∷ ys) e = elim e [ ]
length-Each R (x ∷ xs) [] e = elim e [ ]
length-Each R (x ∷ xs) (y ∷ ys) e = ap suc (length-Each R xs ys e.1)

pub length-Sift :
    {m : PacketNode → Type 0} {xs ks ls : List PacketNode}
    → Sift m xs ks ls
    → length xs ≡ length ks + length ls
length-Sift done = omega arith
length-Sift (kept s) = omega (arith, length-Sift s)
length-Sift (lost h s) = omega (arith, length-Sift s)

pub Each-map :
    (f : PacketNode → PacketNode) (ns ts : List PacketNode)
    → Each (λ n t. n ≡ f t) ns ts
    → ns ≡ map f ts
Each-map f [] [] e = refl
Each-map f [] (y ∷ ys) e = elim e [ ]
Each-map f (x ∷ xs) [] e = elim e [ ]
Each-map f (x ∷ xs) (y ∷ ys) e =
    ap₂ (λ (n : PacketNode) (r : List PacketNode). n ∷ r) e.0 (Each-map f xs ys e.1)
