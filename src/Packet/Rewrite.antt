-- ===== src/Packet/Rewrite.antt =====
-- The loop of tamper.cpp and reset.cpp: every packet of the list is visited in order and may be changed in
-- place; none is taken out.
use clumsy.Prelude.{
  ◌⊎◌, inl, inr, ℕ, zero, suc, ◌≡◌, refl, sym, ap, ◌∙◌, lt→ltb, Bool, true, false, ◌||◌, List, [],
  ◌∷◌, arith, ltb,
}
use clumsy.Packet.{PacketNode, World, Outcome}

-- What the body of the loop leaves: the packet, whether it was changed, and the state.
pub record Touched (S : Type 0) : Type 0 where
  pub node : PacketNode
  pub hit : Bool
  pub state : S
  pub world : World

unfoldable pub visit_all :
    {S : Type 0} → (S → World → PacketNode → Touched S) → S → List PacketNode → World → Outcome S
visit_all visit s [] w = record { queue = []; triggered = false; state = s; world = w }
visit_all visit s (pac ∷ rest) w =
    let t = visit s w pac in
    let r = visit_all visit t.state rest t.world in
    record {
      queue = t.node ∷ r.queue;
      triggered = t.hit || r.triggered;
      state = r.state;
      world = r.world;
    }

-- Every packet stays in its place, changed as `Change` says or as it was, and this many are changed.
abbrev pub Rewritten :
    (PacketNode → PacketNode → Type 0) → List PacketNode → ℕ → List PacketNode → Type 0
Rewritten Change [] zero [] = Unit {0}
Rewritten Change (p ∷ ps) n (q ∷ qs) =
    ((q ≡ p) × Rewritten Change ps n qs)
    ⊎ ((k : ℕ) × (n ≡ suc k) × Change p q × Rewritten Change ps k qs)
Rewritten Change _ _ _ = ⊥

abbrev pub All : (PacketNode → Type 0) → List PacketNode → Type 0
All P [] = Unit {0}
All P (p ∷ ps) = P p × All P ps

-- A change that is known better of the packets of a list.
pub Rewritten-map :
    (Fine : PacketNode → Type 0) (Change Change' : PacketNode → PacketNode → Type 0)
    → ((p q : PacketNode) → Fine p → Change p q → Change' p q)
    → (ps : List PacketNode) (n : ℕ) (qs : List PacketNode) → All Fine ps
    → Rewritten Change ps n qs
    → Rewritten Change' ps n qs
Rewritten-map Fine Change Change' f [] zero [] fine r = tt
Rewritten-map Fine Change Change' f [] zero (q ∷ qs) fine r = elim r [ ]
Rewritten-map Fine Change Change' f [] (suc n) qs fine r = elim r [ ]
Rewritten-map Fine Change Change' f (p ∷ ps) n [] fine r = elim r [ ]
Rewritten-map Fine Change Change' f (p ∷ ps) n (q ∷ qs) (fine, rest) (inl (e, r)) =
    inl (e, Rewritten-map Fine Change Change' f ps n qs rest r)
Rewritten-map Fine Change Change' f (p ∷ ps) n (q ∷ qs) (fine, rest) (inr (k, e, c, r)) =
    inr (k, e, f p q fine c, Rewritten-map Fine Change Change' f ps k qs rest r)

abbrev pub iterate : {C : Type 0} → ℕ → (C → C) → C → C
iterate zero f c = c
iterate (suc n) f c = iterate n f (f c)

-- What a call leaves: how many packets it changed, that it says so, what it counts, and that it frees nothing.
abbrev pub Rewrites :
    {S C : Type 0}
    → (S → C)
    → (C → C)
    → (PacketNode → PacketNode → Type 0)
    → S
    → List PacketNode
    → World
    → Outcome S
    → Type 0
Rewrites counter next Change s queue w r =
    (n : ℕ) × Rewritten Change queue n r.queue
    × (r.triggered ≡ ltb 0 n)
    × (counter r.state ≡ iterate n next (counter s))
    × (r.world.freed ≡ w.freed)

-- A module that changes packets in place: what it counts and how, what it does to a packet, and what a visit
-- keeps of its state.
module _ {S C : Type 0} (visit : S → World → PacketNode → Touched S) (counter : S → C)
    (next : C → C) (Change : PacketNode → PacketNode → Type 0) (Same : S → Type 0) where
  -- One visit: nothing happens, or the packet is changed and counted.
  pub record Visited (s : S) (w : World) (pac : PacketNode) (t : Touched S) : Type 0 where
    pub same : Same t.state
    pub freed : t.world.freed ≡ w.freed
    pub effect :
        ((t.hit ≡ false) × (t.node ≡ pac) × (counter t.state ≡ counter s))
        ⊎ ((t.hit ≡ true) × Change pac t.node × (counter t.state ≡ next (counter s)))

  pub visit_all-Rewrites :
      ((s : S) (w : World) (pac : PacketNode) → Same s → Visited s w pac (visit s w pac))
      → (s : S) (queue : List PacketNode) (w : World) → Same s
      → Rewrites counter next Change s queue w (visit_all visit s queue w)
  unfolding visit_all
  visit_all-Rewrites one s [] w same = (0, tt, refl, refl, refl)
  visit_all-Rewrites one s (pac ∷ rest) w same =
      let t = visit s w pac in
      let v = one s w pac same in
      let (n, ps, says, total, freed) = visit_all-Rewrites one t.state rest t.world v.same in
      elim v.effect [
        | inl (quiet, kept, counted) ↦ (
          n,
          inl (kept, ps),
          rw (quiet, says) refl,
          total ∙ ap (iterate n next) counted,
          freed ∙ v.freed,
        )
        | inr (loud, change, counted) ↦ (
          suc n,
          inr (n, refl, change, ps),
          rw loud (sym (lt→ltb 0 (suc n) (omega arith))),
          total ∙ ap (iterate n next) counted,
          freed ∙ v.freed,
        )
      ]
