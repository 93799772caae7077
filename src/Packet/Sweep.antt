-- ===== src/Packet/Sweep.antt =====
-- The loop of drop.cpp, burstloss.cpp and blackout.cpp: it walks the packet list from `head` to
-- `tail`, and frees a packet or passes it by.
use clumsy.Prelude.{
  interlocked_increment, word, ℕ, suc, ◌+◌, ◌≡◌, refl, ◌⊎◌, inl, inr, Bool, true, false, List, [],
  ◌∷◌, ◌%◌, reverse, reverse_aux, reverse-reverse, arith, length, ltb, if◌then◌else◌,
}
use clumsy.Packet.{PacketNode, World, free_node}

-- `passed` is what the cursor has left behind, nearest first; `world.freed` what it has freed.
pub record Sweep : Type 0 where
  pub passed : List PacketNode
  pub world : World
  pub affected : ℕ
  pub dropped : ℕ

abbrev pub begin : World → ℕ → Sweep
begin w affected = record { passed = []; world = w; affected = affected; dropped = 0 }

-- `head = head->next`.
abbrev pub pass : Sweep → World → PacketNode → Sweep
pass s w pac = record s { passed = pac ∷ s.passed; world = w }

-- `freeNode(popNode(pac)); ++dropped; InterlockedIncrement(&affectedCount)`.
abbrev pub discard : Sweep → World → PacketNode → Sweep
discard s w pac = record s {
  world = free_node w pac;
  affected = interlocked_increment s.affected;
  dropped = s.dropped + 1;
}

-- A list parted in two, in order: the packets kept, and those lost, which all satisfy `m`.
pub data Sift {ℓ} (m : PacketNode → Type ℓ)
    : List PacketNode → List PacketNode → List PacketNode → Type ℓ where
  done : Sift m [] [] []
  kept :
      {x : PacketNode} {xs ks ls : List PacketNode} → Sift m xs ks ls → Sift m (x ∷ xs) (x ∷ ks) ls
  lost :
      {x : PacketNode} {xs ks ls : List PacketNode}
      → m x
      → Sift m xs ks ls
      → Sift m (x ∷ xs) ks (x ∷ ls)

-- What one visit may do.
abbrev pub Visit {ℓ} : (PacketNode → Type ℓ) → Sweep → PacketNode → Sweep → Type ℓ
Visit m s pac t =
    ((w : World) × (w.freed ≡ s.world.freed) × (t ≡ pass s w pac))
    ⊎ ((w : World) × (w.freed ≡ s.world.freed) × (t ≡ discard s w pac) × m pac)

pub add_wrapped : (a k : ℕ) → ((a + 1) % word + k) % word ≡ (a + suc k) % word
add_wrapped a k = omega arith

-- A sweep whose visits pass or discard parts the list it walks.
abbrev pub Swept {ℓ} : (PacketNode → Type ℓ) → Sweep → List PacketNode → Sweep → Type ℓ
Swept m s xs t =
    (ks : List PacketNode) × (ls : List PacketNode) × Sift m xs ks ls
    × (t.passed ≡ reverse_aux ks s.passed)
    × (t.world.freed ≡ reverse_aux ls s.world.freed)
    × (t.affected % word ≡ (s.affected + length ls) % word)
    × (t.dropped ≡ s.dropped + length ls)

pub Swept-pass {ℓ} :
    (m : PacketNode → Type ℓ) (s : Sweep) (x : PacketNode) (xs : List PacketNode) (t r : Sweep)
    → Visit m s x t
    → Swept m t xs r
    → Swept m s (x ∷ xs) r
Swept-pass m s x xs t r (inl (w, same, e)) (ks, ls, sift, p, f, a, d) =
    (x ∷ ks, ls, kept sift, ground arith, ground arith, ground arith, ground arith)
Swept-pass m s x xs t r (inr (w, same, e, hit)) (ks, ls, sift, p, f, a, d) =
    (ks, x ∷ ls, lost hit sift, ground arith, ground arith, ground arith, ground arith)

pub Swept-nil {ℓ} : (m : PacketNode → Type ℓ) (s : Sweep) → Swept m s [] s
Swept-nil m s = ([], [], done, refl, refl, ground arith, ground arith)

-- What a whole sweep leaves: the packets of `before` are those of `after`, in order, and the lost
-- ones, each freed once and counted.
abbrev pub Parted {ℓ} :
    (PacketNode → Type ℓ)
    → List PacketNode
    → World
    → ℕ
    → Bool
    → List PacketNode
    → World
    → ℕ
    → Type ℓ
Parted m before w affected triggered after w' affected' =
    (ls : List PacketNode) × Sift m before after ls
    × (w'.freed ≡ reverse_aux ls w.freed)
    × (affected' % word ≡ (affected + length ls) % word)
    × (triggered ≡ ltb 0 (length ls))

pub Parted-sweep {ℓ} :
    (m : PacketNode → Type ℓ) (before : List PacketNode) (w : World) (affected : ℕ) (s : Sweep)
    → Swept m (begin w affected) before s
    → Parted m before w affected (ltb 0 s.dropped) (reverse s.passed) s.world s.affected
Parted-sweep m before w affected s (ks, ls, sift, p, f, a, d) =
    (ls, rw (p, reverse-reverse ks) sift, f, a, ground arith)

-- A visit that passes by what it does not handle, and discards the rest on a roll.
pub Visit-roll {ℓ} :
    (m : PacketNode → Type ℓ) (handled hit : Bool) (w : World) (s : Sweep) (pac : PacketNode)
    → w.freed ≡ s.world.freed
    → (handled ≡ true → m pac)
    → Visit m s pac
        (if handled then (if hit then discard s w pac else pass s w pac) else pass s s.world pac)
Visit-roll m true true w s pac e h = inr (w, e, refl, h refl)
Visit-roll m true false w s pac e h = inl (w, e, refl)
Visit-roll m false hit w s pac e h = inl (s.world, refl, refl)
