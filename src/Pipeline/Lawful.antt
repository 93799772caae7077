-- ===== src/Pipeline/Lawful.antt =====
-- What divert_linux.cpp relies on in a module, and how many packets wait for their verdict.
use clumsy.Prelude.{ℕ, ◌+◌, ◌≡◌, Bool, ◌&&◌, not, List, [], ◌∷◌, ◌==◌, tally}
use clumsy.Packet.{PacketNode, World, Outcome}
use clumsy.Pipeline.{Module, Stage, Verdict, packet_id, verdict_issued, synthetic}

-- A packet from the queue that has no verdict yet.
abbrev pub awaits : ℕ → List ℕ → Bool
awaits id blob = packet_id blob == id && not (verdict_issued blob) && not (synthetic blob)

abbrev pub waiting : ℕ → List PacketNode → ℕ
waiting id = tally (λ n. awaits id n.backend)

abbrev pub answers : ℕ → List (ℕ × Verdict) → ℕ
answers id = tally (λ v. v.0 == id)

-- The packets that wait stand in the list, in the module or among the freed ones, as many as before.
abbrev pub Keeps : ℕ → {S : Type 0} → Module S → S → List PacketNode → World → Outcome S → Type 0
Keeps id m s queue w r =
    waiting id r.queue + waiting id (m.held r.state) + waiting id r.world.freed
    ≡ waiting id queue + waiting id (m.held s) + waiting id w.freed

-- The contract of a module: what it does not pass on it holds back or frees.
pub record Lawful {S : Type 0} (m : Module S) : Type 0 where
  pub starts :
      (id : ℕ) (s : S) (w : World)
      → let (s', w') = m.start_up s w in
        waiting id (m.held s') + waiting id w'.freed ≡ waiting id (m.held s) + waiting id w.freed
  pub keeps :
      (id : ℕ) (s : S) (now : ℕ) (queue : List PacketNode) (w : World)
      → Keeps id m s queue w (m.process s now queue w)
  pub flushes :
      (id : ℕ) (s : S) (queue : List PacketNode) (w : World)
      → Keeps id m s queue w (m.close_down s queue w)
  pub empties :
      (s : S) (queue : List PacketNode) (w : World) → m.held (m.close_down s queue w).state ≡ []

abbrev pub AllLawful : List Stage → Type 0
AllLawful [] = Unit {0}
AllLawful (st ∷ sts) = Lawful st.ops × AllLawful sts

-- What all the modules hold back.
abbrev pub held_by : ℕ → List Stage → ℕ
held_by id [] = 0
held_by id (st ∷ sts) = waiting id (st.ops.held st.state) + held_by id sts
