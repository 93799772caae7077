-- ===== src/Pipeline/Stop.antt =====
-- divert_linux.cpp: what is left unanswered when the capture stops.
use clumsy.Prelude.{
  ℕ, ◌+◌, ◌≡◌, ◌≢◌, refl, ap, inl, inr, List, [], ◌∷◌, arith, reverse, tally-reverse, if◌then◌else◌,
  Bool-cases,
}
use clumsy.Packet.{PacketNode, World}
use clumsy.Pipeline.{Stage, Passed, Divert, close_stage, close_stages, stop, free_nodes}
use clumsy.Pipeline.Lawful.{waiting, awaits, answers, Lawful, AllLawful, held_by}
use clumsy.Pipeline.Verdicts.{free_nodes-Answered, send_all-Answered, Idle, accounted}

-- What modules hold back whose flag is off.
abbrev pub stranded : ℕ → List Stage → ℕ
stranded id [] = 0
stranded id (st ∷ sts) =
    (if st.ops.enabled st.state then 0 else waiting id (st.ops.held st.state)) + stranded id sts

module _ (id : ℕ) where
  abbrev Closed : Stage → List PacketNode → World → Passed → Type 0
  Closed st queue w p =
      (waiting id p.queue + waiting id (p.stage.ops.held p.stage.state) + waiting id p.world.freed
        ≡ waiting id queue + waiting id (st.ops.held st.state) + waiting id w.freed)
      × (waiting id (p.stage.ops.held p.stage.state)
          ≡ (if st.ops.enabled st.state then 0 else waiting id (st.ops.held st.state)))

  close_stage-Closed :
      (st : Stage) (queue : List PacketNode) (w : World)
      → Lawful st.ops
      → Closed st queue w (close_stage st queue w)
  unfolding close_stage
  close_stage-Closed st queue w law = elim (Bool-cases (st.ops.enabled st.state)) [
    | inl on ↦
        rw on (law.flushes id st.state queue w, ap (waiting id) (law.empties st.state queue w))
    | inr off ↦ rw off (refl, refl)
  ]

  close_stages-Closed :
      (sts : List Stage) (queue : List PacketNode) (w : World)
      → AllLawful sts
      → let (sts', queue', w') = close_stages sts queue w in
        (waiting id queue' + held_by id sts' + waiting id w'.freed
          ≡ waiting id queue + held_by id sts + waiting id w.freed)
        × (held_by id sts' ≡ stranded id sts)
  unfolding close_stages
  close_stages-Closed [] queue w laws = (refl, refl)
  close_stages-Closed (st ∷ sts) queue w (law, laws) =
      let p = close_stage st queue w in
      let (a, b) = close_stage-Closed st queue w law in
      let (c, e) = close_stages-Closed sts p.queue p.world laws in
      (omega (arith, a, c), omega (arith, b, e))

-- When the capture stops, every packet with an id other than 0 that waits for its verdict gets it, but for those that a module holds back whose
-- flag is off: those stay in its buffer, unanswered. (The loop closes the modules by their flag, and not by
-- `lastEnabled`, so a module that was switched off since the last step keeps its packets.)
pub stop-Stranded :
    (id : ℕ) (d : Divert)
    → id ≢ 0
    → Idle d
    → let d' = stop d in
      (answers id d'.kernel.verdicts + stranded id d.stages ≡ accounted id d)
      × (held_by id d'.stages ≡ stranded id d.stages)
unfolding stop
stop-Stranded id d some_id v =
    let r = close_stages d.stages d.queue d.world in
    let (kept, rest) = close_stages-Closed id d.stages d.queue d.world v.laws in
    let (a, o) = free_nodes-Answered id some_id (reverse r.2.freed) d.kernel v.live in
    let (b, _) =
      send_all-Answered id some_id (reverse r.1) (free_nodes (reverse r.2.freed) d.kernel) o in
    let test = λ (n : PacketNode). awaits id n.backend in
    let none_freed = ap (waiting id) v.settled in
    let none_listed = ap (waiting id) v.empty in
    (
      omega (
        arith,
        kept,
        rest,
        a,
        b,
        tally-reverse test r.1,
        tally-reverse test r.2.freed,
        none_freed,
        none_listed,
      ),
      rest,
    )
