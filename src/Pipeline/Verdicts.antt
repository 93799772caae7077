-- ===== src/Pipeline/Verdicts.antt =====
-- divert_linux.cpp: each packet from the queue gets one verdict, and only one.
use clumsy.Prelude.{
  ℕ, ◌+◌, ◌≡◌, ◌≢◌, refl, ap, ◌∙◌, inl, inr, true, false, List, [], ◌∷◌, arith, reverse,
  tally-reverse, if◌then◌else◌, Bool-cases,
}
use clumsy.Packet.{PacketNode, World}
use clumsy.Pipeline.{
  Kernel, Verdict, accept, drop, Stage, Passed, Divert, settle_verdict, backend_on_free, send_one,
  send_all, free_nodes, started, run_stage, run_stages, consume_step,
}
use clumsy.Pipeline.Lawful.{awaits, waiting, answers, Lawful, AllLawful, held_by}

-- The kernel got `n` answers more for an id, and still listens.
abbrev Answered : ℕ → ℕ → Kernel → Kernel → Type 0
Answered id n k k' = (answers id k'.verdicts ≡ answers id k.verdicts + n) × (k'.queue_open ≡ true)

module _ (id : ℕ) (some_id : id ≢ 0) where
  settle_verdict-Answered :
      (node : PacketNode) (v : Verdict) (k : Kernel)
      → k.queue_open ≡ true
      → Answered id (if awaits id node.backend then 1 else 0) k (settle_verdict node v k).1
        × (awaits id (settle_verdict node v k).0.backend ≡ false)
  unfolding settle_verdict
  settle_verdict-Answered node v k live =
      ((ground (arith, some_id), ground (arith, live)), ground (arith, some_id))

  backend_on_free-Answered :
      (node : PacketNode) (k : Kernel)
      → k.queue_open ≡ true
      → Answered id (if awaits id node.backend then 1 else 0) k (backend_on_free node k)
  unfolding backend_on_free
  backend_on_free-Answered node k live = (settle_verdict-Answered node drop k live).0

  send_one-Answered :
      (node : PacketNode) (k : Kernel)
      → k.queue_open ≡ true
      → Answered id (if awaits id node.backend then 1 else 0) k (send_one node k)
  unfolding send_one
  send_one-Answered node k live =
      let (first, gone) = settle_verdict-Answered node accept k live in
      let done = settle_verdict node accept k in
      let second = backend_on_free-Answered done.0 done.1 first.1 in
      let other = backend_on_free-Answered node (record k { raw = node ∷ k.raw }) live in
      (ground (arith, first.0, second.0, gone, other.0), ground (arith, second.1, other.1))

  pub free_nodes-Answered :
      (nodes : List PacketNode) (k : Kernel)
      → k.queue_open ≡ true
      → Answered id (waiting id nodes) k (free_nodes nodes k)
  unfolding free_nodes
  free_nodes-Answered [] k live = (omega arith, live)
  free_nodes-Answered (node ∷ rest) k live =
      let (a, o) = backend_on_free-Answered node k live in
      let (b, p) = free_nodes-Answered rest (backend_on_free node k) o in (omega (arith, a, b), p)

  pub send_all-Answered :
      (nodes : List PacketNode) (k : Kernel)
      → k.queue_open ≡ true
      → Answered id (waiting id nodes) k (send_all nodes k)
  unfolding send_all
  send_all-Answered [] k live = (omega arith, live)
  send_all-Answered (node ∷ rest) k live =
      let (a, o) = send_one-Answered node k live in
      let (b, p) = send_all-Answered rest (send_one node k) o in (omega (arith, a, b), p)

  started-Keeps :
      (st : Stage) (w : World)
      → Lawful st.ops
      → waiting id (st.ops.held (started st w).0) + waiting id (started st w).1.freed
        ≡ waiting id (st.ops.held st.state) + waiting id w.freed
  started-Keeps st w law = elim (Bool-cases st.last_enabled) [
    | inl on ↦ rw on refl
    | inr off ↦ rw off (law.starts id st.state w)
  ]

  -- A module that keeps the contract passes on, holds back or frees what it gets.
  abbrev StageKeeps : Stage → List PacketNode → World → Passed → Type 0
  StageKeeps st queue w p =
      waiting id p.queue + waiting id (p.stage.ops.held p.stage.state) + waiting id p.world.freed
      ≡ waiting id queue + waiting id (st.ops.held st.state) + waiting id w.freed

  run_stage-Keeps :
      (st : Stage) (now : ℕ) (queue : List PacketNode) (w : World)
      → Lawful st.ops
      → StageKeeps st queue w (run_stage st now queue w)
  unfolding run_stage
  run_stage-Keeps st now queue w law =
      let begun = started-Keeps st w law in
      let (s, w') = started st w in
      let keeps = law.keeps id s now queue w' in
      elim (Bool-cases (st.ops.enabled st.state)) [
        | inl on ↦ rw on (keeps ∙ omega (arith, begun))
        | inr off ↦ elim (Bool-cases st.last_enabled) [
          | inl was ↦ rw (off, was) (law.flushes id st.state queue w)
          | inr idle ↦ rw (off, idle) refl
        ]
      ]

  run_stages-Keeps :
      (sts : List Stage) (now : ℕ) (queue : List PacketNode) (w : World)
      → AllLawful sts
      → let (sts', queue', w') = run_stages sts now queue w in
        (waiting id queue' + held_by id sts' + waiting id w'.freed
          ≡ waiting id queue + held_by id sts + waiting id w.freed)
  unfolding run_stages
  run_stages-Keeps [] now queue w laws = refl
  run_stages-Keeps (st ∷ sts) now queue w (law, laws) =
      let p = run_stage st now queue w in
      omega
        (arith, run_stage-Keeps st now queue w law, run_stages-Keeps sts now p.queue p.world laws)

-- A step of the pipeline answers for every packet: from a state with no freed packet unanswered and the queue
-- open, with modules that keep their contract, the answers that the kernel gets for an id other than 0 in `divertConsumeStep` are as many
-- as the packets with that id that were waiting in the list or in a module, less those that are still
-- held back by a module; and the list is empty again.
pub consume_step-Answers :
    (id now : ℕ) (d : Divert)
    → id ≢ 0
    → AllLawful d.stages
    → d.kernel.queue_open ≡ true
    → d.world.freed ≡ []
    → let d' = consume_step now d in
      (answers id d'.kernel.verdicts + held_by id d'.stages
        ≡ answers id d.kernel.verdicts + (waiting id d.queue + held_by id d.stages))
      × (d'.queue ≡ [])
      × (d'.world.freed ≡ [])
      × (d'.kernel.queue_open ≡ true)
unfolding consume_step
consume_step-Answers id now d some_id laws live none_freed =
    let r = run_stages d.stages now d.queue d.world in
    let kept = run_stages-Keeps id some_id d.stages now d.queue d.world laws in
    let (a, o) = free_nodes-Answered id some_id (reverse r.2.freed) d.kernel live in
    let (b, p) =
      send_all-Answered id some_id (reverse r.1) (free_nodes (reverse r.2.freed) d.kernel) o in
    let q = tally-reverse (λ n. awaits id n.backend) r.1 in
    let f = tally-reverse (λ n. awaits id n.backend) r.2.freed in
    let start = ap (waiting id) none_freed in
    (omega (arith, kept, a, b, q, f, start), refl, refl, p)

-- The modules of the pipeline stay those that they were.
run_stage-Lawful :
    (st : Stage) (now : ℕ) (queue : List PacketNode) (w : World)
    → Lawful st.ops
    → Lawful (run_stage st now queue w).stage.ops
unfolding run_stage
run_stage-Lawful st now queue w law = elim (Bool-cases (st.ops.enabled st.state)) [
  | inl on ↦ rw on law
  | inr off ↦ elim (Bool-cases st.last_enabled) [
    | inl was ↦ rw (off, was) law
    | inr idle ↦ rw (off, idle) law
  ]
]

run_stages-Lawful :
    (sts : List Stage) (now : ℕ) (queue : List PacketNode) (w : World)
    → AllLawful sts
    → AllLawful (run_stages sts now queue w).0
unfolding run_stages
run_stages-Lawful [] now queue w laws = tt
run_stages-Lawful (st ∷ sts) now queue w (law, laws) =
    let p = run_stage st now queue w in
    (run_stage-Lawful st now queue w law, run_stages-Lawful sts now p.queue p.world laws)

-- The state between two packets.
pub record Idle (d : Divert) : Type 0 where
  pub laws : AllLawful d.stages
  pub live : d.kernel.queue_open ≡ true
  pub settled : d.world.freed ≡ []
  pub empty : d.queue ≡ []

-- Answers given for an id, and packets with it that are held back.
abbrev pub accounted : ℕ → Divert → ℕ
accounted id d = answers id d.kernel.verdicts + held_by id d.stages

pub consume_step-Idle :
    (now : ℕ) (d : Divert) (queue : List PacketNode)
    → Idle d
    → Idle (consume_step now (record d { queue = queue }))
unfolding consume_step
consume_step-Idle now d queue i =
    let r = run_stages d.stages now queue d.world in
    let (_, o) = free_nodes-Answered 1 (λ e. ground arith) (reverse r.2.freed) d.kernel i.live in
    let (_, p) =
      send_all-Answered 1 (λ e. ground arith) (reverse r.1)
        (free_nodes (reverse r.2.freed) d.kernel) o in
    record {
      laws = run_stages-Lawful d.stages now queue d.world i.laws;
      live = p;
      settled = refl;
      empty = refl;
    }
