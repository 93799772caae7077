-- ===== src/Pipeline.antt =====
-- divert_linux.cpp: from the NFQUEUE callback through the modules to the verdicts.
--
-- A packet's `backend` blob is the list of the fields of `LinuxPacketMeta`: `packetId`, `verdictIssued` and
-- `synthetic`. `Kernel` holds what the backend has told the kernel: the verdicts, newest first, and the
-- packets put on the raw socket. The pcap export, the logs and `sendState` are left out.
pub mod Lawful
pub mod Verdicts
pub mod Run
pub mod Stop
pub mod Adapters
use clumsy.Prelude.{
  ℕ, zero, suc, ◌+◌, ◌/◌, ◌%◌, Bool, true, false, ◌&&◌, ◌||◌, not, Option, none, some, List, [],
  ◌∷◌, ◌++◌, reverse, if◌then◌else◌, ◌==◌, get_or, interlocked_increment, length,
}
use clumsy.Packet.{PacketMeta, PacketNode, World, Outcome}
use clumsy.Duplicate.{create_node}
use clumsy.Filter.{Program, byte_at, filter_match}

abbrev pub packet_id : List ℕ → ℕ
packet_id blob = get_or blob 0 0

abbrev pub verdict_issued : List ℕ → Bool
verdict_issued blob = not (get_or blob 1 0 == 0)

abbrev pub synthetic : List ℕ → Bool
synthetic blob = not (get_or blob 2 0 == 0)

-- The blob of a captured packet, before and after its verdict, and that of a clone.
abbrev pub queued_blob : ℕ → List ℕ
queued_blob id = id ∷ 0 ∷ 0 ∷ []

abbrev pub settled_blob : List ℕ → List ℕ
settled_blob blob = packet_id blob ∷ 1 ∷ get_or blob 2 0 ∷ []

-- `packetBackendPrepareClone`.
abbrev pub prepare_clone : List ℕ → List ℕ
prepare_clone src = 0 ∷ 0 ∷ 1 ∷ []

pub data Verdict : Type 0 where
  accept drop : Verdict

pub record Kernel : Type 0 where
  pub queue_open : Bool
  pub verdicts : List (ℕ × Verdict)
  pub raw : List PacketNode
  pub sent_total : ℕ

unfoldable pub settle_verdict : PacketNode → Verdict → Kernel → PacketNode × Kernel
settle_verdict node v k =
    if synthetic node.backend
      || verdict_issued node.backend
      || packet_id node.backend == 0
      || not k.queue_open
    then (node, k)
    else (
      record node { backend = settled_blob node.backend },
      record k { verdicts = (packet_id node.backend, v) ∷ k.verdicts },
    )

-- `packetBackendOnFree`: what is freed unanswered is dropped.
unfoldable pub backend_on_free : PacketNode → Kernel → Kernel
unfolding settle_verdict
backend_on_free node k = (settle_verdict node drop k).1

-- One turn of `sendAllListPackets`; whether the raw socket takes a packet makes no difference to it.
unfoldable pub send_one : PacketNode → Kernel → Kernel
unfolding settle_verdict backend_on_free
send_one node k =
    let (node', k') = settle_verdict node accept k in
    let done =
      if synthetic node.backend
      then backend_on_free node (record k { raw = node ∷ k.raw })
      else backend_on_free node' k' in
    record done { sent_total = interlocked_increment done.sent_total }

-- The list, from `tail` on.
unfoldable pub send_all : List PacketNode → Kernel → Kernel
unfolding send_one
send_all [] k = k
send_all (node ∷ rest) k = send_all rest (send_one node k)

unfoldable pub free_nodes : List PacketNode → Kernel → Kernel
unfolding backend_on_free
free_nodes [] k = k
free_nodes (node ∷ rest) k = free_nodes rest (backend_on_free node k)

-- A module's function pointers, and the packets that it holds back. `process` takes the tick.
pub record Module (S : Type 0) : Type 0 where
  pub enabled : S → Bool
  pub held : S → List PacketNode
  pub start_up : S → World → S × World
  pub process : S → ℕ → List PacketNode → World → Outcome S
  pub close_down : S → List PacketNode → World → Outcome S

-- An entry of `modules`, with the module's own state.
pub record Stage : Type 1 where
  pub State : Type 0
  pub ops : Module State
  pub state : State
  pub last_enabled : Bool
  pub triggered : ℕ

-- What one entry of the pipeline leaves.
pub record Passed : Type 1 where
  pub stage : Stage
  pub queue : List PacketNode
  pub world : World

abbrev pub restate : (st : Stage) → Bool → Outcome st.State → Passed
restate st on r = record {
  stage = record {
    State = st.State;
    ops = st.ops;
    state = r.state;
    last_enabled = on;
    triggered = (if on && r.triggered then st.triggered + 1 else st.triggered) % 65536;
  };
  queue = r.queue;
  world = r.world;
}

abbrev pub started : (st : Stage) → World → st.State × World
started st w = if st.last_enabled then (st.state, w) else st.ops.start_up st.state w

unfoldable pub run_stage : Stage → ℕ → List PacketNode → World → Passed
run_stage st now queue w =
    let (s, w') = started st w in
    if st.ops.enabled st.state
    then restate st true (st.ops.process s now queue w')
    else if st.last_enabled
    then restate st false (st.ops.close_down st.state queue w)
    else record { stage = st; queue = queue; world = w }

unfoldable pub run_stages :
    List Stage → ℕ → List PacketNode → World → List Stage × List PacketNode × World
unfolding run_stage
run_stages [] now queue w = ([], queue, w)
run_stages (st ∷ sts) now queue w =
    let p = run_stage st now queue w in
    let (sts', queue', w') = run_stages sts now p.queue p.world in (p.stage ∷ sts', queue', w')

-- The state between two packets; the list is empty then, and nothing freed is left to answer.
pub record Divert : Type 1 where
  pub stages : List Stage
  pub queue : List PacketNode
  pub world : World
  pub kernel : Kernel
  pub captured_total : ℕ

-- `divertConsumeStep`. A node is answered when it is freed: all those that the modules free are, in that order,
-- before the first packet is sent.
unfoldable pub consume_step : ℕ → Divert → Divert
unfolding run_stages free_nodes send_all
consume_step now d =
    let (sts, queue, w) = run_stages d.stages now d.queue d.world in
    record {
      stages = sts;
      queue = [];
      world = record w { freed = [] };
      kernel = send_all (reverse queue) (free_nodes (reverse w.freed) d.kernel);
      captured_total = d.captured_total;
    }

-- What the clock loop does with one module when it stops: the flag alone decides.
unfoldable pub close_stage : Stage → List PacketNode → World → Passed
close_stage st queue w =
    let r = st.ops.close_down st.state queue w in
    if st.ops.enabled st.state
    then record {
      stage = record {
        State = st.State;
        ops = st.ops;
        state = r.state;
        last_enabled = st.last_enabled;
        triggered = st.triggered;
      };
      queue = r.queue;
      world = r.world;
    }
    else record { stage = st; queue = queue; world = w }

unfoldable pub close_stages :
    List Stage → List PacketNode → World → List Stage × List PacketNode × World
unfolding close_stage
close_stages [] queue w = ([], queue, w)
close_stages (st ∷ sts) queue w =
    let p = close_stage st queue w in
    let (sts', queue', w') = close_stages sts p.queue p.world in (p.stage ∷ sts', queue', w')

-- The end of `divertClockLoop`.
unfoldable pub stop : Divert → Divert
unfolding close_stages free_nodes send_all
stop d =
    let (sts, queue, w) = close_stages d.stages d.queue d.world in
    record {
      stages = sts;
      queue = [];
      world = record w { freed = [] };
      kernel = send_all (reverse queue) (free_nodes (reverse w.freed) d.kernel);
      captured_total = d.captured_total;
    }

-- What NFQUEUE hands to the callback: the packet's id, its bytes where there are any, and the interface indices.
pub record Message : Type 0 where
  pub header : Option ℕ
  pub payload : List ℕ
  pub indev : ℕ
  pub outdev : ℕ
  pub physindev : ℕ
  pub physoutdev : ℕ

unfoldable pub meta_of : Message → PacketMeta
meta_of m = record {
  outbound = m.indev == 0;
  ip_version = if byte_at m.payload 0 / 16 == 6 then 6 else 4;
  if_idx = if m.indev == 0 then m.outdev else m.indev;
  sub_if_idx = 0;
  loopback = m.physindev == 1 || m.physoutdev == 1;
  impostor = false;
}

abbrev pub wanted : Option (Program × ℕ) → Message → Bool
wanted none m = true
wanted (some (prog, root)) m = filter_match prog root (meta_of m) m.payload (length m.payload)

-- `nfq_set_verdict(qh, id, NF_ACCEPT, 0, NULL)`.
abbrev pub let_through : ℕ → Divert → Divert
let_through id d = record d {
  kernel = record d.kernel { verdicts = (id, accept) ∷ d.kernel.verdicts };
}

-- The callback, with the id of the message's header; `alloc` is whether `createNode` gets its memory.
abbrev pub on_header : Option (Program × ℕ) → Bool → ℕ → Message → Option ℕ → Divert → Divert
on_header filter alloc now m none d = d
on_header filter alloc now m (some id) d =
    let node = create_node m.payload (length m.payload) (meta_of m) (queued_blob id) in
    let taken = consume_step now (record d {
      queue = d.queue ++ node ∷ [];
      captured_total = interlocked_increment d.captured_total;
    }) in
    if length m.payload == 0
    then let_through id d
    else if not (wanted filter m)
    then let_through id d
    else if not alloc
    then let_through id d
    else taken

unfoldable pub nfq_callback : Option (Program × ℕ) → Bool → ℕ → Message → Divert → Divert
unfolding consume_step meta_of
nfq_callback filter alloc now m d = on_header filter alloc now m m.header d
