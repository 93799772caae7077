-- ===== src/Pipeline/Run.antt =====
-- divert_linux.cpp: any run of callbacks and clock ticks.
use clumsy.Prelude.{
  interlocked_increment, ℕ, ◌+◌, ◌≡◌, ◌≢◌, ap, Bool, true, false, not, Option, none, some, List, [],
  ◌∷◌, ◌++◌, arith, if◌then◌else◌, ◌==◌, length,
}
use clumsy.Packet.{PacketNode}
use clumsy.Duplicate.{create_node}
use clumsy.Filter.{Program}
use clumsy.Pipeline.{
  Divert, Message, consume_step, nfq_callback, on_header, wanted, let_through, meta_of, queued_blob,
}
use clumsy.Pipeline.Lawful.{waiting}
use clumsy.Pipeline.Verdicts.{Idle, accounted, consume_step-Answers, consume_step-Idle}

-- What happens to the backend between two packets, with the tick at which it happens.
pub data Event : Type 0 where
  captured : Option (Program × ℕ) → Bool → ℕ → Message → Event
  clock_tick : ℕ → Event

unfoldable pub on_event : Event → Divert → Divert
on_event (captured filter alloc now m) d = nfq_callback filter alloc now m d
on_event (clock_tick now) d = consume_step now d

unfoldable pub run : List Event → Divert → Divert
unfolding on_event
run [] d = d
run (e ∷ es) d = run es (on_event e d)

-- How many packets with an id the events bring.
abbrev pub names : ℕ → Option ℕ → ℕ
names id none = 0
names id (some i) = if i == id then 1 else 0

abbrev pub brings : ℕ → Event → ℕ
brings id (captured filter alloc now m) = names id m.header
brings id (clock_tick now) = 0

abbrev pub brought : ℕ → List Event → ℕ
brought id [] = 0
brought id (e ∷ es) = brings id e + brought id es

module _ (id : ℕ) (some_id : id ≢ 0) where
  accounted-step :
      (now : ℕ) (d : Divert) (queue : List PacketNode)
      → Idle d
      → accounted id (consume_step now (record d { queue = queue }))
        ≡ accounted id d + waiting id queue
  accounted-step now d queue i =
      let (a, _, _, _) =
        consume_step-Answers id now (record d { queue = queue }) some_id i.laws i.live i.settled in
      omega (arith, a)

  accounted-let_through :
      (i : ℕ) (d : Divert)
      → accounted id (let_through i d) ≡ accounted id d + (if i == id then 1 else 0)
  accounted-let_through i d = omega arith

-- Every captured packet is counted, whichever way it takes.
abbrev Counted : ℕ → ℕ → Divert → Divert → Type 0
Counted id n d d' = (accounted id d' ≡ accounted id d + n) × Idle d'

-- The packet that a callback puts into the list.
abbrev arrival : Message → ℕ → PacketNode
arrival m i = create_node m.payload (length m.payload) (meta_of m) (queued_blob i)

waiting-arrival :
    (id i : ℕ) (m : Message) (d : Divert)
    → d.queue ≡ []
    → waiting id (d.queue ++ arrival m i ∷ []) ≡ (if i == id then 1 else 0)
unfolding create_node
waiting-arrival id i m d e = rw e (ground arith)

let_through-Idle : (i : ℕ) (d : Divert) → Idle d → Idle (let_through i d)
let_through-Idle i d v = record {
  laws = v.laws;
  live = v.live;
  settled = v.settled;
  empty = v.empty;
}

-- Every way through the tests of the callback.
chosen {ℓ} :
    {A : Type ℓ} (P : A → Type 0) (a b : A) (x y z : Bool)
    → P a
    → P b
    → P (if x then a else if y then a else if z then a else b)
chosen P a b true y z p q = p
chosen P a b false true z p q = p
chosen P a b false false true p q = p
chosen P a b false false false p q = q

on_header-Counted :
    (id : ℕ) (filter : Option (Program × ℕ)) (alloc : Bool) (now : ℕ) (m : Message)
    (header : Option ℕ) (d : Divert)
    → id ≢ 0
    → Idle d
    → Counted id (names id header) d (on_header filter alloc now m header d)
on_header-Counted id filter alloc now m none d some_id v = (omega arith, v)
on_header-Counted id filter alloc now m (some i) d some_id v =
    let d1 = record d { captured_total = interlocked_increment d.captured_total } in
    let v1 : Idle d1 = record {
      laws = v.laws;
      live = v.live;
      settled = v.settled;
      empty = v.empty;
    } in
    let queue = d.queue ++ arrival m i ∷ [] in
    let taken = consume_step now (record d1 { queue = queue }) in
    let counted = accounted-step id some_id now d1 queue v1 in
    let one = waiting-arrival id i m d v.empty in
    chosen (Counted id (if i == id then 1 else 0) d) (let_through i d) taken (length m.payload == 0)
      (not (wanted filter m)) (not alloc)
      (accounted-let_through id some_id i d, let_through-Idle i d v)
      (omega (arith, counted, one), consume_step-Idle now d1 queue v1)

on_event-Counted :
    (id : ℕ) (e : Event) (d : Divert) → id ≢ 0 → Idle d → Counted id (brings id e) d (on_event e d)
unfolding on_event nfq_callback
on_event-Counted id (captured filter alloc now m) d some_id v =
    on_header-Counted id filter alloc now m m.header d some_id v
on_event-Counted id (clock_tick now) d some_id v =
    let none_new : waiting id d.queue ≡ 0 = ap (waiting id) v.empty in
    (
      omega (arith, accounted-step id some_id now d d.queue v, none_new),
      consume_step-Idle now d d.queue v,
    )

-- After any run of callbacks and clock ticks, from a state between two packets with modules that keep their contract, the
-- answers that the kernel got for an id other than 0, and the packets with that id that modules still hold back,
-- together grew by the number of packets that came with it: whatever the filter says, whether or not memory
-- lasts, each packet from the queue is held back or answered, and never answered twice.
pub run-Accounted :
    (id : ℕ) (es : List Event) (d : Divert)
    → id ≢ 0
    → Idle d
    → (accounted id (run es d) ≡ accounted id d + brought id es) × Idle (run es d)
unfolding run
run-Accounted id [] d some_id v = (omega arith, v)
run-Accounted id (e ∷ es) d some_id v =
    let (a, v') = on_event-Counted id e d some_id v in
    let (b, v'') = run-Accounted id es (on_event e d) some_id v' in (omega (arith, a, b), v'')
