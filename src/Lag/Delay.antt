-- ===== src/Lag/Delay.antt =====
-- What a call of `lagProcess` does to the list, the buffer and the histogram.
use clumsy.Prelude.{
  ℕ, ◌+◌, ◌-◌, ◌*◌, ◌%◌, ◌≤◌, ◌<◌, ◌≡◌, refl, sym, ap, ◌∙◌, subst, true, false, List, [], ◌++◌,
  reverse, reverse_aux, ◌∷◌, Bool, arith, ltb, length, length-reverse, map, Bool-cases, inl, inr,
  word, take, select, reject, append-nil, length-drop, length-append, lt→ltb, ap₂, add32,
  reject-reverse, reverse-reverse,
}
use clumsy.Latency.{Histogram, record_all}
use clumsy.Packet.{PacketNode, World, Outcome}
use clumsy.Packet.Sweep.{Sift}
use clumsy.Packet.Collect.{Buffer, fuel_for, gather, collect-gather}
use clumsy.Packet.Gathered.{
  Each, Stamps, Gathered, gather-Gathered, length-Each, length-Sift, Each-map,
}
use clumsy.Lag.{
  Lag, Release, matches, stamp, keep_at_most, flush_when_full, take_up, let_out, process,
  send_overdue, flush, flush_if_full,
}
use clumsy.Lag.Released.{
  Released, Released-none, Released-trans, send_overdue-Released, flush-Released, take_while,
  drop_while, due, waited,
}

abbrev pub Handled : Lag → PacketNode → Type 0
Handled l pac = matches l pac ≡ true

abbrev pub queued_at : ℕ → PacketNode → PacketNode
queued_at now t = record t { timestamp = now; enqueue_time = now }

-- A node as it stands in the buffer, and as it came.
abbrev pub Queued : ℕ → PacketNode → PacketNode → Type 0
Queued now n t = n ≡ queued_at now t

-- `buf_size` counts the buffer, and a call starts with room for a packet.
pub record IsValid (l : Lag) : Type 0 where
  pub counted : l.buf_size ≡ length l.buf
  pub room : l.buf_size < keep_at_most

stamp-Stamps : (now : ℕ) → Stamps (Queued now) (stamp now)
unfolding stamp
stamp-Stamps now w n = (refl, (refl, refl))

abbrev start : Lag → World → Buffer
start l w = record { nodes = l.buf; size = l.buf_size; affected = l.affected; world = w }

take_up-gather :
    (l : Lag) (now : ℕ) (queue : List PacketNode) (w : World)
    → take_up l now queue w
      ≡ gather (matches l) (stamp now) keep_at_most (reverse queue) [] (start l w)
unfolding take_up fuel_for
take_up-gather l now queue w =
    collect-gather (matches l) (stamp now) keep_at_most (length queue * (length queue + 1) + 1)
      (reverse queue) [] (start l w) tt (rw (length-reverse queue) (omega arith))

take_up-Gathered :
    (l : Lag) (now : ℕ) (queue : List PacketNode) (w : World)
    → Gathered
        (matches l)
        (stamp now)
        keep_at_most
        (Queued now)
        (stamp-Stamps now)
        (start l w)
        (reverse queue)
        []
        (take_up l now queue w)
take_up-Gathered l now queue w = rw (take_up-gather l now queue w) (
    gather-Gathered (matches l) (stamp now) keep_at_most (Queued now) (stamp-Stamps now)
      (reverse queue) [] (start l w))

-- The state between the two halves of a call.
abbrev opened : List PacketNode × Buffer → Release
opened (queue, b) = record { queue = queue; buf = b.nodes; buf_size = b.size; world = b.world }

-- The flush takes 800 packets or nothing.
abbrev pub Flushed : ℕ → Release → Release → Type 0
Flushed now r r' =
    (flushed : List PacketNode) × Released now flushed r r'
    × (r.buf_size ≡ length r.buf → r.buf_size ≤ keep_at_most → r'.buf_size < keep_at_most)
    × (ltb r.buf_size keep_at_most ≡ true → (flushed ≡ []) × (r'.buf ≡ r.buf))
    × (ltb r.buf_size keep_at_most ≡ false → flushed ≡ take flush_when_full r.buf)

flush-Flushed :
    (now : ℕ) (r : Release)
    → ltb r.buf_size keep_at_most ≡ false
    → Flushed now r (flush flush_when_full now r.buf r)
flush-Flushed now r full =
    let (f, b) = flush-Released flush_when_full now r.buf r refl in
    let left = length-drop flush_when_full r.buf in
    (
      take flush_when_full r.buf,
      f,
      (λ e h. omega (arith, f.2 e, ap length b, left)),
      (λ h. cc),
      λ h. refl,
    )

flush_if_full_few :
    (now : ℕ) (r : Release) → ltb r.buf_size keep_at_most ≡ true → flush_if_full now r ≡ r
unfolding flush_if_full
flush_if_full_few now r e = ground arith

flush_if_full_full :
    (now : ℕ) (r : Release)
    → ltb r.buf_size keep_at_most ≡ false
    → flush_if_full now r ≡ flush flush_when_full now r.buf r
unfolding flush_if_full
flush_if_full_full now r e = ground arith

pub flush_if_full-Flushed : (now : ℕ) (r : Release) → Flushed now r (flush_if_full now r)
flush_if_full-Flushed now r = elim (Bool-cases (ltb r.buf_size keep_at_most)) [
  | inl few ↦
      subst (Flushed now r) (sym (flush_if_full_few now r few))
        ([], Released-none now r, (λ e h. ground arith), (λ h. (refl, refl)), λ h. cc)
  | inr full ↦
      subst (Flushed now r) (sym (flush_if_full_full now r full)) (flush-Flushed now r full)
]

let_out-Released :
    (l : Lag) (now : ℕ) (t : List PacketNode × Buffer)
    → (released : List PacketNode) × Released now released (opened t) (let_out l now t)
      × (t.1.size ≡ length t.1.nodes
          → t.1.size ≤ keep_at_most
          → (let_out l now t).buf_size < keep_at_most)
      × (ltb t.1.size keep_at_most ≡ true
          → (released ≡ take_while (due now l.lag_time) t.1.nodes)
            × ((let_out l now t).buf ≡ drop_while (due now l.lag_time) t.1.nodes))
unfolding let_out
let_out-Released l now (queue, b) =
    let r = opened (queue, b) in
    let s = send_overdue now l.lag_time b.nodes r in
    let late = take_while (due now l.lag_time) b.nodes in
    let (first, rest) = send_overdue-Released now l.lag_time b.nodes r refl in
    let (flushed, second, small, none_left, _) = flush_if_full-Flushed now s in
    (
      late ++ flushed,
      Released-trans now late flushed r s (flush_if_full now s) first second,
      (λ e h. small (first.2 e) (omega (arith, first.3))),
      λ h.
          let few : ltb s.buf_size keep_at_most ≡ true = ground (arith, first.3, h) in
          (
            ap (λ (f : List PacketNode). late ++ f) (none_left few).0 ∙ append-nil late,
            (none_left few).1 ∙ rest,
          ),
    )

-- What a call makes of the list, the buffer and the shared state.
abbrev pub Delays : Lag → ℕ → List PacketNode → World → Outcome Lag → Type 0
Delays l now queue w r =
    (ks : List PacketNode) × (taken : List PacketNode) × (queued : List PacketNode)
    × (released : List PacketNode) × Sift (Handled l) (reverse queue) ks taken
    × Each (Queued now) queued taken
    × (l.buf ++ queued ≡ released ++ r.state.buf)
    × (r.queue ≡ reverse_aux released (reverse ks))
    × (r.world.freed ≡ w.freed)
    × (r.world.hist ≡ record_all w.hist (map (waited now) released))
    × (r.state.affected % word ≡ (l.affected + length taken) % word)

-- In every call of `lagProcess`, congested or not: some packets of the list, all of a handled direction,
-- were taken, from the `tail` on; they stand at the end of the buffer, each stamped with the tick of the
-- call; the oldest packets of the buffer, those just taken included, left it for the front of the list,
-- in order, and their waits went into the histogram; the other packets of the list kept their order.
-- Nothing was freed, and the counter grew by the number of packets taken, modulo 2^32.
pub process-Delays :
    (l : Lag) (now : ℕ) (queue : List PacketNode) (w : World)
    → Delays l now queue w (process l now queue w)
unfolding process
process-Delays l now queue w =
    let (ks, ts, ns, s, q, n, e, z, a, f, _, _) = take_up-Gathered l now queue w in
    let (released, (b, q', _, _, f', h), _, _) = let_out-Released l now (take_up l now queue w) in
    (
      ks,
      ts,
      ns,
      released,
      s,
      e,
      sym n ∙ b,
      q' ∙ ap (reverse_aux released) q,
      f' ∙ f.0,
      h ∙ ap (λ (g : Histogram). record_all g (map (waited now) released)) f.1,
      omega (arith, a, length-Each (Queued now) ns ts e),
    )

-- A call of `lagProcess` keeps the invariant: `bufSize` is the number of buffered packets, and below
-- KEEP_AT_MOST when a call begins.
lag_process-IsValid :
    (l : Lag) (now : ℕ) (queue : List PacketNode) (w : World)
    → IsValid l
    → IsValid (process l now queue w).state
unfolding process
lag_process-IsValid l now queue w v =
    let (_, _, ns, _, _, n, _, z, _, _, cap, _) = take_up-Gathered l now queue w in
    let (_, (_, _, size, _, _, _), small, _) = let_out-Released l now (take_up l now queue w) in
    let counted : (take_up l now queue w).1.size ≡ length (take_up l now queue w).1.nodes =
      omega (arith, z, ap length n, length-append l.buf ns, v.counted) in
    record { counted = size counted; room = small counted (cap (omega (arith, v.room))) }

-- What waits in the buffer once a call has taken up its packets.
abbrev pub line : Lag → ℕ → List PacketNode → List PacketNode
line l now queue = l.buf ++ map (queued_at now) (select (matches l) (reverse queue))

-- From a valid state, while the buffer and the list together hold fewer than 2000 packets, every packet
-- of a handled direction joins the line at its end, and the packets at its front that are overdue
-- leave it; they go, in reverse, before the packets of the other directions, which keep their order.
pub process_uncongested :
    (l : Lag) (now : ℕ) (queue : List PacketNode) (w : World)
    → IsValid l
    → l.buf_size + length queue < keep_at_most
    → let r = process l now queue w in
      (r.queue
        ≡ reverse_aux
            (take_while (due now l.lag_time) (line l now queue))
            (reject (matches l) queue))
      × (r.state.buf ≡ drop_while (due now l.lag_time) (line l now queue))
unfolding process
process_uncongested l now queue w v h =
    let (ks, ts, ns, s, q, n, e, z, a, f, _, all) = take_up-Gathered l now queue w in
    let (released, (b, q', _, _, _, _), _, exact) =
      let_out-Released l now (take_up l now queue w) in
    let late = due now l.lag_time in
    let few =
      lt→ltb (take_up l now queue w).1.size keep_at_most
        (omega (arith, z, length-Each (Queued now) ns ts e, length-Sift s, length-reverse queue)) in
    let lined : (take_up l now queue w).1.nodes ≡ line l now queue =
      n
      ∙ ap (λ (xs : List PacketNode). l.buf ++ xs)
          (Each-map (queued_at now) ns ts e ∙ ap (map (queued_at now)) (all few).1) in
    let others : reverse ks ≡ reject (matches l) queue =
      ap reverse ((all few).0 ∙ reject-reverse (matches l) queue)
      ∙ reverse-reverse (reject (matches l) queue) in
    (
      q'
          ∙ ap₂ (λ (xs ys : List PacketNode). reverse_aux xs ys)
              ((exact few).0 ∙ ap (take_while late) lined) (q ∙ others),
      (exact few).1 ∙ ap (drop_while late) lined,
    )

-- A packet whose stamp and lag add up to the last tick of the clock is never overdue.
never_due :
    (now lag_time : ℕ) (pac : PacketNode)
    → now < word
    → add32 pac.timestamp lag_time ≡ word - 1
    → due now lag_time pac ≡ false
never_due now lag_time pac h e = ground arith

stuck_front :
    (p : PacketNode → Bool) (x : PacketNode) (xs ys zs : List PacketNode)
    → zs ≡ x ∷ xs
    → p x ≡ false
    → (take_while p (zs ++ ys) ≡ []) × (drop_while p (zs ++ ys) ≡ zs ++ ys)
stuck_front p x xs ys zs e f = rw (e, f) (refl, refl)

-- The lag stalls on a packet at the front of its buffer whose stamp and lag add up to 2^32 - 1: from a
-- valid state, at every tick of the clock, while the buffer and the list together hold fewer than
-- 2000 packets, nothing leaves the buffer, and all that arrives queues up behind that packet.
pub process_stalls :
    (l : Lag) (now : ℕ) (pac : PacketNode) (rest queue : List PacketNode) (w : World)
    → IsValid l
    → l.buf_size + length queue < keep_at_most
    → now < word
    → l.buf ≡ pac ∷ rest
    → add32 pac.timestamp l.lag_time ≡ word - 1
    → let r = process l now queue w in
      (r.queue ≡ reject (matches l) queue) × (r.state.buf ≡ line l now queue)
process_stalls l now pac rest queue w v h k e t =
    let (q, b) = process_uncongested l now queue w v h in
    let early = never_due now l.lag_time pac k t in
    let more = map (queued_at now) (select (matches l) (reverse queue)) in
    let (none_out, all_in) = stuck_front (due now l.lag_time) pac rest more l.buf e early in
    (
      q ∙ ap (λ (xs : List PacketNode). reverse_aux xs (reject (matches l) queue)) none_out,
      b ∙ all_in,
    )
