-- ===== src/Jitter/Delays.antt =====
-- What a call of `jitterProcess` does to the list, the buffer and the histogram.
use clumsy.Prelude.{
  ℕ, ◌+◌, ◌%◌, ◌<◌, ◌≡◌, refl, sym, ap, ◌∙◌, subst, true, false, List, [], ◌++◌, reverse,
  reverse_aux, ◌∷◌, arith, length, length-reverse, map, word, select, reject, length-append, lt→ltb,
  ltb, ap₂, take, if◌then◌else◌, either_way, reject-reverse, reverse-reverse,
}
use clumsy.Latency.{Histogram, record_all}
use clumsy.Packet.{PacketNode, World, Outcome}
use clumsy.Packet.Sweep.{Sift}
use clumsy.Packet.Collect.{Buffer}
use clumsy.Packet.Gathered.{Each, length-Each, length-Sift}
use clumsy.Lag.{Release, keep_at_most, flush_when_full}
use clumsy.Lag.Released.{waited}
use clumsy.Lag.Delay.{Flushed, flush_if_full-Flushed}
use clumsy.Jitter.{Jitter, Sampler, matches, take_up, ready, send_ready, let_out, process}
use clumsy.Jitter.Scheduled.{Handled, Queued, IsValid, Sent, send_ready-Sent, take_up-Gathered}

-- The state before the scan, and after it.
abbrev opened : List PacketNode × Buffer → Release
opened (queue, b) = record { queue = queue; buf = []; buf_size = b.size; world = b.world }

scanned : ℕ → List PacketNode × Buffer → Release
scanned now (queue, b) = send_ready now b.nodes (opened (queue, b))

let_out-Sent :
    (now : ℕ) (t : List PacketNode × Buffer)
    → Sent now t.1.nodes (opened t) (scanned now t) × Flushed now (scanned now t) (let_out now t)
unfolding let_out scanned
let_out-Sent now (queue, b) =
    let s = send_ready now b.nodes (opened (queue, b)) in
    (send_ready-Sent now b.nodes (opened (queue, b)), flush_if_full-Flushed now s)

reverse_aux-append :
    (xs ys zs : List PacketNode) → reverse_aux (xs ++ ys) zs ≡ reverse_aux ys (reverse_aux xs zs)
reverse_aux-append [] ys zs = refl
reverse_aux-append (x ∷ xs) ys zs = reverse_aux-append xs ys (x ∷ zs)

-- What is let out early of the packets that are not due: the oldest 800, if they are 2000 or more.
abbrev pub overflow : List PacketNode → List PacketNode
overflow left = if ltb (length left) 2000 then [] else take 800 left

overflow_lem :
    (flushed left : List PacketNode) (size : ℕ)
    → size ≡ length left
    → (ltb size keep_at_most ≡ true → flushed ≡ [])
    → (ltb size keep_at_most ≡ false → flushed ≡ take flush_when_full left)
    → flushed ≡ overflow left
overflow_lem flushed left size e few full =
    either_way (λ (o : List PacketNode). flushed ≡ o) (ltb (length left) 2000) [] (take 800 left)
      (λ h. few (ap (λ (n : ℕ). ltb n 2000) e ∙ h)) (λ h. full (ap (λ (n : ℕ). ltb n 2000) e ∙ h))

module _ (sampler : Sampler) (rand : ℕ → ℕ) (j : Jitter) (now : ℕ) (queue : List PacketNode)
    (w : World) where
  -- What a call makes of the list, the buffer and the shared state; `Early` is what is known of the packets
  -- that it queued and of those that it let out before they were due.
  abbrev pub Delayed : (List PacketNode → List PacketNode → Type 0) → Outcome Jitter → Type 0
  Delayed Early r =
      (ks : List PacketNode) × (taken : List PacketNode) × (queued : List PacketNode)
      × (flushed : List PacketNode) × Sift (Handled j) (reverse queue) ks taken
      × Each (Queued j now) queued taken
      × (reject (ready now) (j.buf ++ queued) ≡ flushed ++ r.state.buf)
      × (r.queue
          ≡ reverse_aux flushed (reverse_aux (select (ready now) (j.buf ++ queued)) (reverse ks)))
      × (r.world.freed ≡ w.freed)
      × (r.world.hist
          ≡ record_all (record_all w.hist (map (waited now) (select (ready now) (j.buf ++ queued))))
              (map (waited now) flushed))
      × (r.state.affected % word ≡ (j.affected + length taken) % word)
      × Early queued flushed

  abbrev Overflows : List PacketNode → List PacketNode → Type 0
  Overflows queued flushed = flushed ≡ overflow (reject (ready now) (j.buf ++ queued))

  abbrev pub Delays : Outcome Jitter → Type 0
  Delays = Delayed Overflows

  -- A call of `jitterProcess` keeps the invariant: `bufSize` is the number of buffered packets, and below
  -- KEEP_AT_MOST when a call begins.
  jitter_process-IsValid : IsValid j → IsValid (process sampler rand j now queue w).state
  unfolding process
  jitter_process-IsValid v =
      let t = take_up sampler rand j now queue w in
      let (_, _, ns, _, _, n, _, z, _, _, cap, _) = take_up-Gathered sampler rand j now queue w in
      let ((_, _, size, less, _, _), (_, (_, _, size2, _, _, _), small, _, _)) =
        let_out-Sent now t in
      let counted : t.1.size ≡ length t.1.nodes =
        omega (arith, z, ap length n, length-append j.buf ns, v.counted) in
      let still = size (omega (arith, counted)) in
      record {
        counted = size2 still;
        room = small still (omega (arith, less, cap (omega (arith, v.room))));
      }

  pub process-Delayed :
      Delayed
        (λ queued flushed. IsValid j → Overflows queued flushed)
        (process sampler rand j now queue w)
  unfolding process
  process-Delayed =
      let t = take_up sampler rand j now queue w in
      let (ks, ts, ns, s, q, n, e, z, a, f, _, _) = take_up-Gathered sampler rand j now queue w in
      let ((q1, b1, size, _, f1, h1), (flushed, (b2, q2, _, _, f2, h2), _, none_left, full)) =
        let_out-Sent now t in
      let left : (scanned now t).buf ≡ reject (ready now) (j.buf ++ ns) =
        b1 ∙ ap (reject (ready now)) n in
      (
        ks,
        ts,
        ns,
        flushed,
        s,
        e,
        ap (reject (ready now)) (sym n) ∙ sym b1 ∙ b2,
        q2
            ∙ ap (reverse_aux flushed) (
                q1 ∙ ap₂ (λ (xs ys : List PacketNode). reverse_aux (select (ready now) xs) ys) n q),
        f2 ∙ f1 ∙ f.0,
        h2
            ∙ ap (λ (g : Histogram). record_all g (map (waited now) flushed))
                (h1
                  ∙ ap₂
                      (λ (g : Histogram) (xs : List PacketNode).
                        record_all g (map (waited now) (select (ready now) xs)))
                      f.1 n),
        omega (arith, a, length-Each (Queued j now) ns ts e),
        λ v.
            (let counted : t.1.size ≡ length t.1.nodes =
                omega (arith, z, v.counted, ap length n, length-append j.buf ns) in
              overflow_lem flushed (scanned now t).buf (scanned now t).buf_size
                (size (omega (arith, counted))) (λ h. (none_left h).0) full
              ∙ ap overflow left),
      )

  -- In every call of `jitterProcess` from a valid state: some packets of the list, all of a handled direction, were taken, from the
  -- `tail` on; they stand at the end of the buffer, each due after a delay of the set range, whatever was
  -- drawn; of the whole buffer, those just taken included, exactly the packets that are due by the clock went to the
  -- front of the list, and after them, if 2000 or more are left, the oldest 800 of these; their waits
  -- went into the histogram, and the rest keep their order. The state is valid again. Nothing was freed, and the counter grew by the number
  -- of packets taken, modulo 2^32.
  pub jitter_process-Delays :
      IsValid j
      → Delays (process sampler rand j now queue w)
        × IsValid (process sampler rand j now queue w).state
  jitter_process-Delays v =
      let (ks, ts, ns, flushed, s, e, b, q, f, h, a, early) = process-Delayed in
      ((ks, ts, ns, flushed, s, e, b, q, f, h, a, early v), jitter_process-IsValid v)

  -- From a valid state, while the buffer and the list together hold fewer than 2000 packets, no packet is let out
  -- before it is due by the clock: all packets of a handled direction join the buffer, and exactly those
  -- that are due leave it, for the front of the list.
  pub jitter_process_uncongested :
      IsValid j
      → j.buf_size + length queue < keep_at_most
      → let r = process sampler rand j now queue w in
        (queued : List PacketNode) × Each (Queued j now) queued (select (matches j) (reverse queue))
        × (r.state.buf ≡ reject (ready now) (j.buf ++ queued))
        × (r.queue ≡ reverse_aux (select (ready now) (j.buf ++ queued)) (reject (matches j) queue))
  unfolding process
  jitter_process_uncongested v h =
      let t = take_up sampler rand j now queue w in
      let (ks, ts, ns, s, q, n, e, z, a, f, _, all) = take_up-Gathered sampler rand j now queue w in
      let ((q1, b1, _, l1, _, _), (flushed, (_, q2, _, _, _, _), _, none_left, _)) =
        let_out-Sent now t in
      let joined = length-Each (Queued j now) ns ts e in
      let whole = length-Sift s in
      let few =
        lt→ltb t.1.size keep_at_most (omega (arith, z, joined, whole, length-reverse queue)) in
      let calm =
        lt→ltb (scanned now t).buf_size keep_at_most
          (omega (arith, l1, z, joined, whole, length-reverse queue)) in
      let (empty, same) = none_left calm in
      let others : reverse ks ≡ reject (matches j) queue =
        ap reverse ((all few).0 ∙ reject-reverse (matches j) queue)
        ∙ reverse-reverse (reject (matches j) queue) in
      (
        ns,
        subst (Each (Queued j now) ns) (all few).1 e,
        same ∙ b1 ∙ ap (reject (ready now)) n,
        q2
            ∙ ap (λ (xs : List PacketNode). reverse_aux xs (scanned now t).queue) empty
            ∙ q1
            ∙ ap₂ (λ (xs ys : List PacketNode). reverse_aux (select (ready now) xs) ys) n
                (q ∙ others),
      )
