-- ===== src/Jitter/Scheduled.antt =====
-- What a call of `jitterProcess` does to the list, the buffer and the histogram.
use clumsy.Prelude.{
  ℕ, ◌+◌, ◌-◌, ◌*◌, ◌≤◌, ◌<◌, ◌≡◌, refl, sym, ◌∙◌, subst, true, false, List, [], ◌++◌, reverse,
  reverse_aux, ◌∷◌, arith, length, length-reverse, map, Bool-cases, inl, inr, select, reject,
  append-nil, append_assoc, length-append, add32,
}
use clumsy.Latency.{record_all, latency_record}
use clumsy.Packet.{PacketNode, World}
use clumsy.Packet.Collect.{Buffer, fuel_for, gather, collect-gather}
use clumsy.Packet.Gathered.{Stamps, Gathered, gather-Gathered}
use clumsy.Lag.{Release, keep_at_most}
use clumsy.Lag.Released.{waited}
use clumsy.Utils.{clamp_long_range}
use clumsy.Jitter.{
  Jitter, Sampler, Dist, uniform, normal, pareto, matches, low, high, draw, sample_delay, stamp,
  take_up, ready, send_one, send_ready,
}

abbrev pub Handled : Jitter → PacketNode → Type 0
Handled j pac = matches j pac ≡ true

-- A node as it stands in the buffer, and as it came: due after a delay of the set range.
abbrev pub Queued : Jitter → ℕ → PacketNode → PacketNode → Type 0
Queued j now n t =
    (delay : ℕ) × (low j ≤ delay)
    × (delay ≤ high j)
    × (n ≡ record t { timestamp = add32 now delay; enqueue_time = now })

-- A call begins with room for a packet.
pub record IsValid (j : Jitter) : Type 0 where
  pub counted : j.buf_size ≡ length j.buf
  pub room : j.buf_size < keep_at_most

-- What the scan leaves of the packets `xs`.
abbrev pub Sent : ℕ → List PacketNode → Release → Release → Type 0
Sent now xs r r' =
    (r'.queue ≡ reverse_aux (select (ready now) xs) r.queue)
    × (r'.buf ≡ r.buf ++ reject (ready now) xs)
    × (r.buf_size ≡ length r.buf + length xs → r'.buf_size ≡ length r'.buf)
    × (r'.buf_size ≤ r.buf_size)
    × (r'.world.freed ≡ r.world.freed)
    × (r'.world.hist ≡ record_all r.world.hist (map (waited now) (select (ready now) xs)))

abbrev gone : ℕ → PacketNode → Release → Release
gone now x r = record {
  queue = x ∷ r.queue;
  buf = r.buf;
  buf_size = r.buf_size - 1;
  world = record r.world { hist = latency_record r.world.hist (waited now x) };
}

abbrev left_behind : PacketNode → Release → Release
left_behind x r = record r { buf = r.buf ++ x ∷ [] }

send_one-late :
    (now : ℕ) (x : PacketNode) (r : Release) → ready now x ≡ true → send_one now x r ≡ gone now x r
unfolding send_one
send_one-late now x r e = ground arith

send_one-early :
    (now : ℕ) (x : PacketNode) (r : Release)
    → ready now x ≡ false
    → send_one now x r ≡ left_behind x r
unfolding send_one
send_one-early now x r e = ground arith

Sent-late :
    (now : ℕ) (x : PacketNode) (xs : List PacketNode) (r r' : Release)
    → ready now x ≡ true
    → Sent now xs (gone now x r) r'
    → Sent now (x ∷ xs) r r'
unfolding record_all
Sent-late now x xs r r' late (q, b, s, l, f, h) =
    rw late (q, b, (λ k. s (omega arith)), omega arith, f, h)

Sent-early :
    (now : ℕ) (x : PacketNode) (xs : List PacketNode) (r r' : Release)
    → ready now x ≡ false
    → Sent now xs (left_behind x r) r'
    → Sent now (x ∷ xs) r r'
unfolding record_all
Sent-early now x xs r r' early (q, b, s, l, f, h) = rw early (
  q,
  b ∙ append_assoc r.buf (x ∷ []) (reject (ready now) xs),
  (λ k. s (omega (arith, length-append r.buf (x ∷ [])))),
  l,
  f,
  h,
)

pub send_ready-Sent :
    (now : ℕ) (xs : List PacketNode) (r : Release) → Sent now xs r (send_ready now xs r)
unfolding send_ready record_all
send_ready-Sent now [] r =
    (refl, sym (append-nil r.buf), (λ e. omega (arith, e)), omega arith, refl, refl)
send_ready-Sent now (x ∷ xs) r =
    let r' = send_ready now xs (send_one now x r) in
    let ih = send_ready-Sent now xs (send_one now x r) in
    elim (Bool-cases (ready now x)) [
      | inl late ↦
          Sent-late now x xs r r' late
            (subst (λ (t : Release). Sent now xs t r') (send_one-late now x r late) ih)
      | inr early ↦
          Sent-early now x xs r r' early
            (subst (λ (t : Release). Sent now xs t r') (send_one-early now x r early) ih)
    ]

draw-kept :
    (sampler : Sampler) (rand : ℕ → ℕ) (dist : Dist) (lo hi : ℕ) (w : World)
    → let w' = (draw sampler rand dist lo hi w).1 in (w'.freed ≡ w.freed) × (w'.hist ≡ w.hist)
unfolding draw
draw-kept sampler rand uniform lo hi w = (refl, refl)
draw-kept sampler rand normal lo hi w = (refl, refl)
draw-kept sampler rand pareto lo hi w = (refl, refl)

-- A delay is one of the set range.
sample_delay_range :
    (sampler : Sampler) (rand : ℕ → ℕ) (lo hi : ℕ) (dist : Dist) (w : World)
    → lo ≤ hi
    → let (delay, w') = sample_delay sampler rand lo hi dist w in
      (lo ≤ delay) × (delay ≤ hi) × (w'.freed ≡ w.freed) × (w'.hist ≡ w.hist)
unfolding sample_delay
sample_delay_range sampler rand lo hi dist w h =
    let (v, w') = draw sampler rand dist lo hi w in
    let (_, above, below, _) = clamp_long_range v lo hi h in
    let (f, g) = draw-kept sampler rand dist lo hi w in
    (ground (arith, above), ground (arith, below), ground (arith, f), ground (arith, g))

module _ (sampler : Sampler) (rand : ℕ → ℕ) (j : Jitter) (now : ℕ) where
  pub stamp-Stamps : Stamps (Queued j now) (stamp sampler rand j now)
  unfolding stamp
  stamp-Stamps w n =
      let (above, below, f, h) =
        sample_delay_range sampler rand (low j) (high j) j.dist w (ground arith) in
      (((sample_delay sampler rand (low j) (high j) j.dist w).0, above, below, refl), (f, h))

  abbrev pub start : World → Buffer
  start w = record { nodes = j.buf; size = j.buf_size; affected = j.affected; world = w }

  take_up-gather :
      (queue : List PacketNode) (w : World)
      → take_up sampler rand j now queue w
        ≡ gather (matches j) (stamp sampler rand j now) keep_at_most (reverse queue) [] (start w)
  unfolding take_up fuel_for
  take_up-gather queue w =
      collect-gather (matches j) (stamp sampler rand j now) keep_at_most
        (length queue * (length queue + 1) + 1) (reverse queue) [] (start w) tt
        (rw (length-reverse queue) (omega arith))

  pub take_up-Gathered :
      (queue : List PacketNode) (w : World)
      → Gathered
          (matches j)
          (stamp sampler rand j now)
          keep_at_most
          (Queued j now)
          stamp-Stamps
          (start w)
          (reverse queue)
          []
          (take_up sampler rand j now queue w)
  take_up-Gathered queue w = rw (take_up-gather queue w) (
      gather-Gathered (matches j) (stamp sampler rand j now) keep_at_most (Queued j now)
        stamp-Stamps (reverse queue) [] (start w))
