-- ===== src/Bandwidth/Rate.antt =====
-- A call of `bandwidthProcess`, and the rate that no run of calls exceeds.
use mathlib.Core.Path.{fun_ext}
use clumsy.Prelude.{
  ℕ, ◌+◌, ◌-◌, ◌*◌, ◌%◌, ◌≤◌, ◌<◌, ◌≡◌, sym, ap, ◌∙◌, subst, Bool, List, [], ◌∷◌, ◌++◌, arith,
  length, word, sub32_elapsed, reject,
}
use clumsy.Packet.{PacketNode, World, Outcome}
use clumsy.Bandwidth.{Bandwidth, Flow, matches, keep_at_most, scale, flow, replenish, process}
use clumsy.Bandwidth.Fifo.{IsValid, Shaped, flow-Shaped, flow_size}
use clumsy.Bandwidth.Loops.{bytes, bytes-reverse_aux, bytes-append}

-- The outcome, read as the last state of the loops.
abbrev pub final : Outcome Bandwidth → Flow
final r = record {
  queue = r.queue;
  nodes = r.state.buf;
  size = r.state.buf_size;
  tokens = r.state.token_bucket;
  affected = r.state.affected;
  world = r.world;
}

matches-replenish :
    (b : Bandwidth) (now : ℕ) (pac : PacketNode) → matches (replenish b now) pac ≡ matches b pac
unfolding matches replenish
matches-replenish b now pac = ground arith

replenish_kept :
    (b : Bandwidth) (now : ℕ)
    → ((replenish b now).buf ≡ b.buf)
      × ((replenish b now).buf_size ≡ b.buf_size)
      × ((replenish b now).limit ≡ b.limit)
      × ((replenish b now).last_fill_time ≡ now)
unfolding replenish
replenish_kept b now = ground arith

-- From a valid state: the packets of handled directions join the buffer in the order from `tail` to `head`
-- while there is room for them, up to 2000, and the rest of them are freed; the packets of the other
-- directions keep their order. Then packets leave the buffer for the front of the list, oldest first,
-- each for its length in tokens of the replenished bucket, until the next one is too dear; with a
-- limit of 0 none leaves.
pub process-Shaped :
    (b : Bandwidth) (now : ℕ) (queue : List PacketNode) (w : World)
    → IsValid b
    → Shaped
        (matches b)
        b.buf
        b.limit
        (keep_at_most - b.buf_size)
        (replenish b now).token_bucket
        queue
        w
        (final (process b now queue w))
unfolding process
process-Shaped b now queue w v =
    let b1 = replenish b now in
    let k = keep_at_most - b.buf_size in
    let tokens = b1.token_bucket in
    let f = flow b1 queue w in
    let (same_buf, same_size, same_limit, _) = replenish_kept b now in
    let shaped = flow-Shaped b1 k queue w (omega (arith, same_size, v.room)) in
    subst (λ m. Shaped m b.buf b.limit k tokens queue w f) (fun_ext (matches-replenish b now))
      (subst (λ l. Shaped (matches b1) b.buf l k tokens queue w f) same_limit
        (subst (λ buf. Shaped (matches b1) buf b1.limit k tokens queue w f) same_buf shaped))

-- A call of `bandwidthProcess` keeps the invariant: `bufSize` is the number of buffered packets and at most
-- 2000.
bandwidth_process-IsValid :
    (b : Bandwidth) (now : ℕ) (queue : List PacketNode) (w : World)
    → IsValid b
    → IsValid (process b now queue w).state
unfolding process
bandwidth_process-IsValid b now queue w v =
    let (same_buf, same_size, _, _) = replenish_kept b now in
    let (counted, within) =
      flow_size (replenish b now) (keep_at_most - b.buf_size) queue w
        (omega (arith, same_size, v.room)) (same_size ∙ v.counted ∙ sym (ap length same_buf)) in
    record { counted = counted; room = within }

replenish_rate :
    (b : Bandwidth) (since now : ℕ)
    → b.last_fill_time ≡ since % word
    → since ≤ now
    → now < since + word
    → (replenish b (now % word)).token_bucket ≤ b.token_bucket + (now - since) * (b.limit * 1024)
unfolding replenish
replenish_rate b since now s h k = ground (arith, sub32_elapsed since now h k)

-- The bytes that a call passed on beyond those of the packets it does not handle cost their tokens,
-- and the tokens grew by at most the rate times the time since the last call.
process_rate :
    (b : Bandwidth) (since now : ℕ) (queue : List PacketNode) (w : World)
    → IsValid b
    → b.last_fill_time ≡ since % word
    → since ≤ now
    → now < since + word
    → let r = process b (now % word) queue w in
      r.state.token_bucket + bytes r.queue * scale
      ≤ b.token_bucket + (now - since) * (b.limit * 1024) + bytes (reject (matches b) queue) * scale
process_rate b since now queue w v s h k =
    let (released, _, q, _, t, _) = process-Shaped b (now % word) queue w v in
    omega (
      arith,
      t,
      ap bytes q,
      bytes-reverse_aux released (reject (matches b) queue),
      replenish_rate b since now s h k,
    )

-- One call after another, each `gap` milliseconds after the one before: the state after them, and
-- all the packets that they passed on.
unfoldable pub run :
    Bandwidth → ℕ → World → List (ℕ × List PacketNode) → Bandwidth × List PacketNode
run b since w [] = (b, [])
run b since w ((gap, queue) ∷ calls) =
    let r = process b ((since + gap) % word) queue w in
    let (last, sent) = run r.state (since + gap) r.world calls in (last, r.queue ++ sent)

abbrev pub total_gap : List (ℕ × List PacketNode) → ℕ
total_gap [] = 0
total_gap ((gap, queue) ∷ calls) = gap + total_gap calls

abbrev pub Gaps : List (ℕ × List PacketNode) → Type 0
Gaps [] = Unit {0}
Gaps ((gap, queue) ∷ calls) = (gap < word) × Gaps calls

-- The packets of the calls that are none of the module's business.
abbrev pub unhandled : (PacketNode → Bool) → List (ℕ × List PacketNode) → ℕ
unhandled m [] = 0
unhandled m ((gap, queue) ∷ calls) = bytes (reject m queue) + unhandled m calls

process_kept :
    (b : Bandwidth) (now : ℕ) (queue : List PacketNode) (w : World)
    → ((process b now queue w).state.limit ≡ b.limit)
      × ((process b now queue w).state.last_fill_time ≡ now)
unfolding process
process_kept b now queue w = let (_, _, l, t) = replenish_kept b now in (l, t)

matches-process :
    (b : Bandwidth) (now : ℕ) (queue : List PacketNode) (w : World) (pac : PacketNode)
    → matches (process b now queue w).state pac ≡ matches b pac
unfolding matches process replenish
matches-process b now queue w pac = ground arith

-- From a valid state, over any run of calls with gaps below 2^32 ms and the settings unchanged: the
-- tokens left and 1000 for each byte of the packets passed on are at most the tokens at the start,
-- 1024 times the limit for each millisecond that passed, and 1000 for each byte that arrived in a
-- direction that is not handled. The 32-bit clock may wrap.
pub run_rate :
    (b : Bandwidth) (since : ℕ) (w : World) (calls : List (ℕ × List PacketNode))
    → IsValid b
    → b.last_fill_time ≡ since % word
    → Gaps calls
    → let (last, sent) = run b since w calls in
      last.token_bucket + bytes sent * scale
      ≤ b.token_bucket + total_gap calls * (b.limit * 1024) + unhandled (matches b) calls * scale
unfolding run bytes
run_rate b since w [] v s g = omega arith
run_rate b since w ((gap, queue) ∷ calls) v s g =
    let r = process b ((since + gap) % word) queue w in
    let (same_limit, same_time) = process_kept b ((since + gap) % word) queue w in
    let ih =
      run_rate r.state (since + gap) r.world calls
        (bandwidth_process-IsValid b ((since + gap) % word) queue w v) same_time g.1 in
    let first = process_rate b since (since + gap) queue w v s (omega arith) (omega (arith, g.0)) in
    let rate = λ (l : ℕ). total_gap calls * (l * 1024) in
    let turn : (since + gap - since) * (b.limit * 1024) ≡ gap * (b.limit * 1024) =
      ap (λ (d : ℕ). d * (b.limit * 1024)) (omega arith) in
    let others : unhandled (matches r.state) calls ≡ unhandled (matches b) calls =
      ap (λ (m : PacketNode → Bool). unhandled m calls)
        (fun_ext (matches-process b ((since + gap) % word) queue w)) in
    let same_rate : rate r.state.limit ≡ rate b.limit = ap rate same_limit in
    let sent = (run r.state (since + gap) r.world calls).1 in
    omega (arith, ih, first, turn, others, same_rate, bytes-append r.queue sent)
