-- ===== src/Jitter/Wrap.antt =====
-- jitter.cpp when the tick counter is about to wrap: the scheduled release is compared without
-- regard to the wrap.
use clumsy.Prelude.{
  ℕ, ◌+◌, ◌≤◌, ◌<◌, ◌≡◌, refl, ap, ◌∙◌, List, [], ◌∷◌, ◌++◌, true, arith, reverse, length, word,
  add32, reject, select, append-nil, reject-append,
}
use clumsy.Packet.{PacketNode, World}
use clumsy.Packet.Gathered.{Each}
use clumsy.Lag.{keep_at_most}
use clumsy.Jitter.{Jitter, Sampler, matches, low, high, ready, process}
use clumsy.Jitter.Scheduled.{Queued, IsValid}
use clumsy.Jitter.Delays.{jitter_process_uncongested}

module _ (j : Jitter) (now : ℕ) (tick : now < word) (near : word ≤ now + low j)
    (short : high j ≤ 5000) where
  Queued-ready : (n t : PacketNode) → Queued j now n t → ready now n ≡ true
  unfolding add32
  Queued-ready n t (delay, above, below, e) = rw e (ground arith)

  all_ready : (ns ts : List PacketNode) → Each (Queued j now) ns ts → reject (ready now) ns ≡ []
  all_ready [] [] e = refl
  all_ready [] (t ∷ ts) e = elim e [ ]
  all_ready (n ∷ ns) [] e = elim e [ ]
  all_ready (n ∷ ns) (t ∷ ts) e = rw (Queued-ready n t e.0) (all_ready ns ts e.1)

-- For the last ticks before the clock wraps, `jitterProcess` does not delay at all: from a valid state, while the
-- buffer and the list together hold fewer than 2000 packets, where the tick and the shortest delay of the
-- range add up to 2^32 or more, and the range ends at 5000 ms at most, no packet that the call takes
-- is left in the buffer when it returns.
pub process_early :
    (sampler : Sampler) (rand : ℕ → ℕ) (j : Jitter) (now : ℕ) (queue : List PacketNode) (w : World)
    → IsValid j
    → j.buf_size + length queue < keep_at_most
    → now < word
    → word ≤ now + low j
    → high j ≤ 5000
    → (process sampler rand j now queue w).state.buf ≡ reject (ready now) j.buf
process_early sampler rand j now queue w v h tick near short =
    let (queued, e, b, _) = jitter_process_uncongested sampler rand j now queue w v h in
    b
    ∙ reject-append (ready now) j.buf queued
    ∙ ap (λ (xs : List PacketNode). reject (ready now) j.buf ++ xs)
        (all_ready j now tick near short queued (select (matches j) (reverse queue)) e)
    ∙ append-nil (reject (ready now) j.buf)
