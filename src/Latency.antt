-- ===== src/Latency.antt =====
-- latency.cpp: the histogram of the delays that lag and jitter measured. Readers and resets hold
-- `latencyLock` and writers the capture mutex, so each operation is one step on the state here.
pub mod Counts
use clumsy.Prelude.{
  ℕ, zero, suc, ◌+◌, ◌-◌, ◌*◌, ◌%◌, ◌^◌, Bool, ◌||◌, List, [], ◌∷◌, ltb, leb, ◌==◌, if◌then◌else◌,
  get_or, word, interlocked_increment,
}

pub record Histogram : Type 0 where
  pub buckets : List ℕ
  pub total_count : ℕ
  pub min_ms : ℕ
  pub max_ms : ℕ
  pub sum_low : ℕ
  pub sum_high : ℕ

-- The inclusive upper bounds; the last bucket is unbounded and has no entry.
abbrev pub bounds : List ℕ
bounds = 1 ∷ 2 ∷ 5 ∷ 10 ∷ 25 ∷ 50 ∷ 100 ∷ 250 ∷ 500 ∷ 1000 ∷ 2500 ∷ 5000 ∷ []

abbrev pub sum_rollover : ℕ
sum_rollover = 1000000000

abbrev pub longest : ℕ
longest = 3600000

-- The search for the bucket: the first whose bound the delay does not pass.
unfoldable pub bucket_of : List ℕ → ℕ → ℕ
bucket_of [] ms = 0
bucket_of (b ∷ bs) ms = let rest = bucket_of bs ms in if leb ms b then 0 else suc rest

abbrev pub empty_buckets : List ℕ
empty_buckets = 0 ∷ 0 ∷ 0 ∷ 0 ∷ 0 ∷ 0 ∷ 0 ∷ 0 ∷ 0 ∷ 0 ∷ 0 ∷ 0 ∷ 0 ∷ []

unfoldable pub reset : Histogram → Histogram
reset h = record {
  buckets = empty_buckets;
  total_count = 0;
  min_ms = 0;
  max_ms = 0;
  sum_low = 0;
  sum_high = 0;
}

unfoldable pub bump : List ℕ → ℕ → List ℕ
bump [] i = []
bump (b ∷ bs) zero = interlocked_increment b ∷ bs
bump (b ∷ bs) (suc i) = b ∷ bump bs i

-- A DWORD of 2^31 or more is a negative LONG.
unfoldable pub implausible : ℕ → Bool
implausible ms = leb (2 ^ 31) ms || ltb longest ms

abbrev rollover : Histogram → ℕ → Histogram
rollover h low =
    if leb sum_rollover low
    then record h { sum_low = low - sum_rollover; sum_high = interlocked_increment h.sum_high }
    else record h { sum_low = low }

unfoldable pub latency_record : Histogram → ℕ → Histogram
latency_record h ms =
    if implausible ms
    then h
    else (let binned = record h {
      buckets = bump h.buckets (bucket_of bounds ms);
      min_ms = if h.total_count == 0 || ltb ms h.min_ms then ms else h.min_ms;
      max_ms = if ltb h.max_ms ms then ms else h.max_ms;
    } in
        let summed = rollover binned (h.sum_low + ms) in
        record summed { total_count = interlocked_increment h.total_count })

unfoldable pub latency_min : Histogram → ℕ
latency_min h = if h.total_count == 0 then 0 else h.min_ms

-- Out of range the source returns 0.
unfoldable pub latency_bucket_count : Histogram → ℕ → ℕ
latency_bucket_count h ix = get_or h.buckets ix 0

unfoldable pub latency_bucket_upper : ℕ → ℕ
latency_bucket_upper ix = get_or bounds ix 0

unfoldable pub latency_sum_ms : Histogram → ℕ
latency_sum_ms h = h.sum_high * sum_rollover + h.sum_low

-- The calls of one session, oldest first.
unfoldable pub record_all : Histogram → List ℕ → Histogram
record_all h [] = h
record_all h (d ∷ ds) = record_all (latency_record h d) ds
