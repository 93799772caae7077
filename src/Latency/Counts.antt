-- ===== src/Latency/Counts.antt =====
-- What the histogram of latency.cpp says after any run of recorded delays.
use clumsy.Prelude.{
  word, ℕ, zero, suc, ◌+◌, ◌*◌, ◌≤◌, ◌<◌, ◌≡◌, refl, true, false, List, [], ◌∷◌, arith, ◌==◌, subst,
  sym, if◌then◌else◌, get_or, length, tally, reject, Bool-cases, inl, inr, max, ◌^◌,
}
use clumsy.Latency.{
  record_all, Histogram, bounds, bucket_of, reset, bump, implausible, longest, latency_record,
  latency_bucket_count, latency_sum_ms, sum_rollover,
}

abbrev pub sum_of : List ℕ → ℕ
sum_of [] = 0
sum_of (d ∷ ds) = d + sum_of ds

-- The delays that count: the implausible ones are left out.
abbrev pub plausible : List ℕ → List ℕ
plausible = reject implausible

get_or-bump :
    (bs : List ℕ) (i j : ℕ)
    → i < length bs
    → get_or bs j 0 + 1 < word
    → get_or (bump bs i) j 0 ≡ get_or bs j 0 + (if i == j then 1 else 0)
unfolding bump
get_or-bump [] i j h k = elim h [ ]
get_or-bump (b ∷ bs) zero zero h k = ground arith
get_or-bump (b ∷ bs) zero (suc j) h k = ground arith
get_or-bump (b ∷ bs) (suc i) zero h k = ground arith
get_or-bump (b ∷ bs) (suc i) (suc j) h k = ground (arith, get_or-bump bs i j)

length-bump : (bs : List ℕ) (i : ℕ) → length (bump bs i) ≡ length bs
unfolding bump
length-bump [] i = refl
length-bump (b ∷ bs) zero = refl
length-bump (b ∷ bs) (suc i) = omega (arith, length-bump bs i)

bucket_of-le : (bs : List ℕ) (ms : ℕ) → bucket_of bs ms ≤ length bs
unfolding bucket_of
bucket_of-le [] ms = omega arith
bucket_of-le (b ∷ bs) ms = ground (arith, bucket_of-le bs ms)

-- What one more delay does to the counters, as long as none of them is about to wrap.
record Sound (h : Histogram) (n : ℕ) : Type 0 where
  full : length h.buckets ≡ 13
  few : h.total_count ≡ n
  under : h.sum_low < sum_rollover
  each : (j : ℕ) → get_or h.buckets j 0 ≤ n
  total : latency_sum_ms h ≤ n * longest

plausible-le : (ms : ℕ) → implausible ms ≡ false → ms ≤ longest
unfolding implausible
plausible-le ms e = ground arith

module _ (h : Histogram) (n ms : ℕ) (v : Sound h n) (k : n + 1 < 2 ^ 31)
    (e : implausible ms ≡ false) where
  record_bucket :
      (j : ℕ)
      → latency_bucket_count (latency_record h ms) j
        ≡ latency_bucket_count h j + (if bucket_of bounds ms == j then 1 else 0)
  unfolding latency_record latency_bucket_count
  record_bucket j = ground (
    arith,
    get_or-bump h.buckets (bucket_of bounds ms) j,
    bucket_of-le bounds ms,
    v.each j,
    v.full,
  )

  record_sum : latency_sum_ms (latency_record h ms) ≡ latency_sum_ms h + ms
  unfolding latency_record latency_sum_ms
  record_sum = ground (arith, plausible-le ms e, v.total, v.under)

  record-Sound : Sound (latency_record h ms) (n + 1)
  unfolding latency_record latency_bucket_count
  record-Sound = record {
    full = ground (arith, length-bump h.buckets (bucket_of bounds ms), v.full);
    few = ground (arith, v.few);
    under = ground (arith, v.under, plausible-le ms e);
    each = λ j. ground (arith, record_bucket j, v.each j);
    total = ground (arith, record_sum, v.total, plausible-le ms e);
  }

record_implausible : (h : Histogram) (ms : ℕ) → implausible ms ≡ true → latency_record h ms ≡ h
unfolding latency_record
record_implausible h ms e = rw e

abbrev pub max_of : List ℕ → ℕ
max_of [] = 0
max_of (d ∷ ds) = max d (max_of ds)

record_max :
    (h : Histogram) (ms : ℕ)
    → implausible ms ≡ false
    → (latency_record h ms).max_ms ≡ max h.max_ms ms
unfolding latency_record
record_max h ms e = ground arith

-- What the counters say after the delays `ds`, from a histogram that holds `n` samples.
abbrev Tells : Histogram → Histogram → ℕ → List ℕ → Type 0
Tells h r n ds =
    (r.total_count ≡ n + length ds)
    × (latency_sum_ms r ≡ latency_sum_ms h + sum_of ds)
    × (r.max_ms ≡ max h.max_ms (max_of ds))
    × ((j : ℕ)
        → latency_bucket_count r j
          ≡ latency_bucket_count h j + tally (λ d. bucket_of bounds d == j) ds)

Tells-cons :
    (h r : Histogram) (n d : ℕ) (ds : List ℕ)
    → Sound h n
    → n + 1 < 2 ^ 31
    → implausible d ≡ false
    → Tells (latency_record h d) r (n + 1) ds
    → Tells h r n (d ∷ ds)
Tells-cons h r n d ds v k e (c, s, m, b) = (
  omega arith,
  omega (arith, record_sum h n d v k e),
  omega (arith, record_max h d e),
  λ j. omega (arith, b j, record_bucket h n d v k e j),
)

record_all-Tells :
    (h : Histogram) (n : ℕ) (ds : List ℕ)
    → Sound h n
    → n + length (plausible ds) < 2 ^ 31
    → Tells h (record_all h ds) n (plausible ds)
unfolding record_all
record_all-Tells h n [] v k = (omega (arith, v.few), omega arith, omega arith, λ j. omega arith)
record_all-Tells h n (d ∷ ds) v k = elim (Bool-cases (implausible d)) [
  | inl bad ↦ rw bad (
      subst (λ g. Tells h (record_all g ds) n (plausible ds)) (sym (record_implausible h d bad))
        (record_all-Tells h n ds v (ground arith)))
  | inr fine ↦ rw fine (
      Tells-cons h (record_all (latency_record h d) ds) n d (plausible ds) v (ground arith) fine (
        record_all-Tells (latency_record h d) (n + 1) ds (record-Sound h n d v (ground arith) fine)
          (ground arith)))
]

reset-Sound : (h : Histogram) → Sound (reset h) 0
unfolding reset latency_sum_ms
reset-Sound h = record {
  full = refl;
  few = refl;
  under = omega arith;
  each = zeros;
  total = omega arith;
}
  where
    zeros : (j : ℕ) → get_or (reset h).buckets j 0 ≤ 0
    zeros j = ground arith

reset_zero :
    (h : Histogram)
    → (latency_sum_ms (reset h) ≡ 0)
      × ((reset h).max_ms ≡ 0)
      × ((j : ℕ) → latency_bucket_count (reset h) j ≡ 0)
unfolding reset latency_sum_ms latency_bucket_count
reset_zero h = (refl, refl, λ j. omega (arith, (reset-Sound h).each j))

-- After a reset and any sequence of recorded delays, of which fewer than 2^31 are plausible (at most an
-- hour), the count, the sum, the maximum and each bucket's count are those of the plausible delays.
-- The implausible ones left no trace in them.
pub reset-record_all :
    (h : Histogram) (ds : List ℕ)
    → length (plausible ds) < 2 ^ 31
    → let r = record_all (reset h) ds in
      (r.total_count ≡ length (plausible ds))
      × (latency_sum_ms r ≡ sum_of (plausible ds))
      × (r.max_ms ≡ max_of (plausible ds))
      × ((j : ℕ) → latency_bucket_count r j ≡ tally (λ d. bucket_of bounds d == j) (plausible ds))
reset-record_all h ds k =
    let (c, s, m, b) = record_all-Tells (reset h) 0 ds (reset-Sound h) (omega arith) in
    let (s0, m0, b0) = reset_zero h in
    (omega arith, omega arith, omega arith, λ j. omega (arith, b j, b0 j))
