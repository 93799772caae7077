-- ===== src/Pipeline/Adapters.antt =====
-- The modules as entries of the pipeline: the `Module` tables of drop.cpp, duplicate.cpp, lag.cpp, jitter.cpp and
-- ood.cpp, and the proof that each keeps the contract.
use clumsy.Prelude.{
  ℕ, ◌+◌, ◌≡◌, refl, ap, ◌∙◌, Bool, false, List, [], ◌∷◌, ◌++◌, arith, reverse, reverse_aux,
  tally-append, tally-reverse, replicate, select, reject, zero, suc,
}
use clumsy.Packet.{PacketNode, World, Outcome, Content, content, start_time_period, end_time_period}
use clumsy.Packet.Collect.{flush_all, flush_all-reverse_aux}
use clumsy.Packet.Sweep.{Sift}
use clumsy.Packet.Gathered.{Each, holding-Sift, holding-reverse_aux, holding-Each}
use clumsy.Drop
use clumsy.Ood
use clumsy.Ood.Conserved.{ood_process-Conserves}
use clumsy.Lag
use clumsy.Lag.Delay.{process-Delays}
use clumsy.Jitter
use clumsy.Jitter.Delays.{process-Delayed}
use clumsy.Duplicate
use clumsy.Duplicate.Repeats.{Repeats, done, once, copied, dup_process-Repeats}
use clumsy.Pipeline.{Module, prepare_clone}
use clumsy.Pipeline.Lawful.{awaits, waiting, Keeps, Lawful}

-- A module that holds no packets and does nothing at its start and its end but log.
abbrev pub as_it_is {ℓ} : {S : Type ℓ} → S → World → S × World
as_it_is s w = (s, w)

abbrev pub nothing_held : {S : Type 0} → S → List PacketNode
nothing_held s = []

abbrev pub passes_on : {S : Type 0} → S → List PacketNode → World → Outcome S
passes_on s queue w = record { queue = queue; triggered = false; state = s; world = w }

abbrev pub drop_module : (ℕ → ℕ) → Module Drop.Drop
drop_module rand = record {
  enabled = λ d. d.enabled;
  held = nothing_held;
  start_up = as_it_is;
  process = λ d now queue w. Drop.process rand d queue w;
  close_down = passes_on;
}

abbrev pub dup_module : (ℕ → ℕ) → (ℕ → Bool) → Module Duplicate.Dup
dup_module rand alloc = record {
  enabled = λ d. d.enabled;
  held = nothing_held;
  start_up = as_it_is;
  process = λ d now queue w. Duplicate.process rand alloc prepare_clone d queue w;
  close_down = passes_on;
}

abbrev pub lag_module : Module Lag.Lag
lag_module = record {
  enabled = λ l. l.enabled;
  held = λ l. l.buf;
  start_up = Lag.start_up;
  process = Lag.process;
  close_down = Lag.close_down;
}

abbrev pub jitter_module : Jitter.Sampler → (ℕ → ℕ) → Module Jitter.Jitter
jitter_module sampler rand = record {
  enabled = λ j. j.enabled;
  held = λ j. j.buf;
  start_up = Jitter.start_up;
  process = Jitter.process sampler rand;
  close_down = Jitter.close_down;
}

abbrev pub ood_module : (ℕ → ℕ) → Module Ood.Ood
ood_module rand = record {
  enabled = λ o. o.enabled;
  held = λ o. o.buf;
  start_up = Ood.start_up;
  process = Ood.process rand;
  close_down = Ood.close_down;
}

-- `waiting` looks at a part of the content.
abbrev of_id : ℕ → Content → Bool
of_id id c = awaits id c.backend

drop_module-Keeps :
    (rand : ℕ → ℕ) (id : ℕ) (d : Drop.Drop) (queue : List PacketNode) (w : World)
    → Keeps id (drop_module rand) d queue w (Drop.process rand d queue w)
drop_module-Keeps rand id d queue w =
    let (ls, s, f, _, _) = Drop.drop_process-Parted rand d queue w in
    let parted = holding-Sift (of_id id) s in
    let freed = ap (waiting id) f ∙ holding-reverse_aux (of_id id) ls w.freed in
    omega (arith, parted, freed)

pub drop_module-Lawful : (rand : ℕ → ℕ) → Lawful (drop_module rand)
drop_module-Lawful rand = record {
  starts = λ id d w. refl;
  keeps = λ id d now queue w. drop_module-Keeps rand id d queue w;
  flushes = λ id d queue w. refl;
  empties = λ s queue w. refl;
}

-- A buffer that is flushed at the end goes behind the list.
waiting-flushed :
    (id : ℕ) (queue buf : List PacketNode)
    → waiting id (queue ++ flush_all buf []) ≡ waiting id queue + waiting id buf
waiting-flushed id queue buf = rw (flush_all-reverse_aux buf []) (
    omega (
      arith,
      tally-append (λ n. awaits id n.backend) queue (reverse_aux buf []),
      holding-reverse_aux (of_id id) buf [],
    ))

pub ood_module-Lawful : (rand : ℕ → ℕ) → Lawful (ood_module rand)
unfolding Ood.start_up Ood.close_down start_time_period end_time_period
ood_module-Lawful rand = record {
  starts = λ id o w. refl;
  keeps = λ id o now queue w.
      (let (k, f) = ood_process-Conserves rand o now queue w (of_id id) in
        omega (arith, k, ap (waiting id) f));
  flushes = λ id o queue w. omega (arith, waiting-flushed id queue o.buf);
  empties = λ s queue w. refl;
}

-- What the calls of lag.cpp and jitter.cpp have in common: `moved` went from the list into the buffer.
waiting-taken :
    (id : ℕ) {m : PacketNode → Type 0} {R : PacketNode → PacketNode → Type 0}
    (queue ks taken queued : List PacketNode)
    → Sift m (reverse queue) ks taken
    → Each R queued taken
    → ((x y : PacketNode) → R x y → content x ≡ content y)
    → waiting id queue ≡ waiting id (reverse ks) + waiting id queued
waiting-taken id {R = R} queue ks taken queued s e same = omega (
  arith,
  holding-Sift (of_id id) s,
  holding-Each R (of_id id) queued taken same e,
  tally-reverse (λ n. awaits id n.backend) queue,
  tally-reverse (λ n. awaits id n.backend) ks,
)

both_parts :
    (id : ℕ) (xs ys zs us : List PacketNode)
    → xs ++ ys ≡ zs ++ us
    → waiting id xs + waiting id ys ≡ waiting id zs + waiting id us
both_parts id xs ys zs us e =
    let q = λ (n : PacketNode). awaits id n.backend in
    omega (arith, tally-append q xs ys, tally-append q zs us, ap (waiting id) e)

lag_module-Keeps :
    (id : ℕ) (l : Lag.Lag) (now : ℕ) (queue : List PacketNode) (w : World)
    → Keeps id lag_module l queue w (Lag.process l now queue w)
lag_module-Keeps id l now queue w =
    let (ks, taken, queued, released, s, e, b, q, f, _, _) = process-Delays l now queue w in
    let r = Lag.process l now queue w in
    let moved = waiting-taken id queue ks taken queued s e (λ x y h. ap content h) in
    let line = both_parts id l.buf queued released r.state.buf b in
    let out = ap (waiting id) q ∙ holding-reverse_aux (of_id id) released (reverse ks) in
    omega (arith, moved, line, out, ap (waiting id) f)

pub lag_module-Lawful : Lawful lag_module
unfolding Lag.start_up Lag.close_down start_time_period end_time_period
lag_module-Lawful = record {
  starts = λ id l w. refl;
  keeps = lag_module-Keeps;
  flushes = λ id l queue w. omega (arith, waiting-flushed id queue l.buf);
  empties = λ s queue w. refl;
}

tally-parted :
    (id : ℕ) (p : PacketNode → Bool) (xs : List PacketNode)
    → waiting id xs ≡ waiting id (select p xs) + waiting id (reject p xs)
tally-parted id p [] = refl
tally-parted id p (x ∷ xs) = ground (arith, tally-parted id p xs)

jitter_module-Keeps :
    (sampler : Jitter.Sampler) (rand : ℕ → ℕ) (id : ℕ) (j : Jitter.Jitter) (now : ℕ)
    (queue : List PacketNode) (w : World)
    → Keeps id (jitter_module sampler rand) j queue w (Jitter.process sampler rand j now queue w)
jitter_module-Keeps sampler rand id j now queue w =
    let (ks, taken, queued, flushed, s, e, b, q, f, _, _, _) =
      process-Delayed sampler rand j now queue w in
    let r = Jitter.process sampler rand j now queue w in
    let line = j.buf ++ queued in
    let due = select (Jitter.ready now) line in
    let test = λ (n : PacketNode). awaits id n.backend in
    let moved = waiting-taken id queue ks taken queued s e (λ x y h. ap content h.3) in
    let stay = ap (waiting id) b ∙ tally-append test flushed r.state.buf in
    let out =
      ap (waiting id) q ∙ holding-reverse_aux (of_id id) flushed (reverse_aux due (reverse ks)) in
    omega (
      arith,
      moved,
      stay,
      out,
      holding-reverse_aux (of_id id) due (reverse ks),
      tally-parted id (Jitter.ready now) line,
      tally-append test j.buf queued,
      ap (waiting id) f,
    )

pub jitter_module-Lawful :
    (sampler : Jitter.Sampler) (rand : ℕ → ℕ) → Lawful (jitter_module sampler rand)
unfolding Jitter.start_up Jitter.close_down start_time_period end_time_period
jitter_module-Lawful sampler rand = record {
  starts = λ id j w. refl;
  keeps = jitter_module-Keeps sampler rand;
  flushes = λ id j queue w. omega (arith, waiting-flushed id queue j.buf);
  empties = λ s queue w. refl;
}

-- A clone has no verdict to wait for.
waiting-copies :
    (id k : ℕ) (x : PacketNode)
    → waiting id (replicate k (Duplicate.clone_node prepare_clone x)) ≡ 0
unfolding Duplicate.clone_node Duplicate.create_node
waiting-copies id zero x = refl
waiting-copies id (suc k) x = ground (arith, waiting-copies id k x)

waiting-Repeats :
    (id : ℕ) {h : PacketNode → Bool} {most : ℕ} {xs ys : List PacketNode} {n : ℕ}
    → Repeats (Duplicate.clone_node prepare_clone) h most xs ys n
    → waiting id ys ≡ waiting id xs
waiting-Repeats id done = refl
waiting-Repeats id (once r) = omega (arith, waiting-Repeats id r)
waiting-Repeats id (copied {x = x} {ys = ys} k m le r) = omega (
  arith,
  tally-append (λ n. awaits id n.backend) (replicate k (Duplicate.clone_node prepare_clone x))
      (x ∷ ys),
  waiting-copies id k x,
  waiting-Repeats id r,
)

pub dup_module-Lawful : (rand : ℕ → ℕ) (alloc : ℕ → Bool) → Lawful (dup_module rand alloc)
dup_module-Lawful rand alloc = record {
  starts = λ id d w. refl;
  keeps = λ id d now queue w.
      (let (n, r, _, f) = dup_process-Repeats rand alloc prepare_clone d queue w in
        omega (arith, waiting-Repeats id r, ap (waiting id) f));
  flushes = λ id d queue w. refl;
  empties = λ s queue w. refl;
}
