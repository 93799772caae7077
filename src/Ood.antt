-- ===== src/Ood.antt =====
-- ood.cpp: packets are held back in a small buffer and let out in a shuffled order.
--
-- The buffer is the list of its nodes from `bufTail->prev` to `bufHead->next`, oldest first.
pub mod Shuffle
pub mod Conserved
use text.Mathlib.Text.{◌==◌ as str_eq}
use Prim.Native.String.{String}
use clumsy.Prelude.{
  ℕ, zero, suc, ◌+◌, ◌-◌, ◌%◌, Bool, true, false, ◌&&◌, ◌||◌, Option, none, some, List, [], ◌∷◌,
  ◌++◌, reverse, reverse_aux, sub32, ltb, leb, if◌then◌else◌, length, get_elem?, set, take, drop,
  interlocked_increment,
}
use clumsy.Packet.{
  PacketNode, World, Outcome, check_direction, calc_chance, start_time_period, end_time_period,
}
use clumsy.Packet.Collect.{flush_all}
use clumsy.Utils.{Libc, parse_bool_value, short_in}

pub record Ood : Type 0 where
  pub enabled : Bool
  pub inbound : Bool
  pub outbound : Bool
  pub chance : ℕ
  pub max_buffer : ℕ
  pub max_delay : ℕ
  pub buf : List PacketNode
  pub buf_size : ℕ
  pub affected : ℕ

unfoldable pub matches : Ood → PacketNode → Bool
matches o pac = check_direction pac.meta.outbound o.inbound o.outbound

-- The state of the capturing loop; `after` is what lies between the cursor and `tail`.
pub record Capture : Type 0 where
  pub after : List PacketNode
  pub buf : List PacketNode
  pub buf_size : ℕ
  pub affected : ℕ
  pub world : World

abbrev pub leave : PacketNode → Capture → World → Capture
leave pac c w = record c { after = pac ∷ c.after; world = w }

abbrev pub hold : ℕ → PacketNode → Capture → World → Capture
hold now pac c w = record {
  after = c.after;
  buf = c.buf ++ record pac { timestamp = now } ∷ [];
  buf_size = c.buf_size + 1;
  affected = interlocked_increment c.affected;
  world = w;
}

-- The body of the capturing loop: `rand()` is called only where there is room and the direction fits.
unfoldable pub capture_one : (ℕ → ℕ) → Ood → ℕ → PacketNode → Capture → Capture
capture_one rand o now pac c =
    if ltb c.buf_size o.max_buffer && matches o pac
    then (let (hit, w) = calc_chance rand o.chance c.world in
        if hit then hold now pac c w else leave pac c w)
    else leave pac c c.world

-- From `tail` towards `head`.
unfoldable pub capture : (ℕ → ℕ) → Ood → ℕ → List PacketNode → Capture → Capture
capture rand o now [] c = c
capture rand o now (pac ∷ before) c = capture rand o now before (capture_one rand o now pac c)

-- `tmp = arr[i]; arr[i] = arr[j]; arr[j] = tmp`, with the two entries.
abbrev pub exchange :
    List PacketNode → ℕ → ℕ → Option PacketNode → Option PacketNode → List PacketNode
exchange arr i j (some tmp) (some other) = set (set arr i other) j tmp
exchange arr i j _ _ = arr

unfoldable pub swap : List PacketNode → ℕ → ℕ → List PacketNode
swap arr i j = exchange arr i j (get_elem? arr i) (get_elem? arr j)

-- The loop over `i`, from the given one down to 1.
unfoldable pub shuffle : (ℕ → ℕ) → ℕ → List PacketNode → World → List PacketNode × World
unfolding swap
shuffle rand zero arr w = (arr, w)
shuffle rand (suc i) arr w =
    shuffle rand i (swap arr (suc i) (rand w.draws % (i + 2))) (record w { draws = w.draws + 1 })

pub record Release : Type 0 where
  pub queue : List PacketNode
  pub buf : List PacketNode
  pub buf_size : ℕ
  pub world : World

-- `releaseBufShuffled`: `count` packets leave the buffer, oldest first, and each goes right after `head`.
unfoldable pub release_buf_shuffled : (ℕ → ℕ) → Release → Release
release_buf_shuffled rand r =
    let count = r.buf_size in
    let (arr, w) = shuffle rand (count - 1) (take count r.buf) r.world in
    if ltb 0 count
    then record { queue = reverse_aux arr r.queue; buf = drop count r.buf; buf_size = 0; world = w }
    else r

-- The trigger: `oldest_age` is the age of the packet at the buffer's tail.
unfoldable pub triggers : Ood → ℕ → List PacketNode → ℕ → Bool
triggers o now [] size = false
triggers o now (oldest ∷ rest) size =
    leb o.max_buffer size || leb o.max_delay (sub32 now oldest.timestamp)

abbrev pub begin : Ood → World → Capture
begin o w = record {
  after = [];
  buf = o.buf;
  buf_size = o.buf_size;
  affected = o.affected;
  world = w;
}

abbrev pub captured : Capture → Release
captured c = record { queue = c.after; buf = c.buf; buf_size = c.buf_size; world = c.world }

abbrev pub outcome : Ood → ℕ → Bool → Release → Outcome Ood
outcome o affected triggered r = record {
  queue = r.queue;
  triggered = triggered;
  state = record o { buf = r.buf; buf_size = r.buf_size; affected = affected };
  world = r.world;
}

unfoldable pub process : (ℕ → ℕ) → Ood → ℕ → List PacketNode → World → Outcome Ood
process rand o now queue w =
    let c = capture rand o now (reverse queue) (begin o w) in
    let r = captured c in
    if triggers o now c.buf c.buf_size
    then outcome o c.affected true (release_buf_shuffled rand r)
    else outcome o c.affected (ltb 0 c.buf_size) r

-- `startUp` links the buffer when it was never used; later it only checks that it is empty.
unfoldable pub start_up : Ood → World → Ood × World
start_up o w = (o, start_time_period w)

-- Closing flushes in the order of arrival, without a shuffle.
unfoldable pub close_down : Ood → List PacketNode → World → Outcome Ood
close_down o queue w = record {
  queue = queue ++ flush_all o.buf [];
  triggered = false;
  state = record o { buf = []; buf_size = o.buf_size - length o.buf };
  world = end_time_period w;
}

unfoldable pub set_param : Libc → Ood → String → String → Bool × Ood
set_param c o key value =
    if str_eq key "ood-chance"
    then (true, record o { chance = short_in 0 10000 (c.percent value) })
    else if str_eq key "ood-buffer"
    then (true, record o { max_buffer = short_in 2 50 (c.atoi value) })
    else if str_eq key "ood-delay"
    then (true, record o { max_delay = short_in 10 2000 (c.atoi value) })
    else if str_eq key "ood-inbound"
    then (true, record o { inbound = parse_bool_value value })
    else if str_eq key "ood-outbound"
    then (true, record o { outbound = parse_bool_value value })
    else (false, o)
