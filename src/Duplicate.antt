-- ===== src/Duplicate.antt =====
-- duplicate.cpp: packets of the handled directions are sent several times, with a set chance; and
-- `createNode` and `cloneNode` of packet.cpp.
--
-- `alloc k` is whether allocation number `k` of a call succeeds. `prepare` stands for the capture
-- backend's `packetBackendPrepareClone`: what it writes into a clone's blob, given the original's. The
-- count is at least 2: `setParam` keeps it there.
pub mod Repeats
use text.Mathlib.Text.{◌==◌ as str_eq}
use Prim.Native.String.{String}
use clumsy.Prelude.{
  ℕ, zero, suc, ◌+◌, ◌-◌, Bool, true, false, Option, none, some, List, [], ◌∷◌, reverse,
  if◌then◌else◌, interlocked_increment,
}
use clumsy.Packet.{PacketMeta, PacketNode, World, Outcome, check_direction, calc_chance}
use clumsy.Utils.{Libc, parse_bool_value, short_in}

pub record Dup : Type 0 where
  pub enabled : Bool
  pub inbound : Bool
  pub outbound : Bool
  pub chance : ℕ
  pub count : ℕ
  pub affected : ℕ

unfoldable pub matches : Dup → PacketNode → Bool
matches d pac = check_direction pac.meta.outbound d.inbound d.outbound

unfoldable pub create_node : List ℕ → ℕ → PacketMeta → List ℕ → PacketNode
create_node bytes len meta backend = record {
  packet = bytes;
  packet_len = len;
  meta = meta;
  backend = backend;
  timestamp = 0;
  enqueue_time = 0;
}

unfoldable pub clone_node : (List ℕ → List ℕ) → PacketNode → PacketNode
unfolding create_node
clone_node prepare src = create_node src.packet src.packet_len src.meta (prepare src.backend)

-- `passed` is what stands before the cursor, nearest first; `allocs` how often memory was asked for.
pub record Walk : Type 0 where
  pub passed : List PacketNode
  pub allocs : ℕ
  pub affected : ℕ
  pub world : World
  pub duped : Bool

module _ (rand : ℕ → ℕ) (alloc : ℕ → Bool) (prepare : List ℕ → List ℕ) where
  -- `while (copies--)`, up to a failed allocation.
  unfoldable pub clones : ℕ → PacketNode → Walk → Walk
  clones zero pac s = s
  clones (suc copies) pac s =
      let more = clones copies pac (record s {
        passed = clone_node prepare pac ∷ s.passed;
        allocs = s.allocs + 1;
        affected = interlocked_increment s.affected;
      }) in
      if alloc s.allocs then more else record s { allocs = s.allocs + 1 }

  abbrev pub step_over : PacketNode → Walk → Walk
  step_over pac s = record s { passed = pac ∷ s.passed }

  -- The body of the loop over the list.
  unfoldable pub visit : Dup → PacketNode → Walk → Walk
  visit d pac s =
      if matches d pac
      then (let (hit, w) = calc_chance rand d.chance s.world in
          if hit
          then step_over pac
              (record (clones (d.count - 1) pac (record s { world = w })) { duped = true })
          else step_over pac (record s { world = w }))
      else step_over pac s

  unfoldable pub walk : Dup → List PacketNode → Walk → Walk
  walk d [] s = s
  walk d (pac ∷ rest) s = walk d rest (visit d pac s)

  unfoldable pub process : Dup → List PacketNode → World → Outcome Dup
  process d queue w =
      let s =
        walk d queue
          (record { passed = []; allocs = 0; affected = d.affected; world = w; duped = false }) in
      record {
        queue = reverse s.passed;
        triggered = s.duped;
        state = record d { affected = s.affected };
        world = s.world;
      }

unfoldable pub set_param : Libc → Dup → String → String → Bool × Dup
set_param c d key value =
    if str_eq key "duplicate-chance"
    then (true, record d { chance = short_in 0 10000 (c.percent value) })
    else if str_eq key "duplicate-count"
    then (true, record d { count = short_in 2 50 (c.atoi value) })
    else if str_eq key "duplicate-inbound"
    then (true, record d { inbound = parse_bool_value value })
    else if str_eq key "duplicate-outbound"
    then (true, record d { outbound = parse_bool_value value })
    else (false, d)
