-- ===== src/Packet/Collect.antt =====
-- The loop by which lag.cpp, jitter.cpp and throttle.cpp move packets from the list into a buffer:
-- from `tail` towards `head`, back to `tail` after each packet moved, until the buffer is full.
--
-- A buffer is the list of its nodes from `bufTail->prev` to `bufHead->next`, oldest first.
-- `before` is the packet list from the cursor to `head`, nearest first, and `after` what lies
-- between the cursor and `tail`.
use clumsy.Prelude.{
  ℕ, zero, suc, ◌+◌, ◌-◌, ◌*◌, ◌<◌, ◌≡◌, refl, sym, ap, ◌∙◌, Bool, true, false, List, [], ◌∷◌, ◌++◌,
  reverse_aux, append-nil, arith, ltb, length, Bool-cases, inl, inr, interlocked_increment,
}
use clumsy.Packet.{PacketNode, World}

pub record Buffer : Type 0 where
  pub nodes : List PacketNode
  pub size : ℕ
  pub affected : ℕ
  pub world : World

-- `while (!isBufEmpty()) insertAfter(popNode(bufTail->prev), oldLast)`: each node goes in front of
-- those that went before it, behind what the list held.
unfoldable pub flush_all : List PacketNode → List PacketNode → List PacketNode
flush_all [] flushed = flushed
flush_all (pac ∷ rest) flushed = flush_all rest (pac ∷ flushed)

pub flush_all-reverse_aux : (xs ys : List PacketNode) → flush_all xs ys ≡ reverse_aux xs ys
unfolding flush_all
flush_all-reverse_aux [] ys = refl
flush_all-reverse_aux (x ∷ xs) ys = flush_all-reverse_aux xs (x ∷ ys)

-- The turns of the loop below are at most these many: it goes back to `tail` for each packet moved.
unfoldable pub fuel_for : List PacketNode → ℕ
fuel_for queue = length queue * (length queue + 1) + 1

-- `matches` is the direction test, `stamp` what the module writes into a node that it takes (and
-- draws for it), and `cap` the source's KEEP_AT_MOST.
module _ (matches : PacketNode → Bool) (stamp : World → PacketNode → PacketNode × World)
    (cap : ℕ) where
  abbrev pub take_in : Buffer → PacketNode → Buffer
  take_in b pac =
      let (node, w) = stamp b.world pac in
      record {
        nodes = b.nodes ++ node ∷ [];
        size = b.size + 1;
        affected = interlocked_increment b.affected;
        world = w;
      }

  -- The loop, on fuel.
  unfoldable pub collect : ℕ → List PacketNode → List PacketNode → Buffer → List PacketNode × Buffer
  collect zero before after b = (reverse_aux before after, b)
  collect (suc f) [] after b = (after, b)
  collect (suc f) (pac ∷ before) after b = elim (ltb b.size cap) [
    | false ↦ (reverse_aux (pac ∷ before) after, b)
    | true ↦ elim (matches pac) [
      | true ↦ collect f (reverse_aux after before) [] (take_in b pac)
      | false ↦ collect f before (pac ∷ after) b
    ]
  ]

  -- What it comes to: one pass, without going back.
  unfoldable pub gather : List PacketNode → List PacketNode → Buffer → List PacketNode × Buffer
  gather [] after b = (after, b)
  gather (pac ∷ before) after b = elim (ltb b.size cap) [
    | false ↦ (reverse_aux (pac ∷ before) after, b)
    | true ↦ elim (matches pac) [
      | true ↦ gather before after (take_in b pac)
      | false ↦ gather before (pac ∷ after) b
    ]
  ]

  abbrev pub Unmatched : List PacketNode → Type 0
  Unmatched [] = Unit {0}
  Unmatched (x ∷ xs) = (matches x ≡ false) × Unmatched xs

  collect_full :
      (f : ℕ) (before after : List PacketNode) (b : Buffer)
      → ltb b.size cap ≡ false
      → collect f before after b ≡ (reverse_aux before after, b)
  unfolding collect
  collect_full zero before after b e = refl
  collect_full (suc f) [] after b e = refl
  collect_full (suc f) (x ∷ before) after b e = ground arith

  pass_by :
      (k : ℕ) (x : PacketNode) (before after : List PacketNode) (b : Buffer)
      → matches x ≡ false
      → collect (suc k) (x ∷ before) after b ≡ collect k before (x ∷ after) b
  unfolding collect
  pass_by k x before after b m = elim (Bool-cases (ltb b.size cap)) [
    | inl room ↦ rw (room, collect, m) refl
    | inr full ↦
        collect_full (suc k) (x ∷ before) after b full
        ∙ sym (collect_full k before (x ∷ after) b full)
  ]

  -- Going back over packets that were passed by changes nothing.
  rescan :
      (k : ℕ) (passed before after : List PacketNode) (b : Buffer)
      → Unmatched passed
      → collect (length passed + k) (reverse_aux passed before) after b
        ≡ collect k before (passed ++ after) b
  rescan k [] before after b u = let e : 0 + k ≡ k = omega arith in rw e
  rescan k (x ∷ passed) before after b u =
      let e : suc (length passed) + k ≡ length passed + suc k = omega arith in
      rw e (
        rescan (suc k) passed (x ∷ before) after b u.1 ∙ pass_by k x before (passed ++ after) b u.0)

  go_back :
      (f k : ℕ) (before after : List PacketNode) (b : Buffer)
      → Unmatched after
      → f ≡ length after + k
      → collect f (reverse_aux after before) [] b ≡ collect k before after b
  go_back f k before after b u e = rw e (
      rescan k after before [] b u
      ∙ ap (λ (r : List PacketNode). collect k before r b) (append-nil after))

  -- With fuel for every turn, the loop is the one pass: it ends by its own condition.
  pub collect-gather :
      (f : ℕ) (before after : List PacketNode) (b : Buffer)
      → Unmatched after
      → length before * (length before + length after + 1) < f
      → collect f before after b ≡ gather before after b
  unfolding collect gather
  collect-gather zero before after b u h = elim h [ ]
  collect-gather (suc f) [] after b u h = refl
  collect-gather (suc f) (x ∷ before) after b u h = elim (Bool-cases (ltb b.size cap)) [
    | inr full ↦ ground arith
    | inl room ↦ elim (Bool-cases (matches x)) [
      | inr m ↦
          let rest = collect-gather f before (x ∷ after) b (m, u) (omega arith) in
          ground (arith, rest)
      | inl m ↦
          let k = f - length after in
          let back = go_back f k before after (take_in b x) u (omega arith) in
          let rest = collect-gather k before after (take_in b x) u (omega arith) in
          ground (arith, back, rest)
    ]
  ]
