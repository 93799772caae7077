-- ===== src/Reset/Resets.antt =====
-- reset.cpp: what a call does to the packets of the list, and to the requests for a reset.
use clumsy.Prelude.{
  ℕ, zero, suc, ◌+◌, ◌-◌, ◌%◌, ◌^◌, ◌≤◌, ◌≡◌, refl, ap, subst, ◌∙◌, Bool, true, List, length, word,
  ltb, if◌then◌else◌, arith, inl, inr, either_way, interlocked_increment,
}
use clumsy.Packet.{PacketNode, World, Outcome, check_direction, calc_chance-freed}
use clumsy.Packet.Rewrite.{
  Touched, Visited, Rewrites, Rewritten, All, Rewritten-map, iterate, visit_all-Rewrites,
}
use clumsy.Checksum.{packet_set_tcp_rst}
use clumsy.Checksum.Rst.{RstSet, packet_set_tcp_rst-RstSet}
use clumsy.Reset.{Reset, matches, untouched, one_less, reset_chosen, chosen, visit, process}

-- A packet of a handled direction with room for an IPv4 and a TCP header, in which packetSetTcpRst set the flag.
pub record WithRst (r : Reset) (pac pac' : PacketNode) : Type 0 where
  pub p : List ℕ
  pub handled : matches r pac ≡ true
  pub flagged : packet_set_tcp_rst pac.packet pac.packet_len ≡ (true, p)
  pub result : pac' ≡ record pac { packet = p }

abbrev SameSettings : Reset → Reset → Type 0
SameSettings r r' = (r'.inbound ≡ r.inbound) × (r'.outbound ≡ r.outbound)

-- What is counted: the changed packets, and the requests that are left.
abbrev pub counts : Reset → ℕ × ℕ
counts r = (r.affected, r.set_next)

abbrev pub one_more : ℕ × ℕ → ℕ × ℕ
one_more (n, left) = (interlocked_increment n, one_less left)

counted : (n : ℕ) (c : ℕ × ℕ) → (iterate n one_more c).0 % word ≡ (c.0 + n) % word
counted zero c = omega arith
counted (suc n) c = omega (arith, counted n (one_more c))

used_up :
    (n : ℕ) (c : ℕ × ℕ) → (iterate n one_more c).1 ≡ (if ltb c.1 (2 ^ 15) then c.1 - n else c.1)
used_up zero c = ground arith
used_up (suc n) c = ground (arith, used_up n (one_more c))

-- A packet of a handled direction with room for an IPv4 and a TCP header, and its RST flag set.
pub record Rst (r : Reset) (pac pac' : PacketNode) : Type 0 where
  pub handled : check_direction pac.meta.outbound r.inbound r.outbound ≡ true
  pub long : 40 ≤ pac.packet_len
  pub p : List ℕ
  pub flagged : RstSet pac.packet pac.packet_len p
  pub result : pac' ≡ record pac { packet = p }

module _ (rand : ℕ → ℕ) (r : Reset) where
  WithRst-Rst :
      (pac pac' : PacketNode)
      → length pac.packet ≡ pac.packet_len
      → WithRst r pac pac'
      → Rst r pac pac'
  unfolding matches
  WithRst-Rst pac pac' whole c = record {
    handled = ground (arith, c.handled);
    long = ground (arith, c.handled);
    p = c.p;
    flagged =
        subst (λ (x : Bool × List ℕ). RstSet pac.packet pac.packet_len x.1) c.flagged
          (packet_set_tcp_rst-RstSet pac.packet pac.packet_len whole
            (ap (λ (x : Bool × List ℕ). x.0) c.flagged));
    result = c.result;
  }

  -- What a call leaves: each packet as it was or reset, how many were reset, what it says and counts, and the
  -- requests that are left; `setNextCount` is a short, and a negative one stays as it is.
  abbrev pub Resets : List PacketNode → World → Outcome Reset → Type 0
  Resets queue w out =
      (n : ℕ) × Rewritten (Rst r) queue n out.queue
      × (out.triggered ≡ ltb 0 n)
      × (out.state.affected % word ≡ (r.affected + n) % word)
      × (out.state.set_next ≡ (if ltb r.set_next (2 ^ 15) then r.set_next - n else r.set_next))
      × (out.world.freed ≡ w.freed)

  abbrev Visits : Reset → World → PacketNode → Touched Reset → Type 0
  Visits = Visited (visit rand) counts one_more (WithRst r) (SameSettings r)

  matches-same :
      (r' : Reset) (pac : PacketNode) → SameSettings r r' → matches r pac ≡ matches r' pac
  unfolding matches
  matches-same r' pac same = ground arith

  untouched-Visited :
      (r' : Reset) (w w' : World) (pac : PacketNode)
      → SameSettings r r'
      → w'.freed ≡ w.freed
      → Visits r' w pac (untouched r' w' pac)
  untouched-Visited r' w w' pac same f = record {
    same = same;
    freed = f;
    effect = inl (refl, refl, refl);
  }

  reset_chosen-Visited :
      (r' : Reset) (w w' : World) (pac : PacketNode)
      → SameSettings r r'
      → w'.freed ≡ w.freed
      → matches r pac ≡ true
      → Visits r' w pac (reset_chosen r' w' pac)
  unfolding reset_chosen
  reset_chosen-Visited r' w w' pac same f m =
      let set = packet_set_tcp_rst pac.packet pac.packet_len in
      either_way (Visits r' w pac) set.0 _ (untouched r' w' pac)
        (λ done. record {
          same = same;
          freed = f;
          effect = inr (
            refl,
            (record { p = set.1; handled = m; flagged = λ i. (done i, set.1); result = refl }),
            refl,
          );
        })
        (λ _. untouched-Visited r' w w' pac same f)

  chosen-freed : (r' : Reset) (w : World) → (chosen rand r' w).1.freed ≡ w.freed
  unfolding chosen
  chosen-freed r' w = ground (arith, calc_chance-freed rand r'.chance w)

  visit-Visited :
      (r' : Reset) (w : World) (pac : PacketNode)
      → SameSettings r r'
      → Visits r' w pac (visit rand r' w pac)
  unfolding visit
  visit-Visited r' w pac same =
      let rolled = chosen rand r' w in
      let kept = chosen-freed r' w in
      let P = Visits r' w pac in
      either_way P (matches r' pac) _ (untouched r' w pac)
        (λ m.
          either_way P rolled.0 (reset_chosen r' rolled.1 pac) (untouched r' rolled.1 pac)
            (λ _. reset_chosen-Visited r' w rolled.1 pac same kept (matches-same r' pac same ∙ m))
            (λ _. untouched-Visited r' w rolled.1 pac same kept))
        (λ _. untouched-Visited r' w w pac same refl)

  process-Rewrites :
      (queue : List PacketNode) (w : World)
      → Rewrites counts one_more (WithRst r) r queue w (process rand r queue w)
  unfolding process
  process-Rewrites queue w =
      visit_all-Rewrites (visit rand) counts one_more (WithRst r) (SameSettings r) visit-Visited r
        queue w (refl, refl)

  -- Whatever `rand()` returns, resetProcess leaves every packet in its place, frees none, and reports whether it
  -- changed one, if the packets are as long as they say. A changed packet is of a handled direction, at least
  -- 40 bytes long, and carries TCP right behind its IPv4 or IPv6 header; its RST flag is set, the other flags are as they were, and but for
  -- the checksums, which are redone, no other byte changes. Each changed packet is counted, modulo 2^32, and
  -- uses up one of the requests for a reset, as long as there are any.
  pub reset_process-Resets :
      (queue : List PacketNode) (w : World)
      → All (λ (pac : PacketNode). length pac.packet ≡ pac.packet_len) queue
      → Resets queue w (process rand r queue w)
  reset_process-Resets queue w fine =
      let (n, ps, says, total, freed) = process-Rewrites queue w in
      (
        n,
        Rewritten-map (λ (pac : PacketNode). length pac.packet ≡ pac.packet_len) (WithRst r) (Rst r)
            WithRst-Rst queue n (process rand r queue w).queue fine ps,
        says,
        ap (λ (c : ℕ × ℕ). c.0 % word) total ∙ counted n (counts r),
        ap (λ (c : ℕ × ℕ). c.1) total ∙ used_up n (counts r),
        freed,
      )
