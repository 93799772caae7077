-- ===== src/Tamper/Tampers.antt =====
-- tamper.cpp: what a call does to the packets of the list.
use Prim.Native.Nat.{bit_xor}
use clumsy.Prelude.{
  ℕ, ◌+◌, ◌-◌, ◌/◌, ◌≤◌, ◌≡◌, refl, ap, ◌∙◌, Bool, true, none, some, List, length, leb,
  if◌then◌else◌, arith, inl, inr, either_way, subst, Option-cases, interlocked_increment,
}
use clumsy.Filter.{byte_at}
use clumsy.Packet.{PacketNode, World, calc_chance, calc_chance-freed}
use clumsy.Packet.Rewrite.{Touched, Visited, Rewrites, visit_all-Rewrites}
use clumsy.Checksum.{packet_get_payload, packet_recalc_checksums}
use clumsy.Tamper.{
  Tamper, pattern, matches, tamper_buf, region, untouched, rewritten, tamper_packet, tamper_chosen,
  visit, process,
}
use clumsy.Tamper.Slice.{
  in_slice, length-tamper_buf, byte_at-tamper_buf, region_within, payload_within,
}

-- `len` bytes of the packet from `at` on are changed by the patterns from number `ix` on, and no others.
pub record Overwritten (p q : List ℕ) (at len ix : ℕ) : Type 0 where
  pub same_length : length q ≡ length p
  pub bytes :
      (i : ℕ)
      → byte_at q i ≡ (
          if in_slice at len p i
          then bit_xor (byte_at p i) (pattern (ix + (i - at)))
          else byte_at p i)

-- A packet of a handled direction that has a payload: a part of the payload is overwritten, a quarter of it,
-- or all of it if that is at most 4 bytes; then the checksums are redone, if that is set. Nothing
-- else of the packet changes.
pub record Tampered (t : Tamper) (pac pac' : PacketNode) : Type 0 where
  pub start : ℕ
  pub data_len : ℕ
  pub at : ℕ
  pub len : ℕ
  pub ix : ℕ
  pub p : List ℕ
  pub handled : matches t pac ≡ true
  pub payload : packet_get_payload pac.packet pac.packet_len ≡ some (start, data_len)
  pub inside : (start ≤ at) × (at + len ≤ start + data_len) × (start + data_len ≤ pac.packet_len)
  pub a_quarter : len ≡ (if leb data_len 4 then data_len else data_len / 4)
  pub overwritten : Overwritten pac.packet p at len ix
  pub result : pac' ≡ record pac { packet = rewritten t pac p }

-- The settings that a call does not change.
abbrev SameSettings : Tamper → Tamper → Type 0
SameSettings t t' =
    (t'.inbound ≡ t.inbound) × (t'.outbound ≡ t.outbound) × (t'.do_checksum ≡ t.do_checksum)

module _ (rand : ℕ → ℕ) (t : Tamper) where
  abbrev Visits : Tamper → World → PacketNode → Touched Tamper → Type 0
  Visits =
      Visited (visit rand) (λ x. x.affected) interlocked_increment (Tampered t) (SameSettings t)

  matches-same :
      (t' : Tamper) (pac : PacketNode) → SameSettings t t' → matches t pac ≡ matches t' pac
  unfolding matches
  matches-same t' pac same = ground arith

  untouched-Visited :
      (t' : Tamper) (w w' : World) (pac : PacketNode)
      → SameSettings t t'
      → w'.freed ≡ w.freed
      → Visits t' w pac (untouched t' w' pac)
  untouched-Visited t' w w' pac same f = record {
    same = same;
    freed = f;
    effect = inl (refl, refl, refl);
  }

  tamper_packet-Visited :
      (t' : Tamper) (w w' : World) (pac : PacketNode) (start data_len : ℕ)
      → SameSettings t t'
      → w'.freed ≡ w.freed
      → matches t pac ≡ true
      → packet_get_payload pac.packet pac.packet_len ≡ some (start, data_len)
      → Visits t' w pac (tamper_packet rand t' w' pac start data_len)
  unfolding tamper_packet
  tamper_packet-Visited t' w w' pac start data_len same f m e =
      let (fits, quarter, kept) = region_within rand t'.pos data_len w' in
      let (ends, some_data) = payload_within pac.packet pac.packet_len start data_len e in
      let offset = (region rand t'.pos data_len w').0 in
      let len = (region rand t'.pos data_len w').1 in
      record {
        same = same;
        freed = kept ∙ f;
        effect = inr (
          refl,
          (record {
            start = start;
            data_len = data_len;
            at = start + offset;
            len = len;
            ix = t'.pat_ix;
            p = (tamper_buf len (start + offset) t'.pat_ix pac.packet).0;
            handled = m;
            payload = e;
            inside = (omega arith, omega arith, ends);
            a_quarter = quarter;
            overwritten = record {
              same_length = length-tamper_buf len (start + offset) t'.pat_ix pac.packet;
              bytes = byte_at-tamper_buf len (start + offset) t'.pat_ix pac.packet;
            };
            result =
                ap
                  (λ (b : Bool). record pac {
                    packet =
                        (if b
                          then packet_recalc_checksums
                              (tamper_buf len (start + offset) t'.pat_ix pac.packet).0
                              pac.packet_len
                          else (tamper_buf len (start + offset) t'.pat_ix pac.packet).0);
                  })
                  same.2;
          }),
          refl,
        );
      }

  -- With and without a payload.
  tamper_chosen-none :
      (t' : Tamper) (w : World) (pac : PacketNode)
      → packet_get_payload pac.packet pac.packet_len ≡ none
      → untouched t' w pac ≡ tamper_chosen rand t' w pac
  unfolding tamper_chosen
  tamper_chosen-none t' w pac e = rw (e, tamper_chosen)

  tamper_chosen-some :
      (t' : Tamper) (w : World) (pac : PacketNode) (start data_len : ℕ)
      → packet_get_payload pac.packet pac.packet_len ≡ some (start, data_len)
      → tamper_packet rand t' w pac start data_len ≡ tamper_chosen rand t' w pac
  unfolding tamper_chosen
  tamper_chosen-some t' w pac start data_len e = rw (e, tamper_chosen)

  tamper_chosen-Visited :
      (t' : Tamper) (w w' : World) (pac : PacketNode)
      → SameSettings t t'
      → w'.freed ≡ w.freed
      → matches t pac ≡ true
      → Visits t' w pac (tamper_chosen rand t' w' pac)
  tamper_chosen-Visited t' w w' pac same f m =
      elim (Option-cases (packet_get_payload pac.packet pac.packet_len)) [
        | inl e ↦
            subst (Visits t' w pac) (tamper_chosen-none t' w' pac e)
              (untouched-Visited t' w w' pac same f)
        | inr ((start, data_len), e) ↦
            subst (Visits t' w pac) (tamper_chosen-some t' w' pac start data_len e)
              (tamper_packet-Visited t' w w' pac start data_len same f m e)
      ]

  visit-Visited :
      (t' : Tamper) (w : World) (pac : PacketNode)
      → SameSettings t t'
      → Visits t' w pac (visit rand t' w pac)
  unfolding visit
  visit-Visited t' w pac same =
      let rolled = calc_chance rand t'.chance w in
      let kept = calc_chance-freed rand t'.chance w in
      let P = Visits t' w pac in
      either_way P (matches t' pac) _ (untouched t' w pac)
        (λ m.
          either_way P rolled.0 (tamper_chosen rand t' rolled.1 pac) (untouched t' rolled.1 pac)
            (λ _. tamper_chosen-Visited t' w rolled.1 pac same kept (matches-same t' pac same ∙ m))
            (λ _. untouched-Visited t' w rolled.1 pac same kept))
        (λ _. untouched-Visited t' w w pac same refl)

  -- Whatever `rand()` returns, tamperProcess leaves every packet in its place, frees none, and counts those it
  -- changes, modulo 2^32; it reports whether it changed one. A changed packet is of a handled direction: of
  -- its payload a quarter, or all of it if that is at most 4 bytes, is overwritten, each byte by its XOR
  -- with the next pattern, and then the checksums are redone if that is set; no other byte changes.
  pub tamper_process-Rewrites :
      (queue : List PacketNode) (w : World)
      → Rewrites
          (λ x. x.affected)
          interlocked_increment
          (Tampered t)
          t
          queue
          w
          (process rand t queue w)
  unfolding process
  tamper_process-Rewrites queue w =
      visit_all-Rewrites (visit rand) (λ x. x.affected) interlocked_increment (Tampered t)
        (SameSettings t) visit-Visited t queue w (refl, refl, refl)
