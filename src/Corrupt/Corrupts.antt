-- ===== src/Corrupt/Corrupts.antt =====
-- corrupt.cpp: what a call does to the packets of the list.
use clumsy.Prelude.{
  ℕ, zero, suc, ◌+◌, ◌-◌, ◌*◌, ◌≤◌, ◌<◌, ◌≡◌, refl, ap, ◌∙◌, Bool, true, ◌||◌, Option, none, some,
  List, [], ◌∷◌, length, ltb, ltb→lt, sym, false, leb, ◌==◌, if◌then◌else◌, arith, inl, inr,
  either_way, subst, Option-cases, leb→le, interlocked_increment, ◌⊎◌,
}
use clumsy.Packet.{PacketNode, World, calc_chance, calc_chance-freed}
use clumsy.Packet.Rewrite.{Touched, Visited, Rewrites, visit_all-Rewrites}
use clumsy.Checksum.{packet_get_payload, packet_recalc_checksums}
use clumsy.Corrupt.{
  Corrupt, Flipping, flip_loop, invert, flip_bits, matches, untouched, rewritten, corrupt_packet,
  corrupt_chosen, visit, process,
}
use clumsy.Filter.{byte_at}
use clumsy.Tamper.Slice.{in_slice, payload_within}
use clumsy.Corrupt.Bits.{
  flipped_byte, length-flip_all, byte_at-flip_all, length-invert, byte_at-invert,
}
use clumsy.Corrupt.Flips.{Ascending, flip_all, flip_loop-Flips}

-- Past the end there are no bytes.
byte_at-past : (p : List ℕ) (i : ℕ) → length p ≤ i → byte_at p i ≡ 0
byte_at-past [] i h = refl
byte_at-past (x ∷ p) zero h = absurd (omega (arith, h))
byte_at-past (x ∷ p) (suc i) h = byte_at-past p i (omega arith)

outside : (i : ℕ) (p : List ℕ) → ltb i (length p) ≡ false → length p ≤ i
outside i p h = ground (arith, h)

-- Of the bits of `len` bytes from `at` on, some are flipped, each once; or, at a rate of one, all of them.
-- Each byte is given apart: it is what it was, but for its flipped bits.
abbrev pub Noisy : ℕ → ℕ → ℕ → List ℕ → List ℕ → Type 0
Noisy ppm at len p q =
    (length q ≡ length p)
    × (((bits : List ℕ) × Ascending 0 (len * 8) bits
          × (0 < length bits)
          × ((i : ℕ)
              → byte_at q i
                ≡ (if ltb i (length p) then flipped_byte at bits i (byte_at p i) else byte_at p i)))
        ⊎ ((1000000 ≤ ppm)
            × ((i : ℕ)
                → byte_at q i ≡ (if in_slice at len p i then 255 - byte_at p i else byte_at p i))))

some_flipped-Noisy :
    (ppm at len : ℕ) (p q bits : List ℕ)
    → Ascending 0 (len * 8) bits
    → 0 < length bits
    → q ≡ flip_all at p bits
    → Noisy ppm at len p q
some_flipped-Noisy ppm at len p q bits ascends filled e =
    let same : length q ≡ length p = ap length e ∙ length-flip_all bits at p in
    (
      same,
      inl (
        bits,
        ascends,
        filled,
        λ i.
            either_way (λ (v : ℕ). byte_at q i ≡ v) (ltb i (length p)) _ _
              (λ h.
                ap (λ (r : List ℕ). byte_at r i) e
                ∙ byte_at-flip_all bits at p i (ltb→lt i (length p) h))
              (λ h.
                (let past = outside i p h in
                  byte_at-past q i (omega (arith, same, past)) ∙ sym (byte_at-past p i past))),
      ),
    )

inverted-Noisy :
    (ppm at len : ℕ) (p : List ℕ) → 1000000 ≤ ppm → Noisy ppm at len p (invert len at p)
inverted-Noisy ppm at len p all = (length-invert len at p, inr (all, byte_at-invert len at p))

-- What flipBits leaves: no bit is flipped and it returns 0, or some are.
pub record Flipped (ppm at len : ℕ) (p : List ℕ) (w : World) (f : Flipping) : Type 0 where
  pub freed : f.world.freed ≡ w.freed
  pub effect : ((f.count ≡ 0) × (f.bytes ≡ p)) ⊎ ((0 < f.count) × Noisy ppm at len p f.bytes)

-- A packet of a handled direction that has a payload: bits of the payload are flipped; then the
-- checksums are redone, if that is set. Nothing else of the packet changes.
pub record Corrupted (c : Corrupt) (pac pac' : PacketNode) : Type 0 where
  pub start : ℕ
  pub data_len : ℕ
  pub p : List ℕ
  pub handled : matches c pac ≡ true
  pub payload : packet_get_payload pac.packet pac.packet_len ≡ some (start, data_len)
  pub inside : (start + data_len ≤ pac.packet_len) × (0 < data_len)
  pub noisy : Noisy c.ber start data_len pac.packet p
  pub result : pac' ≡ record pac { packet = rewritten c pac p }

-- The settings that a call does not change.
abbrev SameSettings : Corrupt → Corrupt → Type 0
SameSettings c c' =
    (c'.inbound ≡ c.inbound) × (c'.outbound ≡ c.outbound) × (c'.do_checksum ≡ c.do_checksum)

Flips-Flipped :
    (ppm at len : ℕ) (p : List ℕ) (w : World) (f : Flipping) (bits : List ℕ)
    → Ascending 0 (len * 8) bits
    → f.bytes ≡ flip_all at p bits
    → f.count ≡ 0 + length bits
    → f.world.freed ≡ w.freed
    → Flipped ppm at len p w f
unfolding flip_all
Flips-Flipped ppm at len p w f [] ascends flipped counted freed = record {
  freed = freed;
  effect = inl (omega arith, flipped);
}
Flips-Flipped ppm at len p w f (b ∷ bits) ascends flipped counted freed = record {
  freed = freed;
  effect = inr (
    omega arith,
    some_flipped-Noisy ppm at len p f.bytes (b ∷ bits) ascends (omega arith) flipped,
  );
}

module _ (gap : ℕ → ℕ → Option ℕ) (rand : ℕ → ℕ) where
  loop-Flipped :
      (ppm at len : ℕ) (p : List ℕ) (w : World)
      → Flipped ppm at len p w (
          flip_loop gap rand
            (len * 8 + 1)
            ppm
            at
            (len * 8)
            0
            (record { bytes = p; count = 0; world = w }))
  loop-Flipped ppm at len p w =
      let r =
        flip_loop-Flips gap rand (len * 8 + 1) ppm at (len * 8) 0
          (record { bytes = p; count = 0; world = w }) in
      Flips-Flipped ppm at len p w _ r.bits r.ascending r.flipped r.counted r.freed

  flip_bits-Flipped :
      (ppm at len : ℕ) (p : List ℕ) (w : World)
      → 0 < len
      → Flipped ppm at len p w (flip_bits gap rand ppm at len p w)
  unfolding flip_bits
  flip_bits-Flipped ppm at len p w pos =
      either_way (Flipped ppm at len p w) (len == 0 || ppm == 0) _ _
        (λ _. record { freed = refl; effect = inl (refl, refl) })
        (λ _.
          either_way (Flipped ppm at len p w) (leb 1000000 ppm) _ _
            (λ all. record {
              freed = refl;
              effect = inr (omega arith, inverted-Noisy ppm at len p (leb→le 1000000 ppm all));
            })
            (λ _. loop-Flipped ppm at len p w))

  module _ (c : Corrupt) where
    abbrev Visits : Corrupt → World → PacketNode → Touched Corrupt → Type 0
    Visits =
        Visited (visit gap rand c.ber) (λ x. x.affected) interlocked_increment (Corrupted c)
          (SameSettings c)

    matches-same :
        (c' : Corrupt) (pac : PacketNode) → SameSettings c c' → matches c pac ≡ matches c' pac
    unfolding matches
    matches-same c' pac same = ground arith

    untouched-Visited :
        (c' : Corrupt) (w w' : World) (pac pac' : PacketNode)
        → SameSettings c c'
        → w'.freed ≡ w.freed
        → pac' ≡ pac
        → Visits c' w pac (untouched c' w' pac')
    untouched-Visited c' w w' pac pac' same f e = record {
      same = same;
      freed = f;
      effect = inl (refl, e, refl);
    }

    corrupt_packet-Visited :
        (c' : Corrupt) (w w' : World) (pac : PacketNode) (start data_len : ℕ)
        → SameSettings c c'
        → w'.freed ≡ w.freed
        → matches c pac ≡ true
        → packet_get_payload pac.packet pac.packet_len ≡ some (start, data_len)
        → 0 < data_len
        → Visits c' w pac (corrupt_packet gap rand c.ber c' w' pac start data_len)
    unfolding corrupt_packet
    corrupt_packet-Visited c' w w' pac start data_len same f m e pos =
        let flips = flip_bits gap rand c.ber start data_len pac.packet w' in
        let v = flip_bits-Flipped c.ber start data_len pac.packet w' pos in
        either_way (Visits c' w pac) (flips.count == 0) _ _
          (λ none_flipped.
            untouched-Visited c' w flips.world pac _ same (v.freed ∙ f) (elim v.effect [
              | inl (_, kept) ↦ ap (λ (q : List ℕ). record pac { packet = q }) kept
              | inr (more, _) ↦ absurd (ground arith)
            ]))
          (λ some_flipped. record {
            same = same;
            freed = v.freed ∙ f;
            effect = inr (
              refl,
              (record {
                start = start;
                data_len = data_len;
                p = flips.bytes;
                handled = m;
                payload = e;
                inside = payload_within pac.packet pac.packet_len start data_len e;
                noisy = elim v.effect [
                  | inl (zero_flipped, _) ↦ absurd (ground arith)
                  | inr (_, noisy) ↦ noisy
                ];
                result =
                    ap
                      (λ (b : Bool). record pac {
                        packet =
                            (if b
                              then packet_recalc_checksums flips.bytes pac.packet_len
                              else flips.bytes);
                      })
                      same.2;
              }),
              refl,
            );
          })

    -- With and without a payload.
    corrupt_chosen-none :
        (c' : Corrupt) (w : World) (pac : PacketNode)
        → packet_get_payload pac.packet pac.packet_len ≡ none
        → untouched c' w pac ≡ corrupt_chosen gap rand c.ber c' w pac
    unfolding corrupt_chosen
    corrupt_chosen-none c' w pac e = rw (e, corrupt_chosen)

    corrupt_chosen-some :
        (c' : Corrupt) (w : World) (pac : PacketNode) (start data_len : ℕ)
        → packet_get_payload pac.packet pac.packet_len ≡ some (start, data_len)
        → (if data_len == 0
            then untouched c' w pac
            else corrupt_packet gap rand c.ber c' w pac start data_len)
          ≡ corrupt_chosen gap rand c.ber c' w pac
    unfolding corrupt_chosen
    corrupt_chosen-some c' w pac start data_len e = rw (e, corrupt_chosen)

    corrupt_chosen-Visited :
        (c' : Corrupt) (w w' : World) (pac : PacketNode)
        → SameSettings c c'
        → w'.freed ≡ w.freed
        → matches c pac ≡ true
        → Visits c' w pac (corrupt_chosen gap rand c.ber c' w' pac)
    corrupt_chosen-Visited c' w w' pac same f m =
        elim (Option-cases (packet_get_payload pac.packet pac.packet_len)) [
          | inl e ↦
              subst (Visits c' w pac) (corrupt_chosen-none c' w' pac e)
                (untouched-Visited c' w w' pac pac same f refl)
          | inr ((start, data_len), e) ↦
              subst (Visits c' w pac) (corrupt_chosen-some c' w' pac start data_len e) (
                either_way (Visits c' w pac) (data_len == 0) _ _
                  (λ _. untouched-Visited c' w w' pac pac same f refl)
                  (λ filled.
                    corrupt_packet-Visited c' w w' pac start data_len same f m e (ground arith)))
        ]

    visit-Visited :
        (c' : Corrupt) (w : World) (pac : PacketNode)
        → SameSettings c c'
        → Visits c' w pac (visit gap rand c.ber c' w pac)
    unfolding visit
    visit-Visited c' w pac same =
        let rolled = calc_chance rand c'.chance w in
        let kept = calc_chance-freed rand c'.chance w in
        let P = Visits c' w pac in
        either_way P (matches c' pac) _ (untouched c' w pac)
          (λ m.
            either_way P rolled.0 (corrupt_chosen gap rand c.ber c' rolled.1 pac)
              (untouched c' rolled.1 pac)
              (λ _.
                corrupt_chosen-Visited c' w rolled.1 pac same kept (matches-same c' pac same ∙ m))
              (λ _. untouched-Visited c' w rolled.1 pac pac same kept refl))
          (λ _. untouched-Visited c' w w pac pac same refl refl)

    -- Whatever `rand()` returns and whatever gaps are computed from it, corruptProcess leaves every packet in its
    -- place, frees none, and counts those it changes, modulo 2^32; it reports whether it changed one. A
    -- changed packet is of a handled direction: of the bits of its payload some are flipped, each once, or, at
    -- a rate of one, all are, and then the checksums are redone if that is set; no other byte changes.
    pub corrupt_process-Rewrites :
        (queue : List PacketNode) (w : World)
        → Rewrites
            (λ x. x.affected)
            interlocked_increment
            (Corrupted c)
            c
            queue
            w
            (process gap rand c queue w)
    unfolding process
    corrupt_process-Rewrites queue w =
        visit_all-Rewrites (visit gap rand c.ber) (λ x. x.affected) interlocked_increment
          (Corrupted c) (SameSettings c) visit-Visited c queue w (refl, refl, refl)
