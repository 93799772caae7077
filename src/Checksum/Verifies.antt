-- ===== src/Checksum/Verifies.antt =====
-- packetutil_linux.cpp: the checksums that packetRecalcChecksums writes are right.
use clumsy.Prelude.{
  ℕ, ◌+◌, ◌*◌, ◌≤◌, ◌<◌, ◌≡◌, ◌⊎◌, inl, inr, refl, ap, ◌∙◌, Bool, true, false, ◌&&◌, ◌||◌, not,
  List, arith, ltb, ◌==◌, if◌then◌else◌, length, Bool-cases,
}
use clumsy.Filter.{byte_at}
use clumsy.Checksum.{
  write16be, sum16, fold_checksum, Layout, parse, pseudo_header_sum, recalc_header,
  recalc_transport, transport_total, cksum_offset, never_zero, packet_recalc_checksums,
}
use clumsy.Checksum.Sums.{
  write16be-other, write16be-byte, length-write16be, sum16-agree, field_verifies,
}
use clumsy.Checksum.Checked.{
  parse-Checked, fold_checksum_small, recalc_header-v4, recalc_header_v6, recalc_header-Verifies,
  pseudo_le, pseudo-agree,
}
use clumsy.Prelude.{either_way}

never_zero_lem :
    (l : Layout) (ck : ℕ) → (never_zero l ck ≡ ck) ⊎ ((never_zero l ck ≡ 65535) × (ck ≡ 0))
never_zero_lem l ck = elim (Bool-cases (l.proto == 17 && ck == 0)) [
  | inl e ↦ rw e (inr (refl, ground (arith, e)))
  | inr e ↦ rw e (inl refl)
]

never_zero_small : (l : Layout) (ck : ℕ) → ck < 65536 → never_zero l ck < 65536
never_zero_small l ck h = ground arith

-- What the second half needs to know of a layout.
pub record Carries (len : ℕ) (l : Layout) : Type 0 where
  protocol : (l.proto ≡ 6) ⊎ (l.proto ≡ 17)
  v4 : l.is_v4 ≡ true → 20 ≤ l.transport_offset
  v6 : l.is_v4 ≡ false → 40 ≤ l.transport_offset
  tcp : l.proto ≡ 6 → 20 ≤ l.transport_len
  udp : l.proto ≡ 17 → l.transport_len ≡ 8
  inside : l.transport_offset + transport_total l ≤ len

half : Layout → ℕ
half l = if l.proto == 6 then 8 else 3

module _ (q : List ℕ) (bytes : (i : ℕ) → byte_at q i < 256) (len : ℕ) (l : Layout)
    (c : Carries len l) (whole : length q ≡ len) (short : len ≤ 65535) where
  field_place :
      (cksum_offset l ≡ l.transport_offset + 2 * half l) × (2 * half l + 2 ≤ transport_total l)
  unfolding half
  field_place = elim c.protocol [
    | inl six ↦ let t = c.tcp six in rw six (omega arith, omega (arith, t))
    | inr seventeen ↦ let t = c.udp seventeen in rw seventeen (omega arith, omega (arith, t))
  ]

  recalc_transport-other :
      (j : ℕ) → j < l.transport_offset → byte_at (recalc_transport q l) j ≡ byte_at q j
  unfolding recalc_transport
  recalc_transport-other j h =
      let q0 = write16be q (cksum_offset l) 0 in
      let place = field_place.0 in
      write16be-other q0 (cksum_offset l) _ j (λ e. omega (arith, e, place))
        (λ e. omega (arith, e, place))
      ∙ write16be-other q (cksum_offset l) 0 j (λ e. omega (arith, e, place))
          (λ e. omega (arith, e, place))

  recalc_transport-Verifies :
      fold_checksum (
        sum16
          (recalc_transport q l)
          l.transport_offset
          (transport_total l)
          (pseudo_header_sum (recalc_transport q l) l (transport_total l)))
      ≡ 0
  unfolding recalc_transport
  recalc_transport-Verifies =
      let at = cksum_offset l in
      let total = transport_total l in
      let q0 = write16be q at 0 in
      let base = pseudo_header_sum q0 l total in
      let acc = sum16 q0 l.transport_offset total base in
      let ck = never_zero l (fold_checksum acc) in
      let q1 = write16be q0 at ck in
      let (place, room) = field_place in
      let proto_small : l.proto < 256 = elim c.protocol [
        | inl e ↦ omega (arith, e)
        | inr e ↦ omega (arith, e)
      ] in
      let small =
        pseudo_le q0 (λ i. write16be-byte q at 0 i (bytes i)) l total (omega (arith, c.inside))
          proto_small in
      let same : pseudo_header_sum q1 l total ≡ base =
        pseudo-agree q1 q0 l total l.transport_offset
          (λ j h.
            write16be-other q0 at ck j (λ e. omega (arith, e, place))
              (λ e. omega (arith, e, place)))
          c.v4 c.v6 in
      ap (λ (b : ℕ). fold_checksum (sum16 q1 l.transport_offset total b)) same
      ∙ field_verifies q l.transport_offset (half l) total at base ck place room
          (omega (arith, place, room, c.inside)) bytes (omega (arith, small, c.inside))
          (never_zero_small l (fold_checksum acc) (fold_checksum_small acc))
          (never_zero_lem l (fold_checksum acc))

valid-not_empty : (p : List ℕ) (len : ℕ) → (parse p len).valid ≡ true → (len == 0) ≡ false
unfolding parse
valid-not_empty p len v = ground (arith, v)

recalc_header-length : (p : List ℕ) (l : Layout) → length (recalc_header p l) ≡ length p
recalc_header-length p l = elim (Bool-cases l.is_v4) [
  | inl e ↦
      ap length (recalc_header-v4 p l e)
      ∙ length-write16be (write16be p 10 0) 10
          (fold_checksum (sum16 (write16be p 10 0) 0 l.ip_hdr_len 0))
      ∙ length-write16be p 10 0
  | inr e ↦ ap length (recalc_header_v6 p l e)
]

pub recalc_header-bytes :
    (p : List ℕ) (l : Layout)
    → ((i : ℕ) → byte_at p i < 256)
    → (i : ℕ) → byte_at (recalc_header p l) i < 256
recalc_header-bytes p l b i = elim (Bool-cases l.is_v4) [
  | inl e ↦ rw (recalc_header-v4 p l e) (
      write16be-byte (write16be p 10 0) 10
        (fold_checksum (sum16 (write16be p 10 0) 0 l.ip_hdr_len 0)) i
        (write16be-byte p 10 0 i (b i)))
  | inr e ↦ rw (recalc_header_v6 p l e) (b i)
]

at_most : (a b : ℕ) → b ≤ a → ltb a b ≡ false
at_most a b h = ground (arith, h)

read_carried :
    (f : Bool) (n : ℕ) → f ≡ false → (n ≡ 6) ⊎ (n ≡ 17) → (f || not (n == 6 || n == 17)) ≡ false
read_carried f n e (inl six) = rw (e, six) refl
read_carried f n e (inr seventeen) = rw (e, seventeen) refl

field_fits : (len : ℕ) (l : Layout) → Carries len l → cksum_offset l + 2 ≤ len
field_fits len l c = elim c.protocol [
  | inl six ↦ let t = c.tcp six in rw six (omega (arith, t, c.inside))
  | inr seventeen ↦ let t = c.udp seventeen in rw seventeen (omega (arith, t, c.inside))
]

-- What a test that failed tells.
read_facts :
    (f : Bool) (n : ℕ) → (f || not (n == 6 || n == 17)) ≡ false → (f ≡ false) × ((n ≡ 6) ⊎ (n ≡ 17))
read_facts f n e = (
  ground (arith, e),
  elim (Bool-cases (n == 6)) [
    | inl six ↦ inl (ground (arith, six))
    | inr other ↦ inr (ground (arith, e, other))
  ],
)

not_less : (a b : ℕ) → ltb a b ≡ false → b ≤ a
not_less a b e = ground (arith, e)

readable : (a b : Bool) → a ≡ false → b ≡ true → (a || not b) ≡ true → ⊥
readable a b e f g = ground (arith, e, f, g)

module _ (p : List ℕ) (len : ℕ) (v : (parse p len).valid ≡ true) where
  carries :
      (parse p len).fragment ≡ false
      → ((parse p len).proto ≡ 6) ⊎ ((parse p len).proto ≡ 17)
      → (parse p len).transport_offset + transport_total (parse p len) ≤ len
      → Carries len (parse p len)
  carries f protocol inside =
      let (v4, v6, tcp, udp) = parse-Checked p len v in
      record {
        protocol = protocol;
        v4 = λ e. (let (a, b, c) = v4 e in omega (arith, a, c));
        v6 = λ e. omega (arith, v6 e);
        tcp = tcp f;
        udp = udp f;
        inside = inside;
      }

  -- Both checksums were written, or the header's alone.
  pub recalc-ways :
      let l = parse p len in
      (packet_recalc_checksums p len ≡ recalc_header p l)
      ⊎ ((packet_recalc_checksums p len ≡ recalc_transport (recalc_header p l) l) × Carries len l)
  unfolding packet_recalc_checksums
  recalc-ways =
      let l = parse p len in
      let p1 = recalc_header p l in
      let p2 = recalc_transport p1 l in
      let P = λ (r : List ℕ). (r ≡ p1) ⊎ ((r ≡ p2) × Carries len l) in
      let outside = ltb len (l.transport_offset + transport_total l) in
      let cut_off = ltb len (cksum_offset l + 2) in
      let third = if cut_off then p1 else p2 in
      let second = if outside then p1 else third in
      let first = if l.fragment || not (l.proto == 6 || l.proto == 17) then p1 else second in
      either_way P (len == 0 || not l.valid) p first
        (λ e. absurd (readable (len == 0) l.valid (valid-not_empty p len v) v e))
        (λ _.
          either_way P (l.fragment || not (l.proto == 6 || l.proto == 17)) p1 second (λ _. inl refl)
            (λ read.
              either_way P outside p1 third (λ _. inl refl)
                (λ inside.
                  either_way P cut_off p1 p2 (λ _. inl refl)
                    (λ _.
                      (let (f, protocol) = read_facts l.fragment l.proto read in
                        inr (
                          refl,
                          carries f protocol
                              (not_less len (l.transport_offset + transport_total l) inside),
                        ))))))

  -- Where the packet carries TCP or UDP, both were written.
  recalc-both :
      (parse p len).fragment ≡ false
      → ((parse p len).proto ≡ 6) ⊎ ((parse p len).proto ≡ 17)
      → (parse p len).transport_offset + transport_total (parse p len) ≤ len
      → let l = parse p len in
        packet_recalc_checksums p len ≡ recalc_transport (recalc_header p l) l
  unfolding packet_recalc_checksums
  recalc-both f protocol inside =
      let l = parse p len in
      let c = carries f protocol inside in
      let some_bytes = valid-not_empty p len v in
      let all_read = read_carried l.fragment l.proto f protocol in
      let within = at_most len (l.transport_offset + transport_total l) inside in
      let room = at_most len (cksum_offset l + 2) (field_fits len l c) in
      rw (some_bytes, v, all_read, within, room) refl

  module _ (whole : length p ≡ len) (short : len ≤ 65535)
      (bytes : (i : ℕ) → byte_at p i < 256) where
    -- After `packetRecalcChecksums`, the header of a valid IPv4 packet of at most 65535 bytes sums up to a
    -- right checksum: the sum over it, the checksum included, folds to 0xFFFF. The checksum of the transport
    -- header, which is written later, does not spoil it.
    pub header_verifies :
        (parse p len).is_v4 ≡ true
        → fold_checksum (sum16 (packet_recalc_checksums p len) 0 (parse p len).ip_hdr_len 0) ≡ 0
    header_verifies e =
        let l = parse p len in
        let (least, fits, at) = (parse-Checked p len v).0 e in
        let right =
          recalc_header-Verifies p bytes l e least (omega (arith, fits, short))
            (omega (arith, fits, whole)) in
        elim recalc-ways [
          | inl way ↦ rw way right
          | inr (way, c) ↦ rw way (
              ap fold_checksum (
                sum16-agree (recalc_transport (recalc_header p l) l) (recalc_header p l) 0
                  l.ip_hdr_len 0
                  (λ j a b.
                    recalc_transport-other (recalc_header p l) (recalc_header-bytes p l bytes) len l
                      c (recalc_header-length p l ∙ whole) short j (omega (arith, b, at))))
              ∙ right)
        ]

    -- After `packetRecalcChecksums`, the TCP or UDP checksum of a valid packet of at most 65535 bytes, IPv4 or IPv6, that is
    -- no later fragment and holds its transport header and payload whole, is right: the sum over the
    -- pseudo-header, the transport header and the payload, the checksum included, folds to 0xFFFF.
    pub transport_verifies :
        (parse p len).fragment ≡ false
        → ((parse p len).proto ≡ 6) ⊎ ((parse p len).proto ≡ 17)
        → (parse p len).transport_offset + transport_total (parse p len) ≤ len
        → let l = parse p len in
          let r = packet_recalc_checksums p len in
          fold_checksum (
            sum16 r l.transport_offset
              (transport_total l)
              (pseudo_header_sum r l (transport_total l)))
          ≡ 0
    transport_verifies f protocol inside =
        let l = parse p len in
        let c = carries f protocol inside in
        rw (recalc-both f protocol inside) (
          recalc_transport-Verifies (recalc_header p l) (recalc_header-bytes p l bytes) len l c
            (recalc_header-length p l ∙ whole) short)
