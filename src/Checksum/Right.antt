-- ===== src/Checksum/Right.antt =====
-- packetutil_linux.cpp: the checksums that packetRecalcChecksums writes are those of the standards (RFC 1071).
use clumsy.Prelude.{
  ℕ, ◌+◌, ◌-◌, ◌%◌, ◌≤◌, ◌<◌, ◌≡◌, ◌⊎◌, inl, inr, sym, subst, ap, ap₂, ◌==◌, ◌∙◌, Bool, true, false,
  not, List, arith, if◌then◌else◌, length, add32,
}
use clumsy.Filter.{byte_at}
use clumsy.Checksum.{
  sum16, fold_checksum, Layout, parse, pseudo_header_sum, recalc_header, recalc_transport,
  transport_total, cksum_offset, packet_recalc_checksums,
}
use clumsy.Checksum.Sums.{words, words_le, sum16-words, fold_lem, write16be-byte}
use clumsy.Checksum.Wire.{ip_header, protocol, ip_length, Ipv4, Whole, parse-Placed, parse-ReadV4}
use clumsy.Checksum.Checked.{pseudo_le}
use clumsy.Checksum.Frame.{recalc-KeptButFields}
use clumsy.Checksum.Verifies.{recalc-ways, recalc_header-bytes, header_verifies, transport_verifies}

-- A sum of 16-bit words is right if the one's complement sum is 0xFFFF.
abbrev pub SumsUp : ℕ → Type 0
SumsUp n = (0 < n) × (n % 65535 ≡ 0)

-- The words of both addresses.
abbrev pub address_words : Bool → List ℕ → ℕ
address_words v6 p = if v6 then words p 8 32 else words p 12 8

abbrev pub checksum_place : Bool → List ℕ → ℕ
checksum_place v6 p = ip_header v6 p + (if protocol v6 p == 6 then 16 else 6)

-- A byte is what it was, or belongs to a checksum.
abbrev pub InChecksums : Bool → List ℕ → List ℕ → ℕ → Type 0
InChecksums v6 p q j =
    (byte_at q j ≡ byte_at p j)
    ⊎ (((v6 ≡ false) × ((j ≡ 10) ⊎ (j ≡ 11)))
        ⊎ ((j ≡ checksum_place v6 p) ⊎ (j ≡ checksum_place v6 p + 1)))

fold_checksum-SumsUp : (acc : ℕ) → acc < 4294967296 → fold_checksum acc ≡ 0 → SumsUp acc
unfolding fold_checksum
fold_checksum-SumsUp acc h e =
    let (q, sum, small, _) = fold_lem acc h in
    (omega (arith, sum, small, e), grind (arith, sum, small, e))

pseudo-words :
    (p : List ℕ) (l : Layout) (v6 : Bool) (total : ℕ)
    → ((i : ℕ) → byte_at p i < 256)
    → l.is_v4 ≡ not v6
    → total ≤ 65535
    → l.proto < 256
    → pseudo_header_sum p l total ≡ address_words v6 p + l.proto + total
unfolding pseudo_header_sum add32
pseudo-words p l v6 total bytes v h k =
    let four = sum16-words p 12 8 0 (omega (arith, words_le p 12 8 bytes)) in
    let six = sum16-words p 8 32 0 (omega (arith, words_le p 8 32 bytes)) in
    ground (arith, v, four, six, words_le p 12 8 bytes, words_le p 8 32 bytes)

recalc_transport-bytes :
    (p : List ℕ) (l : Layout)
    → ((i : ℕ) → byte_at p i < 256)
    → (i : ℕ) → byte_at (recalc_transport p l) i < 256
unfolding recalc_transport
recalc_transport-bytes p l b i = write16be-byte _ _ _ i (write16be-byte p _ 0 i (b i))

module _ (p : List ℕ) (len : ℕ) (whole : length p ≡ len) (short : len ≤ 65535)
    (bytes : (i : ℕ) → byte_at p i < 256) where
  recalc-bytes :
      (parse p len).valid ≡ true → (i : ℕ) → byte_at (packet_recalc_checksums p len) i < 256
  recalc-bytes v i =
      let l = parse p len in
      elim (recalc-ways p len v) [
        | inl way ↦ rw way (recalc_header-bytes p l bytes i)
        | inr (way, _) ↦
            rw way (recalc_transport-bytes (recalc_header p l) l (recalc_header-bytes p l bytes) i)
      ]

  -- After `packetRecalcChecksums`, the 16-bit words of the header of an IPv4 packet of at most 65535 bytes,
  -- options included, have the one's complement sum 0xFFFF. The packet must hold the TCP or UDP header that
  -- it announces.
  pub recalc_header-SumsUp :
      Ipv4 p len → SumsUp (words (packet_recalc_checksums p len) 0 (ip_header false p))
  recalc_header-SumsUp i =
      let r = packet_recalc_checksums p len in
      let (v, four, hl) = parse-ReadV4 p len i (bytes 7) in
      let b = recalc-bytes v in
      let n = ip_header false p in
      let bound : words r 0 n < 4294967296 = omega (arith, words_le r 0 n b, i.fits) in
      let right : fold_checksum (sum16 r 0 n 0) ≡ 0 =
        subst (λ (m : ℕ). fold_checksum (sum16 r 0 m 0) ≡ 0) hl
          (header_verifies p len v whole short bytes four) in
      fold_checksum-SumsUp (words r 0 n) bound
        (ap fold_checksum (omega (arith, sum16-words r 0 n 0 (omega (arith, bound)))) ∙ right)

  transport_sum :
      (v6 : Bool)
      → Whole v6 p len
      → let r = packet_recalc_checksums p len in
        let o = ip_header v6 p in
        let n = ip_length v6 p - o in SumsUp (address_words v6 r + protocol v6 p + n + words r o n)
  transport_sum v6 w =
      let r = packet_recalc_checksums p len in
      let l = parse p len in
      let d = parse-Placed v6 p len w in
      let b = recalc-bytes d.valid in
      let o = ip_header v6 p in
      let n = ip_length v6 p - o in
      let fits : o + n ≤ len = omega (arith, w.inside, w.whole) in
      let base = pseudo_header_sum r l n in
      let pseudo : base ≡ address_words v6 r + protocol v6 p + n =
        pseudo-words r l v6 n b d.is_v4 (omega (arith, fits, short))
          (omega (arith, d.proto, bytes (if v6 then 6 else 9)))
        ∙ omega (arith, d.proto) in
      let small : base < 3000000 =
        pseudo_le r b l n (omega (arith, fits, short))
          (omega (arith, d.proto, bytes (if v6 then 6 else 9))) in
      let bound : base + words r o n < 4294967296 =
        omega (arith, small, words_le r o n b, fits, short) in
      let right : fold_checksum (sum16 r o n base) ≡ 0 =
        subst (λ (m : ℕ). fold_checksum (sum16 r o m (pseudo_header_sum r l m)) ≡ 0) d.total
          (subst
            (λ (a : ℕ).
              fold_checksum
                (sum16 r a (transport_total l) (pseudo_header_sum r l (transport_total l)))
              ≡ 0)
            d.offset
            (transport_verifies p len d.valid whole short bytes d.fragment
              (subst (λ (k : ℕ). (k ≡ 6) ⊎ (k ≡ 17)) (sym d.proto) w.carried)
              (omega (arith, d.offset, d.total, fits)))) in
      subst (λ (a : ℕ). SumsUp (a + words r o n)) pseudo
        (fold_checksum-SumsUp (base + words r o n) bound
          (ap fold_checksum (sym (sum16-words r o n base bound)) ∙ right))

  fields_only :
      (v6 : Bool) → Whole v6 p len → (j : ℕ) → InChecksums v6 p (packet_recalc_checksums p len) j
  fields_only v6 w j =
      let d = parse-Placed v6 p len w in
      let at : cksum_offset (parse p len) ≡ checksum_place v6 p =
        ap₂ (λ (a b : ℕ). a + (if b == 6 then 16 else 6)) d.offset d.proto in
      elim (recalc-KeptButFields p len j) [
        | inl e ↦ inl e
        | inr (_, kept) ↦ elim kept [
          | inl e ↦ inl e
          | inr rest ↦ elim rest [
            | inl (v4, there) ↦ inr (inl (ground (arith, v4, d.is_v4), there))
            | inr there ↦ elim there [
              | inl e ↦ inr (inr (inl (e ∙ at)))
              | inr e ↦ inr (inr (inr (e ∙ ap (λ (a : ℕ). a + 1) at)))
            ]
          ]
        ]
      ]

  -- After `packetRecalcChecksums`, the checksum of a TCP or UDP packet over IPv4 or IPv6 is right: the
  -- 16-bit words of both addresses, the protocol, the length of the TCP or UDP part, and the words of
  -- that part have the one's complement sum 0xFFFF. Only the checksum fields changed. The packet has at most
  -- 65535 bytes, is no fragment, has no extension header, and its lengths fit into each other.
  pub recalc_transport-SumsUp :
      (v6 : Bool)
      → Whole v6 p len
      → let r = packet_recalc_checksums p len in
        let o = ip_header v6 p in
        let n = ip_length v6 p - o in
        SumsUp (address_words v6 r + protocol v6 p + n + words r o n)
        × ((j : ℕ) → InChecksums v6 p r j)
  recalc_transport-SumsUp v6 w = (transport_sum v6 w, fields_only v6 w)
