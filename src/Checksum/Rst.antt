-- ===== src/Checksum/Rst.antt =====
-- packetutil_linux.cpp: what packetSetTcpRst does to the bytes of a packet.
use clumsy.Prelude.{
  ℕ, ◌+◌, ◌/◌, ◌%◌, ◌≤◌, ◌<◌, ◌≡◌, ◌⊎◌, inl, inr, refl, sym, subst, ap, ◌∙◌, Bool, true, false,
  ◌||◌, not, List, ltb, ◌==◌, ==_iff, arith, set, length, either_way, Bool-cases, if◌then◌else◌,
}
use clumsy.Filter.{byte_at}
use clumsy.Checksum.{
  Layout, parse, cksum_offset, with_rst, packet_recalc_checksums, packet_set_tcp_rst,
}
use clumsy.Checksum.Sums.{byte_at-set_self, byte_at-set_ne}
use clumsy.Checksum.Wire.{ip_header, protocol, Read, parse-Read}
use clumsy.Checksum.Frame.{recalc-KeptButFields}

-- A byte with the bit 4 set, and the other bits as they were.
abbrev pub FlagSet : ℕ → ℕ → Type 0
FlagSet b b' = (b' / 4 % 2 ≡ 1) × (b' % 4 ≡ b % 4) × (b' / 8 ≡ b / 8)

-- A place that packetSetTcpRst may change, for a TCP header at `o`: the flags, and the two checksums.
abbrev pub Written : Bool → ℕ → ℕ → Type 0
Written v6 o j =
    (j ≡ o + 13) ⊎ (((v6 ≡ false) × ((j ≡ 10) ⊎ (j ≡ 11))) ⊎ ((j ≡ o + 16) ⊎ (j ≡ o + 17)))

-- A TCP packet over IPv4 or IPv6 with its RST flag set, and its checksums redone.
pub record RstSet (p : List ℕ) (len : ℕ) (q : List ℕ) : Type 0 where
  pub v6 : Bool
  pub flagged : List ℕ
  pub version : byte_at p 0 / 16 ≡ (if v6 then 6 else 4)
  pub carries : protocol v6 p ≡ 6
  pub room : ip_header v6 p + 20 ≤ len
  pub flag : FlagSet (byte_at p (ip_header v6 p + 13)) (byte_at q (ip_header v6 p + 13))
  pub others : (j : ℕ) → (byte_at q j ≡ byte_at p j) ⊎ Written v6 (ip_header v6 p) j
  pub redone : q ≡ packet_recalc_checksums flagged len

with_rst-FlagSet : (b : ℕ) → FlagSet b (with_rst b)
with_rst-FlagSet b = (ground arith, ground arith, ground arith)

-- The layout of a packet and that of another with the same IP header.
same_places :
    (v6 v6' : Bool) (p f : List ℕ) (l l' : Layout)
    → ((j : ℕ) → j < 13 → byte_at f j ≡ byte_at p j)
    → Read v6 p l
    → Read v6' f l'
    → l.proto ≡ 6
    → (l'.is_v4 ≡ not v6) × (cksum_offset l' ≡ ip_header v6 p + 16)
same_places true true p f l l' agree r r' six =
    (r'.is_v4, ground (arith, r'.offset, r'.proto, agree 6 (omega arith), r.proto, six))
same_places false false p f l l' agree r r' six = (
  r'.is_v4,
  ground (arith, r'.offset, r'.proto, agree 9 (omega arith), agree 0 (omega arith), r.proto, six),
)
same_places true false p f l l' agree r r' six =
    absurd (omega (arith, r.version, r'.version, agree 0 (omega arith)))
same_places false true p f l l' agree r r' six =
    absurd (omega (arith, r.version, r'.version, agree 0 (omega arith)))

module _ (p : List ℕ) (len : ℕ) (whole : length p ≡ len) where
  abbrev place : ℕ
  place = (parse p len).transport_offset + 13

  abbrev marked : List ℕ
  marked = set p place (with_rst (byte_at p place))

  -- What the checksums change of the packet with its flag set.
  checksums_kept :
      (v6 : Bool)
      → Read v6 p (parse p len)
      → (parse p len).proto ≡ 6
      → (j : ℕ)
      → (byte_at (packet_recalc_checksums marked len) j ≡ byte_at marked j)
        ⊎ (((v6 ≡ false) × ((j ≡ 10) ⊎ (j ≡ 11)))
            ⊎ ((j ≡ ip_header v6 p + 16) ⊎ (j ≡ ip_header v6 p + 17)))
  checksums_kept v6 r six j = elim (recalc-KeptButFields marked len j) [
    | inl e ↦ inl e
    | inr (v, kept) ↦
        let (v6', r') = parse-Read marked len v in
        let (four, at) =
          same_places v6 v6' p marked (parse p len) (parse marked len)
            (λ i h.
              byte_at-set_ne p place i (with_rst (byte_at p place)) (λ e. omega (arith, e, h)))
            r r' six in
        elim kept [
          | inl e ↦ inl e
          | inr rest ↦ elim rest [
            | inl (v4, there) ↦ inr (inl (ground (arith, four, v4), there))
            | inr there ↦ elim there [
              | inl e ↦ inr (inr (inl (e ∙ at)))
              | inr e ↦ inr (inr (inr (omega (arith, e, at))))
            ]
          ]
        ]
  ]

  marked-RstSet :
      (v6 : Bool)
      → Read v6 p (parse p len)
      → (parse p len).proto ≡ 6
      → (parse p len).transport_offset + 20 ≤ len
      → RstSet p len (packet_recalc_checksums marked len)
  marked-RstSet v6 r six room =
      let q = packet_recalc_checksums marked len in
      let o = ip_header v6 p in
      let at : place ≡ o + 13 = omega (arith, r.offset) in
      let flagged : byte_at q (o + 13) ≡ with_rst (byte_at p (o + 13)) =
        elim (checksums_kept v6 r six (o + 13)) [
          | inl e ↦
              e
              ∙ ap (λ (j : ℕ). byte_at marked j) (sym at)
              ∙ byte_at-set_self p place (with_rst (byte_at p place)) (omega (arith, whole, room))
              ∙ ap (λ (j : ℕ). with_rst (byte_at p j)) at
          | inr rest ↦ elim rest [
            | inl (four, there) ↦ absurd (past_fields v6 four there)
            | inr there ↦ elim there [
              | inl e ↦ absurd (omega (arith, e))
              | inr e ↦ absurd (omega (arith, e))
            ]
          ]
        ] in
      record {
        v6 = v6;
        flagged = marked;
        version = r.version;
        carries = sym r.proto ∙ six;
        room = omega (arith, r.offset, room);
        flag =
            subst (FlagSet (byte_at p (o + 13))) (sym flagged)
              (with_rst-FlagSet (byte_at p (o + 13)));
        others = λ j. elim (checksums_kept v6 r six j) [
          | inr there ↦ inr (inr there)
          | inl e ↦ elim (Bool-cases (j == o + 13)) [
            | inl here ↦ inr (inl ((==_iff j (o + 13)).0 here))
            | inr away ↦ inl (
                e
                ∙ byte_at-set_ne p place j (with_rst (byte_at p place))
                    (λ h. ground (arith, away, h, at)))
          ]
        ];
        redone = refl;
      }
    where
      past_fields :
          (v6 : Bool) → v6 ≡ false → (ip_header v6 p + 13 ≡ 10) ⊎ (ip_header v6 p + 13 ≡ 11) → ⊥
      past_fields v6 four (inl e) = omega (arith, e)
      past_fields v6 four (inr e) = omega (arith, e)

-- What the tests tell.
set_facts :
    (a v f : Bool) (n : ℕ) → (a || not v || f || not (n == 6)) ≡ false → (v ≡ true) × (n ≡ 6)
set_facts a v f n e = (ground (arith, e), ground (arith, e))

not_less : (a b : ℕ) → ltb a b ≡ false → b ≤ a
not_less a b e = ground (arith, e)

pub packet_set_tcp_rst-RstSet :
    (p : List ℕ) (len : ℕ)
    → length p ≡ len
    → (packet_set_tcp_rst p len).0 ≡ true
    → RstSet p len (packet_set_tcp_rst p len).1
unfolding packet_set_tcp_rst
packet_set_tcp_rst-RstSet p len whole =
    let l = parse p len in
    let P = λ (x : Bool × List ℕ). x.0 ≡ true → RstSet p len x.1 in
    either_way P (len == 0 || not l.valid || l.fragment || not (l.proto == 6)) (false, p) _
      (λ _ e. cc e)
      (λ read.
        either_way P (ltb len (l.transport_offset + 20)) (false, p) _ (λ _ e. cc e)
          (λ room _.
            (let (v, six) = set_facts (len == 0) l.valid l.fragment l.proto read in
              let (v6, r) = parse-Read p len v in
              marked-RstSet p len whole v6 r six (not_less len (l.transport_offset + 20) room))))
