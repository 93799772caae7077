-- ===== src/Checksum/Checked.antt =====
-- packetutil_linux.cpp: what `parse` has checked, and the parts of `packetRecalcChecksums` one by one.
use clumsy.Prelude.{
  ℕ, ◌+◌, ◌/◌, ◌%◌, ◌≤◌, ◌<◌, ◌≡◌, inl, inr, refl, ap, sym, ◌∙◌, true, false, ◌||◌, not, List,
  arith, ltb, ◌==◌, if◌then◌else◌, length, add32, Bool-cases, min, either_way,
}
use clumsy.Filter.{byte_at, read16be}
use clumsy.Checksum.{
  write16be, sum16, fold_checksum, Layout, parse, pseudo_header_sum, recalc_header, header_len,
  total_v4, with_transport, no_layout, parse_v4, parse_v6,
}
use clumsy.Checksum.Sums.{words_le, sum16-words, sum16-agree, field_verifies}

-- What `parse` has checked, where it says that a packet is valid.
abbrev pub Checked : ℕ → Layout → Type 0
Checked len l =
    (l.is_v4 ≡ true
      → (20 ≤ l.ip_hdr_len) × (l.ip_hdr_len ≤ len) × (l.transport_offset ≡ l.ip_hdr_len))
    × (l.is_v4 ≡ false → l.transport_offset ≡ 40)
    × (l.fragment ≡ false → l.proto ≡ 6 → 20 ≤ l.transport_len)
    × (l.fragment ≡ false → l.proto ≡ 17 → l.transport_len ≡ 8)

-- The rest of `parse` sets only the places behind the IP header.
with_transport-kept :
    (p : List ℕ) (len ip_total : ℕ) (l : Layout)
    → let r = with_transport p len ip_total l in
      (r.is_v4 ≡ l.is_v4)
      × (r.transport_offset ≡ l.transport_offset)
      × (r.ip_hdr_len ≡ l.ip_hdr_len)
unfolding with_transport
with_transport-kept p len ip_total l = (ground arith, ground arith, ground arith)

with_transport-read :
    (p : List ℕ) (len ip_total : ℕ) (l : Layout)
    → l.valid ≡ false
    → let r = with_transport p len ip_total l in
      r.valid ≡ true
      → (r.fragment ≡ false → r.proto ≡ 6 → 20 ≤ r.transport_len)
        × (r.fragment ≡ false → r.proto ≡ 17 → r.transport_len ≡ 8)
unfolding with_transport
with_transport-read p len ip_total l e v = ((λ f q. ground arith), λ f q. ground arith)

with_transport-Checked :
    (p : List ℕ) (len ip_total : ℕ) (l : Layout)
    → l.valid ≡ false
    → (l.is_v4 ≡ true
        → (20 ≤ l.ip_hdr_len) × (l.ip_hdr_len ≤ len) × (l.transport_offset ≡ l.ip_hdr_len))
    → (l.is_v4 ≡ false → l.transport_offset ≡ 40)
    → (with_transport p len ip_total l).valid ≡ true
    → Checked len (with_transport p len ip_total l)
with_transport-Checked p len ip_total l e v4 v6 v =
    let (same, off, hl) = with_transport-kept p len ip_total l in
    let (tcp, udp) = with_transport-read p len ip_total l e v in
    (
      (λ f.
          let (a, b, c) = v4 (sym same ∙ f) in
          (omega (arith, a, hl), omega (arith, b, hl), off ∙ c ∙ sym hl)),
      (λ f. off ∙ v6 (sym same ∙ f)),
      tcp,
      udp,
    )

abbrev IfValid : ℕ → Layout → Type 0
IfValid len l = l.valid ≡ true → Checked len l

parse_v4-Checked : (p : List ℕ) (len : ℕ) → IfValid len (parse_v4 p len)
unfolding parse_v4
parse_v4-Checked p len =
    let l = record no_layout {
      is_v4 = true;
      ip_hdr_len = header_len p;
      proto = byte_at p 9;
      transport_offset = header_len p;
      fragment = not (read16be p 6 % 8192 == 0);
    } in
    either_way (IfValid len) (ltb (header_len p) 20 || ltb len (header_len p))
      (record no_layout { is_v4 = true; ip_hdr_len = header_len p })
      (with_transport p len (total_v4 p len) l) (λ e v. cc v)
      (λ e.
        with_transport-Checked p len (total_v4 p len) l refl
          (λ f. (ground (arith, e), ground (arith, e), refl)) (λ f. cc f))

parse_v6-Checked : (p : List ℕ) (len : ℕ) → IfValid len (parse_v6 p len)
unfolding parse_v6
parse_v6-Checked p len =
    let l = record no_layout { ip_hdr_len = 40; proto = byte_at p 6; transport_offset = 40 } in
    either_way (IfValid len) (ltb len 40) no_layout
      (with_transport p len (min (40 + read16be p 4) len) l) (λ e v. cc v)
      (λ e.
        with_transport-Checked p len (min (40 + read16be p 4) len) l refl (λ f. cc f) (λ f. refl))

pub parse-Checked : (p : List ℕ) (len : ℕ) → IfValid len (parse p len)
unfolding parse
parse-Checked p len =
    let six = if byte_at p 0 / 16 == 6 then parse_v6 p len else no_layout in
    let four = if byte_at p 0 / 16 == 4 then parse_v4 p len else six in
    either_way (IfValid len) (ltb len 20) no_layout four (λ e v. cc v)
      (λ e.
        either_way (IfValid len) (byte_at p 0 / 16 == 4) (parse_v4 p len) six
          (λ f. parse_v4-Checked p len)
          (λ f.
            either_way (IfValid len) (byte_at p 0 / 16 == 6) (parse_v6 p len) no_layout
              (λ g. parse_v6-Checked p len) (λ g v. cc v)))

pub fold_checksum_small : (acc : ℕ) → fold_checksum acc < 65536
unfolding fold_checksum
fold_checksum_small acc = omega arith

pub recalc_header-v4 :
    (p : List ℕ) (l : Layout)
    → l.is_v4 ≡ true
    → recalc_header p l
      ≡ write16be (write16be p 10 0) 10 (fold_checksum (sum16 (write16be p 10 0) 0 l.ip_hdr_len 0))
unfolding recalc_header
recalc_header-v4 p l e = rw e refl

pub recalc_header_v6 : (p : List ℕ) (l : Layout) → l.is_v4 ≡ false → recalc_header p l ≡ p
unfolding recalc_header
recalc_header_v6 p l e = rw e refl

module _ (p : List ℕ) (bytes : (i : ℕ) → byte_at p i < 256) where
  pub recalc_header-Verifies :
      (l : Layout)
      → l.is_v4 ≡ true
      → 20 ≤ l.ip_hdr_len
      → l.ip_hdr_len ≤ 65535
      → l.ip_hdr_len ≤ length p
      → fold_checksum (sum16 (recalc_header p l) 0 l.ip_hdr_len 0) ≡ 0
  recalc_header-Verifies l v least most fits =
      let ck = fold_checksum (sum16 (write16be p 10 0) 0 l.ip_hdr_len 0) in
      ap (λ (q : List ℕ). fold_checksum (sum16 q 0 l.ip_hdr_len 0)) (recalc_header-v4 p l v)
      ∙ field_verifies p 0 5 l.ip_hdr_len 10 0 ck (omega arith) (omega arith) (omega arith) bytes
          (omega arith) (fold_checksum_small (sum16 (write16be p 10 0) 0 l.ip_hdr_len 0)) (inl refl)

  pub pseudo_le :
      (l : Layout) (total : ℕ)
      → total ≤ 65535
      → l.proto < 256
      → pseudo_header_sum p l total < 3000000
  unfolding pseudo_header_sum add32
  pseudo_le l total h k =
      let v4 = sum16-words p 12 8 0 (omega (arith, words_le p 12 8 bytes)) in
      let v6 = sum16-words p 8 32 0 (omega (arith, words_le p 8 32 bytes)) in
      ground (arith, v4, v6, words_le p 12 8 bytes, words_le p 8 32 bytes)

-- The addresses stand before the transport header.
pub pseudo-agree :
    (p q : List ℕ) (l : Layout) (total off : ℕ)
    → ((j : ℕ) → j < off → byte_at p j ≡ byte_at q j)
    → (l.is_v4 ≡ true → 20 ≤ off)
    → (l.is_v4 ≡ false → 40 ≤ off)
    → pseudo_header_sum p l total ≡ pseudo_header_sum q l total
unfolding pseudo_header_sum
pseudo-agree p q l total off same v4 v6 = elim (Bool-cases l.is_v4) [
  | inl e ↦
      let least = v4 e in
      rw e (
        ap (λ (a : ℕ). add32 (add32 a l.proto) total)
          (sum16-agree p q 12 8 0 (λ j a b. same j (omega arith))))
  | inr e ↦
      let least = v6 e in
      rw e (
        ap (λ (a : ℕ). add32 (add32 (add32 a (total / 65536 % 65536)) (total % 65536)) l.proto)
          (sum16-agree p q 8 32 0 (λ j a b. same j (omega arith))))
]
