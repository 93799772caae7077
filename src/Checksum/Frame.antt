-- ===== src/Checksum/Frame.antt =====
-- packetutil_linux.cpp: packetRecalcChecksums writes the checksum fields and no other byte.
use clumsy.Prelude.{
  ℕ, ◌+◌, ◌≡◌, ◌⊎◌, inl, inr, refl, ◌∙◌, true, ◌||◌, not, List, ltb, ◌==◌, ==_iff, arith,
  either_way, Bool-cases,
}
use clumsy.Filter.{byte_at}
use clumsy.Checksum.{
  write16be, Layout, parse, recalc_header, recalc_transport, transport_total, cksum_offset,
  packet_recalc_checksums,
}
use clumsy.Checksum.Sums.{write16be-other}

-- A byte is what it was, or is one of two at a place.
abbrev pub KeptBut : ℕ → List ℕ → List ℕ → ℕ → Type 0
KeptBut c p q j = (byte_at q j ≡ byte_at p j) ⊎ ((j ≡ c) ⊎ (j ≡ c + 1))

write16be-KeptBut : (p : List ℕ) (c v j : ℕ) → KeptBut c p (write16be p c v) j
write16be-KeptBut p c v j = elim (Bool-cases (j == c)) [
  | inl e ↦ inr (inl ((==_iff j c).0 e))
  | inr e ↦ elim (Bool-cases (j == c + 1)) [
    | inl e' ↦ inr (inr ((==_iff j (c + 1)).0 e'))
    | inr e' ↦
        inl (write16be-other p c v j (λ h. ground (arith, e, h)) (λ h. ground (arith, e', h)))
  ]
]

twice : (p : List ℕ) (c v v' j : ℕ) → KeptBut c p (write16be (write16be p c v) c v') j
twice p c v v' j = elim (write16be-KeptBut (write16be p c v) c v' j) [
  | inr there ↦ inr there
  | inl e ↦ elim (write16be-KeptBut p c v j) [ inr there ↦ inr there | inl e' ↦ inl (e ∙ e') ]
]

-- The fields that may be written: the checksum of an IPv4 header, and that of the transport header.
abbrev pub KeptButFields : Layout → List ℕ → List ℕ → ℕ → Type 0
KeptButFields l p q j =
    (byte_at q j ≡ byte_at p j)
    ⊎ (((l.is_v4 ≡ true) × ((j ≡ 10) ⊎ (j ≡ 11)))
        ⊎ ((j ≡ cksum_offset l) ⊎ (j ≡ cksum_offset l + 1)))

recalc_header-kept : (p : List ℕ) (l : Layout) (j : ℕ) → KeptButFields l p (recalc_header p l) j
unfolding recalc_header
recalc_header-kept p l j =
    either_way (λ (q : List ℕ). KeptButFields l p q j) l.is_v4 _ p
      (λ v. elim (twice p 10 0 _ j) [ inl e ↦ inl e | inr there ↦ inr (inl (v, there)) ])
      (λ _. inl refl)

recalc_both-kept :
    (p : List ℕ) (l : Layout) (j : ℕ) → KeptButFields l p (recalc_transport (recalc_header p l) l) j
unfolding recalc_transport
recalc_both-kept p l j = elim (twice (recalc_header p l) (cksum_offset l) 0 _ j) [
  | inr there ↦ inr (inr there)
  | inl e ↦ elim (recalc_header-kept p l j) [ inl e' ↦ inl (e ∙ e') | inr there ↦ inr there ]
]

-- The fields are written only in a packet that is valid.
abbrev pub KeptUnlessValid : Layout → List ℕ → List ℕ → ℕ → Type 0
KeptUnlessValid l p q j = (byte_at q j ≡ byte_at p j) ⊎ ((l.valid ≡ true) × KeptButFields l p q j)

pub recalc-KeptButFields :
    (p : List ℕ) (len j : ℕ) → KeptUnlessValid (parse p len) p (packet_recalc_checksums p len) j
unfolding packet_recalc_checksums
recalc-KeptButFields p len j =
    let l = parse p len in
    let p1 = recalc_header p l in
    let P = λ (q : List ℕ). KeptUnlessValid l p q j in
    either_way P (len == 0 || not l.valid) p _ (λ _. inl refl)
      (λ read.
        let v : l.valid ≡ true = ground (arith, read) in
        let header = inr (v, recalc_header-kept p l j) in
        either_way P (l.fragment || not (l.proto == 6 || l.proto == 17)) p1 _ (λ _. header)
          (λ _.
            either_way P (ltb len (l.transport_offset + transport_total l)) p1 _ (λ _. header)
              (λ _.
                either_way P (ltb len (cksum_offset l + 2)) p1 _ (λ _. header)
                  (λ _. inr (v, recalc_both-kept p l j)))))
