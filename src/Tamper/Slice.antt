-- ===== src/Tamper/Slice.antt =====
-- tamper.cpp: the part of a packet that is overwritten, byte by byte.
use Prim.Native.Nat.{bit_xor}
use clumsy.Prelude.{
  ℕ, zero, suc, ◌+◌, ◌-◌, ◌/◌, ◌≤◌, ◌<◌, ◌≡◌, refl, ◌∙◌, Bool, ◌&&◌, some, List, [], ◌∷◌, arith,
  set, length, length-set, ◌⊎◌, inl, inr, leb, ltb, ◌==◌, if◌then◌else◌,
}
use clumsy.Filter.{byte_at}
use clumsy.Packet.{World}
use clumsy.Checksum.{packet_get_payload}
use clumsy.Tamper.{pattern, tamper_buf, region}

pub byte_at-set :
    (p : List ℕ) (at v i : ℕ)
    → byte_at (set p at v) i ≡ (if at == i && ltb i (length p) then v else byte_at p i)
byte_at-set [] at v i = ground arith
byte_at-set (x ∷ xs) zero v zero = ground arith
byte_at-set (x ∷ xs) zero v (suc i) = ground arith
byte_at-set (x ∷ xs) (suc at) v zero = ground arith
byte_at-set (x ∷ xs) (suc at) v (suc i) = ground (arith, byte_at-set xs at v i)

pub compare_cases : (a b : ℕ) → (a < b) ⊎ ((a ≡ b) ⊎ (b < a))
compare_cases a b = ground arith

-- Whether a position lies in the part of a packet from `at` on, of `len` bytes.
abbrev pub in_slice : ℕ → ℕ → List ℕ → ℕ → Bool
in_slice at len p i = leb at i && ltb i (at + len) && ltb i (length p)

pub length-tamper_buf : (len at ix : ℕ) (p : List ℕ) → length (tamper_buf len at ix p).0 ≡ length p
unfolding tamper_buf
length-tamper_buf zero at ix p = refl
length-tamper_buf (suc len) at ix p =
    length-tamper_buf len (at + 1) (ix + 1) (set p at _) ∙ length-set p at _

shifted : (ix at i : ℕ) → at < i → ix + 1 + (i - (at + 1)) ≡ ix + (i - at)
shifted ix at i h = omega arith

-- The first byte is changed by the first pattern, and the others as the rest of the loop does.
after_first :
    (len at ix : ℕ) (p : List ℕ) (i v b : ℕ)
    → length (set p at v) ≡ length p
    → b ≡ (if at == i && ltb i (length p) then v else byte_at p i)
    → v ≡ bit_xor (byte_at p at) (pattern ix)
    → (if in_slice (at + 1) len (set p at v) i
        then bit_xor b (pattern (ix + 1 + (i - (at + 1))))
        else b)
      ≡ (if in_slice at (suc len) p i
          then bit_xor (byte_at p i) (pattern (ix + (i - at)))
          else byte_at p i)
after_first len at ix p i v b same e ev = elim (compare_cases at i) [
  | inl below ↦ rw (shifted ix at i below) (ground (arith, same, e))
  | inr rest ↦ elim rest [
    | inl here ↦ let now : ix + (i - at) ≡ ix = omega arith in rw now (ground (arith, same, e, ev))
    | inr above ↦ ground (arith, same, e)
  ]
]

-- Inside the part each byte is changed by the next pattern, and outside nothing is.
pub byte_at-tamper_buf :
    (len at ix : ℕ) (p : List ℕ) (i : ℕ)
    → byte_at (tamper_buf len at ix p).0 i ≡ (
        if in_slice at len p i
        then bit_xor (byte_at p i) (pattern (ix + (i - at)))
        else byte_at p i)
unfolding tamper_buf
byte_at-tamper_buf zero at ix p i = ground arith
byte_at-tamper_buf (suc len) at ix p i =
    let v = bit_xor (byte_at p at) (pattern ix) in
    byte_at-tamper_buf len (at + 1) (ix + 1) (set p at v) i
    ∙ after_first len at ix p i v (byte_at (set p at v) i) (length-set p at v)
        (byte_at-set p at v i) refl

pub region_within :
    (rand : ℕ → ℕ) (pos data_len : ℕ) (w : World)
    → let (offset, len, w') = region rand pos data_len w in
      (offset + len ≤ data_len)
      × (len ≡ (if leb data_len 4 then data_len else data_len / 4))
      × (w'.freed ≡ w.freed)
unfolding region
region_within rand pos data_len w = ground arith

pub payload_within :
    (p : List ℕ) (packet_len start data_len : ℕ)
    → packet_get_payload p packet_len ≡ some (start, data_len)
    → (start + data_len ≤ packet_len) × (0 < data_len)
unfolding packet_get_payload
payload_within p packet_len start data_len e = ground arith
