-- ===== src/Corrupt/Bits.antt =====
-- corrupt.cpp: what flipping bits, and inverting bytes, makes of each byte of a packet.
use Prim.Native.Nat.{bit_xor}
use clumsy.Prelude.{
  ℕ, zero, suc, ◌+◌, ◌-◌, ◌/◌, ◌%◌, ◌^◌, ◌<◌, ◌≡◌, refl, ap, ◌∙◌, ◌&&◌, List, [], ◌∷◌, arith, set,
  length, length-set, inl, inr, ltb, ◌==◌, if◌then◌else◌,
}
use clumsy.Filter.{byte_at}
use clumsy.Corrupt.{flip_bit, invert}
use clumsy.Corrupt.Flips.{flip_all}
use clumsy.Tamper.Slice.{byte_at-set, compare_cases, in_slice}

-- The byte `v` at position `i` after the bits of a list, counted from position `at` on, are flipped.
abbrev pub flipped_byte : ℕ → List ℕ → ℕ → ℕ → ℕ
flipped_byte at [] i v = v
flipped_byte at (b ∷ bits) i v =
    flipped_byte at bits i (if at + b / 8 == i then bit_xor v (2 ^ (b % 8)) else v)

pub length-flip_all : (bits : List ℕ) (at : ℕ) (p : List ℕ) → length (flip_all at p bits) ≡ length p
unfolding flip_all flip_bit
length-flip_all [] at p = refl
length-flip_all (b ∷ bits) at p =
    length-flip_all bits at (flip_bit at p b) ∙ length-set p (at + b / 8) _

byte_at-flip_bit :
    (at : ℕ) (p : List ℕ) (b i : ℕ)
    → i < length p
    → byte_at (flip_bit at p b) i
      ≡ (if at + b / 8 == i then bit_xor (byte_at p i) (2 ^ (b % 8)) else byte_at p i)
unfolding flip_bit
byte_at-flip_bit at p b i h =
    byte_at-set p (at + b / 8) (bit_xor (byte_at p (at + b / 8)) (2 ^ (b % 8))) i
    ∙ ground (arith, h)

pub byte_at-flip_all :
    (bits : List ℕ) (at : ℕ) (p : List ℕ) (i : ℕ)
    → i < length p
    → byte_at (flip_all at p bits) i ≡ flipped_byte at bits i (byte_at p i)
unfolding flip_all flip_bit
byte_at-flip_all [] at p i h = refl
byte_at-flip_all (b ∷ bits) at p i h =
    byte_at-flip_all bits at (flip_bit at p b) i (omega (arith, length-set p (at + b / 8) _, h))
    ∙ ap (flipped_byte at bits i) (byte_at-flip_bit at p b i h)

pub length-invert : (len at : ℕ) (p : List ℕ) → length (invert len at p) ≡ length p
unfolding invert
length-invert zero at p = refl
length-invert (suc len) at p = length-invert len (at + 1) (set p at _) ∙ length-set p at _

inverted_first :
    (len at : ℕ) (p : List ℕ) (i v b : ℕ)
    → length (set p at v) ≡ length p
    → b ≡ (if at == i && ltb i (length p) then v else byte_at p i)
    → v ≡ 255 - byte_at p at
    → (if in_slice (at + 1) len (set p at v) i then 255 - b else b)
      ≡ (if in_slice at (suc len) p i then 255 - byte_at p i else byte_at p i)
inverted_first len at p i v b same e ev = elim (compare_cases at i) [
  | inl below ↦ ground (arith, same, e)
  | inr rest ↦ elim rest [
    | inl here ↦ ground (arith, same, e, ev)
    | inr above ↦ ground (arith, same, e)
  ]
]

pub byte_at-invert :
    (len at : ℕ) (p : List ℕ) (i : ℕ)
    → byte_at (invert len at p) i ≡ (if in_slice at len p i then 255 - byte_at p i else byte_at p i)
unfolding invert
byte_at-invert zero at p i = ground arith
byte_at-invert (suc len) at p i =
    let v = 255 - byte_at p at in
    byte_at-invert len (at + 1) (set p at v) i
    ∙ inverted_first len at p i v (byte_at (set p at v) i) (length-set p at v)
        (byte_at-set p at v i) refl
