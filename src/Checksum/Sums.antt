-- ===== src/Checksum/Sums.antt =====
-- packetutil_linux.cpp: the one's complement sum, and what a word written changes of it.
use clumsy.Prelude.{
  ℕ, zero, suc, ◌+◌, ◌*◌, ◌/◌, ◌%◌, ◌≤◌, ◌<◌, ◌≡◌, ◌≢◌, ◌⊎◌, inl, inr, refl, ap, sym, ◌∙◌, List, [],
  ◌∷◌, arith, subst, set, add32, length, length-set,
}
use clumsy.Filter.{byte_at, read16be}
use clumsy.Checksum.{write16be, sum16, fold, fold_checksum}

-- The sum without the wrap of 32 bits.
abbrev pub words : List ℕ → ℕ → ℕ → ℕ
words p off zero = 0
words p off (suc zero) = byte_at p off * 256
words p off (suc (suc n)) = byte_at p off * 256 + byte_at p (off + 1) + words p (off + 2) n

pub sum16-words :
    (p : List ℕ) (off n acc : ℕ)
    → acc + words p off n < 4294967296
    → sum16 p off n acc ≡ acc + words p off n
unfolding sum16 add32 read16be
sum16-words p off zero acc h = omega arith
sum16-words p off (suc zero) acc h = omega arith
sum16-words p off (suc (suc n)) acc h =
    let acc' = add32 acc (read16be p off) in
    let small : acc' ≡ acc + (byte_at p off * 256 + byte_at p (off + 1)) = omega arith in
    omega (arith, small, sum16-words p (off + 2) n acc' (omega (arith, small)))

pub words_le :
    (p : List ℕ) (off n : ℕ) → ((i : ℕ) → byte_at p i < 256) → 2 * words p off n ≤ 65535 * (n + 1)
words_le p off zero b = omega arith
words_le p off (suc zero) b = omega (arith, b off)
words_le p off (suc (suc n)) b = omega (arith, b off, b (off + 1), words_le p (off + 2) n b)

-- Reading after a write.
pub byte_at-set_self : (p : List ℕ) (i v : ℕ) → i < length p → byte_at (set p i v) i ≡ v
byte_at-set_self [] i v h = absurd (omega arith)
byte_at-set_self (x ∷ p) zero v h = refl
byte_at-set_self (x ∷ p) (suc i) v h = byte_at-set_self p i v (omega arith)

pub byte_at-set_ne : (p : List ℕ) (i j v : ℕ) → i ≢ j → byte_at (set p i v) j ≡ byte_at p j
byte_at-set_ne [] i j v h = refl
byte_at-set_ne (x ∷ p) zero zero v h = absurd (h refl)
byte_at-set_ne (x ∷ p) zero (suc j) v h = refl
byte_at-set_ne (x ∷ p) (suc i) zero v h = refl
byte_at-set_ne (x ∷ p) (suc i) (suc j) v h = byte_at-set_ne p i j v (λ e. h (ap suc e))

module _ (p : List ℕ) (c v : ℕ) where
  pub write16be-other : (j : ℕ) → j ≢ c → j ≢ c + 1 → byte_at (write16be p c v) j ≡ byte_at p j
  unfolding write16be
  write16be-other j h k =
      byte_at-set_ne (set p c (v / 256 % 256)) (c + 1) j (v % 256) (λ e. k (sym e))
      ∙ byte_at-set_ne p c j (v / 256 % 256) (λ e. h (sym e))

  pub write16be-high : c + 1 < length p → v < 65536 → byte_at (write16be p c v) c ≡ v / 256
  unfolding write16be
  write16be-high h k =
      byte_at-set_ne (set p c (v / 256 % 256)) (c + 1) c (v % 256) (λ e. omega (arith, e))
      ∙ byte_at-set_self p c (v / 256 % 256) (omega arith)
      ∙ omega arith

  pub write16be-low : c + 1 < length p → byte_at (write16be p c v) (c + 1) ≡ v % 256
  unfolding write16be
  write16be-low h =
      byte_at-set_self (set p c (v / 256 % 256)) (c + 1) (v % 256)
        (omega (arith, length-set p c (v / 256 % 256)))

  pub length-write16be : length (write16be p c v) ≡ length p
  unfolding write16be
  length-write16be = omega (
    arith,
    length-set p c (v / 256 % 256),
    length-set (set p c (v / 256 % 256)) (c + 1) (v % 256),
  )

-- Lists that agree in a range have the same sum over it.
pub words-agree :
    (p q : List ℕ) (off n : ℕ)
    → ((j : ℕ) → off ≤ j → j < off + n → byte_at p j ≡ byte_at q j)
    → words p off n ≡ words q off n
words-agree p q off zero h = refl
words-agree p q off (suc zero) h = omega (arith, h off (omega arith) (omega arith))
words-agree p q off (suc (suc n)) h = omega (
  arith,
  h off (omega arith) (omega arith),
  h (off + 1) (omega arith) (omega arith),
  words-agree p q (off + 2) n (λ j a b. h j (omega arith) (omega arith)),
)

words-write16be_here :
    (p : List ℕ) (c n v : ℕ)
    → c + 1 < length p
    → v < 65536
    → words (write16be p c v) c (suc (suc n)) + (byte_at p c * 256 + byte_at p (c + 1))
      ≡ words p c (suc (suc n)) + v
words-write16be_here p c n v l b =
    let rest =
      words-agree (write16be p c v) p (c + 2) n
        (λ j a z. write16be-other p c v j (λ e. omega (arith, e, a)) (λ e. omega (arith, e, a))) in
    omega (arith, write16be-high p c v l b, write16be-low p c v l, rest)

-- A word written at an even place counts in place of the one that stood there.
pub words-write16be :
    (p : List ℕ) (off k n c v : ℕ)
    → c ≡ off + 2 * k
    → 2 * k + 2 ≤ n
    → c + 1 < length p
    → v < 65536
    → words (write16be p c v) off n + (byte_at p c * 256 + byte_at p (c + 1)) ≡ words p off n + v
words-write16be p off k zero c v e h l b = absurd (omega arith)
words-write16be p off k (suc zero) c v e h l b = absurd (omega arith)
words-write16be p off zero (suc (suc n)) c v e h l b =
    let same : c ≡ off = omega (arith, e) in
    subst
      (λ (o : ℕ).
        words (write16be p c v) o (suc (suc n)) + (byte_at p c * 256 + byte_at p (c + 1))
        ≡ words p o (suc (suc n)) + v)
      same (words-write16be_here p c n v l b)
words-write16be p off (suc k) (suc (suc n)) c v e h l b =
    let first = write16be-other p c v off (λ q. omega (arith, q, e)) (λ q. omega (arith, q, e)) in
    let second =
      write16be-other p c v (off + 1) (λ q. omega (arith, q, e)) (λ q. omega (arith, q, e)) in
    omega (
      arith,
      first,
      second,
      words-write16be p (off + 2) k n c v (omega (arith, e)) (omega arith) l b,
    )

-- Folding keeps the remainder by 65535, and two turns are enough.
pub fold_lem :
    (acc : ℕ)
    → acc < 4294967296
    → (q : ℕ) × (acc ≡ fold 2 acc + 65535 * q) × (fold 2 acc < 65536) × (fold 2 acc ≡ 0 → acc ≡ 0)
unfolding fold
fold_lem acc h =
    let hi = acc / 65536 in
    (hi + (acc % 65536 + hi) / 65536, ground arith, ground arith, λ e. ground arith)

-- The checksum that goes into a zeroed field makes the sum fold to 0xFFFF.
pub fold_checksum_verifies :
    (acc ck : ℕ)
    → acc + 65535 < 4294967296
    → ((ck ≡ fold_checksum acc) ⊎ ((ck ≡ 65535) × (fold_checksum acc ≡ 0)))
    → fold_checksum (acc + ck) ≡ 0
unfolding fold_checksum
fold_checksum_verifies acc ck h c =
    let (q, e, small, z) = fold_lem acc (omega arith) in
    let bound : acc + ck < 4294967296 = elim c [
      | inl a ↦ omega (arith, a, small)
      | inr b ↦ omega (arith, b.0)
    ] in
    let (q', e', small', z') = fold_lem (acc + ck) bound in
    elim c [
      | inl a ↦ grind (arith, a, e, e', small, small', z')
      | inr b ↦ grind (arith, b.0, b.1, e, e', small, small', z')
    ]

byte_at-set_byte :
    (p : List ℕ) (i j v : ℕ) → v < 256 → byte_at p j < 256 → byte_at (set p i v) j < 256
byte_at-set_byte [] i j v h b = b
byte_at-set_byte (x ∷ p) zero zero v h b = h
byte_at-set_byte (x ∷ p) zero (suc j) v h b = b
byte_at-set_byte (x ∷ p) (suc i) zero v h b = b
byte_at-set_byte (x ∷ p) (suc i) (suc j) v h b = byte_at-set_byte p i j v h b

pub write16be-byte :
    (p : List ℕ) (c v j : ℕ) → byte_at p j < 256 → byte_at (write16be p c v) j < 256
unfolding write16be
write16be-byte p c v j b =
    byte_at-set_byte (set p c (v / 256 % 256)) (c + 1) j (v % 256) (omega arith)
      (byte_at-set_byte p c j (v / 256 % 256) (omega arith) b)

pub sum16-agree :
    (p q : List ℕ) (off n acc : ℕ)
    → ((j : ℕ) → off ≤ j → j < off + n → byte_at p j ≡ byte_at q j)
    → sum16 p off n acc ≡ sum16 q off n acc
unfolding sum16 read16be
sum16-agree p q off zero acc h = refl
sum16-agree p q off (suc zero) acc h =
    ap (λ (b : ℕ). add32 acc (b * 256)) (h off (omega arith) (omega arith))
sum16-agree p q off (suc (suc n)) acc h =
    let word : byte_at p off * 256 + byte_at p (off + 1)
        ≡ byte_at q off * 256 + byte_at q (off + 1) =
      omega (arith, h off (omega arith) (omega arith), h (off + 1) (omega arith) (omega arith)) in
    ap (λ (v : ℕ). sum16 p (off + 2) n (add32 acc v)) word
    ∙ sum16-agree p q (off + 2) n (add32 acc (byte_at q off * 256 + byte_at q (off + 1)))
        (λ j a b. h j (omega arith) (omega arith))

-- A checksum field at an even place, zeroed and then filled with what the rest sums up to.
pub field_verifies :
    (q : List ℕ) (off k n c base ck : ℕ)
    → c ≡ off + 2 * k
    → 2 * k + 2 ≤ n
    → c + 1 < length q
    → ((i : ℕ) → byte_at q i < 256)
    → 2 * base + 65535 * (n + 1) + 131070 < 8589934592
    → ck < 65536
    → (let acc = sum16 (write16be q c 0) off n base in
        (ck ≡ fold_checksum acc) ⊎ ((ck ≡ 65535) × (fold_checksum acc ≡ 0)))
    → fold_checksum (sum16 (write16be (write16be q c 0) c ck) off n base) ≡ 0
field_verifies q off k n c base ck e h l bytes room small choice =
    let q0 = write16be q c 0 in
    let q1 = write16be q0 c ck in
    let bytes0 = λ (i : ℕ). write16be-byte q c 0 i (bytes i) in
    let bytes1 = λ (i : ℕ). write16be-byte q0 c ck i (bytes0 i) in
    let high = write16be-high q c 0 l (omega arith) in
    let low = write16be-low q c 0 l in
    let placed =
      words-write16be q0 off k n c ck e h (omega (arith, l, length-write16be q c 0)) small in
    let first = sum16-words q0 off n base (omega (arith, words_le q0 off n bytes0)) in
    let second = sum16-words q1 off n base (omega (arith, words_le q1 off n bytes1)) in
    let total : sum16 q1 off n base ≡ sum16 q0 off n base + ck =
      omega (arith, first, second, placed, high, low) in
    ap fold_checksum total
    ∙ fold_checksum_verifies (sum16 q0 off n base) ck
        (omega (arith, first, words_le q0 off n bytes0)) choice
