-- ===== src/Ood/Shuffle.antt =====
-- ood.cpp: the Fisher-Yates loop of `releaseBufShuffled` permutes its array.
use clumsy.Prelude.{
  ℕ, zero, suc, ◌+◌, ◌%◌, ◌≡◌, refl, Bool, Option, none, some, List, [], ◌∷◌, arith, get_elem?, set,
  tally, if◌then◌else◌, ◌∙◌,
}
use clumsy.Packet.{PacketNode, World}
use clumsy.Ood.{swap, shuffle, exchange}

abbrev count_of : (PacketNode → Bool) → PacketNode → ℕ
count_of p x = if p x then 1 else 0

tally-set :
    (p : PacketNode → Bool) (xs : List PacketNode) (i : ℕ) (old new : PacketNode)
    → get_elem? xs i ≡ some old
    → tally p (set xs i new) + count_of p old ≡ tally p xs + count_of p new
tally-set p [] i old new e = cc
tally-set p (x ∷ xs) zero old new e = ground arith
tally-set p (x ∷ xs) (suc i) old new e = omega (arith, tally-set p xs i old new e)

-- After a write of what stands at `j`, it still stands at `j`.
get_elem?-set_copied :
    (xs : List PacketNode) (i j : ℕ) (old new : PacketNode)
    → get_elem? xs i ≡ some old
    → get_elem? xs j ≡ some new
    → get_elem? (set xs i new) j ≡ some new
get_elem?-set_copied [] i j old new e f = cc
get_elem?-set_copied (x ∷ xs) zero zero old new e f = refl
get_elem?-set_copied (x ∷ xs) zero (suc j) old new e f = f
get_elem?-set_copied (x ∷ xs) (suc i) zero old new e f = f
get_elem?-set_copied (x ∷ xs) (suc i) (suc j) old new e f = get_elem?-set_copied xs i j old new e f

tally-exchange :
    (p : PacketNode → Bool) (arr : List PacketNode) (i j : ℕ) (a b : Option PacketNode)
    → get_elem? arr i ≡ a
    → get_elem? arr j ≡ b
    → tally p (exchange arr i j a b) ≡ tally p arr
tally-exchange p arr i j none none e f = refl
tally-exchange p arr i j none (some other) e f = refl
tally-exchange p arr i j (some tmp) none e f = refl
tally-exchange p arr i j (some tmp) (some other) e f = omega (
  arith,
  tally-set p arr i tmp other e,
  tally-set p (set arr i other) j other tmp (get_elem?-set_copied arr i j tmp other e f),
)

pub tally-swap :
    (p : PacketNode → Bool) (arr : List PacketNode) (i j : ℕ) → tally p (swap arr i j) ≡ tally p arr
unfolding swap
tally-swap p arr i j = tally-exchange p arr i j (get_elem? arr i) (get_elem? arr j) refl refl

pub tally-shuffle :
    (p : PacketNode → Bool) (rand : ℕ → ℕ) (i : ℕ) (arr : List PacketNode) (w : World)
    → tally p (shuffle rand i arr w).0 ≡ tally p arr
unfolding shuffle
tally-shuffle p rand zero arr w = refl
tally-shuffle p rand (suc i) arr w =
    let j = rand w.draws % (i + 2) in
    tally-shuffle p rand i (swap arr (suc i) j) (record w { draws = w.draws + 1 })
    ∙ tally-swap p arr (suc i) j

pub shuffle-freed :
    (rand : ℕ → ℕ) (i : ℕ) (arr : List PacketNode) (w : World)
    → (shuffle rand i arr w).1.freed ≡ w.freed
unfolding shuffle
shuffle-freed rand zero arr w = refl
shuffle-freed rand (suc i) arr w =
    shuffle-freed rand i (swap arr (suc i) (rand w.draws % (i + 2)))
      (record w { draws = w.draws + 1 })
