-- ===== src/Corrupt/Flips.antt =====
-- corrupt.cpp: which bits flipBits flips.
use clumsy.Prelude.{
  ℕ, zero, suc, ◌+◌, ◌≤◌, ◌<◌, ◌≡◌, refl, sym, ◌∙◌, true, false, ◌||◌, Option, none, some, List, [],
  ◌∷◌, arith, length, leb, Bool-cases, Option-cases, inl, inr, subst,
}
use clumsy.Corrupt.{Flipping, flip_bit, flip_loop}

-- Bits in ascending order, from one position on and below another.
abbrev pub Ascending : ℕ → ℕ → List ℕ → Type 0
Ascending from total [] = Unit {0}
Ascending from total (b ∷ bs) = (from ≤ b) × (b < total) × Ascending (b + 1) total bs

unfoldable pub flip_all : ℕ → List ℕ → List ℕ → List ℕ
flip_all at p [] = p
flip_all at p (b ∷ bs) = flip_all at (flip_bit at p b) bs

-- Some bits were flipped, each once, and counted; nothing was freed.
pub record Flips (at from total : ℕ) (f f' : Flipping) : Type 0 where
  pub bits : List ℕ
  pub ascending : Ascending from total bits
  pub flipped : f'.bytes ≡ flip_all at f.bytes bits
  pub counted : f'.count ≡ f.count + length bits
  pub freed : f'.world.freed ≡ f.world.freed

module _ (gap : ℕ → ℕ → Option ℕ) (rand : ℕ → ℕ) where
  abbrev drawn : Flipping → Flipping
  drawn f = record f { world = record f.world { draws = f.world.draws + 1 } }

  -- The three ways through the loop's body.
  stops_short :
      (fuel ppm at total bit : ℕ) (f : Flipping)
      → gap ppm (rand f.world.draws) ≡ none
      → drawn f ≡ flip_loop gap rand (suc fuel) ppm at total bit f
  unfolding flip_loop
  stops_short fuel ppm at total bit f e = rw (e, flip_loop)

  stops_past :
      (fuel ppm at total bit g : ℕ) (f : Flipping)
      → gap ppm (rand f.world.draws) ≡ some g
      → (leb total g || leb total (bit + g)) ≡ true
      → drawn f ≡ flip_loop gap rand (suc fuel) ppm at total bit f
  unfolding flip_loop
  stops_past fuel ppm at total bit g f e past = rw (e, flip_loop) (rw past)

  goes_on :
      (fuel ppm at total bit g : ℕ) (f : Flipping)
      → gap ppm (rand f.world.draws) ≡ some g
      → (leb total g || leb total (bit + g)) ≡ false
      → flip_loop gap rand fuel ppm at total
          (bit + g + 1)
          (record (drawn f) { bytes = flip_bit at f.bytes (bit + g); count = f.count + 1 })
        ≡ flip_loop gap rand (suc fuel) ppm at total bit f
  unfolding flip_loop
  goes_on fuel ppm at total bit g f e within = rw (e, flip_loop) (rw within)

  one_more :
      (at total bit g : ℕ) (f f' : Flipping)
      → (leb total g || leb total (bit + g)) ≡ false
      → Flips at
          (bit + g + 1)
          total
          (record (drawn f) { bytes = flip_bit at f.bytes (bit + g); count = f.count + 1 })
          f'
      → Flips at bit total f f'
  unfolding flip_all
  one_more at total bit g f f' within r = record {
    bits = (bit + g) ∷ r.bits;
    ascending = (omega arith, ground arith, r.ascending);
    flipped = r.flipped;
    counted = r.counted ∙ (omega arith);
    freed = r.freed;
  }

  none_more : (at total bit : ℕ) (f : Flipping) → Flips at bit total f (drawn f)
  unfolding flip_all
  none_more at total bit f = record {
    bits = [];
    ascending = tt;
    flipped = refl;
    counted = omega arith;
    freed = refl;
  }

  pub flip_loop-Flips :
      (fuel ppm at total bit : ℕ) (f : Flipping)
      → Flips at bit total f (flip_loop gap rand fuel ppm at total bit f)
  unfolding flip_loop flip_all
  flip_loop-Flips zero ppm at total bit f = record {
    bits = [];
    ascending = tt;
    flipped = refl;
    counted = omega arith;
    freed = refl;
  }
  flip_loop-Flips (suc fuel) ppm at total bit f =
      elim (Option-cases (gap ppm (rand f.world.draws))) [
        | inl e ↦
            subst (Flips at bit total f) (stops_short fuel ppm at total bit f e)
              (none_more at total bit f)
        | inr (g, e) ↦ elim (Bool-cases (leb total g || leb total (bit + g))) [
          | inl past ↦
              subst (Flips at bit total f) (stops_past fuel ppm at total bit g f e past)
                (none_more at total bit f)
          | inr within ↦ subst (Flips at bit total f) (goes_on fuel ppm at total bit g f e within) (
              one_more at total bit g f _ within
                (flip_loop-Flips fuel ppm at total (bit + g + 1) _))
        ]
      ]

  -- The loop of flipBits ends: with more fuel than there are bits from where it stands to the end, its result does
  -- not depend on the fuel.
  pub flip_loop_enough :
      (fuel fuel' ppm at total bit : ℕ) (f : Flipping)
      → bit ≤ total
      → total < fuel + bit
      → total < fuel' + bit
      → flip_loop gap rand fuel ppm at total bit f ≡ flip_loop gap rand fuel' ppm at total bit f
  flip_loop_enough zero fuel' ppm at total bit f le lt lt' = absurd (omega arith)
  flip_loop_enough (suc fuel) zero ppm at total bit f le lt lt' = absurd (omega arith)
  flip_loop_enough (suc fuel) (suc fuel') ppm at total bit f le lt lt' =
      elim (Option-cases (gap ppm (rand f.world.draws))) [
        | inl e ↦
            sym (stops_short fuel ppm at total bit f e) ∙ stops_short fuel' ppm at total bit f e
        | inr (g, e) ↦ elim (Bool-cases (leb total g || leb total (bit + g))) [
          | inl past ↦
              sym (stops_past fuel ppm at total bit g f e past)
              ∙ stops_past fuel' ppm at total bit g f e past
          | inr within ↦
              sym (goes_on fuel ppm at total bit g f e within)
              ∙ flip_loop_enough fuel fuel' ppm at total (bit + g + 1) _ (ground arith)
                  (omega arith) (omega arith)
              ∙ goes_on fuel' ppm at total bit g f e within
        ]
      ]
