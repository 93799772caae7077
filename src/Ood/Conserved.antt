-- ===== src/Ood/Conserved.antt =====
-- ood.cpp: no packet is lost or made up, and none is held back for long.
use clumsy.Prelude.{
  ℕ, ◌+◌, ◌-◌, ◌≤◌, ◌<◌, ◌≡◌, refl, ap, ◌∙◌, inl, inr, Bool, true, false, List, [], ◌∷◌, reverse,
  arith, ltb, length, length-append, length-drop, take, drop, take-append-drop, tally-append,
  tally-reverse, Bool-cases, if◌then◌else◌, sub32,
}
use clumsy.Packet.{PacketNode, World, Content, content, holding, calc_chance, calc_chance-freed}
use clumsy.Packet.Gathered.{holding-reverse_aux}
use clumsy.Ood.{
  Ood, Capture, Release, capture_one, capture, shuffle, release_buf_shuffled, triggers, process,
  begin, captured, outcome,
}
use clumsy.Ood.Shuffle.{tally-shuffle, shuffle-freed}

-- What the list and the buffer of the loop hold.
abbrev kept : (Content → Bool) → Capture → ℕ
kept p c = holding p c.after + holding p c.buf

-- What a step of the capturing loop leaves alone, but for `n` more packets in the list or the buffer.
abbrev Step : (Content → Bool) → ℕ → ℕ → Capture → Capture → Type 0
Step p n max_buffer c c' =
    (kept p c' ≡ kept p c + n)
    × (c'.world.freed ≡ c.world.freed)
    × (c.buf_size ≡ length c.buf → c'.buf_size ≡ length c'.buf)
    × (c.buf_size ≤ 50 → max_buffer ≤ 50 → c'.buf_size ≤ 50)

capture_one-Step :
    (p : Content → Bool) (rand : ℕ → ℕ) (o : Ood) (now : ℕ) (pac : PacketNode) (c : Capture)
    → Step p (if p (content pac) then 1 else 0) o.max_buffer c (capture_one rand o now pac c)
unfolding capture_one
capture_one-Step p rand o now pac c =
    let (hit, w) = calc_chance rand o.chance c.world in
    let same = calc_chance-freed rand o.chance c.world in
    let grown = tally-append (λ n. p (content n)) c.buf (record pac { timestamp = now } ∷ []) in
    let longer = length-append c.buf (record pac { timestamp = now } ∷ []) in
    (ground (arith, grown), ground (arith, same), ground (arith, longer), ground arith)

capture-Step :
    (p : Content → Bool) (rand : ℕ → ℕ) (o : Ood) (now : ℕ) (before : List PacketNode) (c : Capture)
    → Step p (holding p before) o.max_buffer c (capture rand o now before c)
unfolding capture
capture-Step p rand o now [] c = (omega arith, refl, (λ e. e), λ h k. h)
capture-Step p rand o now (pac ∷ before) c =
    let (k, f, s, b) = capture_one-Step p rand o now pac c in
    let (k', f', s', b') = capture-Step p rand o now before (capture_one rand o now pac c) in
    (omega (arith, k, k'), f' ∙ f, (λ e. s' (s e)), λ h m. b' (b h m) m)

abbrev held : (Content → Bool) → Release → ℕ
held p r = holding p r.queue + holding p r.buf

nil_of_length : (xs : List PacketNode) → length xs ≡ 0 → xs ≡ []
nil_of_length [] e = refl
nil_of_length (x ∷ xs) e = absurd (omega (arith, e))

abbrev Released : Release → Release → Type 0
Released r r' =
    ((p : Content → Bool) → held p r' ≡ held p r)
    × (r'.world.freed ≡ r.world.freed)
    × (r.buf_size ≡ length r.buf → (r'.buf ≡ []) × (r'.buf_size ≡ 0))

release-Released : (rand : ℕ → ℕ) (r : Release) → Released r (release_buf_shuffled rand r)
unfolding release_buf_shuffled
release-Released rand r =
    let arr = take r.buf_size r.buf in
    let done = shuffle rand (r.buf_size - 1) arr r.world in
    let held_same : (p : Content → Bool) → held p (release_buf_shuffled rand r) ≡ held p r = λ p.
      let same = tally-shuffle (λ n. p (content n)) rand (r.buf_size - 1) arr r.world in
      let moved = holding-reverse_aux p done.0 r.queue in
      let split = ap (holding p) (take-append-drop r.buf_size r.buf) in
      let parts = tally-append (λ n. p (content n)) arr (drop r.buf_size r.buf) in
      ground (arith, same, moved, split, parts) in
    (
      held_same,
      ground (arith, shuffle-freed rand (r.buf_size - 1) arr r.world),
      λ e. ground (
        arith,
        nil_of_length r.buf,
        nil_of_length (drop r.buf_size r.buf),
        length-drop r.buf_size r.buf,
      ),
    )

-- `bufSize` is right, and the array of 50 is large enough for what it is given.
pub record IsValid (o : Ood) : Type 0 where
  pub counted : o.buf_size ≡ length o.buf
  pub fits : o.buf_size ≤ 50
  pub small : o.max_buffer ≤ 50

-- The buffer is not full, and its oldest packet has waited for less than the set delay.
abbrev pub Fresh : Ood → ℕ → List PacketNode → Type 0
Fresh o now [] = Unit {0}
Fresh o now (oldest ∷ rest) =
    (length (oldest ∷ rest) < o.max_buffer) × (sub32 now oldest.timestamp < o.max_delay)

triggers-Fresh :
    (o : Ood) (now : ℕ) (buf : List PacketNode) (size : ℕ)
    → size ≡ length buf
    → triggers o now buf size ≡ false
    → Fresh o now buf
unfolding triggers
triggers-Fresh o now [] size e h = tt
triggers-Fresh o now (oldest ∷ rest) size e h = (ground arith, ground arith)

module _ (rand : ℕ → ℕ) (o : Ood) (now : ℕ) (queue : List PacketNode) (w : World) where
  last : Capture
  last = capture rand o now (reverse queue) (begin o w)

  process_full :
      triggers o now last.buf last.buf_size ≡ true
      → process rand o now queue w
        ≡ outcome o last.affected true (release_buf_shuffled rand (captured last))
  unfolding process last
  process_full e = ground arith

  process_waiting :
      triggers o now last.buf last.buf_size ≡ false
      → process rand o now queue w ≡ outcome o last.affected (ltb 0 last.buf_size) (captured last)
  unfolding process last
  process_waiting e = ground arith

  captured-Step :
      (p : Content → Bool)
      → (held p (captured last) ≡ holding p queue + holding p o.buf)
        × (last.world.freed ≡ w.freed)
        × (o.buf_size ≡ length o.buf → last.buf_size ≡ length last.buf)
        × (o.buf_size ≤ 50 → o.max_buffer ≤ 50 → last.buf_size ≤ 50)
  unfolding last
  captured-Step p =
      let (k, f, s, b) = capture-Step p rand o now (reverse queue) (begin o w) in
      (omega (arith, k, tally-reverse (λ n. p (content n)) queue), f, s, b)

  -- A call of `oodProcess` loses and makes up no packet: whatever `rand()` returns, each content stands in the
  -- list and the buffer together as often as before, and nothing is freed.
  pub ood_process-Conserves :
      (p : Content → Bool)
      → let r = process rand o now queue w in
        (holding p r.queue + holding p r.state.buf ≡ holding p queue + holding p o.buf)
        × (r.world.freed ≡ w.freed)
  ood_process-Conserves p =
      let (k, f, _, _) = captured-Step p in
      let (same, freed, _) = release-Released rand (captured last) in
      elim (Bool-cases (triggers o now last.buf last.buf_size)) [
        | inl e ↦ rw (process_full e) (same p ∙ k, freed ∙ f)
        | inr e ↦ rw (process_waiting e) (k, f)
      ]

  -- From a valid state, a call of `oodProcess` leaves a valid one, with `bufSize` right and no more packets in the
  -- buffer than the array of the shuffle has room for; and the buffer is empty, or holds fewer
  -- packets than the set number, the oldest of which has waited for less than the set delay.
  pub process-Fresh :
      IsValid o → let r = process rand o now queue w in IsValid r.state × Fresh o now r.state.buf
  process-Fresh v =
      let (_, _, s, b) = captured-Step (λ n. true) in
      let (_, _, out) = release-Released rand (captured last) in
      let counted = s v.counted in
      let (gone, none_left) = out counted in
      elim (Bool-cases (triggers o now last.buf last.buf_size)) [
        | inl e ↦
            rw (process_full e, gone, none_left)
              (record { counted = refl; fits = omega arith; small = v.small }, tt)
        | inr e ↦ rw (process_waiting e) (
          record { counted = counted; fits = b v.fits v.small; small = v.small },
          triggers-Fresh o now last.buf last.buf_size counted e,
        )
      ]
