-- ===== src/Throttle/Window.antt =====
-- The life of a throttling window of throttle.cpp.
use clumsy.Prelude.{
  ℕ, ◌+◌, ◌*◌, ◌<◌, ◌≡◌, ◌≢◌, refl, ap, ap₂, ◌∙◌, Bool, true, false, ◌||◌, List, [], ◌∷◌, ◌++◌,
  reverse, reverse_aux, arith, ltb, leb, ◌==◌, if◌then◌else◌, length, length-append, length-reverse,
  sub32,
}
use clumsy.Packet.{PacketNode, World, Outcome}
use clumsy.Packet.Sweep.{Sift}
use clumsy.Packet.Collect.{Buffer, collect-gather, fuel_for, flush_all-reverse_aux}
use clumsy.Packet.Gathered.{Each, Stamps, Gathered, gather-Gathered}
use clumsy.Throttle.{
  Throttle, matches, as_is, keep_at_most, fill, held, window_over, settle, keep_filling, free_all,
  clear_buf_packets, drop_buf_packets, process, decide,
}

abbrev pub Handled : Throttle → PacketNode → Type 0
Handled t pac = matches t pac ≡ true

-- `buf_size` counts the buffer, and a call starts with room for a packet.
pub record IsValid (t : Throttle) : Type 0 where
  pub counted : t.buf_size ≡ length t.buf
  pub room : t.buf_size < keep_at_most

abbrev Same : PacketNode → PacketNode → Type 0
Same n t = n ≡ t

as_is-Stamps : Stamps Same as_is
as_is-Stamps w n = (refl, (refl, refl))

abbrev start : Throttle → World → Buffer
start t w = record { nodes = t.buf; size = t.buf_size; affected = t.affected; world = w }

fill-Gathered :
    (t : Throttle) (queue : List PacketNode) (w : World)
    → Gathered
        (matches t)
        as_is
        keep_at_most
        Same
        as_is-Stamps
        (start t w)
        (reverse queue)
        []
        (fill t queue w)
unfolding fill fuel_for
fill-Gathered t queue w =
    rw
      (collect-gather (matches t) as_is keep_at_most (length queue * (length queue + 1) + 1)
        (reverse queue) [] (start t w) tt (rw (length-reverse queue) (omega arith)))
      (gather-Gathered (matches t) as_is keep_at_most Same as_is-Stamps (reverse queue) []
        (start t w))

free_all-freed : (xs : List PacketNode) (w : World) → (free_all xs w).freed ≡ reverse_aux xs w.freed
unfolding free_all
free_all-freed [] w = refl
free_all-freed (x ∷ xs) w = free_all-freed xs (record w { freed = x ∷ w.freed })

Each-Same : (ns ts : List PacketNode) → Each Same ns ts → ns ≡ ts
Each-Same [] [] e = refl
Each-Same [] (y ∷ ys) e = elim e [ ]
Each-Same (x ∷ xs) [] e = elim e [ ]
Each-Same (x ∷ xs) (y ∷ ys) e =
    ap₂ (λ (n : PacketNode) (r : List PacketNode). n ∷ r) e.0 (Each-Same xs ys e.1)

-- What becomes of the packets held: they stay while the window is open; at its end they are sent
-- behind the packets that were left, or freed, each once, and the window is closed.
abbrev pub Ends :
    Bool → Bool → Throttle → List PacketNode → List PacketNode → World → Outcome Throttle → Type 0
Ends false drop t in_buffer left w r =
    (r.queue ≡ left)
    × (r.state.buf ≡ in_buffer)
    × (r.world.freed ≡ w.freed)
    × (r.state.start_tick ≡ t.start_tick)
Ends true false t in_buffer left w r =
    (r.queue ≡ left ++ reverse in_buffer)
    × (r.state.buf ≡ [])
    × (r.world.freed ≡ w.freed)
    × (r.state.start_tick ≡ 0)
Ends true true t in_buffer left w r =
    (r.queue ≡ left)
    × (r.state.buf ≡ [])
    × (r.world.freed ≡ reverse_aux in_buffer w.freed)
    × (r.state.start_tick ≡ 0)

settle-Ends :
    (t : Throttle) (over drop : Bool) (current_tick : ℕ) (queue : List PacketNode) (w : World)
    → window_over t current_tick ≡ over
    → t.drop_throttled ≡ drop
    → t.buf_size ≡ length t.buf
    → Ends over drop t t.buf queue w (settle t current_tick queue w)
      × IsValid (settle t current_tick queue w).state
unfolding settle clear_buf_packets drop_buf_packets
settle-Ends t false drop current_tick queue w o d c = (ground arith, ground arith)
settle-Ends t true false current_tick queue w o d c =
    (ground (arith, flush_all-reverse_aux t.buf []), ground arith)
settle-Ends t true true current_tick queue w o d c =
    (ground (arith, free_all-freed t.buf w), ground arith)

Ends-cast :
    (over over' drop : Bool) (t t' : Throttle) (xs ys left left' : List PacketNode) (w w' : World)
    (r : Outcome Throttle)
    → over ≡ over'
    → t.start_tick ≡ t'.start_tick
    → xs ≡ ys
    → left ≡ left'
    → w.freed ≡ w'.freed
    → Ends over drop t xs left w r
    → Ends over' drop t' ys left' w' r
Ends-cast false false drop t t' xs ys left left' w w' r o s x l f e = ground arith
Ends-cast false true drop t t' xs ys left left' w w' r o s x l f e = cc
Ends-cast true false drop t t' xs ys left left' w w' r o s x l f e = cc
Ends-cast true true false t t' xs ys left left' w w' r o s x l f e = ground arith
Ends-cast true true true t t' xs ys left left' w w' r o s x l f e = ground arith

-- A call inside a window: some packets, all of a handled direction, join the buffer from the `tail`
-- on, and the window ends when the buffer is full or the frame is over.
abbrev pub Window : Throttle → ℕ → List PacketNode → World → Outcome Throttle → Type 0
Window t current_tick queue w r =
    (ks : List PacketNode) × (taken : List PacketNode) × Sift (Handled t) (reverse queue) ks taken
    × Ends
        (leb keep_at_most (length (t.buf ++ taken))
          || ltb t.frame (sub32 current_tick t.start_tick))
        t.drop_throttled t (t.buf ++ taken) (reverse ks) w r
    × IsValid r.state

keep_filling-Window :
    (t : Throttle) (current_tick : ℕ) (queue : List PacketNode) (w : World)
    → IsValid t
    → Window t current_tick queue w (keep_filling t current_tick queue w)
unfolding keep_filling
keep_filling-Window t current_tick queue w v =
    let (ks, ts, ns, s, q, n, e, z, a, f, _, _) = fill-Gathered t queue w in
    let b = (fill t queue w).1 in
    let left = (fill t queue w).0 in
    let over = leb keep_at_most b.size || ltb t.frame (sub32 current_tick t.start_tick) in
    let nodes : b.nodes ≡ t.buf ++ ts =
      n ∙ ap (λ (xs : List PacketNode). t.buf ++ xs) (Each-Same ns ts e) in
    let counted : b.size ≡ length b.nodes =
      omega (arith, z, ap length n, length-append t.buf ns, v.counted) in
    let (ends, valid) =
      settle-Ends (held t b) over t.drop_throttled current_tick left b.world refl refl counted in
    (
      ks,
      ts,
      s,
      Ends-cast over
          (leb keep_at_most (length (t.buf ++ ts)) || ltb t.frame (sub32 current_tick t.start_tick))
          t.drop_throttled (held t b) t b.nodes (t.buf ++ ts) left (reverse ks) b.world w
          (keep_filling t current_tick queue w)
          (ap (λ (k : ℕ). leb keep_at_most k || ltb t.frame (sub32 current_tick t.start_tick))
            (counted ∙ ap length nodes))
          refl nodes q f.0 ends,
      valid,
    )

-- From a valid state with a window open, a call of `throttleProcess` takes packets of handled directions
-- into the buffer, the rest keeping their order. While the buffer is below its limit and the frame is not
-- over, that is all. Else the window ends: the buffered packets are freed, oldest first, where the setting
-- says drop, and go to the end of the list, the newest first, where it does not; the buffer is empty.
-- Nothing else is freed, and the state stays valid.
pub process_running :
    (rand : ℕ → ℕ) (t : Throttle) (now current_tick : ℕ) (queue : List PacketNode) (w : World)
    → IsValid t
    → t.start_tick ≢ 0
    → Window t current_tick queue w (process rand t now current_tick queue w)
unfolding process
process_running rand t now current_tick queue w v run =
    let closed : (t.start_tick == 0) ≡ false = ground arith in
    rw closed (keep_filling-Window t current_tick queue w v)

-- With no window open: either nothing happens, or one opens at `now` and the same call fills it.
abbrev pub Begins :
    Bool → Throttle → ℕ → ℕ → List PacketNode → World → World → Outcome Throttle → Type 0
Begins false t now current_tick queue w w' r =
    (r.queue ≡ queue) × (r.state ≡ t) × (r.world ≡ w') × (r.triggered ≡ false)
Begins true t now current_tick queue w w' r =
    (o : Outcome Throttle) × Window (record t { start_tick = now }) current_tick queue w' o
    × (r ≡ record o { triggered = true })

Begins-decided :
    (go : Bool) (t : Throttle) (now current_tick : ℕ) (queue : List PacketNode) (w w' : World)
    → IsValid t
    → let idle : Outcome Throttle = record {
      queue = queue;
      triggered = false;
      state = t;
      world = w';
    } in
      let begun = keep_filling (record t { start_tick = now }) current_tick queue w' in
      Begins go t now current_tick queue w w'
        (if go then record begun { triggered = true } else idle)
Begins-decided false t now current_tick queue w w' v = (refl, refl, refl, refl)
Begins-decided true t now current_tick queue w w' v = (
  keep_filling (record t { start_tick = now }) current_tick queue w',
  keep_filling-Window (record t { start_tick = now }) current_tick queue w'
      (record { counted = v.counted; room = v.room }),
  refl,
)

-- From a valid state with no window open, a call of `throttleProcess` either changes nothing but the
-- number of draws, or opens a window at its tick, fills and ends it as a call in an open window
-- does, and reports that it triggered. The test that `decide` makes tells which.
process_idle :
    (rand : ℕ → ℕ) (t : Throttle) (now current_tick : ℕ) (queue : List PacketNode) (w : World)
    → IsValid t
    → t.start_tick ≡ 0
    → let (go, w') = decide rand t queue w in
      Begins go t now current_tick queue w w' (process rand t now current_tick queue w)
unfolding process
process_idle rand t now current_tick queue w v idle =
    let open' : (t.start_tick == 0) ≡ true = ground arith in
    rw open' (
      Begins-decided (decide rand t queue w).0 t now current_tick queue w (decide rand t queue w).1
        v)
