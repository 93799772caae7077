-- ===== src/Bandwidth/Fifo.antt =====
-- The queue of bandwidth.cpp: who joins it, who is dropped, who leaves it, and for how many tokens.
use clumsy.Prelude.{
  ℕ, ◌+◌, ◌*◌, ◌≤◌, ◌<◌, ◌≡◌, refl, sym, ap, ◌∙◌, subst, Bool, true, false, List, [], ◌∷◌, ◌++◌,
  reverse, reverse_aux, arith, ltb, length, Bool-cases, inl, inr, select, reject, take, drop,
  reject-reverse, reverse-reverse, length-append, length-take,
}
use clumsy.Packet.{PacketNode, World}
use clumsy.Bandwidth.{Bandwidth, Flow, matches, keep_at_most, cost, scale, enqueue, drain, flow}
use clumsy.Bandwidth.Loops.{bytes, enqueue-Joined, drain-Drained}

-- `buf_size` counts the buffer, which holds at most 2000 packets.
pub record IsValid (b : Bandwidth) : Type 0 where
  pub counted : b.buf_size ≡ length b.buf
  pub room : b.buf_size ≤ keep_at_most

-- The packets of the handled directions, in the order in which they join the queue.
abbrev pub arrivals : Bandwidth → List PacketNode → List PacketNode
arrivals b queue = select (matches b) (reverse queue)

-- With a limit, the draining goes on until the next packet is too dear; without one, none is let out.
abbrev pub Spent : Bool → List PacketNode → List PacketNode → ℕ → Type 0
Spent false released nodes tokens = released ≡ []
Spent true released [] tokens = Unit {0}
Spent true released (pac ∷ rest) tokens = tokens < cost pac

-- What a call does with `tokens` tokens to spend and room for `k` packets, where `m` tells the
-- handled packets, `buf` is the buffer and `limit` the rate.
abbrev pub Shaped :
    (PacketNode → Bool) → List PacketNode → ℕ → ℕ → ℕ → List PacketNode → World → Flow → Type 0
Shaped m buf limit k tokens queue w f =
    (released : List PacketNode) × (buf ++ take k (select m (reverse queue)) ≡ released ++ f.nodes)
    × (f.queue ≡ reverse_aux released (reject m queue))
    × (f.world.freed ≡ reverse_aux (drop k (select m (reverse queue))) w.freed)
    × (f.tokens + bytes released * scale ≡ tokens)
    × Spent (ltb 0 limit) released f.nodes f.tokens

Spent-front :
    (released nodes : List PacketNode) (tokens : ℕ)
    → ((pac : PacketNode) (rest : List PacketNode) → nodes ≡ pac ∷ rest → tokens < cost pac)
    → Spent true released nodes tokens
Spent-front released [] tokens d = tt
Spent-front released (pac ∷ rest) tokens d = d pac rest refl

-- The count is right and within the limit.
abbrev pub Counted : Flow → Type 0
Counted f = (f.size ≡ length f.nodes) × (f.size ≤ keep_at_most)

entered : Bandwidth → List PacketNode → World → Flow
entered b queue w = enqueue b (reverse queue) (record {
  queue = [];
  nodes = b.buf;
  size = b.buf_size;
  tokens = b.token_bucket;
  affected = b.affected;
  world = w;
})

module _ (b : Bandwidth) (k : ℕ) (queue : List PacketNode) (w : World)
    (fits : b.buf_size + k ≡ keep_at_most) where
  entered-Joined :
      ((entered b queue w).queue ≡ reject (matches b) queue)
      × ((entered b queue w).nodes ≡ b.buf ++ take k (arrivals b queue))
      × ((entered b queue w).world.freed ≡ reverse_aux (drop k (arrivals b queue)) w.freed)
      × ((entered b queue w).tokens ≡ b.token_bucket)
      × ((entered b queue w).size ≡ b.buf_size + length (take k (arrivals b queue)))
  unfolding entered
  entered-Joined =
      let (q, n, f, t, z) =
        enqueue-Joined b k (reverse queue)
          (record {
            queue = [];
            nodes = b.buf;
            size = b.buf_size;
            tokens = b.token_bucket;
            affected = b.affected;
            world = w;
          })
          fits in
      (
        q
            ∙ ap reverse (reject-reverse (matches b) queue)
            ∙ reverse-reverse (reject (matches b) queue),
        n,
        f,
        t,
        z,
      )

  flow_open :
      ltb 0 b.limit ≡ true → flow b queue w ≡ drain (entered b queue w).nodes (entered b queue w)
  unfolding flow entered
  flow_open e = ground arith

  flow_shut : ltb 0 b.limit ≡ false → flow b queue w ≡ entered b queue w
  unfolding flow entered
  flow_shut e = ground arith

  pub flow-Shaped : Shaped (matches b) b.buf b.limit k b.token_bucket queue w (flow b queue w)
  unfolding bytes
  flow-Shaped =
      let (q, n, f, t, z) = entered-Joined in
      let g = entered b queue w in
      elim (Bool-cases (ltb 0 b.limit)) [
        | inr shut ↦
            subst (Shaped (matches b) b.buf b.limit k b.token_bucket queue w) (sym (flow_shut shut))
              ([], sym n, q, f, omega (arith, t), rw shut refl)
        | inl go ↦
            let (released, (n', q', t', w', z', d)) = drain-Drained g.nodes g refl in
            subst (Shaped (matches b) b.buf b.limit k b.token_bucket queue w) (sym (flow_open go)) (
              released,
              sym n ∙ n',
              q' ∙ ap (reverse_aux released) q,
              ap (λ (v : World). v.freed) w' ∙ f,
              omega (arith, t, t'),
              rw go (Spent-front released (drain g.nodes g).nodes (drain g.nodes g).tokens d),
            )
      ]

  pub flow_size : b.buf_size ≡ length b.buf → Counted (flow b queue w)
  flow_size c =
      let (q, n, f, t, z) = entered-Joined in
      let g = entered b queue w in
      let all_in : g.size ≡ length g.nodes =
        omega (arith, z, ap length n, length-append b.buf (take k (arrivals b queue)), c) in
      let within : g.size ≤ keep_at_most = omega (arith, z, length-take k (arrivals b queue)) in
      elim (Bool-cases (ltb 0 b.limit)) [
        | inr shut ↦ subst Counted (sym (flow_shut shut)) (all_in, within)
        | inl go ↦
            let (released, (n', _, _, _, z', _)) = drain-Drained g.nodes g refl in
            let counted = z' all_in in
            subst Counted (sym (flow_open go)) (
              counted,
              omega (arith, ap length n', length-append released (drain g.nodes g).nodes, counted),
            )
      ]
