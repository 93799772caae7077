-- ===== src/Bandwidth/Loops.antt =====
-- The two loops of bandwidth.cpp: packets join the queue, and leave it while the tokens last.
use clumsy.Prelude.{
  ℕ, zero, suc, ◌+◌, ◌-◌, ◌*◌, ◌<◌, ◌≡◌, refl, sym, ap, subst, Bool, true, false, List, [], ◌∷◌,
  ◌++◌, reverse_aux, arith, leb, length, Bool-cases, inl, inr, append-nil, append_assoc, select,
  reject, take, drop,
}
use clumsy.Packet.{PacketNode}
use clumsy.Bandwidth.{
  Bandwidth, Flow, matches, keep_at_most, cost, scale, enqueue, enqueue_one, drain,
}

unfoldable pub bytes : List PacketNode → ℕ
bytes [] = 0
bytes (x ∷ xs) = x.packet_len + bytes xs

pub bytes-reverse_aux : (xs ys : List PacketNode) → bytes (reverse_aux xs ys) ≡ bytes xs + bytes ys
unfolding bytes
bytes-reverse_aux [] ys = omega arith
bytes-reverse_aux (x ∷ xs) ys = omega (arith, bytes-reverse_aux xs (x ∷ ys))

pub bytes-append : (xs ys : List PacketNode) → bytes (xs ++ ys) ≡ bytes xs + bytes ys
unfolding bytes
bytes-append [] ys = omega arith
bytes-append (x ∷ xs) ys = omega (arith, bytes-append xs ys)

-- What joining leaves, with room for `k` more packets.
abbrev pub Joined : (PacketNode → Bool) → ℕ → List PacketNode → Flow → Flow → Type 0
Joined m k before f g =
    (g.queue ≡ reverse_aux (reject m before) f.queue)
    × (g.nodes ≡ f.nodes ++ take k (select m before))
    × (g.world.freed ≡ reverse_aux (drop k (select m before)) f.world.freed)
    × (g.tokens ≡ f.tokens)
    × (g.size ≡ f.size + length (take k (select m before)))

pub enqueue-Joined :
    (b : Bandwidth) (k : ℕ) (before : List PacketNode) (f : Flow)
    → f.size + k ≡ keep_at_most
    → Joined (matches b) k before f (enqueue b before f)
unfolding enqueue enqueue_one
enqueue-Joined b zero [] f e = (refl, sym (append-nil f.nodes), refl, refl, omega arith)
enqueue-Joined b (suc k) [] f e = (refl, sym (append-nil f.nodes), refl, refl, omega arith)
enqueue-Joined b zero (x ∷ before) f e =
    ground (arith, enqueue-Joined b zero before (enqueue_one b f x))
enqueue-Joined b (suc k) (x ∷ before) f e = ground (
  arith,
  enqueue-Joined b k before (enqueue_one b f x),
  enqueue-Joined b (suc k) before (enqueue_one b f x),
  append_assoc f.nodes (x ∷ []) (take k (select (matches b) before)),
)

-- What draining leaves: `released` left the front, and the next packet is too dear.
abbrev pub Drained : List PacketNode → List PacketNode → Flow → Flow → Type 0
Drained xs released f g =
    (xs ≡ released ++ g.nodes)
    × (g.queue ≡ reverse_aux released f.queue)
    × (g.tokens + bytes released * scale ≡ f.tokens)
    × (g.world ≡ f.world)
    × (f.size ≡ length f.nodes → g.size ≡ length g.nodes)
    × ((pac : PacketNode) (rest : List PacketNode) → g.nodes ≡ pac ∷ rest → g.tokens < cost pac)

abbrev paid : PacketNode → List PacketNode → Flow → Flow
paid x xs f = record f {
  queue = x ∷ f.queue;
  nodes = xs;
  size = f.size - 1;
  tokens = f.tokens - cost x;
}

module _ (x : PacketNode) (xs : List PacketNode) (f : Flow) where
  drain_stop : leb (cost x) f.tokens ≡ false → drain (x ∷ xs) f ≡ f
  unfolding drain
  drain_stop h = ground arith

  drain_go : leb (cost x) f.tokens ≡ true → drain (x ∷ xs) f ≡ drain xs (paid x xs f)
  unfolding drain
  drain_go h = ground arith

  Drained-stop : f.nodes ≡ x ∷ xs → leb (cost x) f.tokens ≡ false → Drained (x ∷ xs) [] f f
  unfolding bytes
  Drained-stop e h = (sym e, refl, omega arith, refl, (λ z. z), λ pac rest k. ground arith)

  Drained-go :
      (released : List PacketNode) (g : Flow)
      → f.nodes ≡ x ∷ xs
      → leb (cost x) f.tokens ≡ true
      → Drained xs released (paid x xs f) g
      → Drained (x ∷ xs) (x ∷ released) f g
  unfolding bytes
  Drained-go released g e h (n, q, t, w, z, d) = (
    ap (λ (r : List PacketNode). x ∷ r) n,
    q,
    ground arith,
    w,
    (λ c. z (omega (arith, ap length e))),
    d,
  )

drain_nil : (f : Flow) → f.nodes ≡ [] → Drained [] [] f (drain [] f)
unfolding drain bytes
drain_nil f e = (sym e, refl, omega arith, refl, (λ z. z), λ pac rest h. cc)

pub drain-Drained :
    (xs : List PacketNode) (f : Flow)
    → f.nodes ≡ xs
    → (released : List PacketNode) × Drained xs released f (drain xs f)
drain-Drained [] f e = ([], drain_nil f e)
drain-Drained (x ∷ xs) f e = elim (Bool-cases (leb (cost x) f.tokens)) [
  | inr dear ↦
      subst (λ g. (released : List PacketNode) × Drained (x ∷ xs) released f g)
        (sym (drain_stop x xs f dear)) ([], Drained-stop x xs f e dear)
  | inl fine ↦
      let (released, d) = drain-Drained xs (paid x xs f) refl in
      subst (λ g. (released : List PacketNode) × Drained (x ∷ xs) released f g)
        (sym (drain_go x xs f fine))
        (x ∷ released, Drained-go x xs f released (drain xs (paid x xs f)) e fine d)
]
