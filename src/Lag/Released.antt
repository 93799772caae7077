-- ===== src/Lag/Released.antt =====
-- The release loops of lag.cpp: what leaves the buffer, in which order, and with which delay.
use clumsy.Prelude.{
  ℕ, zero, suc, ◌≤◌, ◌≡◌, refl, sym, ap, ◌∙◌, Bool, List, [], ◌∷◌, ◌++◌, reverse_aux, arith, ltb,
  if◌then◌else◌, length, map, Bool-cases, inl, inr, add32, sub32, take, drop, append_assoc,
}
use clumsy.Latency.{Histogram, latency_record, record_all}
use clumsy.Packet.{PacketNode}
use clumsy.Lag.{Release, release_one, send_overdue, flush}

-- The test of the loop.
abbrev pub due : ℕ → ℕ → PacketNode → Bool
due now lag_time pac = ltb (add32 pac.timestamp lag_time) now

abbrev pub waited : ℕ → PacketNode → ℕ
waited now pac = sub32 now pac.enqueue_time

-- The overdue packets at the front of a buffer, and what follows them.
abbrev pub take_while : (PacketNode → Bool) → List PacketNode → List PacketNode
take_while p [] = []
take_while p (x ∷ xs) = if p x then x ∷ take_while p xs else []

abbrev pub drop_while : (PacketNode → Bool) → List PacketNode → List PacketNode
drop_while p [] = []
drop_while p (x ∷ xs) = if p x then drop_while p xs else x ∷ xs

pub take-append-drop_while :
    (p : PacketNode → Bool) (xs : List PacketNode) → take_while p xs ++ drop_while p xs ≡ xs
take-append-drop_while p [] = refl
take-append-drop_while p (x ∷ xs) = ground (arith, take-append-drop_while p xs)

-- `released` left the buffer of `r`, oldest first; each was put in front of the list and its delay
-- recorded.
abbrev pub Released : ℕ → List PacketNode → Release → Release → Type 0
Released now released r r' =
    (r.buf ≡ released ++ r'.buf)
    × (r'.queue ≡ reverse_aux released r.queue)
    × (r.buf_size ≡ length r.buf → r'.buf_size ≡ length r'.buf)
    × (r'.buf_size ≤ r.buf_size)
    × (r'.world.freed ≡ r.world.freed)
    × (r'.world.hist ≡ record_all r.world.hist (map (waited now) released))

pub Released-none : (now : ℕ) (r : Release) → Released now [] r r
unfolding record_all
Released-none now r = (refl, refl, (λ e. e), omega arith, refl, refl)

Released-one :
    (now : ℕ) (pac : PacketNode) (rest released : List PacketNode) (r r' : Release)
    → r.buf ≡ pac ∷ rest
    → Released now released (release_one now pac rest r) r'
    → Released now (pac ∷ released) r r'
unfolding release_one record_all
Released-one now pac rest released r r' e (b, q, s, l, f, h) =
    (e ∙ ap (λ (t : List PacketNode). pac ∷ t) b, q, (λ z. s (ground arith)), omega arith, f, h)

one_buf :
    (now : ℕ) (pac : PacketNode) (rest : List PacketNode) (r : Release)
    → (release_one now pac rest r).buf ≡ rest
unfolding release_one
one_buf now pac rest r = refl

pub send_overdue-Released :
    (now lag_time : ℕ) (buf : List PacketNode) (r : Release)
    → r.buf ≡ buf
    → Released now (take_while (due now lag_time) buf) r (send_overdue now lag_time buf r)
      × ((send_overdue now lag_time buf r).buf ≡ drop_while (due now lag_time) buf)
unfolding send_overdue record_all
send_overdue-Released now lag_time [] r e =
    ((e ∙ sym e, refl, (λ z. z), omega arith, refl, refl), e)
send_overdue-Released now lag_time (x ∷ rest) r e = elim (Bool-cases (due now lag_time x)) [
  | inl late ↦
      let (ih, b) =
        send_overdue-Released now lag_time rest (release_one now x rest r) (one_buf now x rest r) in
      rw late (
        Released-one now x rest (take_while (due now lag_time) rest) r
            (send_overdue now lag_time rest (release_one now x rest r)) e ih,
        b,
      )
  | inr early ↦ rw early ((e ∙ sym e, refl, (λ z. z), omega arith, refl, refl), e)
]

pub flush-Released :
    (n now : ℕ) (buf : List PacketNode) (r : Release)
    → r.buf ≡ buf
    → Released now (take n buf) r (flush n now buf r) × ((flush n now buf r).buf ≡ drop n buf)
unfolding flush record_all
flush-Released zero now buf r e = ((refl, refl, (λ z. z), omega arith, refl, refl), e)
flush-Released (suc n) now [] r e = ((refl, refl, (λ z. z), omega arith, refl, refl), e)
flush-Released (suc n) now (x ∷ rest) r e =
    let (ih, b) = flush-Released n now rest (release_one now x rest r) (one_buf now x rest r) in
    (Released-one now x rest (take n rest) r (flush n now rest (release_one now x rest r)) e ih, b)

map-append_waited :
    (now : ℕ) (xs ys : List PacketNode)
    → map (waited now) (xs ++ ys) ≡ map (waited now) xs ++ map (waited now) ys
map-append_waited now [] ys = refl
map-append_waited now (x ∷ xs) ys = cc (map-append_waited now xs ys)

record_all-append :
    (h : Histogram) (xs ys : List ℕ) → record_all h (xs ++ ys) ≡ record_all (record_all h xs) ys
unfolding record_all
record_all-append h [] ys = refl
record_all-append h (x ∷ xs) ys = record_all-append (latency_record h x) xs ys

reverse_aux-append :
    (xs ys zs : List PacketNode) → reverse_aux (xs ++ ys) zs ≡ reverse_aux ys (reverse_aux xs zs)
reverse_aux-append [] ys zs = refl
reverse_aux-append (x ∷ xs) ys zs = reverse_aux-append xs ys (x ∷ zs)

-- Two releases in a row are one.
pub Released-trans :
    (now : ℕ) (xs ys : List PacketNode) (r s t : Release)
    → Released now xs r s
    → Released now ys s t
    → Released now (xs ++ ys) r t
Released-trans now xs ys r s t (b, q, z, l, f, h) (b', q', z', l', f', h') = (
  b ∙ ap (λ (n : List PacketNode). xs ++ n) b' ∙ sym (append_assoc xs ys t.buf),
  q' ∙ ap (reverse_aux ys) q ∙ sym (reverse_aux-append xs ys r.queue),
  (λ e. z' (z e)),
  omega arith,
  f' ∙ f,
  h'
      ∙ ap (λ (g : Histogram). record_all g (map (waited now) ys)) h
      ∙ sym (record_all-append r.world.hist (map (waited now) xs) (map (waited now) ys))
      ∙ ap (record_all r.world.hist) (sym (map-append_waited now xs ys)),
)
