-- ===== src/Filter/Represented.antt =====
-- A node that stands for an expression evaluates to its meaning, and goes on to when nodes are added.
use clumsy.Prelude.{
  ℕ, zero, suc, ◌<◌, ◌≡◌, refl, Bool, true, false, some, [], ◌∷◌, ◌++◌, arith, get_elem?, length,
}
use clumsy.Packet.{PacketMeta}
use clumsy.Filter.{
  Node, Program, PacketFields, both, either, negate, compare_field, eval_kind, eval_node,
}
use clumsy.Filter.Grammar.{Expr, atom, conj, disj, neg, meaning, Represents, is_atom}

get_elem?-append :
    (ns more : Program) (i : ℕ) (n : Node)
    → get_elem? ns i ≡ some n
    → get_elem? (ns ++ more) i ≡ some n
get_elem?-append [] more i n e = cc
get_elem?-append (m ∷ ns) more zero n e = e
get_elem?-append (m ∷ ns) more (suc i) n e = get_elem?-append ns more i n e

pub get_elem?-last : (ns : Program) (n : Node) → get_elem? (ns ++ n ∷ []) (length ns) ≡ some n
get_elem?-last [] n = refl
get_elem?-last (m ∷ ns) n = get_elem?-last ns n

pub Represents-append :
    (ns more : Program) (e : Expr) (i : ℕ) → Represents ns e i → Represents (ns ++ more) e i
Represents-append ns more (atom n) i (at, a) = (get_elem?-append ns more i n at, a)
Represents-append ns more (conj d e) i (l, r, at, hl, hr, rl, rr) = (
  l,
  r,
  get_elem?-append ns more i (both l r) at,
  hl,
  hr,
  Represents-append ns more d l rl,
  Represents-append ns more e r rr,
)
Represents-append ns more (disj d e) i (l, r, at, hl, hr, rl, rr) = (
  l,
  r,
  get_elem?-append ns more i (either l r) at,
  hl,
  hr,
  Represents-append ns more d l rl,
  Represents-append ns more e r rr,
)
Represents-append ns more (neg e) i (l, at, hl, rl) =
    (l, get_elem?-append ns more i (negate l) at, hl, Represents-append ns more e l rl)

-- A node without operands does not look at how they evaluate.
atom_alone :
    (ev : ℕ → Bool) (meta : PacketMeta) (f : PacketFields) (n : Node)
    → is_atom n ≡ true
    → eval_kind ev meta f n ≡ eval_kind (λ i. false) meta f n
unfolding eval_kind
atom_alone ev meta f (both l r) a = cc
atom_alone ev meta f (either l r) a = cc
atom_alone ev meta f (negate l) a = cc
atom_alone ev meta f (compare_field field op v) a = refl
atom_alone ev meta f _ a = refl

-- Any fuel above the index is enough.
pub eval-meaning :
    (n : ℕ) (ns : Program) (meta : PacketMeta) (f : PacketFields) (e : Expr) (i : ℕ)
    → Represents ns e i
    → i < n
    → eval_node n ns meta f i ≡ meaning meta f e
unfolding eval_node eval_kind
eval-meaning zero ns meta f e i r h = absurd (omega arith)
eval-meaning (suc n) ns meta f (atom m) i (at, a) h =
    rw at (atom_alone (eval_node n ns meta f) meta f m a)
eval-meaning (suc n) ns meta f (conj d e) i (l, r, at, hl, hr, rl, rr) h =
    let left = eval-meaning n ns meta f d l rl (omega arith) in
    let right = eval-meaning n ns meta f e r rr (omega arith) in rw (at, left, right)
eval-meaning (suc n) ns meta f (disj d e) i (l, r, at, hl, hr, rl, rr) h =
    let left = eval-meaning n ns meta f d l rl (omega arith) in
    let right = eval-meaning n ns meta f e r rr (omega arith) in rw (at, left, right)
eval-meaning (suc n) ns meta f (neg e) i (l, at, hl, rl) h =
    let under = eval-meaning n ns meta f e l rl (omega arith) in rw (at, under)
