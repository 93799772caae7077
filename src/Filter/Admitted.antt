-- ===== src/Filter/Admitted.antt =====
-- The constraints that `collect` reads off an expression admit every packet the expression matches.
use clumsy.Prelude.{
  ℕ, zero, suc, ◌≡◌, refl, Bool, true, false, Option, none, some, arith, get_elem?,
}
use clumsy.Filter.{
  Node, Program, Field, Op, op_eq, op_ne, op_gt, op_lt, op_ge, op_le, always, never, outbound,
  inbound, loopback, ipv4, ipv6, both, either, negate, compare_field, eval_node, eval_entry,
  eval_kind, eval_field,
}
use clumsy.Filter.Derive.{Constraints, widen, collect_compare, collect_kind, collect_entry, collect}
use clumsy.Filter.Covers.{
  negation_free, negation_free_kind, FlatNegations, Packet, Plain, Admits, collect_equal-Admits,
}

module _ (p : Packet) (plain : Plain p) where
  widen-Admits : (c : Constraints) → Admits p c → Admits p (widen c)
  widen-Admits c a = ground arith

  collect_compare-negated :
      (field : Field) (op : Op) (v : ℕ) (c : Constraints)
      → Admits p c
      → Admits p (collect_compare field op v c true)
  collect_compare-negated field op_eq v c a = widen-Admits c a
  collect_compare-negated field op_ne v c a = widen-Admits c a
  collect_compare-negated field op_gt v c a = widen-Admits c a
  collect_compare-negated field op_lt v c a = widen-Admits c a
  collect_compare-negated field op_ge v c a = widen-Admits c a
  collect_compare-negated field op_le v c a = widen-Admits c a

  -- What `collect` under a `not` keeps, for a `not`-free operand.
  abbrev Keeps : (ℕ → Constraints → Bool → Constraints) → (ℕ → Bool) → Type 0
  Keeps go free = (i : ℕ) (c : Constraints) → free i ≡ true → Admits p c → Admits p (go i c true)

  entry-negated :
      (go : ℕ → Constraints → Bool → Constraints) (free : ℕ → Bool)
      → Keeps go free
      → (o : Option Node) (c : Constraints) → negation_free_kind free o ≡ true
      → Admits p c
      → Admits p (collect_entry go o c true)
  unfolding collect_kind
  entry-negated go free keeps none c e a = a
  entry-negated go free keeps (some (both l r)) c e a =
      keeps r (go l c true) (ground arith) (keeps l c (ground arith) a)
  entry-negated go free keeps (some (negate l)) c e a = ground arith
  entry-negated go free keeps (some (either l r)) c e a = widen-Admits c a
  entry-negated go free keeps (some always) c e a = a
  entry-negated go free keeps (some never) c e a = widen-Admits c a
  entry-negated go free keeps (some outbound) c e a = a
  entry-negated go free keeps (some inbound) c e a = a
  entry-negated go free keeps (some loopback) c e a = widen-Admits c a
  entry-negated go free keeps (some ipv4) c e a = a
  entry-negated go free keeps (some ipv6) c e a = a
  entry-negated go free keeps (some (compare_field field op v)) c e a =
      collect_compare-negated field op v c a

  collect-negated : (n k : ℕ) (prog : Program) → Keeps (collect n prog) (negation_free k prog)
  unfolding collect negation_free
  collect-negated zero k prog i c e a = a
  collect-negated (suc n) zero prog i c e a = ground arith
  collect-negated (suc n) (suc k) prog i c e a =
      entry-negated (collect n prog) (negation_free k prog) (collect-negated n k prog)
        (get_elem? prog i) c e a

  collect_compare-Admits :
      (field : Field) (op : Op) (v : ℕ) (c : Constraints)
      → p.fields.valid ≡ true
      → eval_field p.fields field op v ≡ true
      → Admits p c
      → Admits p (collect_compare field op v c false)
  collect_compare-Admits field op_eq v c valid e a =
      collect_equal-Admits p plain field v c valid e a
  collect_compare-Admits field op_ne v c valid e a = widen-Admits c a
  collect_compare-Admits field op_gt v c valid e a = widen-Admits c a
  collect_compare-Admits field op_lt v c valid e a = widen-Admits c a
  collect_compare-Admits field op_ge v c valid e a = widen-Admits c a
  collect_compare-Admits field op_le v c valid e a = widen-Admits c a

  -- One node, given what holds of the operands below it.
  entry-Admits :
      (go : ℕ → Constraints → Bool → Constraints) (ev : ℕ → Bool)
      → ((i : ℕ) (c : Constraints) → ev i ≡ true → Admits p c → Admits p (go i c false))
      → (o : Option Node)
      → ((l : ℕ) (c : Constraints) → o ≡ some (negate l) → Admits p c → Admits p (go l c true))
      → (c : Constraints) → eval_entry ev p.meta p.fields o ≡ true
      → Admits p c
      → Admits p (collect_entry go o c false)
  unfolding collect_kind eval_kind
  entry-Admits go ev keeps none under c e a = ground arith
  entry-Admits go ev keeps (some (both l r)) under c e a =
      keeps r (go l c false) (ground arith) (keeps l c (ground arith) a)
  entry-Admits go ev keeps (some (negate l)) under c e a = under l (widen c) refl (widen-Admits c a)
  entry-Admits go ev keeps (some (either l r)) under c e a = widen-Admits c a
  entry-Admits go ev keeps (some always) under c e a = a
  entry-Admits go ev keeps (some never) under c e a = ground arith
  entry-Admits go ev keeps (some outbound) under c e a = ground arith
  entry-Admits go ev keeps (some inbound) under c e a = ground arith
  entry-Admits go ev keeps (some loopback) under c e a = widen-Admits c a
  entry-Admits go ev keeps (some ipv4) under c e a = ground (arith, p.version_read)
  entry-Admits go ev keeps (some ipv6) under c e a = ground (arith, p.version_read)
  entry-Admits go ev keeps (some (compare_field field op v)) under c e a =
      collect_compare-Admits field op v c (ground arith) (ground arith) a

  -- In an expression without a `not` under a `not`, the constraints of a node that a packet
  -- satisfies admit the packet.
  pub collect-Admits :
      (n m : ℕ) (prog : Program)
      → FlatNegations prog
      → (i : ℕ) (c : Constraints) → eval_node n prog p.meta p.fields i ≡ true
      → Admits p c
      → Admits p (collect m prog i c false)
  unfolding collect eval_node
  collect-Admits n zero prog flat i c e a = a
  collect-Admits zero (suc m) prog flat i c e a = ground arith
  collect-Admits (suc n) (suc m) prog flat i c e a =
      entry-Admits (collect m prog) (eval_node n prog p.meta p.fields)
        (collect-Admits n m prog flat) (get_elem? prog i)
        (λ l c' at a'. collect-negated m ((flat i l at).0) prog l c' ((flat i l at).1) a') c e a
