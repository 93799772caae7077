-- ===== src/Filter/Superset.antt =====
-- The rules that `filterDeriveIptables` returns capture every packet that the filter matches.
use clumsy.Prelude.{
  ℕ, zero, suc, ◌+◌, ◌≤◌, ◌<◌, ◌≡◌, ◌⊎◌, inl, inr, sym, subst, Bool, true, false, not, ◌||◌, Option,
  none, some, List, [], ◌∷◌, ◌++◌, arith, ltb, ◌==◌, if◌then◌else◌, get_elem?, length,
  length-append, take, Bool-cases,
}
use clumsy.Filter.{Program, either, eval_node, eval_entry, eval_kind, extract_fields, filter_match}
use clumsy.Filter.Derive.{
  Constraints, unconstrained, collect, IptablesRule, rules_of, is_dup, emit_rules, emit_all,
  dedupe_rules, branches_of, or_root, split_or, split_depth, split_branch_limit,
  filter_derive_iptables,
}
use clumsy.Filter.Covers.{Packet, Plain, Admits, FlatNegations}
use clumsy.Filter.Admitted.{collect-Admits}
use clumsy.Filter.Split.{
  Some, Some-append_left, Some-append_right, Some-take, split_or-finds, dedupe-Some,
}
use clumsy.Filter.Captures.{Iptables, Captures, rules_of-Captures, unconstrained-Admits}

length-rules_of : (c : Constraints) (o : Option Bool) → length (rules_of c o) ≤ 2
unfolding rules_of
length-rules_of c none = ground arith
length-rules_of c (some true) = ground arith
length-rules_of c (some false) = ground arith

length-dedupe :
    (uniq rules : List IptablesRule) → length (dedupe_rules uniq rules) ≤ length uniq + length rules
unfolding dedupe_rules
length-dedupe uniq [] = omega arith
length-dedupe uniq (r ∷ rules) = elim (Bool-cases (is_dup r uniq)) [
  | inl dup ↦
      subst
        (λ b.
          length (dedupe_rules (if b then uniq else uniq ++ r ∷ []) rules)
          ≤ length uniq + suc (length rules))
        (sym dup) (ground (arith, length-dedupe uniq rules))
  | inr new ↦
      subst
        (λ b.
          length (dedupe_rules (if b then uniq else uniq ++ r ∷ []) rules)
          ≤ length uniq + suc (length rules))
        (sym new)
        (ground (arith, length-dedupe (uniq ++ r ∷ []) rules, length-append uniq (r ∷ [])))
]

module _ (ipt : Iptables) (p : Packet) (plain : Plain p) where
  -- The packet satisfies the node at an index.
  abbrev Meets : Program → ℕ → Type 0
  Meets prog i = (n : ℕ) × (eval_node n prog p.meta p.fields i ≡ true)

  emit_rules-Captures :
      (prog : Program)
      → FlatNegations prog
      → (i : ℕ) → Meets prog i
      → Some (Captures ipt p) ((emit_rules prog i).0)
  unfolding emit_rules
  emit_rules-Captures prog flat i (n, e) =
      let c : Constraints = collect (suc i) prog i unconstrained false in
      let a : Admits p c =
        collect-Admits p plain n (suc i) prog flat i unconstrained e
          (unconstrained-Admits ipt p plain) in
      rules_of-Captures ipt p plain c c.version6 a.version a

  emit_all-Captures :
      (prog : Program)
      → FlatNegations prog
      → (branches : List ℕ) → Some (Meets prog) branches
      → Some (Captures ipt p) ((emit_all prog branches).0)
  unfolding emit_all
  emit_all-Captures prog flat [] s = elim s [ ]
  emit_all-Captures prog flat (b ∷ branches) (inl m) =
      Some-append_left (Captures ipt p) ((emit_rules prog b).0) ((emit_all prog branches).0)
        (emit_rules-Captures prog flat b m)
  emit_all-Captures prog flat (b ∷ branches) (inr s) =
      Some-append_right (Captures ipt p) ((emit_rules prog b).0) ((emit_all prog branches).0)
        (emit_all-Captures prog flat branches s)

  Meets-either :
      (prog : Program) (i l r : ℕ)
      → get_elem? prog i ≡ some (either l r)
      → Meets prog i
      → Meets prog l ⊎ Meets prog r
  unfolding eval_node eval_kind
  Meets-either prog i l r at (zero, e) = ground arith
  Meets-either prog i l r at (suc n, e) =
      let ev : ℕ → Bool = eval_node n prog p.meta p.fields in
      let e' : (ev l || ev r) ≡ true = subst (λ o. eval_entry ev p.meta p.fields o ≡ true) at e in
      elim (Bool-cases (ev l)) [ inl el ↦ inl (n, el) | inr other ↦ inr (n, ground arith) ]

  Meets-absent : (prog : Program) (i : ℕ) → get_elem? prog i ≡ none → ¬ (Meets prog i)
  unfolding eval_node
  Meets-absent prog i at (zero, e) = ground arith
  Meets-absent prog i at (suc n, e) =
      let ev : ℕ → Bool = eval_node n prog p.meta p.fields in
      let e' : false ≡ true = subst (λ o. eval_entry ev p.meta p.fields o ≡ true) at e in
      ground arith

  or_root-Some : (P : ℕ → Type 0) (root : ℕ) (bs : List ℕ) → Some P bs → Some P (or_root root bs)
  or_root-Some P root [] s = elim s [ ]
  or_root-Some P root (b ∷ bs) s = s

  branches-Meets :
      (prog : Program) (root : ℕ)
      → length (split_or split_depth prog root []) < split_branch_limit
      → Meets prog root
      → Some (Meets prog) (branches_of prog root)
  unfolding branches_of
  branches-Meets prog root few m =
      or_root-Some (Meets prog) root (split_or split_depth prog root []) (
        split_or-finds prog (Meets prog) (Meets-either prog) (Meets-absent prog) split_depth root m
          few)

  abbrev fit : ℕ → List IptablesRule → List IptablesRule → Bool → Bool → List IptablesRule × Bool
  fit max_rules derived whole e e' =
      if max_rules == 0
      then ([], true)
      else if ltb max_rules (length derived)
      then (take max_rules whole, e)
      else (take max_rules derived, e')

  -- The choice between the split rules and those of the whole expression.
  fitted-Captures :
      (max_rules : ℕ) (derived whole : List IptablesRule) (e e' : Bool)
      → 2 ≤ max_rules
      → length whole ≤ 2
      → Some (Captures ipt p) derived
      → Some (Captures ipt p) whole
      → Some (Captures ipt p) ((fit max_rules derived whole e e').0)
  fitted-Captures max_rules derived whole e e' room short s s' = ground (
    arith,
    Some-take (Captures ipt p) max_rules derived,
    Some-take (Captures ipt p) max_rules whole,
  )

  short_whole :
      (prog : Program) (root : ℕ) → length (dedupe_rules [] ((emit_rules prog root).0)) ≤ 2
  unfolding emit_rules
  short_whole prog root =
      let c : Constraints = collect (suc root) prog root unconstrained false in
      ground (arith, length-dedupe [] (rules_of c c.version6), length-rules_of c c.version6)

  -- Given how iptables matches packets: if the filter matches a packet, then one of the rules that
  -- `filterDeriveIptables` returns captures it. This holds of packets that have no IPv6 extension header and
  -- whose ICMP is that of their own IP version, and of programs in which no `not` stands under another, whose
  -- root splits into fewer than 64 branches, with room for at least 2 rules.
  pub filter_derive_iptables-Superset :
      (prog : Program) (root max_rules : ℕ) (packet : List ℕ) (len : ℕ)
      → p.fields ≡ extract_fields packet len
      → FlatNegations prog
      → length (split_or split_depth prog root []) < split_branch_limit
      → 2 ≤ max_rules
      → filter_match prog root p.meta packet len ≡ true
      → Some (Captures ipt p) ((filter_derive_iptables prog root max_rules).0)
  unfolding filter_derive_iptables filter_match
  filter_derive_iptables-Superset prog root max_rules packet len read flat few room matched =
      let m : Meets prog root = (
        suc root,
        subst (λ f. eval_node (suc root) prog p.meta f root ≡ true) (sym read) matched,
      ) in
      fitted-Captures max_rules (dedupe_rules [] ((emit_all prog (branches_of prog root)).0))
        (dedupe_rules [] ((emit_rules prog root).0)) false
        (not ((emit_all prog (branches_of prog root)).1)) room (short_whole prog root)
        (dedupe-Some (Captures ipt p) [] ((emit_all prog (branches_of prog root)).0) (
          inr
            (emit_all-Captures prog flat (branches_of prog root) (branches-Meets prog root few m))))
        (dedupe-Some (Captures ipt p) [] ((emit_rules prog root).0)
          (inr (emit_rules-Captures prog flat root m)))
