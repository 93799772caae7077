-- ===== src/Filter/Gaps.antt =====
-- Two filters for which the derived rules of filterexpr.cpp break their contract: one whose rules
-- miss packets, and one whose rules are wider than they are said to be.
use clumsy.Prelude.{
  ℕ, suc, ◌≡◌, ◌≢◌, inl, inr, refl, Bool, true, false, List, [], ◌∷◌, ◌++◌, arith, zero, take, ap,
  sym, Bool-cases, if◌then◌else◌,
}
use clumsy.Filter.{
  Program, outbound, negate, both, compare_field, ip_proto, op_eq, extract_fields, filter_match,
}
use clumsy.Filter.Derive.{
  output_only, output_and_input, IptablesRule, filter_derive_iptables, emit_rules, emit_all,
  rules_of, collect, collect_kind, branches_of, split_or, dedupe_rules, is_dup, build_match,
}
use clumsy.Filter.Covers.{Packet}
use clumsy.Filter.Captures.{Iptables, Captures}
use clumsy.Filter.Split.{Some}

-- `not (ip.Protocol == n and not outbound)`, as the parser compiles it; the root is node 4.
abbrev pub nested : ℕ → Program
nested n = compare_field ip_proto op_eq n ∷ outbound ∷ negate 1 ∷ both 0 2 ∷ negate 3 ∷ []

nested-match :
    (n : ℕ) (p : Packet) (packet : List ℕ) (len : ℕ)
    → p.fields ≡ extract_fields packet len
    → p.meta.outbound ≡ false
    → p.fields.protocol ≢ n
    → filter_match (nested n) 4 p.meta packet len ≡ true
unfolding filter_match
nested-match n p packet len e o h = rw (← e) (ground arith)

abbrev Every : (IptablesRule → Type 0) → List IptablesRule → Type 0
Every Q [] = Unit {0}
Every Q (r ∷ rs) = Q r × Every Q rs

module _ (Q : IptablesRule → Type 0) where
  Every-append : (rs us : List IptablesRule) → Every Q rs → Every Q us → Every Q (rs ++ us)
  Every-append [] us e f = f
  Every-append (r ∷ rs) us e f = (e.0, Every-append rs us e.1 f)

  Every-take : (n : ℕ) (rs : List IptablesRule) → Every Q rs → Every Q (take n rs)
  Every-take zero rs e = tt
  Every-take (suc n) [] e = tt
  Every-take (suc n) (r ∷ rs) e = (e.0, Every-take n rs e.1)

  Every-kept :
      (dup : Bool) (r : IptablesRule) (uniq : List IptablesRule)
      → Every Q uniq
      → Q r
      → Every Q (if dup then uniq else uniq ++ r ∷ [])
  Every-kept true r uniq e q = e
  Every-kept false r uniq e q = Every-append uniq (r ∷ []) e (q, tt)

  dedupe_rules-Every :
      (uniq rules : List IptablesRule)
      → Every Q uniq
      → Every Q rules
      → Every Q (dedupe_rules uniq rules)
  unfolding dedupe_rules
  dedupe_rules-Every uniq [] e f = e
  dedupe_rules-Every uniq (r ∷ rules) e f =
      dedupe_rules-Every (if is_dup r uniq then uniq else uniq ++ r ∷ []) rules
        (Every-kept (is_dup r uniq) r uniq e f.0) f.1

  -- What holds of the rules of each branch and of the whole holds of the rules returned.
  derived-Every :
      (prog : Program) (root max_rules : ℕ)
      → Every Q ((emit_all prog (branches_of prog root)).0)
      → Every Q ((emit_rules prog root).0)
      → Every Q ((filter_derive_iptables prog root max_rules).0)
  unfolding filter_derive_iptables
  derived-Every prog root max_rules e f =
      let derived = dedupe_rules [] ((emit_all prog (branches_of prog root)).0) in
      let whole = dedupe_rules [] ((emit_rules prog root).0) in
      ground (
        arith,
        Every-take max_rules derived
            (dedupe_rules-Every [] ((emit_all prog (branches_of prog root)).0) tt e),
        Every-take max_rules whole (dedupe_rules-Every [] ((emit_rules prog root).0) tt f),
      )

abbrev OutputOnly : IptablesRule → Type 0
OutputOnly r = r.chains ≡ output_only

nested_rules :
    (n : ℕ)
    → Every OutputOnly ((emit_all (nested n) (branches_of (nested n) 4)).0)
      × Every OutputOnly ((emit_rules (nested n) 4).0)
unfolding emit_all emit_rules branches_of split_or collect collect_kind rules_of
nested_rules n = ((refl, (refl, tt)), (refl, (refl, tt)))

not-captured :
    (ipt : Iptables) (p : Packet) (rs : List IptablesRule)
    → p.meta.outbound ≡ false
    → Every OutputOnly rs
    → ¬ (Some (Captures ipt p) rs)
not-captured ipt p [] o e s = elim s [ ]
not-captured ipt p (r ∷ rs) o e (inl s) = ground (arith, s.0, e.0)
not-captured ipt p (r ∷ rs) o e (inr s) = not-captured ipt p rs o e.1 s

-- The derived rules may miss packets that the filter matches: for
-- `not (ip.Protocol == n and not outbound)`, every inbound packet of another protocol matches the
-- filter, and none of the rules that `filterDeriveIptables` returns captures it, however many are asked for.
pub nested_missed :
    (ipt : Iptables) (p : Packet) (n max_rules : ℕ) (packet : List ℕ) (len : ℕ)
    → p.fields ≡ extract_fields packet len
    → p.meta.outbound ≡ false
    → p.fields.protocol ≢ n
    → (filter_match (nested n) 4 p.meta packet len ≡ true)
      × (¬ (Some (Captures ipt p) ((filter_derive_iptables (nested n) 4 max_rules).0)))
nested_missed ipt p n max_rules packet len e o h = (
  nested-match n p packet len e o h,
  not-captured ipt p ((filter_derive_iptables (nested n) 4 max_rules).0) o
      (derived-Every OutputOnly (nested n) 4 max_rules (nested_rules n).0 (nested_rules n).1),
)

-- `ip.Protocol == 0`.
abbrev pub wildcard : Program
wildcard = compare_field ip_proto op_eq 0 ∷ []

abbrev catch_all : Bool → IptablesRule
catch_all v6 = record { chains = output_and_input; match_args = []; ipv6 = v6 }

wildcard_rules :
    (filter_derive_iptables wildcard 0 8) ≡ (catch_all false ∷ catch_all true ∷ [], true)
unfolding filter_derive_iptables emit_all emit_rules branches_of split_or collect collect_kind
    rules_of dedupe_rules is_dup build_match
wildcard_rules = ground arith

wildcard-match :
    (p : Packet) (packet : List ℕ) (len : ℕ)
    → p.fields ≡ extract_fields packet len
    → p.fields.protocol ≢ 0
    → filter_match wildcard 0 p.meta packet len ≡ false
unfolding filter_match
wildcard-match p packet len e h = rw (← e) (ground arith)

-- The derived rules may be wider than the filter and yet be reported as exact: for `ip.Protocol == 0`,
-- `filterDeriveIptables` with room for 8 rules reports exact ones, and one of them captures every packet,
-- while the filter matches no packet of another protocol than 0.
pub wildcard_inexact :
    (ipt : Iptables) (p : Packet) (packet : List ℕ) (len : ℕ)
    → p.fields ≡ extract_fields packet len
    → p.fields.protocol ≢ 0
    → ((filter_derive_iptables wildcard 0 8).1 ≡ true)
      × Some (Captures ipt p) ((filter_derive_iptables wildcard 0 8).0)
      × (filter_match wildcard 0 p.meta packet len ≡ false)
wildcard_inexact ipt p packet len e h = (
  ap (λ (r : List IptablesRule × Bool). r.1) wildcard_rules,
  rw wildcard_rules (elim (Bool-cases p.v6) [
    | inl six ↦ inr (inl (refl, sym six, refl))
    | inr four ↦ inl (refl, sym four, refl)
  ]),
  wildcard-match p packet len e h,
)
