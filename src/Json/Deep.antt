-- ===== src/Json/Deep.antt =====
-- json.cpp: the limit on the nesting.
use clumsy.Prelude.{
  ℕ, zero, suc, ◌+◌, ◌*◌, ◌≤◌, ◌≡◌, List, ◌++◌, arith, length, length-append, length-replicate,
  replicate, leb, Bool-cases, inl, inr, true,
}
use clumsy.Json.{Double}
use clumsy.Json.Parser.{refused, fuel_for, skip_ws, expect, parse_value, json_parse}

module _ {Num : Type 0} (double : Double Num) where
  parse_value-brackets :
      (m f d : ℕ) (rest : List ℕ)
      → 32 ≤ d + m
      → parse_value double (suc (3 * m + f)) d (replicate (suc m) b'[' ++ rest) ≡ refused
  unfolding parse_value skip_ws expect
  parse_value-brackets zero f d rest h =
      let at_limit : leb 32 d ≡ true = ground arith in rw (at_limit, parse_value)
  parse_value-brackets (suc m) f d rest h = elim (Bool-cases (leb 32 d)) [
    | inl at_limit ↦ rw (at_limit, parse_value)
    | inr room ↦
        let fuel : 3 * suc m + f ≡ suc (suc (suc (3 * m + f))) = omega arith in
        rw fuel (rw (room, parse_value) (rw (parse_value-brackets m f (suc d) rest (omega arith))))
  ]

  -- A text that opens more than 32 arrays is refused, whatever follows.
  pub json_parse-brackets :
      (k : ℕ) (rest : List ℕ) → json_parse double (replicate (33 + k) b'[' ++ rest) ≡ refused
  unfolding json_parse fuel_for
  json_parse-brackets k rest =
      let left : ℕ = b'[' in
      let n : 33 + k ≡ suc (32 + k) = omega arith in
      let fuel : fuel_for (replicate (33 + k) left ++ rest)
          ≡ suc (3 * (32 + k) + (3 * length rest + 3)) =
        omega
          (arith, length-append (replicate (33 + k) left) rest, length-replicate (33 + k) left) in
      rw fuel (rw n (rw (parse_value-brackets (32 + k) (3 * length rest + 3) 0 rest (omega arith))))
