-- ===== src/Json/Total.antt =====
-- json.cpp: jsonParse returns on every text, and what it returns is not nested too deep.
use clumsy.Prelude.{
  ℕ, zero, suc, ◌+◌, ◌*◌, ◌≤◌, ◌<◌, ◌≡◌, refl, List, arith, length, max, leb, Bool-cases,
  Option-cases, inl, inr, ◌⊎◌,
}
use clumsy.Json.{Double, JsonValue, array, object, none_left, item, no_more, member}
use clumsy.Json.Strings.{parse_string}
use clumsy.Json.Parser.{
  Result, ok, refused, out_of_fuel, ◌>>=◌, answered, skip_ws, expect, parse_scalar, fuel_for, go_on,
  parse_value, parse_array, array_items, parse_object, object_members, json_parse,
}
use clumsy.Json.Shorter.{
  Ensures, Ensures-bind, Ensures-answered, levels, levels_of_items, levels_of_members,
  length-skip_ws, length-expect, length-parse_string, parse_scalar-Scalar, Scalar, Ensures-map,
}

-- Text was read, and what was read stands at most `limit` levels deep.
abbrev Fits : {A : Type 0} → (A → ℕ) → ℕ → ℕ → List ℕ → A × List ℕ → Type 0
Fits depth_of limit d t (a, rest) = (length rest < length t) × (d + depth_of a ≤ limit)

-- One more entry, of this many levels, in front of a loop over the text that is left.
go_on-Fits :
    {L : Type 0} (levels_of : L → ℕ) (close : ℕ) (loop : List ℕ → Result (L × List ℕ)) (add : L → L)
    (last : L) (d k : ℕ) (t rest : List ℕ)
    → length rest < length t
    → d + k ≤ 32
    → levels_of last ≡ 0
    → ((l : L) → levels_of (add l) ≡ max k (levels_of l))
    → ((more : List ℕ)
        → length more + 1 < length t
        → Ensures (Fits levels_of 32 d more) (loop more))
    → Ensures (Fits levels_of 32 d t) (go_on close loop add last rest)
unfolding go_on
go_on-Fits levels_of close loop add last d k t rest shorter fits flat one loop_fits =
    elim (Option-cases (expect b',' (skip_ws rest))) [
      | inr (more, e) ↦
          let left = length-expect b',' (skip_ws rest) more e in
          rw (e, Ensures)
            (Ensures-bind (Fits levels_of 32 d more) (Fits levels_of 32 d t) (loop more)
              (λ (l, rest'). ok (add l, rest'))
              (loop_fits more (omega (arith, left, length-skip_ws rest)))
              (λ (l, rest') (s, n).
                (omega (arith, s, left, length-skip_ws rest), omega (arith, n, one l))))
      | inl other ↦ elim (Option-cases (expect close (skip_ws rest))) [
        | inr (rest', e) ↦
            rw (other, e, Ensures)
              (
                omega (arith, length-expect close (skip_ws rest) rest' e, length-skip_ws rest),
                omega (arith, one last, flat),
              )
        | inl bad ↦ rw (other, bad, Ensures) tt
      ]
    ]

module _ {Num : Type 0} (double : Double Num) where
  -- What each function does with enough fuel: three units for each character that is left.
  record Enough (f : ℕ) : Type 0 where
    values :
        (d : ℕ) (t : List ℕ)
        → d ≤ 32
        → 3 * length t + 1 ≤ f
        → Ensures (Fits levels 32 d t) (parse_value double f d t)
    arrays :
        (d : ℕ) (t : List ℕ)
        → d ≤ 32
        → 3 * length t + 3 ≤ f
        → Ensures (Fits levels 33 d t) (parse_array double f d t)
    items :
        (d : ℕ) (t : List ℕ)
        → d ≤ 32
        → 3 * length t + 2 ≤ f
        → Ensures (Fits levels_of_items 32 d t) (array_items double f d t)
    objects :
        (d : ℕ) (t : List ℕ)
        → d ≤ 32
        → 3 * length t + 3 ≤ f
        → Ensures (Fits levels 33 d t) (parse_object double f d t)
    members :
        (d : ℕ) (t : List ℕ)
        → d ≤ 32
        → 3 * length t + 2 ≤ f
        → Ensures (Fits levels_of_members 32 d t) (object_members double f d t)

  module _ (f : ℕ) (less : Enough f) where
    parse_array-Fits :
        (d : ℕ) (t : List ℕ)
        → d ≤ 32
        → 3 * length t + 3 ≤ suc f
        → Ensures (Fits levels 33 d t) (parse_array double (suc f) d t)
    unfolding parse_value levels
    parse_array-Fits d t deep h = elim (Option-cases (expect b']' (skip_ws t))) [
      | inl more ↦
          rw (more, Ensures)
            (Ensures-bind (Fits levels_of_items 32 d t) (Fits levels 33 d t)
              (array_items double f d t) (λ (vs, rest). ok (array vs, rest))
              (less.items d t deep (omega arith))
              (λ (vs, rest) (shorter, fits). (shorter, omega (arith, fits))))
      | inr (rest, e) ↦
          rw (e, Ensures)
            (omega (arith, length-expect b']' (skip_ws t) rest e, length-skip_ws t), omega arith)
    ]

    array_items-Fits :
        (d : ℕ) (t : List ℕ)
        → d ≤ 32
        → 3 * length t + 2 ≤ suc f
        → Ensures (Fits levels_of_items 32 d t) (array_items double (suc f) d t)
    unfolding parse_value levels
    array_items-Fits d t deep h =
        Ensures-bind (Fits levels 32 d (skip_ws t)) (Fits levels_of_items 32 d t)
          (parse_value double f d (skip_ws t)) _
          (less.values d (skip_ws t) deep (omega (arith, length-skip_ws t)))
          (λ (v, rest) (s, n).
            go_on-Fits levels_of_items b']' (array_items double f d) (item v) none_left d (levels v)
              t rest (omega (arith, s, length-skip_ws t)) n refl (λ l. refl)
              (λ more m. less.items d more deep (omega (arith, m))))

    parse_object-Fits :
        (d : ℕ) (t : List ℕ)
        → d ≤ 32
        → 3 * length t + 3 ≤ suc f
        → Ensures (Fits levels 33 d t) (parse_object double (suc f) d t)
    unfolding parse_value levels
    parse_object-Fits d t deep h = elim (Option-cases (expect b'}' (skip_ws t))) [
      | inl more ↦
          rw (more, Ensures)
            (Ensures-bind (Fits levels_of_members 32 d t) (Fits levels 33 d t)
              (object_members double f d t) (λ (ms, rest). ok (object ms, rest))
              (less.members d t deep (omega arith))
              (λ (ms, rest) (shorter, fits). (shorter, omega (arith, fits))))
      | inr (rest, e) ↦
          rw (e, Ensures)
            (omega (arith, length-expect b'}' (skip_ws t) rest e, length-skip_ws t), omega arith)
    ]

    object_members-Fits :
        (d : ℕ) (t : List ℕ)
        → d ≤ 32
        → 3 * length t + 2 ≤ suc f
        → Ensures (Fits levels_of_members 32 d t) (object_members double (suc f) d t)
    unfolding parse_value levels
    object_members-Fits d t deep h =
        Ensures-bind (λ (key, behind). length behind < length t) (Fits levels_of_members 32 d t)
          (answered (parse_string (skip_ws t))) _
          (Ensures-answered _ (parse_string (skip_ws t)) (λ (key, behind) e.
            omega (arith, length-parse_string (skip_ws t) key behind e, length-skip_ws t)))
          (λ (key, behind) k.
            Ensures-bind (λ rest0. length rest0 + 1 < length t) (Fits levels_of_members 32 d t)
              (answered (expect b':' (skip_ws behind))) _
              (Ensures-answered _ (expect b':' (skip_ws behind)) (λ rest0 e.
                omega
                  (arith, k, length-expect b':' (skip_ws behind) rest0 e, length-skip_ws behind)))
              (λ rest0 k0.
                Ensures-bind (Fits levels 32 d (skip_ws rest0)) (Fits levels_of_members 32 d t)
                  (parse_value double f d (skip_ws rest0)) _
                  (less.values d (skip_ws rest0) deep (omega (arith, k0, length-skip_ws rest0)))
                  (λ (v, rest) (s, n).
                    go_on-Fits levels_of_members b'}' (object_members double f d) (member key v)
                      no_more d (levels v) t rest (omega (arith, s, k0, length-skip_ws rest0)) n
                      refl (λ l. refl) (λ more m. less.members d more deep (omega (arith, m))))))

    parse_value-Fits :
        (d : ℕ) (t : List ℕ)
        → d ≤ 32
        → 3 * length t + 1 ≤ suc f
        → Ensures (Fits levels 32 d t) (parse_value double (suc f) d t)
    unfolding parse_value
    parse_value-Fits d t deep h = elim (Bool-cases (leb 32 d)) [
      | inl at_limit ↦ rw (at_limit, Ensures) tt
      | inr room ↦ elim (Option-cases (expect b'{' (skip_ws t))) [
        | inr (rest, e) ↦
            let left = length-expect b'{' (skip_ws t) rest e in
            rw (room, e, Ensures)
              (Ensures-map (Fits levels 33 (suc d) rest) (Fits levels 32 d t)
                (parse_object double f (suc d) rest)
                (λ (v, rest') (s, n). (omega (arith, s, left, length-skip_ws t), omega (arith, n)))
                (less.objects (suc d) rest (ground arith) (omega (arith, left, length-skip_ws t))))
        | inl no_object ↦ elim (Option-cases (expect b'[' (skip_ws t))) [
          | inr (rest, e) ↦
              let left = length-expect b'[' (skip_ws t) rest e in
              rw (room, no_object, e, Ensures)
                (Ensures-map (Fits levels 33 (suc d) rest) (Fits levels 32 d t)
                  (parse_array double f (suc d) rest)
                  (λ (v, rest') (s, n).
                    (omega (arith, s, left, length-skip_ws t), omega (arith, n)))
                  (less.arrays (suc d) rest (ground arith) (omega (arith, left, length-skip_ws t))))
          | inl no_array ↦
              rw (room, no_object, no_array, Ensures)
                (Ensures-map (Scalar double (skip_ws t)) (Fits levels 32 d t)
                  (parse_scalar double (skip_ws t))
                  (λ (v, rest) (s, n). (omega (arith, s, length-skip_ws t), omega (arith, n)))
                  (parse_scalar-Scalar double (skip_ws t)))
        ]
      ]
    ]

  enough : (f : ℕ) → Enough f
  enough zero = record {
    values = λ d t deep h. absurd (omega arith);
    arrays = λ d t deep h. absurd (omega arith);
    items = λ d t deep h. absurd (omega arith);
    objects = λ d t deep h. absurd (omega arith);
    members = λ d t deep h. absurd (omega arith);
  }
  enough (suc f) =
      let less = enough f in
      record {
        values = parse_value-Fits f less;
        arrays = parse_array-Fits f less;
        items = array_items-Fits f less;
        objects = parse_object-Fits f less;
        members = object_members-Fits f less;
      }

  -- jsonParse returns on every text: it refuses the text, or returns a value in which at most 32 arrays and
  -- objects stand in one another.
  pub json_parse-total :
      (t : List ℕ)
      → (json_parse double t ≡ refused)
        ⊎ ((v : JsonValue Num) × (json_parse double t ≡ ok v) × (levels v ≤ 32))
  unfolding json_parse fuel_for
  json_parse-total t =
      total_at (parse_value double (fuel_for t) 0 t)
        ((enough (fuel_for t)).values 0 t (omega arith) (omega arith))
    where
      total_at :
          (r : Result (JsonValue Num × List ℕ))
          → Ensures (Fits levels 32 0 t) r
          → ((r >>= λ (v, rest). ok v) ≡ refused)
            ⊎ ((v : JsonValue Num) × ((r >>= λ (v, rest). ok v) ≡ ok v) × (levels v ≤ 32))
      total_at (ok (v, rest)) (s, n) = inr (v, refl, omega (arith, n))
      total_at refused p = inl refl
      total_at out_of_fuel p = elim p [ ]
