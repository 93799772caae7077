-- ===== src/Drop.antt =====
-- drop.cpp: every packet of the handled directions is dropped with a set chance.
use text.Mathlib.Text.{◌==◌ as str_eq}
use Prim.Native.String.{String}
use clumsy.Prelude.{
  ℕ, ◌≤◌, ◌≡◌, refl, Bool, true, false, List, [], ◌∷◌, reverse, reverse_aux, reverse-reverse, arith,
  ltb, if◌then◌else◌, select, reject,
}
use clumsy.Packet.{PacketNode, World, Outcome, check_direction, calc_chance, calc_chance-freed}
use clumsy.Packet.Sweep.{
  Sweep, begin, pass, discard, Visit, Swept, Swept-nil, Swept-pass, Parted, Parted-sweep,
  Visit-roll,
}
use clumsy.Utils.{Libc, parse_bool_value, short_in, clamp_short_range}

pub record Drop : Type 0 where
  pub enabled : Bool
  pub inbound : Bool
  pub outbound : Bool
  pub chance : ℕ
  pub affected : ℕ

unfoldable pub matches : Drop → PacketNode → Bool
matches d pac = check_direction pac.meta.outbound d.inbound d.outbound

abbrev pub Handled : Drop → PacketNode → Type 0
Handled d pac = matches d pac ≡ true

-- The body of the `while` loop.
visit : (ℕ → ℕ) → Drop → Sweep → PacketNode → Sweep
visit rand d s pac =
    if matches d pac
    then (let (hit, w) = calc_chance rand d.chance s.world in
        if hit then discard s w pac else pass s w pac)
    else pass s s.world pac

sweep : (ℕ → ℕ) → Drop → Sweep → List PacketNode → Sweep
unfolding visit
sweep rand d s [] = s
sweep rand d s (pac ∷ rest) = sweep rand d (visit rand d s pac) rest

unfoldable pub process : (ℕ → ℕ) → Drop → List PacketNode → World → Outcome Drop
unfolding sweep
process rand d queue w =
    let s = sweep rand d (begin w d.affected) queue in
    record {
      queue = reverse s.passed;
      triggered = ltb 0 s.dropped;
      state = record d { affected = s.affected };
      world = s.world;
    }

unfoldable pub set_param : Libc → Drop → String → String → Bool × Drop
unfolding parse_bool_value short_in
set_param c d key value =
    if str_eq key "drop-chance"
    then (true, record d { chance = short_in 0 10000 (c.percent value) })
    else if str_eq key "drop-inbound"
    then (true, record d { inbound = parse_bool_value value })
    else if str_eq key "drop-outbound"
    then (true, record d { outbound = parse_bool_value value })
    else (false, d)

visit-Visit :
    (rand : ℕ → ℕ) (d : Drop) (s : Sweep) (pac : PacketNode)
    → Visit (Handled d) s pac (visit rand d s pac)
unfolding visit
visit-Visit rand d s pac =
    Visit-roll (Handled d) (matches d pac) (calc_chance rand d.chance s.world).0
      (calc_chance rand d.chance s.world).1 s pac (calc_chance-freed rand d.chance s.world) (λ e. e)

sweep-Swept :
    (rand : ℕ → ℕ) (d : Drop) (s : Sweep) (xs : List PacketNode)
    → Swept (Handled d) s xs (sweep rand d s xs)
unfolding sweep
sweep-Swept rand d s [] = Swept-nil (Handled d) s
sweep-Swept rand d s (x ∷ xs) =
    Swept-pass (Handled d) s x xs (visit rand d s x) (sweep rand d (visit rand d s x) xs)
      (visit-Visit rand d s x) (sweep-Swept rand d (visit rand d s x) xs)

-- Whatever `rand()` returns, a call of `dropProcess` parts the packet list in two, keeping the order:
-- the packets left in the list, and the lost ones, all of a handled direction. The lost ones and no
-- others are freed, once each; the counter grows by their number, modulo 2^32; and the call reports
-- that it triggered exactly where some packet was lost.
pub drop_process-Parted :
    (rand : ℕ → ℕ) (d : Drop) (queue : List PacketNode) (w : World)
    → let r = process rand d queue w in
      Parted (Handled d) queue w d.affected r.triggered r.queue r.world r.state.affected
unfolding process
drop_process-Parted rand d queue w =
    Parted-sweep (Handled d) queue w d.affected (sweep rand d (begin w d.affected) queue)
      (sweep-Swept rand d (begin w d.affected) queue)

-- With chance 0 a visit passes, and with chance 10000 it discards what it handles.
sweep_never :
    (rand : ℕ → ℕ) (d : Drop) (s : Sweep) (xs : List PacketNode)
    → d.chance ≡ 0
    → ((sweep rand d s xs).passed ≡ reverse_aux xs s.passed)
      × ((sweep rand d s xs).world.freed ≡ s.world.freed)
unfolding sweep visit calc_chance
sweep_never rand d s [] e = (refl, refl)
sweep_never rand d s (x ∷ xs) e = ground (arith, sweep_never rand d (visit rand d s x) xs e)

sweep_always :
    (rand : ℕ → ℕ) (d : Drop) (s : Sweep) (xs : List PacketNode)
    → d.chance ≡ 10000
    → ((sweep rand d s xs).passed ≡ reverse_aux (reject (matches d) xs) s.passed)
      × ((sweep rand d s xs).world.freed ≡ reverse_aux (select (matches d) xs) s.world.freed)
      × ((sweep rand d s xs).world.draws ≡ s.world.draws)
unfolding sweep visit calc_chance
sweep_always rand d s [] e = (refl, refl, refl)
sweep_always rand d s (x ∷ xs) e = ground (arith, sweep_always rand d (visit rand d s x) xs e)

-- With chance 0 `dropProcess` leaves the packet list as it is and frees nothing.
pub process_never :
    (rand : ℕ → ℕ) (d : Drop) (queue : List PacketNode) (w : World)
    → d.chance ≡ 0
    → let r = process rand d queue w in (r.queue ≡ queue) × (r.world.freed ≡ w.freed)
unfolding process
process_never rand d queue w e =
    let (p, f) = sweep_never rand d (begin w d.affected) queue e in
    (rw p (reverse-reverse queue), f)

-- With chance 10000 `dropProcess` leaves exactly the packets of the directions that are not handled, in
-- order, frees the others, oldest list entry first, and calls `rand()` not once.
process_always :
    (rand : ℕ → ℕ) (d : Drop) (queue : List PacketNode) (w : World)
    → d.chance ≡ 10000
    → let r = process rand d queue w in
      (r.queue ≡ reject (matches d) queue)
      × (r.world.freed ≡ reverse_aux (select (matches d) queue) w.freed)
      × (r.world.draws ≡ w.draws)
unfolding process
process_always rand d queue w e =
    let (p, f, n) = sweep_always rand d (begin w d.affected) queue e in
    (rw p (reverse-reverse (reject (matches d) queue)), f, n)

-- Whatever key and text `setParam` gets, a chance of at most 10000 stays one of at most 10000.
pub drop_set_param_range :
    (c : Libc) (d : Drop) (key value : String)
    → d.chance ≤ 10000
    → (set_param c d key value).1.chance ≤ 10000
unfolding set_param
drop_set_param_range c d key value h =
    ground (arith, clamp_short_range (c.percent value) 0 10000 (omega arith) (omega arith))
