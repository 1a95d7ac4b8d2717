-- ===== src/Tracker/Counters.antt =====
-- The invariant of the counters.
use crapssim_control.Prelude.{
  ℕ, ◌+◌, ◌≤◌, ◌≡◌, ◌≢◌, refl, ◌∙◌, Bool, true, false, Option, none, List, [], ◌∷◌, ◌++◌, arith,
  ◌==◌, length, length-append, if◌then◌else◌,
}
use crapssim_control.Prelude.Int.{ℤ, pos}
use crapssim_control.Prelude.Dict.{ℕ_Eq, total, total-increment}
use crapssim_control.Tracker.{
  Tracker, Event, roll_event, point_established, point_made, seven_out, bankroll_delta, init,
  on_roll, on_point_established, on_point_made, on_seven_out, on_bankroll_delta, move_bankroll,
  extra_metrics, step, run,
}

pub record HasCounts (t : Tracker) : Type 0 where
  -- With the point off nothing is counted since the point.
  pub off :
      t.point.point ≡ 0 → (t.roll.rolls_since_point ≡ 0) × (t.bankroll.pnl_since_point ≡ pos 0)
  -- The rolls since the point are those in the buckets, each inside, outside or neither.
  pub bucketed : total t.since_point.hits ≡ t.roll.rolls_since_point
  pub sided : t.since_point.inside_hits + t.since_point.outside_hits ≤ t.roll.rolls_since_point
  -- A comeout roll is a natural, craps or neither; no roll is counted twice.
  pub comeouts : t.roll.comeout_naturals + t.roll.comeout_craps ≤ t.roll.comeout_rolls
  pub rolls : t.roll.comeout_rolls + t.roll.rolls_since_point ≤ total t.hits
  pub shooter : t.roll.shooter_rolls ≤ total t.hits
  -- Each seven-out ends a hand, and at most each is a point-seven-out.
  pub hands : t.session.hands ≡ t.session.seven_outs
  pub psos : t.session.pso ≤ t.session.seven_outs
  pub logged : t.bankroll_extras_enabled ≡ true → length t.pnl_log ≡ t.session.seven_outs

init-HasCounts : (enabled extras : Bool) → HasCounts (init enabled extras)
unfolding init
init-HasCounts enabled extras = ground arith

on_roll-HasCounts :
    (n : ℕ) (given : Option Bool) (t : Tracker) → HasCounts t → HasCounts (on_roll n given t)
unfolding on_roll
on_roll-HasCounts n given t h =
    ground (arith, total-increment n t.hits, total-increment n t.since_point.hits)

on_point_established-HasCounts :
    (p : ℕ) (t : Tracker) → HasCounts t → HasCounts (on_point_established p t)
unfolding on_point_established
on_point_established-HasCounts p t h = ground arith

on_point_made-HasCounts : (t : Tracker) → HasCounts t → HasCounts (on_point_made t)
unfolding on_point_made
on_point_made-HasCounts t h = ground arith

on_seven_out-HasCounts : (t : Tracker) → HasCounts t → HasCounts (on_seven_out t)
unfolding on_seven_out
on_seven_out-HasCounts t h = ground (arith, length-append t.pnl_log (t.current_hand_pnl ∷ []))

on_bankroll_delta-HasCounts :
    (d : ℤ) (t : Tracker) → HasCounts t → HasCounts (on_bankroll_delta d t)
unfolding on_bankroll_delta move_bankroll extra_metrics
on_bankroll_delta-HasCounts d t h = ground arith

pub step-HasCounts : (e : Event) (t : Tracker) → HasCounts t → HasCounts (step e t)
unfolding step
step-HasCounts (roll_event n given) t h = on_roll-HasCounts n given t h
step-HasCounts (point_established p) t h = on_point_established-HasCounts p t h
step-HasCounts point_made t h = on_point_made-HasCounts t h
step-HasCounts seven_out t h = on_seven_out-HasCounts t h
step-HasCounts (bankroll_delta d) t h = on_bankroll_delta-HasCounts d t h

run_keeps-HasCounts : (es : List Event) (t : Tracker) → HasCounts t → HasCounts (run es t)
unfolding run
run_keeps-HasCounts [] t h = h
run_keeps-HasCounts (e ∷ es) t h = run_keeps-HasCounts es (step e t) (step-HasCounts e t h)

-- After any events the counters of a new tracker agree: nothing is counted since a point that is
-- off, the buckets add up, no roll is counted twice, every seven-out ends one hand and is at most one
-- point-seven-out, and with the extras on there is one log entry for each.
pub run-HasCounts :
    (enabled extras : Bool) (es : List Event) → HasCounts (run es (init enabled extras))
run-HasCounts enabled extras es =
    run_keeps-HasCounts es (init enabled extras) (init-HasCounts enabled extras)

step_disabled : (e : Event) (t : Tracker) → t.enabled ≡ false → step e t ≡ t
unfolding step on_roll on_point_established on_point_made on_seven_out on_bankroll_delta
step_disabled (roll_event n given) t h = rw h
step_disabled (point_established p) t h = rw h
step_disabled point_made t h = rw h
step_disabled seven_out t h = rw h
step_disabled (bankroll_delta d) t h = rw h

-- Any events leave a tracker that is not enabled as it is.
pub run_disabled : (es : List Event) (t : Tracker) → t.enabled ≡ false → run es t ≡ t
unfolding run
run_disabled [] t h = refl
run_disabled (e ∷ es) t h = rw (step_disabled e t h) (run_disabled es t h)

abbrev pub rolls : List ℕ → List Event
rolls [] = []
rolls (n ∷ ns) = roll_event n none ∷ rolls ns

run-append : (es fs : List Event) (t : Tracker) → run (es ++ fs) t ≡ run fs (run es t)
unfolding run
run-append [] fs t = refl
run-append (e ∷ es) fs t = run-append es fs (step e t)

roll_counts :
    (n : ℕ) (t : Tracker)
    → t.enabled ≡ true
    → t.point.point ≢ 0
    → let u = on_roll n none t in
      (u.enabled ≡ true)
      × (u.point ≡ t.point)
      × (u.session ≡ t.session)
      × (u.roll.rolls_since_point ≡ t.roll.rolls_since_point + 1)
unfolding on_roll
roll_counts n t h p = ground arith

-- What the rolls of a hand do to the counters that decide a point-seven-out.
rolls_count :
    (ns : List ℕ) (t : Tracker)
    → t.enabled ≡ true
    → t.point.point ≢ 0
    → let u = run (rolls ns) t in
      (u.enabled ≡ true)
      × (u.session ≡ t.session)
      × (u.roll.rolls_since_point ≡ t.roll.rolls_since_point + length ns)
unfolding run step
rolls_count [] t h p = (h, refl, omega arith)
rolls_count (n ∷ ns) t h p =
    let now = roll_counts n t h p in
    let rest = rolls_count ns (on_roll n none t) now.0 (rw now.1 p) in
    (rest.0, rest.1 ∙ now.2, omega (arith, rest.2, now.3))

-- On an enabled tracker, a seven-out after a point other than 0 and some rolls, told without `is_comeout`, is counted as a
-- point-seven-out exactly if the rolls since the point are one; it is counted as a seven-out in any
-- case, and turns the point off.
pub pso_exact :
    (p : ℕ) (ns : List ℕ) (t : Tracker)
    → t.enabled ≡ true
    → p ≢ 0
    → let u = run (point_established p ∷ rolls ns ++ seven_out ∷ []) t in
      (u.session.pso ≡ t.session.pso + (if length ns == 1 then 1 else 0))
      × (u.session.seven_outs ≡ t.session.seven_outs + 1)
      × (u.point.point ≡ 0)
unfolding run step on_point_established on_seven_out
pso_exact p ns t h q =
    let start = on_point_established p t in
    let counts = rolls_count ns start (ground arith) (ground arith) in
    rw run-append (ground (arith, counts))
