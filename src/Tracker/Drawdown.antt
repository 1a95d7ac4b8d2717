-- ===== src/Tracker/Drawdown.antt =====
-- The bankroll metrics of the tracker are those of the list of deltas.
use crapssim_control.Prelude.{
  ◌≡◌, refl, ap, sym, ◌∙◌, true, not, Option, none, some, List, [], ◌∷◌, arith, default_to, ◌==◌,
  Option-cases, inl, inr,
}
use crapssim_control.Prelude.Int.{ℤ, pos, ◌+ℤ◌, ◌-ℤ◌, ◌≤ℤ◌, max_ℤ, int_laws, order_laws}
use crapssim_control.Tracker.{
  BankrollState, Tracker, Event, roll_event, point_established, point_made, seven_out,
  bankroll_delta, init, on_roll, on_point_established, on_point_made, on_seven_out,
  on_bankroll_delta, step, run, move_bankroll, extra_metrics, Snapshot, snapshot,
}
use crapssim_control.Tracker.Reference.{
  sum_ℤ, highest, deepest_fall, Position, shift, shifts, bankroll-shifts, peak-shifts,
  deepest-shifts, highest_nonneg, fall_covers, lowest_le,
}

-- The deltas among the events.
abbrev pub deltas : List Event → List ℤ
deltas [] = []
deltas (bankroll_delta d ∷ es) = d ∷ deltas es
deltas (_ ∷ es) = deltas es

abbrev position : Tracker → Position
position t = record {
  bankroll = t.bankroll.bankroll;
  peak = t.bankroll.bankroll_peak;
  deepest = default_to (pos 0) t.bankroll.max_drawdown;
}

max_ℤ-nonneg : (a b : ℤ) → b ≤ℤ a → max_ℤ (pos 0) (a -ℤ b) ≡ a -ℤ b
max_ℤ-nonneg a b h = omega order_laws

above_zero : (a : ℤ) → pos 0 ≤ℤ a → max_ℤ (pos 0) a ≡ a
above_zero a h = omega order_laws

covers : (a b : ℤ) → b ≤ℤ max_ℤ a b
covers a b = omega order_laws

abbrev moved : ℤ → Tracker → BankrollState
moved d t = move_bankroll d (not (t.point.point == 0)) t.bankroll

peak-moved :
    (d : ℤ) (t : Tracker)
    → (moved d t).bankroll_peak ≡ max_ℤ t.bankroll.bankroll_peak (t.bankroll.bankroll +ℤ d)
unfolding move_bankroll max_ℤ
peak-moved d t = refl

bankroll-moved : (d : ℤ) (t : Tracker) → (moved d t).bankroll ≡ t.bankroll.bankroll +ℤ d
unfolding move_bankroll
bankroll-moved d t = refl

deepest-moved : (d : ℤ) (t : Tracker) → (moved d t).max_drawdown ≡ t.bankroll.max_drawdown
unfolding move_bankroll
deepest-moved d t = refl

drawdown-moved :
    (d : ℤ) (t : Tracker)
    → let b = t.bankroll.bankroll +ℤ d in
      (moved d t).drawdown ≡ max_ℤ t.bankroll.bankroll_peak b -ℤ b
unfolding move_bankroll max_ℤ
drawdown-moved d t =
    let b = t.bankroll.bankroll +ℤ d in
    max_ℤ-nonneg (max_ℤ t.bankroll.bankroll_peak b) b (covers t.bankroll.bankroll_peak b)

-- The deepest drawdown so far, 0 before the first.
deepest_extra :
    (b : BankrollState)
    → pos 0 ≤ℤ b.drawdown
    → default_to (pos 0) (extra_metrics b).max_drawdown
      ≡ max_ℤ (default_to (pos 0) b.max_drawdown) b.drawdown
unfolding extra_metrics
deepest_extra b h = elim (Option-cases b.max_drawdown) [
  | inl e ↦ simp (e, above_zero b.drawdown h)
  | inr (m, e) ↦ simp e
]

falls_nonneg : (a b : ℤ) → pos 0 ≤ℤ max_ℤ a b -ℤ b
falls_nonneg a b = omega order_laws

Position-eq :
    {p q : Position} → p.bankroll ≡ q.bankroll → p.peak ≡ q.peak → p.deepest ≡ q.deepest → p ≡ q
Position-eq x y z i = record { bankroll = x i; peak = y i; deepest = z i }

position-delta :
    (d : ℤ) (t : Tracker)
    → t.enabled ≡ true
    → t.bankroll_extras_enabled ≡ true
    → position (on_bankroll_delta d t) ≡ shift d (position t)
unfolding on_bankroll_delta shift extra_metrics move_bankroll max_ℤ
position-delta d t on extras =
    let b = t.bankroll.bankroll +ℤ d in
    let falls : pos 0 ≤ℤ (moved d t).drawdown =
      rw (drawdown-moved d t) (falls_nonneg t.bankroll.bankroll_peak b) in
    rw (on, extras)
      (Position-eq refl refl (
        deepest_extra (moved d t) falls
        ∙ ap (max_ℤ (default_to (pos 0) t.bankroll.max_drawdown)) (drawdown-moved d t)))

IsMetered : Tracker → Type 0
IsMetered t = (t.enabled ≡ true) × (t.bankroll_extras_enabled ≡ true)

step-IsMetered : (e : Event) (t : Tracker) → IsMetered t → IsMetered (step e t)
unfolding step on_roll on_point_established on_point_made on_seven_out on_bankroll_delta IsMetered
step-IsMetered (roll_event n given) t h = ground arith
step-IsMetered (point_established p) t h = ground arith
step-IsMetered point_made t h = ground arith
step-IsMetered seven_out t h = ground arith
step-IsMetered (bankroll_delta d) t h = ground arith

step-position :
    (e : Event) (t : Tracker)
    → IsMetered t
    → position (step e t) ≡ shifts (deltas (e ∷ [])) (position t)
unfolding step on_roll on_point_established on_point_made on_seven_out shifts IsMetered
step-position (roll_event n given) t h = ground arith
step-position (point_established p) t h = ground arith
step-position point_made t h = ground arith
step-position seven_out t h = ground arith
step-position (bankroll_delta d) t h = position-delta d t h.0 h.1

shifts-deltas :
    (e : Event) (es : List Event) (p : Position)
    → shifts (deltas (e ∷ es)) p ≡ shifts (deltas es) (shifts (deltas (e ∷ [])) p)
unfolding shifts
shifts-deltas (roll_event n given) es p = refl
shifts-deltas (point_established n) es p = refl
shifts-deltas point_made es p = refl
shifts-deltas seven_out es p = refl
shifts-deltas (bankroll_delta d) es p = refl

run-position :
    (es : List Event) (t : Tracker)
    → IsMetered t
    → position (run es t) ≡ shifts (deltas es) (position t)
unfolding run
run-position [] t h = unfold shifts in refl
run-position (e ∷ es) t h =
    run-position es (step e t) (step-IsMetered e t h)
    ∙ ap (shifts (deltas es)) (step-position e t h)
    ∙ sym (shifts-deltas e es (position t))

run-IsMetered : (es : List Event) (t : Tracker) → IsMetered t → IsMetered (run es t)
unfolding run
run-IsMetered [] t h = h
run-IsMetered (e ∷ es) t h = run-IsMetered es (step e t) (step-IsMetered e t h)

-- The three metrics that a snapshot with the extras shows.
abbrev pub shown : Option Snapshot → Option Position
shown none = none
shown (some s) = elim s.extras [
  | none ↦ none
  | some x ↦
      some (record { bankroll = s.bankroll; peak = s.bankroll_peak; deepest = x.max_drawdown })
]

shown-snapshot : (t : Tracker) → IsMetered t → shown (snapshot t) ≡ some (position t)
unfolding snapshot IsMetered
shown-snapshot t h = rw (h.0, h.1) refl

start : Position
start = record { bankroll = pos 0; peak = pos 0; deepest = pos 0 }

shifts-start :
    (ds : List ℤ)
    → shifts ds start ≡ record { bankroll = sum_ℤ ds; peak = highest ds; deepest = deepest_fall ds }
unfolding start
shifts-start ds =
    Position-eq (bankroll-shifts ds start ∙ omega int_laws)
      (peak-shifts ds start (omega order_laws) ∙ omega (order_laws, highest_nonneg ds))
      (deepest-shifts ds start (omega order_laws)
        ∙ omega (order_laws, fall_covers ds, lowest_le ds))

-- After any events, the snapshot of a tracker with the extras on shows the sum of the deltas as the
-- bankroll, the highest sum of a prefix of them as the peak, and as the maximal drawdown the greatest
-- fall from the sum of one prefix to that of a longer one.
pub snapshot-run :
    (es : List Event)
    → shown (snapshot (run es (init true true)))
      ≡ some (record {
        bankroll = sum_ℤ (deltas es);
        peak = highest (deltas es);
        deepest = deepest_fall (deltas es);
      })
unfolding init IsMetered start
snapshot-run es =
    let t = init true true in
    shown-snapshot (run es t) (run-IsMetered es t (refl, refl))
    ∙ ap some (run-position es t (refl, refl) ∙ shifts-start (deltas es))
