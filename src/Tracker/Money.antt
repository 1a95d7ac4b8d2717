-- ===== src/Tracker/Money.antt =====
-- Where the money of the tracker is accounted for: the per-hand log against the bankroll.
use crapssim_control.Prelude.{◌≡◌, sym, ◌∙◌, Bool-cases, inl, inr, true, List, [], ◌∷◌, ◌++◌, arith}
use crapssim_control.Prelude.Int.{ℤ, pos, ◌+ℤ◌, int_laws}
use crapssim_control.Tracker.{
  Tracker, Event, roll_event, point_established, point_made, seven_out, bankroll_delta, on_roll,
  on_point_established, on_point_made, on_seven_out, on_bankroll_delta, move_bankroll,
  extra_metrics, step, run,
}
use crapssim_control.Tracker.Reference.{sum_ℤ}

sum_ℤ-append : (xs : List ℤ) (d : ℤ) → sum_ℤ (xs ++ d ∷ []) ≡ sum_ℤ xs +ℤ d
sum_ℤ-append [] d = omega int_laws
sum_ℤ-append (x ∷ xs) d = rw (sum_ℤ-append xs d) (omega int_laws)

-- The hands' logged results and the current hand make up the bankroll.
unfoldable pub HasLog : Tracker → Type 0
HasLog t = sum_ℤ t.pnl_log +ℤ t.current_hand_pnl ≡ t.bankroll.bankroll

move_sum : (a b c d : ℤ) → a +ℤ b ≡ c → a +ℤ (b +ℤ d) ≡ c +ℤ d
move_sum a b c d h = rw (sym h) (omega int_laws)

append_sum : (xs : List ℤ) (d c : ℤ) → sum_ℤ xs +ℤ d ≡ c → sum_ℤ (xs ++ d ∷ []) +ℤ pos 0 ≡ c
append_sum xs d c h = rw (sum_ℤ-append xs d) (omega int_laws ∙ h)

on_bankroll_delta-HasLog :
    (d : ℤ) (t : Tracker)
    → t.bankroll_extras_enabled ≡ true
    → HasLog t
    → HasLog (on_bankroll_delta d t)
unfolding on_bankroll_delta HasLog move_bankroll extra_metrics
on_bankroll_delta-HasLog d t x h = elim (Bool-cases t.enabled) [
  | inl e ↦ rw (e, x) (move_sum (sum_ℤ t.pnl_log) t.current_hand_pnl t.bankroll.bankroll d h)
  | inr e ↦ rw e h
]

on_seven_out-HasLog :
    (t : Tracker) → t.bankroll_extras_enabled ≡ true → HasLog t → HasLog (on_seven_out t)
unfolding on_seven_out HasLog
on_seven_out-HasLog t x h = elim (Bool-cases t.enabled) [
  | inl e ↦ rw (e, x) (append_sum t.pnl_log t.current_hand_pnl t.bankroll.bankroll h)
  | inr e ↦ rw e h
]

step-HasLog :
    (e : Event) (t : Tracker) → t.bankroll_extras_enabled ≡ true → HasLog t → HasLog (step e t)
unfolding step
step-HasLog (roll_event n given) t x h = unfold on_roll HasLog in ground (arith, h)
step-HasLog (point_established p) t x h = unfold on_point_established HasLog in ground (arith, h)
step-HasLog point_made t x h = unfold on_point_made HasLog in ground (arith, h)
step-HasLog seven_out t x h = on_seven_out-HasLog t x h
step-HasLog (bankroll_delta d) t x h = on_bankroll_delta-HasLog d t x h

step_extras :
    (e : Event) (t : Tracker) → (step e t).bankroll_extras_enabled ≡ t.bankroll_extras_enabled
unfolding step on_roll on_point_established on_point_made on_seven_out on_bankroll_delta
step_extras (roll_event n given) t = ground arith
step_extras (point_established p) t = ground arith
step_extras point_made t = ground arith
step_extras seven_out t = ground arith
step_extras (bankroll_delta d) t = ground arith

-- With the extras on, any events keep this: the hands' logged results and the current hand make up
-- the bankroll.
pub run-HasLog :
    (es : List Event) (t : Tracker)
    → t.bankroll_extras_enabled ≡ true
    → HasLog t
    → HasLog (run es t)
unfolding run
run-HasLog [] t x h = h
run-HasLog (e ∷ es) t x h = run-HasLog es (step e t) (step_extras e t ∙ x) (step-HasLog e t x h)
