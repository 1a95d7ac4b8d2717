-- ===== src/Analytics/Session.antt =====
-- A session of the analytics tracker, and what its summary says of the bankrolls seen.
use crapssim_control.Prelude.{
  ℕ, ◌+◌, ◌≡◌, refl, ap, ◌∙◌, Bool, true, false, not, List, [], ◌∷◌, arith, length, str_eq,
  if◌then◌else◌, Bool-cases, inl, inr,
}
use crapssim_control.Prelude.Int.{ℤ, ◌+ℤ◌, order_laws}
use crapssim_control.Prelude.Text.{lower}
use crapssim_control.Analytics.{
  HandCtx, RollCtx, Tracker, on_session_start, see_bankroll, on_hand_start, on_hand_end,
  forget_point, on_event, on_roll, get_summary_snapshot,
}
use crapssim_control.Analytics.Figures.{
  Figures, highest, lowest, deepest_fall, see, see_all, add_hands, see_all-add_hands,
  add_hands_twice, add_hands_none, highest_covers, lowest_covers, fall_covers, peak-see_all,
  low-see_all, deepest-see_all, rolls-see_all, hands-see_all,
}

-- What the tracker is told between the start and the end of a session.
pub data Call : Type 0 where
  hand_start : HandCtx → Call
  hand_end : HandCtx → Call
  rolled : RollCtx → Call

unfoldable pub step : Call → Tracker → Tracker
step (hand_start h) t = on_hand_start h t
step (hand_end h) t = on_hand_end h t
step (rolled r) t = on_roll r t

unfoldable pub run : List Call → Tracker → Tracker
run [] t = t
run (c ∷ cs) t = run cs (step c t)

-- The bankrolls after the rolls.
abbrev pub bankrolls : List Call → List ℤ
bankrolls [] = []
bankrolls (hand_start h ∷ cs) = bankrolls cs
bankrolls (hand_end h ∷ cs) = bankrolls cs
bankrolls (rolled r ∷ cs) = (r.bankroll_before +ℤ r.delta) ∷ bankrolls cs

abbrev pub hands : List Call → ℕ
hands [] = 0
hands (hand_start h ∷ cs) = hands cs + 1
hands (hand_end h ∷ cs) = hands cs
hands (rolled r ∷ cs) = hands cs

abbrev pub figures : Tracker → Figures
figures t = record {
  bankroll = t.bankroll;
  peak = t.bankroll_peak;
  low = t.bankroll_low;
  deepest = t.max_drawdown;
  rolls = t.total_rolls;
  hands = t.total_hands;
}

figures-on_event : (r : RollCtx) (t : Tracker) → figures (on_event r t) ≡ figures t
unfolding on_event forget_point
figures-on_event r t =
    let n = lower r.event_type in
    elim (Bool-cases (str_eq n "point_established")) [
      | inl e ↦ rw e refl
      | inr a ↦ elim (Bool-cases (str_eq n "roll")) [
        | inl e ↦ rw (a, e) refl
        | inr b ↦ elim (Bool-cases (str_eq n "point_made")) [
          | inl e ↦ rw (a, b, e) refl
          | inr c ↦ elim (Bool-cases (str_eq n "seven_out")) [
            | inl e ↦ rw (a, b, c, e) refl
            | inr d ↦ elim (Bool-cases (str_eq n "comeout")) [
              | inl e ↦ rw (a, b, c, d, e) refl
              | inr e ↦ rw (a, b, c, d, e) refl
            ]
          ]
        ]
      ]
    ]

figures_if : (c : Bool) (u : Tracker) → figures (if not c then forget_point u else u) ≡ figures u
unfolding forget_point
figures_if true u = refl
figures_if false u = refl

figures-on_roll :
    (r : RollCtx) (t : Tracker)
    → figures (on_roll r t) ≡ see (r.bankroll_before +ℤ r.delta) (figures t)
unfolding on_roll see_bankroll see
figures-on_roll r t =
    let u =
      see_bankroll (r.bankroll_before +ℤ r.delta)
        (record t { roll_in_hand = t.roll_in_hand + 1; total_rolls = t.total_rolls + 1 }) in
    figures_if r.point_on (on_event r u) ∙ figures-on_event r u

hand_figures : (h : HandCtx) (t : Tracker) → figures (on_hand_start h t) ≡ add_hands 1 (figures t)
unfolding on_hand_start add_hands
hand_figures h t = refl

figures-run :
    (cs : List Call) (t : Tracker)
    → figures (run cs t) ≡ add_hands (hands cs) (see_all (bankrolls cs) (figures t))
unfolding run step see_all
figures-run [] t = add_hands_none (figures t)
figures-run (hand_start h ∷ cs) t =
    figures-run cs (on_hand_start h t)
    ∙ ap (add_hands (hands cs)) (
        ap (see_all (bankrolls cs)) (hand_figures h t)
        ∙ see_all-add_hands 1 (bankrolls cs) (figures t))
    ∙ add_hands_twice (hands cs) (see_all (bankrolls cs) (figures t))
figures-run (hand_end h ∷ cs) t =
    figures-run cs (on_hand_end h t) ∙ unfold on_hand_end forget_point in refl
figures-run (rolled r ∷ cs) t =
    figures-run cs (on_roll r t)
    ∙ ap (λ (m : Figures). add_hands (hands cs) (see_all (bankrolls cs) m)) (figures-on_roll r t)

-- The summary of a session that starts with a bankroll and goes on with any hands and rolls: the peak
-- and the low are the highest and the lowest bankroll, the start included, the maximal drawdown is the
-- greatest fall from one of them to a later one, and the rolls and hands are those that there were.
pub get_summary_snapshot-run :
    (start : ℤ) (cs : List Call)
    → let s = get_summary_snapshot (run cs (on_session_start start)) in
      let bs = bankrolls cs in
      (s.bankroll_peak ≡ highest start bs)
      × (s.bankroll_low ≡ lowest start bs)
      × (s.max_drawdown ≡ deepest_fall start bs)
      × (s.total_rolls ≡ length bs)
      × (s.total_hands ≡ hands cs)
unfolding get_summary_snapshot on_session_start add_hands
get_summary_snapshot-run start cs =
    let bs = bankrolls cs in
    let m = figures (on_session_start start) in
    let all = figures-run cs (on_session_start start) in
    (
      ap (λ (f : Figures). f.peak) all
          ∙ peak-see_all bs m (omega order_laws)
          ∙ omega (order_laws, highest_covers start bs),
      ap (λ (f : Figures). f.low) all
          ∙ low-see_all bs m (omega order_laws)
          ∙ omega (order_laws, lowest_covers start bs),
      ap (λ (f : Figures). f.deepest) all
          ∙ deepest-see_all bs m (omega order_laws) (omega order_laws) (omega order_laws)
          ∙ omega (order_laws, fall_covers start bs, lowest_covers start bs),
      ap (λ (f : Figures). f.rolls) all ∙ rolls-see_all bs m ∙ omega arith,
      ap (λ (f : Figures). f.hands) all
          ∙ ap (λ (k : ℕ). k + hands cs) (hands-see_all bs m)
          ∙ omega arith,
    )
