-- ===== src/EngineAdapter/Funds.antt =====
-- The bankroll that `step_roll` needs for a roll, where it stops on one that affords no bet.
use crapssim_control.Prelude.{
  arith, String, ℕ, true, Option, none, some, List, ◌≡◌, refl, inl, inr, Bool-cases,
}
use crapssim_control.Prelude.Int.{pos, min_ℤ, ◌≤ℤ◌, ◌<ℤ◌}
use crapssim_control.EngineAdapter.State.{Snapshot, Stub}
use crapssim_control.EngineAdapter.Normalize.{
  snapshot_state, cache_snapshot, normalize_snapshot, base_snapshot,
}
use crapssim_control.EngineAdapter.Handlers.{Args, halves}
use crapssim_control.EngineAdapter.Actions.{PolicyOptions}
use crapssim_control.EngineAdapter.Session.{
  TableMins, StopOptions, effective_min, can_any_bet_be_placed, maybe_early_stop, RollResult,
  terminated, rolled, roll_ready, roll_unless, step_roll,
}

-- A snapshot of the stub has no point.
effective_min-snapshot_state :
    (mins : TableMins) (s : Stub)
    → effective_min mins (snapshot_state s).snapshot_cache ≡ min_ℤ mins.line_min mins.field_min
unfolding effective_min snapshot_state cache_snapshot normalize_snapshot base_snapshot
effective_min-snapshot_state mins s = refl

bankroll-snapshot_state : (s : Stub) → (snapshot_state s).snapshot_cache.bankroll ≡ s.bankroll
unfolding snapshot_state cache_snapshot normalize_snapshot base_snapshot
bankroll-snapshot_state s = refl

abbrev Funded : StopOptions → Snapshot → Type 0
Funded opts snapshot =
    (pos 0 <ℤ snapshot.bankroll) × (halves (effective_min opts.mins snapshot) ≤ℤ snapshot.bankroll)

can_place-Funded :
    (policy : PolicyOptions) (opts : StopOptions) (snapshot : Snapshot)
    → can_any_bet_be_placed policy opts snapshot ≡ true
    → Funded opts snapshot
unfolding can_any_bet_be_placed
can_place-Funded policy opts snapshot h = (ground (arith, h), ground (arith, h))

goes_on-Funded :
    (policy : PolicyOptions) (opts : StopOptions) (snapshot : Snapshot)
    → opts.stop_on_unactionable ≡ true
    → maybe_early_stop policy opts snapshot ≡ none
    → Funded opts snapshot
unfolding maybe_early_stop
goes_on-Funded policy opts snapshot h e =
    elim (Bool-cases (can_any_bet_be_placed policy opts snapshot)) [
      | inl f ↦ can_place-Funded policy opts snapshot f
      | inr f ↦ ground (arith, h, rw f at e)
    ]

-- A roll that took place was called with the funds.
abbrev pub RollsOn : Type 0 → RollResult → Type 0
RollsOn funds (terminated reason) = Unit
RollsOn funds (rolled pso snapshot) = funds

unless_stopped :
    (funds : Type 0) (policy : PolicyOptions) (rules : Snapshot → List (String × Args))
    (stop : Option String) (total : ℕ) (s : Stub)
    → (stop ≡ none → funds)
    → RollsOn funds (roll_unless policy rules stop total s).0
unfolding roll_unless roll_ready
unless_stopped funds policy rules (some reason) total s h = tt
unless_stopped funds policy rules none total s h = h refl

-- With the stop on an unactionable bankroll on, `step_roll` rolls only if the bankroll that it is called with is
-- positive and has at least the smaller of the minimums of the line and the field, whatever the policy and the caps are.
-- It says nothing of the bankroll at the dice, since the actions of the rules come in between and may spend it.
pub step_roll-RollsOn :
    (policy : PolicyOptions) (opts : StopOptions) (rules : Snapshot → List (String × Args))
    (total : ℕ) (s : Stub)
    → opts.stop_on_unactionable ≡ true
    → RollsOn
        ((pos 0 <ℤ s.bankroll)
          × (halves (min_ℤ opts.mins.line_min opts.mins.field_min) ≤ℤ s.bankroll))
        (step_roll policy opts rules total s).0
unfolding step_roll
step_roll-RollsOn policy opts rules total s h =
    let seen = (snapshot_state s).snapshot_cache in
    unless_stopped _ policy rules (maybe_early_stop policy opts seen) total (snapshot_state s) (λ e.
      let funded : Funded opts seen = goes_on-Funded policy opts seen h e in
      rw (effective_min-snapshot_state opts.mins s, bankroll-snapshot_state s) at funded)
