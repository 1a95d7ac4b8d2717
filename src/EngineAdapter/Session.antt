-- ===== src/EngineAdapter/Session.antt =====
-- `step_roll` of the stub: it may stop early, applies what the rules propose, and rolls.
use crapssim_control.Prelude.{
  ℕ, ◌+◌, String, Bool, true, false, ◌&&◌, ◌||◌, not, Option, none, some, List, [], ◌∷◌,
  if◌then◌else◌, str_eq,
}
use crapssim_control.Prelude.Int.{ℤ, pos, min_ℤ, ltb_ℤ, leb_ℤ}
use crapssim_control.Prelude.Dict.{Dict}
use crapssim_control.PolicyEngine.{RiskPolicy, evaluate}
use crapssim_control.EngineAdapter.State.{Snapshot, Stub}
use crapssim_control.EngineAdapter.Normalize.{snapshot_state}
use crapssim_control.EngineAdapter.Roll.{step_roll_stub, point_seven_out}
use crapssim_control.EngineAdapter.Handlers.{Args, halves}
use crapssim_control.EngineAdapter.Actions.{PolicyOptions, apply_action, policy_snapshot}

-- `get_table_mins`, with the units of the six box numbers in their order.
pub record TableMins : Type 0 where
  pub line_min : ℤ
  pub field_min : ℤ
  pub place_units : List ℤ

pub record StopOptions : Type 0 where
  pub stop_on_bankrupt : Bool
  pub stop_on_unactionable : Bool
  pub mins : TableMins
  pub spec_max_heat : Option ℤ
  pub spec_risk_caps : Dict String ℤ

-- `min` of a list that is not empty
abbrev pub least : ℤ → List ℤ → ℤ
least a [] = a
least a (b ∷ bs) = least (min_ℤ a b) bs

unfoldable pub first_some : Option ℤ → Option ℤ → Option ℤ
first_some none b = b
first_some (some a) b = some a

-- The exposure of the snapshot is 0: the heat is too high where the limit is 0 or less.
unfoldable pub too_hot : Option RiskPolicy → StopOptions → Bool
too_hot policy opts =
    elim (first_some (elim policy [ none ↦ none | some p ↦ p.max_heat ]) opts.spec_max_heat) [
      | none ↦ false
      | some limit ↦ leb_ℤ limit (pos 0)
    ]

abbrev one_of : String → List String → Bool
one_of x [] = false
one_of x (y ∷ ys) = str_eq x y || one_of x ys

-- The policy refuses even a bet of nothing, for the drawdown.
unfoldable pub drawn_down : PolicyOptions → Snapshot → Bool
drawn_down opts snapshot = elim opts.risk_policy [
  | none ↦ false
  | some p ↦
      let probe =
        evaluate p (record { verb = some "probe"; amount = some (pos 0) })
          (policy_snapshot snapshot) in
      opts.enforce && not probe.allowed && one_of "drawdown_limit" probe.policy_triggered
]

-- The smallest of the minimums of the bets that can be made; the flat line bet is not in the snapshot.
unfoldable pub effective_min : TableMins → Snapshot → ℤ
effective_min mins snapshot =
    if snapshot.point_on
    then least mins.field_min mins.place_units
    else least mins.line_min (mins.field_min ∷ [])

abbrev meets_cap : ℤ → Dict String ℤ → Bool
meets_cap needed [] = false
meets_cap needed ((name, cap) ∷ caps) = leb_ℤ needed cap || meets_cap needed caps

abbrev pub caps_allow : ℤ → Dict String ℤ → Bool
caps_allow needed [] = true
caps_allow needed (c ∷ caps) = meets_cap needed (c ∷ caps)

unfoldable pub can_any_bet_be_placed : PolicyOptions → StopOptions → Snapshot → Bool
can_any_bet_be_placed policy opts snapshot =
    let needed = effective_min opts.mins snapshot in
    let caps : Dict String ℤ = elim policy.risk_policy [
      | none ↦ opts.spec_risk_caps
      | some p ↦ p.bet_caps
    ] in
    ltb_ℤ (pos 0) snapshot.bankroll
    && not (too_hot policy.risk_policy opts)
    && not (drawn_down policy snapshot)
    && caps_allow (halves needed) caps
    && leb_ℤ (halves needed) snapshot.bankroll

-- The reason of an early stop. A bankroll of at most 0.01 is at most 0, since it is in halves.
unfoldable pub maybe_early_stop : PolicyOptions → StopOptions → Snapshot → Option String
maybe_early_stop policy opts snapshot =
    if opts.stop_on_bankrupt && leb_ℤ snapshot.bankroll (pos 0)
    then some "bankroll_exhausted"
    else if opts.stop_on_unactionable && not (can_any_bet_be_placed policy opts snapshot)
    then some "unactionable_bankroll"
    else none

pub data RollResult : Type 0 where
  terminated : String → RollResult
  rolled : Bool → Snapshot → RollResult

unfoldable pub apply_all : PolicyOptions → List (String × Args) → Stub → Stub
apply_all policy [] s = s
apply_all policy ((verb, args) ∷ actions) s =
    apply_all policy actions (apply_action policy verb args s).1

-- The roll, after the actions.
unfoldable pub roll_ready : ℕ → Stub → RollResult × Stub
roll_ready total s =
    let after = step_roll_stub total s in
    (
      rolled (point_seven_out total s.snapshot_cache) after.snapshot_cache,
      record after { rolls_completed = after.rolls_completed + 1 },
    )

-- The rules see the snapshot and propose actions (`maybe_eval_rules`).
unfoldable pub roll_unless :
    PolicyOptions → (Snapshot → List (String × Args)) → Option String → ℕ → Stub → RollResult × Stub
roll_unless policy rules (some reason) total s = (terminated reason, s)
roll_unless policy rules none total s =
    roll_ready total (apply_all policy (rules s.snapshot_cache) s)

unfoldable pub step_roll :
    PolicyOptions → StopOptions → (Snapshot → List (String × Args)) → ℕ → Stub → RollResult × Stub
step_roll policy opts rules total s =
    let seen = snapshot_state s in
    roll_unless policy rules (maybe_early_stop policy opts seen.snapshot_cache) total seen
