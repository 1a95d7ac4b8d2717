-- ===== src/PolicyEngine.antt =====
-- crapssim_control/policy_engine.py and crapssim_control/risk_schema.py: whether the risk policy allows
-- an action. Amounts are whole numbers, and a percentage is a fraction with a positive denominator.
mod Bounds
pub mod Load
mod Tests
use crapssim_control.Prelude.{
  ℕ, suc, ◌*◌, String, Bool, true, false, not, ◌&&◌, ◌||◌, Option, none, some, List, [], ◌∷◌,
  if◌then◌else◌, default_to, str_eq,
}
use crapssim_control.Prelude.Int.{ℤ, pos, ◌+ℤ◌, ◌-ℤ◌, ◌*ℤ◌, ltb_ℤ, leb_ℤ, eqb_ℤ}
use crapssim_control.Prelude.Dict.{Dict, String_Eq, lookup}

pub data Mode : Type 0 where
  no_recovery : Mode
  flat_recovery : Mode
  step_recovery : Mode

pub record RecoveryPolicy : Type 0 where
  pub enabled : Bool
  pub mode : Mode

-- `num / suc den_pred`
pub record Percent : Type 0 where
  pub num : ℤ
  pub den_pred : ℕ

pub record RiskPolicy : Type 0 where
  pub max_drawdown_pct : Option Percent
  pub max_heat : Option ℤ
  pub bet_caps : Dict String ℤ
  pub recovery : RecoveryPolicy

-- A limit of `None` or 0 is off.
abbrev pub active : Option ℤ → Option ℤ
active none = none
active (some m) = if eqb_ℤ m (pos 0) then none else some m

-- `check_drawdown`: `(peak - bankroll) / peak * 100 <= limit`, multiplied out.
unfoldable pub check_drawdown : RiskPolicy → ℤ → ℤ → Bool
check_drawdown p bankroll peak = elim p.max_drawdown_pct [
  | none ↦ true
  | some limit ↦
      if eqb_ℤ limit.num (pos 0) || leb_ℤ peak (pos 0)
      then true
      else leb_ℤ ((peak -ℤ bankroll) *ℤ pos 100 *ℤ pos (suc limit.den_pred)) (limit.num *ℤ peak)
]

unfoldable pub check_heat : RiskPolicy → ℤ → Bool
check_heat p active_bets_sum = elim (active p.max_heat) [
  | none ↦ true
  | some limit ↦ leb_ℤ active_bets_sum limit
]

unfoldable pub check_bet_cap : RiskPolicy → String → ℤ → Bool
check_bet_cap p bet_type amount = elim (lookup bet_type p.bet_caps) [
  | none ↦ true
  | some cap ↦ leb_ℤ amount cap
]

-- `apply_recovery`, in halves: the step is one and a half of the loss.
unfoldable pub apply_recovery : RiskPolicy → ℤ → ℤ
apply_recovery p previous_loss =
    if not p.recovery.enabled || leb_ℤ previous_loss (pos 0) then pos 0 else elim p.recovery.mode [
      | no_recovery ↦ pos 0
      | flat_recovery ↦ previous_loss *ℤ pos 2
      | step_recovery ↦ previous_loss *ℤ pos 3
    ]

-- The parts of the action and the snapshot that are read; a missing key is `none`.
pub record Action : Type 0 where
  pub verb : Option String
  pub amount : Option ℤ

pub record Snapshot : Type 0 where
  pub bankroll_after : Option ℤ
  pub bankroll : Option ℤ
  pub bankroll_peak : Option ℤ
  pub active_bets_sum : Option ℤ
  pub previous_loss : Option ℤ

-- `adjusted_amount` is in halves of the unit of `previous_loss`.
pub record Verdict : Type 0 where
  pub allowed : Bool
  pub modified : Bool
  pub reason : Option String
  pub adjusted_amount : Option ℤ
  pub policy_triggered : List String

unfoldable pub refused : String → Verdict
refused why = record {
  allowed = false;
  modified = false;
  reason = some why;
  adjusted_amount = none;
  policy_triggered = why ∷ [];
}

unfoldable pub bankroll_of : Snapshot → ℤ
bankroll_of s = default_to (default_to (pos 0) s.bankroll) s.bankroll_after

unfoldable pub evaluate : RiskPolicy → Action → Snapshot → Verdict
evaluate p a s =
    let bankroll = bankroll_of s in
    if not (check_drawdown p bankroll (default_to bankroll s.bankroll_peak))
    then refused "drawdown_limit"
    else if not (check_heat p (default_to (pos 0) s.active_bets_sum))
    then refused "heat_limit"
    else if not (check_bet_cap p (default_to "" a.verb) (default_to (pos 0) a.amount))
    then refused "bet_cap"
    else let adjustment = apply_recovery p (default_to (pos 0) s.previous_loss) in
      let applies = ltb_ℤ (pos 0) adjustment in
      record {
        allowed = true;
        modified = applies;
        reason = none;
        adjusted_amount = if applies then some adjustment else none;
        policy_triggered = if applies then "recovery_applied" ∷ [] else [];
      }
