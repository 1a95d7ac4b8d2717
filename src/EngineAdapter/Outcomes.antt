-- ===== src/EngineAdapter/Outcomes.antt =====
-- What an action leaves in the stub, by its outcome.
use crapssim_control.Prelude.{
  String, Bool, ◌&&◌, not, Option, none, some, ◌≡◌, refl, inl, inr, Bool-cases, str_eq,
}
use crapssim_control.PolicyEngine.{Verdict}
use crapssim_control.EngineAdapter.State.{Stub}
use crapssim_control.EngineAdapter.Normalize.{snapshot_state, cache_snapshot}
use crapssim_control.EngineAdapter.Amounts.{NonNegative}
use crapssim_control.EngineAdapter.Applied.{IsApplied, apply_effect-IsApplied}
use crapssim_control.EngineAdapter.Handlers.{
  Args, Error, value_error, attribute_error, other_error, Handled, handled, raised,
}
use crapssim_control.EngineAdapter.Registry.{Handler}
use crapssim_control.EngineAdapter.Actions.{
  PolicyOptions, Outcome, applied, rejected, reject_from_value_error, reject_error, finish,
  run_found, dispatch, dispatch_alias, alias_args, policy_blocked, apply_verdict, apply_action,
}
use crapssim_control.EngineAdapter.Induction.{Unmodified, verdict_of-Unmodified}

-- An effect that is reported is made, and a rejection leaves all but the count of violations.
abbrev pub Explains : Stub → Outcome × Stub → Type 0
Explains s (applied e, after) = IsApplied e s after
Explains s (rejected code reason, after) =
    record after { policy_violations = 0 } ≡ record s { policy_violations = 0 }

rejected-Explains : (e : Error) (s : Stub) → Explains s (reject_error e, s)
unfolding reject_error reject_from_value_error
rejected-Explains (value_error message) s = refl
rejected-Explains attribute_error s = refl
rejected-Explains other_error s = refl

finish-Explains : (o : Handled) (s : Stub) → NonNegative s.bets → Explains s (finish o s)
unfolding finish
finish-Explains (raised e) s n = rejected-Explains e s
finish-Explains (handled e) s n = apply_effect-IsApplied e s n

run_found-Explains :
    (h : Option Handler) (args : Args) (s : Stub)
    → NonNegative s.bets
    → Explains s (run_found h args s)
unfolding run_found
run_found-Explains none args s n = refl
run_found-Explains (some h) args s n = finish-Explains _ s n

dispatch_alias-Explains :
    (verb : String) (args : Args) (s : Stub)
    → NonNegative s.bets
    → Explains s (dispatch_alias verb args s)
unfolding dispatch_alias dispatch
dispatch_alias-Explains verb args s n = elim (Bool-cases (str_eq verb "martingale")) [
  | inl e ↦ rw e (run_found-Explains _ (alias_args args) s n)
  | inr e ↦ rw e (run_found-Explains _ args s n)
]

apply_verdict-Explains :
    (enforce : Bool) (v : Option Verdict) (verb : String) (args : Args) (s : Stub)
    → Unmodified v
    → NonNegative s.bets
    → Explains s (apply_verdict enforce v verb args s)
unfolding apply_verdict policy_blocked
apply_verdict-Explains enforce none verb args s plain n = dispatch_alias-Explains verb args s n
apply_verdict-Explains enforce (some v) verb args s plain n =
    elim (Bool-cases (not v.allowed && enforce)) [
      | inl e ↦ rw e refl
      | inr e ↦ rw (e, plain) (dispatch_alias-Explains verb args s n)
    ]

-- Whatever the verb and its args are, where no bet is negative: an action that is applied has changed the bankroll by
-- the change that it reports, and each bet by the changes of it that it reports, one by one and down to 0 at most; it
-- has changed no count, and the snapshot that is kept is that of the new state. One that is rejected (by the policy, as
-- an unknown verb, or by an error of its handler) has changed nothing but the snapshot that is kept and the number of
-- policy violations.
pub apply_action-Explains :
    (opts : PolicyOptions) (verb : String) (args : Args) (s : Stub)
    → NonNegative s.bets
    → Explains (snapshot_state s) (apply_action opts verb args s)
unfolding apply_action snapshot_state cache_snapshot
apply_action-Explains opts verb args s n =
    apply_verdict-Explains opts.enforce _ verb args (snapshot_state s)
      (verdict_of-Unmodified opts verb args _) n
