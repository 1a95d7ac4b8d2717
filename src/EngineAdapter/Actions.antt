-- ===== src/EngineAdapter/Actions.antt =====
-- `apply_action` and `apply_actions` without a live engine and with `explain` off.
use crapssim_control.Prelude.{
  ◌+◌, String, Bool, true, false, ◌&&◌, ◌||◌, not, Option, none, some, List, [], ◌∷◌, if◌then◌else◌,
  is_some, str_eq, default_to,
}
use crapssim_control.Prelude.Int.{ℤ}
use crapssim_control.PolicyEngine.{RiskPolicy, Verdict, evaluate, Snapshot as PolicySnapshot}
use crapssim_control.Verbs.Args.{Scalar, missing, number, text, Amount, plain, dict}
use crapssim_control.EngineAdapter.Names.{has}
use crapssim_control.EngineAdapter.State.{Snapshot, Stub, effect_context}
use crapssim_control.EngineAdapter.Normalize.{snapshot_state}
use crapssim_control.EngineAdapter.Effects.{Effect, apply_effect}
use crapssim_control.EngineAdapter.Handlers.{
  Args, PolicyArgs, Error, value_error, attribute_error, other_error, Handled, handled, raised,
}
use crapssim_control.EngineAdapter.Registry.{Handler, verb_registry, get, run_handler}

-- A rejection has its code, and the reason where the code words it.
pub data Outcome : Type 0 where
  applied : Effect → Outcome
  rejected : String → Option String → Outcome

-- `_VALUE_ERROR_CODE_SUFFIXES`, in the order of the dict.
unfoldable pub value_error_code : String → String
value_error_code message =
    if has message "invalid_amount"
    then "illegal_amount"
    else if has message "invalid_args"
    then "invalid_args"
    else if has message "invalid_dice"
    then "illegal_dice"
    else if has message "invalid_number"
    then "illegal_number"
    else if has message "invalid_increment"
    then "illegal_increment"
    else "illegal_increment"

unfoldable pub reject_from_value_error : String → Outcome
reject_from_value_error error =
    let message = if str_eq error "" then "invalid" else error in
    rejected (value_error_code message) (some message)

unfoldable pub reject_error : Error → Outcome
reject_error (value_error message) = reject_from_value_error message
reject_error attribute_error = rejected "unsupported" none
reject_error other_error = rejected "engine_error" none

-- The policy that is attached, and whether it is enforced.
pub record PolicyOptions : Type 0 where
  pub risk_policy : Option RiskPolicy
  pub enforce : Bool

abbrev read_amount : Scalar → Option ℤ
read_amount missing = none
read_amount (number n) = some n
read_amount (text s read) = read

-- The amount that the policy sees: the first of the candidates that `float` reads.
unfoldable pub coerced_amount : Amount → Option ℤ
coerced_amount (plain v) = read_amount v
coerced_amount (dict v a) = elim (read_amount (default_to missing v)) [
  | some n ↦ some n
  | none ↦ read_amount (default_to missing a)
]

-- The keys of the snapshot that the policy reads: the other three are not in it.
unfoldable pub policy_snapshot : Snapshot → PolicySnapshot
policy_snapshot s = record {
  bankroll_after = some s.bankroll;
  bankroll = some s.bankroll;
  bankroll_peak = none;
  active_bets_sum = none;
  previous_loss = none;
}

abbrev pub is_missing : Amount → Bool
is_missing (plain missing) = true
is_missing _ = false

-- `none` where the evaluation raises, on an amount that is no number: there is no verdict then.
unfoldable pub evaluate_policy : RiskPolicy → String → Args → Snapshot → Option Verdict
evaluate_policy p verb args snapshot =
    let amount = coerced_amount args.plain_args.amount in
    if is_some amount || is_missing args.plain_args.amount
    then some (evaluate p (record { verb = some verb; amount = amount }) (policy_snapshot snapshot))
    else none

abbrev adjust_amount : ℤ → Amount → Amount
adjust_amount n (plain v) = plain (number n)
adjust_amount n (dict v a) = dict (some (number n)) (some (number n))

-- The adjusted amount in the place of the amount. The amounts and limits that the policy reads here are in halves, and
-- a previous loss, which the snapshot never has, is whole, so that the adjusted amount of the verdict is in halves too.
unfoldable pub adjust_args : Verdict → Args → Args
adjust_args v args = elim v.adjusted_amount [
  | none ↦ args
  | some n ↦ record args {
    plain_args = record args.plain_args { amount = adjust_amount n args.plain_args.amount };
  }
]

abbrev first_of {ℓ} : {A : Type ℓ} → Option A → Option A → Option A
first_of none b = b
first_of (some a) b = some a

abbrev martingale_policy : PolicyArgs
martingale_policy = record {
  name = some "martingale_v1";
  step_key = none;
  delta = none;
  max_level = none;
}

-- The deprecated verb `martingale` as `apply_policy`: the policy's own args come first.
unfoldable pub alias_args : Args → Args
alias_args args =
    let policy = default_to martingale_policy args.policy in
    record args {
      policy = some record {
        name = first_of policy.name (some "martingale_v1");
        step_key = first_of policy.step_key args.step_key;
        delta = first_of policy.delta args.delta;
        max_level = first_of policy.max_level args.max_level;
      };
    }

-- The handler's effect is applied; an error changes nothing.
unfoldable pub finish : Handled → Stub → Outcome × Stub
finish (raised e) s = (reject_error e, s)
finish (handled e) s = (applied e, apply_effect e s)

unfoldable pub run_found : Option Handler → Args → Stub → Outcome × Stub
run_found none args s = (rejected "unsupported" none, s)
run_found (some h) args s = finish (run_handler h s.martingale_levels (effect_context s) args) s

unfoldable pub dispatch : String → Args → Stub → Outcome × Stub
dispatch verb args s = run_found (get verb verb_registry) args s

unfoldable pub dispatch_alias : String → Args → Stub → Outcome × Stub
dispatch_alias verb args s =
    if str_eq verb "martingale"
    then dispatch "apply_policy" (alias_args args) s
    else dispatch verb args s

unfoldable pub policy_blocked : Verdict → Outcome
policy_blocked v = rejected "policy_blocked" (some (default_to "policy_rejected" v.reason))

unfoldable pub apply_verdict : Bool → Option Verdict → String → Args → Stub → Outcome × Stub
apply_verdict enforce none verb args s = dispatch_alias verb args s
apply_verdict enforce (some v) verb args s =
    if not v.allowed && enforce
    then (policy_blocked v, record s { policy_violations = s.policy_violations + 1 })
    else if v.modified
    then dispatch_alias verb (adjust_args v args)
        (record s { policy_applied = s.policy_applied + 1 })
    else dispatch_alias verb args s

-- The verdict on an action, where a policy is attached and can judge it.
unfoldable pub verdict_of : PolicyOptions → String → Args → Snapshot → Option Verdict
verdict_of opts verb args snapshot = elim opts.risk_policy [
  | none ↦ none
  | some p ↦ evaluate_policy p verb args snapshot
]

unfoldable pub apply_action : PolicyOptions → String → Args → Stub → Outcome × Stub
apply_action opts verb args s =
    let seen = snapshot_state s in
    apply_verdict opts.enforce (verdict_of opts verb args seen.snapshot_cache) verb args seen

-- An action of a list, whose args are as the code reads them: `number` is the bet where there is none.
pub record Action : Type 0 where
  pub verb : String
  pub number : Option String
  pub args : Args

abbrev boxed_verb : String → Bool
boxed_verb verb = str_eq verb "place_bet" || str_eq verb "buy_bet" || str_eq verb "lay_bet"

abbrev boxed_amount : Amount → Amount
boxed_amount (plain missing) = dict none none
boxed_amount (plain v) = dict (some v) none
boxed_amount (dict v a) = dict v a

unfoldable pub boxed_args : Action → Args
boxed_args a =
    if boxed_verb a.verb
    then record a.args {
      bet = first_of a.args.bet a.number;
      plain_args = record a.args.plain_args { amount = boxed_amount a.args.plain_args.amount };
    }
    else a.args

unfoldable pub apply_actions : PolicyOptions → List Action → Stub → List Outcome × Stub
apply_actions opts [] s = ([], s)
apply_actions opts (a ∷ actions) s =
    let (result, after) = apply_action opts a.verb (boxed_args a) s in
    let (results, final) = apply_actions opts actions after in (result ∷ results, final)
