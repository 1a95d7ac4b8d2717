-- ===== src/EngineAdapter/Induction.antt =====
-- What every effect of a sound handler keeps, every action keeps; and the policy changes no amount.
use crapssim_control.Prelude.{
  ℕ, String, Bool, false, ◌&&◌, ◌||◌, not, Option, none, some, ◌≡◌, refl, inl, inr, arith,
  if◌then◌else◌, Bool-cases, str_eq, is_some,
}
use crapssim_control.Prelude.Int.{pos}
use crapssim_control.PolicyEngine.{
  RiskPolicy, Verdict, evaluate, apply_recovery, refused, Action as PolicyAction,
}
use crapssim_control.EngineAdapter.State.{Snapshot, Stub, effect_context}
use crapssim_control.EngineAdapter.Normalize.{snapshot_state}
use crapssim_control.EngineAdapter.Effects.{Effect, apply_effect}
use crapssim_control.EngineAdapter.Handlers.{Args, Handled, handled, raised}
use crapssim_control.EngineAdapter.Registry.{Handler, get, verb_registry, run_handler}
use crapssim_control.EngineAdapter.Actions.{
  PolicyOptions, finish, run_found, dispatch, dispatch_alias, alias_args, apply_verdict, verdict_of,
  apply_action, evaluate_policy, policy_snapshot, coerced_amount, is_missing,
}

-- The snapshot has no loss, so that there is nothing to recover.
pub nothing_lost : (p : RiskPolicy) → apply_recovery p (pos 0) ≡ pos 0
unfolding apply_recovery
nothing_lost p = ground arith

evaluate-modified :
    (p : RiskPolicy) (a : PolicyAction) (s : Snapshot)
    → (evaluate p a (policy_snapshot s)).modified ≡ false
unfolding evaluate policy_snapshot refused
evaluate-modified p a s = rw (nothing_lost p) (ground arith)

abbrev pub Unmodified : Option Verdict → Type 0
Unmodified none = Unit
Unmodified (some v) = v.modified ≡ false

judged :
    (policy : Option RiskPolicy) (verb : String) (args : Args) (s : Snapshot)
    → Unmodified (elim policy [ none ↦ none | some p ↦ evaluate_policy p verb args s ])
unfolding evaluate_policy
judged none verb args s = tt
judged (some p) verb args s =
    elim (Bool-cases
      (is_some (coerced_amount args.plain_args.amount) || is_missing args.plain_args.amount)) [
        | inl e ↦ rw e (evaluate-modified p _ s)
        | inr e ↦ rw e tt
      ]

pub verdict_of-Unmodified :
    (opts : PolicyOptions) (verb : String) (args : Args) (s : Snapshot)
    → Unmodified (verdict_of opts verb args s)
unfolding verdict_of
verdict_of-Unmodified opts verb args s = judged opts.risk_policy verb args s

module _ (S : Handler → Stub → Args → Type 0) where
  -- The handler that a verb leads to may run on these args.
  abbrev pub SoundFound : Option Handler → Args → Stub → Type 0
  SoundFound none args s = Unit
  SoundFound (some h) args s = S h s args

  abbrev pub SoundCall : String → Args → Stub → Type 0
  SoundCall verb args s =
      if str_eq verb "martingale"
      then SoundFound (get "apply_policy" verb_registry) (alias_args args) s
      else SoundFound (get verb verb_registry) args s

module _ (P : Stub → Type 0) (S : Handler → Stub → Args → Type 0)
    (effects : (h : Handler) (args : Args) (e : Effect) (s : Stub)
      → P s
      → S h s args
      → run_handler h s.martingale_levels (effect_context s) args ≡ handled e
      → P (apply_effect e s)) where
  finish-keeps :
      (h : Handler) (args : Args) (s : Stub) (o : Handled)
      → P s
      → S h s args
      → run_handler h s.martingale_levels (effect_context s) args ≡ o
      → P (finish o s).1
  unfolding finish
  finish-keeps h args s (raised e) p sound eq = p
  finish-keeps h args s (handled e) p sound eq = effects h args e s p sound eq

  run_found-keeps :
      (found : Option Handler) (args : Args) (s : Stub)
      → P s
      → SoundFound S found args s
      → P (run_found found args s).1
  unfolding run_found
  run_found-keeps none args s p sound = p
  run_found-keeps (some h) args s p sound = finish-keeps h args s _ p sound refl

  dispatch_alias-keeps :
      (verb : String) (args : Args) (s : Stub)
      → P s
      → SoundCall S verb args s
      → P (dispatch_alias verb args s).1
  unfolding dispatch_alias dispatch
  dispatch_alias-keeps verb args s p sound = elim (Bool-cases (str_eq verb "martingale")) [
    | inl e ↦ rw e (run_found-keeps _ (alias_args args) s p (rw e at sound))
    | inr e ↦ rw e (run_found-keeps _ args s p (rw e at sound))
  ]

  -- The counter of what the policy does is no part of what is kept.
  abbrev Uncounted : Type 0
  Uncounted = (s : Stub) (n : ℕ) → P s → P (record s { policy_violations = n })

  apply_verdict-keeps :
      (enforce : Bool) (v : Option Verdict) (verb : String) (args : Args) (s : Stub)
      → Uncounted
      → Unmodified v
      → P s
      → SoundCall S verb args s
      → P (apply_verdict enforce v verb args s).1
  unfolding apply_verdict
  apply_verdict-keeps enforce none verb args s count plain p sound =
      dispatch_alias-keeps verb args s p sound
  apply_verdict-keeps enforce (some v) verb args s count plain p sound =
      elim (Bool-cases (not v.allowed && enforce)) [
        | inl e ↦ rw e (count s _ p)
        | inr e ↦ rw (e, plain) (dispatch_alias-keeps verb args s p sound)
      ]

  pub apply_action-keeps :
      (opts : PolicyOptions) (verb : String) (args : Args) (s : Stub)
      → Uncounted
      → P (snapshot_state s)
      → SoundCall S verb args (snapshot_state s)
      → P (apply_action opts verb args s).1
  unfolding apply_action
  apply_action-keeps opts verb args s count p sound =
      apply_verdict-keeps opts.enforce _ verb args (snapshot_state s) count
        (verdict_of-Unmodified opts verb args _) p sound
