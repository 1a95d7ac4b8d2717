-- ===== src/EngineAdapter/Registry.antt =====
-- VerbRegistry and PolicyRegistry: the handlers by their names, as the end of the file registers them.
use crapssim_control.Prelude.{String, Option, none, some, List, [], ◌∷◌, default_to}
use crapssim_control.Prelude.Int.{ℤ}
use crapssim_control.Prelude.Dict.{Dict, lookup, insert, String_Eq}
use crapssim_control.Verbs.Handlers.{
  Table, Verb, handle, line_bet, come_bet, dont_come_bet, set_odds, take_odds, field_bet,
  hardway_bet, remove_line, remove_come, remove_dont_come, VerbOutcome, effect, failed,
  Effect as PlainEffect,
}
use crapssim_control.EngineAdapter.Effects.{Effect, no_target, side_target}
use crapssim_control.EngineAdapter.Handlers.{
  Args, PolicyArgs, Handled, handled, raised, value_error, other_error, halves, verb_press,
  verb_regress, verb_place_bet, verb_buy_bet, verb_lay_bet, verb_take_down, verb_move_bet,
  verb_same_bet, verb_switch_profile, pol_martingale_v1,
}

pub data Policy : Type 0 where
  martingale_v1 : Policy

-- The handlers; those of crapssim_control/verbs.py are `supplement`.
pub data Handler : Type 0 where
  press regress place_bet buy_bet lay_bet take_down move_bet same_bet switch_profile : Handler
  apply_policy : Handler
  supplement : Verb → Handler

-- `register`
abbrev pub register {ℓ} : {H : Type ℓ} → String → H → Dict String H → Dict String H
register name fn handlers = insert name fn handlers

-- `get`, where `none` is the KeyError.
abbrev pub get {ℓ} : {H : Type ℓ} → String → Dict String H → Option H
get name handlers = lookup name handlers

abbrev register_all : List (String × Handler) → Dict String Handler → Dict String Handler
register_all [] handlers = handlers
register_all ((name, fn) ∷ more) handlers = register_all more (register name fn handlers)

unfoldable pub verb_registry : Dict String Handler
verb_registry =
    register_all
      (("press", press)
        ∷ ("regress", regress)
        ∷ ("place_bet", place_bet)
        ∷ ("buy_bet", buy_bet)
        ∷ ("lay_bet", lay_bet)
        ∷ ("take_down", take_down)
        ∷ ("move_bet", move_bet)
        ∷ ("same_bet", same_bet)
        ∷ ("switch_profile", switch_profile)
        ∷ ("apply_policy", apply_policy)
        ∷ ("line_bet", supplement line_bet)
        ∷ ("come_bet", supplement come_bet)
        ∷ ("dont_come_bet", supplement dont_come_bet)
        ∷ ("set_odds", supplement set_odds)
        ∷ ("take_odds", supplement take_odds)
        ∷ ("field_bet", supplement field_bet)
        ∷ ("hardway_bet", supplement hardway_bet)
        ∷ ("remove_line", supplement remove_line)
        ∷ ("remove_come", supplement remove_come)
        ∷ ("remove_dont_come", supplement remove_dont_come)
        ∷ [])
      []

unfoldable pub policy_registry : Dict String Policy
policy_registry = register "martingale_v1" martingale_v1 []

abbrev pub run_policy : Policy → Dict String ℤ → PolicyArgs → Handled
run_policy martingale_v1 = pol_martingale_v1

-- `effect.update({"schema": "1.0", "verb": "apply_policy", "policy": name})`
abbrev pub name_effect : String → Handled → Handled
name_effect name (raised e) = raised e
name_effect name (handled e) =
    handled (record e { schema = "1.0"; verb = "apply_policy"; policy = some name })

abbrev pub no_policy : PolicyArgs
no_policy = record { name = none; step_key = none; delta = none; max_level = none }

unfoldable pub verb_apply_policy : Dict String ℤ → Args → Handled
verb_apply_policy levels args =
    let policy = default_to no_policy args.policy in
    elim policy.name [
      | none ↦ raised other_error
      | some name ↦ elim (get name policy_registry) [
        | none ↦ raised other_error
        | some fn ↦ name_effect name (run_policy fn levels policy)
      ]
    ]

-- The stub's bets are whole, since only whole changes are made to them; verbs.py reads them in halves.
unfoldable pub double_all : Dict String ℤ → Dict String ℤ
double_all [] = []
double_all ((k, v) ∷ d) = (k, halves v) ∷ double_all d

unfoldable pub in_halves : Table → Table
in_halves s = record {
  bets = double_all s.bets;
  odds = double_all s.odds;
  come_odds = double_all s.come_odds;
  dc_odds = double_all s.dc_odds;
  come_flat = double_all s.come_flat;
  dc_flat = double_all s.dc_flat;
}

-- An effect of verbs.py
unfoldable pub of_plain : PlainEffect → Effect
of_plain e = record {
  schema = e.schema;
  verb = e.verb;
  target = elim e.target_side [ none ↦ no_target | some side ↦ side_target side ];
  bets = e.bets;
  bankroll_delta = e.bankroll_delta;
  policy = e.policy;
  level_update = none;
}

unfoldable pub of_outcome : VerbOutcome → Handled
of_outcome (effect e) = handled (of_plain e)
of_outcome (failed error) = raised (value_error error)

unfoldable pub run_handler : Handler → Dict String ℤ → Table → Args → Handled
run_handler press levels snapshot args = verb_press snapshot args
run_handler regress levels snapshot args = verb_regress snapshot args
run_handler place_bet levels snapshot args = verb_place_bet snapshot args
run_handler buy_bet levels snapshot args = verb_buy_bet snapshot args
run_handler lay_bet levels snapshot args = verb_lay_bet snapshot args
run_handler take_down levels snapshot args = verb_take_down snapshot args
run_handler move_bet levels snapshot args = verb_move_bet snapshot args
run_handler same_bet levels snapshot args = verb_same_bet snapshot args
run_handler switch_profile levels snapshot args = verb_switch_profile snapshot args
run_handler apply_policy levels snapshot args = verb_apply_policy levels args
run_handler (supplement v) levels snapshot args =
    of_outcome (handle v (in_halves snapshot) args.plain_args)
