-- ===== src/EngineAdapter/Worth.antt =====
-- A sound handler moves money; so the worth of the stub stays.
use crapssim_control.Prelude.{
  arith, String, Bool, ◌||◌, true, false, Option, none, some, [], ◌∷◌, ◌≡◌, ◌∙◌, refl,
  if◌then◌else◌, default_to,
}
use crapssim_control.Prelude.Int.{ℤ, pos, ◌+ℤ◌, ◌≤ℤ◌, leb_ℤ, int_laws}
use crapssim_control.Prelude.Dict.{Dict, String_Eq}
use crapssim_control.Verbs.Args.{amt, whole, Args as PlainArgs}
use crapssim_control.Verbs.Whole.{IsWhole, whole_up, whole_le}
use crapssim_control.Verbs.Balance.{total_change, Balances, handle-Balances}
use crapssim_control.Verbs.Handlers.{
  Table, Verb, handle, line_bet, come_bet, dont_come_bet, set_odds, take_odds, field_bet,
  hardway_bet, remove_line, remove_come, remove_dont_come, VerbOutcome, effect, failed, make_effect,
  odds_key, line_targets, verb_line_bet, verb_come_bet, verb_dont_come_bet, verb_set_odds,
  verb_take_odds, verb_field_bet, verb_hardway_bet, verb_remove_line, verb_remove_come,
  verb_remove_dont_come,
}
use crapssim_control.EngineAdapter.State.{Stub, effect_context}
use crapssim_control.EngineAdapter.Normalize.{amount_of}
use crapssim_control.EngineAdapter.Effects.{Effect, apply_effect}
use crapssim_control.EngineAdapter.Handlers.{
  Args, PolicyArgs, Handled, handled, raised, other_error, verb_place_bet, verb_buy_bet,
  verb_lay_bet, verb_same_bet, verb_switch_profile,
}
use crapssim_control.EngineAdapter.Registry
use crapssim_control.EngineAdapter.Registry.{
  Handler, press, regress, place_bet, buy_bet, lay_bet, move_bet, same_bet, switch_profile,
  apply_policy, supplement, double_all, in_halves, of_outcome, of_plain, run_handler, verb_registry,
  policy_registry, get, run_policy, name_effect, no_policy, verb_apply_policy, Policy,
  martingale_v1,
}
use crapssim_control.EngineAdapter.Amounts.{NonNegative, amount-NonNegative, Fits}
use crapssim_control.EngineAdapter.Takings.{Affords-Fits, take_down-Affords}
use crapssim_control.EngineAdapter.Conserved.{worth, worth-apply_effect}
use crapssim_control.EngineAdapter.Money.{
  Moves, verb_press-Moves, box_bet-Moves, verb_take_down-Moves, verb_move_bet-Moves,
  pol_martingale_v1-Moves,
}
use crapssim_control.EngineAdapter.Sound.{Backed, Sound, InWholes-in_halves}
use crapssim_control.EngineAdapter.Halving.{verb_regress-Moves}

abbrev FitsOutcome : Dict String ℤ → VerbOutcome → Type 0
FitsOutcome bets (effect e) = Fits e.bets bets
FitsOutcome bets (failed error) = Unit

put_plain :
    (bets : Dict String ℤ) (c : Bool) (error key verb : String) (side : Option String) (v delta : ℤ)
    → NonNegative bets
    → (c ≡ false → pos 0 ≤ℤ amount_of key bets +ℤ v)
    → FitsOutcome bets (
        if c
        then failed error
        else effect (record (make_effect verb ((key, v) ∷ []) delta) { target_side = side }))
put_plain bets true error key verb side v delta h p = tt
put_plain bets false error key verb side v delta h p = (p refl, tt)

positive :
    (bets : Dict String ℤ) (key : String) (v : ℤ) (b : Bool)
    → NonNegative bets
    → (leb_ℤ v (pos 0) || b) ≡ false
    → pos 0 ≤ℤ amount_of key bets +ℤ whole v
positive bets key v b h e =
    omega (int_laws, whole_up v (ground (arith, e)), amount-NonNegative key bets h)

positive_alone :
    (bets : Dict String ℤ) (key : String) (v : ℤ)
    → NonNegative bets
    → leb_ℤ v (pos 0) ≡ false
    → pos 0 ≤ℤ amount_of key bets +ℤ whole v
positive_alone bets key v h e = positive bets key v false h (ground (arith, e))

handle-Fits :
    (v : Verb) (bets : Dict String ℤ) (s : Table) (args : PlainArgs)
    → NonNegative bets
    → Backed v bets s args
    → FitsOutcome bets (handle v s args)
unfolding handle verb_line_bet verb_come_bet verb_dont_come_bet verb_set_odds verb_take_odds
    verb_field_bet verb_hardway_bet verb_remove_line verb_remove_come verb_remove_dont_come
handle-Fits line_bet bets s args h b =
    put_plain bets _ _ _ _ _ _ _ h (positive_alone bets _ (amt args) h)
handle-Fits come_bet bets s args h b =
    put_plain bets _ _ _ _ _ _ _ h (positive_alone bets _ (amt args) h)
handle-Fits dont_come_bet bets s args h b =
    put_plain bets _ _ _ _ _ _ _ h (positive_alone bets _ (amt args) h)
handle-Fits set_odds bets s args h b =
    put_plain bets _ _ _ _ _ _ _ h (positive_alone bets _ (amt args) h)
handle-Fits take_odds bets s args h b =
    put_plain bets _ _ _ _ _ _ _ h
      (λ e. whole_le (amt args) (amount_of (odds_key args) bets) (ground (arith, e)) b)
handle-Fits field_bet bets s args h b =
    put_plain bets _ _ _ _ _ _ _ h (positive_alone bets _ (amt args) h)
handle-Fits hardway_bet bets s args h b =
    put_plain bets _ _ _ _ _ _ _ h (positive bets _ (amt args) _ h)
handle-Fits remove_line bets s args h b =
    Affords-Fits _ bets (take_down-Affords (line_targets s) [] bets (pos 0) b tt)
handle-Fits remove_come bets s args h b =
    Affords-Fits _ bets (take_down-Affords _ [] bets (pos 0) b tt)
handle-Fits remove_dont_come bets s args h b =
    Affords-Fits _ bets (take_down-Affords _ [] bets (pos 0) b tt)

of_outcome-Moves :
    (bets : Dict String ℤ) (o : VerbOutcome)
    → FitsOutcome bets o
    → Balances o
    → Moves bets (of_outcome o)
unfolding of_outcome of_plain
of_outcome-Moves bets (effect e) f b = (f, b)
of_outcome-Moves bets (failed error) f b = tt

name_effect-Moves :
    (bets : Dict String ℤ) (name : String) (o : Handled)
    → Moves bets o
    → Moves bets (name_effect name o)
name_effect-Moves bets name (raised e) h = h
name_effect-Moves bets name (handled e) h = h

run_found :
    (bets levels : Dict String ℤ) (policy : PolicyArgs) (name : String) (found : Option Policy)
    → NonNegative bets
    → IsWhole (default_to (pos 0) policy.delta)
    → Moves bets (elim found [
      | none ↦ raised other_error
      | some fn ↦ name_effect name (run_policy fn levels policy)
    ])
run_found bets levels policy name none h w = tt
run_found bets levels policy name (some martingale_v1) h w =
    name_effect-Moves bets name _ (pol_martingale_v1-Moves levels bets policy h w)

run_named :
    (bets levels : Dict String ℤ) (policy : PolicyArgs) (name : Option String)
    → NonNegative bets
    → IsWhole (default_to (pos 0) policy.delta)
    → Moves bets (elim name [
      | none ↦ raised other_error
      | some name ↦ elim (get name policy_registry) [
        | none ↦ raised other_error
        | some fn ↦ name_effect name (run_policy fn levels policy)
      ]
    ])
run_named bets levels policy none h w = tt
run_named bets levels policy (some name) h w =
    run_found bets levels policy name (get name policy_registry) h w

run_handler-Moves :
    (h : Handler) (levels : Dict String ℤ) (s : Table) (args : Args)
    → NonNegative s.bets
    → Sound h s args
    → Moves s.bets (run_handler h levels s args)
unfolding run_handler verb_place_bet verb_buy_bet verb_lay_bet verb_same_bet verb_switch_profile
    verb_apply_policy total_change ◌+ℤ◌
run_handler-Moves press levels s args n sound = verb_press-Moves s args n sound
run_handler-Moves regress levels s args n (d, even) = verb_regress-Moves s args d even
run_handler-Moves place_bet levels s args n sound = box_bet-Moves s _ _ args n sound
run_handler-Moves buy_bet levels s args n sound = box_bet-Moves s _ _ args n sound
run_handler-Moves lay_bet levels s args n sound = box_bet-Moves s _ _ args n sound
run_handler-Moves Registry.take_down levels s args n sound = verb_take_down-Moves s args n sound
run_handler-Moves move_bet levels s args n sound = verb_move_bet-Moves s args n sound
run_handler-Moves same_bet levels s args n sound = (tt, refl)
run_handler-Moves switch_profile levels s args n sound = (tt, refl)
run_handler-Moves apply_policy levels s args n sound =
    run_named s.bets levels (default_to no_policy args.policy) _ n sound
run_handler-Moves (supplement v) levels s args n (backed, amount) =
    let seen = in_halves s in
    of_outcome-Moves s.bets (handle v seen args.plain_args)
      (handle-Fits v s.bets seen args.plain_args n backed)
      (handle-Balances v seen args.plain_args (InWholes-in_halves v s args.plain_args amount))

-- Where a sound handler has an effect, its application keeps the worth and leaves no bet negative.
pub handled-worth :
    (h : Handler) (args : Args) (e : Effect) (s : Stub)
    → NonNegative s.bets
    → Sound h (effect_context s) args
    → run_handler h s.martingale_levels (effect_context s) args ≡ handled e
    → worth (apply_effect e s) ≡ worth s
unfolding effect_context
handled-worth h args e s n sound eq =
    let moves : Moves s.bets (run_handler h s.martingale_levels (effect_context s) args) =
      run_handler-Moves h s.martingale_levels (effect_context s) args n sound in
    let (fits, balance) : Moves s.bets (handled e) = rw eq at moves in
    worth-apply_effect e s n fits ∙ rw balance (omega int_laws)
