-- ===== src/EngineAdapter/Sound.antt =====
-- The args with which a handler moves money, and the whole bets that the verbs of crapssim_control/verbs.py read.
use crapssim_control.Prelude.{
  String, false, [], ◌∷◌, ◌≡◌, refl, str_eq, default_to, inl, inr, Bool-cases,
}
use crapssim_control.Prelude.Int.{ℤ, pos, ◌+ℤ◌, ◌≤ℤ◌}
use crapssim_control.Prelude.Dict.{Dict, lookup, String_Eq}
use crapssim_control.Verbs.Args.{amt, halves, Args as PlainArgs}
use crapssim_control.Verbs.Whole.{IsWhole, halves-IsWhole}
use crapssim_control.Verbs.Balance.{AllWhole, InWholes, come_targets, dont_come_targets}
use crapssim_control.Verbs.Handlers.{
  Table, Verb, line_bet, come_bet, dont_come_bet, set_odds, take_odds, field_bet, hardway_bet,
  remove_line, remove_come, remove_dont_come, odds_key, line_targets, point_targets, come_amount,
  amount_at,
}
use crapssim_control.EngineAdapter.Normalize.{amount_of}
use crapssim_control.EngineAdapter.Handlers.{Args, amount_value, regress_selector}
use crapssim_control.EngineAdapter.Registry
use crapssim_control.EngineAdapter.Registry.{
  Handler, press, regress, place_bet, buy_bet, lay_bet, move_bet, same_bet, switch_profile,
  apply_policy, supplement, double_all, in_halves, of_outcome, of_plain, run_handler, verb_registry,
  policy_registry, get, run_policy, name_effect, no_policy, verb_apply_policy, Policy,
  martingale_v1,
}
use crapssim_control.EngineAdapter.Takings.{Distinct, Covered}
use crapssim_control.EngineAdapter.Money.{ReadsWhole}
use crapssim_control.EngineAdapter.Halving.{AllEven}

-- What the taking verbs of crapssim_control/verbs.py take, in halves, is there.
abbrev pub Backed : Verb → Dict String ℤ → Table → PlainArgs → Type 0
Backed take_odds bets s args = amt args ≤ℤ halves (amount_of (odds_key args) bets)
Backed remove_line bets s args = Covered (line_targets s) bets
Backed remove_come bets s args = Covered (come_targets s) bets
Backed remove_dont_come bets s args = Covered (dont_come_targets s) bets
Backed _ bets s args = Unit

-- The amount of a verb that reads one is whole.
abbrev pub WholeAmount : Verb → PlainArgs → Type 0
WholeAmount remove_line args = Unit
WholeAmount remove_come args = Unit
WholeAmount remove_dont_come args = Unit
WholeAmount _ args = IsWhole (amt args)

-- Amounts are whole, `take_down` and `regress` name each bet once, `regress` halves even bets, and `move_bet` moves to
-- another bet.
abbrev pub Sound : Handler → Table → Args → Type 0
Sound press s args = ReadsWhole (amount_value args.plain_args.amount)
Sound place_bet s args = ReadsWhole (amount_value args.plain_args.amount)
Sound buy_bet s args = ReadsWhole (amount_value args.plain_args.amount)
Sound lay_bet s args = ReadsWhole (amount_value args.plain_args.amount)
Sound Registry.take_down s args = Distinct (default_to [] args.selector)
Sound regress s args = Distinct (regress_selector args) × AllEven (regress_selector args) s.bets
Sound move_bet s args = str_eq (default_to "" args.move_from) (default_to "" args.move_to) ≡ false
Sound apply_policy s args = IsWhole (default_to (pos 0) (default_to no_policy args.policy).delta)
Sound (supplement v) s args =
    Backed v s.bets (in_halves s) args.plain_args × WholeAmount v args.plain_args
Sound _ s args = Unit

amount_at-double_all :
    (k : String) (d : Dict String ℤ) → amount_at k (double_all d) ≡ halves (amount_at k d)
unfolding double_all lookup ◌+ℤ◌
amount_at-double_all k [] = refl
amount_at-double_all k ((j, v) ∷ d) = elim (Bool-cases (str_eq j k)) [
  | inl e ↦ rw e refl
  | inr e ↦ rw e (amount_at-double_all k d)
]

doubled : (k : String) (d : Dict String ℤ) → IsWhole (amount_at k (double_all d))
doubled k d = rw (amount_at-double_all k d) (halves-IsWhole (amount_at k d))

point_targets-AllWhole :
    (flat odds : String → ℤ) (prefix : String)
    → ((k : String) → IsWhole (flat k))
    → ((k : String) → IsWhole (odds k))
    → AllWhole (point_targets flat odds prefix)
point_targets-AllWhole flat odds prefix f o = (
  f "4",
  (
    o "4",
    (f "5", (o "5", (f "6", (o "6", (f "8", (o "8", (f "9", (o "9", (f "10", (o "10", tt)))))))))),
  ),
)

come_amount-IsWhole : (s : Table) (k : String) → IsWhole (come_amount (in_halves s) k)
unfolding in_halves double_all
come_amount-IsWhole s k = flat_or_bets s.come_flat
  where
    flat_or_bets :
        (d : Dict String ℤ)
        → IsWhole
            (amount_at k (elim (double_all d) [ [] ↦ double_all s.bets | b ∷ rest ↦ double_all d ]))
    flat_or_bets [] = doubled k s.bets
    flat_or_bets ((j, v) ∷ d) = doubled k ((j, v) ∷ d)

-- The bets of the stub are whole, and so are those that a removing verb reads.
pub InWholes-in_halves :
    (v : Verb) (s : Table) (args : PlainArgs) → WholeAmount v args → InWholes v (in_halves s) args
unfolding in_halves
InWholes-in_halves line_bet s args w = w
InWholes-in_halves come_bet s args w = w
InWholes-in_halves dont_come_bet s args w = w
InWholes-in_halves set_odds s args w = w
InWholes-in_halves take_odds s args w = w
InWholes-in_halves field_bet s args w = w
InWholes-in_halves hardway_bet s args w = w
InWholes-in_halves remove_line s args w = (
  doubled "pass" s.bets,
  (doubled "dont_pass" s.bets, (doubled "pass" s.odds, (doubled "dont_pass" s.odds, tt))),
)
InWholes-in_halves remove_come s args w =
    point_targets-AllWhole _ _ "odds_come_" (come_amount-IsWhole s) (λ k. doubled k s.come_odds)
InWholes-in_halves remove_dont_come s args w =
    point_targets-AllWhole _ _ "odds_dc_" (λ k. doubled k s.dc_flat) (λ k. doubled k s.dc_odds)
