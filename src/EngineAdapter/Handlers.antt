-- ===== src/EngineAdapter/Handlers.antt =====
-- The built-in verb handlers, the martingale policy, and the two registries.
use crapssim_control.Prelude.{
  ℕ, zero, ◌+◌, ◌/◌, ◌%◌, String, ◌&&◌, ◌||◌, not, ◌⊎◌, inl, inr, Option, none, some, List, [], ◌∷◌,
  if◌then◌else◌, is_some, str_eq, default_to, ◌==◌,
}
use crapssim_control.Prelude.Int.{ℤ, pos, negsuc, ◌+ℤ◌, ◌*ℤ◌, ltb_ℤ, leb_ℤ}
use crapssim_control.Prelude.Dict.{Dict, insert, String_Eq}
use Prim.Native.String.{◌++◌ as str_append}
use crapssim_control.Verbs.Args.{
  Scalar, missing, number, text, Amount, plain, dict, Args as PlainArgs,
}
pub use crapssim_control.Verbs.Args.{halves, whole}
use crapssim_control.Verbs.Handlers.{Table, minus, text_or_else}
use crapssim_control.EngineAdapter.Names.{box_key}
use crapssim_control.EngineAdapter.Normalize.{amount_of}
use crapssim_control.EngineAdapter.Effects.{
  Target, bet_target, selector_target, moved, profile_target, Effect,
}

-- The dict `policy` of the args: `none` is a missing key. Its `delta` is in halves of a unit, like an amount.
pub record PolicyArgs : Type 0 where
  pub name : Option String
  pub step_key : Option String
  pub delta : Option ℤ
  pub max_level : Option ℤ

-- The args of an action. `plain_args` are those that the verbs of `Verbs` read.
pub record Args : Type 0 where
  pub plain_args : PlainArgs
  pub bet : Option String
  pub selector : Option (List String)
  pub move_from : Option String
  pub move_to : Option String
  pub details_profile : Option String
  pub profile : Option String
  pub policy : Option PolicyArgs
  pub step_key : Option String
  pub delta : Option ℤ
  pub max_level : Option ℤ

-- What a handler raises: a ValueError with its message, or another error.
pub data Error : Type 0 where
  value_error : String → Error
  attribute_error : Error
  other_error : Error

pub data Handled : Type 0 where
  handled : Effect → Handled
  raised : Error → Handled

-- `float((args.get("amount") or {}).get("value", 0))`: only a dict has `get`.
unfoldable pub read_value : Scalar → Error ⊎ ℤ
read_value missing = inl other_error
read_value (number n) = inr n
read_value (text s (some n)) = inr n
read_value (text s none) =
    inl (value_error (str_append "could not convert string to float: '" (str_append s "'")))

unfoldable pub amount_value : Amount → Error ⊎ ℤ
amount_value (plain missing) = inr (pos 0)
amount_value (plain (number (pos zero))) = inr (pos 0)
amount_value (plain (number n)) = inl attribute_error
amount_value (plain (text s read)) = if str_eq s "" then inr (pos 0) else inl attribute_error
amount_value (dict (some v) other) = read_value v
amount_value (dict none other) = inr (pos 0)

abbrev pub make_effect : String → Target → Dict String ℤ → ℤ → Effect
make_effect verb target bets delta = record {
  schema = "1.0";
  verb = verb;
  target = target;
  bets = bets;
  bankroll_delta = delta;
  policy = none;
  level_update = none;
}

-- `f"{x:.0f}"` of an x in halves: a half is rounded to the even number.
unfoldable pub half_even : ℕ → ℕ
half_even n = if n % 2 == 0 then n / 2 else n / 2 + (n / 2) % 2

unfoldable pub half_of : ℤ → ℤ
half_of (pos n) = pos (half_even n)
half_of (negsuc n) = minus (pos (half_even (n + 1)))

unfoldable pub verb_press : Table → Args → Handled
verb_press snapshot args = elim (amount_value args.plain_args.amount) [
  | inl e ↦ raised e
  | inr amt ↦
      if str_eq (default_to "" args.bet) "" || leb_ℤ amt (pos 0)
      then raised (value_error "press_invalid_args")
      else handled (
          make_effect "press" (bet_target args.bet) ((default_to "" args.bet, half_of amt) ∷ [])
            (minus amt))
]

-- The changes of the bets, `f"{current / 2:.0f}"` of a whole bet, and the halves that come back.
unfoldable pub regress_bets : Table → List String → Dict String ℤ × ℤ → Dict String ℤ × ℤ
regress_bets snapshot [] acc = acc
regress_bets snapshot (bet ∷ selector) (bets, back) =
    let current = amount_of bet snapshot.bets in
    regress_bets snapshot selector (
      if ltb_ℤ (pos 0) current
      then (insert bet (minus (half_of current)) bets, back +ℤ current)
      else (bets, back))

abbrev pub regress_selector : Args → List String
regress_selector args = elim args.selector [
  | some s ↦ s
  | none ↦ elim args.bet [ none ↦ [] | some b ↦ b ∷ [] ]
]

unfoldable pub verb_regress : Table → Args → Handled
verb_regress snapshot args = elim (regress_selector args) [
  | [] ↦ raised (value_error "regress_invalid_args")
  | b ∷ rest ↦
      let (bets, back) = regress_bets snapshot (b ∷ rest) ([], pos 0) in
      handled (make_effect "regress" (selector_target (b ∷ rest)) bets back)
]

unfoldable pub box_bet : String → String → Args → Handled
box_bet verb error args =
    let bet = default_to "" args.bet in
    elim (amount_value args.plain_args.amount) [
      | inl e ↦ raised e
      | inr val ↦
          if not (is_some (box_key bet)) || leb_ℤ val (pos 0)
          then raised (value_error error)
          else handled
              (make_effect verb (bet_target (some bet)) ((bet, whole val) ∷ []) (minus val))
    ]

unfoldable pub verb_place_bet : Table → Args → Handled
verb_place_bet snapshot = box_bet "place_bet" "place_bet_invalid_args"

unfoldable pub verb_buy_bet : Table → Args → Handled
verb_buy_bet snapshot = box_bet "buy_bet" "buy_bet_invalid_args"

unfoldable pub verb_lay_bet : Table → Args → Handled
verb_lay_bet snapshot = box_bet "lay_bet" "lay_bet_invalid_args"

unfoldable pub take_down_bets : Table → List String → Dict String ℤ × ℤ → Dict String ℤ × ℤ
take_down_bets snapshot [] acc = acc
take_down_bets snapshot (key ∷ sel) (bets, refund) =
    let current = amount_of key snapshot.bets in
    take_down_bets snapshot sel (
      if ltb_ℤ (pos 0) current
      then (insert key (minus current) bets, refund +ℤ current)
      else (bets, refund))

unfoldable pub verb_take_down : Table → Args → Handled
verb_take_down snapshot args =
    let sel = default_to [] args.selector in
    let (bets, refund) = take_down_bets snapshot sel ([], pos 0) in
    handled (make_effect "take_down" (selector_target sel) bets (halves refund))

unfoldable pub verb_move_bet : Table → Args → Handled
verb_move_bet snapshot args =
    let src = default_to "" args.move_from in
    let dst = default_to "" args.move_to in
    let current = amount_of src snapshot.bets in
    if is_some (box_key src) && is_some (box_key dst) && ltb_ℤ (pos 0) current
    then handled (
        make_effect "move_bet" (moved src dst) (insert dst current ((src, minus current) ∷ []))
          (pos 0))
    else raised (value_error "move_bet_invalid_args")

unfoldable pub verb_same_bet : Table → Args → Handled
verb_same_bet snapshot args = handled (make_effect "same_bet" (bet_target args.bet) [] (pos 0))

unfoldable pub verb_switch_profile : Table → Args → Handled
verb_switch_profile snapshot args =
    let name = text_or_else args.details_profile (text_or_else args.profile "default") in
    handled (make_effect "switch_profile" (profile_target name) [] (pos 0))

-- `levels` are those of the stub.
unfoldable pub next_level : Dict String ℤ → String → ℤ → ℤ
next_level levels key max_level =
    let level = amount_of key levels +ℤ pos 1 in if ltb_ℤ max_level level then pos 0 else level

unfoldable pub pol_martingale_v1 : Dict String ℤ → PolicyArgs → Handled
pol_martingale_v1 levels args =
    let key = default_to "" args.step_key in
    let delta = default_to (pos 0) args.delta in
    let max_level = default_to (pos 1) args.max_level in
    let level = next_level levels key max_level in
    let increment = delta *ℤ (if ltb_ℤ (pos 0) level then level else pos 0) in
    if str_eq key "" || leb_ℤ delta (pos 0) || ltb_ℤ max_level (pos 1)
    then raised (value_error "martingale_invalid_args")
    else handled record {
      schema = "";
      verb = "";
      target = bet_target (some key);
      bets = if ltb_ℤ (pos 0) increment then (key, half_of increment) ∷ [] else [];
      bankroll_delta = if ltb_ℤ (pos 0) increment then minus increment else pos 0;
      policy = none;
      level_update = some (key, level);
    }
