-- ===== src/Verbs/Handlers.antt =====
-- The handlers, and their registration. Amounts, the bets of the table and the change of the bankroll are in halves of
-- a unit. A bet's change, the text of a signed whole number in the code, is that number.
use Prim.Native.String.{◌++◌ as str_append}
use crapssim_control.Prelude.{
  String, Bool, not, ◌&&◌, ◌||◌, Option, none, some, List, [], ◌∷◌, if◌then◌else◌, default_to,
  is_some, str_eq,
}
use crapssim_control.Prelude.Int.{ℤ, pos, ◌+ℤ◌, ◌-ℤ◌, ltb_ℤ, leb_ℤ, eqb_ℤ}
use crapssim_control.Prelude.Dict.{Dict, lookup, insert, String_Eq}
use crapssim_control.Verbs.Args.{Args, amt, pt, as_int, int_text, whole}

-- The bets of the table: a dict that is missing is empty here.
pub record Table : Type 0 where
  pub bets : Dict String ℤ
  pub odds : Dict String ℤ
  pub come_odds : Dict String ℤ
  pub dc_odds : Dict String ℤ
  pub come_flat : Dict String ℤ
  pub dc_flat : Dict String ℤ

pub record Effect : Type 0 where
  pub schema : String
  pub verb : String
  pub target_side : Option String
  pub bets : Dict String ℤ
  pub bankroll_delta : ℤ
  pub policy : Option String

-- `failed` is the ValueError.
pub data VerbOutcome : Type 0 where
  effect : Effect → VerbOutcome
  failed : String → VerbOutcome

abbrev pub minus : ℤ → ℤ
minus n = pos 0 -ℤ n

abbrev pub make_effect : String → Dict String ℤ → ℤ → Effect
make_effect verb bets delta = record {
  schema = "1.0";
  verb = verb;
  target_side = none;
  bets = bets;
  bankroll_delta = delta;
  policy = none;
}

-- `x or y` on texts
abbrev pub text_or_else : Option String → String → String
text_or_else none other = other
text_or_else (some s) other = if str_eq s "" then other else s

unfoldable pub verb_line_bet : Table → Args → VerbOutcome
verb_line_bet snapshot args =
    let side = text_or_else args.side "pass" in
    let key = if str_eq side "pass" then "pass" else "dont_pass" in
    if leb_ℤ (amt args) (pos 0)
    then failed "line_bet_invalid_args"
    else effect (record (make_effect "line_bet" ((key, whole (amt args)) ∷ []) (minus (amt args))) {
      target_side = some side;
    })

unfoldable pub verb_come_bet : Table → Args → VerbOutcome
verb_come_bet snapshot args =
    if leb_ℤ (amt args) (pos 0)
    then failed "come_bet_invalid_args"
    else effect (make_effect "come_bet" (("come", whole (amt args)) ∷ []) (minus (amt args)))

unfoldable pub verb_dont_come_bet : Table → Args → VerbOutcome
verb_dont_come_bet snapshot args =
    if leb_ℤ (amt args) (pos 0)
    then failed "dont_come_bet_invalid_args"
    else effect (make_effect "dont_come_bet" (("dc", whole (amt args)) ∷ []) (minus (amt args)))

-- The key of the odds, the same in `set_odds` and `take_odds`
unfoldable pub odds_key : Args → String
odds_key args =
    let on = text_or_else args.on (text_or_else args.side "pass") in
    if str_eq on "dp" || str_eq on "dont_pass"
    then "odds_dont_pass"
    else if str_eq on "dc" && is_some (pt args)
    then str_append "odds_dc_" (default_to "" (pt args))
    else if str_eq on "come" && is_some (pt args)
    then str_append "odds_come_" (default_to "" (pt args))
    else "odds_pass"

unfoldable pub verb_set_odds : Table → Args → VerbOutcome
verb_set_odds snapshot args =
    if leb_ℤ (amt args) (pos 0)
    then failed "set_odds_invalid_args"
    else effect (make_effect "set_odds" ((odds_key args, whole (amt args)) ∷ []) (minus (amt args)))

unfoldable pub verb_take_odds : Table → Args → VerbOutcome
verb_take_odds snapshot args =
    if leb_ℤ (amt args) (pos 0)
    then failed "take_odds_invalid_args"
    else effect
        (make_effect "take_odds" ((odds_key args, minus (whole (amt args))) ∷ []) (amt args))

unfoldable pub verb_field_bet : Table → Args → VerbOutcome
verb_field_bet snapshot args =
    if leb_ℤ (amt args) (pos 0)
    then failed "field_bet_invalid_args"
    else effect (make_effect "field_bet" (("field", whole (amt args)) ∷ []) (minus (amt args)))

abbrev pub is_hardway : ℤ → Bool
is_hardway n = eqb_ℤ n (pos 4) || eqb_ℤ n (pos 6) || eqb_ℤ n (pos 8) || eqb_ℤ n (pos 10)

unfoldable pub verb_hardway_bet : Table → Args → VerbOutcome
verb_hardway_bet snapshot args =
    let point = default_to (pos 0) (as_int args.number) in
    if leb_ℤ (amt args) (pos 0) || not (is_hardway point)
    then failed "hardway_bet_invalid_args"
    else effect (
        make_effect "hardway_bet" ((str_append "hardway_" (int_text point), whole (amt args)) ∷ [])
          (minus (amt args)))

-- The bets of a removing verb: the whole part of a bet that is up comes down, and all of it is refunded.
unfoldable pub take_down : List (String × ℤ) → Dict String ℤ → ℤ → Dict String ℤ × ℤ
take_down [] bets refund = (bets, refund)
take_down ((key, cur) ∷ rest) bets refund =
    take_down rest (if ltb_ℤ (pos 0) cur then insert key (minus (whole cur)) bets else bets)
      (if ltb_ℤ (pos 0) cur then refund +ℤ cur else refund)

abbrev pub amount_at : String → Dict String ℤ → ℤ
amount_at key d = default_to (pos 0) (lookup key d)

abbrev pub remove_all : String → List (String × ℤ) → VerbOutcome
remove_all verb targets =
    let (bets, refund) = take_down targets [] (pos 0) in effect (make_effect verb bets refund)

abbrev pub line_targets : Table → List (String × ℤ)
line_targets s =
    ("pass", amount_at "pass" s.bets)
    ∷ ("dont_pass", amount_at "dont_pass" s.bets)
    ∷ ("odds_pass", amount_at "pass" s.odds)
    ∷ ("odds_dont_pass", amount_at "dont_pass" s.odds)
    ∷ []

unfoldable pub verb_remove_line : Table → Args → VerbOutcome
verb_remove_line snapshot args = remove_all "remove_line" (line_targets snapshot)

-- A flat bet on each point, and then the odds behind it.
abbrev pub point_targets : (String → ℤ) → (String → ℤ) → String → List (String × ℤ)
point_targets flat odds prefix =
    ("4", flat "4")
    ∷ (str_append prefix "4", odds "4")
    ∷ ("5", flat "5")
    ∷ (str_append prefix "5", odds "5")
    ∷ ("6", flat "6")
    ∷ (str_append prefix "6", odds "6")
    ∷ ("8", flat "8")
    ∷ (str_append prefix "8", odds "8")
    ∷ ("9", flat "9")
    ∷ (str_append prefix "9", odds "9")
    ∷ ("10", flat "10")
    ∷ (str_append prefix "10", odds "10")
    ∷ []

abbrev pub come_amount : Table → String → ℤ
come_amount s p = amount_at p (elim s.come_flat [ [] ↦ s.bets | b ∷ rest ↦ s.come_flat ])

unfoldable pub verb_remove_come : Table → Args → VerbOutcome
verb_remove_come snapshot args =
    remove_all "remove_come"
      (point_targets (come_amount snapshot) (λ p. amount_at p snapshot.come_odds) "odds_come_")

unfoldable pub verb_remove_dont_come : Table → Args → VerbOutcome
verb_remove_dont_come snapshot args = remove_all "remove_dont_come" (
    point_targets (λ p. amount_at p snapshot.dc_flat) (λ p. amount_at p snapshot.dc_odds)
      "odds_dc_")

-- The verbs that are registered, by their names
pub data Verb : Type 0 where
  line_bet come_bet dont_come_bet set_odds take_odds field_bet hardway_bet : Verb
  remove_line remove_come remove_dont_come : Verb

unfoldable pub handle : Verb → Table → Args → VerbOutcome
handle line_bet = verb_line_bet
handle come_bet = verb_come_bet
handle dont_come_bet = verb_dont_come_bet
handle set_odds = verb_set_odds
handle take_odds = verb_take_odds
handle field_bet = verb_field_bet
handle hardway_bet = verb_hardway_bet
handle remove_line = verb_remove_line
handle remove_come = verb_remove_come
handle remove_dont_come = verb_remove_dont_come
