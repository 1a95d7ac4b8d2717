-- ===== src/Templates/Envelope.antt =====
-- `make_action` of crapssim_control/actions.py: the envelope of an action.
use crapssim_control.Prelude.{String, Bool, ◌||◌, Option, none, some, if◌then◌else◌, str_eq}
use crapssim_control.Prelude.Text.{lower}
use crapssim_control.Prelude.Int.{ℤ}

-- An action, where `none` is a key that is missing or `None`.
pub record Action : Type 0 where
  pub action : String
  pub bet_type : Option String
  pub amount : Option ℤ
  pub source : Option String
  pub id : Option String
  pub notes : Option String
  pub working_on_comeout : Option Bool

abbrev allowed_source : String → Bool
allowed_source src = str_eq src "template" || str_eq src "rule"

abbrev allowed_action : String → Bool
allowed_action act =
    str_eq act "set"
    || str_eq act "clear"
    || str_eq act "press"
    || str_eq act "reduce"
    || str_eq act "switch_mode"
    || str_eq act "setvar"

abbrev non_empty : Option String → Option String
non_empty none = none
non_empty (some s) = if str_eq s "" then none else some s

unfoldable pub make_action : String → Option String → Option ℤ → String → String → String → Action
make_action action bet_type amount source id notes = record {
  action = if allowed_action (lower action) then lower action else action;
  bet_type = non_empty bet_type;
  amount = amount;
  source = some (if allowed_source (lower source) then lower source else "template");
  id = some id;
  notes = some notes;
  working_on_comeout = none;
}
