-- ===== src/Verbs/Args.antt =====
-- `_amt` and `_pt`: the amount and the point that the args of a verb give. An amount is in halves of a unit, so that
-- an amount that `int` cuts off is in the model.
use Prim.Native.String.{◌++◌ as str_append}
use crapssim_control.Prelude.{◌+◌, ◌/◌, String, Option, none, some, default_to}
use crapssim_control.Prelude.Int.{ℤ, pos, negsuc, ◌+ℤ◌, ◌-ℤ◌}
use crapssim_control.BetLedger.Names.{decimal}

-- A value of the args: missing, a number, or a text, with the number that is read from it: for an amount what
-- `float` reads, in halves, and for a point what `int` reads.
pub data Scalar : Type 0 where
  missing : Scalar
  number : ℤ → Scalar
  text : String → Option ℤ → Scalar

-- Whole units as halves, and `int(x)` of an amount x in halves, which cuts off towards 0.
abbrev pub halves : ℤ → ℤ
halves n = n +ℤ n

unfoldable pub whole : ℤ → ℤ
whole (pos n) = pos (n / 2)
whole (negsuc n) = pos 0 -ℤ pos ((n + 1) / 2)

-- The `amount`: a value, or a dict with its `value` and `amount`, where `none` is a missing key.
pub data Amount : Type 0 where
  plain : Scalar → Amount
  dict : Option Scalar → Option Scalar → Amount

pub record Args : Type 0 where
  pub amount : Amount
  pub point : Scalar
  pub number : Scalar
  pub side : Option String
  pub on : Option String

-- `amount.get("value", amount.get("amount", 0.0))`
abbrev pub amount_value : Amount → Scalar
amount_value (plain v) = v
amount_value (dict (some v) other) = v
amount_value (dict none (some v)) = v
amount_value (dict none none) = number (pos 0)

unfoldable pub amt : Args → ℤ
amt args = elim (amount_value args.amount) [
  | missing ↦ pos 0
  | number n ↦ n
  | text s read ↦ default_to (pos 0) read
]

unfoldable pub int_text : ℤ → String
int_text (pos n) = decimal n
int_text (negsuc n) = str_append "-" (decimal (n + 1))

abbrev pub as_int : Scalar → Option ℤ
as_int missing = none
as_int (number n) = some n
as_int (text s read) = read

abbrev pub candidate : Args → Scalar
candidate args = elim args.point [ missing ↦ args.number | p ↦ p ]

unfoldable pub pt : Args → Option String
pt args = elim (as_int (candidate args)) [ none ↦ none | some n ↦ some (int_text n) ]
