-- ===== src/Legalize.antt =====
-- crapssim_control/legalize.py: the runtime legalizer. Amounts are in cents, a legal amount is in dollars, and a
-- multiple is in hundredths. The settings are not negative. A reason, a text in the code, is a constructor.
use crapssim_control.Prelude.{
  ℕ, zero, suc, ◌+◌, ◌-◌, ◌*◌, ◌/◌, Bool, true, false, Option, none, some, default_to,
  if◌then◌else◌, ltb, leb, ◌==◌, ◌||◌,
}
use crapssim_control.Prelude.Int.{ℤ, pos, negsuc}
mod Exact
mod Tests

pub record TableCfg : Type 0 where
  pub bubble : Bool
  pub level : ℕ
  pub place_410_increment : ℕ
  pub max_odds_multiple : ℕ

-- The config that is given, with what is missing from it as `none`.
pub record Settings : Type 0 where
  pub bubble : Option Bool
  pub level : Option ℕ
  pub place_410_increment : Option ℕ
  pub max_odds_multiple : Option ℕ

-- `_cfg`
abbrev pub cfg : Settings → TableCfg
cfg s = record {
  bubble = default_to false s.bubble;
  level = default_to 10 s.level;
  place_410_increment = default_to 5 s.place_410_increment;
  max_odds_multiple = default_to 300 s.max_odds_multiple;
}

-- The names of the bets, with the number of `place_` as `int` reads it, `none` where it does not.
pub data BetType : Type 0 where
  pass_line dont_pass come dont_come field lay odds other : BetType
  place : Option ℕ → BetType

pub data Reason : Type 0 where
  min_level : ℕ → Reason
  come_step_1 field_step_1 lay_step_1 fallback_step_1 : Reason
  place_step : ℕ → Reason
  odds_cap : ℕ → Reason

pub record Flags : Type 0 where
  pub clamped : Bool
  pub reason : Option Reason

abbrev pub no_flags : Flags
no_flags = record { clamped = false; reason = none }

abbrev pub clamped_by : Reason → Flags
clamped_by r = record { clamped = true; reason = some r }

abbrev pub smaller : ℕ → ℕ → ℕ
smaller a b = if leb a b then a else b

-- `_round_down`, of cents to dollars
unfoldable pub round_down : ℕ → ℕ → ℕ
round_down amount zero = amount / 100
round_down amount (suc s) = amount / (suc s * 100) * suc s

-- `cap_odds_amount`, for an amount above 0
unfoldable pub cap_odds_amount : ℕ → ℕ → ℕ → ℕ
cap_odds_amount base raw max_multiple = smaller (raw * 100) (base * max_multiple) / 10000

-- The increment of a place bet
abbrev pub place_increment : TableCfg → ℕ → ℕ
place_increment c n =
    if c.bubble
    then 1
    else if n == 6 || n == 8
    then 6
    else if n == 5 || n == 9
    then 5
    else if n == 4 || n == 10
    then c.place_410_increment
    else 1

-- A legal amount that is lower than the request is flagged.
abbrev pub flagged : ℕ → ℕ → Reason → ℕ × Flags
flagged legal amt reason = (legal, if ltb (legal * 100) amt then clamped_by reason else no_flags)

abbrev pub line_amount : TableCfg → ℕ → ℕ × Flags
line_amount c amt =
    if ltb (amt / 100) c.level
    then (c.level, clamped_by (min_level c.level))
    else (amt / 100, no_flags)

-- `legalize_amount`, for an amount above 0
unfoldable pub legalize_positive : BetType → ℕ → TableCfg → ℕ → ℕ × Flags
legalize_positive pass_line amt c base = line_amount c amt
legalize_positive dont_pass amt c base = line_amount c amt
legalize_positive come amt c base = flagged (amt / 100) amt come_step_1
legalize_positive dont_come amt c base = flagged (amt / 100) amt come_step_1
legalize_positive field amt c base = flagged (amt / 100) amt field_step_1
legalize_positive (place none) amt c base = (0, no_flags)
legalize_positive (place (some n)) amt c base =
    let step = place_increment c n in flagged (round_down amt step) amt (place_step step)
legalize_positive lay amt c base = flagged (amt / 100) amt lay_step_1
legalize_positive odds amt c base =
    flagged (cap_odds_amount base amt c.max_odds_multiple) amt (odds_cap c.max_odds_multiple)
legalize_positive other amt c base = flagged (amt / 100) amt fallback_step_1

-- `legalize_amount`
unfoldable pub legalize_amount : BetType → ℤ → Settings → ℕ → ℕ × Flags
legalize_amount bt (pos zero) s base = (0, no_flags)
legalize_amount bt (pos (suc n)) s base = legalize_positive bt (suc n) (cfg s) base
legalize_amount bt (negsuc n) s base = (0, no_flags)
