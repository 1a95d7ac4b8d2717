-- ===== src/Legalize/Exact.antt =====
-- What a legal amount is, for every bet.
use crapssim_control.Prelude.{
  ℕ, zero, suc, ◌+◌, ◌*◌, ◌/◌, ◌≤◌, ◌<◌, ◌≡◌, ◌⊎◌, refl, none, some, ltb, arith,
}
use native.Mathlib.Nat.{mod-lt, div-add-mod}
use crapssim_control.Prelude.Int.{ℤ, pos, negsuc}
use crapssim_control.Legalize.{
  Settings, cfg, legalize_amount, TableCfg, BetType, pass_line, dont_pass, come, dont_come, field,
  lay, odds, other, place, Reason, Flags, no_flags, smaller, round_down, cap_odds_amount,
  place_increment, flagged, legalize_positive,
}

-- The step of a bet in dollars, where 0 counts as 1.
abbrev pub at_least_one : ℕ → ℕ
at_least_one zero = 1
at_least_one (suc s) = suc s

abbrev pub step_of : BetType → TableCfg → ℕ
step_of (place (some n)) c = at_least_one (place_increment c n)
step_of bt c = 1

-- The room for the bet, in hundredths of a cent: the request, and for odds no more than the multiple of the line bet.
abbrev pub room : BetType → ℕ → TableCfg → ℕ → ℕ
room odds amt c base = smaller (amt * 100) (base * c.max_odds_multiple)
room bt amt c base = amt * 100

-- The greatest number of whole steps that is in the room, flagged exactly if it is less than the request.
abbrev pub FillsRoom : BetType → ℕ → TableCfg → ℕ → ℕ × Flags → Type 0
FillsRoom bt amt c base (legal, flags) =
    (legal * 10000 ≤ room bt amt c base)
    × (room bt amt c base < (legal + step_of bt c) * 10000)
    × (flags.clamped ≡ ltb (legal * 100) amt)

-- The request in whole dollars, or the table's minimum, flagged exactly if that is more.
abbrev pub CoversLevel : ℕ → TableCfg → ℕ × Flags → Type 0
CoversLevel amt c (legal, flags) =
    (c.level ≤ legal)
    × ((legal ≡ c.level) ⊎ (legal * 100 ≤ amt))
    × (amt < (legal + 1) * 100)
    × (flags.clamped ≡ ltb (amt / 100) c.level)

abbrev pub IsLegal : BetType → ℕ → TableCfg → ℕ → ℕ × Flags → Type 0
IsLegal pass_line amt c base result = CoversLevel amt c result
IsLegal dont_pass amt c base result = CoversLevel amt c result
IsLegal (place none) amt c base result = result.0 ≡ 0
IsLegal bt amt c base result = FillsRoom bt amt c base result

round_down_exact :
    (amt step : ℕ)
    → (round_down amt step * 100 ≤ amt) × (amt < (round_down amt step + at_least_one step) * 100)
unfolding round_down
round_down_exact amt zero = omega arith
round_down_exact amt (suc s) =
    let d = suc s * 100 in
    let q = amt / d in
    let positive : 0 < d = omega arith in omega (arith, div-add-mod amt d, mod-lt amt positive)

whole_units : (m : ℕ) → (m / 10000 * 10000 ≤ m) × (m < (m / 10000 + 1) * 10000)
whole_units m = omega arith

clamped-flagged :
    (legal amt : ℕ) (r : Reason) → (flagged legal amt r).1.clamped ≡ ltb (legal * 100) amt
clamped-flagged legal amt r = ground arith

legalize_positive-IsLegal :
    (bt : BetType) (amt : ℕ) (c : TableCfg) (base : ℕ)
    → IsLegal bt amt c base (legalize_positive bt amt c base)
unfolding legalize_positive cap_odds_amount
legalize_positive-IsLegal pass_line amt c base = ground arith
legalize_positive-IsLegal dont_pass amt c base = ground arith
legalize_positive-IsLegal come amt c base = ground arith
legalize_positive-IsLegal dont_come amt c base = ground arith
legalize_positive-IsLegal field amt c base = ground arith
legalize_positive-IsLegal lay amt c base = ground arith
legalize_positive-IsLegal other amt c base = ground arith
legalize_positive-IsLegal odds amt c base =
    let whole = whole_units (room odds amt c base) in
    (whole.0, whole.1, clamped-flagged (cap_odds_amount base amt c.max_odds_multiple) amt _)
legalize_positive-IsLegal (place none) amt c base = refl
legalize_positive-IsLegal (place (some n)) amt c base =
    let exact = round_down_exact amt (place_increment c n) in
    (
      omega (arith, exact),
      omega (arith, exact),
      clamped-flagged (round_down amt (place_increment c n)) amt _,
    )

abbrev pub IsLegalFor : BetType → ℤ → Settings → ℕ → ℕ × Flags → Type 0
IsLegalFor bt (pos (suc n)) s base result = IsLegal bt (suc n) (cfg s) base result
IsLegalFor bt raw s base result = result ≡ (0, no_flags)

-- A request of nothing or less is legal as 0. Above 0 a pass line or don't pass bet is the request in whole dollars
-- or the table's minimum if that is more, and is flagged exactly then. Every other bet, a place bet of no number
-- apart, which is 0, is the greatest number of its steps within the request, for odds also within the multiple of
-- the line bet, and is flagged exactly if it is less than the request.
pub legalize_amount-IsLegal :
    (bt : BetType) (raw : ℤ) (s : Settings) (base : ℕ)
    → IsLegalFor bt raw s base (legalize_amount bt raw s base)
unfolding legalize_amount
legalize_amount-IsLegal bt (pos zero) s base = refl
legalize_amount-IsLegal bt (pos (suc n)) s base = legalize_positive-IsLegal bt (suc n) (cfg s) base
legalize_amount-IsLegal bt (negsuc n) s base = refl
