-- ===== src/LegalizeLegacy/Payout.antt =====
-- What legalized odds win: whole amounts, and on a lay never more than the policy allows.
use crapssim_control.Prelude.{
  ℕ, ◌*◌, ◌%◌, ◌≤◌, ◌≡◌, ap, ◌∙◌, true, false, arith, some, if◌then◌else◌,
}
use crapssim_control.Prelude.Int.{
  ℤ, neg_part_zero, pos, pos_part, ◌≤ℤ◌, max_ℤ, mod_ℤ, div_ℤ, *ℤ_pos,
}
use mathlib.Core.Path.{subst}
use crapssim_control.LegalizeLegacy.{
  Policy, one_of_two, is_point, max_multiple_for_point, odds_cap, pass_odds_step, legalize_odds,
  lay_odds_step, lay_amount_cap_from_win_cap, legalize_lay_odds,
}
use crapssim_control.LegalizeLegacy.Bounds.{
  odds_cap_clamped, lay_cap_pos, legalize_odds_bounds, legalize_lay_odds_bounds,
}

-- What a lay of `r` on the point wins, as a fraction: 1/2, 2/3 or 5/6 of it.
abbrev pub lay_ratio : ℕ → ℕ × ℕ
lay_ratio point =
    if one_of_two 4 10 point then (1, 2) else if one_of_two 5 9 point then (2, 3) else (5, 6)

-- What pass odds of `r` on the point win: 2/1, 3/2 or 6/5 of it.
abbrev pub pass_ratio : ℕ → ℕ × ℕ
pass_ratio point =
    if one_of_two 4 10 point then (2, 1) else if one_of_two 5 9 point then (3, 2) else (6, 5)

-- The cap on the lay at a point is exactly the win cap, through the point's ratio.
lay_cap_wins :
    (point w r : ℕ)
    → is_point point ≡ true
    → r ≤ pos_part (lay_amount_cap_from_win_cap point (pos w))
    → r * (lay_ratio point).0 ≤ w * (lay_ratio point).1
unfolding lay_amount_cap_from_win_cap div_ℤ is_point
lay_cap_wins point w r p = rw (*ℤ_pos w 2, *ℤ_pos w 3, *ℤ_pos w 6) (ground arith)

lay_step_divides :
    (point r : ℕ)
    → is_point point ≡ true
    → r % pos_part (lay_odds_step point false) ≡ 0
    → (r * (lay_ratio point).0) % (lay_ratio point).1 ≡ 0
unfolding lay_odds_step is_point
lay_step_divides point r p h = ground arith

pass_step_divides :
    (point r : ℕ)
    → is_point point ≡ true
    → r % pos_part (pass_odds_step point false) ≡ 0
    → (r * (pass_ratio point).0) % (pass_ratio point).1 ≡ 0
unfolding pass_odds_step is_point
pass_step_divides point r p h = ground arith

mod_ℤ_zero : (r : ℤ) (s : ℕ) → pos 0 ≤ℤ r → mod_ℤ r s ≡ pos 0 → pos_part r % s ≡ 0
unfolding mod_ℤ
mod_ℤ_zero r s h e = ground arith

-- Off the bubble table, lay odds at a point never win more than the policy's multiple of the flat
-- bet, and what they win is a whole number of units.
pub legalize_lay_odds_win :
    (point : ℕ) (desired flat : ℤ) (policy : Policy)
    → is_point point ≡ true
    → let r = pos_part (legalize_lay_odds (some point) desired flat false policy) in
      let win = odds_cap (max_ℤ (pos 0) (max_multiple_for_point point policy)) flat in
      let (num, den) = lay_ratio point in (r * num ≤ pos_part win * den) × ((r * num) % den ≡ 0)
legalize_lay_odds_win point desired flat policy p =
    let mult = max_multiple_for_point point policy in
    let r = legalize_lay_odds (some point) desired flat false policy in
    let fits = legalize_lay_odds_bounds point desired flat false policy in
    let clamped = odds_cap_clamped mult flat in
    let capped =
      ap (lay_amount_cap_from_win_cap point) clamped
      ∙ lay_cap_pos point (pos_part mult * pos_part flat) in
    let within = subst (λ c. r ≤ℤ c) capped fits.2 in
    (
      rw clamped (
          lay_cap_wins point (pos_part mult * pos_part flat) (pos_part r) p
            (omega (arith, fits.0, within, neg_part_zero r fits.0))),
      lay_step_divides point (pos_part r) p (mod_ℤ_zero r _ fits.0 fits.3),
    )

-- Off the bubble table, what pass odds at a point win is a whole number of units.
pub legalize_odds_win :
    (point : ℕ) (desired flat : ℤ) (policy : Policy)
    → is_point point ≡ true
    → let r = pos_part (legalize_odds (some point) desired flat false policy) in
      let (num, den) = pass_ratio point in (r * num) % den ≡ 0
legalize_odds_win point desired flat policy p =
    let r = legalize_odds (some point) desired flat false policy in
    let fits = legalize_odds_bounds point desired flat false policy in
    pass_step_divides point (pos_part r) p (mod_ℤ_zero r _ fits.0 fits.3)
