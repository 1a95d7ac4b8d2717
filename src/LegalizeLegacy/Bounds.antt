-- ===== src/LegalizeLegacy/Bounds.antt =====
-- What legalized odds satisfy: bounds, steps, and that no greater amount is legal.
use crapssim_control.Prelude.{
  ℕ, ◌*◌, ◌%◌, ◌≤◌, ◌<◌, ◌≡◌, Bool, true, false, arith, some, Bool-cases, inl, inr, ◌&&◌, not,
}
use crapssim_control.Prelude.Int.{
  ℤ, pos, negsuc, pos_part, ◌≤ℤ◌, ◌<ℤ◌, max_ℤ, mod_ℤ, div_ℤ, leb_ℤ, *ℤ_pos,
}
use Prim.Native.Nat.{min}
use native.Mathlib.Nat.{zero-mod}
use crapssim_control.LegalizeLegacy.{
  Policy, is_point, max_multiple_for_point, odds_cap, pass_odds_step, legalize_odds, lay_odds_step,
  lay_amount_cap_from_win_cap, legalize_lay_odds,
}
use crapssim_control.LegalizeLegacy.Rounding.{
  floor_to, floor_to-mod, floor_to_greatest, clamp_and_round_pos,
}

-- A cap from a positive multiple is not negative.
odds_cap_pos :
    (mult flat : ℤ)
    → leb_ℤ mult (pos 0) ≡ false
    → odds_cap mult flat ≡ pos (pos_part mult * pos_part flat)
unfolding odds_cap max_ℤ
odds_cap_pos (pos m) (pos f) h = rw (← *ℤ_pos m f) (ground arith)
odds_cap_pos (pos m) (negsuc f) h = rw (← *ℤ_pos m 0) (ground arith)
odds_cap_pos (negsuc m) f h = ground arith

-- With a multiple below 0 read as 0.
pub odds_cap_clamped :
    (mult flat : ℤ) → odds_cap (max_ℤ (pos 0) mult) flat ≡ pos (pos_part mult * pos_part flat)
unfolding odds_cap max_ℤ
odds_cap_clamped (pos m) (pos f) = rw (← *ℤ_pos m f) (ground arith)
odds_cap_clamped (pos m) (negsuc f) = rw (← *ℤ_pos m 0) (ground arith)
odds_cap_clamped (negsuc m) (pos f) = ground (arith, *ℤ_pos 0 f)
odds_cap_clamped (negsuc m) (negsuc f) = ground (arith, *ℤ_pos 0 0)

-- `r` is in range and on the step.
abbrev pub Fits : ℤ → ℤ → ℕ → ℤ → Type 0
Fits desired cap step r =
    (pos 0 ≤ℤ r) × (r ≤ℤ max_ℤ (pos 0) desired) × (r ≤ℤ cap) × (mod_ℤ r step ≡ pos 0)

floor_to-Fits : (d : ℤ) (k t : ℕ) → 0 < t → Fits d (pos k) t (pos (floor_to t (min (pos_part d) k)))
unfolding mod_ℤ max_ℤ
floor_to-Fits d k t h = ground (arith, floor_to-mod t (min (pos_part d) k) h)

zero-Fits : (d : ℤ) (k t : ℕ) → Fits d (pos k) t (pos 0)
unfolding mod_ℤ max_ℤ
zero-Fits d k t = ground (arith, zero-mod t)

pass_odds_step_pos :
    (point : ℕ) (bubble : Bool)
    → (pass_odds_step point bubble ≡ pos (pos_part (pass_odds_step point bubble)))
      × (0 < pos_part (pass_odds_step point bubble))
unfolding pass_odds_step
pass_odds_step_pos point true = ground arith
pass_odds_step_pos point false = ground arith

lay_odds_step_pos :
    (point : ℕ) (bubble : Bool)
    → (lay_odds_step point bubble ≡ pos (pos_part (lay_odds_step point bubble)))
      × (0 < pos_part (lay_odds_step point bubble))
unfolding lay_odds_step
lay_odds_step_pos point true = ground arith
lay_odds_step_pos point false = ground arith

pub lay_cap_pos :
    (point w : ℕ)
    → lay_amount_cap_from_win_cap point (pos w)
      ≡ pos (pos_part (lay_amount_cap_from_win_cap point (pos w)))
unfolding lay_amount_cap_from_win_cap div_ℤ
lay_cap_pos point w = rw (*ℤ_pos w 2, *ℤ_pos w 3, *ℤ_pos w 6) (ground arith)

module _ (point : ℕ) (desired flat : ℤ) (bubble : Bool) (policy : Policy) where
  abbrev mult : ℤ
  mult = max_multiple_for_point point policy

  -- The most that may be won on the lay, and the most that may be bet on the pass.
  abbrev win_cap : ℕ
  win_cap = pos_part mult * pos_part flat

  abbrev step : ℕ
  step = pos_part (pass_odds_step point bubble)

  abbrev lay_step : ℕ
  lay_step = pos_part (lay_odds_step point bubble)

  abbrev lay_cap : ℕ
  lay_cap = pos_part (lay_amount_cap_from_win_cap point (pos win_cap))

  legalize_odds_eq :
      is_point point ≡ true
      → leb_ℤ mult (pos 0) ≡ false
      → legalize_odds (some point) desired flat bubble policy
        ≡ pos (floor_to step (min (pos_part desired) win_cap))
  unfolding legalize_odds
  legalize_odds_eq p m =
      rw (p, m, odds_cap_pos mult flat m, (pass_odds_step_pos point bubble).0)
        (clamp_and_round_pos desired win_cap step (pass_odds_step_pos point bubble).1)

  legalize_lay_odds_eq :
      is_point point ≡ true
      → leb_ℤ mult (pos 0) ≡ false
      → legalize_lay_odds (some point) desired flat bubble policy
        ≡ pos (floor_to lay_step (min (pos_part desired) lay_cap))
  unfolding legalize_lay_odds
  legalize_lay_odds_eq p m =
      rw
        (
          p,
          m,
          odds_cap_pos mult flat m,
          lay_cap_pos point win_cap,
          (lay_odds_step_pos point bubble).0,
        )
        (clamp_and_round_pos desired lay_cap lay_step (lay_odds_step_pos point bubble).1)

  -- A number that is no point, or a policy that allows no odds, gives 0.
  legalize_odds_refused :
      (is_point point && not (leb_ℤ mult (pos 0))) ≡ false
      → (legalize_odds (some point) desired flat bubble policy ≡ pos 0)
        × (legalize_lay_odds (some point) desired flat bubble policy ≡ pos 0)
  unfolding legalize_odds legalize_lay_odds
  legalize_odds_refused h = ground arith

-- For any inputs the pass odds lie between 0 and the request and within the policy's multiple of
-- the flat bet (negative numbers read as 0), and are a multiple of the point's payout step.
pub legalize_odds_bounds :
    (point : ℕ) (desired flat : ℤ) (bubble : Bool) (policy : Policy)
    → Fits desired
        (odds_cap (max_ℤ (pos 0) (max_multiple_for_point point policy)) flat)
        (pos_part (pass_odds_step point bubble))
        (legalize_odds (some point) desired flat bubble policy)
legalize_odds_bounds point desired flat bubble policy =
    rw (odds_cap_clamped (mult point desired flat bubble policy) flat)
      (elim (Bool-cases
        (is_point point && not (leb_ℤ (mult point desired flat bubble policy) (pos 0)))) [
          | inl e ↦
              rw (legalize_odds_eq point desired flat bubble policy (ground arith) (ground arith)) (
                floor_to-Fits desired (win_cap point desired flat bubble policy) _
                  (pass_odds_step_pos point bubble).1)
          | inr e ↦
              rw (legalize_odds_refused point desired flat bubble policy e).0
                (zero-Fits desired (win_cap point desired flat bubble policy) _)
        ])

-- At a point, and under a policy that allows odds, no amount that is within the request and the
-- cap and on the payout step is greater than the pass odds returned.
pub legalize_odds_greatest :
    (point : ℕ) (desired flat : ℤ) (bubble : Bool) (policy : Policy) (x : ℕ)
    → is_point point ≡ true
    → pos 0 <ℤ max_multiple_for_point point policy
    → pos x ≤ℤ desired
    → pos x ≤ℤ odds_cap (max_multiple_for_point point policy) flat
    → x % pos_part (pass_odds_step point bubble) ≡ 0
    → pos x ≤ℤ legalize_odds (some point) desired flat bubble policy
legalize_odds_greatest point desired flat bubble policy x p m d c e =
    let allowed : leb_ℤ (max_multiple_for_point point policy) (pos 0) ≡ false = ground arith in
    let capped = odds_cap_pos (max_multiple_for_point point policy) flat allowed in
    let n = min (pos_part desired) (win_cap point desired flat bubble policy) in
    let within : x ≤ n = ground arith in
    rw (legalize_odds_eq point desired flat bubble policy p allowed) (
      omega (
        arith,
        floor_to_greatest (step point desired flat bubble policy) n x
            (pass_odds_step_pos point bubble).1 within e,
      ))

-- For any inputs the lay odds lie between 0 and the request, within the lay that wins the capped
-- amount, and are a multiple of the point's lay step.
pub legalize_lay_odds_bounds :
    (point : ℕ) (desired flat : ℤ) (bubble : Bool) (policy : Policy)
    → let win = odds_cap (max_ℤ (pos 0) (max_multiple_for_point point policy)) flat in
      Fits desired
        (lay_amount_cap_from_win_cap point win)
        (pos_part (lay_odds_step point bubble))
        (legalize_lay_odds (some point) desired flat bubble policy)
legalize_lay_odds_bounds point desired flat bubble policy =
    rw
      (
        odds_cap_clamped (mult point desired flat bubble policy) flat,
        lay_cap_pos point (win_cap point desired flat bubble policy),
      )
      (elim (Bool-cases
        (is_point point && not (leb_ℤ (mult point desired flat bubble policy) (pos 0)))) [
          | inl e ↦
              rw
                (legalize_lay_odds_eq point desired flat bubble policy (ground arith)
                  (ground arith))
                (floor_to-Fits desired (lay_cap point desired flat bubble policy) _
                  (lay_odds_step_pos point bubble).1)
          | inr e ↦
              rw (legalize_odds_refused point desired flat bubble policy e).1
                (zero-Fits desired (lay_cap point desired flat bubble policy) _)
        ])
