-- ===== src/PolicyEngine/Bounds.antt =====
-- When an action is allowed.
use crapssim_control.Prelude.{
  suc, ◌≡◌, refl, ◌∙◌, String, Bool, true, false, ◌&&◌, ◌||◌, some, if◌then◌else◌, default_to,
  arith, Option-cases, inl, inr, ◌↔◌, sym,
}
use mathlib.Core.Option.{some-injective}
use crapssim_control.Prelude.Int.{ℤ, pos, ◌-ℤ◌, ◌*ℤ◌, ◌≤ℤ◌, ◌<ℤ◌, leb_ℤ, eqb_ℤ}
use crapssim_control.Prelude.Dict.{String_Eq, lookup}
use crapssim_control.PolicyEngine.{
  RiskPolicy, Percent, check_drawdown, check_heat, check_bet_cap, Action, Snapshot, refused,
  bankroll_of, evaluate,
}

-- The limits of the drawdown and the heat that are set and not 0, and the cap of the verb, over the values that the action and the snapshot give.
pub record IsWithin (p : RiskPolicy) (a : Action) (s : Snapshot) : Type 0 where
  pub drawdown :
      (limit : Percent)
      → p.max_drawdown_pct ≡ some limit
      → eqb_ℤ limit.num (pos 0) ≡ false
      → let b = bankroll_of s in
        let peak = default_to b s.bankroll_peak in
        pos 0 <ℤ peak → (peak -ℤ b) *ℤ pos 100 *ℤ pos (suc limit.den_pred) ≤ℤ limit.num *ℤ peak
  pub heat :
      (limit : ℤ)
      → p.max_heat ≡ some limit
      → eqb_ℤ limit (pos 0) ≡ false
      → default_to (pos 0) s.active_bets_sum ≤ℤ limit
  pub cap :
      (limit : ℤ)
      → lookup (default_to "" a.verb) p.bet_caps ≡ some limit
      → default_to (pos 0) a.amount ≤ℤ limit

within_limit :
    (limit peak x y : ℤ)
    → ((if eqb_ℤ limit (pos 0) || leb_ℤ peak (pos 0) then true else leb_ℤ x y) ≡ true)
      ↔ (eqb_ℤ limit (pos 0) ≡ false → pos 0 <ℤ peak → x ≤ℤ y)
within_limit limit peak x y = (λ h e q. ground arith, λ h. ground (arith, h))

and_parts : (x y z : Bool) → (x && (y && z)) ≡ true → (x ≡ true) × (y ≡ true) × (z ≡ true)
and_parts x y z h = ground arith

module _ (p : RiskPolicy) where
  check_drawdown_exact :
      (b peak : ℤ)
      → (check_drawdown p b peak ≡ true) ↔ (
          (limit : Percent)
          → p.max_drawdown_pct ≡ some limit
          → eqb_ℤ limit.num (pos 0) ≡ false
          → pos 0 <ℤ peak
          → (peak -ℤ b) *ℤ pos 100 *ℤ pos (suc limit.den_pred) ≤ℤ limit.num *ℤ peak)
  unfolding check_drawdown
  check_drawdown_exact b peak =
      let fall = (peak -ℤ b) *ℤ pos 100 in
      elim (Option-cases p.max_drawdown_pct) [
        | inl e ↦ rw (e, check_drawdown) (λ _ limit q. ground arith, λ _. refl)
        | inr (m, e) ↦
            rw (e, check_drawdown)
              (
                λ h limit q.
                    (within_limit limit.num peak (fall *ℤ pos (suc limit.den_pred))
                        (limit.num *ℤ peak)).0
                      (rw (some-injective m limit q) at h),
                λ h.
                    (within_limit m.num peak (fall *ℤ pos (suc m.den_pred)) (m.num *ℤ peak)).1
                      (h m refl),
              )
      ]

  check_heat_exact :
      (n : ℤ)
      → (check_heat p n ≡ true)
        ↔ ((limit : ℤ) → p.max_heat ≡ some limit → eqb_ℤ limit (pos 0) ≡ false → n ≤ℤ limit)
  unfolding check_heat
  check_heat_exact n = elim (Option-cases p.max_heat) [
    | inl e ↦ rw (e, check_heat) (λ _ limit q. ground arith, λ _. refl)
    | inr (m, e) ↦
        rw (e, check_heat)
          (λ h limit q. ground (arith, some-injective m limit q), λ h. ground (arith, h m refl))
  ]

  check_bet_cap_exact :
      (k : String) (n : ℤ)
      → (check_bet_cap p k n ≡ true) ↔ ((limit : ℤ) → lookup k p.bet_caps ≡ some limit → n ≤ℤ limit)
  unfolding check_bet_cap
  check_bet_cap_exact k n = elim (Option-cases (lookup k p.bet_caps)) [
    | inl e ↦ rw (e, check_bet_cap) (λ _ limit h. ground arith, λ _. refl)
    | inr (m, e) ↦
        rw (e, check_bet_cap)
          (λ h limit q. ground (arith, some-injective m limit q), λ h. ground (arith, h m refl))
  ]

  allowed_checks :
      (a : Action) (s : Snapshot)
      → let b = bankroll_of s in
        (evaluate p a s).allowed ≡ (
          check_drawdown p b (default_to b s.bankroll_peak)
          && (check_heat p (default_to (pos 0) s.active_bets_sum)
              && check_bet_cap p (default_to "" a.verb) (default_to (pos 0) a.amount)))
  unfolding evaluate refused
  allowed_checks a s = ground arith

  -- An action is allowed exactly if it is within every limit: on the bankroll's fall from its peak, where that limit is
  -- set and not 0 and the peak is above 0; on the amount of the active bets, where that limit is set and not 0; and the
  -- cap on its verb, where one is set, a cap of 0 included.
  pub evaluate_exact :
      (a : Action) (s : Snapshot) → ((evaluate p a s).allowed ≡ true) ↔ IsWithin p a s
  evaluate_exact a s =
      let b = bankroll_of s in
      let peak = default_to b s.bankroll_peak in
      let heat = default_to (pos 0) s.active_bets_sum in
      let verb = default_to "" a.verb in
      let amount = default_to (pos 0) a.amount in
      (
        λ h.
            let parts = and_parts _ _ _ (sym (allowed_checks a s) ∙ h) in
            record {
              drawdown = (check_drawdown_exact b peak).0 parts.0;
              heat = (check_heat_exact heat).0 parts.1;
              cap = (check_bet_cap_exact verb amount).0 parts.2;
            },
        λ w.
            allowed_checks a s
            ∙ rw
                (
                  (check_drawdown_exact b peak).1 w.drawdown,
                  (check_heat_exact heat).1 w.heat,
                  (check_bet_cap_exact verb amount).1 w.cap,
                )
                refl,
      )
