-- ===== src/EngineAdapter/Judged.antt =====
-- What the risk policy can still refuse, on the snapshot that `apply_action` gives it.
use crapssim_control.Prelude.{
  arith, ℕ, suc, true, false, ◌||◌, none, [], ◌≡◌, refl, inl, inr, if◌then◌else◌, Bool-cases,
  Option-cases, default_to,
}
use crapssim_control.Prelude.Int.{ℤ, pos, negsuc, ◌-ℤ◌, ◌*ℤ◌, ◌≤ℤ◌, leb_ℤ, eqb_ℤ, *ℤ_pos, int_laws}
use crapssim_control.Prelude.Dict.{String_Eq}
use crapssim_control.PolicyEngine.{
  RiskPolicy, Verdict, evaluate, check_drawdown, check_heat, check_bet_cap, refused, bankroll_of,
  Action as PolicyAction,
}
use crapssim_control.PolicyEngine.Load.{RiskSpec, IsSane, load_risk_policy, load_risk_policy-IsSane}
use crapssim_control.EngineAdapter.State.{Snapshot}
use crapssim_control.EngineAdapter.Actions.{policy_snapshot}
use crapssim_control.EngineAdapter.Induction.{nothing_lost}

nothing_drawn : (b : ℤ) (n : ℕ) → (b -ℤ b) *ℤ pos 100 *ℤ pos (suc n) ≡ pos 0
unfolding ◌*ℤ◌
nothing_drawn b n = let none_lost : b -ℤ b ≡ pos 0 = omega int_laws in rw none_lost (ground arith)

not_negative : (a b : ℤ) → pos 0 ≤ℤ a → leb_ℤ b (pos 0) ≡ false → leb_ℤ (pos 0) (a *ℤ b) ≡ true
not_negative (pos m) (pos n) h e = rw *ℤ_pos (ground arith)
not_negative (pos m) (negsuc n) h e = ground (arith, e)
not_negative (negsuc m) b h e = ground (arith, h)

check_drawdown-itself : (p : RiskPolicy) (b : ℤ) → IsSane p → check_drawdown p b b ≡ true
unfolding check_drawdown
check_drawdown-itself p b sane = elim (Option-cases p.max_drawdown_pct) [
  | inl e ↦ rw e refl
  | inr (limit, e) ↦ elim (Bool-cases (eqb_ℤ limit.num (pos 0) || leb_ℤ b (pos 0))) [
    | inl f ↦ rw (e, f) refl
    | inr f ↦
        rw (e, f, nothing_drawn b limit.den_pred)
          (not_negative limit.num b (sane.drawdown limit e).0 (ground (arith, f)))
  ]
]

check_heat-nothing : (p : RiskPolicy) → IsSane p → check_heat p (pos 0) ≡ true
unfolding check_heat
check_heat-nothing p sane = elim (Option-cases p.max_heat) [
  | inl e ↦ rw e refl
  | inr (limit, e) ↦ rw e (let h = sane.heat limit e in ground (arith, h))
]

-- The verdict that lets an action pass as it is
abbrev pub permitted : Verdict
permitted = record {
  allowed = true;
  modified = false;
  reason = none;
  adjusted_amount = none;
  policy_triggered = [];
}

-- With any policy that a spec loads, the verdict on an action of the stub is that of the cap of its verb alone: the
-- snapshot has no peak, no exposure and no loss, so that the limits of the drawdown and of the heat and the recovery
-- never come to bear.
pub evaluate-check_bet_cap :
    (r : RiskSpec) (a : PolicyAction) (s : Snapshot)
    → evaluate (load_risk_policy r) a (policy_snapshot s) ≡ (
        if check_bet_cap (load_risk_policy r) (default_to "" a.verb) (default_to (pos 0) a.amount)
        then permitted
        else refused "bet_cap")
unfolding evaluate policy_snapshot bankroll_of
evaluate-check_bet_cap r a s =
    let p = load_risk_policy r in
    let sane = load_risk_policy-IsSane r in
    rw (check_drawdown-itself p s.bankroll sane, check_heat-nothing p sane, nothing_lost p)
      (elim (Bool-cases (check_bet_cap p (default_to "" a.verb) (default_to (pos 0) a.amount))) [
        | inl e ↦ rw e refl
        | inr e ↦ rw e refl
      ])
