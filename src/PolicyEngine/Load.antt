-- ===== src/PolicyEngine/Load.antt =====
-- `load_risk_policy`: a policy from a spec, where a value that is no number, or out of range, is left out.
use crapssim_control.Prelude.{
  suc, String, Bool, true, false, ◌&&◌, Option, none, some, [], ◌∷◌, if◌then◌else◌, str_eq, ◌≡◌,
  refl, arith,
}
use mathlib.Core.Option.{some-injective}
use crapssim_control.Prelude.Int.{ℤ, pos, ◌*ℤ◌, leb_ℤ, ◌≤ℤ◌}
use crapssim_control.Prelude.Dict.{Dict, String_Eq, insert}
use crapssim_control.Prelude.Text.{lower}
use crapssim_control.PolicyEngine.{
  Mode, no_recovery, flat_recovery, step_recovery, RecoveryPolicy, Percent, RiskPolicy,
}

-- The `risk` section: `none` in the place of a number is a key that is missing or a value that `float`
-- refuses. `recovery` is `none` where it is no dict.
pub record RecoverySpec : Type 0 where
  pub enabled : Bool
  pub mode : String

pub record RiskSpec : Type 0 where
  pub max_drawdown_pct : Option Percent
  pub max_heat : Option ℤ
  pub bet_caps : Dict String (Option ℤ)
  pub recovery : Option RecoverySpec

unfoldable pub load_drawdown : Option Percent → Option Percent
load_drawdown none = none
load_drawdown (some v) =
    if leb_ℤ (pos 0) v.num && leb_ℤ v.num (pos 100 *ℤ pos (suc v.den_pred)) then some v else none

unfoldable pub load_heat : Option ℤ → Option ℤ
load_heat none = none
load_heat (some v) = if leb_ℤ (pos 0) v then some v else none

unfoldable pub load_caps : Dict String (Option ℤ) → Dict String ℤ → Dict String ℤ
load_caps [] caps = caps
load_caps ((k, none) ∷ d) caps = load_caps d caps
load_caps ((k, some v) ∷ d) caps = load_caps d (insert k v caps)

unfoldable pub load_mode : String → Mode
load_mode s =
    let mode = lower s in
    if str_eq mode "flat_recovery"
    then flat_recovery
    else if str_eq mode "step_recovery"
    then step_recovery
    else no_recovery

unfoldable pub load_recovery : Option RecoverySpec → RecoveryPolicy
load_recovery none = record { enabled = false; mode = no_recovery }
load_recovery (some r) = record { enabled = r.enabled; mode = load_mode r.mode }

unfoldable pub load_risk_policy : RiskSpec → RiskPolicy
load_risk_policy r = record {
  max_drawdown_pct = load_drawdown r.max_drawdown_pct;
  max_heat = load_heat r.max_heat;
  bet_caps = load_caps r.bet_caps [];
  recovery = load_recovery r.recovery;
}

-- The limits of a policy are in range.
pub record IsSane (p : RiskPolicy) : Type 0 where
  pub drawdown :
      (limit : Percent)
      → p.max_drawdown_pct ≡ some limit
      → (pos 0 ≤ℤ limit.num) × (limit.num ≤ℤ pos 100 *ℤ pos (suc limit.den_pred))
  pub heat : (limit : ℤ) → p.max_heat ≡ some limit → pos 0 ≤ℤ limit

in_range : (n m : ℤ) → (leb_ℤ (pos 0) n && leb_ℤ n m) ≡ true → (pos 0 ≤ℤ n) × (n ≤ℤ m)
in_range n m h = ground arith

some_if :
    (A : Type 0) (c : Bool) (v w : A) → (if c then some v else none) ≡ some w → (c ≡ true) × (v ≡ w)
some_if A true v w h = (refl, some-injective v w h)
some_if A false v w h = ground arith

load_drawdown_range :
    (given : Option Percent) (limit : Percent)
    → load_drawdown given ≡ some limit
    → (pos 0 ≤ℤ limit.num) × (limit.num ≤ℤ pos 100 *ℤ pos (suc limit.den_pred))
unfolding load_drawdown
load_drawdown_range none limit h = ground arith
load_drawdown_range (some v) limit h =
    let (c, q) = some_if Percent _ v limit h in rw (← q) (in_range v.num _ c)

load_heat_range : (given : Option ℤ) (limit : ℤ) → load_heat given ≡ some limit → pos 0 ≤ℤ limit
unfolding load_heat
load_heat_range none limit h = ground arith
load_heat_range (some v) limit h =
    let (c, q) = some_if ℤ _ v limit h in rw (← q) (ground (arith, c))

-- Whatever the spec holds, a drawdown limit that is loaded is between 0 and 100 percent, and a heat
-- limit is not negative.
pub load_risk_policy-IsSane : (r : RiskSpec) → IsSane (load_risk_policy r)
unfolding load_risk_policy
load_risk_policy-IsSane r = record {
  drawdown = load_drawdown_range r.max_drawdown_pct;
  heat = load_heat_range r.max_heat;
}
