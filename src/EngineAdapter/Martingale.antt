-- ===== src/EngineAdapter/Martingale.antt =====
-- The levels of a martingale that is applied again and again.
use crapssim_control.Prelude.{
  arith, ℕ, zero, suc, ◌+◌, ◌%◌, ◌<◌, String, false, some, ◌≡◌, ◌∙◌, refl, inl, inr, ltb, ap, sym,
  if◌then◌else◌, Bool-cases, str_eq,
}
use native.Mathlib.Nat.{mod-lt, mod-add-mod, mod_self, mod-eq_of_lt, zero-mod}
use crapssim_control.Prelude.Int.{ℤ, pos, ◌+ℤ◌, ltb_ℤ, leb_ℤ, int_laws}
use crapssim_control.Prelude.Dict.{Dict, insert, lookup-insert_self, String_Eq}
use crapssim_control.EngineAdapter.Normalize.{amount_of}
use crapssim_control.EngineAdapter.Effects.{update_level}
use crapssim_control.EngineAdapter.Handlers.{
  PolicyArgs, Handled, handled, raised, next_level, pol_martingale_v1,
}

-- The levels after a handled effect, as `_apply_effect` stores them.
abbrev pub levels_after : Handled → Dict String ℤ → Dict String ℤ
levels_after (raised e) levels = levels
levels_after (handled e) levels = update_level e.level_update levels

unfoldable pub run_martingale : ℕ → PolicyArgs → Dict String ℤ → Dict String ℤ
run_martingale zero args levels = levels
run_martingale (suc k) args levels =
    let before = run_martingale k args levels in levels_after (pol_martingale_v1 before args) before

abbrev pub martingale_args : String → ℕ → ℕ → PolicyArgs
martingale_args key delta_pred max_pred = record {
  name = some "martingale_v1";
  step_key = some key;
  delta = some (pos (suc delta_pred));
  max_level = some (pos (suc max_pred));
}

-- The level that follows the level n.
level_step : ℕ → ℕ → ℕ
level_step max n = if ltb max (suc n) then 0 else suc n

add_one : (n : ℕ) → n + 1 ≡ suc n
add_one n = omega arith

mod_step : (k m : ℕ) → suc k % suc m ≡ level_step m (k % suc m)
unfolding level_step
mod_step k m =
    let r = k % suc m in
    let below : r < suc m = mod-lt k (omega arith) in
    let carried : suc r % suc m ≡ suc k % suc m =
      ap (λ x. x % suc m) (sym (add_one r))
      ∙ mod-add-mod k (suc m) 1
      ∙ ap (λ x. x % suc m) (add_one k) in
    elim (Bool-cases (ltb m (suc r))) [
      | inl e ↦
          let full : suc r ≡ suc m = ground (arith, e, below) in
          let wraps : suc r % suc m ≡ 0 = rw full (mod_self (suc m)) in rw e (sym carried ∙ wraps)
      | inr e ↦
          let fits : suc r % suc m ≡ suc r = mod-eq_of_lt (ground (arith, e)) in
          rw e (sym carried ∙ fits)
    ]

next_level-stored :
    (levels : Dict String ℤ) (key : String) (n max : ℕ)
    → amount_of key levels ≡ pos n
    → next_level levels key (pos max) ≡ pos (level_step max n)
unfolding next_level level_step
next_level-stored levels key n max h =
    let up : pos n +ℤ pos 1 ≡ pos (suc n) = omega int_laws in
    elim (Bool-cases (ltb max (suc n))) [
      | inl e ↦ rw (h, up, e) (ground (arith, e))
      | inr e ↦ rw (h, up, e) (ground (arith, e))
    ]

stored_level :
    (key : String) (delta max : ℕ) (levels : Dict String ℤ)
    → str_eq key "" ≡ false
    → levels_after (pol_martingale_v1 levels (martingale_args key delta max)) levels
      ≡ insert key (next_level levels key (pos (suc max))) levels
unfolding pol_martingale_v1
stored_level key delta max levels h =
    let positive : leb_ℤ (pos (suc delta)) (pos 0) ≡ false = ground arith in
    let enough : ltb_ℤ (pos (suc max)) (pos 1) ≡ false = ground arith in
    rw (h, positive, enough) refl

-- From level 0, after k applications of the martingale the level is k modulo one more than the maximal level: it
-- climbs one by one to the maximum, and then starts again from 0.
pub run_martingale-level :
    (key : String) (delta max k : ℕ) (levels : Dict String ℤ)
    → str_eq key "" ≡ false
    → amount_of key levels ≡ pos 0
    → amount_of key (run_martingale k (martingale_args key delta max) levels)
      ≡ pos (k % suc (suc max))
unfolding run_martingale
run_martingale-level key delta max zero levels h start =
    start ∙ ap pos (sym (zero-mod (suc (suc max))))
run_martingale-level key delta max (suc k) levels h start =
    let before = run_martingale k (martingale_args key delta max) levels in
    let now = run_martingale-level key delta max k levels h start in
    let next = next_level-stored before key (k % suc (suc max)) (suc max) now in
    rw (stored_level key delta max before h, lookup-insert_self, next)
      (ap pos (sym (mod_step k (suc max))))
