-- ===== src/EngineAdapter/Applied.antt =====
-- What an effect leaves in the stub: the bankroll, each bet, the counts and the snapshot.
use crapssim_control.Prelude.{
  String, [], ◌∷◌, ◌≡◌, ◌∙◌, refl, inl, inr, arith, if◌then◌else◌, Bool-cases, str_eq, eq_iff,
}
use crapssim_control.Prelude.Int.{ℤ, pos, ◌+ℤ◌, max_ℤ, ◌≤ℤ◌, order_laws}
use crapssim_control.Prelude.Dict.{Dict, insert, String_Eq}
use crapssim_control.EngineAdapter.State.{Stub}
use crapssim_control.EngineAdapter.Normalize.{amount_of, cache_snapshot}
use crapssim_control.EngineAdapter.Effects.{
  Effect, moved_by, apply_deltas, settle, clear_removed, follow_up, apply_effect,
}
use crapssim_control.EngineAdapter.Amounts.{
  NonNegative, amount-insert, insert-NonNegative, amount-NonNegative, apply_deltas-NonNegative,
}
use crapssim_control.EngineAdapter.Fresh.{IsFresh, apply_effect-IsFresh}

-- The amount of one bet after its changes, one by one, each of which stops at 0
abbrev pub after_changes : String → Dict String ℤ → ℤ → ℤ
after_changes k [] n = n
after_changes k ((j, change) ∷ changes) n =
    after_changes k changes (if str_eq j k then max_ℤ (pos 0) (n +ℤ change) else n)

-- The effect is made: its change of the bankroll, its changes of each bet, and no other count.
pub record IsApplied (e : Effect) (s after : Stub) : Type 0 where
  pub bankroll : after.bankroll ≡ s.bankroll +ℤ e.bankroll_delta
  pub bets : (k : String) → amount_of k after.bets ≡ after_changes k e.bets (amount_of k s.bets)
  pub violations : after.policy_violations ≡ s.policy_violations
  pub policies : after.policy_applied ≡ s.policy_applied
  pub rolls : after.rolls_completed ≡ s.rolls_completed
  pub fresh : IsFresh after

amount-apply_deltas :
    (k : String) (changes bets : Dict String ℤ)
    → amount_of k (apply_deltas changes bets) ≡ after_changes k changes (amount_of k bets)
unfolding apply_deltas
amount-apply_deltas k [] bets = refl
amount-apply_deltas k ((j, change) ∷ changes) bets =
    let new = moved_by change (amount_of j bets) in
    amount-apply_deltas k changes (insert j new bets) ∙ elim (Bool-cases (str_eq j k)) [
      | inl e ↦ rw (amount-insert j k new bets, e, (eq_iff j k).0 e) refl
      | inr e ↦ rw (amount-insert j k new bets, e) refl
    ]

max_of_up : (n : ℤ) → pos 0 ≤ℤ n → max_ℤ (pos 0) n ≡ n
max_of_up n h = omega (order_laws, h)

amount-floor_at :
    (j k : String) (bets : Dict String ℤ)
    → NonNegative bets
    → amount_of k (insert j (max_ℤ (pos 0) (amount_of j bets)) bets) ≡ amount_of k bets
amount-floor_at j k bets h = amount-insert j k _ bets ∙ elim (Bool-cases (str_eq j k)) [
  | inl e ↦ rw (e, (eq_iff j k).0 e) (max_of_up (amount_of k bets) (amount-NonNegative k bets h))
  | inr e ↦ rw e refl
]

amount-clear_removed :
    (verb k : String) (s : Stub)
    → NonNegative s.bets
    → amount_of k (clear_removed verb s).bets ≡ amount_of k s.bets
unfolding clear_removed
amount-clear_removed verb k s h =
    let passed = insert "pass" (max_ℤ (pos 0) (amount_of "pass" s.bets)) s.bets in
    let kept : NonNegative passed = insert-NonNegative "pass" _ s.bets (omega order_laws) h in
    elim (Bool-cases (str_eq verb "remove_line")) [
      | inl e ↦ rw e (amount-floor_at "dont_pass" k passed kept ∙ amount-floor_at "pass" k s.bets h)
      | inr e ↦ rw e (ground arith)
    ]

-- The verbs that remove bets change no count.
abbrev SameCounts : Stub → Stub → Type 0
SameCounts s after =
    (after.bankroll ≡ s.bankroll)
    × (after.policy_violations ≡ s.policy_violations)
    × (after.policy_applied ≡ s.policy_applied)
    × (after.rolls_completed ≡ s.rolls_completed)

clear_removed-SameCounts : (verb : String) (s : Stub) → SameCounts s (clear_removed verb s)
unfolding clear_removed
clear_removed-SameCounts verb s = ground arith

pub apply_effect-IsApplied :
    (e : Effect) (s : Stub) → NonNegative s.bets → IsApplied e s (apply_effect e s)
unfolding apply_effect cache_snapshot follow_up settle
apply_effect-IsApplied e s h =
    let (bankroll, violations, policies, rolls) = clear_removed-SameCounts e.verb (settle e s) in
    record {
      bankroll = bankroll;
      bets = λ k.
          amount-clear_removed e.verb k (settle e s) (apply_deltas-NonNegative e.bets s.bets h)
          ∙ amount-apply_deltas k e.bets s.bets;
      violations = violations;
      policies = policies;
      rolls = rolls;
      fresh = apply_effect-IsFresh e s;
    }
