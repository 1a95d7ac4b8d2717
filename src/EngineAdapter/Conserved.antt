-- ===== src/EngineAdapter/Conserved.antt =====
-- What normalizing, applying an effect and rolling the stub do to the money in it.
use crapssim_control.Prelude.{
  arith, String, List, [], ◌∷◌, ◌≡◌, ◌∙◌, refl, inl, inr, Bool-cases, Option-cases, str_eq,
}
use crapssim_control.Prelude.Int.{ℤ, pos, ◌+ℤ◌, max_ℤ, same, int_laws, order_laws}
use crapssim_control.Prelude.Dict.{Dict, lookup, insert, String_Eq}
use crapssim_control.Verbs.Balance.{total_change}
use crapssim_control.EngineAdapter.Names.{bet_key}
use crapssim_control.EngineAdapter.State.{Stub}
use crapssim_control.EngineAdapter.Normalize.{
  amount_of, set_default, merge_bets, default_bets, standing_keys, normalize_bets, cache_snapshot,
  snapshot_state,
}
use crapssim_control.EngineAdapter.Effects.{Effect, settle, clear_removed, follow_up, apply_effect}
use crapssim_control.EngineAdapter.Handlers.{halves}
use crapssim_control.EngineAdapter.Amounts.{
  total-insert, NonNegative, insert-NonNegative, amount-NonNegative, apply_deltas-NonNegative, Fits,
  total-apply_deltas,
}

total-merge_bets :
    (bets norm : Dict String ℤ)
    → total_change (merge_bets bets norm) ≡ total_change norm +ℤ total_change bets
unfolding merge_bets total_change
total-merge_bets [] norm = omega int_laws
total-merge_bets ((name, amount) ∷ bets) norm =
    let key = bet_key name in
    let new = amount_of key norm +ℤ amount in
    total-merge_bets bets (insert key new norm)
    ∙ omega (int_laws, same _ _ (total-insert key new norm))

merge_bets-NonNegative :
    (bets norm : Dict String ℤ)
    → NonNegative bets
    → NonNegative norm
    → NonNegative (merge_bets bets norm)
unfolding merge_bets
merge_bets-NonNegative [] norm b n = n
merge_bets-NonNegative ((name, amount) ∷ bets) norm (p, b) n =
    let key = bet_key name in
    merge_bets-NonNegative bets (insert key (amount_of key norm +ℤ amount) norm) b
      (insert-NonNegative key _ norm (omega (int_laws, p, amount-NonNegative key norm n)) n)

total-set_default :
    (k : String) (d : Dict String ℤ) → total_change (set_default k (pos 0) d) ≡ total_change d
unfolding set_default
total-set_default k d = elim (Option-cases (lookup k d)) [
  | inl e ↦
      let known : amount_of k d ≡ pos 0 = rw e refl in
      rw e (omega (int_laws, same _ _ (total-insert k (pos 0) d), same _ _ known))
  | inr (v, e) ↦ rw e refl
]

set_default-NonNegative :
    (k : String) (d : Dict String ℤ) → NonNegative d → NonNegative (set_default k (pos 0) d)
unfolding set_default
set_default-NonNegative k d h = elim (Option-cases (lookup k d)) [
  | inl e ↦ rw e (insert-NonNegative k (pos 0) d (omega arith) h)
  | inr (v, e) ↦ rw e h
]

total-default_bets :
    (keys : List String) (d : Dict String ℤ) → total_change (default_bets keys d) ≡ total_change d
unfolding default_bets
total-default_bets [] d = refl
total-default_bets (k ∷ keys) d =
    total-default_bets keys (set_default k (pos 0) d) ∙ total-set_default k d

default_bets-NonNegative :
    (keys : List String) (d : Dict String ℤ) → NonNegative d → NonNegative (default_bets keys d)
unfolding default_bets
default_bets-NonNegative [] d h = h
default_bets-NonNegative (k ∷ keys) d h =
    default_bets-NonNegative keys (set_default k (pos 0) d) (set_default-NonNegative k d h)

-- Normalizing renames and adds up bets, and their sum stays.
pub total-normalize_bets :
    (bets : Dict String ℤ) → total_change (normalize_bets bets) ≡ total_change bets
unfolding normalize_bets total_change
total-normalize_bets bets =
    total-default_bets standing_keys (merge_bets bets [])
    ∙ total-merge_bets bets []
    ∙ omega int_laws

pub normalize_bets-NonNegative :
    (bets : Dict String ℤ) → NonNegative bets → NonNegative (normalize_bets bets)
unfolding normalize_bets
normalize_bets-NonNegative bets h =
    default_bets-NonNegative standing_keys _ (merge_bets-NonNegative bets [] h tt)

-- The bankroll and the bets together, in halves.
unfoldable pub worth : Stub → ℤ
worth s = s.bankroll +ℤ halves (total_change s.bets)

total-insert_max :
    (k : String) (d : Dict String ℤ)
    → NonNegative d
    → total_change (insert k (max_ℤ (pos 0) (amount_of k d)) d) ≡ total_change d
total-insert_max k d h = omega (
  order_laws,
  amount-NonNegative k d h,
  same _ _ (total-insert k (max_ℤ (pos 0) (amount_of k d)) d),
)

-- The verbs that remove bets leave the sum of the bets, whose changes are already made.
clear_removed-total :
    (verb : String) (s : Stub)
    → NonNegative s.bets
    → (total_change (clear_removed verb s).bets ≡ total_change s.bets)
      × NonNegative (clear_removed verb s).bets
unfolding clear_removed
clear_removed-total verb s h =
    let passed = insert "pass" (max_ℤ (pos 0) (amount_of "pass" s.bets)) s.bets in
    let kept : NonNegative passed = insert-NonNegative "pass" _ s.bets (omega order_laws) h in
    elim (Bool-cases (str_eq verb "remove_line")) [
      | inl e ↦ rw e (
        total-insert_max "dont_pass" passed kept ∙ total-insert_max "pass" s.bets h,
        insert-NonNegative "dont_pass" _ passed (omega order_laws) kept,
      )
      | inr e ↦ rw e (ground arith)
    ]

bankroll-clear_removed : (verb : String) (s : Stub) → (clear_removed verb s).bankroll ≡ s.bankroll
unfolding clear_removed
bankroll-clear_removed verb s = ground arith

pub snapshot_state-worth : (s : Stub) → worth (snapshot_state s) ≡ worth s
unfolding snapshot_state cache_snapshot worth
snapshot_state-worth s = refl

pub apply_effect-NonNegative :
    (e : Effect) (s : Stub) → NonNegative s.bets → NonNegative (apply_effect e s).bets
unfolding apply_effect cache_snapshot follow_up settle
apply_effect-NonNegative e s h =
    (clear_removed-total e.verb (settle e s) (apply_deltas-NonNegative e.bets s.bets h)).1

-- An effect whose changes fit the bets changes the worth of the stub by its changes of the bets and of the bankroll.
pub worth-apply_effect :
    (e : Effect) (s : Stub)
    → NonNegative s.bets
    → Fits e.bets s.bets
    → worth (apply_effect e s) ≡ worth s +ℤ (halves (total_change e.bets) +ℤ e.bankroll_delta)
unfolding apply_effect cache_snapshot follow_up settle worth
worth-apply_effect e s h f =
    let (kept, _) =
      clear_removed-total e.verb (settle e s) (apply_deltas-NonNegative e.bets s.bets h) in
    rw (bankroll-clear_removed e.verb (settle e s), kept, total-apply_deltas e.bets s.bets f)
      (omega int_laws)
