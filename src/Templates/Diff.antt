-- ===== src/Templates/Diff.antt =====
-- `diff_bets`: the clears, and then the sets, each in the order of the bet types.
use Prim.Native.String.{compare}
use Prim.Native.Nat.{Ordering}
use crapssim_control.Prelude.{
  String, Bool, true, false, ◌&&◌, ◌||◌, not, Option, none, some, List, [], ◌∷◌, ◌++◌, map,
  if◌then◌else◌, is_some, default_to,
}
use crapssim_control.Prelude.Int.{ℤ, pos, ltb_ℤ, leb_ℤ, eqb_ℤ}
use crapssim_control.Prelude.Dict.{Dict, lookup, String_Eq}
use crapssim_control.BetLedger.Names.{text_or}
use crapssim_control.Templates.Envelope.{Action, make_action}

-- A desired bet: its `amount` as `_amt` reads it, and its flag.
pub record Desired : Type 0 where
  pub amount : ℤ
  pub working_on_comeout : Option Bool

abbrev pub nothing : Desired
nothing = record { amount = pos 0; working_on_comeout = none }

-- `source`, `source_id` and `notes`: the mode is legacy where there is no source.
pub record Provenance : Type 0 where
  pub source : Option String
  pub source_id : Option String
  pub notes : String

abbrev pub wanted : String → Dict String Desired → Desired
wanted k desired = default_to nothing (lookup k desired)

-- A bet that is up is cleared where another amount is desired, or none.
abbrev pub is_cleared : ℤ → ℤ → Bool
is_cleared cur des = leb_ℤ des (pos 0) || not (eqb_ℤ des cur)

abbrev pub is_changed : ℤ → ℤ → Bool
is_changed cur des = ltb_ℤ (pos 0) des && not (eqb_ℤ des cur)

-- The keys that pass a test, with what is made of their values.
unfoldable pub choose :
    {A B : Type 0} → (String → A → Bool) → (String → A → B) → Dict String A → Dict String B
choose test f [] = []
choose test f ((k, a) ∷ d) =
    let rest = choose test f d in if test k a then (k, f k a) ∷ rest else rest

unfoldable pub clears_of : Dict String Desired → Dict String ℤ → Dict String ℤ
clears_of desired current =
    choose (λ k cur. is_cleared cur (wanted k desired).amount) (λ k cur. cur) current

unfoldable pub updates_of : Dict String Desired → Dict String ℤ → Dict String Desired
updates_of desired current =
    choose (λ k cur. is_changed cur (wanted k desired).amount) (λ k cur. wanted k desired) current

unfoldable pub creations_of : Dict String ℤ → Dict String Desired → Dict String Desired
creations_of current desired =
    choose (λ k d. ltb_ℤ (pos 0) d.amount && not (is_some (lookup k current))) (λ k d. d) desired

-- `sorted(..., key=...)` by the bet type, which keeps the order of equal ones. The actions have the order of their keys.
abbrev pub before : String → String → Bool
before j k = elim (compare j k) [ Ordering.lt ↦ true | _ ↦ false ]

unfoldable pub insert_sorted {ℓ} : {V : Type ℓ} → String → V → Dict String V → Dict String V
insert_sorted k v [] = (k, v) ∷ []
insert_sorted k v ((j, w) ∷ d) =
    let later = insert_sorted k v d in if before j k then (j, w) ∷ later else (k, v) ∷ (j, w) ∷ d

unfoldable pub sort_keys {ℓ} : {V : Type ℓ} → Dict String V → Dict String V
sort_keys [] = []
sort_keys ((k, v) ∷ d) = insert_sorted k v (sort_keys d)

abbrev legacy_action : String → String → Option ℤ → Action
legacy_action action k amount = record {
  action = action;
  bet_type = some k;
  amount = amount;
  source = none;
  id = none;
  notes = none;
  working_on_comeout = none;
}

unfoldable pub plan_action : Provenance → String → String → Option ℤ → Action
plan_action p action k amount = elim p.source [
  | none ↦ legacy_action action k amount
  | some source ↦
      make_action action (some k) amount (text_or source "template")
        (text_or (default_to "" p.source_id) "template:Main") p.notes
]

unfoldable pub clear_action : Provenance → String × ℤ → Action
clear_action p (k, cur) = plan_action p "clear" k none

unfoldable pub set_action : Provenance → String × Desired → Action
set_action p (k, d) = record (plan_action p "set" k (some d.amount)) {
  working_on_comeout = d.working_on_comeout;
}

abbrev pub two_or_more {ℓ} : {V : Type ℓ} → Dict String V → Bool
two_or_more [] = false
two_or_more (a ∷ []) = false
two_or_more (a ∷ b ∷ d) = true

-- Where `sorted` raises a TypeError: the `bet_type` of an unnamed bet is `None` in an envelope, which is not compared
-- with another.
unfoldable pub unsortable {ℓ} : {V : Type ℓ} → Provenance → Dict String V → Bool
unsortable p d = is_some p.source && (is_some (lookup "" d) && two_or_more d)

-- The clears and the sets in their order; `none` is the TypeError.
unfoldable pub diff_bets : Provenance → Dict String ℤ → Dict String Desired → Option (List Action)
diff_bets p current desired =
    let clears = clears_of desired current in
    let sets = updates_of desired current ++ creations_of current desired in
    if unsortable p clears || unsortable p sets
    then none
    else some (map (clear_action p) (sort_keys clears) ++ map (set_action p) (sort_keys sets))
