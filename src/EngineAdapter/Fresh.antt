-- ===== src/EngineAdapter/Fresh.antt =====
-- After an action the cached snapshot is the one that is made from the state, which has no point: what a roll then
-- sees and gives.
use crapssim_control.Prelude.{
  String, ℕ, false, Option, none, some, [], ◌∷◌, ◌≡◌, refl, inl, inr, List, if◌then◌else◌,
  Bool-cases, str_eq,
}
use crapssim_control.EngineAdapter.Names.{is_box}
use crapssim_control.EngineAdapter.State.{Snapshot, Stub}
use crapssim_control.EngineAdapter.Normalize.{
  normalize_snapshot, base_snapshot, cache_snapshot, snapshot_state, apply_normalized_snapshot,
}
use crapssim_control.EngineAdapter.Effects.{Effect, apply_effect}
use crapssim_control.EngineAdapter.Handlers.{Args}
use crapssim_control.EngineAdapter.Registry.{Handler}
use crapssim_control.EngineAdapter.Roll.{
  step_roll_stub, roll_snapshot, roll_point, point_of, point_seven_out, ends_point,
}
use crapssim_control.EngineAdapter.Actions.{PolicyOptions, apply_action}
use crapssim_control.EngineAdapter.Session.{
  StopOptions, RollResult, terminated, rolled, apply_all, roll_ready, roll_unless, step_roll,
}
use crapssim_control.EngineAdapter.Induction.{SoundFound, SoundCall, apply_action-keeps}

abbrev pub IsFresh : Stub → Type 0
IsFresh s = s.snapshot_cache ≡ normalize_snapshot (base_snapshot s)

pub snapshot_state-IsFresh : (s : Stub) → IsFresh (snapshot_state s)
unfolding snapshot_state cache_snapshot base_snapshot
snapshot_state-IsFresh s = refl

pub apply_effect-IsFresh : (e : Effect) (s : Stub) → IsFresh (apply_effect e s)
unfolding apply_effect cache_snapshot base_snapshot
apply_effect-IsFresh e s = refl

pub uncounted-IsFresh :
    (s : Stub) (n : ℕ) → IsFresh s → IsFresh (record s { policy_violations = n })
unfolding base_snapshot
uncounted-IsFresh s n h = h

abbrev Unasked : Handler → Stub → Args → Type 0
Unasked h s args = Unit

any_found : (found : Option Handler) (args : Args) (s : Stub) → SoundFound Unasked found args s
any_found none args s = tt
any_found (some h) args s = tt

any_call : (verb : String) (args : Args) (s : Stub) → SoundCall Unasked verb args s
any_call verb args s = elim (Bool-cases (str_eq verb "martingale")) [
  | inl e ↦ rw e (any_found _ _ s)
  | inr e ↦ rw e (any_found _ _ s)
]

apply_action-IsFresh :
    (opts : PolicyOptions) (verb : String) (args : Args) (s : Stub)
    → IsFresh (apply_action opts verb args s).1
apply_action-IsFresh opts verb args s =
    apply_action-keeps IsFresh Unasked (λ h a e t _ _ _. apply_effect-IsFresh e t) opts verb args s
      uncounted-IsFresh (snapshot_state-IsFresh s) (any_call verb args (snapshot_state s))

pub apply_all-IsFresh :
    (policy : PolicyOptions) (actions : List (String × Args)) (s : Stub)
    → IsFresh s
    → IsFresh (apply_all policy actions s)
unfolding apply_all
apply_all-IsFresh policy [] s h = h
apply_all-IsFresh policy ((verb, args) ∷ actions) s h =
    apply_all-IsFresh policy actions (apply_action policy verb args s).1
      (apply_action-IsFresh policy verb args s)

-- A roll that has no point to decide: the hand is 0, the roll is the first, and the point is what this roll sets.
abbrev pub Forgetful : ℕ → RollResult → Type 0
Forgetful total (terminated reason) = Unit
Forgetful total (rolled pso snapshot) =
    (pso ≡ false)
    × (snapshot.hand_id ≡ 0)
    × (snapshot.roll_in_hand ≡ 1)
    × (snapshot.point_value ≡ (if is_box total then some total else none))

forgets :
    (total : ℕ) (s : Stub)
    → IsFresh s
    → Forgetful total
        (rolled (point_seven_out total s.snapshot_cache) (step_roll_stub total s).snapshot_cache)
unfolding step_roll_stub apply_normalized_snapshot roll_snapshot roll_point point_of point_seven_out
    ends_point normalize_snapshot base_snapshot
forgets total s h = rw h (elim (Bool-cases (is_box total)) [
  | inl e ↦ rw e (refl, refl, refl, refl)
  | inr e ↦ rw e (refl, refl, refl, refl)
])

roll_unless-Forgetful :
    (policy : PolicyOptions) (rules : Snapshot → List (String × Args)) (stop : Option String)
    (total : ℕ) (s : Stub)
    → IsFresh s
    → Forgetful total (roll_unless policy rules stop total s).0
unfolding roll_unless roll_ready
roll_unless-Forgetful policy rules (some reason) total s h = tt
roll_unless-Forgetful policy rules none total s h =
    let ready = apply_all policy (rules s.snapshot_cache) s in
    forgets total ready (apply_all-IsFresh policy (rules s.snapshot_cache) s h)

-- `step_roll` takes a new snapshot of the state first, which has no point, the hand 0 and the roll 0. So whatever was
-- rolled before and whatever the rules do, a roll of the stub never ends a point, is always in hand 0 and always its
-- first roll, and its point is its own total if that is a box number, and none if not.
pub step_roll-Forgetful :
    (policy : PolicyOptions) (opts : StopOptions) (rules : Snapshot → List (String × Args))
    (total : ℕ) (s : Stub)
    → Forgetful total (step_roll policy opts rules total s).0
unfolding step_roll
step_roll-Forgetful policy opts rules total s =
    roll_unless-Forgetful policy rules _ total (snapshot_state s) (snapshot_state-IsFresh s)
