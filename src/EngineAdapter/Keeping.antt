-- ===== src/EngineAdapter/Keeping.antt =====
-- The worth of the stub through actions, rolls and whole sessions.
use crapssim_control.Prelude.{
  arith, String, ℕ, Option, none, some, [], ◌∷◌, ◌≡◌, ◌∙◌, refl, ap, List,
}
use crapssim_control.Prelude.Int.{ℤ}
use crapssim_control.EngineAdapter.State.{Snapshot, Stub, effect_context}
use crapssim_control.EngineAdapter.Normalize.{
  normalize_bets, normalize_snapshot, base_snapshot, cache_snapshot, snapshot_state,
  apply_normalized_snapshot,
}
use crapssim_control.EngineAdapter.Effects.{Effect, apply_effect}
use crapssim_control.EngineAdapter.Handlers.{Args, handled}
use crapssim_control.EngineAdapter.Registry.{Handler, run_handler}
use crapssim_control.EngineAdapter.Roll.{step_roll_stub, roll_snapshot, roll_point, point_of}
use crapssim_control.EngineAdapter.Actions.{PolicyOptions, apply_action}
use crapssim_control.EngineAdapter.Session.{
  StopOptions, apply_all, roll_ready, roll_unless, step_roll,
}
use crapssim_control.EngineAdapter.Amounts.{NonNegative}
use crapssim_control.EngineAdapter.Conserved.{
  worth, total-normalize_bets, normalize_bets-NonNegative, apply_effect-NonNegative,
}
use crapssim_control.EngineAdapter.Sound.{Sound}
use crapssim_control.EngineAdapter.Worth.{handled-worth}
use crapssim_control.EngineAdapter.Induction.{SoundCall, apply_action-keeps}
use crapssim_control.EngineAdapter.Fresh.{
  IsFresh, snapshot_state-IsFresh, apply_effect-IsFresh, uncounted-IsFresh,
}

-- The stub is worth `w` with no bet negative, and its cached snapshot is that of its state.
abbrev pub IsWorth : ℤ → Stub → Type 0
IsWorth w s = (worth s ≡ w) × NonNegative s.bets

abbrev FreshWorth : ℤ → Stub → Type 0
FreshWorth w s = IsFresh s × IsWorth w s

abbrev pub SoundIn : Handler → Stub → Args → Type 0
SoundIn h s args = Sound h (effect_context s) args

effects-FreshWorth :
    (w : ℤ) (h : Handler) (args : Args) (e : Effect) (s : Stub)
    → FreshWorth w s
    → SoundIn h s args
    → run_handler h s.martingale_levels (effect_context s) args ≡ handled e
    → FreshWorth w (apply_effect e s)
effects-FreshWorth w h args e s (fresh, (same, n)) sound eq = (
  apply_effect-IsFresh e s,
  (handled-worth h args e s n sound eq ∙ same, apply_effect-NonNegative e s n),
)

uncounted-FreshWorth :
    (w : ℤ) (s : Stub) (n : ℕ) → FreshWorth w s → FreshWorth w (record s { policy_violations = n })
unfolding worth
uncounted-FreshWorth w s n (fresh, h) = (uncounted-IsFresh s n fresh, h)

snapshot_state-FreshWorth : (w : ℤ) (s : Stub) → IsWorth w s → FreshWorth w (snapshot_state s)
unfolding snapshot_state cache_snapshot worth
snapshot_state-FreshWorth w s h = (snapshot_state-IsFresh s, h)

apply_action-FreshWorth :
    (w : ℤ) (opts : PolicyOptions) (verb : String) (args : Args) (s : Stub)
    → IsWorth w s
    → SoundCall SoundIn verb args (snapshot_state s)
    → FreshWorth w (apply_action opts verb args s).1
apply_action-FreshWorth w opts verb args s h sound =
    apply_action-keeps (FreshWorth w) SoundIn (effects-FreshWorth w) opts verb args s
      (uncounted-FreshWorth w) (snapshot_state-FreshWorth w s h) sound

-- Each action is sound in the state that it finds.
abbrev pub SoundAll : PolicyOptions → List (String × Args) → Stub → Type 0
SoundAll policy [] s = Unit
SoundAll policy ((verb, args) ∷ actions) s =
    SoundCall SoundIn verb args (snapshot_state s)
    × SoundAll policy actions (apply_action policy verb args s).1

apply_all-FreshWorth :
    (w : ℤ) (policy : PolicyOptions) (actions : List (String × Args)) (s : Stub)
    → FreshWorth w s
    → SoundAll policy actions s
    → FreshWorth w (apply_all policy actions s)
unfolding apply_all
apply_all-FreshWorth w policy [] s h sound = h
apply_all-FreshWorth w policy ((verb, args) ∷ actions) s (fresh, h) (one, more) =
    apply_all-FreshWorth w policy actions (apply_action policy verb args s).1
      (apply_action-FreshWorth w policy verb args s h one) more

bets-roll_point : (total : ℕ) (prev : Snapshot) → (roll_point total prev).bets ≡ prev.bets
unfolding roll_point point_of
bets-roll_point total prev = ground arith

bets-step_roll_stub :
    (total : ℕ) (s : Stub) → IsFresh s → (step_roll_stub total s).bets ≡ normalize_bets s.bets
unfolding step_roll_stub apply_normalized_snapshot roll_snapshot normalize_snapshot base_snapshot
bets-step_roll_stub total s fresh = bets-roll_point total s.snapshot_cache ∙ ap (λ c. c.bets) fresh

bankroll-step_roll_stub : (total : ℕ) (s : Stub) → (step_roll_stub total s).bankroll ≡ s.bankroll
unfolding step_roll_stub apply_normalized_snapshot
bankroll-step_roll_stub total s = refl

step_roll_stub-IsWorth :
    (w : ℤ) (total : ℕ) (s : Stub) → FreshWorth w s → IsWorth w (step_roll_stub total s)
unfolding worth
step_roll_stub-IsWorth w total s (fresh, (same, n)) =
    let bets = bets-step_roll_stub total s fresh in
    (
      rw (bankroll-step_roll_stub total s, bets, total-normalize_bets s.bets) same,
      rw bets (normalize_bets-NonNegative s.bets n),
    )

roll_unless-IsWorth :
    (w : ℤ) (policy : PolicyOptions) (rules : Snapshot → List (String × Args))
    (stop : Option String) (total : ℕ) (s : Stub)
    → FreshWorth w s
    → SoundAll policy (rules s.snapshot_cache) s
    → IsWorth w (roll_unless policy rules stop total s).1
unfolding roll_unless roll_ready worth
roll_unless-IsWorth w policy rules (some reason) total s (fresh, h) sound = h
roll_unless-IsWorth w policy rules none total s h sound =
    step_roll_stub-IsWorth w total _ (apply_all-FreshWorth w policy _ s h sound)

-- A session is a list of actions and rolls, and before a roll come the actions of the rules.
pub data Step : Type 0 where
  act : String → Args → Step
  roll : (Snapshot → List (String × Args)) → ℕ → Step

module _ (policy : PolicyOptions) (opts : StopOptions) where
  unfoldable pub step : Step → Stub → Stub
  step (act verb args) s = (apply_action policy verb args s).1
  step (roll rules total) s = (step_roll policy opts rules total s).1

  unfoldable pub play : List Step → Stub → Stub
  play [] s = s
  play (t ∷ steps) s = play steps (step t s)

  abbrev pub SoundStep : Step → Stub → Type 0
  SoundStep (act verb args) s = SoundCall SoundIn verb args (snapshot_state s)
  SoundStep (roll rules total) s =
      SoundAll policy (rules (snapshot_state s).snapshot_cache) (snapshot_state s)

  abbrev pub SoundPlay : List Step → Stub → Type 0
  SoundPlay [] s = Unit
  SoundPlay (t ∷ steps) s = SoundStep t s × SoundPlay steps (step t s)

  step-IsWorth : (w : ℤ) (t : Step) (s : Stub) → IsWorth w s → SoundStep t s → IsWorth w (step t s)
  unfolding step step_roll
  step-IsWorth w (act verb args) s h sound =
      (apply_action-FreshWorth w policy verb args s h sound).1
  step-IsWorth w (roll rules total) s h sound =
      roll_unless-IsWorth w policy rules _ total (snapshot_state s)
        (snapshot_state-FreshWorth w s h) sound

  -- Through any list of actions and rolls whose actions are sound, the bankroll and the bets together stay what they
  -- are, and no bet becomes negative. Sound are the actions that put up a bet of a whole amount (for the martingale, a
  -- whole delta); take_down and regress that name each bet once, and regress only bets of even amounts; move_bet
  -- between different bets; take_odds of a whole amount and at most the odds that are up; and the removing verbs, where
  -- the bets are there that they take.
  pub play-IsWorth :
      (steps : List Step) (w : ℤ) (s : Stub)
      → IsWorth w s
      → SoundPlay steps s
      → IsWorth w (play steps s)
  unfolding play
  play-IsWorth [] w s h sound = h
  play-IsWorth (t ∷ steps) w s h (one, more) =
      play-IsWorth steps w (step t s) (step-IsWorth w t s h one) more
