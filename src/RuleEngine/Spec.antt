-- ===== src/RuleEngine/Spec.antt =====
-- When a rule fires, as a function of its last firing alone: no entry, no lock and no counter that is ticked.
use crapssim_control.Prelude.{
  ℕ, ◌+◌, String, Bool, true, false, not, ◌&&◌, Option, none, some, List, [], ◌∷◌, if◌then◌else◌,
  ltb, ◌==◌, is_some,
}
use crapssim_control.Prelude.Int.{ℤ, pos, negsuc}
use crapssim_control.RuleEngine.Types.{Rule, Snapshot, Entry}
use crapssim_control.RuleEngine.Evaluate.{holds, verb_of, consider, tick_entry, Considered}

-- The scopes that a rule may have, and their names.
pub data Scope : Type 0 where
  per_roll per_hand per_session : Scope

abbrev pub scope_name : Scope → String
scope_name per_roll = "roll"
scope_name per_hand = "hand"
scope_name per_session = "session"

-- A firing: the number of the evaluation, and the hand.
pub record Firing : Type 0 where
  pub at : ℕ
  pub hand : ℕ

abbrev pub evaluations_off : ℤ → ℕ
evaluations_off (pos c) = c
evaluations_off (negsuc c) = 0

-- The condition holds, and there is a verb.
abbrev pub willing : Rule → Snapshot → Bool
willing r s = holds r s && is_some (verb_of r)

abbrev pub new_scope : Scope → ℕ → ℕ → Bool
new_scope per_roll last hand = true
new_scope per_hand last hand = not (last == hand)
new_scope per_session last hand = false

-- A rule may fire again unless it is to fire once, more than `cooldown` evaluations after it has fired, and in
-- another hand, or never, where that is its scope.
abbrev pub may_fire : Rule → Scope → ℕ → ℕ → Option Firing → Bool
may_fire r sc now hand none = true
may_fire r sc now hand (some f) =
    not r.once && ltb (f.at + evaluations_off r.cooldown) now && new_scope sc f.hand hand

unfoldable pub spec_step : Rule → Scope → ℕ → Snapshot → Option Firing → Bool × Option Firing
spec_step r sc now s last =
    if may_fire r sc now s.hand_id last && willing r s
    then (true, some (record { at = now; hand = s.hand_id }))
    else (false, last)

-- In which evaluations the rule fires, by the specification.
unfoldable pub spec_run : Rule → Scope → ℕ → Option Firing → List Snapshot → List Bool
spec_run r sc now last [] = []
spec_run r sc now last (s ∷ ss) =
    let (fires, next) = spec_step r sc now s last in fires ∷ spec_run r sc (now + 1) next ss

abbrev pub has_fired : Considered → Bool
has_fired c = elim c.action [ [] ↦ false | a ∷ rest ↦ true ]

-- And by the engine: an evaluation ticks the entry and considers the rule.
unfoldable pub entry_run : String → String → Rule → Entry → List Snapshot → List Bool
entry_run group clock r e [] = []
entry_run group clock r e (s ∷ ss) =
    let c = consider group clock r s (tick_entry e) in
    has_fired c ∷ entry_run group clock r c.entry ss
