-- ===== src/RuleEngine/Refines.antt =====
-- The entry of a rule stands for its last firing.
use crapssim_control.Prelude.{
  ℕ, ◌+◌, ◌-◌, ◌≤◌, ◌<◌, ◌≡◌, ◌⊎◌, refl, inl, inr, String, Bool, false, ◌||◌, Option, none, some,
  if◌then◌else◌, ltb, Bool-cases, arith,
}
use crapssim_control.RuleEngine.Types.{Rule, Snapshot, Entry, ScopeKey, session_key, hand_key}
use crapssim_control.RuleEngine.Evaluate.{
  holds, consider, tick_entry, Considered, apply, scope_of, scope_key, fired, unlock_in, locked,
}
use crapssim_control.RuleEngine.Spec.{
  Scope, per_roll, per_hand, per_session, scope_name, Firing, evaluations_off, willing, spec_step,
  has_fired,
}

abbrev pub IsLocked : Scope → ℕ → ℕ → Option ScopeKey → Type 0
IsLocked per_roll last hand lock = Unit
IsLocked per_hand last hand lock =
    (last ≤ hand) × ((lock ≡ some (hand_key last)) ⊎ ((lock ≡ none) × (last < hand)))
IsLocked per_session last hand lock = lock ≡ some session_key

-- After `now` evaluations, of which the last was in hand `hand`
abbrev pub Stands : Rule → Scope → ℕ → ℕ → Entry → Option Firing → Type 0
Stands r sc now hand e none =
    (e.disabled ≡ false) × (e.remaining_cooldown ≡ 0) × (e.scope_lock ≡ none)
Stands r sc now hand e (some f) =
    (e.disabled ≡ r.once)
    × (e.remaining_cooldown - 1 ≡ (f.at + evaluations_off r.cooldown) - now)
    × IsLocked sc f.hand hand e.scope_lock
    × (f.at ≤ now)

module _ (group clock : String) (r : Rule) (s : Snapshot) (e : Entry) where
  has_fired-apply : has_fired (apply group clock r s e) ≡ willing r s
  unfolding apply holds
  has_fired-apply = ground arith

  entry-apply :
      (apply group clock r s e).entry
      ≡ (if willing r s then fired r (scope_of r) (scope_key (scope_of r) s) s e else e)
  unfolding apply holds
  entry-apply = ground arith

-- `consider`, in closed form.
abbrev pub blocked : Entry → Bool
blocked e = e.disabled || ltb 0 e.remaining_cooldown

abbrev pub freed_entry : String → Snapshot → Entry → Entry
freed_entry scope s e = unlock_in scope (scope_key scope s) e

abbrev pub waits : String → Snapshot → Entry → Bool
waits scope s e = locked scope (scope_key scope s) (freed_entry scope s e)

module _ (group clock : String) (r : Rule) (s : Snapshot) (e : Entry) where
  has_fired-consider :
      has_fired (consider group clock r s e)
      ≡ (if blocked e then false else if waits (scope_of r) s e then false else willing r s)
  unfolding consider
  has_fired-consider = elim (Bool-cases (blocked e)) [
    | inl b ↦ rw b refl
    | inr b ↦ elim (Bool-cases (waits (scope_of r) s e)) [
      | inl w ↦ rw (b, w) refl
      | inr w ↦ rw (b, w) (has_fired-apply group clock r s (freed_entry (scope_of r) s e))
    ]
  ]

  entry-consider : (consider group clock r s e).entry ≡ (
      if blocked e
      then e
      else if waits (scope_of r) s e
      then freed_entry (scope_of r) s e
      else if willing r s
      then fired r (scope_of r) (scope_key (scope_of r) s) s (freed_entry (scope_of r) s e)
      else freed_entry (scope_of r) s e)
  unfolding consider
  entry-consider = elim (Bool-cases (blocked e)) [
    | inl b ↦ rw b refl
    | inr b ↦ elim (Bool-cases (waits (scope_of r) s e)) [
      | inl w ↦ rw (b, w) refl
      | inr w ↦ rw (b, w) (entry-apply group clock r s (freed_entry (scope_of r) s e))
    ]
  ]

abbrev pub Refined : Rule → Scope → ℕ → Snapshot → Considered → Bool × Option Firing → Type 0
Refined r sc now s c (fires, last) = (has_fired c ≡ fires) × Stands r sc now s.hand_id c.entry last

pub consider-Refined :
    (group clock : String) (r : Rule) (sc : Scope)
    → scope_of r ≡ scope_name sc
    → (now hand : ℕ) (s : Snapshot) (e : Entry) (last : Option Firing) → hand ≤ s.hand_id
    → Stands r sc now hand e last
    → Refined r sc
        (now + 1)
        s
        (consider group clock r s (tick_entry e))
        (spec_step r sc (now + 1) s last)
unfolding spec_step
consider-Refined group clock r per_roll p now hand s e none le h =
    rw (has_fired-consider, entry-consider, p) (ground (arith, h, le))
consider-Refined group clock r per_hand p now hand s e none le h =
    rw (has_fired-consider, entry-consider, p) (ground (arith, h, le))
consider-Refined group clock r per_session p now hand s e none le h =
    rw (has_fired-consider, entry-consider, p) (ground (arith, h, le))
consider-Refined group clock r per_roll p now hand s e (some f) le h =
    rw (has_fired-consider, entry-consider, p) (ground (arith, h, le))
consider-Refined group clock r per_hand p now hand s e (some f) le h =
    rw (has_fired-consider, entry-consider, p) (ground (arith, h, le))
consider-Refined group clock r per_session p now hand s e (some f) le h =
    rw (has_fired-consider, entry-consider, p) (ground (arith, h, le))
