-- ===== src/RuleEngine/Runs.antt =====
-- The engine over a run of snapshots fires each rule where the specification does.
use Prim.Native.String.{◌++◌ as str_append}
use crapssim_control.BetLedger.Names.{decimal}
use crapssim_control.Prelude.{
  ℕ, ◌+◌, ◌≤◌, ◌≡◌, ◌∙◌, ◌⊎◌, refl, inl, inr, ap, String, Bool, false, ◌&&◌, ◌||◌, Option, none,
  List, [], ◌∷◌, ◌++◌, default_to, Bool-cases, arith, str_eq, eq_refl,
}
use crapssim_control.Prelude.Dict.{
  Dict, lookup, insert, String_Eq, lookup-insert, lookup-insert_self,
}
use crapssim_control.RuleEngine.Types.{Rule, Snapshot, Entry, FiredAction, Engine}
use crapssim_control.RuleEngine.Evaluate.{
  consider, tick, tick_entry, entry_of, fresh_entry, evaluate_rules, evaluate, new_engine, scope_of,
  rid_of, apply,
}
use crapssim_control.RuleEngine.Spec.{Scope, scope_name, Firing, spec_step, spec_run, has_fired}
use crapssim_control.RuleEngine.Refines.{blocked, waits, freed_entry, Stands, consider-Refined}

unfoldable pub fired_in : String → List FiredAction → Bool
fired_in rid [] = false
fired_in rid (a ∷ rest) = str_eq a.rule_id rid || fired_in rid rest

-- The id is of none of the rules.
abbrev pub Absent : String → List Rule → Type 0
Absent rid [] = Unit
Absent rid (q ∷ qs) = (str_eq (rid_of q) rid ≡ false) × Absent rid qs

-- The rule is among the rules, and no other one has its id.
abbrev pub IsOnly : Rule → List Rule → Type 0
IsOnly r [] = ⊥
IsOnly r (q ∷ qs) =
    ((q ≡ r) × Absent (rid_of r) qs) ⊎ ((str_eq (rid_of q) (rid_of r) ≡ false) × IsOnly r qs)

-- A session of evaluations: whether the rule of this id fires in each.
unfoldable pub engine_run : String → Bool → String → Engine → List Snapshot → List Bool
engine_run rid trace clock g [] = []
engine_run rid trace clock g (s ∷ ss) =
    let (after, actions, traces) = evaluate trace clock s g in
    fired_in rid actions ∷ engine_run rid trace clock after ss

abbrev pub NonDecreasing : ℕ → List Snapshot → Type 0
NonDecreasing hand [] = Unit
NonDecreasing hand (s ∷ ss) = (hand ≤ s.hand_id) × NonDecreasing s.hand_id ss

fired_in-append :
    (rid : String) (xs ys : List FiredAction)
    → fired_in rid (xs ++ ys) ≡ fired_in rid xs || fired_in rid ys
unfolding fired_in
fired_in-append rid [] ys = refl
fired_in-append rid (x ∷ xs) ys = ground (arith, fired_in-append rid xs ys)

lookup-tick :
    (rid : String) (d : Dict String Entry) → entry_of rid (tick d) ≡ tick_entry (entry_of rid d)
unfolding lookup
lookup-tick rid [] = refl
lookup-tick rid ((k, e) ∷ d) = ground (arith, lookup-tick rid d)

entry_of-insert_self :
    (rid : String) (e : Entry) (d : Dict String Entry) → entry_of rid (insert rid e d) ≡ e
entry_of-insert_self rid e d = ap (default_to fresh_entry) (lookup-insert_self rid e d)

entry_of-insert :
    (k rid : String) (e : Entry) (d : Dict String Entry)
    → str_eq k rid ≡ false
    → entry_of rid (insert k e d) ≡ entry_of rid d
entry_of-insert k rid e d n = rw (lookup-insert, n) refl

module _ (group clock : String) (s : Snapshot) where
  fired_in-apply :
      (rid : String) (q : Rule) (e : Entry)
      → fired_in rid (apply group clock q s e).action
        ≡ str_eq (rid_of q) rid && has_fired (apply group clock q s e)
  unfolding fired_in apply
  fired_in-apply rid q e = ground arith

  fired_in-consider :
      (rid : String) (q : Rule) (e : Entry)
      → fired_in rid (consider group clock q s e).action
        ≡ str_eq (rid_of q) rid && has_fired (consider group clock q s e)
  unfolding fired_in consider
  fired_in-consider rid q e = elim (Bool-cases (blocked e)) [
    | inl b ↦ rw b (ground arith)
    | inr b ↦ elim (Bool-cases (waits (scope_of q) s e)) [
      | inl w ↦ rw (b, w) (ground arith)
      | inr w ↦ rw (b, w) (fired_in-apply rid q (freed_entry (scope_of q) s e))
    ]
  ]

  evaluate_rules-Absent :
      (rid : String) (qs : List Rule) (d : Dict String Entry)
      → Absent rid qs
      → let (after, actions, traces) = evaluate_rules group clock s qs d in
        (entry_of rid after ≡ entry_of rid d) × (fired_in rid actions ≡ false)
  unfolding fired_in evaluate_rules
  evaluate_rules-Absent rid [] d h = (refl, refl)
  evaluate_rules-Absent rid (q ∷ qs) d (n, h) =
      let c = consider group clock q s (entry_of (rid_of q) d) in
      let ih = evaluate_rules-Absent rid qs (insert (rid_of q) c.entry d) h in
      (
        ih.0 ∙ entry_of-insert (rid_of q) rid c.entry d n,
        fired_in-append rid c.action _
            ∙ rw (ih.1, fired_in-consider rid q (entry_of (rid_of q) d), n) refl,
      )

  evaluate_rules_first :
      (r : Rule) (qs : List Rule) (d : Dict String Entry)
      → Absent (rid_of r) qs
      → let (after, actions, traces) = evaluate_rules group clock s (r ∷ qs) d in
        let c = consider group clock r s (entry_of (rid_of r) d) in
        (entry_of (rid_of r) after ≡ c.entry) × (fired_in (rid_of r) actions ≡ has_fired c)
  unfolding evaluate_rules
  evaluate_rules_first r qs d h =
      let rid = rid_of r in
      let e = entry_of rid d in
      let c = consider group clock r s e in
      let rest = evaluate_rules-Absent rid qs (insert rid c.entry d) h in
      (
        rest.0 ∙ entry_of-insert_self rid c.entry d,
        fired_in-append rid c.action _
            ∙ rw (rest.1, fired_in-consider rid r e, eq_refl rid) (ground arith),
      )

  evaluate_rules-IsOnly :
      (r : Rule) (qs : List Rule) (d : Dict String Entry)
      → IsOnly r qs
      → let (after, actions, traces) = evaluate_rules group clock s qs d in
        let c = consider group clock r s (entry_of (rid_of r) d) in
        (entry_of (rid_of r) after ≡ c.entry) × (fired_in (rid_of r) actions ≡ has_fired c)
  unfolding fired_in evaluate_rules
  evaluate_rules-IsOnly r [] d h = elim h [ ]
  evaluate_rules-IsOnly r (q ∷ qs) d (inl (p, h)) = rw p (evaluate_rules_first r qs d h)
  evaluate_rules-IsOnly r (q ∷ qs) d (inr (n, h)) =
      let c = consider group clock q s (entry_of (rid_of q) d) in
      let other = entry_of-insert (rid_of q) (rid_of r) c.entry d n in
      let ih = evaluate_rules-IsOnly r qs (insert (rid_of q) c.entry d) h in
      (
        rw other at ih.0,
        fired_in-append (rid_of r) c.action _
            ∙ rw (fired_in-consider (rid_of r) q (entry_of (rid_of q) d), n) (rw other at ih.1),
      )

-- The entry of a rule, kept by the engine, stands for its last firing from one evaluation to the next.
evaluate-Stands :
    (trace : Bool) (clock : String) (g : Engine) (s : Snapshot) (r : Rule) (sc : Scope)
    → scope_of r ≡ scope_name sc
    → IsOnly r g.rules
    → (now hand : ℕ) (last : Option Firing) → hand ≤ s.hand_id
    → Stands r sc now hand (entry_of (rid_of r) g.state) last
    → let (after, actions, traces) = evaluate trace clock s g in
      let (fires, next) = spec_step r sc (now + 1) s last in
      (fired_in (rid_of r) actions ≡ fires)
      × Stands r sc (now + 1) s.hand_id (entry_of (rid_of r) after.state) next
unfolding evaluate
evaluate-Stands trace clock g s r sc p only now hand last le h =
    let group = str_append "rulegrp-" (decimal (g.group_seq + 1)) in
    let rid = rid_of r in
    let done = evaluate_rules-IsOnly group clock s r g.rules (tick g.state) only in
    let c = consider-Refined group clock r sc p now hand s (entry_of rid g.state) last le h in
    rw (done.1, done.0, lookup-tick rid g.state) c

rules-evaluate :
    (trace : Bool) (clock : String) (s : Snapshot) (g : Engine)
    → (evaluate trace clock s g).0.rules ≡ g.rules
unfolding evaluate
rules-evaluate trace clock s g = refl

engine_run-Stands :
    (trace : Bool) (clock : String) (r : Rule) (sc : Scope)
    → scope_of r ≡ scope_name sc
    → (g : Engine) → IsOnly r g.rules
    → (now hand : ℕ) (last : Option Firing) (ss : List Snapshot) → NonDecreasing hand ss
    → Stands r sc now hand (entry_of (rid_of r) g.state) last
    → engine_run (rid_of r) trace clock g ss ≡ spec_run r sc (now + 1) last ss
unfolding engine_run spec_run
engine_run-Stands trace clock r sc p g only now hand last [] le h = refl
engine_run-Stands trace clock r sc p g only now hand last (s ∷ ss) (le, les) h =
    let one = evaluate-Stands trace clock g s r sc p only now hand last le h in
    let next = (spec_step r sc (now + 1) s last).1 in
    let after = (evaluate trace clock s g).0 in
    let only_after : IsOnly r after.rules = rw rules-evaluate only in
    rw
      (
        one.0,
        engine_run-Stands trace clock r sc p after only_after (now + 1) s.hand_id next ss les one.1,
      )
      refl

-- The rules of an engine as it is made, with a scope each of roll, hand or session: over snapshots whose hands do not
-- go back, a rule whose id no other rule has fires in exactly the evaluations in which its condition holds and the
-- specification lets it: not after a firing if it is to fire once, not in the `cooldown` evaluations after one,
-- and not again in the hand, or the session, that is its scope. The other rules make no difference to it.
pub engine_run-spec_run :
    (trace : Bool) (clock : String) (r : Rule) (sc : Scope)
    → scope_of r ≡ scope_name sc
    → (rules : List Rule) → IsOnly r rules
    → (ss : List Snapshot) → NonDecreasing 0 ss
    → engine_run (rid_of r) trace clock (new_engine rules) ss ≡ spec_run r sc 1 none ss
unfolding lookup
engine_run-spec_run trace clock r sc p rules only ss le =
    engine_run-Stands trace clock r sc p (new_engine rules) only 0 0 none ss le (refl, refl, refl)
