-- ===== src/RuleEngine/Evaluate.antt =====
-- `RuleEngineState` and `evaluate`. The clock's reading is an argument, as text.
use Prim.Native.String.{◌++◌ as str_append}
use crapssim_control.Prelude.{
  ℕ, suc, ◌+◌, ◌-◌, String, Bool, false, not, ◌&&◌, ◌||◌, Option, none, some, List, [], ◌∷◌, ◌++◌,
  map, if◌then◌else◌, ltb, default_to, is_some, str_eq,
}
use crapssim_control.Prelude.Int.{ℤ, pos}
use crapssim_control.Prelude.Dict.{Dict, lookup, insert, String_Eq}
use crapssim_control.Prelude.Text.{lower}
use crapssim_control.BetLedger.Names.{decimal}
use crapssim_control.DslEval.Syntax.{Value, str_value}
use crapssim_control.DslEval.Evaluator.{evaluate_ast}
use crapssim_control.RuleEngine.Types.{
  Rule, Snapshot, ScopeKey, session_key, hand_key, roll_key, eq_scope_key, Entry, FiredAction,
  Trace, Engine,
}

-- A text, or nothing where it is missing or empty.
abbrev pub non_empty : Option String → Option String
non_empty none = none
non_empty (some s) = if str_eq s "" then none else some s

unfoldable pub verb_of : Rule → Option String
verb_of r = non_empty r.then_.verb

-- `r.get("id") or f"rule_{...}"`
unfoldable pub rid_of : Rule → String
rid_of r = default_to (str_append "rule_" (default_to "unknown" r.then_.verb)) (non_empty r.id)

-- `(r.get("scope") or "roll").lower()`
unfoldable pub scope_of : Rule → String
scope_of r = lower (default_to "roll" (non_empty r.scope))

abbrev pub fresh_entry : Entry
fresh_entry = record {
  last_fired_roll = none;
  disabled = false;
  remaining_cooldown = 0;
  scope_lock = none;
}

abbrev pub entry_of : String → Dict String Entry → Entry
entry_of rid d = default_to fresh_entry (lookup rid d)

abbrev pub tick_entry : Entry → Entry
tick_entry e = record e { remaining_cooldown = e.remaining_cooldown - 1 }

-- `tick`
abbrev pub tick : Dict String Entry → Dict String Entry
tick d = map (λ (rid, e). (rid, tick_entry e)) d

-- `_scope_key`
abbrev pub scope_key : String → Snapshot → ScopeKey
scope_key scope s =
    if str_eq scope "session"
    then session_key
    else if str_eq scope "hand"
    then hand_key s.hand_id
    else roll_key s.roll_in_hand

-- A lock of another key is taken off.
abbrev pub unlock : ScopeKey → Entry → Entry
unlock key e = elim e.scope_lock [
  | none ↦ e
  | some lock ↦ if eq_scope_key lock key then e else record e { scope_lock = none }
]

abbrev pub unlock_in : String → ScopeKey → Entry → Entry
unlock_in scope key e = if str_eq scope "roll" then e else unlock key e

abbrev pub locked : String → ScopeKey → Entry → Bool
locked scope key e = elim e.scope_lock [
  | none ↦ false
  | some lock ↦ not (str_eq scope "roll") && eq_scope_key lock key
]

-- `remaining_cooldown` after the rule has fired
abbrev pub cool : ℤ → ℕ → ℕ
cool (pos (suc c)) remaining = suc c + 1
cool c remaining = remaining

abbrev pub fired : Rule → String → ScopeKey → Snapshot → Entry → Entry
fired r scope key s e = record {
  last_fired_roll = some s.roll_in_hand;
  disabled = r.once || e.disabled;
  remaining_cooldown = cool r.cooldown e.remaining_cooldown;
  scope_lock = if str_eq scope "roll" then e.scope_lock else some key;
}

-- `args.setdefault("_why_group", why_group)`
abbrev pub set_default : String → Value → Dict String Value → Dict String Value
set_default k v d = if is_some (lookup k d) then d else insert k v d

abbrev pub action_of : Rule → String → String → FiredAction
action_of r verb group = record {
  verb = verb;
  args = set_default "_why_group" (str_value group) r.then_.args;
  rule_id = rid_of r;
  why_group = group;
  when = r.when;
}

abbrev pub trace_of : Rule → Snapshot → Bool → String → Trace
trace_of r s fire now = record {
  rule_id = rid_of r;
  when_expr = r.when;
  evaluated_true = fire;
  why =
      str_append "WHEN ("
        (str_append r.when (str_append ") → " (if fire then "True" else "False")));
  actions = r.then_.verb ∷ [];
  roll_id = s.roll_in_hand;
  timestamp = now;
}

-- What the loop makes of a rule: its entry, an action where it fires, and a trace where its condition is
-- evaluated.
pub record Considered : Type 0 where
  pub entry : Entry
  pub action : List FiredAction
  pub trace : List Trace

abbrev pub skip : Entry → Considered
skip e = record { entry = e; action = []; trace = [] }

-- The condition; an error counts as False.
unfoldable pub holds : Rule → Snapshot → Bool
holds r s = elim r.compiled [
  | none ↦ false
  | some ast ↦ default_to false (evaluate_ast ast s.fields)
]

-- After the guards of the loop: the condition, and then the action.
unfoldable pub apply : String → String → Rule → Snapshot → Entry → Considered
apply group now r s e = elim r.compiled [
  | none ↦ skip e
  | some ast ↦
      let fire = holds r s in
      let traces = trace_of r s fire now ∷ [] in
      if not fire then record { entry = e; action = []; trace = traces } else elim (verb_of r) [
        | none ↦ record { entry = e; action = []; trace = traces }
        | some verb ↦ record {
          entry = fired r (scope_of r) (scope_key (scope_of r) s) s e;
          action = action_of r verb group ∷ [];
          trace = traces;
        }
      ]
]

-- The body of the loop
unfoldable pub consider : String → String → Rule → Snapshot → Entry → Considered
consider group now r s e =
    if e.disabled || ltb 0 e.remaining_cooldown
    then skip e
    else (let key = scope_key (scope_of r) s in
        let freed = unlock_in (scope_of r) key e in
        if locked (scope_of r) key freed then skip freed else apply group now r s freed)

-- The loop, over the rules that are left.
unfoldable pub evaluate_rules :
    String
    → String
    → Snapshot
    → List Rule
    → Dict String Entry
    → Dict String Entry × List FiredAction × List Trace
evaluate_rules group now s [] d = (d, [], [])
evaluate_rules group now s (r ∷ rs) d =
    let c = consider group now r s (entry_of (rid_of r) d) in
    let (after, actions, traces) = evaluate_rules group now s rs (insert (rid_of r) c.entry d) in
    (after, c.action ++ actions, c.trace ++ traces)

-- `evaluate`; `clock` is the time of the traces.
unfoldable pub evaluate : Bool → String → Snapshot → Engine → Engine × List FiredAction × List Trace
evaluate trace_enabled clock s g =
    let seq = g.group_seq + 1 in
    let (after, actions, traces) =
      evaluate_rules (str_append "rulegrp-" (decimal seq)) clock s g.rules (tick g.state) in
    (record g { state = after; group_seq = seq }, actions, if trace_enabled then traces else [])

-- `RuleEngine(rules)`
abbrev pub new_engine : List Rule → Engine
new_engine rules = record { rules = rules; state = []; group_seq = 0 }
