-- ===== src/RuleEngine/Types.antt =====
-- A rule, what the engine remembers of it, and what an evaluation gives.
use crapssim_control.Prelude.{ℕ, String, Bool, true, false, Option, List, ◌==◌}
use crapssim_control.Prelude.Dict.{Dict}
use crapssim_control.Prelude.Int.{ℤ}
use crapssim_control.DslEval.Syntax.{Node, Value, Fields}

-- The `then` of a rule: a dict, with what is missing from it as `none`.
pub record Then : Type 0 where
  pub verb : Option String
  pub args : Dict String Value

pub record Rule : Type 0 where
  pub id : Option String
  pub when : String
  pub then_ : Then
  pub scope : Option String
  pub cooldown : ℤ
  pub once : Bool
  pub compiled : Option Node

-- The snapshot, with the counters that `_scope_key` reads from it.
pub record Snapshot : Type 0 where
  pub fields : Fields
  pub hand_id : ℕ
  pub roll_in_hand : ℕ

pub data ScopeKey : Type 0 where
  session_key : ScopeKey
  hand_key : ℕ → ScopeKey
  roll_key : ℕ → ScopeKey

abbrev pub eq_scope_key : ScopeKey → ScopeKey → Bool
eq_scope_key session_key session_key = true
eq_scope_key (hand_key a) (hand_key b) = a == b
eq_scope_key (roll_key a) (roll_key b) = a == b
eq_scope_key _ _ = false

-- The dict of a rule in `RuleEngineState`
pub record Entry : Type 0 where
  pub last_fired_roll : Option ℕ
  pub disabled : Bool
  pub remaining_cooldown : ℕ
  pub scope_lock : Option ScopeKey

pub record FiredAction : Type 0 where
  pub verb : String
  pub args : Dict String Value
  pub rule_id : String
  pub why_group : String
  pub when : String

pub record Trace : Type 0 where
  pub rule_id : String
  pub when_expr : String
  pub evaluated_true : Bool
  pub why : String
  pub actions : List (Option String)
  pub roll_id : ℕ
  pub timestamp : String

-- `RuleEngine` with its `RuleEngineState`
pub record Engine : Type 0 where
  pub rules : List Rule
  pub state : Dict String Entry
  pub group_seq : ℕ
