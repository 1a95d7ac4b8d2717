-- ===== src/Behavior/Evaluator.antt =====
-- `BehaviorEngine`. `_eval_bool` is Python's `eval` of a rewritten text, and the verbs are a registry of functions:
-- both are arguments, where `none` is an exception. The journal's file is the list of what was written to it.
use crapssim_control.Prelude.{
  ℕ, zero, suc, ◌+◌, ◌-◌, String, Bool, true, false, not, ◌&&◌, ◌||◌, Option, none, some, List, [],
  ◌∷◌, ◌++◌, map, if◌then◌else◌, ltb, leb, default_to, is_some,
}
use crapssim_control.Prelude.Dict.{Dict, lookup, insert, String_Eq}

-- `_CooldownState`, and the cooldown of a rule, with 0 for what is missing.
pub record Cooldown : Type 0 where
  pub rolls : ℕ
  pub hands : ℕ
  pub point_cycles : ℕ

pub record RuleDef {ℓ} (A : Type ℓ) : Type ℓ where
  pub id : String
  pub when : String
  pub then_ : String
  pub args : A
  pub scope : Option String
  pub cooldown : Cooldown
  pub guards : List String

pub record DecisionAttempt {ℓ} (A : Type ℓ) : Type ℓ where
  pub roll_index : ℕ
  pub window : String
  pub rule_id : String
  pub origin : String
  pub when_expr : String
  pub evaluated_true : Bool
  pub verb : String
  pub args : A
  pub legal : Bool
  pub applied : Bool
  pub reason : Option String

pub record BehaviorEngine {ℓ} (A : Type ℓ) : Type ℓ where
  pub rules : List (RuleDef A)
  pub verbose : Bool
  pub cooldowns : Dict String Cooldown
  pub last_attempt : Option (DecisionAttempt A)
  pub journal : List (DecisionAttempt A)

pub data AdvanceScope : Type 0 where
  roll hand point_cycle : AdvanceScope

abbrev pub no_cooldown : Cooldown
no_cooldown = record { rolls = 0; hands = 0; point_cycles = 0 }

abbrev pub cooldown_of : String → Dict String Cooldown → Cooldown
cooldown_of id d = default_to no_cooldown (lookup id d)

abbrev pub decrement : AdvanceScope → Cooldown → Cooldown
decrement roll st = record st { rolls = st.rolls - 1 }
decrement hand st = record st { hands = st.hands - 1 }
decrement point_cycle st = record st { point_cycles = st.point_cycles - 1 }

-- `setdefault`
unfoldable pub set_cooldown_default : String → Dict String Cooldown → Dict String Cooldown
set_cooldown_default id d = if is_some (lookup id d) then d else insert id no_cooldown d

abbrev pub larger : ℕ → ℕ → ℕ
larger a b = if leb a b then b else a

-- `if rolls_cd: st.rolls = max(st.rolls, rolls_cd + 1)`
abbrev pub start_count : ℕ → ℕ → ℕ
start_count zero old = old
start_count (suc c) old = larger old (suc c + 1)

abbrev pub start_cooldown : Cooldown → Cooldown → Cooldown
start_cooldown c st = record {
  rolls = start_count c.rolls st.rolls;
  hands = start_count c.hands st.hands;
  point_cycles = start_count c.point_cycles st.point_cycles;
}

-- Why a rule is passed over, or that it applies.
pub data Verdict : Type 0 where
  cooling guard_false when_error when_false applies : Verdict

-- What a window comes to: an intent, none, or the exception of a verb.
pub data Proposal {ℓ} (I : Type ℓ) : Type ℓ where
  proposes : I → Proposal I
  nothing : Proposal I
  verb_raises : Proposal I

abbrev pub is_cooling : Cooldown → Cooldown → Bool
is_cooling c st =
    ltb 0 c.rolls && ltb 0 st.rolls
    || ltb 0 c.hands && ltb 0 st.hands
    || ltb 0 c.point_cycles && ltb 0 st.point_cycles

abbrev pub is_applies : Verdict → Bool
is_applies applies = true
is_applies _ = false

module _ {ℓ} {A : Type ℓ} where
  abbrev pub attempt : ℕ → String → RuleDef A → Bool → Option String → DecisionAttempt A
  attempt roll_index window r fires reason = record {
    roll_index = roll_index;
    window = window;
    rule_id = r.id;
    origin = "dsl";
    when_expr = r.when;
    evaluated_true = fires;
    verb = r.then_;
    args = r.args;
    legal = fires;
    applied = fires;
    reason = reason;
  }

  -- What is written of a rule that is passed over: an error always, and the rest in verbose mode.
  abbrev pub passed_over : ℕ → String → RuleDef A → Bool → Verdict → List (DecisionAttempt A)
  passed_over i window r verbose cooling =
      if verbose then attempt i window r false (some "COOLDOWN") ∷ [] else []
  passed_over i window r verbose guard_false =
      if verbose then attempt i window r false (some "GUARD_FALSE") ∷ [] else []
  passed_over i window r verbose when_error = attempt i window r false (some "WHEN_EVAL_ERROR") ∷ []
  passed_over i window r verbose when_false =
      if verbose then attempt i window r false none ∷ [] else []
  passed_over i window r verbose applies = []

module _ {ℓ} {A S I : Type ℓ} (eval_bool : String → S → Option Bool)
    (apply_verb : String → A → Option I) where
  unfoldable pub guards_hold : List String → S → Bool
  guards_hold [] snap = true
  guards_hold (g ∷ gs) snap = default_to false (eval_bool g snap) && guards_hold gs snap

  unfoldable pub verdict : RuleDef A → S → Cooldown → Verdict
  verdict r snap st =
      if is_cooling r.cooldown st
      then cooling
      else if not (guards_hold r.guards snap)
      then guard_false
      else elim (eval_bool r.when snap) [
        | none ↦ when_error
        | some b ↦ if b then applies else when_false
      ]

  -- The rule applies: its intent, the journal and its cooldowns.
  unfoldable pub propose : ℕ → String → RuleDef A → BehaviorEngine A → Proposal I × BehaviorEngine A
  propose i window r g = elim (apply_verb r.then_ r.args) [
    | none ↦ (verb_raises, g)
    | some intent ↦ (
      proposes intent,
      record g {
        cooldowns =
            insert r.id (start_cooldown r.cooldown (cooldown_of r.id g.cooldowns)) g.cooldowns;
        last_attempt = some (attempt i window r true none);
        journal = g.journal ++ attempt i window r true none ∷ [];
      },
    )
  ]

  -- The loop over the rules
  unfoldable pub try_rules :
      ℕ → String → S → List (RuleDef A) → BehaviorEngine A → Proposal I × BehaviorEngine A
  try_rules i window snap [] g = (nothing, g)
  try_rules i window snap (r ∷ rs) g =
      let seen = record g { cooldowns = set_cooldown_default r.id g.cooldowns } in
      let v = verdict r snap (cooldown_of r.id seen.cooldowns) in
      let later =
        try_rules i window snap rs
          (record seen { journal = g.journal ++ passed_over i window r g.verbose v }) in
      if is_applies v then propose i window r seen else later

  -- `evaluate_window`; the first argument is the snapshot's `roll_index`.
  unfoldable pub evaluate_window : ℕ → String → S → BehaviorEngine A → Proposal I × BehaviorEngine A
  evaluate_window i window snap g =
      try_rules i window snap g.rules (record g { last_attempt = none })

  -- `on_scope_advance`
  unfoldable pub on_scope_advance : AdvanceScope → BehaviorEngine A → BehaviorEngine A
  on_scope_advance scope g = record g {
    cooldowns = map (λ (id, st). (id, decrement scope st)) g.cooldowns;
  }
