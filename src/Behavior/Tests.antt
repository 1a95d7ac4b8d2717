-- ===== src/Behavior/Tests.antt =====
-- A session of a rule with a cooldown of two rolls.
use crapssim_control.Prelude.{
  String, Bool, true, false, Option, none, some, List, [], ◌∷◌, ◌≡◌, refl, arith,
}
use crapssim_control.Prelude.Dict.{lookup, insert}
use crapssim_control.Behavior.Evaluator.{
  RuleDef, BehaviorEngine, roll, hand, evaluate_window, try_rules, propose, verdict, guards_hold,
  set_cooldown_default,
}
use crapssim_control.Behavior.Cooldown.{Event, window, advance, applied_in, cooldown_blocks}

-- A snapshot that is the value of every condition, and verbs that give their own name.
abbrev eval_bool : String → Bool → Option Bool
eval_bool expr snap = some snap

abbrev apply_verb : String → Bool → Option String
apply_verb verb args = some verb

abbrev press : RuleDef Bool
press = record {
  id = "r1";
  when = "bankroll > 300";
  then_ = "press";
  args = true;
  scope = none;
  cooldown = record { rolls = 2; hands = 0; point_cycles = 0 };
  guards = "point_on" ∷ [];
}

abbrev engine : BehaviorEngine Bool
engine = record {
  rules = press ∷ [];
  verbose = true;
  cooldowns = [];
  last_attempt = none;
  journal = [];
}

abbrev session : List (Event Bool)
session =
    window 1 "after_resolve" true
    ∷ advance roll
    ∷ window 2 "after_resolve" true
    ∷ advance hand
    ∷ advance roll
    ∷ window 3 "after_resolve" true
    ∷ []

cooldown_blocks_example :
    applied_in eval_bool apply_verb "r1" 2
      (evaluate_window eval_bool apply_verb 1 "after_resolve" true engine).1
      session
    ≡ false
unfolding evaluate_window try_rules propose verdict guards_hold set_cooldown_default lookup insert
cooldown_blocks_example =
    cooldown_blocks eval_bool apply_verb "r1" 2 1 "after_resolve" true engine
      ((λ own. (omega arith, refl)), tt) refl session (omega arith)
