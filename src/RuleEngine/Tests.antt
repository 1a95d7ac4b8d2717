-- ===== src/RuleEngine/Tests.antt =====
-- The theorems on a concrete list of rules.
use crapssim_control.Prelude.{
  arith, ℕ, Bool, true, false, List, [], ◌∷◌, ◌≡◌, refl, some, none, inl, inr,
}
use crapssim_control.Prelude.Int.{pos}
use crapssim_control.Prelude.Text.{lower}
use crapssim_control.DslEval.Syntax.{var, end, field, name, bool_value}
use crapssim_control.RuleEngine.Types.{Rule, Snapshot}
use crapssim_control.RuleEngine.Evaluate.{new_engine, scope_of, rid_of}
use crapssim_control.RuleEngine.Spec.{per_hand, spec_run, scope_name}
use crapssim_control.RuleEngine.Runs.{engine_run, engine_run-spec_run}

abbrev regress : Rule
regress = record {
  id = some "regress";
  when = "winning";
  then_ = record { verb = some "regress"; args = [] };
  scope = some "hand";
  cooldown = pos 2;
  once = false;
  compiled = some (var "winning");
}

abbrev press : Rule
press = record regress { id = some "press"; once = true; scope = none }

abbrev snapshot : Bool → ℕ → ℕ → Snapshot
snapshot winning hand roll = record {
  fields = field (name "winning") (bool_value winning) end;
  hand_id = hand;
  roll_in_hand = roll;
}

abbrev session : List Snapshot
session = snapshot true 1 1 ∷ snapshot true 1 2 ∷ snapshot true 2 1 ∷ snapshot true 2 2 ∷ []

scope_of-regress : scope_of regress ≡ scope_name per_hand
unfolding scope_of lower
scope_of-regress = refl

press_apart : rid_of press ≡ "press"
unfolding rid_of
press_apart = refl

engine_run-spec_run_example :
    engine_run (rid_of regress) true "now" (new_engine (press ∷ regress ∷ [])) session
    ≡ spec_run regress per_hand 1 none session
unfolding rid_of
engine_run-spec_run_example =
    engine_run-spec_run true "now" regress per_hand scope_of-regress (press ∷ regress ∷ [])
      (inr (refl, inl (refl, tt))) session
      (omega arith, (omega arith, (omega arith, (omega arith, tt))))
