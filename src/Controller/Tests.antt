-- ===== src/Controller/Tests.antt =====
-- The theorem on a rule's press of a bet that the template sets.
use crapssim_control.Prelude.{String, List, none, some, [], ◌∷◌, ◌≡◌}
use crapssim_control.Prelude.Int.{pos}
use crapssim_control.Templates.Envelope.{Action, make_action}
use crapssim_control.Controller.Merge.{merge_actions_for_event}
use crapssim_control.Controller.Order.{by_origin}
use crapssim_control.Controller.Names.{all_for, others, last_only}
use crapssim_control.Controller.Merged.{merge_actions_for_event-last}

abbrev actions : List Action
actions =
    make_action "press" (some "place_6") (some (pos 6)) "rule" "rule:press" ""
    ∷ make_action "set" (some "place_6") (some (pos 12)) "template" "template:Main" ""
    ∷ make_action "switch_mode" none none "rule" "rule:mode" "Aggressive"
    ∷ []

merge_actions_for_event-last_example :
    ((k : String)
      → all_for k (merge_actions_for_event actions) ≡ last_only (all_for k (by_origin actions)))
    × (others (merge_actions_for_event actions) ≡ others (by_origin actions))
merge_actions_for_event-last_example = merge_actions_for_event-last actions
