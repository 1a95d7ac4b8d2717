-- ===== src/Controller/Merge.antt =====
-- `_merge_actions_for_event`, `_split_switch_setvar_other` and `_apply_switches_now`.
use crapssim_control.Prelude.{
  ℕ, zero, suc, ◌==◌, String, ◌||◌, Option, none, some, List, [], ◌∷◌, ◌++◌, if◌then◌else◌,
  default_to, str_eq,
}
use crapssim_control.Prelude.Text.{lower}
use crapssim_control.Prelude.Dict.{Dict, lookup, insert, String_Eq}
use crapssim_control.Templates.Envelope.{Action}

-- The actions of the templates come first, then those of the rules, then the others.
unfoldable pub source_bucket : Action → ℕ
source_bucket a =
    let src = lower (default_to "" a.source) in
    if str_eq src "template" then 0 else if str_eq src "rule" then 1 else 2

abbrev pub bet_key : Action → Option String
bet_key a = elim a.bet_type [ none ↦ none | some bt ↦ if str_eq bt "" then none else some bt ]

unfoldable pub action_family : Action → String
action_family action =
    let a = lower action.action in
    if str_eq a "set" || str_eq a "press" || str_eq a "reduce"
    then "bet_mutate"
    else if str_eq a "clear"
    then "bet_clear"
    else if str_eq a "switch_mode"
    then "mode"
    else if str_eq a "setvar"
    then "setvar"
    else a

-- The bet of an action on a bet
unfoldable pub bet_of : Action → Option String
bet_of a =
    if str_eq (action_family a) "bet_mutate" || str_eq (action_family a) "bet_clear"
    then bet_key a
    else none

abbrev pub in_bucket : ℕ → List Action → List Action
in_bucket n [] = []
in_bucket n (a ∷ actions) =
    let rest = in_bucket n actions in if source_bucket a == n then a ∷ rest else rest

-- Sorted by the bucket and then the index
unfoldable pub sort_actions : List Action → List Action
sort_actions actions = in_bucket 0 actions ++ in_bucket 1 actions ++ in_bucket 2 actions

-- `final[i] = a`
unfoldable pub replace_at : ℕ → Action → List Action → List Action
replace_at i a [] = []
replace_at zero a (b ∷ final) = a ∷ final
replace_at (suc i) a (b ∷ final) = b ∷ replace_at i a final

abbrev pub size : List Action → ℕ
size [] = 0
size (a ∷ actions) = suc (size actions)

-- One action: it takes the place of an earlier one on its bet, or the end of the list.
unfoldable pub put_bet :
    Action → String → Option ℕ → List Action → Dict String ℕ → List Action × Dict String ℕ
put_bet a bk (some i) final last_for_bet = (replace_at i a final, insert bk i last_for_bet)
put_bet a bk none final last_for_bet = (final ++ a ∷ [], insert bk (size final) last_for_bet)

unfoldable pub put_action :
    Action → Option String → List Action → Dict String ℕ → List Action × Dict String ℕ
put_action a none final last_for_bet = (final ++ a ∷ [], last_for_bet)
put_action a (some bk) final last_for_bet = put_bet a bk (lookup bk last_for_bet) final last_for_bet

unfoldable pub merge_loop : List Action → List Action → Dict String ℕ → List Action
merge_loop [] final last_for_bet = final
merge_loop (a ∷ ordered) final last_for_bet =
    let (after, last) = put_action a (bet_of a) final last_for_bet in merge_loop ordered after last

unfoldable pub merge_actions_for_event : List Action → List Action
merge_actions_for_event actions = merge_loop (sort_actions actions) [] []

-- The switches of the mode, the settings of variables, and the others.
unfoldable pub split_switch_setvar_other : List Action → List Action × List Action × List Action
split_switch_setvar_other [] = ([], [], [])
split_switch_setvar_other (a ∷ actions) =
    let (switches, setvars, others) = split_switch_setvar_other actions in
    let act = lower a.action in
    if str_eq act "switch_mode"
    then (a ∷ switches, setvars, others)
    else if str_eq act "setvar"
    then (switches, a ∷ setvars, others)
    else (switches, setvars, a ∷ others)
