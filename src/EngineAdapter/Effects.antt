-- ===== src/EngineAdapter/Effects.antt =====
-- `_apply_effect`: what the effect of an action does to the stub.
use crapssim_control.Prelude.{String, Option, none, some, List, [], ◌∷◌, if◌then◌else◌, str_eq}
use crapssim_control.Prelude.Int.{ℤ, pos, ◌+ℤ◌, max_ℤ, ltb_ℤ, leb_ℤ}
use crapssim_control.Prelude.Dict.{Dict, lookup, insert, String_Eq}
use crapssim_control.EngineAdapter.Names.{box_key}
use crapssim_control.EngineAdapter.State.{Odds, Stub}
use crapssim_control.EngineAdapter.Normalize.{amount_of, update_odds, cache_snapshot}

-- The `target` of an effect, by the keys that it has.
pub data Target : Type 0 where
  no_target : Target
  bet_target : Option String → Target
  selector_target : List String → Target
  moved : String → String → Target
  profile_target : String → Target
  side_target : String → Target

-- A change of a bet is the amount that its text has, and `bankroll_delta` is in halves.
pub record Effect : Type 0 where
  pub schema : String
  pub verb : String
  pub target : Target
  pub bets : Dict String ℤ
  pub bankroll_delta : ℤ
  pub policy : Option String
  pub level_update : Option (String × ℤ)

-- `max(0.0, d.get(k, 0.0) + delta)`
abbrev pub moved_by : ℤ → ℤ → ℤ
moved_by delta amount = max_ℤ (pos 0) (amount +ℤ delta)

unfoldable pub apply_deltas : Dict String ℤ → Dict String ℤ → Dict String ℤ
apply_deltas [] bets = bets
apply_deltas ((bet, delta) ∷ deltas) bets =
    apply_deltas deltas (insert bet (moved_by delta (amount_of bet bets)) bets)

-- `d.pop(k, None)`
unfoldable pub pop_key {ℓ} : {V : Type ℓ} → String → Dict String V → Dict String V
pop_key k [] = []
pop_key k ((j, v) ∷ d) = let rest = pop_key k d in if str_eq j k then rest else (j, v) ∷ rest

abbrev pub kind_of : String → Option String
kind_of verb =
    if str_eq verb "place_bet"
    then some "place"
    else if str_eq verb "buy_bet"
    then some "buy"
    else if str_eq verb "lay_bet"
    then some "lay"
    else none

unfoldable pub type_placed : String → Dict String ℤ → Dict String String → Dict String String
type_placed kind [] types = types
type_placed kind ((bet, delta) ∷ deltas) types = type_placed kind deltas (
    if ltb_ℤ (pos 0) delta
    then elim (box_key bet) [ none ↦ types | some key ↦ insert key kind types ]
    else types)

unfoldable pub type_moved : String → String → Dict String String → Dict String String
type_moved src dst types = elim (box_key src) [
  | none ↦ types
  | some from ↦ pop_key from (elim (lookup from types) [
    | none ↦ types
    | some kind ↦
        if str_eq kind ""
        then types
        else elim (box_key dst) [ none ↦ types | some to ↦ insert to kind types ]
  ])
]

unfoldable pub type_taken : Dict String ℤ → Dict String String → Dict String String
type_taken [] types = types
type_taken ((bet, delta) ∷ deltas) types = type_taken deltas (
    if ltb_ℤ delta (pos 0)
    then elim (box_key bet) [ none ↦ types | some key ↦ pop_key key types ]
    else types)

abbrev pub type_move_target : Target → Dict String String → Dict String String
type_move_target (moved src dst) types = type_moved src dst types
type_move_target _ types = types

unfoldable pub retype : Effect → Dict String String → Dict String String
retype e types = elim (kind_of e.verb) [
  | some kind ↦ type_placed kind e.bets types
  | none ↦
      if str_eq e.verb "move_bet"
      then type_move_target e.target types
      else if str_eq e.verb "take_down"
      then type_taken e.bets types
      else types
]

-- Each box number at zero, in a map of points
abbrev pub zero_all : Dict String ℤ → Dict String ℤ
zero_all d = insert "10" (pos 0) (
    insert "9" (pos 0)
      (insert "8" (pos 0) (insert "6" (pos 0) (insert "5" (pos 0) (insert "4" (pos 0) d)))))

-- `self.bets[k] = max(0.0, self.bets.get(k, 0.0))`
abbrev pub floor_at : String → Dict String ℤ → Dict String ℤ
floor_at k bets = insert k (max_ℤ (pos 0) (amount_of k bets)) bets

-- The verbs that remove bets set their flat bets and odds to zero.
unfoldable pub clear_removed : String → Stub → Stub
clear_removed verb s =
    if str_eq verb "remove_line"
    then record s {
      bets = floor_at "dont_pass" (floor_at "pass" s.bets);
      odds_state = record s.odds_state { pass_odds = pos 0; dont_pass_odds = pos 0 };
    }
    else if str_eq verb "remove_come"
    then record s {
      come_flat = zero_all s.come_flat;
      odds_state = record s.odds_state { come_odds = zero_all s.odds_state.come_odds };
    }
    else if str_eq verb "remove_dont_come"
    then record s {
      dc_flat = zero_all s.dc_flat;
      odds_state = record s.odds_state { dc_odds = zero_all s.odds_state.dc_odds };
    }
    else s

unfoldable pub sync_odds : Dict String ℤ → Odds → Odds
sync_odds [] o = o
sync_odds ((bet, delta) ∷ deltas) o = sync_odds deltas (update_odds (moved_by delta) bet o)

-- The types of the bets that are up
unfoldable pub prune_types : Dict String ℤ → Dict String String → Dict String String
prune_types bets [] = []
prune_types bets ((key, kind) ∷ types) =
    let rest = prune_types bets types in
    if leb_ℤ (amount_of key bets) (pos 0) then rest else (key, kind) ∷ rest

abbrev pub update_level : Option (String × ℤ) → Dict String ℤ → Dict String ℤ
update_level none levels = levels
update_level (some (key, level)) levels = insert key level levels

-- The bets and the bankroll
unfoldable pub settle : Effect → Stub → Stub
settle e s = record s {
  bets = apply_deltas e.bets s.bets;
  bankroll = s.bankroll +ℤ e.bankroll_delta;
  box_bet_types = retype e s.box_bet_types;
}

-- The odds, the types and the levels
unfoldable pub follow_up : Effect → Stub → Stub
follow_up e s = record s {
  odds_state = sync_odds e.bets s.odds_state;
  box_bet_types = prune_types s.bets s.box_bet_types;
  martingale_levels = update_level e.level_update s.martingale_levels;
}

unfoldable pub apply_effect : Effect → Stub → Stub
apply_effect e s = cache_snapshot (follow_up e (clear_removed e.verb (settle e s)))
