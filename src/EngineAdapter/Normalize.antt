-- ===== src/EngineAdapter/Normalize.antt =====
-- `_normalize_snapshot` of a dict, as the stub calls it, and `_apply_normalized_snapshot`.
use crapssim_control.Prelude.{
  ℕ, zero, suc, String, Bool, true, false, ◌||◌, not, Option, none, some, List, [], ◌∷◌, ◌++◌, map,
  if◌then◌else◌, default_to, is_some, str_eq, ◌==◌,
}
use Prim.Native.String.{◌++◌ as str_append}
use text.Mathlib.Text.{starts_with}
use crapssim_control.Prelude.Text.{lower}
use crapssim_control.Prelude.Int.{ℤ, pos, ◌+ℤ◌}
use crapssim_control.Prelude.Dict.{Dict, lookup, insert, String_Eq}
use crapssim_control.EngineAdapter.Names.{box_key, bet_key, has, box_numbers}
use crapssim_control.EngineAdapter.State.{
  Odds, Snapshot, Stub, zero_point_map, hardway_numbers, no_odds, no_bets,
}

-- `d.get(k, 0.0)`
abbrev pub amount_of : String → Dict String ℤ → ℤ
amount_of k d = default_to (pos 0) (lookup k d)

-- `d.setdefault(k, v)`
unfoldable pub set_default {ℓ} : {V : Type ℓ} → String → V → Dict String V → Dict String V
set_default k v d = if is_some (lookup k d) then d else insert k v d

-- The bets under their normalized keys, where bets of one key are added.
unfoldable pub merge_bets : Dict String ℤ → Dict String ℤ → Dict String ℤ
merge_bets [] norm = norm
merge_bets ((name, amount) ∷ bets) norm =
    merge_bets bets (insert (bet_key name) (amount_of (bet_key name) norm +ℤ amount) norm)

unfoldable pub default_bets : List String → Dict String ℤ → Dict String ℤ
default_bets [] norm = norm
default_bets (k ∷ keys) norm = default_bets keys (set_default k (pos 0) norm)

-- The keys that are always there.
abbrev pub standing_keys : List String
standing_keys =
    box_numbers
    ++ "field" ∷ map (str_append "hardway_") hardway_numbers
    ++ map (str_append "odds_come_") box_numbers
    ++ map (str_append "odds_dc_") box_numbers

unfoldable pub normalize_bets : Dict String ℤ → Dict String ℤ
normalize_bets bets = default_bets standing_keys (merge_bets bets [])

-- The type that the name of a box bet tells.
unfoldable pub named_type : String → Option String
named_type low =
    if has low "buy"
    then some "buy"
    else if has low "lay"
    then some "lay"
    else if has low "place"
    then some "place"
    else none

unfoldable pub type_bet : String → Dict String String → Dict String String
type_bet name types = elim (box_key (bet_key name)) [
  | none ↦ types
  | some key ↦ elim (named_type (lower name)) [ none ↦ types | some t ↦ set_default key t types ]
]

unfoldable pub type_bets : Dict String ℤ → Dict String String → Dict String String
type_bets [] types = types
type_bets ((name, amount) ∷ bets) types = type_bets bets (type_bet name types)

-- The text after the first `n` characters
abbrev pub after : ℕ → String → String
after zero s = s
after (suc n) String.[] = ""
after (suc n) (String.◌∷◌ c s) = after n s

-- The point of a key `odds_come_6` or `odds_dc_6`
unfoldable pub come_point : String → Option String
come_point key = if starts_with key "odds_come_" then box_key (after 10 key) else none

unfoldable pub dc_point : String → Option String
dc_point key = if starts_with key "odds_dc_" then box_key (after 8 key) else none

-- `f` on the odds that the key of a bet names.
unfoldable pub update_odds : (ℤ → ℤ) → String → Odds → Odds
update_odds f key o =
    if str_eq key "odds_pass"
    then record o { pass_odds = f o.pass_odds }
    else if str_eq key "odds_dont_pass"
    then record o { dont_pass_odds = f o.dont_pass_odds }
    else elim (come_point key) [
      | some p ↦ record o { come_odds = insert p (f (amount_of p o.come_odds)) o.come_odds }
      | none ↦ elim (dc_point key) [
        | some p ↦ record o { dc_odds = insert p (f (amount_of p o.dc_odds)) o.dc_odds }
        | none ↦ o
      ]
    ]

-- The amounts of the box numbers in a dict, and zero for those that are missing.
unfoldable pub coerce_points : Dict String ℤ → Dict String ℤ → Dict String ℤ
coerce_points [] points = points
coerce_points ((key, amount) ∷ d) points =
    coerce_points d (elim (box_key key) [ none ↦ points | some p ↦ insert p amount points ])

abbrev pub coerce_point_map : Dict String ℤ → Dict String ℤ
coerce_point_map d = coerce_points d zero_point_map

abbrev pub coerce_odds : Odds → Odds
coerce_odds o = record {
  pass_odds = o.pass_odds;
  dont_pass_odds = o.dont_pass_odds;
  come_odds = coerce_point_map o.come_odds;
  dc_odds = coerce_point_map o.dc_odds;
}

-- The odds that stand among the bets have the last word.
unfoldable pub odds_of_bets : Dict String ℤ → Odds → Odds
odds_of_bets [] o = o
odds_of_bets ((key, amount) ∷ bets) o = odds_of_bets bets (update_odds (λ _. amount) key o)

-- `bool(point_value)`
abbrev has_value : Option ℕ → Bool
has_value none = false
has_value (some p) = not (p == 0)

unfoldable pub normalize_snapshot : Snapshot → Snapshot
normalize_snapshot raw = record {
  bankroll = raw.bankroll;
  point_on = raw.point_on || has_value raw.point_value;
  point_value = raw.point_value;
  bets = normalize_bets raw.bets;
  bet_types = type_bets raw.bets raw.bet_types;
  hand_id = raw.hand_id;
  roll_in_hand = raw.roll_in_hand;
  levels = raw.levels;
  on_comeout = raw.on_comeout;
  come_flat = coerce_point_map raw.come_flat;
  dc_flat = coerce_point_map raw.dc_flat;
  odds = odds_of_bets (normalize_bets raw.bets) (coerce_odds raw.odds);
}

-- `new`, where it is there
abbrev pub or_keep {ℓ} : {A : Type ℓ} → List A → List A → List A
or_keep [] old = old
or_keep (a ∷ new) old = a ∷ new

unfoldable pub apply_normalized_snapshot : Snapshot → Stub → Stub
apply_normalized_snapshot snapshot s = record s {
  bankroll = snapshot.bankroll;
  bets = snapshot.bets;
  box_bet_types = or_keep snapshot.bet_types s.box_bet_types;
  martingale_levels = or_keep snapshot.levels s.martingale_levels;
  come_flat = coerce_point_map snapshot.come_flat;
  dc_flat = coerce_point_map snapshot.dc_flat;
  odds_state = coerce_odds snapshot.odds;
  on_comeout = snapshot.on_comeout;
  snapshot_cache = snapshot;
}

-- The dict that `_reset_stub_state`, `_apply_effect` and `snapshot_state` normalize: it has no point, the hand 0
-- and the roll 0.
unfoldable pub base_snapshot : Stub → Snapshot
base_snapshot s = record {
  bankroll = s.bankroll;
  point_on = false;
  point_value = none;
  bets = s.bets;
  bet_types = s.box_bet_types;
  hand_id = 0;
  roll_in_hand = 0;
  levels = s.martingale_levels;
  on_comeout = s.on_comeout;
  come_flat = s.come_flat;
  dc_flat = s.dc_flat;
  odds = s.odds_state;
}

-- `self._snapshot_cache = _normalize_snapshot(...)`
unfoldable pub cache_snapshot : Stub → Stub
cache_snapshot s = record s { snapshot_cache = normalize_snapshot (base_snapshot s) }

-- `snapshot_state` is the cached snapshot.
unfoldable pub snapshot_state : Stub → Stub
snapshot_state = cache_snapshot

unfoldable pub reset_stub_state : Stub → Stub
reset_stub_state s = cache_snapshot (record s {
  bankroll = pos 2000;
  bets = no_bets;
  come_flat = zero_point_map;
  dc_flat = zero_point_map;
  odds_state = no_odds;
  on_comeout = true;
  box_bet_types = [];
  martingale_levels = [];
})
