-- ===== src/BetLedger.antt =====
-- crapssim_control/bet_ledger.py: the bets that were placed and resolved, with their exposure and
-- result, and the intents that announce bets. `normalize` is `normalize_bet_type` of
-- crapssim_control/bet_types.py, about which nothing is assumed.
mod State
pub mod Names
mod Entries
mod Intents
pub mod Accounts
pub mod Balance
pub mod Runs
pub mod Fresh
pub mod Stack
pub mod Summary
mod Tests
pub use State.{
  Meta, EntryStatus, entry_open, entry_closed, LedgerEntry, IntentStatus, intent_open,
  intent_matched, intent_canceled, IntentEntry, BetLedger, LedgerError, value_error, key_error,
  Result, ok, failed, Resolution,
}
unfoldable pub use State.{init}
unfoldable pub use Names.{infer_category, number_of, lifo_key}
pub use Names.{text_or}
pub use Entries.{is_open, set_default}
unfoldable pub use Entries.{by_id, update_entry, pop, close_entry}
pub use Intents.{is_intent_open, is_candidate}
unfoldable pub use Intents.{intent_by_id, update_intent, mark_intent_matched, nearest, cancel}
use crapssim_control.Prelude.{
  ℕ, suc, ◌+◌, String, Bool, true, false, not, ◌&&◌, ◌||◌, Option, none, some, List, [], ◌∷◌, ◌++◌,
  if◌then◌else◌, ◌==◌, default_to, str_eq,
}
use crapssim_control.Prelude.Int.{ℤ, pos, ◌+ℤ◌, ◌-ℤ◌, ltb_ℤ}
use crapssim_control.Prelude.Dict.{Dict, String_Eq, lookup, insert}
use crapssim_control.Prelude.Text.{lower}

unfoldable pub pop_from : String → BetLedger → Option (ℕ × BetLedger)
pop_from key l = elim (pop (default_to [] (lookup key l.open_stack))) [
  | none ↦ none
  | some (rest, top) ↦ some (top, record l { open_stack = insert key rest l.open_stack })
]

-- `resolve`, once the entry is known
unfoldable pub resolve_entry : ℕ → ℕ → String → ℤ → Bool → BetLedger → Result Resolution × BetLedger
resolve_entry now i result payout hook l = elim (by_id i l.entries) [
  | none ↦ (failed key_error, l)
  | some e ↦
      if not (is_open e.status)
      then (failed value_error, l)
      else let pnl = payout -ℤ e.amount in
        (
          ok (record {
            entry_id = i;
            realized_pnl = pnl;
            hooked = if hook then some pnl else none;
          }),
          record l {
            entries = update_entry i (close_entry now result payout l.current_roll_index) l.entries;
            open_exposure = l.open_exposure -ℤ e.amount;
            realized_pnl_total = l.realized_pnl_total +ℤ pnl;
            pnl_since_point =
                if l.in_point_cycle then l.pnl_since_point +ℤ pnl else l.pnl_since_point;
          },
        )
]

unfoldable pub begin_point_cycle : BetLedger → BetLedger
begin_point_cycle l = record l { in_point_cycle = true; pnl_since_point = pos 0 }

unfoldable pub end_point_cycle : BetLedger → BetLedger
end_point_cycle l = record l { in_point_cycle = false; pnl_since_point = pos 0 }

unfoldable pub touch_roll : ℕ → BetLedger → BetLedger
touch_roll roll_index l = record l { current_roll_index = some roll_index }

unfoldable pub cancel_intent : ℕ → ℕ → Option String → BetLedger → Result Unit × BetLedger
unfolding cancel
cancel_intent now i reason l = elim (intent_by_id i l.intents) [
  | none ↦ (failed key_error, l)
  | some _ ↦ (ok tt, record l { intents = update_intent i (cancel now reason) l.intents })
]

module _ (normalize : String → Meta → String) where
  -- `_maybe_match_nearest_intent`
  unfoldable pub maybe_match_nearest_intent :
      ℕ → ℕ → String → Meta → List IntentEntry → List IntentEntry
  maybe_match_nearest_intent now entry_id bet meta ies =
      elim (nearest (text_or (normalize bet meta) bet) (number_of meta) ies) [
        | none ↦ ies
        | some ie ↦ mark_intent_matched now ie.id entry_id ies
      ]

  -- The `meta` of a new entry
  unfoldable pub entry_meta : String → Meta → Option ℕ → Meta
  entry_meta bet meta roll =
      let tagged = record meta {
        raw_bet_type = set_default bet meta.raw_bet_type;
        canon_bet_type = set_default (normalize bet meta) meta.canon_bet_type;
      } in
      elim roll [
        | none ↦ tagged
        | some r ↦ record tagged { roll_index_opened = set_default r meta.roll_index_opened }
      ]

  unfoldable pub new_entry : ℕ → String → ℤ → Option String → Meta → BetLedger → LedgerEntry
  new_entry now bet amount category meta l =
      let canon = text_or (normalize bet meta) bet in
      record {
        id = l.next_id;
        created_ts = now;
        bet = canon;
        amount = amount;
        category = text_or (default_to "" category) (infer_category canon);
        status = entry_open;
        payout = pos 0;
        result = none;
        realized_pnl = pos 0;
        meta = entry_meta bet meta l.current_roll_index;
        closed_ts = none;
      }

  -- `place` after its tests
  unfoldable pub add_entry : ℕ → String → LedgerEntry → BetLedger → BetLedger
  add_entry now bet e l =
      let key = lifo_key e.bet e.meta in
      record l {
        next_id = l.next_id + 1;
        entries = l.entries ++ e ∷ [];
        open_stack = insert key (default_to [] (lookup key l.open_stack) ++ e.id ∷ []) l.open_stack;
        open_exposure = l.open_exposure +ℤ e.amount;
        intents = elim e.meta.intent_id [
          | some i ↦ mark_intent_matched now i e.id l.intents
          | none ↦ maybe_match_nearest_intent now e.id bet e.meta l.intents
        ];
      }

  unfoldable pub place :
      ℕ → String → Option ℤ → Option String → Meta → BetLedger → Result ℕ × BetLedger
  place now bet none category meta l = (failed value_error, l)
  place now bet (some amount) category meta l =
      if ltb_ℤ amount (pos 0)
      then (failed value_error, l)
      else (ok l.next_id, add_entry now bet (new_entry now bet amount category meta l) l)

  -- The entry that `resolve` is about: the given one, else the top of the stack of the bet's key or,
  -- where that is empty, of the key of the bet as it was given.
  unfoldable pub target : String → Option ℕ → Meta → BetLedger → Option (ℕ × BetLedger)
  target bet (some i) meta l = some (i, l)
  target bet none meta l = elim (pop_from (lifo_key (text_or (normalize bet meta) bet) meta) l) [
    | some found ↦ some found
    | none ↦ pop_from (lifo_key bet meta) l
  ]

  unfoldable pub resolve :
      ℕ → String → String → ℤ → Option ℕ → Bool → Meta → BetLedger → Result Resolution × BetLedger
  resolve now bet result payout entry_id hook meta l = elim (target bet entry_id meta l) [
    | none ↦ (failed key_error, l)
    | some (i, popped) ↦ resolve_entry now i result payout hook popped
  ]

  unfoldable pub create_intent :
      ℕ → String → Option ℤ → Option ℕ → Option String → Meta → BetLedger → ℕ × BetLedger
  create_intent now bet stake number reason meta l =
      let context : Meta = elim number [ none ↦ meta | some n ↦ record meta { number = some n } ] in
      let canon = text_or (normalize bet context) bet in
      let ie : IntentEntry = record {
        id = l.next_intent_id;
        created_ts = now;
        bet = canon;
        stake = stake;
        number = number;
        status = intent_open;
        reason = reason;
        matched_entry_id = none;
        meta = record meta {
          raw_bet_type = set_default bet meta.raw_bet_type;
          canon_bet_type = set_default canon meta.canon_bet_type;
        };
        created_roll_index = l.current_roll_index;
        canceled_ts = none;
        matched_ts = none;
      } in
      (
        l.next_intent_id,
        record l { next_intent_id = l.next_intent_id + 1; intents = l.intents ++ ie ∷ [] },
      )
