-- ===== src/BetLedger/State.antt =====
-- The entries, the intents and the state of the ledger. Amounts are whole numbers; a point in time is a
-- number of ticks.
use crapssim_control.Prelude.{ℕ, String, Bool, false, Option, none, List, []}
use crapssim_control.Prelude.Int.{ℤ, pos}
use crapssim_control.Prelude.Dict.{Dict}

-- The keys of a `meta` dict that the ledger reads or writes; `other` has the rest.
pub record Meta : Type 0 where
  pub number : Option ℕ
  pub point : Option ℕ
  pub box : Option ℕ
  pub intent_id : Option ℕ
  pub raw_bet_type : Option String
  pub canon_bet_type : Option String
  pub roll_index_opened : Option ℕ
  pub roll_index_closed : Option ℕ
  pub other : Dict String String

pub data EntryStatus : Type 0 where
  entry_open : EntryStatus
  entry_closed : EntryStatus

pub record LedgerEntry : Type 0 where
  pub id : ℕ
  pub created_ts : ℕ
  pub bet : String
  pub amount : ℤ
  pub category : String
  pub status : EntryStatus
  pub payout : ℤ
  pub result : Option String
  pub realized_pnl : ℤ
  pub meta : Meta
  pub closed_ts : Option ℕ

pub data IntentStatus : Type 0 where
  intent_open : IntentStatus
  intent_matched : IntentStatus
  intent_canceled : IntentStatus

pub record IntentEntry : Type 0 where
  pub id : ℕ
  pub created_ts : ℕ
  pub bet : String
  pub stake : Option ℤ
  pub number : Option ℕ
  pub status : IntentStatus
  pub reason : Option String
  pub matched_entry_id : Option ℕ
  pub meta : Meta
  pub created_roll_index : Option ℕ
  pub canceled_ts : Option ℕ
  pub matched_ts : Option ℕ

pub record BetLedger : Type 0 where
  pub entries : List LedgerEntry
  pub open_stack : Dict String (List ℕ)
  pub next_id : ℕ
  pub realized_pnl_total : ℤ
  pub open_exposure : ℤ
  pub in_point_cycle : Bool
  pub pnl_since_point : ℤ
  pub current_roll_index : Option ℕ
  pub intents : List IntentEntry
  pub next_intent_id : ℕ

-- The exceptions that the methods raise.
pub data LedgerError : Type 0 where
  value_error : LedgerError
  key_error : LedgerError

pub data Result (A : Type 0) : Type 0 where
  ok : A → Result A
  failed : LedgerError → Result A

-- What `resolve` returns, and the amount that it hands to the bankroll hook.
pub record Resolution : Type 0 where
  pub entry_id : ℕ
  pub realized_pnl : ℤ
  pub hooked : Option ℤ

-- `__init__`
unfoldable pub init : BetLedger
init = record {
  entries = [];
  open_stack = [];
  next_id = 1;
  realized_pnl_total = pos 0;
  open_exposure = pos 0;
  in_point_cycle = false;
  pnl_since_point = pos 0;
  current_roll_index = none;
  intents = [];
  next_intent_id = 1;
}
