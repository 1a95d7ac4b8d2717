-- ===== src/BetLedger/Entries.antt =====
-- The list of entries and the stacks of the open ones.
use crapssim_control.Prelude.{
  ℕ, String, Bool, true, false, Option, none, some, List, [], ◌∷◌, if◌then◌else◌, ◌==◌,
}
use crapssim_control.Prelude.Int.{ℤ, ◌-ℤ◌}
use crapssim_control.BetLedger.State.{EntryStatus, entry_open, entry_closed, LedgerEntry}

-- `d.setdefault(key, value)` on one key
abbrev pub set_default {ℓ} : {A : Type ℓ} → A → Option A → Option A
set_default v none = some v
set_default v (some w) = some w

abbrev pub is_open : EntryStatus → Bool
is_open entry_open = true
is_open entry_closed = false

-- `_by_id`
unfoldable pub by_id : ℕ → List LedgerEntry → Option LedgerEntry
by_id i [] = none
by_id i (e ∷ es) = if e.id == i then some e else by_id i es

-- What `_by_id` returns is changed in place.
unfoldable pub update_entry : ℕ → (LedgerEntry → LedgerEntry) → List LedgerEntry → List LedgerEntry
update_entry i f [] = []
update_entry i f (e ∷ es) = if e.id == i then f e ∷ es else e ∷ update_entry i f es

-- `stack.pop()`
unfoldable pub pop : List ℕ → Option (List ℕ × ℕ)
pop [] = none
pop (i ∷ is) = elim (pop is) [ none ↦ some ([], i) | some (rest, top) ↦ some (i ∷ rest, top) ]

-- An entry as `resolve` closes it
unfoldable pub close_entry : ℕ → String → ℤ → Option ℕ → LedgerEntry → LedgerEntry
close_entry now result payout roll e = record e {
  status = entry_closed;
  closed_ts = some now;
  result = some result;
  payout = payout;
  realized_pnl = payout -ℤ e.amount;
  meta = elim roll [
    | none ↦ e.meta
    | some r ↦ record e.meta { roll_index_closed = set_default r e.meta.roll_index_closed }
  ];
}
