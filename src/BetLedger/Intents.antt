-- ===== src/BetLedger/Intents.antt =====
-- The list of intents: finding one, and its end by a match or a cancellation.
use crapssim_control.Prelude.{
  ℕ, String, Bool, true, false, not, ◌&&◌, Option, none, some, List, [], ◌∷◌, if◌then◌else◌, ◌==◌,
  str_eq, default_to,
}
use crapssim_control.Prelude.Text.{lower}
use crapssim_control.BetLedger.Names.{text_or}
use crapssim_control.BetLedger.State.{
  IntentStatus, intent_open, intent_matched, intent_canceled, IntentEntry,
}

abbrev pub is_intent_open : IntentStatus → Bool
is_intent_open intent_open = true
is_intent_open intent_matched = false
is_intent_open intent_canceled = false

-- `_intent_by_id`
unfoldable pub intent_by_id : ℕ → List IntentEntry → Option IntentEntry
intent_by_id i [] = none
intent_by_id i (e ∷ es) = if e.id == i then some e else intent_by_id i es

unfoldable pub update_intent : ℕ → (IntentEntry → IntentEntry) → List IntentEntry → List IntentEntry
update_intent i f [] = []
update_intent i f (e ∷ es) = if e.id == i then f e ∷ es else e ∷ update_intent i f es

-- `_mark_intent_matched`: an unknown intent, or one that is not open, is left alone.
mark : ℕ → ℕ → IntentEntry → IntentEntry
mark now entry_id ie =
    if is_intent_open ie.status
    then record ie {
      status = intent_matched;
      matched_entry_id = some entry_id;
      matched_ts = some now;
    }
    else ie

unfoldable pub mark_intent_matched : ℕ → ℕ → ℕ → List IntentEntry → List IntentEntry
unfolding mark
mark_intent_matched now intent_id entry_id = update_intent intent_id (mark now entry_id)

-- The numbers differ and both are known.
abbrev numbers_differ : Option ℕ → Option ℕ → Bool
numbers_differ (some n) (some m) = not (n == m)
numbers_differ _ _ = false

-- The test of the loop of `_maybe_match_nearest_intent`
abbrev pub is_candidate : String → Option ℕ → IntentEntry → Bool
is_candidate bet number ie =
    is_intent_open ie.status
    && str_eq (lower ie.bet) (lower bet)
    && not (numbers_differ number ie.number)

-- The last intent that passes the test: the loop goes from the end.
unfoldable pub nearest : String → Option ℕ → List IntentEntry → Option IntentEntry
nearest bet number [] = none
nearest bet number (ie ∷ ies) = elim (nearest bet number ies) [
  | some found ↦ some found
  | none ↦ if is_candidate bet number ie then some ie else none
]

-- The reason of a canceled intent: `reason or ie.reason or "canceled"`
abbrev cancel_reason : Option String → Option String → String
cancel_reason reason old = text_or (default_to "" reason) (text_or (default_to "" old) "canceled")

unfoldable pub cancel : ℕ → Option String → IntentEntry → IntentEntry
cancel now reason ie =
    if is_intent_open ie.status
    then record ie {
      status = intent_canceled;
      reason = some (cancel_reason reason ie.reason);
      canceled_ts = some now;
    }
    else ie
