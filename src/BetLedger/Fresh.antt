-- ===== src/BetLedger/Fresh.antt =====
-- No id is given out twice.
use crapssim_control.Prelude.{
  ℕ, ◌+◌, ◌<◌, String, Bool, Option, none, some, List, [], ◌∷◌, arith, All, All-append, Bool-cases,
  Option-cases, inl, inr,
}
use crapssim_control.Prelude.Int.{ℤ, pos, ltb_ℤ}
use crapssim_control.Prelude.Dict.{String_Eq}
use crapssim_control.BetLedger.{
  Meta, LedgerEntry, BetLedger, init, is_open, by_id, close_entry, place, resolve, resolve_entry,
  add_entry, new_entry, begin_point_cycle, end_point_cycle, touch_roll, create_intent,
  cancel_intent, intent_by_id,
}
use crapssim_control.BetLedger.Accounts.{All-update_entry}
use crapssim_control.BetLedger.Balance.{IsPopped, target-IsPopped}
use crapssim_control.BetLedger.Runs.{
  Call, place_call, resolve_call, begin_call, end_call, touch_call, intent_call, cancel_call, Books,
  step, run, new_books,
}

unfoldable pub IsBefore : ℕ → LedgerEntry → Type 0
IsBefore n e = e.id < n

-- Every entry has an id that was given out.
abbrev pub IsFresh : BetLedger → Type 0
IsFresh l = All (IsBefore l.next_id) l.entries

later : (n : ℕ) (es : List LedgerEntry) → All (IsBefore n) es → All (IsBefore (n + 1)) es
unfolding IsBefore
later n [] h = tt
later n (e ∷ es) h = (omega (arith, h.0), later n es h.1)

close_entry-IsBefore :
    (n now : ℕ) (result : String) (payout : ℤ) (roll : Option ℕ) (e : LedgerEntry)
    → IsBefore n e
    → IsBefore n (close_entry now result payout roll e)
unfolding close_entry IsBefore
close_entry-IsBefore n now result payout roll e h = h

resolve_entry-IsFresh :
    (now i : ℕ) (result : String) (payout : ℤ) (hook : Bool) (l : BetLedger)
    → IsFresh l
    → IsFresh (resolve_entry now i result payout hook l).1
unfolding resolve_entry
resolve_entry-IsFresh now i result payout hook l h = elim (Option-cases (by_id i l.entries)) [
  | inl e ↦ rw (e, resolve_entry) h
  | inr (x, e) ↦ elim (Bool-cases (is_open x.status)) [
    | inl o ↦
        rw (e, o, resolve_entry)
          (All-update_entry (IsBefore l.next_id)
            (close_entry now result payout l.current_roll_index) i l.entries
            (close_entry-IsBefore l.next_id now result payout l.current_roll_index) h)
    | inr o ↦ rw (e, o, resolve_entry) h
  ]
]

module _ (normalize : String → Meta → String) where
  step-IsFresh : (c : Call) (b : Books) → IsFresh b.ledger → IsFresh (step normalize c b).ledger
  unfolding step begin_point_cycle end_point_cycle touch_roll create_intent cancel_intent place
      add_entry new_entry IsBefore resolve IsPopped
  step-IsFresh (place_call now bet none category meta) b h = h
  step-IsFresh (place_call now bet (some amount) category meta) b h =
      let l = b.ledger in
      elim (Bool-cases (ltb_ℤ amount (pos 0))) [
        | inl e ↦ rw e h
        | inr e ↦ rw e (
            All-append (IsBefore (l.next_id + 1)) l.entries _ (later l.next_id l.entries h)
              (omega arith, tt))
      ]
  step-IsFresh (resolve_call now bet result payout entry_id hook meta) b h =
      elim (target-IsPopped normalize bet entry_id meta b.ledger) [
        | inl e ↦ rw (e, resolve) h
        | inr (i, s, e) ↦
            rw (e, resolve)
              (resolve_entry-IsFresh now i result payout hook (record b.ledger { open_stack = s })
                h)
      ]
  step-IsFresh begin_call b h = h
  step-IsFresh end_call b h = h
  step-IsFresh (touch_call i) b h = h
  step-IsFresh (intent_call now bet stake number reason meta) b h = h
  step-IsFresh (cancel_call now i reason) b h =
      elim (Option-cases (intent_by_id i b.ledger.intents)) [
        | inl e ↦ rw (e, cancel_intent) h
        | inr (ie, e) ↦ rw (e, cancel_intent) h
      ]

  run-IsFresh :
      (cs : List Call) (b : Books) → IsFresh b.ledger → IsFresh (run normalize cs b).ledger
  unfolding run
  run-IsFresh [] b h = h
  run-IsFresh (c ∷ cs) b h = run-IsFresh cs (step normalize c b) (step-IsFresh c b h)

  pub reached-IsFresh : (cs : List Call) → IsFresh (run normalize cs new_books).ledger
  unfolding new_books init
  reached-IsFresh cs = run-IsFresh cs new_books tt
