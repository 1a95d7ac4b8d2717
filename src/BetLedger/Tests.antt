-- ===== src/BetLedger/Tests.antt =====
-- Runs of the ledger at concrete inputs.
use crapssim_control.Prelude.{
  ◌+◌, ◌≡◌, refl, String, true, false, none, some, List, [], ◌∷◌, length, default_to,
}
use crapssim_control.Prelude.Int.{pos, ◌+ℤ◌, ◌-ℤ◌}
use crapssim_control.Prelude.Dict.{String_Eq, lookup}
use crapssim_control.Prelude.Text.{lower}
use crapssim_control.BetLedger.{Meta, ok, failed, value_error, place, resolve, lifo_key, text_or}
use crapssim_control.BetLedger.Runs.{
  Call, place_call, resolve_call, begin_call, intent_call, touch_call, run, new_books, IsKept,
  run-IsKept,
}
use crapssim_control.BetLedger.Stack.{resolve-place, resolve-resolve}
use crapssim_control.BetLedger.Summary.{snapshot, total_ℤ, snapshot_adds_up}

abbrev no_meta : Meta
no_meta = record {
  number = none;
  point = none;
  box = none;
  intent_id = none;
  raw_bet_type = none;
  canon_bet_type = none;
  roll_index_opened = none;
  roll_index_closed = none;
  other = [];
}

abbrev on_six : Meta
on_six = record no_meta { number = some 6 }

-- A normalization by lower case only.
abbrev lowered : String → Meta → String
lowered bet meta = lower bet

abbrev evening : List Call
evening =
    intent_call 1 "Place" (some (pos 12)) (some 6) none no_meta
    ∷ touch_call 3
    ∷ place_call 2 "Place" (some (pos 12)) none on_six
    ∷ begin_call
    ∷ place_call 3 "Field" (some (pos 5)) none no_meta
    ∷ resolve_call 4 "Field" "lose" (pos 0) none false no_meta
    ∷ resolve_call 5 "Field" "lose" (pos 0) none false no_meta
    ∷ []

run-IsKept_example : IsKept (run lowered evening new_books)
run-IsKept_example = run-IsKept lowered evening

resolve-place_example :
    let l = (run lowered evening new_books).ledger in
    let r =
      resolve lowered 7 "Place" "win"
        (pos 26)
        none
        true
        on_six
        (place lowered 6 "Place" (some (pos 12)) none on_six l).1 in
    let k = lifo_key (text_or (lowered "Place" on_six) "Place") on_six in
    (r.0
      ≡ ok (record {
        entry_id = l.next_id;
        realized_pnl = pos 26 -ℤ pos 12;
        hooked = some (pos 26 -ℤ pos 12);
      }))
    × (r.1.open_exposure ≡ l.open_exposure)
    × (r.1.realized_pnl_total ≡ l.realized_pnl_total +ℤ (pos 26 -ℤ pos 12))
    × (lookup k r.1.open_stack ≡ some (default_to [] (lookup k l.open_stack)))
resolve-place_example =
    resolve-place lowered evening 6 7 "Place" (pos 12) none on_six "win" (pos 26) true refl

resolve-resolve_example :
    let l = (run lowered evening new_books).ledger in
    let p = (place lowered 6 "Place" (some (pos 12)) none on_six l).1 in
    let r = (resolve lowered 7 "Place" "win" (pos 26) (some l.next_id) false on_six p).1 in
    (resolve lowered 8 "Place" "lose" (pos 0) none false on_six r).0 ≡ failed value_error
resolve-resolve_example =
    resolve-resolve lowered evening 6 7 8 "Place" (pos 12) none on_six on_six "win" "lose" (pos 26)
      (pos 0) false false refl

snapshot_adds_up_example :
    let l = (run lowered evening new_books).ledger in
    (total_ℤ (snapshot l).exposure_by_category ≡ (snapshot l).open_exposure)
    × (total_ℤ (snapshot l).realized_by_category ≡ (snapshot l).realized_pnl)
    × ((snapshot l).open_count + (snapshot l).closed_count ≡ length l.entries)
snapshot_adds_up_example = snapshot_adds_up lowered evening
