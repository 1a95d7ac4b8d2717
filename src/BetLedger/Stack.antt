-- ===== src/BetLedger/Stack.antt =====
-- The stacks of the ledger: which entry a call of `resolve` without an entry's id is about.
use crapssim_control.Prelude.{
  ℕ, ◌≡◌, refl, ap, ◌∙◌, String, Bool, true, false, Option, none, some, List, [], ◌∷◌, ◌++◌, ◌==◌,
  arith, All, Option-cases, inl, inr, default_to, if◌then◌else◌,
}
use crapssim_control.Prelude.Int.{ℤ, pos, ◌+ℤ◌, ◌-ℤ◌, ltb_ℤ, int_laws}
use crapssim_control.Prelude.Dict.{Dict, String_Eq, lookup, insert, lookup-insert_self}
use crapssim_control.BetLedger.{
  Meta, LedgerEntry, BetLedger, ok, failed, value_error, is_open, by_id, update_entry, close_entry,
  place, resolve, resolve_entry, target, pop_from, pop, add_entry, new_entry, entry_meta, text_or,
  lifo_key, number_of,
}
use crapssim_control.BetLedger.Accounts.{by_id-cons}
use crapssim_control.BetLedger.Fresh.{IsBefore, IsFresh, reached-IsFresh}
use crapssim_control.BetLedger.Runs.{Call, run, new_books}

pop-append : (is : List ℕ) (i : ℕ) → pop (is ++ i ∷ []) ≡ some (is, i)
unfolding pop
pop-append [] i = refl
pop-append (j ∷ is) i = rw (pop-append is i) refl

by_id-append :
    (n : ℕ) (es : List LedgerEntry) (e : LedgerEntry)
    → All (IsBefore n) es
    → e.id ≡ n
    → by_id n (es ++ e ∷ []) ≡ some e
unfolding by_id IsBefore
by_id-append n [] e h k = ground (arith, k)
by_id-append n (x ∷ es) e h k = ground (arith, by_id-append n es e h.1 k)

by_id-head :
    (i : ℕ) (x : LedgerEntry) (es : List LedgerEntry) → x.id == i ≡ true → by_id i (x ∷ es) ≡ some x
unfolding by_id
by_id-head i x es q = rw q refl

by_id-tail :
    (i : ℕ) (x : LedgerEntry) (es : List LedgerEntry)
    → x.id == i ≡ false
    → by_id i (x ∷ es) ≡ by_id i es
unfolding by_id
by_id-tail i x es q = rw q refl

by_id-update_entry :
    (g : LedgerEntry → LedgerEntry) (i : ℕ) (es : List LedgerEntry) (e : LedgerEntry)
    → ((x : LedgerEntry) → (g x).id ≡ x.id)
    → by_id i es ≡ some e
    → by_id i (update_entry i g es) ≡ some (g e)
unfolding update_entry
by_id-update_entry g i [] e k h = unfold by_id in ground arith
by_id-update_entry g i (x ∷ es) e k h = elim (by_id-cons i x es e h) [
  | inl (q, p) ↦ rw q (
      by_id-head i (g x) es (ap (λ (n : ℕ). n == i) (k x) ∙ q)
      ∙ ap (λ (y : LedgerEntry). some (g y)) p)
  | inr (q, rest) ↦
      rw q (by_id-tail i x (update_entry i g es) q ∙ by_id-update_entry g i es e k rest)
]

module _ (normalize : String → Meta → String) where
  -- The entry and the key that a bet gets.
  lifo_key-new_entry :
      (now : ℕ) (bet : String) (amount : ℤ) (category : Option String) (meta : Meta) (l : BetLedger)
      → let e = new_entry normalize now bet amount category meta l in
        lifo_key e.bet e.meta ≡ lifo_key (text_or (normalize bet meta) bet) meta
  unfolding new_entry entry_meta lifo_key number_of
  lifo_key-new_entry now bet amount category meta l = elim (Option-cases l.current_roll_index) [
    | inl e ↦ rw e refl
    | inr (r, e) ↦ rw e refl
  ]

  -- Where the top of the stack is closed.
  resolve_closed :
      (k : ℕ) (bet result : String) (payout : ℤ) (hook : Bool) (meta : Meta) (l : BetLedger)
      (rest : List ℕ) (i : ℕ) (e : LedgerEntry)
      → pop (default_to [] (lookup (lifo_key (text_or (normalize bet meta) bet) meta) l.open_stack))
        ≡ some (rest, i)
      → by_id i l.entries ≡ some e
      → is_open e.status ≡ false
      → (resolve normalize k bet result payout none hook meta l).0 ≡ failed value_error
  unfolding resolve target resolve_entry pop_from
  resolve_closed k bet result payout hook meta l rest i e top found closed =
      rw (resolve, target, pop_from, top, resolve_entry, found, closed) refl

  module _ (now : ℕ) (bet : String) (amount : ℤ) (category : Option String) (meta : Meta)
      (l : BetLedger) (fresh : IsFresh l) (valid : ltb_ℤ amount (pos 0) ≡ false) where
    abbrev entry : LedgerEntry
    entry = new_entry normalize now bet amount category meta l

    abbrev placed : BetLedger
    placed = add_entry normalize now bet entry l

    abbrev key : String
    key = lifo_key (text_or (normalize bet meta) bet) meta

    place-placed : place normalize now bet (some amount) category meta l ≡ (ok l.next_id, placed)
    unfolding place
    place-placed = rw valid refl

    by_id-placed : by_id l.next_id placed.entries ≡ some entry
    unfolding add_entry
    by_id-placed = by_id-append l.next_id l.entries _ fresh (unfold new_entry in refl)

    pop-placed :
        pop (default_to [] (lookup key placed.open_stack))
        ≡ some (default_to [] (lookup key l.open_stack), l.next_id)
    unfolding add_entry
    pop-placed =
        rw (lifo_key-new_entry now bet amount category meta l, lookup-insert_self)
          (unfold new_entry in pop-append _ _)

    pop_from-placed :
        pop_from key placed
        ≡ some (
          l.next_id,
          record placed {
            open_stack = insert key (default_to [] (lookup key l.open_stack)) placed.open_stack;
          },
        )
    unfolding pop_from
    pop_from-placed = rw (pop-placed, pop_from) refl

    -- The ledger after the top of the stack is resolved.
    resolve_top :
        (later_now : ℕ) (result : String) (payout : ℤ) (hook : Bool)
        → let r = resolve normalize later_now bet result payout none hook meta placed in
          let pnl = payout -ℤ amount in
          (r.0
            ≡ ok (record {
              entry_id = l.next_id;
              realized_pnl = pnl;
              hooked = if hook then some pnl else none;
            }))
          × (r.1.open_exposure ≡ l.open_exposure)
          × (r.1.realized_pnl_total ≡ l.realized_pnl_total +ℤ pnl)
          × (lookup key r.1.open_stack ≡ some (default_to [] (lookup key l.open_stack)))
    unfolding resolve target resolve_entry
    resolve_top later_now result payout hook =
        rw (resolve, target, pop_from-placed, resolve_entry, by_id-placed)
          (unfold new_entry add_entry in
            (refl, omega int_laws, refl, lookup-insert_self key _ placed.open_stack))

    abbrev close : ℕ → String → ℤ → LedgerEntry → LedgerEntry
    close n result payout = close_entry n result payout placed.current_roll_index

    -- The ledger after the entry is resolved by its id.
    abbrev by_its_id : ℕ → String → ℤ → Bool → Meta → BetLedger
    by_its_id n result payout hook m =
        (resolve normalize n bet result payout (some l.next_id) hook m placed).1

    entries-by_its_id :
        (n : ℕ) (result : String) (payout : ℤ) (hook : Bool) (m : Meta)
        → let r = (resolve normalize n bet result payout (some l.next_id) hook m placed).1 in
          (r.entries ≡ update_entry l.next_id (close n result payout) placed.entries)
          × (r.open_stack ≡ placed.open_stack)
    unfolding resolve target resolve_entry
    entries-by_its_id n result payout hook m =
        rw (resolve, target, resolve_entry, by_id-placed) (unfold new_entry in (refl, refl))

    resolve_stale :
        (n k : ℕ) (result result_2 : String) (payout payout_2 : ℤ) (hook hook_2 : Bool) (m : Meta)
        → (resolve normalize k bet result_2 payout_2 none hook_2 meta
            (by_its_id n result payout hook m)).0
          ≡ failed value_error
    resolve_stale n k result result_2 payout payout_2 hook hook_2 m =
        let facts = entries-by_its_id n result payout hook m in
        let r = by_its_id n result payout hook m in
        resolve_closed k bet result_2 payout_2 hook_2 meta r _ l.next_id
          (close n result payout entry)
          (ap (λ (d : Dict String (List ℕ)). pop (default_to [] (lookup key d))) facts.1
            ∙ pop-placed)
          (ap (by_id l.next_id) facts.0
            ∙ by_id-update_entry (close n result payout) l.next_id placed.entries entry
                (λ x. unfold close_entry in refl) by_id-placed)
          (unfold close_entry in refl)

  -- A bet of an amount that is not negative, placed after any calls and then resolved without an id and
  -- with the same `meta`: the entry that is closed is the new one, it earns the payout less its amount, which is added to the realized total, the exposure
  -- and the stack of the bet's key are again what they were before the bet, and the hook is handed the result.
  pub resolve-place :
      (cs : List Call) (now later_now : ℕ) (bet : String) (amount : ℤ) (category : Option String)
      (meta : Meta) (result : String) (payout : ℤ) (hook : Bool)
      → ltb_ℤ amount (pos 0) ≡ false
      → let l = (run normalize cs new_books).ledger in
        let r =
          resolve normalize later_now bet result payout none hook meta
            (place normalize now bet (some amount) category meta l).1 in
        let pnl = payout -ℤ amount in
        let k = lifo_key (text_or (normalize bet meta) bet) meta in
        (r.0
          ≡ ok (record {
            entry_id = l.next_id;
            realized_pnl = pnl;
            hooked = if hook then some pnl else none;
          }))
        × (r.1.open_exposure ≡ l.open_exposure)
        × (r.1.realized_pnl_total ≡ l.realized_pnl_total +ℤ pnl)
        × (lookup k r.1.open_stack ≡ some (default_to [] (lookup k l.open_stack)))
  resolve-place cs now later_now bet amount category meta result payout hook valid =
      let l = (run normalize cs new_books).ledger in
      let fresh = reached-IsFresh normalize cs in
      rw (place-placed now bet amount category meta l fresh valid)
        (resolve_top now bet amount category meta l fresh valid later_now result payout hook)

  -- Where a bet of an amount that is not negative, placed after any calls, is resolved by its entry's id, its stack keeps the id: the next
  -- `resolve` of the bet without an id, with the `meta` of its placing, fails with a ValueError, even with
  -- an older bet of the same key open.
  pub resolve-resolve :
      (cs : List Call) (now n k : ℕ) (bet : String) (amount : ℤ) (category : Option String)
      (meta m : Meta) (result result_2 : String) (payout payout_2 : ℤ) (hook hook_2 : Bool)
      → ltb_ℤ amount (pos 0) ≡ false
      → let l = (run normalize cs new_books).ledger in
        let p = (place normalize now bet (some amount) category meta l).1 in
        let r = (resolve normalize n bet result payout (some l.next_id) hook m p).1 in
        (resolve normalize k bet result_2 payout_2 none hook_2 meta r).0 ≡ failed value_error
  resolve-resolve cs now n k bet amount category meta m result result_2 payout payout_2 hook hook_2
        valid =
      let l = (run normalize cs new_books).ledger in
      let fresh = reached-IsFresh normalize cs in
      rw (place-placed now bet amount category meta l fresh valid) (
        resolve_stale now bet amount category meta l fresh valid n k result result_2 payout payout_2
          hook hook_2 m)
