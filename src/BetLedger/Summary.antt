-- ===== src/BetLedger/Summary.antt =====
-- `snapshot()`, and that its parts add up.
use crapssim_control.Prelude.{
  ℕ, zero, suc, ◌+◌, ◌-◌, ◌≡◌, refl, sym, ◌∙◌, String, Bool, true, false, not, List, [], ◌∷◌, arith,
  Bool-cases, inl, inr, default_to, if◌then◌else◌, length,
}
use crapssim_control.Prelude.Int.{ℤ, pos, ◌+ℤ◌, ◌-ℤ◌, int_laws}
use crapssim_control.Prelude.Dict.{Dict, String_Eq, lookup, insert}
use crapssim_control.BetLedger.{
  Meta, LedgerEntry, BetLedger, IntentEntry, IntentStatus, intent_open, intent_matched,
  intent_canceled, is_open, is_intent_open,
}
use crapssim_control.BetLedger.Accounts.{sum_of, stake_of, earning_of, exposure, realized}
use crapssim_control.BetLedger.Runs.{Call, run, new_books, run-IsKept}

module _ {A : Type 0} where
  -- `[x for x in xs if test x]`
  abbrev pub select : (A → Bool) → List A → List A
  select test [] = []
  select test (x ∷ xs) = let rest = select test xs in if test x then x ∷ rest else rest

  abbrev drop : ℕ → List A → List A
  drop zero xs = xs
  drop (suc n) [] = []
  drop (suc n) (x ∷ xs) = drop n xs

  -- `xs[-50:]`
  abbrev last_50 : List A → List A
  last_50 xs = drop (length xs - 50) xs

-- `d[key] = d.get(key, 0.0) + amount`
abbrev add_amount : String → ℤ → Dict String ℤ → Dict String ℤ
add_amount key amount d = insert key (default_to (pos 0) (lookup key d) +ℤ amount) d

-- The amounts of some entries, by category.
unfoldable pub by_category : (LedgerEntry → ℤ) → List LedgerEntry → Dict String ℤ → Dict String ℤ
by_category amount [] d = d
by_category amount (e ∷ es) d = by_category amount es (add_amount e.category (amount e) d)

pub record Intents : Type 0 where
  pub open_count : ℕ
  pub matched_count : ℕ
  pub canceled_count : ℕ
  pub opened : List IntentEntry
  pub matched : List IntentEntry
  pub canceled : List IntentEntry

pub record Snapshot : Type 0 where
  pub open_count : ℕ
  pub closed_count : ℕ
  pub open_exposure : ℤ
  pub realized_pnl : ℤ
  pub realized_pnl_since_point : ℤ
  pub exposure_by_category : Dict String ℤ
  pub realized_by_category : Dict String ℤ
  pub opened : List LedgerEntry
  pub closed : List LedgerEntry
  pub intents : Intents

abbrev pub is_closed : LedgerEntry → Bool
is_closed e = not (is_open e.status)

abbrev pub opened_entry : LedgerEntry → Bool
opened_entry e = is_open e.status

abbrev pub is_matched : IntentStatus → Bool
is_matched intent_open = false
is_matched intent_matched = true
is_matched intent_canceled = false

abbrev pub is_canceled : IntentStatus → Bool
is_canceled intent_open = false
is_canceled intent_matched = false
is_canceled intent_canceled = true

unfoldable pub snapshot : BetLedger → Snapshot
snapshot l =
    let open_entries = select opened_entry l.entries in
    let closed_entries = select is_closed l.entries in
    let opened = select (λ (i : IntentEntry). is_intent_open i.status) l.intents in
    let matched = select (λ (i : IntentEntry). is_matched i.status) l.intents in
    let canceled = select (λ (i : IntentEntry). is_canceled i.status) l.intents in
    record {
      open_count = length open_entries;
      closed_count = length closed_entries;
      open_exposure = l.open_exposure;
      realized_pnl = l.realized_pnl_total;
      realized_pnl_since_point = l.pnl_since_point;
      exposure_by_category = by_category (λ (e : LedgerEntry). e.amount) open_entries [];
      realized_by_category = by_category (λ (e : LedgerEntry). e.realized_pnl) closed_entries [];
      opened = open_entries;
      closed = last_50 closed_entries;
      intents = record {
        open_count = length opened;
        matched_count = length matched;
        canceled_count = length canceled;
        opened = last_50 opened;
        matched = last_50 matched;
        canceled = last_50 canceled;
      };
    }

abbrev pub total_ℤ : Dict String ℤ → ℤ
total_ℤ [] = pos 0
total_ℤ ((k, v) ∷ d) = v +ℤ total_ℤ d

total_ℤ-insert :
    (key : String) (v : ℤ) (d : Dict String ℤ)
    → total_ℤ (insert key v d) ≡ total_ℤ d -ℤ default_to (pos 0) (lookup key d) +ℤ v
unfolding insert lookup
total_ℤ-insert key v [] = omega int_laws
total_ℤ-insert key v ((j, w) ∷ d) = elim (Bool-cases (String_Eq.beq j key)) [
  | inl e ↦ rw e (omega int_laws)
  | inr e ↦ rw (e, total_ℤ-insert key v d) (omega int_laws)
]

total_ℤ-add_amount :
    (key : String) (v : ℤ) (d : Dict String ℤ) → total_ℤ (add_amount key v d) ≡ total_ℤ d +ℤ v
total_ℤ-add_amount key v d = total_ℤ-insert key _ d ∙ omega int_laws

assoc : (a b c : ℤ) → a +ℤ b +ℤ c ≡ a +ℤ (b +ℤ c)
assoc a b c = omega int_laws

plus_zero : (a b : ℤ) → a +ℤ b ≡ a +ℤ (pos 0 +ℤ b)
plus_zero a b = omega int_laws

zero_plus : (a : ℤ) → pos 0 +ℤ a ≡ a
zero_plus a = omega int_laws

total_ℤ-by_category :
    (f g : LedgerEntry → ℤ) (test : LedgerEntry → Bool) (es : List LedgerEntry) (d : Dict String ℤ)
    → ((e : LedgerEntry) → (if test e then f e else pos 0) ≡ g e)
    → total_ℤ (by_category f (select test es) d) ≡ total_ℤ d +ℤ sum_of g es
unfolding by_category sum_of
total_ℤ-by_category f g test [] d h = omega int_laws
total_ℤ-by_category f g test (e ∷ es) d h = elim (Bool-cases (test e)) [
  | inl q ↦
      let same : f e ≡ g e = rw q at (h e) in
      rw q (
        total_ℤ-by_category f g test es (add_amount e.category (f e) d) h
        ∙ rw (total_ℤ-add_amount e.category (f e) d, same) (assoc (total_ℤ d) (g e) (sum_of g es)))
  | inr q ↦
      let same : pos 0 ≡ g e = rw q at (h e) in
      rw q
        (total_ℤ-by_category f g test es d h ∙ rw (sym same) (plus_zero (total_ℤ d) (sum_of g es)))
]

closed_earns : (e : LedgerEntry) → (if is_closed e then e.realized_pnl else pos 0) ≡ earning_of e
closed_earns e = ground arith

count_parts :
    (es : List LedgerEntry)
    → length (select opened_entry es) + length (select is_closed es) ≡ length es
count_parts [] = omega arith
count_parts (e ∷ es) = ground (arith, count_parts es)

-- In the snapshot of any ledger that calls lead to, the exposures of the categories add up to the open
-- exposure and their results to the realized total, and every entry is counted as open or as closed, not both.
pub snapshot_adds_up :
    (normalize : String → Meta → String) (cs : List Call)
    → let l = (run normalize cs new_books).ledger in
      (total_ℤ (snapshot l).exposure_by_category ≡ (snapshot l).open_exposure)
      × (total_ℤ (snapshot l).realized_by_category ≡ (snapshot l).realized_pnl)
      × ((snapshot l).open_count + (snapshot l).closed_count ≡ length l.entries)
unfolding snapshot
snapshot_adds_up normalize cs =
    let l = (run normalize cs new_books).ledger in
    let kept = (run-IsKept normalize cs).balanced in
    (
      total_ℤ-by_category (λ e. e.amount) stake_of opened_entry l.entries [] (λ e. refl)
          ∙ zero_plus (exposure l.entries)
          ∙ kept.exposed,
      total_ℤ-by_category (λ e. e.realized_pnl) earning_of is_closed l.entries [] closed_earns
          ∙ zero_plus (realized l.entries)
          ∙ kept.earned,
      count_parts l.entries,
    )
