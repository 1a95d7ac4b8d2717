-- ===== src/BetLedger/Accounts.antt =====
-- What the entries add up to, and that the running totals of the ledger are these sums.
use crapssim_control.Prelude.{
  ℕ, ◌≡◌, sym, ◌∙◌, String, true, false, Option, some, List, [], ◌∷◌, ◌++◌, if◌then◌else◌, ◌==◌,
  arith, All, ◌⊎◌, Bool-cases, inl, inr,
}
use mathlib.Core.Option.{some-injective}
use crapssim_control.Prelude.Int.{ℤ, pos, ◌+ℤ◌, ◌-ℤ◌, int_laws}
use crapssim_control.BetLedger.State.{LedgerEntry}
use crapssim_control.BetLedger.Entries.{is_open, by_id, update_entry, close_entry}

-- The sum of an amount of each entry.
unfoldable pub sum_of : (LedgerEntry → ℤ) → List LedgerEntry → ℤ
sum_of f [] = pos 0
sum_of f (e ∷ es) = f e +ℤ sum_of f es

-- What is at stake in an open entry, and what a closed one has won or lost.
abbrev pub stake_of : LedgerEntry → ℤ
stake_of e = if is_open e.status then e.amount else pos 0

abbrev pub earning_of : LedgerEntry → ℤ
earning_of e = if is_open e.status then pos 0 else e.realized_pnl

abbrev pub exposure : List LedgerEntry → ℤ
exposure = sum_of stake_of

abbrev pub realized : List LedgerEntry → ℤ
realized = sum_of earning_of

pub sum_of-append :
    (f : LedgerEntry → ℤ) (es : List LedgerEntry) (e : LedgerEntry)
    → sum_of f (es ++ e ∷ []) ≡ sum_of f es +ℤ f e
unfolding sum_of
sum_of-append f [] e = omega int_laws
sum_of-append f (x ∷ es) e = rw (sum_of-append f es e) (omega int_laws)

-- The entry that is found is the first of its id.
pub by_id-cons :
    (i : ℕ) (x : LedgerEntry) (es : List LedgerEntry) (e : LedgerEntry)
    → by_id i (x ∷ es) ≡ some e
    → ((x.id == i ≡ true) × (x ≡ e)) ⊎ ((x.id == i ≡ false) × (by_id i es ≡ some e))
unfolding by_id
by_id-cons i x es e h = elim (Bool-cases (x.id == i)) [
  | inl q ↦ inl (q, some-injective x e (rw q at h))
  | inr q ↦ inr (q, rw q at h)
]

replace_head : (a b c : ℤ) → b +ℤ c ≡ a +ℤ c -ℤ a +ℤ b
replace_head a b c = omega int_laws

replace_tail : (a b c d : ℤ) → a +ℤ (b -ℤ c +ℤ d) ≡ a +ℤ b -ℤ c +ℤ d
replace_tail a b c d = omega int_laws

-- A change of one entry changes the sum by its difference.
pub sum_of-update_entry :
    (f : LedgerEntry → ℤ) (g : LedgerEntry → LedgerEntry) (i : ℕ) (es : List LedgerEntry)
    (e : LedgerEntry)
    → by_id i es ≡ some e
    → sum_of f (update_entry i g es) ≡ sum_of f es -ℤ f e +ℤ f (g e)
unfolding sum_of update_entry
sum_of-update_entry f g i [] e h = unfold by_id in ground arith
sum_of-update_entry f g i (x ∷ es) e h = elim (by_id-cons i x es e h) [
  | inl (q, p) ↦ rw (q, sym p) (replace_head (f x) (f (g x)) (sum_of f es))
  | inr (q, rest) ↦
      rw (q, sum_of-update_entry f g i es e rest) (replace_tail (f x) (sum_of f es) (f e) (f (g e)))
]

module _ (now : ℕ) (result : String) (payout : ℤ) (roll : Option ℕ) (i : ℕ) (es : List LedgerEntry)
    (e : LedgerEntry) (found : by_id i es ≡ some e) (opened : is_open e.status ≡ true) where
  pub exposure-close_entry :
      exposure (update_entry i (close_entry now result payout roll) es) ≡ exposure es -ℤ e.amount
  unfolding close_entry
  exposure-close_entry =
      sum_of-update_entry stake_of (close_entry now result payout roll) i es e found
      ∙ rw opened (omega int_laws)

  pub realized-close_entry :
      realized (update_entry i (close_entry now result payout roll) es)
      ≡ realized es +ℤ (payout -ℤ e.amount)
  unfolding close_entry
  realized-close_entry =
      sum_of-update_entry earning_of (close_entry now result payout roll) i es e found
      ∙ rw opened (omega int_laws)

-- A predicate that the new entry has is kept by all.
pub All-update_entry :
    (P : LedgerEntry → Type 0) (g : LedgerEntry → LedgerEntry) (i : ℕ) (es : List LedgerEntry)
    → ((e : LedgerEntry) → P e → P (g e))
    → All P es
    → All P (update_entry i g es)
unfolding update_entry
All-update_entry P g i [] k h = h
All-update_entry P g i (x ∷ es) k h = elim (Bool-cases (x.id == i)) [
  | inl q ↦ rw q (k x h.0, h.1)
  | inr q ↦ rw q (h.0, All-update_entry P g i es k h.1)
]
