-- ===== src/BetLedger/Balance.antt =====
-- Runs of the ledger, and that its running totals stay those of its entries and of the money that
-- went out and came back.
use crapssim_control.Prelude.{
  ℕ, ◌≡◌, refl, ap, ◌∙◌, String, Bool, false, Option, none, some, List, [], arith, All, All-append,
  ◌⊎◌, Bool-cases, Option-cases, inl, inr, default_to,
}
use crapssim_control.Prelude.Int.{ℤ, pos, ◌+ℤ◌, ◌-ℤ◌, ◌≤ℤ◌, ltb_ℤ, int_laws}
use crapssim_control.Prelude.Dict.{Dict, String_Eq, lookup, insert}
use crapssim_control.BetLedger.{
  Meta, LedgerEntry, BetLedger, init, is_open, by_id, close_entry, place, resolve, resolve_entry,
  target, pop_from, pop, text_or, lifo_key, add_entry, new_entry,
}
use crapssim_control.BetLedger.Accounts.{
  exposure, realized, sum_of, stake_of, earning_of, sum_of-append, exposure-close_entry,
  realized-close_entry, All-update_entry,
}

-- An entry has an amount that is not negative; what a closed one earned is its payout less this.
abbrev pub IsEntry : LedgerEntry → Type 0
IsEntry e = (pos 0 ≤ℤ e.amount) × (is_open e.status ≡ false → e.realized_pnl ≡ e.payout -ℤ e.amount)

pub record IsBalanced (l : BetLedger) : Type 0 where
  pub exposed : exposure l.entries ≡ l.open_exposure
  pub earned : realized l.entries ≡ l.realized_pnl_total
  pub sound : All IsEntry l.entries

pub init-IsBalanced : IsBalanced init
unfolding init sum_of
init-IsBalanced = record { exposed = refl; earned = refl; sound = tt }

abbrev pub with_stack : Dict String (List ℕ) → BetLedger → BetLedger
with_stack s l = record l { open_stack = s }

-- Popping a stack changes nothing else.
unfoldable pub IsPopped : BetLedger → Option (ℕ × BetLedger) → Type 0
IsPopped l r = (r ≡ none) ⊎ ((i : ℕ) × (s : Dict String (List ℕ)) × (r ≡ some (i, with_stack s l)))

pop_from-IsPopped : (key : String) (l : BetLedger) → IsPopped l (pop_from key l)
unfolding pop_from IsPopped
pop_from-IsPopped key l = elim (Option-cases (pop (default_to [] (lookup key l.open_stack)))) [
  | inl e ↦ inl (rw (e, pop_from) refl)
  | inr ((rest, top), e) ↦ inr (top, insert key rest l.open_stack, rw (e, pop_from) refl)
]

module _ (normalize : String → Meta → String) where
  pub target-IsPopped :
      (bet : String) (entry_id : Option ℕ) (meta : Meta) (l : BetLedger)
      → IsPopped l (target normalize bet entry_id meta l)
  unfolding target IsPopped
  target-IsPopped bet (some i) meta l = inr (i, l.open_stack, refl)
  target-IsPopped bet none meta l =
      elim (pop_from-IsPopped (lifo_key (text_or (normalize bet meta) bet) meta) l) [
        | inl e ↦ rw (e, target) (pop_from-IsPopped (lifo_key bet meta) l)
        | inr (i, s, e) ↦ inr (i, s, rw (e, target) refl)
      ]

with_stack-IsBalanced :
    (s : Dict String (List ℕ)) (l : BetLedger) → IsBalanced l → IsBalanced (with_stack s l)
with_stack-IsBalanced s l h = record { exposed = h.exposed; earned = h.earned; sound = h.sound }

close_entry-IsEntry :
    (now : ℕ) (result : String) (payout : ℤ) (roll : Option ℕ) (e : LedgerEntry)
    → IsEntry e
    → IsEntry (close_entry now result payout roll e)
unfolding close_entry
close_entry-IsEntry now result payout roll e h = (h.0, λ _. refl)

resolve_entry-IsBalanced :
    (now i : ℕ) (result : String) (payout : ℤ) (hook : Bool) (l : BetLedger)
    → IsBalanced l
    → IsBalanced (resolve_entry now i result payout hook l).1
unfolding resolve_entry
resolve_entry-IsBalanced now i result payout hook l h = elim (Option-cases (by_id i l.entries)) [
  | inl e ↦ rw (e, resolve_entry) h
  | inr (x, e) ↦ elim (Bool-cases (is_open x.status)) [
    | inl o ↦
        rw (e, o, resolve_entry)
          (let roll = l.current_roll_index in
            record {
              exposed =
                  exposure-close_entry now result payout roll i l.entries x e o
                  ∙ ap (λ (k : ℤ). k -ℤ x.amount) h.exposed;
              earned =
                  realized-close_entry now result payout roll i l.entries x e o
                  ∙ ap (λ (k : ℤ). k +ℤ (payout -ℤ x.amount)) h.earned;
              sound =
                  All-update_entry IsEntry (close_entry now result payout roll) i l.entries
                    (close_entry-IsEntry now result payout roll) h.sound;
            })
    | inr o ↦ rw (e, o, resolve_entry) h
  ]
]

earn_nothing : (a b : ℤ) → a ≡ b → a +ℤ pos 0 ≡ b
earn_nothing a b h = omega int_laws ∙ h

ltb_ℤ-false : (a : ℤ) → ltb_ℤ a (pos 0) ≡ false → pos 0 ≤ℤ a
ltb_ℤ-false a h = ground arith

module _ (normalize : String → Meta → String) where
  pub resolve-IsBalanced :
      (now : ℕ) (bet result : String) (payout : ℤ) (entry_id : Option ℕ) (hook : Bool) (meta : Meta)
      (l : BetLedger)
      → IsBalanced l
      → IsBalanced (resolve normalize now bet result payout entry_id hook meta l).1
  unfolding resolve IsPopped
  resolve-IsBalanced now bet result payout entry_id hook meta l h =
      elim (target-IsPopped normalize bet entry_id meta l) [
        | inl e ↦ rw (e, resolve) h
        | inr (i, s, e) ↦
            rw (e, resolve)
              (resolve_entry-IsBalanced now i result payout hook (with_stack s l)
                (with_stack-IsBalanced s l h))
      ]

  pub place-IsBalanced :
      (now : ℕ) (bet : String) (amount : Option ℤ) (category : Option String) (meta : Meta)
      (l : BetLedger)
      → IsBalanced l
      → IsBalanced (place normalize now bet amount category meta l).1
  unfolding place add_entry new_entry
  place-IsBalanced now bet none category meta l h = h
  place-IsBalanced now bet (some amount) category meta l h =
      elim (Bool-cases (ltb_ℤ amount (pos 0))) [
        | inl e ↦ rw e h
        | inr e ↦ rw e (record {
          exposed = sum_of-append stake_of l.entries _ ∙ ap (λ (k : ℤ). k +ℤ amount) h.exposed;
          earned = sum_of-append earning_of l.entries _ ∙ earn_nothing _ _ h.earned;
          sound =
              All-append IsEntry l.entries _ h.sound
                ((ltb_ℤ-false amount e, λ k. ground arith), tt);
        })
      ]
