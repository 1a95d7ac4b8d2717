-- ===== src/BetLedger/Runs.antt =====
-- Runs of the ledger: calls of its methods one after the other, with the money that went out for
-- bets and the money that came back.
use crapssim_control.Prelude.{
  ℕ, ◌≡◌, refl, sym, ap, ◌∙◌, String, Bool, Option, none, some, List, [], ◌∷◌, Bool-cases,
  Option-cases, inl, inr, default_to,
}
use crapssim_control.Prelude.Int.{ℤ, pos, ◌+ℤ◌, ◌-ℤ◌, ltb_ℤ, int_laws}
use crapssim_control.BetLedger.{
  Meta, BetLedger, Result, ok, failed, init, is_open, by_id, place, resolve, resolve_entry,
  add_entry, new_entry, begin_point_cycle, end_point_cycle, touch_roll, create_intent,
  cancel_intent, intent_by_id,
}
use crapssim_control.BetLedger.Accounts.{exposure, realized}
use crapssim_control.BetLedger.Balance.{
  IsBalanced, init-IsBalanced, place-IsBalanced, resolve-IsBalanced, IsPopped, target-IsPopped,
}

-- A call of one of the methods that change the ledger; the first number of the four longer ones is
-- the time.
pub data Call : Type 0 where
  place_call : ℕ → String → Option ℤ → Option String → Meta → Call
  resolve_call : ℕ → String → String → ℤ → Option ℕ → Bool → Meta → Call
  begin_call : Call
  end_call : Call
  touch_call : ℕ → Call
  intent_call : ℕ → String → Option ℤ → Option ℕ → Option String → Meta → Call
  cancel_call : ℕ → ℕ → Option String → Call

-- What a call moves: the amount where it succeeds.
abbrev pub moved_by : {A : Type 0} → ℤ → Result A → ℤ
moved_by amount (ok a) = amount
moved_by amount (failed e) = pos 0

pub record Books : Type 0 where
  pub ledger : BetLedger
  pub staked : ℤ
  pub paid : ℤ

-- A new ledger before any call.
unfoldable pub new_books : Books
new_books = record { ledger = init; staked = pos 0; paid = pos 0 }

abbrev net : BetLedger → ℤ
net l = l.realized_pnl_total -ℤ l.open_exposure

pub record IsKept (b : Books) : Type 0 where
  pub balanced : IsBalanced b.ledger
  pub conserved : b.paid -ℤ b.staked ≡ b.ledger.realized_pnl_total -ℤ b.ledger.open_exposure

move_out : (r x a : ℤ) → r -ℤ (x +ℤ a) ≡ r -ℤ x -ℤ a
move_out r x a = omega int_laws

move_in : (r x a p : ℤ) → r +ℤ (p -ℤ a) -ℤ (x -ℤ a) ≡ r -ℤ x +ℤ p
move_in r x a p = omega int_laws

net-resolve_entry :
    (now i : ℕ) (result : String) (payout : ℤ) (hook : Bool) (l : BetLedger)
    → let r = resolve_entry now i result payout hook l in net r.1 ≡ net l +ℤ moved_by payout r.0
unfolding resolve_entry
net-resolve_entry now i result payout hook l = elim (Option-cases (by_id i l.entries)) [
  | inl e ↦ rw (e, resolve_entry) (omega int_laws)
  | inr (x, e) ↦ elim (Bool-cases (is_open x.status)) [
    | inl o ↦
        rw (e, o, resolve_entry) (move_in l.realized_pnl_total l.open_exposure x.amount payout)
    | inr o ↦ rw (e, o, resolve_entry) (omega int_laws)
  ]
]

module _ (normalize : String → Meta → String) where
  unfoldable pub step : Call → Books → Books
  step (place_call now bet amount category meta) b =
      let r = place normalize now bet amount category meta b.ledger in
      record b { ledger = r.1; staked = b.staked +ℤ moved_by (default_to (pos 0) amount) r.0 }
  step (resolve_call now bet result payout entry_id hook meta) b =
      let r = resolve normalize now bet result payout entry_id hook meta b.ledger in
      record b { ledger = r.1; paid = b.paid +ℤ moved_by payout r.0 }
  step begin_call b = record b { ledger = begin_point_cycle b.ledger }
  step end_call b = record b { ledger = end_point_cycle b.ledger }
  step (touch_call i) b = record b { ledger = touch_roll i b.ledger }
  step (intent_call now bet stake number reason meta) b = record b {
    ledger = (create_intent normalize now bet stake number reason meta b.ledger).1;
  }
  step (cancel_call now i reason) b = record b { ledger = (cancel_intent now i reason b.ledger).1 }

  unfoldable pub run : List Call → Books → Books
  run [] b = b
  run (c ∷ cs) b = run cs (step c b)

  net-resolve :
      (now : ℕ) (bet result : String) (payout : ℤ) (entry_id : Option ℕ) (hook : Bool) (meta : Meta)
      (l : BetLedger)
      → let r = resolve normalize now bet result payout entry_id hook meta l in
        net r.1 ≡ net l +ℤ moved_by payout r.0
  unfolding resolve IsPopped
  net-resolve now bet result payout entry_id hook meta l =
      elim (target-IsPopped normalize bet entry_id meta l) [
        | inl e ↦ rw (e, resolve) (omega int_laws)
        | inr (i, s, e) ↦
            rw (e, resolve)
              (net-resolve_entry now i result payout hook (record l { open_stack = s }))
      ]

  net-place :
      (now : ℕ) (bet : String) (amount : Option ℤ) (category : Option String) (meta : Meta)
      (l : BetLedger)
      → let r = place normalize now bet amount category meta l in
        net r.1 ≡ net l -ℤ moved_by (default_to (pos 0) amount) r.0
  unfolding place add_entry new_entry
  net-place now bet none category meta l = omega int_laws
  net-place now bet (some amount) category meta l = elim (Bool-cases (ltb_ℤ amount (pos 0))) [
    | inl e ↦ rw e (omega int_laws)
    | inr e ↦ rw e (move_out l.realized_pnl_total l.open_exposure amount)
  ]

  pay_in : (p s n m k : ℤ) → p -ℤ s ≡ n → k ≡ n +ℤ m → p +ℤ m -ℤ s ≡ k
  pay_in p s n m k h e = rw (e, sym h) (omega int_laws)

  pay_out : (p s n m k : ℤ) → p -ℤ s ≡ n → k ≡ n -ℤ m → p -ℤ (s +ℤ m) ≡ k
  pay_out p s n m k h e = rw (e, sym h) (omega int_laws)

  keep :
      (b : Books)
      → IsKept b
      → (l : BetLedger) → l.entries ≡ b.ledger.entries
      → l.open_exposure ≡ b.ledger.open_exposure
      → l.realized_pnl_total ≡ b.ledger.realized_pnl_total
      → IsKept (record b { ledger = l })
  keep b h l e x r = record {
    balanced = record {
      exposed = ap exposure e ∙ h.balanced.exposed ∙ sym x;
      earned = ap realized e ∙ h.balanced.earned ∙ sym r;
      sound = rw e h.balanced.sound;
    };
    conserved =
        h.conserved
        ∙ ap (λ (k : ℤ). k -ℤ b.ledger.open_exposure) (sym r)
        ∙ ap (λ (k : ℤ). l.realized_pnl_total -ℤ k) (sym x);
  }

  step-IsKept : (c : Call) (b : Books) → IsKept b → IsKept (step c b)
  unfolding step begin_point_cycle end_point_cycle touch_roll create_intent cancel_intent
  step-IsKept (place_call now bet amount category meta) b h = record {
    balanced = place-IsBalanced normalize now bet amount category meta b.ledger h.balanced;
    conserved =
        pay_out b.paid b.staked (net b.ledger) _ _ h.conserved
          (net-place now bet amount category meta b.ledger);
  }
  step-IsKept (resolve_call now bet result payout entry_id hook meta) b h = record {
    balanced =
        resolve-IsBalanced normalize now bet result payout entry_id hook meta b.ledger h.balanced;
    conserved =
        pay_in b.paid b.staked (net b.ledger) _ _ h.conserved
          (net-resolve now bet result payout entry_id hook meta b.ledger);
  }
  step-IsKept begin_call b h = keep b h _ refl refl refl
  step-IsKept end_call b h = keep b h _ refl refl refl
  step-IsKept (touch_call i) b h = keep b h _ refl refl refl
  step-IsKept (intent_call now bet stake number reason meta) b h = keep b h _ refl refl refl
  step-IsKept (cancel_call now i reason) b h =
      elim (Option-cases (intent_by_id i b.ledger.intents)) [
        | inl e ↦
            keep b h _ (rw (e, cancel_intent) refl) (rw (e, cancel_intent) refl)
              (rw (e, cancel_intent) refl)
        | inr (ie, e) ↦
            keep b h _ (rw (e, cancel_intent) refl) (rw (e, cancel_intent) refl)
              (rw (e, cancel_intent) refl)
      ]

  run_keeps : (cs : List Call) (b : Books) → IsKept b → IsKept (run cs b)
  unfolding run
  run_keeps [] b h = h
  run_keeps (c ∷ cs) b h = run_keeps cs (step c b) (step-IsKept c b h)

  -- After any calls on a new ledger, failed ones among them: the open exposure is the sum of the
  -- amounts of the open entries and the realized total that of the closed entries' results, no entry
  -- has a negative amount and a closed one's result is its payout less its amount, and what the bets
  -- paid less what they cost is the realized total less the open exposure.
  pub run-IsKept : (cs : List Call) → IsKept (run cs new_books)
  unfolding new_books
  run-IsKept cs =
      run_keeps cs new_books
        (record { balanced = init-IsBalanced; conserved = unfold init in omega int_laws })
