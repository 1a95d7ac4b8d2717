-- ===== src/Controller/Marked.antt =====
-- Where the action on a bet stands in the list, and what replacing it does.
use crapssim_control.Prelude.{
  arith, ℕ, zero, suc, true, false, String, Option, none, some, List, [], ◌∷◌, ◌++◌, ◌≡◌, ◌∙◌, refl,
  inl, inr, Bool-cases, str_eq, eq_iff,
}
use crapssim_control.Templates.Envelope.{Action}
use crapssim_control.Controller.Merge.{bet_of, replace_at, size}
use crapssim_control.Controller.Names.{is_for, all_for, is_bet, others}

-- The action at the index is the only one on the bet.
abbrev pub Marked : String → ℕ → List Action → Type 0
Marked k i [] = ⊥
Marked k zero (b ∷ final) = (is_for k (bet_of b) ≡ true) × (all_for k final ≡ [])
Marked k (suc i) (b ∷ final) = (is_for k (bet_of b) ≡ false) × Marked k i final

pub other_bet :
    (k j : String) (o : Option String) → is_for k o ≡ true → str_eq k j ≡ false → is_for j o ≡ false
other_bet k j none h e = refl
other_bet k j (some b) h e = ground (arith, h, e, eq_iff b k, eq_iff b j, eq_iff k j)

on_bet : (k : String) (o : Option String) → is_for k o ≡ true → is_bet o ≡ true
on_bet k none h = h
on_bet k (some b) h = refl

pub all_for-append_other :
    (k : String) (a : Action) (final : List Action)
    → is_for k (bet_of a) ≡ false
    → all_for k (final ++ a ∷ []) ≡ all_for k final
all_for-append_other k a [] h = rw h refl
all_for-append_other k a (b ∷ final) h = rw (all_for-append_other k a final h) refl

pub append_other-Marked :
    (k : String) (i : ℕ) (a : Action) (final : List Action)
    → is_for k (bet_of a) ≡ false
    → Marked k i final
    → Marked k i (final ++ a ∷ [])
append_other-Marked k i a [] h m = elim m [ ]
append_other-Marked k zero a (b ∷ final) h (here, rest) =
    (here, all_for-append_other k a final h ∙ rest)
append_other-Marked k (suc i) a (b ∷ final) h (apart, m) =
    (apart, append_other-Marked k i a final h m)

pub append_new-Marked :
    (k : String) (a : Action) (final : List Action)
    → is_for k (bet_of a) ≡ true
    → all_for k final ≡ []
    → Marked k (size final) (final ++ a ∷ [])
append_new-Marked k a [] h e = (h, refl)
append_new-Marked k a (b ∷ final) h e = elim (Bool-cases (is_for k (bet_of b))) [
  | inl f ↦ ground (arith, rw f at e)
  | inr f ↦ (f, append_new-Marked k a final h (rw f at e))
]

pub all_for-append_new :
    (k : String) (a : Action) (final : List Action)
    → is_for k (bet_of a) ≡ true
    → all_for k final ≡ []
    → all_for k (final ++ a ∷ []) ≡ a ∷ []
all_for-append_new k a [] h e = rw h refl
all_for-append_new k a (b ∷ final) h e = elim (Bool-cases (is_for k (bet_of b))) [
  | inl f ↦ ground (arith, rw f at e)
  | inr f ↦ rw (f, all_for-append_new k a final h (rw f at e)) refl
]

pub others-append_bet :
    (a : Action) (final : List Action)
    → is_bet (bet_of a) ≡ true
    → others (final ++ a ∷ []) ≡ others final
others-append_bet a [] h = rw h refl
others-append_bet a (b ∷ final) h = rw (others-append_bet a final h) refl

module _ (k : String) (a : Action) (h : is_for k (bet_of a) ≡ true) where
  pub all_for-replace_at :
      (i : ℕ) (final : List Action) → Marked k i final → all_for k (replace_at i a final) ≡ a ∷ []
  unfolding replace_at
  all_for-replace_at i [] m = elim m [ ]
  all_for-replace_at zero (b ∷ final) (here, rest) = rw (h, rest) refl
  all_for-replace_at (suc i) (b ∷ final) (apart, m) = rw (apart, all_for-replace_at i final m) refl

  pub replace_at-Marked :
      (i : ℕ) (final : List Action) → Marked k i final → Marked k i (replace_at i a final)
  unfolding replace_at
  replace_at-Marked i [] m = elim m [ ]
  replace_at-Marked zero (b ∷ final) (here, rest) = (h, rest)
  replace_at-Marked (suc i) (b ∷ final) (apart, m) = (apart, replace_at-Marked i final m)

  pub all_for-replace_at_other :
      (j : String) (i : ℕ) (final : List Action)
      → str_eq k j ≡ false
      → Marked k i final
      → all_for j (replace_at i a final) ≡ all_for j final
  unfolding replace_at
  all_for-replace_at_other j i [] e m = elim m [ ]
  all_for-replace_at_other j zero (b ∷ final) e (here, rest) =
      rw (other_bet k j (bet_of a) h e, other_bet k j (bet_of b) here e) refl
  all_for-replace_at_other j (suc i) (b ∷ final) e (apart, m) =
      rw (all_for-replace_at_other j i final e m) refl

  pub replace_at_other-Marked :
      (j : String) (i m : ℕ) (final : List Action)
      → str_eq k j ≡ false
      → Marked k i final
      → Marked j m final
      → Marked j m (replace_at i a final)
  unfolding replace_at
  replace_at_other-Marked j i m [] e n more = elim n [ ]
  replace_at_other-Marked j zero zero (b ∷ final) e (here, rest) (there, more) =
      ground (arith, other_bet k j (bet_of b) here e, there)
  replace_at_other-Marked j zero (suc m) (b ∷ final) e (here, rest) (apart, more) =
      (other_bet k j (bet_of a) h e, more)
  replace_at_other-Marked j (suc i) zero (b ∷ final) e (apart, n) (there, more) =
      (there, all_for-replace_at_other j i final e n ∙ more)
  replace_at_other-Marked j (suc i) (suc m) (b ∷ final) e (apart, n) (off, more) =
      (off, replace_at_other-Marked j i m final e n more)

  pub others-replace_at :
      (i : ℕ) (final : List Action)
      → Marked k i final
      → others (replace_at i a final) ≡ others final
  unfolding replace_at
  others-replace_at i [] m = elim m [ ]
  others-replace_at zero (b ∷ final) (here, rest) =
      rw (on_bet k (bet_of a) h, on_bet k (bet_of b) here) refl
  others-replace_at (suc i) (b ∷ final) (apart, m) = rw (others-replace_at i final m) refl
