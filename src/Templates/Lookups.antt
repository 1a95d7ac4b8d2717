-- ===== src/Templates/Lookups.antt =====
-- The clears and the sets of a plan, by their bet types, and what sorting leaves.
use crapssim_control.Prelude.{
  arith, String, Bool, true, false, Option, none, some, [], ◌∷◌, ◌≡◌, ◌∙◌, refl, inl, inr, sym,
  if◌then◌else◌, Bool-cases, str_eq, eq_iff, eq_refl,
}
use crapssim_control.Prelude.Dict.{Dict, lookup, String_Eq}
use crapssim_control.Templates.Diff.{before, choose, insert_sorted, sort_keys}

-- Each key is in the dict once.
abbrev pub Unique : {V : Type 0} → Dict String V → Type 0
Unique [] = Unit
Unique ((k, v) ∷ d) = (lookup k d ≡ none) × Unique d

before_apart : (i k : String) → before i k ≡ true → str_eq i k ≡ false
before_apart i k e = ground (arith, e)

module _ {V : Type 0} where
  lookup-insert_sorted :
      (k j : String) (v : V) (d : Dict String V)
      → lookup j (insert_sorted k v d) ≡ lookup j ((k, v) ∷ d)
  unfolding insert_sorted lookup
  lookup-insert_sorted k j v [] = refl
  lookup-insert_sorted k j v ((i, w) ∷ d) = elim (Bool-cases (before i k)) [
    | inl e ↦
        let apart = before_apart i k e in
        let later = lookup-insert_sorted k j v d in
        rw e (ground (arith, apart, later, eq_iff i j, eq_iff k j, eq_iff i k))
    | inr e ↦ rw e refl
  ]

  pub lookup-sort_keys : (j : String) (d : Dict String V) → lookup j (sort_keys d) ≡ lookup j d
  unfolding sort_keys lookup
  lookup-sort_keys j [] = refl
  lookup-sort_keys j ((k, v) ∷ d) =
      lookup-insert_sorted k j v (sort_keys d) ∙ rw (lookup, lookup-sort_keys j d) refl

  insert_sorted-Unique :
      (k : String) (v : V) (d : Dict String V)
      → lookup k d ≡ none
      → Unique d
      → Unique (insert_sorted k v d)
  unfolding insert_sorted lookup
  insert_sorted-Unique k v [] n u = (refl, tt)
  insert_sorted-Unique k v ((i, w) ∷ d) n (one, u) = elim (Bool-cases (before i k)) [
    | inl e ↦
        let apart = before_apart i k e in
        let rest : lookup k d ≡ none = rw apart at n in
        let apart_back : str_eq k i ≡ false = ground (arith, apart, eq_iff i k, eq_iff k i) in
        let still : lookup i (insert_sorted k v d) ≡ none =
          lookup-insert_sorted k i v d ∙ rw (lookup, apart_back) one in
        rw (e, insert_sorted) (still, insert_sorted-Unique k v d rest u)
    | inr e ↦ rw e (n, (one, u))
  ]

  pub sort_keys-Unique : (d : Dict String V) → Unique d → Unique (sort_keys d)
  unfolding sort_keys
  sort_keys-Unique [] u = tt
  sort_keys-Unique ((k, v) ∷ d) (n, u) =
      insert_sorted-Unique k v (sort_keys d) (lookup-sort_keys k d ∙ n) (sort_keys-Unique d u)

-- The value of a key, if there is one and the test holds of it.
abbrev pub kept : {A B : Type 0} → (A → Bool) → (A → B) → Option A → Option B
kept test f none = none
kept test f (some a) = if test a then some (f a) else none

module _ {A B : Type 0} (test : String → A → Bool) (f : String → A → B) where
  pub lookup-choose :
      (j : String) (d : Dict String A)
      → Unique d
      → lookup j (choose test f d) ≡ kept (test j) (f j) (lookup j d)
  unfolding choose lookup
  lookup-choose j [] u = refl
  lookup-choose j ((k, a) ∷ d) (n, u) = elim (Bool-cases (str_eq k j)) [
    | inl e ↦
        let here : k ≡ j = (eq_iff k j).0 e in
        rw (sym here) (elim (Bool-cases (test k a)) [
          | inl h ↦ rw (h, eq_refl) (rw h refl)
          | inr h ↦ rw (h, eq_refl) (lookup-choose k d u ∙ rw n (rw h refl))
        ])
    | inr e ↦ elim (Bool-cases (test k a)) [
      | inl h ↦ rw (h, lookup, e) (lookup-choose j d u)
      | inr h ↦ rw (h, lookup, e) (lookup-choose j d u)
    ]
  ]

  pub choose-Unique : (d : Dict String A) → Unique d → Unique (choose test f d)
  unfolding choose
  choose-Unique [] u = tt
  choose-Unique ((k, a) ∷ d) (n, u) = elim (Bool-cases (test k a)) [
    | inl h ↦ rw (h, choose) (lookup-choose k d u ∙ rw n refl, choose-Unique d u)
    | inr h ↦ rw (h, choose) (choose-Unique d u)
  ]
