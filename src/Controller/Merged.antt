-- ===== src/Controller/Merged.antt =====
-- What `_merge_actions_for_event` leaves.
use crapssim_control.Prelude.{
  ℕ, true, false, String, Option, none, some, List, [], ◌∷◌, ◌++◌, ◌≡◌, ◌∙◌, refl, ap, sym, inl,
  inr, Bool-cases, Option-cases, str_eq, eq_iff, eq_refl,
}
use crapssim_control.Prelude.Dict.{
  Dict, lookup, insert, lookup-insert, lookup-insert_self, String_Eq,
}
use crapssim_control.Templates.Envelope.{Action}
use crapssim_control.Controller.Merge.{
  bet_of, replace_at, size, put_bet, put_action, merge_loop, merge_actions_for_event, sort_actions,
}
use crapssim_control.Controller.Names.{is_for, all_for, is_bet, others, last_only}
use crapssim_control.Controller.Order.{by_origin, sort_actions-by_origin}
use crapssim_control.Controller.Marked.{
  Marked, other_bet, all_for-append_other, append_other-Marked, append_new-Marked,
  all_for-append_new, others-append_bet, all_for-replace_at, replace_at-Marked,
  all_for-replace_at_other, replace_at_other-Marked, others-replace_at,
}

-- The dict has the index of each bet's only action.
abbrev Indexed : Option ℕ → String → List Action → Type 0
Indexed none k final = all_for k final ≡ []
Indexed (some i) k final = Marked k i final

abbrev IsIndexed : List Action → Dict String ℕ → Type 0
IsIndexed final last = (k : String) → Indexed (lookup k last) k final

-- The last of new actions on a bet, or those that are there already.
abbrev after_last : List Action → List Action → List Action
after_last [] old = old
after_last (a ∷ new) old = last_only (a ∷ new)

append_other-Indexed :
    (i : Option ℕ) (k : String) (a : Action) (final : List Action)
    → is_for k (bet_of a) ≡ false
    → Indexed i k final
    → Indexed i k (final ++ a ∷ [])
append_other-Indexed none k a final h e = all_for-append_other k a final h ∙ e
append_other-Indexed (some i) k a final h m = append_other-Marked k i a final h m

replace_other-Indexed :
    (n : Option ℕ) (k j : String) (a : Action) (i : ℕ) (final : List Action)
    → is_for k (bet_of a) ≡ true
    → str_eq k j ≡ false
    → Marked k i final
    → Indexed n j final
    → Indexed n j (replace_at i a final)
replace_other-Indexed none k j a i final h e m x = all_for-replace_at_other k a h j i final e m ∙ x
replace_other-Indexed (some n) k j a i final h e m x =
    replace_at_other-Marked k a h j i n final e m x

-- What is kept by putting an action on a bet in its place.
record IsPut (k : String) (a : Action) (final : List Action) (r : List Action × Dict String ℕ)
    : Type 0 where
  indexed : IsIndexed r.0 r.1
  own : all_for k r.0 ≡ a ∷ []
  foreign : (j : String) → str_eq k j ≡ false → all_for j r.0 ≡ all_for j final
  rest : others r.0 ≡ others final

insert_other :
    (k j : String) (i : ℕ) (last : Dict String ℕ)
    → str_eq k j ≡ false
    → lookup j (insert k i last) ≡ lookup j last
insert_other k j i last e = lookup-insert k j i last ∙ rw e refl

same_key : (k j : String) → str_eq k j ≡ true → k ≡ j
same_key k j e = (eq_iff k j).0 e

index_put :
    (k j : String) (i : ℕ) (last : Dict String ℕ) (final : List Action)
    → Marked k i final
    → (str_eq k j ≡ false → Indexed (lookup j last) j final)
    → Indexed (lookup j (insert k i last)) j final
index_put k j i last final m h = elim (Bool-cases (str_eq k j)) [
  | inl e ↦ rw (sym (same_key k j e)) (rw (lookup-insert_self k i last) m)
  | inr e ↦ rw (insert_other k j i last e) (h e)
]

put_bet-IsPut :
    (a : Action) (k : String) (i : Option ℕ) (final : List Action) (last : Dict String ℕ)
    → is_for k (bet_of a) ≡ true
    → is_bet (bet_of a) ≡ true
    → Indexed i k final
    → IsIndexed final last
    → IsPut k a final (put_bet a k i final last)
unfolding put_bet
put_bet-IsPut a k (some i) final last h bet m all = record {
  indexed = λ j.
      index_put k j i last (replace_at i a final) (replace_at-Marked k a h i final m)
        (λ e. replace_other-Indexed (lookup j last) k j a i final h e m (all j));
  own = all_for-replace_at k a h i final m;
  foreign = λ j e. all_for-replace_at_other k a h j i final e m;
  rest = others-replace_at k a h i final m;
}
put_bet-IsPut a k none final last h bet new all = record {
  indexed = λ j.
      index_put k j (size final) last (final ++ a ∷ []) (append_new-Marked k a final h new) (λ e.
        append_other-Indexed (lookup j last) j a final (other_bet k j (bet_of a) h e) (all j));
  own = all_for-append_new k a final h new;
  foreign = λ j e. all_for-append_other j a final (other_bet k j (bet_of a) h e);
  rest = others-append_bet a final bet;
}

after_last-more : (a : Action) (new : List Action) → after_last new (a ∷ []) ≡ last_only (a ∷ new)
after_last-more a [] = refl
after_last-more a (b ∷ bs) = refl

-- The actions on a bet and the others, after the loop, from those before it.
record IsMerged (ordered final result : List Action) : Type 0 where
  merged : (k : String) → all_for k result ≡ after_last (all_for k ordered) (all_for k final)
  apart : others result ≡ others final ++ others ordered

append-empty : (xs : List Action) → xs ++ [] ≡ xs
append-empty [] = refl
append-empty (x ∷ xs) = ap (λ ys. x ∷ ys) (append-empty xs)

others-append : (xs ys : List Action) → others (xs ++ ys) ≡ others xs ++ others ys
others-append [] ys = refl
others-append (x ∷ xs) ys = elim (Bool-cases (is_bet (bet_of x))) [
  | inl e ↦ rw (e, others-append xs ys) refl
  | inr e ↦ rw (e, others-append xs ys) refl
]

append_assoc : (xs ys zs : List Action) → (xs ++ ys) ++ zs ≡ xs ++ (ys ++ zs)
append_assoc [] ys zs = refl
append_assoc (x ∷ xs) ys zs = ap (λ ws. x ∷ ws) (append_assoc xs ys zs)

other_step :
    (a : Action) (ordered final result : List Action)
    → bet_of a ≡ none
    → IsMerged ordered (final ++ a ∷ []) result
    → IsMerged (a ∷ ordered) final result
other_step a ordered final result e m =
    let foreign : (k : String) → is_for k (bet_of a) ≡ false = λ k. rw e refl in
    record {
      merged = λ k. m.merged k ∙ rw (all_for-append_other k a final (foreign k), foreign k) refl;
      apart =
          m.apart
          ∙ ap (λ xs. xs ++ others ordered) (others-append final (a ∷ []))
          ∙ rw e (append_assoc (others final) (a ∷ []) (others ordered));
    }

bet_step :
    (a : Action) (k : String) (ordered final result : List Action) (r : List Action × Dict String ℕ)
    → bet_of a ≡ some k
    → IsPut k a final r
    → IsMerged ordered r.0 result
    → IsMerged (a ∷ ordered) final result
bet_step a k ordered final result r e p m = record {
  merged = λ j. m.merged j ∙ elim (Bool-cases (str_eq k j)) [
    | inl f ↦
        let here : is_for j (bet_of a) ≡ true = rw (e, f) refl in
        let own : all_for j r.0 ≡ a ∷ [] = rw (same_key k j f) at p.own in
        rw (own, here) (after_last-more a (all_for j ordered))
    | inr f ↦ let off : is_for j (bet_of a) ≡ false = rw (e, f) refl in rw (p.foreign j f, off) refl
  ];
  apart = m.apart ∙ ap (λ xs. xs ++ others ordered) p.rest ∙ rw e refl;
}

merge_loop-IsMerged :
    (ordered final : List Action) (last : Dict String ℕ)
    → IsIndexed final last
    → IsMerged ordered final (merge_loop ordered final last)
unfolding merge_loop put_action
merge_loop-IsMerged [] final last all = record {
  merged = λ k. refl;
  apart = sym (append-empty (others final));
}
merge_loop-IsMerged (a ∷ ordered) final last all = elim (Option-cases (bet_of a)) [
  | inl e ↦
      let kept : IsIndexed (final ++ a ∷ []) last =
        λ k. append_other-Indexed (lookup k last) k a final (rw e refl) (all k) in
      rw (e, merge_loop)
        (other_step a ordered final _ e (merge_loop-IsMerged ordered (final ++ a ∷ []) last kept))
  | inr (k, e) ↦
      let on : is_for k (bet_of a) ≡ true = rw (e, eq_refl) refl in
      let bet : is_bet (bet_of a) ≡ true = rw e refl in
      let r = put_bet a k (lookup k last) final last in
      let put = put_bet-IsPut a k (lookup k last) final last on bet (all k) all in
      rw (e, merge_loop)
        (bet_step a k ordered final _ r e put (merge_loop-IsMerged ordered r.0 r.1 put.indexed))
]

nothing_new : (xs : List Action) → after_last xs [] ≡ last_only xs
nothing_new [] = refl
nothing_new (a ∷ xs) = refl

-- In the order of the actions whose source is a template, those of a rule and the others, each in the order of the
-- event: of the actions on a bet the merged list has exactly the last one, and it has every action that is on no bet,
-- in that order.
pub merge_actions_for_event-last :
    (actions : List Action)
    → ((k : String)
        → all_for k (merge_actions_for_event actions) ≡ last_only (all_for k (by_origin actions)))
      × (others (merge_actions_for_event actions) ≡ others (by_origin actions))
unfolding merge_actions_for_event lookup
merge_actions_for_event-last actions =
    let m = merge_loop-IsMerged (sort_actions actions) [] [] (λ k. refl) in
    let order = sort_actions-by_origin actions in
    (
      λ k.
          m.merged k
          ∙ nothing_new (all_for k (sort_actions actions))
          ∙ ap (λ xs. last_only (all_for k xs)) order,
      m.apart ∙ ap others order,
    )
