-- ===== src/Behavior/Cooldown.antt =====
-- A rule's cooldown over a session of windows and advances.
use crapssim_control.Prelude.{
  ℕ, zero, suc, ◌+◌, ◌-◌, ◌≤◌, ◌<◌, ◌≡◌, ◌∙◌, refl, ap, inl, inr, String, Bool, true, false, ◌||◌,
  Option, none, some, List, [], ◌∷◌, map, Bool-cases, Option-cases, arith, str_eq, eq_iff, All,
}
use crapssim_control.Prelude.Dict.{Dict, lookup, insert, lookup-insert, String_Eq}
use crapssim_control.Behavior.Evaluator.{
  Cooldown, RuleDef, DecisionAttempt, BehaviorEngine, AdvanceScope, roll, hand, point_cycle,
  no_cooldown, cooldown_of, decrement, set_cooldown_default, start_count, start_cooldown,
  is_cooling, verdict, propose, is_applies, try_rules, evaluate_window, on_scope_advance,
}

-- What happens in a session, with the snapshot of a window
pub data Event {ℓ} (S : Type ℓ) : Type ℓ where
  window : ℕ → String → S → Event S
  advance : AdvanceScope → Event S

abbrev pub is_roll : AdvanceScope → ℕ
is_roll roll = 1
is_roll _ = 0

abbrev pub roll_advances {ℓ} : {S : Type ℓ} → List (Event S) → ℕ
roll_advances [] = 0
roll_advances (window i w s ∷ es) = roll_advances es
roll_advances (advance scope ∷ es) = is_roll scope + roll_advances es

-- The rule of this id is the one that was applied last.
abbrev pub is_of {ℓ} : {A : Type ℓ} → String → Option (DecisionAttempt A) → Bool
is_of id none = false
is_of id (some a) = str_eq a.rule_id id

-- The rules of this id have a cooldown of `c` rolls, that is above 0.
abbrev pub CoolsFor {ℓ} : {A : Type ℓ} → String → ℕ → RuleDef A → Type 0
CoolsFor id c r = str_eq r.id id ≡ true → (1 ≤ c) × (r.cooldown.rolls ≡ c)

abbrev rolls_of : String → Dict String Cooldown → ℕ
rolls_of id d = (cooldown_of id d).rolls

cooldown_of-set_cooldown_default :
    (k id : String) (d : Dict String Cooldown)
    → cooldown_of id (set_cooldown_default k d) ≡ cooldown_of id d
unfolding set_cooldown_default
cooldown_of-set_cooldown_default k id d = elim (Option-cases (lookup k d)) [
  | inl e ↦ rw e (ground (arith, e, lookup-insert k id no_cooldown d, eq_iff k id))
  | inr (st, e) ↦ rw e refl
]

cooldown_of-insert :
    (k id : String) (st : Cooldown) (d : Dict String Cooldown)
    → str_eq k id ≡ false
    → cooldown_of id (insert k st d) ≡ cooldown_of id d
cooldown_of-insert k id st d n = rw (lookup-insert, n) refl

cooldown_of-insert_own :
    (k id : String) (st : Cooldown) (d : Dict String Cooldown)
    → str_eq k id ≡ true
    → cooldown_of id (insert k st d) ≡ st
cooldown_of-insert_own k id st d own = rw (lookup-insert, own) refl

cooldown_of-map :
    (scope : AdvanceScope) (id : String) (d : Dict String Cooldown)
    → cooldown_of id (map (λ (k, st). (k, decrement scope st)) d)
      ≡ decrement scope (cooldown_of id d)
unfolding lookup
cooldown_of-map roll id [] = refl
cooldown_of-map hand id [] = refl
cooldown_of-map point_cycle id [] = refl
cooldown_of-map scope id ((k, st) ∷ d) = ground (arith, cooldown_of-map scope id d)

start_count_long : (c old : ℕ) → 1 ≤ c → suc c ≤ start_count c old
start_count_long zero old h = ground arith
start_count_long (suc c) old h = ground arith

module _ {ℓ} {A S I : Type ℓ} (eval_bool : String → S → Option Bool)
    (apply_verb : String → A → Option I) (id : String) (c : ℕ) where
  cooling_does_not_apply :
      (r : RuleDef A) (snap : S) (st : Cooldown)
      → 1 ≤ r.cooldown.rolls
      → 1 ≤ st.rolls
      → is_applies (verdict eval_bool apply_verb r snap st) ≡ false
  unfolding verdict
  cooling_does_not_apply r snap st h k =
      let e : is_cooling r.cooldown st ≡ true = ground arith in rw e refl

  -- The rule is not applied, and its count of rolls is `n`.
  abbrev Quiet : ℕ → BehaviorEngine A → Type 0
  Quiet n g = (is_of id g.last_attempt ≡ false) × (rolls_of id g.cooldowns ≡ n)

  propose-Quiet :
      (n i : ℕ) (w : String) (r : RuleDef A) (g : BehaviorEngine A)
      → str_eq r.id id ≡ false
      → Quiet n g
      → Quiet n (propose eval_bool apply_verb i w r g).1
  unfolding propose
  propose-Quiet n i w r g other (last, left) = elim (Option-cases (apply_verb r.then_ r.args)) [
    | inl e ↦ rw (e, propose) (last, left)
    | inr (intent, e) ↦
        rw (e, propose)
          (other, ap (λ st. st.rolls) (cooldown_of-insert r.id id _ g.cooldowns other) ∙ left)
  ]

  try_rules-Quiet :
      (n i : ℕ) (w : String) (snap : S) (rs : List (RuleDef A)) (g : BehaviorEngine A)
      → All (CoolsFor id c) rs
      → 1 ≤ n
      → Quiet n g
      → Quiet n (try_rules eval_bool apply_verb i w snap rs g).1
  unfolding try_rules
  try_rules-Quiet n i w snap [] g h more q = q
  try_rules-Quiet n i w snap (r ∷ rs) g (hr, h) more (last, left) =
      let seen = record g { cooldowns = set_cooldown_default r.id g.cooldowns } in
      let kept : rolls_of id seen.cooldowns ≡ n =
        ap (λ st. st.rolls) (cooldown_of-set_cooldown_default r.id id g.cooldowns) ∙ left in
      let v = verdict eval_bool apply_verb r snap (cooldown_of r.id seen.cooldowns) in
      elim (Bool-cases (is_applies v)) [
        | inl e ↦ elim (Bool-cases (str_eq r.id id)) [
          | inl own ↦
              let count : rolls_of r.id seen.cooldowns ≡ n =
                ap (λ k. rolls_of k seen.cooldowns) ((eq_iff r.id id).0 own) ∙ kept in
              let cools : 1 ≤ r.cooldown.rolls = omega (arith, hr own) in
              let still =
                cooling_does_not_apply r snap (cooldown_of r.id seen.cooldowns) cools
                  (omega (arith, count, more)) in
              ground (arith, e, still)
          | inr other ↦ rw (e, try_rules) (propose-Quiet n i w r seen other (last, kept))
        ]
        | inr e ↦ rw (e, try_rules) (try_rules-Quiet n i w snap rs _ h more (last, kept))
      ]

  -- Which events of a session apply the rule
  unfoldable pub applied_in : BehaviorEngine A → List (Event S) → Bool
  applied_in g [] = false
  applied_in g (window i w snap ∷ es) =
      let after = (evaluate_window eval_bool apply_verb i w snap g).1 in
      let later = applied_in after es in is_of id after.last_attempt || later
  applied_in g (advance scope ∷ es) = applied_in (on_scope_advance eval_bool apply_verb scope g) es

  rules-propose :
      (i : ℕ) (w : String) (r : RuleDef A) (g : BehaviorEngine A)
      → (propose eval_bool apply_verb i w r g).1.rules ≡ g.rules
  unfolding propose
  rules-propose i w r g = elim (Option-cases (apply_verb r.then_ r.args)) [
    | inl e ↦ rw (e, propose) refl
    | inr (intent, e) ↦ rw (e, propose) refl
  ]

  rules-try_rules :
      (i : ℕ) (w : String) (snap : S) (rs : List (RuleDef A)) (g : BehaviorEngine A)
      → (try_rules eval_bool apply_verb i w snap rs g).1.rules ≡ g.rules
  unfolding try_rules
  rules-try_rules i w snap [] g = refl
  rules-try_rules i w snap (r ∷ rs) g =
      let seen = record g { cooldowns = set_cooldown_default r.id g.cooldowns } in
      let v = verdict eval_bool apply_verb r snap (cooldown_of r.id seen.cooldowns) in
      elim (Bool-cases (is_applies v)) [
        | inl e ↦ rw (e, try_rules) (rules-propose i w r seen)
        | inr e ↦ rw (e, try_rules) (rules-try_rules i w snap rs _)
      ]

  session_quiet :
      (n : ℕ) (es : List (Event S)) (g : BehaviorEngine A)
      → All (CoolsFor id c) g.rules
      → roll_advances es < n
      → rolls_of id g.cooldowns ≡ n
      → applied_in g es ≡ false
  unfolding applied_in evaluate_window on_scope_advance
  session_quiet n [] g h few left = refl
  session_quiet n (window i w snap ∷ es) g h few left =
      let start = record g { last_attempt = none } in
      let q = try_rules-Quiet n i w snap g.rules start h (omega (arith, few)) (refl, left) in
      let same = rules-try_rules i w snap g.rules start in
      rw q.0 (session_quiet n es _ (rw same h) few q.1)
  session_quiet n (advance roll ∷ es) g h few left =
      let count = ap (λ st. st.rolls) (cooldown_of-map roll id g.cooldowns) in
      session_quiet (n - 1) es _ h (omega (arith, few)) (omega (arith, count, left))
  session_quiet n (advance hand ∷ es) g h few left =
      session_quiet n es _ h (omega (arith, few))
        (ap (λ st. st.rolls) (cooldown_of-map hand id g.cooldowns) ∙ left)
  session_quiet n (advance point_cycle ∷ es) g h few left =
      session_quiet n es _ h (omega (arith, few))
        (ap (λ st. st.rolls) (cooldown_of-map point_cycle id g.cooldowns) ∙ left)

  started :
      (r : RuleDef A) (d : Dict String Cooldown)
      → CoolsFor id c r
      → str_eq r.id id ≡ true
      → suc c ≤ rolls_of id (insert r.id (start_cooldown r.cooldown (cooldown_of r.id d)) d)
  started r d hr own =
      let st = start_cooldown r.cooldown (cooldown_of r.id d) in
      let here = ap (λ z. z.rolls) (cooldown_of-insert_own r.id id st d own) in
      let long = start_count_long r.cooldown.rolls (rolls_of r.id d) (omega (arith, hr own)) in
      omega (arith, here, long, hr own)

  propose_starts :
      (i : ℕ) (w : String) (r : RuleDef A) (g : BehaviorEngine A)
      → CoolsFor id c r
      → is_of id g.last_attempt ≡ false
      → let after = (propose eval_bool apply_verb i w r g).1 in
        is_of id after.last_attempt ≡ true → suc c ≤ rolls_of id after.cooldowns
  unfolding propose
  propose_starts i w r g hr none_yet done = elim (Option-cases (apply_verb r.then_ r.args)) [
    | inl e ↦ ground (arith, none_yet, rw (e, propose) at done)
    | inr (intent, e) ↦
        let own : str_eq r.id id ≡ true = rw (e, propose) at done in
        rw (e, propose) (started r g.cooldowns hr own)
  ]

  -- The rule that is applied is one of the rules, and its cooldown is started.
  try_rules_starts :
      (i : ℕ) (w : String) (snap : S) (rs : List (RuleDef A)) (g : BehaviorEngine A)
      → All (CoolsFor id c) rs
      → is_of id g.last_attempt ≡ false
      → let after = (try_rules eval_bool apply_verb i w snap rs g).1 in
        is_of id after.last_attempt ≡ true → suc c ≤ rolls_of id after.cooldowns
  unfolding try_rules
  try_rules_starts i w snap [] g h none_yet done = ground (arith, none_yet, done)
  try_rules_starts i w snap (r ∷ rs) g (hr, h) none_yet done =
      let seen = record g { cooldowns = set_cooldown_default r.id g.cooldowns } in
      let v = verdict eval_bool apply_verb r snap (cooldown_of r.id seen.cooldowns) in
      elim (Bool-cases (is_applies v)) [
        | inl e ↦
            rw (e, try_rules) (propose_starts i w r seen hr none_yet (rw (e, try_rules) at done))
        | inr e ↦
            rw (e, try_rules)
              (try_rules_starts i w snap rs _ h none_yet (rw (e, try_rules) at done))
      ]

  -- Where the rules of an id have a cooldown of `c` rolls, a window that applies such a rule is followed by none that
  -- does until the roll has advanced more than `c` times, whatever other windows and advances come in between.
  pub cooldown_blocks :
      (i : ℕ) (w : String) (snap : S) (g : BehaviorEngine A)
      → All (CoolsFor id c) g.rules
      → let after = (evaluate_window eval_bool apply_verb i w snap g).1 in
        is_of id after.last_attempt ≡ true
        → (es : List (Event S)) → roll_advances es ≤ c
        → applied_in after es ≡ false
  unfolding evaluate_window
  cooldown_blocks i w snap g h done es few =
      let start = record g { last_attempt = none } in
      let long = try_rules_starts i w snap g.rules start h refl done in
      let same = rules-try_rules i w snap g.rules start in
      session_quiet _ es _ (rw same h) (omega (arith, few, long)) refl
