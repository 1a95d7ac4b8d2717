-- ===== src/Events/Derived.antt =====
-- Which event is derived from a state.
use crapssim_control.Prelude.{
  ℕ, ◌≡◌, refl, String, Bool, true, false, not, ◌&&◌, ◌||◌, none, some, if◌then◌else◌, str_eq, ◌==◌,
  arith, ◌⊎◌, ◌↔◌,
}
use crapssim_control.Events.{
  Given, State, Event, canonicalize_dict, canonicalize_event, is_natural, is_craps, is_point, hits,
  event_type, on_comeout_roll, event_dict, derive_event, normalize_state,
}
use crapssim_control.Events.Canonical.{Stays, constants_stay}

choice-Stays : (b : Bool) (t u : String) → Stays t → Stays u → Stays (if b then t else u)
choice-Stays true t u h k = h
choice-Stays false t u h k = k

event_type-Stays : (c : State) → Stays (event_type c)
unfolding event_type
event_type-Stays c =
    let (comeout, (established, (made, (roll, (seven, _))))) = constants_stay in
    choice-Stays c.just_est _ _ established (
      choice-Stays c.just_made _ _ made (
        choice-Stays c.comeout _ _
          (choice-Stays (is_natural c.total) _ _ comeout (
            choice-Stays (is_craps c.total) _ _ comeout
              (choice-Stays (is_point c.total) _ _ established comeout)))
          (choice-Stays (c.point_on && hits c.total c.point_num) _ _ made
            (choice-Stays (c.total == 7) _ _ seven roll))))

-- Which event it is, by the state: the flags come first, then the comeout, and then the point.
abbrev pub is_comeout : State → Bool
is_comeout c = not c.just_est && not c.just_made && c.comeout && not (is_point c.total)

abbrev pub is_established : State → Bool
is_established c = c.just_est || (not c.just_made && c.comeout && is_point c.total)

abbrev pub is_made : State → Bool
is_made c =
    not c.just_est && (c.just_made || (not c.comeout && (c.point_on && hits c.total c.point_num)))

abbrev pub is_seven_out : State → Bool
is_seven_out c =
    not c.just_est
    && not c.just_made
    && not c.comeout
    && not (c.point_on && hits c.total c.point_num)
    && c.total == 7

abbrev pub is_plain : State → Bool
is_plain c =
    not c.just_est
    && not c.just_made
    && not c.comeout
    && not (c.point_on && hits c.total c.point_num)
    && not (c.total == 7)

-- The type is each of the five exactly in its case.
abbrev pub HasType : State → String → Type 0
HasType c t =
    (str_eq t "comeout" ≡ is_comeout c)
    × (str_eq t "point_established" ≡ is_established c)
    × (str_eq t "point_made" ≡ is_made c)
    × (str_eq t "seven_out" ≡ is_seven_out c)
    × (str_eq t "roll" ≡ is_plain c)

natural_no_point : (n : ℕ) → is_natural n ≡ true → is_point n ≡ false
unfolding is_natural is_point
natural_no_point n h = ground (arith, h)

craps_no_point : (n : ℕ) → is_craps n ≡ true → is_point n ≡ false
unfolding is_craps is_point
craps_no_point n h = ground (arith, h)

-- The same over the tests alone: the flags, the comeout, the roll's class, a hit of the point and a 7.
typed :
    (est made come nat crp pt hit seven : Bool)
    → (nat ≡ true → pt ≡ false)
    → (crp ≡ true → pt ≡ false)
    → let t : String =
        if est
        then "point_established"
        else if made
        then "point_made"
        else if come
        then (if nat
            then "comeout"
            else if crp
            then "comeout"
            else if pt
            then "point_established"
            else "comeout")
        else if hit
        then "point_made"
        else if seven
        then "seven_out"
        else "roll" in
      (str_eq t "comeout" ≡ (not est && not made && come && not pt))
      × (str_eq t "point_established" ≡ (est || (not made && come && pt)))
      × (str_eq t "point_made" ≡ (not est && (made || (not come && hit))))
      × (str_eq t "seven_out" ≡ (not est && not made && not come && not hit && seven))
      × (str_eq t "roll" ≡ (not est && not made && not come && not hit && not seven))
typed true made come nat crp pt hit seven n k = (refl, refl, refl, refl, refl)
typed false true come nat crp pt hit seven n k = (refl, refl, refl, refl, refl)
typed false false true true crp pt hit seven n k = rw (n refl) (refl, refl, refl, refl, refl)
typed false false true false true pt hit seven n k = rw (k refl) (refl, refl, refl, refl, refl)
typed false false true false false true hit seven n k = (refl, refl, refl, refl, refl)
typed false false true false false false hit seven n k = (refl, refl, refl, refl, refl)
typed false false false nat crp pt true seven n k = (refl, refl, refl, refl, refl)
typed false false false nat crp pt false true n k = (refl, refl, refl, refl, refl)
typed false false false nat crp pt false false n k = (refl, refl, refl, refl, refl)

event_type-HasType : (c : State) → HasType c (event_type c)
unfolding event_type
event_type-HasType c =
    typed c.just_est c.just_made c.comeout (is_natural c.total) (is_craps c.total)
      (is_point c.total) (c.point_on && hits c.total c.point_num) (c.total == 7)
      (natural_no_point c.total) (craps_no_point c.total)

natural_iff :
    (c : State)
    → ((on_comeout_roll c && is_natural c.total) ≡ true)
      ↔ ((str_eq (event_type c) "comeout" ≡ true) × ((c.total ≡ 7) ⊎ (c.total ≡ 11)))
unfolding on_comeout_roll is_natural is_point
natural_iff c = rw (event_type-HasType c).0 (λ h. ground (arith, h), λ h. ground (arith, h))

craps_iff :
    (c : State)
    → ((on_comeout_roll c && not (is_natural c.total) && is_craps c.total) ≡ true) ↔ (
        (str_eq (event_type c) "comeout" ≡ true) × ((c.total ≡ 2) ⊎ (c.total ≡ 3) ⊎ (c.total ≡ 12)))
unfolding on_comeout_roll is_natural is_craps is_point
craps_iff c = rw (event_type-HasType c).0 (λ h. ground (arith, h), λ h. ground (arith, h))

derived_type : (c : State) → (canonicalize_event (some (event_dict c))).type_key ≡ event_type c
unfolding canonicalize_event canonicalize_dict event_dict
derived_type c = event_type-Stays c (some (event_type c))

-- What a derived event says of the state.
pub record IsDerived (c : State) (e : Event) : Type 0 where
  pub kind : HasType c e.type_key
  pub total : e.roll ≡ c.total
  pub natural :
      (e.natural ≡ true) ↔ ((str_eq e.type_key "comeout" ≡ true) × ((e.roll ≡ 7) ⊎ (e.roll ≡ 11)))
  pub craps :
      (e.craps ≡ true)
      ↔ ((str_eq e.type_key "comeout" ≡ true) × ((e.roll ≡ 2) ⊎ (e.roll ≡ 3) ⊎ (e.roll ≡ 12)))
  pub off : c.point_on ≡ false → e.point ≡ none
  pub on : c.point_on ≡ true → e.point ≡ c.point_num

event_dict-IsDerived : (c : State) → IsDerived c (canonicalize_event (some (event_dict c)))
unfolding canonicalize_event canonicalize_dict event_dict
event_dict-IsDerived c = record {
  kind = rw (derived_type c) (event_type-HasType c);
  total = refl;
  natural = rw (derived_type c) (natural_iff c);
  craps = rw (derived_type c) (craps_iff c);
  off = λ h. rw h refl;
  on = λ h. rw h refl;
}

-- A derived event is a point established exactly if the flag of it is set, or without that of a point made on a comeout
-- with a point number; a point made exactly if, without the first flag, the second is set or off the comeout the roll
-- hits a point that is on; without flags, a seven-out exactly if off the comeout a 7 hits no such point, a comeout
-- exactly if on the comeout the roll is no point number, and a roll in the cases that are left. It is natural exactly
-- if it is a comeout with 7 or 11, and craps exactly if it is one with 2, 3 or 12. Its point is that of the state where
-- the point is on, and none if not.
pub derive_event-IsDerived :
    (prev curr : Given) → IsDerived (normalize_state curr) (derive_event prev curr)
unfolding derive_event
derive_event-IsDerived prev curr = event_dict-IsDerived (normalize_state curr)
