-- ===== src/Events/Canonical.antt =====
-- Canonical events stay as they are.
use crapssim_control.Prelude.{
  ◌≡◌, refl, sym, ◌∙◌, String, Bool, true, ◌||◌, Option, none, some, List, [], ◌∷◌, if◌then◌else◌,
  str_eq, arith, Bool-cases, inl, inr, All, ◌⊎◌, eq_iff,
}
use crapssim_control.Prelude.Text.{lower}
use crapssim_control.Events.{
  EventDict, Event, default_event, is_canonical, canonical_type, canonicalize_dict,
  canonicalize_event, one_of, canonical_event_types, text_or,
}

-- The event as the dict that the code returns.
abbrev pub to_dict : Event → EventDict
to_dict e = record {
  type_key = some e.type_key;
  event = some e.event;
  roll = some e.roll;
  total = none;
  point = e.point;
  natural = some e.natural;
  craps = some e.craps;
  on_comeout = some e.on_comeout;
  point_on = some e.point_on;
  extras = e.extras;
}

or_cases : (a b : Bool) → (a || b) ≡ true → (a ≡ true) ⊎ (b ≡ true)
or_cases a b h = ground arith

-- A test for a canonical type settles what its canonical type is.
abbrev pub Stays : String → Type 0
Stays t = (e : Option String) → canonical_type (some t) e ≡ t

equal-Stays : (t k : String) → Stays k → str_eq t k ≡ true → Stays t
equal-Stays t k h e = rw ((eq_iff t k).0 e) h

pub constants_stay : All Stays canonical_event_types
unfolding canonical_type is_canonical lower
constants_stay =
    (λ e. refl, (λ e. refl, (λ e. refl, (λ e. refl, (λ e. refl, (λ e. refl, (λ e. refl, tt)))))))

one_of-Stays : (t : String) (ks : List String) → All Stays ks → one_of t ks ≡ true → Stays t
one_of-Stays t [] h e = ground arith
one_of-Stays t (k ∷ ks) h e = elim (or_cases (str_eq t k) (one_of t ks) e) [
  | inl q ↦ equal-Stays t k h.0 q
  | inr q ↦ one_of-Stays t ks h.1 q
]

kept : (t : String) → is_canonical (if is_canonical t then t else "roll") ≡ true
kept t = elim (Bool-cases (is_canonical t)) [
  | inl e ↦ rw e e
  | inr e ↦ rw e (unfold is_canonical in refl)
]

canonical_type-IsCanonical : (g e : Option String) → is_canonical (canonical_type g e) ≡ true
unfolding canonical_type
canonical_type-IsCanonical g e = kept (lower (text_or g (text_or e "comeout")))

canonicalize_event-IsCanonical :
    (ev : Option EventDict)
    → let e = canonicalize_event ev in (is_canonical e.type_key ≡ true) × (e.event ≡ e.type_key)
unfolding canonicalize_event canonicalize_dict default_event is_canonical
canonicalize_event-IsCanonical none = (refl, refl)
canonicalize_event-IsCanonical (some ev) = (canonical_type-IsCanonical ev.type_key ev.event, refl)

again :
    (e : Event)
    → is_canonical e.type_key ≡ true
    → e.event ≡ e.type_key
    → canonicalize_event (some (to_dict e)) ≡ e
unfolding canonicalize_event canonicalize_dict is_canonical
again e h q =
    let same : canonical_type (some e.type_key) (some e.event) ≡ e.type_key =
      one_of-Stays e.type_key canonical_event_types constants_stay h (some e.event) in
    λ i. record e { type_key = same i; event = (same ∙ sym q) i }

-- Whatever is given, `None` and empty dicts included, the event has one of the seven canonical types in
-- both of its keys, and canonicalizing it again changes nothing.
pub canonicalize_event-canonicalize_event :
    (ev : Option EventDict)
    → let e = canonicalize_event ev in
      (one_of e.type_key canonical_event_types ≡ true)
      × (e.event ≡ e.type_key)
      × (canonicalize_event (some (to_dict e)) ≡ e)
unfolding is_canonical
canonicalize_event-canonicalize_event ev =
    let c = canonicalize_event-IsCanonical ev in (c.0, c.1, again (canonicalize_event ev) c.0 c.1)
