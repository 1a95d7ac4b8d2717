-- ===== src/Events.antt =====
-- crapssim_control/events.py: semantic events from table states, and their canonical form. A dict is a
-- record with an optional field for each key that is read, where a missing key is `none` (so is `None` for
-- the two types and the points; elsewhere a key that is there has a value), and the remaining keys in
-- `extras`.
pub mod Canonical
mod Derived
mod Tests
use crapssim_control.Prelude.{
  ℕ, String, Bool, true, false, not, ◌&&◌, ◌||◌, Option, none, some, List, [], ◌∷◌, if◌then◌else◌,
  default_to, str_eq, ◌==◌,
}
use crapssim_control.Prelude.Dict.{Dict}
use crapssim_control.Prelude.Text.{lower}

-- What `_as_tuple3` is given: a tuple of three, a number, or neither.
pub data Dice : Type 0 where
  triple : ℕ → ℕ → ℕ → Dice
  number : ℕ → Dice
  unreadable : Dice

unfoldable pub as_tuple3 : Dice → ℕ × ℕ × ℕ
as_tuple3 (triple a b c) = (a, b, c)
as_tuple3 (number n) = (0, 0, n)
as_tuple3 unreadable = (0, 0, 0)

-- The engine's state, with its table's attributes.
pub record EngineState : Type 0 where
  pub comeout : Option Bool
  pub dice : Option Dice
  pub point_on : Option Bool
  pub point_number : Option ℕ
  pub just_established_point : Option Bool
  pub just_est : Option Bool
  pub just_made_point : Option Bool
  pub just_made : Option Bool

pub record StateDict : Type 0 where
  pub comeout : Option Bool
  pub total : Option ℕ
  pub point_on : Option Bool
  pub point_num : Option ℕ
  pub just_est : Option Bool
  pub just_made : Option Bool

pub data Given : Type 0 where
  engine_state : EngineState → Given
  state_dict : StateDict → Given
  invalid : Given

pub record State : Type 0 where
  pub comeout : Bool
  pub total : ℕ
  pub point_on : Bool
  pub point_num : Option ℕ
  pub just_est : Bool
  pub just_made : Bool

abbrev flag : Option Bool → Bool
flag = default_to false

unfoldable pub normalize_state : Given → State
unfolding as_tuple3
normalize_state (engine_state s) = record {
  comeout = flag s.comeout;
  total = (as_tuple3 (default_to (triple 0 0 0) s.dice)).2;
  point_on = flag s.point_on;
  point_num = s.point_number;
  just_est = flag s.just_established_point || flag s.just_est;
  just_made = flag s.just_made_point || flag s.just_made;
}
normalize_state (state_dict s) = record {
  comeout = flag s.comeout;
  total = default_to 0 s.total;
  point_on = flag s.point_on;
  point_num = s.point_num;
  just_est = flag s.just_est;
  just_made = flag s.just_made;
}
normalize_state invalid = record {
  comeout = false;
  total = 0;
  point_on = false;
  point_num = none;
  just_est = false;
  just_made = false;
}

-- The dict that `canonicalize_event` is given.
pub record EventDict : Type 0 where
  pub type_key : Option String
  pub event : Option String
  pub roll : Option ℕ
  pub total : Option ℕ
  pub point : Option ℕ
  pub natural : Option Bool
  pub craps : Option Bool
  pub on_comeout : Option Bool
  pub point_on : Option Bool
  pub extras : Dict String String

pub record Event : Type 0 where
  pub type_key : String
  pub event : String
  pub roll : ℕ
  pub point : Option ℕ
  pub natural : Bool
  pub craps : Bool
  pub on_comeout : Bool
  pub point_on : Bool
  pub extras : Dict String String

-- The event for `None`, an empty dict or what is no dict.
unfoldable pub default_event : Event
default_event = record {
  type_key = "comeout";
  event = "comeout";
  roll = 0;
  point = none;
  natural = false;
  craps = false;
  on_comeout = true;
  point_on = false;
  extras = [];
}

abbrev pub one_of : String → List String → Bool
one_of t [] = false
one_of t (k ∷ ks) = str_eq t k || one_of t ks

abbrev pub canonical_event_types : List String
canonical_event_types =
    "comeout" ∷ "point_established" ∷ "point_made" ∷ "roll" ∷ "seven_out" ∷ "shooter_change"
    ∷ "bet_resolved" ∷ []

-- `t in CANONICAL_EVENT_TYPES`
unfoldable pub is_canonical : String → Bool
is_canonical t = one_of t canonical_event_types

-- `a or b` on texts that may be `None`
abbrev pub text_or : Option String → String → String
text_or none t = t
text_or (some s) t = if str_eq s "" then t else s

-- `(ev.get("type") or ev.get("event") or COMEOUT).lower()`, and `roll` for an unknown type
unfoldable pub canonical_type : Option String → Option String → String
canonical_type given event =
    let t = lower (text_or given (text_or event "comeout")) in if is_canonical t then t else "roll"

-- `bool(point)`
abbrev truth : Option ℕ → Bool
truth none = false
truth (some n) = not (n == 0)

-- A dict that is not empty
unfoldable pub canonicalize_dict : EventDict → Event
canonicalize_dict ev =
    let t = canonical_type ev.type_key ev.event in
    record {
      type_key = t;
      event = t;
      roll = default_to (default_to 0 ev.total) ev.roll;
      point = ev.point;
      natural = flag ev.natural;
      craps = flag ev.craps;
      on_comeout = default_to (str_eq t "comeout") ev.on_comeout;
      point_on = default_to (truth ev.point) ev.point_on;
      extras = ev.extras;
    }

-- `none` is `None`, an empty dict or what is no dict.
unfoldable pub canonicalize_event : Option EventDict → Event
canonicalize_event none = default_event
canonicalize_event (some ev) = canonicalize_dict ev

unfoldable pub is_natural : ℕ → Bool
is_natural n = n == 7 || n == 11

unfoldable pub is_craps : ℕ → Bool
is_craps n = n == 2 || n == 3 || n == 12

unfoldable pub is_point : ℕ → Bool
is_point n = n == 4 || n == 5 || n == 6 || n == 8 || n == 9 || n == 10

-- `point_num is not None and roll == point_num`
abbrev pub hits : ℕ → Option ℕ → Bool
hits roll none = false
hits roll (some p) = roll == p

unfoldable pub event_type : State → String
event_type c =
    if c.just_est
    then "point_established"
    else if c.just_made
    then "point_made"
    else if c.comeout
    then (if is_natural c.total
        then "comeout"
        else if is_craps c.total
        then "comeout"
        else if is_point c.total
        then "point_established"
        else "comeout")
    else if c.point_on && hits c.total c.point_num
    then "point_made"
    else if c.total == 7
    then "seven_out"
    else "roll"

-- The state was a comeout, and neither flag decides the event.
unfoldable pub on_comeout_roll : State → Bool
on_comeout_roll c = not c.just_est && not c.just_made && c.comeout

unfoldable pub event_dict : State → EventDict
event_dict c =
    let evt = event_type c in
    record {
      type_key = some evt;
      event = some evt;
      roll = some c.total;
      total = none;
      point = if c.point_on then c.point_num else none;
      natural = some (on_comeout_roll c && is_natural c.total);
      craps = some (on_comeout_roll c && not (is_natural c.total) && is_craps c.total);
      on_comeout = some c.comeout;
      point_on = some c.point_on;
      extras = [];
    }

-- The previous state is not read.
unfoldable pub derive_event : Given → Given → Event
derive_event prev curr = canonicalize_event (some (event_dict (normalize_state curr)))
