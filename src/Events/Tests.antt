-- ===== src/Events/Tests.antt =====
-- Events at concrete inputs.
use crapssim_control.Prelude.{◌≡◌, true, none, some, [], ◌∷◌}
use crapssim_control.Events.{
  Given, state_dict, invalid, EventDict, canonicalize_event, derive_event, normalize_state, one_of,
  canonical_event_types,
}
use crapssim_control.Events.Derived.{IsDerived, derive_event-IsDerived}
use crapssim_control.Events.Canonical.{to_dict, canonicalize_event-canonicalize_event}

abbrev resolved : EventDict
resolved = record {
  type_key = none;
  event = some "BET_Resolved";
  roll = none;
  total = some 8;
  point = some 6;
  natural = none;
  craps = none;
  on_comeout = none;
  point_on = none;
  extras = ("result", "win") ∷ [];
}

canonicalize_event-canonicalize_event_example :
    let e = canonicalize_event (some resolved) in
    (one_of e.type_key canonical_event_types ≡ true)
    × (e.event ≡ e.type_key)
    × (canonicalize_event (some (to_dict e)) ≡ e)
canonicalize_event-canonicalize_event_example =
    canonicalize_event-canonicalize_event (some resolved)

abbrev comeout_eleven : Given
comeout_eleven = state_dict (record {
  comeout = some true;
  total = some 11;
  point_on = none;
  point_num = none;
  just_est = none;
  just_made = none;
})

derive_event-IsDerived_example :
    IsDerived (normalize_state comeout_eleven) (derive_event invalid comeout_eleven)
derive_event-IsDerived_example = derive_event-IsDerived invalid comeout_eleven
