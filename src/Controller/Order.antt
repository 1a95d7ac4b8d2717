-- ===== src/Controller/Order.antt =====
-- The order of an event's actions, by the texts of their sources.
use crapssim_control.Prelude.{
  String, ◌||◌, List, [], ◌∷◌, ◌++◌, ◌≡◌, refl, inl, inr, if◌then◌else◌, Bool-cases, default_to,
  str_eq, eq_iff,
}
use crapssim_control.Prelude.Text.{lower}
use crapssim_control.Templates.Envelope.{Action}
use crapssim_control.Controller.Merge.{source_bucket, in_bucket, sort_actions}

-- The source in lower case
abbrev pub origin : Action → String
origin a = lower (default_to "" a.source)

abbrev pub from : String → List Action → List Action
from src [] = []
from src (a ∷ actions) =
    let rest = from src actions in if str_eq (origin a) src then a ∷ rest else rest

abbrev pub from_elsewhere : List Action → List Action
from_elsewhere [] = []
from_elsewhere (a ∷ actions) =
    let rest = from_elsewhere actions in
    if str_eq (origin a) "template" || str_eq (origin a) "rule" then rest else a ∷ rest

abbrev pub by_origin : List Action → List Action
by_origin actions = from "template" actions ++ from "rule" actions ++ from_elsewhere actions

bucket_zero : (actions : List Action) → in_bucket 0 actions ≡ from "template" actions
unfolding source_bucket
bucket_zero [] = refl
bucket_zero (a ∷ actions) = elim (Bool-cases (str_eq (origin a) "template")) [
  | inl e ↦ rw (e, bucket_zero actions) refl
  | inr e ↦ elim (Bool-cases (str_eq (origin a) "rule")) [
    | inl f ↦ rw (e, f, bucket_zero actions) refl
    | inr f ↦ rw (e, f, bucket_zero actions) refl
  ]
]

bucket_one : (actions : List Action) → in_bucket 1 actions ≡ from "rule" actions
unfolding source_bucket
bucket_one [] = refl
bucket_one (a ∷ actions) = elim (Bool-cases (str_eq (origin a) "template")) [
  | inl e ↦ rw ((eq_iff (origin a) "template").0 e, bucket_one actions) refl
  | inr e ↦ elim (Bool-cases (str_eq (origin a) "rule")) [
    | inl f ↦ rw (e, f, bucket_one actions) refl
    | inr f ↦ rw (e, f, bucket_one actions) refl
  ]
]

bucket_two : (actions : List Action) → in_bucket 2 actions ≡ from_elsewhere actions
unfolding source_bucket
bucket_two [] = refl
bucket_two (a ∷ actions) = elim (Bool-cases (str_eq (origin a) "template")) [
  | inl e ↦ rw (e, bucket_two actions) refl
  | inr e ↦ elim (Bool-cases (str_eq (origin a) "rule")) [
    | inl f ↦ rw (e, f, bucket_two actions) refl
    | inr f ↦ rw (e, f, bucket_two actions) refl
  ]
]

pub sort_actions-by_origin : (actions : List Action) → sort_actions actions ≡ by_origin actions
unfolding sort_actions
sort_actions-by_origin actions =
    rw (bucket_zero actions, bucket_one actions, bucket_two actions) refl
