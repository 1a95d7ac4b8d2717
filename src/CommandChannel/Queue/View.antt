-- ===== src/CommandChannel/Queue/View.antt =====
-- What an answer of `enqueue` says of the queue: an accepted command is appended, and any other
-- answer leaves the queued commands, the seen ids and the counts alone.
use crapssim_control.Prelude.{
  ℕ, ◌+◌, String, ◌≡◌, ◌≢◌, refl, Bool, true, false, none, List, [], ◌∷◌, ◌++◌, arith,
  if◌then◌else◌, Option-cases, inl, inr, default_to, eq_iff, ◌↔◌,
}
use crapssim_control.Prelude.Dict.{Dict, String_Eq, increment}
use crapssim_control.CommandChannel.Queue.{
  Command, Payload, CommandQueue, Outcome, accepted, rejected_for, contains, reject, payload_of,
  source_label, correlation_of, accept, enqueue_live, enqueue_limited, enqueue_known, malformed,
  enqueue, set_limiter, set_breaker, allowed_actions, missing_key,
}

pub record View : Type 0 where
  pub items : List Payload
  pub seen : List String
  pub per_source_counts : Dict String ℕ
  pub enqueued : ℕ

abbrev pub view : CommandQueue → View
view q = record {
  items = q.items;
  seen = q.seen;
  per_source_counts = q.per_source_counts;
  enqueued = q.enqueued;
}

abbrev pub push : Command → View → View
push cmd v = record {
  items = v.items ++ payload_of cmd ∷ [];
  seen = correlation_of cmd ∷ v.seen;
  per_source_counts = increment (source_label cmd) v.per_source_counts;
  enqueued = v.enqueued + 1;
}

abbrev pub is_accepted : Outcome → Bool
is_accepted accepted = true
is_accepted _ = false

-- The view after a call, by its answer.
abbrev pub after : Command → Outcome → View → View
after cmd o v = if is_accepted o then push cmd v else v

pub view-reject :
    (now : ℕ) (source reason : String) (update : Bool) (q : CommandQueue)
    → view (reject now source reason update q).1 ≡ view q
unfolding reject set_breaker
view-reject now source reason true q = refl
view-reject now source reason false q = refl

view-enqueue_live :
    (now : ℕ) (cmd : Command) (q : CommandQueue)
    → let (o, q') = enqueue_live now cmd q in view q' ≡ after cmd o (view q)
unfolding enqueue_live enqueue_limited reject accept set_limiter set_breaker
view-enqueue_live now cmd q = ground arith

view-enqueue_known :
    (now : ℕ) (cmd : Command) (q : CommandQueue)
    → let (o, q') = enqueue_known now cmd q in view q' ≡ after cmd o (view q)
unfolding enqueue_known accept set_breaker
view-enqueue_known now cmd q = ground (arith, view-enqueue_live now cmd q)

pub reject_refuses :
    (now : ℕ) (source reason : String) (update : Bool) (q : CommandQueue)
    → (reject now source reason update q).0 ≡ rejected_for reason
unfolding reject
reject_refuses now source reason update q = refl

-- An accepted command is appended to the queue, its id is added to the seen ones, and the counts go
-- up by one; a refused command, or one that fails, changes none of these.
pub view-enqueue :
    (now : ℕ) (cmd : Command) (q : CommandQueue)
    → let (o, q') = enqueue now cmd q in view q' ≡ after cmd o (view q)
unfolding enqueue
view-enqueue now cmd q = elim (Option-cases (malformed cmd q)) [
  | inl fits ↦ rw (fits, enqueue) (view-enqueue_known now cmd q)
  | inr (reason, e) ↦
      rw (e, enqueue, reject_refuses now (source_label cmd) reason true q)
        (view-reject now (source_label cmd) reason true q)
]

not-malformed :
    (now : ℕ) (cmd : Command) (q : CommandQueue)
    → (enqueue now cmd q).0 ≡ accepted
    → malformed cmd q ≡ none
unfolding enqueue reject
not-malformed now cmd q h = ground arith

-- What passes the tests on the command itself.
abbrev pub IsWellFormed : Command → CommandQueue → Type 0
IsWellFormed cmd q =
    (correlation_of cmd ≢ "")
    × (contains (correlation_of cmd) q.seen ≡ false)
    × (missing_key cmd ≡ none)
    × (contains (default_to "" cmd.action) allowed_actions ≡ true)

pub malformed-none :
    (cmd : Command) (q : CommandQueue) → (malformed cmd q ≡ none) ↔ IsWellFormed cmd q
unfolding malformed
malformed-none cmd q = ground (arith, eq_iff (correlation_of cmd) "")

-- An accepted command has an id that is not blank and was not seen before, every required key, and
-- an allowed action.
pub accepted-IsWellFormed :
    (now : ℕ) (cmd : Command) (q : CommandQueue)
    → (enqueue now cmd q).0 ≡ accepted
    → IsWellFormed cmd q
accepted-IsWellFormed now cmd q h = (malformed-none cmd q).0 (not-malformed now cmd q h)
