-- ===== src/CommandChannel/Queue/Consistent.antt =====
-- The invariant of the queue: the counts are those of the queued commands, and no id is queued
-- twice or queued unseen.
use crapssim_control.Prelude.{
  ℕ, ◌+◌, String, ◌≡◌, ◌≢◌, refl, Bool, true, false, Option, List, [], ◌∷◌, ◌++◌, arith,
  if◌then◌else◌, str_eq, eq_iff, All, All-append,
}
use crapssim_control.Prelude.Dict.{String_Eq, lookup, count, count-increment}
use crapssim_control.CommandChannel.Queue.{
  Limits, Command, Payload, CommandQueue, Outcome, accepted, init, contains, payload_of,
  source_label, correlation_of, enqueue, drain, record_outcome, set_breaker,
}
use crapssim_control.CommandChannel.Queue.View.{
  View, view, push, after, view-enqueue, accepted-IsWellFormed,
}

-- How many queued commands come from a source.
abbrev pub from_source : String → List Payload → ℕ
from_source s [] = 0
from_source s (p ∷ ps) = (if str_eq p.source s then 1 else 0) + from_source s ps

abbrev ids : List Payload → List String
ids [] = []
ids (p ∷ ps) = p.correlation_id ∷ ids ps

-- No id stands twice in the queue.
abbrev pub Distinct : List Payload → Type 0
Distinct [] = Unit
Distinct (p ∷ ps) = All (λ r. r.correlation_id ≢ p.correlation_id) ps × Distinct ps

pub record IsConsistent (v : View) : Type 0 where
  pub counted : (s : String) → count s v.per_source_counts ≡ from_source s v.items
  pub distinct : Distinct v.items
  pub known : All (λ p. contains p.correlation_id v.seen ≡ true) v.items

from_source-append :
    (s : String) (ps : List Payload) (p : Payload)
    → from_source s (ps ++ p ∷ []) ≡ from_source s ps + (if str_eq p.source s then 1 else 0)
from_source-append s [] p = omega arith
from_source-append s (q ∷ ps) p = omega (arith, from_source-append s ps p)

pub contains_self : (k : String) (seen : List String) → contains k (k ∷ seen) ≡ true
unfolding contains
contains_self k seen = ground (arith, eq_iff k k)

contains_cons :
    (c k : String) (seen : List String) → contains c seen ≡ true → contains c (k ∷ seen) ≡ true
unfolding contains
contains_cons c k seen h = ground arith

pub All-contains :
    (k : String) (seen : List String) (ps : List Payload)
    → All (λ p. contains p.correlation_id seen ≡ true) ps
    → All (λ p. contains p.correlation_id (k ∷ seen) ≡ true) ps
All-contains k seen [] h = tt
All-contains k seen (p ∷ ps) h =
    (contains_cons p.correlation_id k seen h.0, All-contains k seen ps h.1)

pub contains_ne :
    (c k : String) (seen : List String) → contains c seen ≡ true → contains k seen ≡ false → k ≢ c
contains_ne c k seen h g e = cc

pub Distinct-append :
    (p : Payload) (seen : List String) (ps : List Payload)
    → Distinct ps
    → All (λ q. contains q.correlation_id seen ≡ true) ps
    → contains p.correlation_id seen ≡ false
    → Distinct (ps ++ p ∷ [])
Distinct-append p seen [] d k f = (tt, tt)
Distinct-append p seen (q ∷ ps) d k f = (
  All-append (λ r. r.correlation_id ≢ q.correlation_id) ps (p ∷ []) d.0
      (contains_ne q.correlation_id p.correlation_id seen k.0 f, tt),
  Distinct-append p seen ps d.1 k.1 f,
)

push-IsConsistent :
    (cmd : Command) (v : View)
    → IsConsistent v
    → contains (correlation_of cmd) v.seen ≡ false
    → IsConsistent (push cmd v)
unfolding payload_of
push-IsConsistent cmd v h fresh = record {
  counted = λ s.
      rw (count-increment (source_label cmd) s v.per_source_counts, h.counted s, from_source-append)
        (ground arith);
  distinct = Distinct-append (payload_of cmd) v.seen v.items h.distinct h.known fresh;
  known =
      All-append (λ p. contains p.correlation_id (correlation_of cmd ∷ v.seen) ≡ true) v.items
        (payload_of cmd ∷ []) (All-contains (correlation_of cmd) v.seen v.items h.known)
        (contains_self (correlation_of cmd) v.seen, tt);
}

-- Whatever arrives and however it is answered, the queue stays consistent.
pub enqueue-IsConsistent :
    (now : ℕ) (cmd : Command) (q : CommandQueue)
    → IsConsistent (view q)
    → IsConsistent (view (enqueue now cmd q).1)
enqueue-IsConsistent now cmd q h =
    rw view-enqueue
      (after-IsConsistent (enqueue now cmd q).0 (λ e. (accepted-IsWellFormed now cmd q e).1))
  where
    after-IsConsistent :
        (o : Outcome)
        → (o ≡ accepted → contains (correlation_of cmd) q.seen ≡ false)
        → IsConsistent (after cmd o (view q))
    after-IsConsistent accepted f = push-IsConsistent cmd (view q) h (f refl)
    after-IsConsistent _ f = h

pub init-IsConsistent : (limits : Limits) → IsConsistent (view (init limits))
unfolding init count lookup
init-IsConsistent limits = record { counted = λ s. refl; distinct = tt; known = tt }

-- Draining empties the queue and the counts together.
pub drain-IsConsistent : (q : CommandQueue) → IsConsistent (view (drain q).1)
unfolding drain count lookup
drain-IsConsistent q = record { counted = λ s. refl; distinct = tt; known = tt }

pub view-record_outcome :
    (now : ℕ) (source : String) (executed : Bool) (reason : Option String) (q : CommandQueue)
    → view (record_outcome now source executed reason q).1 ≡ view q
unfolding record_outcome set_breaker
view-record_outcome now source true reason q = refl
view-record_outcome now source false reason q = ground arith
