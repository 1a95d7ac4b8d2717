-- ===== src/CommandChannel/Queue/Delivery.antt =====
-- Runs of the queue: what was accepted is delivered once each, in order.
use mathlib.Core.List.{append_assoc, append-nil}
use crapssim_control.Prelude.{
  ℕ, String, ◌≡◌, refl, ap, sym, ◌∙◌, Bool, true, false, Option, List, [], ◌∷◌, ◌++◌, arith, length,
  length-append, All, All-append,
}
use crapssim_control.CommandChannel.Queue.{
  Limits, Command, Payload, CommandQueue, Outcome, accepted, init, contains, payload_of,
  correlation_of, enqueue, drain, record_outcome,
}
use crapssim_control.CommandChannel.Queue.View.{
  View, view, push, after, view-enqueue, accepted-IsWellFormed,
}
use crapssim_control.CommandChannel.Queue.Consistent.{
  IsConsistent, Distinct, Distinct-append, All-contains, contains_self, enqueue-IsConsistent,
  init-IsConsistent, drain-IsConsistent, view-record_outcome,
}

-- A call of one of the three methods, with the clock where the method reads it.
pub data Call : Type 0 where
  submit : ℕ → Command → Call
  collect : Call
  report : ℕ → String → Bool → Option String → Call

-- The queue, with what `drain` has returned so far and what `enqueue` has accepted so far.
pub record Run : Type 0 where
  pub queue : CommandQueue
  pub delivered : List Payload
  pub taken : List Payload

take_in : Command → Outcome → List Payload → List Payload
take_in cmd accepted ps = ps ++ payload_of cmd ∷ []
take_in cmd _ ps = ps

unfoldable pub step : Call → Run → Run
unfolding take_in
step (submit now cmd) r =
    let (o, q) = enqueue now cmd r.queue in record r { queue = q; taken = take_in cmd o r.taken }
step collect r =
    let (ps, q) = drain r.queue in record r { queue = q; delivered = r.delivered ++ ps }
step (report now source executed reason) r = record r {
  queue = (record_outcome now source executed reason r.queue).1;
}

unfoldable pub run : List Call → Run → Run
run [] r = r
run (c ∷ cs) r = run cs (step c r)

abbrev pub start : Limits → Run
start limits = record { queue = init limits; delivered = []; taken = [] }

-- What has been delivered and what is queued are together what was accepted, in its order; no id was
-- accepted twice, each is remembered, and their number is the statistic `enqueued`.
pub record Matches (delivered : List Payload) (v : View) (taken : List Payload) : Type 0 where
  pub in_order : delivered ++ v.items ≡ taken
  pub unique : Distinct taken
  pub known : All (λ p. contains p.correlation_id v.seen ≡ true) taken
  pub counted : v.enqueued ≡ length taken

pub record IsFaithful (r : Run) : Type 0 where
  pub consistent : IsConsistent (view r.queue)
  pub matches : Matches r.delivered (view r.queue) r.taken

push-Matches :
    (cmd : Command) (delivered : List Payload) (v : View) (taken : List Payload)
    → Matches delivered v taken
    → contains (correlation_of cmd) v.seen ≡ false
    → Matches delivered (push cmd v) (taken ++ payload_of cmd ∷ [])
unfolding payload_of
push-Matches cmd delivered v taken m fresh = record {
  in_order =
      sym (append_assoc delivered v.items (payload_of cmd ∷ []))
      ∙ ap (λ ps. ps ++ payload_of cmd ∷ []) m.in_order;
  unique = Distinct-append (payload_of cmd) v.seen taken m.unique m.known fresh;
  known =
      All-append (λ p. contains p.correlation_id (correlation_of cmd ∷ v.seen) ≡ true) taken
        (payload_of cmd ∷ []) (All-contains (correlation_of cmd) v.seen taken m.known)
        (contains_self (correlation_of cmd) v.seen, tt);
  counted = rw (length-append taken, m.counted) (omega arith);
}

after-Matches :
    (cmd : Command) (o : Outcome) (delivered : List Payload) (v : View) (taken : List Payload)
    → Matches delivered v taken
    → (o ≡ accepted → contains (correlation_of cmd) v.seen ≡ false)
    → Matches delivered (after cmd o v) (take_in cmd o taken)
unfolding take_in
after-Matches cmd accepted delivered v taken m fresh =
    push-Matches cmd delivered v taken m (fresh refl)
after-Matches cmd _ delivered v taken m fresh = m

drain-Matches :
    (delivered : List Payload) (q : CommandQueue) (taken : List Payload)
    → Matches delivered (view q) taken
    → Matches (delivered ++ (drain q).0) (view (drain q).1) taken
unfolding drain
drain-Matches delivered q taken m = record {
  in_order = append-nil (delivered ++ q.items) ∙ m.in_order;
  unique = m.unique;
  known = m.known;
  counted = m.counted;
}

pub step-IsFaithful : (c : Call) (r : Run) → IsFaithful r → IsFaithful (step c r)
unfolding step
step-IsFaithful (submit now cmd) r f = record {
  consistent = enqueue-IsConsistent now cmd r.queue f.consistent;
  matches = rw view-enqueue (
      after-Matches cmd (enqueue now cmd r.queue).0 r.delivered (view r.queue) r.taken f.matches
        (λ e. (accepted-IsWellFormed now cmd r.queue e).1));
}
step-IsFaithful collect r f = record {
  consistent = drain-IsConsistent r.queue;
  matches = drain-Matches r.delivered r.queue r.taken f.matches;
}
step-IsFaithful (report now source executed reason) r f = record {
  consistent = rw view-record_outcome f.consistent;
  matches = rw view-record_outcome f.matches;
}

run-IsFaithful : (cs : List Call) (r : Run) → IsFaithful r → IsFaithful (run cs r)
unfolding run
run-IsFaithful [] r f = f
run-IsFaithful (c ∷ cs) r f = run-IsFaithful cs (step c r) (step-IsFaithful c r f)

-- After any calls on a new queue, in any order and at any times: the commands delivered and then
-- those queued are the accepted ones in the order of their acceptance, no correlation id was
-- accepted twice, `enqueued` is their number, and the counts and ids of the queue are consistent.
pub start-IsFaithful : (limits : Limits) (cs : List Call) → IsFaithful (run cs (start limits))
start-IsFaithful limits cs = run-IsFaithful cs (start limits) (record {
  consistent = init-IsConsistent limits;
  matches = unfold init in record { in_order = refl; unique = tt; known = tt; counted = refl };
})
