-- ===== src/Orchestration/Delivery.antt =====
-- What the history holds, and what a subscriber is given.
use crapssim_control.Prelude.{
  ℕ, suc, ◌+◌, ◌≤◌, ◌<◌, ◌≡◌, ◌≢◌, ◌⊎◌, inl, inr, refl, sym, ap, ◌∙◌, true, false, none, some, List,
  [], ◌∷◌, ◌++◌, map, length, length-append, ltb, ◌==◌, Bool-cases, arith,
}
use mathlib.Core.List.{append_assoc, append-nil}
use crapssim_control.Prelude.Dict.{Dict, lookup, ℕ_Eq, lookup-insert, lookup-insert_self}
use crapssim_control.Orchestration.EventBus.{
  capacity, EventBus, new_bus, put_nowait, remember, fill, subscribe, remove, unsubscribe, publish,
  Call, subscribes, unsubscribes, publishes, calls, events,
}

module _ {ℓ} {E : Type ℓ} where
  -- The history is the latest of the events, all of them or as many as it can hold.
  abbrev pub IsLatest : List E → List E → Type ℓ
  IsLatest all h =
      (old : List E) × (old ++ h ≡ all)
      × (length h ≤ capacity)
      × ((length old ≡ 0) ⊎ (length h ≡ capacity))

  remember-IsLatest :
      (e : E) (all h : List E) → IsLatest all h → IsLatest (all ++ e ∷ []) (remember e h)
  unfolding remember
  remember-IsLatest e all [] (old, p, le, full) =
      (old, sym (append_assoc old [] (e ∷ [])) ∙ ap (λ z. z ++ e ∷ []) p, omega arith, ground arith)
  remember-IsLatest e all (x ∷ h) (old, p, le, full) =
      let shape = append_assoc old (x ∷ h) (e ∷ []) in
      elim (Bool-cases (ltb (suc (length h)) capacity)) [
        | inl s ↦ rw s (
          old,
          sym shape ∙ ap (λ z. z ++ e ∷ []) p,
          ground (arith, s, length-append h (e ∷ [])),
          ground (arith, s, full),
        )
        | inr s ↦ rw s (
          old ++ x ∷ [],
          append_assoc old (x ∷ []) (h ++ e ∷ []) ∙ sym shape ∙ ap (λ z. z ++ e ∷ []) p,
          omega (arith, le, length-append h (e ∷ [])),
          inr (ground (arith, s, le, length-append h (e ∷ []))),
        )
      ]

  fill-append : (q es : List E) → length q + length es ≤ capacity → fill q es ≡ q ++ es
  unfolding fill
  fill-append q [] le = sym (append-nil q)
  fill-append q (e ∷ es) le =
      let here : ltb (length q) capacity ≡ true = ground arith in
      rw here (
        fill-append (q ++ e ∷ []) es (omega (arith, le, length-append q (e ∷ [])))
        ∙ append_assoc q (e ∷ []) es)

  lookup-remove : (k j : ℕ) (d : Dict ℕ (List E)) → k ≢ j → lookup j (remove k d) ≡ lookup j d
  unfolding lookup remove
  lookup-remove k j [] n = refl
  lookup-remove k j ((i, q) ∷ d) n = ground (arith, lookup-remove k j d n)

  put_nowait_short : (e : E) (q : List E) → length q < capacity → put_nowait e q ≡ q ++ e ∷ []
  unfolding put_nowait
  put_nowait_short e q short = ground arith

  lookup-put_nowait :
      (e : E) (j : ℕ) (q : List E) (d : Dict ℕ (List E))
      → lookup j d ≡ some q
      → lookup j (map (λ (k, p). (k, put_nowait e p)) d) ≡ some (put_nowait e q)
  unfolding lookup
  lookup-put_nowait e j q [] p = ground (arith, p)
  lookup-put_nowait e j q ((i, r) ∷ d) p = elim (Bool-cases (i == j)) [
    | inl s ↦
        rw s
          (ap (λ o. elim o [ none ↦ none | some z ↦ some (put_nowait e z) ]) (rw (s, lookup) at p))
    | inr s ↦ rw s (lookup-put_nowait e j q d (rw (s, lookup) at p))
  ]

  calls-IsLatest :
      (cs : List (Call E)) (all : List E) (b : EventBus E)
      → IsLatest all b.history
      → IsLatest (all ++ events cs) (calls cs b).history
  unfolding calls events subscribe unsubscribe publish
  calls-IsLatest [] all b h = rw (append-nil all) h
  calls-IsLatest (subscribes ∷ cs) all b h = calls-IsLatest cs all _ h
  calls-IsLatest (unsubscribes k ∷ cs) all b h = calls-IsLatest cs all _ h
  calls-IsLatest (publishes e ∷ cs) all b h =
      rw (sym (append_assoc all (e ∷ []) (events cs)))
        (calls-IsLatest cs (all ++ e ∷ []) (publish e b) (remember-IsLatest e all b.history h))

  -- The history of a bus is the latest of all the events that were published on it, in their order: all of them,
  -- or 1000.
  pub history-IsLatest : (cs : List (Call E)) → IsLatest (events cs) (calls cs new_bus).history
  history-IsLatest cs = calls-IsLatest cs [] new_bus ([], refl, omega arith, inl refl)

  history_whole : (all h : List E) → IsLatest all h → length all ≤ capacity → h ≡ all
  history_whole all h ([], p, le, full) short = p
  history_whole all h (x ∷ old, p, le, full) short =
      ground (arith, full, short, length-append old h, ap length p)

  -- The calls do not unsubscribe this subscriber.
  abbrev pub Keeps : ℕ → List (Call E) → Type 0
  Keeps sid [] = Unit
  Keeps sid (unsubscribes k ∷ cs) = (k ≢ sid) × Keeps sid cs
  Keeps sid (c ∷ cs) = Keeps sid cs

  -- The queue of a subscriber whose id was given out
  abbrev Holds : ℕ → List E → EventBus E → Type ℓ
  Holds sid q b = (lookup sid b.subs ≡ some q) × (sid < b.next_id)

  subscribe-Holds :
      (sid : ℕ) (q : List E) (b : EventBus E) → Holds sid q b → Holds sid q (subscribe b).1
  unfolding subscribe
  subscribe-Holds sid q b (at, lt) =
      let other : (b.next_id == sid) ≡ false = ground (arith, lt) in
      (rw (lookup-insert, other) at, omega arith)

  publish-Holds :
      (sid : ℕ) (q : List E) (e : E) (b : EventBus E)
      → length q < capacity
      → Holds sid q b
      → Holds sid (q ++ e ∷ []) (publish e b)
  unfolding publish
  publish-Holds sid q e b short (at, lt) =
      (lookup-put_nowait e sid q b.subs at ∙ ap (λ z. some z) (put_nowait_short e q short), lt)

  calls-Holds :
      (sid : ℕ) (cs : List (Call E)) (q : List E) (b : EventBus E)
      → Keeps sid cs
      → length q + length (events cs) ≤ capacity
      → Holds sid q b
      → Holds sid (q ++ events cs) (calls cs b)
  unfolding calls events unsubscribe
  calls-Holds sid [] q b k le h = rw (append-nil q) h
  calls-Holds sid (subscribes ∷ cs) q b k le h =
      calls-Holds sid cs q (subscribe b).1 k le (subscribe-Holds sid q b h)
  calls-Holds sid (unsubscribes j ∷ cs) q b (n, k) le (at, lt) =
      calls-Holds sid cs q (unsubscribe j b) k le (lookup-remove j sid b.subs n ∙ at, lt)
  calls-Holds sid (publishes e ∷ cs) q b k le h = rw (sym (append_assoc q (e ∷ []) (events cs))) (
      calls-Holds sid cs (q ++ e ∷ []) (publish e b) k (omega (arith, le, length-append q (e ∷ [])))
        (publish-Holds sid q e b (omega (arith, le)) h))

  -- A subscriber that stays is given every event that was ever published on the bus, before or after it subscribed,
  -- once and in their order, as long as the calls do not overlap and these are not more than the 1000 that its
  -- queue can hold.
  pub deliver_all :
      (before after : List (Call E))
      → let (sid, b) = subscribe (calls before new_bus) in
        Keeps sid after
        → length (events before) + length (events after) ≤ capacity
        → lookup sid (calls after b).subs ≡ some (events before ++ events after)
  unfolding subscribe
  deliver_all before after k le =
      let b = calls before new_bus in
      let whole =
        history_whole (events before) b.history (history-IsLatest before) (omega (arith, le)) in
      let given = fill-append [] b.history (rw whole (omega (arith, le))) ∙ whole in
      (calls-Holds b.next_id after (events before) (subscribe b).1 k le
        (lookup-insert_self b.next_id _ b.subs ∙ ap (λ z. some z) given, omega arith)).0
