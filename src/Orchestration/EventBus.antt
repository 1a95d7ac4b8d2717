-- ===== src/Orchestration/EventBus.antt =====
-- `EventBus`: subscribers with bounded queues, and the bounded history that a new one is given. A method is one
-- step: the deliveries that follow the lock of one call do not mix with those of another.
use crapssim_control.Prelude.{ℕ, ◌+◌, List, [], ◌∷◌, ◌++◌, map, length, if◌then◌else◌, ltb, ◌==◌}
use crapssim_control.Prelude.Dict.{Dict, insert, ℕ_Eq}

abbrev pub capacity : ℕ
capacity = 1000

pub record EventBus {ℓ} (E : Type ℓ) : Type ℓ where
  pub subs : Dict ℕ (List E)
  pub next_id : ℕ
  pub history : List E

module _ {ℓ} {E : Type ℓ} where
  abbrev pub new_bus : EventBus E
  new_bus = record { subs = []; next_id = 1; history = [] }

  -- `queue.put_nowait`, with the error of a full queue swallowed
  unfoldable pub put_nowait : E → List E → List E
  put_nowait e q = if ltb (length q) capacity then q ++ e ∷ [] else q

  abbrev pub drop_oldest : List E → List E
  drop_oldest [] = []
  drop_oldest (e ∷ es) = es

  -- `append` on a deque with a `maxlen`
  unfoldable pub remember : E → List E → List E
  remember e h = if ltb (length h) capacity then h ++ e ∷ [] else drop_oldest h ++ e ∷ []

  -- The loop of `subscribe` over the backlog
  unfoldable pub fill : List E → List E → List E
  fill q [] = q
  fill q (e ∷ es) = let rest = fill (q ++ e ∷ []) es in if ltb (length q) capacity then rest else q

  unfoldable pub subscribe : EventBus E → ℕ × EventBus E
  subscribe b = (
    b.next_id,
    record b { subs = insert b.next_id (fill [] b.history) b.subs; next_id = b.next_id + 1 },
  )

  unfoldable pub remove : ℕ → Dict ℕ (List E) → Dict ℕ (List E)
  remove k [] = []
  remove k ((j, q) ∷ d) = let rest = remove k d in if j == k then rest else (j, q) ∷ rest

  unfoldable pub unsubscribe : ℕ → EventBus E → EventBus E
  unsubscribe sid b = record b { subs = remove sid b.subs }

  unfoldable pub publish : E → EventBus E → EventBus E
  publish e b = record b {
    history = remember e b.history;
    subs = map (λ (k, q). (k, put_nowait e q)) b.subs;
  }

-- The calls, and a run of them
pub data Call {ℓ} (E : Type ℓ) : Type ℓ where
  subscribes : Call E
  unsubscribes : ℕ → Call E
  publishes : E → Call E

module _ {ℓ} {E : Type ℓ} where
  abbrev pub call : Call E → EventBus E → EventBus E
  call subscribes b = (subscribe b).1
  call (unsubscribes sid) b = unsubscribe sid b
  call (publishes e) b = publish e b

  unfoldable pub calls : List (Call E) → EventBus E → EventBus E
  calls [] b = b
  calls (c ∷ cs) b = calls cs (call c b)

  -- The events that the calls publish
  unfoldable pub events : List (Call E) → List E
  events [] = []
  events (publishes e ∷ cs) = e ∷ events cs
  events (c ∷ cs) = events cs
