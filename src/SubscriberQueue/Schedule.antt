-- ===== src/SubscriberQueue/Schedule.antt =====
-- Any number of producers, the consumer, the reaper and `close` on one queue
-- (subscriber_queue.hpp): each event is one critical section.
use nexus_d_pub_sub.Prelude.{ℕ, zero, suc, List, [], ◌∷◌, ◌++◌, Option, none, some}
use nexus_d_pub_sub.Prelude.Int.{ℤ}
use nexus_d_pub_sub.SubscriberQueue.{
  BackpressurePolicy, QueuedMessage, SubscriberQueue, Entered, returned, waiting, init, enter, wake,
  dequeue, reap_expired, close,
}
use nexus_d_pub_sub.SubscriberQueue.Valid.{
  IsValid, after, init-IsValid, enter-IsValid, wake-IsValid, dequeue-IsValid, reap_expired-IsValid,
}

-- `wakes k` ends the wait of the k-th waiting producer, by a notification or by the timeout.
pub data Event {ℓ} (A : Type ℓ) : Type ℓ where
  enters : ℕ → A → ℤ → Event A
  wakes : ℕ → Event A
  dequeues : ℕ → Event A
  reaps : ℕ → Event A
  closes : Event A

pub record System {ℓ} (A : Type ℓ) : Type ℓ where
  pub queue : SubscriberQueue A
  pub producers : List (QueuedMessage A)

module _ {ℓ} {A : Type ℓ} where
  -- The k-th element, and the list without it.
  unfoldable pub pick : ℕ → List A → Option (A × List A)
  pick k [] = none
  pick zero (x ∷ xs) = some (x, xs)
  pick (suc k) (x ∷ xs) = elim (pick k xs) [ none ↦ none | some (y, r) ↦ some (y, x ∷ r) ]

module _ {ℓ} {A : Type ℓ} where
  entered : System A → Entered A → System A
  entered s (returned r q) = record s { queue = q }
  entered s (waiting m) = record s { producers = s.producers ++ m ∷ [] }

  woken : System A → Option (QueuedMessage A × List (QueuedMessage A)) → System A
  woken s none = s
  woken s (some (m, rest)) = record { queue = wake m s.queue; producers = rest }

  unfoldable pub step : System A → Event A → System A
  unfolding entered woken pick
  step s (enters now msg ttl) = entered s (enter now msg ttl s.queue)
  step s (wakes k) = woken s (pick k s.producers)
  step s (dequeues now) = record s { queue = (dequeue now s.queue).0 }
  step s (reaps now) = record s { queue = (reap_expired now s.queue).0 }
  step s closes = record s { queue = close s.queue }

  unfoldable pub run : System A → List (Event A) → System A
  unfolding step
  run s [] = s
  run s (e ∷ es) = run (step s e) es

  entered-IsValid :
      (s : System A) (r : Entered A) → IsValid (after s.queue r) → IsValid (entered s r).queue
  unfolding entered
  entered-IsValid s (returned r q) v = v
  entered-IsValid s (waiting m) v = v

  woken-IsValid :
      (s : System A) (r : Option (QueuedMessage A × List (QueuedMessage A)))
      → IsValid s.queue
      → IsValid (woken s r).queue
  unfolding woken
  woken-IsValid s none v = v
  woken-IsValid s (some (m, rest)) v = wake-IsValid m s.queue v

  step-IsValid : (s : System A) (e : Event A) → IsValid s.queue → IsValid (step s e).queue
  unfolding step
  step-IsValid s (enters now msg ttl) v =
      entered-IsValid s (enter now msg ttl s.queue) (enter-IsValid now msg ttl s.queue v)
  step-IsValid s (wakes k) v = woken-IsValid s (pick k s.producers) v
  step-IsValid s (dequeues now) v = dequeue-IsValid now s.queue v
  step-IsValid s (reaps now) v = reap_expired-IsValid now s.queue v
  step-IsValid s closes v =
      unfold close in
      record {
        bounded = v.bounded;
        watermark = v.watermark;
        marked = v.marked;
        balanced = v.balanced;
      }

  run-IsValid : (s : System A) (es : List (Event A)) → IsValid s.queue → IsValid (run s es).queue
  unfolding run
  run-IsValid s [] v = v
  run-IsValid s (e ∷ es) v = run-IsValid (step s e) es (step-IsValid s e v)

  -- A new queue, with nobody waiting.
  abbrev pub start : ℕ → BackpressurePolicy → ℤ → ℤ → System A
  start limit policy block_timeout default_ttl = record {
    queue = init limit policy block_timeout default_ttl;
    producers = [];
  }

  -- After any sequence of critical sections on a new queue: the depth never exceeds a positive
  -- limit, nor does the high watermark, which is never below the depth, and every message that was
  -- enqueued was delivered, dropped as the oldest, expired, or is still queued (the counters are
  -- compared modulo 2^64).
  pub run-init-IsValid :
      (limit : ℕ) (policy : BackpressurePolicy) (block_timeout default_ttl : ℤ)
      (es : List (Event A))
      → IsValid (run (start limit policy block_timeout default_ttl) es).queue
  run-init-IsValid limit policy block_timeout default_ttl es =
      run-IsValid _ es (init-IsValid limit policy block_timeout default_ttl)
