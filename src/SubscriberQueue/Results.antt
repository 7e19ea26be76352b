-- ===== src/SubscriberQueue/Results.antt =====
-- What `enqueue` reports, and how a wait in it ends (subscriber_queue.hpp).
use nexus_d_pub_sub.Prelude.{
  ℕ, ◌≤◌, ◌≡◌, refl, ◌⊎◌, inl, inr, Bool-cases, List, [], ◌∷◌, ◌++◌, arith, length, leb, inc64,
  drop, ◌||◌, if◌then◌else◌,
}
use nexus_d_pub_sub.Prelude.Int.{ℤ}
use nexus_d_pub_sub.SubscriberQueue.{
  BackpressurePolicy, drop_oldest, drop_newest, block, enqueued, dropped_newest,
  dropped_disconnected, QueuedMessage, SubscriberQueue, Entered, returned, waiting, wrap, is_full,
  push_back, drop_front, enter_full, enter, wake,
}
use nexus_d_pub_sub.SubscriberQueue.Valid.{
  enter_closed, enter_at_limit, enter_with_room, length-drop_front,
}

module _ {ℓ} {A : Type ℓ} where
  -- What a call of `enqueue` for the entry `m` reports at once.
  abbrev pub Reports : QueuedMessage A → SubscriberQueue A → Entered A → Type ℓ
  Reports m q (waiting w) = (w ≡ m) × (q.policy ≡ block)
  Reports m q (returned r q') =
      ((r ≡ enqueued)
        × ((kept : List (QueuedMessage A)) × (q'.messages ≡ kept ++ m ∷ [])
            × (length kept ≤ length q.messages)))
      ⊎ (((r ≡ dropped_newest) ⊎ (r ≡ dropped_disconnected)) × (q'.messages ≡ q.messages))

  push_drop-Reports :
      (m : QueuedMessage A) (q r : SubscriberQueue A)
      → length r.messages ≤ length q.messages
      → Reports m q (returned enqueued (push_back m r))
  unfolding push_back
  push_drop-Reports m q r h = inl (refl, (r.messages, refl, h))

  enter_full-Reports :
      (m : QueuedMessage A) (q : SubscriberQueue A) (policy : BackpressurePolicy)
      → q.policy ≡ policy
      → Reports m q (enter_full m q policy)
  unfolding enter_full
  enter_full-Reports m q drop_oldest e =
      push_drop-Reports m q (drop_front q.messages q)
        (omega (arith, (length-drop_front q.messages q refl).0))
  enter_full-Reports m q drop_newest e = inr (inl refl, refl)
  enter_full-Reports m q block e = (refl, e)

  -- A call of `enqueue` that returns at once reports ENQUEUED, and then the message is the last in
  -- the queue, or DROPPED_NEWEST or DROPPED_DISCONNECTED, and then the queued messages are as they
  -- were; it waits only under BLOCK. So DROPPED_OLDEST, DROPPED_TTL and BLOCKED are never reported,
  -- and a message that pushed the oldest out is reported as ENQUEUED.
  pub enter-Reports :
      (now : ℕ) (msg : A) (ttl : ℤ) (q : SubscriberQueue A)
      → Reports (wrap now msg ttl q) q (enter now msg ttl q)
  enter-Reports now msg ttl q = elim (Bool-cases q.closed) [
    | inl e ↦ rw (enter_closed now msg ttl q e) (inr (inr refl, refl))
    | inr e ↦ elim (Bool-cases (is_full q)) [
      | inl full ↦
          rw (enter_at_limit now msg ttl q e full)
            (enter_full-Reports (wrap now msg ttl q) q q.policy refl)
      | inr room ↦
          rw (enter_with_room now msg ttl q e room)
            (push_drop-Reports (wrap now msg ttl q) q q (omega arith))
    ]
  ]

  -- The end of a producer's wait, which reports ENQUEUED in every case. If the queue is open and
  -- has room the message is appended. If not, also when the queue was closed during the wait, a
  -- timeout is counted, the oldest message is dropped and the new one is appended.
  pub wake_lem :
      (m : QueuedMessage A) (q : SubscriberQueue A)
      → let late = q.closed || leb q.limit (length q.messages) in
        ((wake m q).messages ≡ (if late then drop 1 q.messages ++ m ∷ [] else q.messages ++ m ∷ []))
        × ((wake m q).stats.block_timeouts
            ≡ (if late then inc64 q.stats.block_timeouts else q.stats.block_timeouts))
  unfolding wake
  wake_lem m q = ground arith
