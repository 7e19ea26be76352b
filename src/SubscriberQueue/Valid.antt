-- ===== src/SubscriberQueue/Valid.antt =====
-- The bounds and the statistics of a subscriber's queue (subscriber_queue.hpp), under every
-- interleaving of its producers, its consumer, the reaper and `close`.
use nexus_d_pub_sub.Prelude.{
  ℕ, ◌+◌, ◌-◌, ◌%◌, ◌≤◌, ◌<◌, ◌≡◌, refl, inl, inr, true, false, List, [], ◌∷◌, Bool-cases, arith,
  length, length-append, ltb, inc64, u64_mod, ◌⊎◌, ltb→lt,
}
use nexus_d_pub_sub.Prelude.Int.{ℤ}
use nexus_d_pub_sub.SubscriberQueue.{
  BackpressurePolicy, drop_oldest, drop_newest, block, QueuedMessage, SubscriberQueue, Entered,
  returned, waiting, init, wrap, is_full, drop_front, push_back, enter_full, enter, wake,
  skip_expired, take_front, dequeue, reap_expired, dropped_disconnected, enqueued,
}

module _ {ℓ} {A : Type ℓ} where
  -- A message that was enqueued was delivered, was dropped as the oldest, has expired or is there
  -- still. (The counters are `uint64_t`, so the balance is modulo 2^64.)
  abbrev pub Balanced : SubscriberQueue A → ℕ → Type 0
  Balanced q depth =
      let s = q.stats in
      s.total_enqueued % u64_mod
      ≡ (s.total_delivered + s.dropped_oldest + s.dropped_ttl + depth) % u64_mod

  pub record IsValid (q : SubscriberQueue A) : Type 0 where
    pub bounded : 0 < q.limit → length q.messages ≤ q.limit
    pub watermark : length q.messages ≤ q.stats.high_watermark
    pub marked : 0 < q.limit → q.stats.high_watermark ≤ q.limit
    pub balanced : Balanced q (length q.messages)

  pub init-IsValid :
      (limit : ℕ) (policy : BackpressurePolicy) (block_timeout default_ttl : ℤ)
      → IsValid (init limit policy block_timeout default_ttl)
  unfolding init
  init-IsValid limit policy block_timeout default_ttl = omega arith

  pub push_back-IsValid :
      (m : QueuedMessage A) (q : SubscriberQueue A)
      → IsValid q
      → (0 < q.limit → length q.messages < q.limit)
      → IsValid (push_back m q)
  unfolding push_back
  push_back-IsValid m q v room = ground (arith, length-append q.messages (m ∷ []))

  drop_front-IsValid :
      (ms : List (QueuedMessage A)) (q : SubscriberQueue A)
      → q.messages ≡ ms
      → IsValid q
      → IsValid (drop_front ms q)
  unfolding drop_front
  drop_front-IsValid [] q e v = v
  drop_front-IsValid (m ∷ rest) q e v =
      ground (arith, e, v.bounded, v.watermark, v.marked, v.balanced)

  pub length-drop_front :
      (ms : List (QueuedMessage A)) (q : SubscriberQueue A)
      → q.messages ≡ ms
      → (length (drop_front ms q).messages ≡ length q.messages - 1)
        × ((drop_front ms q).limit ≡ q.limit)
  unfolding drop_front
  length-drop_front [] q e = ground arith
  length-drop_front (m ∷ rest) q e = ground arith

  -- The queue that a step of `enqueue` leaves; while it waits the queue is as it was.
  abbrev pub after : SubscriberQueue A → Entered A → SubscriberQueue A
  after q (returned r q') = q'
  after q (waiting m) = q

  drop_push-IsValid :
      (m : QueuedMessage A) (q : SubscriberQueue A)
      → IsValid q
      → IsValid (push_back m (drop_front q.messages q))
  drop_push-IsValid m q v =
      let (shorter, same) = length-drop_front q.messages q refl in
      push_back-IsValid m (drop_front q.messages q) (drop_front-IsValid q.messages q refl v)
        (λ p. omega (arith, shorter, same, v.bounded (omega (arith, same))))

  enter_full-IsValid :
      (m : QueuedMessage A) (q : SubscriberQueue A) (policy : BackpressurePolicy)
      → IsValid q
      → IsValid (after q (enter_full m q policy))
  unfolding enter_full
  enter_full-IsValid m q drop_oldest v = drop_push-IsValid m q v
  enter_full-IsValid m q drop_newest v = record {
    bounded = v.bounded;
    watermark = v.watermark;
    marked = v.marked;
    balanced = v.balanced;
  }
  enter_full-IsValid m q block v = v

  not_full : (q : SubscriberQueue A) → is_full q ≡ false → 0 < q.limit → length q.messages < q.limit
  unfolding is_full
  not_full q h p = ground arith

  module _ (now : ℕ) (msg : A) (ttl : ℤ) (q : SubscriberQueue A) where
    pub enter_closed : q.closed ≡ true → enter now msg ttl q ≡ returned dropped_disconnected q
    unfolding enter
    enter_closed e = ground arith

    pub enter_at_limit :
        q.closed ≡ false
        → is_full q ≡ true
        → enter now msg ttl q ≡ enter_full (wrap now msg ttl q) q q.policy
    unfolding enter
    enter_at_limit e full = ground arith

    pub enter_with_room :
        q.closed ≡ false
        → is_full q ≡ false
        → enter now msg ttl q ≡ returned enqueued (push_back (wrap now msg ttl q) q)
    unfolding enter
    enter_with_room e room = ground arith

    pub enter-IsValid : IsValid q → IsValid (after q (enter now msg ttl q))
    enter-IsValid v = elim (Bool-cases q.closed) [
      | inl e ↦ rw (enter_closed e) v
      | inr e ↦ elim (Bool-cases (is_full q)) [
        | inl full ↦
            rw (enter_at_limit e full) (enter_full-IsValid (wrap now msg ttl q) q q.policy v)
        | inr room ↦
            rw (enter_with_room e room)
              (push_back-IsValid (wrap now msg ttl q) q v (not_full q room))
      ]
    ]

  -- `wake` drops the oldest message unless the queue is open and has room.
  abbrev pub late : SubscriberQueue A → SubscriberQueue A
  late q =
      let s = q.stats in record q { stats = record s { block_timeouts = inc64 s.block_timeouts } }

  wake_cases :
      (m : QueuedMessage A) (q : SubscriberQueue A)
      → (wake m q ≡ push_back m (drop_front q.messages (late q)))
        ⊎ ((q.closed ≡ false) × (length q.messages < q.limit) × (wake m q ≡ push_back m q))
  unfolding wake
  wake_cases m q = elim (Bool-cases q.closed) [
    | inl e ↦ inl (rw (e, wake))
    | inr e ↦ elim (Bool-cases (ltb (length q.messages) q.limit)) [
      | inl room ↦ inr (e, ltb→lt _ _ room, rw (e, room, wake))
      | inr full ↦ inl (rw (e, full, wake))
    ]
  ]

  late-IsValid : (q : SubscriberQueue A) → IsValid q → IsValid (late q)
  late-IsValid q v = record {
    bounded = v.bounded;
    watermark = v.watermark;
    marked = v.marked;
    balanced = v.balanced;
  }

  pub wake-IsValid : (m : QueuedMessage A) (q : SubscriberQueue A) → IsValid q → IsValid (wake m q)
  wake-IsValid m q v = elim (wake_cases m q) [
    | inl e ↦ rw e (drop_push-IsValid m (late q) (late-IsValid q v))
    | inr (e, room, f) ↦ rw f (push_back-IsValid m q v (λ p. room))
  ]

  -- What the loop over expired messages removes, it counts.
  skip_expired_counts :
      (now : ℕ) (ms : List (QueuedMessage A)) (expired dropped : ℕ)
      → let r = skip_expired now ms expired dropped in
        (length r.0 ≤ length ms)
        × ((r.2 + length r.0) % u64_mod ≡ (dropped + length ms) % u64_mod)
        × ((r.1 + length r.0) % u64_mod ≡ (expired + length ms) % u64_mod)
  unfolding skip_expired
  skip_expired_counts now [] expired dropped = (omega arith, refl, refl)
  skip_expired_counts now (m ∷ ms) expired dropped =
      ground (arith, skip_expired_counts now ms (inc64 expired) (inc64 dropped))

  take_front-IsValid :
      (live : List (QueuedMessage A)) (q : SubscriberQueue A)
      → (0 < q.limit → length live ≤ q.limit)
      → length live ≤ q.stats.high_watermark
      → (0 < q.limit → q.stats.high_watermark ≤ q.limit)
      → Balanced q (length live)
      → IsValid (take_front live q).0
  unfolding take_front
  take_front-IsValid [] q b w k s = record { bounded = b; watermark = w; marked = k; balanced = s }
  take_front-IsValid (m ∷ rest) q b w k s = record {
    bounded = λ p. omega (arith, b p);
    watermark = omega arith;
    marked = k;
    balanced = omega arith;
  }

  pub dequeue-IsValid : (now : ℕ) (q : SubscriberQueue A) → IsValid q → IsValid (dequeue now q).0
  unfolding dequeue
  dequeue-IsValid now q v =
      let (fewer, counted, _) = skip_expired_counts now q.messages 0 q.stats.dropped_ttl in
      take_front-IsValid (skip_expired now q.messages 0 q.stats.dropped_ttl).0 _
        (λ p. omega (arith, fewer, v.bounded p)) (omega (arith, fewer, v.watermark)) v.marked
        (omega (arith, counted, v.balanced))

  pub reap_expired-IsValid :
      (now : ℕ) (q : SubscriberQueue A) → IsValid q → IsValid (reap_expired now q).0
  unfolding reap_expired
  reap_expired-IsValid now q v =
      let (fewer, counted, _) = skip_expired_counts now q.messages 0 q.stats.dropped_ttl in
      record {
        bounded = λ p. omega (arith, fewer, v.bounded p);
        watermark = omega (arith, fewer, v.watermark);
        marked = v.marked;
        balanced = omega (arith, counted, v.balanced);
      }
