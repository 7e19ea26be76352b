-- ===== src/SubscriberQueue/Expiry.antt =====
-- TTL in `dequeue` and `reapExpired` (subscriber_queue.hpp).
use nexus_d_pub_sub.Prelude.{
  ℕ, ◌+◌, ◌%◌, ◌≤◌, ◌<◌, ◌≡◌, refl, sym, ap, ◌∙◌, ◌⊎◌, inl, inr, Bool-cases, List, [], ◌∷◌, ◌++◌,
  Option, none, some, arith, length, All, leb, leb→le, inc64, u64_mod, subst,
}
use mathlib.Core.List.{append-nil}
use nexus_d_pub_sub.SubscriberQueue.{
  QueuedMessage, SubscriberQueue, skip_expired, take_front, dequeue, reap_expired,
}

module _ {ℓ} {A : Type ℓ} where
  abbrev pub Expired : ℕ → QueuedMessage A → Type 0
  Expired now m = m.expiry_time ≤ now

  -- `live` is what is left of `ms` when the expired messages at its front are gone; they are `dead`.
  pub record Front (now : ℕ) (ms dead live : List (QueuedMessage A)) : Type ℓ where
    pub split : ms ≡ dead ++ live
    pub expired : All (Expired now) dead
    pub stops :
        (live ≡ [])
        ⊎ ((m : QueuedMessage A) × (rest : List (QueuedMessage A)) × (live ≡ m ∷ rest)
            × (now < m.expiry_time))

  skip_expired-Front :
      (now : ℕ) (ms : List (QueuedMessage A)) (expired dropped : ℕ)
      → (dead : List (QueuedMessage A)) × Front now ms dead (skip_expired now ms expired dropped).0
        × ((skip_expired now ms expired dropped).1 % u64_mod ≡ (expired + length dead) % u64_mod)
  unfolding skip_expired
  skip_expired-Front now [] expired dropped =
      ([], record { split = refl; expired = tt; stops = inl refl }, ground arith)
  skip_expired-Front now (m ∷ ms) expired dropped = elim (Bool-cases (leb m.expiry_time now)) [
    | inl gone ↦
        let (dead, front, count) = skip_expired-Front now ms (inc64 expired) (inc64 dropped) in
        rw gone (
          m ∷ dead,
          record {
            split = ap (◌∷◌ m) front.split;
            expired = (leb→le _ _ gone, front.expired);
            stops = front.stops;
          },
          omega (arith, count),
        )
    | inr fresh ↦ rw fresh (
      [],
      record { split = refl; expired = tt; stops = inr (m, ms, refl, ground arith) },
      ground arith,
    )
  ]

  -- What `dequeue` did: it dropped the expired messages at the front and delivered the first that
  -- is not, or found none.
  pub data Dequeued (now : ℕ) (q : SubscriberQueue A) : SubscriberQueue A × Option A → Type ℓ where
    delivered :
        (dead rest : List (QueuedMessage A)) (m : QueuedMessage A) (q' : SubscriberQueue A)
        → q.messages ≡ dead ++ m ∷ rest
        → All (Expired now) dead
        → now < m.expiry_time
        → q'.messages ≡ rest
        → Dequeued now q (q', some m.message)
    drained :
        (q' : SubscriberQueue A)
        → All (Expired now) q.messages
        → q'.messages ≡ []
        → Dequeued now q (q', none)

  take_front-none :
      (live : List (QueuedMessage A)) (q : SubscriberQueue A)
      → live ≡ []
      → (q' : SubscriberQueue A) × (take_front live q ≡ (q', none)) × (q'.messages ≡ [])
  unfolding take_front
  take_front-none [] q e = (record q { messages = [] }, refl, refl)
  take_front-none (m ∷ rest) q e = cc

  take_front-some :
      (live : List (QueuedMessage A)) (q : SubscriberQueue A) (m : QueuedMessage A)
      (rest : List (QueuedMessage A))
      → live ≡ m ∷ rest
      → (q' : SubscriberQueue A) × (take_front live q ≡ (q', some m.message)) × (q'.messages ≡ rest)
  unfolding take_front
  take_front-some live q m rest e = rw e (_, refl, refl)

  -- A delivered message has not expired; only expired messages are skipped, and order is kept.
  pub dequeue-Dequeued : (now : ℕ) (q : SubscriberQueue A) → Dequeued now q (dequeue now q)
  unfolding dequeue
  dequeue-Dequeued now q =
      let s = q.stats in
      let (dead, front, _) = skip_expired-Front now q.messages 0 s.dropped_ttl in
      let live = (skip_expired now q.messages 0 s.dropped_ttl).0 in
      let r = record q {
        stats = record s { dropped_ttl = (skip_expired now q.messages 0 s.dropped_ttl).2 };
      } in
      elim front.stops [
        | inl e ↦
            let (q', done, empty) = take_front-none live r e in
            let gone = front.split ∙ ap (λ l. dead ++ l) e ∙ append-nil dead in
            rw done (drained q' (subst (All (Expired now)) (sym gone) front.expired) empty)
        | inr (m, rest, e, fresh) ↦
            let (q', done, left) = take_front-some live r m rest e in
            rw done (
              delivered dead rest m q' (front.split ∙ ap (λ l. dead ++ l) e) front.expired fresh
                left)
      ]

  -- `reapExpired` removes the expired messages at the front, and returns how many (as a `size_t`).
  -- It stops at the first message that has not expired, whatever follows it.
  pub reap_expired-Front :
      (now : ℕ) (q : SubscriberQueue A)
      → (dead : List (QueuedMessage A)) × Front now q.messages dead (reap_expired now q).0.messages
        × ((reap_expired now q).1 % u64_mod ≡ length dead % u64_mod)
  unfolding reap_expired
  reap_expired-Front now q =
      let (dead, front, count) = skip_expired-Front now q.messages 0 q.stats.dropped_ttl in
      (dead, front, omega (arith, count))

  -- The expiry times do not fall along the queue.
  abbrev pub InOrder : ℕ → List (QueuedMessage A) → Type 0
  InOrder t [] = Unit
  InOrder t (m ∷ ms) = (t ≤ m.expiry_time) × InOrder m.expiry_time ms

  InOrder-fresh :
      (now t : ℕ) (ms : List (QueuedMessage A))
      → now < t
      → InOrder t ms
      → All (λ m. now < m.expiry_time) ms
  InOrder-fresh now t [] h o = tt
  InOrder-fresh now t (m ∷ ms) h o =
      (omega arith, InOrder-fresh now m.expiry_time ms (omega arith) o.1)

  skip_expired-fresh :
      (now t : ℕ) (ms : List (QueuedMessage A)) (expired dropped : ℕ)
      → InOrder t ms
      → All (λ m. now < m.expiry_time) (skip_expired now ms expired dropped).0
  unfolding skip_expired
  skip_expired-fresh now t [] expired dropped o = tt
  skip_expired-fresh now t (m ∷ ms) expired dropped o = elim (Bool-cases (leb m.expiry_time now)) [
    | inl gone ↦
        rw gone (skip_expired-fresh now m.expiry_time ms (inc64 expired) (inc64 dropped) o.1)
    | inr fresh ↦
        let alive : now < m.expiry_time = ground arith in
        rw fresh (alive, InOrder-fresh now m.expiry_time ms alive o.1)
  ]

  -- Where expiry times do not fall along the queue, as with one TTL for all and a steady clock,
  -- no expired message is left after `reapExpired`.
  pub reap_expired_complete :
      (now : ℕ) (q : SubscriberQueue A)
      → InOrder 0 q.messages
      → All (λ m. now < m.expiry_time) (reap_expired now q).0.messages
  unfolding reap_expired
  reap_expired_complete now q o = skip_expired-fresh now 0 q.messages 0 q.stats.dropped_ttl o

  -- Where a message that has not expired stands at the front, `reapExpired` removes nothing, also
  -- when messages behind it have expired.
  pub reap_expired_blocked :
      (now : ℕ) (q : SubscriberQueue A) (m late : QueuedMessage A)
      (between rest : List (QueuedMessage A))
      → q.messages ≡ m ∷ between ++ late ∷ rest
      → now < m.expiry_time
      → Expired now late
      → ((reap_expired now q).0.messages ≡ q.messages) × ((reap_expired now q).1 ≡ 0)
  unfolding reap_expired skip_expired
  reap_expired_blocked now q m late between rest e fresh gone = ground (arith, e)
