-- ===== src/Stream/ReplayOrder.antt =====
-- The order in which a ResumeSubscribeReactor (src/services/sidecar_service.cpp) writes.
use nexus_d_pub_sub.Prelude.{
  ℕ, suc, true, false, ◌≡◌, refl, ap, ◌∙◌, List, [], ◌∷◌, ◌++◌, arith, leb, length,
}
use mathlib.Core.List.{append_assoc}
use nexus_d_pub_sub.Prelude.Int.{ℤ}
use nexus_d_pub_sub.SubscriberQueue.{
  enqueued, SubscriberQueue, QueuedMessage, effective_ttl, expiry, wrap, is_full, enter, push_back,
  skip_expired, take_front, dequeue, is_empty,
}
use nexus_d_pub_sub.Stream.{
  MessageEvent, replay_complete, is_replay_buffer, Stream, start_write, write_dequeued, resume_next,
  resume_write_done, enqueue, kick, is_enqueued, enqueue_message,
}

-- Writes completed at these times, each before the next is started.
unfoldable pub rounds : List (ℕ × ℤ) → Stream → Stream
unfolding resume_write_done
rounds [] s = s
rounds ((now, timestamp_ms) ∷ ts) s = rounds ts (resume_write_done now timestamp_ms true s)

-- A reactor that has still to write the replay `es` and then to say that it is complete.
record Replays (es : List MessageEvent) (s : Stream) : Type 0 where
  active : s.active ≡ true
  mode : is_replay_buffer s.gap_recovery_mode ≡ true
  unsent : s.replay_complete_sent ≡ false
  pending : s.pending_replay ≡ es

next_started :
    (now : ℕ) (stamp : ℤ) (e : MessageEvent) (es : List MessageEvent) (s : Stream)
    → Replays (e ∷ es) s
    → (resume_write_done now stamp true s).started ≡ s.started ++ e ∷ []
unfolding resume_write_done resume_next start_write
next_started now stamp e es s v = rw (v.active, v.pending) refl

next-Replays :
    (now : ℕ) (stamp : ℤ) (e : MessageEvent) (es : List MessageEvent) (s : Stream)
    → Replays (e ∷ es) s
    → Replays es (resume_write_done now stamp true s)
      × ((resume_write_done now stamp true s).subscription_id ≡ s.subscription_id)
unfolding resume_write_done resume_next start_write
next-Replays now stamp e es s v =
    rw (v.active, v.pending)
      (record { active = refl; mode = v.mode; unsent = v.unsent; pending = refl }, refl)

last_started :
    (now : ℕ) (stamp : ℤ) (s : Stream)
    → Replays [] s
    → (resume_write_done now stamp true s).started
      ≡ s.started ++ replay_complete s.subscription_id stamp ∷ []
unfolding resume_write_done resume_next start_write
last_started now stamp s v = rw (v.active, v.pending, v.unsent, v.mode) refl

-- A reactor with the replay `es` to write, of which each write completes before the next, writes
-- `es` in its order and then that the replay is complete.
pub rounds-replay :
    (es : List MessageEvent) (ts : List (ℕ × ℤ)) (now : ℕ) (stamp : ℤ) (s : Stream)
    → length ts ≡ length es
    → s.active ≡ true
    → is_replay_buffer s.gap_recovery_mode ≡ true
    → s.replay_complete_sent ≡ false
    → s.pending_replay ≡ es
    → (rounds (ts ++ (now, stamp) ∷ []) s).started
      ≡ s.started ++ (es ++ replay_complete s.subscription_id stamp ∷ [])
unfolding rounds
rounds-replay [] [] now stamp s l a m u p =
    last_started now stamp s (record { active = a; mode = m; unsent = u; pending = p })
rounds-replay [] (t ∷ ts) now stamp s l a m u p = ground (arith, l)
rounds-replay (e ∷ es) [] now stamp s l a m u p = ground (arith, l)
rounds-replay (e ∷ es) ((n, stamp₀) ∷ ts) now stamp s l a m u p =
    let v : Replays (e ∷ es) s = record { active = a; mode = m; unsent = u; pending = p } in
    let s' : Stream = resume_write_done n stamp₀ true s in
    let (w, same_id) = next-Replays n stamp₀ e es s v in
    rounds-replay es ts now stamp s' (omega (arith, l)) w.active w.mode w.unsent w.pending
    ∙ rw (next_started n stamp₀ e es s v, same_id)
        (append_assoc s.started (e ∷ []) (es ++ replay_complete s.subscription_id stamp ∷ []))

kick_one :
    (now : ℕ) (m : QueuedMessage MessageEvent) (s : Stream)
    → s.writing ≡ false
    → s.message_queue.messages ≡ m ∷ []
    → leb m.expiry_time now ≡ false
    → ((kick now s).started ≡ s.started ++ m.message ∷ [])
      × ((kick now s).in_flight ≡ suc s.in_flight)
unfolding kick is_empty dequeue skip_expired take_front write_dequeued start_write
kick_one now m s w e live = rw (e, w, live) (refl, refl)

empty_has_room : (q : SubscriberQueue MessageEvent) → q.messages ≡ [] → is_full q ≡ false
unfolding is_full
empty_has_room q e = rw e (ground arith)

enqueue_empty :
    (now : ℕ) (event : MessageEvent) (ttl : ℤ)
    (others : SubscriberQueue MessageEvent → SubscriberQueue MessageEvent)
    (q : SubscriberQueue MessageEvent)
    → q.closed ≡ false
    → q.messages ≡ []
    → enqueue now event ttl others q ≡ (enqueued, push_back (wrap now event ttl q) q)
unfolding enqueue enter
enqueue_empty now event ttl others q c e = ground (arith, empty_has_room q e)

enqueue_message_empty :
    (now later : ℕ) (event : MessageEvent) (ttl : ℤ)
    (others : SubscriberQueue MessageEvent → SubscriberQueue MessageEvent) (s : Stream)
    → s.active ≡ true
    → s.message_queue.closed ≡ false
    → s.message_queue.messages ≡ []
    → (enqueue_message now later event ttl others s).1
      ≡ kick later (record s {
        message_queue = push_back (wrap now event ttl s.message_queue) s.message_queue;
      })
unfolding enqueue_message is_enqueued
enqueue_message_empty now later event ttl others s a c e =
    let f = enqueue_empty now event ttl others s.message_queue c e in ground (arith, f)

-- On an active stream whose flag `writing` is clear and whose queue is empty and open, a message
-- that does not expire at once is given to `StartWrite` at once, however many writes are in flight and
-- whatever replay is still pending.
pub first_message_starts :
    (now later : ℕ) (event : MessageEvent) (ttl : ℤ)
    (others : SubscriberQueue MessageEvent → SubscriberQueue MessageEvent) (s : Stream)
    → s.active ≡ true
    → s.writing ≡ false
    → s.message_queue.closed ≡ false
    → s.message_queue.messages ≡ []
    → leb (expiry now (effective_ttl ttl s.message_queue.default_ttl_ms)) later ≡ false
    → let t = (enqueue_message now later event ttl others s).1 in
      (t.started ≡ s.started ++ event ∷ []) × (t.in_flight ≡ suc s.in_flight)
first_message_starts now later event ttl others s a w c e live =
    let m : QueuedMessage MessageEvent = wrap now event ttl s.message_queue in
    let one : (push_back m s.message_queue).messages ≡ m ∷ [] =
      unfold push_back in ap (λ ms. ms ++ m ∷ []) e in
    rw (enqueue_message_empty now later event ttl others s a c e) (
      unfold wrap in
      kick_one later m (record s { message_queue = push_back m s.message_queue }) w one live)
