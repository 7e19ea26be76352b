-- ===== src/Stream/Writer.antt =====
-- The writer of a stream (src/services/sidecar_service.cpp): `enqueueMessage` starts it and
-- `OnWriteDone` keeps it going, with the flag `writing` between them. gRPC allows one write in flight
-- at a time.
use nexus_d_pub_sub.Prelude.{ℕ, suc, ◌≤◌, Bool, true, false, ◌≡◌, List, none, arith, subst}
use nexus_d_pub_sub.Prelude.Int.{ℤ}
use nexus_d_pub_sub.SubscriberQueue.{SubscriberQueue, dequeue, is_empty, reap_expired, enqueued}
use nexus_d_pub_sub.Stream.{
  MessageEvent, Stream, start_write, write_dequeued, write_next, subscribe_write_done, on_cancel,
  enqueue, kick, enqueue_message, is_enqueued,
}

-- What happens to the stream of a SubscribeReactor. `OnWriteDone` comes for a write in flight.
pub data Step (s : Stream) : Stream → Type 0 where
  enqueues :
      (now later : ℕ) (event : MessageEvent) (ttl : ℤ)
      (others : SubscriberQueue MessageEvent → SubscriberQueue MessageEvent)
      → Step s (enqueue_message now later event ttl others s).1
  completes : (now n : ℕ) (ok : Bool) → s.in_flight ≡ suc n → Step s (subscribe_write_done now ok s)
  cancels : Step s (on_cancel s)
  reaps : (now : ℕ) → Step s (record s { message_queue = (reap_expired now s.message_queue).0 })

pub data Steps (s : Stream) : Stream → Type 0 where
  stays : Steps s s
  goes : {t u : Stream} → Steps s t → Step t u → Steps s u

-- The writes in flight that the flag allows.
abbrev pub allowed : Bool → ℕ
allowed false = 0
allowed true = 1

-- No more writes are in flight than the flag says.
abbrev pub IsSingle : Stream → Type 0
IsSingle s = s.in_flight ≤ allowed s.writing

kick-IsSingle : (now : ℕ) (s : Stream) → IsSingle s → IsSingle (kick now s)
unfolding kick write_dequeued start_write
kick-IsSingle now s v = ground arith

enqueue_message-IsSingle :
    (now later : ℕ) (event : MessageEvent) (ttl : ℤ)
    (others : SubscriberQueue MessageEvent → SubscriberQueue MessageEvent) (s : Stream)
    → IsSingle s
    → IsSingle (enqueue_message now later event ttl others s).1
unfolding enqueue_message
enqueue_message-IsSingle now later event ttl others s v =
    let s' : Stream = record s {
      message_queue = (enqueue now event ttl others s.message_queue).1;
    } in
    ground (arith, kick-IsSingle later s' v)

write_done-IsSingle :
    (now n : ℕ) (ok : Bool) (s : Stream)
    → s.in_flight ≡ suc n
    → IsSingle s
    → IsSingle (subscribe_write_done now ok s)
unfolding subscribe_write_done write_next write_dequeued start_write
write_done-IsSingle now n ok s e v = ground arith

Step-IsSingle : {s t : Stream} → IsSingle s → Step s t → IsSingle t
unfolding on_cancel
Step-IsSingle {s} v (enqueues now later event ttl others) =
    enqueue_message-IsSingle now later event ttl others s v
Step-IsSingle {s} v (completes now n ok e) = write_done-IsSingle now n ok s e v
Step-IsSingle v cancels = v
Step-IsSingle v (reaps now) = v

-- From a stream with no more writes in flight than its flag says, no sequence of messages, completed
-- writes, reaping and cancellation leads to two writes in flight.
pub Steps-IsSingle : {s t : Stream} → IsSingle s → Steps s t → IsSingle t
Steps-IsSingle v stays = v
Steps-IsSingle v (goes w x) = Step-IsSingle (Steps-IsSingle v w) x

-- The writer is lost: the flag is set, no write is in flight. The stream has sent these events.
abbrev Stays : List MessageEvent → Stream → Type 0
Stays es t = (t.writing ≡ true) × (t.in_flight ≡ 0) × (t.started ≡ es)

Step-Stays : {t u : Stream} (es : List MessageEvent) → Stays es t → Step t u → Stays es u
unfolding on_cancel enqueue_message kick
Step-Stays {t} es v (enqueues now later event ttl others) = ground arith
Step-Stays {t} es v (completes now n ok e) = ground arith
Step-Stays es v cancels = v
Step-Stays es v (reaps now) = v

Steps-Stays : {t u : Stream} (es : List MessageEvent) → Stays es t → Steps t u → Stays es u
Steps-Stays es v stays = v
Steps-Stays es v (goes w x) = Step-Stays es (Steps-Stays es v w) x

lost_now :
    (now : ℕ) (s : Stream)
    → s.writing ≡ false
    → s.in_flight ≡ 0
    → is_empty s.message_queue ≡ false
    → (dequeue now s.message_queue).1 ≡ none
    → Stays s.started (kick now s)
unfolding kick write_dequeued start_write
lost_now now s e f g h = ground arith

enqueue_message_kicks :
    (now later : ℕ) (event : MessageEvent) (ttl : ℤ)
    (others : SubscriberQueue MessageEvent → SubscriberQueue MessageEvent) (s : Stream)
    → s.active ≡ true
    → (enqueue now event ttl others s.message_queue).0 ≡ enqueued
    → (enqueue_message now later event ttl others s).1
      ≡ kick later (record s { message_queue = (enqueue now event ttl others s.message_queue).1 })
unfolding enqueue_message is_enqueued
enqueue_message_kicks now later event ttl others s a r = ground (arith, a, r)

-- Let `enqueueMessage` queue a message on an active stream of a SubscribeReactor with no write in
-- flight and the flag `writing` clear, where every message of the queue, the new one included, has
-- expired by the time it takes one to write. After that call and whatever happens to the stream
-- later, the flag is set, no write is in flight, and no event was given to gRPC since.
pub lost_writer :
    {t : Stream} (now later : ℕ) (event : MessageEvent) (ttl : ℤ)
    (others : SubscriberQueue MessageEvent → SubscriberQueue MessageEvent) (s : Stream)
    → s.active ≡ true
    → s.writing ≡ false
    → s.in_flight ≡ 0
    → (enqueue now event ttl others s.message_queue).0 ≡ enqueued
    → is_empty (enqueue now event ttl others s.message_queue).1 ≡ false
    → (dequeue later (enqueue now event ttl others s.message_queue).1).1 ≡ none
    → Steps (enqueue_message now later event ttl others s).1 t
    → (t.writing ≡ true) × (t.in_flight ≡ 0) × (t.started ≡ s.started)
lost_writer {t} now later event ttl others s a e f r g h w =
    let queued : Stream = record s {
      message_queue = (enqueue now event ttl others s.message_queue).1;
    } in
    Steps-Stays s.started (lost_now later queued e f g h)
      (subst (λ x. Steps x t) (enqueue_message_kicks now later event ttl others s a r) w)
