-- ===== src/Tests/Queue.antt =====
-- Concrete queues (include/nexusd/core/subscriber_queue.hpp) and streams
-- (src/services/sidecar_service.cpp).
use nexus_d_pub_sub.Prelude.{
  ℕ, ◌≡◌, refl, true, false, codes, List, [], ◌∷◌, ◌++◌, arith, recent, some,
}
use nexus_d_pub_sub.Prelude.Int.{pos}
use nexus_d_pub_sub.SubscriberQueue.{
  drop_oldest, block, no_stats, QueuedMessage, SubscriberQueue, wrap, enter, dequeue, skip_expired,
  take_front, is_empty,
}
use nexus_d_pub_sub.SubscriberQueue.Valid.{IsValid}
use nexus_d_pub_sub.SubscriberQueue.Schedule.{
  Event, enters, wakes, dequeues, reaps, closes, run, start, run-init-IsValid,
}
use nexus_d_pub_sub.SubscriberQueue.Fifo.{Offer, offer_all, entries, offer_all-recent}
use nexus_d_pub_sub.SubscriberQueue.Expiry.{Dequeued, dequeue-Dequeued}
use nexus_d_pub_sub.SubscriberQueue.Results.{Reports, enter-Reports}
use nexus_d_pub_sub.Stream.{
  MessageEvent, replay_complete, replay_buffer, is_replay_buffer, Stream, enqueue, enqueue_message,
  for_subscribe,
}
use nexus_d_pub_sub.Stream.Writer.{stays, goes, enqueues, IsSingle, Steps-IsSingle, lost_writer}
use nexus_d_pub_sub.Stream.ReplayOrder.{rounds, rounds-replay}

abbrev events : List (Event ℕ)
events =
    enters 1 7 (pos 5)
    ∷ enters 2 8 (pos 0)
    ∷ enters 3 9 (pos 0)
    ∷ wakes 0
    ∷ dequeues 4
    ∷ reaps 5
    ∷ closes
    ∷ []

run-init-IsValid_example : IsValid (run (start 2 block (pos 10) (pos 0)) events).queue
run-init-IsValid_example = run-init-IsValid 2 block (pos 10) (pos 0) events

abbrev one : QueuedMessage ℕ
one = record { message = 1; expiry_time = 5; enqueue_time = 0 }

abbrev two : QueuedMessage ℕ
two = record { message = 2; expiry_time = 20; enqueue_time = 1 }

abbrev late : QueuedMessage ℕ
late = record { message = 3; expiry_time = 7; enqueue_time = 2 }

abbrev queue : List (QueuedMessage ℕ) → SubscriberQueue ℕ
queue messages = record {
  limit = 2;
  policy = drop_oldest;
  block_timeout_ms = pos 0;
  default_ttl_ms = pos 0;
  messages = messages;
  closed = false;
  stats = no_stats;
}

abbrev offers : List (Offer ℕ)
offers = record { now = 1; msg = 4; ttl = pos 0 } ∷ record { now = 2; msg = 5; ttl = pos 3 } ∷ []

offer_all-recent_example :
    (offer_all (queue (one ∷ [])) offers).messages ≡ recent 2 ((one ∷ []) ++ entries (pos 0) offers)
offer_all-recent_example =
    offer_all-recent offers (queue (one ∷ [])) refl refl (omega arith) (omega arith)

dequeue-Dequeued_example :
    Dequeued 10 (queue (one ∷ two ∷ [])) (dequeue 10 (queue (one ∷ two ∷ [])))
dequeue-Dequeued_example = dequeue-Dequeued 10 (queue (one ∷ two ∷ []))

enter-Reports_example :
    Reports
      (wrap 1 7 (pos 0) (queue (one ∷ two ∷ [])))
      (queue (one ∷ two ∷ []))
      (enter 1 7 (pos 0) (queue (one ∷ two ∷ [])))
enter-Reports_example = enter-Reports 1 7 (pos 0) (queue (one ∷ two ∷ []))

abbrev event : MessageEvent
event = replay_complete (codes "sub") (pos 0)

abbrev expired : QueuedMessage MessageEvent
expired = record { message = event; expiry_time = 5; enqueue_time = 0 }

-- A stream with nothing written but for the writes in flight.
abbrev stream : ℕ → List (QueuedMessage MessageEvent) → List MessageEvent → Stream
stream in_flight messages pending = record {
  subscription_id = codes "sub";
  topics = codes "t" ∷ [];
  active = true;
  reactor = some for_subscribe;
  message_queue = record {
    limit = 2;
    policy = drop_oldest;
    block_timeout_ms = pos 0;
    default_ttl_ms = pos 0;
    messages = messages;
    closed = false;
    stats = no_stats;
  };
  writing = false;
  gap_recovery_mode = replay_buffer;
  pending_replay = pending;
  replay_complete_sent = false;
  started = [];
  in_flight = in_flight;
  finished = false;
}

Steps-IsSingle_example : IsSingle (enqueue_message 1 2 event (pos 0) (λ q. q) (stream 0 [] [])).1
Steps-IsSingle_example =
    Steps-IsSingle {s = stream 0 [] []} (omega arith)
      (goes stays (enqueues 1 2 event (pos 0) (λ q. q)))

-- The message is queued at 0 for a millisecond and taken out two milliseconds later.
lost_writer_example :
    let s : Stream = (enqueue_message 0 2000000 event (pos 1) (λ q. q) (stream 0 [] [])).1 in
    (s.writing ≡ true) × (s.in_flight ≡ 0) × (s.started ≡ [])
unfolding is_empty dequeue skip_expired take_front enqueue
lost_writer_example =
    lost_writer 0 2000000 event (pos 1) (λ q. q) (stream 0 [] []) refl refl refl refl refl refl
      stays

rounds-replay_example :
    (rounds ((1, pos 1) ∷ (2, pos 2) ∷ []) (stream 1 [] (event ∷ []))).started
    ≡ event ∷ replay_complete (codes "sub") (pos 2) ∷ []
unfolding is_replay_buffer
rounds-replay_example =
    rounds-replay (event ∷ []) ((1, pos 1) ∷ []) 2 (pos 2) (stream 1 [] (event ∷ [])) refl refl refl
      refl refl
