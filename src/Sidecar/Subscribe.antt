-- ===== src/Sidecar/Subscribe.antt =====
-- Subscribe and Unsubscribe (src/services/sidecar_service.cpp).
use nexus_d_pub_sub.Prelude.{
  ℕ, Bool, false, ◌||◌, Text, to_string, codes, List, [], ◌∷◌, ◌++◌, none, some, inc64,
  if◌then◌else◌,
}
use mathlib.Core.List.{take}
use nexus_d_pub_sub.Prelude.Int.{ℤ, pos}
use nexus_d_pub_sub.Prelude.Map.{assign, erase, contains}
use nexus_d_pub_sub.SubscriberQueue.{SubscriberQueue}
use nexus_d_pub_sub.Stream.{
  MessageEvent, subscription_info, retained_message, Stream, make_stream, start_write, enqueue,
  for_subscribe,
}
use nexus_d_pub_sub.PeerRegistry.{RetainedMessage, PeerRegistry}
use nexus_d_pub_sub.PeerRegistry.Subscriptions.{add_local_subscription, remove_local_subscription}
use nexus_d_pub_sub.PeerRegistry.Retained.{get_retained_message}
use nexus_d_pub_sub.Sidecar.{Sidecar, Env}
use nexus_d_pub_sub.Sidecar.Requests.{SubscribeRequest}

-- The id of the subscription that is the counter's next, for a generated UUID.
unfoldable pub generate_subscription_id : Text → ℕ → Text
unfolding to_string
generate_subscription_id uuid counter =
    codes "sub-" ++ (to_string counter ++ (codes "-" ++ take 8 uuid))

unfoldable pub retained_event : RetainedMessage → MessageEvent
retained_event m = retained_message record {
  message_id = m.message_id;
  topic = m.topic;
  payload = m.payload;
  content_type = m.content_type;
  timestamp_ms = m.timestamp_ms;
  source_node_id = m.source_node_id;
  correlation_id = [];
  sequence_number = 0;
}

-- "Send retained messages if requested".
unfoldable pub enqueue_retained :
    ℕ
    → (SubscriberQueue MessageEvent → SubscriberQueue MessageEvent)
    → List Text
    → PeerRegistry
    → SubscriberQueue MessageEvent
    → SubscriberQueue MessageEvent
unfolding get_retained_message retained_event enqueue
enqueue_retained now others [] r q = q
enqueue_retained now others (topic ∷ topics) r q =
    enqueue_retained now others topics r (elim (get_retained_message topic r) [
      | none ↦ q
      | some m ↦ (enqueue now (retained_event m) (pos 0) others q).1
    ])

unfoldable pub make_subscription : Text → SubscribeRequest → Sidecar → Stream
unfolding make_stream
make_subscription id q s =
    make_stream id q.topics s.subscriber_queue_limit s.backpressure_policy s.block_timeout_ms
      s.default_message_ttl_ms

-- The constructor of SubscribeReactor: the info is the first event written.
unfoldable pub subscribe_reactor : Env → ℤ → SubscribeRequest → PeerRegistry → Stream → Stream
unfolding enqueue_retained start_write
subscribe_reactor env timestamp_ms q r stream =
    let id = stream.subscription_id in
    let (now, _) = env.clock id in
    let queue =
      if q.receive_retained
      then enqueue_retained now (env.others id) stream.topics r stream.message_queue
      else stream.message_queue in
    start_write
      (subscription_info record {
        subscription_id = id;
        topics = stream.topics;
        timestamp_ms = timestamp_ms;
        gap_detected = false;
        missed_message_count = pos 0;
        replay_started = false;
      })
      (record stream { message_queue = queue; reactor = some for_subscribe })

-- Subscribe, with the constructor of its reactor, for a UUID, at a time of the steady clock and one
-- of the system clock.
unfoldable pub subscribe : Env → Text → ℕ → ℤ → SubscribeRequest → Sidecar → Sidecar
unfolding generate_subscription_id make_subscription add_local_subscription subscribe_reactor
subscribe env uuid created_at timestamp_ms q s =
    let id = generate_subscription_id uuid s.subscription_counter in
    let (registry, added) =
      add_local_subscription created_at id q.client_id q.topics q.max_buffer_size s.registry in
    record s {
      registry = registry;
      active_streams =
          assign id (subscribe_reactor env timestamp_ms q registry (make_subscription id q s))
            s.active_streams;
      subscription_counter = inc64 s.subscription_counter;
    }

-- Unsubscribe, with the `success` of its response. The stream that leaves the map is made inactive:
-- its reactor is the last to hold it.
unfoldable pub unsubscribe : ℕ → Text → Bool → Sidecar → Sidecar × Bool
unfolding remove_local_subscription
unsubscribe now id pause s =
    let (registry, found) =
      remove_local_subscription now id pause s.paused_subscription_ttl s.registry in
    (
      record s { registry = registry; active_streams = erase id s.active_streams },
      found || contains id s.active_streams,
    )
