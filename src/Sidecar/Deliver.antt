-- ===== src/Sidecar/Deliver.antt =====
-- `deliverFromRemote` and Publish (src/services/sidecar_service.cpp).
use nexus_d_pub_sub.Prelude.{
  ℕ, ◌+◌, Bool, true, ◌&&◌, Text, to_string, codes, List, [], ◌∷◌, ◌++◌, Option, none, some,
  if◌then◌else◌, length, map,
}
use nexus_d_pub_sub.Prelude.Int.{ℤ}
use nexus_d_pub_sub.Prelude.Map.{Map}
use nexus_d_pub_sub.Prelude.Links.{member}
use nexus_d_pub_sub.SubscriberQueue.{EnqueueResult, effective_ttl}
use nexus_d_pub_sub.MessageBuffer.{buffer_message}
use nexus_d_pub_sub.Stream.{
  MessageEvent, message, Stream, enqueue_message, is_enqueued, ReactorKind, for_subscribe,
  for_resume,
}
use nexus_d_pub_sub.PeerRegistry.{PeerInfo, PeerRegistry}
use nexus_d_pub_sub.PeerRegistry.Peers.{get_peer, get_remote_subscribers}
use nexus_d_pub_sub.PeerRegistry.Subscriptions.{
  get_local_subscriptions, update_subscription_sequence,
}
use nexus_d_pub_sub.PeerRegistry.Retained.{set_retained_message}
use nexus_d_pub_sub.Sidecar.{Sidecar, MessageEnvelope, Env}
use nexus_d_pub_sub.Sidecar.Requests.{PublishRequest, PublishResponse}

-- "Build MessageEvent".
unfoldable pub event_of : ℕ → MessageEnvelope → MessageEvent
event_of sequence_number e = message record {
  message_id = e.message_id;
  topic = e.topic;
  payload = e.payload;
  content_type = e.content_type;
  timestamp_ms = e.timestamp_ms;
  source_node_id = e.source_node_id;
  correlation_id = e.correlation_id;
  sequence_number = sequence_number;
}

-- Whether "Find matching streams" takes the stream.
unfoldable pub matches : Text → Stream → Bool
matches topic s = s.active && member topic s.topics

module _ (env : Env) (event : MessageEvent) (ttl : ℤ) (topic : Text) (sequence_number : ℕ) where
  -- `enqueueMessage` for a stream that matches.
  unfoldable pub send : Text → Stream → EnqueueResult × Stream
  unfolding enqueue_message
  send id s =
      let (now, later) = env.clock id in enqueue_message now later event ttl (env.others id) s

  -- The loop body for a stream that matches. The cast to SubscribeReactor is undefined behaviour for
  -- a ResumeSubscribeReactor, which is an unrelated class: there is no result then.
  unfoldable pub deliver_to :
      Option ReactorKind → Text → Stream → PeerRegistry → Option (Stream × PeerRegistry)
  unfolding send update_subscription_sequence is_enqueued
  deliver_to none id s r = some (s, r)
  deliver_to (some for_resume) id s r = none
  deliver_to (some for_subscribe) id s r =
      let (result, s') = send id s in
      some (
        s',
        if is_enqueued result
            then update_subscription_sequence s.subscription_id topic sequence_number r
            else r,
      )

  -- The loop body for one stream, if it matches.
  unfoldable pub deliver_one : Text → Stream → PeerRegistry → Option (Stream × PeerRegistry)
  unfolding deliver_to matches
  deliver_one id s r = if matches topic s then deliver_to s.reactor id s r else some (s, r)

  -- The loop over the matching streams, which are shared with the map.
  unfoldable pub deliver_all : Map Stream → PeerRegistry → Option (Map Stream × PeerRegistry)
  unfolding deliver_one
  deliver_all [] r = some ([], r)
  deliver_all ((id, s) ∷ m) r = elim (deliver_one id s r) [
    | none ↦ none
    | some (s', r') ↦ elim (deliver_all m r') [
      | none ↦ none
      | some (m', r'') ↦ some ((id, s') ∷ m', r'')
    ]
  ]

-- There is no result where `bufferMessage` or a cast has none.
unfoldable pub deliver_from_remote : Env → MessageEnvelope → Sidecar → Option Sidecar
unfolding buffer_message event_of deliver_all effective_ttl
deliver_from_remote env e s = elim (buffer_message env.stamp e.topic e.payload s.message_buffer) [
  | none ↦ none
  | some (seq, buffer) ↦
      let ttl = effective_ttl e.ttl_ms s.default_message_ttl_ms in
      elim (deliver_all env (event_of seq e) ttl e.topic seq s.active_streams s.registry) [
        | none ↦ none
        | some (streams, registry) ↦
            some
              (record s { message_buffer = buffer; active_streams = streams; registry = registry })
      ]
]

-- `PeerInfo::endpoint`
unfoldable pub endpoint : PeerInfo → Text
unfolding to_string
endpoint p = p.rpc_ip ++ (codes ":" ++ to_string p.rpc_port)

-- The endpoints that "Forward to remote subscribers" pushes to.
unfoldable pub push_targets : List Text → PeerRegistry → List Text
unfolding get_peer endpoint
push_targets [] r = []
push_targets (id ∷ ids) r =
    let rest = push_targets ids r in
    elim (get_peer id r) [ none ↦ rest | some p ↦ endpoint p ∷ rest ]

-- "Build envelope".
unfoldable pub envelope_of : Text → ℤ → PublishRequest → PeerRegistry → MessageEnvelope
envelope_of message_id timestamp_ms q r = record {
  message_id = message_id;
  topic = q.topic;
  payload = q.payload;
  content_type = q.content_type;
  timestamp_ms = timestamp_ms;
  source_node_id = r.local_node_id;
  retain = q.retain;
  correlation_id = q.correlation_id;
  ttl_ms = q.ttl_ms;
}

-- "Store retained message if requested".
unfoldable pub retain_published : MessageEnvelope → PeerRegistry → PeerRegistry
unfolding set_retained_message
retain_published e r =
    if e.retain
    then set_retained_message e.topic
        record {
          message_id = e.message_id;
          topic = e.topic;
          payload = e.payload;
          content_type = e.content_type;
          source_node_id = r.local_node_id;
          timestamp_ms = e.timestamp_ms;
          ttl_ms = e.ttl_ms;
        }
        r
    else r

-- The PublishReactor: the response, the pushes to remote nodes, and the service after the local
-- delivery.
unfoldable pub publish :
    Env
    → Text
    → ℤ
    → PublishRequest
    → Sidecar
    → Option (PublishResponse × List (Text × MessageEnvelope) × Sidecar)
unfolding envelope_of retain_published get_remote_subscribers push_targets deliver_from_remote
    get_local_subscriptions
publish env message_id timestamp_ms q s =
    let e = envelope_of message_id timestamp_ms q s.registry in
    let s' = record s { registry = retain_published e s.registry } in
    let targets = push_targets (get_remote_subscribers q.topic s'.registry) s'.registry in
    elim (deliver_from_remote env e s') [
      | none ↦ none
      | some t ↦ some (
        record {
          success = true;
          message_id = message_id;
          subscriber_count = length targets + length (get_local_subscriptions q.topic t.registry);
          error_message = [];
        },
        map (λ target. (target, e)) targets,
        t,
      )
    ]
