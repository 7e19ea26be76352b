-- ===== src/Client/Delivery.antt =====
-- From `publish` of one client to the callback of another (clients/cpp/src/client.cpp), through the
-- service of their node (src/services/sidecar_service.cpp).
use nexus_d_pub_sub.PeerRegistry.Peers.{get_remote_subscribers}
use nexus_d_pub_sub.PeerRegistry.Subscriptions.{get_local_subscriptions}
use nexus_d_pub_sub.Prelude.{
  ℕ, ◌+◌, ◌<◌, ◌≡◌, refl, ap, ◌∙◌, true, false, Text, List, [], ◌∷◌, ◌++◌, some, arith, length, leb,
  u64_mod, map, All, suc,
}
use nexus_d_pub_sub.Prelude.Int.{ℤ}
use nexus_d_pub_sub.Prelude.Map.{find}
use nexus_d_pub_sub.Prelude.Links.{member}
use nexus_d_pub_sub.MessageBuffer.{topic_buffer}
use nexus_d_pub_sub.MessageBuffer.Valid.{IsValid}
use nexus_d_pub_sub.SubscriberQueue.{expiry, effective_ttl}
use nexus_d_pub_sub.Stream.{
  MessageEvent, message, retained_message, Stream, subscription_info, replay_message,
  replay_complete, for_subscribe,
}
use nexus_d_pub_sub.Stream.ReplayOrder.{first_message_starts}
use nexus_d_pub_sub.Sidecar.{Sidecar, MessageEnvelope, Env}
use nexus_d_pub_sub.Sidecar.Requests.{PublishRequest, PublishResponse}
use nexus_d_pub_sub.Sidecar.Deliver.{
  event_of, matches, send, envelope_of, retain_published, deliver_from_remote, push_targets,
}
use nexus_d_pub_sub.Sidecar.Deliver
use nexus_d_pub_sub.Sidecar.Delivery.{sent, deliver_from_remote-sent, IsDeliverable, received}
use nexus_d_pub_sub.Client.{
  Status, Stub, PublishOptions, Message, request_of, result_of, read_events, publish,
}

read_events-append :
    (xs ys : List MessageEvent) → read_events (xs ++ ys) ≡ read_events xs ++ read_events ys
unfolding read_events
read_events-append [] ys = refl
read_events-append (message m ∷ xs) ys = rw (read_events-append xs ys) refl
read_events-append (retained_message m ∷ xs) ys = rw (read_events-append xs ys) refl
read_events-append (subscription_info i ∷ xs) ys = read_events-append xs ys
read_events-append (replay_message m ∷ xs) ys = read_events-append xs ys
read_events-append (replay_complete id n ∷ xs) ys = read_events-append xs ys

-- The stream of a SubscribeReactor that has nothing to write: no write is in flight.
pub record IsIdle (s : Stream) : Type 0 where
  pub active : s.active ≡ true
  pub reactor : s.reactor ≡ some for_subscribe
  pub in_flight : s.in_flight ≡ 0
  pub writing : s.writing ≡ false
  pub closed : s.message_queue.closed ≡ false
  pub messages : s.message_queue.messages ≡ []

send_idle :
    (env : Env) (event : MessageEvent) (ttl : ℤ) (topic : Text) (seq : ℕ) (id : Text) (s : Stream)
    → IsIdle s
    → member topic s.topics ≡ true
    → leb
        (expiry (env.clock id).0 (effective_ttl ttl s.message_queue.default_ttl_ms))
        (env.clock id).1
      ≡ false
    → ((sent env event ttl topic seq id s).started ≡ s.started ++ event ∷ [])
      × ((sent env event ttl topic seq id s).in_flight ≡ suc s.in_flight)
unfolding send matches
send_idle env event ttl topic seq id s idle has live =
    let taken : matches topic s ≡ true = ground (arith, idle.active, has) in
    let (now, later) = env.clock id in
    let starts =
      first_message_starts now later event ttl (env.others id) s idle.active idle.writing
        idle.closed idle.messages live in
    let cast : received env event ttl topic seq s.reactor id s
        ≡ (send env event ttl topic seq id s).1 =
      ap (λ k. received env event ttl topic seq k id s) idle.reactor in
    rw (taken, cast) starts

-- The message that a subscriber is called with for an envelope.
abbrev pub message_of : MessageEnvelope → Message
message_of e = record {
  message_id = e.message_id;
  topic = e.topic;
  payload = e.payload;
  content_type = e.content_type;
  timestamp_ms = e.timestamp_ms;
  source_node_id = e.source_node_id;
  correlation_id = e.correlation_id;
  is_retained = false;
  is_replay = false;
  sequence_number = 0;
}

read_event_of :
    (seq : ℕ) (e : MessageEnvelope) → read_events (event_of seq e ∷ []) ≡ message_of e ∷ []
unfolding read_events event_of
read_event_of seq e = refl

publish_returns :
    (env : Env) (id : Text) (stamp : ℤ) (q : PublishRequest) (s t : Sidecar)
    → (let e = envelope_of id stamp q s.registry in
        deliver_from_remote env e (record s { registry = retain_published e s.registry }) ≡ some t)
    → (response : PublishResponse) × (pushes : List (Text × MessageEnvelope)) × (Deliver.publish env
          id stamp q s
        ≡ some (response, pushes, t))
      × (response.success ≡ true)
      × (response.message_id ≡ id)
unfolding Deliver.publish
publish_returns env id stamp q s t done =
    let e = envelope_of id stamp q s.registry in
    let r = retain_published e s.registry in
    let targets = push_targets (get_remote_subscribers q.topic r) r in
    (
      record {
        success = true;
        message_id = id;
        subscriber_count = length targets + length (get_local_subscriptions q.topic t.registry);
        error_message = [];
      },
      map (λ target. (target, e)) targets,
      rw (done, Deliver.publish) refl,
      refl,
      refl,
    )

published :
    (status : Status) (response : PublishResponse) (stub : Stub) (topic payload : Text)
    (options : PublishOptions)
    → status.is_ok ≡ true
    → stub.publish (request_of topic payload options) ≡ (status, response)
    → let result = publish stub topic payload options in
      (result.success ≡ response.success) × (result.message_id ≡ response.message_id)
unfolding publish result_of
published status response stub topic payload options fine e =
    rw (e, publish, result_of) (ground (arith, fine))

-- What a subscriber gets of a call of `publish` on a node.
abbrev pub delivered : Text → ℤ → Text → Text → PublishOptions → Text → Message
delivered id stamp topic payload options node = record {
  message_id = id;
  topic = topic;
  payload = payload;
  content_type = options.content_type;
  timestamp_ms = stamp;
  source_node_id = node;
  correlation_id = options.correlation_id;
  is_retained = false;
  is_replay = false;
  sequence_number = 0;
}

-- On a valid buffer with a positive ring size and room for the topic's next number and for the
-- payload, where every active stream that has the topic belongs to a SubscribeReactor and the call
-- of Publish ends with OK and what the service answers: `publish` of a client succeeds with the id
-- that the service gave the message. Take a subscriber to the topic whose stream is active and
-- idle: it belongs to a SubscribeReactor, its queue is empty and open, no write is in flight, and
-- its flag says so. If the message does not expire at once, the stream has then been given exactly
-- one more event to write, for which the loop of `subscribe` calls back with the published topic,
-- payload, content type and correlation id, not as retained.
pub publish-received :
    (stub : Stub) (status : Status) (env : Env) (id : Text) (stamp : ℤ) (topic payload : Text)
    (options : PublishOptions) (s : Sidecar) (subscriber : Text) (stream : Stream)
    → status.is_ok ≡ true
    → ((response : PublishResponse) (pushes : List (Text × MessageEnvelope)) (t : Sidecar)
        → Deliver.publish env id stamp (request_of topic payload options) s
          ≡ some (response, pushes, t)
        → stub.publish (request_of topic payload options) ≡ (status, response))
    → All (IsDeliverable topic) s.active_streams
    → IsValid s.message_buffer
    → 0 < s.message_buffer.buffer_size_per_topic
    → (topic_buffer topic s.message_buffer).next_sequence + 1 < u64_mod
    → s.message_buffer.current_total_bytes + length payload < u64_mod
    → find subscriber s.active_streams ≡ some stream
    → IsIdle stream
    → member topic stream.topics ≡ true
    → leb
        (expiry (env.clock subscriber).0 (
          effective_ttl
            (effective_ttl options.ttl_ms s.default_message_ttl_ms)
            stream.message_queue.default_ttl_ms))
        (env.clock subscriber).1
      ≡ false
    → let result = publish stub topic payload options in
      (result.success ≡ true)
      × (result.message_id ≡ id)
      × ((t : Sidecar) × (after : Stream) × (response : PublishResponse) × (pushes : List
            (Text × MessageEnvelope))
          × (Deliver.publish env id stamp (request_of topic payload options) s
              ≡ some (response, pushes, t))
          × (find subscriber t.active_streams ≡ some after)
          × (after.in_flight ≡ 1)
          × (read_events after.started
              ≡ read_events stream.started
                ++ delivered id stamp topic payload options s.registry.local_node_id ∷ []))
unfolding envelope_of request_of
publish-received stub status env id stamp topic payload options s subscriber stream fine serves
      castable valid size room space found idle has live =
    let q = request_of topic payload options in
    let e = envelope_of id stamp q s.registry in
    let s' : Sidecar = record s { registry = retain_published e s.registry } in
    let (seq, t, done, buffered, here) =
      deliver_from_remote-sent env e s' subscriber castable valid size room space in
    let (response, pushes, returns, succeeds, same_id) = publish_returns env id stamp q s t done in
    let (success, message_id) =
      published status response stub topic payload options fine
        (serves response pushes t returns) in
    let ttl = effective_ttl options.ttl_ms s.default_message_ttl_ms in
    let after = sent env (event_of seq e) ttl topic seq subscriber stream in
    let (starts, one_write) =
      send_idle env (event_of seq e) ttl topic seq subscriber stream idle has live in
    (
      success ∙ succeeds,
      message_id ∙ same_id,
      (
        t,
        after,
        response,
        pushes,
        returns,
        rw found at here,
        one_write ∙ ap (λ n. suc n) idle.in_flight,
        rw starts (
            read_events-append stream.started (event_of seq e ∷ [])
            ∙ ap (λ ms. read_events stream.started ++ ms) (read_event_of seq e)),
      ),
    )
