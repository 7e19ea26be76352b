-- ===== src/Tests/Service.antt =====
-- Concrete services (src/services/sidecar_service.cpp, src/services/mesh_service.cpp) and beacons
-- (src/core/discovery_agent.cpp).
use nexus_d_pub_sub.Prelude.{
  ℕ, ◌≡◌, refl, true, false, Text, text_eq, codes, [], ◌∷◌, ◌++◌, none, some, arith, map, All,
}
use nexus_d_pub_sub.Prelude.Int.{pos, ◌+ℤ◌}
use nexus_d_pub_sub.Prelude.Map.{find, assign, contains}
use nexus_d_pub_sub.Prelude.Links.{same, member}
use nexus_d_pub_sub.SubscriberQueue.{drop_oldest, no_stats, effective_ttl}
use nexus_d_pub_sub.MessageBuffer.{topic_buffer}
use nexus_d_pub_sub.MessageBuffer.Store.{Buffered}
use nexus_d_pub_sub.MessageBuffer.Recovery.{expected}
use nexus_d_pub_sub.Stream.{
  subscription_info, replay_complete, replay_buffer, no_recovery, Stream, for_subscribe,
}
use nexus_d_pub_sub.Stream.ReplayOrder.{rounds}
use nexus_d_pub_sub.PeerRegistry.{PausedSubscription, PeerRegistry, init}
use nexus_d_pub_sub.PeerRegistry.Subscriptions.{
  add_local_subscription, remove_local_subscription, pause_of, is_expired,
}
use nexus_d_pub_sub.PeerRegistry.Index.{IsIndexed}
use nexus_d_pub_sub.Sidecar.{Sidecar, MessageEnvelope, Env}
use nexus_d_pub_sub.Sidecar.Requests.{SubscribeRequest, ResumeSubscribeRequest}
use nexus_d_pub_sub.Sidecar.Deliver.{deliver_from_remote, event_of, matches}
use nexus_d_pub_sub.Sidecar.Delivery.{sent, deliver_from_remote-sent, IsDeliverable, is_castable}
use nexus_d_pub_sub.Sidecar.Subscribe.{subscribe, unsubscribe}
use nexus_d_pub_sub.Sidecar.Resume.{resume_subscribe, replay_event, last_sequence}
use nexus_d_pub_sub.Sidecar.Recovered.{info_of, resume_subscribe-replay}
use nexus_d_pub_sub.Sidecar.Reached.{stays, goes, subscribed, unsubscribed, Steps-IsIndexed}
use nexus_d_pub_sub.Discovery.{Beacon, Agent, process_beacon}
use nexus_d_pub_sub.Discovery.Bouncer.{is_foreign, Discovered, process_beacon_accepted}
use nexus_d_pub_sub.Tests.Buffer.{t, log, ring-Tracks, buffer, buffer-IsValid}
use nexus_d_pub_sub.Tests.Registry.{
  node, id, subscription, registry, registry-Reachable, with_topics,
}

abbrev pub stream : Stream
stream = record {
  subscription_id = id;
  topics = t ∷ [];
  active = true;
  reactor = some for_subscribe;
  message_queue = record {
    limit = 2;
    policy = drop_oldest;
    block_timeout_ms = pos 0;
    default_ttl_ms = pos 0;
    messages = [];
    closed = false;
    stats = no_stats;
  };
  writing = false;
  gap_recovery_mode = no_recovery;
  pending_replay = [];
  replay_complete_sent = false;
  started = [];
  in_flight = 0;
  finished = false;
}

abbrev pub service : PeerRegistry → Sidecar
service r = record {
  registry = r;
  message_buffer = buffer;
  paused_subscription_ttl = pos 300;
  subscriber_queue_limit = 2;
  backpressure_policy = drop_oldest;
  block_timeout_ms = pos 0;
  default_message_ttl_ms = pos 0;
  active_streams = (id, stream) ∷ [];
  subscription_counter = 1;
}

abbrev pub env : Env
env = record { stamp = 40; clock = λ i. (40, 41); others = λ i q. q }

abbrev pub envelope : MessageEnvelope
envelope = record {
  message_id = codes "m";
  topic = t;
  payload = codes "d";
  content_type = [];
  timestamp_ms = pos 1;
  source_node_id = node;
  retain = false;
  correlation_id = [];
  ttl_ms = pos 0;
}

pub service-IsDeliverable : (r : PeerRegistry) → All (IsDeliverable t) (service r).active_streams
unfolding matches is_castable member same text_eq
service-IsDeliverable r = (refl, tt)

deliver_from_remote-sent_example :
    (seq : ℕ) × (u : Sidecar) × (deliver_from_remote env envelope (service registry) ≡ some u)
    × Buffered 40 t (codes "d") buffer u.message_buffer seq
    × (find id u.active_streams ≡ elim (find id (service registry).active_streams) [
      | none ↦ none
      | some s ↦ some (sent env (event_of seq envelope) (effective_ttl (pos 0) (pos 0)) t seq id s)
    ])
unfolding topic_buffer find text_eq
deliver_from_remote-sent_example =
    deliver_from_remote-sent env envelope (service registry) id (service-IsDeliverable registry)
      buffer-IsValid (omega arith) (omega arith) (omega arith)

abbrev pub request : SubscribeRequest
request = record {
  topics = t ∷ [];
  client_id = codes "c";
  receive_retained = true;
  max_buffer_size = pos 5;
}

abbrev subscribed_service : Sidecar
subscribed_service = subscribe env (codes "0123456789") 2 (pos 2) request (service registry)

Steps-IsIndexed_example : IsIndexed (unsubscribe 10 id true subscribed_service).0.registry
unfolding add_local_subscription init find contains
Steps-IsIndexed_example = Steps-IsIndexed registry-Reachable (
    goes (goes stays (subscribed env (codes "0123456789") 2 (pos 2) request refl))
      (unsubscribed 10 id true))

-- The registry after the subscription was paused for 300 milliseconds.
abbrev paused_registry : PeerRegistry
paused_registry = (remove_local_subscription 10 id true (pos 300) registry).0

abbrev paused : PausedSubscription
paused = pause_of 10 (pos 300) id subscription

paused_found : find id paused_registry.paused_subscriptions ≡ some paused
unfolding remove_local_subscription add_local_subscription init find assign contains text_eq
paused_found = refl

abbrev resume : ResumeSubscribeRequest
resume = record {
  subscription_id = id;
  last_sequence_number = 1;
  gap_recovery_mode = replay_buffer;
}

resume_subscribe-replay_example :
    (u : Sidecar) × (s : Stream) × (resume_subscribe 20 21 (pos 3) resume (service paused_registry)
      ≡ some u)
    × (find id u.active_streams ≡ some s)
    × ((rounds ((30, pos 4) ∷ (31, pos 5) ∷ (32, pos 6) ∷ []) s).started
        ≡ subscription_info
            (info_of (pos 3) resume paused (expected 2 log (last_sequence resume paused t)))
          ∷ (map replay_event (expected 2 log (last_sequence resume paused t)).messages
              ++ replay_complete id (pos 6) ∷ []))
unfolding is_expired pause_of ◌+ℤ◌ find text_eq last_sequence
resume_subscribe-replay_example =
    resume_subscribe-replay 20 21 (pos 3) ((30, pos 4) ∷ (31, pos 5) ∷ []) (32, pos 6) resume paused
      t (service paused_registry) ring-Tracks (omega arith) refl paused_found refl refl refl refl

abbrev beacon : Text → Beacon
beacon cluster = record {
  instance_uuid = codes "q";
  cluster_id = cluster;
  rpc_ip = codes "10.0.0.2";
  rpc_port = pos 5002;
  topic_state_hash = 9;
  timestamp_ms = pos 0;
  protocol_version = pos 1;
}

abbrev pub agent : Agent
agent = record {
  cluster_id = codes "c";
  peer_timeout_ms = 5000;
  current_rpc_ip = codes "10.0.0.1";
  current_rpc_port = 5001;
  registry = with_topics [];
  has_callback = true;
}

process_beacon_accepted_example :
    Discovered
      (beacon (codes "c"))
      agent
      (process_beacon (λ bytes. some (beacon (codes "c"))) 1 2 (codes "x") agent)
unfolding is_foreign same text_eq
process_beacon_accepted_example =
    process_beacon_accepted (λ bytes. some (beacon (codes "c"))) 1 2 (codes "x")
      (beacon (codes "c")) agent refl refl
