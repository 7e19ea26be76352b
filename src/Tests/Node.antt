-- ===== src/Tests/Node.antt =====
-- A daemon as src/daemon/main.cpp wires it, and a service that forwards (src/services/mesh_client.cpp).
use nexus_d_pub_sub.PeerRegistry.Subscriptions.{get_local_topics, add_local_subscription}
use nexus_d_pub_sub.Mesh.Sync.{pull, pull-routes}
use nexus_d_pub_sub.Prelude.Links.{member, same, linked}
use nexus_d_pub_sub.SubscriberQueue.{expiry, effective_ttl}
use nexus_d_pub_sub.Stream.{Stream}
use nexus_d_pub_sub.Client.Delivery.{IsIdle, delivered, publish-received}
use nexus_d_pub_sub.Client
use nexus_d_pub_sub.Client.{PublishOptions, Status, Stub, request_of, read_events}
use nexus_d_pub_sub.Prelude.{
  ◌≡◌, refl, true, Text, text_eq, codes, List, [], ◌∷◌, ◌++◌, some, arith, map, false, none,
}
use nexus_d_pub_sub.Prelude.Int.{pos}
use nexus_d_pub_sub.Prelude.Map.{find, contains}
use nexus_d_pub_sub.PeerRegistry
use nexus_d_pub_sub.PeerRegistry.{PeerRegistry}
use nexus_d_pub_sub.PeerRegistry.Peers.{get_remote_subscribers}
use nexus_d_pub_sub.PeerRegistry.Routing.{Call, updates, run, run-IsRouted}
use nexus_d_pub_sub.MessageBuffer.{topic_buffer}
use nexus_d_pub_sub.Sidecar.{MessageEnvelope, Env}
use nexus_d_pub_sub.Sidecar.Requests.{PublishRequest, PublishResponse}
use nexus_d_pub_sub.Sidecar.Deliver.{push_targets, envelope_of, publish}
use nexus_d_pub_sub.Sidecar
use nexus_d_pub_sub.Mesh.{ack_of, get_node_state}
use nexus_d_pub_sub.Mesh.Client.{Grpc, init, pushes}
use nexus_d_pub_sub.Mesh.Channels.{call_of}
use nexus_d_pub_sub.Mesh.Forwarding.{push_all, endpoint_of, publish-forwarded}
use nexus_d_pub_sub.Discovery.{Beacon, Agent, accept_beacon, send_beacon}
use nexus_d_pub_sub.Daemon.Config.{defaults}
use nexus_d_pub_sub.Daemon.Wiring.{Daemon, boot, receive_datagram, receive_push, with_sidecar}
use nexus_d_pub_sub.Daemon.Isolation.{
  DaemonSteps, waits, then_step, hears, subscribes, DaemonSteps-isolated,
}
use nexus_d_pub_sub.Sidecar.Subscribe.{subscribe}
use nexus_d_pub_sub.Tests.Buffer.{t, buffer-IsValid}
use nexus_d_pub_sub.Tests.Registry.{
  with_peer, with_peer-IsRouted, id, registry, node, peer, registry-Reachable,
}
use nexus_d_pub_sub.Tests.Service.{service, env, request, stream, agent, service-IsDeliverable}

abbrev beacon : Beacon
beacon = record {
  instance_uuid = codes "p";
  cluster_id = codes "default";
  rpc_ip = codes "10.0.0.2";
  rpc_port = pos 5671;
  topic_state_hash = 7;
  timestamp_ms = pos 1;
  protocol_version = pos 1;
}

abbrev booted : Daemon
booted = boot (codes "n") 0 defaults

-- The daemon has heard of a peer, and an application has subscribed.
abbrev met : Daemon
met = (receive_datagram (λ bytes. some beacon) 1 2 (codes "b") booted).0

abbrev serving : Daemon
serving = with_sidecar (subscribe env (codes "0123456789") 2 (pos 2) request met.sidecar) met

met_steps : DaemonSteps booted serving
met_steps =
    then_step (then_step waits (hears (λ bytes. some beacon) 1 2 (codes "b")))
      (subscribes env (codes "0123456789") 2 (pos 2) request)

DaemonSteps-isolated_example :
    ((topic : Text)
      → push_targets
          (get_remote_subscribers topic serving.sidecar.registry)
          serving.sidecar.registry
        ≡ [])
    × ((env : Env) (e : MessageEnvelope) → receive_push env e serving ≡ some (serving, ack_of e))
DaemonSteps-isolated_example = DaemonSteps-isolated (codes "n") 0 defaults serving met_steps

-- A peer whose topics were pulled.
abbrev pulled : List Call
pulled = updates (codes "p") (t ∷ []) 7 ∷ []

abbrev routed : PeerRegistry
routed = run with_peer pulled

abbrev connecting : Grpc
connecting = record {
  new_stub = λ channel. some (record { channel = channel });
  answer = λ stub e. (record { is_ok = true; error_message = [] }, ack_of e);
}

abbrev news : PublishRequest
news = record {
  topic = t;
  payload = codes "d";
  content_type = [];
  retain = true;
  correlation_id = [];
  ttl_ms = pos 0;
}

publish-forwarded_example :
    (response : PublishResponse) × (ps : List (Text × MessageEnvelope)) × (u : Sidecar.Sidecar)
    × (targets : List Text) × (publish env (codes "m") (pos 1) news (service routed)
        ≡ some (response, ps, u))
    × (map (endpoint_of routed) (get_remote_subscribers t routed)
        ≡ map (λ target. some target) targets)
    × (map call_of (push_all connecting ps init).started
        ≡ map call_of init.started
          ++ map (λ target. (target, pushes (envelope_of (codes "m") (pos 1) news routed))) targets)
unfolding topic_buffer find text_eq init
publish-forwarded_example =
    publish-forwarded connecting env (codes "m") (pos 1) news (service routed) init
      (λ channel. refl) tt (service-IsDeliverable routed)
      (run-IsRouted with_peer pulled with_peer-IsRouted) buffer-IsValid (omega arith) (omega arith)
      (omega arith)

abbrev options : PublishOptions
options = record { content_type = []; retain = false; correlation_id = codes "c"; ttl_ms = pos 0 }

abbrev fine : Status
fine = record { is_ok = true; is_cancelled = false; error_message = [] }

-- What the service of `env` answers, where it does.
answer_to : PublishRequest → PublishResponse
answer_to q = elim (publish env (codes "m") (pos 1) q (service registry)) [
  | none ↦ record { success = false; message_id = []; subscriber_count = 0; error_message = [] }
  | some (response, ps, u) ↦ response
]

abbrev stub : Stub
stub = record {
  publish = λ q. (fine, answer_to q);
  subscribe = λ q. ([], fine);
  unsubscribe = λ q. (fine, true);
}

stub-serves :
    (response : PublishResponse) (pushes : List (Text × MessageEnvelope)) (u : Sidecar.Sidecar)
    → publish env (codes "m") (pos 1) (request_of t (codes "d") options) (service registry)
      ≡ some (response, pushes, u)
    → stub.publish (request_of t (codes "d") options) ≡ (fine, response)
unfolding answer_to
stub-serves response ps u e = rw (answer_to, e) refl

stream-IsIdle : IsIdle stream
stream-IsIdle = record {
  active = refl;
  reactor = refl;
  in_flight = refl;
  writing = refl;
  closed = refl;
  messages = refl;
}

publish-received_example :
    let result = Client.publish stub t (codes "d") options in
    (result.success ≡ true)
    × (result.message_id ≡ codes "m")
    × ((u : Sidecar.Sidecar) × (after : Stream) × (response : PublishResponse) × (pushes : List
          (Text × MessageEnvelope))
        × (publish env (codes "m") (pos 1) (request_of t (codes "d") options) (service registry)
            ≡ some (response, pushes, u))
        × (find id u.active_streams ≡ some after)
        × (after.in_flight ≡ 1)
        × (read_events after.started
            ≡ read_events stream.started
              ++ delivered
                  (codes "m")
                  (pos 1)
                  t
                  (codes "d")
                  options
                  (service registry).registry.local_node_id
                ∷ []))
unfolding topic_buffer find text_eq member same expiry effective_ttl
publish-received_example =
    publish-received stub fine env (codes "m") (pos 1) t (codes "d") options (service registry) id
      stream refl stub-serves (service-IsDeliverable registry) buffer-IsValid (omega arith)
      (omega arith) (omega arith) refl stream-IsIdle refl refl

-- A node that knows the node of `registry`, whose agent is `announcer`.
abbrev pulling : PeerRegistry
pulling = record with_peer { peers = (node, peer) ∷ [] }

abbrev announcer : Agent
announcer = record agent { registry = registry }

pulling_found : find registry.local_node_id pulling.peers ≡ some peer
unfolding add_local_subscription PeerRegistry.init contains find text_eq
pulling_found = refl

pull-routes_example :
    let (answered, state) = get_node_state registry in
    let pulled_state = pull state pulling in
    (linked t registry.local_node_id pulled_state.routing_table
      ≡ member t (get_local_topics registry))
    × ((accept_beacon 5 6
          (send_beacon (pos 9) (record announcer { registry = answered })).1
          (record agent { registry = pulled_state })).1
        ≡ none)
unfolding find
pull-routes_example =
    pull-routes agent pulling peer announcer t 5 6 (pos 9) (refl, tt) pulling_found
      registry-Reachable
