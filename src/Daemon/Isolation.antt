-- ===== src/Daemon/Isolation.antt =====
-- What the wiring of src/daemon/main.cpp leaves out: no peer's topics are ever pulled, and the mesh
-- service has nobody to hand a message to.
use nexus_d_pub_sub.PeerRegistry.TopicHash.{get_local_topic_hash}
use nexus_d_pub_sub.Prelude.{
  ℕ, Bool, false, ◌≡◌, refl, Text, List, [], Option, none, some, sym, ap, subst, ◌∙◌, inl, inr,
  Bool-cases, leb, to_milliseconds, ◌-◌, arith,
}
use mathlib.Core.Option.{some-injective}
use nexus_d_pub_sub.Prelude.Int.{ℤ}
use nexus_d_pub_sub.Prelude.Map.{find}
use nexus_d_pub_sub.PeerRegistry.Peers.{get_remote_subscribers}
use nexus_d_pub_sub.PeerRegistry
use nexus_d_pub_sub.Discovery.{Beacon, reap_round, send_beacon}
use nexus_d_pub_sub.Sidecar.{Sidecar, MessageEnvelope, Env}
use nexus_d_pub_sub.Sidecar
use nexus_d_pub_sub.Sidecar.Requests.{
  PublishRequest, PublishResponse, SubscribeRequest, ResumeSubscribeRequest,
}
use nexus_d_pub_sub.Sidecar.Deliver.{publish, push_targets}
use nexus_d_pub_sub.Sidecar.Subscribe.{subscribe, unsubscribe}
use nexus_d_pub_sub.Sidecar.Resume.{resume_subscribe}
use nexus_d_pub_sub.Sidecar.Query
use nexus_d_pub_sub.Mesh.{Ack, ack_of, get_node_state, push_message, deliver_locally}
use nexus_d_pub_sub.Daemon.Config.{Config}
use nexus_d_pub_sub.Daemon.Wiring.{
  Daemon, boot, agent_of, with_registry, with_sidecar, receive_datagram, reap_peers, announce,
  answer_state, sidecar_service, with_service, receive_push,
}
use nexus_d_pub_sub.Daemon.Unrouted.{
  IsUnrouted, SamePeers, SamePeers-IsUnrouted, reap_dead_peers-IsUnrouted,
  process_beacon-IsUnrouted, hash-SamePeers, publish-SamePeers, add-SamePeers, remove-SamePeers,
  resume_subscribe-SamePeers,
}

-- What happens to a daemon: what its threads do, and the requests that its two servers get. A message of
-- PushMessageStream is delivered as one of PushMessage is; GetTopics and GetPeers change nothing.
pub data DaemonStep (d : Daemon) : Daemon → Type 0 where
  hears :
      (parse : Text → Option Beacon) (now later : ℕ) (bytes : Text)
      → DaemonStep d (receive_datagram parse now later bytes d).0
  reaps : (now : ℕ) → DaemonStep d (reap_peers now d)
  announces : (timestamp_ms : ℤ) → DaemonStep d (announce timestamp_ms d).0
  is_asked : DaemonStep d (answer_state d).0
  is_pushed :
      (env : Env) (e : MessageEnvelope) (ack : Ack) {d' : Daemon}
      → receive_push env e d ≡ some (d', ack)
      → DaemonStep d d'
  publishes :
      (env : Env) (id : Text) (stamp : ℤ) (q : PublishRequest) (response : PublishResponse)
      (pushes : List (Text × MessageEnvelope)) (s : Sidecar)
      → publish env id stamp q d.sidecar ≡ some (response, pushes, s)
      → DaemonStep d (with_sidecar s d)
  subscribes :
      (env : Env) (uuid : Text) (created_at : ℕ) (stamp : ℤ) (q : SubscribeRequest)
      → DaemonStep d (with_sidecar (subscribe env uuid created_at stamp q d.sidecar) d)
  unsubscribes :
      (now : ℕ) (id : Text) (pause : Bool)
      → DaemonStep d (with_sidecar (unsubscribe now id pause d.sidecar).0 d)
  resumes :
      (now created_at : ℕ) (stamp : ℤ) (q : ResumeSubscribeRequest) (s : Sidecar)
      → resume_subscribe now created_at stamp q d.sidecar ≡ some s
      → DaemonStep d (with_sidecar s d)
  reaps_messages :
      (clock : Text → ℕ) → DaemonStep d (with_sidecar (Query.reap_round clock d.sidecar).0 d)

pub data DaemonSteps (d : Daemon) : Daemon → Type 0 where
  waits : DaemonSteps d d
  then_step : {e f : Daemon} → DaemonSteps d e → DaemonStep e f → DaemonSteps d f

record IsIsolated (d : Daemon) : Type 0 where
  no_callback : d.has_sync_callback ≡ false
  no_service : d.has_sidecar_service ≡ false
  unrouted : IsUnrouted d.sidecar.registry

unwired : (d : Daemon) → d.has_sidecar_service ≡ false → sidecar_service d ≡ none
unfolding sidecar_service
unwired d h = ground (arith, h)

push_lost :
    (env : Env) (e : MessageEnvelope) (d : Daemon)
    → d.has_sidecar_service ≡ false
    → receive_push env e d ≡ some (d, ack_of e)
unfolding receive_push push_message deliver_locally with_service
push_lost env e d h = rw (unwired d h, receive_push, push_message, deliver_locally) refl

with_sidecar-IsIsolated :
    (s : Sidecar) (d : Daemon)
    → SamePeers d.sidecar.registry s.registry
    → IsIsolated d
    → IsIsolated (with_sidecar s d)
unfolding with_sidecar
with_sidecar-IsIsolated s d same v = record {
  no_callback = v.no_callback;
  no_service = v.no_service;
  unrouted = SamePeers-IsUnrouted d.sidecar.registry s.registry same v.unrouted;
}

with_registry-IsIsolated :
    (r : PeerRegistry.PeerRegistry) (d : Daemon)
    → IsUnrouted r
    → IsIsolated d
    → IsIsolated (with_registry r d)
unfolding with_registry
with_registry-IsIsolated r d u v = record {
  no_callback = v.no_callback;
  no_service = v.no_service;
  unrouted = u;
}

boot-IsIsolated : (uuid : Text) (now : ℕ) (c : Config) → IsIsolated (boot uuid now c)
unfolding boot Sidecar.init PeerRegistry.init
boot-IsIsolated uuid now c = record { no_callback = refl; no_service = refl; unrouted = (refl, tt) }

hashed-IsIsolated :
    (d : Daemon)
    → IsIsolated d
    → IsIsolated (with_registry (get_local_topic_hash d.sidecar.registry).0 d)
hashed-IsIsolated d v =
    let r = d.sidecar.registry in
    let r' = (get_local_topic_hash r).0 in
    with_registry-IsIsolated r' d (SamePeers-IsUnrouted r r' (hash-SamePeers r) v.unrouted) v

reap_peers-IsIsolated : (now : ℕ) (d : Daemon) → IsIsolated d → IsIsolated (reap_peers now d)
unfolding reap_peers reap_round agent_of with_registry
reap_peers-IsIsolated now d v = record {
  no_callback = v.no_callback;
  no_service = v.no_service;
  unrouted = elim (Bool-cases (leb 1000 (to_milliseconds (now - d.last_reap)))) [
    | inl e ↦
        rw (e, reap_round)
          (reap_dead_peers-IsUnrouted now d.peer_timeout_ms d.sidecar.registry v.unrouted)
    | inr e ↦ rw (e, reap_round) v.unrouted
  ];
}

DaemonStep-IsIsolated : {d e : Daemon} → IsIsolated d → DaemonStep d e → IsIsolated e
unfolding receive_datagram announce send_beacon answer_state get_node_state agent_of subscribe
    unsubscribe Query.reap_round
DaemonStep-IsIsolated {d} v (hears parse now later bytes) =
    with_registry-IsIsolated _ d
      (process_beacon-IsUnrouted parse now later bytes (agent_of d) v.unrouted) v
DaemonStep-IsIsolated {d} v (reaps now) = reap_peers-IsIsolated now d v
DaemonStep-IsIsolated {d} v (announces timestamp_ms) = hashed-IsIsolated d v
DaemonStep-IsIsolated {d} v is_asked = hashed-IsIsolated d v
DaemonStep-IsIsolated {d} v (is_pushed env e ack h) =
    subst IsIsolated (ap (λ x. x.0) (some-injective _ _ (sym (push_lost env e d v.no_service) ∙ h)))
      v
DaemonStep-IsIsolated {d} v (publishes env id stamp q response pushes s h) =
    with_sidecar-IsIsolated s d (publish-SamePeers env id stamp q d.sidecar s response pushes h) v
DaemonStep-IsIsolated {d} v (subscribes env uuid created_at stamp q) =
    with_sidecar-IsIsolated _ d
      (add-SamePeers created_at _ q.client_id q.topics q.max_buffer_size d.sidecar.registry) v
DaemonStep-IsIsolated {d} v (unsubscribes now id pause) =
    with_sidecar-IsIsolated _ d
      (remove-SamePeers now id pause d.sidecar.paused_subscription_ttl d.sidecar.registry) v
DaemonStep-IsIsolated {d} v (resumes now created_at stamp q s h) =
    with_sidecar-IsIsolated s d (resume_subscribe-SamePeers now created_at stamp q d.sidecar s h) v
DaemonStep-IsIsolated {d} v (reaps_messages clock) = with_sidecar-IsIsolated _ d (refl, refl) v

DaemonSteps-IsIsolated : {d e : Daemon} → IsIsolated d → DaemonSteps d e → IsIsolated e
DaemonSteps-IsIsolated v waits = v
DaemonSteps-IsIsolated v (then_step x y) = DaemonStep-IsIsolated (DaemonSteps-IsIsolated v x) y

-- A daemon as `main` wires it, after any sequence of beacons and other datagrams, reapings and
-- requests to its two servers, forwards a message on any topic to no peer, whatever peers it knows, and
-- a message that a peer pushes to it is acknowledged as a success and reaches nobody: nothing changes.
pub DaemonSteps-isolated :
    (uuid : Text) (now : ℕ) (c : Config) (d : Daemon)
    → DaemonSteps (boot uuid now c) d
    → ((topic : Text)
        → push_targets (get_remote_subscribers topic d.sidecar.registry) d.sidecar.registry ≡ [])
      × ((env : Env) (e : MessageEnvelope) → receive_push env e d ≡ some (d, ack_of e))
unfolding get_remote_subscribers push_targets find
DaemonSteps-isolated uuid now c d x =
    let v = DaemonSteps-IsIsolated (boot-IsIsolated uuid now c) x in
    (
      λ topic. rw (v.unrouted.0, get_remote_subscribers) refl,
      λ env e. push_lost env e d v.no_service,
    )
