-- ===== src/Discovery.antt =====
-- src/core/discovery_agent.cpp, class DiscoveryAgent: the beacons that it sends and receives. The
-- protobuf code of a beacon is generated, so parsing is an argument. A beacon gives the
-- registry after it and the peer that `syncCallback_` is called with, if it is; the threads and the
-- socket are the child Threads.
pub mod Bouncer
pub mod Threads
pub mod Lifecycle
use nexus_d_pub_sub.Prelude.{
  ℕ, ◌+◌, ◌-◌, ◌%◌, ◌^◌, ◌≡◌, ◌≢◌, refl, sym, ap, ◌∙◌, Bool, true, false, not, ◌&&◌, Text, text_eq,
  List, [], ◌∷◌, Option, none, some, Option-cases, Bool-cases, inl, inr, arith, leb, if◌then◌else◌,
  to_milliseconds, ◌==◌, if_pos,
}
use nexus_d_pub_sub.Prelude.Int.{ℤ, pos, pos_part, neg_part}
use nexus_d_pub_sub.Prelude.Map.{Map, find, assign, find-assign}
use nexus_d_pub_sub.Prelude.Links.{same}
use nexus_d_pub_sub.PeerRegistry.{PeerStatus, PeerInfo, PeerRegistry}
use nexus_d_pub_sub.PeerRegistry.Peers.{upsert_peer, refresh_peer, get_peer, reap_dead_peers}
use nexus_d_pub_sub.PeerRegistry.TopicHash.{get_local_topic_hash}

pub record Beacon : Type 0 where
  pub instance_uuid : Text
  pub cluster_id : Text
  pub rpc_ip : Text
  pub rpc_port : ℤ
  pub topic_state_hash : ℕ
  pub timestamp_ms : ℤ
  pub protocol_version : ℤ

pub record Agent : Type 0 where
  pub cluster_id : Text
  pub peer_timeout_ms : ℕ
  pub current_rpc_ip : Text
  pub current_rpc_port : ℕ
  pub registry : PeerRegistry
  pub has_callback : Bool

unfoldable pub update_rpc_endpoint : Text → ℕ → Agent → Agent
update_rpc_endpoint ip port a = record a { current_rpc_ip = ip; current_rpc_port = port }

-- The beacon that `sendBeacon` serialises; the registry's hash cache is filled for it.
unfoldable pub send_beacon : ℤ → Agent → Agent × Beacon
unfolding get_local_topic_hash
send_beacon timestamp_ms a =
    let (registry, hash) = get_local_topic_hash a.registry in
    (
      record a { registry = registry },
      record {
        instance_uuid = a.registry.local_node_id;
        cluster_id = a.cluster_id;
        rpc_ip = a.current_rpc_ip;
        rpc_port = pos a.current_rpc_port;
        topic_state_hash = hash;
        timestamp_ms = timestamp_ms;
        protocol_version = pos 1;
      },
    )

-- `static_cast<uint16_t>` of an `int32_t`.
unfoldable pub to_uint16 : ℤ → ℕ
to_uint16 n = (pos_part n + (2 ^ 16 - neg_part n % 2 ^ 16)) % 2 ^ 16

-- "Build PeerInfo".
unfoldable pub peer_of : ℕ → Beacon → PeerInfo
unfolding to_uint16
peer_of now b = record {
  instance_uuid = b.instance_uuid;
  cluster_id = b.cluster_id;
  rpc_ip = b.rpc_ip;
  rpc_port = to_uint16 b.rpc_port;
  topic_state_hash = b.topic_state_hash;
  topics = [];
  status = PeerStatus.alive;
  last_seen = now;
  synced = false;
}

-- "Update registry" and "Trigger sync if hash changed".
unfoldable pub discover : ℕ → ℕ → PeerInfo → Agent → Agent × Option PeerInfo
unfolding upsert_peer get_peer
discover now later info a =
    let (registry, needs_sync) = upsert_peer later info a.registry in
    (
      record a { registry = registry },
      if needs_sync && a.has_callback then get_peer info.instance_uuid registry else none,
    )

-- `processBeacon` after the parsing. The clock is read for the info and by `upsertPeer`.
unfoldable pub accept_beacon : ℕ → ℕ → Beacon → Agent → Agent × Option PeerInfo
unfolding peer_of discover same
accept_beacon now later b a =
    if same b.instance_uuid a.registry.local_node_id
    then (a, none)
    else if not (same b.cluster_id a.cluster_id)
    then (a, none)
    else discover now later (peer_of now b) a

unfoldable pub process_beacon :
    (Text → Option Beacon) → ℕ → ℕ → Text → Agent → Agent × Option PeerInfo
unfolding accept_beacon
process_beacon parse now later bytes a = elim (parse bytes) [
  | none ↦ (a, none)
  | some b ↦ accept_beacon now later b a
]

-- The end of a round of `receiverLoop`: the new registry and `lastReap`.
unfoldable pub reap_round : ℕ → ℕ → Agent → Agent × ℕ
unfolding reap_dead_peers
reap_round now last_reap a =
    let (registry, gone) = reap_dead_peers now a.peer_timeout_ms a.registry in
    if leb 1000 (to_milliseconds (now - last_reap))
    then (record a { registry = registry }, now)
    else (a, last_reap)
