-- ===== src/Daemon/Wiring.antt =====
-- src/daemon/main.cpp: the components that the daemon makes of its configuration, and what its threads
-- and servers call on them. They share one registry, which is the sidecar service's here. Of the mesh
-- service and of the agent only the fields that other components set are kept: whether
-- `sidecarService_` and `syncCallback_` are set. The source passes the agent its settings one by one
-- and gives the registry no id; here they go where the two constructors take them.
use nexus_d_pub_sub.Prelude.{ℕ, Bool, false, Text, codes, Option, none, some, if◌then◌else◌}
use nexus_d_pub_sub.Prelude.Int.{ℤ}
use nexus_d_pub_sub.Prelude.Numbers.{to_u32}
use nexus_d_pub_sub.PeerRegistry.{PeerInfo, PeerRegistry}
use nexus_d_pub_sub.PeerRegistry
use nexus_d_pub_sub.Discovery.{Beacon, Agent, send_beacon, process_beacon, reap_round}
use nexus_d_pub_sub.Sidecar.{Sidecar, MessageEnvelope, Env}
use nexus_d_pub_sub.Sidecar
use nexus_d_pub_sub.Mesh.{NodeState, Ack, get_node_state, push_message}
use nexus_d_pub_sub.Daemon.Config.{Config}

pub record Daemon : Type 0 where
  pub cluster_id : Text
  pub peer_timeout_ms : ℕ
  pub rpc_ip : Text
  pub rpc_port : ℕ
  pub has_sync_callback : Bool
  pub has_sidecar_service : Bool
  pub last_reap : ℕ
  pub sidecar : Sidecar

-- The daemon when "NexusD is ready"; the receiver's thread reads the clock when it starts. What
-- `main` does not give the agent is as the constructor of DiscoveryConfig has it. The calls of the
-- constructors of PeerRegistry and DiscoveryAgent do not fit their declarations: each argument is
-- taken for the field of its name, and the UUID for the node's id.
unfoldable pub boot : Text → ℕ → Config → Daemon
unfolding PeerRegistry.init Sidecar.init
boot instance_uuid now c = record {
  cluster_id = c.cluster_id;
  peer_timeout_ms = 5000;
  rpc_ip = codes "0.0.0.0";
  rpc_port = c.mesh_port;
  has_sync_callback = false;
  has_sidecar_service = false;
  last_reap = now;
  sidecar =
      Sidecar.init (PeerRegistry.init instance_uuid) c.message_buffer_size c.max_buffer_memory_bytes
        c.paused_subscription_ttl_ms (to_u32 c.subscriber_queue_limit) c.backpressure_policy
        c.block_timeout_ms c.default_message_ttl_ms;
}

unfoldable pub agent_of : Daemon → Agent
agent_of d = record {
  cluster_id = d.cluster_id;
  peer_timeout_ms = d.peer_timeout_ms;
  current_rpc_ip = d.rpc_ip;
  current_rpc_port = d.rpc_port;
  registry = d.sidecar.registry;
  has_callback = d.has_sync_callback;
}

unfoldable pub with_registry : PeerRegistry → Daemon → Daemon
with_registry r d = record d { sidecar = record d.sidecar { registry = r } }

unfoldable pub with_sidecar : Sidecar → Daemon → Daemon
with_sidecar s d = record d { sidecar = s }

-- The receiver's thread gets a datagram; the peer is the one that the callback is called with.
unfoldable pub receive_datagram :
    (Text → Option Beacon) → ℕ → ℕ → Text → Daemon → Daemon × Option PeerInfo
unfolding process_beacon agent_of with_registry
receive_datagram parse now later bytes d =
    let (agent, peer) = process_beacon parse now later bytes (agent_of d) in
    (with_registry agent.registry d, peer)

-- The receiver's thread reaps.
unfoldable pub reap_peers : ℕ → Daemon → Daemon
unfolding reap_round agent_of with_registry
reap_peers now d =
    let (agent, last_reap) = reap_round now d.last_reap (agent_of d) in
    record (with_registry agent.registry d) { last_reap = last_reap }

-- The sender's thread.
unfoldable pub announce : ℤ → Daemon → Daemon × Beacon
unfolding send_beacon agent_of with_registry
announce timestamp_ms d =
    let (agent, beacon) = send_beacon timestamp_ms (agent_of d) in
    (with_registry agent.registry d, beacon)

-- The mesh server gets GetNodeState.
unfoldable pub answer_state : Daemon → Daemon × NodeState
unfolding get_node_state with_registry
answer_state d =
    let (registry, state) = get_node_state d.sidecar.registry in (with_registry registry d, state)

-- `sidecarService_` of the mesh service.
unfoldable pub sidecar_service : Daemon → Option Sidecar
sidecar_service d = if d.has_sidecar_service then some d.sidecar else none

unfoldable pub with_service : Option Sidecar → Daemon → Daemon
unfolding with_sidecar
with_service none d = d
with_service (some s) d = with_sidecar s d

-- The mesh server gets PushMessage. There is no result where the delivery has none.
unfoldable pub receive_push : Env → MessageEnvelope → Daemon → Option (Daemon × Ack)
unfolding push_message sidecar_service with_service
receive_push env e d = elim (push_message env e (sidecar_service d)) [
  | none ↦ none
  | some (service, ack) ↦ some (with_service service d, ack)
]
