-- ===== src/PeerRegistry.antt =====
-- include/nexusd/core/peer_registry.hpp and src/core/peer_registry.cpp, class PeerRegistry: the
-- peers, the local subscriptions, the routing table and the retained messages of a node. The
-- methods are in the children. Each is one step: most hold one mutex for their whole body, and those
-- that change the peers and then rebuild the routes from the peers take the mutexes one after the
-- other.
-- A subscription's callback is never called by the code and is left out.
pub mod Peers
pub mod Routing
pub mod Liveness
pub mod Subscriptions
pub mod Index
pub mod Reach
pub mod Retained
pub mod TopicHash
pub mod HashCache
pub mod Lookup
pub mod Resume
use nexus_d_pub_sub.Prelude.{ℕ, Bool, true, Text, codes, List, []}
use nexus_d_pub_sub.Prelude.Int.{ℤ}
use nexus_d_pub_sub.Prelude.Map.{Map}
use nexus_d_pub_sub.Prelude.Links.{Links}

pub data PeerStatus : Type 0 where
  alive suspected dead : PeerStatus

unfoldable pub peer_status_to_string : PeerStatus → Text
peer_status_to_string PeerStatus.alive = codes "alive"
peer_status_to_string PeerStatus.suspected = codes "suspected"
peer_status_to_string PeerStatus.dead = codes "dead"

pub record PeerInfo : Type 0 where
  pub instance_uuid : Text
  pub cluster_id : Text
  pub rpc_ip : Text
  pub rpc_port : ℕ
  pub topic_state_hash : ℕ
  pub topics : List Text
  pub status : PeerStatus
  pub last_seen : ℕ
  pub synced : Bool

pub record RetainedMessage : Type 0 where
  pub message_id : Text
  pub topic : Text
  pub payload : Text
  pub content_type : Text
  pub source_node_id : Text
  pub timestamp_ms : ℤ
  pub ttl_ms : ℤ

pub record LocalSubscription : Type 0 where
  pub subscription_id : Text
  pub client_id : Text
  pub topics : List Text
  pub max_buffer_size : ℤ
  pub created_at : ℕ
  pub last_delivered_sequence : ℕ

pub record PausedSubscription : Type 0 where
  pub subscription_id : Text
  pub client_id : Text
  pub topics : List Text
  pub max_buffer_size : ℤ
  pub last_delivered_sequence : ℕ
  pub topic_sequences : Map ℕ
  pub paused_at : ℕ
  pub expires_at : ℤ

pub record PeerRegistry : Type 0 where
  pub local_node_id : Text
  pub peers : Map PeerInfo
  pub local_subscriptions : Map LocalSubscription
  pub topic_to_subscriptions : Links
  pub paused_subscriptions : Map PausedSubscription
  pub cached_local_hash : ℕ
  pub hash_dirty : Bool
  pub routing_table : Links
  pub retained_messages : Map RetainedMessage

-- The constructor.
unfoldable pub init : Text → PeerRegistry
init local_node_id = record {
  local_node_id = local_node_id;
  peers = [];
  local_subscriptions = [];
  topic_to_subscriptions = [];
  paused_subscriptions = [];
  cached_local_hash = 0;
  hash_dirty = true;
  routing_table = [];
  retained_messages = [];
}
