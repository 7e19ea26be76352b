-- ===== src/Sidecar.antt =====
-- src/services/sidecar_service.cpp, class SidecarServiceImpl: the RPCs of the local applications and
-- the delivery of messages to their streams. A call is one step here, with what the clocks, the UUID
-- generator and the other threads give it as arguments. The three fields that the source holds by
-- pointer are always set. The constructor's reaper thread is the calls of `reap_round`.
pub mod Requests
pub mod Deliver
pub mod Subscribe
pub mod Resume
pub mod Query
pub mod Delivery
pub mod Recovered
pub mod Reached
use nexus_d_pub_sub.Prelude.{
  ℕ, Bool, true, false, ◌&&◌, Text, List, [], ◌∷◌, Option, none, some, if◌then◌else◌,
}
use nexus_d_pub_sub.Prelude.Int.{ℤ}
use nexus_d_pub_sub.Prelude.Map.{Map}
use nexus_d_pub_sub.MessageBuffer.{MessageBuffer}
use nexus_d_pub_sub.MessageBuffer
use nexus_d_pub_sub.SubscriberQueue.{BackpressurePolicy, SubscriberQueue}
use nexus_d_pub_sub.Stream.{MessageEvent, Stream, parse_policy_string}
use nexus_d_pub_sub.PeerRegistry.{PeerRegistry}

pub record Sidecar : Type 0 where
  pub registry : PeerRegistry
  pub message_buffer : MessageBuffer
  pub paused_subscription_ttl : ℤ
  pub subscriber_queue_limit : ℕ
  pub backpressure_policy : BackpressurePolicy
  pub block_timeout_ms : ℤ
  pub default_message_ttl_ms : ℤ
  pub active_streams : Map Stream
  pub subscription_counter : ℕ

-- The constructor.
unfoldable pub init : PeerRegistry → ℕ → ℕ → ℤ → ℕ → Text → ℤ → ℤ → Sidecar
unfolding MessageBuffer.init parse_policy_string
init registry buffer_size max_memory paused_ttl queue_limit policy block_timeout default_ttl =
    record {
      registry = registry;
      message_buffer = MessageBuffer.init buffer_size max_memory;
      paused_subscription_ttl = paused_ttl;
      subscriber_queue_limit = queue_limit;
      backpressure_policy = parse_policy_string policy;
      block_timeout_ms = block_timeout;
      default_message_ttl_ms = default_ttl;
      active_streams = [];
      subscription_counter = 0;
    }

pub record MessageEnvelope : Type 0 where
  pub message_id : Text
  pub topic : Text
  pub payload : Text
  pub content_type : Text
  pub timestamp_ms : ℤ
  pub source_node_id : Text
  pub retain : Bool
  pub correlation_id : Text
  pub ttl_ms : ℤ

-- What a call finds outside the service: the time of the buffered message, and for the stream
-- of each subscription the two times that `enqueueMessage` reads and what other threads do to its
-- queue while the call waits for room in it.
pub record Env : Type 0 where
  pub stamp : ℕ
  pub clock : Text → ℕ × ℕ
  pub others : Text → SubscriberQueue MessageEvent → SubscriberQueue MessageEvent
