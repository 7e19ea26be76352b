-- ===== src/Sidecar/Requests.antt =====
-- The requests and responses of the sidecar's RPCs (proto/sidecar.proto), as far as
-- src/services/sidecar_service.cpp uses them.
use nexus_d_pub_sub.Prelude.{ℕ, Bool, Text, List}
use nexus_d_pub_sub.Prelude.Int.{ℤ}
use nexus_d_pub_sub.Stream.{GapRecoveryMode}

pub record PublishRequest : Type 0 where
  pub topic : Text
  pub payload : Text
  pub content_type : Text
  pub retain : Bool
  pub correlation_id : Text
  pub ttl_ms : ℤ

pub record PublishResponse : Type 0 where
  pub success : Bool
  pub message_id : Text
  pub subscriber_count : ℕ
  pub error_message : Text

pub record SubscribeRequest : Type 0 where
  pub topics : List Text
  pub client_id : Text
  pub receive_retained : Bool
  pub max_buffer_size : ℤ

pub record ResumeSubscribeRequest : Type 0 where
  pub subscription_id : Text
  pub last_sequence_number : ℕ
  pub gap_recovery_mode : GapRecoveryMode

pub record PeerEntry : Type 0 where
  pub instance_uuid : Text
  pub endpoint : Text
  pub last_seen_ms : ℕ
  pub cluster_id : Text
  pub topic_state_hash : ℕ
  pub status : Text
  pub topics : List Text
