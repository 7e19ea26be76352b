-- ===== src/Mesh.antt =====
-- src/services/mesh_service.cpp, class MeshServiceImpl: what a node answers to its peers. The sidecar
-- service is optional, as `sidecarService_` is.
pub mod Answers
pub mod Client
pub mod Channels
pub mod Forwarding
pub mod Sync
use nexus_d_pub_sub.Prelude.{
  ℕ, Bool, true, false, Text, List, [], ◌∷◌, ◌++◌, Option, none, some, map,
}
use nexus_d_pub_sub.Prelude.Int.{ℤ}
use nexus_d_pub_sub.Prelude.Map.{Map}
use nexus_d_pub_sub.PeerRegistry.{RetainedMessage, PeerRegistry}
use nexus_d_pub_sub.PeerRegistry.Subscriptions.{get_local_topics}
use nexus_d_pub_sub.PeerRegistry.TopicHash.{get_local_topic_hash}
use nexus_d_pub_sub.PeerRegistry.Retained.{get_all_retained_messages}
use nexus_d_pub_sub.Sidecar.{Sidecar, MessageEnvelope, Env}
use nexus_d_pub_sub.Sidecar.Deliver.{deliver_from_remote}

pub record NodeState : Type 0 where
  pub instance_uuid : Text
  pub topics : List Text
  pub topic_state_hash : ℕ
  pub retained_messages : Map MessageEnvelope

-- "Include retained messages", for one of them.
unfoldable pub retained_envelope : RetainedMessage → MessageEnvelope
retained_envelope m = record {
  message_id = m.message_id;
  topic = m.topic;
  payload = m.payload;
  content_type = m.content_type;
  timestamp_ms = m.timestamp_ms;
  source_node_id = m.source_node_id;
  retain = true;
  correlation_id = [];
  ttl_ms = m.ttl_ms;
}

-- GetNodeState, which may fill the cache of the registry's hash.
unfoldable pub get_node_state : PeerRegistry → PeerRegistry × NodeState
unfolding get_local_topics get_local_topic_hash get_all_retained_messages retained_envelope
get_node_state r =
    let (r', hash) = get_local_topic_hash r in
    (
      r',
      record {
        instance_uuid = r.local_node_id;
        topics = get_local_topics r;
        topic_state_hash = hash;
        retained_messages = map (λ e. (e.0, retained_envelope e.1)) (get_all_retained_messages r');
      },
    )

-- There is no result where `deliverFromRemote` has none.
unfoldable pub deliver_locally : Env → MessageEnvelope → Option Sidecar → Option (Option Sidecar)
unfolding deliver_from_remote
deliver_locally env e none = some none
deliver_locally env e (some s) = elim (deliver_from_remote env e s) [
  | none ↦ none
  | some t ↦ some (some t)
]

pub record Ack : Type 0 where
  pub success : Bool
  pub error_message : Text
  pub message_id : Text

-- The ack of PushMessage and PushMessageStream, whatever becomes of the message.
unfoldable pub ack_of : MessageEnvelope → Ack
ack_of e = record { success = true; error_message = []; message_id = e.message_id }

unfoldable pub push_message : Env → MessageEnvelope → Option Sidecar → Option (Option Sidecar × Ack)
unfolding deliver_locally ack_of
push_message env e service = elim (deliver_locally env e service) [
  | none ↦ none
  | some t ↦ some (t, ack_of e)
]

-- Whose turn it is in a PushMessageStreamReactor: a read, a write, or neither after `Finish`.
pub data Turn : Type 0 where
  reads writes finished : Turn

pub record PushStream : Type 0 where
  pub service : Option Sidecar
  pub turn : Turn
  pub acks : List Ack

-- The constructor of the reactor.
unfoldable pub open_stream : Option Sidecar → PushStream
open_stream service = record { service = service; turn = reads; acks = [] }

-- `OnReadDone`, of which a message that is not there is `!ok`.
unfoldable pub on_read_done : Env → Option MessageEnvelope → PushStream → Option PushStream
unfolding deliver_locally ack_of
on_read_done env none p = some (record p { turn = finished })
on_read_done env (some e) p = elim (deliver_locally env e p.service) [
  | none ↦ none
  | some t ↦ some (record p { service = t; turn = writes; acks = p.acks ++ ack_of e ∷ [] })
]

unfoldable pub on_write_done : Bool → PushStream → PushStream
on_write_done true p = record p { turn = reads }
on_write_done false p = record p { turn = finished }
