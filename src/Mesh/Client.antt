-- ===== src/Mesh/Client.antt =====
-- src/services/mesh_client.cpp, class MeshClient: the channels to the peers and the calls on them.
-- gRPC is a parameter: whether NewStub gives a stub for the channel of an endpoint, and what a call
-- that waits for its answer ends with. The callback of a call that does not wait is `completed`.
use nexus_d_pub_sub.Prelude.{
  ℕ, suc, Bool, true, false, Text, codes, List, [], ◌∷◌, ◌++◌, Option, none, some, if◌then◌else◌,
}
use nexus_d_pub_sub.Prelude.Map.{Map, find, assign, erase}
use nexus_d_pub_sub.Sidecar.{MessageEnvelope}
use nexus_d_pub_sub.Mesh.{Ack}

-- A channel is known by how many were created before it.
pub record Channel : Type 0 where
  pub endpoint : Text
  pub number : ℕ

-- A `Stub*` that is not null.
pub record Stub : Type 0 where
  pub channel : Channel

pub record ChannelEntry : Type 0 where
  pub channel : Channel
  pub stub : Option Stub

pub data Request : Type 0 where
  asks_state : Request
  pushes : MessageEnvelope → Request

-- The status of a call: whether it is OK, and its message.
pub record Status : Type 0 where
  pub is_ok : Bool
  pub error_message : Text

pub record Grpc : Type 0 where
  pub new_stub : Channel → Option Stub
  pub answer : Stub → MessageEnvelope → Status × Ack

-- `channels_`, the number of channels created, and the calls that were started, oldest first.
pub record MeshClient : Type 0 where
  pub channels : Map ChannelEntry
  pub created : ℕ
  pub started : List (Stub × Request)

-- The constructor.
unfoldable pub init : MeshClient
init = record { channels = []; created = 0; started = [] }

-- The arguments of the callback.
pub record PushResult : Type 0 where
  pub success : Bool
  pub ack : Ack

abbrev pub failure : Text → PushResult
failure message = record {
  success = false;
  ack = record { success = false; error_message = message; message_id = [] };
}

-- What the lambda that `pushMessage` gives to gRPC calls the callback with.
unfoldable pub completed : Status → Ack → PushResult
completed s response =
    if s.is_ok then record { success = true; ack = response } else failure s.error_message

unfoldable pub start : Stub → Request → MeshClient → MeshClient
start stub r c = record c { started = c.started ++ (stub, r) ∷ [] }

module _ (g : Grpc) where
  open g use {new_stub, answer}

  unfoldable pub get_stub : Text → MeshClient → Option Stub × MeshClient
  get_stub endpoint c = elim (find endpoint c.channels) [
    | some entry ↦ (entry.stub, c)
    | none ↦
        let channel : Channel = record { endpoint = endpoint; number = c.created } in
        let entry : ChannelEntry = record { channel = channel; stub = new_stub channel } in
        (
          entry.stub,
          record c { channels = assign endpoint entry c.channels; created = suc c.created },
        )
  ]

  -- `pushMessage`, with what the callback is called with before it returns, if it is.
  unfoldable pub push_message : Text → MessageEnvelope → MeshClient → Option PushResult × MeshClient
  unfolding get_stub start
  push_message endpoint e c =
      let (stub, c') = get_stub endpoint c in
      elim stub [
        | none ↦ (some (failure (codes "Failed to get stub")), c')
        | some s ↦ (none, start s (pushes e) c')
      ]

  -- `getNodeState`; whether the callback is called, with false, before it returns.
  unfoldable pub get_node_state : Text → MeshClient → Bool × MeshClient
  unfolding get_stub start
  get_node_state endpoint c =
      let (stub, c') = get_stub endpoint c in
      elim stub [ none ↦ (true, c') | some s ↦ (false, start s asks_state c') ]

  unfoldable pub push_message_sync : Text → MessageEnvelope → MeshClient → Bool × MeshClient
  unfolding get_stub start
  push_message_sync endpoint e c =
      let (stub, c') = get_stub endpoint c in
      elim stub [
        | none ↦ (false, c')
        | some s ↦
            let (status, response) = answer s e in
            (if status.is_ok then response.success else false, start s (pushes e) c')
      ]

unfoldable pub remove_channel : Text → MeshClient → MeshClient
remove_channel endpoint c = record c { channels = erase endpoint c.channels }

-- `clearChannels`, which the destructor calls.
unfoldable pub clear_channels : MeshClient → MeshClient
clear_channels c = record c { channels = [] }
