-- ===== src/Cli/GrpcClient.antt =====
-- tools/cli/src/grpc_client.cpp: the connection of the tool to a daemon and its calls. gRPC is a
-- parameter: which addresses a channel reaches, and what a call on a channel returns, which is
-- `none` where the status is not ok.
use nexus_d_pub_sub.Prelude.{
  ℕ, Bool, true, false, Text, List, [], ◌∷◌, ◌++◌, Option, none, some, if◌then◌else◌,
}
use nexus_d_pub_sub.Prelude.Int.{ℤ, pos, negsuc}

pub record PublishRequest : Type 0 where
  pub topic : Text
  pub payload : Text
  pub content_type : Text
  pub retain : Bool

pub record ReceivedMessage : Type 0 where
  pub topic : Text
  pub payload : Text
  pub content_type : Text
  pub message_id : Text

pub record Grpc : Type 0 where
  pub reachable : Text → Bool
  pub publish : Text → PublishRequest → Option Text
  pub ping : Text → Option ℕ
  pub stream : Text → Text → List ReceivedMessage
  pub debug_info : Text → Option Text
  pub config : Text → Option (List (Text × Text))

-- `connected` with `address`, and the requests that were sent.
pub record GrpcClient : Type 0 where
  pub connection : Option Text
  pub sent : List (Text × PublishRequest)

unfoldable pub disconnect : GrpcClient → GrpcClient
disconnect c = record c { connection = none }

unfoldable pub is_connected : GrpcClient → Bool
is_connected c = elim (c.connection) [ none ↦ false | some address ↦ true ]

unfoldable pub get_address : GrpcClient → Text
get_address c = elim (c.connection) [ none ↦ [] | some address ↦ address ]

-- What a query gives without a connection or where the call fails, and else.
unfoldable pub query {ℓ} : {A : Type ℓ} → A → (Text → Option A) → GrpcClient → A
query default call c = elim (c.connection) [
  | none ↦ default
  | some address ↦ elim (call address) [ none ↦ default | some a ↦ a ]
]

module _ (g : Grpc) where
  unfoldable pub connect : Text → GrpcClient → Bool × GrpcClient
  unfolding disconnect
  connect address c =
      if g.reachable address
      then (true, record (disconnect c) { connection = some address })
      else (false, disconnect c)

  -- The milliseconds, or -1.
  unfoldable pub ping : GrpcClient → ℤ
  ping c = elim (c.connection) [
    | none ↦ negsuc 0
    | some address ↦ elim (g.ping address) [ none ↦ negsuc 0 | some ms ↦ pos ms ]
  ]

  -- The message's id, or the empty string.
  unfoldable pub publish : PublishRequest → GrpcClient → Text × GrpcClient
  publish request c = elim (c.connection) [
    | none ↦ ([], c)
    | some address ↦ (
      elim (g.publish address request) [ none ↦ [] | some id ↦ id ],
      record c { sent = c.sent ++ (address, request) ∷ [] },
    )
  ]

  -- The messages that the callback gets, in order.
  unfoldable pub subscribe : Text → GrpcClient → List ReceivedMessage
  subscribe pattern c = elim (c.connection) [ none ↦ [] | some address ↦ g.stream address pattern ]

  unfoldable pub get_debug_info : GrpcClient → Text
  unfolding query
  get_debug_info = query [] g.debug_info

  unfoldable pub get_config : GrpcClient → List (Text × Text)
  unfolding query
  get_config = query [] g.config
