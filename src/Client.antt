-- ===== src/Client.antt =====
-- clients/cpp/src/client.cpp, class ClientImpl, to which class Client hands every call. gRPC is a
-- parameter: what each call of the stub ends with, and for Subscribe the events that the reader gives
-- before. The callbacks of `subscribe` are listed in the order of the calls.
pub mod Delivery
use nexus_d_pub_sub.Prelude.{
  ℕ, Bool, true, false, not, ◌&&◌, Text, List, [], ◌∷◌, Option, none, some, if◌then◌else◌,
}
use nexus_d_pub_sub.Prelude.Int.{ℤ}
use nexus_d_pub_sub.Stream.{MessageEvent, message, retained_message}
use nexus_d_pub_sub.Stream
use nexus_d_pub_sub.Sidecar.Requests.{PublishRequest, PublishResponse, SubscribeRequest}

pub record Status : Type 0 where
  pub is_ok : Bool
  pub is_cancelled : Bool
  pub error_message : Text

-- UnsubscribeRequest; `pause` is false where it is not set.
pub record UnsubscribeRequest : Type 0 where
  pub subscription_id : Text
  pub pause : Bool

pub record Stub : Type 0 where
  pub publish : PublishRequest → Status × PublishResponse
  pub subscribe : SubscribeRequest → List MessageEvent × Status
  pub unsubscribe : UnsubscribeRequest → Status × Bool

pub record PublishOptions : Type 0 where
  pub content_type : Text
  pub retain : Bool
  pub correlation_id : Text
  pub ttl_ms : ℤ

pub record PublishResult : Type 0 where
  pub success : Bool
  pub message_id : Text
  pub subscriber_count : ℕ
  pub error_message : Text

pub record SubscribeOptions : Type 0 where
  pub client_id : Text
  pub receive_retained : Bool
  pub max_buffer_size : ℤ

-- The Message of the client, which is what a callback gets.
pub record Message : Type 0 where
  pub message_id : Text
  pub topic : Text
  pub payload : Text
  pub content_type : Text
  pub timestamp_ms : ℤ
  pub source_node_id : Text
  pub correlation_id : Text
  pub is_retained : Bool
  pub is_replay : Bool
  pub sequence_number : ℕ

unfoldable pub request_of : Text → Text → PublishOptions → PublishRequest
request_of topic payload options = record {
  topic = topic;
  payload = payload;
  content_type = options.content_type;
  retain = options.retain;
  correlation_id = options.correlation_id;
  ttl_ms = options.ttl_ms;
}

-- The result of `publish` for what the call ended with.
unfoldable pub result_of : Status → PublishResponse → PublishResult
result_of status response =
    if status.is_ok
    then record {
      success = response.success;
      message_id = response.message_id;
      subscriber_count = response.subscriber_count;
      error_message = response.error_message;
    }
    else record {
      success = false;
      message_id = [];
      subscriber_count = 0;
      error_message = status.error_message;
    }

-- The fields that the loop of `subscribe` sets; the others keep their defaults.
unfoldable pub received : Bool → Stream.Message → Message
received is_retained m = record {
  message_id = m.message_id;
  topic = m.topic;
  payload = m.payload;
  content_type = m.content_type;
  timestamp_ms = m.timestamp_ms;
  source_node_id = m.source_node_id;
  correlation_id = m.correlation_id;
  is_retained = is_retained;
  is_replay = false;
  sequence_number = 0;
}

-- The loop of `subscribe`: the messages that the callback is called with.
unfoldable pub read_events : List MessageEvent → List Message
unfolding received
read_events [] = []
read_events (message m ∷ events) = received false m ∷ read_events events
read_events (retained_message m ∷ events) = received true m ∷ read_events events
read_events (_ ∷ events) = read_events events

-- What the error callback is called with, if it is set and called.
unfoldable pub error_of : Bool → Status → Option Text
error_of has_callback status =
    if not status.is_ok && not status.is_cancelled && has_callback
    then some status.error_message
    else none

module _ (stub : Stub) where
  unfoldable pub publish : Text → Text → PublishOptions → PublishResult
  unfolding request_of result_of
  publish topic payload options =
      let (status, response) = stub.publish (request_of topic payload options) in
      result_of status response

  unfoldable pub subscribe : List Text → Bool → SubscribeOptions → List Message × Option Text
  unfolding read_events error_of
  subscribe topics has_error_callback options =
      let (events, status) = stub.subscribe record {
        topics = topics;
        client_id = options.client_id;
        receive_retained = options.receive_retained;
        max_buffer_size = options.max_buffer_size;
      } in
      (read_events events, error_of has_error_callback status)

  unfoldable pub unsubscribe : Text → Bool
  unsubscribe subscription_id =
      let (status, success) =
        stub.unsubscribe record { subscription_id = subscription_id; pause = false } in
      status.is_ok && success
