-- ===== src/Stream.antt =====
-- src/services/sidecar_service.cpp: SubscriptionStream with the reactor that writes it
-- (SubscribeReactor or ResumeSubscribeReactor). The two reactors differ in `OnWriteDone` only; the
-- fields of the second are the stream's here. gRPC's part is the last three fields: the events
-- given to `StartWrite`, oldest first, how many of them `OnWriteDone` has not been called for yet,
-- and whether `Finish` was called. `messageQueue` is set for every stream that the service makes.
-- gRPC allows one write in flight. A call of `StartWrite` is recorded also where it breaks that rule, so
-- that `in_flight` is then more than 1; what gRPC makes of such a call is not modelled.
pub mod Writer
pub mod ReplayOrder
use nexus_d_pub_sub.Prelude.{
  ℕ, suc, ◌-◌, Bool, true, false, not, ◌&&◌, ◌||◌, Text, codes, text_eq, List, [], ◌∷◌, ◌++◌,
  Option, none, some, if◌then◌else◌,
}
use nexus_d_pub_sub.Prelude.Int.{ℤ}
use nexus_d_pub_sub.SubscriberQueue.{
  BackpressurePolicy, EnqueueResult, enqueued, dropped_disconnected, QueueStats, QueuedMessage,
  SubscriberQueue, Entered, returned, waiting, enter, wake, dequeue, is_empty, get_stats,
}
use nexus_d_pub_sub.SubscriberQueue

pub record Message : Type 0 where
  pub message_id : Text
  pub topic : Text
  pub payload : Text
  pub content_type : Text
  pub timestamp_ms : ℤ
  pub source_node_id : Text
  pub correlation_id : Text
  pub sequence_number : ℕ

pub record SubscriptionInfo : Type 0 where
  pub subscription_id : Text
  pub topics : List Text
  pub timestamp_ms : ℤ
  pub gap_detected : Bool
  pub missed_message_count : ℤ
  pub replay_started : Bool

-- The cases of `MessageEvent` that the service sends.
pub data MessageEvent : Type 0 where
  subscription_info : SubscriptionInfo → MessageEvent
  message : Message → MessageEvent
  retained_message : Message → MessageEvent
  replay_message : Message → MessageEvent
  replay_complete : Text → ℤ → MessageEvent

pub data GapRecoveryMode : Type 0 where
  no_recovery retained_only replay_buffer : GapRecoveryMode

-- The class of the reactor that a stream's `reactor` points to.
pub data ReactorKind : Type 0 where
  for_subscribe for_resume : ReactorKind

pub record Stream : Type 0 where
  pub subscription_id : Text
  pub topics : List Text
  pub active : Bool
  pub reactor : Option ReactorKind
  pub message_queue : SubscriberQueue MessageEvent
  pub writing : Bool
  pub gap_recovery_mode : GapRecoveryMode
  pub pending_replay : List MessageEvent
  pub replay_complete_sent : Bool
  pub started : List MessageEvent
  pub in_flight : ℕ
  pub finished : Bool

unfoldable pub parse_policy_string : Text → BackpressurePolicy
parse_policy_string policy = elim (text_eq policy (codes "drop-newest")) [
  | yes p ↦ BackpressurePolicy.drop_newest
  | no n ↦ elim (text_eq policy (codes "block")) [
    | yes p ↦ BackpressurePolicy.block
    | no m ↦ BackpressurePolicy.drop_oldest
  ]
]

-- A stream before its reactor.
unfoldable pub make_stream : Text → List Text → ℕ → BackpressurePolicy → ℤ → ℤ → Stream
unfolding SubscriberQueue.init
make_stream subscription_id topics limit policy block_timeout_ms default_ttl_ms = record {
  subscription_id = subscription_id;
  topics = topics;
  active = true;
  reactor = none;
  message_queue = SubscriberQueue.init limit policy block_timeout_ms default_ttl_ms;
  writing = false;
  gap_recovery_mode = no_recovery;
  pending_replay = [];
  replay_complete_sent = false;
  started = [];
  in_flight = 0;
  finished = false;
}

-- `StartWrite(&currentEvent_)`
unfoldable pub start_write : MessageEvent → Stream → Stream
start_write event s = record s { started = s.started ++ event ∷ []; in_flight = suc s.in_flight }

-- What `OnWriteDone` and `enqueueMessage` do with the result of `dequeue`; the first clears
-- `writing` without a message, the second does not.
unfoldable pub write_dequeued :
    Bool → SubscriberQueue MessageEvent × Option MessageEvent → Stream → Stream
unfolding start_write
write_dequeued writing (q, none) s = record s { message_queue = q; writing = writing }
write_dequeued writing (q, some event) s = start_write event (record s { message_queue = q })

-- The end of both `OnWriteDone`, from the lock on.
unfoldable pub write_next : ℕ → Stream → Stream
unfolding is_empty dequeue write_dequeued
write_next now s =
    if is_empty s.message_queue
    then record s { writing = false }
    else write_dequeued false (dequeue now s.message_queue) s

-- `SubscribeReactor::OnWriteDone`. A write is no longer in flight when it is called.
unfoldable pub subscribe_write_done : ℕ → Bool → Stream → Stream
unfolding write_next
subscribe_write_done now ok s =
    let s' = record s { in_flight = s.in_flight - 1 } in
    if not ok || not s.active then record s' { finished = true } else write_next now s'

unfoldable pub is_replay_buffer : GapRecoveryMode → Bool
is_replay_buffer no_recovery = false
is_replay_buffer retained_only = false
is_replay_buffer replay_buffer = true

-- `ResumeSubscribeReactor::OnWriteDone` once the stream is known to be active.
unfoldable pub resume_next : ℕ → ℤ → List MessageEvent → Stream → Stream
unfolding start_write write_next is_replay_buffer
resume_next now timestamp_ms (event ∷ rest) s =
    start_write event (record s { pending_replay = rest })
resume_next now timestamp_ms [] s =
    if not s.replay_complete_sent && is_replay_buffer s.gap_recovery_mode
    then start_write (replay_complete s.subscription_id timestamp_ms)
        (record s { replay_complete_sent = true })
    else write_next now s

unfoldable pub resume_write_done : ℕ → ℤ → Bool → Stream → Stream
unfolding resume_next
resume_write_done now timestamp_ms ok s =
    let s' = record s { in_flight = s.in_flight - 1 } in
    if not ok || not s.active
    then record s' { finished = true }
    else resume_next now timestamp_ms s.pending_replay s'

unfoldable pub on_cancel : Stream → Stream
on_cancel s = record s { active = false }

-- A whole call of `enqueue`. `others` is what the other threads do to the queue while the call waits
-- in `wait_for`, if it does.
unfoldable pub enqueue :
    ℕ
    → MessageEvent
    → ℤ
    → (SubscriberQueue MessageEvent → SubscriberQueue MessageEvent)
    → SubscriberQueue MessageEvent
    → EnqueueResult × SubscriberQueue MessageEvent
unfolding enter wake
enqueue now event ttl others q = elim (enter now event ttl q) [
  | returned r q' ↦ (r, q')
  | waiting m ↦ (enqueued, wake m (others q))
]

-- "Start writing if not already", from the exchange on, at a time `now`.
unfoldable pub kick : ℕ → Stream → Stream
unfolding is_empty dequeue write_dequeued
kick now s =
    if s.writing
    then s
    else if is_empty s.message_queue
    then record s { writing = false }
    else write_dequeued true (dequeue now s.message_queue) (record s { writing = true })

unfoldable pub is_enqueued : EnqueueResult → Bool
is_enqueued enqueued = true
is_enqueued EnqueueResult.dropped_oldest = false
is_enqueued EnqueueResult.dropped_newest = false
is_enqueued EnqueueResult.dropped_ttl = false
is_enqueued dropped_disconnected = false
is_enqueued EnqueueResult.blocked = false

-- `enqueueMessage` of both reactors, which reads the clock at `now` and at `later`.
unfoldable pub enqueue_message :
    ℕ
    → ℕ
    → MessageEvent
    → ℤ
    → (SubscriberQueue MessageEvent → SubscriberQueue MessageEvent)
    → Stream
    → EnqueueResult × Stream
unfolding enqueue kick is_enqueued
enqueue_message now later event ttl others s =
    let (r, q) = enqueue now event ttl others s.message_queue in
    let s' = record s { message_queue = q } in
    if not s.active
    then (dropped_disconnected, s)
    else (r, if is_enqueued r then kick later s' else s')

unfoldable pub get_queue_stats : Stream → QueueStats
unfolding get_stats
get_queue_stats s = get_stats s.message_queue
