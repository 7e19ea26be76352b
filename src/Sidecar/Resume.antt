-- ===== src/Sidecar/Resume.antt =====
-- ResumeSubscribe (src/services/sidecar_service.cpp).
use nexus_d_pub_sub.Prelude.{
  ℕ, ◌%◌, ◌^◌, ltb, Bool, true, false, ◌||◌, Text, to_string, List, [], ◌∷◌, ◌++◌, Option, none,
  some, map, add64, to_milliseconds, if◌then◌else◌, ◌==◌,
}
use nexus_d_pub_sub.Prelude.Int.{ℤ, pos, sub_ℕ}
use nexus_d_pub_sub.Prelude.Map.{find, assign}
use nexus_d_pub_sub.TopicBuffer.{BufferedMessage}
use nexus_d_pub_sub.MessageBuffer.{MessageBuffer, get_messages_for_replay, get_retained_message}
use nexus_d_pub_sub.Stream.{
  Message, MessageEvent, subscription_info, retained_message, replay_message, GapRecoveryMode,
  no_recovery, retained_only, replay_buffer, Stream, make_stream, start_write, for_resume,
}
use nexus_d_pub_sub.PeerRegistry.{PausedSubscription}
use nexus_d_pub_sub.PeerRegistry.Subscriptions.{get_paused_subscription, resume_subscription}
use nexus_d_pub_sub.Sidecar.{Sidecar}
use nexus_d_pub_sub.Sidecar.Requests.{ResumeSubscribeRequest}

-- `lastSeq`
unfoldable pub last_sequence : ResumeSubscribeRequest → PausedSubscription → Text → ℕ
last_sequence q p topic =
    if q.last_sequence_number == 0
    then elim (find topic p.topic_sequences) [ none ↦ p.last_delivered_sequence | some n ↦ n ]
    else q.last_sequence_number

-- The message of a retained or replayed event; `sequence_number` is set for the second only.
unfoldable pub buffered_event : ℕ → BufferedMessage → Message
unfolding to_string
buffered_event sequence_number m = record {
  message_id = to_string m.sequence_number;
  topic = m.topic;
  payload = m.payload;
  content_type = [];
  timestamp_ms = pos (to_milliseconds m.timestamp);
  source_node_id = [];
  correlation_id = [];
  sequence_number = sequence_number;
}

unfoldable pub replay_event : BufferedMessage → MessageEvent
unfolding buffered_event
replay_event m = replay_message (buffered_event m.sequence_number m)

-- The conversion of a `uint64_t` to the `int32` of `missed_message_count`.
unfoldable pub to_int32 : ℕ → ℤ
to_int32 n = let r = n % 2 ^ 32 in if ltb r (2 ^ 31) then pos r else sub_ℕ r (2 ^ 32)

-- `pendingReplay_`, `gapDetected` and `totalMissed`.
pub record Recovery : Type 0 where
  pub pending : List MessageEvent
  pub gap_detected : Bool
  pub total_missed : ℕ

abbrev pub no_events : Recovery
no_events = record { pending = []; gap_detected = false; total_missed = 0 }

-- The loop body of the gap recovery.
unfoldable pub recover_topic : GapRecoveryMode → MessageBuffer → Text → ℕ → Recovery → Recovery
unfolding buffered_event replay_event get_messages_for_replay get_retained_message
recover_topic no_recovery buffer topic last acc = acc
recover_topic retained_only buffer topic last acc = elim (get_retained_message topic buffer) [
  | none ↦ acc
  | some m ↦ record acc { pending = acc.pending ++ retained_message (buffered_event 0 m) ∷ [] }
]
recover_topic replay_buffer buffer topic last acc =
    let replay = get_messages_for_replay topic last buffer in
    record {
      pending = acc.pending ++ map replay_event replay.messages;
      gap_detected = acc.gap_detected || replay.gap_detected;
      total_missed =
          if replay.gap_detected
          then add64 acc.total_missed replay.missed_count
          else acc.total_missed;
    }

unfoldable pub recover :
    ResumeSubscribeRequest → PausedSubscription → MessageBuffer → List Text → Recovery → Recovery
unfolding recover_topic last_sequence
recover q p buffer [] acc = acc
recover q p buffer (topic ∷ topics) acc =
    recover q p buffer topics
      (recover_topic q.gap_recovery_mode buffer topic (last_sequence q p topic) acc)

-- The gap recovery of the reactor's constructor: nothing is recovered if the resume failed.
unfoldable pub recovery_of :
    ResumeSubscribeRequest → Option PausedSubscription → MessageBuffer → List Text → Recovery
unfolding recover
recovery_of q none buffer topics = no_events
recovery_of q (some p) buffer topics = recover q p buffer topics no_events

-- The constructor of ResumeSubscribeReactor after the gap recovery.
unfoldable pub resume_reactor : ℤ → ResumeSubscribeRequest → Recovery → Stream → Stream
unfolding start_write to_int32
resume_reactor timestamp_ms q recovery stream =
    start_write
      (subscription_info record {
        subscription_id = stream.subscription_id;
        topics = stream.topics;
        timestamp_ms = timestamp_ms;
        gap_detected = recovery.gap_detected;
        missed_message_count = to_int32 recovery.total_missed;
        replay_started = elim recovery.pending [ [] ↦ false | e ∷ es ↦ true ];
      })
      (record stream {
        gap_recovery_mode = q.gap_recovery_mode;
        pending_replay = recovery.pending;
        reactor = some for_resume;
      })

unfoldable pub resumed_stream : ResumeSubscribeRequest → PausedSubscription → Sidecar → Stream
unfolding make_stream
resumed_stream q p s =
    make_stream q.subscription_id p.topics s.subscriber_queue_limit s.backpressure_policy
      s.block_timeout_ms s.default_message_ttl_ms

-- ResumeSubscribe at the two times that `resumeSubscription` reads and one of the system clock.
-- None is the status NOT_FOUND.
unfoldable pub resume_subscribe : ℕ → ℕ → ℤ → ResumeSubscribeRequest → Sidecar → Option Sidecar
unfolding get_paused_subscription resumed_stream resume_subscription recovery_of resume_reactor
resume_subscribe now created_at timestamp_ms q s =
    let id = q.subscription_id in
    elim (get_paused_subscription id s.registry) [
      | none ↦ none
      | some p ↦
          let (registry, out_paused_info) = resume_subscription now created_at id s.registry in
          let recovery = recovery_of q out_paused_info s.message_buffer p.topics in
          some (record s {
            registry = registry;
            active_streams =
                assign id (resume_reactor timestamp_ms q recovery (resumed_stream q p s))
                  s.active_streams;
          })
    ]
