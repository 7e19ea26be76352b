-- ===== src/TopicBuffer.antt =====
-- include/nexusd/core/topic_message_buffer.hpp, class TopicBuffer: the ring buffer of one topic.
-- `none` is undefined behaviour: `front()` or `pop_front()` of an empty deque. The clock is an
-- argument of `push`.
pub mod Log
pub mod Replay
use nexus_d_pub_sub.Prelude.{
  ℕ, ◌≤◌, Bool, false, ◌&&◌, Text, List, [], ◌∷◌, ◌++◌, Option, none, some, length, last?, leb, ltb,
  if◌then◌else◌, inc64, add64, sub64,
}

pub record BufferedMessage : Type 0 where
  pub sequence_number : ℕ
  pub topic : Text
  pub payload : Text
  pub timestamp : ℕ

pub record TopicBuffer : Type 0 where
  pub max_size : ℕ
  pub next_sequence : ℕ
  pub messages : List BufferedMessage
  pub total_bytes : ℕ

-- The constructor.
unfoldable pub init : ℕ → TopicBuffer
init max_size = record { max_size = max_size; next_sequence = 1; messages = []; total_bytes = 0 }

-- `total_bytes_ -= messages_.front().payload.size(); messages_.pop_front();`
unfoldable pub pop_front : TopicBuffer → List BufferedMessage → Option TopicBuffer
pop_front b [] = none
pop_front b (m ∷ rest) =
    some (record b { messages = rest; total_bytes = sub64 b.total_bytes (length m.payload) })

unfoldable pub push : ℕ → Text → Text → TopicBuffer → Option (ℕ × TopicBuffer)
unfolding pop_front
push now topic payload b =
    let seq = b.next_sequence in
    let next = record b { next_sequence = inc64 b.next_sequence } in
    let room =
      if leb b.max_size (length b.messages) then pop_front next b.messages else some next in
    elim room [
      | none ↦ none
      | some c ↦ some (
        seq,
        record c {
          messages =
              c.messages
              ++ record { sequence_number = seq; topic = topic; payload = payload; timestamp = now }
                ∷ [];
          total_bytes = add64 c.total_bytes (length payload);
        },
      )
    ]

-- The loop of `getMessagesAfter`.
unfoldable pub messages_after : ℕ → List BufferedMessage → List BufferedMessage
messages_after after [] = []
messages_after after (m ∷ ms) =
    let rest = messages_after after ms in if ltb after m.sequence_number then m ∷ rest else rest

unfoldable pub get_messages_after : ℕ → TopicBuffer → List BufferedMessage
unfolding messages_after
get_messages_after after b = messages_after after b.messages

unfoldable pub get_latest : TopicBuffer → Option BufferedMessage
get_latest b = last? b.messages

unfoldable pub current_sequence : TopicBuffer → ℕ
current_sequence b = sub64 b.next_sequence 1

unfoldable pub oldest_sequence : TopicBuffer → ℕ
oldest_sequence b = elim b.messages [ [] ↦ 0 | m ∷ ms ↦ m.sequence_number ]

unfoldable pub has_sequence : ℕ → TopicBuffer → Bool
has_sequence seq b = elim b.messages [
  | [] ↦ false
  | first ∷ ms ↦ elim (last? b.messages) [
    | none ↦ false
    | some latest ↦ leb first.sequence_number seq && leb seq latest.sequence_number
  ]
]

unfoldable pub size : TopicBuffer → ℕ
size b = length b.messages

unfoldable pub clear : TopicBuffer → TopicBuffer
clear b = record b { messages = []; total_bytes = 0 }
