-- ===== src/MessageBuffer.antt =====
-- include/nexusd/core/topic_message_buffer.hpp and src/core/topic_message_buffer.cpp, class
-- TopicMessageBuffer: the ring buffers of all topics under one memory limit. Each method holds
-- `mutex_`, so it is one step. `none` is undefined behaviour, as in TopicBuffer.antt.
pub mod Valid
pub mod Evict
pub mod Freed
pub mod Store
pub mod Accept
pub mod Recovery
pub mod Pause
use nexus_d_pub_sub.Prelude.{
  ℕ, zero, suc, ◌+◌, Bool, true, false, not, ◌&&◌, Text, text_eq, List, [], ◌∷◌, Option, none, some,
  map, length, leb, ltb, ◌==◌, if◌then◌else◌, add64, sub64,
}
use nexus_d_pub_sub.Prelude.Map.{Map, find, assign, erase, total}
use nexus_d_pub_sub.TopicBuffer
use nexus_d_pub_sub.TopicBuffer.{BufferedMessage, TopicBuffer}

pub record MessageBuffer : Type 0 where
  pub topic_buffers : Map TopicBuffer
  pub buffer_size_per_topic : ℕ
  pub max_total_memory_bytes : ℕ
  pub current_total_bytes : ℕ

-- The constructor.
unfoldable pub init : ℕ → ℕ → MessageBuffer
init buffer_size max_memory = record {
  topic_buffers = [];
  buffer_size_per_topic = buffer_size;
  max_total_memory_bytes = max_memory;
  current_total_bytes = 0;
}

-- `empty()` of a container.
abbrev pub is_empty {ℓ} : {A : Type ℓ} → List A → Bool
is_empty [] = true
is_empty (x ∷ xs) = false

-- The `for` loop of `evictForSpace`: the first topic with a message, or the empty string.
unfoldable pub oldest_topic : Map TopicBuffer → Text
oldest_topic [] = []
oldest_topic ((topic, b) ∷ m) =
    let rest = oldest_topic m in if ltb 0 (TopicBuffer.size b) then topic else rest

-- `current_total_bytes_ -= it->second.totalBytes(); topic_buffers_.erase(it);`, if it is found.
unfoldable pub drop_topic : Text → MessageBuffer → MessageBuffer
drop_topic topic s = elim (find topic s.topic_buffers) [
  | none ↦ s
  | some b ↦ record s {
    topic_buffers = erase topic s.topic_buffers;
    current_total_bytes = sub64 s.current_total_bytes b.total_bytes;
  }
]

-- The `while` loop of `evictForSpace`, on fuel. `false` is its early `return false`.
unfoldable pub evict_loop : ℕ → ℕ → MessageBuffer → MessageBuffer × Bool
unfolding oldest_topic drop_topic
evict_loop zero target s = (s, true)
evict_loop (suc fuel) target s =
    let oldest = oldest_topic s.topic_buffers in
    let rest = evict_loop fuel target (drop_topic oldest s) in
    let round = if is_empty oldest then (s, false) else rest in
    if ltb target s.current_total_bytes && not (is_empty s.topic_buffers) then round else (s, true)

unfoldable pub evict_for_space : ℕ → MessageBuffer → MessageBuffer × Bool
unfolding evict_loop
evict_for_space needed s =
    let target = sub64 s.max_total_memory_bytes needed in
    let (s', ended) = evict_loop (length s.topic_buffers) target s in
    if s.max_total_memory_bytes == 0
    then (s, true)
    else (s', ended && leb (add64 s'.current_total_bytes needed) s'.max_total_memory_bytes)

-- "Get or create topic buffer": the buffer that `push` is called on.
unfoldable pub topic_buffer : Text → MessageBuffer → TopicBuffer
topic_buffer topic s = elim (find topic s.topic_buffers) [
  | none ↦ TopicBuffer.init s.buffer_size_per_topic
  | some b ↦ b
]

-- `bufferMessage` from "Get or create topic buffer" on.
unfoldable pub store : ℕ → Text → Text → MessageBuffer → Option (ℕ × MessageBuffer)
unfolding topic_buffer
store now topic payload s =
    let b = topic_buffer topic s in
    elim (TopicBuffer.push now topic payload b) [
      | none ↦ none
      | some (seq, b') ↦ some (
        seq,
        record s {
          topic_buffers = assign topic b' s.topic_buffers;
          current_total_bytes = add64 (sub64 s.current_total_bytes b.total_bytes) b'.total_bytes;
        },
      )
    ]

-- Whether the memory limit would be passed.
unfoldable pub over_limit : ℕ → MessageBuffer → Bool
over_limit needed s =
    ltb 0 s.max_total_memory_bytes
    && ltb s.max_total_memory_bytes (add64 s.current_total_bytes needed)

-- The sequence number assigned, 0 if the message is not buffered.
unfoldable pub buffer_message : ℕ → Text → Text → MessageBuffer → Option (ℕ × MessageBuffer)
unfolding over_limit evict_for_space store
buffer_message now topic payload s =
    let (s', ok) = evict_for_space (length payload) s in
    if over_limit (length payload) s
    then (if ok then store now topic payload s' else some (0, s'))
    else store now topic payload s

pub record Replay : Type 0 where
  pub messages : List BufferedMessage
  pub gap_detected : Bool
  pub missed_count : ℕ

abbrev pub no_replay : Replay
no_replay = record { messages = []; gap_detected = false; missed_count = 0 }

-- `getMessagesForReplay` once the topic's buffer is found.
unfoldable pub replay_from : ℕ → TopicBuffer → Replay
replay_from after b =
    let oldest = TopicBuffer.oldest_sequence b in
    let gap = ltb after oldest in
    if after == 0
    then record {
      messages = elim (TopicBuffer.get_latest b) [ none ↦ [] | some m ↦ m ∷ [] ];
      gap_detected = false;
      missed_count = 0;
    }
    else if leb (TopicBuffer.current_sequence b) after
    then no_replay
    else record {
      messages = TopicBuffer.get_messages_after after b;
      gap_detected = gap;
      missed_count = if gap then sub64 (sub64 oldest after) 1 else 0;
    }

unfoldable pub get_messages_for_replay : Text → ℕ → MessageBuffer → Replay
unfolding replay_from
get_messages_for_replay topic after s = elim (find topic s.topic_buffers) [
  | none ↦ no_replay
  | some b ↦ replay_from after b
]

unfoldable pub get_retained_message : Text → MessageBuffer → Option BufferedMessage
get_retained_message topic s = elim (find topic s.topic_buffers) [
  | none ↦ none
  | some b ↦ TopicBuffer.get_latest b
]

unfoldable pub get_current_sequence : Text → MessageBuffer → ℕ
get_current_sequence topic s = elim (find topic s.topic_buffers) [
  | none ↦ 0
  | some b ↦ TopicBuffer.current_sequence b
]

unfoldable pub is_sequence_available : Text → ℕ → MessageBuffer → Bool
is_sequence_available topic seq s = elim (find topic s.topic_buffers) [
  | none ↦ false
  | some b ↦ TopicBuffer.has_sequence seq b
]

pub record Stats : Type 0 where
  pub topic_count : ℕ
  pub total_messages : ℕ
  pub total_bytes : ℕ
  pub max_bytes : ℕ

unfoldable pub get_stats : MessageBuffer → Stats
get_stats s = record {
  topic_count = length s.topic_buffers;
  total_messages = total TopicBuffer.size s.topic_buffers;
  total_bytes = s.current_total_bytes;
  max_bytes = s.max_total_memory_bytes;
}

unfoldable pub clear : MessageBuffer → MessageBuffer
clear s = record s { topic_buffers = []; current_total_bytes = 0 }

unfoldable pub clear_topic : Text → MessageBuffer → MessageBuffer
unfolding drop_topic
clear_topic topic s = drop_topic topic s
