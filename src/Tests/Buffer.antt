-- ===== src/Tests/Buffer.antt =====
-- Concrete message buffers (src/core/topic_message_buffer.cpp) and hashes
-- (include/nexusd/utils/crc64.hpp).
use nexus_d_pub_sub.Prelude.{
  ℕ, ◌+◌, ◌≤◌, ◌≡◌, ◌⊎◌, refl, true, false, Text, text_eq, codes, List, [], ◌∷◌, some, arith,
}
use nexus_d_pub_sub.Prelude.Map.{find, erase, total}
use nexus_d_pub_sub.TopicBuffer.{BufferedMessage, TopicBuffer, push, has_sequence}
use nexus_d_pub_sub.TopicBuffer
use nexus_d_pub_sub.TopicBuffer.Log.{Tracks, bytes, entry, grown, push-Tracks}
use nexus_d_pub_sub.MessageBuffer.{
  MessageBuffer, topic_buffer, buffer_message, over_limit, get_messages_for_replay, no_replay,
  evict_loop, evict_for_space,
}
use nexus_d_pub_sub.MessageBuffer.Valid.{IsValid, Evicted}
use nexus_d_pub_sub.MessageBuffer.Evict.{Stopped, evict_loop_ends}
use nexus_d_pub_sub.MessageBuffer.Freed.{evict_for_space_frees}
use nexus_d_pub_sub.MessageBuffer.Store.{Buffered}
use nexus_d_pub_sub.MessageBuffer.Accept.{buffer_message-Buffered}
use nexus_d_pub_sub.MessageBuffer.Recovery.{
  expected, get_messages_for_replay-expected, restart_hides,
}
use nexus_d_pub_sub.MessageBuffer.Pause.{buffer_all, entries, buffer_all-replay}

abbrev pub t : Text
t = codes "t"

abbrev pub log : List BufferedMessage
log = entry 10 t (codes "a") 1 ∷ entry 20 t (codes "b") 2 ∷ entry 30 t (codes "c") 3 ∷ []

-- The ring of size 2 after the three messages of the log.
abbrev pub ring : TopicBuffer
ring = record {
  max_size = 2;
  next_sequence = 4;
  messages = entry 20 t (codes "b") 2 ∷ entry 30 t (codes "c") 3 ∷ [];
  total_bytes = 2;
}

pub ring-Tracks : Tracks ring log
unfolding bytes
ring-Tracks = record {
  positive = omega arith;
  window = refl;
  numbered = (refl, (refl, (refl, tt)));
  next = refl;
  range = omega arith;
  counted = refl;
}

abbrev pub buffer : MessageBuffer
buffer = record {
  topic_buffers = (t, ring) ∷ [];
  buffer_size_per_topic = 2;
  max_total_memory_bytes = 4;
  current_total_bytes = 2;
}

pub buffer-IsValid : IsValid buffer
unfolding find total bytes
buffer-IsValid = record {
  distinct = (refl, tt);
  logs = λ topic b e.
      let same : ring ≡ b = ground (arith, e) in
      (log, rw (← same) ring-Tracks, omega arith, rw (← same) refl);
  counted = refl;
  range = omega arith;
  limited = λ p. omega arith;
}

push-Tracks_example :
    (b : TopicBuffer) × (push 40 t (codes "d") ring ≡ some (4, b))
    × (b.max_size ≡ 2)
    × Tracks b (grown 40 t (codes "d") ring log)
    × (bytes b.messages ≤ bytes ring.messages + 1)
push-Tracks_example = push-Tracks 40 t (codes "d") ring log ring-Tracks (omega arith)

evict_loop_ends_example :
    let (r, ended) = evict_loop 1 1 buffer in Evicted buffer r × ((ended ≡ false) ⊎ Stopped 1 r)
evict_loop_ends_example = evict_loop_ends 1 buffer buffer-IsValid

evict_for_space_frees_example :
    let (r, ok) = evict_for_space 3 buffer in
    (ok ≡ true) × (r.current_total_bytes + 3 ≤ 4) × Evicted buffer r
unfolding find text_eq
evict_for_space_frees_example =
    evict_for_space_frees 3 buffer buffer-IsValid (omega arith) (omega arith) (omega arith) refl

buffer_message-Buffered_example :
    (seq : ℕ) × (r : MessageBuffer) × (buffer_message 40 t (codes "d") buffer ≡ some (seq, r))
    × Buffered 40 t (codes "d") buffer r seq
unfolding topic_buffer find text_eq
buffer_message-Buffered_example =
    buffer_message-Buffered 40 t (codes "d") buffer buffer-IsValid (omega arith) (omega arith)
      (omega arith)

get_messages_for_replay-expected_example : get_messages_for_replay t 1 buffer ≡ expected 2 log 1
unfolding find text_eq
get_messages_for_replay-expected_example =
    get_messages_for_replay-expected ring-Tracks (omega arith) buffer t 1 refl

-- The three bytes do not fit beside the ring of the topic, which is evicted.
abbrev evicted_buffer : MessageBuffer
evicted_buffer = record buffer { topic_buffers = []; current_total_bytes = 0 }

restart_hides_example :
    (r : MessageBuffer) × (buffer_message 40 t (codes "def") buffer ≡ some (1, r))
    × (get_messages_for_replay t 5 r ≡ no_replay)
unfolding over_limit evict_for_space TopicBuffer.size find erase text_eq
restart_hides_example =
    restart_hides 40 5 t (codes "def") buffer evicted_buffer buffer-IsValid (omega arith) refl refl
      refl (omega arith) (omega arith)

abbrev unlimited_buffer : MessageBuffer
unlimited_buffer = record buffer { max_total_memory_bytes = 0 }

abbrev missed : List (ℕ × Text)
missed = (40, codes "d") ∷ (50, codes "e") ∷ []

buffer_all-replay_example :
    (r : MessageBuffer) × (buffer_all t missed unlimited_buffer ≡ some r)
    × ((get_messages_for_replay t 3 r).messages ≡ entries t 4 missed)
    × ((get_messages_for_replay t 3 r).missed_count ≡ 0)
unfolding find text_eq
buffer_all-replay_example =
    buffer_all-replay t missed unlimited_buffer ring-Tracks (omega arith) refl refl (omega arith)
      (omega arith)
