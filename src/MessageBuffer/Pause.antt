-- ===== src/MessageBuffer/Pause.antt =====
-- A pause of a client of TopicMessageBuffer (src/core/topic_message_buffer.cpp): messages are buffered,
-- and then replayed to it.
use nexus_d_pub_sub.Prelude.{
  ℕ, suc, ◌+◌, ◌≤◌, ◌<◌, ◌≡◌, refl, ap, subst, ◌∙◌, false, Text, text_eq, List, [], ◌∷◌, ◌++◌,
  Option, none, some, arith, length, length-append, drop, recent_all, u64_mod, if_pos, add64, sub64,
}
use mathlib.Core.List.{append_assoc, append-nil}
use nexus_d_pub_sub.Prelude.Map.{find, assign, find-assign}
use nexus_d_pub_sub.TopicBuffer.{BufferedMessage, TopicBuffer}
use nexus_d_pub_sub.TopicBuffer
use nexus_d_pub_sub.TopicBuffer.Log.{Tracks, entry, push-Tracks}
use nexus_d_pub_sub.MessageBuffer.{
  MessageBuffer, store, over_limit, buffer_message, get_messages_for_replay,
}
use nexus_d_pub_sub.MessageBuffer.Store.{found}
use nexus_d_pub_sub.MessageBuffer.Accept.{within_limit}
use nexus_d_pub_sub.MessageBuffer.Recovery.{get_messages_for_replay-expected}

-- Messages buffered for a topic, each with its time.
unfoldable pub buffer_all : Text → List (ℕ × Text) → MessageBuffer → Option MessageBuffer
buffer_all topic [] s = some s
buffer_all topic ((now, payload) ∷ ms) s = elim (buffer_message now topic payload s) [
  | none ↦ none
  | some (seq, r) ↦ buffer_all topic ms r
]

-- The log entries that they make from the number `n` on.
abbrev pub entries : Text → ℕ → List (ℕ × Text) → List BufferedMessage
entries topic n [] = []
entries topic n ((now, payload) ∷ ms) = entry now topic payload n ∷ entries topic (suc n) ms

length-entries :
    (topic : Text) (n : ℕ) (ms : List (ℕ × Text)) → length (entries topic n ms) ≡ length ms
length-entries topic n [] = refl
length-entries topic n (m ∷ ms) = ap (λ k. suc k) (length-entries topic (suc n) ms)

-- The buffer after `store` put `b` for the topic.
abbrev put : Text → TopicBuffer → TopicBuffer → MessageBuffer → MessageBuffer
put topic b b' s = record s {
  topic_buffers = assign topic b' s.topic_buffers;
  current_total_bytes = add64 (sub64 s.current_total_bytes b.total_bytes) b'.total_bytes;
}

store_found :
    (now : ℕ) (topic payload : Text) (s : MessageBuffer) (b b' : TopicBuffer) (seq : ℕ)
    → find topic s.topic_buffers ≡ some b
    → TopicBuffer.push now topic payload b ≡ some (seq, b')
    → store now topic payload s ≡ some (seq, put topic b b' s)
unfolding store
store_found now topic payload s b b' seq e f =
    rw (found topic s b e, store, f) (ap (λ c. some (seq, put topic c b' s)) (found topic s b e))

unlimited :
    (needed : ℕ) (s : MessageBuffer) → s.max_total_memory_bytes ≡ 0 → over_limit needed s ≡ false
unfolding over_limit
unlimited needed s e = ground (arith, e)

buffer_found :
    (now : ℕ) (topic payload : Text) (s : MessageBuffer) (b b' : TopicBuffer) (seq : ℕ)
    → s.max_total_memory_bytes ≡ 0
    → find topic s.topic_buffers ≡ some b
    → TopicBuffer.push now topic payload b ≡ some (seq, b')
    → buffer_message now topic payload s ≡ some (seq, put topic b b' s)
buffer_found now topic payload s b b' seq z e f =
    within_limit now topic payload s (unlimited (length payload) s z)
    ∙ store_found now topic payload s b b' seq e f

-- What buffering leaves for the topic: a ring that tracks the log with the messages.
abbrev Grown : Text → ℕ → List BufferedMessage → List (ℕ × Text) → MessageBuffer → Type 0
Grown topic size h ms s =
    (r : MessageBuffer) × (b : TopicBuffer) × (buffer_all topic ms s ≡ some r)
    × (find topic r.topic_buffers ≡ some b)
    × Tracks b (h ++ entries topic (suc (length h)) ms)
    × (b.max_size ≡ size)

grown_log :
    (now : ℕ) (topic payload : Text) (h : List BufferedMessage) (ms : List (ℕ × Text)) {n m : ℕ}
    → n ≡ suc (length h)
    → m ≡ suc (length h)
    → (h ++ entry now topic payload n ∷ []) ++ entries topic (suc m) ms
      ≡ h ++ entries topic (suc (length h)) ((now, payload) ∷ ms)
grown_log now topic payload h ms {n} {m} p q =
    rw (p, q)
      (append_assoc h (entry now topic payload (suc (length h)) ∷ [])
        (entries topic (suc (suc (length h))) ms))

buffer_all-Grown :
    (topic : Text) (ms : List (ℕ × Text)) (s : MessageBuffer) (b : TopicBuffer)
    (h : List BufferedMessage)
    → Tracks b h
    → s.max_total_memory_bytes ≡ 0
    → find topic s.topic_buffers ≡ some b
    → b.next_sequence + length ms < u64_mod
    → Grown topic b.max_size h ms s
unfolding buffer_all
buffer_all-Grown topic [] s b h t z e room = (s, b, refl, e, rw (append-nil h) t, refl)
buffer_all-Grown topic ((now, payload) ∷ ms) s b h t z e room =
    let (b', pushed, same_size, t', _) = push-Tracks now topic payload b h t (omega arith) in
    let done = buffer_found now topic payload s b b' b.next_sequence z e pushed in
    let s' : MessageBuffer = put topic b b' s in
    let here : find topic s'.topic_buffers ≡ some b' =
      find-assign topic topic b' s.topic_buffers ∙ if_pos (text_eq topic topic) refl _ _ in
    let h' = h ++ entry now topic payload b.next_sequence ∷ [] in
    let longer : length h' ≡ suc (length h) =
      length-append h (entry now topic payload b.next_sequence ∷ []) ∙ omega arith in
    let (r, b'', rest, found, t'', size) =
      buffer_all-Grown topic ms s' b' h' t' z here (omega (arith, room, t'.next, t.next, longer)) in
    (
      r,
      b'',
      rw (done, buffer_all) rest,
      found,
      subst (Tracks b'') (grown_log now topic payload h ms t.next longer) t'',
      size ∙ same_size,
    )

entries_left : (h es : List BufferedMessage) → drop (length h) (h ++ es) ≡ es
entries_left [] es = refl
entries_left (m ∷ h) es = entries_left h es

-- Where memory is not limited, a topic's ring is the window of a log with a message in it and the
-- topic's numbers stay below 2^64 - 1, the messages buffered next for the topic, if they are no
-- more than the ring holds, are all replayed, in order and with nothing missed, to a client that
-- had seen the log before them.
pub buffer_all-replay :
    {b : TopicBuffer} {h : List BufferedMessage} (topic : Text) (ms : List (ℕ × Text))
    (s : MessageBuffer)
    → Tracks b h
    → 0 < length h
    → s.max_total_memory_bytes ≡ 0
    → find topic s.topic_buffers ≡ some b
    → b.next_sequence + length ms < u64_mod
    → length ms ≤ b.max_size
    → (r : MessageBuffer) × (buffer_all topic ms s ≡ some r)
      × ((get_messages_for_replay topic (length h) r).messages ≡ entries topic (suc (length h)) ms)
      × ((get_messages_for_replay topic (length h) r).missed_count ≡ 0)
buffer_all-replay {b} {h} topic ms s t seen z e room fits =
    let (r, b', done, found, t', size) = buffer_all-Grown topic ms s b h t z e room in
    let es = entries topic (suc (length h)) ms in
    let more = length-append h es in
    let few = length-entries topic (suc (length h)) ms in
    let left = entries_left h es in
    let replay =
      get_messages_for_replay-expected t' (omega (arith, more, seen)) r topic (length h) found in
    (
      r,
      done,
      rw (replay, left, size) (ground (arith, few, seen, recent_all b.max_size es)),
      rw (replay, left, size) (ground (arith, few, seen)),
    )
