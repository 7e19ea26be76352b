-- ===== src/MessageBuffer/Recovery.antt =====
-- `getMessagesForReplay` (src/core/topic_message_buffer.cpp) against the log of a topic.
use nexus_d_pub_sub.MessageBuffer.Evict.{evict_for_space-Evicted, evict_for_space_fits}
use nexus_d_pub_sub.Prelude.{
  ℕ, ◌+◌, ◌-◌, ◌≤◌, ◌<◌, ◌≡◌, ap, ◌∙◌, true, false, Text, List, [], ◌∷◌, ◌++◌, none, some, arith,
  length, length-drop, drop, drop_all, last?, recent, leb, ◌==◌, if◌then◌else◌, u64_mod, drop-nil,
  length-append, subst,
}
use nexus_d_pub_sub.Prelude.Map.{find}
use nexus_d_pub_sub.TopicBuffer.{BufferedMessage, TopicBuffer}
use nexus_d_pub_sub.TopicBuffer
use nexus_d_pub_sub.TopicBuffer.Log.{Tracks, entry}
use nexus_d_pub_sub.TopicBuffer.Replay.{
  get_messages_after-recent, current_sequence-length, oldest_sequence_lem, get_latest-last?,
}
use nexus_d_pub_sub.MessageBuffer.{
  MessageBuffer, Replay, no_replay, replay_from, get_messages_for_replay, topic_buffer, over_limit,
  buffer_message, store, evict_for_space,
}
use nexus_d_pub_sub.MessageBuffer.Valid.{IsValid, Evicted}
use nexus_d_pub_sub.MessageBuffer.Store.{store-Stored, fresh}
use nexus_d_pub_sub.MessageBuffer.Accept.{over_limit_lem, made_space}

-- What a client that has seen `after` messages of the log `h` should get from a ring of `n`: all
-- that it has not seen, but for the oldest when there are more than `n` of them, which are counted
-- as missed. A gap is reported as soon as there are `n` of them. A client at 0 asks for the latest
-- message only.
abbrev pub expected : ℕ → List BufferedMessage → ℕ → Replay
expected n h after =
    let unseen = drop after h in
    let latest : Replay = record {
      messages = elim (last? h) [ none ↦ [] | some m ↦ m ∷ [] ];
      gap_detected = false;
      missed_count = 0;
    } in
    if after == 0 then latest else record {
      messages = recent n unseen;
      gap_detected = leb n (length unseen);
      missed_count = length unseen - n;
    }

module _ {b : TopicBuffer} {h : List BufferedMessage} (t : Tracks b h) (p : 0 < length h) where
  all_seen : (after : ℕ) → length h ≤ after → recent b.max_size (drop after h) ≡ []
  all_seen after q = rw (drop_all after h q) (drop-nil (0 - b.max_size))

  replay_from-expected : (after : ℕ) → replay_from after b ≡ expected b.max_size h after
  unfolding replay_from
  replay_from-expected after =
      rw
        (
          get_messages_after-recent t after,
          current_sequence-length t,
          oldest_sequence_lem t p,
          get_latest-last? t,
        )
        (ground (arith, length-drop after h, t.next, t.range, all_seen after))

  -- A topic's ring is the window of a log with a message in it. A client at number 0 is replayed
  -- the latest message of the log alone, without a gap. A client at a later number is replayed the
  -- messages of the log after it, but for those that the ring no longer has, whose number is
  -- reported as missed. The gap is reported if some are missing, and also when the ring holds
  -- nothing but messages that the client has not seen, where none is missing: that is more than the
  -- source documents as a gap.
  pub get_messages_for_replay-expected :
      (s : MessageBuffer) (topic : Text) (after : ℕ)
      → find topic s.topic_buffers ≡ some b
      → get_messages_for_replay topic after s ≡ expected b.max_size h after
  unfolding get_messages_for_replay
  get_messages_for_replay-expected s topic after e =
      rw (e, get_messages_for_replay) (replay_from-expected after)

expected_seen :
    (n : ℕ) (h : List BufferedMessage) (after : ℕ)
    → 0 < n
    → 0 < after
    → length h ≤ after
    → expected n h after ≡ no_replay
expected_seen n h after p q seen =
    let none_left = drop_all after h seen in
    rw none_left (ground (arith, drop-nil {A = BufferedMessage} (0 - n)))

-- The next message of a topic without a ring.
restarts :
    (now after : ℕ) (topic payload : Text) (s : MessageBuffer)
    → IsValid s
    → 0 < s.buffer_size_per_topic
    → find topic s.topic_buffers ≡ none
    → s.current_total_bytes + length payload < u64_mod
    → (0 < s.max_total_memory_bytes
        → s.current_total_bytes + length payload ≤ s.max_total_memory_bytes)
    → 0 < after
    → (r : MessageBuffer) × (store now topic payload s ≡ some (1, r))
      × (get_messages_for_replay topic after r ≡ no_replay)
unfolding TopicBuffer.init
restarts now after topic payload s v p e space fits q =
    let start = fresh topic s e in
    let room : (topic_buffer topic s).next_sequence + 1 < u64_mod = rw start (omega arith) in
    let (seq, r, done, st) = store-Stored now topic payload s v p room space fits in
    let empty : length st.history ≡ 0 = omega (arith, (rw start at st.previous).next) in
    let h = st.history ++ entry now topic payload seq ∷ [] in
    let one : length h ≡ 1 =
      omega (arith, length-append st.history (entry now topic payload seq ∷ [])) in
    let first : seq ≡ 1 = omega (arith, st.numbered) in
    (
      r,
      done ∙ ap (λ k. some (k, r)) first,
      get_messages_for_replay-expected st.tracks (omega arith) r topic after st.found
          ∙ expected_seen st.buffer.max_size h after st.tracks.positive q (omega arith),
    )

-- On a valid state with a positive ring size whose byte count does not overflow, a message is over the
-- memory limit, and `bufferMessage` makes room for it by an eviction that takes the
-- ring of its own topic. Then the topic's numbers start again: the message is numbered 1, and a client
-- that resumes after it, with any number from 1 on, is told that it is up to date, without a message
-- and without a gap.
pub restart_hides :
    (now after : ℕ) (topic payload : Text) (s q : MessageBuffer)
    → IsValid s
    → 0 < s.buffer_size_per_topic
    → over_limit (length payload) s ≡ true
    → evict_for_space (length payload) s ≡ (q, true)
    → find topic q.topic_buffers ≡ none
    → s.current_total_bytes + length payload < u64_mod
    → 0 < after
    → (r : MessageBuffer) × (buffer_message now topic payload s ≡ some (1, r))
      × (get_messages_for_replay topic after r ≡ no_replay)
restart_hides now after topic payload s q v p over evicts gone space seen =
    let freed = ap (λ x. x.0) evicts in
    let ok = ap (λ x. x.1) evicts in
    let ev = subst (Evicted s) freed (evict_for_space-Evicted (length payload) s v) in
    let exceeded = over_limit_lem (length payload) s over in
    let fits = rw freed at (evict_for_space_fits (length payload) s v exceeded.0 ok) in
    let space' : q.current_total_bytes + length payload < u64_mod = omega (arith, ev.smaller) in
    let (r, done, hidden) =
      restarts now after topic payload q ev.valid (omega (arith, ev.same_size)) gone space'
        (λ limited. omega (arith, fits, ev.same_limit, space')) seen in
    (r, made_space now topic payload s over ok ∙ ap (store now topic payload) freed ∙ done, hidden)
