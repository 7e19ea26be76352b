-- ===== src/MessageBuffer/Store.antt =====
-- `bufferMessage` (src/core/topic_message_buffer.cpp) keeps the state valid and within its limit.
use nexus_d_pub_sub.Prelude.{
  ℕ, suc, ◌+◌, ◌≤◌, ◌<◌, ◌≡◌, refl, ◌∙◌, inl, inr, Text, text_eq, List, [], ◌∷◌, ◌++◌, none, some,
  Option-cases, arith, length, length-append, u64_mod, add64, sub64, subst, if_pos, ite,
}
use nexus_d_pub_sub.Prelude.Map.{
  find, assign, find-assign, assign-Distinct, total, total-assign, total-assign_new,
}
use nexus_d_pub_sub.TopicBuffer.{BufferedMessage, TopicBuffer, push}
use nexus_d_pub_sub.TopicBuffer
use nexus_d_pub_sub.TopicBuffer.Log.{Tracks, bytes, entry, grown, init-Tracks, push-Tracks}
use nexus_d_pub_sub.MessageBuffer.{MessageBuffer, topic_buffer, store}
use nexus_d_pub_sub.MessageBuffer.Valid.{IsValid, Logged, payload_bytes, total_bytes-bytes, Evicted}

module _ (topic : Text) (s : MessageBuffer) where
  abbrev pub before : TopicBuffer
  before = topic_buffer topic s

  pub found : (b : TopicBuffer) → find topic s.topic_buffers ≡ some b → before ≡ b
  unfolding topic_buffer
  found b e = rw (e, topic_buffer)

  pub fresh : find topic s.topic_buffers ≡ none → before ≡ TopicBuffer.init s.buffer_size_per_topic
  unfolding topic_buffer
  fresh e = rw (e, topic_buffer)

  -- The buffer that is pushed to tracks a log, and its bytes are part of the whole.
  pub topic_buffer-Tracks :
      IsValid s
      → 0 < s.buffer_size_per_topic
      → (h : List BufferedMessage) × Tracks before h × (before.max_size ≡ s.buffer_size_per_topic)
  topic_buffer-Tracks v p = elim (Option-cases (find topic s.topic_buffers)) [
    | inl e ↦
        rw (fresh e) ([], init-Tracks s.buffer_size_per_topic p, unfold TopicBuffer.init in refl)
    | inr (b, e) ↦ let (h, t, some_message, n) = v.logs topic b e in rw (found b e) (h, t, n)
  ]

  own_bytes :
      IsValid s
      → (before.total_bytes ≡ bytes before.messages)
        × (bytes before.messages ≤ s.current_total_bytes)
  own_bytes v = elim (Option-cases (find topic s.topic_buffers)) [
    | inl e ↦ rw (fresh e) (unfold TopicBuffer.init bytes in (refl, omega arith))
    | inr (b, e) ↦ rw (found b e) (total_bytes-bytes s v topic b e)
  ]

  total-assign_topic :
      (b' : TopicBuffer)
      → total payload_bytes (assign topic b' s.topic_buffers) + bytes before.messages
        ≡ total payload_bytes s.topic_buffers + bytes b'.messages
  total-assign_topic b' = elim (Option-cases (find topic s.topic_buffers)) [
    | inl e ↦ rw (fresh e) (
        unfold TopicBuffer.init bytes in
        omega (arith, total-assign_new payload_bytes topic b' s.topic_buffers e))
    | inr (b, e) ↦ rw (found b e) (total-assign payload_bytes topic b' b s.topic_buffers e)
  ]

  abbrev pub stored : TopicBuffer → MessageBuffer
  stored b' = record s {
    topic_buffers = assign topic b' s.topic_buffers;
    current_total_bytes = add64 (sub64 s.current_total_bytes before.total_bytes) b'.total_bytes;
  }

  stored-IsValid :
      (b' : TopicBuffer) (h : List BufferedMessage) (k : ℕ)
      → IsValid s
      → Tracks b' h
      → 0 < length h
      → b'.max_size ≡ s.buffer_size_per_topic
      → bytes b'.messages ≤ bytes before.messages + k
      → s.current_total_bytes + k < u64_mod
      → (0 < s.max_total_memory_bytes → s.current_total_bytes + k ≤ s.max_total_memory_bytes)
      → IsValid (stored b')
  stored-IsValid b' h k v t p n few space fits = record {
    distinct = assign-Distinct topic b' s.topic_buffers v.distinct;
    logs = logs;
    counted = omega (arith, exact, total-assign_topic b', v.counted, (own_bytes v).1);
    range = omega (arith, exact, few, space);
    limited = λ q. omega (arith, exact, few, fits q);
  }
    where
      exact :
          (stored b').current_total_bytes + bytes before.messages
          ≡ s.current_total_bytes + bytes b'.messages
      exact = let (own, part) = own_bytes v in rw own (omega (arith, t.counted, part, few, space))

      logs :
          (j : Text) (c : TopicBuffer)
          → find j (stored b').topic_buffers ≡ some c
          → Logged s.buffer_size_per_topic c
      logs j c e = elim (text_eq topic j) [
        | yes same ↦
            let here : b' ≡ c = ground (arith, e, find-assign j topic b' s.topic_buffers) in
            subst (Logged s.buffer_size_per_topic) here (h, t, p, n)
        | no other ↦ v.logs j c (ground (arith, e, find-assign j topic b' s.topic_buffers))
      ]

module _ (now : ℕ) (topic payload : Text) where
  -- The state after the message has been stored under the number `seq`.
  pub record Stored (s r : MessageBuffer) (seq : ℕ) : Type 0 where
    pub valid : IsValid r
    pub history : List BufferedMessage
    pub previous : Tracks (topic_buffer topic s) history
    pub buffer : TopicBuffer
    pub tracks : Tracks buffer (history ++ entry now topic payload seq ∷ [])
    pub found : find topic r.topic_buffers ≡ some buffer
    pub numbered : seq ≡ suc (length history)
    pub others :
        (j : Text)
        → find j r.topic_buffers ≡ ite (text_eq topic j) (some buffer) (find j s.topic_buffers)

  pub store-Stored :
      (s : MessageBuffer)
      → IsValid s
      → 0 < s.buffer_size_per_topic
      → (topic_buffer topic s).next_sequence + 1 < u64_mod
      → s.current_total_bytes + length payload < u64_mod
      → (0 < s.max_total_memory_bytes
          → s.current_total_bytes + length payload ≤ s.max_total_memory_bytes)
      → (seq : ℕ) × (r : MessageBuffer) × (store now topic payload s ≡ some (seq, r))
        × Stored s r seq
  unfolding store
  store-Stored s v p room space fits =
      let b = topic_buffer topic s in
      let (h, t, n) = topic_buffer-Tracks topic s v p in
      let (b', e, m, t', few) = push-Tracks now topic payload b h t room in
      let grew = length-append h (entry now topic payload b.next_sequence ∷ []) in
      (
        b.next_sequence,
        stored topic s b',
        rw (e, store),
        record {
          valid =
              stored-IsValid topic s b' (grown now topic payload b h) (length payload) v t'
                (omega (arith, grew)) (m ∙ n) few space fits;
          history = h;
          previous = t;
          buffer = b';
          tracks = t';
          found =
              find-assign topic topic b' s.topic_buffers ∙ if_pos (text_eq topic topic) refl _ _;
          numbered = t.next;
          others = λ j. find-assign j topic b' s.topic_buffers;
        },
      )

  -- The message is refused under the number 0, or stored under the next number of its topic in a
  -- state from which whole topics may have been evicted. The state stays valid.
  pub data Buffered (s r : MessageBuffer) (seq : ℕ) : Type 0 where
    refused :
        seq ≡ 0
        → 0 < s.max_total_memory_bytes
        → s.max_total_memory_bytes < s.current_total_bytes + length payload
        → Evicted s r
        → Buffered s r seq
    accepted : (q : MessageBuffer) → Evicted s q → Stored q r seq → Buffered s r seq
