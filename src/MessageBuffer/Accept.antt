-- ===== src/MessageBuffer/Accept.antt =====
-- `bufferMessage` as a whole (src/core/topic_message_buffer.cpp), eviction included.
use nexus_d_pub_sub.Prelude.{
  ℕ, ◌+◌, ◌≤◌, ◌<◌, ◌≡◌, refl, ◌∙◌, inl, inr, Bool, true, false, Text, some, Option-cases,
  Bool-cases, arith, length, u64_mod,
}
use nexus_d_pub_sub.Prelude.Map.{find}
use nexus_d_pub_sub.TopicBuffer.{BufferedMessage, TopicBuffer, push}
use nexus_d_pub_sub.TopicBuffer
use nexus_d_pub_sub.MessageBuffer.{
  MessageBuffer, topic_buffer, store, over_limit, evict_for_space, buffer_message,
}
use nexus_d_pub_sub.MessageBuffer.Valid.{IsValid, Evicted, Evicted-refl}
use nexus_d_pub_sub.MessageBuffer.Evict.{evict_for_space-Evicted, evict_for_space_fits}
use nexus_d_pub_sub.MessageBuffer.Store.{fresh, found, store-Stored, Buffered, refused, accepted}

room_left :
    (topic : Text) (s q : MessageBuffer)
    → Evicted s q
    → (topic_buffer topic s).next_sequence + 1 < u64_mod
    → (topic_buffer topic q).next_sequence + 1 < u64_mod
room_left topic s q ev room = elim (Option-cases (find topic q.topic_buffers)) [
  | inl e ↦ rw (fresh topic q e) (unfold TopicBuffer.init in omega arith)
  | inr (b, e) ↦ rw (found topic q b e) (rw (found topic s b (ev.kept topic b e)) at room)
]

pub under_limit :
    (needed : ℕ) (s : MessageBuffer)
    → over_limit needed s ≡ false
    → s.current_total_bytes + needed < u64_mod
    → 0 < s.max_total_memory_bytes
    → s.current_total_bytes + needed ≤ s.max_total_memory_bytes
unfolding over_limit
under_limit needed s h space p = ground arith

pub over_limit_lem :
    (needed : ℕ) (s : MessageBuffer)
    → over_limit needed s ≡ true
    → (0 < s.max_total_memory_bytes) × (s.max_total_memory_bytes < s.current_total_bytes + needed)
unfolding over_limit
over_limit_lem needed s h = ground arith

module _ (now : ℕ) (topic payload : Text) (s : MessageBuffer) where
  abbrev freed : MessageBuffer × Bool
  freed = evict_for_space (length payload) s

  pub within_limit :
      over_limit (length payload) s ≡ false
      → buffer_message now topic payload s ≡ store now topic payload s
  unfolding buffer_message
  within_limit e = rw (e, buffer_message)

  no_space :
      over_limit (length payload) s ≡ true
      → freed.1 ≡ false
      → buffer_message now topic payload s ≡ some (0, freed.0)
  unfolding buffer_message
  no_space e f = rw (e, f, buffer_message)

  pub made_space :
      over_limit (length payload) s ≡ true
      → freed.1 ≡ true
      → buffer_message now topic payload s ≡ store now topic payload freed.0
  unfolding buffer_message
  made_space e f = rw (e, f, buffer_message)

  -- `bufferMessage` is defined on every valid state with a positive ring size, while the topic's
  -- numbers and the byte count do not overflow. Before anything else it may evict whole topics,
  -- that of the message included. Either it then refuses the message under the number 0, which
  -- needs a positive limit that the message would pass, or it appends the message to the topic's
  -- ring, as eviction left it: the ring was the window of a log, and the message gets the number
  -- after the last of that log, which is 1 where the topic has no ring or lost it. In both cases
  -- the state is valid again: every ring is the window of a log, the byte count is exact and does
  -- not exceed a positive limit.
  pub buffer_message-Buffered :
      IsValid s
      → 0 < s.buffer_size_per_topic
      → (topic_buffer topic s).next_sequence + 1 < u64_mod
      → s.current_total_bytes + length payload < u64_mod
      → (seq : ℕ) × (r : MessageBuffer) × (buffer_message now topic payload s ≡ some (seq, r))
        × Buffered now topic payload s r seq
  buffer_message-Buffered v p room space = elim (Bool-cases (over_limit (length payload) s)) [
    | inr fits ↦
        let (seq, r, e, stored) =
          store-Stored now topic payload s v p room space
            (under_limit (length payload) s fits space) in
        (seq, r, within_limit fits ∙ e, accepted s (Evicted-refl s v) stored)
    | inl over ↦
        let ev = evict_for_space-Evicted (length payload) s v in
        let exceeded = over_limit_lem (length payload) s over in
        elim (Bool-cases freed.1) [
          | inr full ↦ (0, freed.0, no_space over full, refused refl exceeded.0 exceeded.1 ev)
          | inl free ↦
              let fits = evict_for_space_fits (length payload) s v exceeded.0 free in
              let space' : freed.0.current_total_bytes + length payload < u64_mod =
                omega (arith, ev.smaller) in
              let limit = ev.same_limit in
              let (seq, r, e, stored) =
                store-Stored now topic payload freed.0 ev.valid (omega (arith, ev.same_size))
                  (room_left topic s freed.0 ev room) space'
                  (λ q. omega (arith, fits, limit, space')) in
              (seq, r, made_space over free ∙ e, accepted freed.0 ev stored)
        ]
  ]
