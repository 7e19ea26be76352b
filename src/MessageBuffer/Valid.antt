-- ===== src/MessageBuffer/Valid.antt =====
-- The state of TopicMessageBuffer between two calls (src/core/topic_message_buffer.cpp).
use nexus_d_pub_sub.Prelude.{
  ℕ, ◌+◌, ◌≤◌, ◌<◌, ◌≡◌, refl, Text, List, some, arith, length, u64_mod, sub64, Option-cases, inl,
  inr, ◌∙◌,
}
use nexus_d_pub_sub.Prelude.Map.{
  Distinct, find, erase, find-erase, erase-Distinct, total, total-erase, le-total,
}
use nexus_d_pub_sub.TopicBuffer.{BufferedMessage, TopicBuffer}
use nexus_d_pub_sub.TopicBuffer.Log.{Tracks, bytes}
use nexus_d_pub_sub.MessageBuffer.{MessageBuffer, init, drop_topic}

-- A buffer of size `n` that is the window of a log with a message in it.
abbrev pub Logged : ℕ → TopicBuffer → Type 0
Logged n b = (h : List BufferedMessage) × Tracks b h × (0 < length h) × (b.max_size ≡ n)

abbrev pub payload_bytes : TopicBuffer → ℕ
payload_bytes b = bytes b.messages

pub record IsValid (s : MessageBuffer) : Type 0 where
  pub distinct : Distinct s.topic_buffers
  pub logs :
      (topic : Text) (b : TopicBuffer)
      → find topic s.topic_buffers ≡ some b
      → Logged s.buffer_size_per_topic b
  pub counted : s.current_total_bytes ≡ total payload_bytes s.topic_buffers
  pub range : s.current_total_bytes < u64_mod
  pub limited : 0 < s.max_total_memory_bytes → s.current_total_bytes ≤ s.max_total_memory_bytes

pub init-IsValid : (n limit : ℕ) → IsValid (init n limit)
unfolding init find total
init-IsValid n limit = record {
  distinct = tt;
  logs = λ topic b e. absurd (ground arith);
  counted = refl;
  range = omega arith;
  limited = λ p. omega arith;
}

module _ (s : MessageBuffer) (v : IsValid s) (topic : Text) (b : TopicBuffer) where
  -- A buffer counts its own bytes exactly, and they are part of the whole.
  pub total_bytes-bytes :
      find topic s.topic_buffers ≡ some b
      → (b.total_bytes ≡ bytes b.messages) × (bytes b.messages ≤ s.current_total_bytes)
  total_bytes-bytes e =
      let (h, t, p, n) = v.logs topic b e in
      let part = le-total payload_bytes topic b s.topic_buffers e in
      (omega (arith, t.counted, v.counted, v.range), omega (arith, v.counted))

  dropped : MessageBuffer
  dropped = record s {
    topic_buffers = erase topic s.topic_buffers;
    current_total_bytes = sub64 s.current_total_bytes b.total_bytes;
  }

  dropped_count :
      find topic s.topic_buffers ≡ some b
      → dropped.current_total_bytes + bytes b.messages ≡ s.current_total_bytes
  unfolding dropped
  dropped_count e = let (own, part) = total_bytes-bytes e in rw own (omega (arith, v.range, part))

  dropped-IsValid : find topic s.topic_buffers ≡ some b → IsValid dropped
  unfolding dropped
  dropped-IsValid e = record {
    distinct = erase-Distinct topic s.topic_buffers v.distinct;
    logs = λ j c f. v.logs j c (ground (arith, f, find-erase j topic s.topic_buffers));
    counted = omega (
      arith,
      dropped_count e,
      v.counted,
      total-erase payload_bytes topic b s.topic_buffers v.distinct e,
    );
    range = omega (arith, dropped_count e, v.range);
    limited = λ p. omega (arith, dropped_count e, v.limited p);
  }

-- What eviction may do to the state: topics disappear, those that stay are untouched.
pub record Evicted (s r : MessageBuffer) : Type 0 where
  pub valid : IsValid r
  pub same_size : r.buffer_size_per_topic ≡ s.buffer_size_per_topic
  pub same_limit : r.max_total_memory_bytes ≡ s.max_total_memory_bytes
  pub smaller : r.current_total_bytes ≤ s.current_total_bytes
  pub kept :
      (topic : Text) (b : TopicBuffer)
      → find topic r.topic_buffers ≡ some b
      → find topic s.topic_buffers ≡ some b

pub Evicted-refl : (s : MessageBuffer) → IsValid s → Evicted s s
Evicted-refl s v = record {
  valid = v;
  same_size = refl;
  same_limit = refl;
  smaller = omega arith;
  kept = λ topic b e. e;
}

pub Evicted-trans : {s r q : MessageBuffer} → Evicted s r → Evicted r q → Evicted s q
Evicted-trans a b = record {
  valid = b.valid;
  same_size = b.same_size ∙ a.same_size;
  same_limit = b.same_limit ∙ a.same_limit;
  smaller = omega (arith, a.smaller, b.smaller);
  kept = λ topic c e. a.kept topic c (b.kept topic c e);
}

-- `clearTopic` drops at most that topic and gives back its bytes.
pub drop_topic-Evicted :
    (topic : Text) (s : MessageBuffer) → IsValid s → Evicted s (drop_topic topic s)
unfolding drop_topic dropped
drop_topic-Evicted topic s v = elim (Option-cases (find topic s.topic_buffers)) [
  | inl e ↦ rw (e, drop_topic) (Evicted-refl s v)
  | inr (b, e) ↦
      rw (e, drop_topic)
        (record {
          valid = dropped-IsValid s v topic b e;
          same_size = refl;
          same_limit = refl;
          smaller = omega (arith, dropped_count s v topic b e);
          kept = λ j c f. ground (arith, f, find-erase j topic s.topic_buffers);
        })
]
