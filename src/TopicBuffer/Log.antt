-- ===== src/TopicBuffer/Log.antt =====
-- The ring buffer of a topic (topic_message_buffer.hpp) against the log of all that was pushed.
use nexus_d_pub_sub.Prelude.{
  ℕ, suc, ◌+◌, ◌-◌, ◌%◌, ◌≤◌, ◌<◌, ◌≡◌, refl, sym, ap, ◌∙◌, dec_le, Text, List, [], ◌∷◌, ◌++◌, some,
  arith, length, length-append, drop, drop_cons, recent, length-recent, recent_all,
  recent-append_full, recent-append_room, u64_mod, inc64, add64, sub64,
}
use nexus_d_pub_sub.TopicBuffer.{BufferedMessage, TopicBuffer, init, push}

-- Sequence numbers count up by one from `n`.
abbrev pub Numbered : ℕ → List BufferedMessage → Type 0
Numbered n [] = Unit
Numbered n (m ∷ ms) = (m.sequence_number ≡ n) × Numbered (suc n) ms

-- The payload bytes of the messages.
unfoldable pub bytes : List BufferedMessage → ℕ
bytes [] = 0
bytes (m ∷ ms) = length m.payload + bytes ms

-- The buffer is the window of the last `max_size` entries of the log `h`.
pub record Tracks (b : TopicBuffer) (h : List BufferedMessage) : Type 0 where
  pub positive : 0 < b.max_size
  pub window : b.messages ≡ recent b.max_size h
  pub numbered : Numbered 1 h
  pub next : b.next_sequence ≡ suc (length h)
  pub range : b.next_sequence < u64_mod
  pub counted : b.total_bytes ≡ bytes b.messages % u64_mod

pub bytes-append_one :
    (ms : List BufferedMessage) (m : BufferedMessage)
    → bytes (ms ++ m ∷ []) ≡ bytes ms + length m.payload
unfolding bytes
bytes-append_one [] m = omega arith
bytes-append_one (x ∷ ms) m = omega (arith, bytes-append_one ms m)

Numbered-append_one :
    (n : ℕ) (h : List BufferedMessage) (m : BufferedMessage)
    → Numbered n h
    → m.sequence_number ≡ n + length h
    → Numbered n (h ++ m ∷ [])
Numbered-append_one n [] m d e = (omega arith, tt)
Numbered-append_one n (x ∷ h) m d e = (d.0, Numbered-append_one (suc n) h m d.1 (omega arith))

abbrev pub entry : ℕ → Text → Text → ℕ → BufferedMessage
entry now topic payload seq = record {
  sequence_number = seq;
  topic = topic;
  payload = payload;
  timestamp = now;
}

pub init-Tracks : (n : ℕ) → 0 < n → Tracks (init n) []
unfolding init bytes
init-Tracks n p = record {
  positive = p;
  window = sym (recent_all n [] (omega arith));
  numbered = tt;
  next = refl;
  range = omega arith;
  counted = refl;
}

module _ (now : ℕ) (topic payload : Text) (b : TopicBuffer) where
  abbrev pub added : BufferedMessage
  added = entry now topic payload b.next_sequence

  abbrev after_push : List BufferedMessage → ℕ → TopicBuffer
  after_push kept total = record b {
    next_sequence = inc64 b.next_sequence;
    messages = kept ++ added ∷ [];
    total_bytes = add64 total (length payload);
  }

  push_full :
      (m : BufferedMessage) (rest : List BufferedMessage)
      → b.max_size ≤ length b.messages
      → b.messages ≡ m ∷ rest
      → push now topic payload b
        ≡ some (b.next_sequence, after_push rest (sub64 b.total_bytes (length m.payload)))
  unfolding push
  push_full m rest full e = ground arith

  push_room :
      length b.messages < b.max_size
      → push now topic payload b ≡ some (b.next_sequence, after_push b.messages b.total_bytes)
  unfolding push
  push_room room = ground arith

  -- The log grows by the entry, numbered next.
  abbrev pub grown : List BufferedMessage → List BufferedMessage
  grown h = h ++ added ∷ []

  full-Tracks :
      (h : List BufferedMessage) (m : BufferedMessage) (rest : List BufferedMessage)
      → Tracks b h
      → b.next_sequence + 1 < u64_mod
      → b.max_size ≤ length h
      → b.messages ≡ m ∷ rest
      → Tracks (after_push rest (sub64 b.total_bytes (length m.payload))) (grown h)
  unfolding bytes
  full-Tracks h m rest t r full e = record {
    positive = t.positive;
    window = rw (recent-append_full b.max_size h added t.positive full, ← t.window, e) refl;
    numbered = Numbered-append_one 1 h added t.numbered (omega (arith, t.next));
    next = omega (arith, t.next, length-append h (added ∷ []));
    range = omega arith;
    counted = omega (arith, rw e at t.counted, bytes-append_one rest added);
  }

  room-Tracks :
      (h : List BufferedMessage)
      → Tracks b h
      → b.next_sequence + 1 < u64_mod
      → length h < b.max_size
      → Tracks (after_push b.messages b.total_bytes) (grown h)
  room-Tracks h t r room = record {
    positive = t.positive;
    window = rw (recent-append_room b.max_size h added room, t.window) refl;
    numbered = Numbered-append_one 1 h added t.numbered (omega (arith, t.next));
    next = omega (arith, t.next, length-append h (added ∷ []));
    range = omega arith;
    counted = omega (arith, t.counted, bytes-append_one b.messages added);
  }

  pub length-window :
      (h : List BufferedMessage)
      → Tracks b h
      → length b.messages ≡ length h - (length h - b.max_size)
  length-window h t = ap length t.window ∙ length-recent b.max_size h

  fewer_bytes :
      (m : BufferedMessage) (rest : List BufferedMessage)
      → b.messages ≡ m ∷ rest
      → bytes (rest ++ added ∷ []) ≤ bytes b.messages + length payload
  unfolding bytes
  fewer_bytes m rest e = rw e (omega (arith, bytes-append_one rest added))

  -- A push is defined on a buffer that tracks a log while the number after the next is below 2^64: it
  -- returns the next sequence number, the buffer tracks the log grown by the message and has its
  -- size, and its bytes grow by no more than those of the payload.
  pub push-Tracks :
      (h : List BufferedMessage)
      → Tracks b h
      → b.next_sequence + 1 < u64_mod
      → (b' : TopicBuffer) × (push now topic payload b ≡ some (b.next_sequence, b'))
        × (b'.max_size ≡ b.max_size)
        × Tracks b' (grown h)
        × (bytes b'.messages ≤ bytes b.messages + length payload)
  push-Tracks h t r = elim (dec_le b.max_size (length h)) [
    | yes full ↦
        let (m, e) = drop_cons (length h - b.max_size) h (omega (arith, t.positive)) in
        let rest = drop (length h - b.max_size + 1) h in
        let here = t.window ∙ e in
        (
          after_push rest (sub64 b.total_bytes (length m.payload)),
          push_full m rest (omega (arith, length-window h t)) here,
          refl,
          full-Tracks h m rest t r full here,
          fewer_bytes m rest here,
        )
    | no room ↦ (
      after_push b.messages b.total_bytes,
      push_room (omega (arith, length-window h t)),
      refl,
      room-Tracks h t r (omega arith),
      omega (arith, bytes-append_one b.messages added),
    )
  ]
