-- ===== src/TopicBuffer/Replay.antt =====
-- What a topic's buffer (topic_message_buffer.hpp) replays, against the log.
use nexus_d_pub_sub.Prelude.{
  ℕ, zero, suc, ◌+◌, ◌-◌, ◌≤◌, ◌<◌, ◌≡◌, sym, ap, subst, ◌∙◌, ◌↔◌, true, ◌&&◌, List, [], ◌∷◌, some,
  arith, length, length-drop, drop, drop-drop, drop-nil, dec_lt, drop_cons, last?_cons, last?-drop,
  recent_all, last?, recent, leb,
}
use nexus_d_pub_sub.TopicBuffer.{
  BufferedMessage, TopicBuffer, messages_after, get_messages_after, get_latest, current_sequence,
  oldest_sequence, has_sequence,
}
use nexus_d_pub_sub.TopicBuffer.Log.{Numbered, Tracks}

Numbered-drop : (n k : ℕ) (ms : List BufferedMessage) → Numbered n ms → Numbered (n + k) (drop k ms)
Numbered-drop n zero ms d = subst (λ t. Numbered t ms) (omega arith) d
Numbered-drop n (suc k) [] d = tt
Numbered-drop n (suc k) (m ∷ ms) d =
    subst (λ t. Numbered t (drop k ms)) (omega arith) (Numbered-drop (suc n) k ms d.1)

-- A run of consecutive numbers is cut once.
messages_after-drop :
    (after n : ℕ) (ms : List BufferedMessage)
    → Numbered n ms
    → messages_after after ms ≡ drop (suc after - n) ms
unfolding messages_after
messages_after-drop after n [] d = sym (drop-nil (suc after - n))
messages_after-drop after n (m ∷ ms) d = elim (dec_lt after n) [
  | yes p ↦
      let none_left : suc after - suc n ≡ 0 = omega arith in
      let rest : messages_after after ms ≡ ms =
        messages_after-drop after (suc n) ms d.1 ∙ ap (λ t. drop t ms) none_left in
      let here : suc after - n ≡ 0 = omega arith in rw here (ground (arith, rest, d.0))
  | no p ↦
      let here : suc after - n ≡ suc (suc after - suc n) = omega arith in
      rw here (ground (arith, messages_after-drop after (suc n) ms d.1, d.0))
]

Numbered-last :
    (n : ℕ) (m : BufferedMessage) (ms : List BufferedMessage) {l : BufferedMessage}
    → Numbered n (m ∷ ms)
    → last? (m ∷ ms) ≡ some l
    → l.sequence_number ≡ n + length ms
Numbered-last n m [] d e = ground (arith, d.0)
Numbered-last n m (x ∷ ms) d e = omega (arith, Numbered-last (suc n) x ms d.1 e)

has_sequence_ends :
    (s : ℕ) (b : TopicBuffer) (m l : BufferedMessage) (ms : List BufferedMessage)
    → b.messages ≡ m ∷ ms
    → last? b.messages ≡ some l
    → has_sequence s b ≡ (leb m.sequence_number s && leb s l.sequence_number)
unfolding has_sequence
has_sequence_ends s b m l ms e f = ground arith

module _ {b : TopicBuffer} {h : List BufferedMessage} (t : Tracks b h) where
  Numbered-window : Numbered (1 + (length h - b.max_size)) b.messages
  Numbered-window =
      subst (Numbered _) (sym t.window) (Numbered-drop 1 (length h - b.max_size) h t.numbered)

  -- The messages after `s` that the buffer holds are the last `max_size` of the log after `s`.
  pub get_messages_after-recent : (s : ℕ) → get_messages_after s b ≡ recent b.max_size (drop s h)
  unfolding get_messages_after
  get_messages_after-recent s =
      messages_after-drop s (1 + j) b.messages Numbered-window
      ∙ ap (drop (suc s - (1 + j))) t.window
      ∙ drop-drop (suc s - (1 + j)) j h
      ∙ ap (λ k. drop k h) (omega (arith, length-drop s h))
      ∙ sym (drop-drop (length (drop s h) - b.max_size) s h)
    where
      j : ℕ
      j = length h - b.max_size

  pub current_sequence-length : current_sequence b ≡ length h
  unfolding current_sequence
  current_sequence-length = omega (arith, t.next, t.range)

  pub oldest_sequence_lem : 0 < length h → oldest_sequence b ≡ 1 + (length h - b.max_size)
  unfolding oldest_sequence
  oldest_sequence_lem p =
      let (m, e) = drop_cons (length h - b.max_size) h (omega (arith, t.positive)) in
      let first = subst (Numbered _) (t.window ∙ e) Numbered-window in
      rw (t.window ∙ e, oldest_sequence) first.0

  -- The latest message is the latest of the log.
  pub get_latest-last? : get_latest b ≡ last? h
  unfolding get_latest
  get_latest-last? = elim (dec_lt 0 (length h)) [
    | yes p ↦ ap last? t.window ∙ last?-drop (length h - b.max_size) h (omega (arith, t.positive))
    | no p ↦ ap last? (t.window ∙ recent_all b.max_size h (omega arith))
  ]

  -- A sequence number is available exactly when it is one of the last `max_size` of the log.
  pub has_sequence_iff :
      (s : ℕ)
      → 0 < length h
      → (has_sequence s b ≡ true) ↔ ((length h - b.max_size < s) × (s ≤ length h))
  has_sequence_iff s p =
      let j = length h - b.max_size in
      let (m, e) = drop_cons j h (omega (arith, t.positive)) in
      let first = subst (Numbered _) (t.window ∙ e) Numbered-window in
      let (l, final) = last?_cons m (drop (j + 1) h) in
      let top = Numbered-last (1 + j) m (drop (j + 1) h) first final in
      rw (has_sequence_ends s b m l _ (t.window ∙ e) (ap last? (t.window ∙ e) ∙ final))
        (ground (arith, top, first.0, length-drop (j + 1) h, t.positive))
