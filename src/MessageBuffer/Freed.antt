-- ===== src/MessageBuffer/Freed.antt =====
-- When `evictForSpace` (src/core/topic_message_buffer.cpp) succeeds, and what is free then.
use mathlib.Core.Option.{none-ne-some}
use nexus_d_pub_sub.Prelude.{
  ℕ, zero, suc, ◌≤◌, ◌<◌, ◌≡◌, refl, inl, inr, true, false, not, ◌&&◌, Text, [], ◌∷◌, some,
  Bool-cases, arith, length, ltb, sub64, ◌+◌, ◌-◌, sym, ap, ◌∙◌, none, Option-cases, u64_mod,
  length-drop,
}
use nexus_d_pub_sub.Prelude.Map.{Map, find, find_here, total}
use nexus_d_pub_sub.TopicBuffer.{TopicBuffer, size}
use nexus_d_pub_sub.MessageBuffer.{
  MessageBuffer, is_empty, oldest_topic, drop_topic, evict_loop, evict_for_space,
}
use nexus_d_pub_sub.MessageBuffer.Valid.{IsValid, Evicted, drop_topic-Evicted, payload_bytes}
use nexus_d_pub_sub.MessageBuffer.Evict.{
  Stopped, loop_stops, loop_evicts, evict_loop-Evicted, looped, evict_limited,
}

-- A ring of a valid state has a message.
ring_has_message :
    (s : MessageBuffer)
    → IsValid s
    → (topic : Text) (b : TopicBuffer) → find topic s.topic_buffers ≡ some b
    → 0 < size b
unfolding size
ring_has_message s v topic b e =
    let (h, t, some_message, n) = v.logs topic b e in
    rw t.window (omega (arith, length-drop (length h - b.max_size) h, t.positive, some_message))

-- Where every ring has a message and no topic is the empty string, the loop finds a topic to evict.
oldest_topic_named :
    (m : Map TopicBuffer)
    → ((topic : Text) (b : TopicBuffer) → find topic m ≡ some b → 0 < size b)
    → find [] m ≡ none
    → is_empty m ≡ false
    → is_empty (oldest_topic m) ≡ false
unfolding oldest_topic
oldest_topic_named [] full unnamed h = cc
oldest_topic_named (([], b) ∷ m) full unnamed h =
    absurd (none-ne-some b (sym unnamed ∙ find_here [] [] b m refl))
oldest_topic_named ((c ∷ topic, b) ∷ m) full unnamed h =
    let has_message = full (c ∷ topic) b (find_here (c ∷ topic) (c ∷ topic) b m refl) in
    ground (arith, has_message)

unnamed_kept :
    {s r : MessageBuffer}
    → Evicted s r
    → find [] s.topic_buffers ≡ none
    → find [] r.topic_buffers ≡ none
unnamed_kept {r = r} ev unnamed = elim (Option-cases (find [] r.topic_buffers)) [
  | inl e ↦ e
  | inr (b, e) ↦ absurd (none-ne-some b (sym unnamed ∙ ev.kept [] b e))
]

-- It then never takes its early return.
evict_loop-named :
    (fuel target : ℕ) (s : MessageBuffer)
    → IsValid s
    → find [] s.topic_buffers ≡ none
    → (evict_loop fuel target s).1 ≡ true
evict_loop-named zero target s v unnamed = unfold evict_loop in refl
evict_loop-named (suc fuel) target s v unnamed =
    elim (Bool-cases (ltb target s.current_total_bytes && not (is_empty s.topic_buffers))) [
      | inr h ↦ rw (loop_stops fuel target s h) refl
      | inl h ↦
          let oldest = oldest_topic s.topic_buffers in
          let more =
            oldest_topic_named s.topic_buffers (ring_has_message s v) unnamed (ground (arith, h)) in
          let first = drop_topic-Evicted oldest s v in
          rw (loop_evicts fuel target s h more) (
            evict_loop-named fuel target (drop_topic oldest s) first.valid
              (unnamed_kept first unnamed))
    ]

Stopped-fits :
    (target : ℕ) (r : MessageBuffer) → IsValid r → Stopped target r → r.current_total_bytes ≤ target
unfolding total
Stopped-fits target r v (inl fits) = fits
Stopped-fits target r v (inr none_left) =
    let empty : r.current_total_bytes ≡ 0 = v.counted ∙ ap (total payload_bytes) none_left in
    omega (arith, empty)

-- On a valid state with a positive limit below 2^64, `evictForSpace` frees the bytes that are asked
-- for, if they are no more than the limit and no topic of the buffer is the empty string: it
-- succeeds, the bytes that stay and those asked for are together within the limit, and it has
-- dropped whole topics only.
pub evict_for_space_frees :
    (needed : ℕ) (s : MessageBuffer)
    → IsValid s
    → 0 < s.max_total_memory_bytes
    → s.max_total_memory_bytes < u64_mod
    → needed ≤ s.max_total_memory_bytes
    → find [] s.topic_buffers ≡ none
    → let (r, ok) = evict_for_space needed s in
      (ok ≡ true) × (r.current_total_bytes + needed ≤ s.max_total_memory_bytes) × Evicted s r
evict_for_space_frees needed s v p range few unnamed =
    let target = sub64 s.max_total_memory_bytes needed in
    let ended = evict_loop-named (length s.topic_buffers) target s v unnamed in
    let (evicted, stops) = evict_loop-Evicted (length s.topic_buffers) target s v (omega arith) in
    let fits = Stopped-fits target (looped needed s).0 evicted.valid (stops ended) in
    let within : (looped needed s).0.current_total_bytes + needed ≤ s.max_total_memory_bytes =
      omega (arith, fits) in
    rw (evict_limited needed s p)
      (ground (arith, ended, within, evicted.same_limit), within, evicted)
