-- ===== src/MessageBuffer/Evict.antt =====
-- `evictForSpace` (src/core/topic_message_buffer.cpp): its loop ends, and what it leaves.
use nexus_d_pub_sub.Prelude.{
  ℕ, zero, suc, ◌≤◌, ◌<◌, ◌≡◌, refl, ◌⊎◌, inl, inr, Bool, true, false, not, ◌&&◌, Text, List, [],
  ◌∷◌, some, Bool-cases, arith, length, ltb, leb, add64, sub64, text_eq, dec_lt, ◌==◌, ==_iff,
}
use nexus_d_pub_sub.Prelude.Map.{Map, find, length-erase-lt}
use nexus_d_pub_sub.TopicBuffer.{TopicBuffer, size}
use nexus_d_pub_sub.MessageBuffer.{
  MessageBuffer, is_empty, oldest_topic, drop_topic, evict_loop, evict_for_space,
}
use nexus_d_pub_sub.MessageBuffer.Valid.{
  IsValid, Evicted, Evicted-refl, Evicted-trans, drop_topic-Evicted,
}

oldest_topic-found :
    (m : Map TopicBuffer)
    → is_empty (oldest_topic m) ≡ false
    → (b : TopicBuffer) × (find (oldest_topic m) m ≡ some b)
unfolding oldest_topic find
oldest_topic-found [] h = cc
oldest_topic-found ((topic, b) ∷ m) h = elim (Bool-cases (ltb 0 (size b))) [
  | inl holds ↦ (b, ground arith)
  | inr empty ↦
      let (c, e) = oldest_topic-found m (ground arith) in
      elim (text_eq topic (oldest_topic m)) [
        | yes same ↦ (b, ground arith)
        | no other ↦ (c, ground arith)
      ]
]

drop_topic_shrinks :
    (topic : Text) (s : MessageBuffer) (b : TopicBuffer)
    → find topic s.topic_buffers ≡ some b
    → length (drop_topic topic s).topic_buffers < length s.topic_buffers
unfolding drop_topic
drop_topic_shrinks topic s b e = ground (arith, length-erase-lt topic b s.topic_buffers)

-- After `r`, the loop has stopped by its test: enough is free, or no topic is left.
abbrev pub Stopped : ℕ → MessageBuffer → Type 0
Stopped target r = (r.current_total_bytes ≤ target) ⊎ (r.topic_buffers ≡ [])

is_empty-eq-nil {ℓ} : {A : Type ℓ} (l : List A) → is_empty l ≡ true → l ≡ []
is_empty-eq-nil [] h = refl
is_empty-eq-nil (x ∷ l) h = cc

pub loop_stops :
    (fuel target : ℕ) (s : MessageBuffer)
    → (ltb target s.current_total_bytes && not (is_empty s.topic_buffers)) ≡ false
    → evict_loop (suc fuel) target s ≡ (s, true)
unfolding evict_loop
loop_stops fuel target s h = rw (h, evict_loop)

loop_gives_up :
    (fuel target : ℕ) (s : MessageBuffer)
    → (ltb target s.current_total_bytes && not (is_empty s.topic_buffers)) ≡ true
    → is_empty (oldest_topic s.topic_buffers) ≡ true
    → evict_loop (suc fuel) target s ≡ (s, false)
unfolding evict_loop
loop_gives_up fuel target s h none_left = rw (h, none_left, evict_loop)

pub loop_evicts :
    (fuel target : ℕ) (s : MessageBuffer)
    → (ltb target s.current_total_bytes && not (is_empty s.topic_buffers)) ≡ true
    → is_empty (oldest_topic s.topic_buffers) ≡ false
    → evict_loop (suc fuel) target s
      ≡ evict_loop fuel target (drop_topic (oldest_topic s.topic_buffers) s)
unfolding evict_loop
loop_evicts fuel target s h more = rw (h, more, evict_loop)

ends_by_test :
    (target : ℕ) (s : MessageBuffer)
    → (ltb target s.current_total_bytes && not (is_empty s.topic_buffers)) ≡ false
    → Stopped target s
ends_by_test target s h = elim (Bool-cases (is_empty s.topic_buffers)) [
  | inl e ↦ inr (is_empty-eq-nil s.topic_buffers e)
  | inr e ↦ inl (ground arith)
]

-- The number of topics is fuel enough: the loop ends by its test or by its early return.
pub evict_loop-Evicted :
    (fuel target : ℕ) (s : MessageBuffer)
    → IsValid s
    → length s.topic_buffers ≤ fuel
    → Evicted s (evict_loop fuel target s).0
      × ((evict_loop fuel target s).1 ≡ true → Stopped target (evict_loop fuel target s).0)
evict_loop-Evicted zero target s v enough =
    unfold evict_loop in (Evicted-refl s v, λ ended. inr (nil s.topic_buffers enough))
  where
    nil : (m : Map TopicBuffer) → length m ≤ 0 → m ≡ []
    nil [] h = refl
    nil (x ∷ m) h = absurd (omega arith)
evict_loop-Evicted (suc fuel) target s v enough =
    elim (Bool-cases (ltb target s.current_total_bytes && not (is_empty s.topic_buffers))) [
      | inr h ↦ rw (loop_stops fuel target s h) (Evicted-refl s v, λ ended. ends_by_test target s h)
      | inl h ↦ elim (Bool-cases (is_empty (oldest_topic s.topic_buffers))) [
        | inl none_left ↦
            rw (loop_gives_up fuel target s h none_left) (Evicted-refl s v, λ ended. cc)
        | inr more ↦
            let oldest = oldest_topic s.topic_buffers in
            let (b, e) = oldest_topic-found s.topic_buffers more in
            let shrinks = drop_topic_shrinks oldest s b e in
            let first = drop_topic-Evicted oldest s v in
            let (later, stops) =
              evict_loop-Evicted fuel target (drop_topic oldest s) first.valid (omega arith) in
            rw (loop_evicts fuel target s h more) (Evicted-trans first later, stops)
      ]
    ]

module _ (needed : ℕ) (s : MessageBuffer) where
  abbrev pub looped : MessageBuffer × Bool
  looped = evict_loop (length s.topic_buffers) (sub64 s.max_total_memory_bytes needed) s

  evict_unlimited : s.max_total_memory_bytes ≡ 0 → evict_for_space needed s ≡ (s, true)
  unfolding evict_for_space
  evict_unlimited e = rw ((==_iff s.max_total_memory_bytes 0).1 e)

  pub evict_limited :
      0 < s.max_total_memory_bytes
      → evict_for_space needed s ≡ (
        looped.0,
        looped.1 && leb (add64 looped.0.current_total_bytes needed) looped.0.max_total_memory_bytes,
      )
  unfolding evict_for_space
  evict_limited p = rw (positive p)
    where
      positive : 0 < s.max_total_memory_bytes → (s.max_total_memory_bytes == 0) ≡ false
      positive p = ground arith

  looped-Evicted : IsValid s → Evicted s looped.0
  looped-Evicted v =
      (evict_loop-Evicted (length s.topic_buffers) (sub64 s.max_total_memory_bytes needed) s v
        (omega arith)).0

  -- `evictForSpace` keeps the state valid.
  pub evict_for_space-Evicted : IsValid s → Evicted s (evict_for_space needed s).0
  evict_for_space-Evicted v = elim (dec_lt 0 s.max_total_memory_bytes) [
    | yes p ↦ rw (evict_limited p) (looped-Evicted v)
    | no p ↦ rw (evict_unlimited (omega arith)) (Evicted-refl s v)
  ]

  -- Where it reports success under a limit, the bytes that are needed fit.
  pub evict_for_space_fits :
      IsValid s
      → 0 < s.max_total_memory_bytes
      → (evict_for_space needed s).1 ≡ true
      → add64 (evict_for_space needed s).0.current_total_bytes needed ≤ s.max_total_memory_bytes
  evict_for_space_fits v p ok =
      let done = rw (evict_limited p) at ok in
      rw (evict_limited p) (fits looped.1 _ _ done (looped-Evicted v).same_limit)
    where
      fits : (ended : Bool) (a b : ℕ) {c : ℕ} → (ended && leb a b) ≡ true → b ≡ c → a ≤ c
      fits ended a b h e = ground arith

-- On a valid state, with fuel for every topic, the loop ends the way the source's does: by its
-- early return, or because the target is met or no topic is left. It drops whole topics only and
-- leaves a valid state.
pub evict_loop_ends :
    (target : ℕ) (s : MessageBuffer)
    → IsValid s
    → let (r, ended) = evict_loop (length s.topic_buffers) target s in
      Evicted s r × ((ended ≡ false) ⊎ Stopped target r)
evict_loop_ends target s v =
    let (evicted, stopped) = evict_loop-Evicted (length s.topic_buffers) target s v (omega arith) in
    (
      evicted,
      elim (Bool-cases (evict_loop (length s.topic_buffers) target s).1) [
        | inl e ↦ inr (stopped e)
        | inr e ↦ inl e
      ],
    )
