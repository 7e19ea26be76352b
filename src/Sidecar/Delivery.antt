-- ===== src/Sidecar/Delivery.antt =====
-- Who gets a message (`deliverFromRemote` and Publish, src/services/sidecar_service.cpp).
use nexus_d_pub_sub.PeerRegistry.Subscriptions.{update_subscription_sequence}
use mathlib.Core.Option.{some-injective, none-ne-some}
use nexus_d_pub_sub.Prelude.{
  ℕ, ◌+◌, ◌<◌, ◌≡◌, refl, ap, ◌∙◌, Text, text_eq, [], ◌∷◌, none, some, Bool-cases, inl, inr, arith,
  if◌then◌else◌, length, u64_mod, Bool, false, not, ◌||◌, All, subst, Option, true, Option-cases,
}
use nexus_d_pub_sub.Prelude.Int.{ℤ}
use nexus_d_pub_sub.Prelude.Map.{Map, find, find_here, find_later}
use nexus_d_pub_sub.SubscriberQueue.{effective_ttl}
use nexus_d_pub_sub.MessageBuffer.{topic_buffer, buffer_message}
use nexus_d_pub_sub.MessageBuffer.Valid.{IsValid}
use nexus_d_pub_sub.MessageBuffer.Store.{Buffered}
use nexus_d_pub_sub.MessageBuffer.Accept.{buffer_message-Buffered}
use nexus_d_pub_sub.Stream.{
  MessageEvent, Stream, is_enqueued, ReactorKind, for_subscribe, for_resume,
}
use nexus_d_pub_sub.PeerRegistry.{PeerRegistry}
use nexus_d_pub_sub.Sidecar.{Sidecar, MessageEnvelope, Env}
use nexus_d_pub_sub.Sidecar.Deliver.{
  event_of, matches, send, deliver_one, deliver_all, deliver_from_remote, deliver_to,
}

-- The stream's reactor is of the class that `deliverFromRemote` casts it to, if it is set.
unfoldable pub is_castable : Option ReactorKind → Bool
is_castable none = true
is_castable (some for_subscribe) = true
is_castable (some for_resume) = false

-- A stream that is active and has the topic belongs to a SubscribeReactor.
abbrev pub IsDeliverable : Text → Text × Stream → Type 0
IsDeliverable topic (id, s) = (not (matches topic s) || is_castable s.reactor) ≡ true

module _ (env : Env) (event : MessageEvent) (ttl : ℤ) (topic : Text) (seq : ℕ) where
  -- What the loop leaves of a stream that matches.
  abbrev pub received : Option ReactorKind → Text → Stream → Stream
  received none id s = s
  received (some k) id s = (send env event ttl topic seq id s).1

  -- What the loop leaves of a stream.
  abbrev pub sent : Text → Stream → Stream
  sent id s = if matches topic s then received s.reactor id s else s

  deliver_to-received :
      (k : Option ReactorKind) (id : Text) (s : Stream) (r : PeerRegistry)
      → is_castable k ≡ true
      → (r' : PeerRegistry) × (deliver_to env event ttl topic seq k id s r
          ≡ some (received k id s, r'))
  unfolding deliver_to is_castable
  deliver_to-received none id s r h = (r, refl)
  deliver_to-received (some for_subscribe) id s r h = (_, refl)
  deliver_to-received (some for_resume) id s r h = cc

  deliver_one-sent :
      (id : Text) (s : Stream) (r : PeerRegistry)
      → IsDeliverable topic (id, s)
      → (r' : PeerRegistry) × (deliver_one env event ttl topic seq id s r ≡ some (sent id s, r'))
  unfolding deliver_one
  deliver_one-sent id s r h = elim (Bool-cases (matches topic s)) [
    | inr e ↦ rw (e, deliver_one) (r, refl)
    | inl e ↦
        let (r', done) = deliver_to-received s.reactor id s r (ground (arith, e, h)) in
        rw (e, deliver_one) (r', done)
  ]

  pub deliver_all-sent :
      (m : Map Stream) (r : PeerRegistry)
      → All (IsDeliverable topic) m
      → (m' : Map Stream) × (r' : PeerRegistry) × (deliver_all env event ttl topic seq m r
          ≡ some (m', r'))
        × ((id : Text) → find id m' ≡ elim (find id m) [ none ↦ none | some s ↦ some (sent id s) ])
  unfolding deliver_all
  deliver_all-sent [] r hs = ([], r, refl, λ id. unfold find in refl)
  deliver_all-sent ((k, s) ∷ m) r hs =
      let (r', one) = deliver_one-sent k s r hs.0 in
      let (m', r'', rest, found) = deliver_all-sent m r' hs.1 in
      (
        (k, sent k s) ∷ m',
        r'',
        rw (one, deliver_all, rest) refl,
        λ id. elim (text_eq k id) [
          | yes p ↦
              rw (find_here id k s m p)
                (find_here id k (sent k s) m' p ∙ ap (λ i. some (sent i s)) p)
          | no n ↦ rw (find_later id k s m n) (find_later id k (sent k s) m' n ∙ found id)
        ],
      )

  -- Whatever recording a delivered number keeps, the loop keeps.
  module _ (P : PeerRegistry → Type 0)
      (keeps : (id : Text) (r : PeerRegistry)
        → P r
        → P (update_subscription_sequence id topic seq r)) where
    deliver_to-keeps :
        (k : Option ReactorKind) (id : Text) (s s' : Stream) (r r' : PeerRegistry)
        → deliver_to env event ttl topic seq k id s r ≡ some (s', r')
        → P r
        → P r'
    unfolding deliver_to
    deliver_to-keeps none id s s' r r' h p = subst P (ap (λ x. x.1) (some-injective _ _ h)) p
    deliver_to-keeps (some for_resume) id s s' r r' h p = cc
    deliver_to-keeps (some for_subscribe) id s s' r r' h p =
        elim (Bool-cases (is_enqueued (send env event ttl topic seq id s).0)) [
          | inr f ↦ subst P (ap (λ x. x.1) (some-injective _ _ (rw (f, deliver_to) at h))) p
          | inl f ↦
              subst P (ap (λ x. x.1) (some-injective _ _ (rw (f, deliver_to) at h)))
                (keeps s.subscription_id r p)
        ]

    deliver_one-keeps :
        (id : Text) (s s' : Stream) (r r' : PeerRegistry)
        → deliver_one env event ttl topic seq id s r ≡ some (s', r')
        → P r
        → P r'
    unfolding deliver_one
    deliver_one-keeps id s s' r r' h p = elim (Bool-cases (matches topic s)) [
      | inl e ↦ deliver_to-keeps s.reactor id s s' r r' (rw (e, deliver_one) at h) p
      | inr e ↦ subst P (ap (λ x. x.1) (some-injective _ _ (rw (e, deliver_one) at h))) p
    ]

    pub deliver_all-keeps :
        (m m' : Map Stream) (r r' : PeerRegistry)
        → deliver_all env event ttl topic seq m r ≡ some (m', r')
        → P r
        → P r'
    unfolding deliver_all
    deliver_all-keeps [] m' r r' h p = subst P (ap (λ x. x.1) (some-injective _ _ h)) p
    deliver_all-keeps ((k, s) ∷ m) m' r r' h p =
        elim (Option-cases (deliver_one env event ttl topic seq k s r)) [
          | inl e ↦ absurd (none-ne-some _ (rw (e, deliver_all) at h))
          | inr ((t, q), e) ↦
              let kept = deliver_one-keeps k s t r q e p in
              elim (Option-cases (deliver_all env event ttl topic seq m q)) [
                | inl f ↦ absurd (none-ne-some _ (rw (e, deliver_all, f) at h))
                | inr ((n, u), f) ↦
                    subst P (ap (λ x. x.1) (some-injective _ _ (rw (e, deliver_all, f) at h)))
                      (deliver_all-keeps m n q u f kept)
              ]
        ]

-- What holds of the registry before a delivery that has a result holds after it, where recording a
-- delivered number keeps it.
pub deliver_from_remote-keeps :
    (P : PeerRegistry → Type 0)
    → ((id topic : Text) (seq : ℕ) (r : PeerRegistry)
        → P r
        → P (update_subscription_sequence id topic seq r))
    → (env : Env) (e : MessageEnvelope) (s t : Sidecar) → deliver_from_remote env e s ≡ some t
    → P s.registry
    → P t.registry
unfolding deliver_from_remote
deliver_from_remote-keeps P keeps env e s t h p =
    elim (Option-cases (buffer_message env.stamp e.topic e.payload s.message_buffer)) [
      | inl f ↦ absurd (none-ne-some t (rw (f, deliver_from_remote) at h))
      | inr ((seq, b), f) ↦
          let ttl = effective_ttl e.ttl_ms s.default_message_ttl_ms in
          let event = event_of seq e in
          elim (Option-cases (deliver_all env event ttl e.topic seq s.active_streams s.registry)) [
            | inl g ↦ absurd (none-ne-some t (rw (f, deliver_from_remote, g) at h))
            | inr ((streams, registry), g) ↦
                subst (λ x. P x.registry) (some-injective _ _ (rw (f, deliver_from_remote, g) at h))
                  (deliver_all-keeps env event ttl e.topic seq P (λ id. keeps id e.topic seq)
                    s.active_streams streams s.registry registry g p)
          ]
    ]

-- On a valid buffer with a positive ring size and room for the topic's next number and for the
-- payload, where every active stream that has the topic belongs to a SubscribeReactor,
-- `deliverFromRemote` returns. It buffers the message as `bufferMessage` does; every active stream
-- that has the topic and whose reactor is set is sent the event with the number assigned, and every
-- other stream stays as it is.
pub deliver_from_remote-sent :
    (env : Env) (e : MessageEnvelope) (s : Sidecar) (id : Text)
    → All (IsDeliverable e.topic) s.active_streams
    → IsValid s.message_buffer
    → 0 < s.message_buffer.buffer_size_per_topic
    → (topic_buffer e.topic s.message_buffer).next_sequence + 1 < u64_mod
    → s.message_buffer.current_total_bytes + length e.payload < u64_mod
    → (seq : ℕ) × (t : Sidecar) × (deliver_from_remote env e s ≡ some t)
      × Buffered env.stamp e.topic e.payload s.message_buffer t.message_buffer seq
      × (find id t.active_streams ≡ elim (find id s.active_streams) [
        | none ↦ none
        | some stream ↦ some (
            sent env
              (event_of seq e)
              (effective_ttl e.ttl_ms s.default_message_ttl_ms)
              e.topic
              seq
              id
              stream)
      ])
unfolding deliver_from_remote
deliver_from_remote-sent env e s id ds v p room space =
    let (seq, b, done, buffered) =
      buffer_message-Buffered env.stamp e.topic e.payload s.message_buffer v p room space in
    let ttl = effective_ttl e.ttl_ms s.default_message_ttl_ms in
    let (streams, registry, all_done, found) =
      deliver_all-sent env (event_of seq e) ttl e.topic seq s.active_streams s.registry ds in
    (
      seq,
      record s { message_buffer = b; active_streams = streams; registry = registry },
      rw (done, deliver_from_remote, all_done) refl,
      buffered,
      found id,
    )
