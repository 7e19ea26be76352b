-- ===== src/SubscriberQueue/Fifo.antt =====
-- What a full queue keeps (subscriber_queue.hpp): the policies as windows on the sequence of all
-- messages offered.
use nexus_d_pub_sub.Prelude.{
  ℕ, ◌≤◌, ◌<◌, ◌≡◌, refl, sym, ap, ◌∙◌, inl, inr, true, false, Bool-cases, List, [], ◌∷◌, ◌++◌,
  arith, length, drop, recent, recent-append_full, recent-append_room, recent_all, recent-recent,
  dec_le, length-recent,
}
use mathlib.Core.List.{append_assoc, append-nil}
use nexus_d_pub_sub.Prelude.Int.{ℤ}
use nexus_d_pub_sub.SubscriberQueue.{
  drop_oldest, QueuedMessage, SubscriberQueue, wrap, is_full, effective_ttl, expiry, drop_front,
  push_back, enter_full, enter,
}
use nexus_d_pub_sub.SubscriberQueue.Valid.{after, enter_at_limit, enter_with_room}

pub record Offer {ℓ} (A : Type ℓ) : Type ℓ where
  pub now : ℕ
  pub msg : A
  pub ttl : ℤ

module _ {ℓ} {A : Type ℓ} where
  abbrev pub offer : SubscriberQueue A → Offer A → SubscriberQueue A
  offer q o = after q (enter o.now o.msg o.ttl q)

  abbrev pub offer_all : SubscriberQueue A → List (Offer A) → SubscriberQueue A
  offer_all q [] = q
  offer_all q (o ∷ os) = offer_all (offer q o) os

  -- The entries that the offers make in a queue with this default TTL.
  abbrev pub entries : ℤ → List (Offer A) → List (QueuedMessage A)
  entries default_ttl [] = []
  entries default_ttl (o ∷ os) =
      record {
        message = o.msg;
        expiry_time = expiry o.now (effective_ttl o.ttl default_ttl);
        enqueue_time = o.now;
      }
      ∷ entries default_ttl os

  drop_front-drop :
      (ms : List (QueuedMessage A)) (q : SubscriberQueue A)
      → q.messages ≡ ms
      → (drop_front ms q).messages ≡ drop 1 q.messages
  unfolding drop_front
  drop_front-drop [] q e = e ∙ sym (ap (drop 1) e)
  drop_front-drop (m ∷ rest) q e = rw e refl

  -- What stays as it is when a message is offered.
  pub record Same (r q : SubscriberQueue A) : Type ℓ where
    pub policy : r.policy ≡ q.policy
    pub closed : r.closed ≡ q.closed
    pub limit : r.limit ≡ q.limit
    pub default_ttl : r.default_ttl_ms ≡ q.default_ttl_ms

  push_drop-Same :
      (m : QueuedMessage A) (ms : List (QueuedMessage A)) (q : SubscriberQueue A)
      → Same (push_back m (drop_front ms q)) q
  unfolding push_back drop_front
  push_drop-Same m [] q = record { policy = refl; closed = refl; limit = refl; default_ttl = refl }
  push_drop-Same m (x ∷ ms) q = record {
    policy = refl;
    closed = refl;
    limit = refl;
    default_ttl = refl;
  }

  push-Same : (m : QueuedMessage A) (q : SubscriberQueue A) → Same (push_back m q) q
  unfolding push_back
  push-Same m q = record { policy = refl; closed = refl; limit = refl; default_ttl = refl }

  at_limit : (q : SubscriberQueue A) → 0 < q.limit → q.limit ≤ length q.messages → is_full q ≡ true
  unfolding is_full
  at_limit q p h = ground arith

  below_limit : (q : SubscriberQueue A) → length q.messages < q.limit → is_full q ≡ false
  unfolding is_full
  below_limit q h = ground arith

  -- A full queue under DROP_OLDEST.
  enter_oldest :
      (q : SubscriberQueue A) (o : Offer A)
      → q.policy ≡ drop_oldest
      → q.closed ≡ false
      → is_full q ≡ true
      → offer q o ≡ push_back (wrap o.now o.msg o.ttl q) (drop_front q.messages q)
  unfolding enter_full
  enter_oldest q o p c full = rw (enter_at_limit o.now o.msg o.ttl q c full) (ground arith)

  push_back-messages :
      (m : QueuedMessage A) (q : SubscriberQueue A)
      → (push_back m q).messages ≡ q.messages ++ m ∷ []
  unfolding push_back
  push_back-messages m q = refl

  -- What an offer under DROP_OLDEST changes besides the statistics.
  module _ (q : SubscriberQueue A) (o : Offer A) (p : q.policy ≡ drop_oldest) (c : q.closed ≡ false)
      (l : 0 < q.limit) (b : length q.messages ≤ q.limit) where
    abbrev entry : QueuedMessage A
    entry = wrap o.now o.msg o.ttl q

    offer_oldest-Same : Same (offer q o) q
    offer_oldest-Same = elim (Bool-cases (is_full q)) [
      | inl full ↦ rw (enter_oldest q o p c full) (push_drop-Same entry q.messages q)
      | inr room ↦ rw (enter_with_room o.now o.msg o.ttl q c room) (push-Same entry q)
    ]

    offer_oldest-recent :
        (offer q o).messages ≡ recent q.limit (q.messages ++ entries q.default_ttl_ms (o ∷ []))
    unfolding wrap
    offer_oldest-recent = elim (dec_le q.limit (length q.messages)) [
      | yes full ↦ rw (enter_oldest q o p c (at_limit q l full)) (
          push_back-messages entry (drop_front q.messages q)
          ∙ ap (λ ms. ms ++ entry ∷ []) (drop_front-drop q.messages q refl)
          ∙ ap (λ ms. drop 1 ms ++ entry ∷ []) (sym (recent_all q.limit q.messages b))
          ∙ sym (recent-append_full q.limit q.messages entry l full))
      | no room ↦ rw (enter_with_room o.now o.msg o.ttl q c (below_limit q (omega arith))) (
          push_back-messages entry q
          ∙ ap (λ ms. ms ++ entry ∷ []) (sym (recent_all q.limit q.messages b))
          ∙ sym (recent-append_room q.limit q.messages entry (omega arith)))
    ]

  -- Under DROP_OLDEST an open queue with a positive limit that it does not exceed holds, after any
  -- offers, the last `limit` of what it held and was offered, in order.
  pub offer_all-recent :
      (os : List (Offer A)) (q : SubscriberQueue A)
      → q.policy ≡ drop_oldest
      → q.closed ≡ false
      → 0 < q.limit
      → length q.messages ≤ q.limit
      → (offer_all q os).messages ≡ recent q.limit (q.messages ++ entries q.default_ttl_ms os)
  offer_all-recent [] q p c l b =
      sym (ap (recent q.limit) (append-nil q.messages) ∙ recent_all q.limit q.messages b)
  offer_all-recent (o ∷ os) q p c l b =
      let same = offer_oldest-Same q o p c l b in
      let now = offer_oldest-recent q o p c l b in
      let first = q.messages ++ entries q.default_ttl_ms (o ∷ []) in
      let kept : length (offer q o).messages ≤ q.limit =
        omega (arith, ap length now, length-recent q.limit first) in
      let limit = same.limit in
      offer_all-recent os (offer q o) (same.policy ∙ p) (same.closed ∙ c) (rw limit l)
        (rw limit kept)
      ∙ (let rest = entries q.default_ttl_ms os in
          rw (same.limit, same.default_ttl, now)
            (recent-recent q.limit first rest
              ∙ ap (recent q.limit)
                  (append_assoc q.messages (entries q.default_ttl_ms (o ∷ [])) rest)))
