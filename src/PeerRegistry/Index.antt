-- ===== src/PeerRegistry/Index.antt =====
-- The index `topicToSubscriptions_` of a PeerRegistry (src/core/peer_registry.cpp) against its
-- active subscriptions.
use nexus_d_pub_sub.Prelude.{
  ℕ, Bool, false, ◌≡◌, refl, Text, List, [], ◌∷◌, none, some, Option-cases, Bool-cases, inl, inr,
  arith,
}
use nexus_d_pub_sub.Prelude.Int.{ℤ}
use nexus_d_pub_sub.Prelude.Map.{Map, find, assign, erase, contains, find-assign, find-erase}
use nexus_d_pub_sub.Prelude.Links.{
  Links, same, member, link_all, unlink_all, linked, linked-link_all, linked-unlink_all, NoneEmpty,
  link_all-NoneEmpty, unlink_all-NoneEmpty,
}
use nexus_d_pub_sub.PeerRegistry.{LocalSubscription, PausedSubscription, PeerRegistry}
use nexus_d_pub_sub.PeerRegistry.Subscriptions.{
  add_local_subscription, remove_local_subscription, resume_subscription, resumed, is_expired,
  clear_expired_paused_subscriptions, split_expired, update_subscription_sequence, pause_of,
}

-- The active subscription with the id has the topic.
unfoldable pub subscribes : Text → Text → Map LocalSubscription → Bool
subscribes topic id subs = elim (find id subs) [ none ↦ false | some s ↦ member topic s.topics ]

pub record IsIndexed (r : PeerRegistry) : Type 0 where
  pub indexed :
      (t id : Text) → linked t id r.topic_to_subscriptions ≡ subscribes t id r.local_subscriptions
  pub none_empty : NoneEmpty r.topic_to_subscriptions
  pub apart :
      (id : Text) (p : PausedSubscription)
      → find id r.paused_subscriptions ≡ some p
      → find id r.local_subscriptions ≡ none

link_indexed :
    (t i id : Text) (s : LocalSubscription) (m : Map LocalSubscription) (index : Links)
    → find id m ≡ none
    → linked t i index ≡ subscribes t i m
    → linked t i (link_all s.topics id index) ≡ subscribes t i (assign id s m)
unfolding subscribes same
link_indexed t i id s m index e h =
    ground (arith, h, e, linked-link_all t i id s.topics index, find-assign i id s m)

unlink_indexed :
    (t i id : Text) (s : LocalSubscription) (m : Map LocalSubscription) (index : Links)
    → find id m ≡ some s
    → linked t i index ≡ subscribes t i m
    → linked t i (unlink_all s.topics id index) ≡ subscribes t i (erase id m)
unfolding subscribes same
unlink_indexed t i id s m index e h =
    ground (arith, h, e, linked-unlink_all t i id s.topics index, find-erase i id m)

pub add_local_subscription-IsIndexed :
    (now : ℕ) (id client : Text) (topics : List Text) (size : ℤ) (r : PeerRegistry)
    → find id r.paused_subscriptions ≡ none
    → IsIndexed r
    → IsIndexed (add_local_subscription now id client topics size r).0
unfolding add_local_subscription contains
add_local_subscription-IsIndexed now id client topics size r fresh v =
    let s : LocalSubscription = record {
      subscription_id = id;
      client_id = client;
      topics = topics;
      max_buffer_size = size;
      created_at = now;
      last_delivered_sequence = 0;
    } in
    elim (Option-cases (find id r.local_subscriptions)) [
      | inr (old, e) ↦ rw (e, add_local_subscription, contains) v
      | inl e ↦
          rw (e, add_local_subscription, contains)
            (record {
              indexed = λ t i.
                  link_indexed t i id s r.local_subscriptions r.topic_to_subscriptions e
                    (v.indexed t i);
              none_empty = link_all-NoneEmpty topics id r.topic_to_subscriptions v.none_empty;
              apart = λ i p h.
                  ground (arith, fresh, h, v.apart i p h, find-assign i id s r.local_subscriptions);
            })
    ]

pub remove_local_subscription-IsIndexed :
    (now : ℕ) (id : Text) (pause : Bool) (ttl : ℤ) (r : PeerRegistry)
    → IsIndexed r
    → IsIndexed (remove_local_subscription now id pause ttl r).0
unfolding remove_local_subscription
remove_local_subscription-IsIndexed now id pause ttl r v =
    elim (Option-cases (find id r.local_subscriptions)) [
      | inl e ↦ rw (e, remove_local_subscription) v
      | inr (s, e) ↦
          rw (e, remove_local_subscription)
            (record {
              indexed = λ t i.
                  unlink_indexed t i id s r.local_subscriptions r.topic_to_subscriptions e
                    (v.indexed t i);
              none_empty = unlink_all-NoneEmpty s.topics id r.topic_to_subscriptions v.none_empty;
              apart = λ i p h. ground (
                arith,
                h,
                v.apart i p,
                find-assign i id (pause_of now ttl id s) r.paused_subscriptions,
                find-erase i id r.local_subscriptions,
              );
            })
    ]

pub resume_subscription-IsIndexed :
    (now created_at : ℕ) (id : Text) (r : PeerRegistry)
    → IsIndexed r
    → IsIndexed (resume_subscription now created_at id r).0
unfolding resume_subscription
resume_subscription-IsIndexed now created_at id r v =
    elim (Option-cases (find id r.paused_subscriptions)) [
      | inl e ↦ rw (e, resume_subscription) v
      | inr (p, e) ↦ elim (Bool-cases (is_expired now p)) [
        | inl late ↦
            rw (e, resume_subscription, late)
              (record {
                indexed = v.indexed;
                none_empty = v.none_empty;
                apart = λ i q h.
                    v.apart i q (ground (arith, h, find-erase i id r.paused_subscriptions));
              })
        | inr alive ↦
            rw (e, resume_subscription, alive)
              (record {
                indexed = λ t i.
                    link_indexed t i id (resumed created_at id p) r.local_subscriptions
                      r.topic_to_subscriptions (v.apart id p e) (v.indexed t i);
                none_empty = link_all-NoneEmpty p.topics id r.topic_to_subscriptions v.none_empty;
                apart = λ i q h. ground (
                  arith,
                  h,
                  v.apart i q,
                  find-erase i id r.paused_subscriptions,
                  find-assign i id (resumed created_at id p) r.local_subscriptions,
                );
              })
      ]
    ]

split_expired_absent :
    (now : ℕ) (id : Text) (m : Map PausedSubscription)
    → find id m ≡ none
    → find id (split_expired now m).0 ≡ none
unfolding split_expired find
split_expired_absent now id [] e = refl
split_expired_absent now id ((k, p) ∷ m) e = ground (arith, split_expired_absent now id m)

pub clear_expired_paused_subscriptions-IsIndexed :
    (now : ℕ) (r : PeerRegistry)
    → IsIndexed r
    → IsIndexed (clear_expired_paused_subscriptions now r).0
unfolding clear_expired_paused_subscriptions
clear_expired_paused_subscriptions-IsIndexed now r v = record {
  indexed = v.indexed;
  none_empty = v.none_empty;
  apart = λ i p h. elim (Option-cases (find i r.paused_subscriptions)) [
    | inl e ↦ ground (arith, h, split_expired_absent now i r.paused_subscriptions e)
    | inr (q, e) ↦ v.apart i q e
  ];
}

pub update_subscription_sequence-IsIndexed :
    (id topic : Text) (sequence : ℕ) (r : PeerRegistry)
    → IsIndexed r
    → IsIndexed (update_subscription_sequence id topic sequence r)
unfolding update_subscription_sequence
update_subscription_sequence-IsIndexed id topic sequence r v =
    elim (Option-cases (find id r.local_subscriptions)) [
      | inl e ↦ rw (e, update_subscription_sequence) v
      | inr (s, e) ↦
          let s' : LocalSubscription = record s { last_delivered_sequence = sequence } in
          rw (e, update_subscription_sequence)
            (record {
              indexed = λ t i.
                  unfold subscribes in
                  ground (arith, e, v.indexed t i, find-assign i id s' r.local_subscriptions);
              none_empty = v.none_empty;
              apart = λ i p h.
                  ground (arith, e, v.apart i p h, find-assign i id s' r.local_subscriptions);
            })
    ]
