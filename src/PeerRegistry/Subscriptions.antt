-- ===== src/PeerRegistry/Subscriptions.antt =====
-- The local subscriptions of a PeerRegistry (src/core/peer_registry.cpp): add, remove, pause,
-- resume, and the index `topicToSubscriptions_`. A time is in nanoseconds; a method that reads the
-- clock takes what it reads.
use nexus_d_pub_sub.Prelude.{
  ℕ, suc, ◌-◌, ◌*◌, Bool, true, false, Text, List, [], ◌∷◌, Option, none, some, if◌then◌else◌,
}
use nexus_d_pub_sub.Prelude.Int.{ℤ, pos, negsuc, ◌+ℤ◌, ltb_ℤ}
use nexus_d_pub_sub.Prelude.Map.{Map, find, assign, erase, contains, keys}
use nexus_d_pub_sub.Prelude.Links.{link_all, unlink_all, ids_of}
use nexus_d_pub_sub.PeerRegistry.{LocalSubscription, PausedSubscription, PeerRegistry}

-- The new registry, and the result.
unfoldable pub add_local_subscription :
    ℕ → Text → Text → List Text → ℤ → PeerRegistry → PeerRegistry × Bool
add_local_subscription now subscription_id client_id topics max_buffer_size r =
    if contains subscription_id r.local_subscriptions then (r, false) else (
      record r {
        local_subscriptions =
            assign subscription_id
              record {
                subscription_id = subscription_id;
                client_id = client_id;
                topics = topics;
                max_buffer_size = max_buffer_size;
                created_at = now;
                last_delivered_sequence = 0;
              }
              r.local_subscriptions;
        topic_to_subscriptions = link_all topics subscription_id r.topic_to_subscriptions;
        hash_dirty = true;
      },
      true,
    )

-- `std::chrono::milliseconds(ttl_ms)` in nanoseconds.
abbrev pub nanoseconds : ℤ → ℤ
nanoseconds (pos n) = pos (n * 1000000)
nanoseconds (negsuc n) = negsuc (suc n * 1000000 - 1)

-- What `removeLocalSubscription` saves of a subscription.
unfoldable pub pause_of : ℕ → ℤ → Text → LocalSubscription → PausedSubscription
pause_of now ttl subscription_id sub = record {
  subscription_id = subscription_id;
  client_id = sub.client_id;
  topics = sub.topics;
  max_buffer_size = sub.max_buffer_size;
  last_delivered_sequence = sub.last_delivered_sequence;
  topic_sequences = [];
  paused_at = now;
  expires_at = pos now +ℤ nanoseconds ttl;
}

unfoldable pub remove_local_subscription : ℕ → Text → Bool → ℤ → PeerRegistry → PeerRegistry × Bool
unfolding pause_of
remove_local_subscription now subscription_id pause ttl r =
    elim (find subscription_id r.local_subscriptions) [
      | none ↦ (r, false)
      | some sub ↦ (
        record r {
          paused_subscriptions =
              if pause
              then assign subscription_id (pause_of now ttl subscription_id sub)
                  r.paused_subscriptions
              else r.paused_subscriptions;
          topic_to_subscriptions = unlink_all sub.topics subscription_id r.topic_to_subscriptions;
          local_subscriptions = erase subscription_id r.local_subscriptions;
          hash_dirty = true;
        },
        true,
      )
    ]

unfoldable pub pause_subscription : ℕ → Text → ℤ → PeerRegistry → PeerRegistry × Bool
unfolding remove_local_subscription
pause_subscription now subscription_id ttl r =
    remove_local_subscription now subscription_id true ttl r

-- `now > expires_at`
unfoldable pub is_expired : ℕ → PausedSubscription → Bool
is_expired now p = ltb_ℤ p.expires_at (pos now)

-- The subscription that `resumeSubscription` makes of a paused one.
unfoldable pub resumed : ℕ → Text → PausedSubscription → LocalSubscription
resumed created_at subscription_id p = record {
  subscription_id = subscription_id;
  client_id = p.client_id;
  topics = p.topics;
  max_buffer_size = p.max_buffer_size;
  created_at = created_at;
  last_delivered_sequence = p.last_delivered_sequence;
}

-- `resumeSubscription` reads the clock twice. The result is `out_paused_info`, or none for false.
unfoldable pub resume_subscription :
    ℕ → ℕ → Text → PeerRegistry → PeerRegistry × Option PausedSubscription
unfolding is_expired resumed
resume_subscription now created_at subscription_id r =
    elim (find subscription_id r.paused_subscriptions) [
      | none ↦ (r, none)
      | some p ↦
          if is_expired now p
          then (
            record r { paused_subscriptions = erase subscription_id r.paused_subscriptions },
            none,
          )
          else (
            record r {
              local_subscriptions =
                  assign subscription_id (resumed created_at subscription_id p)
                    r.local_subscriptions;
              topic_to_subscriptions = link_all p.topics subscription_id r.topic_to_subscriptions;
              paused_subscriptions = erase subscription_id r.paused_subscriptions;
              hash_dirty = true;
            },
            some p,
          )
    ]

unfoldable pub get_paused_subscription : Text → PeerRegistry → Option PausedSubscription
get_paused_subscription subscription_id r = find subscription_id r.paused_subscriptions

-- The loop of `clearExpiredPausedSubscriptions`: what stays, and how many go.
unfoldable pub split_expired : ℕ → Map PausedSubscription → Map PausedSubscription × ℕ
unfolding is_expired
split_expired now [] = ([], 0)
split_expired now ((id, p) ∷ m) =
    let (rest, count) = split_expired now m in
    if is_expired now p then (rest, suc count) else ((id, p) ∷ rest, count)

unfoldable pub clear_expired_paused_subscriptions : ℕ → PeerRegistry → PeerRegistry × ℕ
unfolding split_expired
clear_expired_paused_subscriptions now r =
    let (rest, count) = split_expired now r.paused_subscriptions in
    (record r { paused_subscriptions = rest }, count)

-- The source does not use the topic either.
unfoldable pub update_subscription_sequence : Text → Text → ℕ → PeerRegistry → PeerRegistry
update_subscription_sequence subscription_id topic sequence r =
    elim (find subscription_id r.local_subscriptions) [
      | none ↦ r
      | some sub ↦ record r {
        local_subscriptions =
            assign subscription_id (record sub { last_delivered_sequence = sequence })
              r.local_subscriptions;
      }
    ]

-- The loop over the ids of a topic.
unfoldable pub lookup_all : List Text → Map LocalSubscription → List LocalSubscription
lookup_all [] m = []
lookup_all (id ∷ ids) m =
    let rest = lookup_all ids m in elim (find id m) [ none ↦ rest | some sub ↦ sub ∷ rest ]

unfoldable pub get_local_subscriptions : Text → PeerRegistry → List LocalSubscription
unfolding lookup_all
get_local_subscriptions topic r =
    lookup_all (ids_of (find topic r.topic_to_subscriptions)) r.local_subscriptions

unfoldable pub get_local_topics : PeerRegistry → List Text
get_local_topics r = keys r.topic_to_subscriptions
