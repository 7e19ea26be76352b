-- ===== src/PeerRegistry/Reach.antt =====
-- Every call on a PeerRegistry (src/core/peer_registry.cpp), as a step, and the registries that
-- calls lead to.
use nexus_d_pub_sub.Prelude.{
  ℕ, Bool, ◌≡◌, refl, Text, List, [], ◌∷◌, none, Option-cases, inl, inr, arith,
}
use nexus_d_pub_sub.Prelude.Int.{ℤ}
use nexus_d_pub_sub.Prelude.Map.{find}
use nexus_d_pub_sub.Prelude.Links.{member, linked}
use nexus_d_pub_sub.PeerRegistry.{PeerRegistry, RetainedMessage, init}
use nexus_d_pub_sub.PeerRegistry.Peers.{
  upsert_peer, remove_peer, update_peer_state, set_state, reap_dead_peers, rebuild_routing_table,
  rebuild_if_any, split_dead,
}
use nexus_d_pub_sub.PeerRegistry.Routing.{Call, upserts, removes_peer, updates, reaps, step}
use nexus_d_pub_sub.PeerRegistry.Retained.{set_retained_message}
use nexus_d_pub_sub.PeerRegistry.TopicHash.{get_local_topic_hash}
use nexus_d_pub_sub.PeerRegistry.Subscriptions.{
  add_local_subscription, remove_local_subscription, resume_subscription,
  clear_expired_paused_subscriptions, update_subscription_sequence,
}
use nexus_d_pub_sub.PeerRegistry.Index.{
  IsIndexed, subscribes, add_local_subscription-IsIndexed, remove_local_subscription-IsIndexed,
  resume_subscription-IsIndexed, clear_expired_paused_subscriptions-IsIndexed,
  update_subscription_sequence-IsIndexed,
}

-- One call on the registry. A new subscription must not take the id of a paused one.
pub data Step (r : PeerRegistry) : PeerRegistry → Type 0 where
  adds :
      (now : ℕ) (id client : Text) (topics : List Text) (size : ℤ)
      → find id r.paused_subscriptions ≡ none
      → Step r (add_local_subscription now id client topics size r).0
  removes :
      (now : ℕ) (id : Text) (pause : Bool) (ttl : ℤ)
      → Step r (remove_local_subscription now id pause ttl r).0
  resumes : (now created_at : ℕ) (id : Text) → Step r (resume_subscription now created_at id r).0
  clears : (now : ℕ) → Step r (clear_expired_paused_subscriptions now r).0
  hashes : Step r (get_local_topic_hash r).0
  retains : (topic : Text) (m : RetainedMessage) → Step r (set_retained_message topic m r)
  calls : (c : Call) → Step r (step r c)
  delivers :
      (id topic : Text) (sequence : ℕ) → Step r (update_subscription_sequence id topic sequence r)

pub data Reachable (node : Text) : PeerRegistry → Type 0 where
  starts : Reachable node (init node)
  steps : {r s : PeerRegistry} → Reachable node r → Step r s → Reachable node s

-- The cache is all that `getLocalTopicHash` changes.
pub hash_keeps :
    (r : PeerRegistry)
    → ((get_local_topic_hash r).0.topic_to_subscriptions ≡ r.topic_to_subscriptions)
      × ((get_local_topic_hash r).0.local_subscriptions ≡ r.local_subscriptions)
      × ((get_local_topic_hash r).0.paused_subscriptions ≡ r.paused_subscriptions)
unfolding get_local_topic_hash
hash_keeps r = ground arith

get_local_topic_hash-IsIndexed :
    (r : PeerRegistry) → IsIndexed r → IsIndexed (get_local_topic_hash r).0
get_local_topic_hash-IsIndexed r v =
    let (index, subs, paused) = hash_keeps r in
    record {
      indexed = λ t i. rw (index, subs) (v.indexed t i);
      none_empty = rw index v.none_empty;
      apart = λ i p h. rw subs (v.apart i p (rw paused at h));
    }

-- A call on the peers leaves the subscriptions and the cached hash as they are.
abbrev pub Keeps : PeerRegistry → PeerRegistry → Type 0
Keeps r s =
    (s.topic_to_subscriptions ≡ r.topic_to_subscriptions)
    × (s.local_subscriptions ≡ r.local_subscriptions)
    × (s.paused_subscriptions ≡ r.paused_subscriptions)
    × (s.cached_local_hash ≡ r.cached_local_hash)
    × (s.hash_dirty ≡ r.hash_dirty)

same_Keeps : (r : PeerRegistry) → Keeps r r
same_Keeps r = (refl, refl, refl, refl, refl)

rebuild_if_any-Keeps :
    (r s : PeerRegistry) (gone : List Text) → Keeps r s → Keeps r (rebuild_if_any gone s)
unfolding rebuild_if_any rebuild_routing_table
rebuild_if_any-Keeps r s [] k = k
rebuild_if_any-Keeps r s (id ∷ ids) k = k

pub call-Keeps : (r : PeerRegistry) (c : Call) → Keeps r (step r c)
unfolding step upsert_peer remove_peer update_peer_state set_state reap_dead_peers
    rebuild_routing_table
call-Keeps r (upserts now info) = elim (Option-cases (find info.instance_uuid r.peers)) [
  | inl e ↦ rw (e, step, upsert_peer) (same_Keeps r)
  | inr (p, e) ↦ rw (e, step, upsert_peer) (same_Keeps r)
]
call-Keeps r (removes_peer id) = same_Keeps r
call-Keeps r (updates id topics hash) = elim (Option-cases (find id r.peers)) [
  | inl e ↦ rw (e, step, update_peer_state, rebuild_routing_table, set_state) (same_Keeps r)
  | inr (p, e) ↦ rw (e, step, update_peer_state, rebuild_routing_table, set_state) (same_Keeps r)
]
call-Keeps r (reaps now timeout) =
    rebuild_if_any-Keeps r (record r { peers = (split_dead now timeout r.peers).0 })
      (split_dead now timeout r.peers).1 (same_Keeps r)

Keeps-IsIndexed : (r s : PeerRegistry) → Keeps r s → IsIndexed r → IsIndexed s
Keeps-IsIndexed r s k v = record {
  indexed = λ t i. rw (k.0, k.1) (v.indexed t i);
  none_empty = rw k.0 v.none_empty;
  apart = λ i p h. rw k.1 (v.apart i p (rw k.2 at h));
}

init-IsIndexed : (node : Text) → IsIndexed (init node)
unfolding init linked subscribes find member
init-IsIndexed node = record {
  indexed = λ t i. refl;
  none_empty = λ t s h. cc;
  apart = λ i p h. refl;
}

Step-IsIndexed : {r s : PeerRegistry} → IsIndexed r → Step r s → IsIndexed s
Step-IsIndexed v (adds now id client topics size fresh) =
    add_local_subscription-IsIndexed now id client topics size _ fresh v
Step-IsIndexed v (removes now id pause ttl) =
    remove_local_subscription-IsIndexed now id pause ttl _ v
Step-IsIndexed v (resumes now created_at id) = resume_subscription-IsIndexed now created_at id _ v
Step-IsIndexed v (clears now) = clear_expired_paused_subscriptions-IsIndexed now _ v
Step-IsIndexed {r} v (retains topic m) =
    Keeps-IsIndexed r (set_retained_message topic m r) (unfold set_retained_message in same_Keeps r)
      v
Step-IsIndexed {r} v (calls c) = Keeps-IsIndexed r (step r c) (call-Keeps r c) v
Step-IsIndexed v hashes = get_local_topic_hash-IsIndexed _ v
Step-IsIndexed v (delivers id topic sequence) =
    update_subscription_sequence-IsIndexed id topic sequence _ v

-- In every registry that calls lead to, an id stands at a topic of the index exactly if it is the
-- id of an active subscription to the topic, no topic of the index has no id, and no id is both
-- paused and active.
pub Reachable-IsIndexed : {node : Text} {r : PeerRegistry} → Reachable node r → IsIndexed r
Reachable-IsIndexed {node} starts = init-IsIndexed node
Reachable-IsIndexed (steps w x) = Step-IsIndexed (Reachable-IsIndexed w) x
