-- ===== src/PeerRegistry/HashCache.antt =====
-- The cached topic hash of a PeerRegistry (src/core/peer_registry.cpp) over any calls.
use nexus_d_pub_sub.Prelude.{false, ◌≡◌, sym, ◌∙◌, Text, arith}
use nexus_d_pub_sub.PeerRegistry.{PeerRegistry, init}
use nexus_d_pub_sub.PeerRegistry.Subscriptions.{
  add_local_subscription, remove_local_subscription, resume_subscription,
  clear_expired_paused_subscriptions, update_subscription_sequence,
}
use nexus_d_pub_sub.PeerRegistry.Retained.{set_retained_message}
use nexus_d_pub_sub.PeerRegistry.TopicHash.{compute_local_topic_hash, get_local_topic_hash}
use nexus_d_pub_sub.PeerRegistry.Reach.{
  Step, adds, removes, resumes, clears, delivers, hashes, retains, calls, call-Keeps, Reachable,
  starts, steps,
}

-- A cache that is not marked dirty holds the hash of the index.
abbrev pub IsFresh : PeerRegistry → Type 0
IsFresh r = r.hash_dirty ≡ false → r.cached_local_hash ≡ compute_local_topic_hash r

Step-IsFresh : {r s : PeerRegistry} → IsFresh r → Step r s → IsFresh s
unfolding add_local_subscription remove_local_subscription resume_subscription
    clear_expired_paused_subscriptions update_subscription_sequence get_local_topic_hash
    compute_local_topic_hash
Step-IsFresh {r} v (adds now id client topics size fresh) = ground arith
Step-IsFresh {r} v (removes now id pause ttl) = ground arith
Step-IsFresh {r} v (resumes now created_at id) = ground arith
Step-IsFresh {r} v (clears now) = ground arith
Step-IsFresh {r} v (delivers id topic sequence) = ground arith
Step-IsFresh {r} v (retains topic m) = unfold set_retained_message in v
Step-IsFresh {r} v (calls c) = let k = call-Keeps r c in λ e. rw (k.0, k.3) (v (sym k.4 ∙ e))
Step-IsFresh {r} v hashes = ground arith

Reachable-IsFresh : {node : Text} {r : PeerRegistry} → Reachable node r → IsFresh r
unfolding init
Reachable-IsFresh starts = λ e. cc
Reachable-IsFresh (steps w x) = Step-IsFresh (Reachable-IsFresh w) x

-- In every registry that calls lead to, `getLocalTopicHash` returns the hash of the topics that
-- have a subscription now, whether it is computed or read from the cache.
pub get_local_topic_hash_lem :
    {node : Text} (r : PeerRegistry)
    → Reachable node r
    → (get_local_topic_hash r).1 ≡ compute_local_topic_hash r
get_local_topic_hash_lem r w =
    let v : IsFresh r = Reachable-IsFresh w in unfold get_local_topic_hash in ground (arith, v)
