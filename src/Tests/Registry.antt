-- ===== src/Tests/Registry.antt =====
-- Concrete registries (src/core/peer_registry.cpp).
use nexus_d_pub_sub.Prelude.{
  ◌+◌, ◌≤◌, ◌≡◌, ◌↔◌, ◌&&◌, refl, true, false, Text, text_eq, codes, List, [], ◌∷◌, none, some,
  if◌then◌else◌, milliseconds, map,
}
use mathlib.Core.List.Permᴰ.{swap}
use nexus_d_pub_sub.Prelude.Int.{pos, ◌+ℤ◌}
use nexus_d_pub_sub.Prelude.Map.{find, assign, contains}
use nexus_d_pub_sub.Prelude.Links.{member, linked}
use nexus_d_pub_sub.PeerRegistry.{
  PeerStatus, PeerInfo, RetainedMessage, LocalSubscription, PeerRegistry, init,
}
use nexus_d_pub_sub.PeerRegistry.Peers.{reap_dead_peers}
use nexus_d_pub_sub.PeerRegistry.Subscriptions.{
  add_local_subscription, pause_subscription, resume_subscription, pause_of, is_expired,
}
use nexus_d_pub_sub.PeerRegistry.Routing.{
  Call, upserts, updates, reaps, run, IsRouted, run-IsRouted,
}
use nexus_d_pub_sub.PeerRegistry.Liveness.{reap_dead_peers_lem}
use nexus_d_pub_sub.PeerRegistry.Reach.{Reachable, starts, steps, adds}
use nexus_d_pub_sub.PeerRegistry.Resume.{Restored, pause-resume}
use nexus_d_pub_sub.PeerRegistry.TopicHash.{
  compute_local_topic_hash, get_local_topic_hash, compute_local_topic_hash-Perm,
}
use nexus_d_pub_sub.PeerRegistry.HashCache.{get_local_topic_hash_lem}

abbrev pub node : Text
node = codes "n"

abbrev pub id : Text
id = codes "s"

abbrev pub topic : Text
topic = codes "t"

abbrev pub subscription : LocalSubscription
subscription = record {
  subscription_id = id;
  client_id = codes "c";
  topics = topic ∷ [];
  max_buffer_size = pos 5;
  created_at = 1;
  last_delivered_sequence = 0;
}

-- The registry after one subscription.
abbrev pub registry : PeerRegistry
registry = (add_local_subscription 1 id (codes "c") (topic ∷ []) (pos 5) (init node)).0

pub registry-Reachable : Reachable node registry
unfolding init find
registry-Reachable = steps starts (adds 1 id (codes "c") (topic ∷ []) (pos 5) refl)

pub registry_found : find id registry.local_subscriptions ≡ some subscription
unfolding add_local_subscription init find assign contains text_eq
registry_found = refl

pause-resume_example :
    let result = resume_subscription 20 30 id (pause_subscription 10 id (pos 300) registry).0 in
    Restored 30 id subscription registry result.0
    × (result.1 ≡ some (pause_of 10 (pos 300) id subscription))
unfolding is_expired pause_of ◌+ℤ◌
pause-resume_example =
    pause-resume 10 20 30 (pos 300) id subscription registry registry-Reachable registry_found refl

get_local_topic_hash_lem_example :
    (get_local_topic_hash registry).1 ≡ compute_local_topic_hash registry
get_local_topic_hash_lem_example = get_local_topic_hash_lem registry registry-Reachable

abbrev pub with_topics : List Text → PeerRegistry
with_topics topics = record {
  local_node_id = node;
  peers = [];
  local_subscriptions = [];
  topic_to_subscriptions = map (λ t. (t, id ∷ [])) topics;
  paused_subscriptions = [];
  cached_local_hash = 0;
  hash_dirty = true;
  routing_table = [];
  retained_messages = [];
}

compute_local_topic_hash-Perm_example :
    compute_local_topic_hash (with_topics (codes "a" ∷ codes "b" ∷ []))
    ≡ compute_local_topic_hash (with_topics (codes "b" ∷ codes "a" ∷ []))
compute_local_topic_hash-Perm_example =
    compute_local_topic_hash-Perm (with_topics (codes "a" ∷ codes "b" ∷ []))
      (with_topics (codes "b" ∷ codes "a" ∷ [])) (swap refl refl)

abbrev pub peer : PeerInfo
peer = record {
  instance_uuid = codes "p";
  cluster_id = codes "c";
  rpc_ip = codes "10.0.0.1";
  rpc_port = 5001;
  topic_state_hash = 7;
  topics = topic ∷ [];
  status = PeerStatus.alive;
  last_seen = 0;
  synced = false;
}

abbrev pub with_peer : PeerRegistry
with_peer = let r = with_topics [] in record r { peers = (codes "p", peer) ∷ [] }

pub with_peer-IsRouted : IsRouted with_peer
unfolding find linked member
with_peer-IsRouted = record { distinct = (refl, tt); routed = λ t i h. cc }

abbrev calls : List Call
calls = upserts 1 peer ∷ updates (codes "p") (topic ∷ []) 7 ∷ reaps 6000000000 5000 ∷ []

run-IsRouted_example : IsRouted (run with_peer calls)
run-IsRouted_example = run-IsRouted with_peer calls with_peer-IsRouted

reap_dead_peers_lem_example :
    let (s, gone) = reap_dead_peers 6000000000 5000 with_peer in
    ((member (codes "p") gone ≡ true) ↔ (milliseconds (5000 + 1) ≤ 6000000000))
    × (find (codes "p") s.peers ≡ (if member (codes "p") gone then none else some peer))
    × ((member (codes "p") gone && linked topic (codes "p") s.routing_table) ≡ false)
unfolding find text_eq
reap_dead_peers_lem_example =
    reap_dead_peers_lem 6000000000 5000 with_peer topic (codes "p") peer with_peer-IsRouted refl

abbrev retained : RetainedMessage
retained = record {
  message_id = codes "m";
  topic = topic;
  payload = codes "x";
  content_type = [];
  source_node_id = node;
  timestamp_ms = pos 100;
  ttl_ms = pos 50;
}

abbrev with_retained : PeerRegistry
with_retained = let r = with_topics [] in record r { retained_messages = (topic, retained) ∷ [] }
