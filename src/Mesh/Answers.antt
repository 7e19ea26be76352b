-- ===== src/Mesh/Answers.antt =====
-- What GetNodeState (src/services/mesh_service.cpp) promises a peer.
use nexus_d_pub_sub.Prelude.{◌≡◌, refl, ◌∙◌, Text}
use nexus_d_pub_sub.Crc64.{compute_all}
use nexus_d_pub_sub.PeerRegistry.{PeerRegistry}
use nexus_d_pub_sub.PeerRegistry.Subscriptions.{get_local_topics}
use nexus_d_pub_sub.PeerRegistry.TopicHash.{sort, compute_local_topic_hash}
use nexus_d_pub_sub.PeerRegistry.HashCache.{get_local_topic_hash_lem}
use nexus_d_pub_sub.PeerRegistry.Reach.{Reachable}
use nexus_d_pub_sub.Mesh.{get_node_state}

-- The hash that GetNodeState returns is that of the topics that it returns, sorted.
pub get_node_state-hash :
    {node : Text} (r : PeerRegistry)
    → Reachable node r
    → let state = (get_node_state r).1 in state.topic_state_hash ≡ compute_all (sort state.topics)
unfolding get_node_state get_local_topics
get_node_state-hash r w = get_local_topic_hash_lem r w ∙ unfold compute_local_topic_hash in refl
