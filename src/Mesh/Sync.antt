-- ===== src/Mesh/Sync.antt =====
-- What a node knows of a peer whose state it pulled: GetNodeState (src/services/mesh_service.cpp) on
-- the peer, `updatePeerState` (src/core/peer_registry.cpp) with the answer, and the peer's beacons after
-- it (src/core/discovery_agent.cpp).
use nexus_d_pub_sub.PeerRegistry.Liveness.{upsert_known}
use nexus_d_pub_sub.Prelude.{
  ℕ, ◌≡◌, refl, sym, ap, ◌∙◌, true, Text, text_eq, none, some, Bool-cases, inl, inr, arith, if_pos,
}
use nexus_d_pub_sub.Prelude.Int.{ℤ}
use nexus_d_pub_sub.Prelude.Map.{find, Distinct, find-assign}
use nexus_d_pub_sub.Prelude.Links.{linked, member, same}
use nexus_d_pub_sub.PeerRegistry.{PeerInfo, PeerRegistry}
use nexus_d_pub_sub.PeerRegistry.Peers.{
  set_state, update_peer_state, upsert_peer, rebuild_routing_table,
}
use nexus_d_pub_sub.PeerRegistry.Routing.{subscribed, rebuild-subscribed, set_state-Distinct}
use nexus_d_pub_sub.PeerRegistry.Subscriptions.{get_local_topics}
use nexus_d_pub_sub.PeerRegistry.TopicHash.{get_local_topic_hash, compute_local_topic_hash}
use nexus_d_pub_sub.PeerRegistry.HashCache.{get_local_topic_hash_lem}
use nexus_d_pub_sub.PeerRegistry.Reach.{Reachable, steps, hashes, hash_keeps}
use nexus_d_pub_sub.Mesh.{NodeState, get_node_state}
use nexus_d_pub_sub.Discovery.{Beacon, Agent, send_beacon, accept_beacon, discover, peer_of}

-- What the node is meant to store of the answer: the callback that does so is not part of the code.
unfoldable pub pull : NodeState → PeerRegistry → PeerRegistry
unfolding update_peer_state
pull state r = update_peer_state state.instance_uuid state.topics state.topic_state_hash r

find-pull :
    (state : NodeState) (r : PeerRegistry) (p : PeerInfo)
    → find state.instance_uuid r.peers ≡ some p
    → find state.instance_uuid (pull state r).peers
      ≡ some (record p {
        topics = state.topics;
        topic_state_hash = state.topic_state_hash;
        synced = true;
      })
unfolding pull update_peer_state set_state rebuild_routing_table
find-pull state r p e =
    let q : PeerInfo = record p {
      topics = state.topics;
      topic_state_hash = state.topic_state_hash;
      synced = true;
    } in
    rw (e, pull, update_peer_state, set_state)
      (find-assign state.instance_uuid state.instance_uuid q r.peers
        ∙ if_pos (text_eq state.instance_uuid state.instance_uuid) refl _ _)

linked-pull :
    (t : Text) (state : NodeState) (r : PeerRegistry) (p : PeerInfo)
    → Distinct r.peers
    → find state.instance_uuid r.peers ≡ some p
    → linked t state.instance_uuid (pull state r).routing_table ≡ member t state.topics
unfolding pull update_peer_state rebuild_routing_table subscribed
linked-pull t state r p d e =
    let id = state.instance_uuid in
    let r' = set_state id state.topics state.topic_state_hash r in
    rebuild-subscribed t id r' (set_state-Distinct id state.topics state.topic_state_hash r d)
    ∙ rw (find-pull state r p e, subscribed) refl

-- The hash stays the same when it is asked for again.
hash_again :
    {node : Text} (r : PeerRegistry)
    → Reachable node r
    → (get_local_topic_hash (get_local_topic_hash r).0).1 ≡ (get_local_topic_hash r).1
unfolding compute_local_topic_hash
hash_again r w =
    get_local_topic_hash_lem (get_local_topic_hash r).0 (steps w hashes)
    ∙ rw ((hash_keeps r).0, compute_local_topic_hash) (sym (get_local_topic_hash_lem r w))

same_node : (r : PeerRegistry) → (get_local_topic_hash r).0.local_node_id ≡ r.local_node_id
unfolding get_local_topic_hash
same_node r = ground arith

no_news :
    (now later : ℕ) (b : Beacon) (a : Agent) (p : PeerInfo)
    → find b.instance_uuid a.registry.peers ≡ some p
    → p.topic_state_hash ≡ b.topic_state_hash
    → (accept_beacon now later b a).1 ≡ none
unfolding accept_beacon discover upsert_peer peer_of
no_news now later b a p e f = elim (Bool-cases (same b.instance_uuid a.registry.local_node_id)) [
  | inl g ↦ rw (g, accept_beacon) refl
  | inr g ↦ elim (Bool-cases (same b.cluster_id a.cluster_id)) [
    | inr h ↦ rw (g, h, accept_beacon) refl
    | inl h ↦
        rw (g, h, accept_beacon, discover, upsert_known later (peer_of now b) a.registry p e)
          (ground (arith, f))
  ]
]

-- Let a node give to `updatePeerState` what GetNodeState answers for a peer that the node knows. It then
-- routes a topic to the peer exactly if the topic is one of the peer's local topics, whatever it routed
-- before; and the beacon that the peer sends after its answer has nothing pulled again.
pub pull-routes :
    {uuid : Text} (a : Agent) (r : PeerRegistry) (p : PeerInfo) (peer : Agent) (t : Text)
    (now later : ℕ) (stamp : ℤ)
    → Distinct r.peers
    → find peer.registry.local_node_id r.peers ≡ some p
    → Reachable uuid peer.registry
    → let (answered, state) = get_node_state peer.registry in
      let pulled = pull state r in
      (linked t peer.registry.local_node_id pulled.routing_table
        ≡ member t (get_local_topics peer.registry))
      × ((accept_beacon now later
            (send_beacon stamp (record peer { registry = answered })).1
            (record a { registry = pulled })).1
          ≡ none)
unfolding get_node_state send_beacon get_local_topics
pull-routes a r p peer t now later stamp d e w =
    let state = (get_node_state peer.registry).1 in
    let answered = (get_node_state peer.registry).0 in
    let beacon = (send_beacon stamp (record peer { registry = answered })).1 in
    (
      linked-pull t state r p d e,
      no_news now later beacon (record a { registry = pull state r })
          (record p {
            topics = state.topics;
            topic_state_hash = state.topic_state_hash;
            synced = true;
          })
          (ap (λ id. find id (pull state r).peers) (same_node peer.registry)
            ∙ find-pull state r p e)
          (sym (hash_again peer.registry w)),
    )
