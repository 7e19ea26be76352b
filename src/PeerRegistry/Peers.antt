-- ===== src/PeerRegistry/Peers.antt =====
-- The peers of a PeerRegistry (src/core/peer_registry.cpp): discovery, synchronisation, reaping,
-- and the routing table built from them.
use nexus_d_pub_sub.Prelude.{
  ℕ, ◌-◌, Bool, true, false, Text, List, [], ◌∷◌, Option, none, some, map, ltb, if◌then◌else◌, not,
  ◌==◌, to_milliseconds,
}
use nexus_d_pub_sub.Prelude.Map.{Map, find, assign, erase, contains}
use nexus_d_pub_sub.Prelude.Links.{Links, link_all, ids_of}
use nexus_d_pub_sub.PeerRegistry.{PeerStatus, PeerInfo, PeerRegistry}

-- The loop of `rebuildRoutingTable`.
unfoldable pub routes : Map PeerInfo → Links → Links
routes [] table = table
routes ((peer_id, peer) ∷ m) table =
    routes m (if peer.synced then link_all peer.topics peer_id table else table)

unfoldable pub rebuild_routing_table : PeerRegistry → PeerRegistry
unfolding routes
rebuild_routing_table r = record r { routing_table = routes r.peers [] }

-- The update of a known peer in `upsertPeer`.
unfoldable pub refresh_peer : ℕ → PeerInfo → PeerInfo → PeerInfo
refresh_peer now info peer = record peer {
  synced = if peer.topic_state_hash == info.topic_state_hash then peer.synced else false;
  rpc_ip = info.rpc_ip;
  rpc_port = info.rpc_port;
  topic_state_hash = info.topic_state_hash;
  status = PeerStatus.alive;
  last_seen = now;
}

-- The new registry, and whether the peer's state has to be pulled.
unfoldable pub upsert_peer : ℕ → PeerInfo → PeerRegistry → PeerRegistry × Bool
unfolding refresh_peer
upsert_peer now info r = elim (find info.instance_uuid r.peers) [
  | none ↦ (record r { peers = assign info.instance_uuid info r.peers }, true)
  | some peer ↦ (
    record r { peers = assign info.instance_uuid (refresh_peer now info peer) r.peers },
    not (peer.topic_state_hash == info.topic_state_hash),
  )
]

-- Erasing an id that is not there changes nothing.
unfoldable pub remove_peer : Text → PeerRegistry → PeerRegistry
unfolding rebuild_routing_table
remove_peer instance_uuid r =
    rebuild_routing_table (record r { peers = erase instance_uuid r.peers })

unfoldable pub get_peer : Text → PeerRegistry → Option PeerInfo
get_peer instance_uuid r = find instance_uuid r.peers

unfoldable pub get_all_peers : PeerRegistry → List PeerInfo
get_all_peers r = map (λ e. e.1) r.peers

-- The first block of `updatePeerState`.
unfoldable pub set_state : Text → List Text → ℕ → PeerRegistry → PeerRegistry
set_state instance_uuid topics hash r = elim (find instance_uuid r.peers) [
  | none ↦ r
  | some peer ↦ record r {
    peers =
        assign instance_uuid
          (record peer { topics = topics; topic_state_hash = hash; synced = true }) r.peers;
  }
]

unfoldable pub update_peer_state : Text → List Text → ℕ → PeerRegistry → PeerRegistry
unfolding set_state rebuild_routing_table
update_peer_state instance_uuid topics hash r =
    rebuild_routing_table (set_state instance_uuid topics hash r)

-- `elapsed > timeout`, both in milliseconds; a negative `elapsed` is not, and is 0 here.
unfoldable pub is_dead : ℕ → ℕ → PeerInfo → Bool
is_dead now timeout peer = ltb timeout (to_milliseconds (now - peer.last_seen))

-- The loop of `reapDeadPeers`: the peers that stay, and the ids of the others.
unfoldable pub split_dead : ℕ → ℕ → Map PeerInfo → Map PeerInfo × List Text
unfolding is_dead
split_dead now timeout [] = ([], [])
split_dead now timeout ((id, peer) ∷ m) =
    let (live, gone) = split_dead now timeout m in
    if is_dead now timeout peer then (live, id ∷ gone) else ((id, peer) ∷ live, gone)

-- `if (!deadPeers.empty()) { rebuildRoutingTable(); }`
unfoldable pub rebuild_if_any : List Text → PeerRegistry → PeerRegistry
unfolding rebuild_routing_table
rebuild_if_any [] r = r
rebuild_if_any (id ∷ ids) r = rebuild_routing_table r

unfoldable pub reap_dead_peers : ℕ → ℕ → PeerRegistry → PeerRegistry × List Text
unfolding split_dead rebuild_if_any
reap_dead_peers now timeout r =
    let (live, gone) = split_dead now timeout r.peers in
    (rebuild_if_any gone (record r { peers = live }), gone)

unfoldable pub get_remote_subscribers : Text → PeerRegistry → List Text
get_remote_subscribers topic r = ids_of (find topic r.routing_table)

unfoldable pub get_routing_table : PeerRegistry → Links
get_routing_table r = r.routing_table

unfoldable pub has_subscribers : Text → PeerRegistry → Bool
has_subscribers topic r =
    if contains topic r.routing_table then true else contains topic r.topic_to_subscriptions
