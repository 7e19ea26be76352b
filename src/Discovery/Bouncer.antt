-- ===== src/Discovery/Bouncer.antt =====
-- Which beacons an agent (src/core/discovery_agent.cpp) acts on, and when it has a peer's state
-- pulled.
use nexus_d_pub_sub.Prelude.{
  ℕ, ◌≡◌, refl, Bool, true, not, ◌&&◌, Text, Option, none, some, Option-cases, inl, inr, arith,
  if◌then◌else◌, ◌==◌,
}
use nexus_d_pub_sub.Prelude.Map.{find}
use nexus_d_pub_sub.Prelude.Links.{same}
use nexus_d_pub_sub.PeerRegistry.{PeerStatus, PeerInfo}
use nexus_d_pub_sub.PeerRegistry.Peers.{refresh_peer, get_peer}
use nexus_d_pub_sub.PeerRegistry.Liveness.{upsert_new, upsert_known, find-assign_self}
use nexus_d_pub_sub.Discovery.{Beacon, Agent, peer_of, discover, accept_beacon, process_beacon}

-- Whether the beacon is of another node of the agent's cluster.
unfoldable pub is_foreign : Beacon → Agent → Bool
is_foreign b a =
    not (same b.instance_uuid a.registry.local_node_id) && same b.cluster_id a.cluster_id

-- Whether the peer is unknown, or known with another hash.
abbrev pub is_news : Beacon → Agent → Bool
is_news b a = elim (find b.instance_uuid a.registry.peers) [
  | none ↦ true
  | some p ↦ not (p.topic_state_hash == b.topic_state_hash)
]

accepted :
    (now later : ℕ) (b : Beacon) (a : Agent)
    → is_foreign b a ≡ true
    → accept_beacon now later b a ≡ discover now later (peer_of now b) a
unfolding accept_beacon is_foreign
accepted now later b a h = ground (arith, h)

-- What `discover` leaves of a beacon: the peer, up to date with it, and the pull.
abbrev pub Discovered : Beacon → Agent → Agent × Option PeerInfo → Type 0
Discovered b a (t, pulled) =
    (p : PeerInfo) × (find b.instance_uuid t.registry.peers ≡ some p)
    × (p.topic_state_hash ≡ b.topic_state_hash)
    × (p.rpc_ip ≡ b.rpc_ip)
    × (p.status ≡ PeerStatus.alive)
    × (pulled ≡ (if is_news b a && a.has_callback then some p else none))

discover-Discovered :
    (now later : ℕ) (b : Beacon) (a : Agent) → Discovered b a (discover now later (peer_of now b) a)
unfolding discover peer_of get_peer refresh_peer
discover-Discovered now later b a =
    let info = peer_of now b in
    elim (Option-cases (find b.instance_uuid a.registry.peers)) [
      | inl e ↦
          let here = find-assign_self later info a.registry info in
          rw (upsert_new later info a.registry e)
            (info, here, refl, refl, refl, ground (arith, here))
      | inr (p, e) ↦
          let q = refresh_peer later info p in
          let here = find-assign_self later info a.registry q in
          rw (upsert_known later info a.registry p e)
            (q, here, refl, refl, refl, ground (arith, here))
    ]

-- After a beacon of another node of the cluster the node is known with the beacon's hash and address
-- and is alive. Its state is pulled exactly if it was not known, or was known with another hash, and
-- a callback is set.
pub process_beacon_accepted :
    (parse : Text → Option Beacon) (now later : ℕ) (bytes : Text) (b : Beacon) (a : Agent)
    → parse bytes ≡ some b
    → is_foreign b a ≡ true
    → Discovered b a (process_beacon parse now later bytes a)
unfolding process_beacon
process_beacon_accepted parse now later bytes b a e h =
    rw (e, process_beacon, accepted now later b a h) (discover-Discovered now later b a)
