-- ===== src/PeerRegistry/Liveness.antt =====
-- Which peers are dropped, and when a peer's state is pulled (src/core/peer_registry.cpp).
use nexus_d_pub_sub.Prelude.{
  ℕ, ◌+◌, ◌≤◌, true, false, ◌≡◌, refl, ◌∙◌, ◌↔◌, inl, inr, Text, text_eq, List, [], ◌∷◌, none, some,
  Option-cases, Bool-cases, arith, milliseconds, if◌then◌else◌, ◌==◌, if_pos, not, ◌&&◌,
}
use nexus_d_pub_sub.Prelude.Map.{find, assign, find-assign}
use nexus_d_pub_sub.Prelude.Links.{member, linked}
use nexus_d_pub_sub.PeerRegistry.{PeerInfo, PeerRegistry}
use nexus_d_pub_sub.PeerRegistry.Peers.{
  refresh_peer, upsert_peer, is_dead, split_dead, rebuild_if_any, reap_dead_peers,
}
use nexus_d_pub_sub.PeerRegistry.Routing.{
  IsRouted, known, split_dead-find, split_dead-member, reaped-IsRouted,
}

dead_late :
    (now timeout : ℕ) (p : PeerInfo)
    → p.last_seen + milliseconds (timeout + 1) ≤ now
    → is_dead now timeout p ≡ true
unfolding is_dead
dead_late now timeout p h = ground arith

reap-peers :
    (now timeout : ℕ) (r : PeerRegistry)
    → (reap_dead_peers now timeout r).0.peers ≡ (split_dead now timeout r.peers).0
unfolding reap_dead_peers
reap-peers now timeout r = go (split_dead now timeout r.peers).1
  where
    go :
        (gone : List Text)
        → (rebuild_if_any gone (record r { peers = (split_dead now timeout r.peers).0 })).peers
          ≡ (split_dead now timeout r.peers).0
    go [] = unfold rebuild_if_any in refl
    go (id ∷ ids) = unfold rebuild_if_any in refl

reap-IsRouted :
    (now timeout : ℕ) (r : PeerRegistry) → IsRouted r → IsRouted (reap_dead_peers now timeout r).0
unfolding reap_dead_peers
reap-IsRouted now timeout r v =
    reaped-IsRouted now timeout r (split_dead now timeout r.peers).1 refl v

-- No route leads to a peer that is not known.
unrouted :
    (r : PeerRegistry) (t id : Text)
    → IsRouted r
    → find id r.peers ≡ none
    → linked t id r.routing_table ≡ false
unfolding known
unrouted r t id v e = elim (Bool-cases (linked t id r.routing_table)) [
  | inl h ↦ ground (arith, e, v.routed t id h)
  | inr h ↦ h
]

-- A reaping reports a peer exactly if its last beacon is more than the timeout old, in whole
-- milliseconds. Then the peer is forgotten with all routes to it, and else it is kept as it is.
pub reap_dead_peers_lem :
    (now timeout : ℕ) (r : PeerRegistry) (t id : Text) (p : PeerInfo)
    → IsRouted r
    → find id r.peers ≡ some p
    → let (s, gone) = reap_dead_peers now timeout r in
      ((member id gone ≡ true) ↔ (p.last_seen + milliseconds (timeout + 1) ≤ now))
      × (find id s.peers ≡ (if member id gone then none else some p))
      × ((member id gone && linked t id s.routing_table) ≡ false)
reap_dead_peers_lem now timeout r t id p v e =
    let found = reap-peers now timeout r in
    let stays = split_dead-find now timeout id r.peers v.distinct in
    let reported : member id (reap_dead_peers now timeout r).1 ≡ is_dead now timeout p =
      unfold reap_dead_peers in
      split_dead-member now timeout id r.peers v.distinct ∙ ground (arith, e) in
    let kept : find id (reap_dead_peers now timeout r).0.peers
        ≡ (if is_dead now timeout p then none else some p) =
      rw found (ground (arith, stays, e)) in
    rw reported (
      (λ dead. unfold is_dead in ground (arith, dead), dead_late now timeout p),
      kept,
      elim (Bool-cases (is_dead now timeout p)) [
        | inr live ↦ ground (arith, live)
        | inl dead ↦
            let forgotten : find id (reap_dead_peers now timeout r).0.peers ≡ none =
              kept ∙ ground (arith, dead) in
            ground (
              arith,
              unrouted (reap_dead_peers now timeout r).0 t id (reap-IsRouted now timeout r v)
                  forgotten,
            )
      ],
    )

module _ (now : ℕ) (info : PeerInfo) (r : PeerRegistry) where
  abbrev uuid : Text
  uuid = info.instance_uuid

  pub upsert_new :
      find uuid r.peers ≡ none
      → upsert_peer now info r ≡ (record r { peers = assign uuid info r.peers }, true)
  unfolding upsert_peer
  upsert_new e = rw (e, upsert_peer)

  pub upsert_known :
      (p : PeerInfo)
      → find uuid r.peers ≡ some p
      → upsert_peer now info r ≡ (
        record r { peers = assign uuid (refresh_peer now info p) r.peers },
        not (p.topic_state_hash == info.topic_state_hash),
      )
  unfolding upsert_peer
  upsert_known p e = rw (e, upsert_peer)

  pub find-assign_self : (p : PeerInfo) → find uuid (assign uuid p r.peers) ≡ some p
  find-assign_self p = find-assign uuid uuid p r.peers ∙ if_pos (text_eq uuid uuid) refl _ _

  -- What a beacon that asks for a pull leaves.
  upsert_asked :
      info.synced ≡ false
      → (upsert_peer now info r).1 ≡ true
      → (p : PeerInfo) × (find uuid (upsert_peer now info r).0.peers ≡ some p)
        × (p.topic_state_hash ≡ info.topic_state_hash)
        × (p.synced ≡ false)
  unfolding refresh_peer
  upsert_asked fresh asked = elim (Option-cases (find uuid r.peers)) [
    | inl e ↦ rw (upsert_new e) (info, find-assign_self info, refl, fresh)
    | inr (p, e) ↦
        let differs = rw (upsert_known p e) at asked in
        rw (upsert_known p e)
          (refresh_peer now info p, find-assign_self (refresh_peer now info p), refl, ground arith)
  ]

-- When a beacon has asked for a pull of the peer's state, a later beacon with the same hash does
-- not ask again, and the peer stays unsynchronised: a pull that failed is not repeated until the
-- peer's topics change.
pub upsert_peer_once :
    (now later : ℕ) (info again : PeerInfo) (r : PeerRegistry)
    → info.synced ≡ false
    → again.instance_uuid ≡ info.instance_uuid
    → again.topic_state_hash ≡ info.topic_state_hash
    → (upsert_peer now info r).1 ≡ true
    → ((upsert_peer later again (upsert_peer now info r).0).1 ≡ false)
      × ((q : PeerInfo) × (find again.instance_uuid
              (upsert_peer later again (upsert_peer now info r).0).0.peers
            ≡ some q)
          × (q.synced ≡ false))
unfolding refresh_peer
upsert_peer_once now later info again r fresh same_id same_hash asked =
    let (p, found, hash, unsynced) = upsert_asked now info r fresh asked in
    let s = (upsert_peer now info r).0 in
    let here : find again.instance_uuid s.peers ≡ some p = ground (arith, found, same_id) in
    let q = refresh_peer later again p in
    rw (upsert_known later again s p here) (
      ground (arith, hash, same_hash),
      (q, find-assign_self later again s q, ground (arith, unsynced)),
    )
