-- ===== src/Daemon/Unrouted.antt =====
-- A registry to which no peer's state is ever given (src/core/peer_registry.cpp) has no routes,
-- whatever else is called on it.
use nexus_d_pub_sub.Sidecar.Delivery.{deliver_from_remote-keeps}
use nexus_d_pub_sub.Prelude.{
  ℕ, Bool, false, ◌≡◌, refl, sym, ap, subst, ◌∙◌, Text, List, [], ◌∷◌, All, Option, some,
  Option-cases, Bool-cases, inl, inr, arith,
}
use mathlib.Core.Option.{some-injective, none-ne-some}
use nexus_d_pub_sub.Prelude.Int.{ℤ}
use nexus_d_pub_sub.Prelude.Map.{Map, find, assign-All, find-All}
use nexus_d_pub_sub.Prelude.Links.{same}
use nexus_d_pub_sub.PeerRegistry.{PeerInfo, PeerRegistry}
use nexus_d_pub_sub.PeerRegistry.Peers.{
  routes, rebuild_routing_table, rebuild_if_any, upsert_peer, refresh_peer, split_dead,
  reap_dead_peers,
}
use nexus_d_pub_sub.PeerRegistry.Subscriptions.{
  add_local_subscription, remove_local_subscription, resume_subscription,
  update_subscription_sequence, get_paused_subscription,
}
use nexus_d_pub_sub.PeerRegistry.TopicHash.{get_local_topic_hash}
use nexus_d_pub_sub.PeerRegistry.Retained.{set_retained_message}
use nexus_d_pub_sub.Discovery.{Beacon, Agent, peer_of, discover, accept_beacon, process_beacon}
use nexus_d_pub_sub.Sidecar.{Sidecar, MessageEnvelope, Env}
use nexus_d_pub_sub.Sidecar.Requests.{PublishRequest, PublishResponse, ResumeSubscribeRequest}
use nexus_d_pub_sub.Sidecar.Deliver.{deliver_from_remote, envelope_of, retain_published, publish}
use nexus_d_pub_sub.Sidecar.Resume.{resume_subscribe}

abbrev AllUnsynced : Map PeerInfo → Type 0
AllUnsynced = All (λ e. e.1.synced ≡ false)

-- No peer is synced, and there are no routes.
abbrev pub IsUnrouted : PeerRegistry → Type 0
IsUnrouted r = (r.routing_table ≡ []) × AllUnsynced r.peers

-- The registry has the peers and the routes that it had.
abbrev pub SamePeers : PeerRegistry → PeerRegistry → Type 0
SamePeers r s = (s.routing_table ≡ r.routing_table) × (s.peers ≡ r.peers)

pub SamePeers-IsUnrouted : (r s : PeerRegistry) → SamePeers r s → IsUnrouted r → IsUnrouted s
SamePeers-IsUnrouted r s (e, f) (h, k) = (e ∙ h, subst AllUnsynced (sym f) k)

routes-unsynced : (m : Map PeerInfo) → AllUnsynced m → routes m [] ≡ []
unfolding routes
routes-unsynced [] h = refl
routes-unsynced ((k, p) ∷ m) h = ground (arith, h.0, routes-unsynced m h.1)

upsert_peer-IsUnrouted :
    (now : ℕ) (info : PeerInfo) (r : PeerRegistry)
    → info.synced ≡ false
    → IsUnrouted r
    → IsUnrouted (upsert_peer now info r).0
unfolding upsert_peer refresh_peer
upsert_peer-IsUnrouted now info r e (h, k) = elim (Option-cases (find info.instance_uuid r.peers)) [
  | inl f ↦ rw (f, upsert_peer) (h, assign-All _ info.instance_uuid info r.peers e k)
  | inr (p, f) ↦
      let was = find-All (λ e. e.1.synced ≡ false) info.instance_uuid p r.peers f k in
      rw (f, upsert_peer)
        (
          h,
          assign-All _ info.instance_uuid (refresh_peer now info p) r.peers (ground (arith, was)) k,
        )
]

split_dead-AllUnsynced :
    (now timeout : ℕ) (m : Map PeerInfo) → AllUnsynced m → AllUnsynced (split_dead now timeout m).0
unfolding split_dead
split_dead-AllUnsynced now timeout [] h = tt
split_dead-AllUnsynced now timeout ((k, p) ∷ m) h =
    ground (arith, h.0, split_dead-AllUnsynced now timeout m h.1)

rebuild_if_any-IsUnrouted :
    (gone : List Text) (r : PeerRegistry) → IsUnrouted r → IsUnrouted (rebuild_if_any gone r)
unfolding rebuild_if_any rebuild_routing_table
rebuild_if_any-IsUnrouted [] r v = v
rebuild_if_any-IsUnrouted (id ∷ ids) r v = (routes-unsynced r.peers v.1, v.1)

pub reap_dead_peers-IsUnrouted :
    (now timeout : ℕ) (r : PeerRegistry)
    → IsUnrouted r
    → IsUnrouted (reap_dead_peers now timeout r).0
unfolding reap_dead_peers
reap_dead_peers-IsUnrouted now timeout r v =
    rebuild_if_any-IsUnrouted (split_dead now timeout r.peers).1
      (record r { peers = (split_dead now timeout r.peers).0 })
      (v.0, split_dead-AllUnsynced now timeout r.peers v.1)

pub process_beacon-IsUnrouted :
    (parse : Text → Option Beacon) (now later : ℕ) (bytes : Text) (a : Agent)
    → IsUnrouted a.registry
    → IsUnrouted (process_beacon parse now later bytes a).0.registry
unfolding process_beacon accept_beacon discover peer_of
process_beacon-IsUnrouted parse now later bytes a v = elim (Option-cases (parse bytes)) [
  | inl e ↦ rw (e, process_beacon) v
  | inr (b, e) ↦
      let known = upsert_peer-IsUnrouted later (peer_of now b) a.registry refl v in
      elim (Bool-cases (same b.instance_uuid a.registry.local_node_id)) [
        | inl f ↦ rw (e, process_beacon, accept_beacon, f) v
        | inr f ↦ elim (Bool-cases (same b.cluster_id a.cluster_id)) [
          | inl g ↦ rw (e, process_beacon, accept_beacon, f, g, discover) known
          | inr g ↦ rw (e, process_beacon, accept_beacon, f, g) v
        ]
      ]
]

pub hash-SamePeers : (r : PeerRegistry) → SamePeers r (get_local_topic_hash r).0
unfolding get_local_topic_hash
hash-SamePeers r = ground arith

sequence-SamePeers :
    (id topic : Text) (n : ℕ) (r : PeerRegistry)
    → SamePeers r (update_subscription_sequence id topic n r)
unfolding update_subscription_sequence
sequence-SamePeers id topic n r = ground arith

deliver_from_remote-SamePeers :
    (env : Env) (e : MessageEnvelope) (s t : Sidecar)
    → deliver_from_remote env e s ≡ some t
    → SamePeers s.registry t.registry
deliver_from_remote-SamePeers env e s t h =
    deliver_from_remote-keeps (SamePeers s.registry)
      (λ id topic seq r p.
        let (routes, peers) = sequence-SamePeers id topic seq r in (routes ∙ p.0, peers ∙ p.1))
      env e s t h (refl, refl)

retain_published-SamePeers :
    (e : MessageEnvelope) (r : PeerRegistry) → SamePeers r (retain_published e r)
unfolding retain_published set_retained_message
retain_published-SamePeers e r = ground arith

pub publish-SamePeers :
    (env : Env) (id : Text) (stamp : ℤ) (q : PublishRequest) (s t : Sidecar)
    (response : PublishResponse) (pushes : List (Text × MessageEnvelope))
    → publish env id stamp q s ≡ some (response, pushes, t)
    → SamePeers s.registry t.registry
unfolding publish
publish-SamePeers env id stamp q s t response pushes h =
    let e = envelope_of id stamp q s.registry in
    let s' : Sidecar = record s { registry = retain_published e s.registry } in
    elim (Option-cases (deliver_from_remote env e s')) [
      | inl f ↦ absurd (none-ne-some _ (rw (f, publish) at h))
      | inr (u, f) ↦
          let g = some-injective _ _ (rw (f, publish) at h) in
          let (x, y) = retain_published-SamePeers e s.registry in
          let (x', y') = deliver_from_remote-SamePeers env e s' u f in
          subst (λ v. SamePeers s.registry v.registry) (ap (λ v. v.2) g) (x' ∙ x, y' ∙ y)
    ]

pub add-SamePeers :
    (now : ℕ) (id client : Text) (topics : List Text) (size : ℤ) (r : PeerRegistry)
    → SamePeers r (add_local_subscription now id client topics size r).0
unfolding add_local_subscription
add-SamePeers now id client topics size r = ground arith

pub remove-SamePeers :
    (now : ℕ) (id : Text) (pause : Bool) (ttl : ℤ) (r : PeerRegistry)
    → SamePeers r (remove_local_subscription now id pause ttl r).0
unfolding remove_local_subscription
remove-SamePeers now id pause ttl r = ground arith

resume-SamePeers :
    (now created_at : ℕ) (id : Text) (r : PeerRegistry)
    → SamePeers r (resume_subscription now created_at id r).0
unfolding resume_subscription
resume-SamePeers now created_at id r = ground arith

pub resume_subscribe-SamePeers :
    (now created_at : ℕ) (stamp : ℤ) (q : ResumeSubscribeRequest) (s t : Sidecar)
    → resume_subscribe now created_at stamp q s ≡ some t
    → SamePeers s.registry t.registry
unfolding resume_subscribe get_paused_subscription
resume_subscribe-SamePeers now created_at stamp q s t h =
    elim (Option-cases (find q.subscription_id s.registry.paused_subscriptions)) [
      | inl f ↦ absurd (none-ne-some t (rw (f, resume_subscribe, get_paused_subscription) at h))
      | inr (p, f) ↦
          subst (λ x. SamePeers s.registry x.registry)
            (some-injective _ _ (rw (f, resume_subscribe, get_paused_subscription) at h))
            (resume-SamePeers now created_at q.subscription_id s.registry)
    ]
