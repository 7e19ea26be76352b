-- ===== src/PeerRegistry/Routing.antt =====
-- The routing table of a PeerRegistry (src/core/peer_registry.cpp) against its peers.
use nexus_d_pub_sub.Prelude.{
  ℕ, Bool, true, false, ◌&&◌, ◌||◌, ◌≡◌, refl, sym, ◌∙◌, Text, text_eq, List, [], ◌∷◌, none, some,
  Option-cases, inl, inr, arith, if◌then◌else◌,
}
use nexus_d_pub_sub.Prelude.Map.{
  Map, Distinct, find, erase, find-assign, assign-Distinct, erase-Distinct,
}
use nexus_d_pub_sub.Prelude.Links.{Links, same, member, link_all, linked, linked-link_all}
use nexus_d_pub_sub.PeerRegistry.{PeerInfo, PeerRegistry}
use nexus_d_pub_sub.PeerRegistry.Peers.{
  routes, rebuild_routing_table, refresh_peer, upsert_peer, remove_peer, update_peer_state, is_dead,
  split_dead, reap_dead_peers, set_state, rebuild_if_any,
}

-- The peer is known, its state has been pulled, and it subscribes to the topic.
unfoldable pub subscribed : Text → Text → Map PeerInfo → Bool
subscribed topic id peers = elim (find id peers) [
  | none ↦ false
  | some p ↦ p.synced && member topic p.topics
]

-- The peer is known, and the topics last pulled from it have the topic.
unfoldable pub known : Text → Text → Map PeerInfo → Bool
known topic id peers = elim (find id peers) [ none ↦ false | some p ↦ member topic p.topics ]

routes-subscribed :
    (t id : Text) (m : Map PeerInfo) (table : Links)
    → Distinct m
    → linked t id (routes m table) ≡ (subscribed t id m || linked t id table)
unfolding routes subscribed find same
routes-subscribed t id [] table d = refl
routes-subscribed t id ((k, p) ∷ m) table d =
    routes-subscribed t id m (if p.synced then link_all p.topics k table else table) d.1
    ∙ ground (arith, linked-link_all t id k p.topics table, d.0)

pub split_dead-find :
    (now timeout : ℕ) (id : Text) (m : Map PeerInfo)
    → Distinct m
    → find id (split_dead now timeout m).0
      ≡ elim (find id m) [ none ↦ none | some p ↦ if is_dead now timeout p then none else some p ]
unfolding split_dead find
split_dead-find now timeout id [] d = refl
split_dead-find now timeout id ((k, p) ∷ m) d = elim (text_eq k id) [
  | yes e ↦ ground (arith, split_dead-find now timeout id m d.1, d.0)
  | no e ↦ ground (arith, split_dead-find now timeout id m d.1, d.0)
]

pub split_dead-member :
    (now timeout : ℕ) (id : Text) (m : Map PeerInfo)
    → Distinct m
    → member id (split_dead now timeout m).1
      ≡ elim (find id m) [ none ↦ false | some p ↦ is_dead now timeout p ]
unfolding split_dead find member same
split_dead-member now timeout id [] d = refl
split_dead-member now timeout id ((k, p) ∷ m) d =
    ground (arith, split_dead-member now timeout id m d.1, d.0)

split_dead-Distinct :
    (now timeout : ℕ) (m : Map PeerInfo) → Distinct m → Distinct (split_dead now timeout m).0
unfolding split_dead find
split_dead-Distinct now timeout [] d = tt
split_dead-Distinct now timeout ((k, p) ∷ m) d =
    ground (arith, split_dead-Distinct now timeout m d.1, split_dead-find now timeout k m d.1, d.0)

linked_nil : (t id : Text) → linked t id [] ≡ false
unfolding linked find member
linked_nil t id = refl

-- A peer is routed for a topic right after the table was rebuilt exactly if it is known, its state
-- has been pulled, and it subscribes to the topic.
pub rebuild-subscribed :
    (t id : Text) (r : PeerRegistry)
    → Distinct r.peers
    → linked t id (rebuild_routing_table r).routing_table ≡ subscribed t id r.peers
unfolding rebuild_routing_table
rebuild-subscribed t id r d = ground (arith, routes-subscribed t id r.peers [] d, linked_nil t id)

-- Every route leads to a known peer that has, as far as was pulled from it, the topic.
pub record IsRouted (r : PeerRegistry) : Type 0 where
  pub distinct : Distinct r.peers
  pub routed : (t id : Text) → linked t id r.routing_table ≡ true → known t id r.peers ≡ true

subscribed-known : (t id : Text) (m : Map PeerInfo) → subscribed t id m ≡ true → known t id m ≡ true
unfolding subscribed known
subscribed-known t id m h = ground arith

rebuild-IsRouted : (r : PeerRegistry) → Distinct r.peers → IsRouted (rebuild_routing_table r)
rebuild-IsRouted r d = record {
  distinct = unfold rebuild_routing_table in d;
  routed = λ t id h.
      unfold rebuild_routing_table in
      subscribed-known t id r.peers (sym (rebuild-subscribed t id r d) ∙ h);
}

-- A beacon keeps the topics that were pulled from the peer.
known-upsert :
    (now : ℕ) (info : PeerInfo) (r : PeerRegistry) (t id : Text)
    → known t id r.peers ≡ true
    → known t id (upsert_peer now info r).0.peers ≡ true
unfolding known upsert_peer
known-upsert now info r t id h = elim (Option-cases (find info.instance_uuid r.peers)) [
  | inl e ↦ ground (arith, h, e, find-assign id info.instance_uuid info r.peers)
  | inr (p, e) ↦
      ground (arith, h, e, find-assign id info.instance_uuid (refresh_peer now info p) r.peers)
]

upsert_table :
    (now : ℕ) (info : PeerInfo) (r : PeerRegistry)
    → (upsert_peer now info r).0.routing_table ≡ r.routing_table
unfolding upsert_peer
upsert_table now info r = ground arith

upsert-Distinct :
    (now : ℕ) (info : PeerInfo) (r : PeerRegistry)
    → Distinct r.peers
    → Distinct (upsert_peer now info r).0.peers
unfolding upsert_peer
upsert-Distinct now info r d = elim (Option-cases (find info.instance_uuid r.peers)) [
  | inl e ↦ rw (e, upsert_peer) (assign-Distinct info.instance_uuid info r.peers d)
  | inr (p, e) ↦
      rw (e, upsert_peer) (assign-Distinct info.instance_uuid (refresh_peer now info p) r.peers d)
]

pub upsert_peer-IsRouted :
    (now : ℕ) (info : PeerInfo) (r : PeerRegistry)
    → IsRouted r
    → IsRouted (upsert_peer now info r).0
upsert_peer-IsRouted now info r v = record {
  distinct = upsert-Distinct now info r v.distinct;
  routed =
      λ t id h. known-upsert now info r t id (v.routed t id (rw (upsert_table now info r) at h));
}

pub set_state-Distinct :
    (id : Text) (topics : List Text) (hash : ℕ) (r : PeerRegistry)
    → Distinct r.peers
    → Distinct (set_state id topics hash r).peers
unfolding set_state
set_state-Distinct id topics hash r d = elim (Option-cases (find id r.peers)) [
  | inl e ↦ rw (e, set_state) d
  | inr (p, e) ↦
      rw (e, set_state)
        (assign-Distinct id (record p { topics = topics; topic_state_hash = hash; synced = true })
          r.peers d)
]

pub remove_peer-IsRouted : (id : Text) (r : PeerRegistry) → IsRouted r → IsRouted (remove_peer id r)
unfolding remove_peer
remove_peer-IsRouted id r v =
    rebuild-IsRouted (record r { peers = erase id r.peers }) (erase-Distinct id r.peers v.distinct)

pub data Call : Type 0 where
  upserts : ℕ → PeerInfo → Call
  removes_peer : Text → Call
  updates : Text → List Text → ℕ → Call
  reaps : ℕ → ℕ → Call

unfoldable pub step : PeerRegistry → Call → PeerRegistry
step r (upserts now info) = (upsert_peer now info r).0
step r (removes_peer id) = remove_peer id r
step r (updates id topics hash) = update_peer_state id topics hash r
step r (reaps now timeout) = (reap_dead_peers now timeout r).0

unfoldable pub run : PeerRegistry → List Call → PeerRegistry
unfolding step
run r [] = r
run r (c ∷ cs) = run (step r c) cs

no_dead :
    (now timeout : ℕ) (m : Map PeerInfo)
    → (split_dead now timeout m).1 ≡ []
    → (split_dead now timeout m).0 ≡ m
unfolding split_dead
no_dead now timeout [] e = refl
no_dead now timeout ((k, p) ∷ m) e = ground (arith, no_dead now timeout m)

pub reaped-IsRouted :
    (now timeout : ℕ) (r : PeerRegistry) (gone : List Text)
    → (split_dead now timeout r.peers).1 ≡ gone
    → IsRouted r
    → IsRouted (rebuild_if_any gone (record r { peers = (split_dead now timeout r.peers).0 }))
unfolding rebuild_if_any
reaped-IsRouted now timeout r [] e v = rw (no_dead now timeout r.peers e) v
reaped-IsRouted now timeout r (id ∷ ids) e v =
    rebuild-IsRouted (record r { peers = (split_dead now timeout r.peers).0 })
      (split_dead-Distinct now timeout r.peers v.distinct)

step-IsRouted : (r : PeerRegistry) (c : Call) → IsRouted r → IsRouted (step r c)
unfolding step update_peer_state reap_dead_peers
step-IsRouted r (upserts now info) v = upsert_peer-IsRouted now info r v
step-IsRouted r (removes_peer id) v = remove_peer-IsRouted id r v
step-IsRouted r (updates id topics hash) v =
    rebuild-IsRouted (set_state id topics hash r) (set_state-Distinct id topics hash r v.distinct)
step-IsRouted r (reaps now timeout) v =
    reaped-IsRouted now timeout r (split_dead now timeout r.peers).1 refl v

-- After any calls on a registry in which it held, every route leads to a known peer that has the
-- topic: what `getRemoteSubscribers` returns `getPeer` finds.
pub run-IsRouted : (r : PeerRegistry) (cs : List Call) → IsRouted r → IsRouted (run r cs)
unfolding run
run-IsRouted r [] v = v
run-IsRouted r (c ∷ cs) v = run-IsRouted (step r c) cs (step-IsRouted r c v)
