-- ===== src/Mesh/Forwarding.antt =====
-- What Publish (src/services/sidecar_service.cpp) pushes to the peers over the channels of the
-- MeshClient.
use nexus_d_pub_sub.PeerRegistry.Subscriptions.{get_local_subscriptions}
use nexus_d_pub_sub.Prelude.{
  ◌+◌, ◌<◌, ◌≡◌, refl, ap, ◌∙◌, true, Text, List, [], ◌∷◌, ◌++◌, All, Option, none, some,
  Option-cases, inl, inr, arith, map, length, u64_mod,
}
use mathlib.Core.List.{append_assoc, append-nil}
use nexus_d_pub_sub.Prelude.Int.{ℤ}
use nexus_d_pub_sub.Prelude.Map.{find}
use nexus_d_pub_sub.Prelude.Links.{member, same, linked, ids_of}
use nexus_d_pub_sub.MessageBuffer.{topic_buffer}
use nexus_d_pub_sub.MessageBuffer.Valid.{IsValid}
use nexus_d_pub_sub.PeerRegistry.{PeerRegistry}
use nexus_d_pub_sub.PeerRegistry.Peers.{get_peer, get_remote_subscribers}
use nexus_d_pub_sub.PeerRegistry.Retained.{set_retained_message}
use nexus_d_pub_sub.PeerRegistry.Routing.{IsRouted, known}
use nexus_d_pub_sub.Sidecar.{Sidecar, MessageEnvelope, Env}
use nexus_d_pub_sub.Sidecar.Requests.{PublishRequest, PublishResponse}
use nexus_d_pub_sub.Sidecar.Deliver.{endpoint, push_targets, envelope_of, retain_published, publish}
use nexus_d_pub_sub.Sidecar.Delivery.{deliver_from_remote-sent, IsDeliverable}
use nexus_d_pub_sub.Mesh.Client.{Channel, Request, pushes, Grpc, MeshClient, push_message}
use nexus_d_pub_sub.Mesh.Channels.{IsConnected, call_of, push_message-started}

-- The pushes of the loop "Forward to remote subscribers", in its order.
unfoldable pub push_all : Grpc → List (Text × MessageEnvelope) → MeshClient → MeshClient
unfolding push_message
push_all g [] c = c
push_all g ((target, e) ∷ ps) c = push_all g ps (push_message g target e c).1

abbrev push_of : Text × MessageEnvelope → Text × Request
push_of (target, e) = (target, pushes e)

module _ (g : Grpc) (connects : (c : Channel) → g.new_stub c ≡ some (record { channel = c })) where
  push_all-started :
      (ps : List (Text × MessageEnvelope)) (c : MeshClient)
      → All IsConnected c.channels
      → map call_of (push_all g ps c).started ≡ map call_of c.started ++ map push_of ps
  unfolding push_all
  push_all-started [] c h = rw append-nil refl
  push_all-started ((target, e) ∷ ps) c h =
      let (here, hs) = push_message-started g connects target e c h in
      push_all-started ps (push_message g target e c).1 hs ∙ rw (here, append_assoc) refl

-- The endpoint of a peer that the registry knows.
unfoldable pub endpoint_of : PeerRegistry → Text → Option Text
unfolding get_peer endpoint
endpoint_of r id = elim (get_peer id r) [ none ↦ none | some p ↦ some (endpoint p) ]

push_targets-known :
    (ids : List Text) (topic : Text) (r : PeerRegistry)
    → ((id : Text) → member id ids ≡ true → known topic id r.peers ≡ true)
    → map (endpoint_of r) ids ≡ map (λ t. some t) (push_targets ids r)
unfolding push_targets get_peer member same known endpoint_of
push_targets-known [] topic r f = refl
push_targets-known (id ∷ ids) topic r f =
    let here = f id (ground arith) in
    let rest = push_targets-known ids topic r (λ i h. f i (ground (arith, h))) in
    elim (Option-cases (find id r.peers)) [
      | inl e ↦ ground (arith, here, e)
      | inr (p, e) ↦ rw (e, push_targets, get_peer, rest, endpoint_of) refl
    ]

push_targets-same :
    (ids : List Text) (r s : PeerRegistry)
    → s.peers ≡ r.peers
    → push_targets ids s ≡ push_targets ids r
unfolding push_targets get_peer
push_targets-same [] r s e = refl
push_targets-same (id ∷ ids) r s e =
    let rest = push_targets-same ids r s e in
    elim (Option-cases (find id r.peers)) [
      | inl f ↦ rw (push_targets, e, f) rest
      | inr (p, f) ↦ rw (push_targets, e, f, rest) refl
    ]

retain_published-same :
    (e : MessageEnvelope) (r : PeerRegistry)
    → let r' = retain_published e r in (r'.peers ≡ r.peers) × (r'.routing_table ≡ r.routing_table)
unfolding retain_published set_retained_message
retain_published-same e r = ground arith

map-push_of :
    (e : MessageEnvelope) (targets : List Text)
    → map push_of (map (λ target. (target, e)) targets) ≡ map (λ target. (target, pushes e)) targets
map-push_of e [] = refl
map-push_of e (target ∷ targets) = rw (map-push_of e targets) refl

-- On a valid buffer with a positive ring size and room for the topic's next number and for the
-- payload, where every route of the registry leads to a known peer, no active stream that has the
-- topic belongs to a ResumeSubscribeReactor, gRPC gives a stub for every channel, and each channel
-- that the client has leads to the endpoint under which it is kept: Publish returns, its loop finds
-- the peer of every remote subscriber of the topic, and it starts one PushMessage call with the
-- published envelope for each of them, in their order, over a channel to that peer's endpoint, and
-- no other call.
pub publish-forwarded :
    (g : Grpc) (env : Env) (id : Text) (stamp : ℤ) (q : PublishRequest) (s : Sidecar)
    (c : MeshClient)
    → ((channel : Channel) → g.new_stub channel ≡ some (record { channel = channel }))
    → All IsConnected c.channels
    → All (IsDeliverable q.topic) s.active_streams
    → IsRouted s.registry
    → IsValid s.message_buffer
    → 0 < s.message_buffer.buffer_size_per_topic
    → (topic_buffer q.topic s.message_buffer).next_sequence + 1 < u64_mod
    → s.message_buffer.current_total_bytes + length q.payload < u64_mod
    → (response : PublishResponse) × (ps : List (Text × MessageEnvelope)) × (t : Sidecar)
      × (targets : List Text) × (publish env id stamp q s ≡ some (response, ps, t))
      × (map (endpoint_of s.registry) (get_remote_subscribers q.topic s.registry)
          ≡ map (λ target. some target) targets)
      × (map call_of (push_all g ps c).started
          ≡ map call_of c.started
            ++ map (λ target. (target, pushes (envelope_of id stamp q s.registry))) targets)
unfolding publish envelope_of get_remote_subscribers
publish-forwarded g env id stamp q s c connects cached castable routed valid size room space =
    let e = envelope_of id stamp q s.registry in
    let r' = retain_published e s.registry in
    let s' : Sidecar = record s { registry = r' } in
    let (same_peers, same_routes) = retain_published-same e s.registry in
    let ids = get_remote_subscribers q.topic s.registry in
    let targets = push_targets ids s.registry in
    let (seq, t, done, buffered, sent) =
      deliver_from_remote-sent env e s' id castable valid size room space in
    let found =
      push_targets-known ids q.topic s.registry
        (λ i h. routed.routed q.topic i (unfold linked in h)) in
    let pushed = push_targets (get_remote_subscribers q.topic r') r' in
    let as_before : pushed ≡ targets =
      ap (λ table. push_targets (ids_of (find q.topic table)) r') same_routes
      ∙ push_targets-same ids s.registry r' same_peers in
    let ps = map (λ target. (target, e)) pushed in
    (
      record {
        success = true;
        message_id = id;
        subscriber_count = length pushed + length (get_local_subscriptions q.topic t.registry);
        error_message = [];
      },
      ps,
      t,
      targets,
      rw (done, publish) refl,
      found,
      push_all-started g connects ps c cached
          ∙ ap (λ xs. map call_of c.started ++ xs)
              (map-push_of e pushed ∙ ap (map (λ target. (target, pushes e))) as_before),
    )
