-- ===== src/Sidecar/Reached.antt =====
-- The service over any calls (src/services/sidecar_service.cpp): what holds of its registry.
use nexus_d_pub_sub.Prelude.{
  ℕ, Bool, ◌≡◌, ap, subst, Text, List, none, some, Option-cases, Bool-cases, inl, inr,
}
use mathlib.Core.Option.{some-injective, none-ne-some}
use nexus_d_pub_sub.Prelude.Int.{ℤ}
use nexus_d_pub_sub.Prelude.Map.{find}
use nexus_d_pub_sub.Stream.{Stream}
use nexus_d_pub_sub.PeerRegistry.{PeerRegistry}
use nexus_d_pub_sub.PeerRegistry.Subscriptions.{get_paused_subscription}
use nexus_d_pub_sub.PeerRegistry.Index.{IsIndexed}
use nexus_d_pub_sub.PeerRegistry.Reach
use nexus_d_pub_sub.PeerRegistry.Reach.{
  Reachable, Reachable-IsIndexed, steps, adds, removes, resumes, retains, delivers,
}
use nexus_d_pub_sub.Sidecar.{Sidecar, MessageEnvelope, Env}
use nexus_d_pub_sub.Sidecar.Requests.{
  PublishRequest, PublishResponse, SubscribeRequest, ResumeSubscribeRequest,
}
use nexus_d_pub_sub.Sidecar.Deliver.{deliver_from_remote, envelope_of, retain_published, publish}
use nexus_d_pub_sub.Sidecar.Delivery.{deliver_from_remote-keeps}
use nexus_d_pub_sub.Sidecar.Subscribe.{generate_subscription_id, subscribe, unsubscribe}
use nexus_d_pub_sub.Sidecar.Resume.{resume_subscribe}

-- One call on the service or on its registry.
pub data Step (s : Sidecar) : Sidecar → Type 0 where
  delivered :
      (env : Env) (e : MessageEnvelope) {t : Sidecar}
      → deliver_from_remote env e s ≡ some t
      → Step s t
  published :
      (env : Env) (id : Text) (stamp : ℤ) (q : PublishRequest) (response : PublishResponse)
      (pushes : List (Text × MessageEnvelope)) {t : Sidecar}
      → publish env id stamp q s ≡ some (response, pushes, t)
      → Step s t
  subscribed :
      (env : Env) (uuid : Text) (created_at : ℕ) (stamp : ℤ) (q : SubscribeRequest)
      → find (generate_subscription_id uuid s.subscription_counter) s.registry.paused_subscriptions
        ≡ none
      → Step s (subscribe env uuid created_at stamp q s)
  unsubscribed : (now : ℕ) (id : Text) (pause : Bool) → Step s (unsubscribe now id pause s).0
  resumed :
      (now created_at : ℕ) (stamp : ℤ) (q : ResumeSubscribeRequest) {t : Sidecar}
      → resume_subscribe now created_at stamp q s ≡ some t
      → Step s t
  registers : {r : PeerRegistry} → Reach.Step s.registry r → Step s (record s { registry = r })

deliver_from_remote-Reachable :
    {node : Text} (env : Env) (e : MessageEnvelope) (s t : Sidecar)
    → deliver_from_remote env e s ≡ some t
    → Reachable node s.registry
    → Reachable node t.registry
deliver_from_remote-Reachable {node} =
    deliver_from_remote-keeps (Reachable node) (λ id topic seq r w. steps w (delivers id topic seq))

retain_published-Reachable :
    {node : Text} (e : MessageEnvelope) (r : PeerRegistry)
    → Reachable node r
    → Reachable node (retain_published e r)
unfolding retain_published
retain_published-Reachable e r w = elim (Bool-cases e.retain) [
  | inl f ↦ rw (f, retain_published) (steps w (retains e.topic _))
  | inr f ↦ rw (f, retain_published) w
]

publish-Reachable :
    {node : Text} (env : Env) (id : Text) (stamp : ℤ) (q : PublishRequest) (s t : Sidecar)
    (response : PublishResponse) (pushes : List (Text × MessageEnvelope))
    → publish env id stamp q s ≡ some (response, pushes, t)
    → Reachable node s.registry
    → Reachable node t.registry
unfolding publish
publish-Reachable {node} env id stamp q s t response pushes h w =
    let e = envelope_of id stamp q s.registry in
    let s' : Sidecar = record s { registry = retain_published e s.registry } in
    elim (Option-cases (deliver_from_remote env e s')) [
      | inl f ↦ absurd (none-ne-some _ (rw (f, publish) at h))
      | inr (u, f) ↦
          let g = some-injective _ _ (rw (f, publish) at h) in
          subst (λ x. Reachable node x.registry) (ap (λ x. x.2) g)
            (deliver_from_remote-Reachable env e s' u f (retain_published-Reachable e s.registry w))
    ]

resume_subscribe-Reachable :
    {node : Text} (now created_at : ℕ) (stamp : ℤ) (q : ResumeSubscribeRequest) (s t : Sidecar)
    → resume_subscribe now created_at stamp q s ≡ some t
    → Reachable node s.registry
    → Reachable node t.registry
unfolding resume_subscribe get_paused_subscription
resume_subscribe-Reachable {node} now created_at stamp q s t h w =
    elim (Option-cases (find q.subscription_id s.registry.paused_subscriptions)) [
      | inl f ↦
          (let impossible : none ≡ some t =
              rw (f, resume_subscribe, get_paused_subscription) at h in
            cc)
      | inr (p, f) ↦
          let g = some-injective _ _ (rw (f, resume_subscribe, get_paused_subscription) at h) in
          subst (λ x. Reachable node x.registry) g
            (steps w (resumes now created_at q.subscription_id))
    ]

Step-Reachable :
    {node : Text} {s t : Sidecar} → Reachable node s.registry → Step s t → Reachable node t.registry
unfolding subscribe unsubscribe
Step-Reachable {s = s} {t} w (delivered env e h) = deliver_from_remote-Reachable env e s t h w
Step-Reachable {s = s} {t} w (published env id stamp q response pushes h) =
    publish-Reachable env id stamp q s t response pushes h w
Step-Reachable w (subscribed env uuid created_at stamp q fresh) =
    steps w (adds created_at _ q.client_id q.topics q.max_buffer_size fresh)
Step-Reachable {s = s} w (unsubscribed now id pause) =
    steps w (removes now id pause s.paused_subscription_ttl)
Step-Reachable {s = s} {t} w (resumed now created_at stamp q h) =
    resume_subscribe-Reachable now created_at stamp q s t h w
Step-Reachable w (registers x) = steps w x

-- The service after some calls, from `s`.
pub data Steps (s : Sidecar) : Sidecar → Type 0 where
  stays : Steps s s
  goes : {t u : Sidecar} → Steps s t → Step t u → Steps s u

Steps-Reachable :
    {node : Text} {s t : Sidecar}
    → Reachable node s.registry
    → Steps s t
    → Reachable node t.registry
Steps-Reachable w stays = w
Steps-Reachable w (goes x y) = Step-Reachable (Steps-Reachable w x) y

-- After any sequence of RPCs, deliveries and calls on the registry by the rest of the node, in which
-- no new subscription takes the id of a paused one, the registry's index lists at each topic the ids
-- of the active subscriptions to it and no others, and no id is both active and paused.
pub Steps-IsIndexed :
    {node : Text} {s t : Sidecar} → Reachable node s.registry → Steps s t → IsIndexed t.registry
Steps-IsIndexed w x = Reachable-IsIndexed (Steps-Reachable w x)
