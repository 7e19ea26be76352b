-- ===== src/PeerRegistry/Resume.antt =====
-- What a client sees of the subscriptions of a PeerRegistry (src/core/peer_registry.cpp): a pause
-- with the resume after it.
use nexus_d_pub_sub.Prelude.{ℕ, true, false, ◌≡◌, refl, Text, text_eq, none, some, arith, ite}
use nexus_d_pub_sub.Prelude.Int.{ℤ}
use nexus_d_pub_sub.Prelude.Map.{find, assign, erase, find-assign, find-erase}
use nexus_d_pub_sub.Prelude.Links.{
  same, link_all, unlink_all, linked, linked-link_all, linked-unlink_all,
}
use nexus_d_pub_sub.PeerRegistry.{LocalSubscription, PausedSubscription, PeerRegistry}
use nexus_d_pub_sub.PeerRegistry.Subscriptions.{
  pause_subscription, remove_local_subscription, resume_subscription, resumed, is_expired, pause_of,
}
use nexus_d_pub_sub.PeerRegistry.Index.{IsIndexed, subscribes}
use nexus_d_pub_sub.PeerRegistry.Reach.{Reachable, Reachable-IsIndexed}

-- A registry `s` has the subscription with the id as `sub` was, made anew at `created_at`, and the
-- routes of `r`, and no longer has it paused.
pub record Restored (created_at : ℕ) (id : Text) (sub : LocalSubscription) (r s : PeerRegistry)
    : Type 0 where
  pub restored :
      (i : Text)
      → find i s.local_subscriptions
        ≡ ite
            (text_eq id i)
            (some (record sub { subscription_id = id; created_at = created_at }))
            (find i r.local_subscriptions)
  pub routes :
      (t i : Text) → linked t i s.topic_to_subscriptions ≡ linked t i r.topic_to_subscriptions
  pub unpaused : find id s.paused_subscriptions ≡ none

abbrev pub paused_registry : ℕ → ℤ → Text → LocalSubscription → PeerRegistry → PeerRegistry
paused_registry now ttl id sub r = record r {
  paused_subscriptions = assign id (pause_of now ttl id sub) r.paused_subscriptions;
  topic_to_subscriptions = unlink_all sub.topics id r.topic_to_subscriptions;
  local_subscriptions = erase id r.local_subscriptions;
  hash_dirty = true;
}

pub pause_found :
    (now : ℕ) (ttl : ℤ) (id : Text) (sub : LocalSubscription) (r : PeerRegistry)
    → find id r.local_subscriptions ≡ some sub
    → (pause_subscription now id ttl r).0 ≡ paused_registry now ttl id sub r
unfolding pause_subscription remove_local_subscription
pause_found now ttl id sub r e = rw (e, pause_subscription, remove_local_subscription) refl

abbrev pub resumed_registry : ℕ → Text → PausedSubscription → PeerRegistry → PeerRegistry
resumed_registry created_at id p r = record r {
  local_subscriptions = assign id (resumed created_at id p) r.local_subscriptions;
  topic_to_subscriptions = link_all p.topics id r.topic_to_subscriptions;
  paused_subscriptions = erase id r.paused_subscriptions;
  hash_dirty = true;
}

pub resume_found :
    (now created_at : ℕ) (id : Text) (p : PausedSubscription) (r : PeerRegistry)
    → find id r.paused_subscriptions ≡ some p
    → is_expired now p ≡ false
    → resume_subscription now created_at id r ≡ (resumed_registry created_at id p r, some p)
unfolding resume_subscription
resume_found now created_at id p r e alive = rw (e, resume_subscription, alive) refl

pub resume_expired :
    (now created_at : ℕ) (id : Text) (p : PausedSubscription) (r : PeerRegistry)
    → find id r.paused_subscriptions ≡ some p
    → is_expired now p ≡ true
    → resume_subscription now created_at id r
      ≡ (record r { paused_subscriptions = erase id r.paused_subscriptions }, none)
unfolding resume_subscription
resume_expired now created_at id p r e late = rw (e, resume_subscription, late) refl

route_restored :
    (t i id : Text) (sub : LocalSubscription) (r : PeerRegistry)
    → find id r.local_subscriptions ≡ some sub
    → IsIndexed r
    → linked t i (link_all sub.topics id (unlink_all sub.topics id r.topic_to_subscriptions))
      ≡ linked t i r.topic_to_subscriptions
unfolding subscribes same
route_restored t i id sub r e v = ground (
  arith,
  e,
  v.indexed t i,
  linked-link_all t i id sub.topics (unlink_all sub.topics id r.topic_to_subscriptions),
  linked-unlink_all t i id sub.topics r.topic_to_subscriptions,
)

-- An active subscription that is paused and, before it expires, resumed is active again as it was,
-- the last delivered sequence number included, the topics lead to it as before, the other
-- subscriptions are untouched, it is no longer paused, and the resume returns what was saved.
pub pause-resume :
    {node : Text} (now later created_at : ℕ) (ttl : ℤ) (id : Text) (sub : LocalSubscription)
    (r : PeerRegistry)
    → Reachable node r
    → find id r.local_subscriptions ≡ some sub
    → is_expired later (pause_of now ttl id sub) ≡ false
    → let result = resume_subscription later created_at id (pause_subscription now id ttl r).0 in
      Restored created_at id sub r result.0 × (result.1 ≡ some (pause_of now ttl id sub))
pause-resume now later created_at ttl id sub r w e alive =
    let p : PausedSubscription = pause_of now ttl id sub in
    let r' : PeerRegistry = paused_registry now ttl id sub r in
    let there : find id r'.paused_subscriptions ≡ some p =
      ground (arith, find-assign id id p r.paused_subscriptions) in
    rw (pause_found now ttl id sub r e, resume_found later created_at id p r' there alive)
      (
        record {
          restored = λ i.
              unfold pause_of resumed in
              ground (
                arith,
                find-assign i id (resumed created_at id p) r'.local_subscriptions,
                find-erase i id r.local_subscriptions,
              );
          routes = λ t i. unfold pause_of in route_restored t i id sub r e (Reachable-IsIndexed w);
          unpaused = ground (arith, find-erase id id r'.paused_subscriptions);
        },
        refl,
      )
