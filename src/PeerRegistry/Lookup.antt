-- ===== src/PeerRegistry/Lookup.antt =====
-- Whom `getLocalSubscriptions` of a PeerRegistry (src/core/peer_registry.cpp) finds for a topic.
use nexus_d_pub_sub.Prelude.Map.{Map}
use nexus_d_pub_sub.Prelude.Links.Once.{AllOnce}
use nexus_d_pub_sub.PeerRegistry.{PeerRegistry}

abbrev HasOnce : PeerRegistry → Type 0
HasOnce r = AllOnce r.topic_to_subscriptions
