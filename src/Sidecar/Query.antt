-- ===== src/Sidecar/Query.antt =====
-- GetTopics, GetPeers, the reaper and the destructor (src/services/sidecar_service.cpp).
use nexus_d_pub_sub.Prelude.{
  ℕ, ◌+◌, Bool, false, Text, List, [], ◌∷◌, map, length, to_milliseconds, if◌then◌else◌,
}
use nexus_d_pub_sub.Prelude.Map.{Map}
use nexus_d_pub_sub.SubscriberQueue.{reap_expired}
use nexus_d_pub_sub.Stream.{Stream}
use nexus_d_pub_sub.PeerRegistry.{PeerInfo, peer_status_to_string}
use nexus_d_pub_sub.PeerRegistry.Peers.{get_all_peers}
use nexus_d_pub_sub.PeerRegistry.Subscriptions.{get_local_topics, get_local_subscriptions}
use nexus_d_pub_sub.Sidecar.{Sidecar}
use nexus_d_pub_sub.Sidecar.Requests.{PeerEntry}
use nexus_d_pub_sub.Sidecar.Deliver.{endpoint}

unfoldable pub get_topics : Sidecar → Map ℕ
unfolding get_local_topics get_local_subscriptions
get_topics s =
    map (λ topic. (topic, length (get_local_subscriptions topic s.registry)))
      (get_local_topics s.registry)

unfoldable pub peer_entry : Bool → PeerInfo → PeerEntry
unfolding endpoint peer_status_to_string
peer_entry include_state p = record {
  instance_uuid = p.instance_uuid;
  endpoint = endpoint p;
  last_seen_ms = to_milliseconds p.last_seen;
  cluster_id = p.cluster_id;
  topic_state_hash = p.topic_state_hash;
  status = peer_status_to_string p.status;
  topics = if include_state then p.topics else [];
}

unfoldable pub get_peers : Bool → Sidecar → List PeerEntry
unfolding get_all_peers peer_entry
get_peers include_state s = map (peer_entry include_state) (get_all_peers s.registry)

-- The inner loop of `ttlReaperLoop`, with the number of messages reaped. The clock is read for each
-- stream.
unfoldable pub reap_streams : (Text → ℕ) → Map Stream → Map Stream × ℕ
unfolding reap_expired
reap_streams clock [] = ([], 0)
reap_streams clock ((id, s) ∷ m) =
    let (queue, count) = reap_expired (clock id) s.message_queue in
    let (rest, total) = reap_streams clock m in
    ((id, record s { message_queue = queue }) ∷ rest, count + total)

-- One round of `ttlReaperLoop`.
unfoldable pub reap_round : (Text → ℕ) → Sidecar → Sidecar × ℕ
unfolding reap_streams
reap_round clock s =
    let (streams, total) = reap_streams clock s.active_streams in
    (record s { active_streams = streams }, total)

-- The destructor.
unfoldable pub shut_down : Sidecar → Sidecar
shut_down s = record s {
  active_streams = map (λ e. (e.0, record e.1 { active = false })) s.active_streams;
}
