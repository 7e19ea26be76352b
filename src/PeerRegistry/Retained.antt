-- ===== src/PeerRegistry/Retained.antt =====
-- The retained messages of a PeerRegistry (src/core/peer_registry.cpp).
use nexus_d_pub_sub.Prelude.{
  Bool, ◌&&◌, ◌≡◌, refl, Text, [], ◌∷◌, Option, none, some, if◌then◌else◌, arith,
}
use nexus_d_pub_sub.Prelude.Int.{ℤ, pos, ◌-ℤ◌, ltb_ℤ}
use nexus_d_pub_sub.Prelude.Map.{Map, find, assign, Distinct}
use nexus_d_pub_sub.PeerRegistry.{RetainedMessage, PeerRegistry}

unfoldable pub set_retained_message : Text → RetainedMessage → PeerRegistry → PeerRegistry
set_retained_message topic message r = record r {
  retained_messages = assign topic message r.retained_messages;
}

unfoldable pub get_retained_message : Text → PeerRegistry → Option RetainedMessage
get_retained_message topic r = find topic r.retained_messages

unfoldable pub get_all_retained_messages : PeerRegistry → Map RetainedMessage
get_all_retained_messages r = r.retained_messages

-- The test of `clearExpiredRetainedMessages`; `now` is in milliseconds.
unfoldable pub is_stale : ℤ → RetainedMessage → Bool
is_stale now m = ltb_ℤ (pos 0) m.ttl_ms && ltb_ℤ m.ttl_ms (now -ℤ m.timestamp_ms)

unfoldable pub drop_stale : ℤ → Map RetainedMessage → Map RetainedMessage
unfolding is_stale
drop_stale now [] = []
drop_stale now ((topic, m) ∷ ms) =
    let rest = drop_stale now ms in if is_stale now m then rest else (topic, m) ∷ rest

unfoldable pub clear_expired_retained_messages : ℤ → PeerRegistry → PeerRegistry
unfolding drop_stale
clear_expired_retained_messages now r = record r {
  retained_messages = drop_stale now r.retained_messages;
}

drop_stale-find :
    (now : ℤ) (t : Text) (ms : Map RetainedMessage)
    → Distinct ms
    → find t (drop_stale now ms)
      ≡ elim (find t ms) [ none ↦ none | some m ↦ if is_stale now m then none else some m ]
unfolding drop_stale find
drop_stale-find now t [] d = refl
drop_stale-find now t ((k, m) ∷ ms) d = ground (arith, drop_stale-find now t ms d.1, d.0)

-- After `clearExpiredRetainedMessages` a topic has the message it had, unless its age is greater
-- than its positive time to live: then it has none.
pub clear_expired_retained_messages_lem :
    (now : ℤ) (topic : Text) (r : PeerRegistry)
    → Distinct r.retained_messages
    → get_retained_message topic (clear_expired_retained_messages now r)
      ≡ elim (get_retained_message topic r) [
        | none ↦ none
        | some m ↦ if is_stale now m then none else some m
      ]
unfolding clear_expired_retained_messages get_retained_message
clear_expired_retained_messages_lem now topic r d = drop_stale-find now topic r.retained_messages d
