-- ===== src/Sidecar/Recovered.antt =====
-- What ResumeSubscribe (src/services/sidecar_service.cpp) gives back to a client.
use nexus_d_pub_sub.Prelude.{
  ℕ, ◌<◌, true, false, ◌≡◌, refl, sym, ap, ◌∙◌, Text, text_eq, List, [], ◌∷◌, ◌++◌, some, length,
  map, if_pos, length-map, Bool, not, arith, add64, length-drop, if◌then◌else◌,
}
use nexus_d_pub_sub.Prelude.Int.{ℤ}
use nexus_d_pub_sub.Prelude.Map.{find, find-assign, assign}
use nexus_d_pub_sub.TopicBuffer.{BufferedMessage, TopicBuffer}
use nexus_d_pub_sub.TopicBuffer.Log.{Tracks}
use nexus_d_pub_sub.MessageBuffer.{MessageBuffer, Replay, is_empty}
use nexus_d_pub_sub.MessageBuffer.Recovery.{expected, get_messages_for_replay-expected}
use nexus_d_pub_sub.Stream.{
  SubscriptionInfo, subscription_info, replay_complete, replay_buffer, is_replay_buffer, Stream,
  start_write, make_stream,
}
use nexus_d_pub_sub.Stream.ReplayOrder.{rounds, rounds-replay}
use nexus_d_pub_sub.PeerRegistry.{PausedSubscription, PeerRegistry}
use nexus_d_pub_sub.PeerRegistry.Subscriptions.{is_expired, get_paused_subscription}
use nexus_d_pub_sub.PeerRegistry.Resume.{resumed_registry, resume_found}
use nexus_d_pub_sub.Sidecar.{Sidecar}
use nexus_d_pub_sub.Sidecar.Requests.{ResumeSubscribeRequest}
use nexus_d_pub_sub.Sidecar.Resume.{
  last_sequence, replay_event, Recovery, no_events, recover_topic, recover, recovery_of,
  resume_reactor, resumed_stream, resume_subscribe, to_int32,
}

-- The service and its new stream after a resume with the recovery `r`.
abbrev resumed_sidecar :
    ℤ → ResumeSubscribeRequest → PausedSubscription → PeerRegistry → Recovery → Sidecar → Sidecar
resumed_sidecar stamp q p registry r s = record s {
  registry = registry;
  active_streams =
      assign q.subscription_id (resume_reactor stamp q r (resumed_stream q p s)) s.active_streams;
}

resume_subscribe_found :
    (now created_at : ℕ) (stamp : ℤ) (q : ResumeSubscribeRequest) (p : PausedSubscription)
    (s : Sidecar)
    → find q.subscription_id s.registry.paused_subscriptions ≡ some p
    → is_expired now p ≡ false
    → resume_subscribe now created_at stamp q s
      ≡ some (
          resumed_sidecar stamp q p
            (resumed_registry created_at q.subscription_id p s.registry)
            (recover q p s.message_buffer p.topics no_events)
            s)
unfolding resume_subscribe get_paused_subscription recovery_of
resume_subscribe_found now created_at stamp q p s e alive =
    rw
      (
        e,
        resume_subscribe,
        get_paused_subscription,
        resume_found now created_at q.subscription_id p s.registry e alive,
      )
      refl

-- A log's length is in the range of `uint64_t`, so the sum over one topic is the topic's number.
missed_total :
    {b : TopicBuffer} {h : List BufferedMessage} (t : Tracks b h) (last : ℕ)
    → let replay = expected b.max_size h last in
      (if replay.gap_detected then add64 0 replay.missed_count else 0) ≡ replay.missed_count
missed_total {b} {h} t last = ground (arith, t.next, t.range, length-drop last h)

recover_one :
    {b : TopicBuffer} {h : List BufferedMessage} (t : Tracks b h) (q : ResumeSubscribeRequest)
    (p : PausedSubscription) (topic : Text) (buffer : MessageBuffer)
    → 0 < length h
    → p.topics ≡ topic ∷ []
    → q.gap_recovery_mode ≡ replay_buffer
    → find topic buffer.topic_buffers ≡ some b
    → let replay = expected b.max_size h (last_sequence q p topic) in
      let r = recover q p buffer p.topics no_events in
      (r.pending ≡ map replay_event replay.messages)
      × (r.gap_detected ≡ replay.gap_detected)
      × (r.total_missed ≡ replay.missed_count)
unfolding recover recover_topic
recover_one t q p topic buffer some_sent e m f =
    let last = last_sequence q p topic in
    let replay = get_messages_for_replay-expected t some_sent buffer topic last f in
    rw (e, m, recover, recover_topic, replay) (refl, refl, missed_total t last)

-- The info that the stream of a resumed subscription should write for a replay.
abbrev pub info_of : ℤ → ResumeSubscribeRequest → PausedSubscription → Replay → SubscriptionInfo
info_of stamp q p replay = record {
  subscription_id = q.subscription_id;
  topics = p.topics;
  timestamp_ms = stamp;
  gap_detected = replay.gap_detected;
  missed_message_count = to_int32 replay.missed_count;
  replay_started = not (is_empty replay.messages);
}

-- The info of the first event of a new reactor.
abbrev info_from : ℤ → ResumeSubscribeRequest → PausedSubscription → Recovery → SubscriptionInfo
info_from stamp q p r = record {
  subscription_id = q.subscription_id;
  topics = p.topics;
  timestamp_ms = stamp;
  gap_detected = r.gap_detected;
  missed_message_count = to_int32 r.total_missed;
  replay_started = elim r.pending [ [] ↦ false | e ∷ es ↦ true ];
}

not-is_empty-map :
    (ms : List BufferedMessage)
    → elim (map replay_event ms) as (λ x. Bool) [ [] ↦ false | e ∷ es ↦ true ] ≡ not (is_empty ms)
not-is_empty-map [] = refl
not-is_empty-map (m ∷ ms) = refl

info_lem :
    (stamp : ℤ) (q : ResumeSubscribeRequest) (p : PausedSubscription) (r : Recovery)
    (replay : Replay)
    → r.pending ≡ map replay_event replay.messages
    → r.gap_detected ≡ replay.gap_detected
    → r.total_missed ≡ replay.missed_count
    → info_from stamp q p r ≡ info_of stamp q p replay
info_lem stamp q p r replay e f g =
    ap (λ x. info_from stamp q p x)
      (the_same r
        (record {
          pending = map replay_event replay.messages;
          gap_detected = replay.gap_detected;
          total_missed = replay.missed_count;
        })
        e f g)
    ∙ ap (λ started. record (info_of stamp q p replay) { replay_started = started })
        (not-is_empty-map replay.messages)
  where
    the_same :
        (x y : Recovery)
        → x.pending ≡ y.pending
        → x.gap_detected ≡ y.gap_detected
        → x.total_missed ≡ y.total_missed
        → x ≡ y
    the_same x y e f g = λ i. record { pending = e i; gap_detected = f i; total_missed = g i }

-- The first event of a new reactor, and what it has still to write.
resume_reactor_lem :
    (stamp : ℤ) (q : ResumeSubscribeRequest) (p : PausedSubscription) (r : Recovery) (s : Sidecar)
    → let st = resume_reactor stamp q r (resumed_stream q p s) in
      (st.started ≡ subscription_info (info_from stamp q p r) ∷ [])
      × (st.active ≡ true)
      × (st.gap_recovery_mode ≡ q.gap_recovery_mode)
      × (st.replay_complete_sent ≡ false)
      × (st.pending_replay ≡ r.pending)
      × (st.subscription_id ≡ q.subscription_id)
unfolding resume_reactor resumed_stream make_stream start_write
resume_reactor_lem stamp q p r s = (refl, refl, refl, refl, refl, refl)

-- A client resumes a paused subscription to one topic, in time and with gap recovery from the
-- buffer, where the topic's ring is the window of a log of the messages published to it, with a
-- message in it. Then the resume succeeds, and when each write completes before the next is
-- started, the new stream writes the subscription's info, what `getMessagesForReplay` should give
-- for the client's number, in order, and the end of the replay. For a number from 1 on that is all
-- messages of the log after it that the ring still has; for the number 0 it is the latest message
-- alone. The info has the subscription's id and topics, whether anything is replayed, the number of
-- messages missed, as an `int32`, and the gap: it is reported if some are missed, and also where
-- the ring holds only messages that the client has not seen, never at 0.
pub resume_subscribe-replay :
    {b : TopicBuffer} {h : List BufferedMessage} (now created_at : ℕ) (stamp : ℤ)
    (ts : List (ℕ × ℤ)) (last : ℕ × ℤ) (q : ResumeSubscribeRequest) (p : PausedSubscription)
    (topic : Text) (s : Sidecar)
    → Tracks b h
    → 0 < length h
    → find topic s.message_buffer.topic_buffers ≡ some b
    → find q.subscription_id s.registry.paused_subscriptions ≡ some p
    → is_expired now p ≡ false
    → p.topics ≡ topic ∷ []
    → q.gap_recovery_mode ≡ replay_buffer
    → length ts ≡ length (expected b.max_size h (last_sequence q p topic)).messages
    → (u : Sidecar) × (st : Stream) × (resume_subscribe now created_at stamp q s ≡ some u)
      × (find q.subscription_id u.active_streams ≡ some st)
      × ((rounds (ts ++ last ∷ []) st).started
          ≡ subscription_info (info_of stamp q p (expected b.max_size h (last_sequence q p topic)))
            ∷ (map replay_event (expected b.max_size h (last_sequence q p topic)).messages
                ++ replay_complete q.subscription_id last.1 ∷ []))
resume_subscribe-replay {b} {h} now created_at stamp ts last q p topic s t some_sent f e alive one m
      l =
    let r : Recovery = recover q p s.message_buffer p.topics no_events in
    let st : Stream = resume_reactor stamp q r (resumed_stream q p s) in
    let (first, act, mode, unsent, pending, id) = resume_reactor_lem stamp q p r s in
    let u : Sidecar =
      resumed_sidecar stamp q p (resumed_registry created_at q.subscription_id p s.registry) r s in
    let es = map replay_event (expected b.max_size h (last_sequence q p topic)).messages in
    let here : find q.subscription_id u.active_streams ≡ some st =
      find-assign q.subscription_id q.subscription_id st s.active_streams
      ∙ if_pos (text_eq q.subscription_id q.subscription_id) refl _ _ in
    let (replayed, gap, missed) = recover_one t q p topic s.message_buffer some_sent one m f in
    let writes =
      rounds-replay es ts last.0 last.1 st
        (l
          ∙ sym
              (length-map replay_event (expected b.max_size h (last_sequence q p topic)).messages))
        act (unfold is_replay_buffer in ap is_replay_buffer (mode ∙ m)) unsent
        (pending ∙ replayed) in
    (
      u,
      st,
      resume_subscribe_found now created_at stamp q p s e alive,
      here,
      writes
          ∙ rw
              (
                first,
                id,
                info_lem stamp q p r (expected b.max_size h (last_sequence q p topic)) replayed gap
                    missed,
              )
              refl,
    )
