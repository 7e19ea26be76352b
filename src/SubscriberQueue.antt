-- ===== src/SubscriberQueue.antt =====
-- include/nexusd/core/subscriber_queue.hpp, class SubscriberQueue: the message queue of one
-- subscriber. Each function is what one thread does while it holds `mutex_`, so `enqueue` under the
-- policy BLOCK is two steps: `enter` up to `cv_.wait_for`, which releases the mutex, and `wake` from
-- its return on. `enqueue` reads `closed_` and the clock just before it takes the mutex; that is part
-- of its step. The clock is an argument, in ticks of a nanosecond.
pub mod Valid
pub mod Schedule
pub mod Fifo
pub mod Expiry
pub mod Results
use nexus_d_pub_sub.Prelude.{
  ℕ, ◌+◌, ◌-◌, ◌^◌, Bool, true, false, not, ◌&&◌, ◌||◌, List, [], ◌∷◌, ◌++◌, Option, none, some,
  length, ltb, leb, if◌then◌else◌, inc64, milliseconds,
}
use nexus_d_pub_sub.Prelude.Int.{ℤ, pos, pos_part, ltb_ℤ}

pub data BackpressurePolicy : Type 0 where
  drop_oldest drop_newest block : BackpressurePolicy

pub data EnqueueResult : Type 0 where
  enqueued dropped_oldest dropped_newest dropped_ttl dropped_disconnected blocked : EnqueueResult

pub record QueueStats : Type 0 where
  pub current_depth : ℕ
  pub limit : ℕ
  pub total_enqueued : ℕ
  pub total_delivered : ℕ
  pub dropped_oldest : ℕ
  pub dropped_newest : ℕ
  pub dropped_ttl : ℕ
  pub block_timeouts : ℕ
  pub high_watermark : ℕ

abbrev pub no_stats : QueueStats
no_stats = record {
  current_depth = 0;
  limit = 0;
  total_enqueued = 0;
  total_delivered = 0;
  dropped_oldest = 0;
  dropped_newest = 0;
  dropped_ttl = 0;
  block_timeouts = 0;
  high_watermark = 0;
}

pub record QueuedMessage {ℓ} (A : Type ℓ) : Type ℓ where
  pub message : A
  pub expiry_time : ℕ
  pub enqueue_time : ℕ

pub record SubscriberQueue {ℓ} (A : Type ℓ) : Type ℓ where
  pub limit : ℕ
  pub policy : BackpressurePolicy
  pub block_timeout_ms : ℤ
  pub default_ttl_ms : ℤ
  pub messages : List (QueuedMessage A)
  pub closed : Bool
  pub stats : QueueStats

-- `steady_clock::time_point::max()`.
abbrev pub time_max : ℕ
time_max = 2 ^ 63 - 1

-- `message_ttl_ms > 0 ? message_ttl_ms : default_ttl_ms_`
unfoldable pub effective_ttl : ℤ → ℤ → ℤ
effective_ttl message_ttl default_ttl =
    if ltb_ℤ (pos 0) message_ttl then message_ttl else default_ttl

-- The expiry time of a message. The sum has no bound here: in the source it is `int64_t`
-- nanoseconds, which overflow, undefined, for a TTL of more than about 290 years.
unfoldable pub expiry : ℕ → ℤ → ℕ
expiry now ttl = if ltb_ℤ (pos 0) ttl then now + milliseconds (pos_part ttl) else time_max

-- How far a call of `enqueue` gets in one step.
pub data Entered {ℓ} (A : Type ℓ) : Type ℓ where
  returned : EnqueueResult → SubscriberQueue A → Entered A
  waiting : QueuedMessage A → Entered A

module _ {ℓ} {A : Type ℓ} where
  -- The constructor.
  unfoldable pub init : ℕ → BackpressurePolicy → ℤ → ℤ → SubscriberQueue A
  init limit policy block_timeout_ms default_ttl_ms = record {
    limit = limit;
    policy = policy;
    block_timeout_ms = block_timeout_ms;
    default_ttl_ms = default_ttl_ms;
    messages = [];
    closed = false;
    stats = no_stats;
  }

  unfoldable pub wrap : ℕ → A → ℤ → SubscriberQueue A → QueuedMessage A
  unfolding effective_ttl expiry
  wrap now msg message_ttl q = record {
    message = msg;
    expiry_time = expiry now (effective_ttl message_ttl q.default_ttl_ms);
    enqueue_time = now;
  }

  unfoldable pub is_full : SubscriberQueue A → Bool
  is_full q = ltb 0 q.limit && leb q.limit (length q.messages)

  -- `if (!messages_.empty()) { messages_.pop_front(); stats_.dropped_oldest++; }`
  unfoldable pub drop_front : List (QueuedMessage A) → SubscriberQueue A → SubscriberQueue A
  drop_front [] q = q
  drop_front (m ∷ rest) q = record q {
    messages = rest;
    stats = let s = q.stats in record s { dropped_oldest = inc64 s.dropped_oldest };
  }

  -- From `messages_.push_back` to the end of `enqueue`.
  unfoldable pub push_back : QueuedMessage A → SubscriberQueue A → SubscriberQueue A
  push_back m q =
      let s = q.stats in
      let depth = length (q.messages ++ m ∷ []) in
      record q {
        messages = q.messages ++ m ∷ [];
        stats = record s {
          total_enqueued = inc64 s.total_enqueued;
          high_watermark = if ltb s.high_watermark depth then depth else s.high_watermark;
        };
      }

  -- The `switch` on the policy, for a full queue.
  unfoldable pub enter_full : QueuedMessage A → SubscriberQueue A → BackpressurePolicy → Entered A
  unfolding drop_front push_back
  enter_full m q drop_oldest = returned enqueued (push_back m (drop_front q.messages q))
  enter_full m q drop_newest =
      let s = q.stats in
      returned EnqueueResult.dropped_newest
        (record q { stats = record s { dropped_newest = inc64 s.dropped_newest } })
  enter_full m q block = waiting m

  -- `enqueue` up to its return or to `wait_for`.
  unfoldable pub enter : ℕ → A → ℤ → SubscriberQueue A → Entered A
  unfolding wrap is_full enter_full
  enter now msg message_ttl q =
      let m = wrap now msg message_ttl q in
      if q.closed
      then returned dropped_disconnected q
      else if is_full q
      then enter_full m q q.policy
      else returned enqueued (push_back m q)

  -- `enqueue` from the return of `wait_for` on: its value is that of its predicate then, also on a
  -- timeout. The call returns ENQUEUED.
  unfoldable pub wake : QueuedMessage A → SubscriberQueue A → SubscriberQueue A
  unfolding drop_front push_back
  wake m q =
      let got_space = q.closed || ltb (length q.messages) q.limit in
      let s = q.stats in
      let late = record q { stats = record s { block_timeouts = inc64 s.block_timeouts } } in
      push_back m (if not got_space || q.closed then drop_front q.messages late else q)

  -- The loop of `reapExpired`, with its two counters. The loop of `dequeue` is the same without
  -- the local one.
  unfoldable pub skip_expired : ℕ → List (QueuedMessage A) → ℕ → ℕ → List (QueuedMessage A) × ℕ × ℕ
  skip_expired now [] expired dropped = ([], expired, dropped)
  skip_expired now (m ∷ ms) expired dropped =
      let rest = skip_expired now ms (inc64 expired) (inc64 dropped) in
      if leb m.expiry_time now then rest else (m ∷ ms, expired, dropped)

  -- `dequeue` after its loop.
  unfoldable pub take_front :
      List (QueuedMessage A) → SubscriberQueue A → SubscriberQueue A × Option A
  take_front [] q = (record q { messages = [] }, none)
  take_front (m ∷ rest) q =
      let s = q.stats in
      (
        record q {
          messages = rest;
          stats = record s { total_delivered = inc64 s.total_delivered };
        },
        some m.message,
      )

  unfoldable pub dequeue : ℕ → SubscriberQueue A → SubscriberQueue A × Option A
  unfolding skip_expired take_front
  dequeue now q =
      let s = q.stats in
      let (live, _, dropped) = skip_expired now q.messages 0 s.dropped_ttl in
      take_front live (record q { stats = record s { dropped_ttl = dropped } })

  unfoldable pub reap_expired : ℕ → SubscriberQueue A → SubscriberQueue A × ℕ
  unfolding skip_expired
  reap_expired now q =
      let s = q.stats in
      let (live, expired, dropped) = skip_expired now q.messages 0 s.dropped_ttl in
      (record q { messages = live; stats = record s { dropped_ttl = dropped } }, expired)

  unfoldable pub get_stats : SubscriberQueue A → QueueStats
  get_stats q = let s = q.stats in record s { current_depth = length q.messages; limit = q.limit }

  unfoldable pub is_empty : SubscriberQueue A → Bool
  is_empty q = elim q.messages [ [] ↦ true | m ∷ ms ↦ false ]

  -- `close`; it is also what the destructor does.
  unfoldable pub close : SubscriberQueue A → SubscriberQueue A
  close q = record q { closed = true }
