-- ===== src/Discovery/Threads.antt =====
-- src/core/discovery_agent.cpp: `start`, `stop`, and the rounds of the two threads on the socket. A
-- round of a thread is one step. The protobuf code of a beacon is generated, so that parsing and
-- serialising are arguments.
use nexus_d_pub_sub.Discovery.{Beacon, Agent, send_beacon, process_beacon, reap_round}
use nexus_d_pub_sub.PeerRegistry.{PeerInfo}
use nexus_d_pub_sub.UdpSocket.{
  Trace, Kernel, UdpSocket, Step, SocketAddress, is_valid, set_reuse_address, bind_to,
  join_multicast_group, set_multicast_ttl, set_multicast_loopback, close_socket, send_to,
  receive_from,
}
use nexus_d_pub_sub.Prelude.{
  ℕ, Bool, true, false, Text, codes, Option, none, some, if◌then◌else◌, ltb,
}
use nexus_d_pub_sub.Prelude.Int.{ℤ, pos, negsuc}

-- The fields of DiscoveryConfig that the threads read, `running_`, whether the threads are joinable,
-- and the receiver's `lastReap`.
pub record Node : Type 0 where
  pub agent : Agent
  pub mcast_addr : Text
  pub mcast_port : ℕ
  pub multicast_ttl : ℕ
  pub loopback : Bool
  pub socket : UdpSocket
  pub running : Bool
  pub threads : Bool
  pub last_reap : ℕ

-- `if (!call) return false;` and what follows.
unfoldable pub and_then : Step Bool → (UdpSocket → Trace → Step Bool) → Step Bool
and_then (false, s, t) next = (false, s, t)
and_then (true, s, t) next = next s t

-- A call whose failure is only logged, and what follows.
unfoldable pub anyway : Step Bool → (UdpSocket → Trace → Step Bool) → Step Bool
anyway (worked, s, t) next = next s t

module _ (k : Kernel) where
  -- The calls of `start` after the tests of `running_` and of the socket, and whether they worked.
  unfoldable pub configure : Node → Trace → Step Bool
  configure n t = and_then (set_reuse_address k true n.socket t) λ s t.
      and_then (bind_to k n.mcast_port (codes "0.0.0.0") s t) λ s t.
        and_then (join_multicast_group k n.mcast_addr (codes "") s t) λ s t.
          anyway (set_multicast_ttl k n.multicast_ttl s t)
            λ s t. anyway (set_multicast_loopback k n.loopback s t) λ s t. (true, s, t)

  -- The end of `start`: the threads run if all worked. The clock is read by the receiver.
  unfoldable pub launch : ℕ → Node → Step Bool → Bool × Node × Trace
  launch now n (worked, s, t) =
      if worked
      then (true, record n { socket = s; running = true; threads = true; last_reap = now }, t)
      else (false, record n { socket = s }, t)

  unfoldable pub start : ℕ → Node → Trace → Bool × Node × Trace
  unfolding is_valid configure launch
  start now n t =
      if n.running
      then (false, n, t)
      else if is_valid n.socket
      then launch now n (configure n t)
      else (false, n, t)

  -- `stop` closes the socket and joins the threads.
  unfoldable pub stop : Node → Trace → Node × Trace
  unfolding close_socket
  stop n t =
      let (s, u) = close_socket k n.socket t in
      if n.running then (record n { socket = s; running = false; threads = false }, u) else (n, t)

  -- `sendBeacon` from the serialised beacon on, which is `none` where SerializeToString fails. Whether
  -- it was sent is only logged.
  unfoldable pub send_bytes : Option Text → Node → Trace → Node × Trace
  unfolding send_to
  send_bytes none n t = (n, t)
  send_bytes (some bytes) n t =
      let dest : SocketAddress = record { ip = n.mcast_addr; port = n.mcast_port } in
      let (sent, s, u) = send_to k dest bytes n.socket t in (record n { socket = s }, u)

  -- A round of `senderLoop`, with `sendBeacon`.
  unfoldable pub sender_round : (Beacon → Option Text) → ℤ → Node → Trace → Node × Trace
  sender_round serialize timestamp_ms n t =
      let (agent, beacon) = send_beacon timestamp_ms n.agent in
      if n.running then send_bytes (serialize beacon) (record n { agent = agent }) t else (n, t)

  -- What a round of `receiverLoop` does with a datagram: `processBeacon` where there are bytes.
  unfoldable pub handle_datagram :
      (Text → Option Beacon)
      → ℕ
      → ℕ
      → ℤ
      → Option (SocketAddress × Text)
      → Agent
      → Agent × Option PeerInfo
  unfolding process_beacon
  handle_datagram parse now later (negsuc e) d a = (a, none)
  handle_datagram parse now later (pos received) none a = (a, none)
  handle_datagram parse now later (pos received) (some (sender, bytes)) a =
      if ltb 0 received then process_beacon parse now later bytes a else (a, none)

  -- A round of `receiverLoop`: the node after it, and the peer that the callback gets, if any.
  unfoldable pub receiver_round :
      (Text → Option Beacon) → ℕ → ℕ → ℕ → Node → Trace → Node × Option PeerInfo × Trace
  unfolding handle_datagram receive_from reap_round
  receiver_round parse now later end n t =
      let ((received, d), s, u) = receive_from k 65535 (pos 500) n.socket t in
      let (agent, peer) = handle_datagram parse now later received d n.agent in
      let (agent', last_reap) = reap_round end n.last_reap agent in
      if n.running
      then (record n { agent = agent'; socket = s; last_reap = last_reap }, peer, u)
      else (n, none, t)
