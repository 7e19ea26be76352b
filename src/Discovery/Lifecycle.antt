-- ===== src/Discovery/Lifecycle.antt =====
-- The life of a DiscoveryAgent of src/core/discovery_agent.cpp under any sequence of `start`, `stop`
-- and rounds of its threads.
use nexus_d_pub_sub.Discovery.{Beacon, send_beacon}
use nexus_d_pub_sub.Discovery.Threads.{
  Node, and_then, anyway, configure, launch, start, stop, send_bytes, sender_round, receiver_round,
}
use nexus_d_pub_sub.UdpSocket.{
  Trace, Kernel, UdpSocket, SocketAddress, Step, is_valid, set_reuse_address, bind_to,
  join_multicast_group, set_multicast_ttl, set_multicast_loopback,
}
use nexus_d_pub_sub.UdpSocket.Pool.{Method, invoke}
use nexus_d_pub_sub.UdpSocket.Held.{close_socket_lem}
use nexus_d_pub_sub.UdpSocket.Kept.{invoke-Kept}
use nexus_d_pub_sub.Prelude.{
  ℕ, ◌≡◌, refl, Bool, true, false, Text, codes, Option, none, some, inl, inr, ◌⊎◌, Bool-cases, ap,
  subst, sym, arith, if◌then◌else◌,
}
use nexus_d_pub_sub.Prelude.Int.{ℤ, pos}

-- What runs on a node: calls of its owner and rounds of its threads, in any order.
pub data LifeStep (k : Kernel) (serialize : Beacon → Option Text) (parse : Text → Option Beacon)
    : Node → Trace → Node → Trace → Type 0 where
  started :
      (now : ℕ) (n : Node) (t : Trace)
      → LifeStep k serialize parse n t (start k now n t).1 (start k now n t).2
  stopped : (n : Node) (t : Trace) → LifeStep k serialize parse n t (stop k n t).0 (stop k n t).1
  sent :
      (stamp : ℤ) (n : Node) (t : Trace)
      → LifeStep k serialize parse n t
          (sender_round k serialize stamp n t).0
          (sender_round k serialize stamp n t).1
  received :
      (now later end : ℕ) (n : Node) (t : Trace)
      → LifeStep k serialize parse n t
          (receiver_round k parse now later end n t).0
          (receiver_round k parse now later end n t).2

pub data LifeSteps (k : Kernel) (serialize : Beacon → Option Text) (parse : Text → Option Beacon)
    (n : Node) (t : Trace) : Node → Trace → Type 0 where
  here : LifeSteps k serialize parse n t n t
  next :
      {m m' : Node} {u u' : Trace}
      → LifeSteps k serialize parse n t m u
      → LifeStep k serialize parse m u m' u'
      → LifeSteps k serialize parse n t m' u'

-- The threads run, or not yet, with the socket that the constructor opened.
pub record IsOpen (fd : ℕ) (n : Node) : Type 0 where
  pub socket : n.socket.socket ≡ some fd
  pub threads : n.threads ≡ n.running

-- It was stopped: no thread runs and the socket is closed.
pub record IsStopped (n : Node) : Type 0 where
  pub socket : n.socket.socket ≡ none
  pub running : n.running ≡ false
  pub threads : n.threads ≡ false

-- The descriptor after a call.
abbrev Holds : {A : Type 0} → ℕ → Step A → Type 0
Holds fd (a, s, t) = s.socket ≡ some fd

and_then-Holds :
    (fd : ℕ) (r : Step Bool) (after : UdpSocket → Trace → Step Bool)
    → Holds fd r
    → ((s : UdpSocket) (t : Trace) → s.socket ≡ some fd → Holds fd (after s t))
    → Holds fd (and_then r after)
unfolding and_then
and_then-Holds fd (false, s, t) after h more = h
and_then-Holds fd (true, s, t) after h more = more s t h

anyway-Holds :
    (fd : ℕ) (r : Step Bool) (after : UdpSocket → Trace → Step Bool)
    → Holds fd r
    → ((s : UdpSocket) (t : Trace) → s.socket ≡ some fd → Holds fd (after s t))
    → Holds fd (anyway r after)
unfolding anyway
anyway-Holds fd (worked, s, t) after h more = more s t h

module _ (k : Kernel) (fd : ℕ) where
  configure-Holds : (n : Node) (t : Trace) → n.socket.socket ≡ some fd → Holds fd (configure k n t)
  unfolding configure invoke
  configure-Holds n t h =
      and_then-Holds fd (set_reuse_address k true n.socket t) _
        (invoke-Kept k (Method.reuse_address true) n.socket t fd h).0
        λ s t h.
          and_then-Holds fd (bind_to k n.mcast_port (codes "0.0.0.0") s t) _
            (invoke-Kept k (Method.bind n.mcast_port (codes "0.0.0.0")) s t fd h).0
            λ s t h.
              and_then-Holds fd (join_multicast_group k n.mcast_addr (codes "") s t) _
                (invoke-Kept k (Method.join n.mcast_addr (codes "")) s t fd h).0
                λ s t h.
                  anyway-Holds fd (set_multicast_ttl k n.multicast_ttl s t) _
                    (invoke-Kept k (Method.ttl n.multicast_ttl) s t fd h).0
                    λ s t h.
                      anyway-Holds fd (set_multicast_loopback k n.loopback s t) _
                        (invoke-Kept k (Method.loopback n.loopback) s t fd h).0 λ s t h. h

  start-IsOpen : (now : ℕ) (n : Node) (t : Trace) → IsOpen fd n → IsOpen fd (start k now n t).1
  unfolding start launch is_valid
  start-IsOpen now n t h = ground (arith, configure-Holds n t h.socket)

  send_bytes-IsOpen :
      (bytes : Option Text) (n : Node) (t : Trace)
      → IsOpen fd n
      → IsOpen fd (send_bytes k bytes n t).0
  unfolding send_bytes invoke
  send_bytes-IsOpen none n t h = h
  send_bytes-IsOpen (some bytes) n t h =
      let dest : SocketAddress = record { ip = n.mcast_addr; port = n.mcast_port } in
      record {
        socket = (invoke-Kept k (Method.send dest bytes) n.socket t fd h.socket).0;
        threads = h.threads;
      }

  either_IsOpen :
      (b : Bool) (p q : Node × Trace)
      → IsOpen fd p.0
      → IsOpen fd q.0
      → IsOpen fd (if b then p else q).0
  either_IsOpen true p q h h' = h
  either_IsOpen false p q h h' = h'

  sender_round-IsOpen :
      (serialize : Beacon → Option Text) (stamp : ℤ) (n : Node) (t : Trace)
      → IsOpen fd n
      → IsOpen fd (sender_round k serialize stamp n t).0
  unfolding sender_round
  sender_round-IsOpen serialize stamp n t h =
      let m : Node = record n { agent = (send_beacon stamp n.agent).0 } in
      let sent : IsOpen fd (send_bytes k (serialize (send_beacon stamp n.agent).1) m t).0 =
        send_bytes-IsOpen (serialize (send_beacon stamp n.agent).1) m t
          record { socket = h.socket; threads = h.threads } in
      either_IsOpen n.running (send_bytes k (serialize (send_beacon stamp n.agent).1) m t) (n, t)
        sent h

  receiver_round-IsOpen :
      (parse : Text → Option Beacon) (now later end : ℕ) (n : Node) (t : Trace)
      → IsOpen fd n
      → IsOpen fd (receiver_round k parse now later end n t).0
  unfolding receiver_round invoke
  receiver_round-IsOpen parse now later end n t h =
      let kept = (invoke-Kept k (Method.receive 65535 (pos 500)) n.socket t fd h.socket).0 in
      ground arith

  stop-IsStopped :
      (n : Node) (t : Trace) → IsOpen fd n → IsOpen fd (stop k n t).0 ⊎ IsStopped (stop k n t).0
  unfolding stop
  stop-IsStopped n t h = elim (Bool-cases n.running) [
    | inl e ↦ inr (
        rw (e, stop)
          record { socket = close_socket_lem k n.socket t; running = refl; threads = refl })
    | inr e ↦ inl (ground arith)
  ]

  LifeStep-IsOpen :
      {serialize : Beacon → Option Text} {parse : Text → Option Beacon} {n : Node} {t : Trace}
      {m : Node} {u : Trace}
      → LifeStep k serialize parse n t m u
      → IsOpen fd n
      → IsOpen fd m ⊎ IsStopped m
  LifeStep-IsOpen (started now n t) h = inl (start-IsOpen now n t h)
  LifeStep-IsOpen (stopped n t) h = stop-IsStopped n t h
  LifeStep-IsOpen {serialize} (sent stamp n t) h = inl (sender_round-IsOpen serialize stamp n t h)
  LifeStep-IsOpen {parse} (received now later end n t) h =
      inl (receiver_round-IsOpen parse now later end n t h)

if_false {ℓ} : {A : Type ℓ} (b : Bool) (p q : A) → b ≡ false → (if b then p else q) ≡ q
if_false true p q h = cc
if_false false p q h = refl

module _ (k : Kernel) where
  stop_stopped : (n : Node) (t : Trace) → IsStopped n → stop k n t ≡ (n, t)
  unfolding stop
  stop_stopped n t h = ground arith

  start_stopped : (now : ℕ) (n : Node) (t : Trace) → IsStopped n → start k now n t ≡ (false, n, t)
  unfolding start is_valid
  start_stopped now n t h = ground arith

  sender_round_stopped :
      (serialize : Beacon → Option Text) (stamp : ℤ) (n : Node) (t : Trace)
      → IsStopped n
      → sender_round k serialize stamp n t ≡ (n, t)
  unfolding sender_round
  sender_round_stopped serialize stamp n t h = if_false n.running _ (n, t) h.running

  receiver_round_stopped :
      (parse : Text → Option Beacon) (now later end : ℕ) (n : Node) (t : Trace)
      → IsStopped n
      → receiver_round k parse now later end n t ≡ (n, none, t)
  unfolding receiver_round
  receiver_round_stopped parse now later end n t h = if_false n.running _ (n, none, t) h.running

  LifeStep_stopped :
      {serialize : Beacon → Option Text} {parse : Text → Option Beacon} {n : Node} {t : Trace}
      {m : Node} {u : Trace}
      → LifeStep k serialize parse n t m u
      → IsStopped n
      → (m ≡ n) × (u ≡ t)
  LifeStep_stopped (started now n t) h =
      (ap (λ r. r.1) (start_stopped now n t h), ap (λ r. r.2) (start_stopped now n t h))
  LifeStep_stopped (stopped n t) h =
      (ap (λ r. r.0) (stop_stopped n t h), ap (λ r. r.1) (stop_stopped n t h))
  LifeStep_stopped {serialize} (sent stamp n t) h = (
    ap (λ r. r.0) (sender_round_stopped serialize stamp n t h),
    ap (λ r. r.1) (sender_round_stopped serialize stamp n t h),
  )
  LifeStep_stopped {parse} (received now later end n t) h = (
    ap (λ r. r.0) (receiver_round_stopped parse now later end n t h),
    ap (λ r. r.2) (receiver_round_stopped parse now later end n t h),
  )

  -- The states of an agent whose constructor opened a socket: until `stop` ends a run, its socket is
  -- that one, whatever its rounds and failed starts did to it, and its threads run exactly while
  -- `running_` is set; afterwards no thread runs and the socket is closed.
  pub LifeSteps-phases :
      {fd : ℕ} {serialize : Beacon → Option Text} {parse : Text → Option Beacon} {n : Node}
      {t : Trace} {m : Node} {u : Trace}
      → LifeSteps k serialize parse n t m u
      → IsOpen fd n
      → IsOpen fd m ⊎ IsStopped m
  LifeSteps-phases here h = inl h
  LifeSteps-phases {fd} (next steps step) h = elim (LifeSteps-phases steps h) [
    | inl open_now ↦ LifeStep-IsOpen k fd step open_now
    | inr over ↦ inr (subst IsStopped (sym (LifeStep_stopped step over).0) over)
  ]
