-- ===== src/Tests/Tool.antt =====
-- Concrete configurations (include/nexusd/daemon/config.hpp), sockets (src/net/udp_socket.cpp), UUIDs
-- (include/nexusd/utils/uuid.hpp), and a discovery agent that is started and stopped
-- (src/core/discovery_agent.cpp).
use nexus_d_pub_sub.Prelude.{
  ℕ, ◌+◌, ◌≤◌, ◌≡◌, refl, true, false, ◌⊎◌, List, [], ◌∷◌, Option, none, some, Text, codes, arith,
  get_elem?, length, text_eq, ℕ_discrete,
}
use nexus_d_pub_sub.Prelude.Int.{ℤ, pos, negsuc}
use nexus_d_pub_sub.Prelude.Numbers.{ok, stoi, to_u16}
use nexus_d_pub_sub.Daemon.Config.{Config, defaults, is_help, option_of, set_option, parse_args}
use nexus_d_pub_sub.Daemon.Options.{arguments, assignments, IsTyped, parse_args-arguments}
use nexus_d_pub_sub.UdpSocket.{Call, Answer, Trace, Kernel, handle_of}
use nexus_d_pub_sub.UdpSocket.Pool.{Method, Op, run}
use nexus_d_pub_sub.UdpSocket.Uses.{opened}
use nexus_d_pub_sub.UdpSocket.Ownership.{IsOwned, IsFresh, run-init-IsOwned}
use nexus_d_pub_sub.PeerRegistry.{PeerRegistry}
use nexus_d_pub_sub.Discovery.{Beacon}
use nexus_d_pub_sub.Discovery.Threads.{Node, start, stop, sender_round}
use nexus_d_pub_sub.Discovery.Lifecycle.{
  LifeSteps, here, next, started, stopped, sent, IsOpen, IsStopped, LifeSteps-phases,
}
use nexus_d_pub_sub.Uuid.{is_valid, generate, IsVariant, generate-is_valid}

abbrev production : Config
production = record defaults {
  cluster_id = codes "production";
  mesh_port = 6000;
  block_timeout_ms = negsuc 0;
  subscriber_queue_limit = 5000;
}

production-IsTyped : IsTyped production
production-IsTyped = omega arith

parse_args-arguments_example :
    parse_args (codes "nexusd" ∷ arguments (assignments production))
    ≡ ok (record production { help = false })
parse_args-arguments_example = parse_args-arguments (codes "nexusd") production production-IsTyped

-- A port that does not fit is cut down.
abbrev large_port : List Text
large_port = codes "nexusd" ∷ codes "--mesh-port" ∷ codes "70000" ∷ []

large_port_parsed : parse_args large_port ≡ ok (record defaults { mesh_port = 4464 })
unfolding parse_args is_help option_of set_option stoi to_u16 text_eq ℕ_discrete
large_port_parsed = refl

-- A kernel whose `socket` returns a descriptor that is larger than all before; its other calls work.
value_of : ℤ → ℕ
value_of (pos n) = n + 1
value_of (negsuc n) = 0

next_descriptor : Trace → ℕ
unfolding value_of
next_descriptor [] = 0
next_descriptor ((c, a) ∷ t) = value_of a.value + next_descriptor t

abbrev answer_with : ℤ → Answer
answer_with v = record { value = v; errno = 0; address = 0; port = 0; payload = [] }

answer : Trace → Call → Answer
unfolding next_descriptor
answer t Call.socket = answer_with (pos (next_descriptor t))
answer t c = answer_with (pos 0)

abbrev counting_kernel : Kernel
counting_kernel = record { answer = answer; inet_pton = λ s. some (length s); inet_ntop = λ n. [] }

opened_below : (t : Trace) (fd : ℕ) → next_descriptor t ≤ fd → opened t fd ≡ 0
unfolding next_descriptor handle_of value_of
opened_below [] fd h = refl
opened_below ((Call.socket, a) ∷ t) fd h = ground (arith, opened_below t fd)
opened_below ((Call.close f, a) ∷ t) fd h = ground (arith, opened_below t fd)
opened_below ((Call.bind f x y, a) ∷ t) fd h = opened_below t fd (omega arith)
opened_below ((Call.getsockname f, a) ∷ t) fd h = opened_below t fd (omega arith)
opened_below ((Call.setsockopt f o, a) ∷ t) fd h = opened_below t fd (omega arith)
opened_below ((Call.sendto f x y z, a) ∷ t) fd h = opened_below t fd (omega arith)
opened_below ((Call.select f x, a) ∷ t) fd h = opened_below t fd (omega arith)
opened_below ((Call.recvfrom f x, a) ∷ t) fd h = opened_below t fd (omega arith)

counting-IsFresh : IsFresh counting_kernel
unfolding answer handle_of
counting-IsFresh t fd h = ground (arith, opened_below t fd)

abbrev program : List Op
program =
    Op.construct
    ∷ Op.construct
    ∷ Op.call 0 (Method.bind 5000 (codes "0.0.0.0"))
    ∷ Op.assign 0 1
    ∷ Op.call 0 (Method.broadcast true)
    ∷ Op.call 1 (Method.ttl 1)
    ∷ Op.destroy 1
    ∷ Op.destroy 0
    ∷ []

run-init-IsOwned_example : IsOwned (run counting_kernel program ([], []))
run-init-IsOwned_example = run-init-IsOwned counting_kernel program counting-IsFresh

generate-is_valid_example :
    (is_valid (generate 0x0123456789abcdef 0xffffffffffffffff) ≡ true)
    × (get_elem? (generate 0x0123456789abcdef 0xffffffffffffffff) 14 ≡ some b'4')
    × ((c : ℕ) × (get_elem? (generate 0x0123456789abcdef 0xffffffffffffffff) 19 ≡ some c)
        × IsVariant c)
generate-is_valid_example = generate-is_valid 0x0123456789abcdef 0xffffffffffffffff

abbrev no_registry : PeerRegistry
no_registry = record {
  local_node_id = codes "node-1";
  peers = [];
  local_subscriptions = [];
  topic_to_subscriptions = [];
  paused_subscriptions = [];
  cached_local_hash = 0;
  hash_dirty = true;
  routing_table = [];
  retained_messages = [];
}

abbrev new_node : Node
new_node = record {
  agent = record {
    cluster_id = codes "production";
    peer_timeout_ms = 5000;
    current_rpc_ip = codes "10.0.0.1";
    current_rpc_port = 50052;
    registry = no_registry;
    has_callback = false;
  };
  mcast_addr = codes "239.255.77.1";
  mcast_port = 5000;
  multicast_ttl = 1;
  loopback = false;
  socket = record { socket = some 0; last_error = 0 };
  running = false;
  threads = false;
  last_reap = 0;
}

abbrev no_bytes : Beacon → Option Text
no_bytes b = some []

abbrev no_beacon : Text → Option Beacon
no_beacon bytes = none

abbrev running_node : Node
running_node = (start counting_kernel 7 new_node []).1

abbrev running_trace : Trace
running_trace = (start counting_kernel 7 new_node []).2

-- A start, a beacon, and a stop.
abbrev sent_node : Node
sent_node = (sender_round counting_kernel no_bytes (pos 0) running_node running_trace).0

abbrev sent_trace : Trace
sent_trace = (sender_round counting_kernel no_bytes (pos 0) running_node running_trace).1

abbrev stopped_node : Node
stopped_node = (stop counting_kernel sent_node sent_trace).0

abbrev stopped_trace : Trace
stopped_trace = (stop counting_kernel sent_node sent_trace).1

steps : LifeSteps counting_kernel no_bytes no_beacon new_node [] stopped_node stopped_trace
steps =
    next (next (next here (started 7 new_node [])) (sent (pos 0) running_node running_trace))
      (stopped sent_node sent_trace)

LifeSteps-phases_example : IsOpen 0 stopped_node ⊎ IsStopped stopped_node
LifeSteps-phases_example =
    LifeSteps-phases counting_kernel steps record { socket = refl; threads = refl }

abbrev closed_node : Node
closed_node = record new_node { socket = record { socket = none; last_error = 0 } }
