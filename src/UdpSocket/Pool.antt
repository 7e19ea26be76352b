-- ===== src/UdpSocket/Pool.antt =====
-- Objects of class UdpSocket in src/net/udp_socket.cpp and what a program does with them.
use nexus_d_pub_sub.UdpSocket.{
  Trace, Kernel, SocketAddress, UdpSocket, Step, create, bind_to, get_local_port, set_reuse_address,
  set_broadcast, set_multicast_ttl, set_multicast_loopback, set_multicast_interface,
  join_multicast_group, leave_multicast_group, send_to, receive_from, close_socket, move_assign,
  move_construct,
}
use nexus_d_pub_sub.Prelude.{
  ℕ, Bool, List, [], ◌∷◌, ◌++◌, none, some, Text, ◌==◌, if◌then◌else◌, get_elem?, set,
}
use nexus_d_pub_sub.Prelude.Int.{ℤ}

abbrev rest : {A : Type 0} → Step A → UdpSocket × Trace
rest (a, s, t) = (s, t)

-- The methods that neither open nor close.
pub data Method : Type 0 where
  bind : ℕ → Text → Method
  local_port : Method
  reuse_address broadcast loopback : Bool → Method
  ttl : ℕ → Method
  interface : Text → Method
  join leave : Text → Text → Method
  send : SocketAddress → Text → Method
  receive : ℕ → ℤ → Method

module _ (k : Kernel) where
  unfoldable pub invoke : Method → UdpSocket → Trace → UdpSocket × Trace
  unfolding bind_to get_local_port set_reuse_address set_broadcast set_multicast_ttl
      set_multicast_loopback set_multicast_interface join_multicast_group leave_multicast_group
      send_to receive_from
  invoke (Method.bind port address) s t = rest (bind_to k port address s t)
  invoke Method.local_port s t = (s, (get_local_port k s t).1)
  invoke (Method.reuse_address b) s t = rest (set_reuse_address k b s t)
  invoke (Method.broadcast b) s t = rest (set_broadcast k b s t)
  invoke (Method.loopback b) s t = rest (set_multicast_loopback k b s t)
  invoke (Method.ttl n) s t = rest (set_multicast_ttl k n s t)
  invoke (Method.interface address) s t = rest (set_multicast_interface k address s t)
  invoke (Method.join g i) s t = rest (join_multicast_group k g i s t)
  invoke (Method.leave g i) s t = rest (leave_multicast_group k g i s t)
  invoke (Method.send dest payload) s t = rest (send_to k dest payload s t)
  invoke (Method.receive size timeout) s t = rest (receive_from k size timeout s t)

-- What a program does; the numbers are positions in the list of its objects, in the order of their
-- construction. The destructor is `close`, and an object is not used after it.
pub data Op : Type 0 where
  construct : Op
  call : ℕ → Method → Op
  close destroy : ℕ → Op
  move_from : ℕ → Op
  assign : ℕ → ℕ → Op

abbrev pub Pool : Type 0
Pool = List UdpSocket × Trace

abbrev pub append_object : List UdpSocket → UdpSocket × Trace → Pool
append_object xs (s, t) = (xs ++ s ∷ [], t)

abbrev pub put_object : List UdpSocket → ℕ → UdpSocket × Trace → Pool
put_object xs i (s, t) = (set xs i s, t)

abbrev pub assign_objects : List UdpSocket → ℕ → ℕ → UdpSocket × UdpSocket × Trace → Pool
assign_objects xs i j (a, b, t) = (set (set xs i a) j b, t)

module _ (k : Kernel) where
  unfoldable pub run_op : Op → Pool → Pool
  unfolding create invoke close_socket move_assign move_construct
  run_op construct (xs, t) = append_object xs (create k t)
  run_op (call i m) (xs, t) = elim (get_elem? xs i) [
    | none ↦ (xs, t)
    | some s ↦ put_object xs i (invoke k m s t)
  ]
  run_op (close i) (xs, t) = elim (get_elem? xs i) [
    | none ↦ (xs, t)
    | some s ↦ put_object xs i (close_socket k s t)
  ]
  run_op (destroy i) (xs, t) = elim (get_elem? xs i) [
    | none ↦ (xs, t)
    | some s ↦ put_object xs i (close_socket k s t)
  ]
  run_op (move_from j) (xs, t) = elim (get_elem? xs j) [
    | none ↦ (xs, t)
    | some s ↦ (set xs j (move_construct s).1 ++ (move_construct s).0 ∷ [], t)
  ]
  -- `this != &other`
  run_op (assign i j) (xs, t) = if i == j then (xs, t) else elim (get_elem? xs i) [
    | none ↦ (xs, t)
    | some a ↦ elim (get_elem? xs j) [
      | none ↦ (xs, t)
      | some b ↦ assign_objects xs i j (move_assign k a b t)
    ]
  ]

  unfoldable pub run : List Op → Pool → Pool
  unfolding run_op
  run [] p = p
  run (o ∷ rest) p = run rest (run_op o p)
