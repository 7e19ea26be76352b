-- ===== src/UdpSocket.antt =====
-- src/net/udp_socket.cpp, class UdpSocket, in its POSIX branches. The kernel is a parameter: it
-- answers each system call from all the calls before it, so that a method gives the trace after it.
pub mod Pool
pub mod Uses
pub mod Kept
pub mod Held
pub mod Ownership
use nexus_d_pub_sub.Prelude.{
  ℕ, ◌%◌, Bool, true, false, List, [], ◌∷◌, Option, none, some, Text, codes, text_eq, ite, ◌==◌,
  if◌then◌else◌,
}
use nexus_d_pub_sub.Prelude.Int.{ℤ, pos, negsuc}

-- The options that `setsockopt` is called with.
pub data SocketOption : Type 0 where
  reuse_addr reuse_port broadcast multicast_loop : Bool → SocketOption
  multicast_ttl multicast_if : ℕ → SocketOption
  add_membership drop_membership : ℕ → ℕ → SocketOption

pub data Call : Type 0 where
  socket : Call
  close : ℕ → Call
  bind : ℕ → ℕ → ℕ → Call
  getsockname : ℕ → Call
  setsockopt : ℕ → SocketOption → Call
  sendto : ℕ → ℕ → ℕ → Text → Call
  select : ℕ → ℕ → Call
  recvfrom : ℕ → ℕ → Call

-- The returned value and `errno`, with the address and the bytes that some calls write.
pub record Answer : Type 0 where
  pub value : ℤ
  pub errno : ℕ
  pub address : ℕ
  pub port : ℕ
  pub payload : Text

-- The calls made so far with their answers, the latest first.
abbrev pub Trace : Type 0
Trace = List (Call × Answer)

pub record Kernel : Type 0 where
  pub answer : Trace → Call → Answer
  pub inet_pton : Text → Option ℕ
  pub inet_ntop : ℕ → Text

pub record SocketAddress : Type 0 where
  pub ip : Text
  pub port : ℕ

-- `none` stands for INVALID_SOCKET_HANDLE.
pub record UdpSocket : Type 0 where
  pub socket : Option ℕ
  pub last_error : ℕ

-- What a method returns, the object after it and the trace after it.
abbrev pub Step : Type 0 → Type 0
Step A = A × UdpSocket × Trace

unfoldable pub is_valid : UdpSocket → Bool
is_valid s = elim (s.socket) [ none ↦ false | some fd ↦ true ]

-- A negative return value is an error.
unfoldable pub handle_of : ℤ → Option ℕ
handle_of (pos fd) = some fd
handle_of (negsuc n) = none

-- `setLastError` after a call that failed.
unfoldable pub set_last_error : Answer → UdpSocket → UdpSocket
set_last_error a s = record s { last_error = a.errno }

unfoldable pub is_zero : ℤ → Bool
is_zero (pos n) = n == 0
is_zero (negsuc n) = false

-- A call whose result is an error unless it is 0.
unfoldable pub checked : Answer → UdpSocket → Trace → Step Bool
unfolding is_zero set_last_error
checked a s t = if is_zero a.value then (true, s, t) else (false, set_last_error a s, t)

-- A call whose result is a number of bytes, or negative.
unfoldable pub counted : Answer → UdpSocket → Trace → Step ℤ
unfolding set_last_error
counted a s t = elim (a.value) [
  | pos n ↦ (pos n, s, t)
  | negsuc n ↦ (negsuc 0, set_last_error a s, t)
]

module _ (k : Kernel) where
  open k use {answer, inet_pton, inet_ntop}

  -- The trace after a call.
  unfoldable pub after : Call → Trace → Trace
  after c t = (c, answer t c) ∷ t

  -- A call of the kind that `checked` tests.
  unfoldable pub try_call : Call → UdpSocket → Trace → Step Bool
  unfolding checked after
  try_call c s t = checked (answer t c) s (after c t)

  -- The constructor.
  unfoldable pub create : Trace → UdpSocket × Trace
  unfolding handle_of after
  create t = elim (handle_of (answer t socket).value) [
    | none ↦ (record { socket = none; last_error = (answer t socket).errno }, after socket t)
    | some fd ↦ (record { socket = some fd; last_error = 0 }, after socket t)
  ]

  -- An interface or a bind address, where a text such as the empty one stands for INADDR_ANY.
  unfoldable pub interface_of : Text → Option ℕ
  interface_of address = ite (text_eq address []) (some 0) (inet_pton address)

  unfoldable pub bind_address : Text → Option ℕ
  bind_address address =
      ite (text_eq address []) (some 0)
        (ite (text_eq address (codes "0.0.0.0")) (some 0) (inet_pton address))

  -- `bind`
  unfoldable pub bind_to : ℕ → Text → UdpSocket → Trace → Step Bool
  unfolding bind_address try_call
  bind_to port address s t = elim (s.socket) [
    | none ↦ (false, s, t)
    | some fd ↦ elim (bind_address address) [
      | none ↦ (false, s, t)
      | some addr ↦ try_call (bind fd addr port) s t
    ]
  ]

  unfoldable pub get_local_port : UdpSocket → Trace → ℕ × Trace
  unfolding after is_zero
  get_local_port s t = elim (s.socket) [
    | none ↦ (0, t)
    | some fd ↦
        let a = answer t (getsockname fd) in
        (if is_zero a.value then a.port else 0, after (getsockname fd) t)
  ]

  -- SO_REUSEPORT is set too; whether that works is not looked at.
  unfoldable pub set_reuse_address : Bool → UdpSocket → Trace → Step Bool
  unfolding after is_zero set_last_error
  set_reuse_address enable s t = elim (s.socket) [
    | none ↦ (false, s, t)
    | some fd ↦
        let c = setsockopt fd (reuse_addr enable) in
        let a = answer t c in
        if is_zero a.value
        then (true, s, after (setsockopt fd (reuse_port enable)) (after c t))
        else (false, set_last_error a s, after c t)
  ]

  -- An option that is set by one call.
  unfoldable pub set_option : SocketOption → UdpSocket → Trace → Step Bool
  unfolding try_call
  set_option o s t = elim (s.socket) [
    | none ↦ (false, s, t)
    | some fd ↦ try_call (setsockopt fd o) s t
  ]

  unfoldable pub set_broadcast : Bool → UdpSocket → Trace → Step Bool
  unfolding set_option
  set_broadcast enable = set_option (broadcast enable)

  -- The `int` is cast to `unsigned char`; what is given is its bit pattern.
  unfoldable pub set_multicast_ttl : ℕ → UdpSocket → Trace → Step Bool
  unfolding set_option
  set_multicast_ttl ttl = set_option (multicast_ttl (ttl % 256))

  unfoldable pub set_multicast_loopback : Bool → UdpSocket → Trace → Step Bool
  unfolding set_option
  set_multicast_loopback enable = set_option (multicast_loop enable)

  unfoldable pub set_multicast_interface : Text → UdpSocket → Trace → Step Bool
  unfolding interface_of set_option
  set_multicast_interface address s t = elim (s.socket) [
    | none ↦ (false, s, t)
    | some fd ↦ elim (interface_of address) [
      | none ↦ (false, s, t)
      | some addr ↦ set_option (multicast_if addr) s t
    ]
  ]

  -- The two addresses of a membership, the group's first.
  unfoldable pub membership_of : Text → Text → Option (ℕ × ℕ)
  unfolding interface_of
  membership_of group interface = elim (inet_pton group) [
    | none ↦ none
    | some g ↦ elim (interface_of interface) [ none ↦ none | some i ↦ some (g, i) ]
  ]

  unfoldable pub join_multicast_group : Text → Text → UdpSocket → Trace → Step Bool
  unfolding membership_of set_option
  join_multicast_group group interface s t = elim (s.socket) [
    | none ↦ (false, s, t)
    | some fd ↦ elim (membership_of group interface) [
      | none ↦ (false, s, t)
      | some (g, i) ↦ set_option (add_membership g i) s t
    ]
  ]

  unfoldable pub leave_multicast_group : Text → Text → UdpSocket → Trace → Step Bool
  unfolding membership_of set_option
  leave_multicast_group group interface s t = elim (s.socket) [
    | none ↦ (false, s, t)
    | some fd ↦ elim (membership_of group interface) [
      | none ↦ (false, s, t)
      | some (g, i) ↦ set_option (drop_membership g i) s t
    ]
  ]

  unfoldable pub send_to : SocketAddress → Text → UdpSocket → Trace → Step ℤ
  unfolding counted after
  send_to dest payload s t = elim (s.socket) [
    | none ↦ (negsuc 0, s, t)
    | some fd ↦ elim (inet_pton dest.ip) [
      | none ↦ (negsuc 0, s, t)
      | some addr ↦ let c = sendto fd addr dest.port payload in counted (answer t c) s (after c t)
    ]
  ]

  -- `recvfrom`, and the sender's address where it gives one.
  unfoldable pub receive_now : ℕ → ℕ → UdpSocket → Trace → Step (ℤ × Option (SocketAddress × Text))
  unfolding set_last_error after
  receive_now fd size s t =
      let a = answer t (recvfrom fd size) in
      let t' = after (recvfrom fd size) t in
      elim (a.value) [
        | pos n ↦
            ((pos n, some (record { ip = inet_ntop a.address; port = a.port }, a.payload)), s, t')
        | negsuc n ↦ ((negsuc 0, none), set_last_error a s, t')
      ]

  -- `receiveFrom`: `select` first where the timeout is not negative.
  unfoldable pub receive_from : ℕ → ℤ → UdpSocket → Trace → Step (ℤ × Option (SocketAddress × Text))
  unfolding receive_now set_last_error after
  receive_from size timeout s t = elim (s.socket) [
    | none ↦ ((negsuc 0, none), s, t)
    | some fd ↦ elim timeout [
      | negsuc n ↦ receive_now fd size s t
      | pos ms ↦
          let a = answer t (select fd ms) in
          let t' = after (select fd ms) t in
          elim (a.value) [
            | negsuc n ↦ ((negsuc 0, none), set_last_error a s, t')
            | pos ready ↦ if ready == 0 then ((pos 0, none), s, t') else receive_now fd size s t'
          ]
    ]
  ]

  -- `close`, which the destructor calls too.
  unfoldable pub close_socket : UdpSocket → Trace → UdpSocket × Trace
  unfolding after
  close_socket s t = elim (s.socket) [
    | none ↦ (s, t)
    | some fd ↦ (record s { socket = none }, after (close fd) t)
  ]

  -- The move assignment from another object: the new target, the emptied source.
  unfoldable pub move_assign : UdpSocket → UdpSocket → Trace → UdpSocket × UdpSocket × Trace
  unfolding close_socket
  move_assign target other t =
      let (closed, t') = close_socket target t in
      (
        record closed { socket = other.socket; last_error = other.last_error },
        record other { socket = none },
        t',
      )

-- The move constructor: the new object and the emptied source.
unfoldable pub move_construct : UdpSocket → UdpSocket × UdpSocket
move_construct other = (other, record other { socket = none })
