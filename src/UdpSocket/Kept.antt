-- ===== src/UdpSocket/Kept.antt =====
-- The methods of src/net/udp_socket.cpp that neither open nor close: what they do to their object
-- and to the trace.
use nexus_d_pub_sub.UdpSocket.Pool.{Method, invoke}
use nexus_d_pub_sub.UdpSocket.Uses.{Uses, same, use_of}
use nexus_d_pub_sub.UdpSocket.{
  SocketOption, Call, Answer, Trace, Kernel, SocketAddress, UdpSocket, Step, is_zero, bind_to,
  get_local_port, set_reuse_address, set_broadcast, set_multicast_ttl, set_multicast_loopback,
  set_multicast_interface, join_multicast_group, leave_multicast_group, send_to, receive_from,
  try_call, checked, counted, set_last_error, set_option, receive_now, after, interface_of,
  bind_address, membership_of,
}
use nexus_d_pub_sub.Prelude.{
  ℕ, ◌≡◌, refl, Bool, true, false, Option, none, some, Text, ◌==◌, if◌then◌else◌, subst, sym, ◌%◌,
}
use nexus_d_pub_sub.Prelude.Int.{ℤ, pos, negsuc}

-- What a method does to its object and to the trace.
abbrev pub Kept : ℕ → Trace → UdpSocket × Trace → Type 0
Kept fd t (s, u) = (s.socket ≡ some fd) × Uses fd t u

abbrev rest : {A : Type 0} → Step A → UdpSocket × Trace
rest (a, s, t) = (s, t)

-- An object with a valid descriptor.
module _ (k : Kernel) (fd e : ℕ) (t : Trace) where
  abbrev opened_socket : UdpSocket
  opened_socket = record { socket = some fd; last_error = e }

  checked-Kept :
      (a : Answer) (u : Trace) → Uses fd t u → Kept fd t (rest (checked a opened_socket u))
  unfolding checked set_last_error
  checked-Kept a u h =
      elim (is_zero a.value)
        as (λ b. Kept fd t (
          rest
            (if b then (true, opened_socket, u) else (false, set_last_error a opened_socket, u)))) [
              | true ↦ (refl, h)
              | false ↦ (refl, h)
            ]

  counted-Kept :
      (a : Answer) (u : Trace) → Uses fd t u → Kept fd t (rest (counted a opened_socket u))
  unfolding counted set_last_error
  counted-Kept a u h =
      elim (a.value)
        as (λ v. Kept fd t (
          rest (elim v [
            | pos n ↦ (pos n, opened_socket, u)
            | negsuc n ↦ (negsuc 0, set_last_error a opened_socket, u)
          ]))) [ pos n ↦ (refl, h) | negsuc n ↦ (refl, h) ]

  set_option-Kept : (o : SocketOption) → Kept fd t (rest (set_option k o opened_socket t))
  unfolding set_option try_call after
  set_option-Kept o =
      let c = Call.setsockopt fd o in
      checked-Kept (k.answer t c) _ (use_of same c refl (k.answer t c))

  set_reuse_address-Kept : (b : Bool) → Kept fd t (rest (set_reuse_address k b opened_socket t))
  unfolding set_reuse_address set_last_error after
  set_reuse_address-Kept b =
      let c = Call.setsockopt fd (SocketOption.reuse_addr b) in
      let first : Uses fd t (after k c t) = use_of same c refl (k.answer t c) in
      elim (is_zero (k.answer t c).value)
        as (λ z. Kept fd t (
          rest (
            if z
            then (
              true,
              opened_socket,
              after k (Call.setsockopt fd (SocketOption.reuse_port b)) (after k c t),
            )
            else (false, set_last_error (k.answer t c) opened_socket, after k c t)))) [
              | true ↦ (refl, use_of first (Call.setsockopt fd (SocketOption.reuse_port b)) refl _)
              | false ↦ (refl, first)
            ]

  bind_to-Kept :
      (port : ℕ) (address : Text) → Kept fd t (rest (bind_to k port address opened_socket t))
  unfolding bind_to try_call after
  bind_to-Kept port address =
      elim (bind_address k address)
        as (λ x. Kept fd t (
          rest (elim x [
            | none ↦ (false, opened_socket, t)
            | some addr ↦ try_call k (Call.bind fd addr port) opened_socket t
          ]))) [
            | none ↦ (refl, same)
            | some addr ↦
                let c = Call.bind fd addr port in
                checked-Kept (k.answer t c) _ (use_of same c refl (k.answer t c))
          ]

  send_to-Kept :
      (dest : SocketAddress) (payload : Text)
      → Kept fd t (rest (send_to k dest payload opened_socket t))
  unfolding send_to after
  send_to-Kept dest payload =
      elim (k.inet_pton dest.ip)
        as (λ x. Kept fd t (
          rest (elim x [
            | none ↦ (negsuc 0, opened_socket, t)
            | some addr ↦
                let c = Call.sendto fd addr dest.port payload in
                counted (k.answer t c) opened_socket (after k c t)
          ]))) [
            | none ↦ (refl, same)
            | some addr ↦
                let c = Call.sendto fd addr dest.port payload in
                counted-Kept (k.answer t c) _ (use_of same c refl (k.answer t c))
          ]

  set_multicast_interface-Kept :
      (address : Text) → Kept fd t (rest (set_multicast_interface k address opened_socket t))
  unfolding set_multicast_interface
  set_multicast_interface-Kept address =
      elim (interface_of k address)
        as (λ x. Kept fd t (
          rest (elim x [
            | none ↦ (false, opened_socket, t)
            | some addr ↦ set_option k (SocketOption.multicast_if addr) opened_socket t
          ]))) [
            | none ↦ (refl, same)
            | some addr ↦ set_option-Kept (SocketOption.multicast_if addr)
          ]

  join-Kept :
      (group interface : Text)
      → Kept fd t (rest (join_multicast_group k group interface opened_socket t))
  unfolding join_multicast_group
  join-Kept group interface =
      elim (membership_of k group interface)
        as (λ x. Kept fd t (
          rest (elim x [
            | none ↦ (false, opened_socket, t)
            | some (g, i) ↦ set_option k (SocketOption.add_membership g i) opened_socket t
          ]))) [
            | none ↦ (refl, same)
            | some (g, i) ↦ set_option-Kept (SocketOption.add_membership g i)
          ]

  leave-Kept :
      (group interface : Text)
      → Kept fd t (rest (leave_multicast_group k group interface opened_socket t))
  unfolding leave_multicast_group
  leave-Kept group interface =
      elim (membership_of k group interface)
        as (λ x. Kept fd t (
          rest (elim x [
            | none ↦ (false, opened_socket, t)
            | some (g, i) ↦ set_option k (SocketOption.drop_membership g i) opened_socket t
          ]))) [
            | none ↦ (refl, same)
            | some (g, i) ↦ set_option-Kept (SocketOption.drop_membership g i)
          ]

  receive_now-Kept :
      (size : ℕ) (u : Trace)
      → Uses fd t u
      → Kept fd t (rest (receive_now k fd size opened_socket u))
  unfolding receive_now set_last_error after
  receive_now-Kept size u h =
      let c = Call.recvfrom fd size in
      let a = k.answer u c in
      elim (a.value)
        as (λ v. Kept fd t (
          rest (elim v as (λ _. Step (ℤ × Option (SocketAddress × Text))) [
            | pos n ↦ (
              (pos n, some (record { ip = k.inet_ntop a.address; port = a.port }, a.payload)),
              opened_socket,
              after k c u,
            )
            | negsuc n ↦ ((negsuc 0, none), set_last_error a opened_socket, after k c u)
          ]))) [ pos n ↦ (refl, use_of h c refl a) | negsuc n ↦ (refl, use_of h c refl a) ]

  receive_from-Kept :
      (size : ℕ) (timeout : ℤ) → Kept fd t (rest (receive_from k size timeout opened_socket t))
  unfolding receive_from set_last_error after
  receive_from-Kept size (negsuc n) = receive_now-Kept size t same
  receive_from-Kept size (pos ms) =
      let c = Call.select fd ms in
      let a = k.answer t c in
      let first : Uses fd t (after k c t) = use_of same c refl a in
      elim (a.value)
        as (λ v. Kept fd t (
          rest (elim v as (λ _. Step (ℤ × Option (SocketAddress × Text))) [
            | negsuc n ↦ ((negsuc 0, none), set_last_error a opened_socket, after k c t)
            | pos ready ↦
                if ready == 0
                then ((pos 0, none), opened_socket, after k c t)
                else receive_now k fd size opened_socket (after k c t)
          ]))) [
            | negsuc n ↦ (refl, first)
            | pos ready ↦
                elim (ready == 0)
                  as (λ b. Kept fd t (
                    rest (
                      if b
                      then ((pos 0, none), opened_socket, after k c t)
                      else receive_now k fd size opened_socket (after k c t)))) [
                        | true ↦ (refl, first)
                        | false ↦ receive_now-Kept size (after k c t) first
                      ]
          ]

  opened_socket-Kept : (m : Method) → Kept fd t (invoke k m opened_socket t)
  unfolding invoke get_local_port after set_broadcast set_multicast_ttl set_multicast_loopback
  opened_socket-Kept (Method.bind port address) = bind_to-Kept port address
  opened_socket-Kept Method.local_port = (refl, use_of same (Call.getsockname fd) refl _)
  opened_socket-Kept (Method.reuse_address b) = set_reuse_address-Kept b
  opened_socket-Kept (Method.broadcast b) = set_option-Kept (SocketOption.broadcast b)
  opened_socket-Kept (Method.loopback b) = set_option-Kept (SocketOption.multicast_loop b)
  opened_socket-Kept (Method.ttl n) = set_option-Kept (SocketOption.multicast_ttl (n % 256))
  opened_socket-Kept (Method.interface address) = set_multicast_interface-Kept address
  opened_socket-Kept (Method.join g i) = join-Kept g i
  opened_socket-Kept (Method.leave g i) = leave-Kept g i
  opened_socket-Kept (Method.send dest payload) = send_to-Kept dest payload
  opened_socket-Kept (Method.receive size timeout) = receive_from-Kept size timeout

idle :
    (k : Kernel) (m : Method) (e : ℕ) (t : Trace)
    → let o : UdpSocket = record { socket = none; last_error = e } in invoke k m o t ≡ (o, t)
unfolding invoke bind_to get_local_port set_reuse_address set_option set_broadcast set_multicast_ttl
    set_multicast_loopback set_multicast_interface join_multicast_group leave_multicast_group
    send_to receive_from
idle k Method.local_port e t = refl
idle k _ e t = refl

module _ (k : Kernel) (m : Method) (s : UdpSocket) (t : Trace) where
  abbrev with_socket : Option ℕ → UdpSocket
  with_socket o = record s { socket = o }

  -- A method keeps a valid descriptor, and calls the kernel on it only.
  pub invoke-Kept : (fd : ℕ) → s.socket ≡ some fd → Kept fd t (invoke k m s t)
  invoke-Kept fd e =
      subst (λ o. Kept fd t (invoke k m (with_socket o) t)) (sym e)
        (opened_socket-Kept k fd s.last_error t m)

  -- A method of an object without one does nothing.
  pub invoke_invalid : s.socket ≡ none → invoke k m s t ≡ (s, t)
  invoke_invalid e =
      subst (λ o. invoke k m (with_socket o) t ≡ (with_socket o, t)) (sym e)
        (idle k m s.last_error t)
