-- ===== src/UdpSocket/Ownership.antt =====
-- Who owns the descriptors of src/net/udp_socket.cpp: any objects of class UdpSocket under any
-- sequence of constructions, method calls, moves, closes and destructions.
use nexus_d_pub_sub.UdpSocket.{
  Call, Trace, Kernel, UdpSocket, handle_of, create, close_socket, move_assign, move_construct,
}
use nexus_d_pub_sub.UdpSocket.Pool.{
  Method, invoke, Op, Pool, append_object, put_object, assign_objects, run_op, run,
}
use nexus_d_pub_sub.UdpSocket.Uses.{opened, IsSane, Uses-opened, Uses-IsSane}
use nexus_d_pub_sub.UdpSocket.Kept.{invoke-Kept, invoke_invalid}
use nexus_d_pub_sub.Prelude.{
  ℕ, ◌+◌, ◌≤◌, ◌<◌, ◌≡◌, refl, sym, ap, subst, ◌∙◌, false, List, [], ◌∷◌, ◌++◌, none, some,
  Option-cases, inl, inr, ◌==◌, arith, get_elem?, set, Bool-cases,
}
use nexus_d_pub_sub.UdpSocket.Held.{
  holds, held, held-set, held-append, close_socket_invalid, close_socket_valid, close_moves,
  closed_once, closed_named, close_socket_lem, get_elem?-set_other, create_lem, opened-socket,
  opened_once,
}

-- Every open descriptor has exactly one owner, each object's descriptor is open, and no call was
-- made on a closed descriptor.
pub record IsOwned (p : Pool) : Type 0 where
  pub balance : (fd : ℕ) → held p.0 fd ≡ opened p.1 fd
  pub once : (fd : ℕ) → opened p.1 fd ≤ 1
  pub sane : IsSane p.1

-- `socket` returns no descriptor that is open.
abbrev pub IsFresh : Kernel → Type 0
IsFresh k =
    (t : Trace) (fd : ℕ) → handle_of (k.answer t Call.socket).value ≡ some fd → opened t fd ≡ 0

module _ (k : Kernel) (xs : List UdpSocket) (t : Trace) (owned : IsOwned (xs, t)) where
  held_open :
      (i : ℕ) (s : UdpSocket) (fd : ℕ)
      → get_elem? xs i ≡ some s
      → holds s.socket fd ≡ 1
      → 0 < opened t fd
  held_open i s fd h e =
      omega
        (arith, held-set xs i s (record { socket = none; last_error = 0 }) fd h, owned.balance fd)

  -- An object is replaced by one that owns what the calls have opened.
  replaced :
      (i : ℕ) (s s' : UdpSocket) (u : Trace)
      → get_elem? xs i ≡ some s
      → ((fd : ℕ) → holds s'.socket fd + opened t fd ≡ holds s.socket fd + opened u fd)
      → ((fd : ℕ) → opened u fd ≤ 1)
      → IsSane u
      → IsOwned (set xs i s', u)
  replaced i s s' u h moved once sane = record {
    balance = λ fd. omega (arith, held-set xs i s s' fd h, owned.balance fd, moved fd);
    once = once;
    sane = sane;
  }

  call-IsOwned :
      (i : ℕ) (m : Method) (s : UdpSocket)
      → get_elem? xs i ≡ some s
      → IsOwned (put_object xs i (invoke k m s t))
  call-IsOwned i m s h = elim (Option-cases s.socket) [
    | inl e ↦
        subst (λ p. IsOwned (put_object xs i p)) (sym (invoke_invalid k m s t e))
          (replaced i s s t h (λ fd. refl) owned.once owned.sane)
    | inr (fd, e) ↦
        let (e', uses) = invoke-Kept k m s t fd e in
        let now : 0 < opened t fd = held_open i s fd h (ground arith) in
        replaced i s (invoke k m s t).0 (invoke k m s t).1 h
          (λ f. omega (arith, ap (λ o. holds o f) (e' ∙ sym e), Uses-opened uses f))
          (λ f. omega (arith, Uses-opened uses f, owned.once f)) (Uses-IsSane uses now owned.sane)
  ]

  close-IsOwned :
      (i : ℕ) (s : UdpSocket)
      → get_elem? xs i ≡ some s
      → IsOwned (put_object xs i (close_socket k s t))
  close-IsOwned i s h = elim (Option-cases s.socket) [
    | inl e ↦
        subst (λ p. IsOwned (put_object xs i p)) (sym (close_socket_invalid k s t e))
          (replaced i s s t h (λ fd. refl) owned.once owned.sane)
    | inr (fd, e) ↦
        let a = k.answer t (Call.close fd) in
        let now : 0 < opened t fd = held_open i s fd h (ground arith) in
        subst (λ p. IsOwned (put_object xs i p)) (sym (close_socket_valid k s t fd e))
          (replaced i s (record s { socket = none }) ((Call.close fd, a) ∷ t) h
            (λ f. close_moves s.socket fd f a t e now) (λ f. closed_once fd f a t (owned.once f))
            (λ f n. closed_named t fd f n now, owned.sane))
  ]

  -- The target closes what it has and takes over the source's descriptor.
  assign-IsOwned :
      (i j : ℕ) (target other : UdpSocket)
      → (i == j) ≡ false
      → get_elem? xs i ≡ some target
      → get_elem? xs j ≡ some other
      → IsOwned (assign_objects xs i j (move_assign k target other t))
  unfolding move_assign
  assign-IsOwned i j target other d hi hj =
      let (closed, u) = close_socket k target t in
      let now : IsOwned (set xs i closed, u) = close-IsOwned i target hi in
      let a : UdpSocket = record { socket = other.socket; last_error = other.last_error } in
      let b : UdpSocket = record other { socket = none } in
      let c : closed.socket ≡ none = close_socket_lem k target t in
      let hj' = get_elem?-set_other xs i j a d ∙ hj in
      record {
        balance = λ fd. omega (
          arith,
          held-set xs i target a fd hi,
          held-set xs i target closed fd hi,
          held-set (set xs i a) j other b fd hj',
          ap (λ o. holds o fd) c,
          now.balance fd,
        );
        once = now.once;
        sane = now.sane;
      }

  move_from-IsOwned :
      (j : ℕ) (s : UdpSocket)
      → get_elem? xs j ≡ some s
      → IsOwned (set xs j (move_construct s).1 ++ (move_construct s).0 ∷ [], t)
  unfolding move_construct
  move_from-IsOwned j s h = record {
    balance = λ fd. omega (
      arith,
      held-set xs j s (record s { socket = none }) fd h,
      held-append (set xs j (record s { socket = none })) s fd,
      owned.balance fd,
    );
    once = owned.once;
    sane = owned.sane;
  }

  construct-IsOwned : IsFresh k → IsOwned (append_object xs (create k t))
  construct-IsOwned fresh =
      let a = k.answer t Call.socket in
      let s = (create k t).0 in
      let e : s.socket ≡ handle_of a.value = (create_lem k t).0 in
      subst (λ u. IsOwned (xs ++ s ∷ [], u)) (sym (create_lem k t).1)
        record {
          balance = λ fd. omega (
            arith,
            held-append xs s fd,
            ap (λ o. holds o fd) e,
            opened-socket a t fd,
            owned.balance fd,
          );
          once = λ fd. opened_once a t fd (owned.once fd) (fresh t fd);
          sane = (λ fd n. cc, owned.sane);
        }

run_op-IsOwned :
    (k : Kernel) (o : Op) (xs : List UdpSocket) (t : Trace)
    → IsFresh k
    → IsOwned (xs, t)
    → IsOwned (run_op k o (xs, t))
unfolding run_op
run_op-IsOwned k Op.construct xs t fresh h = construct-IsOwned k xs t h fresh
run_op-IsOwned k (Op.call i m) xs t fresh h = elim (Option-cases (get_elem? xs i)) [
  | inl e ↦ rw (e, run_op) h
  | inr (s, e) ↦ rw (e, run_op) (call-IsOwned k xs t h i m s e)
]
run_op-IsOwned k (Op.close i) xs t fresh h = elim (Option-cases (get_elem? xs i)) [
  | inl e ↦ rw (e, run_op) h
  | inr (s, e) ↦ rw (e, run_op) (close-IsOwned k xs t h i s e)
]
run_op-IsOwned k (Op.destroy i) xs t fresh h = elim (Option-cases (get_elem? xs i)) [
  | inl e ↦ rw (e, run_op) h
  | inr (s, e) ↦ rw (e, run_op) (close-IsOwned k xs t h i s e)
]
run_op-IsOwned k (Op.move_from j) xs t fresh h = elim (Option-cases (get_elem? xs j)) [
  | inl e ↦ rw (e, run_op) h
  | inr (s, e) ↦ rw (e, run_op) (move_from-IsOwned k xs t h j s e)
]
run_op-IsOwned k (Op.assign i j) xs t fresh h = elim (Bool-cases (i == j)) [
  | inl d ↦ rw (d, run_op) h
  | inr d ↦
      rw (d, run_op)
        (elim (Option-cases (get_elem? xs i)) [
          | inl e ↦ rw (e, run_op) h
          | inr (a, e) ↦
              rw (e, run_op)
                (elim (Option-cases (get_elem? xs j)) [
                  | inl e' ↦ rw (e', run_op) h
                  | inr (b, e') ↦ rw (e', run_op) (assign-IsOwned k xs t h i j a b d e e')
                ])
        ])
]

pub run-IsOwned :
    (k : Kernel) (ops : List Op) (p : Pool) → IsFresh k → IsOwned p → IsOwned (run k ops p)
unfolding run
run-IsOwned k [] p fresh h = h
run-IsOwned k (o ∷ ops) p fresh h =
    run-IsOwned k ops (run_op k o p) fresh (run_op-IsOwned k o p.0 p.1 fresh h)

-- Whatever a program that starts without a socket does with its sockets, with a kernel whose `socket`
-- returns no descriptor that is open: every descriptor that was opened and not closed is that of exactly
-- one object, the descriptor of each object is open, and no system call was made on a descriptor that
-- was closed. So none is closed twice, used after its close or leaked, also not by the moves.
pub run-init-IsOwned : (k : Kernel) (ops : List Op) → IsFresh k → IsOwned (run k ops ([], []))
run-init-IsOwned k ops fresh =
    run-IsOwned k ops ([], []) fresh
      record { balance = λ fd. refl; once = λ fd. omega arith; sane = tt }
