-- ===== src/UdpSocket/Held.antt =====
-- How many objects of class UdpSocket (src/net/udp_socket.cpp) have a descriptor, and what `close` and
-- the constructor do to that.
use nexus_d_pub_sub.UdpSocket.{
  Call, Answer, Trace, Kernel, UdpSocket, handle_of, after, create, close_socket,
}
use nexus_d_pub_sub.UdpSocket.Uses.{opened, names}
use nexus_d_pub_sub.Prelude.{
  ℕ, zero, suc, ◌+◌, ◌≤◌, ◌<◌, ◌≡◌, refl, sym, ap, subst, ◌∙◌, false, List, [], ◌∷◌, ◌++◌, Option,
  none, some, Option-cases, inl, inr, ◌==◌, if◌then◌else◌, arith, get_elem?, set,
}

-- 1 if the object has the descriptor.
abbrev pub holds : Option ℕ → ℕ → ℕ
holds none fd = 0
holds (some f) fd = if f == fd then 1 else 0

-- How many objects have the descriptor.
abbrev pub held : List UdpSocket → ℕ → ℕ
held [] fd = 0
held (s ∷ xs) fd = holds s.socket fd + held xs fd

pub held-set :
    (xs : List UdpSocket) (i : ℕ) (s s' : UdpSocket) (fd : ℕ)
    → get_elem? xs i ≡ some s
    → held (set xs i s') fd + holds s.socket fd ≡ held xs fd + holds s'.socket fd
held-set [] i s s' fd h = cc
held-set (x ∷ xs) zero s s' fd h = ground arith
held-set (x ∷ xs) (suc i) s s' fd h = omega (arith, held-set xs i s s' fd h)

pub held-append :
    (xs : List UdpSocket) (s : UdpSocket) (fd : ℕ)
    → held (xs ++ s ∷ []) fd ≡ held xs fd + holds s.socket fd
held-append [] s fd = omega arith
held-append (x ∷ xs) s fd = omega (arith, held-append xs s fd)

pub close_socket_invalid :
    (k : Kernel) (s : UdpSocket) (t : Trace) → s.socket ≡ none → close_socket k s t ≡ (s, t)
unfolding close_socket
close_socket_invalid k s t e =
    subst (λ o. close_socket k (record s { socket = o }) t ≡ (record s { socket = o }, t)) (sym e)
      refl

pub close_socket_valid :
    (k : Kernel) (s : UdpSocket) (t : Trace) (fd : ℕ)
    → s.socket ≡ some fd
    → close_socket k s t
      ≡ (record s { socket = none }, (Call.close fd, k.answer t (Call.close fd)) ∷ t)
unfolding close_socket after
close_socket_valid k s t fd e =
    subst
      (λ o.
        close_socket k (record s { socket = o }) t
        ≡ (record s { socket = none }, (Call.close fd, k.answer t (Call.close fd)) ∷ t))
      (sym e) refl

pub close_moves :
    (o : Option ℕ) (fd f : ℕ) (a : Answer) (t : Trace)
    → o ≡ some fd
    → 0 < opened t fd
    → holds none f + opened t f ≡ holds o f + opened ((Call.close fd, a) ∷ t) f
close_moves o fd f a t e now = rw e (ground arith)

pub closed_once :
    (fd f : ℕ) (a : Answer) (t : Trace) → opened t f ≤ 1 → opened ((Call.close fd, a) ∷ t) f ≤ 1
closed_once fd f a t h = ground arith

pub closed_named :
    (t : Trace) (fd f : ℕ) → names (Call.close fd) ≡ some f → 0 < opened t fd → 0 < opened t f
closed_named t fd f n now = ground arith

pub close_socket_lem :
    (k : Kernel) (s : UdpSocket) (t : Trace) → (close_socket k s t).0.socket ≡ none
close_socket_lem k s t = elim (Option-cases s.socket) [
  | inl e ↦ ap (λ p. p.0.socket) (close_socket_invalid k s t e) ∙ e
  | inr (fd, e) ↦ ap (λ p. p.0.socket) (close_socket_valid k s t fd e)
]

pub get_elem?-set_other :
    (xs : List UdpSocket) (i j : ℕ) (s : UdpSocket)
    → (i == j) ≡ false
    → get_elem? (set xs i s) j ≡ get_elem? xs j
get_elem?-set_other [] i j s d = refl
get_elem?-set_other (x ∷ xs) zero zero s d = cc
get_elem?-set_other (x ∷ xs) zero (suc j) s d = refl
get_elem?-set_other (x ∷ xs) (suc i) zero s d = refl
get_elem?-set_other (x ∷ xs) (suc i) (suc j) s d = get_elem?-set_other xs i j s (ground arith)

pub create_lem :
    (k : Kernel) (t : Trace)
    → ((create k t).0.socket ≡ handle_of (k.answer t Call.socket).value)
      × ((create k t).1 ≡ (Call.socket, k.answer t Call.socket) ∷ t)
unfolding create after
create_lem k t = elim (Option-cases (handle_of (k.answer t Call.socket).value)) [
  | inl e ↦ (ground arith, ground arith)
  | inr (f, e) ↦ (ground arith, ground arith)
]

pub opened-socket :
    (a : Answer) (t : Trace) (fd : ℕ)
    → opened ((Call.socket, a) ∷ t) fd ≡ opened t fd + holds (handle_of a.value) fd
opened-socket a t fd = ground arith

pub opened_once :
    (a : Answer) (t : Trace) (fd : ℕ)
    → opened t fd ≤ 1
    → (handle_of a.value ≡ some fd → opened t fd ≡ 0)
    → opened ((Call.socket, a) ∷ t) fd ≤ 1
opened_once a t fd h fresh = ground arith
