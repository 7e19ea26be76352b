-- ===== src/UdpSocket/Uses.antt =====
-- The system calls of src/net/udp_socket.cpp read as a history of descriptors, and those that a
-- method makes.
use nexus_d_pub_sub.UdpSocket.{Call, Answer, Trace, handle_of}
use nexus_d_pub_sub.Prelude.{
  ℕ, ◌+◌, ◌-◌, ◌<◌, ◌≡◌, refl, ◌∙◌, [], ◌∷◌, Option, none, some, ◌==◌, if◌then◌else◌, arith,
}

-- How often a descriptor has been opened and not closed.
abbrev pub opened : Trace → ℕ → ℕ
opened [] fd = 0
opened ((Call.socket, a) ∷ t) fd = elim (handle_of a.value) [
  | none ↦ opened t fd
  | some f ↦ if f == fd then opened t fd + 1 else opened t fd
]
opened ((Call.close f, a) ∷ t) fd = if f == fd then opened t fd - 1 else opened t fd
opened ((Call.bind f x y, a) ∷ t) fd = opened t fd
opened ((Call.getsockname f, a) ∷ t) fd = opened t fd
opened ((Call.setsockopt f o, a) ∷ t) fd = opened t fd
opened ((Call.sendto f x y z, a) ∷ t) fd = opened t fd
opened ((Call.select f x, a) ∷ t) fd = opened t fd
opened ((Call.recvfrom f x, a) ∷ t) fd = opened t fd

-- The descriptor that a call is made on.
abbrev pub names : Call → Option ℕ
names Call.socket = none
names (Call.close f) = some f
names (Call.bind f x y) = some f
names (Call.getsockname f) = some f
names (Call.setsockopt f o) = some f
names (Call.sendto f x y z) = some f
names (Call.select f x) = some f
names (Call.recvfrom f x) = some f

-- Every call was made on a descriptor that was open then.
abbrev pub IsSane : Trace → Type 0
IsSane [] = Unit
IsSane ((c, a) ∷ t) = ((fd : ℕ) → names c ≡ some fd → 0 < opened t fd) × IsSane t

-- A call on a descriptor that neither opens nor closes one.
abbrev pub IsUse : ℕ → Call → Type 0
IsUse fd Call.socket = ⊥
IsUse fd (Call.close f) = ⊥
IsUse fd (Call.bind f x y) = f ≡ fd
IsUse fd (Call.getsockname f) = f ≡ fd
IsUse fd (Call.setsockopt f o) = f ≡ fd
IsUse fd (Call.sendto f x y z) = f ≡ fd
IsUse fd (Call.select f x) = f ≡ fd
IsUse fd (Call.recvfrom f x) = f ≡ fd

-- The calls of a method on its descriptor, behind those made before.
pub data Uses (fd : ℕ) (t : Trace) : Trace → Type 0 where
  same : Uses fd t t
  use_of :
      {u : Trace} → Uses fd t u → (c : Call) → IsUse fd c → (a : Answer) → Uses fd t ((c, a) ∷ u)

opened-IsUse :
    (fd : ℕ) (c : Call) (a : Answer) (t : Trace) (f : ℕ)
    → IsUse fd c
    → opened ((c, a) ∷ t) f ≡ opened t f
opened-IsUse fd Call.socket a t f h = absurd h
opened-IsUse fd (Call.close g) a t f h = absurd h
opened-IsUse fd (Call.bind g x y) a t f h = refl
opened-IsUse fd _ a t f h = refl

names-IsUse : (fd : ℕ) (c : Call) (f : ℕ) → IsUse fd c → names c ≡ some f → f ≡ fd
names-IsUse fd Call.socket f h e = absurd h
names-IsUse fd (Call.close g) f h e = absurd h
names-IsUse fd (Call.bind g x y) f h e = cc
names-IsUse fd _ f h e = cc

pub Uses-opened : {fd : ℕ} {t u : Trace} → Uses fd t u → (f : ℕ) → opened u f ≡ opened t f
Uses-opened same f = refl
Uses-opened {fd} (use_of {u} h c i a) f = opened-IsUse fd c a u f i ∙ Uses-opened h f

pub Uses-IsSane : {fd : ℕ} {t u : Trace} → Uses fd t u → 0 < opened t fd → IsSane t → IsSane u
Uses-IsSane same now s = s
Uses-IsSane {fd} (use_of {u} h c i a) now s =
    (λ f e. rw (names-IsUse fd c f i e) (omega (arith, Uses-opened h fd)), Uses-IsSane h now s)
