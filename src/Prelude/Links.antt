-- ===== src/Prelude/Links.antt =====
-- `std::unordered_set<std::string>` as a list without repetitions, and
-- `std::unordered_map<std::string, std::unordered_set<std::string>>` as a relation between topics
-- and ids.
pub mod Once
use mathlib.Core.Bool.{Bool, true, false, not, ◌&&◌, ◌||◌}
use mathlib.Core.List.{List, [], ◌∷◌, ◌++◌}
use mathlib.Core.Logic.{◌≢◌, ite, ◌⊎◌, inl, inr}
use mathlib.Core.Option.{Option, none, some}
use mathlib.Core.Path.{◌≡◌, refl}
use native.Mathlib.Omega.{arith}
use nexus_d_pub_sub.Prelude.Tests.{if◌then◌else◌, Option-cases}
use nexus_d_pub_sub.Prelude.Bytes.{Text, text_eq}
use nexus_d_pub_sub.Prelude.Map.{Map, find, assign, erase, find-assign, find-erase}

-- `==` of two strings, as a Boolean.
unfoldable pub same : Text → Text → Bool
same a b = elim (text_eq a b) [ yes p ↦ true | no p ↦ false ]

pub same_refl : (a : Text) → same a a ≡ true
unfolding same
same_refl a = ground arith

unfoldable pub member : Text → List Text → Bool
member x [] = false
member x (y ∷ ys) = same y x || member x ys

-- `s.insert(x)`
unfoldable pub set_insert : Text → List Text → List Text
set_insert x s = if member x s then s else s ++ x ∷ []

-- `s.erase(x)`
unfoldable pub set_erase : Text → List Text → List Text
set_erase x [] = []
set_erase x (y ∷ ys) = if same y x then set_erase x ys else y ∷ set_erase x ys

pub member-append_one :
    (x y : Text) (s : List Text) → member x (s ++ y ∷ []) ≡ (same y x || member x s)
unfolding member
member-append_one x y [] = refl
member-append_one x y (z ∷ s) = ground (arith, member-append_one x y s)

pub member-set_insert :
    (x y : Text) (s : List Text) → member x (set_insert y s) ≡ (same y x || member x s)
unfolding set_insert same
member-set_insert x y s = ground (arith, member-append_one x y s)

pub member-set_erase :
    (x y : Text) (s : List Text) → member x (set_erase y s) ≡ (not (same y x) && member x s)
unfolding set_erase member same
member-set_erase x y [] = ground arith
member-set_erase x y (z ∷ s) = ground (arith, member-set_erase x y s)

abbrev pub Links : Type 0
Links = Map (List Text)

abbrev pub ids_of : Option (List Text) → List Text
ids_of none = []
ids_of (some s) = s

-- `m[topic].insert(id)`
unfoldable pub link : Text → Text → Links → Links
link topic id m = assign topic (set_insert id (ids_of (find topic m))) m

-- The body of the loop of `removeLocalSubscription`: the id goes, and the set if it is empty then.
unfoldable pub unlink : Text → Text → Links → Links
unlink topic id m = elim (find topic m) [
  | none ↦ m
  | some s ↦ elim (set_erase id s) [ [] ↦ erase topic m | x ∷ xs ↦ assign topic (set_erase id s) m ]
]

unfoldable pub link_all : List Text → Text → Links → Links
link_all [] id m = m
link_all (t ∷ ts) id m = link_all ts id (link t id m)

unfoldable pub unlink_all : List Text → Text → Links → Links
unlink_all [] id m = m
unlink_all (t ∷ ts) id m = unlink_all ts id (unlink t id m)

unfoldable pub linked : Text → Text → Links → Bool
linked topic id m = member id (ids_of (find topic m))

pub linked-link :
    (t id topic i : Text) (m : Links)
    → linked t id (link topic i m) ≡ ((same topic t && same i id) || linked t id m)
unfolding linked link same
linked-link t id topic i m = ground (
  arith,
  find-assign t topic (set_insert i (ids_of (find topic m))) m,
  member-set_insert id i (ids_of (find topic m)),
)

unlink_missing : (topic i : Text) (m : Links) → find topic m ≡ none → unlink topic i m ≡ m
unfolding unlink
unlink_missing topic i m e = ground arith

unlink_last :
    (topic i : Text) (m : Links) (s : List Text)
    → find topic m ≡ some s
    → set_erase i s ≡ []
    → unlink topic i m ≡ erase topic m
unfolding unlink
unlink_last topic i m s e f = ground arith

unlink_more :
    (topic i : Text) (m : Links) (s : List Text) (x : Text) (xs : List Text)
    → find topic m ≡ some s
    → set_erase i s ≡ x ∷ xs
    → unlink topic i m ≡ assign topic (set_erase i s) m
unfolding unlink
unlink_more topic i m s x xs e f = ground arith

List-cases : (l : List Text) → (l ≡ []) ⊎ ((x : Text) × (xs : List Text) × (l ≡ x ∷ xs))
List-cases [] = inl refl
List-cases (x ∷ xs) = inr (x, xs, refl)

-- The three ways of `unlink`, with what they leave at each topic.
abbrev pub Unlinked : Text → Text → Links → Links → Type 0
Unlinked topic i m r =
    (t : Text)
    → ids_of (find t r)
      ≡ ite (text_eq topic t) (set_erase i (ids_of (find t m))) (ids_of (find t m))

pub unlink-Unlinked : (topic i : Text) (m : Links) → Unlinked topic i m (unlink topic i m)
unlink-Unlinked topic i m t = elim (Option-cases (find topic m)) [
  | inl e ↦ rw (unlink_missing topic i m e) (unfold set_erase in ground arith)
  | inr (s, e) ↦ elim (List-cases (set_erase i s)) [
    | inl f ↦ rw (unlink_last topic i m s e f) (ground (arith, find-erase t topic m))
    | inr (x, xs, f) ↦
        rw (unlink_more topic i m s x xs e f)
          (ground (arith, find-assign t topic (set_erase i s) m))
  ]
]

pub linked-unlink :
    (t id topic i : Text) (m : Links)
    → linked t id (unlink topic i m) ≡ (not (same topic t && same i id) && linked t id m)
unfolding linked same
linked-unlink t id topic i m =
    ground (arith, unlink-Unlinked topic i m t, member-set_erase id i (ids_of (find t m)))

pub linked-link_all :
    (t id i : Text) (ts : List Text) (m : Links)
    → linked t id (link_all ts i m) ≡ ((member t ts && same i id) || linked t id m)
unfolding link_all member
linked-link_all t id i [] m = refl
linked-link_all t id i (u ∷ ts) m =
    ground (arith, linked-link_all t id i ts (link u i m), linked-link t id u i m)

pub linked-unlink_all :
    (t id i : Text) (ts : List Text) (m : Links)
    → linked t id (unlink_all ts i m) ≡ (not (member t ts && same i id) && linked t id m)
unfolding unlink_all member
linked-unlink_all t id i [] m = refl
linked-unlink_all t id i (u ∷ ts) m =
    ground (arith, linked-unlink_all t id i ts (unlink u i m), linked-unlink t id u i m)

-- No topic has an empty set of ids.
abbrev pub NoneEmpty : Links → Type 0
NoneEmpty m = (t : Text) (s : List Text) → find t m ≡ some s → s ≢ []

set_insert-ne-nil : (x : Text) (s : List Text) → set_insert x s ≢ []
unfolding set_insert member
set_insert-ne-nil x [] e = cc
set_insert-ne-nil x (y ∷ s) e = ground arith

pub link-NoneEmpty : (topic i : Text) (m : Links) → NoneEmpty m → NoneEmpty (link topic i m)
unfolding link
link-NoneEmpty topic i m n t s e = elim (text_eq topic t) [
  | yes p ↦
      let here : set_insert i (ids_of (find topic m)) ≡ s =
        ground (arith, e, find-assign t topic (set_insert i (ids_of (find topic m))) m) in
      rw (← here) (set_insert-ne-nil i (ids_of (find topic m)))
  | no p ↦ n t s (ground (arith, e, find-assign t topic (set_insert i (ids_of (find topic m))) m))
]

pub unlink-NoneEmpty : (topic i : Text) (m : Links) → NoneEmpty m → NoneEmpty (unlink topic i m)
unlink-NoneEmpty topic i m n t s e = elim (Option-cases (find topic m)) [
  | inl f ↦ n t s (rw (unlink_missing topic i m f) at e)
  | inr (u, f) ↦ elim (List-cases (set_erase i u)) [
    | inl g ↦
        let h : find t (erase topic m) ≡ some s = rw (unlink_last topic i m u f g) at e in
        n t s (ground (arith, h, find-erase t topic m))
    | inr (x, xs, g) ↦
        let h : find t (assign topic (set_erase i u) m) ≡ some s =
          rw (unlink_more topic i m u x xs f g) at e in
        elim (text_eq topic t) [
          | yes p ↦
              λ none_left. ground (arith, h, g, none_left, find-assign t topic (set_erase i u) m)
          | no p ↦ n t s (ground (arith, h, find-assign t topic (set_erase i u) m))
        ]
  ]
]

pub link_all-NoneEmpty :
    (ts : List Text) (i : Text) (m : Links) → NoneEmpty m → NoneEmpty (link_all ts i m)
unfolding link_all
link_all-NoneEmpty [] i m n = n
link_all-NoneEmpty (t ∷ ts) i m n = link_all-NoneEmpty ts i (link t i m) (link-NoneEmpty t i m n)

pub unlink_all-NoneEmpty :
    (ts : List Text) (i : Text) (m : Links) → NoneEmpty m → NoneEmpty (unlink_all ts i m)
unfolding unlink_all
unlink_all-NoneEmpty [] i m n = n
unlink_all-NoneEmpty (t ∷ ts) i m n =
    unlink_all-NoneEmpty ts i (unlink t i m) (unlink-NoneEmpty t i m n)
