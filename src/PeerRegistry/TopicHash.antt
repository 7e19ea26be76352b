-- ===== src/PeerRegistry/TopicHash.antt =====
-- The topic hash of a PeerRegistry (src/core/peer_registry.cpp) and its cache.
use nexus_d_pub_sub.Prelude.{
  ℕ, Bool, true, false, ◌≡◌, refl, ap, ◌∙◌, Text, List, [], ◌∷◌, ltb, if◌then◌else◌, arith,
}
use mathlib.Core.List.{Permᴰ}
use mathlib.Core.List.Permᴰ.{nil, cons, swap, trans}
use nexus_d_pub_sub.Prelude.Map.{keys}
use nexus_d_pub_sub.Crc64.{compute_all}
use nexus_d_pub_sub.PeerRegistry.{PeerRegistry}

-- `a < b` of two strings: the first byte in which they differ decides, and a proper prefix is less.
unfoldable pub text_lt : Text → Text → Bool
text_lt [] [] = false
text_lt [] (y ∷ ys) = true
text_lt (x ∷ xs) [] = false
text_lt (x ∷ xs) (y ∷ ys) =
    let rest = text_lt xs ys in if ltb x y then true else if ltb y x then false else rest

unfoldable pub insert : Text → List Text → List Text
unfolding text_lt
insert x [] = x ∷ []
insert x (y ∷ ys) = let rest = insert x ys in if text_lt y x then y ∷ rest else x ∷ y ∷ ys

-- `std::sort` of strings, of which the result does not depend on the algorithm.
unfoldable pub sort : List Text → List Text
unfolding insert
sort [] = []
sort (x ∷ xs) = insert x (sort xs)

unfoldable pub compute_local_topic_hash : PeerRegistry → ℕ
unfolding sort
compute_local_topic_hash r = compute_all (sort (keys r.topic_to_subscriptions))

-- A `const` method of the source that fills the cache.
unfoldable pub get_local_topic_hash : PeerRegistry → PeerRegistry × ℕ
unfolding compute_local_topic_hash
get_local_topic_hash r =
    if r.hash_dirty
    then (
      record r { cached_local_hash = compute_local_topic_hash r; hash_dirty = false },
      compute_local_topic_hash r,
    )
    else (r, r.cached_local_hash)

text_lt_asym : (a b : Text) → text_lt a b ≡ true → text_lt b a ≡ false
unfolding text_lt
text_lt_asym [] [] h = refl
text_lt_asym [] (y ∷ ys) h = refl
text_lt_asym (x ∷ xs) [] h = cc
text_lt_asym (x ∷ xs) (y ∷ ys) h = ground (arith, text_lt_asym xs ys)

text_lt_trans : (a b c : Text) → text_lt a b ≡ true → text_lt b c ≡ true → text_lt a c ≡ true
unfolding text_lt
text_lt_trans [] [] c h k = cc
text_lt_trans [] (y ∷ ys) [] h k = cc
text_lt_trans [] (y ∷ ys) (z ∷ zs) h k = refl
text_lt_trans (x ∷ xs) [] c h k = cc
text_lt_trans (x ∷ xs) (y ∷ ys) [] h k = cc
text_lt_trans (x ∷ xs) (y ∷ ys) (z ∷ zs) h k = ground (arith, text_lt_trans xs ys zs)

text_lt_antisym : (a b : Text) → text_lt a b ≡ false → text_lt b a ≡ false → a ≡ b
unfolding text_lt
text_lt_antisym [] [] h k = refl
text_lt_antisym [] (y ∷ ys) h k = cc
text_lt_antisym (x ∷ xs) [] h k = cc
text_lt_antisym (x ∷ xs) (y ∷ ys) h k = ground (arith, text_lt_antisym xs ys)

insert_comm : (x y : Text) (l : List Text) → insert x (insert y l) ≡ insert y (insert x l)
unfolding insert
insert_comm x y [] = ground (arith, text_lt_asym x y, text_lt_antisym x y)
insert_comm x y (z ∷ l) = ground (
  arith,
  insert_comm x y l,
  text_lt_asym x y,
  text_lt_antisym x y,
  text_lt_trans x y z,
  text_lt_trans y x z,
  text_lt_trans z x y,
  text_lt_trans z y x,
  text_lt_antisym z x,
  text_lt_antisym z y,
)

sort-Perm : {a b : List Text} → Permᴰ a b → sort a ≡ sort b
unfolding sort
sort-Perm nil = refl
sort-Perm (cons {a = x} {b = y} {l₁ = a} {l₂ = b} e p) = rw (e, sort-Perm p) refl
sort-Perm (swap {a = x} {b = y} {l = l} e f) = rw (← e, ← f) (insert_comm x y (sort l))
sort-Perm (trans p q) = sort-Perm p ∙ sort-Perm q

-- The topic hash depends on the topics with a local subscription and not on the order in which
-- the map holds them: two nodes with the same topics announce the same hash.
pub compute_local_topic_hash-Perm :
    (r s : PeerRegistry)
    → Permᴰ (keys r.topic_to_subscriptions) (keys s.topic_to_subscriptions)
    → compute_local_topic_hash r ≡ compute_local_topic_hash s
unfolding compute_local_topic_hash
compute_local_topic_hash-Perm r s p = ap compute_all (sort-Perm p)
