-- ===== src/Cli/Discovery/Listing.antt =====
-- What `discover` of tools/cli/src/discovery.cpp returns.
use nexus_d_pub_sub.Prelude.{
  ℕ, ◌+◌, ◌≤◌, ◌≡◌, refl, ◌∙◌, Bool, true, false, ◌&&◌, List, [], ◌∷◌, ◌++◌, Option, none, some,
  Text, length, length-append, leb, ◌==◌, arith, inl, inr, Bool-cases, subst,
}
use nexus_d_pub_sub.Prelude.Int.{ℤ}
use nexus_d_pub_sub.Prelude.Links.{same}
use nexus_d_pub_sub.Prelude.Numbers.{Result, ok, throw, ◌>>=◌}
use nexus_d_pub_sub.PeerRegistry.TopicHash.{text_lt}
use nexus_d_pub_sub.Cli.Discovery.{
  DiscoveredInstance, Round, receive_response, is_duplicate, add_instance, collect, before, insert,
  sort, to_size, discover,
}

-- Neither comes before the other only if they are equal.
text_lt_total : (a b : Text) → text_lt a b ≡ false → text_lt b a ≡ false → a ≡ b
unfolding text_lt
text_lt_total [] [] h k = refl
text_lt_total [] (y ∷ ys) h k = cc
text_lt_total (x ∷ xs) [] h k = cc
text_lt_total (x ∷ xs) (y ∷ ys) h k = ground (arith, text_lt_total xs ys)

-- One host and port.
abbrev same_address : DiscoveredInstance → DiscoveredInstance → Bool
same_address j i = same j.host i.host && j.port == i.port

before_total :
    (i j : DiscoveredInstance) → same_address j i ≡ false → before j i ≡ false → before i j ≡ true
unfolding before same
before_total i j h k = ground (arith, text_lt_total i.host j.host)

-- Each comes before the next.
abbrev pub Below : DiscoveredInstance → List DiscoveredInstance → Type 0
Below i [] = Unit
Below i (j ∷ rest) = before i j ≡ true

abbrev pub IsAscending : List DiscoveredInstance → Type 0
IsAscending [] = Unit
IsAscending (i ∷ rest) = Below i rest × IsAscending rest

Below-insert :
    (k i : DiscoveredInstance) (xs : List DiscoveredInstance)
    → before k i ≡ true
    → Below k xs
    → Below k (insert i xs)
unfolding insert
Below-insert k i [] h b = h
Below-insert k i (j ∷ rest) h b = elim (Bool-cases (before j i)) [
  | inl e ↦ rw (e, insert) b
  | inr e ↦ rw (e, insert) h
]

insert-IsAscending :
    (i : DiscoveredInstance) (xs : List DiscoveredInstance)
    → is_duplicate i xs ≡ false
    → IsAscending xs
    → IsAscending (insert i xs)
unfolding insert is_duplicate
insert-IsAscending i [] d a = (tt, tt)
insert-IsAscending i (j ∷ rest) d a = elim (Bool-cases (before j i)) [
  | inl e ↦
      rw (e, insert) (Below-insert j i rest e a.0, insert-IsAscending i rest (ground arith) a.1)
  | inr e ↦ rw (e, insert) (before_total i j (ground arith) e, a)
]

is_duplicate-insert :
    (i k : DiscoveredInstance) (xs : List DiscoveredInstance)
    → is_duplicate i (insert k xs) ≡ is_duplicate i (k ∷ xs)
unfolding insert is_duplicate
is_duplicate-insert i k [] = refl
is_duplicate-insert i k (j ∷ rest) = ground (arith, is_duplicate-insert i k rest)

is_duplicate-sort :
    (i : DiscoveredInstance) (xs : List DiscoveredInstance)
    → is_duplicate i (sort xs) ≡ is_duplicate i xs
unfolding sort is_duplicate
is_duplicate-sort i [] = refl
is_duplicate-sort i (j ∷ rest) =
    ground (arith, is_duplicate-insert i j (sort rest), is_duplicate-sort i rest)

length-insert :
    (i : DiscoveredInstance) (xs : List DiscoveredInstance) → length (insert i xs) ≡ length xs + 1
unfolding insert
length-insert i [] = omega arith
length-insert i (j ∷ rest) = ground (arith, length-insert i rest)

length-sort : (xs : List DiscoveredInstance) → length (sort xs) ≡ length xs
unfolding sort
length-sort [] = refl
length-sort (i ∷ rest) = omega (arith, length-insert i (sort rest), length-sort rest)

-- No two have one address.
abbrev IsApart : List DiscoveredInstance → Type 0
IsApart [] = Unit
IsApart (i ∷ rest) = (is_duplicate i rest ≡ false) × IsApart rest

sort-IsAscending : (xs : List DiscoveredInstance) → IsApart xs → IsAscending (sort xs)
unfolding sort
sort-IsAscending [] h = tt
sort-IsAscending (i ∷ rest) h =
    insert-IsAscending i (sort rest) (is_duplicate-sort i rest ∙ h.0) (sort-IsAscending rest h.1)

is_duplicate-append :
    (i j : DiscoveredInstance) (xs : List DiscoveredInstance)
    → is_duplicate i xs ≡ false
    → same_address j i ≡ false
    → is_duplicate i (xs ++ j ∷ []) ≡ false
unfolding is_duplicate
is_duplicate-append i j [] h k = ground arith
is_duplicate-append i j (x ∷ xs) h k = ground (arith, is_duplicate-append i j xs)

same_address_sym : (i j : DiscoveredInstance) → same_address j i ≡ false → same_address i j ≡ false
unfolding same
same_address_sym i j h = ground arith

append-IsApart :
    (i : DiscoveredInstance) (xs : List DiscoveredInstance)
    → IsApart xs
    → is_duplicate i xs ≡ false
    → IsApart (xs ++ i ∷ [])
unfolding is_duplicate
append-IsApart i [] a d = (refl, tt)
append-IsApart i (j ∷ xs) a d = (
  is_duplicate-append j i xs a.0 (same_address_sym i j (ground arith)),
  append-IsApart i xs a.1 (ground arith),
)

add_instance-IsApart :
    (o : Option DiscoveredInstance) (xs : List DiscoveredInstance)
    → IsApart xs
    → IsApart (add_instance o xs) × (length (add_instance o xs) ≤ length xs + 1)
unfolding add_instance
add_instance-IsApart none xs a = (a, omega arith)
add_instance-IsApart (some i) xs a = elim (Bool-cases (is_duplicate i xs)) [
  | inl e ↦ rw (e, add_instance) (a, omega arith)
  | inr e ↦ rw (e, add_instance) (append-IsApart i xs a e, omega (arith, length-append xs (i ∷ [])))
]

-- What holds of the instances when the loop ends.
abbrev Collected : ℕ → List DiscoveredInstance → Type 0
Collected limit xs = IsApart xs × (length xs ≤ limit)

abbrev Ends : ℕ → Result (Option (List DiscoveredInstance)) → Type 0
Ends limit (ok (some xs)) = Collected limit xs
Ends limit (ok none) = Unit
Ends limit (throw e) = Unit

bind-Ends :
    (limit : ℕ) (m : Result (Option DiscoveredInstance))
    (next : Option DiscoveredInstance → Result (Option (List DiscoveredInstance)))
    → ((o : Option DiscoveredInstance) → Ends limit (next o))
    → Ends limit (m >>= next)
bind-Ends limit (ok o) next h = h o
bind-Ends limit (throw e) next h = tt

collect-Ends :
    (limit deadline : ℕ) (rounds : List Round) (found : List DiscoveredInstance)
    → Collected limit found
    → Ends limit (collect limit deadline rounds found)
unfolding collect
collect-Ends limit deadline [] found h = tt
collect-Ends limit deadline (r ∷ rounds) found h = elim (Bool-cases (leb limit (length found))) [
  | inl e ↦ rw (e, collect) h
  | inr e ↦
      rw (e, collect)
        (elim (Bool-cases (leb deadline r.now)) [
          | inl e' ↦ rw (e', collect) h
          | inr e' ↦
              rw (e', collect)
                (bind-Ends limit (receive_response r)
                  (λ o. collect limit deadline rounds (add_instance o found))
                  (λ o. collect-Ends limit deadline rounds (add_instance o found) (
                    (add_instance-IsApart o found h.0).0,
                    more o (add_instance-IsApart o found h.0).1 e,
                  )))
        ])
]
  where
    more :
        (o : Option DiscoveredInstance)
        → length (add_instance o found) ≤ length found + 1
        → leb limit (length found) ≡ false
        → length (add_instance o found) ≤ limit
    more o h e = ground arith

sorted_result :
    (limit : ℕ) (r : Result (Option (List DiscoveredInstance))) (xs : List DiscoveredInstance)
    → Ends limit r
    → (r >>= (λ o. ok (elim o [ none ↦ none | some found ↦ some (sort found) ]))) ≡ ok (some xs)
    → IsAscending xs × (length xs ≤ limit)
sorted_result limit (throw e) xs h eq = cc
sorted_result limit (ok none) xs h eq = cc
sorted_result limit (ok (some found)) xs h eq =
    let same_list : sort found ≡ xs = cc in
    subst (λ l. IsAscending l × (length l ≤ limit)) same_list
      (sort-IsAscending found h.0, omega (arith, length-sort found))

-- When `discover` returns a list, each instance of it comes before the next by host and, on one host, by
-- port (the comment in the source says that it sorts by port alone),
-- however often and in whatever order they answered, and there are at most `max_instances` of them,
-- read as a `size_t`.
pub discover-IsAscending :
    (max_instances : ℤ) (deadline : ℕ) (rounds : List Round) (xs : List DiscoveredInstance)
    → discover max_instances deadline rounds ≡ ok (some xs)
    → IsAscending xs × (length xs ≤ to_size max_instances)
unfolding discover
discover-IsAscending m deadline rounds xs h =
    sorted_result (to_size m) (collect (to_size m) deadline rounds []) xs
      (collect-Ends (to_size m) deadline rounds [] (tt, omega arith)) h
