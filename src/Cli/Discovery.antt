-- ===== src/Cli/Discovery.antt =====
-- tools/cli/src/discovery.cpp: the instances that answer a discovery request. The socket is outside:
-- a round of the loop is given the time that it reads and the datagram that `recvfrom` returns, if
-- any.
pub mod Listing
use nexus_d_pub_sub.Prelude.{
  ℕ, ◌+◌, ◌-◌, ◌*◌, ◌^◌, Bool, true, false, ◌&&◌, ◌||◌, List, [], ◌∷◌, ◌++◌, Option, none, some,
  Text, codes, length, get_elem?, ltb, leb, ◌==◌, if◌then◌else◌, to_string,
}
use nexus_d_pub_sub.Prelude.Int.{ℤ, pos, negsuc}
use nexus_d_pub_sub.Prelude.Links.{same}
use nexus_d_pub_sub.Prelude.Numbers.{Result, ok, ◌>>=◌, stoi, stoll}
use nexus_d_pub_sub.PeerRegistry.TopicHash.{text_lt}

pub record DiscoveredInstance : Type 0 where
  pub host : Text
  pub port : ℕ
  pub instance_id : Text
  pub version : Text
  pub status : Text
  pub uptime_seconds : ℤ
  pub topic_count : ℤ
  pub subscriber_count : ℤ
  pub peer_count : ℤ

unfoldable pub address : DiscoveredInstance → Text
unfolding to_string
address i = i.host ++ (b':' ∷ to_string i.port)

-- The eight bytes of `send_discovery_request`.
abbrev pub request : Text
request = codes "NXDS" ++ (1 ∷ 1 ∷ 0 ∷ 0 ∷ [])

-- `pair.find('=')`, and the two parts.
unfoldable pub split_pair : Text → Option (Text × Text)
split_pair [] = none
split_pair (c ∷ s) =
    let rest = split_pair s in
    if c == b'='
    then some ([], s)
    else elim rest [ none ↦ none | some (key, value) ↦ some (c ∷ key, value) ]

-- The chain of tests of the key.
unfoldable pub set_field : Text → Text → DiscoveredInstance → Result DiscoveredInstance
unfolding same stoi stoll
set_field key value i =
    if same key (codes "id")
    then ok (record i { instance_id = value })
    else if same key (codes "version")
    then ok (record i { version = value })
    else if same key (codes "status")
    then ok (record i { status = value })
    else if same key (codes "uptime")
    then stoll value >>= (λ n. ok (record i { uptime_seconds = n }))
    else if same key (codes "topics")
    then stoi value >>= (λ n. ok (record i { topic_count = n }))
    else if same key (codes "subs")
    then stoi value >>= (λ n. ok (record i { subscriber_count = n }))
    else if same key (codes "peers")
    then stoi value >>= (λ n. ok (record i { peer_count = n }))
    else ok i

-- A pair between semicolons; one without '=' is passed over.
unfoldable pub set_pair : Text → DiscoveredInstance → Result DiscoveredInstance
unfolding split_pair set_field
set_pair pair i = elim (split_pair pair) [ none ↦ ok i | some (key, value) ↦ set_field key value i ]

-- The loop over `std::getline(stream, pair, ';')`, with what is read of the current pair. After the
-- last semicolon there may be nothing left, and then there is no pair.
unfoldable pub set_pairs : Text → Text → DiscoveredInstance → Result DiscoveredInstance
unfolding set_pair
set_pairs [] pair i = set_pair pair i
set_pairs (c ∷ s) pair i = elim (c == b';') [
  | true ↦ set_pair pair i >>= (λ j. set_pairs s [] j)
  | false ↦ set_pairs s (pair ++ c ∷ []) i
]

-- `receive_response` of the bytes, with `i` for the fields that the source leaves uninitialised.
unfoldable pub parse_bytes : Text → Text → DiscoveredInstance → Result (Option DiscoveredInstance)
unfolding set_pairs
parse_bytes host (m0 ∷ m1 ∷ m2 ∷ m3 ∷ version ∷ kind ∷ p1 ∷ p0 ∷ d0 ∷ d1 ∷ rest) i =
    if m0 == b'N' && (m1 == b'X' && (m2 == b'D' && (m3 == b'S' && kind == 2)))
    then set_pairs (d0 ∷ d1 ∷ rest) [] (record i { host = host; port = p1 * 256 + p0 })
      >>= (λ j. ok (some j))
    else ok none
parse_bytes host _ i = ok none

-- A round of the loop in `discover`.
pub record Round : Type 0 where
  pub now : ℕ
  pub datagram : Option (Text × Text)
  pub uninitialised : DiscoveredInstance

unfoldable pub receive_response : Round → Result (Option DiscoveredInstance)
unfolding parse_bytes
receive_response r = elim (r.datagram) [
  | none ↦ ok none
  | some (host, bytes) ↦ parse_bytes host bytes r.uninitialised
]

unfoldable pub is_duplicate : DiscoveredInstance → List DiscoveredInstance → Bool
unfolding same
is_duplicate i [] = false
is_duplicate i (j ∷ found) = same j.host i.host && j.port == i.port || is_duplicate i found

-- "Check for duplicates" and the `push_back`.
unfoldable pub add_instance :
    Option DiscoveredInstance → List DiscoveredInstance → List DiscoveredInstance
unfolding is_duplicate
add_instance none found = found
add_instance (some i) found = if is_duplicate i found then found else found ++ i ∷ []

-- The loop, until the deadline or the limit. `none` means that it goes on after these rounds.
unfoldable pub collect :
    ℕ → ℕ → List Round → List DiscoveredInstance → Result (Option (List DiscoveredInstance))
unfolding receive_response add_instance
collect limit deadline [] found = ok none
collect limit deadline (r ∷ rounds) found =
    if leb limit (length found)
    then ok (some found)
    else if leb deadline r.now
    then ok (some found)
    else receive_response r >>= (λ o. collect limit deadline rounds (add_instance o found))

-- The order of the sort: by host, then by port.
unfoldable pub before : DiscoveredInstance → DiscoveredInstance → Bool
unfolding same text_lt
before a b = if same a.host b.host then ltb a.port b.port else text_lt a.host b.host

unfoldable pub insert : DiscoveredInstance → List DiscoveredInstance → List DiscoveredInstance
unfolding before
insert i [] = i ∷ []
insert i (j ∷ rest) = let later = insert i rest in if before j i then j ∷ later else i ∷ j ∷ rest

unfoldable pub sort : List DiscoveredInstance → List DiscoveredInstance
unfolding insert
sort [] = []
sort (i ∷ rest) = insert i (sort rest)

-- `static_cast<size_t>(max_instances)` of an `int`.
unfoldable pub to_size : ℤ → ℕ
to_size (pos n) = n
to_size (negsuc n) = 2 ^ 64 - 1 - n

-- `discover` behind `init_socket`: the new cache, which it returns too.
unfoldable pub discover : ℤ → ℕ → List Round → Result (Option (List DiscoveredInstance))
unfolding collect sort to_size
discover max_instances deadline rounds =
    collect (to_size max_instances) deadline rounds []
    >>= (λ o. ok (elim o [ none ↦ none | some found ↦ some (sort found) ]))

-- `get_by_index`; the index counts from 1.
unfoldable pub get_by_index : ℤ → List DiscoveredInstance → Option DiscoveredInstance
get_by_index (negsuc n) cached = none
get_by_index (pos n) cached = if n == 0 then none else get_elem? cached (n - 1)

unfoldable pub get_by_port : ℕ → List DiscoveredInstance → Option DiscoveredInstance
get_by_port port [] = none
get_by_port port (i ∷ cached) = if i.port == port then some i else get_by_port port cached
