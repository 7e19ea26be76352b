-- ===== src/Lib.antt =====
-- A verification library for the NexusD publish/subscribe daemon.
--
-- Applications publish and subscribe through the sidecar service of their node. The node finds its
-- peers by multicast beacons, pulls their subscriptions and pushes each message to the peers that
-- have a subscriber. A topic's latest messages are kept in a ring, so that a client which paused its
-- subscription gets on resuming what it missed, and each subscriber has a bounded queue with a
-- policy for slow consumers. The daemon is configured by its command line. A command line tool finds
-- daemons by the beacons they answer and calls their sidecar services.
--
-- The files:
--   Prelude and its children: strings as lists of bytes, `std::unordered_map` as the list of its
--     entries in iteration order (Map), the topic index and the routing table as maps to sets
--     (Links, with Once: a set holds an id once), `uint64_t` arithmetic modulo 2^64 (Words), `int64_t`
--     as integers (Int), `std::stoi` and its kin with their exceptions (Numbers).
--   TopicBuffer: include/nexusd/core/topic_message_buffer.hpp, class TopicBuffer. Log relates a ring
--     to the log of all that was pushed, Replay reads it.
--   MessageBuffer: src/core/topic_message_buffer.cpp, class TopicMessageBuffer. Valid has the
--     invariant, Evict and Freed the eviction, Store and Accept `bufferMessage`, Recovery
--     `getMessagesForReplay`, Pause the two together.
--   SubscriberQueue: include/nexusd/core/subscriber_queue.hpp. Valid and Schedule are about every
--     interleaving of threads, Fifo about what a full queue keeps, Expiry about TTL, Results about what
--     `enqueue` reports.
--   Crc64: include/nexusd/utils/crc64.hpp.
--   PeerRegistry: src/core/peer_registry.cpp, by methods: Peers (peers and routes), Subscriptions,
--     Retained, TopicHash. Routing, Liveness, Index, Reach, HashCache, Resume and Lookup are proofs.
--   Stream: in src/services/sidecar_service.cpp SubscriptionStream, SubscribeReactor and
--     ResumeSubscribeReactor, with the writes that gRPC has in flight.
--   Sidecar: src/services/sidecar_service.cpp, class SidecarServiceImpl, by RPC: Deliver (Publish and
--     `deliverFromRemote`), Subscribe, Resume, Query. Delivery, Recovered and Reached are proofs.
--   Mesh: src/services/mesh_service.cpp. Client is src/services/mesh_client.cpp, with Channels and
--     Forwarding about what Publish pushes over it; Sync is about the state that a peer pulls.
--   Discovery: src/core/discovery_agent.cpp. Bouncer is about the beacons that are received, Threads
--     has `start`, `stop` and one round of each thread, Lifecycle is about any sequence of these.
--   UdpSocket: src/net/udp_socket.cpp. Pool has any number of such objects; Uses, Held, Kept and Ownership
--     are about the descriptors that they hold and close.
--   Daemon: include/nexusd/daemon/config.hpp (Config, Options), and in Wiring the components that
--     src/daemon/main.cpp makes of the configuration; Unrouted and Isolation are about what they do
--     together. Uuid: include/nexusd/utils/uuid.hpp.
--   Client: clients/cpp/src/client.cpp, with Delivery about a message's way from client to client.
--   Cli: tools/cli/src, by files: StringUtils, CommandParser, OutputFormatter, Discovery, GrpcClient and
--     Commands with Session (cli.cpp with commands/publish_cmd.cpp); their children and Publishing are
--     proofs.
--   Tests: concrete states to which the theorems are applied, for the daemon in Queue, Buffer, Registry,
--     Service, Node and Tool, for the command line tool in Shell.
--
-- A method is a function from the old state to the new one and the result. A clock, a UUID, a
-- parsed beacon and what other threads do during a wait are arguments. `std::sort` is insertion
-- sort, whose result on strings is the same. Undefined behaviour (a push on a ring of size 0, a
-- delivery to a stream of ResumeSubscribe, whose reactor is cast to an unrelated class) has no
-- result: `none`. The calls of `StartWrite` are recorded; what gRPC makes of a second one while the
-- first is in flight is not modelled. Each call of the registry and of the services is one step;
-- `enqueue` under BLOCK is two. The one loop on fuel is that of `evictForSpace`, with as many
-- rounds as there are topics: each round that goes on erases one.
--
-- The operating system and gRPC are parameters: a kernel answers each system call from the trace of
-- the calls before it, a daemon answers each request. What a loop waits for is a list with one entry
-- per round, as the rounds in which the tool listens for beacons.
--
-- Not modelled: what the scheduler does inside a method that holds its mutex, logging, the generated
-- code of gRPC and protobuf, the daemon's ports, signals and shutdown, of the client libraries all but
-- `publish`, `subscribe` and `unsubscribe` in C++ (the rest has no code, or does not fit
-- proto/sidecar.proto), the tool's `main`, its other commands and `json_stringify`, and the branches
-- for Windows. Steady clock times have no upper bound.
pub mod Prelude
pub mod TopicBuffer
pub mod MessageBuffer
pub mod SubscriberQueue
pub mod Crc64
pub mod PeerRegistry
pub mod Stream
pub mod Sidecar
pub mod Mesh
pub mod Discovery
pub mod Daemon
pub mod UdpSocket
pub mod Client
pub mod Cli
pub mod Uuid
pub mod Tests
