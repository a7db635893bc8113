-- ===== src/Lib.antt =====
-- byterpc: a verification library for the Go RPC library of this repository.
--
-- The program. A client (client.go) sends calls over a codec and takes the responses in a goroutine
-- of its own. A server (server.go, service.go) registers the methods of receivers, reads requests
-- from a codec, calls the methods and sends the responses; the codecs are json_codec.go and
-- gob_codec.go, and dencoder.go puts messages on a stream in frames. A registry (registry.go,
-- registry_mem.go, registry_etcd.go, registry_zk.go) keeps the endpoints of services; a resolver
-- (resolver_etcd.go, resolver_zk.go) finds them and a watcher (watcher.go) reports their changes. A
-- balancer (balancer.go) follows the updates of a watcher (naming.go) and asks a selector
-- (selector.go, selector_random.go, selector_rr.go) for the address of the next call. Plugin
-- managers (plugin.go) run hooks around the reads and writes of clients and servers. A lifecycle
-- controller (lifecycle.go) runs callbacks at the start and at the stop. utils.go has the error
-- lists and the invoke points that they share.
--
-- Files and code.
--   Common       Boolean tests, lists over the native numbers, Go maps as association lists, byte
--                strings, signed integers, and the three ways a Go function ends: a value, an error,
--                a panic.
--   Selector     Base: AddrInfo, baseSelector, Reset, AddrList and Put; Atoi: strconv.Atoi; Random:
--                RandomSelector.Select; RoundRobin: RoundRobinSelector.Select; Interface: the
--                Selector interface as a record of operations, and the two implementations of it.
--                Reset, Invariant, Random/Picks, Random/History, RoundRobin/Rounds, Rotation,
--                Stuck, Steady and Fresh hold the proofs.
--   Naming       Update and Operation.
--   Balancer     Start, watchAddrUpdates, Get, Notify and Close over any selector. The mutex is a
--                flag: a method that finds it locked waits. Calls: sequences of calls, and of
--                changes that other balancers make to a default selector that they share. Channel
--                and Locking hold the proofs.
--   Utils        WrapArrayErrs and TransformInvokePointToPath; proofs in Split and Errors. Host:
--                getLocalIPV4 and MD5Of.
--   Config       ServerConfig, DefaultConfig and check.
--   Plugin       The manager's map and one function for the body that the hooks share; Server and
--                Client: the hooks of serverPluginManager and clientPluginManager, with the loops of
--                HandleConnAccept and RegisterService; proofs in Hooks, Reports and History.
--   Client       Call, Client, Go, send (before and after the write), receive (one round, and its
--                end), done and Close. Steps: the interleavings of the goroutines as a step
--                relation. Tally, Invariant, Sending and Rounds: how often a call is finished.
--                Safety, Answers, Delivery and Order: what a client promises. A channel Done that
--                several calls share is not modelled: each call has its own.
--   Lifecycle    lifeCycleController; proofs in Once.
--   Dencoder     PutUvarint, ReadUvarint, ReadFull, readFull, writeFrame, Encode and Decode; proofs
--                in Varint, Frames and Panics.
--   Service      Reflected methods, registerMethods, Endpoint; proofs in Suitable and Screening.
--   Server       readRequestHeader and readRequest; Loop: serveCodec, sendResponse and
--                Service.call; Registration: register and endpointOf; Pool: the free lists of
--                requests and responses as chains in a store, with the proofs in Pool/Chain and
--                Pool/Histories. Routing, Answers and Registering hold the proofs. Accept:
--                NewServer, Start, acceptLoop, handleConn and onStop, with the goroutines as a step
--                relation in Accept/Steps; proofs in Accept/Tables, Invariant, Safety, Stopping and
--                Single.
--   Session      A client and the loop of a server on one connection, over a codec that keeps the
--                order of requests and of responses; a step relation for both sides. A request
--                is on the wire before WriteRequest returns, and Close ends the connection: it
--                leaves to receive what has been buffered. Tally, Calls, Underway, Counting and Requests: the numbers and methods of the requests that are
--                underway. Invariant, Results, Carrying, Draining and Lost: what the two sides promise
--                together, and a response that nobody reads.
--   JsonCodec    The server's and the client's JSON codec on decoded messages. Pairing: responses
--                and the ids of requests; Wire: the two codecs on one connection.
--   Registry     The memory registry, and kvRegistry over a store that is a record of operations;
--                proofs in Memory and Listing. FrontEnds: the ServiceRegistry interface, the etcd and
--                the zookeeper registry, and their plugins; Settings: their configuration. Stored and
--                Enrolled: a registry and a plugin over a store that takes every write.
--   GobCodec     The buffers and the closing of the gob codecs; proofs in Closing.
--   Resolver     Resolve, the watcher's Next, extractUpdates and Close; proofs in Keys.
--   Discovery    The way of an address from the values of a store over the watcher and the balancer
--                to the reader of Notify.
--   Each component has a module Tests with runs at concrete inputs.
--
-- Bounds. Sequence numbers are modulo 2^64 and weights and loads are uint64 as in the code; a
-- client is followed as long as it has had fewer than 2^64 calls, and a JSON codec as long as it
-- has read fewer than 2^64 requests, so that no number is used twice. A varint has at most ten
-- bytes, which holds every uint64, and the loops over it run on that count. The loop of
-- RoundRobinSelector.Select runs on fuel, which the theorems ask to be at least the slots of the
-- slice: one round visits each of them. All other loops are structural.
--
-- Not modelled: logging, dialling and listening, the reflective calls, the decoding of gob, and the
-- time. Parameters stand for the marshalling of values, what JSON makes of a text, the key-value
-- store, the digest of MD5Of, what the network answers, and the Unicode table that says which names
-- are exported. Codecs that reorder messages are not considered in Session, and neither is a client
-- with plugins, since no manager keeps one. The order in which AddrList visits its map is a parameter too. Other
-- loops over a map visit it in the order of the association list: where a statement speaks of the
-- errors of several plugins it names the order of the visit.
pub mod Common
pub mod Config
pub mod Selector
pub mod Naming
pub mod Balancer
pub mod Utils
pub mod Plugin
pub mod Client
pub mod Lifecycle
pub mod Dencoder
pub mod Discovery
pub mod Service
pub mod Server
pub mod JsonCodec
pub mod Registry
pub mod GobCodec
pub mod Resolver
pub mod Session
