-- ===== src/Lib.antt =====
-- A model of retry-endpoint, the endpoint that caches multicast frames and answers NACKs for them.
--
-- A datagram is a list of bytes, a number a natural number with its wrap-around written out, a
-- duration or a count of Go's int an integer. Code with effects is a function of a world, which
-- stands for what its dependencies keep, and records its calls (Effects).
--
-- The parts, and how they interact:
--   - Frames: the constants, classes and decoders of shard-common, which is not in this repository;
--     a parameter of every part that reads frames.
--   - RateLimit (ratelimit/ratelimit.go): EventLog is `eventLog`, the admitted events of one key
--     with the capacity of their slice; Window is `slidingWindowLimiter`, the map of logs with its
--     sweep; Buckets is `tokenBucketLimiter`; Tiers is `Limiter` with `New`, `Allow`, `AllowChain`
--     and `AllowGroup`. Clock readings are arguments. `append`'s growth, x/time/rate and the forms
--     of addresses are parameters.
--   - Server (server/server.go): Wire has the NACK and the response, Calls what a NACK worker
--     calls, Handler `processNACK`, each branch a function of its own.
--   - Cache (cache/cache.go): the namespaced view over a backend, which is a parameter.
--   - Retransmit (retransmit/retransmit.go): `buildDedupKey`, `targetGroup`, `Retransmit` and
--     `RetransmitUnicast`; the sockets that they write to are a list, in the order of the map's range.
--     Open has `Open` and `Close` with the descriptors that they open and close.
--   - Proxy (proxy/proxy.go): `New`, the claim's key, the NACK, the read loop and the lifetimes in
--     Proxy, `Enqueue` and the receive of `Start` in Queue, `recover`, `fetch` and `store` in Recover.
--     The server submits a job to it on a miss; it sends a NACK that an upstream server reads.
--   - Ingress (ingress/ingress.go, ingress/pipeline.go): `Partition` and `bundleKey` in Ingress,
--     `processFrame` and its handlers in Frame, `shardOf` and the processor in Pipeline, the slots of
--     `receive` as a step relation in Pipeline.Slots. It fills the cache from which the server
--     retrieves.
--   - Beacon (beacon/beacon.go) and ControlGroup (config/controlgroup.go): the ADVERT, the
--     loop that sends it (Sender), and the prefixes into which it is sent.
--   - Config (config/config.go): Text has `splitCSV` and `parseGroupID`, Flags and Declared the flags
--     with their variables and defaults, Checks and Load the checks of `Load`, Ttls
--     `resolveCacheTTLs`, Parts the `Config` that the other parts are given. What the command line
--     sets, the environment and the parsers of Go's packages are a parameter, `Platform`.
--   - Startup (main.go): Sources has `excludeOwnSource` and `buildSSMGroupSources`, Groups
--     `buildGroups` and the parts of the ingress workers, Identity `hashInstanceID`,
--     `pickBeaconNACKAddr` and the beacon's configuration, Services the goroutines that `run` starts,
--     which report to the recorder, Wiring the server, the proxy and the egress that `run` makes of the
--     configuration. EndToEnd gives the ingress and the handler one frame cache.
--   - Metrics (metrics/metrics.go): what the recorder counts, and its answers on readiness.
-- Prelude has the shared names, lists over the native numbers, association lists, integers and
-- big-endian bytes. Tests runs the models at concrete inputs.
--
-- Every loop is a structural recursion, so no fuel is used. Where a slice is indexed, a result of
-- `none` stands for a panic. The read loop of `fetch` runs over the finite list of what arrives
-- before its deadline.
--
-- Goroutines and channels are explicit sequences of steps: the operations on the proxy's queue, and
-- the moves of the ingress slots, and the start, the stop and the failure of the services.
--
-- Not modelled: the sockets of the ingress and the server and their options, timers, shutdown,
-- logging, tracing, the exporters of the metrics, and the construction in `run` of what only logs,
-- traces or listens.
pub mod Beacon
pub mod Cache
pub mod Config
pub mod ControlGroup
pub mod Effects
pub mod Frames
pub mod Ingress
pub mod Metrics
pub mod Prelude
pub mod Proxy
pub mod RateLimit
pub mod Retransmit
pub mod Server
pub mod Startup
pub mod Tests
