-- ===== src/Lib.antt =====
-- OPDL: a verification library for the parts of the platform and of the builder that decide.
--
-- A site has machines, and each machine runs a Primary Instance and may run a Standby Instance of one
-- platform process. The builder resolves a blueprint into one descriptor for each machine. At run
-- time the two instances of a machine take turns: the lease file decides which one is Active. Every
-- instance counts its incarnations in a state file, probes its machine's services, and publishes
-- each finding, stamped with its epoch and a sequence, to every process of the site. Each process
-- folds what it receives into its own view, and answers for the site from that.
--
-- Files and the code they model:
--   Base: tests, strings, maps and lists that all parts share.
--   Redundancy (platform/internal/machine/redundancy):
--     Role: role.go and state.go. Disk and Lease: lease.go (tryAcquire is `try_acquire` and its tail
--     `claim`; renew, release, observe, View have their names). Statements: events.go. Promotion:
--     evaluatePromotion. Turns: waitWhilePassive, activate, startRenewal, startFailback. Lifecycle:
--     ManageOwnership. The other modules hold proofs: Exclusion, Acquisition and Interleaving on the
--     lease, PromotionRules on promotion, Failover on the wait for it, Phases, TurnOrder and Grace on
--     turns.
--   ServiceHealth (platform/internal/machine/servicehealth): Tracker (tracker.go), Target
--     (servicehealth.go, Start and jitterFor), Monitor (worker.run and attempt); proofs in Policy and
--     Workers.
--   HealthView (platform/internal/site/healthview): Inventory (healthview.go), View (view.go),
--     Snapshot (snapshot.go); proofs in Fencing, Convergence, Reduction, Observers,
--     Accounting, Counting and Completeness.
--   HealthFabric (platform/internal/site/healthfabric): Message (message.go), Publisher
--     (publisher.go), Subscriber (subscriber.go, with its proofs); proofs in RoundTrip, Fates
--     and Accounting.
--   InstanceState (platform/internal/instance/state): Store (state.go); proofs in Epochs and Lives.
--   Resolve (builder/internal/resolve and the types of builder/internal/blueprint): Blueprint,
--     MachineChecks and ProjectChecks (Project.Validate and what it calls), Descriptor (site inventory
--     and routes), Build (each machine's descriptor and the plan); proofs in
--     Mesh and Plan.
--   Deployment (builder/deployment/deployment.go and platform/config/deployment.go): Types (the
--     descriptor, one type for both sides), Health (Lease.validate, HealthCheck.validate), Services
--     (validateHostedServices, validateSiteServices), Endpoints (validateEndpoints,
--     validateLocalFiles, validateServices), Builder (Descriptor.Validate), Platform (validateHealth),
--     Decoding (UnmarshalJSON), Document (the JSON that the builder's tags give); proofs in Reading,
--     Agreement, Written and Separation; Sample and SampleDocument are concrete.
--   Events (platform/internal/events): Kind (type.go, severity.go, scope.go, origin.go), Event
--     (event.go), Envelope (envelope.go), Factory (factory.go, causation.go), Storage
--     (storage/publisher.go), Logs (platform/internal/instance/eventlog and
--     platform/internal/machine/eventstore); proofs in Wrapping, Wire, StorageOrder and LogsKept.
--   App (platform/internal/app): Setup (lease.go and the first half of servicehealth.go), Monitoring
--     (localSink and distributionState), Response (the answer to GET /health/services, with the
--     types of platform/api/servicehealth.go), Facts (events.go), Drain (drain of server.go, with
--     its proof); proofs in LeaseSetup, DecodedSetup, ViewSetup, Targets, OwnReports, OwnServices,
--     Hearing, ResponseCounts, FactsWrapped and StoppedFacts.
--   Runtime (platform/internal/app): Io (what a process does, and errors.Join), Health
--     (startServiceHealth and Stop), Active (runtime.go: roles, epochs, runPassive and runActive),
--     Owned (runProcess around ManageOwnership), Launch (Run of app.go). Rules and Stages are the rules
--     of a monitor that reads what a process does, and Inner those of one that the ownership leaves
--     alone; the monitors are Resources (what is open; proof in Releases), Telling (the facts; proof in
--     TellingRun) and Serving (the listener; proofs in ServingActive, ServingTurns, ServingQuiet and
--     ServingRun).
--   AtomicFile (utils/atomicfile): Write (write.go and replace.go); proofs in Attempts (the loops) and
--     Atomicity.
--   The modules called Tests, TurnTests, PlanTests, DecodeTests or ResponseTests in these folders run
--   the theorems at concrete inputs.
--
-- How state is modelled. A Go struct is a record, passed and returned. The lease file is reached by
-- programs of reads and writes (`DiskIo`), which run alone on a disk whose operations can fail, or
-- interleaved with another program's. The goroutines of a turn are lists of the events that they
-- select, in the order in which they do; such a list is finite, and a process whose list has ended
-- is still running. Loops are structural recursion on these lists, so no fuel is needed, but for the
-- wait of drain: it has fuel for two readings more than the pauses that fit in its timeout, by which it
-- has ended, and for that of replaceFile, which has 102 rounds: it sleeps 10 ms in each, and the second
-- that it has is over by the last. Critical sections of a mutex are single steps.
--
-- A process's run is a function of the answers of its environment (`World`): whether each call fails is
-- asked of what has been done so far. It notes every call, and deferred calls run after what they
-- follow. The ownership machine's run is that of Lifecycle, whose actions the process follows: what
-- the machine does while Active waits stands between the two halves of runActive. A process whose
-- machine still waits has not returned, and its deferred calls have not run.
--
-- Numbers. Instants and durations are natural numbers of nanoseconds, and a duration that is not
-- positive is 0, which is all that the code distinguishes. Instants do not reach the limit of an
-- int64. uint64 counters wrap at 2 ^ 64 and fnv64a computes modulo 2 ^ 64; freshFor keeps its int64
-- guard. In a descriptor a port or a count below 1 is 0. What the checks use of time, net, net/url,
-- strconv and filepath is the record `Parsers`, and `ReadsTrimmed` says of it that a text with outer
-- white space is neither a duration nor an address with a number for a port, and `ReadsProbes` how a
-- path is read behind an address. encoding/json is a `Codec` and an `Encoder`. Error texts are
-- shortened, and which of several unlisted units an error names is left open, as a Go map leaves it.
--
-- Not modelled: encoding/json, net/url, time.ParseDuration, net.JoinHostPort, the NATS client and
-- server, HTTP, HCL and the file system beyond the outcome of a read or a write. What the code needs
-- of them is a parameter or an event of the environment; the lease and the state file are written
-- whole, by a write that succeeds or fails, and AtomicFile looks into such a write. An object of
-- JSON is the map of its keys, each spelled as the field. Log records but the last of a process, the
-- handlers of the HTTP API and the event fabric are left out; the tests and scenarios are programs
-- of their own.
pub mod App
pub mod AtomicFile
pub mod Base
pub mod Deployment
pub mod Events
pub mod HealthFabric
pub mod HealthView
pub mod InstanceState
pub mod Redundancy
pub mod Resolve
pub mod Runtime
pub mod ServiceHealth
