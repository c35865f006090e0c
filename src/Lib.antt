-- ===== src/Lib.antt =====
-- Formal models of the core of a small function platform, written in Go. The program's parts:
--
-- * The gateway (gateway/) registers functions, keeps a pool of runtime instances for each, hands
--   them out to invocations and, as leases, to the message trigger service.
--   gateway/scheduler/scheduler.go is Scheduler.antt and the files below it: Types (the structs),
--   Register (Register, validateTriggers), Upload (UploadCode; Upload/Archive is extractZip), Pool
--   (Acquire, Release, Deregister, UploadCode's update of the metadata, ColdStartOne, Stats), Shrink
--   (RemoveIdle, the idle part of reaper), Lease (AcquireInstance, ReleaseInstance,
--   reapExpiredLeases) and World (the critical sections under s.mu as the steps of any number of
--   callers).
--   gateway/scheduler/k8s_backend.go, which starts and stops instances as pods, is Backend/Pod
--   (podSpec) and Backend/Kubernetes (Start, Stop and what they wait for); Backend/Outcome and
--   Backend/Started have its theorem.
--   An invocation passes the queue of its function (gateway/queue/queue.go: Gateway/Queue for one
--   function, Gateway/Manager for the map of all and, for the theorem, Gateway/Waiting) and the
--   router (gateway/router/router.go: Gateway/Router), which acquires an instance, calls it and
--   releases it. gateway/entrypoints/leases.go, the routes through which another service gets and
--   gives back leases, is Gateway/Routes, with Gateway/Released for the theorem.
-- * The message trigger service (mqsvc/) takes messages from RabbitMQ, leases an instance of the
--   gateway for each and settles the message by the outcome. Mq/Types holds its structs, Mq/Worker
--   is worker.go with the answers that gateway_client.go accepts, Mq/Metrics is metrics.go, and
--   Mq/Rabbit is the settlement of a delivery, the header of the attempts and the waits of
--   rabbitmq.go. Mq/Statuses joins it with the gateway's check of a release's status. Which triggers
--   have a consumer is Service.antt: Service/Triggers is the defaults and the comparison of triggers
--   in config.go and main.go, Service/Config validateConfig, and Service/Reconcile mergeTriggers,
--   reconcileTriggers, startConsumer and syncTriggers of main.go. Service/Wanted describes the
--   triggers that are wanted without maps; Service/Starting, Service/Consumers and Service/Merging
--   compare the code with it, and Service/Listed follows reconciliations and ends of consumers.
-- * The scaler (scalersvc/main.go) reads the gateway's counts and the instances' metrics and asks the
--   gateway for more or fewer instances: Scaler/Types, Scaler/Policy (ceilDiv, desiredReplicas,
--   evaluate), Scaler/Metrics (aggregateMetrics, handleMetrics) and, for the theorems on the policy,
--   Scaler/Bounds.
-- * The runtime in each instance (runtime/cmd/runtime/main.go) queues the invocations that the gateway
--   sends until the function's process polls for them and posts its response: Runtime/Types,
--   Runtime/Queue (handleInvocation, handleNext, handleResponse), and for the theorems
--   Runtime/Answers, Runtime/Polling, Runtime/Loop and Runtime/Limit. The process of a Go function
--   (runtime/cmd/go-bootstrap/main.go) is Runtime/Bootstrap, and Runtime/Served joins it with the
--   queue. The agent before it (runtime/cmd/agent/main.go), which passes the invocations on and
--   counts them, is Agent.antt: Agent/Metrics (record, snapshot, percentile), Agent/Proxy
--   (proxyInvocation), Agent/Health (handleHealth) and, for the theorems, Agent/Window and
--   Agent/Percentile.
-- * The log daemon (logdaemon/shared.go) keeps the recent lines of each function: Logs/Ring (ring,
--   ringFor, write, localEntries) and, for its theorem, Logs/Recent. Its proxy asks the collectors
--   of a cluster: Logs/Proxy (fetchLogs, streamLogs, entriesFor), with Logs/Fetched and Logs/Stream.
--   Logs/Collector is the choice of pods that a collector follows (logdaemon/k8s_collector.go).
-- * The two functions dnsLabel, of gateway/scheduler/k8s_backend.go and of mqsvc/config.go, are
--   Label/Gateway.antt and Label/Mq.antt.
--
-- Base.antt and its children hold what the other files share: the library names, Boolean tests,
-- lists, Go's signed integers (wrap64 is the wrap-around of int64), maps with string keys as
-- association lists, and sorting.
--
-- Conventions. A pointer to a container is an address into a heap, since the pool, the leases and the
-- callers share the object. A time is a number of nanoseconds, and the clock's readings are arguments.
-- What the code gets from outside is an argument: the backend's answer to Start, the store's error,
-- the answers of the file system, of Kubernetes and of other services, the id that uuid makes, the
-- value of an environment variable, unicode.ToLower. Numbers that only
-- count up by one per event (ports, addresses, the counts of a queue) are not wrapped. A Go map is
-- iterated in the order of its association list.
--
-- Where requests interleave (Scheduler/World, Gateway/Queue, Runtime/Answers) a run is a list of
-- steps, each a critical section or a channel operation of one of any number of callers, in any
-- order. Every loop of the source that is modelled runs over a list or counts down a number, so no
-- fuel is used. The sizes of the source are kept: 1000 entries in a ring, 64 in a subscriber's
-- channel. An int64 counter of mqsvc is its bit pattern modulo 2^64. Floating point, in the scaler,
-- is a parameter (Scaler.Types.Floats).
--
-- Not modelled: the Kubernetes, Docker, RabbitMQ, MinIO and MongoDB clients themselves, the Docker
-- backend, HTTP plumbing, process control and shell commands, logging, the reading of control group
-- files in the agent, the lines of a followed pod, and the process that runs a function's code.
pub mod Base
pub mod Agent
pub mod Backend
pub mod Gateway
pub mod Label
pub mod Logs
pub mod Mq
pub mod Runtime
pub mod Scaler
pub mod Scheduler
pub mod Service
