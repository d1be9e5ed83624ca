-- ===== src/Lib.antt =====
-- llama_proxy is a proxy in front of OpenAI-compatible backends that also runs models as local
-- processes. This library models its core in Go and proves what it promises.
--
-- The parts and their files:
--   Prelude     shared names, tests into Bool, lists over native numbers, texts as lists of code
--               points, association lists for Go maps.
--   Config      internal/config: the types and queries of scheduling.go, config.go and routing.go.
--               Config/Validation is validateScheduling check by check, Config/ModelIds and
--               Config/Ports are the two checks of validate.go; Config/Gpu and
--               Config/Ports/Collisions say what an accepted configuration guarantees.
--               Config/Loading is Load from the decoded file on, setConfigDefaults and ToLegacy.
--   Balancer    internal/balancer/balancer.go: the struct as a record, one function for each method.
--               Balancer/LeastLoaded, Choice and Selection lead from the loops of selectLeastLoaded
--               to one specification of the selections; Sync and Counts are about updateBalancer,
--               Enter and Leave.
--   Scheduler   internal/scheduler: the struct as a record, and one function for each critical
--               section of s.mu. Process is process.go, Arbitration is acquireGPU, launchSlot,
--               ensureOnDemandBackground and restartMember, Switching is switching.go with the
--               decisions of ensureCoding, ensureBackground and Loop, Recovery is reconcile, Queries
--               are LocalNodes, BaseURLFor and APIKeyFor, GpuWait is gpuwait.go. Exclusive, Eviction
--               and Targets are about one process for each gpu, Channels and Steps about the ready
--               channels, Backoff about restarts, Adoption and Signals about the processes that are
--               adopted and signalled. Ensure is EnsureModel with the switches that it makes, Release
--               is about the requests that wait, Tree is procresolve.go: the process tree that is
--               signalled and the texts of /proc. Snapshot is snapshot.go,
--               Order is about the order in which the slots are visited, Overtaking about a switch
--               that does not take switchMu.
--   Proxy       proxy.go and proxy_backend.go: the failover loop of handleProxy. Proxy/Next, Tried
--               and Failover follow the loop, Balance the in-flight counts, Request the whole.
--   Direct      proxy_backend.go and proxy.go: the checks of a request, selectSpecificBackend and
--               selectScheduledModel; Direct/Checks says which requests pass the checks,
--               Direct/Errors which are refused for one model.
--   Reload      config_watch.go: reloadConfig on the running server. Reload/Pool follows the pool,
--               Reload/Notice the section scheduling.
--   Stream      proxy_stream.go: the copy of a response, round by round.
--   Database    internal/db/database.go: Database/Dsn the connection strings of PostgreSQL,
--               Database/Retry the retries of a write.
--   Store       internal/store: the filters of a request query, the statistics by minute.
--   Events      internal/events/events.go: the hub and its bounded queues.
--   Httpx       internal/httpx/httpx.go: the headers, the client's address, the query
--               parameters, hosts and times.
--   Inflight    inflight.go: the requests in flight.
--   Pool        pool.go: syncLocalBackendNodes, where the scheduler's nodes enter the balancer.
--   Routing     proxy_routing.go and the path checks of proxy.go; Routing/Rules says which rule
--               routes a request, Routing/Matching which path of a list is matched.
--   Capture     LimitedBuffer of internal/meta/meta.go.
--   Examples    concrete inputs on which the theorems are applied.
--
-- How the parts interact: validated configurations are the hypotheses of the scheduler's theorems,
-- the scheduler's local nodes are the input of the pool, and the failover loop uses the balancer by
-- its selections and counts. The route to one model goes through EnsureModel; a reload reaches the
-- balancer and the scheduler; the copy of a response feeds the capture.
--
-- Representation. A Go map is an association list, whose order stands for the order of iteration;
-- where the code sorts, the model sorts. Weights, ports, pids, counts and times are natural
-- numbers and do not overflow; the lease and the waits of a switch are integers, and a sleep_timeout
-- below zero, which counts as none, is 0; a zero time.Time is none. A slot pointer is the entry of its
-- model in the table of slots, a ready channel a number. Operations take what the system answers
-- (listeners, live pids, started shells, the clock) as the parameter Env, url parsing as a
-- parameter, and the rotation of github.com/fufuok/balancer as the parameter Strategies, of which
-- nothing is assumed. An operation of several critical sections, switchTo or an on-demand start, has a
-- parameter Course: what the system answers in each section, and what other goroutines make of the
-- scheduler before it, since not every caller of switchTo holds switchMu.
--
-- Fuel. The failover loop takes the number of backends and one more rounds, since each round tries a
-- backend that was not tried before. The rotation of a selection has the number of tries that the
-- code computes. The wait for gpu memory takes 8197 readings: each lowers the total, at most 2048
-- times before it counts as released, or is one of three stable ones. A process tree is collected in
-- two more rounds than there are processes, each taken from the queue once.
--
-- Not modelled: the SQL statements and the files of the storage, the HTTP routes and the user
-- interface, the decoding of JSON and YAML, the signals and the waits themselves, timers, logging. In
-- the proxy, the rewriting of bodies and headers and the records of requests are left out, and no
-- other request runs during the failover loop. EnsureModel and restartMember run alone, and so does the
-- suspension of the owner of a gpu.
pub mod Prelude
pub mod Config
pub mod Balancer
pub mod Scheduler
pub mod Proxy
pub mod Pool
pub mod Reload
pub mod Routing
pub mod Capture
pub mod Stream
pub mod Store
pub mod Events
pub mod Httpx
pub mod Inflight
pub mod Database
pub mod Direct
pub mod Examples
