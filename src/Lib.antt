-- ===== src/Lib.antt =====
-- Periapsis is a Kubernetes node agent that runs pods as systemd units; one host registers as several
-- virtual nodes, its pawns. This library models the parts that decide what happens to a pod, and proves
-- what they promise.
--
-- The parts and the files that model them:
--   Base      what all share: Boolean tests, lists over the native numbers, byte strings and the search
--             of the Go package strings, Go's maps as association lists, fixed-width integers, clocks
--   Foci      internal/foci, the pure reducer: Foci/Types is internal/types/types.go (facts and
--             effects), Foci/State is state.go, Foci/Convert is convert.go, Foci/Phase is
--             recomputePhase, Foci/Reduce is Reduce with one file for the handlers of each kind of fact
--             under it, Foci/UnitName is the names of systemd units (wrapperUnitName of
--             internal/runtime/systemd/runtime.go, ParseUnitName of node/gambit.go and
--             ParseContainerFromUnit). The other files of the folder are proofs.
--   Syzygy    internal/syzygy/syzygy.go: the loop that owns the states of all pods. It calls the reducer
--             with each fact of its inbox, stores the new state and offers the effects to a bounded
--             channel.
--   IpPool    internal/network/ippool.go: the addresses of pods
--   Queue     internal/queue/queue.go: the work queue with delays and retries. Queue/Types, Queue/Items
--             and Queue/Steps are the definitions; Queue/Workers has the calls in any order, Queue/PutBack
--             counts the rounds that put a key back, and the other files are proofs.
--   PodStore  node/podstore.go: the pods of one virtual node. PodStore/Types, Registry, Status, Restarts
--             and Queries are the definitions; PodStore/Edits has the few ways in which they change the
--             store, PodStore/Reach the calls in any order, and the other files are proofs.
--   Monitor   internal/lock/monitor.go: a variable whose changes can be waited for; Monitor/Live
--             and Monitor/Wakeups are proofs
--   Volumes   node/voltracker.go: which pods have a ConfigMap or a Secret mounted; Volumes/Mounts and
--             Volumes/Refines are proofs
--   Eviction  node/eviction.go with calculateOOMScore of node/lifecycle.go: which pods of the pod store are
--             evicted under memory pressure; Eviction/Score, Order and Frees are proofs
--   Status    node/status.go: the status of a pod from the pod store and the states of its containers;
--             Status/Phase, Ready and Answers are proofs
--   Reconciler node/reconciler.go: what the reconciler takes away from the pod store and the host;
--             Reconciler/Ghosts, Rounds and Orphans are proofs
--   Horizon   internal/horizon/horizon.go, and dispatchEffect and the loop of an effect worker of
--             internal/syzygy/syzygy.go: where the effects of the reducer go; Horizon/Writes and Dispatch are proofs
--   Probe     node/probes.go, and in Probe/Scheduler the cycle of internal/probescheduler/scheduler.go
--             over one container
--   Cgroup    internal/cgroup/weight.go: CPU weights
--
-- Names are the source's in snake_case. A handler of the reducer is a function from the state, the fact
-- and the clock to the new state and the list of effects; the clock is the sequence of readings that
-- time.Now gives in the call. A byte string is a list of numbers. An int32 and a time.Duration are bit
-- patterns below 2 ^ 32 and 2 ^ 64 with the wrap-around written out. A time is a number of nanoseconds,
-- 0 for the zero time.
--
-- Bounds and fuel: IpPool.allocate_loop runs on max + 1 rounds of fuel, since `next` comes round to its
-- start within max rounds; bit_len_loop runs on 33, since a uint32 is 0 after 32 shifts. write_from of
-- Horizon counts down the source's five attempts. The other loops go through lists.
--
-- Parameters: what net.ParseCIDR returns is an argument of new_ip_pool. filepath.Join, the reads of
-- cgroup memory, sort.Slice, the quotients of floats, the states of containers and the answers of the
-- Kubernetes API are arguments of the functions that use them. The rate limiter of client-go
-- and the retry function are section parameters of the queue; nothing is assumed of them. Spans, logs
-- and locks are left out: a method that holds a lock is one step.
--
-- A pod store is modelled by what each method does under its locks. A pod that the code stores by its
-- pointer is taken as the value at that time: callers that go on writing through the pointer are not
-- modelled. RegisterPending and the other methods that change the counters or signal the aggregator after
-- they have released a lock are one step too: what another method sees in between is not modelled.
-- PodStore/Reach states what callers keep to: a UID is registered once, and a pod that replaces another has
-- its name and its requests. The reads of the store in cleanOrphans are three steps: Round has a store for
-- each.
--
-- Not modelled: the pools of workers, the Kubernetes API beyond its answers, systemd and the kernel, files
-- and sockets, how a probe is carried out, and the controllers under node/ that are not named above. The
-- writes of a handler go to a fresh state here: the sharing of the slice of containers with the caller's
-- copy of the state is not modelled.
pub mod Base
pub mod Foci
pub mod Syzygy
pub mod IpPool
pub mod Queue
pub mod Probe
pub mod Cgroup
pub mod PodStore
pub mod Monitor
pub mod Volumes
pub mod Eviction
pub mod Status
pub mod Reconciler
pub mod Horizon
