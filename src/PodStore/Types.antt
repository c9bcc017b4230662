-- ===== src/PodStore/Types.antt =====
-- node/podstore.go: the store, what it holds of a pod, and the resources that a pod requests.
use periapsis.Base.{
  ◌*◌, ℕ, Bytes, bytes, Bool, true, false, Option, none, some, List, [], ◌∷◌, ◌++◌, Map, lookup,
  bytes_eq, Int32, Int64, add64, Duration, Time, second,
}
use periapsis.Foci.Types.{PodPhase, RestartPolicy, ContainerStatusPayload}
use periapsis.Probe.{ContainerProbeState}

-- The fields of a corev1.Container that are read. A request or limit is what MilliValue (of cpu) or Value
-- (of memory) returns; `has_requests` and `has_limits` say that the map is not nil.
pub record PodContainer : Type 0 where
  pub name : Bytes
  pub image : Bytes
  pub has_readiness_probe : Bool
  pub cpu_request : Option Int64
  pub memory_request : Option Int64
  pub cpu_limit : Option Int64
  pub memory_limit : Option Int64
  pub has_requests : Bool
  pub has_limits : Bool

-- The fields of a corev1.PodStatus that are read or written.
pub record PodStatus : Type 0 where
  pub phase : PodPhase
  pub reason : Bytes
  pub message : Bytes
  pub container_statuses : List ContainerStatusPayload
  pub init_container_statuses : List ContainerStatusPayload

-- The fields of a corev1.Pod that are read or written. A restart policy of `none` is the empty string.
pub record StoredPod : Type 0 where
  pub uid : Bytes
  pub namespace : Bytes
  pub name : Bytes
  pub restart_policy : Option RestartPolicy
  pub containers : List PodContainer
  pub init_containers : List PodContainer
  pub status : PodStatus

-- pod.Namespace + "/" + pod.Name
abbrev pub slash : Bytes → Bytes → Bytes
slash namespace name = namespace ++ (bytes "/" ++ name)

abbrev pub full_name : StoredPod → Bytes
full_name pod = slash pod.namespace pod.name

-- containerRestartState
pub record ContainerRestartState : Type 0 where
  pub count : Int32
  pub backoff : Duration
  pub last_started : Time

abbrev pub restart_backoff : Duration
restart_backoff = 10 * second

-- podState. Its pod is never nil: every method that stores one reads its fields. A creationHandle is
-- a number. `probes` is `none` for the nil map, which InitRestartState replaces; reading the nil map
-- `restarts` is reading an empty one.
pub record PodActor : Type 0 where
  pub pod : StoredPod
  pub ip : Bytes
  pub phase : PodPhase
  pub hydrated : Bool
  pub in_flight : Option ℕ
  pub deleting : Bool
  pub restarts : Map Bytes ContainerRestartState
  pub probes : Option (Map Bytes ContainerProbeState)

pub record PodSnapshot : Type 0 where
  pub name : Bytes
  pub namespace : Bytes
  pub uid : Bytes
  pub ip : Bytes
  pub phase : PodPhase
  pub containers : ℕ

pub record CompletedEntry : Type 0 where
  pub uid : Bytes
  pub deleted_at : Time

-- `ro_snap` is `none` before the first Store. `triggered` says that triggerCh, of capacity 1, holds a
-- signal.
pub record PodStore : Type 0 where
  pub pods : Map Bytes PodActor
  pub name_index : Map Bytes Bytes
  pub completed : Map Bytes CompletedEntry
  pub used_cpu : Int64
  pub used_mem : Int64
  pub deleting_count : Int32
  pub ro_snap : Option (List PodSnapshot)
  pub triggered : Bool

-- NewPodStore
unfoldable pub new_pod_store : PodStore
new_pod_store = record {
  pods = [];
  name_index = [];
  completed = [];
  used_cpu = 0;
  used_mem = 0;
  deleting_count = 0;
  ro_snap = none;
  triggered = false;
}

abbrev pub or_nothing : Option Int64 → Int64 → Int64
or_nothing none sum = sum
or_nothing (some n) sum = add64 sum n

-- The loop of podResources, from the sums so far.
unfoldable pub add_resources : List PodContainer → Int64 → Int64 → Int64 × Int64
add_resources [] cpu mem = (cpu, mem)
add_resources (c ∷ rest) cpu mem =
    add_resources rest (or_nothing c.cpu_request cpu) (or_nothing c.memory_request mem)

-- podResources, for a pod that is not nil
unfoldable pub pod_resources : StoredPod → Int64 × Int64
pod_resources pod = add_resources pod.containers 0 0

-- triggerSnapshot
abbrev pub trigger_snapshot : PodStore → PodStore
trigger_snapshot s = record s { triggered = true }

-- getPodState; `none` is nil.
abbrev pub get_pod_state : PodStore → Bytes → Option PodActor
get_pod_state s uid = lookup uid s.pods
