-- ===== src/PodStore/Queries.antt =====
-- node/podstore.go: the methods that read the store, the snapshot, and the admission of pods.
use periapsis.Base.{
  ℕ, Bytes, Bool, true, false, ◌&&◌, Option, none, some, List, [], ◌∷◌, if◌then◌else◌, length, ltb,
  ◌==◌, Map, lookup, bytes_eq, Int64, add64, sub64, slt64, ◌^◌,
}
use periapsis.Foci.Types.{PodPhase, phase_unset}
use periapsis.PodStore.Types.{
  StoredPod, full_name, slash, PodActor, PodSnapshot, PodStore, pod_resources, get_pod_state,
}

abbrev pub is_some {ℓ} : {A : Type ℓ} → Option A → Bool
is_some none = false
is_some (some _) = true

-- IsInFlight
unfoldable pub is_in_flight : PodStore → Bytes → Bool
is_in_flight s uid = elim (get_pod_state s uid) [ none ↦ false | some ps ↦ is_some ps.in_flight ]

-- HasPod
unfoldable pub has_pod : PodStore → Bytes → Bool
has_pod s uid = is_some (get_pod_state s uid)

-- PodUIDs
unfoldable pub pod_uids : Map Bytes PodActor → Map Bytes Bytes
pod_uids [] = []
pod_uids ((uid, ps) ∷ m) = (uid, full_name ps.pod) ∷ pod_uids m

-- PodCount
unfoldable pub pod_count : PodStore → ℕ
pod_count s = length s.pods

-- PodIP
unfoldable pub pod_ip : PodStore → Bytes → Bytes
pod_ip s uid = elim (get_pod_state s uid) [ none ↦ [] | some ps ↦ ps.ip ]

-- PodPhase
unfoldable pub pod_phase : PodStore → Bytes → PodPhase
pod_phase s uid = elim (get_pod_state s uid) [ none ↦ phase_unset | some ps ↦ ps.phase ]

-- DeletionsInProgress
unfoldable pub deletions_in_progress : PodStore → Bool
deletions_in_progress s = ltb 0 s.deleting_count && ltb s.deleting_count (2 ^ 31)

-- IsDeleting
unfoldable pub is_deleting : PodStore → Bytes → Bool
is_deleting s uid = elim (get_pod_state s uid) [ none ↦ false | some ps ↦ ps.deleting ]

-- HydratedUIDs
unfoldable pub hydrated_uids : Map Bytes PodActor → List Bytes
hydrated_uids [] = []
hydrated_uids ((uid, ps) ∷ m) =
    let rest = hydrated_uids m in if ps.hydrated then uid ∷ rest else rest

-- FindPodUID; `none` is the error.
unfoldable pub find_pod_uid : PodStore → Bytes → Bytes → Option Bytes
find_pod_uid s namespace name = lookup (slash namespace name) s.name_index

-- GetPod; `none` is the NotFound error.
unfoldable pub get_pod : PodStore → Bytes → Bytes → Option StoredPod
get_pod s namespace name = elim (lookup (slash namespace name) s.name_index) [
  | none ↦ none
  | some uid ↦ elim (get_pod_state s uid) [ none ↦ none | some ps ↦ some ps.pod ]
]

-- CompletedPodUID
unfoldable pub completed_pod_uid : PodStore → Bytes → Bytes → Bytes
completed_pod_uid s namespace name = elim (lookup (slash namespace name) s.completed) [
  | none ↦ []
  | some e ↦ e.uid
]

-- runSnapshotAggregator: what it appends for one pod.
abbrev pub snapshot_of : Bytes → PodActor → PodSnapshot
snapshot_of uid ps = record {
  name = ps.pod.name;
  namespace = ps.pod.namespace;
  uid = uid;
  ip = ps.ip;
  phase = ps.phase;
  containers = length ps.pod.containers;
}

-- The loop of runSnapshotAggregator.
unfoldable pub snapshots : Map Bytes PodActor → List PodSnapshot
snapshots [] = []
snapshots ((uid, ps) ∷ m) =
    let rest = snapshots m in if ps.hydrated then rest else snapshot_of uid ps ∷ rest

-- One round of runSnapshotAggregator: it waits without a signal.
unfoldable pub aggregate : PodStore → PodStore
aggregate s =
    if s.triggered then record s { triggered = false; ro_snap = some (snapshots s.pods) } else s

-- LoadSnapshot
unfoldable pub load_snapshot : PodStore → List PodSnapshot
load_snapshot s = elim s.ro_snap [ none ↦ [] | some snaps ↦ snaps ]

-- What psi.Read gives, in hundredths of a percent.
pub record HostPressure : Type 0 where
  pub cpu_avg10 : ℕ
  pub memory_avg10 : ℕ

abbrev pub psi_cpu_threshold : ℕ
psi_cpu_threshold = 7000

abbrev pub psi_memory_threshold : ℕ
psi_memory_threshold = 1500

-- The empty string, or a reason with its numbers: requested, used, capacity.
pub data Admission : Type 0 where
  admitted : Admission
  cpu_pressure memory_pressure : ℕ → Admission
  insufficient_cpu insufficient_memory : Int64 → Int64 → Int64 → Admission

-- AdmitPod, once the pressure is known not to be too high. The capacities are nodeCPU.MilliValue()
-- and nodeMem.Value().
unfoldable pub admit_resources : PodStore → StoredPod → Int64 → Int64 → Admission
admit_resources s pod cpu_cap mem_cap =
    let (pod_cpu, pod_mem) = pod_resources pod in
    if (pod_cpu == 0) && (pod_mem == 0)
    then admitted
    else if slt64 0 cpu_cap && slt64 cpu_cap (add64 s.used_cpu pod_cpu)
    then insufficient_cpu pod_cpu s.used_cpu cpu_cap
    else if slt64 0 mem_cap && slt64 mem_cap (add64 s.used_mem pod_mem)
    then insufficient_memory pod_mem s.used_mem mem_cap
    else admitted

-- AdmitPod; `none` is an error of psi.Read.
unfoldable pub admit_pod : PodStore → StoredPod → Int64 → Int64 → Option HostPressure → Admission
admit_pod s pod cpu_cap mem_cap none = admit_resources s pod cpu_cap mem_cap
admit_pod s pod cpu_cap mem_cap (some hp) =
    if ltb psi_cpu_threshold hp.cpu_avg10
    then cpu_pressure hp.cpu_avg10
    else if ltb psi_memory_threshold hp.memory_avg10
    then memory_pressure hp.memory_avg10
    else admit_resources s pod cpu_cap mem_cap

-- What ComputeAllocatable puts for one of the two resources, from what the capacity's MilliValue or
-- Value returns.
unfoldable pub allocatable : Int64 → Int64 → Int64
allocatable used cap = if slt64 0 used then (if slt64 used cap then sub64 cap used else 0) else cap

-- ComputeAllocatable: the entries for cpu and memory. The others are those of the capacity.
unfoldable pub compute_allocatable : PodStore → Int64 × Int64 → Int64 × Int64
compute_allocatable s (cpu_cap, mem_cap) =
    (allocatable s.used_cpu cpu_cap, allocatable s.used_mem mem_cap)

-- GetPods
unfoldable pub get_pods : Map Bytes PodActor → List StoredPod
get_pods [] = []
get_pods ((_, ps) ∷ m) = ps.pod ∷ get_pods m

-- GetPodCopy; `none` is nil.
unfoldable pub get_pod_copy : PodStore → Bytes → Option StoredPod
get_pod_copy s uid = elim (get_pod_state s uid) [ none ↦ none | some ps ↦ some ps.pod ]

pub record PodEntry : Type 0 where
  pub uid : Bytes
  pub pod : StoredPod
  pub phase : PodPhase
  pub pod_ip : Bytes

-- Snapshot
unfoldable pub snapshot : Map Bytes PodActor → List PodEntry
snapshot [] = []
snapshot ((uid, ps) ∷ m) =
    record { uid = uid; pod = ps.pod; phase = ps.phase; pod_ip = ps.ip } ∷ snapshot m

-- ActiveUIDs
unfoldable pub active_uids : Map Bytes PodActor → Map Bytes Bool
active_uids [] = []
active_uids ((uid, _) ∷ m) = (uid, true) ∷ active_uids m
