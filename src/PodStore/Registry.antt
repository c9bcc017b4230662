-- ===== src/PodStore/Registry.antt =====
-- node/podstore.go: the methods that add pods to the store, replace them and take them out.
use periapsis.Base.{
  ◌*◌, ℕ, ◌+◌, Bytes, Bool, true, false, none, some, List, [], ◌∷◌, if◌then◌else◌, ltb, ◌==◌,
  length, Map, insert, delete, bytes_eq, Int64, add64, sub64, incr32, decr32, Time, second,
}
use periapsis.Foci.Types.{pod_pending, pod_running}
use periapsis.PodStore.Types.{
  StoredPod, full_name, slash, PodActor, PodStore, CompletedEntry, pod_resources, trigger_snapshot,
  get_pod_state,
}

-- A write under the lock of a pod's state.
abbrev pub put_actor : PodStore → Bytes → PodActor → PodStore
put_actor s uid ps = record s { pods = insert uid ps s.pods }

-- usedCPU.Add and usedMem.Add of what the pod requests, and of minus that.
abbrev pub charge : PodStore → StoredPod → PodStore
charge s pod = record s {
  used_cpu = add64 s.used_cpu (pod_resources pod).0;
  used_mem = add64 s.used_mem (pod_resources pod).1;
}

abbrev pub refund : PodStore → StoredPod → PodStore
refund s pod = record s {
  used_cpu = sub64 s.used_cpu (pod_resources pod).0;
  used_mem = sub64 s.used_mem (pod_resources pod).1;
}

-- The writes to the two maps of a registration.
abbrev pub enter : PodStore → Bytes → PodActor → PodStore
enter s uid ps = record s {
  pods = insert uid ps s.pods;
  name_index = insert (full_name ps.pod) uid s.name_index;
}

abbrev pub pending_actor : StoredPod → ℕ → PodActor
pending_actor pod handle = record {
  pod = pod;
  ip = [];
  phase = pod_pending;
  hydrated = false;
  in_flight = some handle;
  deleting = false;
  restarts = [];
  probes = none;
}

abbrev pub hydrated_actor : StoredPod → Bytes → PodActor
hydrated_actor pod ip = record {
  pod = pod;
  ip = ip;
  phase = pod_running;
  hydrated = true;
  in_flight = none;
  deleting = false;
  restarts = [];
  probes = none;
}

-- RegisterPending
unfoldable pub register_pending : PodStore → Bytes → StoredPod → ℕ → PodStore
register_pending s uid pod handle =
    trigger_snapshot (charge (enter s uid (pending_actor pod handle)) pod)

-- RegisterHydrated
unfoldable pub register_hydrated : PodStore → Bytes → StoredPod → Bytes → PodStore
register_hydrated s uid pod ip = trigger_snapshot (charge (enter s uid (hydrated_actor pod ip)) pod)

-- hydratedEntry
pub record HydratedEntry : Type 0 where
  pub uid : Bytes
  pub pod : StoredPod
  pub ip : Bytes

-- The loop of RegisterHydratedBatch: the store with the entries, and the two sums.
unfoldable pub enter_all : List HydratedEntry → PodStore → Int64 → Int64 → PodStore × Int64 × Int64
enter_all [] s cpu mem = (s, cpu, mem)
enter_all (e ∷ rest) s cpu mem =
    enter_all rest (enter s e.uid (hydrated_actor e.pod e.ip)) (add64 cpu (pod_resources e.pod).0)
      (add64 mem (pod_resources e.pod).1)

-- RegisterHydratedBatch
unfoldable pub register_hydrated_batch : PodStore → List HydratedEntry → PodStore
register_hydrated_batch s entries =
    let (s', cpu, mem) = enter_all entries s 0 0 in
    trigger_snapshot
      (record s' { used_cpu = add64 s'.used_cpu cpu; used_mem = add64 s'.used_mem mem })

-- AlreadyRunning, for a pod that the store has: is it a stub, without containers?
abbrev pub is_stub : PodActor → Bool
is_stub ps = length ps.pod.containers == 0

-- AlreadyRunning: the store, whether it has the pod, and whether that was a stub.
unfoldable pub already_running : PodStore → Bytes → StoredPod → PodStore × Bool × Bool
already_running s uid pod = elim (get_pod_state s uid) [
  | none ↦ (s, false, false)
  | some ps ↦
      if is_stub ps
      then (
        trigger_snapshot (charge (put_actor s uid (record ps { pod = pod; hydrated = false })) pod),
        true,
        true,
      )
      else (trigger_snapshot (put_actor s uid (record ps { hydrated = false })), true, false)
]

-- PromoteRunning
unfoldable pub promote_running : PodStore → Bytes → StoredPod → Bytes → PodStore
promote_running s uid pod ip = elim (get_pod_state s uid) [
  | none ↦ s
  | some ps ↦
      trigger_snapshot
        (put_actor s uid (record ps { pod = pod; ip = ip; phase = pod_running; in_flight = none }))
]

-- MarkDeleting
unfoldable pub mark_deleting : PodStore → Bytes → PodStore
mark_deleting s uid = elim (get_pod_state s uid) [
  | none ↦ s
  | some ps ↦ if ps.deleting then s else record s {
    pods = insert uid (record ps { deleting = true }) s.pods;
    deleting_count = incr32 s.deleting_count;
  }
]

-- SetPodIP
unfoldable pub set_pod_ip : PodStore → Bytes → Bytes → PodStore
set_pod_ip s uid ip = elim (get_pod_state s uid) [
  | none ↦ s
  | some ps ↦ trigger_snapshot (put_actor s uid (record ps { ip = ip }))
]

-- ClearHydrated
unfoldable pub clear_hydrated : PodStore → Bytes → PodStore
clear_hydrated s uid = elim (get_pod_state s uid) [
  | none ↦ s
  | some ps ↦ trigger_snapshot (put_actor s uid (record ps { hydrated = false }))
]

-- EvictGhost
unfoldable pub evict_ghost : PodStore → Bytes → PodStore
evict_ghost s uid = elim (get_pod_state s uid) [
  | none ↦ s
  | some ps ↦ trigger_snapshot (
      refund
        (record s { pods = delete uid s.pods; name_index = delete (full_name ps.pod) s.name_index })
        ps.pod)
]

-- completedTTL
abbrev pub completed_ttl : Time
completed_ttl = 24 * 3600 * second

-- expireCompleted: an entry that is older than completedTTL goes.
unfoldable pub expire_completed : Time → Map Bytes CompletedEntry → Map Bytes CompletedEntry
expire_completed now [] = []
expire_completed now ((k, e) ∷ m) =
    let rest = expire_completed now m in
    if ltb (e.deleted_at + completed_ttl) now then rest else (k, e) ∷ rest

-- Unregister: the part that every call does. Its readings of the clock are one for the entry and one
-- for expireCompleted.
unfoldable pub complete : PodStore → Bytes → Bytes → Time → Time → PodStore
complete s uid key deleted_at now = record s {
  completed =
      expire_completed now (insert key (record { uid = uid; deleted_at = deleted_at }) s.completed);
}

-- Unregister
unfoldable pub unregister : PodStore → Bytes → Bytes → Bytes → Time → Time → PodStore
unregister s uid namespace name deleted_at now =
    let key = slash namespace name in
    elim (get_pod_state s uid) [
      | none ↦ complete s uid key deleted_at now
      | some ps ↦
          let s' =
            refund
              (complete
                (record s { pods = delete uid s.pods; name_index = delete key s.name_index }) uid
                key deleted_at now)
              ps.pod in
          trigger_snapshot (record s' {
            deleting_count = if ps.deleting then decr32 s'.deleting_count else s'.deleting_count;
          })
    ]

-- The loop of PurgeHydrated: the store without the pods, and the two sums.
unfoldable pub purge_all : List Bytes → PodStore → Int64 → Int64 → PodStore × Int64 × Int64
purge_all [] s cpu mem = (s, cpu, mem)
purge_all (uid ∷ rest) s cpu mem = elim (get_pod_state s uid) [
  | none ↦ purge_all rest s cpu mem
  | some ps ↦
      purge_all rest
        (record s { pods = delete uid s.pods; name_index = delete (full_name ps.pod) s.name_index })
        (add64 cpu (pod_resources ps.pod).0) (add64 mem (pod_resources ps.pod).1)
]

-- PurgeHydrated
unfoldable pub purge_hydrated : PodStore → List Bytes → PodStore
purge_hydrated s stale_uids =
    let (s', cpu, mem) = purge_all stale_uids s 0 0 in
    trigger_snapshot
      (record s' { used_cpu = sub64 s'.used_cpu cpu; used_mem = sub64 s'.used_mem mem })
