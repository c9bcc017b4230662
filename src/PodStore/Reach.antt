-- ===== src/PodStore/Reach.antt =====
-- node/podstore.go: the calls of the store's users, in any order, and what they must keep to.
use periapsis.Base.{
  ℕ, ◌≡◌, inl, inr, refl, Bytes, Bool, none, some, List, if_cases, lookup, bytes_eq, Int32,
  Duration, Time, Clock, arith,
}
use periapsis.Foci.Types.{PodPhase, ContainerStatePayload, ContainerInitPayload}
use periapsis.Probe.{ContainerProbeState}
use periapsis.PodStore.Types.{
  StoredPod, full_name, slash, PodStatus, PodStore, new_pod_store, trigger_snapshot,
}
use periapsis.PodStore.Registry.{
  register_pending, register_hydrated, HydratedEntry, register_hydrated_batch, already_running,
  promote_running, mark_deleting, set_pod_ip, clear_hydrated, evict_ghost, unregister,
  purge_hydrated,
}
use periapsis.PodStore.Status.{set_phase, set_pod_status, set_container_state, mark_failed}
use periapsis.PodStore.Restarts.{
  init_restart_state_from, init_restart_state_of, increment_restart, patch_restart_count,
  patch_backoff, mark_restarted, reset_backoff, bump_backoff, update_probe_state,
  reset_probe_state_of,
}
use periapsis.PodStore.Queries.{aggregate, load_snapshot, snapshots, find_pod_uid, get_pod}
use periapsis.PodStore.Edits.{Edit, aggregated, IsAccounted, new_pod_store-IsAccounted}
use periapsis.PodStore.Consistent.{Edit-IsAccounted}
use periapsis.PodStore.Batch.{InWord}
use periapsis.PodStore.Calls.{
  Replaces, promote_running-Edit, set_pod_ip-Edit, clear_hydrated-Edit, set_phase-Edit,
  set_pod_status-Edit, mark_failed-Edit, with_restart_state-Edit, bump_backoff-Edit,
  init_restart_state_from-Edit, update_probe_state-Edit, reset_probe_state_of-Edit,
  set_container_state-Edit,
}
use periapsis.PodStore.Registrations.{
  Names, AllNew, register_pending-Edit, register_hydrated-Edit, mark_deleting-Edit,
  evict_ghost-Edit, unregister-Edit, already_running-Edit, register_hydrated_batch-Edit,
  purge_hydrated-Edit,
}

-- A call of a method. A pod is registered under a UID that is not in use; a pod that replaces another
-- has its name and resources, and a name that is given with a UID is that of its pod.
pub data Step : PodStore → PodStore → Type 0 where
  registered_pending :
      {s : PodStore} (uid : Bytes) (pod : StoredPod) (handle : ℕ)
      → lookup uid s.pods ≡ none
      → Step s (register_pending s uid pod handle)
  registered_hydrated :
      {s : PodStore} (uid : Bytes) (pod : StoredPod) (ip : Bytes)
      → lookup uid s.pods ≡ none
      → Step s (register_hydrated s uid pod ip)
  registered_batch :
      {s : PodStore} (entries : List HydratedEntry)
      → AllNew entries (trigger_snapshot s)
      → Step s (register_hydrated_batch s entries)
  found_running :
      {s : PodStore} (uid : Bytes) (pod : StoredPod)
      → Names s uid (full_name pod)
      → Step s (already_running s uid pod).0
  promoted :
      {s : PodStore} (uid : Bytes) (pod : StoredPod) (ip : Bytes)
      → Replaces s uid pod
      → Step s (promote_running s uid pod ip)
  failed :
      {s : PodStore} (uid : Bytes) (pod : StoredPod) (reason message : Bytes)
      → Replaces s uid pod
      → Step s (mark_failed s uid pod reason message).0
  unregistered :
      {s : PodStore} (uid namespace name : Bytes) (deleted_at now : Time)
      → Names s uid (slash namespace name)
      → Step s (unregister s uid namespace name deleted_at now)
  ghost_evicted : {s : PodStore} (uid : Bytes) → Step s (evict_ghost s uid)
  purged : {s : PodStore} (uids : List Bytes) → Step s (purge_hydrated s uids)
  marked_deleting : {s : PodStore} (uid : Bytes) → Step s (mark_deleting s uid)
  cleared : {s : PodStore} (uid : Bytes) → Step s (clear_hydrated s uid)
  ip_set : {s : PodStore} (uid ip : Bytes) → Step s (set_pod_ip s uid ip)
  phase_set : {s : PodStore} (uid : Bytes) (phase : PodPhase) → Step s (set_phase s uid phase)
  status_set :
      {s : PodStore} (uid : Bytes) (status : PodStatus) → Step s (set_pod_status s uid status)
  container_set :
      {s : PodStore} (uid name : Bytes) (state : ContainerStatePayload) (ready : Bool) (now : Time)
      → Step s (set_container_state s uid name state ready now).0
  restarts_made :
      {s : PodStore} (uid : Bytes) (containers : List ContainerInitPayload) (clock : Clock)
      → Step s (init_restart_state_from s uid containers clock)
  pod_restarts_made :
      {s : PodStore} (pod : StoredPod) (clock : Clock) → Step s (init_restart_state_of s pod clock)
  restart_counted :
      {s : PodStore} (uid name : Bytes) (now : Time) → Step s (increment_restart s uid name now)
  count_patched :
      {s : PodStore} (uid name : Bytes) (count : Int32)
      → Step s (patch_restart_count s uid name count)
  backoff_patched :
      {s : PodStore} (uid name : Bytes) (backoff : Duration)
      → Step s (patch_backoff s uid name backoff)
  restart_marked :
      {s : PodStore} (uid name : Bytes) (now : Time) → Step s (mark_restarted s uid name now)
  backoff_reset : {s : PodStore} (uid name : Bytes) → Step s (reset_backoff s uid name)
  backoff_bumped : {s : PodStore} (uid name : Bytes) → Step s (bump_backoff s uid name).0
  probe_updated :
      {s : PodStore} (uid name : Bytes) (fn : ContainerProbeState → ContainerProbeState)
      → Step s (update_probe_state s uid name fn)
  probe_reset :
      {s : PodStore} (uid name : Bytes) (now : Time) → Step s (reset_probe_state_of s uid name now)
  snapshot_taken : {s : PodStore} → Step s (aggregate s)

-- The states of a store that NewPodStore has made.
pub data Reach : PodStore → Type 0 where
  made : Reach new_pod_store
  stepped : {s t : PodStore} → Reach s → Step s t → Reach t

InWord-counts : (s : PodStore) → IsAccounted s → InWord s
InWord-counts s c = (omega (arith, c.cpu), omega (arith, c.mem))

Step-Edit : {s t : PodStore} → Step s t → IsAccounted s → Edit s t
unfolding init_restart_state_of increment_restart patch_restart_count patch_backoff mark_restarted
    reset_backoff
Step-Edit (registered_pending {s} uid pod handle new) c = register_pending-Edit s uid pod handle new
Step-Edit (registered_hydrated {s} uid pod ip new) c = register_hydrated-Edit s uid pod ip new
Step-Edit (registered_batch {s} entries new) c =
    register_hydrated_batch-Edit s entries (InWord-counts s c) new
Step-Edit (found_running {s} uid pod names) c = already_running-Edit s uid pod names
Step-Edit (promoted {s} uid pod ip r) c = promote_running-Edit s uid pod ip r
Step-Edit (failed {s} uid pod reason message r) c = mark_failed-Edit s uid pod reason message r
Step-Edit (unregistered {s} uid namespace name deleted_at now names) c =
    unregister-Edit s uid namespace name deleted_at now names
Step-Edit (ghost_evicted {s} uid) c = evict_ghost-Edit s uid
Step-Edit (purged {s} uids) c = purge_hydrated-Edit s uids (InWord-counts s c)
Step-Edit (marked_deleting {s} uid) c = mark_deleting-Edit s uid
Step-Edit (cleared {s} uid) c = clear_hydrated-Edit s uid
Step-Edit (ip_set {s} uid ip) c = set_pod_ip-Edit s uid ip
Step-Edit (phase_set {s} uid phase) c = set_phase-Edit s uid phase
Step-Edit (status_set {s} uid status) c = set_pod_status-Edit s uid status
Step-Edit (container_set {s} uid name state ready now) c =
    set_container_state-Edit s uid name state ready now
Step-Edit (restarts_made {s} uid containers clock) c =
    init_restart_state_from-Edit s uid containers clock
Step-Edit (pod_restarts_made {s} pod clock) c = init_restart_state_from-Edit s pod.uid _ clock
Step-Edit (restart_counted {s} uid name now) c = with_restart_state-Edit s uid name _
Step-Edit (count_patched {s} uid name count) c = with_restart_state-Edit s uid name _
Step-Edit (backoff_patched {s} uid name backoff) c = with_restart_state-Edit s uid name _
Step-Edit (restart_marked {s} uid name now) c = with_restart_state-Edit s uid name _
Step-Edit (backoff_reset {s} uid name) c = with_restart_state-Edit s uid name _
Step-Edit (backoff_bumped {s} uid name) c = bump_backoff-Edit s uid name
Step-Edit (probe_updated {s} uid name fn) c = update_probe_state-Edit s uid name fn
Step-Edit (probe_reset {s} uid name now) c = reset_probe_state_of-Edit s uid name now
Step-Edit (snapshot_taken {s}) c = aggregated

-- Whatever methods are called, in whatever order, where a pod is registered under a UID that is
-- not in use, a pod that replaces another has its name and its requests, and a name given with a
-- UID is that of its pod: the counters of CPU and memory are the sums (as int64) of what the
-- registered pods request, each entry of the name index leads to a registered pod of that name,
-- and the snapshot shows the pods that are not hydrated as they are unless a signal to renew it
-- is pending.
pub Reach-IsAccounted : {s : PodStore} → Reach s → IsAccounted s
Reach-IsAccounted made = new_pod_store-IsAccounted
Reach-IsAccounted (stepped r s) = let c = Reach-IsAccounted r in Edit-IsAccounted (Step-Edit s c) c

-- No update of the snapshot is lost: in every state that the methods reach, on the same terms,
-- one round of the aggregator is enough for LoadSnapshot to show all pods that are not hydrated
-- as they are.
pub Reach-load_snapshot : {s : PodStore} → Reach s → load_snapshot (aggregate s) ≡ snapshots s.pods
unfolding aggregate load_snapshot
Reach-load_snapshot {s} r =
    let c = Reach-IsAccounted r in
    elim c.replica [
      | inl pending ↦ rw pending refl
      | inr fresh ↦
          if_cases (λ (t : PodStore). load_snapshot t ≡ snapshots s.pods) s.triggered (λ _. refl)
            (λ _. fresh)
    ]

-- In every state that the methods reach, a name that FindPodUID finds is the name of the pod that
-- GetPod returns for it.
pub Reach-get_pod :
    {s : PodStore} (namespace name : Bytes) {uid : Bytes}
    → Reach s
    → find_pod_uid s namespace name ≡ some uid
    → (pod : StoredPod) × (get_pod s namespace name ≡ some pod)
      × (full_name pod ≡ slash namespace name)
unfolding find_pod_uid get_pod
Reach-get_pod {s} namespace name {uid} r e =
    let (ps, at, named) = (Reach-IsAccounted r).index (slash namespace name) uid e in
    (ps.pod, rw (e, get_pod) (rw at refl), named)
