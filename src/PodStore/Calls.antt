-- ===== src/PodStore/Calls.antt =====
-- node/podstore.go: what the methods that write a pod's state change, as an edit.
use periapsis.Base.{
  ◌≡◌, inl, inr, refl, sym, ap, Bytes, Bool, Option, none, some, List, lookup, bytes_eq, Time,
  Clock, Option-cases,
}
use periapsis.Foci.Types.{PodPhase, ContainerStatePayload, ContainerInitPayload}
use periapsis.Probe.{ContainerProbeState}
use periapsis.PodStore.Types.{
  StoredPod, full_name, PodActor, PodStatus, PodStore, ContainerRestartState, pod_resources,
  add_resources, trigger_snapshot,
}
use periapsis.PodStore.Registry.{put_actor, promote_running, set_pod_ip, clear_hydrated}
use periapsis.PodStore.Status.{
  set_phase, set_pod_status, sync_status_to_spec, set_container_state, update_pod_status,
  update_status_of, enrich, mark_failed,
}
use periapsis.PodStore.Restarts.{
  init_restart_state_from, with_restart_state, bump_backoff, bumped, update_probe_state,
  reset_probe_state_of, lookup_probe,
}
use periapsis.PodStore.Edits.{Edit, unchanged, wrote, wrote_quietly}

-- A pod that replaces the one under the UID has its name and its resources.
abbrev pub Replaces : PodStore → Bytes → StoredPod → Type 0
Replaces s uid pod =
    (ps : PodActor)
    → lookup uid s.pods ≡ some ps
    → (full_name pod ≡ full_name ps.pod) × (pod_resources pod ≡ pod_resources ps.pod)

-- A write under the lock that does nothing to a pod that is not there.
loud :
    (s : PodStore) (uid : Bytes) (f : PodActor → PodActor)
    → ((ps : PodActor)
        → lookup uid s.pods ≡ some ps
        → (full_name (f ps).pod ≡ full_name ps.pod)
          × (pod_resources (f ps).pod ≡ pod_resources ps.pod))
    → Edit s (elim (lookup uid s.pods) [
      | none ↦ s
      | some ps ↦ trigger_snapshot (put_actor s uid (f ps))
    ])
loud s uid f keeps = elim (Option-cases (lookup uid s.pods)) [
  | inl e ↦ rw e unchanged
  | inr (ps, e) ↦ rw e (wrote uid (f ps) e (keeps ps e).0 (keeps ps e).1)
]

pub promote_running-Edit :
    (s : PodStore) (uid : Bytes) (pod : StoredPod) (ip : Bytes)
    → Replaces s uid pod
    → Edit s (promote_running s uid pod ip)
unfolding promote_running
promote_running-Edit s uid pod ip r = loud s uid _ (λ ps e. r ps e)

pub set_pod_ip-Edit : (s : PodStore) (uid ip : Bytes) → Edit s (set_pod_ip s uid ip)
unfolding set_pod_ip
set_pod_ip-Edit s uid ip = loud s uid _ (λ ps e. (refl, refl))

pub clear_hydrated-Edit : (s : PodStore) (uid : Bytes) → Edit s (clear_hydrated s uid)
unfolding clear_hydrated
clear_hydrated-Edit s uid = loud s uid _ (λ ps e. (refl, refl))

pub set_phase-Edit :
    (s : PodStore) (uid : Bytes) (phase : PodPhase) → Edit s (set_phase s uid phase)
unfolding set_phase pod_resources
set_phase-Edit s uid phase = loud s uid _ (λ ps e. (refl, refl))

pub set_pod_status-Edit :
    (s : PodStore) (uid : Bytes) (status : PodStatus) → Edit s (set_pod_status s uid status)
unfolding set_pod_status pod_resources
set_pod_status-Edit s uid status = loud s uid _ (λ ps e. (refl, refl))

pub mark_failed-Edit :
    (s : PodStore) (uid : Bytes) (pod : StoredPod) (reason message : Bytes)
    → Replaces s uid pod
    → Edit s (mark_failed s uid pod reason message).0
unfolding mark_failed pod_resources
mark_failed-Edit s uid pod reason message r = loud s uid _ (λ ps e. r ps e)

-- The same for a write that a snapshot does not show.
pub quiet :
    (s : PodStore) (uid : Bytes) (ps next : PodActor)
    → lookup uid s.pods ≡ some ps
    → next.pod ≡ ps.pod
    → next.ip ≡ ps.ip
    → next.phase ≡ ps.phase
    → next.hydrated ≡ ps.hydrated
    → Edit s (put_actor s uid next)
quiet s uid ps next e pod ip phase hydrated =
    wrote_quietly uid next e (ap full_name pod) (ap pod_resources pod) (cc (pod, ip, phase))
      hydrated

pub with_restart_state-Edit :
    (s : PodStore) (uid name : Bytes) (f : ContainerRestartState → ContainerRestartState)
    → Edit s (with_restart_state s uid name f)
unfolding with_restart_state
with_restart_state-Edit s uid name f = elim (Option-cases (lookup uid s.pods)) [
  | inl e ↦ rw (e, with_restart_state) unchanged
  | inr (ps, e) ↦ elim (Option-cases (lookup name ps.restarts)) [
    | inl g ↦ rw (e, with_restart_state) (rw g unchanged)
    | inr (rs, g) ↦ rw (e, with_restart_state) (rw g (quiet s uid ps _ e refl refl refl refl))
  ]
]

pub bump_backoff-Edit : (s : PodStore) (uid name : Bytes) → Edit s (bump_backoff s uid name).0
unfolding bump_backoff
bump_backoff-Edit s uid name = elim (Option-cases (lookup uid s.pods)) [
  | inl e ↦ rw (e, bump_backoff) unchanged
  | inr (ps, e) ↦ rw (e, bump_backoff) (with_restart_state-Edit s uid name bumped)
]

pub init_restart_state_from-Edit :
    (s : PodStore) (uid : Bytes) (containers : List ContainerInitPayload) (clock : Clock)
    → Edit s (init_restart_state_from s uid containers clock)
unfolding init_restart_state_from
init_restart_state_from-Edit s uid containers clock = elim (Option-cases (lookup uid s.pods)) [
  | inl e ↦ rw (e, init_restart_state_from) unchanged
  | inr (ps, e) ↦ rw (e, init_restart_state_from) (quiet s uid ps _ e refl refl refl refl)
]

pub update_probe_state-Edit :
    (s : PodStore) (uid name : Bytes) (fn : ContainerProbeState → ContainerProbeState)
    → Edit s (update_probe_state s uid name fn)
unfolding update_probe_state
update_probe_state-Edit s uid name fn = elim (Option-cases (lookup uid s.pods)) [
  | inl e ↦ rw (e, update_probe_state) unchanged
  | inr (ps, e) ↦ elim (Option-cases (lookup_probe name ps.probes)) [
    | inl g ↦ rw (e, update_probe_state) (rw g unchanged)
    | inr (state, g) ↦ rw (e, update_probe_state) (rw g (quiet s uid ps _ e refl refl refl refl))
  ]
]

pub reset_probe_state_of-Edit :
    (s : PodStore) (uid name : Bytes) (now : Time) → Edit s (reset_probe_state_of s uid name now)
unfolding reset_probe_state_of
reset_probe_state_of-Edit s uid name now = elim (Option-cases (lookup uid s.pods)) [
  | inl e ↦ rw (e, reset_probe_state_of) unchanged
  | inr (ps, e) ↦ rw (e, reset_probe_state_of) (quiet s uid ps _ e refl refl refl refl)
]

update_pod_status-Same :
    (name : Bytes) (state : ContainerStatePayload) (ready : Bool) (pod : StoredPod)
    {next : StoredPod}
    → update_pod_status name state ready pod ≡ some next
    → (full_name next ≡ full_name pod) × (next.containers ≡ pod.containers)
unfolding update_pod_status
update_pod_status-Same name state ready pod {next} e =
    elim (Option-cases (update_status_of name state ready pod.status.container_statuses)) [
      | inr (statuses, g) ↦ same _ (rw (g, update_pod_status) at e)
      | inl g ↦
          elim (Option-cases
            (update_status_of name state ready pod.status.init_container_statuses)) [
              | inr (statuses, k) ↦ same _ (rw (g, k, update_pod_status) at e)
              | inl k ↦ cc (rw (g, k, update_pod_status) at e)
            ]
    ]
  where
    same :
        (status : PodStatus)
        → ◌≡◌ {A = Option StoredPod} (some (record pod { status = status })) (some next)
        → (full_name next ≡ full_name pod) × (next.containers ≡ pod.containers)
    same status h =
        let next_is : record pod { status = status } ≡ next = cc in
        (ap full_name (sym next_is), ap (λ (p : StoredPod). p.containers) (sym next_is))

pub set_container_state-Edit :
    (s : PodStore) (uid name : Bytes) (state : ContainerStatePayload) (ready : Bool) (now : Time)
    → Edit s (set_container_state s uid name state ready now).0
unfolding set_container_state sync_status_to_spec pod_resources
set_container_state-Edit s uid name state ready now = elim (Option-cases (lookup uid s.pods)) [
  | inl e ↦ rw (e, set_container_state) unchanged
  | inr (ps, e) ↦
      let pod = sync_status_to_spec ps.pod in
      elim (Option-cases
        (update_pod_status name (enrich (lookup name ps.restarts) state now) ready pod)) [
          | inl g ↦
              rw (e, set_container_state)
                (rw g (wrote_quietly uid (record ps { pod = pod }) e refl refl refl refl))
          | inr (next, g) ↦
              let (named, held) = update_pod_status-Same name _ ready pod g in
              rw (e, set_container_state)
                (rw g (
                  wrote uid (record ps { pod = next }) e named
                    (ap (λ cs. add_resources cs 0 0) held)))
        ]
]
