-- ===== src/PodStore/Status.antt =====
-- node/podstore.go: the methods that write the status of a pod. The log is left out.
use periapsis.Base.{
  Bytes, str_eq, Bool, true, false, Option, none, some, List, [], ◌∷◌, if◌then◌else◌, Map, lookup,
  insert, bytes_eq, Time, ◌==◌,
}
use periapsis.Foci.Types.{
  PodPhase, pod_failed, ContainerStatusPayload, ContainerStatePayload, TerminatedPayload,
}
use periapsis.PodStore.Types.{
  StoredPod, PodStatus, PodContainer, ContainerRestartState, PodActor, PodStore, trigger_snapshot,
  get_pod_state,
}
use periapsis.PodStore.Registry.{put_actor}

-- The map `existing` of syncSlice: the last status of each name. It stands for the index.
unfoldable pub existing_from :
    List ContainerStatusPayload
    → Map Bytes ContainerStatusPayload
    → Map Bytes ContainerStatusPayload
existing_from [] m = m
existing_from (s ∷ rest) m = existing_from rest (insert s.name s m)

abbrev pub existing : List ContainerStatusPayload → Map Bytes ContainerStatusPayload
existing statuses = existing_from statuses []

-- Is there a container without a status?
unfoldable pub needs_sync : Map Bytes ContainerStatusPayload → List PodContainer → Bool
needs_sync m [] = false
needs_sync m (c ∷ rest) = elim (lookup c.name m) [ none ↦ true | some _ ↦ needs_sync m rest ]

abbrev pub no_state : ContainerStatePayload
no_state = record { waiting = none; running = none; terminated = none }

abbrev pub new_status : PodContainer → ContainerStatusPayload
new_status c = record {
  name = c.name;
  image = [];
  ready = false;
  restart_count = 0;
  state = no_state;
}

abbrev pub or_new : PodContainer → Option ContainerStatusPayload → ContainerStatusPayload
or_new c none = new_status c
or_new c (some s) = s

-- The loop of syncSlice that rebuilds the statuses in the order of the spec.
unfoldable pub rebuild :
    Map Bytes ContainerStatusPayload → List PodContainer → List ContainerStatusPayload
rebuild m [] = []
rebuild m (c ∷ rest) = or_new c (lookup c.name m) ∷ rebuild m rest

-- syncSlice; with no containers nothing needs a status.
unfoldable pub sync_slice :
    List PodContainer → List ContainerStatusPayload → List ContainerStatusPayload
sync_slice spec statuses =
    if needs_sync (existing statuses) spec then rebuild (existing statuses) spec else statuses

-- syncStatusToSpec
unfoldable pub sync_status_to_spec : StoredPod → StoredPod
sync_status_to_spec pod = record pod {
  status = record pod.status {
    container_statuses = sync_slice pod.containers pod.status.container_statuses;
    init_container_statuses = sync_slice pod.init_containers pod.status.init_container_statuses;
  };
}

-- SetPhase: the writes of setPhase.
abbrev pub with_phase : PodActor → PodPhase → PodActor
with_phase ps phase = record ps {
  phase = phase;
  pod = record ps.pod { status = record ps.pod.status { phase = phase } };
}

-- SetPhase
unfoldable pub set_phase : PodStore → Bytes → PodPhase → PodStore
set_phase s uid phase = elim (get_pod_state s uid) [
  | none ↦ s
  | some ps ↦ trigger_snapshot (put_actor s uid (with_phase ps phase))
]

-- SetPodStatus
unfoldable pub set_pod_status : PodStore → Bytes → PodStatus → PodStore
set_pod_status s uid status = elim (get_pod_state s uid) [
  | none ↦ s
  | some ps ↦
      let ps' = with_phase ps status.phase in
      trigger_snapshot (put_actor s uid (record ps' { pod = record ps'.pod { status = status } }))
]

-- A timestamp that is set if it was not.
abbrev pub or_at : Time → Time → Time
or_at t at = if t == 0 then at else t

abbrev pub enrich_running : Time → Option Time → Option Time
enrich_running started_at none = none
enrich_running started_at (some t) = some (or_at t started_at)

abbrev pub enrich_terminated : Time → Time → Option TerminatedPayload → Option TerminatedPayload
enrich_terminated started_at now none = none
enrich_terminated started_at now (some t) =
    some (record t {
      started_at = or_at t.started_at started_at;
      finished_at = or_at t.finished_at now;
    })

-- The timestamps that SetContainerState takes from the restart state.
unfoldable pub enrich :
    Option ContainerRestartState → ContainerStatePayload → Time → ContainerStatePayload
enrich none state now = state
enrich (some rs) state now = if rs.last_started == 0 then state else record state {
  running = enrich_running rs.last_started state.running;
  terminated = enrich_terminated rs.last_started now state.terminated;
}

-- The loops of SetContainerState: the first status of that name; `none` says that there is none.
unfoldable pub update_status_of :
    Bytes
    → ContainerStatePayload
    → Bool
    → List ContainerStatusPayload
    → Option (List ContainerStatusPayload)
update_status_of name state ready [] = none
update_status_of name state ready (s ∷ rest) =
    let on = update_status_of name state ready rest in
    if str_eq s.name name
    then some (record s { state = state; ready = ready } ∷ rest)
    else (elim on [ none ↦ none | some rest' ↦ some (s ∷ rest') ])

-- Step 2 of SetContainerState: the statuses of the containers, then those of the init containers.
unfoldable pub update_pod_status :
    Bytes → ContainerStatePayload → Bool → StoredPod → Option StoredPod
update_pod_status name state ready pod =
    elim (update_status_of name state ready pod.status.container_statuses) [
      | some statuses ↦
          some (record pod { status = record pod.status { container_statuses = statuses } })
      | none ↦ elim (update_status_of name state ready pod.status.init_container_statuses) [
        | some statuses ↦
            some (record pod { status = record pod.status { init_container_statuses = statuses } })
        | none ↦ none
      ]
    ]

-- SetContainerState; the Bool is `changed`: without it an error is logged. The reading of the clock
-- is the one for FinishedAt.
unfoldable pub set_container_state :
    PodStore → Bytes → Bytes → ContainerStatePayload → Bool → Time → PodStore × Bool
set_container_state s uid name state ready now = elim (get_pod_state s uid) [
  | none ↦ (s, false)
  | some ps ↦
      let pod = sync_status_to_spec ps.pod in
      elim (update_pod_status name (enrich (lookup name ps.restarts) state now) ready pod) [
        | some pod' ↦ (trigger_snapshot (put_actor s uid (record ps { pod = pod' })), true)
        | none ↦ (put_actor s uid (record ps { pod = pod }), false)
      ]
]

-- MarkFailed: the copy of the pod with the failure.
abbrev pub failed_pod : StoredPod → Bytes → Bytes → StoredPod
failed_pod pod reason message = record pod {
  status = record pod.status { phase = pod_failed; reason = reason; message = message };
}

-- MarkFailed
unfoldable pub mark_failed : PodStore → Bytes → StoredPod → Bytes → Bytes → PodStore × StoredPod
mark_failed s uid pod reason message =
    let failed = failed_pod pod reason message in
    (
      elim (get_pod_state s uid) [
        | none ↦ s
        | some ps ↦
            trigger_snapshot (put_actor s uid (record ps { pod = failed; phase = pod_failed }))
      ],
      failed,
    )
