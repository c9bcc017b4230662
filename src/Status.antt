-- ===== src/Status.antt =====
-- node/status.go: the status of a pod as it is reported. The log is left out, and so is the start time,
-- which is copied.
pub mod Phase
pub mod Ready
pub mod Answers
pub mod Examples
use periapsis.Base.{
  ℕ, Bytes, bytes, is_empty, Bool, true, false, not, ◌&&◌, ◌||◌, ◌==◌, Option, none, some, List, [],
  ◌∷◌, if◌then◌else◌, Map, lookup, insert, bytes_eq, Time, Int32,
}
use periapsis.Foci.Types.{
  MachineState, state_running, state_creating, state_unknown, state_failed, state_exited,
  RestartPolicy, policy_always, policy_on_failure, policy_never, policy_other, PodPhase,
  pod_pending, pod_running, pod_succeeded, pod_failed, ContainerStatusPayload,
  ContainerStatePayload,
}
use periapsis.Foci.Phase.{pod_phase_number}
use periapsis.PodStore.Types.{PodContainer, PodStatus, StoredPod, PodStore}
use periapsis.PodStore.Status.{existing_from, no_state}
use periapsis.PodStore.Restarts.{restart_counts, container_started_at, is_container_ready}
use periapsis.PodStore.Queries.{get_pod, pod_phase, pod_ip}

-- The corev1.PodStatus of buildPodStatus. `ready` says that the PodReady condition is True.
pub record BuiltStatus : Type 0 where
  pub phase : PodPhase
  pub host_ip : Bytes
  pub pod_ip : Bytes
  pub pod_ips : List Bytes
  pub ready : Bool
  pub container_statuses : List ContainerStatusPayload

-- What the restart policy of the pod means: the empty string is Always.
abbrev pub policy_of : Option RestartPolicy → RestartPolicy
policy_of none = policy_always
policy_of (some p) = p

-- restarts[name] of a map of counts
abbrev pub or_no_count : Option Int32 → Int32
or_no_count none = 0
or_no_count (some n) = n

abbrev pub waiting_for : Bytes → ContainerStatePayload
waiting_for reason = record { waiting = some reason; running = none; terminated = none }

-- Does the policy restart a container that has failed, or one that has exited?
unfoldable pub restarts_failed : RestartPolicy → Bool
restarts_failed policy_always = true
restarts_failed policy_on_failure = true
restarts_failed policy_never = false
restarts_failed policy_other = false

unfoldable pub restarts_exited : RestartPolicy → Bool
restarts_exited policy_always = true
restarts_exited policy_on_failure = false
restarts_exited policy_never = false
restarts_exited policy_other = false

abbrev pub terminated_with : Int32 → Bytes → Time → Time → ContainerStatePayload
terminated_with code reason started_at now = record {
  waiting = none;
  running = none;
  terminated =
      some
        (record { exit_code = code; reason = reason; started_at = started_at; finished_at = now });
}

-- The last status of a container whose state is unknown, if it was running then.
abbrev pub last_running : Option ContainerStatusPayload → Option ContainerStatusPayload
last_running none = none
last_running (some p) = elim p.state.running [ none ↦ none | some _ ↦ some p ]

-- A status without its state, as the loop starts it.
abbrev pub blank : PodStore → Bytes → PodContainer → ContainerStatusPayload
blank s uid c = record {
  name = c.name;
  image = c.image;
  ready = false;
  restart_count = or_no_count (lookup c.name (restart_counts s uid));
  state = no_state;
}

abbrev pub creating : PodStore → Bytes → PodContainer → ContainerStatusPayload
creating s uid c = record (blank s uid c) { state = waiting_for (bytes "ContainerCreating") }

abbrev pub crash_loop : PodStore → Bytes → PodContainer → ContainerStatusPayload
crash_loop s uid c = record (blank s uid c) { state = waiting_for (bytes "CrashLoopBackOff") }

-- The case StateUnknown; the phase is the one so far.
abbrev pub unknown_status :
    PodStore
    → Bytes
    → PodContainer
    → Option ContainerStatusPayload
    → PodPhase
    → ContainerStatusPayload
unknown_status s uid c previous phase =
    if pod_phase_number phase == pod_phase_number pod_pending
    then (elim (last_running previous) [
      | none ↦ creating s uid c
      | some p ↦ record (blank s uid c) { ready = p.ready; state = p.state }
    ])
    else creating s uid c

-- The switch on the state of a container, which is one of the five constants: its status and the phase
-- after it. `now` is the reading of the
-- clock for FinishedAt.
unfoldable pub container_status :
    PodStore
    → Bytes
    → RestartPolicy
    → Option ContainerStatusPayload
    → PodContainer
    → Time
    → PodPhase
    → MachineState
    → ContainerStatusPayload × PodPhase
container_status s uid policy previous c now phase state_running = (
  record (blank s uid c) {
    ready = is_container_ready s uid c.name;
    state = record {
      waiting = none;
      running = some (container_started_at s uid c.name);
      terminated = none;
    };
  },
  phase,
)
container_status s uid policy previous c now phase state_creating = (creating s uid c, pod_pending)
container_status s uid policy previous c now phase state_unknown =
    (unknown_status s uid c previous phase, phase)
container_status s uid policy previous c now phase state_failed =
    if restarts_failed policy then (crash_loop s uid c, pod_running) else (
      record (blank s uid c) {
        state = terminated_with 1 (bytes "Error") (container_started_at s uid c.name) now;
      },
      phase,
    )
container_status s uid policy previous c now phase state_exited =
    if restarts_exited policy then (crash_loop s uid c, pod_running) else (
      record (blank s uid c) {
        state = terminated_with 0 (bytes "Completed") (container_started_at s uid c.name) now;
      },
      phase,
    )

-- `state_lookup name` is the state of that container of the pod, `clock` the reading for its FinishedAt.
module _ (s : PodStore) (uid : Bytes) (policy : RestartPolicy)
    (previous : Map Bytes ContainerStatusPayload) (state_lookup : Bytes → MachineState)
    (clock : Bytes → Time) where
  abbrev pub status_of : PodContainer → PodPhase → ContainerStatusPayload × PodPhase
  status_of c phase =
      container_status s uid policy (lookup c.name previous) c (clock c.name) phase
        (state_lookup c.name)

  -- The loop of buildPodStatus over the containers, from the phase so far: the statuses, the phase, and
  -- whether all are ready.
  unfoldable pub build_statuses :
      List PodContainer → PodPhase → List ContainerStatusPayload × PodPhase × Bool
  build_statuses [] phase = ([], phase, true)
  build_statuses (c ∷ rest) phase =
      let (cs, next) = status_of c phase in
      let (statuses, last, ready) = build_statuses rest next in
      (cs ∷ statuses, last, cs.ready && ready)

-- The PodIPs of an IP.
abbrev pub pod_ips_of : Bytes → List Bytes
pod_ips_of ip = if is_empty ip then [] else ip ∷ []

-- buildPodStatus; `host_ip` is resolveNodeIP of the configuration.
unfoldable pub build_pod_status :
    PodStore → Bytes → StoredPod → (Bytes → Bytes → MachineState) → (Bytes → Time) → BuiltStatus
build_pod_status s host_ip pod state_lookup clock =
    let (statuses, phase, ready) =
      build_statuses s pod.uid (policy_of pod.restart_policy)
        (existing_from pod.status.container_statuses []) (state_lookup pod.uid) clock pod.containers
        pod_running in
    let ip = pod_ip s pod.uid in
    record {
      phase = phase;
      host_ip = host_ip;
      pod_ip = ip;
      pod_ips = pod_ips_of ip;
      ready = ready;
      container_statuses = statuses;
    }

-- What GetPodStatus returns: an error, a bare Pending status, a copy of the stored status, or a status
-- that it builds.
pub data StatusAnswer : Type 0 where
  not_found : StatusAnswer
  pending : Bytes → List Bytes → StatusAnswer
  stored : PodStatus → StatusAnswer
  built : BuiltStatus → StatusAnswer

abbrev pub is_phase : PodPhase → PodPhase → Bool
is_phase p q = pod_phase_number p == pod_phase_number q

-- GetPodStatus. `state_lookup` is the cache of the batch watcher or, without one, the query of the
-- runtime, where an error is StateUnknown.
unfoldable pub get_pod_status :
    PodStore
    → Bytes
    → Bytes
    → Bytes
    → (Bytes → Bytes → MachineState)
    → (Bytes → Time)
    → StatusAnswer
get_pod_status s host_ip namespace name state_lookup clock = elim (get_pod s namespace name) [
  | none ↦ not_found
  | some pod ↦
      let phase = pod_phase s pod.uid in
      if is_phase phase pod_pending
      then pending (pod_ip s pod.uid) (pod_ips_of (pod_ip s pod.uid))
      else if is_phase phase pod_succeeded || is_phase phase pod_failed
      then stored pod.status
      else if is_phase pod.status.phase pod_failed
      then stored pod.status
      else built (build_pod_status s host_ip pod state_lookup clock)
]
