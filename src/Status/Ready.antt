-- ===== src/Status/Ready.antt =====
-- node/status.go: the Ready condition of a pod.
use periapsis.Base.{
  Bytes, true, false, Option, List, [], ◌∷◌, if_cases, Map, lookup, bytes_eq, Time, All, ◌≡◌, ◌≢◌,
  ◌↔◌, refl, some, inl, inr, Option-cases, arith,
}
use periapsis.Foci.Types.{
  MachineState, state_running, state_creating, state_unknown, state_failed, state_exited,
  RestartPolicy, PodPhase, pod_running, ContainerStatusPayload,
}
use periapsis.PodStore.Types.{PodContainer, StoredPod, PodStore}
use periapsis.PodStore.Status.{existing_from}
use periapsis.PodStore.Restarts.{is_container_ready}
use periapsis.PodStore.Restarts.{probe_state}
use periapsis.Probe.{ContainerProbeState}
use periapsis.Status.{
  restarts_failed, restarts_exited, container_status, build_statuses, build_pod_status, policy_of,
  status_of,
}

-- The container runs, and if a state of its probes is kept then that says ready. A container of which none
-- is kept counts as ready, also if it has a readiness probe.
abbrev pub IsUp : PodStore → Bytes → PodContainer → MachineState → Type 0
IsUp s uid c state =
    (state ≡ state_running)
    × ((probe : ContainerProbeState) → probe_state s uid c.name ≡ some probe → probe.ready ≡ true)

is_container_ready-IsUp :
    (s : PodStore) (uid : Bytes) (c : PodContainer)
    → (is_container_ready s uid c.name ≡ true) ↔ IsUp s uid c state_running
unfolding is_container_ready
is_container_ready-IsUp s uid c = elim (Option-cases (probe_state s uid c.name)) [
  | inl e ↦ rw (e, is_container_ready) (λ _. (refl, λ probe held. cc held), λ _. refl)
  | inr (kept, e) ↦
      rw (e, is_container_ready)
        (λ ready. (refl, λ probe held. cc (held, ready)), λ up. up.1 kept refl)
]

module _ (s : PodStore) (uid : Bytes) (policy : RestartPolicy)
    (previous : Map Bytes ContainerStatusPayload) (state_lookup : Bytes → MachineState)
    (clock : Bytes → Time) where
  -- A container whose status is not ready is not up.
  down :
      (c : PodContainer) {state : MachineState}
      → state ≢ state_running
      → (false ≡ true) ↔ IsUp s uid c state
  down c not_running = (λ e. cc e, λ up. absurd (not_running up.0))

  container_status-ready :
      (p : Option ContainerStatusPayload) (c : PodContainer) (now : Time) (phase : PodPhase)
      (state : MachineState)
      → state ≢ state_unknown
      → ((container_status s uid policy p c now phase state).0.ready ≡ true) ↔ IsUp s uid c state
  unfolding container_status
  container_status-ready p c now phase state_running known = is_container_ready-IsUp s uid c
  container_status-ready p c now phase state_creating known = down c (λ e. cc e)
  container_status-ready p c now phase state_unknown known = absurd (known refl)
  container_status-ready p c now phase state_failed known =
      let is_down : (false ≡ true) ↔ IsUp s uid c state_failed = down c (λ e. cc e) in
      if_cases
        (λ (x : ContainerStatusPayload × PodPhase). (x.0.ready ≡ true) ↔ IsUp s uid c state_failed)
        (restarts_failed policy) (λ _. is_down) (λ _. is_down)
  container_status-ready p c now phase state_exited known =
      let is_down : (false ≡ true) ↔ IsUp s uid c state_exited = down c (λ e. cc e) in
      if_cases
        (λ (x : ContainerStatusPayload × PodPhase). (x.0.ready ≡ true) ↔ IsUp s uid c state_exited)
        (restarts_exited policy) (λ _. is_down) (λ _. is_down)

  build_statuses-ready :
      (l : List PodContainer) (phase : PodPhase)
      → All (λ c. state_lookup c.name ≢ state_unknown) l
      → ((build_statuses s uid policy previous state_lookup clock l phase).2 ≡ true)
        ↔ All (λ c. IsUp s uid c (state_lookup c.name)) l
  unfolding build_statuses
  build_statuses-ready [] phase h = (λ _. tt, λ _. refl)
  build_statuses-ready (c ∷ l) phase (known, h) =
      let first =
        container_status-ready (lookup c.name previous) c (clock c.name) phase (state_lookup c.name)
          known in
      let later =
        build_statuses-ready l (status_of s uid policy previous state_lookup clock c phase).1 h in
      (
        λ e. (first.0 (ground (arith, e)), later.0 (ground (arith, e))),
        λ up. ground (arith, first.1 up.0, later.1 up.1),
      )

-- If the state of no container is unknown, the Ready condition is True exactly if every container
-- runs and none has a probe state in the store that says that it is not ready; a container
-- without a probe state in the store counts as ready, also if it has a readiness probe.
pub build_pod_status-ready :
    (s : PodStore) (host_ip : Bytes) (pod : StoredPod) (state_lookup : Bytes → Bytes → MachineState)
    (clock : Bytes → Time)
    → All (λ c. state_lookup pod.uid c.name ≢ state_unknown) pod.containers
    → ((build_pod_status s host_ip pod state_lookup clock).ready ≡ true)
      ↔ All (λ c. IsUp s pod.uid c (state_lookup pod.uid c.name)) pod.containers
unfolding build_pod_status
build_pod_status-ready s host_ip pod state_lookup clock known =
    build_statuses-ready s pod.uid (policy_of pod.restart_policy)
      (existing_from pod.status.container_statuses []) (state_lookup pod.uid) clock pod.containers
      pod_running known
