-- ===== src/PodStore/Restarts.antt =====
-- node/podstore.go: the restart and probe states of a pod's containers. The log is left out.
use periapsis.Base.{
  ◌*◌, Bytes, Bool, true, not, Option, none, some, List, [], ◌∷◌, if◌then◌else◌, Map, lookup,
  insert, bytes_eq, Int32, incr32, Duration, slt64, double64, minute, Time, Clock, after, map,
}
use periapsis.Foci.Types.{ContainerInitPayload}
use periapsis.Probe.{ContainerProbeState}
use periapsis.Probe.Scheduler.{reset_probe_state}
use periapsis.PodStore.Types.{
  StoredPod, PodContainer, ContainerRestartState, restart_backoff, PodStore, get_pod_state,
}
use periapsis.PodStore.Registry.{put_actor}

abbrev pub new_restart_state : Time → ContainerRestartState
new_restart_state now = record { count = 0; backoff = restart_backoff; last_started = now }

abbrev pub new_probe_state : Time → Bool → ContainerProbeState
new_probe_state now ready = record (reset_probe_state now) { ready = ready }

-- The loop of InitRestartStateFrom: two readings of the clock for each container.
unfoldable pub init_states :
    List ContainerInitPayload
    → Clock
    → Map Bytes ContainerRestartState
    → Map Bytes ContainerProbeState
    → Map Bytes ContainerRestartState × Map Bytes ContainerProbeState
init_states [] clock rs probes = (rs, probes)
init_states (c ∷ rest) clock rs probes =
    init_states rest (after 2 clock) (insert c.name (new_restart_state (clock 0)) rs)
      (insert c.name (new_probe_state (clock 1) (not c.has_readiness_probe)) probes)

-- InitRestartStateFrom
unfoldable pub init_restart_state_from :
    PodStore → Bytes → List ContainerInitPayload → Clock → PodStore
init_restart_state_from s uid containers clock = elim (get_pod_state s uid) [
  | none ↦ s
  | some ps ↦
      let (rs, probes) = init_states containers clock [] [] in
      put_actor s uid (record ps { restarts = rs; probes = some probes })
]

-- What InitRestartState reads of a container of the pod.
abbrev pub init_payload_of : PodContainer → ContainerInitPayload
init_payload_of c = record { name = c.name; has_readiness_probe = c.has_readiness_probe }

-- InitRestartState: the same over the containers of the pod, under its own UID.
unfoldable pub init_restart_state_of : PodStore → StoredPod → Clock → PodStore
init_restart_state_of s pod clock =
    init_restart_state_from s pod.uid (map init_payload_of pod.containers) clock

-- A write to the restart state of a container, if it has one.
unfoldable pub with_restart_state :
    PodStore → Bytes → Bytes → (ContainerRestartState → ContainerRestartState) → PodStore
with_restart_state s uid name f = elim (get_pod_state s uid) [
  | none ↦ s
  | some ps ↦ elim (lookup name ps.restarts) [
    | none ↦ s
    | some rs ↦ put_actor s uid (record ps { restarts = insert name (f rs) ps.restarts })
  ]
]

-- IncrementRestart
unfoldable pub increment_restart : PodStore → Bytes → Bytes → Time → PodStore
increment_restart s uid name now =
    with_restart_state s uid name (λ rs. record rs { count = incr32 rs.count; last_started = now })

-- PatchRestartCount
unfoldable pub patch_restart_count : PodStore → Bytes → Bytes → Int32 → PodStore
patch_restart_count s uid name count =
    with_restart_state s uid name (λ rs. record rs { count = count })

-- PatchBackoff, given the duration that the conversion from seconds gives.
unfoldable pub patch_backoff : PodStore → Bytes → Bytes → Duration → PodStore
patch_backoff s uid name backoff =
    with_restart_state s uid name (λ rs. record rs { backoff = backoff })

-- MarkRestarted
unfoldable pub mark_restarted : PodStore → Bytes → Bytes → Time → PodStore
mark_restarted s uid name now =
    with_restart_state s uid name (λ rs. record rs { last_started = now })

-- ResetBackoff
unfoldable pub reset_backoff : PodStore → Bytes → Bytes → PodStore
reset_backoff s uid name =
    with_restart_state s uid name (λ rs. record rs { backoff = restart_backoff })

-- The writes of BumpBackoff.
unfoldable pub bumped : ContainerRestartState → ContainerRestartState
bumped rs =
    let doubled = double64 rs.backoff in
    record rs {
      count = incr32 rs.count;
      backoff = if slt64 (5 * minute) doubled then 5 * minute else doubled;
    }

-- The results of BumpBackoff: the count after it and the backoff before it.
unfoldable pub bump_result : Option ContainerRestartState → Int32 × Duration
bump_result none = (0, 0)
bump_result (some rs) = (incr32 rs.count, rs.backoff)

-- BumpBackoff
unfoldable pub bump_backoff : PodStore → Bytes → Bytes → PodStore × (Int32 × Duration)
bump_backoff s uid name = elim (get_pod_state s uid) [
  | none ↦ (s, (0, 0))
  | some ps ↦ (with_restart_state s uid name bumped, bump_result (lookup name ps.restarts))
]

-- RestartState
unfoldable pub restart_state : PodStore → Bytes → Bytes → Option ContainerRestartState
restart_state s uid name = elim (get_pod_state s uid) [
  | none ↦ none
  | some ps ↦ lookup name ps.restarts
]

-- The count of each container, in the order of the map.
unfoldable pub counts : Map Bytes ContainerRestartState → Map Bytes Int32
counts [] = []
counts ((k, rs) ∷ m) = (k, rs.count) ∷ counts m

-- RestartCounts: the nil map is read as an empty one.
unfoldable pub restart_counts : PodStore → Bytes → Map Bytes Int32
restart_counts s uid = elim (get_pod_state s uid) [ none ↦ [] | some ps ↦ counts ps.restarts ]

-- ContainerStartedAt; 0 is the zero time.
unfoldable pub container_started_at : PodStore → Bytes → Bytes → Time
container_started_at s uid name = elim (restart_state s uid name) [
  | none ↦ 0
  | some rs ↦ rs.last_started
]

abbrev pub lookup_probe :
    Bytes → Option (Map Bytes ContainerProbeState) → Option ContainerProbeState
lookup_probe name none = none
lookup_probe name (some probes) = lookup name probes

-- ProbeState
unfoldable pub probe_state : PodStore → Bytes → Bytes → Option ContainerProbeState
probe_state s uid name = elim (get_pod_state s uid) [
  | none ↦ none
  | some ps ↦ lookup_probe name ps.probes
]

-- The write to a map of probe states, which the nil map does not take.
abbrev pub put_probe :
    Bytes
    → ContainerProbeState
    → Option (Map Bytes ContainerProbeState)
    → Option (Map Bytes ContainerProbeState)
put_probe name state none = none
put_probe name state (some probes) = some (insert name state probes)

-- UpdateProbeState
unfoldable pub update_probe_state :
    PodStore → Bytes → Bytes → (ContainerProbeState → ContainerProbeState) → PodStore
update_probe_state s uid name fn = elim (get_pod_state s uid) [
  | none ↦ s
  | some ps ↦ elim (lookup_probe name ps.probes) [
    | none ↦ s
    | some state ↦ put_actor s uid (record ps { probes = put_probe name (fn state) ps.probes })
  ]
]

-- ResetProbeState
unfoldable pub reset_probe_state_of : PodStore → Bytes → Bytes → Time → PodStore
reset_probe_state_of s uid name now = elim (get_pod_state s uid) [
  | none ↦ s
  | some ps ↦
      put_actor s uid (record ps { probes = put_probe name (reset_probe_state now) ps.probes })
]

abbrev pub ready_or_true : Option ContainerProbeState → Bool
ready_or_true none = true
ready_or_true (some probe) = probe.ready

-- IsContainerReady
unfoldable pub is_container_ready : PodStore → Bytes → Bytes → Bool
is_container_ready s uid name = ready_or_true (probe_state s uid name)
