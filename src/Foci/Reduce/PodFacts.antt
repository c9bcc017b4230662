-- ===== src/Foci/Reduce/PodFacts.antt =====
-- internal/foci/reduce.go: the handlers of the facts about a whole pod.
use periapsis.Base.{
  ℕ, is_empty, not, none, some, List, [], ◌∷◌, if◌then◌else◌, Clock, after, get_elem?, map,
}
use periapsis.Foci.Types.{
  SpecFact, PodAdmitFact, new_spec_fact, persist_pod_state, init_restart_state,
  ContainerInitPayload, Pod,
}
use periapsis.Foci.State.{
  ContainerSpec, ContainerState, PodState, zero_pod_state, find_container, new_pod_spec,
  new_container_state, new_pod_state,
}
use periapsis.Foci.Phase.{recompute_phase, reset_units}
use periapsis.Foci.Reduce.Common.{Result}

-- One round of the loop of reduceSpecFact: the state of the container that has the name in the old
-- list, with the new image, or a container that starts; with it, the readings of the clock used.
unfoldable pub sync_container : List ContainerState → ContainerSpec → Clock → ContainerState × ℕ
sync_container old cs clock = elim (find_container cs.name old) [
  | none ↦ (new_container_state cs (clock 0), 1)
  | some idx ↦ elim (get_elem? old idx) [
    | none ↦ (new_container_state cs (clock 0), 1)
    | some existing ↦ (record existing { image = cs.image }, 0)
  ]
]

-- The loop, with the clock that is left for what follows it.
unfoldable pub sync_containers :
    List ContainerState → List ContainerSpec → Clock → List ContainerState × Clock
sync_containers old [] clock = ([], clock)
sync_containers old (cs ∷ rest) clock =
    let (cv, used) = sync_container old cs clock in
    let (cvs, left) = sync_containers old rest (after used clock) in (cv ∷ cvs, left)

-- reduceSpecFact, once the pod is known not to be nil.
unfoldable pub with_spec : PodState → Pod → Clock → Result
with_spec state pod clock =
    let new_spec = new_pod_spec pod in
    let (new_containers, left) = sync_containers state.containers new_spec.containers clock in
    recompute_phase (record state { spec = new_spec; containers = new_containers }) left

-- reduceSpecFact
unfoldable pub reduce_spec_fact : PodState → SpecFact → Clock → Result
reduce_spec_fact state fact clock = elim fact.pod [
  | none ↦ (state, [])
  | some pod ↦ with_spec state pod clock
]

abbrev pub init_payload : ContainerSpec → ContainerInitPayload
init_payload cs = record { name = cs.name; has_readiness_probe = cs.has_readiness_probe }

-- reducePodAdmitFact for a pod that is not tracked.
unfoldable pub admit_new : PodAdmitFact → Pod → Clock → Result
admit_new fact pod clock =
    let new_state = new_pod_state fact.uid fact.namespace fact.name fact.pod_ip pod clock in
    (
      new_state,
      init_restart_state (record {
        uid = fact.uid;
        namespace = fact.namespace;
        name = fact.name;
        containers = map init_payload new_state.spec.containers;
      })
          ∷ persist_pod_state fact.uid
          ∷ [],
    )

-- reducePodAdmitFact. A nil pod that is not tracked makes the conversion of the spec panic, which stands here
-- as no change; Reduce returns before its switch in that case.
unfoldable pub reduce_pod_admit_fact : PodState → PodAdmitFact → Clock → Result
reduce_pod_admit_fact state fact clock =
    if not (is_empty state.uid)
    then reduce_spec_fact state (new_spec_fact fact.uid fact.namespace fact.name fact.pod) clock
    else (elim fact.pod [ none ↦ (state, []) | some pod ↦ admit_new fact pod clock ])

-- reducePodEvictFact
unfoldable pub reduce_pod_evict_fact : PodState → Result
reduce_pod_evict_fact state = (zero_pod_state, reset_units state.uid state.containers)
