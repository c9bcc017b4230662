-- ===== src/Foci/Invariant.antt =====
-- What holds of the state of a pod between two facts: the containers are indexed as those of the
-- spec, and every backoff lies between its initial and its largest value.
pub mod Defs
pub mod Containers
pub mod Pods
use periapsis.Base.{
  if_cases, ℕ, zero, suc, ◌+◌, ◌≤◌, ◌<◌, ◌*◌, ◌%◌, ◌^◌, ◌≡◌, ◌≢◌, ◌⊎◌, refl, sym, ap, ◌∙◌, inl, inr,
  Bytes, str_eq, str_eq_iff, Bool, true, false, not, ◌&&◌, ◌||◌, Option, none, some, List, [], ◌∷◌,
  ◌++◌, map, arith, Bool-cases, Option-cases, get_elem?, set, map-set_same, All, All-get_elem?,
  All-set, Clock, after, double64, Duration, if◌then◌else◌, Int32, is_empty, bytes, length, ◌==◌,
  ==_iff, ltb, ◌-◌, Time,
}
use periapsis.Foci.Types.{
  Pod, Fact, Effect, UnitFact, ContainerStateFact, ExitFact, ProbeFact, SpecFact, PodAdmitFact,
  MarkRunningFact, BackoffResetFact, unit_fact, container_state_fact, exit_fact, probe_fact,
  spec_fact, pod_admit_fact, pod_evict_fact, mark_running_fact, backoff_reset_fact, MachineState,
  state_unknown, state_running, state_exited, state_failed, state_creating, RestartPolicy,
  policy_always, policy_on_failure, policy_never, restart_container, RestartContainer, record_event,
  set_pod_phase, reset_unit, update_status, persist_pod_state, init_restart_state, PodPhase,
  phase_unset, pod_pending, pod_running, pod_succeeded, pod_failed, pod_unknown,
}
use periapsis.Foci.State.{
  ContainerPhase, phase_creating, phase_running, phase_terminated, phase_crash_loop_back_off,
  phase_number, ContainerSpec, ContainerState, PodState, zero_pod_state, find_container,
  restart_backoff_init, max_backoff, restart_backoff_reset, new_container_state,
  new_container_states, new_pod_state, new_pod_spec,
}
use periapsis.Foci.Phase.{
  min_duration, should_restart, recompute_phase, reset_units, terminal_effects, scan_phases,
  phase_of_flags, Flags, initial_flags, is_terminal,
}
use periapsis.Foci.Reduce.Unit.{
  SubState, sub_state, sub_running, sub_failed, sub_starting, sub_stopping, sub_killing, sub_other,
  on_sub_state, unit_failed, unit_started, reduce_unit_fact,
}
use periapsis.Foci.Reduce.Poll.{
  restart_once, reset_if_stable, on_failed, on_exited, settle_container, on_machine_state,
  reduce_container_state_fact,
}
use periapsis.Foci.Reduce.ContainerFacts.{
  on_exit, on_probe, probed, reduce_exit_fact, reduce_probe_fact, reduce_mark_running_fact,
  reduce_backoff_reset_fact,
}
use periapsis.Foci.Reduce.PodFacts.{
  sync_container, sync_containers, with_spec, reduce_spec_fact, reduce_pod_admit_fact,
  reduce_pod_evict_fact,
}
use periapsis.Foci.Reduce.{reduce, dispatch}
use periapsis.Foci.Reduce.Common.{
  Result, phase_eq, at_container, put_container, settle, bump_restart, restart_effect,
}
use periapsis.Foci.Found.{find_container-get_elem?, at_container_cases}
use periapsis.Foci.Invariant.Defs.{
  BackoffOk, spec_names, state_names, WellFormed, Leaves, settle-WellFormed,
  put_container-WellFormed, bump_restart-BackoffOk, store-WellFormed, write-WellFormed,
}
use periapsis.Foci.Invariant.Containers.{
  on_sub_state-WellFormed, on_machine_state-WellFormed, on_exit-WellFormed, on_probe-WellFormed,
}
use periapsis.Foci.Invariant.Pods.{
  reduce_spec_fact-WellFormed, reduce_pod_admit_fact-WellFormed, zero-WellFormed,
}
use periapsis.Foci.UnitName.{parse_container_from_unit}

reduce_unit_fact-WellFormed :
    (s : PodState) (f : UnitFact) (clock : Clock)
    → WellFormed s
    → WellFormed (reduce_unit_fact s f clock).0
unfolding reduce_unit_fact
reduce_unit_fact-WellFormed s f clock h =
    let name = parse_container_from_unit f.unit_name in
    if_cases Leaves (is_empty name) (λ _. h)
      λ _.
        at_container_cases Leaves s name
          (on_sub_state (sub_state f.sub_state) s name f.exit_code clock) h
          (λ idx cv at _.
            on_sub_state-WellFormed (sub_state f.sub_state) s name f.exit_code clock idx cv h at)

dispatch-WellFormed :
    (s : PodState) (fact : Fact) (clock : Clock)
    → WellFormed s
    → WellFormed (dispatch s fact clock).0
unfolding dispatch reduce_container_state_fact reduce_exit_fact reduce_probe_fact
    reduce_mark_running_fact reduce_backoff_reset_fact reduce_pod_evict_fact
dispatch-WellFormed s (unit_fact f) clock h = reduce_unit_fact-WellFormed s f clock h
dispatch-WellFormed s (container_state_fact f) clock h =
    at_container_cases Leaves s _ _ h
      (λ idx cv at _. on_machine_state-WellFormed f.state s _ _ clock idx cv h at)
dispatch-WellFormed s (exit_fact f) clock h =
    at_container_cases Leaves s _ _ h (λ idx cv at _. on_exit-WellFormed s f clock idx cv h at)
dispatch-WellFormed s (probe_fact f) clock h =
    at_container_cases Leaves s _ _ h (λ idx cv at _. on_probe-WellFormed s f clock idx cv h at)
dispatch-WellFormed s (spec_fact f) clock h = reduce_spec_fact-WellFormed s f clock h
dispatch-WellFormed s (pod_admit_fact f) clock h = reduce_pod_admit_fact-WellFormed s f clock h
dispatch-WellFormed s (pod_evict_fact uid) clock h = zero-WellFormed
dispatch-WellFormed s (mark_running_fact f) clock h =
    at_container_cases Leaves s _ _ h (λ idx cv at _.
      store-WellFormed s idx (record cv { seen_running = true }) h at refl (λ ok. ok))
dispatch-WellFormed s (backoff_reset_fact f) clock h =
    at_container_cases Leaves s _ _ h (λ idx cv at _.
      store-WellFormed s idx (record cv { backoff = restart_backoff_init }) h at refl
        (λ ok. omega arith))

-- Every fact, in every state that satisfies the invariant, leaves a state that satisfies it: the
-- containers keep the names and the order of the spec's containers, and each backoff stays
-- between ten seconds and five minutes.
pub reduce-WellFormed :
    (s : PodState) (fact : Fact) (clock : Clock) → WellFormed s → WellFormed (reduce s fact clock).0
unfolding reduce
reduce-WellFormed s fact clock h =
    if_cases Leaves (is_empty s.uid) (λ _. h) (λ _. dispatch-WellFormed s fact clock h)
