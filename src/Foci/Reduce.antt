-- ===== src/Foci/Reduce.antt =====
-- internal/foci/reduce.go: Reduce. The handlers are in the modules below.
pub mod Common
pub mod Unit
pub mod Poll
pub mod ContainerFacts
pub mod PodFacts
use periapsis.Base.{
  ℕ, Bytes, bytes, is_empty, str_eq, Bool, true, false, not, ◌&&◌, ◌||◌, Option, none, some, List,
  [], ◌∷◌, ◌++◌, if◌then◌else◌, ◌==◌, ltb, ◌-◌, Int32, Clock, after, incr32, double64, get_elem?,
  set, map,
}
use periapsis.Foci.Types.{
  MachineState, state_unknown, state_running, state_exited, state_failed, state_creating,
  RestartPolicy, policy_always, UnitFact, ContainerStateFact, ExitFact, ProbeFact, SpecFact,
  PodAdmitFact, MarkRunningFact, BackoffResetFact, Fact, unit_fact, container_state_fact, exit_fact,
  probe_fact, spec_fact, pod_admit_fact, pod_evict_fact, mark_running_fact, backoff_reset_fact,
  new_spec_fact, text, number, Message, Effect, restart_container, record_event, persist_pod_state,
  init_restart_state, ContainerInitPayload, Pod,
}
use periapsis.Foci.State.{
  ContainerPhase, phase_creating, phase_running, phase_terminated, phase_crash_loop_back_off,
  phase_number, ContainerSpec, ContainerState, PodState, zero_pod_state, find_container,
  restart_backoff_init, max_backoff, restart_backoff_reset, new_pod_spec, new_container_state,
  new_pod_state,
}
use periapsis.Foci.Phase.{min_duration, should_restart, recompute_phase, reset_units}
use periapsis.Foci.UnitName.{parse_container_from_unit}
use periapsis.Foci.Reduce.Common.{
  Result, phase_eq, at_container, put_container, settle, bump_restart, restart_effect, normal,
  warning, event, about, about_exit, failed_event,
}
use periapsis.Foci.Reduce.Unit.{reduce_unit_fact}
use periapsis.Foci.Reduce.Poll.{reduce_container_state_fact}
use periapsis.Foci.Reduce.ContainerFacts.{
  reduce_exit_fact, reduce_probe_fact, reduce_mark_running_fact, reduce_backoff_reset_fact,
}
use periapsis.Foci.Reduce.PodFacts.{reduce_spec_fact, reduce_pod_admit_fact, reduce_pod_evict_fact}

-- The type switch of Reduce.
unfoldable pub dispatch : PodState → Fact → Clock → Result
dispatch state (unit_fact f) clock = reduce_unit_fact state f clock
dispatch state (container_state_fact f) clock = reduce_container_state_fact state f clock
dispatch state (exit_fact f) clock = reduce_exit_fact state f clock
dispatch state (probe_fact f) clock = reduce_probe_fact state f clock
dispatch state (spec_fact f) clock = reduce_spec_fact state f clock
dispatch state (pod_admit_fact f) clock = reduce_pod_admit_fact state f clock
dispatch state (pod_evict_fact uid) clock = reduce_pod_evict_fact state
dispatch state (mark_running_fact f) clock = reduce_mark_running_fact state f
dispatch state (backoff_reset_fact f) clock = reduce_backoff_reset_fact state f

-- Reduce
unfoldable pub reduce : PodState → Fact → Clock → Result
reduce state fact clock = if is_empty state.uid then (state, []) else dispatch state fact clock
