-- ===== src/Foci/Reduce/Unit.antt =====
-- internal/foci/reduce.go: the handler of UnitFact.
use periapsis.Base.{
  ℕ, Bytes, bytes, is_empty, str_eq, true, false, not, ◌||◌, [], ◌∷◌, ◌++◌, if◌then◌else◌, Int32,
  Clock, after,
}
use periapsis.Foci.Types.{UnitFact}
use periapsis.Foci.State.{
  phase_creating, phase_running, phase_crash_loop_back_off, ContainerState, PodState,
}
use periapsis.Foci.Phase.{should_restart}
use periapsis.Foci.UnitName.{parse_container_from_unit}
use periapsis.Foci.Reduce.Common.{
  Result, phase_eq, at_container, put_container, settle, bump_restart, restart_effect, normal,
  warning, event, about, failed_event,
}

-- The cases of the switch on the substate.
pub data SubState : Type 0 where
  sub_running sub_failed sub_starting sub_stopping sub_killing sub_other : SubState

unfoldable pub sub_state : Bytes → SubState
sub_state s =
    if str_eq s (bytes "running")
    then sub_running
    else if str_eq s (bytes "failed")
    then sub_failed
    else if str_eq s (bytes "start-pre")
        || (str_eq s (bytes "start") || str_eq s (bytes "start-post"))
    then sub_starting
    else if str_eq s (bytes "stop-sigterm") || str_eq s (bytes "stop-watchdog")
    then sub_stopping
    else if str_eq s (bytes "stop-sigkill") || str_eq s (bytes "stop-kill")
    then sub_killing
    else sub_other

-- The write of the case "failed", the restart decision left out.
abbrev pub unit_failed : ContainerState → Int32 → ContainerState
unit_failed cv exit_code = record cv { phase = phase_crash_loop_back_off; exit_code = exit_code }

abbrev pub unit_started : ContainerState → Clock → ContainerState
unit_started cv clock = record cv {
  phase = phase_running;
  seen_running = true;
  restarting = false;
  last_started = clock 0;
}

unfoldable pub on_sub_state :
    SubState → PodState → Bytes → Int32 → Clock → ℕ → ContainerState → Result
on_sub_state sub_running state name exit_code clock idx cv =
    settle true (put_container state idx (unit_started cv clock))
      (if phase_eq cv.phase phase_running
        then []
        else event state normal (bytes "Started") (about (bytes "Container %s started") name) ∷ [])
      (after 1 clock)
on_sub_state sub_failed state name exit_code clock idx cv =
    let restart = should_restart state.spec.restart_policy exit_code in
    let failed = unit_failed cv exit_code in
    let next = if restart then bump_restart failed else failed in
    settle (not (phase_eq cv.phase phase_crash_loop_back_off)) (put_container state idx next)
      ((if phase_eq cv.phase phase_crash_loop_back_off
          then []
          else failed_event state name exit_code ∷ [])
        ++ (if restart then restart_effect state name next ∷ [] else []))
      clock
on_sub_state sub_starting state name exit_code clock idx cv =
    settle (not (phase_eq cv.phase phase_creating))
      (put_container state idx (record cv { phase = phase_creating })) [] clock
on_sub_state sub_stopping state name exit_code clock idx cv = (
  state,
  event state normal (bytes "Killing")
        (about (bytes "Container %s received SIGTERM, waiting for graceful exit") name)
      ∷ [],
)
on_sub_state sub_killing state name exit_code clock idx cv = (
  state,
  event state warning (bytes "Killing")
        (about (bytes "Container %s grace period expired, sending SIGKILL") name)
      ∷ [],
)
on_sub_state sub_other state name exit_code clock idx cv = (state, [])

unfoldable pub reduce_unit_fact : PodState → UnitFact → Clock → Result
reduce_unit_fact state fact clock =
    let name = parse_container_from_unit fact.unit_name in
    if is_empty name
    then (state, [])
    else at_container state name
        (on_sub_state (sub_state fact.sub_state) state name fact.exit_code clock)
