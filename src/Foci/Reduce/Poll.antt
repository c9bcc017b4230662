-- ===== src/Foci/Reduce/Poll.antt =====
-- internal/foci/reduce.go: the handler of ContainerStateFact, from the poll of the machines.
use periapsis.Base.{
  ℕ, Bytes, bytes, Bool, true, false, not, ◌&&◌, ◌||◌, List, [], ◌∷◌, ◌++◌, if◌then◌else◌, ◌==◌,
  ltb, ◌-◌, Int32, Clock, after,
}
use periapsis.Foci.Types.{
  MachineState, state_unknown, state_running, state_exited, state_failed, state_creating,
  RestartPolicy, policy_always, ContainerStateFact, Effect,
}
use periapsis.Foci.State.{
  phase_creating, phase_running, phase_terminated, phase_crash_loop_back_off, ContainerState,
  PodState, restart_backoff_init, restart_backoff_reset,
}
use periapsis.Foci.Phase.{should_restart}
use periapsis.Foci.Reduce.Common.{
  Result, phase_eq, at_container, put_container, settle, bump_restart, restart_effect, normal,
  event, about_exit, failed_event,
}

-- The restart decision of a poll: taken once, until the container is seen running again.
unfoldable pub restart_once : PodState → Bytes → ContainerState → ContainerState × List Effect
restart_once state name cv =
    if cv.restarting
    then (cv, [])
    else (bump_restart cv, restart_effect state name (bump_restart cv) ∷ [])

-- `if !cv.LastStarted.IsZero() && time.Since(cv.LastStarted) > RestartBackoffReset`
unfoldable pub reset_if_stable : ContainerState → Clock → ContainerState
reset_if_stable cv clock =
    if not (cv.last_started == 0) && ltb restart_backoff_reset (clock 1 - cv.last_started)
    then record cv { backoff = restart_backoff_init }
    else cv

abbrev pub completed_or_error : Int32 → Bytes
completed_or_error exit_code = if exit_code == 0 then bytes "Completed" else bytes "Error"

abbrev pub terminated : ContainerState → Bytes → ContainerState
terminated cv reason = record cv { phase = phase_terminated; exit_reason = reason }

abbrev pub exited_event : PodState → Bytes → Int32 → Effect
exited_event state name exit_code =
    if exit_code == 0
    then event state normal (bytes "Completed")
        (about_exit (bytes "Container %s exited with code %d") name exit_code)
    else failed_event state name exit_code

-- The phase test at the end, over the container as the switch left it.
unfoldable pub settle_container :
    PodState → ℕ → ContainerState → ContainerState → List Effect → Clock → Result
settle_container state idx cv next effects clock =
    settle (not (phase_eq cv.phase next.phase)) (put_container state idx next) effects clock

-- The case StateFailed, over the container with the exit code written.
unfoldable pub on_failed : PodState → Bytes → Int32 → ContainerState → ContainerState × List Effect
on_failed state name exit_code cv =
    if should_restart state.spec.restart_policy exit_code
    then restart_once state name (record cv { phase = phase_crash_loop_back_off })
    else (terminated cv (bytes "Error"), [])

abbrev pub restarts_always : RestartPolicy → Bool
restarts_always policy_always = true
restarts_always _ = false

-- The case StateExited, over the container with the exit code written.
unfoldable pub on_exited : PodState → Bytes → Int32 → ContainerState → ContainerState × List Effect
on_exited state name exit_code cv =
    if restarts_always state.spec.restart_policy
    then restart_once state name (record cv { phase = phase_crash_loop_back_off })
    else (terminated cv (completed_or_error exit_code), [])

-- The switch on the state of the machine.
unfoldable pub on_machine_state :
    MachineState → PodState → Bytes → Int32 → Clock → ℕ → ContainerState → Result
on_machine_state state_running state name exit_code clock idx cv =
    settle_container state idx cv
      (reset_if_stable
        (record cv {
          phase = phase_running;
          seen_running = true;
          restarting = false;
          last_started = clock 0;
        })
        clock)
      [] (after 2 clock)
on_machine_state state_creating state name exit_code clock idx cv =
    settle_container state idx cv (record cv { phase = phase_creating }) [] clock
on_machine_state state_failed state name exit_code clock idx cv =
    let (next, effects) = on_failed state name exit_code (record cv { exit_code = exit_code }) in
    settle_container state idx cv next
      (effects
        ++ (if phase_eq cv.phase phase_crash_loop_back_off
            then []
            else failed_event state name exit_code ∷ []))
      clock
on_machine_state state_exited state name exit_code clock idx cv =
    let (next, effects) = on_exited state name exit_code (record cv { exit_code = exit_code }) in
    settle_container state idx cv next
      (effects
        ++ (if phase_eq cv.phase phase_terminated || phase_eq cv.phase phase_crash_loop_back_off
            then []
            else exited_event state name exit_code ∷ []))
      clock
on_machine_state state_unknown state name exit_code clock idx cv =
    if cv.restarting
    then (state, [])
    else if cv.seen_running
    then settle_container state idx cv
        (terminated (record cv { exit_code = 0 }) (bytes "Completed")) [] clock
    else (state, [])

-- reduceContainerStateFact
unfoldable pub reduce_container_state_fact : PodState → ContainerStateFact → Clock → Result
reduce_container_state_fact state fact clock =
    at_container state fact.container
      (on_machine_state fact.state state fact.container fact.exit_code clock)
