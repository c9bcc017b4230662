-- ===== src/Foci/Reduce/ContainerFacts.antt =====
-- internal/foci/reduce.go: the handlers of the other facts about one container.
use periapsis.Base.{
  ℕ, bytes, is_empty, str_eq, Bool, true, false, not, ◌&&◌, [], ◌∷◌, if◌then◌else◌, Clock,
}
use periapsis.Foci.Types.{ExitFact, ProbeFact, MarkRunningFact, BackoffResetFact}
use periapsis.Foci.State.{
  phase_creating, phase_terminated, phase_crash_loop_back_off, ContainerState, PodState,
  restart_backoff_init,
}
use periapsis.Foci.Reduce.Common.{
  Result, at_container, put_container, settle, bump_restart, restart_effect, normal, event, about,
}
use periapsis.Foci.Reduce.Poll.{settle_container, completed_or_error}

-- reduceExitFact: the body over the container.
unfoldable pub on_exit : PodState → ExitFact → Clock → ℕ → ContainerState → Result
on_exit state fact clock idx cv =
    if not cv.seen_running
    then (put_container state idx (record cv { phase = phase_creating }), [])
    else if fact.will_restart
    then (let next = bump_restart (record cv { phase = phase_crash_loop_back_off }) in
        settle_container state idx cv next (restart_effect state fact.container next ∷ []) clock)
    else settle_container state idx cv
        (record cv {
          phase = phase_terminated;
          exit_code = fact.exit_code;
          exit_reason =
              if is_empty fact.reason then completed_or_error fact.exit_code else fact.reason;
        })
        [] clock

unfoldable pub reduce_exit_fact : PodState → ExitFact → Clock → Result
reduce_exit_fact state fact clock = at_container state fact.container (on_exit state fact clock)

-- The switch of reduceProbeFact on the type of the probe.
unfoldable pub probed : ProbeFact → ContainerState → ContainerState
probed fact cv =
    if str_eq fact.probe_type (bytes "readiness")
    then record cv { ready = fact.ready }
    else if str_eq fact.probe_type (bytes "startup")
    then record cv { startup_passed = fact.startup_passed }
    else cv

abbrev pub bool_ne : Bool → Bool → Bool
bool_ne true b = not b
bool_ne false b = b

unfoldable pub on_probe : PodState → ProbeFact → Clock → ℕ → ContainerState → Result
on_probe state fact clock idx cv =
    let next = probed fact cv in
    let changed = bool_ne cv.ready next.ready in
    settle changed (put_container state idx next)
      (if changed && next.ready
        then event state normal (bytes "ProbeReady")
            (about (bytes "Container %s passed readiness probe") fact.container)
          ∷ []
        else [])
      clock

-- reduceProbeFact
unfoldable pub reduce_probe_fact : PodState → ProbeFact → Clock → Result
reduce_probe_fact state fact clock = at_container state fact.container (on_probe state fact clock)

-- reduceMarkRunningFact
unfoldable pub reduce_mark_running_fact : PodState → MarkRunningFact → Result
reduce_mark_running_fact state fact =
    at_container state fact.container_name
      λ idx cv. (put_container state idx (record cv { seen_running = true }), [])

-- reduceBackoffResetFact
unfoldable pub reduce_backoff_reset_fact : PodState → BackoffResetFact → Result
reduce_backoff_reset_fact state fact =
    at_container state fact.container_name
      λ idx cv. (put_container state idx (record cv { backoff = restart_backoff_init }), [])
