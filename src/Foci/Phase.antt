-- ===== src/Foci/Phase.antt =====
-- The phase computation of internal/foci/reduce.go: recomputePhase, and the helpers of the reducer.
use periapsis.Base.{
  ℕ, Bytes, Bool, true, false, not, ◌&&◌, List, [], ◌∷◌, ◌++◌, if◌then◌else◌, ◌==◌, Int32, Duration,
  Clock, slt64,
}
use periapsis.Foci.Types.{
  PodPhase, phase_unset, pod_pending, pod_running, pod_succeeded, pod_failed, pod_unknown,
  RestartPolicy, policy_always, policy_on_failure, Effect, update_status, set_pod_phase, reset_unit,
  persist_pod_state,
}
use periapsis.Foci.State.{
  ContainerPhase, phase_creating, phase_running, phase_terminated, phase_crash_loop_back_off,
  ContainerState, PodState,
}
use periapsis.Foci.Convert.{build_pod_status_payload}

-- min on durations
unfoldable pub min_duration : Duration → Duration → Duration
min_duration a b = if slt64 a b then a else b

-- shouldRestart
unfoldable pub should_restart : RestartPolicy → Int32 → Bool
should_restart policy_always exit_code = true
should_restart policy_on_failure exit_code = not (exit_code == 0)
should_restart _ exit_code = false

-- The five local variables of the loop of recomputePhase.
pub record Flags : Type 0 where
  pub any_running : Bool
  pub any_creating : Bool
  pub any_restarting : Bool
  pub all_terminated : Bool
  pub all_succeeded : Bool

-- The body of the loop: the switch on the phase of one container.
unfoldable pub mark_phase : ContainerPhase → Int32 → Flags → Flags
mark_phase phase_running exit_code f = record f { any_running = true; all_terminated = false }
mark_phase phase_creating exit_code f = record f { any_creating = true; all_terminated = false }
mark_phase phase_crash_loop_back_off exit_code f = record f {
  any_restarting = true;
  all_terminated = false;
  all_succeeded = false;
}
mark_phase phase_terminated exit_code f = record f {
  all_succeeded = if exit_code == 0 then f.all_succeeded else false;
}

-- The loop over the containers.
unfoldable pub scan_phases : Flags → List ContainerState → Flags
unfolding mark_phase
scan_phases f [] = f
scan_phases f (cv ∷ rest) = scan_phases (mark_phase cv.phase cv.exit_code f) rest

abbrev pub initial_flags : Flags
initial_flags = record {
  any_running = false;
  any_creating = false;
  any_restarting = false;
  all_terminated = true;
  all_succeeded = true;
}

-- The second switch: the phase of the pod, or the current one.
unfoldable pub phase_of_flags : Flags → PodPhase → PodPhase
phase_of_flags f current =
    if f.any_running
    then pod_running
    else if f.any_creating
    then pod_pending
    else if f.any_restarting
    then pod_running
    else if f.all_terminated
    then (if f.all_succeeded then pod_succeeded else pod_failed)
    else current

-- The number of a phase, for `!=` on the strings.
unfoldable pub pod_phase_number : PodPhase → ℕ
pod_phase_number phase_unset = 0
pod_phase_number pod_pending = 1
pod_phase_number pod_running = 2
pod_phase_number pod_succeeded = 3
pod_phase_number pod_failed = 4
pod_phase_number pod_unknown = 5

abbrev pub is_terminal : PodPhase → Bool
is_terminal pod_succeeded = true
is_terminal pod_failed = true
is_terminal _ = false

-- One ResetUnit for each container, in order.
unfoldable pub reset_units : Bytes → List ContainerState → List Effect
reset_units uid [] = []
reset_units uid (cv ∷ rest) = reset_unit uid cv.name ∷ reset_units uid rest

-- The effects of a pod that has just entered a terminal phase.
unfoldable pub terminal_effects : PodPhase → PodState → List Effect
unfolding pod_phase_number
terminal_effects previous state =
    if is_terminal state.phase && not (pod_phase_number previous == pod_phase_number state.phase)
    then set_pod_phase state.uid state.phase ∷ reset_units state.uid state.containers
    else []

-- recomputePhase
unfoldable pub recompute_phase : PodState → Clock → PodState × List Effect
unfolding terminal_effects
recompute_phase state clock =
    let previous = state.phase in
    let next : PodState = record state {
      phase = phase_of_flags (scan_phases initial_flags state.containers) state.phase;
    } in
    (
      next,
      update_status (record {
        uid = next.uid;
        namespace = next.namespace;
        name = next.name;
        status = build_pod_status_payload next clock;
      })
          ∷ (terminal_effects previous next ++ persist_pod_state next.uid ∷ []),
    )
