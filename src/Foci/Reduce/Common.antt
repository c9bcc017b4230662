-- ===== src/Foci/Reduce/Common.antt =====
-- internal/foci/reduce.go: what the handlers of the reducer share.
use periapsis.Base.{
  ℕ, Bytes, bytes, Bool, true, false, none, some, List, [], ◌∷◌, ◌++◌, ◌==◌, Int32, Clock, incr32,
  double64, get_elem?, set,
}
use periapsis.Foci.Types.{text, number, Message, Effect, restart_container, record_event}
use periapsis.Foci.State.{
  ContainerPhase, phase_number, ContainerState, PodState, find_container, max_backoff,
}
use periapsis.Foci.Phase.{min_duration, recompute_phase}

-- The result of a handler: the new state and the effects, in order.
abbrev pub Result : Type 0
Result = PodState × List Effect

unfoldable pub phase_eq : ContainerPhase → ContainerPhase → Bool
phase_eq a b = phase_number a == phase_number b

-- `idx := state.FindContainer(name)`, the return at -1, and `cv := &state.Containers[idx]`. The
-- index that FindContainer returns is in range.
unfoldable pub at_container : PodState → Bytes → (ℕ → ContainerState → Result) → Result
at_container state name body = elim (find_container name state.containers) [
  | none ↦ (state, [])
  | some idx ↦ elim (get_elem? state.containers idx) [ none ↦ (state, []) | some cv ↦ body idx cv ]
]

-- What was written through `cv`.
unfoldable pub put_container : PodState → ℕ → ContainerState → PodState
put_container state idx cv = record state { containers = set state.containers idx cv }

-- The end of a handler: `if changed { newState, statusEff := recomputePhase(state); … }`.
unfoldable pub settle : Bool → PodState → List Effect → Clock → Result
settle false state effects clock = (state, effects)
settle true state effects clock =
    let (new_state, status_eff) = recompute_phase state clock in (new_state, effects ++ status_eff)

-- The writes of a restart decision.
unfoldable pub bump_restart : ContainerState → ContainerState
bump_restart cv = record cv {
  restarting = true;
  restart_count = incr32 cv.restart_count;
  backoff = min_duration (double64 cv.backoff) max_backoff;
}

-- The effect of a restart decision, with the count and the backoff just written.
abbrev pub restart_effect : PodState → Bytes → ContainerState → Effect
restart_effect state name cv = restart_container (record {
  uid = state.uid;
  namespace = state.namespace;
  pod_name = state.name;
  container_name = name;
  restart_count = cv.restart_count;
  backoff = cv.backoff;
})

abbrev pub normal : Bytes
normal = bytes "Normal"

abbrev pub warning : Bytes
warning = bytes "Warning"

abbrev pub event : PodState → Bytes → Bytes → Message → Effect
event state type reason message =
    record_event (record { uid = state.uid; event_type = type; reason = reason; message = message })

abbrev pub about : Bytes → Bytes → Message
about format name = record { format = format; args = text name ∷ [] }

abbrev pub about_exit : Bytes → Bytes → Int32 → Message
about_exit format name exit_code = record {
  format = format;
  args = text name ∷ number exit_code ∷ [];
}

abbrev pub failed_event : PodState → Bytes → Int32 → Effect
failed_event state name exit_code =
    event state warning (bytes "Failed")
      (about_exit (bytes "Container %s exited with error (code %d)") name exit_code)
