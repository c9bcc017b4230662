-- ===== src/Horizon/Dispatch.antt =====
-- internal/horizon/horizon.go and dispatchEffect of internal/syzygy/syzygy.go: what comes of the effects that
-- a worker dispatches.
use periapsis.Base.{ℕ, ◌-◌, length, none, some, List, [], ◌∷◌, ◌≡◌, ◌⊎◌, inl, inr, if◌then◌else◌}
use periapsis.Foci.Types.{
  Effect, update_status, restart_container, set_pod_phase, reset_unit, record_event,
  persist_pod_state, init_restart_state,
}
use periapsis.Foci.Convert.{pod_status_payload_to_corev1}
use periapsis.Horizon.{
  Horizon, horizon_inbox, send_effect, Execution, write_status, call_restart_container,
  call_reset_unit, call_record_event, execute_effect, LocalCall, call_set_pod_phase,
  call_persist_pod_state, call_init_restart_state, dispatch_effect,
}

-- What each kind of effect is to lead to: a callback of Syzygy, or an execution by Horizon.
unfoldable pub intended : Effect → LocalCall ⊎ Execution
intended (set_pod_phase uid phase) = inl (call_set_pod_phase uid phase)
intended (persist_pod_state uid) = inl (call_persist_pod_state uid)
intended (init_restart_state e) = inl (call_init_restart_state e)
intended (update_status e) =
    inr (write_status e.uid e.namespace e.name (pod_status_payload_to_corev1 e.status))
intended (restart_container e) = inr (call_restart_container e)
intended (reset_unit uid container_name) = inr (call_reset_unit uid container_name)
intended (record_event e) = inr (call_record_event e)

abbrev pub or_local : LocalCall ⊎ Execution → List LocalCall → List LocalCall
or_local (inl call) rest = call ∷ rest
or_local (inr x) rest = rest

abbrev pub or_execution : LocalCall ⊎ Execution → List Execution → List Execution
or_execution (inl call) rest = rest
or_execution (inr x) rest = x ∷ rest

-- The callbacks, and the executions, that effects are to lead to, in their order.
unfoldable pub callbacks : List Effect → List LocalCall
callbacks [] = []
callbacks (eff ∷ rest) = or_local (intended eff) (callbacks rest)

unfoldable pub executions : List Effect → List Execution
executions [] = []
executions (eff ∷ rest) = or_execution (intended eff) (executions rest)

-- How many effects Horizon still takes.
abbrev pub room : Horizon → ℕ
room h = if h.closed then 0 else horizon_inbox - length h.inbox

-- dispatchEffect and executeEffect do what is intended.
abbrev IsHandled : LocalCall ⊎ Execution → Effect → Horizon → Type 0
IsHandled (inl call) eff h = dispatch_effect eff h ≡ (some call, h)
IsHandled (inr x) eff h =
    (dispatch_effect eff h ≡ (none, (send_effect h eff).0)) × (execute_effect eff ≡ some x)
