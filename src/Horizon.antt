-- ===== src/Horizon.antt =====
-- internal/horizon/horizon.go: the executor of the effects that go to the Kubernetes API, with dispatchEffect
-- and the loop of an effect worker of internal/syzygy/syzygy.go, which feed it. The log is left out.
pub mod Writes
pub mod Dispatch
pub mod Examples
use periapsis.Base.{
  ℕ, zero, suc, ◌+◌, ltb, length, Bytes, str_eq, Bool, true, false, not, Option, none, some, List,
  [], ◌∷◌, ◌++◌, if◌then◌else◌,
}
use periapsis.Foci.Types.{
  Effect, update_status, restart_container, set_pod_phase, reset_unit, record_event,
  persist_pod_state, init_restart_state, UpdateStatus, RestartContainer, RecordEvent,
  InitRestartState, PodPhase, PodStatusPayload,
}
use periapsis.Foci.Convert.{pod_status_payload_to_corev1}

-- Horizon: the inbox, and whether it is closed.
pub record Horizon : Type 0 where
  pub inbox : List Effect
  pub closed : Bool

-- The capacity of the inbox.
abbrev pub horizon_inbox : ℕ
horizon_inbox = 1024

-- NewHorizon
unfoldable pub new_horizon : Horizon
new_horizon = record { inbox = []; closed = false }

-- Send: the effect is put at the end, or refused if the inbox is closed or full.
unfoldable pub send_effect : Horizon → Effect → Horizon × Bool
send_effect h eff =
    if h.closed
    then (h, false)
    else if ltb (length h.inbox) horizon_inbox
    then (record h { inbox = h.inbox ++ (eff ∷ []) }, true)
    else (h, false)

-- close
unfoldable pub close_horizon : Horizon → Horizon
close_horizon h = record h { closed = true }

-- What executeEffect does: a write of the status, or a callback.
pub data Execution : Type 0 where
  write_status : Bytes → Bytes → Bytes → PodStatusPayload → Execution
  call_restart_container : RestartContainer → Execution
  call_reset_unit : Bytes → Bytes → Execution
  call_record_event : RecordEvent → Execution

-- executeEffect; `none` is the warning for an effect that is not for Kubernetes.
unfoldable pub execute_effect : Effect → Option Execution
execute_effect (update_status e) =
    some (write_status e.uid e.namespace e.name (pod_status_payload_to_corev1 e.status))
execute_effect (restart_container e) = some (call_restart_container e)
execute_effect (reset_unit uid container_name) = some (call_reset_unit uid container_name)
execute_effect (record_event e) = some (call_record_event e)
execute_effect (set_pod_phase uid phase) = none
execute_effect (persist_pod_state uid) = none
execute_effect (init_restart_state e) = none

abbrev pub or_skip : Option Execution → List Execution → List Execution
or_skip none rest = rest
or_skip (some x) rest = x ∷ rest

-- What a worker, or the drain at the end of Run, does with the effects of the inbox in their order.
unfoldable pub execute_all : List Effect → List Execution
execute_all [] = []
execute_all (eff ∷ rest) = or_skip (execute_effect eff) (execute_all rest)

-- The callbacks of Syzygy.
pub data LocalCall : Type 0 where
  call_set_pod_phase : Bytes → PodPhase → LocalCall
  call_persist_pod_state : Bytes → LocalCall
  call_init_restart_state : InitRestartState → LocalCall

-- dispatchEffect: a callback, or what Horizon is sent.
unfoldable pub dispatch_effect : Effect → Horizon → Option LocalCall × Horizon
dispatch_effect (set_pod_phase uid phase) h = (some (call_set_pod_phase uid phase), h)
dispatch_effect (persist_pod_state uid) h = (some (call_persist_pod_state uid), h)
dispatch_effect (init_restart_state e) h = (some (call_init_restart_state e), h)
dispatch_effect (update_status e) h = (none, (send_effect h (update_status e)).0)
dispatch_effect (restart_container e) h = (none, (send_effect h (restart_container e)).0)
dispatch_effect (reset_unit uid container_name) h =
    (none, (send_effect h (reset_unit uid container_name)).0)
dispatch_effect (record_event e) h = (none, (send_effect h (record_event e)).0)

abbrev pub or_call : Option LocalCall → List LocalCall → List LocalCall
or_call none rest = rest
or_call (some call) rest = call ∷ rest

-- The loop of an effect worker: the callbacks that it makes, and Horizon after it.
unfoldable pub dispatch_all : List Effect → Horizon → List LocalCall × Horizon
dispatch_all [] h = ([], h)
dispatch_all (eff ∷ rest) h =
    let (call, next) = dispatch_effect eff h in
    let (calls, last) = dispatch_all rest next in (or_call call calls, last)

-- The fields of the API's pod that matter to writePodStatus.
pub record ApiPod : Type 0 where
  pub uid : Bytes
  pub resource_version : Bytes
  pub status : PodStatusPayload

-- The answers of the API to Get and to UpdateStatus.
pub data Got : Type 0 where
  got_not_found get_failed : Got
  got : ApiPod → Got

pub data Updated : Type 0 where
  updated updated_not_found updated_conflict update_failed : Updated

-- How writePodStatus ends: only `write_failed` is an error.
pub data WriteOutcome : Type 0 where
  written pod_deleted pod_replaced gave_up write_failed : WriteOutcome

abbrev pub max_attempts : ℕ
max_attempts = 5

abbrev pub with_status : ApiPod → PodStatusPayload → ApiPod
with_status current status = record current { status = status }

-- `get` and `update` are the answers to the calls of each attempt.
module _ (get : ℕ → Got) (update : ℕ → ApiPod → Updated) (uid : Bytes)
    (status : PodStatusPayload) where
  -- What follows an update, given what further attempts would do.
  unfoldable pub after_update :
      ℕ → ApiPod → Updated → List ApiPod × WriteOutcome → List ApiPod × WriteOutcome
  after_update attempt sent updated further = (sent ∷ [], written)
  after_update attempt sent updated_not_found further = (sent ∷ [], pod_deleted)
  after_update attempt sent updated_conflict further =
      if ltb (attempt + 1) max_attempts then (sent ∷ further.0, further.1) else (sent ∷ [], gave_up)
  after_update attempt sent update_failed further = (sent ∷ [], write_failed)

  -- One attempt.
  unfoldable pub attempt_write : ℕ → Got → List ApiPod × WriteOutcome → List ApiPod × WriteOutcome
  attempt_write attempt got_not_found further = ([], pod_deleted)
  attempt_write attempt get_failed further = ([], write_failed)
  attempt_write attempt (got current) further =
      let sent = with_status current status in
      let after = after_update attempt sent (update attempt sent) further in
      if not (str_eq current.uid uid) then ([], pod_replaced) else after

  -- The loop of writePodStatus, with the attempts that are left: what it sends, and how it ends.
  unfoldable pub write_from : ℕ → ℕ → List ApiPod × WriteOutcome
  write_from zero attempt = ([], gave_up)
  write_from (suc left) attempt =
      attempt_write attempt (get attempt) (write_from left (attempt + 1))

  -- writePodStatus
  unfoldable pub write_pod_status : List ApiPod × WriteOutcome
  write_pod_status = write_from max_attempts 0
