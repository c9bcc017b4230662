-- ===== src/Horizon/Examples.antt =====
-- internal/horizon/horizon.go: an empty inbox, and an API that answers each update with a conflict.
use periapsis.Base.{ℕ, ◌≡◌, ◌≤◌, ◌↔◌, bytes, List, ◌∷◌, [], All, length}
use periapsis.Foci.Types.{
  Effect, set_pod_phase, pod_failed, persist_pod_state, reset_unit, PodStatusPayload, pod_running,
}
use periapsis.Horizon.{
  ApiPod, Got, got, Updated, updated_conflict, gave_up, max_attempts, write_pod_status,
}
use periapsis.Horizon.Writes.{
  IsOurs, AllConflict, write_pod_status-IsOurs, write_pod_status-gave_up,
}

abbrev status : PodStatusPayload
status = record {
  phase = pod_running;
  conditions = [];
  container_statuses = [];
  host_ip = [];
  pod_ip = [];
}

abbrev current : ApiPod
current = record { uid = bytes "u1"; resource_version = bytes "7"; status = status }

abbrev always_there : ℕ → Got
always_there n = got current

abbrev always_conflict : ℕ → ApiPod → Updated
always_conflict n p = updated_conflict

write_pod_status-IsOurs_example :
    All
      (IsOurs always_there always_conflict (bytes "u1") status)
      (write_pod_status always_there always_conflict (bytes "u1") status).0
    × (length (write_pod_status always_there always_conflict (bytes "u1") status).0 ≤ max_attempts)
write_pod_status-IsOurs_example =
    write_pod_status-IsOurs always_there always_conflict (bytes "u1") status

write_pod_status-gave_up_example :
    ((write_pod_status always_there always_conflict (bytes "u1") status).1 ≡ gave_up)
    ↔ AllConflict always_there always_conflict (bytes "u1") status max_attempts 0
write_pod_status-gave_up_example =
    write_pod_status-gave_up always_there always_conflict (bytes "u1") status

abbrev ended : List Effect
ended =
    set_pod_phase (bytes "u1") pod_failed
    ∷ reset_unit (bytes "u1") (bytes "app")
    ∷ persist_pod_state (bytes "u1")
    ∷ []
