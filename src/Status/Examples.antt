-- ===== src/Status/Examples.antt =====
-- node/status.go: a pod with two containers, one of which has failed.
use periapsis.Base.{
  Bytes, bytes, str_eq, false, none, [], ◌∷◌, if◌then◌else◌, Time, lookup, bytes_eq, ◌≡◌, ◌≢◌, ◌↔◌,
  refl, All, true,
}
use periapsis.Foci.Types.{
  MachineState, state_creating, state_failed, state_unknown, pod_pending, pod_running,
}
use periapsis.PodStore.Types.{PodContainer, StoredPod, new_pod_store}
use periapsis.PodStore.Registry.{register_hydrated}
use periapsis.PodStore.Queries.{find_pod_uid}
use periapsis.PodStore.Reach.{Reach, made, stepped, registered_hydrated}
use periapsis.Status.{policy_of, build_pod_status, get_pod_status, not_found}
use periapsis.Status.Phase.{any_restarting, build_pod_status-phase}
use periapsis.Status.Ready.{IsUp, build_pod_status-ready}
use periapsis.Status.Answers.{get_pod_status-not_found}

abbrev container : Bytes → PodContainer
container name = record {
  name = name;
  image = bytes "nginx";
  has_readiness_probe = false;
  cpu_request = none;
  memory_request = none;
  cpu_limit = none;
  memory_limit = none;
  has_requests = false;
  has_limits = false;
}

abbrev web : StoredPod
web = record {
  uid = bytes "u1";
  namespace = bytes "ns";
  name = bytes "web";
  restart_policy = none;
  containers = container (bytes "a") ∷ container (bytes "b") ∷ [];
  init_containers = [];
  status = record {
    phase = pod_running;
    reason = [];
    message = [];
    container_statuses = [];
    init_container_statuses = [];
  };
}

-- The container a is being created, the other one has failed.
unfoldable one_failed : Bytes → Bytes → MachineState
one_failed uid name = if str_eq name (bytes "a") then state_creating else state_failed

abbrev at_five : Bytes → Time
at_five name = 5

a_creates : one_failed (bytes "u1") (bytes "a") ≡ state_creating
unfolding one_failed str_eq bytes
a_creates = refl

b_failed : one_failed (bytes "u1") (bytes "b") ≡ state_failed
unfolding one_failed str_eq bytes
b_failed = refl

b_not_creating : one_failed (bytes "u1") (bytes "b") ≢ state_creating
b_not_creating e = cc (e, b_failed)

a_known : one_failed (bytes "u1") (bytes "a") ≢ state_unknown
a_known e = cc (e, a_creates)

b_known : one_failed (bytes "u1") (bytes "b") ≢ state_unknown
b_known e = cc (e, b_failed)

build_pod_status-phase_example :
    (build_pod_status new_pod_store [] web one_failed at_five).phase ≡ (
      if any_restarting (policy_of none) (one_failed (bytes "u1")) (container (bytes "b") ∷ [])
      then pod_running
      else pod_pending)
build_pod_status-phase_example =
    build_pod_status-phase new_pod_store [] web one_failed at_five [] (container (bytes "a"))
      (container (bytes "b") ∷ []) refl a_creates (b_not_creating, tt)

build_pod_status-ready_example :
    ((build_pod_status new_pod_store [] web one_failed at_five).ready ≡ true)
    ↔ All (λ c. IsUp new_pod_store (bytes "u1") c (one_failed (bytes "u1") c.name)) web.containers
build_pod_status-ready_example =
    build_pod_status-ready new_pod_store [] web one_failed at_five (a_known, (b_known, tt))

none_held : lookup (bytes "u1") new_pod_store.pods ≡ none
unfolding new_pod_store lookup
none_held = refl

web-Reach : Reach (register_hydrated new_pod_store (bytes "u1") web [])
web-Reach = stepped made (registered_hydrated (bytes "u1") web [] none_held)

get_pod_status-not_found_example :
    (get_pod_status
        (register_hydrated new_pod_store (bytes "u1") web [])
        []
        (bytes "ns")
        (bytes "db")
        one_failed
        at_five
      ≡ not_found)
    ↔ (find_pod_uid (register_hydrated new_pod_store (bytes "u1") web []) (bytes "ns") (bytes "db")
        ≡ none)
get_pod_status-not_found_example =
    get_pod_status-not_found [] (bytes "ns") (bytes "db") one_failed at_five web-Reach
