-- ===== src/Eviction/Examples.antt =====
-- node/eviction.go: two pods that use 200 MB each, one of which makes no requests.
use periapsis.Base.{
  ℕ, ◌*◌, ◌^◌, ◌≤◌, ◌<◌, ◌≡◌, ◌⊎◌, refl, Bytes, bytes, str_eq, Bool, true, false, Option, none,
  some, List, [], ◌∷◌, lookup, insert, bytes_eq, if◌then◌else◌, All, Int64, slt64, arith, ◌/◌,
}
use periapsis.Foci.Types.{pod_running, policy_always}
use periapsis.Foci.Phase.{pod_phase_number}
use periapsis.PodStore.Types.{PodContainer, StoredPod, PodStore, new_pod_store}
use periapsis.PodStore.Registry.{register_hydrated}
use periapsis.PodStore.Queries.{snapshot, is_deleting}
use periapsis.PodStore.Reach.{Reach, made, stepped, registered_hydrated}
use periapsis.Eviction.{
  PodEvictionCandidate, qos_ordinal, eviction_min_free_bytes, is_best_effort, is_guaranteed,
  sum_requests, sum_memory, choose, candidates_of, build_eviction_candidates, check_and_evict,
  calculate_oom_score,
}
use periapsis.Eviction.Score.{calculate_oom_score-order}
use periapsis.Eviction.Frees.{usage, but_last, choose-frees}
use periapsis.Eviction.Order.{IsEvictable, check_and_evict-running}

abbrev container : Bool → PodContainer
container requests = record {
  name = bytes "app";
  image = bytes "nginx";
  has_readiness_probe = false;
  cpu_request = none;
  memory_request = (if requests then some 1000000 else none);
  cpu_limit = none;
  memory_limit = none;
  has_requests = requests;
  has_limits = false;
}

abbrev pod : Bytes → Bool → StoredPod
pod name requests = record {
  uid = name;
  namespace = bytes "ns";
  name = name;
  restart_policy = some policy_always;
  containers = container requests ∷ [];
  init_containers = [];
  status = record {
    phase = pod_running;
    reason = [];
    message = [];
    container_statuses = [];
    init_container_statuses = [];
  };
}

abbrev share_example : Int64 → Int64 → Int64
share_example a b = 1000 * a / b

abbrev read_example : Bytes → Bytes → Option ℕ
read_example uid name = some 200000000

abbrev capacity : Int64
capacity = 1000000000

abbrev one : PodStore
one = register_hydrated new_pod_store (bytes "a") (pod (bytes "a") false) []

abbrev two : PodStore
two = register_hydrated one (bytes "b") (pod (bytes "b") true) []

b_new : lookup (bytes "b") one.pods ≡ none
unfolding register_hydrated new_pod_store insert lookup str_eq bytes
b_new = refl

none_held : lookup (bytes "a") new_pod_store.pods ≡ none
unfolding new_pod_store lookup
none_held = refl

two-Reach : Reach two
two-Reach =
    stepped (stepped made (registered_hydrated (bytes "a") (pod (bytes "a") false) [] none_held))
      (registered_hydrated (bytes "b") (pod (bytes "b") true) [] b_new)

abbrev unsorted : List PodEvictionCandidate → List PodEvictionCandidate
unsorted l = l

check_and_evict-running_example :
    All
      (IsEvictable two)
      (check_and_evict share_example read_example capacity unsorted two (some true)).0
check_and_evict-running_example =
    check_and_evict-running share_example read_example capacity unsorted (some true) two-Reach
      (λ P l h. h)

abbrev candidates : List PodEvictionCandidate
candidates = build_eviction_candidates share_example read_example capacity two

few : usage candidates < 2 ^ 64
unfolding usage build_eviction_candidates candidates_of snapshot is_deleting register_hydrated
    new_pod_store insert lookup str_eq bytes calculate_oom_score is_best_effort is_guaranteed
    sum_requests sum_memory pod_phase_number
few = omega arith

choose-frees_example :
    ((eviction_min_free_bytes ≤ usage (choose true candidates).0)
      ⊎ ((choose true candidates).1 ≡ []))
    × (usage (but_last (choose true candidates).0) < eviction_min_free_bytes)
choose-frees_example = choose-frees candidates few

earlier :
    qos_ordinal (calculate_oom_score share_example (pod (bytes "a") false) capacity).1
    < qos_ordinal (calculate_oom_score share_example (pod (bytes "b") true) capacity).1
unfolding calculate_oom_score is_best_effort is_guaranteed sum_requests qos_ordinal
earlier = omega arith

calculate_oom_score-order_example :
    slt64
      (calculate_oom_score share_example (pod (bytes "b") true) capacity).0
      (calculate_oom_score share_example (pod (bytes "a") false) capacity).0
    ≡ true
calculate_oom_score-order_example =
    calculate_oom_score-order share_example (pod (bytes "a") false) (pod (bytes "b") true) capacity
      earlier
