-- ===== src/Reconciler/Examples.antt =====
-- node/reconciler.go: a store with one pod, and a machine that nobody knows.
use periapsis.Base.{bytes, ◌||◌, none, [], ◌∷◌, if◌then◌else◌, ◌≡◌, arith, Any, ◌↔◌}
use periapsis.Foci.Types.{pod_running}
use periapsis.PodStore.Types.{StoredPod, PodStore, new_pod_store, slash, get_pod_state}
use periapsis.PodStore.Registry.{register_hydrated}
use periapsis.PodStore.Queries.{is_in_flight}
use periapsis.Reconciler.{
  PodMetadata, listed, no_lister, has_uid, clean_ghosts, Round, clean_orphans, split_ns_name,
}
use periapsis.Reconciler.Ghosts.{clean_ghosts-pods}
use periapsis.Reconciler.Rounds.{IsOrphan, IsLost, Stops, Syncs}
use periapsis.Reconciler.Orphans.{NoSlash, clean_orphans-calls, split_ns_name-slash}

abbrev web : StoredPod
web = record {
  uid = bytes "u1";
  namespace = bytes "ns";
  name = bytes "web";
  restart_policy = none;
  containers = [];
  init_containers = [];
  status = record {
    phase = pod_running;
    reason = [];
    message = [];
    container_statuses = [];
    init_container_statuses = [];
  };
}

abbrev with_web : PodStore
with_web = register_hydrated new_pod_store (bytes "u1") web []

clean_ghosts-pods_example :
    get_pod_state (clean_ghosts with_web (listed (bytes "u2" ∷ []))).0 (bytes "u1") ≡ (
      if is_in_flight with_web (bytes "u1") || has_uid (bytes "u1") (bytes "u2" ∷ [])
      then get_pod_state with_web (bytes "u1")
      else none)
clean_ghosts-pods_example = clean_ghosts-pods with_web (bytes "u2" ∷ []) (bytes "u1")

abbrev machine : PodMetadata
machine = record {
  uid = bytes "u9";
  namespace = bytes "ns";
  name = bytes "db";
  container_name = bytes "app";
}

-- The store learns of the pod of the machine while the machine is being stopped.
abbrev late : Round
late = record {
  machine = machine;
  at_in_flight = new_pod_store;
  at_has_pod = new_pod_store;
  listing = no_lister;
  at_teardown = with_web;
}

clean_orphans-calls_example :
    (Any (Stops (bytes "u9") (bytes "app")) (clean_orphans (late ∷ []))
      ↔ Any (IsOrphan (bytes "u9") (bytes "app")) (late ∷ []))
    × (Any (Syncs (bytes "u9") (bytes "app")) (clean_orphans (late ∷ []))
        ↔ Any (IsLost (bytes "u9") (bytes "app")) (late ∷ []))
clean_orphans-calls_example = clean_orphans-calls (late ∷ []) (bytes "u9") (bytes "app")

ns-NoSlash : NoSlash (bytes "ns")
unfolding bytes
ns-NoSlash = omega arith

split_ns_name-slash_example :
    split_ns_name (slash (bytes "ns") (bytes "web")) ≡ (bytes "ns", bytes "web")
split_ns_name-slash_example = split_ns_name-slash (bytes "ns") (bytes "web") ns-NoSlash
