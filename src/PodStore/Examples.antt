-- ===== src/PodStore/Examples.antt =====
-- node/podstore.go: a store with a few pods.
use periapsis.Base.{
  ◌≡◌, ◌≢◌, ◌+◌, ◌<◌, ◌^◌, ◌≤◌, refl, bytes, true, false, none, some, List, [], ◌∷◌, lookup, insert,
  bytes_eq, str_eq, str_eq_iff, arith, total,
}
use periapsis.Foci.Types.{pod_pending, policy_never}
use periapsis.PodStore.Types.{
  PodContainer, StoredPod, pod_resources, add_resources, PodStore, new_pod_store,
  ContainerRestartState, restart_backoff, trigger_snapshot,
}
use periapsis.PodStore.Registry.{
  HydratedEntry, pending_actor, register_pending, mark_deleting, register_hydrated_batch,
  unregister,
}
use periapsis.PodStore.Status.{set_container_state, no_state}
use periapsis.PodStore.Queries.{
  aggregate, load_snapshot, snapshots, get_pod, has_pod, admit_pod, admit_resources, admitted,
}
use periapsis.PodStore.Edits.{cpu_of, mem_of, IsAccounted}
use periapsis.PodStore.Batch.{InWord, register_each, register_hydrated_batch-register_each}
use periapsis.PodStore.Reach.{
  Reach, made, stepped, registered_pending, marked_deleting, Reach-IsAccounted, Reach-load_snapshot,
}
use periapsis.PodStore.Admit.{Reach-admitted}
use periapsis.PodStore.Recreated.{recreated, unregister-recreated}
use periapsis.PodStore.Backoff.{bump_times, capped, bump_times-capped}
use periapsis.PodStore.Containers.{names_status, in_spec, in_status, set_container_state-in_spec}

abbrev app : PodContainer
app = record {
  name = bytes "app";
  image = bytes "nginx";
  has_readiness_probe = false;
  cpu_request = some 250;
  memory_request = some 1048576;
  cpu_limit = none;
  memory_limit = none;
  has_requests = true;
  has_limits = false;
}

abbrev web : StoredPod
web = record {
  uid = bytes "u1";
  namespace = bytes "default";
  name = bytes "web";
  restart_policy = some policy_never;
  containers = app ∷ [];
  init_containers = [];
  status = record {
    phase = pod_pending;
    reason = [];
    message = [];
    container_statuses = [];
    init_container_statuses = [];
  };
}

abbrev with_web : PodStore
with_web = register_pending new_pod_store (bytes "u1") web 0

with_web-Reach : Reach with_web
unfolding new_pod_store lookup
with_web-Reach = stepped made (registered_pending (bytes "u1") web 0 refl)

abbrev deleting_web : PodStore
deleting_web = mark_deleting with_web (bytes "u1")

deleting_web-Reach : Reach deleting_web
deleting_web-Reach = stepped with_web-Reach (marked_deleting (bytes "u1"))

Reach-IsAccounted_example : IsAccounted deleting_web
Reach-IsAccounted_example = Reach-IsAccounted deleting_web-Reach

Reach-load_snapshot_example : load_snapshot (aggregate with_web) ≡ snapshots with_web.pods
Reach-load_snapshot_example = Reach-load_snapshot with_web-Reach

abbrev found_on_host : List HydratedEntry
found_on_host =
    record { uid = bytes "u2"; pod = web; ip = bytes "10.0.0.2" }
    ∷ record { uid = bytes "u3"; pod = web; ip = bytes "10.0.0.3" }
    ∷ []

new_InWord : InWord new_pod_store
unfolding new_pod_store
new_InWord = omega arith

register_hydrated_batch-register_each_example :
    register_hydrated_batch new_pod_store found_on_host
    ≡ register_each found_on_host (trigger_snapshot new_pod_store)
register_hydrated_batch-register_each_example =
    register_hydrated_batch-register_each new_pod_store found_on_host new_InWord

not_held : lookup (bytes "u2") with_web.pods ≡ none
unfolding register_pending new_pod_store insert lookup str_eq bytes
not_held = refl

web_admitted : admit_pod with_web web 1000 4194304 none ≡ admitted
unfolding admit_pod admit_resources register_pending new_pod_store pod_resources add_resources
web_admitted = refl

web_needs : pod_resources web ≢ (0, 0)
unfolding pod_resources add_resources
web_needs e = cc e

with_web-sums :
    (total cpu_of with_web.pods + (pod_resources web).0 < 2 ^ 63)
    × (total mem_of with_web.pods + (pod_resources web).1 < 2 ^ 63)
unfolding register_pending new_pod_store pod_resources add_resources insert
with_web-sums = (omega arith, omega arith)

Reach-admitted_example :
    (total cpu_of (register_pending with_web (bytes "u2") web 1).pods ≤ 1000)
    × (total mem_of (register_pending with_web (bytes "u2") web 1).pods ≤ 4194304)
Reach-admitted_example =
    Reach-admitted (bytes "u2") web 1 1000 4194304 none with_web-Reach not_held web_admitted
      web_needs with_web-sums.0 with_web-sums.1 (omega arith) (omega arith) (omega arith)
      (omega arith)

apart : bytes "u1" ≢ bytes "u2"
unfolding str_eq bytes
apart e =
    let same : str_eq (bytes "u1") (bytes "u2") ≡ true =
      (str_eq_iff (bytes "u1") (bytes "u2")).1 e in
    cc same

unregister-recreated_example :
    (has_pod
        (unregister
          (recreated new_pod_store (bytes "u1") (bytes "u2") web 0 1)
          (bytes "u1")
          web.namespace
          web.name
          5
          5)
        (bytes "u2")
      ≡ true)
    × (get_pod
          (unregister
            (recreated new_pod_store (bytes "u1") (bytes "u2") web 0 1)
            (bytes "u1")
            web.namespace
            web.name
            5
            5)
          web.namespace
          web.name
        ≡ none)
unregister-recreated_example =
    unregister-recreated new_pod_store (bytes "u1") (bytes "u2") web 0 1 5 5 apart

abbrev first_start : ContainerRestartState
first_start = record { count = 0; backoff = restart_backoff; last_started = 7 }

bump_times-capped_example : (bump_times 6 first_start).backoff ≡ capped 6
bump_times-capped_example = bump_times-capped 6 first_start refl

web_held : lookup (bytes "u1") with_web.pods ≡ some (pending_actor web 0)
unfolding register_pending new_pod_store insert lookup str_eq bytes
web_held = refl

no_status : in_spec (bytes "db") web ≡ false → in_status (bytes "db") web ≡ false
unfolding names_status
no_status h = refl

set_container_state-in_spec_example :
    (set_container_state with_web (bytes "u1") (bytes "db") no_state true 9).1
    ≡ in_spec (bytes "db") web
set_container_state-in_spec_example =
    set_container_state-in_spec with_web (bytes "u1") (bytes "db") no_state true 9 web_held
      no_status
