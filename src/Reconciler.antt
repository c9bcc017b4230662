-- ===== src/Reconciler.antt =====
-- node/reconciler.go: what the reconciler takes away. The runtime, the network, the image store and the
-- files are the calls that it makes of them; the log is left out.
pub mod Ghosts
pub mod Rounds
pub mod Orphans
pub mod Examples
use periapsis.Base.{
  ℕ, ◌==◌, ltb, length, take, get_elem?, Bytes, bytes, str_eq, Bool, true, false, not, ◌&&◌, ◌||◌,
  Option, none, some, List, [], ◌∷◌, ◌++◌, if◌then◌else◌, is_empty, Map, lookup, bytes_eq,
}
use periapsis.PodStore.Types.{StoredPod, PodStore}
use periapsis.PodStore.Registry.{evict_ghost}
use periapsis.PodStore.Queries.{is_in_flight, has_pod, pod_uids, get_pod_copy, is_some}

-- The fields of a perigeos.PodMetadata that are read.
pub record PodMetadata : Type 0 where
  pub uid : Bytes
  pub namespace : Bytes
  pub name : Bytes
  pub container_name : Bytes

-- What podLister gives: there is none, it fails, or it lists pods, of which the UIDs are read.
pub data Listing : Type 0 where
  no_lister list_failed : Listing
  listed : List Bytes → Listing

-- The calls that the reconciler makes.
pub data Call : Type 0 where
  stop_machine : Bytes → Bytes → Call
  teardown_network : Bytes → Bytes → Bytes → Call
  unmount : Bytes → Call
  clean_volumes : Bytes → Call
  remove_pod_dir : Bytes → Call
  request_sync : Bytes → Bytes → Call
  remove_dir : Bytes → Call

unfoldable pub has_uid : Bytes → List Bytes → Bool
has_uid uid [] = false
has_uid uid (u ∷ rest) = str_eq u uid || has_uid uid rest

-- Is the pod among those that are listed?
abbrev pub lists : Listing → Bytes → Bool
lists no_lister uid = false
lists list_failed uid = false
lists (listed uids) uid = has_uid uid uids

-- The namespace and the name for the teardown of the network: the store's, if it has the pod.
abbrev pub names_or : PodMetadata → Option StoredPod → Bytes × Bytes
names_or m none = (m.namespace, m.name)
names_or m (some pod) = (pod.namespace, pod.name)

unfoldable pub teardown_names : PodStore → PodMetadata → Bytes × Bytes
teardown_names s m = names_or m (get_pod_copy s m.uid)

-- teardown
unfoldable pub teardown : PodStore → PodMetadata → List Call
teardown s m =
    let (namespace, name) = teardown_names s m in
    stop_machine m.uid m.container_name
    ∷ teardown_network m.uid namespace name
    ∷ unmount (m.uid ++ (bytes "-" ++ m.container_name))
    ∷ clean_volumes m.uid
    ∷ remove_pod_dir m.uid
    ∷ []

-- A round of the loop of cleanOrphans. It reads the pod store three times, and others may write to it in
-- between: for IsInFlight, for HasPod, and for the names in teardown, which StopMachine has gone before.
pub record Round : Type 0 where
  pub machine : PodMetadata
  pub at_in_flight : PodStore
  pub at_has_pod : PodStore
  pub listing : Listing
  pub at_teardown : PodStore

-- Does the loop go on to the list of pods?
abbrev pub is_unknown : Round → Bool
is_unknown r =
    not (is_in_flight r.at_in_flight r.machine.uid) && not (has_pod r.at_has_pod r.machine.uid)

-- Does it tear the machine down?
unfoldable pub is_orphan : Round → Bool
is_orphan r = is_unknown r && not (lists r.listing r.machine.uid)

-- Does it ask for the pod of the machine to be synced?
unfoldable pub is_lost : Round → Bool
is_lost r = is_unknown r && lists r.listing r.machine.uid

-- cleanOrphans, with a round for each machine that the runtime lists; it does nothing if that fails.
unfoldable pub clean_orphans : List Round → List Call
clean_orphans [] = []
clean_orphans (r ∷ rest) =
    let on = clean_orphans rest in
    if is_lost r
    then request_sync r.machine.namespace r.machine.name ∷ on
    else if is_orphan r
    then teardown r.at_teardown r.machine ++ on
    else on

-- strings.Cut at "/"
unfoldable pub cut_slash : Bytes → Option (Bytes × Bytes)
cut_slash [] = none
cut_slash (b ∷ rest) =
    let on = cut_slash rest in
    if b == b'/'
    then some ([], rest)
    else (elim on [ none ↦ none | some (before, after) ↦ some (b ∷ before, after) ])

-- splitNsName
unfoldable pub split_ns_name : Bytes → Bytes × Bytes
split_ns_name ns_name = elim (cut_slash ns_name) [
  | some (before, after) ↦ (before, after)
  | none ↦ ([], ns_name)
]

abbrev pub ghost_teardown : Bytes → Bytes × Bytes → Call
ghost_teardown uid (namespace, name) = teardown_network uid namespace name

-- Is the pod a ghost? So it is for the loop of cleanGhosts, if it is neither in flight nor listed.
unfoldable pub is_ghost : List Bytes → PodStore → Bytes → Bool
is_ghost k8s_uids s uid = not (is_in_flight s uid) && not (has_uid uid k8s_uids)

-- The loop of cleanGhosts, over the UIDs of the store when it began: the store after it, and the calls.
unfoldable pub evict_ghosts : List Bytes → Map Bytes Bytes → PodStore → PodStore × List Call
evict_ghosts k8s_uids [] s = (s, [])
evict_ghosts k8s_uids ((uid, ns_name) ∷ rest) s =
    let next = if is_ghost k8s_uids s uid then evict_ghost s uid else s in
    let (t, calls) = evict_ghosts k8s_uids rest next in
    if is_ghost k8s_uids s uid
    then (t, ghost_teardown uid (split_ns_name ns_name) ∷ calls)
    else (t, calls)

-- cleanGhosts; with no pods in the store the loop does nothing.
unfoldable pub clean_ghosts : PodStore → Listing → PodStore × List Call
clean_ghosts s no_lister = (s, [])
clean_ghosts s list_failed = (s, [])
clean_ghosts s (listed k8s_uids) = evict_ghosts k8s_uids (pod_uids s.pods) s

-- The byte 36 of a name, if there is one, is a hyphen.
abbrev pub is_hyphen : Option ℕ → Bool
is_hyphen none = false
is_hyphen (some b) = b == b'-'

-- The UID of a directory's name.
unfoldable pub uid_of_dir : Bytes → Bytes
uid_of_dir name =
    if ltb 36 (length name) && is_hyphen (get_elem? name 36) then take 36 name else name

-- cleanStaleDirs, given the names of the directories.
unfoldable pub clean_stale_dirs : PodStore → List Bytes → List Call
clean_stale_dirs s [] = []
clean_stale_dirs s (name ∷ rest) =
    let on = clean_stale_dirs s rest in
    if is_some (lookup (uid_of_dir name) (pod_uids s.pods))
    then on
    else if is_in_flight s (uid_of_dir name)
    then on
    else remove_dir name ∷ on

-- RunOnce: each of its three parts reads the list of pods for itself. `s` is the store when cleanGhosts
-- begins.
unfoldable pub run_once : List Round → PodStore → Listing → List Bytes → PodStore × List Call
run_once rounds s listing dirs =
    let (t, ghosts) = clean_ghosts s listing in
    (t, clean_orphans rounds ++ (ghosts ++ clean_stale_dirs t dirs))
