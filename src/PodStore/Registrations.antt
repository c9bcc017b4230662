-- ===== src/PodStore/Registrations.antt =====
-- node/podstore.go: what the methods that add and remove pods change, as an edit.
use periapsis.Base.{
  ℕ, ◌≡◌, inl, inr, refl, Bytes, Bool, true, false, none, some, List, [], ◌∷◌, if_cases, lookup,
  bytes_eq, Time, incr32, Option-cases,
}
use periapsis.PodStore.Types.{StoredPod, full_name, slash, PodActor, PodStore, trigger_snapshot}
use periapsis.PodStore.Registry.{
  is_stub, pending_actor, hydrated_actor, register_pending, register_hydrated, HydratedEntry,
  register_hydrated_batch, already_running, mark_deleting, evict_ghost, unregister, complete,
  purge_hydrated,
}
use periapsis.PodStore.Queries.{aggregate}
use periapsis.PodStore.Edits.{
  Edit, unchanged, wrote, filled, entered, removed, recorded, signalled, aggregated, both,
}
use periapsis.PodStore.Calls.{quiet}
use periapsis.PodStore.Batch.{
  register_each, evict_each, InWord, register_hydrated_batch-register_each,
  purge_hydrated-evict_each,
}

-- A name that is given with the UID is that of the pod.
abbrev pub Names : PodStore → Bytes → Bytes → Type 0
Names s uid key = (ps : PodActor) → lookup uid s.pods ≡ some ps → key ≡ full_name ps.pod

pub register_pending-Edit :
    (s : PodStore) (uid : Bytes) (pod : StoredPod) (handle : ℕ)
    → lookup uid s.pods ≡ none
    → Edit s (register_pending s uid pod handle)
unfolding register_pending
register_pending-Edit s uid pod handle absent = entered uid (pending_actor pod handle) absent

pub register_hydrated-Edit :
    (s : PodStore) (uid : Bytes) (pod : StoredPod) (ip : Bytes)
    → lookup uid s.pods ≡ none
    → Edit s (register_hydrated s uid pod ip)
unfolding register_hydrated
register_hydrated-Edit s uid pod ip absent = entered uid (hydrated_actor pod ip) absent

pub mark_deleting-Edit : (s : PodStore) (uid : Bytes) → Edit s (mark_deleting s uid)
unfolding mark_deleting
mark_deleting-Edit s uid = elim (Option-cases (lookup uid s.pods)) [
  | inl e ↦ rw (e, mark_deleting) unchanged
  | inr (ps, e) ↦
      rw (e, mark_deleting)
        (if_cases (Edit s) ps.deleting (λ _. unchanged)
          (λ _.
            both (quiet s uid ps (record ps { deleting = true }) e refl refl refl refl)
              (recorded (incr32 s.deleting_count) s.completed)))
]

pub evict_ghost-Edit : (s : PodStore) (uid : Bytes) → Edit s (evict_ghost s uid)
unfolding evict_ghost
evict_ghost-Edit s uid = elim (Option-cases (lookup uid s.pods)) [
  | inl e ↦ rw (e, evict_ghost) unchanged
  | inr (ps, e) ↦ rw (e, evict_ghost) (removed uid ps (full_name ps.pod) e refl)
]

pub unregister-Edit :
    (s : PodStore) (uid namespace name : Bytes) (deleted_at now : Time)
    → Names s uid (slash namespace name)
    → Edit s (unregister s uid namespace name deleted_at now)
unfolding unregister complete
unregister-Edit s uid namespace name deleted_at now names =
    elim (Option-cases (lookup uid s.pods)) [
      | inl e ↦ rw (e, unregister) (recorded s.deleting_count _)
      | inr (ps, e) ↦
          rw (e, unregister)
            (both (removed uid ps (slash namespace name) e (names ps e)) (recorded _ _))
    ]

pub already_running-Edit :
    (s : PodStore) (uid : Bytes) (pod : StoredPod)
    → Names s uid (full_name pod)
    → Edit s (already_running s uid pod).0
unfolding already_running
already_running-Edit s uid pod names = elim (Option-cases (lookup uid s.pods)) [
  | inl e ↦ rw (e, already_running) unchanged
  | inr (ps, e) ↦
      rw (e, already_running)
        (if_cases First (is_stub ps)
          (λ stub. filled uid (record ps { pod = pod; hydrated = false }) e (names ps e) stub)
          (λ _. wrote uid (record ps { hydrated = false }) e refl refl))
]
  where
    First : PodStore × Bool × Bool → Type 0
    First r = Edit s r.0

pub aggregate-Edit : (s : PodStore) → Edit s (aggregate s)
aggregate-Edit s = aggregated

-- The pods of a batch are new when their turn comes.
unfoldable pub AllNew : List HydratedEntry → PodStore → Type 0
AllNew [] s = Unit
AllNew (e ∷ rest) s =
    (lookup e.uid s.pods ≡ none) × AllNew rest (register_hydrated s e.uid e.pod e.ip)

register_each-Edit :
    (entries : List HydratedEntry) (s : PodStore)
    → AllNew entries s
    → Edit s (register_each entries s)
unfolding register_each AllNew
register_each-Edit [] s new = unchanged
register_each-Edit (e ∷ rest) s new =
    both (register_hydrated-Edit s e.uid e.pod e.ip new.0) (register_each-Edit rest _ new.1)

evict_each-Edit : (uids : List Bytes) (s : PodStore) → Edit s (evict_each uids s)
unfolding evict_each
evict_each-Edit [] s = unchanged
evict_each-Edit (uid ∷ rest) s = both (evict_ghost-Edit s uid) (evict_each-Edit rest _)

pub register_hydrated_batch-Edit :
    (s : PodStore) (entries : List HydratedEntry)
    → InWord s
    → AllNew entries (trigger_snapshot s)
    → Edit s (register_hydrated_batch s entries)
register_hydrated_batch-Edit s entries small new =
    rw (register_hydrated_batch-register_each s entries small)
      (both signalled (register_each-Edit entries (trigger_snapshot s) new))

pub purge_hydrated-Edit :
    (s : PodStore) (uids : List Bytes) → InWord s → Edit s (purge_hydrated s uids)
purge_hydrated-Edit s uids small =
    rw (purge_hydrated-evict_each s uids small) (both signalled (evict_each-Edit uids _))
