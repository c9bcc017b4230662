-- ===== src/PodStore/Recreated.antt =====
-- node/podstore.go: a pod that is created anew under the same name, and a pod that is evicted as a ghost
-- while it is being deleted.
use periapsis.Base.{
  ℕ, ◌+◌, ◌^◌, ◌<◌, ◌≡◌, ◌≢◌, inl, inr, refl, sym, Bytes, str_eq, str_eq_iff, str_eq_refl, true,
  false, none, some, lookup, insert, delete, bytes_eq, arith, lookup-insert, lookup-delete,
  Bool-cases, Time, incr32,
}
use periapsis.PodStore.Types.{StoredPod, full_name, slash, PodActor, PodStore}
use periapsis.PodStore.Registry.{
  register_pending, pending_actor, unregister, complete, mark_deleting, evict_ghost,
}
use periapsis.PodStore.Queries.{deletions_in_progress, get_pod, has_pod}

-- The store in which the pod runs under two UIDs: the old one has not gone when the new one comes.
abbrev pub recreated : PodStore → Bytes → Bytes → StoredPod → ℕ → ℕ → PodStore
recreated s old new pod first second =
    register_pending (register_pending s old pod first) new pod second

module _ (s : PodStore) (old new : Bytes) (pod : StoredPod) (first second : ℕ)
    (differ : old ≢ new) where
  other : str_eq new old ≡ false
  other = elim (Bool-cases (str_eq new old)) [
    | inl e ↦ absurd (differ (sym ((str_eq_iff new old).0 e)))
    | inr e ↦ e
  ]

  other_way : str_eq old new ≡ false
  other_way = elim (Bool-cases (str_eq old new)) [
    | inl e ↦ absurd (differ ((str_eq_iff old new).0 e))
    | inr e ↦ e
  ]

  recreated-old :
      lookup old (recreated s old new pod first second).pods ≡ some (pending_actor pod first)
  unfolding register_pending
  recreated-old =
      rw
        (
          lookup-insert ⦃e = bytes_eq⦄ new old (pending_actor pod second)
              (insert old (pending_actor pod first) s.pods),
          other,
          lookup-insert ⦃e = bytes_eq⦄ old old (pending_actor pod first) s.pods,
          str_eq_refl old,
        )
        refl

get_pod-none :
    (s : PodStore) (namespace name : Bytes)
    → lookup (slash namespace name) s.name_index ≡ none
    → get_pod s namespace name ≡ none
unfolding get_pod
get_pod-none s namespace name e = rw (e, get_pod) refl

module _ (s : PodStore) (uid namespace name : Bytes) (deleted_at now : Time) {ps : PodActor}
    (has : lookup uid s.pods ≡ some ps) where
  unregister-pods : (unregister s uid namespace name deleted_at now).pods ≡ delete uid s.pods
  unfolding unregister complete
  unregister-pods = rw (has, unregister) refl

  unregister-index :
      (unregister s uid namespace name deleted_at now).name_index
      ≡ delete (slash namespace name) s.name_index
  unfolding unregister complete
  unregister-index = rw (has, unregister) refl

-- If a pod is registered under a new UID while the old one of the same name is still there, then
-- Unregister of the old UID takes the name out of the index: the store has the new pod, and
-- GetPod by its name reports that there is none.
pub unregister-recreated :
    (s : PodStore) (old new : Bytes) (pod : StoredPod) (first second : ℕ) (deleted_at now : Time)
    → old ≢ new
    → let t =
        unregister
          (recreated s old new pod first second)
          old
          pod.namespace
          pod.name
          deleted_at
          now in
      (has_pod t new ≡ true) × (get_pod t pod.namespace pod.name ≡ none)
unfolding register_pending has_pod
unregister-recreated s old new pod first second deleted_at now differ =
    let gone = recreated-old s old new pod first second differ in
    let t =
      unregister (recreated s old new pod first second) old pod.namespace pod.name deleted_at now in
    (
      rw
          (
            unregister-pods (recreated s old new pod first second) old pod.namespace pod.name
                deleted_at now gone,
            lookup-delete ⦃e = bytes_eq⦄ old new (
                insert new (pending_actor pod second)
                  (insert old (pending_actor pod first) s.pods)),
            other_way s old new pod first second differ,
            lookup-insert ⦃e = bytes_eq⦄ new new (pending_actor pod second)
                (insert old (pending_actor pod first) s.pods),
            str_eq_refl new,
          )
          refl,
      get_pod-none t pod.namespace pod.name (
          rw
            (
              unregister-index (recreated s old new pod first second) old pod.namespace pod.name
                  deleted_at now gone,
              lookup-delete ⦃e = bytes_eq⦄ (slash pod.namespace pod.name)
                  (slash pod.namespace pod.name)
                  (insert (full_name pod) new (insert (full_name pod) old s.name_index)),
              str_eq_refl (slash pod.namespace pod.name),
            )
            refl),
    )

mark_deleting-first :
    (s : PodStore) (uid : Bytes) {ps : PodActor}
    → lookup uid s.pods ≡ some ps
    → ps.deleting ≡ false
    → mark_deleting s uid ≡ record s {
      pods = insert uid (record ps { deleting = true }) s.pods;
      deleting_count = incr32 s.deleting_count;
    }
unfolding mark_deleting
mark_deleting-first s uid {ps} has calm = rw (has, mark_deleting) (rw calm refl)

lookup-marked :
    (s : PodStore) (uid : Bytes) (ps : PodActor) → lookup uid (insert uid ps s.pods) ≡ some ps
lookup-marked s uid ps = rw (lookup-insert ⦃e = bytes_eq⦄ uid uid ps s.pods, str_eq_refl uid) refl

-- A pod that EvictGhost takes out while it is being deleted stays counted: DeletionsInProgress goes on
-- to be true.
pub evict_ghost-deleting :
    (s : PodStore) (uid : Bytes) {ps : PodActor}
    → lookup uid s.pods ≡ some ps
    → ps.deleting ≡ false
    → s.deleting_count + 1 < 2 ^ 31
    → let t = evict_ghost (mark_deleting s uid) uid in
      (has_pod t uid ≡ false) × (deletions_in_progress t ≡ true)
unfolding evict_ghost has_pod deletions_in_progress
evict_ghost-deleting s uid {ps} has calm few = rw (mark_deleting-first s uid has calm) (
    rw (lookup-marked s uid (record ps { deleting = true }), evict_ghost)
      (
        rw
            (
              lookup-delete ⦃e = bytes_eq⦄ uid uid
                  (insert uid (record ps { deleting = true }) s.pods),
              str_eq_refl uid,
            )
            refl,
        ground (arith, few),
      ))

-- Unregister takes back what MarkDeleting counted.
pub unregister-deleting :
    (s : PodStore) (uid namespace name : Bytes) {ps : PodActor} (deleted_at now : Time)
    → lookup uid s.pods ≡ some ps
    → ps.deleting ≡ false
    → s.deleting_count < 2 ^ 32
    → (unregister (mark_deleting s uid) uid namespace name deleted_at now).deleting_count
      ≡ s.deleting_count
unfolding unregister complete
unregister-deleting s uid namespace name {ps} deleted_at now has calm word =
    rw (mark_deleting-first s uid has calm)
      (rw (lookup-marked s uid (record ps { deleting = true }), unregister) (omega (arith, word)))
