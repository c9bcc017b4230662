-- ===== src/PodStore/Containers.antt =====
-- node/podstore.go: SetContainerState finds every container of the spec, and what it leaves of the others.
use periapsis.Base.{
  Bytes, str_eq, str_eq_iff, Bool, true, false, ◌≡◌, ◌⊎◌, inl, inr, refl, Option, none, some, List,
  [], ◌∷◌, if◌then◌else◌, lookup, insert, Map, ◌||◌, bytes_eq, lookup-insert, Bool-cases,
  Option-cases, Time, arith,
}
use periapsis.Foci.Types.{ContainerStatusPayload, ContainerStatePayload}
use periapsis.PodStore.Types.{StoredPod, PodContainer, PodActor, PodStore}
use periapsis.PodStore.Status.{
  existing_from, existing, needs_sync, rebuild, sync_slice, sync_status_to_spec, update_status_of,
  update_pod_status, set_container_state, enrich,
}

-- Is there a container of that name?
unfoldable pub names_container : Bytes → List PodContainer → Bool
names_container name [] = false
names_container name (c ∷ rest) =
    let on = names_container name rest in if str_eq c.name name then true else on

-- Is there a status of that name?
unfoldable pub names_status : Bytes → List ContainerStatusPayload → Bool
names_status name [] = false
names_status name (s ∷ rest) =
    let on = names_status name rest in if str_eq s.name name then true else on

abbrev pub is_found {ℓ} : {A : Type ℓ} → Option A → Bool
is_found none = false
is_found (some _) = true

update_status_of-found :
    (name : Bytes) (state : ContainerStatePayload) (ready : Bool) (l : List ContainerStatusPayload)
    → is_found (update_status_of name state ready l) ≡ names_status name l
unfolding update_status_of names_status
update_status_of-found name state ready [] = refl
update_status_of-found name state ready (s ∷ rest) =
    let ih = update_status_of-found name state ready rest in
    elim (Bool-cases (str_eq s.name name)) [
      | inl e ↦ ground (arith, e)
      | inr e ↦ elim (Option-cases (update_status_of name state ready rest)) [
        | inl none_left ↦ rw (none_left, e) (ground (arith, ih, none_left))
        | inr (l, some_left) ↦ ground (arith, e, ih, some_left)
      ]
    ]

-- An index that maps names to statuses of that name, as `existing` does.
abbrev NamesRight : Map Bytes ContainerStatusPayload → Type 0
NamesRight m = (k : Bytes) (s : ContainerStatusPayload) → lookup k m ≡ some s → s.name ≡ k

existing_from-NamesRight :
    (l : List ContainerStatusPayload) (m : Map Bytes ContainerStatusPayload)
    → NamesRight m
    → NamesRight (existing_from l m)
unfolding existing_from
existing_from-NamesRight [] m h = h
existing_from-NamesRight (s ∷ rest) m h =
    existing_from-NamesRight rest (insert s.name s m) (λ k t e.
      elim (Bool-cases (str_eq s.name k)) [
        | inl same ↦
            let found : ◌≡◌ {A = Option ContainerStatusPayload} (some s) (some t) =
              rw (lookup-insert ⦃e = bytes_eq⦄ s.name k s m, same) at e in
            let s_t : s ≡ t = cc in rw s_t at ((str_eq_iff s.name k).0 same)
        | inr other ↦ h k t (rw (lookup-insert ⦃e = bytes_eq⦄ s.name k s m, other) at e)
      ])

rebuild-names :
    (name : Bytes) (m : Map Bytes ContainerStatusPayload) (spec : List PodContainer)
    → NamesRight m
    → names_status name (rebuild m spec) ≡ names_container name spec
unfolding names_status names_container rebuild
rebuild-names name m [] h = refl
rebuild-names name m (c ∷ rest) h =
    let ih = rebuild-names name m rest h in
    elim (Option-cases (lookup c.name m)) [
      | inl absent ↦ rw (absent, ih) refl
      | inr (t, present) ↦ rw (present, h c.name t present, ih) refl
    ]

needs_sync-names :
    (name : Bytes) (m : Map Bytes ContainerStatusPayload) (spec : List PodContainer)
    → needs_sync m spec ≡ false
    → names_container name spec ≡ true
    → is_found (lookup name m) ≡ true
unfolding needs_sync names_container
needs_sync-names name m [] e h = cc
needs_sync-names name m (c ∷ rest) e h = elim (Option-cases (lookup c.name m)) [
  | inl absent ↦ cc (rw (absent, needs_sync) at e)
  | inr (t, present) ↦ elim (Bool-cases (str_eq c.name name)) [
    | inl same ↦ rw (← (str_eq_iff c.name name).0 same, present) refl
    | inr other ↦ needs_sync-names name m rest (rw (present, needs_sync) at e) (rw other at h)
  ]
]

existing_from-listed :
    (name : Bytes) (l : List ContainerStatusPayload) (m : Map Bytes ContainerStatusPayload)
    → is_found (lookup name (existing_from l m)) ≡ true
    → (names_status name l ≡ true) ⊎ (is_found (lookup name m) ≡ true)
unfolding existing_from names_status
existing_from-listed name [] m h = inr h
existing_from-listed name (s ∷ rest) m h =
    elim (existing_from-listed name rest (insert s.name s m) h) [
      | inl later ↦ inl (ground (arith, later))
      | inr now ↦ ground (arith, now, lookup-insert ⦃e = bytes_eq⦄ s.name name s m)
    ]

nothing_indexed : NamesRight []
unfolding lookup
nothing_indexed k s e = cc

-- Every container of the spec has a status after syncSlice.
sync_slice-names :
    (name : Bytes) (spec : List PodContainer) (l : List ContainerStatusPayload)
    → names_container name spec ≡ true
    → names_status name (sync_slice spec l) ≡ true
unfolding sync_slice
sync_slice-names name spec l h = elim (Bool-cases (needs_sync (existing l) spec)) [
  | inl e ↦
      rw (e, rebuild-names name (existing l) spec (existing_from-NamesRight l [] nothing_indexed)) h
  | inr e ↦ elim (existing_from-listed name l [] (needs_sync-names name (existing l) spec e h)) [
    | inl listed ↦ rw e listed
    | inr absurd_found ↦ unfold lookup in cc absurd_found
  ]
]

-- A name that neither the spec nor the statuses have has no status after syncSlice.
sync_slice-names_no :
    (name : Bytes) (spec : List PodContainer) (l : List ContainerStatusPayload)
    → names_container name spec ≡ false
    → names_status name l ≡ false
    → names_status name (sync_slice spec l) ≡ false
unfolding sync_slice
sync_slice-names_no name spec l h h' = elim (Bool-cases (needs_sync (existing l) spec)) [
  | inl e ↦
      rw (e, rebuild-names name (existing l) spec (existing_from-NamesRight l [] nothing_indexed)) h
  | inr e ↦ rw e h'
]

update_pod_status-found :
    (name : Bytes) (state : ContainerStatePayload) (ready : Bool) (pod : StoredPod)
    → is_found (update_pod_status name state ready pod) ≡ (
        names_status name pod.status.container_statuses
        || names_status name pod.status.init_container_statuses)
unfolding update_pod_status
update_pod_status-found name state ready pod =
    rw
      (
        ← update_status_of-found name state ready pod.status.container_statuses,
        ← update_status_of-found name state ready pod.status.init_container_statuses,
      )
      (elim (Option-cases (update_status_of name state ready pod.status.container_statuses)) [
        | inl e ↦
            elim (Option-cases
              (update_status_of name state ready pod.status.init_container_statuses)) [
                | inl e' ↦ rw (e, update_pod_status) (rw e' refl)
                | inr (l, e') ↦ rw (e, update_pod_status) (rw e' refl)
              ]
        | inr (l, e) ↦ rw (e, update_pod_status) refl
      ])

set_container_state-changed :
    (s : PodStore) (uid name : Bytes) {ps : PodActor} (state : ContainerStatePayload) (ready : Bool)
    (now : Time)
    → lookup uid s.pods ≡ some ps
    → (set_container_state s uid name state ready now).1 ≡ (
        names_status name (sync_slice ps.pod.containers ps.pod.status.container_statuses)
        || names_status name
            (sync_slice ps.pod.init_containers ps.pod.status.init_container_statuses))
unfolding sync_status_to_spec set_container_state
set_container_state-changed s uid name {ps} state ready now has =
    let pod = sync_status_to_spec ps.pod in
    let state' = enrich (lookup name ps.restarts) state now in
    rw (has, set_container_state)
      (rw (← update_pod_status-found name state' ready pod)
        (elim (Option-cases (update_pod_status name state' ready pod)) [
          | inl e ↦ rw e refl
          | inr (t, e) ↦ rw e refl
        ]))

-- Is the name one of the pod's containers or init containers?
abbrev pub in_spec : Bytes → StoredPod → Bool
in_spec name pod = names_container name pod.containers || names_container name pod.init_containers

-- Is there a status of that name?
abbrev pub in_status : Bytes → StoredPod → Bool
in_status name pod =
    names_status name pod.status.container_statuses
    || names_status name pod.status.init_container_statuses

-- For a registered pod whose statuses name none but the containers of its spec, SetContainerState
-- finds the container, and does not log an error, exactly if the container or init container is
-- in the spec, whatever statuses are missing.
pub set_container_state-in_spec :
    (s : PodStore) (uid name : Bytes) {ps : PodActor} (state : ContainerStatePayload) (ready : Bool)
    (now : Time)
    → lookup uid s.pods ≡ some ps
    → (in_spec name ps.pod ≡ false → in_status name ps.pod ≡ false)
    → (set_container_state s uid name state ready now).1 ≡ in_spec name ps.pod
set_container_state-in_spec s uid name {ps} state ready now has only =
    let changed = set_container_state-changed s uid name state ready now has in
    let main = sync_slice-names name ps.pod.containers ps.pod.status.container_statuses in
    let init = sync_slice-names name ps.pod.init_containers ps.pod.status.init_container_statuses in
    let main_no = sync_slice-names_no name ps.pod.containers ps.pod.status.container_statuses in
    let init_no =
      sync_slice-names_no name ps.pod.init_containers ps.pod.status.init_container_statuses in
    ground (arith, changed, main, init, main_no, init_no, only)
