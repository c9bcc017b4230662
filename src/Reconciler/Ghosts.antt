-- ===== src/Reconciler/Ghosts.antt =====
-- node/reconciler.go: what is left in the pod store.
use periapsis.Base.{
  Bytes, str_eq, str_eq_iff, Bool, true, false, not, ◌&&◌, ◌||◌, Option, none, some, List, [], ◌∷◌,
  if◌then◌else◌, Map, lookup, lookup-delete, bytes_eq, ◌≡◌, refl, inl, inr, Bool-cases,
  Option-cases, if_cases, arith, ◌∙◌, sym,
}
use periapsis.PodStore.Types.{PodActor, PodStore, get_pod_state}
use periapsis.PodStore.Registry.{evict_ghost}
use periapsis.PodStore.Queries.{is_in_flight, pod_uids, is_some}
use periapsis.PodStore.Reach.{Reach, stepped, ghost_evicted}
use periapsis.Reconciler.{
  Listing, no_lister, list_failed, listed, has_uid, is_ghost, evict_ghosts, clean_ghosts,
}

abbrev in_flight_of : Option PodActor → Bool
in_flight_of none = false
in_flight_of (some ps) = is_some ps.in_flight

-- Is it a ghost?
abbrev ghost : List Bytes → Option PodActor → Bytes → Bool
ghost k8s_uids ps uid = not (in_flight_of ps) && not (has_uid uid k8s_uids)

is_in_flight-of :
    (s : PodStore) (uid : Bytes) → is_in_flight s uid ≡ in_flight_of (lookup uid s.pods)
unfolding is_in_flight
is_in_flight-of s uid = elim (Option-cases (lookup uid s.pods)) [
  | inl e ↦ rw (e, is_in_flight) refl
  | inr (ps, e) ↦ rw (e, is_in_flight) refl
]

is_ghost-lookup :
    (k8s_uids : List Bytes) (s : PodStore) (uid : Bytes)
    → is_ghost k8s_uids s uid ≡ ghost k8s_uids (lookup uid s.pods) uid
unfolding is_ghost
is_ghost-lookup k8s_uids s uid = rw (is_in_flight-of s uid) refl

evict_ghost-pods :
    (s : PodStore) (k u : Bytes)
    → lookup u (evict_ghost s k).pods ≡ (if str_eq k u then none else lookup u s.pods)
unfolding evict_ghost
evict_ghost-pods s k u = elim (Option-cases (lookup k s.pods)) [
  | inl e ↦
      rw (e, evict_ghost)
        (elim (Bool-cases (str_eq k u)) [
          | inl same ↦ rw (same, ← (str_eq_iff k u).0 same) e
          | inr differ ↦ rw differ refl
        ])
  | inr (ps, e) ↦ rw (e, evict_ghost) (lookup-delete ⦃e = bytes_eq⦄ k u s.pods)
]

evict_ghosts-pods :
    (k8s_uids : List Bytes) (m : Map Bytes Bytes) (s : PodStore) (u : Bytes)
    → lookup u (evict_ghosts k8s_uids m s).0.pods ≡ (
        if is_some (lookup u m) && ghost k8s_uids (lookup u s.pods) u
        then none
        else lookup u s.pods)
unfolding evict_ghosts lookup
evict_ghosts-pods k8s_uids [] s u = refl
evict_ghosts-pods k8s_uids ((k, n) ∷ m) s u =
    let at_k = is_ghost-lookup k8s_uids s k in
    elim (Bool-cases (is_ghost k8s_uids s k)) [
      | inl e ↦
          rw (e, evict_ghosts-pods k8s_uids m (evict_ghost s k) u, evict_ghost-pods s k u)
            (elim (Bool-cases (str_eq k u)) [
              | inl same ↦
                  let k_u : k ≡ u = (str_eq_iff k u).0 same in
                  let u_ghost : ghost k8s_uids (lookup u s.pods) u ≡ true =
                    rw (← k_u) (sym at_k ∙ e) in
                  rw (same, u_ghost)
                    (if_cases (λ (x : Option PodActor). x ≡ none)
                      (is_some (lookup u m) && ghost k8s_uids none u) (λ _. refl) (λ _. refl))
              | inr differ ↦ rw differ refl
            ])
      | inr e ↦
          rw (e, evict_ghosts-pods k8s_uids m s u)
            (elim (Bool-cases (str_eq k u)) [
              | inl same ↦
                  let k_u : k ≡ u = (str_eq_iff k u).0 same in
                  let u_real : ghost k8s_uids (lookup u s.pods) u ≡ false =
                    rw (← k_u) (sym at_k ∙ e) in
                  rw same (ground (arith, u_real))
              | inr differ ↦ rw differ refl
            ])
    ]

pod_uids-lookup :
    (m : Map Bytes PodActor) (u : Bytes) → is_some (lookup u (pod_uids m)) ≡ is_some (lookup u m)
unfolding pod_uids lookup
pod_uids-lookup [] u = refl
pod_uids-lookup ((k, ps) ∷ m) u = elim (Bool-cases (str_eq k u)) [
  | inl e ↦ ground (arith, e)
  | inr e ↦ ground (arith, e, pod_uids-lookup m u)
]

-- cleanGhosts, given the UIDs that Kubernetes lists, leaves a pod of the store as it is if it is
-- in flight or listed, and takes every other pod out.
pub clean_ghosts-pods :
    (s : PodStore) (k8s_uids : List Bytes) (u : Bytes)
    → get_pod_state (clean_ghosts s (listed k8s_uids)).0 u
      ≡ (if is_in_flight s u || has_uid u k8s_uids then get_pod_state s u else none)
unfolding clean_ghosts
clean_ghosts-pods s k8s_uids u =
    rw
      (
        evict_ghosts-pods k8s_uids (pod_uids s.pods) s u,
        pod_uids-lookup s.pods u,
        is_in_flight-of s u,
      )
      (elim (Option-cases (lookup u s.pods)) [
        | inl e ↦ rw e (ground arith)
        | inr (ps, e) ↦ rw e (ground arith)
      ])

evict_ghosts-Reach :
    (k8s_uids : List Bytes) (m : Map Bytes Bytes) (s : PodStore)
    → Reach s
    → Reach (evict_ghosts k8s_uids m s).0
unfolding evict_ghosts
evict_ghosts-Reach k8s_uids [] s r = r
evict_ghosts-Reach k8s_uids ((k, n) ∷ m) s r = elim (Bool-cases (is_ghost k8s_uids s k)) [
  | inl e ↦ rw e (evict_ghosts-Reach k8s_uids m (evict_ghost s k) (stepped r (ghost_evicted k)))
  | inr e ↦ rw e (evict_ghosts-Reach k8s_uids m s r)
]

-- cleanGhosts keeps to the calls of the store that its users make.
pub clean_ghosts-Reach :
    {s : PodStore} (listing : Listing) → Reach s → Reach (clean_ghosts s listing).0
unfolding clean_ghosts
clean_ghosts-Reach no_lister r = r
clean_ghosts-Reach list_failed r = r
clean_ghosts-Reach {s} (listed k8s_uids) r = evict_ghosts-Reach k8s_uids (pod_uids s.pods) s r
