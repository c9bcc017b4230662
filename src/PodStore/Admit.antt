-- ===== src/PodStore/Admit.antt =====
-- node/podstore.go: admission, and what it means for the pods of the node together.
use periapsis.Base.{
  ℕ, ◌+◌, ◌-◌, ◌^◌, ◌<◌, ◌≤◌, ◌≡◌, ◌≢◌, ◌⊎◌, ◌↔◌, inl, inr, Bytes, Option, none, some, lookup,
  bytes_eq, Int64, arith, total, total-insert_new, Bool-cases, ltb,
}
use periapsis.PodStore.Types.{StoredPod, PodStore, pod_resources}
use periapsis.PodStore.Registry.{register_pending, pending_actor}
use periapsis.PodStore.Queries.{
  admitted, admit_resources, admit_pod, HostPressure, allocatable, psi_cpu_threshold,
  psi_memory_threshold,
}
use periapsis.PodStore.Edits.{cpu_of, mem_of}
use periapsis.PodStore.Reach.{Reach, Reach-IsAccounted}

-- With capacities that are positive int64s, and sums that do not overflow, a pod passes the test of
-- resources exactly if it requests nothing or what is used and what it requests fit.
pub admit_resources-fits :
    (s : PodStore) (pod : StoredPod) (cpu_cap mem_cap : Int64)
    → s.used_cpu + (pod_resources pod).0 < 2 ^ 63
    → s.used_mem + (pod_resources pod).1 < 2 ^ 63
    → 1 ≤ cpu_cap
    → cpu_cap < 2 ^ 63
    → 1 ≤ mem_cap
    → mem_cap < 2 ^ 63
    → (admit_resources s pod cpu_cap mem_cap ≡ admitted) ↔ (
        ((pod_resources pod ≡ (0, 0)))
        ⊎ ((s.used_cpu + (pod_resources pod).0 ≤ cpu_cap)
            × (s.used_mem + (pod_resources pod).1 ≤ mem_cap)))
unfolding admit_resources
admit_resources-fits s pod cpu_cap mem_cap small_cpu small_mem lo_cpu hi_cpu lo_mem hi_mem =
    ground arith

admit_pod-resources :
    (s : PodStore) (pod : StoredPod) (cpu_cap mem_cap : Int64) (pressure : Option HostPressure)
    → admit_pod s pod cpu_cap mem_cap pressure ≡ admitted
    → admit_resources s pod cpu_cap mem_cap ≡ admitted
unfolding admit_pod
admit_pod-resources s pod cpu_cap mem_cap none e = e
admit_pod-resources s pod cpu_cap mem_cap (some hp) e =
    elim (Bool-cases (ltb psi_cpu_threshold hp.cpu_avg10)) [
      | inl high ↦ cc (rw high at e)
      | inr calm ↦ elim (Bool-cases (ltb psi_memory_threshold hp.memory_avg10)) [
        | inl high ↦ cc (rw (calm, high) at e)
        | inr low ↦ rw (calm, low) at e
      ]
    ]

-- In every state that the methods reach, if AdmitPod admits a pod that requests anything, then
-- with the pod registered under a new UID what all pods request together is at most the capacity,
-- for CPU and for memory, as long as the sums and the capacities are positive int64s.
pub Reach-admitted :
    {s : PodStore} (uid : Bytes) (pod : StoredPod) (handle : ℕ) (cpu_cap mem_cap : Int64)
    (pressure : Option HostPressure)
    → Reach s
    → lookup uid s.pods ≡ none
    → admit_pod s pod cpu_cap mem_cap pressure ≡ admitted
    → pod_resources pod ≢ (0, 0)
    → total cpu_of s.pods + (pod_resources pod).0 < 2 ^ 63
    → total mem_of s.pods + (pod_resources pod).1 < 2 ^ 63
    → 1 ≤ cpu_cap
    → cpu_cap < 2 ^ 63
    → 1 ≤ mem_cap
    → mem_cap < 2 ^ 63
    → (total cpu_of (register_pending s uid pod handle).pods ≤ cpu_cap)
      × (total mem_of (register_pending s uid pod handle).pods ≤ mem_cap)
unfolding register_pending
Reach-admitted {s} uid pod handle cpu_cap mem_cap pressure r new granted some_need small_cpu
      small_mem lo_cpu hi_cpu lo_mem hi_mem =
    let c = Reach-IsAccounted r in
    let cpu = total-insert_new cpu_of uid (pending_actor pod handle) s.pods new in
    let mem = total-insert_new mem_of uid (pending_actor pod handle) s.pods new in
    let fits =
      (admit_resources-fits s pod cpu_cap mem_cap (omega (arith, c.cpu, small_cpu))
          (omega (arith, c.mem, small_mem)) lo_cpu hi_cpu lo_mem hi_mem).0
        (admit_pod-resources s pod cpu_cap mem_cap pressure granted) in
    elim fits [
      | inl nothing ↦ absurd (some_need nothing)
      | inr (ok_cpu, ok_mem) ↦ (
        omega (arith, c.cpu, cpu, ok_cpu, small_cpu),
        omega (arith, c.mem, mem, ok_mem, small_mem),
      )
    ]

-- What is allocatable is what is left of the capacity, and 0 if more than that is used.
pub allocatable_lem :
    (used cap : Int64) → used < 2 ^ 63 → cap < 2 ^ 63 → allocatable used cap ≡ cap - used
unfolding allocatable
allocatable_lem used cap small fits = ground arith
