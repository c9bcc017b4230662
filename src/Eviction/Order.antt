-- ===== src/Eviction/Order.antt =====
-- node/eviction.go: which pods are evicted.
use periapsis.Base.{
  ℕ, ◌≡◌, inl, inr, refl, ◌∙◌, Bytes, str_eq, str_eq_iff, str_eq_refl, true, false, Bool, not,
  Option, none, some, List, [], ◌∷◌, ◌++◌, if_cases, Bool-cases, slt64, All, Map, lookup, bytes_eq,
  IsDistinct, Int64, ==_iff, ◌==◌, arith,
}
use periapsis.Foci.Types.{
  PodPhase, phase_unset, pod_pending, pod_running, pod_succeeded, pod_failed, pod_unknown,
}
use periapsis.Foci.Phase.{pod_phase_number}
use periapsis.PodStore.Types.{PodActor, PodStore}
use periapsis.PodStore.Queries.{PodEntry, snapshot, is_deleting, pod_phase}
use periapsis.PodStore.Edits.{IsAccounted}
use periapsis.PodStore.Reach.{Reach, Reach-IsAccounted}
use periapsis.Eviction.{
  PodEvictionCandidate, comes_before, choose, candidates_of, build_eviction_candidates,
  check_and_evict,
}
use periapsis.Eviction.Frees.{evict_until-append}

-- No pod comes before one that stands to its left.
unfoldable pub IsOrdered : List PodEvictionCandidate → Type 0
IsOrdered [] = Unit
IsOrdered (c ∷ rest) = All (λ d. comes_before d c ≡ false) rest × IsOrdered rest

choose-append :
    (hard : Bool) (l : List PodEvictionCandidate) → ((choose hard l).0 ++ (choose hard l).1) ≡ l
unfolding choose
choose-append hard [] = refl
choose-append true (c ∷ rest) = evict_until-append 0 (c ∷ rest)
choose-append false (c ∷ rest) = refl

All-split :
    (P : PodEvictionCandidate → Type 0) (a b : List PodEvictionCandidate)
    → All P (a ++ b)
    → All P a × All P b
All-split P [] b h = (tt, h)
All-split P (c ∷ a) b (h, rest) = let split = All-split P a b rest in ((h, split.0), split.1)

split-IsOrdered :
    (a b : List PodEvictionCandidate)
    → IsOrdered (a ++ b)
    → All (λ c. All (λ d. comes_before d c ≡ false) b) a
unfolding IsOrdered
split-IsOrdered [] b h = tt
split-IsOrdered (c ∷ a) b (h, rest) =
    ((All-split (λ d. comes_before d c ≡ false) a b h).1, split-IsOrdered a b rest)

choose-IsOrdered :
    (hard : Bool) (l : List PodEvictionCandidate)
    → IsOrdered l
    → All (λ c. All (λ d. comes_before d c ≡ false) (choose hard l).1) (choose hard l).0
choose-IsOrdered hard l h =
    split-IsOrdered (choose hard l).0 (choose hard l).1 (rw (choose-append hard l) h)

choose-All :
    (P : PodEvictionCandidate → Type 0) (hard : Bool) (l : List PodEvictionCandidate)
    → All P l
    → All P (choose hard l).0
choose-All P hard l h =
    (All-split P (choose hard l).0 (choose hard l).1 (rw (choose-append hard l) h)).0

-- What the store says of an entry of a snapshot.
abbrev Shows : PodStore → PodEntry → Type 0
Shows s e = (pod_phase s e.uid ≡ e.phase)

snapshot-Shows :
    (s : PodStore) (m : Map Bytes PodActor)
    → IsDistinct m
    → ((k : Bytes) (v : PodActor) → lookup k m ≡ some v → lookup k s.pods ≡ some v)
    → All (Shows s) (snapshot m)
unfolding snapshot pod_phase lookup
snapshot-Shows s [] d sub = tt
snapshot-Shows s ((k, v) ∷ m) (new, d) sub = (
  rw (sub k v (rw (str_eq_refl k) refl), pod_phase) refl,
  snapshot-Shows s m d (λ j w e. sub j w (elim (Bool-cases (str_eq k j)) [
    | inl same ↦ cc (new, rw (← (str_eq_iff k j).0 same) at e)
    | inr differ ↦ rw differ e
  ])),
)

-- Of a pod that runs and is not being deleted.
abbrev pub IsEvictable : PodStore → PodEvictionCandidate → Type 0
IsEvictable s c = (pod_phase s c.uid ≡ pod_running) × (is_deleting s c.uid ≡ false)

running_number :
    (p : PodPhase) → pod_phase_number p ≡ pod_phase_number pod_running → p ≡ pod_running
unfolding pod_phase_number
running_number phase_unset h = absurd (omega (arith, h))
running_number pod_pending h = absurd (omega (arith, h))
running_number pod_running h = refl
running_number pod_succeeded h = absurd (omega (arith, h))
running_number pod_failed h = absurd (omega (arith, h))
running_number pod_unknown h = absurd (omega (arith, h))

module _ (share : Int64 → Int64 → Int64) (read_container_memory : Bytes → Bytes → Option ℕ)
    (memory : Int64) where
  candidates_of-All :
      (s : PodStore) (l : List PodEntry)
      → All (Shows s) l
      → All (λ c. IsEvictable s c) (candidates_of share read_container_memory memory s l)
  unfolding candidates_of
  candidates_of-All s [] h = tt
  candidates_of-All s (e ∷ rest) (shows, h) =
      let P : List PodEvictionCandidate → Type 0 = All (λ c. IsEvictable s c) in
      let on = candidates_of-All s rest h in
      if_cases P (not (pod_phase_number e.phase == pod_phase_number pod_running)) (λ _. on)
        (λ running.
          if_cases P (is_deleting s e.uid) (λ _. on)
            (λ stays. (
              (
                shows
                    ∙ running_number e.phase (
                        ground (
                          arith,
                          running,
                          ==_iff (pod_phase_number e.phase) (pod_phase_number pod_running),
                        )),
                stays,
              ),
              on,
            )))

  build_eviction_candidates-All :
      (s : PodStore)
      → IsAccounted s
      → All (λ c. IsEvictable s c) (build_eviction_candidates share read_container_memory memory s)
  unfolding build_eviction_candidates
  build_eviction_candidates-All s c =
      candidates_of-All s (snapshot s.pods) (snapshot-Shows s s.pods c.distinct (λ k v e. e))

  -- In every state of the pod store that its methods reach, whatever the pressure is and whatever
  -- the reads of memory give, checkAndEvict evicts only pods that the store has as Running and
  -- not as being deleted, if sort.Slice permutes its slice.
  pub check_and_evict-running :
      {s : PodStore} (sort : List PodEvictionCandidate → List PodEvictionCandidate)
      (pressure : Option Bool)
      → Reach s
      → ((P : PodEvictionCandidate → Type 0) (l : List PodEvictionCandidate)
          → All P l
          → All P (sort l))
      → All (IsEvictable s) (check_and_evict share read_container_memory memory sort s pressure).0
  unfolding check_and_evict
  check_and_evict-running {s} sort none r permutes = tt
  check_and_evict-running {s} sort (some hard) r permutes =
      if_cases
        (λ (p : List PodEvictionCandidate × List PodEvictionCandidate). All (IsEvictable s) p.0)
        (slt64 0 memory)
        (λ _.
          choose-All (IsEvictable s) hard
            (sort (build_eviction_candidates share read_container_memory memory s))
            (permutes (IsEvictable s)
              (build_eviction_candidates share read_container_memory memory s)
              (build_eviction_candidates-All s (Reach-IsAccounted r))))
        (λ _. tt)

  -- No candidate that checkAndEvict spares comes before one that it evicts, in the order of QoS
  -- class, OOM score and usage, if sort.Slice has put the candidates in that order.
  pub check_and_evict-order :
      (s : PodStore) (sort : List PodEvictionCandidate → List PodEvictionCandidate)
      (pressure : Option Bool)
      → IsOrdered (sort (build_eviction_candidates share read_container_memory memory s))
      → (let (evicted, spared) =
            check_and_evict share read_container_memory memory sort s pressure in
          All (λ c. All (λ d. comes_before d c ≡ false) spared) evicted)
  unfolding check_and_evict
  check_and_evict-order s sort none sorted = tt
  check_and_evict-order s sort (some hard) sorted =
      if_cases
        (λ (p : List PodEvictionCandidate × List PodEvictionCandidate).
          All (λ c. All (λ d. comes_before d c ≡ false) p.1) p.0)
        (slt64 0 memory)
        (λ _.
          choose-IsOrdered hard
            (sort (build_eviction_candidates share read_container_memory memory s)) sorted)
        (λ _. tt)
