-- ===== src/Eviction.antt =====
-- node/eviction.go: which pods are evicted under memory pressure, and calculateOOMScore of
-- node/lifecycle.go. Deleting the pods, the event and the log are left out.
pub mod Score
pub mod Order
pub mod Frees
pub mod Examples
use periapsis.Base.{
  ℕ, ◌+◌, ◌-◌, ◌*◌, ◌%◌, ◌^◌, ◌==◌, ltb, leb, Bytes, Bool, true, false, not, ◌&&◌, ◌||◌, Option,
  none, some, List, [], ◌∷◌, if◌then◌else◌, Int64, slt64, add64, Map,
}
use periapsis.Foci.Types.{PodPhase, pod_running}
use periapsis.Foci.Phase.{pod_phase_number}
use periapsis.PodStore.Types.{PodContainer, StoredPod, PodStore, or_nothing}
use periapsis.PodStore.Queries.{PodEntry, snapshot, is_deleting}

-- corev1.PodQOSClass; `qos_other` is any other string.
pub data QosClass : Type 0 where
  best_effort burstable guaranteed qos_other : QosClass

-- qosOrdinal
unfoldable pub qos_ordinal : QosClass → ℕ
qos_ordinal best_effort = 0
qos_ordinal burstable = 1
qos_ordinal guaranteed = 2
qos_ordinal qos_other = 1

-- A different number for each class.
abbrev pub qos_number : QosClass → ℕ
qos_number best_effort = 0
qos_number burstable = 1
qos_number guaranteed = 2
qos_number qos_other = 3

-- podEvictionCandidate. The usage is a uint64.
pub record PodEvictionCandidate : Type 0 where
  pub pod : StoredPod
  pub uid : Bytes
  pub qos_class : QosClass
  pub oom_score : Int64
  pub memory_usage : ℕ
  pub memory_request : Int64

-- evictionMinFreeBytes
abbrev pub eviction_min_free_bytes : ℕ
eviction_min_free_bytes = 128 * 1024 * 1024

-- Requests.Memory() and the like: a quantity that is missing is 0.
abbrev pub quantity : Option Int64 → Int64
quantity none = 0
quantity (some n) = n

-- calculateOOMScore: the loop that looks for a limit or request.
unfoldable pub is_best_effort : List PodContainer → Bool
is_best_effort [] = true
is_best_effort (c ∷ rest) = not (c.has_limits || c.has_requests) && is_best_effort rest

-- A quantity is zero exactly if its value is: Value and MilliValue round up.
abbrev pub all_fixed : PodContainer → Bool
all_fixed c =
    not (quantity c.memory_request == 0)
    && (not (quantity c.memory_limit == 0)
        && (not (quantity c.cpu_request == 0)
            && (not (quantity c.cpu_limit == 0)
                && ((quantity c.memory_request == quantity c.memory_limit)
                    && (quantity c.cpu_request == quantity c.cpu_limit)))))

-- calculateOOMScore: the loop that compares requests and limits.
unfoldable pub is_guaranteed : List PodContainer → Bool
is_guaranteed [] = true
is_guaranteed (c ∷ rest) = all_fixed c && is_guaranteed rest

-- The sum of the memory requests, from the sum so far.
unfoldable pub sum_requests : List PodContainer → Int64 → Int64
sum_requests [] sum = sum
sum_requests (c ∷ rest) sum = sum_requests rest (or_nothing c.memory_request sum)

-- min and max on int.
abbrev pub smin : Int64 → Int64 → Int64
smin a b = if slt64 b a then b else a

abbrev pub smax : Int64 → Int64 → Int64
smax a b = if slt64 a b then b else a

-- `share a b` is int(1000*float64(a)/float64(b)).
module _ (share : Int64 → Int64 → Int64) where
  -- calculateOOMScore
  unfoldable pub calculate_oom_score : StoredPod → Int64 → Int64 × QosClass
  calculate_oom_score pod node_memory_bytes =
      let total = sum_requests pod.containers 0 in
      if is_best_effort pod.containers
      then (1000, best_effort)
      else if is_guaranteed pod.containers
      then (2 ^ 64 - 998, guaranteed)
      else if slt64 0 node_memory_bytes && slt64 0 total
      then (smin (smax (add64 2 (share total node_memory_bytes)) 2) 999, burstable)
      else (2, burstable)

-- The function that sort.Slice is given: does the first come before the second?
unfoldable pub comes_before : PodEvictionCandidate → PodEvictionCandidate → Bool
comes_before ci cj =
    if not (qos_number ci.qos_class == qos_number cj.qos_class)
    then ltb (qos_ordinal ci.qos_class) (qos_ordinal cj.qos_class)
    else if not (ci.oom_score == cj.oom_score)
    then slt64 cj.oom_score ci.oom_score
    else ltb cj.memory_usage ci.memory_usage

-- The aggressive loop, from what has been freed: the pods that it evicts and those that it spares.
unfoldable pub evict_until :
    ℕ → List PodEvictionCandidate → List PodEvictionCandidate × List PodEvictionCandidate
evict_until freed [] = ([], [])
evict_until freed (c ∷ rest) =
    let on = evict_until ((freed + c.memory_usage) % 2 ^ 64) rest in
    if ltb 0 freed && leb eviction_min_free_bytes freed then ([], c ∷ rest) else (c ∷ on.0, on.1)

-- The choice of checkAndEvict from the sorted candidates; `hard` says that the usage is at the hard
-- threshold or above.
unfoldable pub choose :
    Bool → List PodEvictionCandidate → List PodEvictionCandidate × List PodEvictionCandidate
choose hard [] = ([], [])
choose hard (c ∷ rest) = if hard then evict_until 0 (c ∷ rest) else (c ∷ [], rest)

-- The uint64 sum of the working sets of a pod's containers; `none` is an error.
unfoldable pub sum_memory : (Bytes → Option ℕ) → List PodContainer → ℕ → ℕ
sum_memory read [] sum = sum
sum_memory read (c ∷ rest) sum = elim (read c.name) [
  | none ↦ sum_memory read rest sum
  | some ws ↦ sum_memory read rest ((sum + ws) % 2 ^ 64)
]

-- `read_container_memory uid name` is ReadContainerMemory, `memory` is Config.Memory.Value().
module _ (share : Int64 → Int64 → Int64) (read_container_memory : Bytes → Bytes → Option ℕ)
    (memory : Int64) where
  abbrev pub candidate_of : PodEntry → PodEvictionCandidate
  candidate_of e =
      let (score, qos) = calculate_oom_score share e.pod memory in
      record {
        pod = e.pod;
        uid = e.uid;
        qos_class = qos;
        oom_score = score;
        memory_usage = sum_memory (read_container_memory e.uid) e.pod.containers 0;
        memory_request = sum_requests e.pod.containers 0;
      }

  -- The loop of buildEvictionCandidates.
  unfoldable pub candidates_of : PodStore → List PodEntry → List PodEvictionCandidate
  candidates_of s [] = []
  candidates_of s (e ∷ rest) =
      let on = candidates_of s rest in
      if not (pod_phase_number e.phase == pod_phase_number pod_running)
      then on
      else if is_deleting s e.uid
      then on
      else candidate_of e ∷ on

  -- buildEvictionCandidates
  unfoldable pub build_eviction_candidates : PodStore → List PodEvictionCandidate
  build_eviction_candidates s = candidates_of s (snapshot s.pods)

  -- checkAndEvict: the pods that it evicts, in order, and the candidates that it spares. `sort` is
  -- sort.Slice by comes_before. `pressure` is `none` when the memory of the slice cannot be read or the
  -- usage is below the soft threshold, and else says that the usage is at the hard threshold or above.
  unfoldable pub check_and_evict :
      (List PodEvictionCandidate → List PodEvictionCandidate)
      → PodStore
      → Option Bool
      → List PodEvictionCandidate × List PodEvictionCandidate
  check_and_evict sort s none = ([], build_eviction_candidates s)
  check_and_evict sort s (some hard) =
      if slt64 0 memory
      then choose hard (sort (build_eviction_candidates s))
      else ([], build_eviction_candidates s)
