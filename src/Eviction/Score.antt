-- ===== src/Eviction/Score.antt =====
-- node/lifecycle.go: the OOM score of a pod against its QoS class.
use periapsis.Base.{◌-◌, ◌^◌, ◌<◌, ◌≡◌, Int64, slt64, true, arith, refl, if_cases, add64, ◌&&◌}
use periapsis.PodStore.Types.{StoredPod}
use periapsis.Eviction.{
  QosClass, best_effort, burstable, guaranteed, qos_ordinal, smin, smax, calculate_oom_score,
  is_best_effort, is_guaranteed, sum_requests,
}

-- What calculateOOMScore can give.
pub data Scored : Int64 × QosClass → Type 0 where
  scored_best_effort : Scored (1000, best_effort)
  scored_burstable : (score : Int64) → 1 < score → score < 1000 → Scored (score, burstable)
  scored_guaranteed : Scored (2 ^ 64 - 998, guaranteed)

clamped : (x : Int64) → (1 < smin (smax (add64 2 x) 2) 999) × (smin (smax (add64 2 x) 2) 999 < 1000)
clamped x = ground arith

pub calculate_oom_score-Scored :
    (share : Int64 → Int64 → Int64) (pod : StoredPod) (memory : Int64)
    → Scored (calculate_oom_score share pod memory)
unfolding calculate_oom_score
calculate_oom_score-Scored share pod memory =
    let total = sum_requests pod.containers 0 in
    if_cases Scored (is_best_effort pod.containers) (λ _. scored_best_effort)
      (λ _.
        if_cases Scored (is_guaranteed pod.containers) (λ _. scored_guaranteed)
          (λ _.
            if_cases Scored (slt64 0 memory && slt64 0 total)
              (λ _.
                scored_burstable _ (clamped (share total memory)).0
                  (clamped (share total memory)).1)
              (λ _. scored_burstable 2 (omega arith) (omega arith))))

Scored-order :
    (a b : Int64 × QosClass)
    → Scored a
    → Scored b
    → qos_ordinal a.1 < qos_ordinal b.1
    → slt64 b.0 a.0 ≡ true
unfolding qos_ordinal
Scored-order _ _ scored_best_effort scored_best_effort less = absurd (omega (arith, less))
Scored-order _ _ scored_best_effort (scored_burstable score lo hi) less = ground (arith, lo, hi)
Scored-order _ _ scored_best_effort scored_guaranteed less = refl
Scored-order _ _ (scored_burstable score lo hi) scored_best_effort less =
    absurd (omega (arith, less))
Scored-order _ _ (scored_burstable score lo hi) (scored_burstable score' lo' hi') less =
    absurd (omega (arith, less))
Scored-order _ _ (scored_burstable score lo hi) scored_guaranteed less = ground (arith, lo, hi)
Scored-order _ _ scored_guaranteed scored_best_effort less = absurd (omega (arith, less))
Scored-order _ _ scored_guaranteed (scored_burstable score lo hi) less =
    absurd (omega (arith, less))
Scored-order _ _ scored_guaranteed scored_guaranteed less = absurd (omega (arith, less))

-- The OOM scores agree with the order of eviction, whatever the division of floats gives: of two
-- pods on one node, the one whose QoS class is evicted earlier has the higher OOM score.
pub calculate_oom_score-order :
    (share : Int64 → Int64 → Int64) (p q : StoredPod) (memory : Int64)
    → qos_ordinal (calculate_oom_score share p memory).1
      < qos_ordinal (calculate_oom_score share q memory).1
    → slt64 (calculate_oom_score share q memory).0 (calculate_oom_score share p memory).0 ≡ true
calculate_oom_score-order share p q memory less =
    Scored-order (calculate_oom_score share p memory) (calculate_oom_score share q memory)
      (calculate_oom_score-Scored share p memory) (calculate_oom_score-Scored share q memory) less
