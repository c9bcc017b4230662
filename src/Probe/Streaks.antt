-- ===== src/Probe/Streaks.antt =====
-- node/probes.go: how many results in a row it takes to restart a container, or to change its
-- readiness. The latest result stands first in a list of results.
use periapsis.Base.{
  ℕ, zero, suc, ◌+◌, ◌<◌, ◌≤◌, ◌^◌, ◌≡◌, ◌≢◌, ◌↔◌, refl, Bool, true, false, List, [], ◌∷◌, length,
  take, All, arith, Int32, if◌then◌else◌, incr32,
}
use periapsis.Probe.{
  ProbeResult, probe_success, probe_failure, probe_unknown, ContainerProbeState, safe_threshold,
  eval_liveness, sge32,
}

abbrev pub Failed : ProbeResult → Type 0
Failed r = r ≢ probe_success

abbrev failed_b : ProbeResult → Bool
failed_b probe_success = false
failed_b _ = true

-- The last k results exist, and none of them was a success.
abbrev pub FailedLast : ℕ → List ProbeResult → Type 0
FailedLast k results = (k ≤ length results) × All Failed (take k results)

-- How many of the latest results in a row were not successes.
streak : List ProbeResult → ℕ
streak [] = 0
streak (r ∷ before) = let rest = streak before in if failed_b r then suc rest else 0

-- The state after some results of the liveness probe.
unfoldable pub after_liveness : Int32 → ContainerProbeState → List ProbeResult → ContainerProbeState
after_liveness threshold state [] = state
after_liveness threshold state (r ∷ before) =
    (eval_liveness (after_liveness threshold state before) threshold r).0

streak-length : (results : List ProbeResult) → streak results ≤ length results
unfolding streak
streak-length [] = omega arith
streak-length (probe_success ∷ before) = omega arith
streak-length (probe_failure ∷ before) = omega (arith, streak-length before)
streak-length (probe_unknown ∷ before) = omega (arith, streak-length before)

streak_to : (k : ℕ) (results : List ProbeResult) → k ≤ streak results → FailedLast k results
unfolding streak
streak_to zero results h = (omega arith, tt)
streak_to (suc k) [] h = absurd (omega arith)
streak_to (suc k) (probe_success ∷ before) h = absurd (omega arith)
streak_to (suc k) (probe_failure ∷ before) h =
    let on = streak_to k before (omega arith) in (omega (arith, on.0), ((λ e. cc), on.1))
streak_to (suc k) (probe_unknown ∷ before) h =
    let on = streak_to k before (omega arith) in (omega (arith, on.0), ((λ e. cc), on.1))

streak_from : (k : ℕ) (results : List ProbeResult) → FailedLast k results → k ≤ streak results
unfolding streak
streak_from zero results h = omega arith
streak_from (suc k) [] h = omega (arith, h.0)
streak_from (suc k) (probe_success ∷ before) h = elim (h.1.0 refl) [ ]
streak_from (suc k) (probe_failure ∷ before) h =
    let on = streak_from k before (omega (arith, h.0), h.1.1) in omega (arith, on)
streak_from (suc k) (probe_unknown ∷ before) h =
    let on = streak_from k before (omega (arith, h.0), h.1.1) in omega (arith, on)

live_fail_count-streak :
    (threshold : Int32) (state : ContainerProbeState) (results : List ProbeResult)
    → state.live_fail_count ≡ 0
    → length results < 2 ^ 31
    → (after_liveness threshold state results).live_fail_count ≡ streak results
unfolding after_liveness eval_liveness streak
live_fail_count-streak threshold state [] h small = h
live_fail_count-streak threshold state (probe_success ∷ before) h small = refl
live_fail_count-streak threshold state (probe_failure ∷ before) h small =
    omega
      (arith, live_fail_count-streak threshold state before h (omega arith), streak-length before)
live_fail_count-streak threshold state (probe_unknown ∷ before) h small =
    omega
      (arith, live_fail_count-streak threshold state before h (omega arith), streak-length before)

safe_threshold-positive :
    (threshold default_val : Int32) → 1 ≤ default_val → 1 ≤ safe_threshold threshold default_val
safe_threshold-positive threshold default_val h = ground arith

-- The comparison of a count with a threshold, where neither is negative.
sge32-incr32 :
    (n threshold default_val : ℕ)
    → n + 1 < 2 ^ 31
    → threshold < 2 ^ 32
    → default_val < 2 ^ 31
    → (sge32 (incr32 n) (safe_threshold threshold default_val) ≡ true)
      ↔ (safe_threshold threshold default_val ≤ suc n)
sge32-incr32 n threshold default_val small bound fits = ground arith

-- A streak as long as the threshold, for a result that is not a success.
sge32-streak :
    (threshold count : Int32) (results : List ProbeResult)
    → suc count ≡ streak results
    → threshold < 2 ^ 32
    → count + 1 < 2 ^ 31
    → (sge32 (incr32 count) (safe_threshold threshold 3) ≡ true)
      ↔ FailedLast (safe_threshold threshold 3) results
sge32-streak threshold count results same bound small =
    let compare = sge32-incr32 count threshold 3 small bound (omega arith) in
    (
      (λ e. streak_to (safe_threshold threshold 3) results (omega (arith, compare.0 e, same))),
      (λ f. compare.1 (omega (arith, streak_from (safe_threshold threshold 3) results f, same))),
    )

-- A success does not end a streak of failures.
no_streak :
    (threshold : Int32) (before : List ProbeResult)
    → (false ≡ true) ↔ FailedLast (safe_threshold threshold 3) (probe_success ∷ before)
unfolding streak
no_streak threshold before = (
  (λ e. cc),
  (λ f. absurd (
      omega (
        arith,
        streak_from (safe_threshold threshold 3) (probe_success ∷ before) f,
        safe_threshold-positive threshold 3 (omega arith),
      ))),
)

-- From a count of 0, with fewer than 2 ^ 31 results, the evaluation of the latest result of the
-- liveness probe asks for a restart exactly if as many results in a row, the latest included,
-- were not successes as the failure threshold says, which is 3 if it is not positive.
pub eval_liveness-restarts :
    (threshold : Int32) (state : ContainerProbeState) (r : ProbeResult) (before : List ProbeResult)
    → state.live_fail_count ≡ 0
    → threshold < 2 ^ 32
    → length (r ∷ before) < 2 ^ 31
    → ((eval_liveness (after_liveness threshold state before) threshold r).1 ≡ true)
      ↔ FailedLast (safe_threshold threshold 3) (r ∷ before)
unfolding eval_liveness streak
eval_liveness-restarts threshold state probe_success before h bound small =
    no_streak threshold before
eval_liveness-restarts threshold state probe_failure before h bound small =
    let same = live_fail_count-streak threshold state before h (omega (arith, small)) in
    sge32-streak threshold _ (probe_failure ∷ before) (omega (arith, same)) bound
      (omega (arith, same, small, streak-length before))
eval_liveness-restarts threshold state probe_unknown before h bound small =
    let same = live_fail_count-streak threshold state before h (omega (arith, small)) in
    sge32-streak threshold _ (probe_unknown ∷ before) (omega (arith, same)) bound
      (omega (arith, same, small, streak-length before))
