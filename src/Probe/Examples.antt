-- ===== src/Probe/Examples.antt =====
-- node/probes.go: a container that has run for a while.
use periapsis.Base.{
  ◌+◌, ◌*◌, ◌≡◌, ◌↔◌, refl, bytes, true, false, none, some, List, [], ◌∷◌, All, Clock, lookup,
  arith, second,
}
use periapsis.Foci.Types.{ProbeSpec, ProbeFact}
use periapsis.Probe.{
  ProbeResult, probe_success, probe_failure, ContainerProbeState, safe_threshold, eval_liveness,
  seeded, first_probe_time, is_due,
}
use periapsis.Probe.Streaks.{FailedLast, after_liveness, eval_liveness-restarts}
use periapsis.Probe.Scheduler.{
  ContainerProbes, Cycle, startup, probe_container, probe_container-gated,
}

abbrev fresh : ContainerProbeState
fresh = record {
  started_at = 1000;
  startup_passed = false;
  startup_fail_count = 0;
  live_fail_count = 0;
  ready = false;
  ready_fail_count = 0;
  ready_success_count = 0;
  last_probe_time = [];
}

abbrev two_failures : List ProbeResult
two_failures = probe_failure ∷ probe_failure ∷ probe_success ∷ []

eval_liveness-restarts_example :
    ((eval_liveness (after_liveness 3 fresh two_failures) 3 probe_failure).1 ≡ true)
    ↔ FailedLast (safe_threshold 3 3) (probe_failure ∷ two_failures)
eval_liveness-restarts_example =
    eval_liveness-restarts 3 fresh probe_failure two_failures refl (omega arith) (omega arith)

-- A minute later.
abbrev late : Clock
late n = 60 * second + 1000 + n

due_late : (is_due fresh startup 10 5 3 late).1 ≡ true
unfolding is_due seeded first_probe_time bytes lookup
due_late = refl

abbrev probe : ProbeSpec
probe = record {
  initial_delay_seconds = 5;
  period_seconds = 10;
  timeout_seconds = 1;
  success_threshold = 1;
  failure_threshold = 3;
}

abbrev app : ContainerProbes
app = record {
  uid = bytes "1";
  name = bytes "app";
  startup_probe = some probe;
  liveness_probe = some probe;
  readiness_probe = none;
}

abbrev failing : Cycle
failing = record { run_probe = λ type. probe_failure; jitter = λ type. 3; clock = λ type. late }

probe_container-gated_example :
    ((probe_container failing app fresh).0.ready ≡ fresh.ready)
    × All (λ (f : ProbeFact). f.probe_type ≡ startup) (probe_container failing app fresh).1
probe_container-gated_example = probe_container-gated failing app fresh probe refl refl
