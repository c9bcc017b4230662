-- ===== src/Foci/Examples.antt =====
-- internal/foci: the reducer on a pod of two containers.
use periapsis.Base.{
  ◌+◌, ◌≤◌, ◌≡◌, ◌↔◌, refl, Bytes, bytes, true, false, List, [], ◌∷◌, Clock, arith,
}
use periapsis.Foci.Types.{
  pod_running, policy_always, state_running, state_failed, state_exited, MachineState,
  ContainerStateFact, container_state_fact,
}
use periapsis.Foci.State.{
  ContainerSpec, ContainerState, PodState, zero_probe, phase_running, phase_terminated,
  restart_backoff_init, ContainerPhase,
}
use periapsis.Foci.Phase.{recompute_phase}
use periapsis.Foci.UnitName.{wrapper_unit_name, parse_unit_name}
use periapsis.Foci.UnitName.RoundTrip.{parse_unit_name-wrapper_unit_name}
use periapsis.Foci.Reduce.{reduce}
use periapsis.Foci.Invariant.Defs.{WellFormed}
use periapsis.Foci.Invariant.{reduce-WellFormed}
use periapsis.Foci.PhaseRule.{PhaseOf, recompute_phase-PhaseOf}
use periapsis.Foci.Restarts.{poll_restarts, polls_restart_once}
use periapsis.Foci.Backoff.{backoffs, reduce-running-backoffs}

abbrev uid_1 : Bytes
uid_1 = bytes "11111111-2222-3333-4444-555555555555"

abbrev spec_of : Bytes → ContainerSpec
spec_of name = record {
  name = name;
  image = bytes "busybox";
  has_readiness_probe = false;
  has_liveness_probe = false;
  has_startup_probe = false;
  readiness_probe = zero_probe;
  liveness_probe = zero_probe;
  startup_probe = zero_probe;
}

abbrev container : Bytes → ContainerPhase → ContainerState
container name phase = record {
  name = name;
  image = bytes "busybox";
  phase = phase;
  ready = true;
  restart_count = 0;
  seen_running = true;
  restarting = false;
  backoff = restart_backoff_init;
  last_started = 5;
  exit_code = 0;
  exit_reason = [];
  startup_passed = false;
}

-- One container runs, and one has ended.
abbrev web_pod : PodState
web_pod = record {
  uid = uid_1;
  namespace = bytes "default";
  name = bytes "web";
  pod_ip = bytes "10.0.0.7";
  spec = record {
    restart_policy = policy_always;
    containers = spec_of (bytes "app") ∷ spec_of (bytes "log") ∷ [];
  };
  phase = pod_running;
  containers =
      container (bytes "app") phase_running ∷ container (bytes "log") phase_terminated ∷ [];
}

-- The same pod after its last container has ended.
abbrev ended_pod : PodState
ended_pod = record web_pod {
  containers =
      container (bytes "app") phase_terminated ∷ container (bytes "log") phase_terminated ∷ [];
}

abbrev ticks : Clock
ticks n = 1000 + n

abbrev poll : MachineState → ContainerStateFact
poll state = record { uid = uid_1; container = bytes "app"; state = state; exit_code = 7 }

abbrev web_pod_ok : WellFormed web_pod
web_pod_ok = record {
  aligned = refl;
  backoffs = ((omega arith, omega arith), ((omega arith, omega arith), tt));
}

reduce-WellFormed_example :
    WellFormed (reduce web_pod (container_state_fact (poll state_failed)) ticks).0
reduce-WellFormed_example =
    reduce-WellFormed web_pod (container_state_fact (poll state_failed)) ticks web_pod_ok

recompute_phase-PhaseOf_example :
    ((recompute_phase web_pod ticks).0.phase ≡ pod_running) ↔ PhaseOf web_pod.containers pod_running
recompute_phase-PhaseOf_example = recompute_phase-PhaseOf web_pod ticks pod_running

abbrev three_polls : List (ContainerStateFact × Clock)
three_polls =
    (poll state_failed, ticks) ∷ (poll state_exited, ticks) ∷ (poll state_failed, ticks) ∷ []

polls_restart_once_example : poll_restarts web_pod three_polls ≤ 1
polls_restart_once_example =
    polls_restart_once web_pod (bytes "app") three_polls
      ((refl, λ e. ground arith), ((refl, λ e. ground arith), ((refl, λ e. ground arith), tt)))

reduce-running-backoffs_example :
    backoffs (reduce web_pod (container_state_fact (poll state_running)) ticks).0 ≡ backoffs web_pod
reduce-running-backoffs_example =
    reduce-running-backoffs web_pod (poll state_running) ticks refl (omega arith)

abbrev app_unit : Bytes
app_unit = wrapper_unit_name (bytes "alpha") uid_1 (bytes "app")

parse_unit_name-wrapper_unit_name_example :
    parse_unit_name (bytes "alpha") app_unit ≡ (uid_1, bytes "app")
unfolding bytes
parse_unit_name-wrapper_unit_name_example =
    parse_unit_name-wrapper_unit_name (bytes "alpha") uid_1 (bytes "app") refl (omega arith)
