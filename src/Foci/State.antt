-- ===== src/Foci/State.antt =====
-- internal/foci/state.go: the flat state of one pod, and its construction at admission.
use periapsis.Base.{
  ℕ, suc, ◌*◌, Bytes, bytes, str_eq, Bool, true, false, not, Option, none, some, List, [], ◌∷◌, map,
  if◌then◌else◌, Int32, Duration, Time, Clock, after, second, minute,
}
use mathlib.Core.Option
use periapsis.Foci.Types.{
  PodPhase, phase_unset, pod_pending, RestartPolicy, policy_other, ProbeSpec, Container, Pod,
}

-- ContainerPhase
pub data ContainerPhase : Type 0 where
  phase_creating phase_running phase_terminated phase_crash_loop_back_off : ContainerPhase

-- The method String of ContainerPhase.
unfoldable pub phase_string : ContainerPhase → Bytes
phase_string phase_creating = bytes "ContainerCreating"
phase_string phase_running = bytes "Running"
phase_string phase_terminated = bytes "Terminated"
phase_string phase_crash_loop_back_off = bytes "CrashLoopBackOff"

-- The number of a phase, by iota.
unfoldable pub phase_number : ContainerPhase → ℕ
phase_number phase_creating = 0
phase_number phase_running = 1
phase_number phase_terminated = 2
phase_number phase_crash_loop_back_off = 3

pub record ContainerSpec : Type 0 where
  pub name : Bytes
  pub image : Bytes
  pub has_readiness_probe : Bool
  pub has_liveness_probe : Bool
  pub has_startup_probe : Bool
  pub readiness_probe : ProbeSpec
  pub liveness_probe : ProbeSpec
  pub startup_probe : ProbeSpec

pub record PodSpec : Type 0 where
  pub restart_policy : RestartPolicy
  pub containers : List ContainerSpec

pub record ContainerState : Type 0 where
  pub name : Bytes
  pub image : Bytes
  pub phase : ContainerPhase
  pub ready : Bool
  pub restart_count : Int32
  pub seen_running : Bool
  pub restarting : Bool
  pub backoff : Duration
  pub last_started : Time
  pub exit_code : Int32
  pub exit_reason : Bytes
  pub startup_passed : Bool

pub record PodState : Type 0 where
  pub uid : Bytes
  pub namespace : Bytes
  pub name : Bytes
  pub pod_ip : Bytes
  pub spec : PodSpec
  pub phase : PodPhase
  pub containers : List ContainerState

-- PodState{}
abbrev pub zero_pod_state : PodState
zero_pod_state = record {
  uid = [];
  namespace = [];
  name = [];
  pod_ip = [];
  spec = record { restart_policy = policy_other; containers = [] };
  phase = phase_unset;
  containers = [];
}

-- FindContainer: the index of the first container of that name; `none` for -1.
unfoldable pub find_container : Bytes → List ContainerState → Option ℕ
find_container name [] = none
find_container name (c ∷ cs) =
    if str_eq c.name name then some 0 else Option.map suc (find_container name cs)

-- FindSpec
unfoldable pub find_spec : Bytes → List ContainerSpec → Option ℕ
find_spec name [] = none
find_spec name (c ∷ cs) = if str_eq c.name name then some 0 else Option.map suc (find_spec name cs)

abbrev pub restart_backoff_init : Duration
restart_backoff_init = 10 * second

abbrev pub max_backoff : Duration
max_backoff = 5 * minute

abbrev pub restart_backoff_reset : Duration
restart_backoff_reset = 10 * minute

-- The zero value of ProbeSpec, where the pod has no such probe.
abbrev pub zero_probe : ProbeSpec
zero_probe = record {
  initial_delay_seconds = 0;
  period_seconds = 0;
  timeout_seconds = 0;
  success_threshold = 0;
  failure_threshold = 0;
}

abbrev pub probe_given : Option ProbeSpec → Bool
probe_given none = false
probe_given (some p) = true

abbrev pub probe_or_zero : Option ProbeSpec → ProbeSpec
probe_or_zero none = zero_probe
probe_or_zero (some p) = p

-- The body of the loop of NewPodSpec.
unfoldable pub new_container_spec : Container → ContainerSpec
new_container_spec c = record {
  name = c.name;
  image = c.image;
  has_readiness_probe = probe_given c.readiness_probe;
  has_liveness_probe = probe_given c.liveness_probe;
  has_startup_probe = probe_given c.startup_probe;
  readiness_probe = probe_or_zero c.readiness_probe;
  liveness_probe = probe_or_zero c.liveness_probe;
  startup_probe = probe_or_zero c.startup_probe;
}

-- NewPodSpec
unfoldable pub new_pod_spec : Pod → PodSpec
new_pod_spec pod = record {
  restart_policy = pod.restart_policy;
  containers = map new_container_spec pod.containers;
}

-- A container that starts in PhaseCreating, `now` being what time.Now() returns.
unfoldable pub new_container_state : ContainerSpec → Time → ContainerState
new_container_state cs now = record {
  name = cs.name;
  image = cs.image;
  phase = phase_creating;
  ready = not cs.has_readiness_probe;
  restart_count = 0;
  seen_running = false;
  restarting = false;
  backoff = restart_backoff_init;
  last_started = now;
  exit_code = 0;
  exit_reason = [];
  startup_passed = false;
}

-- The loop of NewPodState: one reading of the clock for each container.
unfoldable pub new_container_states : List ContainerSpec → Clock → List ContainerState
new_container_states [] clock = []
new_container_states (cs ∷ rest) clock =
    new_container_state cs (clock 0) ∷ new_container_states rest (after 1 clock)

-- NewPodState
unfoldable pub new_pod_state : Bytes → Bytes → Bytes → Bytes → Pod → Clock → PodState
new_pod_state uid namespace name pod_ip pod clock =
    let spec = new_pod_spec pod in
    record {
      uid = uid;
      namespace = namespace;
      name = name;
      pod_ip = pod_ip;
      spec = spec;
      phase = pod_pending;
      containers = new_container_states spec.containers clock;
    }
