-- ===== src/Foci/Types.antt =====
-- internal/types/types.go: the facts that the state machine reads and the effects that it emits,
-- and the part of the Kubernetes API (corev1) that they carry.
use periapsis.Base.{Bytes, Bool, Option, List}
use periapsis.Base.{Int32, Duration, Time}

-- corev1.PodPhase; `phase_unset` is the empty string.
pub data PodPhase : Type 0 where
  phase_unset pod_pending pod_running pod_succeeded pod_failed pod_unknown : PodPhase

-- corev1.RestartPolicy; `policy_other` is any other string.
pub data RestartPolicy : Type 0 where
  policy_always policy_on_failure policy_never policy_other : RestartPolicy

-- perigeos.MachineState; `state_unknown` is also any string but the four others.
pub data MachineState : Type 0 where
  state_unknown state_running state_exited state_failed state_creating : MachineState

-- The fields of a corev1.Probe that are read, and foci's ProbeSpec, which copies them.
pub record ProbeSpec : Type 0 where
  pub initial_delay_seconds : Int32
  pub period_seconds : Int32
  pub timeout_seconds : Int32
  pub success_threshold : Int32
  pub failure_threshold : Int32

-- The fields of a corev1.Container that are read.
pub record Container : Type 0 where
  pub name : Bytes
  pub image : Bytes
  pub readiness_probe : Option ProbeSpec
  pub liveness_probe : Option ProbeSpec
  pub startup_probe : Option ProbeSpec

-- The fields of a corev1.Pod that are read.
pub record Pod : Type 0 where
  pub restart_policy : RestartPolicy
  pub containers : List Container

pub record UnitFact : Type 0 where
  pub uid : Bytes
  pub unit_name : Bytes
  pub sub_state : Bytes
  pub exit_code : Int32
  pub started_at : Time

pub record ContainerStateFact : Type 0 where
  pub uid : Bytes
  pub container : Bytes
  pub state : MachineState
  pub exit_code : Int32

pub record ExitFact : Type 0 where
  pub uid : Bytes
  pub container : Bytes
  pub exit_code : Int32
  pub reason : Bytes
  pub started_at : Bytes
  pub finished_at : Bytes
  pub will_restart : Bool

pub record ProbeFact : Type 0 where
  pub uid : Bytes
  pub container : Bytes
  pub probe_type : Bytes
  pub success : Bool
  pub ready : Bool
  pub startup_passed : Bool
  pub success_threshold : Int32
  pub failure_threshold : Int32

-- `pod` is a pointer: `none` is nil.
pub record SpecFact : Type 0 where
  pub uid : Bytes
  pub namespace : Bytes
  pub pod_name : Bytes
  pub pod : Option Pod

-- `pod` is a pointer: `none` is nil.
pub record PodAdmitFact : Type 0 where
  pub uid : Bytes
  pub namespace : Bytes
  pub name : Bytes
  pub pod_ip : Bytes
  pub pod : Option Pod

pub record MarkRunningFact : Type 0 where
  pub uid : Bytes
  pub container_name : Bytes

pub record BackoffResetFact : Type 0 where
  pub uid : Bytes
  pub container_name : Bytes

-- The sealed interface Fact.
pub data Fact : Type 0 where
  unit_fact : UnitFact → Fact
  container_state_fact : ContainerStateFact → Fact
  exit_fact : ExitFact → Fact
  probe_fact : ProbeFact → Fact
  spec_fact : SpecFact → Fact
  pod_admit_fact : PodAdmitFact → Fact
  pod_evict_fact : Bytes → Fact
  mark_running_fact : MarkRunningFact → Fact
  backoff_reset_fact : BackoffResetFact → Fact

-- The method UID of each fact.
unfoldable pub fact_uid : Fact → Bytes
fact_uid (unit_fact f) = f.uid
fact_uid (container_state_fact f) = f.uid
fact_uid (exit_fact f) = f.uid
fact_uid (probe_fact f) = f.uid
fact_uid (spec_fact f) = f.uid
fact_uid (pod_admit_fact f) = f.uid
fact_uid (pod_evict_fact uid) = uid
fact_uid (mark_running_fact f) = f.uid
fact_uid (backoff_reset_fact f) = f.uid

-- NewSpecFact
abbrev pub new_spec_fact : Bytes → Bytes → Bytes → Option Pod → SpecFact
new_spec_fact uid namespace pod_name pod = record {
  uid = uid;
  namespace = namespace;
  pod_name = pod_name;
  pod = pod;
}

-- ContainerStatePayload: three pointers, each with its payload if it is not nil.
pub record TerminatedPayload : Type 0 where
  pub exit_code : Int32
  pub reason : Bytes
  pub started_at : Time
  pub finished_at : Time

pub record ContainerStatePayload : Type 0 where
  pub waiting : Option Bytes
  pub running : Option Time
  pub terminated : Option TerminatedPayload

pub record ContainerStatusPayload : Type 0 where
  pub name : Bytes
  pub image : Bytes
  pub ready : Bool
  pub restart_count : Int32
  pub state : ContainerStatePayload

-- PodCondition: its type and its status.
pub record PodCondition : Type 0 where
  pub type : Bytes
  pub status : Bytes

pub record PodStatusPayload : Type 0 where
  pub phase : PodPhase
  pub conditions : List PodCondition
  pub container_statuses : List ContainerStatusPayload
  pub host_ip : Bytes
  pub pod_ip : Bytes

-- A call of fmt.Sprintf: the format and what it prints.
pub data Arg : Type 0 where
  text : Bytes → Arg
  number : Int32 → Arg

pub record Message : Type 0 where
  pub format : Bytes
  pub args : List Arg

pub record UpdateStatus : Type 0 where
  pub uid : Bytes
  pub namespace : Bytes
  pub name : Bytes
  pub status : PodStatusPayload

pub record RestartContainer : Type 0 where
  pub uid : Bytes
  pub namespace : Bytes
  pub pod_name : Bytes
  pub container_name : Bytes
  pub restart_count : Int32
  pub backoff : Duration

pub record RecordEvent : Type 0 where
  pub uid : Bytes
  pub event_type : Bytes
  pub reason : Bytes
  pub message : Message

pub record ContainerInitPayload : Type 0 where
  pub name : Bytes
  pub has_readiness_probe : Bool

pub record InitRestartState : Type 0 where
  pub uid : Bytes
  pub namespace : Bytes
  pub name : Bytes
  pub containers : List ContainerInitPayload

-- The sealed interface Effect.
pub data Effect : Type 0 where
  update_status : UpdateStatus → Effect
  restart_container : RestartContainer → Effect
  set_pod_phase : Bytes → PodPhase → Effect
  reset_unit : Bytes → Bytes → Effect
  record_event : RecordEvent → Effect
  persist_pod_state : Bytes → Effect
  init_restart_state : InitRestartState → Effect
