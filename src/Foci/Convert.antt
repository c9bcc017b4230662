-- ===== src/Foci/Convert.antt =====
-- internal/foci/convert.go: from the state of a pod to the status that is sent to Kubernetes.
use periapsis.Base.{
  Bytes, bytes, Bool, true, ◌&&◌, Option, none, some, List, [], ◌∷◌, map, if◌then◌else◌, Time,
  Clock, after,
}
use periapsis.Foci.Types.{
  ContainerStatePayload, TerminatedPayload, ContainerStatusPayload, PodCondition, PodStatusPayload,
}
use periapsis.Foci.State.{
  ContainerPhase, phase_creating, phase_running, phase_terminated, phase_crash_loop_back_off,
  ContainerState, PodState,
}

abbrev pub waiting_payload : Bytes → ContainerStatePayload
waiting_payload reason = record { waiting = some reason; running = none; terminated = none }

-- The switch of containerStateToPayload on the phase; `now` is what metav1.Now() returns.
payload_of_phase : ContainerPhase → ContainerState → Time → ContainerStatePayload
payload_of_phase phase_creating cv now = waiting_payload (bytes "ContainerCreating")
payload_of_phase phase_running cv now = record {
  waiting = none;
  running = some cv.last_started;
  terminated = none;
}
payload_of_phase phase_terminated cv now = record {
  waiting = none;
  running = none;
  terminated = some (record {
    exit_code = cv.exit_code;
    reason = cv.exit_reason;
    started_at = cv.last_started;
    finished_at = now;
  });
}
payload_of_phase phase_crash_loop_back_off cv now = waiting_payload (bytes "CrashLoopBackOff")

-- containerStateToPayload
unfoldable pub container_state_to_payload : ContainerState → Time → ContainerStatePayload
unfolding payload_of_phase
container_state_to_payload cv now = payload_of_phase cv.phase cv now

-- The loop that builds the container statuses; reading n of the clock is for container n.
unfoldable pub container_status_payloads : List ContainerState → Clock → List ContainerStatusPayload
container_status_payloads [] clock = []
container_status_payloads (cv ∷ rest) clock =
    record {
      name = cv.name;
      image = cv.image;
      ready = cv.ready;
      restart_count = cv.restart_count;
      state = container_state_to_payload cv (clock 0);
    }
    ∷ container_status_payloads rest (after 1 clock)

-- The loop that looks for a container that is not ready.
unfoldable pub all_ready : List ContainerStatusPayload → Bool
all_ready [] = true
all_ready (cs ∷ rest) = cs.ready && all_ready rest

-- BuildPodStatusPayload
unfoldable pub build_pod_status_payload : PodState → Clock → PodStatusPayload
build_pod_status_payload state clock =
    let statuses = container_status_payloads state.containers clock in
    record {
      phase = state.phase;
      conditions =
          record {
            type = bytes "Ready";
            status = if all_ready statuses then bytes "True" else bytes "False";
          }
          ∷ [];
      container_statuses = statuses;
      host_ip = state.pod_ip;
      pod_ip = state.pod_ip;
    }

-- The switch of payloadToContainerState on the three pointers, in the order of its tests. The
-- fields of corev1.ContainerState that are written are those of the payload.
first_payload : Option Bytes → Option Time → Option TerminatedPayload → ContainerStatePayload
first_payload (some reason) running terminated = waiting_payload reason
first_payload none (some at) terminated = record {
  waiting = none;
  running = some at;
  terminated = none;
}
first_payload none none (some t) = record {
  waiting = none;
  running = none;
  terminated = some (record {
    exit_code = t.exit_code;
    reason = t.reason;
    started_at = t.started_at;
    finished_at = t.finished_at;
  });
}
first_payload none none none = waiting_payload (bytes "ContainerCreating")

-- payloadToContainerState
unfoldable pub payload_to_container_state : ContainerStatePayload → ContainerStatePayload
unfolding first_payload
payload_to_container_state p = first_payload p.waiting p.running p.terminated

abbrev to_corev1_condition : PodCondition → PodCondition
to_corev1_condition c = record { type = c.type; status = c.status }

unfoldable pub to_corev1_status : ContainerStatusPayload → ContainerStatusPayload
to_corev1_status cs = record {
  name = cs.name;
  image = cs.image;
  ready = cs.ready;
  restart_count = cs.restart_count;
  state = payload_to_container_state cs.state;
}

-- PodStatusPayloadToCorev1. The corev1.PodStatus is written as the record of the fields that the
-- code fills, which are those of the payload.
unfoldable pub pod_status_payload_to_corev1 : PodStatusPayload → PodStatusPayload
pod_status_payload_to_corev1 payload = record {
  phase = payload.phase;
  conditions = map to_corev1_condition payload.conditions;
  container_statuses = map to_corev1_status payload.container_statuses;
  host_ip = payload.host_ip;
  pod_ip = payload.pod_ip;
}
