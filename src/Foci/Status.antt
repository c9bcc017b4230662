-- ===== src/Foci/Status.antt =====
-- The status of a pod: what is sent says what the state says.
use periapsis.Base.{
  ◌≡◌, refl, Bytes, Bool, true, false, List, [], ◌∷◌, map, arith, All, Clock, after, if◌then◌else◌,
  bytes, Time,
}
use periapsis.Foci.State.{ContainerState, PodState}
use periapsis.Base.{◌↔◌, after}
use periapsis.Foci.Types.{PodStatusPayload, PodCondition}
use periapsis.Foci.Convert.{
  container_state_to_payload, container_status_payloads, all_ready, build_pod_status_payload,
  payload_to_container_state, to_corev1_status, pod_status_payload_to_corev1,
}

payload_to_container_state_lem :
    (cv : ContainerState) (now : Time)
    → payload_to_container_state (container_state_to_payload cv now)
      ≡ container_state_to_payload cv now
unfolding payload_to_container_state container_state_to_payload
payload_to_container_state_lem cv now = ground arith

to_corev1_status_lem :
    (cs : List ContainerState) (clock : Clock)
    → map to_corev1_status (container_status_payloads cs clock) ≡ container_status_payloads cs clock
unfolding to_corev1_status container_status_payloads
to_corev1_status_lem [] clock = refl
to_corev1_status_lem (cv ∷ rest) clock =
    cc (payload_to_container_state_lem cv (clock 0), to_corev1_status_lem rest (after 1 clock))

-- The conversion for the Kubernetes API loses nothing of a status that was built from a state,
-- and changes nothing in it.
pub pod_status_payload_to_corev1-build :
    (s : PodState) (clock : Clock)
    → pod_status_payload_to_corev1 (build_pod_status_payload s clock)
      ≡ build_pod_status_payload s clock
unfolding pod_status_payload_to_corev1 build_pod_status_payload
pod_status_payload_to_corev1-build s clock = cc (to_corev1_status_lem s.containers clock)

all_ready-All :
    (cs : List ContainerState) (clock : Clock)
    → (all_ready (container_status_payloads cs clock) ≡ true)
      ↔ All (λ (cv : ContainerState). cv.ready ≡ true) cs
unfolding all_ready container_status_payloads
all_ready-All [] clock = ((λ _. tt), (λ _. refl))
all_ready-All (cv ∷ rest) clock =
    let ih = all_ready-All rest (after 1 clock) in
    ((λ e. (ground arith, ih.0 (ground arith))), (λ h. ground (arith, h.0, ih.1 h.1)))

true_word :
    (b : Bool)
    → ◌≡◌ {A = List Bytes} ((if b then bytes "True" else bytes "False") ∷ []) (bytes "True" ∷ [])
    → b ≡ true
unfolding bytes
true_word true h = refl
true_word false h = ground arith

-- The status that a condition of the list has, for the type Ready.
abbrev pub ready_status : PodStatusPayload → List Bytes
ready_status p = map (λ (c : PodCondition). c.status) p.conditions

-- The only condition of the status is True exactly if every container is ready.
pub ready_status-build :
    (s : PodState) (clock : Clock)
    → (ready_status (build_pod_status_payload s clock) ≡ bytes "True" ∷ [])
      ↔ All (λ (cv : ContainerState). cv.ready ≡ true) s.containers
unfolding build_pod_status_payload
ready_status-build s clock =
    let ready = all_ready-All s.containers clock in
    ((λ e. ready.0 (true_word _ e)), (λ h. rw (ready.1 h)))
