-- ===== src/Status/Answers.antt =====
-- node/status.go: what GetPodStatus answers.
use periapsis.Base.{
  Bytes, Bool, true, false, ◌||◌, none, some, ◌≡◌, ◌↔◌, inl, inr, refl, if_cases, Time,
  Option-cases,
}
use periapsis.Foci.Types.{MachineState, pod_pending, pod_succeeded, pod_failed}
use periapsis.PodStore.Types.{StoredPod, PodStore}
use periapsis.PodStore.Queries.{find_pod_uid, get_pod, pod_phase}
use periapsis.PodStore.Reach.{Reach, Reach-get_pod}
use periapsis.Status.{StatusAnswer, not_found, pending, stored, built, is_phase, get_pod_status}

abbrev is_answer : StatusAnswer → Bool
is_answer not_found = false
is_answer (pending _ _) = true
is_answer (stored _) = true
is_answer (built _) = true

get_pod_status-found :
    (s : PodStore) (host_ip namespace name : Bytes) {pod : StoredPod}
    (state_lookup : Bytes → Bytes → MachineState) (clock : Bytes → Time)
    → get_pod s namespace name ≡ some pod
    → is_answer (get_pod_status s host_ip namespace name state_lookup clock) ≡ true
unfolding get_pod_status
get_pod_status-found s host_ip namespace name {pod} state_lookup clock e =
    let P = λ (a : StatusAnswer). is_answer a ≡ true in
    rw (e, get_pod_status)
      (if_cases P (is_phase (pod_phase s pod.uid) pod_pending) (λ _. refl)
        (λ _.
          if_cases P
            (is_phase (pod_phase s pod.uid) pod_succeeded
              || is_phase (pod_phase s pod.uid) pod_failed)
            (λ _. refl)
            (λ _. if_cases P (is_phase pod.status.phase pod_failed) (λ _. refl) (λ _. refl))))

get_pod-none :
    (s : PodStore) (namespace name : Bytes)
    → find_pod_uid s namespace name ≡ none
    → get_pod s namespace name ≡ none
unfolding find_pod_uid get_pod
get_pod-none s namespace name e = rw (e, get_pod) refl

-- In every state of the pod store that its methods reach, GetPodStatus reports NotFound exactly
-- if FindPodUID finds no pod of that name; otherwise it gives a status, whatever the phases are.
pub get_pod_status-not_found :
    {s : PodStore} (host_ip namespace name : Bytes) (state_lookup : Bytes → Bytes → MachineState)
    (clock : Bytes → Time)
    → Reach s
    → (get_pod_status s host_ip namespace name state_lookup clock ≡ not_found)
      ↔ (find_pod_uid s namespace name ≡ none)
unfolding get_pod_status
get_pod_status-not_found {s} host_ip namespace name state_lookup clock r = (
  λ e. elim (Option-cases (find_pod_uid s namespace name)) [
    | inl absent ↦ absent
    | inr (uid, found) ↦
        let (pod, got, named) = Reach-get_pod namespace name r found in
        cc (rw e at (get_pod_status-found s host_ip namespace name state_lookup clock got))
  ],
  λ absent. rw (get_pod-none s namespace name absent, get_pod_status) refl,
)
