-- ===== src/Status/Phase.antt =====
-- node/status.go: the phase of a pod by the states of its containers.
use periapsis.Base.{
  Bytes, Bool, true, false, ◌||◌, Option, List, [], ◌∷◌, ◌++◌, if◌then◌else◌, if_cases, Bool-cases,
  Map, lookup, bytes_eq, Time, All, ◌≡◌, ◌≢◌, refl, inl, inr, ◌∙◌,
}
use periapsis.Foci.Types.{
  MachineState, state_running, state_creating, state_unknown, state_failed, state_exited,
  RestartPolicy, policy_always, policy_on_failure, policy_never, policy_other, PodPhase,
  pod_pending, pod_running, ContainerStatusPayload,
}
use periapsis.PodStore.Types.{PodContainer, StoredPod, PodStore}
use periapsis.PodStore.Status.{existing_from}
use periapsis.Status.{
  restarts_failed, restarts_exited, container_status, build_statuses, build_pod_status, policy_of,
  status_of,
}

-- A container is restarted after a failure by the policies Always and OnFailure, and after an exit by Always.
unfoldable pub is_restarting : RestartPolicy → MachineState → Bool
is_restarting policy_always state_failed = true
is_restarting policy_on_failure state_failed = true
is_restarting policy_always state_exited = true
is_restarting _ _ = false

restarts_failed-is_restarting :
    (policy : RestartPolicy) → restarts_failed policy ≡ is_restarting policy state_failed
unfolding restarts_failed is_restarting
restarts_failed-is_restarting policy_always = refl
restarts_failed-is_restarting policy_on_failure = refl
restarts_failed-is_restarting policy_never = refl
restarts_failed-is_restarting policy_other = refl

restarts_exited-is_restarting :
    (policy : RestartPolicy) → restarts_exited policy ≡ is_restarting policy state_exited
unfolding restarts_exited is_restarting
restarts_exited-is_restarting policy_always = refl
restarts_exited-is_restarting policy_on_failure = refl
restarts_exited-is_restarting policy_never = refl
restarts_exited-is_restarting policy_other = refl

up_not_restarting :
    (policy : RestartPolicy)
    → (is_restarting policy state_running ≡ false) × (is_restarting policy state_unknown ≡ false)
unfolding is_restarting
up_not_restarting policy_always = (refl, refl)
up_not_restarting policy_on_failure = (refl, refl)
up_not_restarting policy_never = (refl, refl)
up_not_restarting policy_other = (refl, refl)

unfoldable pub any_restarting : RestartPolicy → (Bytes → MachineState) → List PodContainer → Bool
any_restarting policy state_lookup [] = false
any_restarting policy state_lookup (c ∷ rest) =
    is_restarting policy (state_lookup c.name) || any_restarting policy state_lookup rest

module _ (s : PodStore) (uid : Bytes) (policy : RestartPolicy)
    (previous : Map Bytes ContainerStatusPayload) (state_lookup : Bytes → MachineState)
    (clock : Bytes → Time) where
  abbrev phase_of : List PodContainer → PodPhase → PodPhase
  phase_of l phase = (build_statuses s uid policy previous state_lookup clock l phase).1

  phase_of-append :
      (a b : List PodContainer) (phase : PodPhase)
      → phase_of (a ++ b) phase ≡ phase_of b (phase_of a phase)
  unfolding build_statuses
  phase_of-append [] b phase = refl
  phase_of-append (c ∷ a) b phase =
      phase_of-append a b (status_of s uid policy previous state_lookup clock c phase).1

  phase_of-creating :
      (c : PodContainer) (l : List PodContainer) (phase : PodPhase)
      → state_lookup c.name ≡ state_creating
      → phase_of (c ∷ l) phase ≡ phase_of l pod_pending
  unfolding build_statuses container_status
  phase_of-creating c l phase e = rw (e, container_status) refl

  container_status-phase :
      (p : Option ContainerStatusPayload) (c : PodContainer) (now : Time) (phase : PodPhase)
      (state : MachineState)
      → state ≢ state_creating
      → (container_status s uid policy p c now phase state).1
        ≡ (if is_restarting policy state then pod_running else phase)
  unfolding container_status
  container_status-phase p c now phase state_running other = rw (up_not_restarting policy).0 refl
  container_status-phase p c now phase state_creating other = absurd (other refl)
  container_status-phase p c now phase state_unknown other = rw (up_not_restarting policy).1 refl
  container_status-phase p c now phase state_failed other =
      rw (← restarts_failed-is_restarting policy) (
        if_cases
          (λ (x : ContainerStatusPayload × PodPhase).
            x.1 ≡ (if restarts_failed policy then pod_running else phase))
          (restarts_failed policy) (λ e. rw e refl) (λ e. rw e refl))
  container_status-phase p c now phase state_exited other =
      rw (← restarts_exited-is_restarting policy) (
        if_cases
          (λ (x : ContainerStatusPayload × PodPhase).
            x.1 ≡ (if restarts_exited policy then pod_running else phase))
          (restarts_exited policy) (λ e. rw e refl) (λ e. rw e refl))

  phase_of-none_creating :
      (l : List PodContainer) (phase : PodPhase)
      → All (λ c. state_lookup c.name ≢ state_creating) l
      → phase_of l phase ≡ (if any_restarting policy state_lookup l then pod_running else phase)
  unfolding build_statuses any_restarting
  phase_of-none_creating [] phase h = refl
  phase_of-none_creating (c ∷ l) phase (other, h) =
      let next =
        container_status-phase (lookup c.name previous) c (clock c.name) phase (state_lookup c.name)
          other in
      phase_of-none_creating l (status_of s uid policy previous state_lookup clock c phase).1 h
      ∙ rw next (elim (Bool-cases (is_restarting policy (state_lookup c.name))) [
        | inl e ↦ rw e (
            if_cases (λ (x : PodPhase). x ≡ pod_running) (any_restarting policy state_lookup l)
              (λ _. refl) (λ _. refl))
        | inr e ↦ rw e refl
      ])

-- If some container is being created, let c be the last such: the pod is shown as Running if a
-- container after c has failed under the policy Always or OnFailure, or has exited under Always,
-- and otherwise as Pending. What stands before c plays no part.
pub build_pod_status-phase :
    (s : PodStore) (host_ip : Bytes) (pod : StoredPod) (state_lookup : Bytes → Bytes → MachineState)
    (clock : Bytes → Time) (before : List PodContainer) (c : PodContainer)
    (after : List PodContainer)
    → pod.containers ≡ (before ++ (c ∷ after))
    → state_lookup pod.uid c.name ≡ state_creating
    → All (λ d. state_lookup pod.uid d.name ≢ state_creating) after
    → (build_pod_status s host_ip pod state_lookup clock).phase ≡ (
        if any_restarting (policy_of pod.restart_policy) (state_lookup pod.uid) after
        then pod_running
        else pod_pending)
unfolding build_pod_status
build_pod_status-phase s host_ip pod state_lookup clock before c after split creates others =
    let policy = policy_of pod.restart_policy in
    let previous = existing_from pod.status.container_statuses [] in
    let run = phase_of s pod.uid policy previous (state_lookup pod.uid) clock in
    rw split (
      phase_of-append s pod.uid policy previous (state_lookup pod.uid) clock before (c ∷ after)
        pod_running
      ∙ phase_of-creating s pod.uid policy previous (state_lookup pod.uid) clock c after
          (run before pod_running) creates
      ∙ phase_of-none_creating s pod.uid policy previous (state_lookup pod.uid) clock after
          pod_pending others)

-- A pod none of whose containers is being created is shown as Running.
pub build_pod_status-phase_running :
    (s : PodStore) (host_ip : Bytes) (pod : StoredPod) (state_lookup : Bytes → Bytes → MachineState)
    (clock : Bytes → Time)
    → All (λ d. state_lookup pod.uid d.name ≢ state_creating) pod.containers
    → (build_pod_status s host_ip pod state_lookup clock).phase ≡ pod_running
unfolding build_pod_status
build_pod_status-phase_running s host_ip pod state_lookup clock others =
    phase_of-none_creating s pod.uid (policy_of pod.restart_policy)
      (existing_from pod.status.container_statuses []) (state_lookup pod.uid) clock pod.containers
      pod_running others
    ∙ if_cases (λ (x : PodPhase). x ≡ pod_running)
        (any_restarting (policy_of pod.restart_policy) (state_lookup pod.uid) pod.containers)
        (λ _. refl) (λ _. refl)
