-- ===== src/Foci/Backoff.antt =====
-- The backoff of a container that is polled and found running.
use periapsis.Base.{
  if_cases, ℕ, ◌+◌, ◌≤◌, ◌≡◌, refl, inl, inr, Bytes, not, some, List, map, arith, Bool-cases,
  get_elem?, map-set_same, Clock, Duration, Int32, is_empty,
}
use periapsis.Foci.Types.{Effect, ContainerStateFact, container_state_fact, state_running}
use periapsis.Foci.State.{ContainerState, PodState, restart_backoff_reset}
use periapsis.Foci.Phase.{recompute_phase}
use periapsis.Foci.Reduce.Poll.{
  reset_if_stable, settle_container, on_machine_state, reduce_container_state_fact,
}
use periapsis.Foci.Reduce.{reduce, dispatch}
use periapsis.Foci.Reduce.Common.{Result, phase_eq, put_container, settle}
use periapsis.Foci.Found.{at_container_cases}

abbrev pub backoffs : PodState → List Duration
backoffs s = map (λ (cv : ContainerState). cv.backoff) s.containers

abbrev SameBackoffs : PodState → Result → Type 0
SameBackoffs s r = backoffs r.0 ≡ backoffs s

backoffs-settle_container :
    (s : PodState) (idx : ℕ) (cv next : ContainerState) (effects : List Effect) (clock : Clock)
    → get_elem? s.containers idx ≡ some cv
    → next.backoff ≡ cv.backoff
    → SameBackoffs s (settle_container s idx cv next effects clock)
unfolding settle_container settle put_container recompute_phase
backoffs-settle_container s idx cv next effects clock at same =
    let e = map-set_same (λ (c : ContainerState). c.backoff) s.containers idx next at same in
    elim (Bool-cases (not (phase_eq cv.phase next.phase))) [
      | inl t ↦ rw (t, settle) e
      | inr t ↦ rw (t, settle) e
    ]

-- The reset of the backoff needs more than ten minutes between two readings of the clock in one
-- call: the time that is compared is the one that was written a moment before.
running-SameBackoffs :
    (s : PodState) (name : Bytes) (exit_code : Int32) (clock : Clock) (idx : ℕ)
    (cv : ContainerState)
    → clock 1 ≤ clock 0 + restart_backoff_reset
    → get_elem? s.containers idx ≡ some cv
    → SameBackoffs s (on_machine_state state_running s name exit_code clock idx cv)
unfolding on_machine_state
running-SameBackoffs s name exit_code clock idx cv soon at =
    backoffs-settle_container s idx cv _ _ _ at (unfold reset_if_stable in ground arith)

-- A poll that finds a container running leaves every backoff of the pod as it was, if the call's
-- first two readings of the clock are at most ten minutes apart: however long the container has
-- been running, its backoff is not set back to its initial value.
pub reduce-running-backoffs :
    (s : PodState) (f : ContainerStateFact) (clock : Clock)
    → f.state ≡ state_running
    → clock 1 ≤ clock 0 + restart_backoff_reset
    → backoffs (reduce s (container_state_fact f) clock).0 ≡ backoffs s
unfolding reduce dispatch reduce_container_state_fact
reduce-running-backoffs s f clock running soon =
    if_cases (SameBackoffs s) (is_empty s.uid) (λ _. refl)
      λ _.
        at_container_cases (SameBackoffs s) s f.container
          (on_machine_state f.state s f.container f.exit_code clock) refl
          (λ idx cv at _.
            rw running (running-SameBackoffs s f.container f.exit_code clock idx cv soon at))
