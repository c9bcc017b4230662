-- ===== src/Foci/PhaseRule.antt =====
-- The rule that recomputePhase applies, stated of the containers without the loop.
pub mod Scan
use periapsis.Base.{
  if_cases, ℕ, zero, suc, ◌+◌, ◌≤◌, ◌<◌, ◌*◌, ◌%◌, ◌^◌, ◌≡◌, ◌≢◌, ◌⊎◌, refl, sym, ap, ◌∙◌, inl, inr,
  Bytes, str_eq, str_eq_iff, Bool, true, false, not, ◌&&◌, ◌||◌, Option, none, some, List, [], ◌∷◌,
  ◌++◌, map, arith, Bool-cases, Option-cases, get_elem?, set, map-set_same, All, All-get_elem?,
  All-set, Clock, after, double64, Duration, if◌then◌else◌, Int32, is_empty, bytes, length, ◌==◌,
  ==_iff, ltb, ◌-◌, Time,
}
use periapsis.Foci.Types.{
  Pod, Fact, Effect, UnitFact, ContainerStateFact, ExitFact, ProbeFact, SpecFact, PodAdmitFact,
  MarkRunningFact, BackoffResetFact, unit_fact, container_state_fact, exit_fact, probe_fact,
  spec_fact, pod_admit_fact, pod_evict_fact, mark_running_fact, backoff_reset_fact, MachineState,
  state_unknown, state_running, state_exited, state_failed, state_creating, RestartPolicy,
  policy_always, policy_on_failure, policy_never, restart_container, RestartContainer, record_event,
  set_pod_phase, reset_unit, update_status, persist_pod_state, init_restart_state, PodPhase,
  phase_unset, pod_pending, pod_running, pod_succeeded, pod_failed, pod_unknown,
}
use periapsis.Foci.State.{
  ContainerPhase, phase_creating, phase_running, phase_terminated, phase_crash_loop_back_off,
  phase_number, ContainerSpec, ContainerState, PodState, zero_pod_state, find_container,
  restart_backoff_init, max_backoff, restart_backoff_reset, new_container_state,
  new_container_states, new_pod_state, new_pod_spec,
}
use periapsis.Foci.Phase.{
  min_duration, should_restart, recompute_phase, reset_units, terminal_effects, scan_phases,
  phase_of_flags, Flags, initial_flags, is_terminal, mark_phase, pod_phase_number,
}
use periapsis.Foci.Reduce.Unit.{
  SubState, sub_state, sub_running, sub_failed, sub_starting, sub_stopping, sub_killing, sub_other,
  on_sub_state, unit_failed, unit_started, reduce_unit_fact,
}
use periapsis.Foci.Reduce.Poll.{
  restart_once, reset_if_stable, on_failed, on_exited, settle_container, on_machine_state,
  reduce_container_state_fact,
}
use periapsis.Foci.Reduce.ContainerFacts.{
  on_exit, on_probe, probed, reduce_exit_fact, reduce_probe_fact, reduce_mark_running_fact,
  reduce_backoff_reset_fact,
}
use periapsis.Foci.Reduce.PodFacts.{
  sync_container, sync_containers, with_spec, reduce_spec_fact, reduce_pod_admit_fact,
  reduce_pod_evict_fact,
}
use periapsis.Foci.Reduce.{reduce, dispatch}
use periapsis.Foci.Reduce.Common.{
  Result, phase_eq, at_container, put_container, settle, bump_restart, restart_effect,
}
use periapsis.Base.{Any, here, there, ◌↔◌}
use periapsis.Foci.PhaseRule.Scan.{
  IsRunning, IsCreating, IsCrashLooping, IsDown, IsTerminated, any_b, running_b, creating_b,
  crashing_b, up_b, bad_b, scan_phases_lem, any_b-Any, any_b-All, Any-any_b, All-any_b, All-IsDown,
  All-IsTerminated, All-succeeded, Any-failed, up_b_lem,
}

-- The rule for the phase of a pod, from its containers alone.
pub data PhaseOf (cs : List ContainerState) : PodPhase → Type 0 where
  serving : Any IsRunning cs → PhaseOf cs pod_running
  starting : ¬ (Any IsRunning cs) → Any IsCreating cs → PhaseOf cs pod_pending
  backing_off : All IsDown cs → Any IsCrashLooping cs → PhaseOf cs pod_running
  succeeded : All (λ cv. IsTerminated cv × (cv.exit_code ≡ 0)) cs → PhaseOf cs pod_succeeded
  failed : All IsTerminated cs → Any (λ cv. cv.exit_code ≢ 0) cs → PhaseOf cs pod_failed

-- The phase in closed form.
phase_of_flags_lem :
    (cs : List ContainerState) (current : PodPhase)
    → phase_of_flags (scan_phases initial_flags cs) current ≡ (
        if any_b running_b cs
        then pod_running
        else if any_b creating_b cs
        then pod_pending
        else if any_b crashing_b cs
        then pod_running
        else if any_b bad_b cs
        then pod_failed
        else pod_succeeded)
unfolding phase_of_flags
phase_of_flags_lem cs current = ground (arith, scan_phases_lem initial_flags cs, up_b_lem cs)

Any-running_b : (cs : List ContainerState) → Any IsRunning cs → any_b running_b cs ≡ true
Any-running_b = Any-any_b running_b IsRunning (λ cv e. unfold running_b in ground arith)

phase_of_flags-PhaseOf :
    (cs : List ContainerState) (current : PodPhase)
    → PhaseOf cs (phase_of_flags (scan_phases initial_flags cs) current)
phase_of_flags-PhaseOf cs current = rw (phase_of_flags_lem cs current) (
    if_cases (PhaseOf cs) (any_b running_b cs)
      (λ r. serving (any_b-Any running_b IsRunning (λ cv e. unfold running_b in ground arith) cs r))
      λ r.
        if_cases (PhaseOf cs) (any_b creating_b cs)
          (λ c.
            starting (λ a. cc (r, Any-running_b cs a))
              (any_b-Any creating_b IsCreating (λ cv e. unfold creating_b in ground arith) cs c))
          λ c.
            if_cases (PhaseOf cs) (any_b crashing_b cs)
              (λ k. backing_off (All-IsDown cs r c) (
                any_b-Any crashing_b IsCrashLooping (λ cv e. unfold crashing_b in ground arith) cs
                  k))
              λ k.
                let u : any_b up_b cs ≡ false = ground (arith, up_b_lem cs) in
                if_cases (PhaseOf cs) (any_b bad_b cs)
                  (λ b. failed (All-IsTerminated cs u) (Any-failed cs u b))
                  (λ b. succeeded (All-succeeded cs u b)))

any_b-bad :
    (cs : List ContainerState)
    → All IsTerminated cs
    → Any (λ cv. cv.exit_code ≢ 0) cs
    → any_b bad_b cs ≡ true
unfolding any_b bad_b
any_b-bad [] t h = elim h [ ]
any_b-bad (cv ∷ rest) t (here h) = ground (arith, t.0)
any_b-bad (cv ∷ rest) t (there h) = ground (arith, any_b-bad rest t.1 h)

any_b-not_bad :
    (cs : List ContainerState)
    → All (λ cv. IsTerminated cv × (cv.exit_code ≡ 0)) cs
    → (any_b up_b cs ≡ false) × (any_b bad_b cs ≡ false)
unfolding any_b up_b bad_b
any_b-not_bad [] h = (refl, refl)
any_b-not_bad (cv ∷ rest) h = ground (arith, h.0, any_b-not_bad rest h.1)

any_b-terminated : (cs : List ContainerState) → All IsTerminated cs → any_b up_b cs ≡ false
any_b-terminated = All-any_b up_b IsTerminated (λ cv h. unfold up_b in ground arith)

any_b-down :
    (cs : List ContainerState)
    → All IsDown cs
    → (any_b running_b cs ≡ false) × (any_b creating_b cs ≡ false)
any_b-down cs d = (
  All-any_b running_b IsDown (λ cv h. unfold running_b in ground arith) cs d,
  All-any_b creating_b IsDown (λ cv h. unfold creating_b in ground arith) cs d,
)

phase_of_flags_unique :
    (cs : List ContainerState) (current : PodPhase) {p : PodPhase}
    → PhaseOf cs p
    → phase_of_flags (scan_phases initial_flags cs) current ≡ p
phase_of_flags_unique cs current (serving a) =
    rw (phase_of_flags_lem cs current) (ground (arith, Any-running_b cs a))
phase_of_flags_unique cs current (starting n a) =
    let c = Any-any_b creating_b IsCreating (λ cv e. unfold creating_b in ground arith) cs a in
    rw (phase_of_flags_lem cs current) (elim (Bool-cases (any_b running_b cs)) [
      | inl r ↦
          absurd (n (any_b-Any running_b IsRunning (λ cv e. unfold running_b in ground arith) cs r))
      | inr r ↦ ground (arith, r, c)
    ])
phase_of_flags_unique cs current (backing_off d a) =
    let k = Any-any_b crashing_b IsCrashLooping (λ cv e. unfold crashing_b in ground arith) cs a in
    rw (phase_of_flags_lem cs current) (ground (arith, any_b-down cs d, k))
phase_of_flags_unique cs current (succeeded a) =
    rw (phase_of_flags_lem cs current) (ground (arith, any_b-not_bad cs a, up_b_lem cs))
phase_of_flags_unique cs current (failed a b) =
    rw (phase_of_flags_lem cs current)
      (ground (arith, any_b-terminated cs a, up_b_lem cs, any_b-bad cs a b))

-- recomputePhase gives the pod the phase p exactly if the rule gives p: Running if a container
-- runs, or if all are down and one is in backoff; Pending if none runs and one is being created;
-- Succeeded if all are terminated with exit code 0; Failed if all are terminated and some exit
-- code is not 0. The phase that the pod had before plays no part.
pub recompute_phase-PhaseOf :
    (s : PodState) (clock : Clock) (p : PodPhase)
    → ((recompute_phase s clock).0.phase ≡ p) ↔ PhaseOf s.containers p
unfolding recompute_phase
recompute_phase-PhaseOf s clock p = (
  (λ e. rw e at (phase_of_flags-PhaseOf s.containers s.phase)),
  (λ h. phase_of_flags_unique s.containers s.phase h),
)

-- Recomputing the phase again gives the same phase.
pub recompute_phase-phase_same :
    (s : PodState) (first second : Clock)
    → (recompute_phase (recompute_phase s first).0 second).0.phase
      ≡ (recompute_phase s first).0.phase
unfolding recompute_phase
recompute_phase-phase_same s first second =
    phase_of_flags_lem s.containers _ ∙ sym (phase_of_flags_lem s.containers s.phase)
