-- ===== src/Foci/Invariant/Containers.antt =====
-- The handlers of the facts about one container keep the invariant.
use periapsis.Base.{if_cases, ℕ, ◌≡◌, refl, Bytes, not, some, List, arith, get_elem?, Clock, Int32}
use periapsis.Foci.Types.{
  Effect, ExitFact, ProbeFact, MachineState, state_unknown, state_running, state_exited,
  state_failed, state_creating,
}
use periapsis.Foci.State.{phase_creating, phase_crash_loop_back_off, ContainerState, PodState}
use periapsis.Foci.Reduce.Unit.{
  SubState, sub_running, sub_failed, sub_starting, sub_stopping, sub_killing, sub_other,
  on_sub_state, unit_failed,
}
use periapsis.Foci.Reduce.Poll.{
  restart_once, reset_if_stable, on_failed, on_exited, settle_container, on_machine_state,
}
use periapsis.Foci.Reduce.ContainerFacts.{on_exit, on_probe, probed}
use periapsis.Foci.Reduce.Common.{bump_restart}
use periapsis.Foci.Invariant.Defs.{
  BackoffOk, WellFormed, Leaves, bump_restart-BackoffOk, store-WellFormed, write-WellFormed,
}

pub on_sub_state-WellFormed :
    (k : SubState) (s : PodState) (name : Bytes) (exit_code : Int32) (clock : Clock) (idx : ℕ)
    (cv : ContainerState)
    → WellFormed s
    → get_elem? s.containers idx ≡ some cv
    → WellFormed (on_sub_state k s name exit_code clock idx cv).0
unfolding on_sub_state
on_sub_state-WellFormed sub_running s name exit_code clock idx cv h at =
    write-WellFormed _ s idx _ _ _ h at refl (λ ok. ok)
on_sub_state-WellFormed sub_failed s name exit_code clock idx cv h at =
    write-WellFormed _ s idx _ _ _ h at (unfold bump_restart in ground arith)
      (λ ok. ground (arith, bump_restart-BackoffOk (unit_failed cv exit_code)))
on_sub_state-WellFormed sub_starting s name exit_code clock idx cv h at =
    write-WellFormed _ s idx _ _ _ h at refl (λ ok. ok)
on_sub_state-WellFormed sub_stopping s name exit_code clock idx cv h at = h
on_sub_state-WellFormed sub_killing s name exit_code clock idx cv h at = h
on_sub_state-WellFormed sub_other s name exit_code clock idx cv h at = h

pub settle_container-WellFormed :
    (s : PodState) (idx : ℕ) (cv next : ContainerState) (effects : List Effect) (clock : Clock)
    → WellFormed s
    → get_elem? s.containers idx ≡ some cv
    → next.name ≡ cv.name
    → (BackoffOk cv → BackoffOk next)
    → WellFormed (settle_container s idx cv next effects clock).0
unfolding settle_container
settle_container-WellFormed s idx cv next effects clock h at same ok =
    write-WellFormed _ s idx next effects clock h at same ok

pub on_machine_state-WellFormed :
    (k : MachineState) (s : PodState) (name : Bytes) (exit_code : Int32) (clock : Clock) (idx : ℕ)
    (cv : ContainerState)
    → WellFormed s
    → get_elem? s.containers idx ≡ some cv
    → WellFormed (on_machine_state k s name exit_code clock idx cv).0
unfolding on_machine_state
on_machine_state-WellFormed state_running s name exit_code clock idx cv h at =
    settle_container-WellFormed s idx cv _ _ _ h at (unfold reset_if_stable in ground arith)
      (λ ok. unfold reset_if_stable in ground arith)
on_machine_state-WellFormed state_creating s name exit_code clock idx cv h at =
    settle_container-WellFormed s idx cv _ _ _ h at refl (λ ok. ok)
on_machine_state-WellFormed state_failed s name exit_code clock idx cv h at =
    settle_container-WellFormed s idx cv _ _ _ h at
      (unfold on_failed restart_once bump_restart in ground arith)
      (λ ok.
        unfold on_failed restart_once in
        ground (
          arith,
          bump_restart-BackoffOk
              (record cv { exit_code = exit_code; phase = phase_crash_loop_back_off }),
        ))
on_machine_state-WellFormed state_exited s name exit_code clock idx cv h at =
    settle_container-WellFormed s idx cv _ _ _ h at
      (unfold on_exited restart_once bump_restart in ground arith)
      (λ ok.
        unfold on_exited restart_once in
        ground (
          arith,
          bump_restart-BackoffOk
              (record cv { exit_code = exit_code; phase = phase_crash_loop_back_off }),
        ))
on_machine_state-WellFormed state_unknown s name exit_code clock idx cv h at =
    if_cases Leaves cv.restarting (λ _. h)
      λ _.
        if_cases Leaves cv.seen_running
          (λ _. settle_container-WellFormed s idx cv _ _ _ h at refl (λ ok. ok)) (λ _. h)

pub on_exit-WellFormed :
    (s : PodState) (f : ExitFact) (clock : Clock) (idx : ℕ) (cv : ContainerState)
    → WellFormed s
    → get_elem? s.containers idx ≡ some cv
    → WellFormed (on_exit s f clock idx cv).0
unfolding on_exit
on_exit-WellFormed s f clock idx cv h at =
    if_cases Leaves (not cv.seen_running)
      (λ _. store-WellFormed s idx (record cv { phase = phase_creating }) h at refl (λ ok. ok))
      λ _.
        if_cases Leaves f.will_restart
          (λ _.
            settle_container-WellFormed s idx cv
              (bump_restart (record cv { phase = phase_crash_loop_back_off })) _ _ h at
              (unfold bump_restart in refl)
              (bump_restart-BackoffOk (record cv { phase = phase_crash_loop_back_off })))
          (λ _. settle_container-WellFormed s idx cv _ _ _ h at refl (λ ok. ok))

pub on_probe-WellFormed :
    (s : PodState) (f : ProbeFact) (clock : Clock) (idx : ℕ) (cv : ContainerState)
    → WellFormed s
    → get_elem? s.containers idx ≡ some cv
    → WellFormed (on_probe s f clock idx cv).0
unfolding on_probe
on_probe-WellFormed s f clock idx cv h at =
    write-WellFormed _ s idx _ _ _ h at (unfold probed in ground arith)
      (λ ok. unfold probed in ground arith)
