-- ===== src/Foci/Restarts.antt =====
-- The polls of a container that is down: one restart decision, until it is seen running again.
use periapsis.Base.{
  if_cases, ℕ, zero, suc, ◌+◌, ◌≤◌, ◌≡◌, ◌≢◌, refl, ap, Bytes, str_eq, Bool, true, false, not, some,
  List, [], ◌∷◌, ◌++◌, arith, get_elem?, set, All, Clock, if◌then◌else◌, Int32, is_empty,
}
use periapsis.Foci.Types.{
  Effect, ContainerStateFact, container_state_fact, MachineState, state_unknown, state_running,
  state_exited, state_failed, state_creating, restart_container, record_event, set_pod_phase,
  reset_unit, update_status, persist_pod_state, init_restart_state, PodPhase,
}
use periapsis.Foci.State.{phase_number, ContainerState, PodState, find_container}
use periapsis.Foci.Phase.{recompute_phase, reset_units, terminal_effects}
use periapsis.Foci.Reduce.Poll.{
  restart_once, on_failed, on_exited, settle_container, on_machine_state,
  reduce_container_state_fact,
}
use periapsis.Foci.Reduce.{reduce, dispatch}
use periapsis.Foci.Reduce.Common.{Result, phase_eq, put_container, settle, bump_restart}
use periapsis.Foci.Found.{at_container_found}
use mathlib.Core.Path.{subst}

-- How many effects ask for a restart.
unfoldable pub restarts : List Effect → ℕ
restarts [] = 0
restarts (restart_container r ∷ es) = suc (restarts es)
restarts (_ ∷ es) = restarts es

pub restarts-append : (xs ys : List Effect) → restarts (xs ++ ys) ≡ restarts xs + restarts ys
unfolding restarts
restarts-append [] ys = omega arith
restarts-append (restart_container r ∷ xs) ys = omega (arith, restarts-append xs ys)
restarts-append (update_status r ∷ xs) ys = restarts-append xs ys
restarts-append (set_pod_phase u p ∷ xs) ys = restarts-append xs ys
restarts-append (reset_unit u c ∷ xs) ys = restarts-append xs ys
restarts-append (record_event r ∷ xs) ys = restarts-append xs ys
restarts-append (persist_pod_state u ∷ xs) ys = restarts-append xs ys
restarts-append (init_restart_state r ∷ xs) ys = restarts-append xs ys

restarts-reset_units : (uid : Bytes) (cs : List ContainerState) → restarts (reset_units uid cs) ≡ 0
unfolding restarts reset_units
restarts-reset_units uid [] = refl
restarts-reset_units uid (cv ∷ rest) = restarts-reset_units uid rest

restarts-terminal_effects : (p : PodPhase) (s : PodState) → restarts (terminal_effects p s) ≡ 0
unfolding terminal_effects restarts
restarts-terminal_effects p s = ground (arith, restarts-reset_units s.uid s.containers)

restarts-recompute_phase : (s : PodState) (clock : Clock) → restarts (recompute_phase s clock).1 ≡ 0
unfolding recompute_phase restarts
restarts-recompute_phase s clock = omega (
  arith,
  restarts-append (terminal_effects _ _) (persist_pod_state s.uid ∷ []),
  restarts-terminal_effects _ _,
)

restarts-settle :
    (b : Bool) (s : PodState) (effects : List Effect) (clock : Clock)
    → restarts (settle b s effects clock).1 ≡ restarts effects
unfolding settle
restarts-settle true s effects clock =
    omega
      (arith, restarts-append effects (recompute_phase s clock).1, restarts-recompute_phase s clock)
restarts-settle false s effects clock = refl

containers-settle :
    (b : Bool) (s : PodState) (effects : List Effect) (clock : Clock)
    → (settle b s effects clock).0.containers ≡ s.containers
unfolding settle recompute_phase
containers-settle true s effects clock = refl
containers-settle false s effects clock = refl

-- 1 if the container that FindContainer finds has no restart pending, 0 if it has, or is missing.
unfoldable pub room : Bytes → List ContainerState → ℕ
room name [] = 0
room name (c ∷ cs) = if str_eq c.name name then (if c.restarting then 0 else 1) else room name cs

pub room-le-one : (name : Bytes) (cs : List ContainerState) → room name cs ≤ 1
unfolding room
room-le-one name [] = omega arith
room-le-one name (c ∷ cs) = ground (arith, room-le-one name cs)

room-set :
    (name : Bytes) (cs : List ContainerState) (i : ℕ) (cv next : ContainerState)
    → find_container name cs ≡ some i
    → get_elem? cs i ≡ some cv
    → next.name ≡ cv.name
    → (room name (set cs i next) ≡ (if next.restarting then 0 else 1))
      × (room name cs ≡ (if cv.restarting then 0 else 1))
unfolding room find_container
room-set name [] i cv next f at same = cc
room-set name (c ∷ cs) zero cv next f at same = ground arith
room-set name (c ∷ cs) (suc i) cv next f at same = ground (arith, room-set name cs i cv next)

abbrev pub slot : ContainerState → ℕ
slot cv = if cv.restarting then 0 else 1

-- The restarts that a poll asks for are paid from the room of its container.
abbrev Paid : Bytes → PodState → Result → Type 0
Paid name s r = restarts r.1 + room name r.0.containers ≤ room name s.containers

settle_container-Paid :
    (s : PodState) (name : Bytes) (idx : ℕ) (cv next : ContainerState) (effects : List Effect)
    (clock : Clock)
    → find_container name s.containers ≡ some idx
    → get_elem? s.containers idx ≡ some cv
    → next.name ≡ cv.name
    → restarts effects + slot next ≤ slot cv
    → Paid name s (settle_container s idx cv next effects clock)
unfolding settle_container put_container
settle_container-Paid s name idx cv next effects clock f at same h =
    let b = not (phase_eq cv.phase next.phase) in
    let t : PodState = record s { containers = set s.containers idx next } in
    omega (
      arith,
      restarts-settle b t effects clock,
      ap (room name) (containers-settle b t effects clock),
      room-set name s.containers idx cv next f at same,
    )

on_machine_state-Paid :
    (k : MachineState) (s : PodState) (name : Bytes) (exit_code : Int32) (clock : Clock) (idx : ℕ)
    (cv : ContainerState)
    → k ≢ state_running
    → find_container name s.containers ≡ some idx
    → get_elem? s.containers idx ≡ some cv
    → Paid name s (on_machine_state k s name exit_code clock idx cv)
unfolding on_machine_state restarts
on_machine_state-Paid state_running s name exit_code clock idx cv n f at = absurd (n refl)
on_machine_state-Paid state_creating s name exit_code clock idx cv n f at =
    settle_container-Paid s name idx cv _ _ _ f at refl (omega arith)
on_machine_state-Paid state_failed s name exit_code clock idx cv n f at =
    settle_container-Paid s name idx cv _ _ _ f at
      (unfold on_failed restart_once bump_restart in ground arith)
      (unfold on_failed restart_once bump_restart phase_eq phase_number in ground arith)
on_machine_state-Paid state_exited s name exit_code clock idx cv n f at =
    settle_container-Paid s name idx cv _ _ _ f at
      (unfold on_exited restart_once bump_restart in ground arith)
      (unfold on_exited restart_once bump_restart phase_eq phase_number in ground arith)
on_machine_state-Paid state_unknown s name exit_code clock idx cv n f at =
    if_cases (Paid name s) cv.restarting (λ _. omega arith)
      λ _.
        if_cases (Paid name s) cv.seen_running
          (λ _. settle_container-Paid s name idx cv _ _ _ f at refl (omega arith))
          (λ _. omega arith)

-- One poll of a container that is not running asks for a restart only if none is pending.
poll-Paid :
    (s : PodState) (f : ContainerStateFact) (clock : Clock)
    → f.state ≢ state_running
    → Paid f.container s (reduce s (container_state_fact f) clock)
unfolding reduce dispatch reduce_container_state_fact restarts
poll-Paid s f clock n =
    if_cases (Paid f.container s) (is_empty s.uid) (λ _. omega arith)
      λ _.
        at_container_found (Paid f.container s) s f.container
          (on_machine_state f.state s f.container f.exit_code clock) (omega arith)
          (λ idx cv found at _.
            on_machine_state-Paid f.state s f.container f.exit_code clock idx cv n found at)

-- How many restarts a sequence of polls asks for.
unfoldable pub poll_restarts : PodState → List (ContainerStateFact × Clock) → ℕ
poll_restarts s [] = 0
poll_restarts s ((f, clock) ∷ rest) =
    let (s', effects) = reduce s (container_state_fact f) clock in
    restarts effects + poll_restarts s' rest

-- A poll of the container of that name, which is not seen running.
abbrev pub PollsDown : Bytes → ContainerStateFact × Clock → Type 0
PollsDown name p = (p.0.container ≡ name) × (p.0.state ≢ state_running)

poll_restarts-le-room :
    (s : PodState) (name : Bytes) (polls : List (ContainerStateFact × Clock))
    → All (PollsDown name) polls
    → poll_restarts s polls ≤ room name s.containers
unfolding poll_restarts
poll_restarts-le-room s name [] h = omega arith
poll_restarts-le-room s name ((f, clock) ∷ rest) h =
    let ih = poll_restarts-le-room (reduce s (container_state_fact f) clock).0 name rest h.1 in
    let step : Paid name s (reduce s (container_state_fact f) clock) =
      subst (λ n. Paid n s (reduce s (container_state_fact f) clock)) h.0.0
        (poll-Paid s f clock h.0.1) in
    omega (arith, ih, step)

-- However often a container is polled and found failed, exited, creating or unknown, with
-- whatever exit codes, the polls ask for at most one restart of it before it is seen running
-- again.
pub polls_restart_once :
    (s : PodState) (name : Bytes) (polls : List (ContainerStateFact × Clock))
    → All (PollsDown name) polls
    → poll_restarts s polls ≤ 1
polls_restart_once s name polls h =
    omega (arith, poll_restarts-le-room s name polls h, room-le-one name s.containers)
