-- ===== src/Foci/Invariant/Defs.antt =====
-- The invariant of a pod's state, and the writes that keep it.
use periapsis.Base.{
  ℕ, ◌≤◌, ◌≡◌, ◌∙◌, Bytes, Bool, true, false, some, List, map, arith, get_elem?, map-set_same, All,
  All-get_elem?, All-set, Clock,
}
use periapsis.Foci.Types.{Effect}
use periapsis.Foci.State.{
  ContainerSpec, ContainerState, PodState, restart_backoff_init, max_backoff,
}
use periapsis.Foci.Phase.{min_duration, recompute_phase}
use periapsis.Foci.Reduce.Common.{Result, put_container, settle, bump_restart}

abbrev pub BackoffOk : ContainerState → Type 0
BackoffOk cv = (restart_backoff_init ≤ cv.backoff) × (cv.backoff ≤ max_backoff)

abbrev pub spec_names : PodState → List Bytes
spec_names s = map (λ (c : ContainerSpec). c.name) s.spec.containers

abbrev pub state_names : PodState → List Bytes
state_names s = map (λ (c : ContainerState). c.name) s.containers

pub record WellFormed (s : PodState) : Type 0 where
  pub aligned : state_names s ≡ spec_names s
  pub backoffs : All BackoffOk s.containers

abbrev pub Leaves : Result → Type 0
Leaves r = WellFormed r.0

pub settle-WellFormed :
    (b : Bool) (s : PodState) (effects : List Effect) (clock : Clock)
    → WellFormed s
    → WellFormed (settle b s effects clock).0
unfolding settle recompute_phase
settle-WellFormed true s effects clock h = record { aligned = h.aligned; backoffs = h.backoffs }
settle-WellFormed false s effects clock h = h

pub put_container-WellFormed :
    (s : PodState) (idx : ℕ) {cv : ContainerState} (next : ContainerState)
    → WellFormed s
    → get_elem? s.containers idx ≡ some cv
    → next.name ≡ cv.name
    → BackoffOk next
    → WellFormed (put_container s idx next)
unfolding put_container
put_container-WellFormed s idx next h at same ok = record {
  aligned = map-set_same _ s.containers idx next at same ∙ h.aligned;
  backoffs = All-set BackoffOk s.containers idx next h.backoffs ok;
}

-- The doubled backoff stays in range: it does not wrap, and the bound is applied.
pub bump_restart-BackoffOk : (cv : ContainerState) → BackoffOk cv → BackoffOk (bump_restart cv)
unfolding bump_restart min_duration
bump_restart-BackoffOk cv h = ground arith

-- A handler that writes one container.
pub store-WellFormed :
    (s : PodState) (idx : ℕ) {cv : ContainerState} (next : ContainerState)
    → WellFormed s
    → get_elem? s.containers idx ≡ some cv
    → next.name ≡ cv.name
    → (BackoffOk cv → BackoffOk next)
    → WellFormed (put_container s idx next)
store-WellFormed s idx next h at same ok =
    put_container-WellFormed s idx next h at same
      (ok (All-get_elem? BackoffOk s.containers idx h.backoffs at))

-- A handler that writes one container and then may recompute the phase.
pub write-WellFormed :
    (b : Bool) (s : PodState) (idx : ℕ) {cv : ContainerState} (next : ContainerState)
    (effects : List Effect) (clock : Clock)
    → WellFormed s
    → get_elem? s.containers idx ≡ some cv
    → next.name ≡ cv.name
    → (BackoffOk cv → BackoffOk next)
    → WellFormed (settle b (put_container s idx next) effects clock).0
write-WellFormed b s idx next effects clock h at same ok =
    settle-WellFormed b _ effects clock (store-WellFormed s idx next h at same ok)
