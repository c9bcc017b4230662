-- ===== src/Syzygy/Examples.antt =====
-- internal/syzygy/syzygy.go: the state machine on one pod.
use periapsis.Base.{
  ◌+◌, ◌≡◌, inl, inr, refl, Bytes, bytes, str_eq, str_eq_iff, Option, some, List, [], ◌∷◌, Clock,
  lookup, bytes_eq, Bool-cases,
}
use mathlib.Core.Path.{subst, ap}
use periapsis.Foci.Types.{
  Fact, container_state_fact, pod_admit_fact, pod_evict_fact, state_failed, policy_always, Effect,
  reset_unit,
}
use periapsis.Foci.State.{PodState, zero_pod_state}
use periapsis.Foci.Invariant.Defs.{WellFormed}
use periapsis.Syzygy.{Syzygy, new_syzygy, process_facts}
use periapsis.Syzygy.Untracked.{process_facts-new}
use periapsis.Syzygy.States.{StatesOk, process_facts-StatesOk}

abbrev ticks : Clock
ticks n = 1000 + n

abbrev pod_a : Bytes
pod_a = bytes "a"

abbrev pod_b : Bytes
pod_b = bytes "b"

abbrev admit_a : Fact
admit_a = pod_admit_fact (record {
  uid = pod_a;
  namespace = bytes "default";
  name = bytes "web";
  pod_ip = bytes "10.0.0.7";
  pod = some (record { restart_policy = policy_always; containers = [] });
})

abbrev poll_b : Fact
poll_b =
    container_state_fact
      (record { uid = pod_b; container = bytes "app"; state = state_failed; exit_code = 1 })

-- A state with no containers, under its own UID.
abbrev state_a : PodState
state_a = record zero_pod_state { uid = pod_a }

abbrev tracking_a : Syzygy
tracking_a = record new_syzygy { states = (pod_a, state_a) ∷ [] }

process_facts-new_example :
    process_facts new_syzygy ((admit_a, ticks) ∷ (poll_b, ticks) ∷ []) ≡ new_syzygy
process_facts-new_example = process_facts-new ((admit_a, ticks) ∷ (poll_b, ticks) ∷ [])

abbrev one_reset : List Effect
one_reset = reset_unit pod_b (bytes "app") ∷ []

abbrev two_resets : List Effect
two_resets = reset_unit pod_a (bytes "app") ∷ reset_unit pod_a (bytes "log") ∷ []

state_a_ok : WellFormed state_a
state_a_ok = record { aligned = refl; backoffs = tt }

tracking_a_ok : StatesOk tracking_a.states
unfolding lookup
tracking_a_ok uid st e = elim (Bool-cases (str_eq pod_a uid)) [
  | inl same ↦
      let found : ◌≡◌ {A = Option PodState} (some state_a) (some st) = rw same at e in
      let st_a : state_a ≡ st = cc in
      (
        subst WellFormed st_a state_a_ok,
        cc (ap (λ (t : PodState). t.uid) st_a, (str_eq_iff pod_a uid).0 same),
      )
  | inr other ↦ cc (rw other at e)
]

process_facts-StatesOk_example :
    StatesOk
      (process_facts tracking_a ((poll_b, ticks) ∷ (pod_evict_fact pod_a, ticks) ∷ [])).states
process_facts-StatesOk_example =
    process_facts-StatesOk tracking_a ((poll_b, ticks) ∷ (pod_evict_fact pod_a, ticks) ∷ [])
      tracking_a_ok
