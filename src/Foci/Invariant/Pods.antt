-- ===== src/Foci/Invariant/Pods.antt =====
-- The handlers of the facts about a whole pod keep the invariant.
use periapsis.Base.{
  if_cases, ◌≡◌, refl, ap, inl, inr, Bytes, not, List, [], ◌∷◌, map, arith, Option-cases, All,
  All-get_elem?, Clock, after, is_empty,
}
use periapsis.Foci.Reduce.PodFacts.{admit_new}
use periapsis.Base.{Option-cases, inl, inr}
use periapsis.Foci.Types.{Pod, SpecFact, PodAdmitFact}
use periapsis.Foci.State.{
  ContainerSpec, ContainerState, PodState, zero_pod_state, find_container, new_container_state,
  new_container_states, new_pod_state, new_pod_spec,
}
use periapsis.Foci.Phase.{recompute_phase}
use periapsis.Foci.Reduce.PodFacts.{
  sync_container, sync_containers, with_spec, reduce_spec_fact, reduce_pod_admit_fact,
}
use periapsis.Foci.Found.{find_container-get_elem?}
use periapsis.Foci.Invariant.Defs.{BackoffOk, WellFormed, Leaves}

pub new_container_states-Aligned :
    (specs : List ContainerSpec) (clock : Clock)
    → map (λ (c : ContainerState). c.name) (new_container_states specs clock)
      ≡ map (λ (c : ContainerSpec). c.name) specs
unfolding new_container_states new_container_state
new_container_states-Aligned [] clock = refl
new_container_states-Aligned (cs ∷ rest) clock =
    ap (◌∷◌ cs.name) (new_container_states-Aligned rest (after 1 clock))

pub new_container_states-BackoffOk :
    (specs : List ContainerSpec) (clock : Clock) → All BackoffOk (new_container_states specs clock)
unfolding new_container_states new_container_state
new_container_states-BackoffOk [] clock = tt
new_container_states-BackoffOk (cs ∷ rest) clock =
    (omega arith, new_container_states-BackoffOk rest (after 1 clock))

-- What a round of the loop over the new spec yields.
pub sync_container_lem :
    (old : List ContainerState) (cs : ContainerSpec) (clock : Clock)
    → All BackoffOk old
    → ((sync_container old cs clock).0.name ≡ cs.name) × BackoffOk (sync_container old cs clock).0
unfolding sync_container new_container_state
sync_container_lem old cs clock h = elim (Option-cases (find_container cs.name old)) [
  | inl e ↦ rw (e, sync_container) (refl, omega arith)
  | inr (i, e) ↦
      let (cv, at, named) = find_container-get_elem? cs.name old e in
      rw (e, at, sync_container) (named, All-get_elem? BackoffOk old i h at)
]

pub sync_containers-Aligned :
    (old : List ContainerState) (specs : List ContainerSpec) (clock : Clock)
    → All BackoffOk old
    → (map (λ (c : ContainerState). c.name) (sync_containers old specs clock).0
        ≡ map (λ (c : ContainerSpec). c.name) specs)
      × All BackoffOk (sync_containers old specs clock).0
unfolding sync_containers
sync_containers-Aligned old [] clock h = (refl, tt)
sync_containers-Aligned old (cs ∷ rest) clock h =
    let (cv, used) = sync_container old cs clock in
    let (same, ok) = sync_container_lem old cs clock h in
    let (aligned, oks) = sync_containers-Aligned old rest (after used clock) h in
    (cc (same, aligned), (ok, oks))

pub with_spec-WellFormed :
    (s : PodState) (pod : Pod) (clock : Clock) → WellFormed s → WellFormed (with_spec s pod clock).0
unfolding with_spec recompute_phase
with_spec-WellFormed s pod clock h =
    let (aligned, oks) =
      sync_containers-Aligned s.containers (new_pod_spec pod).containers clock h.backoffs in
    record { aligned = aligned; backoffs = oks }

pub reduce_spec_fact-WellFormed :
    (s : PodState) (f : SpecFact) (clock : Clock)
    → WellFormed s
    → WellFormed (reduce_spec_fact s f clock).0
unfolding reduce_spec_fact
reduce_spec_fact-WellFormed s f clock h = elim (Option-cases f.pod) [
  | inl e ↦ rw (e, reduce_spec_fact) h
  | inr (pod, e) ↦ rw (e, reduce_spec_fact) (with_spec-WellFormed s pod clock h)
]

pub zero-WellFormed : WellFormed zero_pod_state
zero-WellFormed = record { aligned = refl; backoffs = tt }

pub new_pod_state-WellFormed :
    (uid namespace name pod_ip : Bytes) (pod : Pod) (clock : Clock)
    → WellFormed (new_pod_state uid namespace name pod_ip pod clock)
unfolding new_pod_state
new_pod_state-WellFormed uid namespace name pod_ip pod clock = record {
  aligned = new_container_states-Aligned (new_pod_spec pod).containers clock;
  backoffs = new_container_states-BackoffOk (new_pod_spec pod).containers clock;
}

pub reduce_pod_admit_fact-WellFormed :
    (s : PodState) (f : PodAdmitFact) (clock : Clock)
    → WellFormed s
    → WellFormed (reduce_pod_admit_fact s f clock).0
unfolding reduce_pod_admit_fact admit_new
reduce_pod_admit_fact-WellFormed s f clock h =
    if_cases Leaves (not (is_empty s.uid)) (λ _. reduce_spec_fact-WellFormed s _ clock h)
      (λ _. elim (Option-cases f.pod) [
        | inl e ↦ rw e h
        | inr (pod, e) ↦ rw e (new_pod_state-WellFormed f.uid f.namespace f.name f.pod_ip pod clock)
      ])
