-- ===== src/Foci/Identity.antt =====
-- What a fact does not change: a pod keeps its identity, or leaves the state map.
use periapsis.Base.{
  if_cases, ℕ, ◌≡◌, refl, inl, inr, Bytes, Bool, true, false, not, List, Option-cases, Clock, Int32,
  is_empty,
}
use periapsis.Foci.Types.{
  Fact, Effect, UnitFact, ExitFact, SpecFact, unit_fact, container_state_fact, exit_fact,
  probe_fact, spec_fact, pod_admit_fact, pod_evict_fact, mark_running_fact, backoff_reset_fact,
  MachineState, state_unknown, state_running, state_exited, state_failed, state_creating,
}
use periapsis.Foci.State.{ContainerState, PodState, restart_backoff_init}
use periapsis.Foci.Phase.{recompute_phase}
use periapsis.Foci.Reduce.Unit.{
  SubState, sub_state, sub_running, sub_failed, sub_starting, sub_stopping, sub_killing, sub_other,
  on_sub_state, reduce_unit_fact,
}
use periapsis.Foci.Reduce.Poll.{settle_container, on_machine_state, reduce_container_state_fact}
use periapsis.Foci.Reduce.ContainerFacts.{
  on_exit, on_probe, reduce_exit_fact, reduce_probe_fact, reduce_mark_running_fact,
  reduce_backoff_reset_fact,
}
use periapsis.Foci.Reduce.PodFacts.{with_spec, reduce_spec_fact, reduce_pod_admit_fact}
use periapsis.Foci.Reduce.{reduce, dispatch}
use periapsis.Foci.Reduce.Common.{Result, put_container, settle}
use periapsis.Foci.Found.{at_container_cases}
use periapsis.Foci.UnitName.{parse_container_from_unit}

pub record SamePod (s t : PodState) : Type 0 where
  pub uid : t.uid ≡ s.uid
  pub namespace : t.namespace ≡ s.namespace
  pub name : t.name ≡ s.name
  pub pod_ip : t.pod_ip ≡ s.pod_ip

abbrev Keeps : PodState → Result → Type 0
Keeps s r = SamePod s r.0

pub SamePod-refl : (s : PodState) → SamePod s s
SamePod-refl s = record { uid = refl; namespace = refl; name = refl; pod_ip = refl }

settle-SamePod :
    (b : Bool) (s t : PodState) (effects : List Effect) (clock : Clock)
    → SamePod s t
    → SamePod s (settle b t effects clock).0
unfolding settle recompute_phase
settle-SamePod true s t effects clock h = record {
  uid = h.uid;
  namespace = h.namespace;
  name = h.name;
  pod_ip = h.pod_ip;
}
settle-SamePod false s t effects clock h = h

put_container-SamePod :
    (s : PodState) (idx : ℕ) (cv : ContainerState) → SamePod s (put_container s idx cv)
unfolding put_container
put_container-SamePod s idx cv = record { uid = refl; namespace = refl; name = refl; pod_ip = refl }

write-SamePod :
    (b : Bool) (s : PodState) (idx : ℕ) (next : ContainerState) (effects : List Effect)
    (clock : Clock)
    → SamePod s (settle b (put_container s idx next) effects clock).0
write-SamePod b s idx next effects clock =
    settle-SamePod b s _ effects clock (put_container-SamePod s idx next)

on_sub_state-SamePod :
    (k : SubState) (s : PodState) (name : Bytes) (exit_code : Int32) (clock : Clock) (idx : ℕ)
    (cv : ContainerState)
    → SamePod s (on_sub_state k s name exit_code clock idx cv).0
unfolding on_sub_state
on_sub_state-SamePod sub_running s name exit_code clock idx cv = write-SamePod _ s idx _ _ _
on_sub_state-SamePod sub_failed s name exit_code clock idx cv = write-SamePod _ s idx _ _ _
on_sub_state-SamePod sub_starting s name exit_code clock idx cv = write-SamePod _ s idx _ _ _
on_sub_state-SamePod sub_stopping s name exit_code clock idx cv = SamePod-refl s
on_sub_state-SamePod sub_killing s name exit_code clock idx cv = SamePod-refl s
on_sub_state-SamePod sub_other s name exit_code clock idx cv = SamePod-refl s

on_machine_state-SamePod :
    (k : MachineState) (s : PodState) (name : Bytes) (exit_code : Int32) (clock : Clock) (idx : ℕ)
    (cv : ContainerState)
    → SamePod s (on_machine_state k s name exit_code clock idx cv).0
unfolding on_machine_state settle_container
on_machine_state-SamePod state_running s name exit_code clock idx cv = write-SamePod _ s idx _ _ _
on_machine_state-SamePod state_creating s name exit_code clock idx cv = write-SamePod _ s idx _ _ _
on_machine_state-SamePod state_failed s name exit_code clock idx cv = write-SamePod _ s idx _ _ _
on_machine_state-SamePod state_exited s name exit_code clock idx cv = write-SamePod _ s idx _ _ _
on_machine_state-SamePod state_unknown s name exit_code clock idx cv =
    if_cases (Keeps s) cv.restarting (λ _. SamePod-refl s)
      λ _.
        if_cases (Keeps s) cv.seen_running (λ _. write-SamePod _ s idx _ _ _) (λ _. SamePod-refl s)

on_exit-SamePod :
    (s : PodState) (f : ExitFact) (clock : Clock) (idx : ℕ) (cv : ContainerState)
    → SamePod s (on_exit s f clock idx cv).0
unfolding on_exit settle_container
on_exit-SamePod s f clock idx cv =
    if_cases (Keeps s) (not cv.seen_running) (λ _. put_container-SamePod s idx _)
      λ _.
        if_cases (Keeps s) f.will_restart (λ _. write-SamePod _ s idx _ _ _)
          (λ _. write-SamePod _ s idx _ _ _)

reduce_unit_fact-SamePod :
    (s : PodState) (f : UnitFact) (clock : Clock) → SamePod s (reduce_unit_fact s f clock).0
unfolding reduce_unit_fact
reduce_unit_fact-SamePod s f clock =
    let name = parse_container_from_unit f.unit_name in
    if_cases (Keeps s) (is_empty name) (λ _. SamePod-refl s)
      λ _.
        at_container_cases (Keeps s) s name
          (on_sub_state (sub_state f.sub_state) s name f.exit_code clock) (SamePod-refl s)
          (λ idx cv _ _.
            on_sub_state-SamePod (sub_state f.sub_state) s name f.exit_code clock idx cv)

reduce_spec_fact-SamePod :
    (s : PodState) (f : SpecFact) (clock : Clock) → SamePod s (reduce_spec_fact s f clock).0
unfolding reduce_spec_fact with_spec recompute_phase
reduce_spec_fact-SamePod s f clock = elim (Option-cases f.pod) [
  | inl e ↦ rw (e, reduce_spec_fact) (SamePod-refl s)
  | inr (pod, e) ↦
      rw (e, reduce_spec_fact) (record { uid = refl; namespace = refl; name = refl; pod_ip = refl })
]

-- Is it the fact that evicts the pod?
abbrev pub is_evict : Fact → Bool
is_evict (pod_evict_fact uid) = true
is_evict _ = false

dispatch-SamePod :
    (s : PodState) (fact : Fact) (clock : Clock)
    → is_empty s.uid ≡ false
    → is_evict fact ≡ false
    → SamePod s (dispatch s fact clock).0
unfolding dispatch reduce_container_state_fact reduce_exit_fact reduce_probe_fact on_probe
    reduce_mark_running_fact reduce_backoff_reset_fact
dispatch-SamePod s (unit_fact f) clock h n = reduce_unit_fact-SamePod s f clock
dispatch-SamePod s (container_state_fact f) clock h n =
    at_container_cases (Keeps s) s _ _ (SamePod-refl s)
      (λ idx cv _ _. on_machine_state-SamePod f.state s _ _ clock idx cv)
dispatch-SamePod s (exit_fact f) clock h n =
    at_container_cases (Keeps s) s _ _ (SamePod-refl s)
      (λ idx cv _ _. on_exit-SamePod s f clock idx cv)
dispatch-SamePod s (probe_fact f) clock h n =
    at_container_cases (Keeps s) s _ (on_probe s f clock) (SamePod-refl s)
      (λ idx cv _ _. write-SamePod _ s idx _ _ _)
dispatch-SamePod s (spec_fact f) clock h n = reduce_spec_fact-SamePod s f clock
dispatch-SamePod s (pod_admit_fact f) clock h n =
    unfold reduce_pod_admit_fact in rw h (reduce_spec_fact-SamePod s _ clock)
dispatch-SamePod s (pod_evict_fact uid) clock h n = cc
dispatch-SamePod s (mark_running_fact f) clock h n =
    at_container_cases (Keeps s) s _ _ (SamePod-refl s)
      (λ idx cv _ _. put_container-SamePod s idx (record cv { seen_running = true }))
dispatch-SamePod s (backoff_reset_fact f) clock h n =
    at_container_cases (Keeps s) s _ _ (SamePod-refl s)
      (λ idx cv _ _. put_container-SamePod s idx (record cv { backoff = restart_backoff_init }))

-- A fact that does not evict keeps the UID, the namespace, the name and the IP of the pod.
pub reduce-SamePod :
    (s : PodState) (fact : Fact) (clock : Clock)
    → is_evict fact ≡ false
    → SamePod s (reduce s fact clock).0
unfolding reduce
reduce-SamePod s fact clock n =
    if_cases (Keeps s) (is_empty s.uid) (λ _. SamePod-refl s)
      (λ h. dispatch-SamePod s fact clock h n)
