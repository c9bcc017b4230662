-- ===== src/Foci/Terminal.antt =====
-- What a pod emits when it enters a terminal phase, and when it is evicted.
use periapsis.Base.{
  ℕ, zero, suc, ◌≡◌, ◌≢◌, ◌⊎◌, refl, ap, inl, inr, Bytes, Bool, false, not, ◌&&◌, List, [], ◌∷◌,
  ◌++◌, map, arith, Bool-cases, Clock, if◌then◌else◌, is_empty, ◌==◌,
}
use periapsis.Foci.Types.{
  Effect, pod_evict_fact, restart_container, record_event, set_pod_phase, reset_unit, update_status,
  persist_pod_state, init_restart_state, PodPhase, phase_unset, pod_pending, pod_running,
  pod_succeeded, pod_failed, pod_unknown,
}
use periapsis.Foci.State.{ContainerState, PodState, zero_pod_state}
use periapsis.Foci.Phase.{
  recompute_phase, reset_units, terminal_effects, scan_phases, phase_of_flags, initial_flags,
  is_terminal, pod_phase_number,
}
use periapsis.Foci.Reduce.PodFacts.{reduce_pod_evict_fact}
use periapsis.Foci.Reduce.{reduce, dispatch}
use mathlib.Core.List.{append-nil}
use periapsis.Foci.PhaseRule.{recompute_phase-phase_same}

-- The names whose systemd units the effects reset, in order.
unfoldable pub units_reset : List Effect → List Bytes
units_reset [] = []
units_reset (reset_unit uid name ∷ es) = name ∷ units_reset es
units_reset (_ ∷ es) = units_reset es

units_reset-append :
    (xs ys : List Effect) → units_reset (xs ++ ys) ≡ units_reset xs ++ units_reset ys
unfolding units_reset
units_reset-append [] ys = refl
units_reset-append (restart_container r ∷ xs) ys = units_reset-append xs ys
units_reset-append (update_status r ∷ xs) ys = units_reset-append xs ys
units_reset-append (set_pod_phase u p ∷ xs) ys = units_reset-append xs ys
units_reset-append (reset_unit u c ∷ xs) ys = ap (◌∷◌ c) (units_reset-append xs ys)
units_reset-append (record_event r ∷ xs) ys = units_reset-append xs ys
units_reset-append (persist_pod_state u ∷ xs) ys = units_reset-append xs ys
units_reset-append (init_restart_state r ∷ xs) ys = units_reset-append xs ys

-- The phases that the effects announce to the store, in order.
unfoldable pub phases_set : List Effect → List PodPhase
phases_set [] = []
phases_set (set_pod_phase uid p ∷ es) = p ∷ phases_set es
phases_set (_ ∷ es) = phases_set es

phases_set-append : (xs ys : List Effect) → phases_set (xs ++ ys) ≡ phases_set xs ++ phases_set ys
unfolding phases_set
phases_set-append [] ys = refl
phases_set-append (restart_container r ∷ xs) ys = phases_set-append xs ys
phases_set-append (update_status r ∷ xs) ys = phases_set-append xs ys
phases_set-append (set_pod_phase u p ∷ xs) ys = ap (◌∷◌ p) (phases_set-append xs ys)
phases_set-append (reset_unit u c ∷ xs) ys = phases_set-append xs ys
phases_set-append (record_event r ∷ xs) ys = phases_set-append xs ys
phases_set-append (persist_pod_state u ∷ xs) ys = phases_set-append xs ys
phases_set-append (init_restart_state r ∷ xs) ys = phases_set-append xs ys

abbrev pub names : List ContainerState → List Bytes
names = map (λ (c : ContainerState). c.name)

units_reset-reset_units :
    (uid : Bytes) (cs : List ContainerState) → units_reset (reset_units uid cs) ≡ names cs
unfolding units_reset reset_units
units_reset-reset_units uid [] = refl
units_reset-reset_units uid (cv ∷ rest) = ap (◌∷◌ cv.name) (units_reset-reset_units uid rest)

phases_set-reset_units :
    (uid : Bytes) (cs : List ContainerState) → phases_set (reset_units uid cs) ≡ []
unfolding phases_set reset_units
phases_set-reset_units uid [] = refl
phases_set-reset_units uid (cv ∷ rest) = phases_set-reset_units uid rest

-- Did the phase change to a terminal one?
abbrev pub enters : PodPhase → PodPhase → Bool
enters previous next = is_terminal next && not (pod_phase_number previous == pod_phase_number next)

recompute_phase-enters :
    (s : PodState) (clock : Clock)
    → let (t, effects) = recompute_phase s clock in
      (phases_set effects ≡ (if enters s.phase t.phase then t.phase ∷ [] else []))
      × (units_reset effects ≡ (if enters s.phase t.phase then names s.containers else []))
unfolding recompute_phase terminal_effects phases_set units_reset
recompute_phase-enters s clock =
    let next = phase_of_flags (scan_phases initial_flags s.containers) s.phase in
    elim (Bool-cases (enters s.phase next)) [
      | inl e ↦ rw e (
          rw
            (
              phases_set-append (reset_units s.uid s.containers) (persist_pod_state s.uid ∷ []),
              units_reset-append (reset_units s.uid s.containers) (persist_pod_state s.uid ∷ []),
              phases_set-reset_units s.uid s.containers,
              units_reset-reset_units s.uid s.containers,
            )
            (refl, append-nil _))
      | inr e ↦ rw e (refl, refl)
    ]

enters_same : (p : PodPhase) → enters p p ≡ false
unfolding pod_phase_number
enters_same p = ground arith

-- The phase has become Succeeded or Failed.
abbrev pub Enters : PodPhase → PodPhase → Type 0
Enters previous next = ((next ≡ pod_succeeded) ⊎ (next ≡ pod_failed)) × (previous ≢ next)

abbrev phase_at : ℕ → PodPhase
phase_at (suc zero) = pod_pending
phase_at (suc (suc zero)) = pod_running
phase_at (suc (suc (suc zero))) = pod_succeeded
phase_at (suc (suc (suc (suc zero)))) = pod_failed
phase_at (suc (suc (suc (suc (suc zero))))) = pod_unknown
phase_at _ = phase_unset

recompute_phase-same :
    (s : PodState) (first second : Clock)
    → (recompute_phase (recompute_phase s first).0 second).0 ≡ (recompute_phase s first).0
unfolding recompute_phase
recompute_phase-same s first second = cc (recompute_phase-phase_same s first second)

-- A pod that has entered a terminal phase does not announce it a second time while its containers
-- stay as they are: recomputing again changes nothing and sends no phase and no reset.
pub recompute_phase-once :
    (s : PodState) (first second : Clock)
    → let t = (recompute_phase s first).0 in
      ((recompute_phase t second).0 ≡ t)
      × (phases_set (recompute_phase t second).1 ≡ [])
      × (units_reset (recompute_phase t second).1 ≡ [])
recompute_phase-once s first second =
    let t = (recompute_phase s first).0 in
    let same = recompute_phase-phase_same s first second in
    let quiet : enters t.phase (recompute_phase t second).0.phase ≡ false =
      rw same (enters_same t.phase) in
    let (set_none, reset_none) = recompute_phase-enters t second in
    (recompute_phase-same s first second, rw quiet at set_none, rw quiet at reset_none)

-- Evicting a tracked pod resets the unit of each of its containers and forgets the pod.
pub reduce-evict :
    (s : PodState) (uid : Bytes) (clock : Clock)
    → is_empty s.uid ≡ false
    → ((reduce s (pod_evict_fact uid) clock).0 ≡ zero_pod_state)
      × (units_reset (reduce s (pod_evict_fact uid) clock).1 ≡ names s.containers)
unfolding reduce dispatch reduce_pod_evict_fact
reduce-evict s uid clock h = rw h (refl, units_reset-reset_units s.uid s.containers)
