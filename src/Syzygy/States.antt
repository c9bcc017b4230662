-- ===== src/Syzygy/States.antt =====
-- The map of states: each is well formed and stands under its own UID, and pods do not interfere.
use periapsis.Base.{
  if_cases, ◌≡◌, ◌≢◌, ◌⊎◌, refl, ◌∙◌, inl, inr, Bytes, str_eq, str_eq_iff, true, Option, none, some,
  List, [], ◌∷◌, arith, Bool-cases, Option-cases, Clock, if◌then◌else◌, is_empty,
}
use periapsis.Foci.Types.{
  Fact, unit_fact, container_state_fact, exit_fact, probe_fact, spec_fact, pod_admit_fact,
  pod_evict_fact, mark_running_fact, backoff_reset_fact,
}
use periapsis.Foci.State.{PodState}
use periapsis.Base.{Map, lookup, lookup-insert, lookup-delete, bytes_eq}
use mathlib.Core.Path.{subst}
use periapsis.Foci.Types.{fact_uid}
use periapsis.Foci.Reduce.{reduce, dispatch}
use periapsis.Foci.Reduce.PodFacts.{reduce_pod_evict_fact}
use periapsis.Foci.Reduce.Common.{Result}
use periapsis.Foci.Invariant.Defs.{WellFormed}
use periapsis.Foci.Invariant.Pods.{zero-WellFormed}
use periapsis.Foci.Invariant.{reduce-WellFormed}
use periapsis.Foci.Identity.{reduce-SamePod}
use periapsis.Syzygy.{Syzygy, or_zero, store_state, process_fact, process_facts}

-- Every tracked state satisfies the invariant of the reducer and stands under its own UID.
abbrev pub StatesOk : Map Bytes PodState → Type 0
StatesOk states =
    (uid : Bytes) (st : PodState) → lookup uid states ≡ some st → WellFormed st × (st.uid ≡ uid)

lookup-store_state :
    (uid j : Bytes) (st : PodState) (states : Map Bytes PodState)
    → lookup j (store_state uid st states)
      ≡ (if str_eq uid j then (if is_empty st.uid then none else some st) else lookup j states)
unfolding store_state
lookup-store_state uid j st states =
    ground (arith, lookup-insert uid j st states, lookup-delete uid j states)

store_state-StatesOk :
    (uid : Bytes) (st : PodState) (states : Map Bytes PodState)
    → StatesOk states
    → WellFormed st
    → (st.uid ≡ uid) ⊎ (is_empty st.uid ≡ true)
    → StatesOk (store_state uid st states)
store_state-StatesOk uid st states h w own j t e = elim (Bool-cases (str_eq uid j)) [
  | inl same ↦
      let uid_j : uid ≡ j = (str_eq_iff uid j).0 same in
      let found : (if is_empty st.uid then none else some st) ≡ some t =
        rw (lookup-store_state uid j st states, same) at e in
      elim (Bool-cases (is_empty st.uid)) [
        | inl gone ↦ cc (rw gone at found)
        | inr kept ↦
            let kept_st : ◌≡◌ {A = Option PodState} (some st) (some t) = rw kept at found in
            let st_t : st ≡ t = cc in
            let own' : st.uid ≡ uid = ground (arith, own, kept) in
            (subst WellFormed st_t w, cc (st_t, own', uid_j))
      ]
  | inr other ↦ h j t (rw (lookup-store_state uid j st states, other) at e)
]

-- A fact leaves the UID of a state as it was, or empty.
reduce-uid :
    (st : PodState) (fact : Fact) (clock : Clock)
    → ((reduce st fact clock).0.uid ≡ st.uid) ⊎ (is_empty (reduce st fact clock).0.uid ≡ true)
reduce-uid st (pod_evict_fact uid) clock =
    unfold reduce dispatch reduce_pod_evict_fact in
    if_cases (λ (r : Result). (r.0.uid ≡ st.uid) ⊎ (is_empty r.0.uid ≡ true)) (is_empty st.uid)
      (λ _. inl refl) (λ _. inr refl)
reduce-uid st (unit_fact f) clock = inl (reduce-SamePod st (unit_fact f) clock refl).uid
reduce-uid st (container_state_fact f) clock =
    inl (reduce-SamePod st (container_state_fact f) clock refl).uid
reduce-uid st (exit_fact f) clock = inl (reduce-SamePod st (exit_fact f) clock refl).uid
reduce-uid st (probe_fact f) clock = inl (reduce-SamePod st (probe_fact f) clock refl).uid
reduce-uid st (spec_fact f) clock = inl (reduce-SamePod st (spec_fact f) clock refl).uid
reduce-uid st (pod_admit_fact f) clock = inl (reduce-SamePod st (pod_admit_fact f) clock refl).uid
reduce-uid st (mark_running_fact f) clock =
    inl (reduce-SamePod st (mark_running_fact f) clock refl).uid
reduce-uid st (backoff_reset_fact f) clock =
    inl (reduce-SamePod st (backoff_reset_fact f) clock refl).uid

-- What processFact reads from the map: a state that is well formed, and that has the UID of the
-- fact or none.
or_zero-ok :
    (uid : Bytes) (states : Map Bytes PodState)
    → StatesOk states
    → WellFormed (or_zero (lookup uid states))
      × (((or_zero (lookup uid states)).uid ≡ uid)
          ⊎ (is_empty (or_zero (lookup uid states)).uid ≡ true))
or_zero-ok uid states h = elim (Option-cases (lookup uid states)) [
  | inl e ↦ rw e (zero-WellFormed, inr refl)
  | inr (st, e) ↦ let (w, own) = h uid st e in rw e (w, inl own)
]

-- Processing any fact keeps every tracked state well formed and under its own UID.
pub process_fact-StatesOk :
    (s : Syzygy) (fact : Fact) (clock : Clock)
    → StatesOk s.states
    → StatesOk (process_fact s fact clock).states
unfolding process_fact
process_fact-StatesOk s fact clock h =
    if_cases (λ (t : Syzygy). StatesOk t.states) (is_empty (fact_uid fact)) (λ _. h)
      λ _.
        let st = or_zero (lookup (fact_uid fact) s.states) in
        let (w, own) = or_zero-ok (fact_uid fact) s.states h in
        store_state-StatesOk (fact_uid fact) (reduce st fact clock).0 s.states h
          (reduce-WellFormed st fact clock w)
          (elim (reduce-uid st fact clock) [
            | inl same ↦ elim own [ inl o ↦ inl (same ∙ o) | inr z ↦ inr (rw same z) ]
            | inr gone ↦ inr gone
          ])

-- If every tracked state satisfies the invariant of the reducer and stands under its own UID,
-- this still holds after any facts at all, each with any readings of the clock.
pub process_facts-StatesOk :
    (s : Syzygy) (facts : List (Fact × Clock))
    → StatesOk s.states
    → StatesOk (process_facts s facts).states
unfolding process_facts
process_facts-StatesOk s [] h = h
process_facts-StatesOk s ((fact, clock) ∷ rest) h =
    process_facts-StatesOk (process_fact s fact clock) rest (process_fact-StatesOk s fact clock h)

-- A fact changes at most the state of the pod whose UID it carries.
pub process_fact-others :
    (s : Syzygy) (fact : Fact) (clock : Clock) (j : Bytes)
    → fact_uid fact ≢ j
    → lookup j (process_fact s fact clock).states ≡ lookup j s.states
unfolding process_fact
process_fact-others s fact clock j other =
    if_cases (λ (t : Syzygy). lookup j t.states ≡ lookup j s.states) (is_empty (fact_uid fact))
      (λ _. refl)
      (λ _. ground (
        arith,
        lookup-store_state (fact_uid fact) j
            (reduce (or_zero (lookup (fact_uid fact) s.states)) fact clock).0 s.states,
        str_eq_iff (fact_uid fact) j,
      ))
