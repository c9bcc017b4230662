-- ===== src/Syzygy/Untracked.antt =====
-- Pods that are not in the map: Reduce ignores their facts.
use periapsis.Base.{
  ◌≡◌, refl, is_empty, none, List, [], ◌∷◌, if_cases, Clock, lookup, delete, bytes_eq,
}
use periapsis.Foci.Types.{Fact, fact_uid}
use periapsis.Foci.Reduce.{reduce}
use periapsis.Syzygy.{Syzygy, new_syzygy, store_state, push_effects, process_fact, process_facts}

-- A fact for a pod that is not in the map emits no effect.
pub process_fact-untracked :
    (s : Syzygy) (fact : Fact) (clock : Clock)
    → lookup (fact_uid fact) s.states ≡ none
    → (process_fact s fact clock).effects ≡ s.effects
unfolding process_fact reduce push_effects
process_fact-untracked s fact clock h =
    if_cases (λ (t : Syzygy). t.effects ≡ s.effects) (is_empty (fact_uid fact)) (λ _. refl)
      (λ _. rw h refl)

process_fact-new : (fact : Fact) (clock : Clock) → process_fact new_syzygy fact clock ≡ new_syzygy
unfolding process_fact reduce push_effects store_state new_syzygy lookup delete
process_fact-new fact clock =
    if_cases (λ (t : Syzygy). t ≡ new_syzygy) (is_empty (fact_uid fact)) (λ _. refl) (λ _. refl)

-- From its initial state the state machine stays there: whatever facts it is given, admissions of
-- pods included, it tracks no pod and emits no effect.
pub process_facts-new : (facts : List (Fact × Clock)) → process_facts new_syzygy facts ≡ new_syzygy
unfolding process_facts
process_facts-new [] = refl
process_facts-new ((fact, clock) ∷ rest) = rw (process_fact-new fact clock) (process_facts-new rest)
