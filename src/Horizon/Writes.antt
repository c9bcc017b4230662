-- ===== src/Horizon/Writes.antt =====
-- internal/horizon/horizon.go: what is written, and what is executed.
use periapsis.Base.{
  ℕ, zero, suc, ◌+◌, ltb, length, ◌≤◌, Bytes, str_eq, str_eq_iff, true, not, List, if_cases,
  Bool-cases, All, ◌≡◌, ◌↔◌, refl, inl, inr, arith,
}
use periapsis.Foci.Types.{PodStatusPayload}
use periapsis.Horizon.{
  ApiPod, Got, got_not_found, get_failed, got, Updated, updated, updated_not_found,
  updated_conflict, update_failed, WriteOutcome, gave_up, max_attempts, with_status, after_update,
  attempt_write, write_from, write_pod_status,
}

module _ (get : ℕ → Got) (update : ℕ → ApiPod → Updated) (uid : Bytes)
    (status : PodStatusPayload) where
  -- Only our pod, and only our status.
  abbrev pub IsOurs : ApiPod → Type 0
  IsOurs p = (p.uid ≡ uid) × (p.status ≡ status)

  abbrev Fine : ℕ → List ApiPod × WriteOutcome → Type 0
  Fine left r = All IsOurs r.0 × (length r.0 ≤ left)

  after_update-Fine :
      (attempt left : ℕ) (sent : ApiPod) (u : Updated) (further : List ApiPod × WriteOutcome)
      → IsOurs sent
      → Fine left further
      → Fine (suc left) (after_update get update uid status attempt sent u further)
  unfolding after_update
  after_update-Fine attempt left sent updated further ours h = ((ours, tt), omega arith)
  after_update-Fine attempt left sent updated_not_found further ours h = ((ours, tt), omega arith)
  after_update-Fine attempt left sent update_failed further ours h = ((ours, tt), omega arith)
  after_update-Fine attempt left sent updated_conflict further ours (all, few) =
      if_cases (Fine (suc left)) (ltb (attempt + 1) max_attempts)
        (λ _. ((ours, all), omega (arith, few))) (λ _. ((ours, tt), omega arith))

  attempt_write-Fine :
      (attempt left : ℕ) (g : Got) (further : List ApiPod × WriteOutcome)
      → Fine left further
      → Fine (suc left) (attempt_write get update uid status attempt g further)
  unfolding attempt_write
  attempt_write-Fine attempt left got_not_found further h = (tt, omega arith)
  attempt_write-Fine attempt left get_failed further h = (tt, omega arith)
  attempt_write-Fine attempt left (got current) further h =
      let sent = with_status current status in
      if_cases (Fine (suc left)) (not (str_eq current.uid uid)) (λ _. (tt, omega arith))
        (λ same.
          let ours : str_eq current.uid uid ≡ true = ground (arith, same) in
          after_update-Fine attempt left sent (update attempt sent) further
            ((str_eq_iff current.uid uid).0 ours, refl) h)

  write_from-Fine : (left attempt : ℕ) → Fine left (write_from get update uid status left attempt)
  unfolding write_from
  write_from-Fine zero attempt = (tt, omega arith)
  write_from-Fine (suc left) attempt =
      attempt_write-Fine attempt left (get attempt)
        (write_from get update uid status left (attempt + 1)) (write_from-Fine left (attempt + 1))

  -- Whatever the API answers, writePodStatus sends at most five updates, each of a pod with the
  -- UID that it was given and with the status that it was given: the status never goes to a pod
  -- that has taken the name over.
  pub write_pod_status-IsOurs :
      (let sent = (write_pod_status get update uid status).0 in
        All IsOurs sent × (length sent ≤ max_attempts))
  unfolding write_pod_status
  write_pod_status-IsOurs = write_from-Fine max_attempts 0

  -- The attempt meets our pod, and its update a conflict.
  abbrev pub Conflicts : ℕ → Type 0
  Conflicts attempt =
      (current : ApiPod) × (get attempt ≡ got current)
      × (current.uid ≡ uid)
      × (update attempt (with_status current status) ≡ updated_conflict)

  -- So do all of them.
  unfoldable pub AllConflict : ℕ → ℕ → Type 0
  AllConflict zero attempt = Unit
  AllConflict (suc left) attempt = Conflicts attempt × AllConflict left (attempt + 1)

  conflict-continues :
      (attempt left : ℕ) (sent : ApiPod) (further : List ApiPod × WriteOutcome)
      → suc left + attempt ≡ max_attempts
      → (left ≡ 0 → further.1 ≡ gave_up)
      → (after_update get update uid status attempt sent updated_conflict further).1 ≡ gave_up
      → further.1 ≡ gave_up
  unfolding after_update
  conflict-continues attempt left sent further sum last e =
      elim (Bool-cases (ltb (attempt + 1) max_attempts)) [
        | inl more ↦ rw more at e
        | inr done ↦ last (ground (arith, done, sum))
      ]

  conflict-ends :
      (attempt : ℕ) (sent : ApiPod) (further : List ApiPod × WriteOutcome)
      → further.1 ≡ gave_up
      → (after_update get update uid status attempt sent updated_conflict further).1 ≡ gave_up
  unfolding after_update
  conflict-ends attempt sent further e =
      if_cases (λ (r : List ApiPod × WriteOutcome). r.1 ≡ gave_up) (ltb (attempt + 1) max_attempts)
        (λ _. e) (λ _. refl)

  update-gave_up :
      (attempt : ℕ) (sent : ApiPod) (u : Updated) (further : List ApiPod × WriteOutcome)
      → (after_update get update uid status attempt sent u further).1 ≡ gave_up
      → u ≡ updated_conflict
  unfolding after_update
  update-gave_up attempt sent updated further e = cc e
  update-gave_up attempt sent updated_not_found further e = cc e
  update-gave_up attempt sent update_failed further e = cc e
  update-gave_up attempt sent updated_conflict further e = refl

  attempt-gave_up :
      (attempt left : ℕ) (g : Got) (further : List ApiPod × WriteOutcome)
      → get attempt ≡ g
      → suc left + attempt ≡ max_attempts
      → (left ≡ 0 → further.1 ≡ gave_up)
      → (attempt_write get update uid status attempt g further).1 ≡ gave_up
      → Conflicts attempt × (further.1 ≡ gave_up)
  unfolding attempt_write
  attempt-gave_up attempt left got_not_found further at sum last e = cc e
  attempt-gave_up attempt left get_failed further at sum last e = cc e
  attempt-gave_up attempt left (got current) further at sum last e =
      let sent = with_status current status in
      elim (Bool-cases (str_eq current.uid uid)) [
        | inl ours ↦
            let ends : (after_update get update uid status attempt sent (update attempt sent)
                  further).1
                ≡ gave_up =
              rw ours at e in
            let conflict = update-gave_up attempt sent (update attempt sent) further ends in
            (
              (current, at, (str_eq_iff current.uid uid).0 ours, conflict),
              conflict-continues attempt left sent further sum last (rw conflict at ends),
            )
        | inr other ↦ cc (rw other at e)
      ]

  attempt-Conflicts :
      (attempt : ℕ) (further : List ApiPod × WriteOutcome)
      → Conflicts attempt
      → further.1 ≡ gave_up
      → (attempt_write get update uid status attempt (get attempt) further).1 ≡ gave_up
  unfolding attempt_write
  attempt-Conflicts attempt further (current, at, ours, conflict) e =
      rw (at, (str_eq_iff current.uid uid).1 ours, conflict)
        (conflict-ends attempt (with_status current status) further e)

  write_from-none :
      (left attempt : ℕ) → left ≡ 0 → (write_from get update uid status left attempt).1 ≡ gave_up
  unfolding write_from
  write_from-none zero attempt e = refl
  write_from-none (suc left) attempt e = absurd (omega (arith, e))

  write_from-gave_up :
      (left attempt : ℕ)
      → left + attempt ≡ max_attempts
      → ((write_from get update uid status left attempt).1 ≡ gave_up) ↔ AllConflict left attempt
  unfolding write_from AllConflict
  write_from-gave_up zero attempt sum = (λ _. tt, λ _. refl)
  write_from-gave_up (suc left) attempt sum =
      let further = write_from get update uid status left (attempt + 1) in
      let ih = write_from-gave_up left (attempt + 1) (omega (arith, sum)) in
      (
        λ e.
            let both =
              attempt-gave_up attempt left (get attempt) further refl sum
                (λ none_left. write_from-none left (attempt + 1) none_left) e in
            (both.0, ih.0 both.1),
        λ (c, rest). attempt-Conflicts attempt further c (ih.1 rest),
      )

  -- writePodStatus drops the status for conflicts, without an error, exactly if all five attempts
  -- find the pod with its UID and have their update answered by a conflict.
  pub write_pod_status-gave_up :
      ((write_pod_status get update uid status).1 ≡ gave_up) ↔ AllConflict max_attempts 0
  unfolding write_pod_status
  write_pod_status-gave_up = write_from-gave_up max_attempts 0 (omega arith)
