-- ===== src/PodStore/Backoff.antt =====
-- node/podstore.go: BumpBackoff over and over.
use periapsis.Base.{ℕ, zero, suc, ◌*◌, ◌^◌, ◌≤◌, ◌≡◌, arith, Duration, minute, ltb, if◌then◌else◌}
use native.Mathlib.Numerals.{unary_clauses}
use periapsis.PodStore.Types.{ContainerRestartState, restart_backoff}
use periapsis.PodStore.Restarts.{bumped}

unfoldable pub bump_times : ℕ → ContainerRestartState → ContainerRestartState
bump_times zero rs = rs
bump_times (suc n) rs = bumped (bump_times n rs)

-- Ten seconds doubled n times, and at most five minutes.
unfoldable pub capped : ℕ → Duration
capped n =
    if ltb (5 * minute) (restart_backoff * 2 ^ n) then 5 * minute else restart_backoff * 2 ^ n

capped-step :
    (n : ℕ)
    → (capped (suc n) ≡ (if ltb (5 * minute) (capped n * 2) then 5 * minute else capped n * 2))
      × (capped n ≤ 5 * minute)
unfolding capped
capped-step n =
    let twice : 2 ^ suc n ≡ 2 * 2 ^ n = simp unary_clauses (omega arith) in
    rw twice (ground (arith))

-- From the initial backoff of ten seconds, BumpBackoff n times over gives ten seconds doubled n
-- times, or five minutes if that is less.
pub bump_times-capped :
    (n : ℕ) (rs : ContainerRestartState)
    → rs.backoff ≡ restart_backoff
    → (bump_times n rs).backoff ≡ capped n
unfolding bump_times bumped
bump_times-capped zero rs h = unfold capped in h
bump_times-capped (suc n) rs h =
    let ih = bump_times-capped n rs h in
    rw (ih, (capped-step n).0) (ground (arith, (capped-step n).1))
