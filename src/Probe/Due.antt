-- ===== src/Probe/Due.antt =====
-- node/probes.go: when a probe is due.
use periapsis.Base.{
  ℕ, ◌+◌, ◌*◌, ◌<◌, ◌≤◌, ◌^◌, ◌≡◌, ◌↔◌, ◌⊎◌, refl, true, Bytes, str_eq_refl, arith, Int32, Time,
  Clock, second, lookup, insert, lookup-insert, bytes_eq, some,
}
use periapsis.Probe.{ContainerProbeState, safe_threshold, seeded, is_due, mark_probed}

-- A probe with a positive initial delay is not due before that many seconds have passed since the
-- container started, if it is known when it started.
pub is_due-after_delay :
    (state : ContainerProbeState) (probe_type : Bytes) (period delay : Int32) (jitter : ℕ)
    (clock : Clock)
    → 1 ≤ state.started_at
    → 1 ≤ delay
    → delay < 2 ^ 31
    → (is_due state probe_type period delay jitter clock).1 ≡ true
    → state.started_at + delay * second ≤ clock 1
unfolding is_due
is_due-after_delay state probe_type period delay jitter clock known positive small due =
    ground (arith, due)

seeded-mark_probed :
    (state : ContainerProbeState) (probe_type : Bytes) (period delay : Int32) (made : Time)
    (jitter : ℕ) (now : Time)
    → seeded (mark_probed state probe_type made) probe_type period delay jitter now
      ≡ (mark_probed state probe_type made, made)
unfolding mark_probed seeded insert
seeded-mark_probed state probe_type period delay made jitter now =
    let entry : lookup probe_type (insert probe_type made state.last_probe_time) ≡ some made =
      ground (
        arith,
        lookup-insert probe_type probe_type made state.last_probe_time,
        str_eq_refl probe_type,
      ) in
    rw (entry, seeded) refl

-- A probe that has just been made, of a container whose start is known and whose initial delay is
-- not negative, is due again exactly when its period has passed (ten seconds if the period is not
-- positive) and the initial delay, if there is one, is over.
pub is_due-mark_probed :
    (state : ContainerProbeState) (probe_type : Bytes) (period delay : Int32) (now : Time)
    (jitter : ℕ) (clock : Clock)
    → 1 ≤ state.started_at
    → delay < 2 ^ 31
    → ((is_due (mark_probed state probe_type now) probe_type period delay jitter clock).1 ≡ true)
      ↔ ((now + safe_threshold period 10 * second ≤ clock 2)
          × ((delay ≡ 0) ⊎ (state.started_at + delay * second ≤ clock 1)))
unfolding is_due mark_probed
is_due-mark_probed state probe_type period delay now jitter clock known small =
    let same =
      seeded-mark_probed state probe_type (safe_threshold period 10) delay now jitter (clock 0) in
    rw (same, is_due) (ground arith)
