-- ===== src/Probe.antt =====
-- node/probes.go: the states and the evaluation of the probes of one container, and when a probe is
-- due. What a probe finds out (RunProbe) is an argument.
pub mod Streaks
pub mod Due
pub mod Scheduler
pub mod Examples
use periapsis.Base.{
  ℕ, ◌+◌, ◌-◌, ◌*◌, ◌%◌, ◌^◌, ◌==◌, ltb, leb, Bytes, Bool, true, false, Option, none, some, List,
  [], ◌∷◌, ◌&&◌, ◌||◌, not, if◌then◌else◌, Time, Clock, Int32, incr32, second, Map, lookup, insert,
  bytes_eq,
}

pub data ProbeResult : Type 0 where
  probe_success probe_failure probe_unknown : ProbeResult

pub record ContainerProbeState : Type 0 where
  pub started_at : Time
  pub startup_passed : Bool
  pub startup_fail_count : Int32
  pub live_fail_count : Int32
  pub ready : Bool
  pub ready_fail_count : Int32
  pub ready_success_count : Int32
  pub last_probe_time : Map Bytes Time

-- `a >= b` on int32
abbrev pub sge32 : Int32 → Int32 → Bool
sge32 a b = leb ((b + 2 ^ 31) % 2 ^ 32) ((a + 2 ^ 31) % 2 ^ 32)

-- `n <= 0` on int32
abbrev pub not_positive : Int32 → Bool
not_positive n = (n == 0) || leb (2 ^ 31) n

-- A setting, or what stands for it when it is not positive: safeThreshold.
abbrev pub safe_threshold : Int32 → Int32 → Int32
safe_threshold val default_val = if not_positive val then default_val else val

-- EvalStartup, with the failure threshold of the probe; the Bool asks for a restart.
unfoldable pub eval_startup : ContainerProbeState → Int32 → ProbeResult → ContainerProbeState × Bool
eval_startup state threshold probe_success =
    (record state { startup_passed = true; startup_fail_count = 0 }, false)
eval_startup state threshold _ =
    let count = incr32 state.startup_fail_count in
    (record state { startup_fail_count = count }, sge32 count (safe_threshold threshold 3))

-- EvalLiveness, with the failure threshold of the probe; the Bool asks for a restart.
unfoldable pub eval_liveness :
    ContainerProbeState → Int32 → ProbeResult → ContainerProbeState × Bool
eval_liveness state threshold probe_success = (record state { live_fail_count = 0 }, false)
eval_liveness state threshold _ =
    let count = incr32 state.live_fail_count in
    (record state { live_fail_count = count }, sge32 count (safe_threshold threshold 3))

-- EvalReadiness, with the two thresholds of the probe.
unfoldable pub eval_readiness :
    ContainerProbeState → Int32 → Int32 → ProbeResult → ContainerProbeState
eval_readiness state success_threshold failure_threshold probe_success =
    let count = incr32 state.ready_success_count in
    record state {
      ready_fail_count = 0;
      ready_success_count = count;
      ready = if sge32 count (safe_threshold success_threshold 1) then true else state.ready;
    }
eval_readiness state success_threshold failure_threshold _ =
    let count = incr32 state.ready_fail_count in
    record state {
      ready_success_count = 0;
      ready_fail_count = count;
      ready = if sge32 count (safe_threshold failure_threshold 3) then false else state.ready;
    }

-- t.Add(time.Duration(n) * time.Second) for an int32, not before the zero time.
abbrev pub add_seconds : Time → Int32 → Time
add_seconds t n = if leb (2 ^ 31) n then t - (2 ^ 32 - n) * second else t + n * second

-- What isDue puts in LastProbeTime when there is no entry; `jitter` is what rand.Int63n gives and
-- `now` what time.Now gives.
unfoldable pub first_probe_time : ContainerProbeState → Int32 → Int32 → ℕ → Time → Time
first_probe_time state period initial_delay jitter now =
    if state.started_at == 0
    then now + jitter * second - period * second
    else add_seconds (state.started_at + jitter * second) initial_delay - period * second

-- The state with an entry for the probe in LastProbeTime, and that entry.
unfoldable pub seeded :
    ContainerProbeState → Bytes → Int32 → Int32 → ℕ → Time → ContainerProbeState × Time
seeded state probe_type period initial_delay jitter now =
    elim (lookup probe_type state.last_probe_time) [
      | some last ↦ (state, last)
      | none ↦
          let last = first_probe_time state period initial_delay jitter now in
          (record state { last_probe_time = insert probe_type last state.last_probe_time }, last)
    ]

-- isDue. Reading 0 of the clock is time.Now, 1 and 2 are those of time.Since, in the order of the
-- text.
unfoldable pub is_due :
    ContainerProbeState → Bytes → Int32 → Int32 → ℕ → Clock → ContainerProbeState × Bool
is_due state probe_type period_seconds initial_delay jitter clock =
    let period = safe_threshold period_seconds 10 in
    let (state', last) = seeded state probe_type period initial_delay jitter (clock 0) in
    if (not (not_positive initial_delay) && not (state.started_at == 0))
      && ltb (clock 1 - state.started_at) (initial_delay * second)
    then (state', false)
    else (state', leb (last + period * second) (clock 2))

-- markProbed
unfoldable pub mark_probed : ContainerProbeState → Bytes → Time → ContainerProbeState
mark_probed state probe_type now = record state {
  last_probe_time = insert probe_type now state.last_probe_time;
}
