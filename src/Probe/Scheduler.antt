-- ===== src/Probe/Scheduler.antt =====
-- internal/probescheduler/scheduler.go: the probes of one container in one cycle (probeContainer). The
-- store has the state of the container's probes; what the probes find out, the jitter and the clock
-- are arguments. The log is left out.
use mathlib.Core.Path.{subst}
use periapsis.Base.{
  lookup, Option-cases, inl, inr, sym, ◌∙◌, bytes_eq, ℕ, ◌≡◌, refl, Bytes, bytes, Bool, true, false,
  not, Option, none, some, List, [], ◌∷◌, ◌++◌, Time, Clock, if◌then◌else◌, if_cases, All, arith,
  Int32,
}
use periapsis.Foci.Types.{ProbeSpec, ProbeFact}
use periapsis.Probe.{
  ProbeResult, probe_success, probe_failure, probe_unknown, ContainerProbeState, safe_threshold,
  eval_startup, eval_liveness, eval_readiness, is_due, mark_probed, seeded,
}

-- The three probes of a container; `none` is nil.
pub record ContainerProbes : Type 0 where
  pub uid : Bytes
  pub name : Bytes
  pub startup_probe : Option ProbeSpec
  pub liveness_probe : Option ProbeSpec
  pub readiness_probe : Option ProbeSpec

-- What a cycle takes from outside: the result of each probe, the jitter that isDue draws and the
-- readings of the clock, for each probe.
pub record Cycle : Type 0 where
  pub run_probe : Bytes → ProbeResult
  pub jitter : Bytes → ℕ
  pub clock : Bytes → Clock

abbrev pub is_success : ProbeResult → Bool
is_success probe_success = true
is_success _ = false

-- isDue for a probe of that type.
abbrev pub due : Cycle → ContainerProbeState → Bytes → ProbeSpec → ContainerProbeState × Bool
due cycle ps type probe =
    is_due ps type probe.period_seconds probe.initial_delay_seconds (cycle.jitter type)
      (cycle.clock type)

-- NewProbeFact for a probe of that type.
abbrev pub probe_fact_of :
    ContainerProbes → Bytes → ProbeSpec → ProbeResult → Bool → ContainerProbeState → ProbeFact
probe_fact_of c type probe result ready updated = record {
  uid = c.uid;
  container = c.name;
  probe_type = type;
  success = is_success result;
  ready = ready;
  startup_passed = updated.startup_passed;
  success_threshold = safe_threshold probe.success_threshold 1;
  failure_threshold = safe_threshold probe.failure_threshold 3;
}

-- The state that ResetProbeState puts.
abbrev pub reset_probe_state : Time → ContainerProbeState
reset_probe_state now = record {
  started_at = now;
  startup_passed = false;
  startup_fail_count = 0;
  live_fail_count = 0;
  ready = false;
  ready_fail_count = 0;
  ready_success_count = 0;
  last_probe_time = [];
}

abbrev pub startup : Bytes
startup = bytes "startup"

abbrev pub liveness : Bytes
liveness = bytes "liveness"

abbrev pub readiness : Bytes
readiness = bytes "readiness"

-- 1. The startup probe.
unfoldable pub run_startup :
    Cycle → ContainerProbes → ProbeSpec → ContainerProbeState → ContainerProbeState × List ProbeFact
run_startup cycle c probe ps =
    let (ps', is_time) = due cycle ps startup probe in
    let result = cycle.run_probe startup in
    let (updated, restart) =
      eval_startup (mark_probed ps' startup (cycle.clock startup 3)) probe.failure_threshold
        result in
    if is_time
    then (updated, probe_fact_of c startup probe result updated.startup_passed updated ∷ [])
    else (ps', [])

-- 2. The liveness probe; the Bool says whether it asks for a restart.
unfoldable pub run_liveness :
    Cycle
    → ContainerProbes
    → Option ProbeSpec
    → ContainerProbeState
    → (ContainerProbeState × Bool) × List ProbeFact
run_liveness cycle c none ps = ((ps, false), [])
run_liveness cycle c (some probe) ps =
    let (ps', is_time) = due cycle ps liveness probe in
    let result = cycle.run_probe liveness in
    let (evaluated, restart) =
      eval_liveness (mark_probed ps' liveness (cycle.clock liveness 3)) probe.failure_threshold
        result in
    let updated = if restart then reset_probe_state (cycle.clock liveness 4) else evaluated in
    if is_time
    then ((updated, restart), probe_fact_of c liveness probe result (not restart) updated ∷ [])
    else ((ps', false), [])

-- 3. The readiness probe.
unfoldable pub run_readiness :
    Cycle
    → ContainerProbes
    → Option ProbeSpec
    → ContainerProbeState
    → ContainerProbeState × List ProbeFact
run_readiness cycle c none ps = (ps, [])
run_readiness cycle c (some probe) ps =
    let (ps', is_time) = due cycle ps readiness probe in
    let result = cycle.run_probe readiness in
    let updated =
      eval_readiness (mark_probed ps' readiness (cycle.clock readiness 3)) probe.success_threshold
        probe.failure_threshold result in
    if is_time
    then (updated, probe_fact_of c readiness probe result updated.ready updated ∷ [])
    else (ps', [])

-- What follows the startup probe.
unfoldable pub run_started :
    Cycle → ContainerProbes → ContainerProbeState → ContainerProbeState × List ProbeFact
run_started cycle c ps =
    let ((ps', restart), facts) = run_liveness cycle c c.liveness_probe ps in
    let (ps'', more) = run_readiness cycle c c.readiness_probe ps' in
    if restart then (ps', facts) else (ps'', facts ++ more)

-- probeContainer, for a container whose probes have a state.
unfoldable pub probe_container :
    Cycle → ContainerProbes → ContainerProbeState → ContainerProbeState × List ProbeFact
probe_container cycle c ps = elim c.startup_probe [
  | none ↦ run_started cycle c ps
  | some probe ↦
      if not ps.startup_passed then run_startup cycle c probe ps else run_started cycle c ps
]

-- The readiness is still the given one, and the facts are those of the startup probe.
abbrev Gated : Bool → ContainerProbeState × List ProbeFact → Type 0
Gated ready r = (r.0.ready ≡ ready) × All (λ (f : ProbeFact). f.probe_type ≡ startup) r.1

seeded-ready :
    (ps : ContainerProbeState) (type : Bytes) (period delay : Int32) (jitter : ℕ) (now : Time)
    → (seeded ps type period delay jitter now).0.ready ≡ ps.ready
unfolding seeded
seeded-ready ps type period delay jitter now =
    elim (Option-cases (lookup type ps.last_probe_time)) [
      | inl e ↦ rw (e, seeded) refl
      | inr (last, e) ↦ rw (e, seeded) refl
    ]

abbrev Keeps : Bool → ContainerProbeState × Bool → Type 0
Keeps ready r = r.0.ready ≡ ready

is_due-ready :
    (ps : ContainerProbeState) (type : Bytes) (period delay : Int32) (jitter : ℕ) (clock : Clock)
    → (is_due ps type period delay jitter clock).0.ready ≡ ps.ready
unfolding is_due
is_due-ready ps type period delay jitter clock =
    let kept = seeded-ready ps type (safe_threshold period 10) delay jitter (clock 0) in
    if_cases (Keeps ps.ready) _ (λ early. kept) (λ late. kept)

eval_startup-ready :
    (ps : ContainerProbeState) (threshold : Int32) (r : ProbeResult)
    → (eval_startup ps threshold r).0.ready ≡ ps.ready
unfolding eval_startup
eval_startup-ready ps threshold probe_success = refl
eval_startup-ready ps threshold probe_failure = refl
eval_startup-ready ps threshold probe_unknown = refl

run_startup-Gated :
    (cycle : Cycle) (c : ContainerProbes) (probe : ProbeSpec) (ps : ContainerProbeState)
    → Gated ps.ready (run_startup cycle c probe ps)
unfolding run_startup mark_probed
run_startup-Gated cycle c probe ps =
    let kept =
      is_due-ready ps startup probe.period_seconds probe.initial_delay_seconds
        (cycle.jitter startup) (cycle.clock startup) in
    if_cases (Gated ps.ready) (due cycle ps startup probe).1
      (λ is_time.
        (eval_startup-ready _ probe.failure_threshold (cycle.run_probe startup) ∙ kept, (refl, tt)))
      (λ waits. (kept, tt))

probe_container-run_startup :
    (cycle : Cycle) (c : ContainerProbes) (ps : ContainerProbeState) (probe : ProbeSpec)
    → c.startup_probe ≡ some probe
    → ps.startup_passed ≡ false
    → probe_container cycle c ps ≡ run_startup cycle c probe ps
unfolding probe_container
probe_container-run_startup cycle c ps probe given waiting = ground (arith, given, waiting)

-- While the startup probe of a container has not passed, a cycle leaves the readiness in the
-- state of its probes as it is, and sends facts of the startup probe only.
pub probe_container-gated :
    (cycle : Cycle) (c : ContainerProbes) (ps : ContainerProbeState) (probe : ProbeSpec)
    → c.startup_probe ≡ some probe
    → ps.startup_passed ≡ false
    → ((probe_container cycle c ps).0.ready ≡ ps.ready)
      × All (λ (f : ProbeFact). f.probe_type ≡ startup) (probe_container cycle c ps).1
probe_container-gated cycle c ps probe given waiting =
    subst (Gated ps.ready) (sym (probe_container-run_startup cycle c ps probe given waiting))
      (run_startup-Gated cycle c probe ps)
