-- ===== src/Foci/PhaseRule/Scan.antt =====
-- The loop of recomputePhase in closed form, and its tests as predicates on the containers.
use periapsis.Base.{
  ◌≡◌, ◌≢◌, ◌⊎◌, refl, inl, inr, Bool, true, false, not, ◌&&◌, ◌||◌, List, [], ◌∷◌, arith,
  Bool-cases, All, ◌==◌,
}
use periapsis.Foci.State.{
  phase_creating, phase_running, phase_terminated, phase_crash_loop_back_off, ContainerState,
}
use periapsis.Foci.Phase.{scan_phases, Flags, mark_phase}
use periapsis.Base.{Any, here, there}

abbrev pub IsRunning : ContainerState → Type 0
IsRunning cv = cv.phase ≡ phase_running

abbrev pub IsCreating : ContainerState → Type 0
IsCreating cv = cv.phase ≡ phase_creating

abbrev pub IsCrashLooping : ContainerState → Type 0
IsCrashLooping cv = cv.phase ≡ phase_crash_loop_back_off

-- Neither running nor being created: in backoff, or terminated.
abbrev pub IsDown : ContainerState → Type 0
IsDown cv = (cv.phase ≡ phase_crash_loop_back_off) ⊎ (cv.phase ≡ phase_terminated)

abbrev pub IsTerminated : ContainerState → Type 0
IsTerminated cv = cv.phase ≡ phase_terminated

unfoldable pub any_b : (ContainerState → Bool) → List ContainerState → Bool
any_b p [] = false
any_b p (cv ∷ rest) = p cv || any_b p rest

unfoldable pub running_b : ContainerState → Bool
running_b cv = elim cv.phase [ phase_running ↦ true | _ ↦ false ]

unfoldable pub creating_b : ContainerState → Bool
creating_b cv = elim cv.phase [ phase_creating ↦ true | _ ↦ false ]

unfoldable pub crashing_b : ContainerState → Bool
crashing_b cv = elim cv.phase [ phase_crash_loop_back_off ↦ true | _ ↦ false ]

unfoldable pub up_b : ContainerState → Bool
up_b cv = elim cv.phase [ phase_terminated ↦ false | _ ↦ true ]

unfoldable pub bad_b : ContainerState → Bool
bad_b cv = elim cv.phase [
  | phase_terminated ↦ not (cv.exit_code == 0)
  | phase_crash_loop_back_off ↦ true
  | _ ↦ false
]

-- The loop in closed form.
pub scan_phases_lem :
    (f : Flags) (cs : List ContainerState)
    → ((scan_phases f cs).any_running ≡ (f.any_running || any_b running_b cs))
      × ((scan_phases f cs).any_creating ≡ (f.any_creating || any_b creating_b cs))
      × ((scan_phases f cs).any_restarting ≡ (f.any_restarting || any_b crashing_b cs))
      × ((scan_phases f cs).all_terminated ≡ (f.all_terminated && not (any_b up_b cs)))
      × ((scan_phases f cs).all_succeeded ≡ (f.all_succeeded && not (any_b bad_b cs)))
unfolding scan_phases any_b running_b creating_b crashing_b up_b bad_b
scan_phases_lem f [] = ground arith
scan_phases_lem f (cv ∷ rest) =
    ground (arith, scan_phases_lem (mark_phase cv.phase cv.exit_code f) rest)

-- A test that holds of some element, and one that holds of none.
pub any_b-Any :
    (p : ContainerState → Bool) (P : ContainerState → Type 0)
    → ((cv : ContainerState) → p cv ≡ true → P cv)
    → (cs : List ContainerState) → any_b p cs ≡ true
    → Any P cs
unfolding any_b
any_b-Any p P sound [] h = cc
any_b-Any p P sound (cv ∷ rest) h = elim (Bool-cases (p cv)) [
  | inl e ↦ here (sound cv e)
  | inr e ↦ there (any_b-Any p P sound rest (rw e at h))
]

pub any_b-All :
    (p : ContainerState → Bool) (P : ContainerState → Type 0)
    → ((cv : ContainerState) → p cv ≡ false → P cv)
    → (cs : List ContainerState) → any_b p cs ≡ false
    → All P cs
unfolding any_b
any_b-All p P sound [] h = tt
any_b-All p P sound (cv ∷ rest) h = elim (Bool-cases (p cv)) [
  | inl e ↦ cc (rw e at h)
  | inr e ↦ (sound cv e, any_b-All p P sound rest (rw e at h))
]

pub Any-any_b :
    (p : ContainerState → Bool) (P : ContainerState → Type 0)
    → ((cv : ContainerState) → P cv → p cv ≡ true)
    → (cs : List ContainerState) → Any P cs
    → any_b p cs ≡ true
unfolding any_b
Any-any_b p P complete [] h = elim h [ ]
Any-any_b p P complete (cv ∷ rest) (here h) = rw (complete cv h)
Any-any_b p P complete (cv ∷ rest) (there h) = ground (arith, Any-any_b p P complete rest h)

pub All-any_b :
    (p : ContainerState → Bool) (P : ContainerState → Type 0)
    → ((cv : ContainerState) → P cv → p cv ≡ false)
    → (cs : List ContainerState) → All P cs
    → any_b p cs ≡ false
unfolding any_b
All-any_b p P complete [] h = refl
All-any_b p P complete (cv ∷ rest) h = rw (complete cv h.0) (All-any_b p P complete rest h.1)

pub All-IsDown :
    (cs : List ContainerState)
    → any_b running_b cs ≡ false
    → any_b creating_b cs ≡ false
    → All IsDown cs
unfolding any_b running_b creating_b
All-IsDown [] h k = tt
All-IsDown (cv ∷ rest) h k = (ground arith, All-IsDown rest (ground arith) (ground arith))

-- The containers of a pod that is down, none of them in backoff, are terminated.
pub All-IsTerminated : (cs : List ContainerState) → any_b up_b cs ≡ false → All IsTerminated cs
All-IsTerminated = any_b-All up_b IsTerminated (λ cv h. unfold up_b in ground arith)

pub All-succeeded :
    (cs : List ContainerState)
    → any_b up_b cs ≡ false
    → any_b bad_b cs ≡ false
    → All (λ cv. IsTerminated cv × (cv.exit_code ≡ 0)) cs
unfolding any_b up_b bad_b
All-succeeded [] h k = tt
All-succeeded (cv ∷ rest) h k = (ground arith, All-succeeded rest (ground arith) (ground arith))

pub Any-failed :
    (cs : List ContainerState)
    → any_b up_b cs ≡ false
    → any_b bad_b cs ≡ true
    → Any (λ cv. cv.exit_code ≢ 0) cs
unfolding any_b up_b bad_b
Any-failed [] h k = cc
Any-failed (cv ∷ rest) h k = elim (Bool-cases (bad_b cv)) [
  | inl e ↦ here (ground arith)
  | inr e ↦ there (Any-failed rest (ground arith) (ground arith))
]

-- If no container is up, none runs, is being created or is in backoff; and conversely.
pub up_b_lem :
    (cs : List ContainerState)
    → any_b up_b cs ≡ (any_b running_b cs || (any_b creating_b cs || any_b crashing_b cs))
unfolding any_b up_b running_b creating_b crashing_b
up_b_lem [] = refl
up_b_lem (cv ∷ rest) = ground (arith, up_b_lem rest)
