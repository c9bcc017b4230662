-- ===== src/Foci/Found.antt =====
-- FindContainer, and what a handler does with the container that it finds.
use periapsis.Base.{
  ℕ, suc, ◌≡◌, inl, inr, Bytes, str_eq, str_eq_iff, some, List, [], ◌∷◌, arith, Bool-cases,
  Option-cases, get_elem?,
}
use periapsis.Foci.State.{ContainerState, PodState, find_container}
use periapsis.Foci.Reduce.Common.{Result, at_container}

-- The container at the index that FindContainer returns has the name that was looked for.
pub find_container-get_elem? :
    (name : Bytes) (cs : List ContainerState) {i : ℕ}
    → find_container name cs ≡ some i
    → (cv : ContainerState) × (get_elem? cs i ≡ some cv) × (cv.name ≡ name)
unfolding find_container
find_container-get_elem? name [] h = cc
find_container-get_elem? name (c ∷ cs) {i} h = elim (Bool-cases (str_eq c.name name)) [
  | inl e ↦ (c, ground arith, (str_eq_iff c.name name).0 e)
  | inr e ↦ elim (Option-cases (find_container name cs)) [
    | inl f ↦ cc (rw (e, f) at h)
    | inr (j, f) ↦ let p : i ≡ suc j = ground arith in rw p (find_container-get_elem? name cs f)
  ]
]

-- Every result of `at_container` is that of the body over the container that was found, or the
-- state as it was.
pub at_container_found {ℓ} :
    (P : Result → Type ℓ) (state : PodState) (name : Bytes) (body : ℕ → ContainerState → Result)
    → P (state, [])
    → ((idx : ℕ) (cv : ContainerState)
        → find_container name state.containers ≡ some idx
        → get_elem? state.containers idx ≡ some cv
        → cv.name ≡ name
        → P (body idx cv))
    → P (at_container state name body)
unfolding at_container
at_container_found P state name body missing found =
    elim (Option-cases (find_container name state.containers)) [
      | inl e ↦ rw (e, at_container) missing
      | inr (i, e) ↦
          let (cv, at, named) = find_container-get_elem? name state.containers e in
          rw (e, at, at_container) (found i cv e at named)
    ]

-- The same for a body whose result does not depend on how the container was found.
pub at_container_cases {ℓ} :
    (P : Result → Type ℓ) (state : PodState) (name : Bytes) (body : ℕ → ContainerState → Result)
    → P (state, [])
    → ((idx : ℕ) (cv : ContainerState)
        → get_elem? state.containers idx ≡ some cv
        → cv.name ≡ name
        → P (body idx cv))
    → P (at_container state name body)
at_container_cases P state name body missing found =
    at_container_found P state name body missing (λ idx cv _ at named. found idx cv at named)
