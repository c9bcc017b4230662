-- ===== src/Eviction/Frees.antt =====
-- node/eviction.go: the aggressive loop frees enough, and no pod more than that takes.
use periapsis.Base.{
  ℕ, ◌+◌, ◌%◌, ◌^◌, ◌≤◌, ◌<◌, ◌≡◌, ◌⊎◌, inl, inr, refl, ap, true, ◌&&◌, List, [], ◌∷◌, ◌++◌,
  if_cases, Bool-cases, ltb, leb, arith,
}
use periapsis.Eviction.{PodEvictionCandidate, eviction_min_free_bytes, evict_until, choose}

-- The sum of the memory that the pods use.
unfoldable pub usage : List PodEvictionCandidate → ℕ
usage [] = 0
usage (c ∷ rest) = c.memory_usage + usage rest

-- The list without its last pod.
unfoldable pub but_last : List PodEvictionCandidate → List PodEvictionCandidate
but_last [] = []
but_last (c ∷ []) = []
but_last (c ∷ (d ∷ rest)) = c ∷ but_last (d ∷ rest)

pub evict_until-append :
    (freed : ℕ) (l : List PodEvictionCandidate)
    → ((evict_until freed l).0 ++ (evict_until freed l).1) ≡ l
unfolding evict_until
evict_until-append freed [] = refl
evict_until-append freed (c ∷ rest) =
    let ih = evict_until-append ((freed + c.memory_usage) % 2 ^ 64) rest in
    if_cases
      (λ (p : List PodEvictionCandidate × List PodEvictionCandidate). (p.0 ++ p.1) ≡ (c ∷ rest))
      (ltb 0 freed && leb eviction_min_free_bytes freed) (λ _. refl)
      (λ _. ap (λ (t : List PodEvictionCandidate). c ∷ t) ih)

-- What is freed in all is enough, or nothing is left to evict.
evict_until-frees :
    (freed : ℕ) (l : List PodEvictionCandidate)
    → freed + usage l < 2 ^ 64
    → (eviction_min_free_bytes ≤ freed + usage (evict_until freed l).0)
      ⊎ ((evict_until freed l).1 ≡ [])
unfolding evict_until usage
evict_until-frees freed [] small = inr refl
evict_until-frees freed (c ∷ rest) small =
    let sum : (freed + c.memory_usage) % 2 ^ 64 ≡ freed + c.memory_usage = omega (arith, small) in
    let ih = evict_until-frees (freed + c.memory_usage) rest (omega (arith, small)) in
    if_cases
      (λ (p : List PodEvictionCandidate × List PodEvictionCandidate).
        (eviction_min_free_bytes ≤ freed + usage p.0) ⊎ (p.1 ≡ []))
      (ltb 0 freed && leb eviction_min_free_bytes freed) (λ enough. inl (ground (arith, enough)))
      (λ _. rw sum (elim ih [ inl h ↦ inl (omega (arith, h)) | inr h ↦ inr h ]))

usage-but_last :
    (c : PodEvictionCandidate) (l : List PodEvictionCandidate)
    → usage (but_last (c ∷ l)) ≤ c.memory_usage + usage (but_last l)
unfolding usage but_last
usage-but_last c [] = omega arith
usage-but_last c (d ∷ l) = omega arith

evict_until-enough :
    (freed : ℕ) (l : List PodEvictionCandidate)
    → eviction_min_free_bytes ≤ freed
    → (evict_until freed l).0 ≡ []
unfolding evict_until
evict_until-enough freed [] enough = refl
evict_until-enough freed (c ∷ rest) enough =
    let stop : (ltb 0 freed && leb eviction_min_free_bytes freed) ≡ true = ground (arith, enough) in
    rw stop refl

-- Without the last of them it is not enough.
evict_until-needed :
    (freed : ℕ) (l : List PodEvictionCandidate)
    → freed + usage l < 2 ^ 64
    → freed < eviction_min_free_bytes
    → freed + usage (but_last (evict_until freed l).0) < eviction_min_free_bytes
unfolding evict_until usage but_last
evict_until-needed freed [] small less = omega (arith, less)
evict_until-needed freed (c ∷ rest) small less =
    let sum : (freed + c.memory_usage) % 2 ^ 64 ≡ freed + c.memory_usage = omega (arith, small) in
    let on = evict_until (freed + c.memory_usage) rest in
    if_cases
      (λ (p : List PodEvictionCandidate × List PodEvictionCandidate).
        freed + usage (but_last p.0) < eviction_min_free_bytes)
      (ltb 0 freed && leb eviction_min_free_bytes freed) (λ _. omega (arith, less))
      (λ _. rw sum (elim (Bool-cases (ltb (freed + c.memory_usage) eviction_min_free_bytes)) [
        | inl still ↦ omega (
          arith,
          usage-but_last c on.0,
          evict_until-needed (freed + c.memory_usage) rest (omega (arith, small))
              (ground (arith, still)),
        )
        | inr enough ↦
            rw (evict_until-enough (freed + c.memory_usage) rest (ground (arith, enough)))
              (omega (arith, less))
      ]))

-- At the hard threshold, for candidates that together use less than 2 ^ 64 bytes: the pods
-- evicted use at least 128 MiB together or no candidate is left, and all of them but the last use
-- less than 128 MiB together.
pub choose-frees :
    (l : List PodEvictionCandidate)
    → usage l < 2 ^ 64
    → ((eviction_min_free_bytes ≤ usage (choose true l).0) ⊎ ((choose true l).1 ≡ []))
      × (usage (but_last (choose true l).0) < eviction_min_free_bytes)
unfolding choose but_last usage
choose-frees [] small = (inr refl, omega arith)
choose-frees (c ∷ rest) small =
    let frees = evict_until-frees 0 (c ∷ rest) (omega (arith, small)) in
    let needed = evict_until-needed 0 (c ∷ rest) (omega (arith, small)) (omega arith) in
    (elim frees [ inl h ↦ inl (omega (arith, h)) | inr h ↦ inr h ], omega (arith, needed))
