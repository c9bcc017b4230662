-- ===== src/IpPool/Allocate.antt =====
-- What Allocate hands out, and when it reports exhaustion.
use periapsis.Base.{
  [], ◌∷◌, ℕ, zero, suc, ◌+◌, ◌<◌, ◌^◌, ◌≡◌, ◌≢◌, ◌⊎◌, refl, inl, inr, Bytes, none, some, arith,
  Bool-cases, Option-cases, ◌==◌, ==_iff, if◌then◌else◌, Map, lookup, insert, lookup-insert,
  lookup-delete, nat_eq, str_eq_refl, ap, ◌∙◌,
}
use periapsis.IpPool.{
  IpPool, u32, advance, take_offset, allocate_loop, allocate, Allocation, allocated, exhausted,
  offset_of, release,
}
use periapsis.IpPool.Cycle.{InRange, IsSound, distance, advance-InRange, advance-distance}
use native.Mathlib.Decide.{ℕ_discrete}
use mathlib.Core.Path.{subst}

some_injective {ℓ} : {A : Type ℓ} {a b : A} → some a ≡ some b → a ≡ b
some_injective e = cc

-- What a result of Allocate says of the pool before and after.
pub data Outcome (p : IpPool) (pod_uid : Bytes) : IpPool × Allocation → Type 0 where
  -- An offset that was free is now the pod's, and it is the only one that changed.
  granted :
      (o : ℕ)
      → InRange p o
      → lookup o p.in_use ≡ none
      → Outcome p pod_uid (
        record p { next = advance p o; in_use = insert o pod_uid p.in_use },
        allocated (u32 (p.base + o)),
      )
  -- Every offset of the pool is in use, and nothing changed.
  refused : ((x : ℕ) → InRange p x → lookup x p.in_use ≢ none) → Outcome p pod_uid (p, exhausted)

-- The offsets that the loop has tried before it comes to `o` are in use.
abbrev Tried : IpPool → ℕ → Type 0
Tried p o =
    (x : ℕ) → InRange p x → distance p p.next o < distance p p.next x → lookup x p.in_use ≢ none

distance-injective :
    (p : IpPool) (start x o : ℕ)
    → InRange p start
    → InRange p x
    → InRange p o
    → distance p start x ≡ distance p start o
    → x ≡ o
distance-injective p start x o hs hx ho e = ground arith

distance_last :
    (p : IpPool) (start o x : ℕ)
    → p.max + 1 < 2 ^ 32
    → InRange p start
    → InRange p o
    → InRange p x
    → advance p o ≡ start
    → (x ≡ o) ⊎ (distance p start o < distance p start x)
unfolding advance
distance_last p start o x small hs ho hx e = ground arith

Tried-advance :
    (p : IpPool) (o : ℕ) {uid : Bytes}
    → IsSound p
    → InRange p o
    → lookup o p.in_use ≡ some uid
    → (advance p o ≡ p.next → ⊥)
    → Tried p o
    → Tried p (advance p o)
Tried-advance p o sound ho used on tried x hx far = elim (ℕ_discrete x o) [
  | yes same ↦ rw (same, used) (λ e. cc)
  | no other ↦ tried x hx (
      ground (
        arith,
        advance-distance p p.next o sound.max_small sound.next_in_range ho,
        distance-injective p p.next x o sound.next_in_range hx ho,
      ))
]

allocate_loop-Outcome :
    (fuel : ℕ) (p : IpPool) (pod_uid : Bytes) (o : ℕ) {r : IpPool × Allocation}
    → IsSound p
    → InRange p o
    → Tried p o
    → allocate_loop fuel p pod_uid p.next o ≡ some r
    → Outcome p pod_uid r
unfolding allocate_loop take_offset
allocate_loop-Outcome zero p pod_uid o sound ho tried e = cc
allocate_loop-Outcome (suc fuel) p pod_uid o {r} sound ho tried e =
    elim (Option-cases (lookup o p.in_use)) [
      | inl free ↦
          let got : some (take_offset p pod_uid o) ≡ some r = rw (free, allocate_loop) at e in
          subst (Outcome p pod_uid) (some_injective got) (granted o ho free)
      | inr (uid, used) ↦ elim (Bool-cases (advance p o == p.next)) [
        | inl back ↦
            let came_back : advance p o ≡ p.next = (==_iff _ _).0 back in
            let got : some (p, exhausted) ≡ some r =
              rw (back, came_back) at (rw (used, allocate_loop) at e) in
            subst (Outcome p pod_uid) (some_injective got) (
              refused λ x hx.
                elim (distance_last p p.next o x sound.max_small sound.next_in_range ho hx
                  came_back) [ inl same ↦ rw (same, used) (λ q. cc) | inr far ↦ tried x hx far ])
        | inr on ↦
            allocate_loop-Outcome fuel p pod_uid (advance p o) sound
              (advance-InRange p o sound.max_small ho)
              (Tried-advance p o sound ho used (λ q. ground (arith, ==_iff (advance p o) p.next))
                tried)
              (rw on at (rw (used, allocate_loop) at e))
      ]
    ]

-- From a sound pool Allocate gives the pod an offset of the pool that was free and records it, or
-- reports exhaustion when every offset from 2 to the last is in use, and then changes nothing.
pub allocate-Outcome :
    (p : IpPool) (pod_uid : Bytes) {r : IpPool × Allocation}
    → IsSound p
    → allocate p pod_uid ≡ some r
    → Outcome p pod_uid r
unfolding allocate
allocate-Outcome p pod_uid sound e =
    allocate_loop-Outcome (p.max + 1) p pod_uid p.next sound sound.next_in_range
      (λ x hx far. absurd (ground (arith, sound.next_in_range, hx))) e

-- Allocate keeps a sound pool sound: next stays an offset of the pool.
pub allocate-IsSound :
    (p : IpPool) (pod_uid : Bytes) {q : IpPool} {a : Allocation}
    → IsSound p
    → allocate p pod_uid ≡ some (q, a)
    → IsSound q
allocate-IsSound p pod_uid {q} {a} sound e = sound_after (allocate-Outcome p pod_uid sound e)
  where
    sound_after : {r : IpPool × Allocation} → Outcome p pod_uid r → IsSound r.0
    sound_after (granted o ho free) = record {
      next_in_range = advance-InRange p o sound.max_small ho;
      max_small = sound.max_small;
    }
    sound_after (refused full) = sound

-- The offset that an outcome takes.
abbrev pub Takes : IpPool → Allocation → ℕ → Type 0
Takes p a o = (a ≡ allocated (u32 (p.base + o))) × InRange p o × (lookup o p.in_use ≡ none)

granted_lem :
    (p : IpPool) (pod_uid : Bytes) {q : IpPool} {a : ℕ}
    → IsSound p
    → allocate p pod_uid ≡ some (q, allocated a)
    → (o : ℕ) × (q ≡ record p { next = advance p o; in_use = insert o pod_uid p.in_use })
      × (a ≡ u32 (p.base + o))
      × InRange p o
      × (lookup o p.in_use ≡ none)
granted_lem p pod_uid {q} {a} sound e = look (allocate-Outcome p pod_uid sound e) refl
  where
    look :
        {r : IpPool × Allocation}
        → Outcome p pod_uid r
        → r ≡ (q, allocated a)
        → (o : ℕ) × (q ≡ record p { next = advance p o; in_use = insert o pod_uid p.in_use })
          × (a ≡ u32 (p.base + o))
          × InRange p o
          × (lookup o p.in_use ≡ none)
    look (granted o ho free) same = (o, cc, cc, ho, free)
    look (refused full) same = cc

-- Two allocations in a row never hand out one address, from a sound pool whose subnet fits in 32
-- bits.
pub allocate_differs :
    (p : IpPool) (first second : Bytes) {q r : IpPool} {a b : ℕ}
    → IsSound p
    → p.base + p.max < 2 ^ 32
    → allocate p first ≡ some (q, allocated a)
    → allocate q second ≡ some (r, allocated b)
    → a ≢ b
allocate_differs p first second {q} sound fits e f same =
    let (o, after_first, at_a, ho, free) = granted_lem p first sound e in
    let (o', after_second, at_b, ho', free') =
      granted_lem q second (allocate-IsSound p first sound e) f in
    let base_same : q.base ≡ p.base = ap (λ (t : IpPool). t.base) after_first in
    let max_same : q.max ≡ p.max = ap (λ (t : IpPool). t.max) after_first in
    let taken : q.in_use ≡ insert o first p.in_use = ap (λ (t : IpPool). t.in_use) after_first in
    let one : o ≡ o' = omega arith in
    let found : lookup o' q.in_use ≡ (if o == o' then some first else lookup o' p.in_use) =
      ap (lookup o') taken ∙ lookup-insert o o' first p.in_use in
    ground (arith, found, free', one)

offset_of-insert :
    (o : ℕ) (pod_uid : Bytes) (m : Map ℕ Bytes)
    → offset_of pod_uid m ≡ none
    → offset_of pod_uid (insert o pod_uid m) ≡ some o
unfolding offset_of insert
offset_of-insert o pod_uid [] h = rw (str_eq_refl pod_uid)
offset_of-insert o pod_uid ((i, uid) ∷ m) h =
    ground (arith, str_eq_refl pod_uid, offset_of-insert o pod_uid m)

-- Releasing a pod that had no address before it was given one by a sound pool leaves the offsets
-- in use that were.
pub release-allocate :
    (p : IpPool) (pod_uid : Bytes) {q : IpPool} {a : ℕ} (x : ℕ)
    → IsSound p
    → offset_of pod_uid p.in_use ≡ none
    → allocate p pod_uid ≡ some (q, allocated a)
    → lookup x (release q pod_uid).in_use ≡ lookup x p.in_use
unfolding release
release-allocate p pod_uid {q} x sound fresh e =
    let (o, after_grant, at_a, ho, free) = granted_lem p pod_uid sound e in
    let taken : q.in_use ≡ insert o pod_uid p.in_use = ap (λ (t : IpPool). t.in_use) after_grant in
    let off : offset_of pod_uid q.in_use ≡ some o =
      ap (offset_of pod_uid) taken ∙ offset_of-insert o pod_uid p.in_use fresh in
    let kept : lookup x q.in_use ≡ (if o == x then some pod_uid else lookup x p.in_use) =
      ap (lookup x) taken ∙ lookup-insert o x pod_uid p.in_use in
    rw (off, release) (lookup-delete o x q.in_use ∙ ground (arith, kept, free, ==_iff o x))
