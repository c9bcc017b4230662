-- ===== src/IpPool/Cycle.antt =====
-- The order in which Allocate tries the offsets, and that its loop ends.
use periapsis.Base.{
  ℕ, zero, suc, ◌+◌, ◌-◌, ◌≤◌, ◌<◌, ◌^◌, ◌≡◌, ◌⊎◌, refl, inl, inr, Bytes, some, arith, Bool-cases,
  Option-cases, ◌==◌, ltb, if◌then◌else◌, lookup, nat_eq,
}
use periapsis.IpPool.{IpPool, advance, take_offset, allocate_loop, allocate, Allocation, exhausted}

-- The offsets that the pool hands out.
abbrev pub InRange : IpPool → ℕ → Type 0
InRange p o = (2 ≤ o) × (o ≤ p.max)

-- `next` is an offset of the pool, and `next + 1` does not wrap.
pub record IsSound (p : IpPool) : Type 0 where
  pub next_in_range : InRange p p.next
  pub max_small : p.max + 1 < 2 ^ 32

-- How many rounds are left before `next` comes round to `start`.
abbrev pub distance : IpPool → ℕ → ℕ → ℕ
distance p start next = if ltb next start then start - next else p.max - next + 1 + (start - 2)

pub advance-InRange :
    (p : IpPool) (o : ℕ) → p.max + 1 < 2 ^ 32 → InRange p o → InRange p (advance p o)
unfolding advance
advance-InRange p o small h = ground arith

pub advance-distance :
    (p : IpPool) (start o : ℕ)
    → p.max + 1 < 2 ^ 32
    → InRange p start
    → InRange p o
    → (advance p o ≡ start) ⊎ (distance p start (advance p o) + 1 ≡ distance p start o)
unfolding advance
advance-distance p start o small hs ho = ground arith

-- The loop ends with a result: the fuel does not run out while it exceeds the distance.
allocate_loop_total :
    (fuel : ℕ) (p : IpPool) (pod_uid : Bytes) (start o : ℕ)
    → p.max + 1 < 2 ^ 32
    → InRange p start
    → InRange p o
    → distance p start o < fuel
    → (r : IpPool × Allocation) × (allocate_loop fuel p pod_uid start o ≡ some r)
unfolding allocate_loop
allocate_loop_total zero p pod_uid start o small hs ho h = absurd (omega arith)
allocate_loop_total (suc fuel) p pod_uid start o small hs ho h =
    elim (Option-cases (lookup o p.in_use)) [
      | inl free ↦ (take_offset p pod_uid o, rw (free, allocate_loop) refl)
      | inr (uid, used) ↦ elim (Bool-cases (advance p o == start)) [
        | inl back ↦
            ((record p { next = advance p o }, exhausted), rw (used, allocate_loop) (rw back refl))
        | inr on ↦
            let (r, e) =
              allocate_loop_total fuel p pod_uid start (advance p o) small hs
                (advance-InRange p o small ho)
                (ground (arith, advance-distance p start o small hs ho)) in
            (r, rw (used, allocate_loop) (rw on e))
      ]
    ]

-- Allocate always returns: from a sound pool the loop comes to an end within max + 1 rounds.
pub allocate_total :
    (p : IpPool) (pod_uid : Bytes)
    → IsSound p
    → (r : IpPool × Allocation) × (allocate p pod_uid ≡ some r)
unfolding allocate
allocate_total p pod_uid h =
    allocate_loop_total (p.max + 1) p pod_uid p.next p.next h.max_small h.next_in_range
      h.next_in_range (ground (arith, h.next_in_range))
