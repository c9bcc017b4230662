-- ===== src/IpPool/Examples.antt =====
-- internal/network/ippool.go: the pool of 10.0.0.0/29, and one of a single address.
use periapsis.Base.{
  ℕ, ◌+◌, ◌-◌, ◌^◌, ◌≤◌, ◌≡◌, ◌≢◌, refl, bytes, some, [], ◌∷◌, arith, lookup, insert, nat_eq,
}
use mathlib.Core.Option
use periapsis.IpPool.{
  IpPool, Allocation, allocated, allocate, allocate_loop, take_offset, advance, new_ip_pool,
  last_offset, u32,
}
use periapsis.IpPool.Cycle.{IsSound, allocate_total}
use periapsis.IpPool.Allocate.{Outcome, allocate-Outcome, allocate_differs}
use periapsis.IpPool.Subnet.{allocate_outside}

-- Offsets 2 to 6, two of them in use.
abbrev small_pool : IpPool
small_pool = record {
  base = 167772160;
  next = 6;
  max = 6;
  in_use = (6, bytes "a") ∷ (2, bytes "b") ∷ [];
}

abbrev small_pool_sound : IsSound small_pool
small_pool_sound = record { next_in_range = (omega arith, omega arith); max_small = omega arith }

abbrev after_c : IpPool
after_c = record {
  base = 167772160;
  next = 4;
  max = 6;
  in_use = (6, bytes "a") ∷ (2, bytes "b") ∷ (3, bytes "c") ∷ [];
}

abbrev after_d : IpPool
after_d = record {
  base = 167772160;
  next = 5;
  max = 6;
  in_use = (6, bytes "a") ∷ (2, bytes "b") ∷ (3, bytes "c") ∷ (4, bytes "d") ∷ [];
}

-- The loop passes 6 and 2, which are in use, and comes to 3.
allocate_c : allocate small_pool (bytes "c") ≡ some (after_c, allocated 167772163)
unfolding allocate allocate_loop advance lookup take_offset insert
allocate_c = refl

allocate_d : allocate after_c (bytes "d") ≡ some (after_d, allocated 167772164)
unfolding allocate allocate_loop advance lookup take_offset insert
allocate_d = refl

allocate_total_example : (r : IpPool × Allocation) × (allocate small_pool (bytes "c") ≡ some r)
allocate_total_example = allocate_total small_pool (bytes "c") small_pool_sound

allocate-Outcome_example : Outcome small_pool (bytes "c") (after_c, allocated 167772163)
allocate-Outcome_example = allocate-Outcome small_pool (bytes "c") small_pool_sound allocate_c

allocate_differs_example : ◌≢◌ {A = ℕ} 167772163 167772164
allocate_differs_example =
    allocate_differs small_pool (bytes "c") (bytes "d") small_pool_sound (omega arith) allocate_c
      allocate_d

abbrev single_pool : IpPool
single_pool = record { base = 167772160; next = 2; max = 4294967295; in_use = [] }

allocate_outside_example :
    (2 ^ (32 - 32) ≤ 2)
    × (Option.map (λ (r : IpPool × Allocation). r.1) (allocate single_pool (bytes "c"))
        ≡ some (allocated (u32 (167772160 + 2))))
unfolding new_ip_pool last_offset
allocate_outside_example =
    allocate_outside 167772160 32 (bytes "c") single_pool (omega arith) (omega arith) refl
