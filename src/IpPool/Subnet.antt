-- ===== src/IpPool/Subnet.antt =====
-- The size of the subnet: what Subnet reports, and the subnets that are too small for the pool.
use periapsis.Base.{
  ◌⊎◌, inl, inr, ap, ℕ, zero, suc, ◌+◌, ◌-◌, ◌≤◌, ◌^◌, ◌≡◌, refl, Bytes, Bool, true, false,
  if◌then◌else◌, Option, none, some, [], arith, ◌==◌, ==_iff, lookup, nat_eq,
}
use mathlib.Core.Option
use mathlib.Core.Path.{subst}
use periapsis.IpPool.{
  NewPool, invalid_cidr, uint32_panic, new_pool, ipv4, IpPool, last_offset, new_ip_pool,
  take_offset, allocate_loop, allocate, allocated, Allocation, subnet, bit_len, bit_len_loop, u32,
}

-- Does Subnet report the mask that leaves this many bits for hosts?
reports : ℕ → Bool
reports hosts = 32 - bit_len (u32 (last_offset hosts + 1)) == 32 - hosts

-- The same for that number of bits and for every smaller one.
reports_upto : ℕ → Bool
reports_upto zero = reports zero
reports_upto (suc hosts) = if reports (suc hosts) then reports_upto hosts else false

reports_upto_all : reports_upto 32 ≡ true
unfolding reports_upto reports bit_len bit_len_loop last_offset
reports_upto_all = refl

reports_upto_lem : (most hosts : ℕ) → hosts ≤ most → reports_upto most ≡ true → reports hosts ≡ true
unfolding reports_upto
reports_upto_lem zero hosts le h = let none_left : hosts ≡ 0 = omega arith in rw none_left h
reports_upto_lem (suc most) hosts le h =
    let below = reports_upto_lem most hosts in
    let cases : (hosts ≡ suc most) ⊎ (hosts ≤ most) = omega arith in
    elim cases [
      | inl e ↦ rw e (ground (arith, h))
      | inr n ↦ below (omega arith) (ground (arith, h))
    ]

abbrev pool_of : NewPool → Option IpPool
pool_of invalid_cidr = none
pool_of uint32_panic = none
pool_of (new_pool p) = some p

-- Subnet reports the length of the mask of the IPv4 network that the pool was made from, for every
-- mask of at most 32 bits.
pub subnet-new_ip_pool :
    (network ones : ℕ)
    → ones ≤ 32
    → Option.map subnet (pool_of (new_ip_pool (some (ipv4 network ones)))) ≡ some ones
unfolding new_ip_pool subnet reports
subnet-new_ip_pool network ones h =
    let table = reports_upto_lem 32 (32 - ones) (omega arith) reports_upto_all in
    ap some (omega (arith, (==_iff _ (32 - (32 - ones))).0 table))

first_allocation :
    (network last : ℕ) (pod_uid : Bytes)
    → let p : IpPool = record { base = network; next = 2; max = last; in_use = [] } in
      allocate p pod_uid ≡ some (take_offset p pod_uid 2)
unfolding allocate allocate_loop lookup
first_allocation network last pod_uid = let e : last + 1 ≡ suc last = omega arith in rw e refl

small_mask : (ones : ℕ) → 31 ≤ ones → ones ≤ 32 → 2 ^ (32 - ones) ≤ 2
small_mask ones lo hi =
    let two : (32 - ones ≡ 0) ⊎ (32 - ones ≡ 1) = omega arith in
    elim two [ inl e ↦ rw e (omega arith) | inr e ↦ rw e (omega arith) ]

-- In a subnet of one or two addresses the pool hands out an address that lies outside: the first
-- allocation gives the offset 2.
pub allocate_outside :
    (network ones : ℕ) (pod_uid : Bytes) (p : IpPool)
    → 31 ≤ ones
    → ones ≤ 32
    → new_ip_pool (some (ipv4 network ones)) ≡ new_pool p
    → (2 ^ (32 - ones) ≤ 2)
      × (Option.map (λ (r : IpPool × Allocation). r.1) (allocate p pod_uid)
          ≡ some (allocated (u32 (network + 2))))
unfolding new_ip_pool take_offset
allocate_outside network ones pod_uid p lo hi e =
    let same : record { base = network; next = 2; max = last_offset (32 - ones); in_use = [] } ≡ p =
      cc in
    (
      small_mask ones lo hi,
      subst
          (λ (q : IpPool).
            Option.map (λ (r : IpPool × Allocation). r.1) (allocate q pod_uid)
            ≡ some (allocated (u32 (network + 2))))
          same (rw (first_allocation network (last_offset (32 - ones)) pod_uid) refl),
    )
