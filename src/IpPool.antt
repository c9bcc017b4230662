-- ===== src/IpPool.antt =====
-- internal/network/ippool.go: the pool of host addresses of a subnet.
pub mod Cycle
pub mod Allocate
pub mod Subnet
pub mod Examples
use periapsis.Base.{
  ℕ, zero, suc, ◌+◌, ◌-◌, ◌*◌, ◌/◌, ◌%◌, ◌^◌, Bytes, str_eq, Bool, true, false, Option, none, some,
  List, [], ◌∷◌, ◌==◌, ltb, if◌then◌else◌, Map, lookup, insert, delete, nat_eq,
}

-- The fields are uint32; `in_use` maps an offset to the UID of a pod.
pub record IpPool : Type 0 where
  pub base : ℕ
  pub next : ℕ
  pub max : ℕ
  pub in_use : Map ℕ Bytes

abbrev pub u32 : ℕ → ℕ
u32 n = n % 2 ^ 32

-- `uint32(1<<hostBits) - 2`: the shift is one of a uint32.
unfoldable pub last_offset : ℕ → ℕ
last_offset host_bits = u32 (u32 (2 ^ host_bits) + 2 ^ 32 - 2)

-- The network that net.ParseCIDR returns: the address in its four-byte form, if To4 gives one, and what
-- Mask.Size gives.
pub record Cidr : Type 0 where
  pub to4 : Option ℕ
  pub ones : ℕ
  pub bits : ℕ

abbrev pub ipv4 : ℕ → ℕ → Cidr
ipv4 address ones = record { to4 = some address; ones = ones; bits = 32 }

-- How newIPPool ends: `uint32_panic` is BigEndian.Uint32 of the nil that To4 gives for an IPv6 network.
pub data NewPool : Type 0 where
  invalid_cidr uint32_panic : NewPool
  new_pool : IpPool → NewPool

-- newIPPool, given what net.ParseCIDR returns: an error or a network.
unfoldable pub new_ip_pool : Option Cidr → NewPool
new_ip_pool none = invalid_cidr
new_ip_pool (some cidr) = elim cidr.to4 [
  | none ↦ uint32_panic
  | some address ↦
      new_pool (record {
        base = address;
        next = 2;
        max = last_offset (cidr.bits - cidr.ones);
        in_use = [];
      })
]

-- `p.next++; if p.next > p.max { p.next = 2 }`
unfoldable pub advance : IpPool → ℕ → ℕ
advance p next = let n = u32 (next + 1) in if ltb p.max n then 2 else n

-- What Allocate returns: an address (base plus offset), or the error "IP pool exhausted".
pub data Allocation : Type 0 where
  allocated : ℕ → Allocation
  exhausted : Allocation

-- One round of the loop, at the value of `next`: the end of the call, or the next value to try.
unfoldable pub take_offset : IpPool → Bytes → ℕ → IpPool × Allocation
take_offset p pod_uid offset = (
  record p { next = advance p offset; in_use = insert offset pod_uid p.in_use },
  allocated (u32 (p.base + offset)),
)

-- The loop of Allocate, on fuel; `none` means that the fuel ran out.
unfoldable pub allocate_loop : ℕ → IpPool → Bytes → ℕ → ℕ → Option (IpPool × Allocation)
allocate_loop zero p pod_uid start next = none
allocate_loop (suc fuel) p pod_uid start next =
    let rest = allocate_loop fuel p pod_uid start (advance p next) in
    elim (lookup next p.in_use) [
      | none ↦ some (take_offset p pod_uid next)
      | some _ ↦
          if advance p next == start
          then some (record p { next = advance p next }, exhausted)
          else rest
    ]

-- Allocate: the loop makes at most `max + 1` rounds.
unfoldable pub allocate : IpPool → Bytes → Option (IpPool × Allocation)
allocate p pod_uid = allocate_loop (p.max + 1) p pod_uid p.next p.next

-- The loop of Release over the map: the first offset met that belongs to the pod.
unfoldable pub offset_of : Bytes → Map ℕ Bytes → Option ℕ
offset_of pod_uid [] = none
offset_of pod_uid ((offset, uid) ∷ rest) =
    if str_eq uid pod_uid then some offset else offset_of pod_uid rest

-- Release
unfoldable pub release : IpPool → Bytes → IpPool
release p pod_uid = elim (offset_of pod_uid p.in_use) [
  | none ↦ p
  | some offset ↦ record p { in_use = delete offset p.in_use }
]

-- Gateway
unfoldable pub gateway : IpPool → ℕ
gateway p = u32 (p.base + 1)

-- The loop of bitLen: a uint32 has at most 32 bits.
unfoldable pub bit_len_loop : ℕ → ℕ → ℕ → ℕ
bit_len_loop zero n l = l
bit_len_loop (suc fuel) n l =
    let rest = bit_len_loop fuel (n / 2) (l + 1) in if n == 0 then l else rest

-- bitLen
unfoldable pub bit_len : ℕ → ℕ
bit_len n = bit_len_loop 33 n 0

-- Subnet, without the slash.
unfoldable pub subnet : IpPool → ℕ
subnet p = 32 - bit_len (u32 (p.max + 1))
