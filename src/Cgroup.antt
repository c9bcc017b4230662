-- ===== src/Cgroup.antt =====
-- internal/cgroup/weight.go: the CPU weight of a systemd unit.
pub mod Bounds
pub mod Examples
use periapsis.Base.{
  ℕ, ◌+◌, ◌-◌, ◌*◌, ◌/◌, ◌%◌, ◌^◌, ◌==◌, Bool, ◌||◌, leb, ltb, slt64, if◌then◌else◌,
}

abbrev pub min_cpu_shares : ℕ
min_cpu_shares = 2

abbrev pub max_cpu_shares : ℕ
max_cpu_shares = 262144

-- `x / d` on int64, toward 0, for a positive d.
abbrev pub sdiv64 : ℕ → ℕ → ℕ
sdiv64 x d = if ltb x (2 ^ 63) then x / d else (2 ^ 64 - (2 ^ 64 - x) / d) % 2 ^ 64

-- min and max on int64
abbrev pub smin64 : ℕ → ℕ → ℕ
smin64 a b = if slt64 b a then b else a

abbrev pub smax64 : ℕ → ℕ → ℕ
smax64 a b = if slt64 a b then b else a

-- MilliCPUToCPUWeight, from the bit pattern of an int64. The shares are between 2 and 262144, so
-- what follows the clamp does not wrap.
unfoldable pub milli_cpu_to_cpu_weight : ℕ → ℕ
milli_cpu_to_cpu_weight milli_cpu =
    let shares =
      smin64 (smax64 (sdiv64 (milli_cpu * 1024 % 2 ^ 64) 1000) min_cpu_shares) max_cpu_shares in
    if (milli_cpu == 0) || leb (2 ^ 63) milli_cpu
    then 0
    else 1 + (shares - min_cpu_shares) * 9999 / (max_cpu_shares - min_cpu_shares)
