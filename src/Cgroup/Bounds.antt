-- ===== src/Cgroup/Bounds.antt =====
-- internal/cgroup/weight.go: the weight is one that systemd takes, and grows with the request.
use periapsis.Base.{ℕ, ◌*◌, ◌/◌, ◌%◌, ◌^◌, ◌≤◌, ◌<◌, ◌≡◌, arith}
use periapsis.Cgroup.{
  milli_cpu_to_cpu_weight, min_cpu_shares, max_cpu_shares, sdiv64, smin64, smax64,
}

-- The shares: the request as a share of 1024, within the bounds.
clamped : ℕ → ℕ
clamped x = smin64 (smax64 x min_cpu_shares) max_cpu_shares

clamped-bounds : (x : ℕ) → x < 2 ^ 64 → (2 ≤ clamped x) × (clamped x ≤ 262144)
unfolding clamped
clamped-bounds x h = (ground arith, ground arith)

-- For every positive int64, even where the product with 1024 wraps, the weight is between 1 and
-- 10000.
pub milli_cpu_to_cpu_weight-bounds :
    (m : ℕ)
    → 1 ≤ m
    → m < 2 ^ 63
    → (1 ≤ milli_cpu_to_cpu_weight m) × (milli_cpu_to_cpu_weight m ≤ 10000)
unfolding milli_cpu_to_cpu_weight clamped
milli_cpu_to_cpu_weight-bounds m lo hi =
    let b = clamped-bounds (sdiv64 (m * 1024 % 2 ^ 64) 1000) (ground arith) in
    (ground (arith, b), ground (arith, b))

clamped_mono : (x y : ℕ) → x ≤ y → y < 2 ^ 63 → clamped x ≤ clamped y
unfolding clamped
clamped_mono x y h small = ground arith

-- A larger request never gets a smaller weight, for requests that are not negative and below 2 ^
-- 53, where the product with 1024 does not wrap.
pub milli_cpu_to_cpu_weight_mono :
    (m n : ℕ) → m ≤ n → n < 2 ^ 53 → milli_cpu_to_cpu_weight m ≤ milli_cpu_to_cpu_weight n
unfolding milli_cpu_to_cpu_weight clamped
milli_cpu_to_cpu_weight_mono m n h small =
    let x : sdiv64 (m * 1024 % 2 ^ 64) 1000 ≡ m * 1024 / 1000 = ground arith in
    let y : sdiv64 (n * 1024 % 2 ^ 64) 1000 ≡ n * 1024 / 1000 = ground arith in
    let c = clamped_mono (m * 1024 / 1000) (n * 1024 / 1000) (omega arith) (omega arith) in
    let b = clamped-bounds (m * 1024 / 1000) (omega arith) in rw (x, y) (ground (arith, c, b))
