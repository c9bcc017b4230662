-- ===== src/Cgroup/Examples.antt =====
-- internal/cgroup/weight.go: half a core and one core.
use periapsis.Base.{◌≤◌, ◌≡◌, refl, arith}
use periapsis.Cgroup.{milli_cpu_to_cpu_weight}
use periapsis.Cgroup.Bounds.{milli_cpu_to_cpu_weight-bounds}

one_core : milli_cpu_to_cpu_weight 1000 ≡ 39
unfolding milli_cpu_to_cpu_weight
one_core = refl

milli_cpu_to_cpu_weight-bounds_example :
    (1 ≤ milli_cpu_to_cpu_weight 500) × (milli_cpu_to_cpu_weight 500 ≤ 10000)
milli_cpu_to_cpu_weight-bounds_example =
    milli_cpu_to_cpu_weight-bounds 500 (omega arith) (omega arith)
