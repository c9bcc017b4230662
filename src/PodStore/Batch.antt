-- ===== src/PodStore/Batch.antt =====
-- node/podstore.go: a batch does what its entries do one after the other.
use periapsis.Base.{
  ℕ, ◌^◌, ◌<◌, ◌≡◌, refl, ap, ◌∙◌, inl, inr, Bytes, List, [], ◌∷◌, lookup, delete, bytes_eq, Int64,
  add64, sub64, arith, Option-cases,
}
use periapsis.PodStore.Types.{full_name, PodStore, pod_resources, trigger_snapshot}
use periapsis.PodStore.Registry.{
  HydratedEntry, hydrated_actor, enter, enter_all, purge_all, register_hydrated,
  register_hydrated_batch, evict_ghost, purge_hydrated,
}

-- RegisterHydrated of each entry in turn.
unfoldable pub register_each : List HydratedEntry → PodStore → PodStore
register_each [] s = s
register_each (e ∷ rest) s = register_each rest (register_hydrated s e.uid e.pod e.ip)

-- EvictGhost of each pod in turn.
unfoldable pub evict_each : List Bytes → PodStore → PodStore
evict_each [] s = s
evict_each (uid ∷ rest) s = evict_each rest (evict_ghost s uid)

-- The counters of an int64.
abbrev pub InWord : PodStore → Type 0
InWord s = (s.used_cpu < 2 ^ 64) × (s.used_mem < 2 ^ 64)

-- The end of RegisterHydratedBatch.
abbrev charged : PodStore × Int64 × Int64 → PodStore
charged (s, cpu, mem) =
    trigger_snapshot (record s { used_cpu = add64 s.used_cpu cpu; used_mem = add64 s.used_mem mem })

abbrev refunded : PodStore × Int64 × Int64 → PodStore
refunded (s, cpu, mem) =
    trigger_snapshot (record s { used_cpu = sub64 s.used_cpu cpu; used_mem = sub64 s.used_mem mem })

add64_assoc : (u a b : ℕ) → add64 u (add64 a b) ≡ add64 (add64 u a) b
add64_assoc u a b = omega arith

sub64-add64 : (u a b : ℕ) → sub64 u (add64 a b) ≡ sub64 (sub64 u a) b
sub64-add64 u a b = omega arith

add64_zero : (u : ℕ) → u < 2 ^ 64 → add64 u 0 ≡ u
add64_zero u h = omega (arith, h)

sub64_zero : (u : ℕ) → u < 2 ^ 64 → sub64 u 0 ≡ u
sub64_zero u h = omega (arith, h)

with_counts :
    (s : PodStore) {a b c d : Int64}
    → a ≡ b
    → c ≡ d
    → ◌≡◌ {A = PodStore}
        (record s { used_cpu = a; used_mem = c })
        (record s { used_cpu = b; used_mem = d })
with_counts s p q = cc (p, q)

enter_all-charged :
    (entries : List HydratedEntry) (s : PodStore) (cpu mem : Int64)
    → charged (enter_all entries s cpu mem) ≡ register_each entries (charged (s, cpu, mem))
unfolding enter_all register_each register_hydrated
enter_all-charged [] s cpu mem = refl
enter_all-charged (e ∷ rest) s cpu mem =
    enter_all-charged rest (enter s e.uid (hydrated_actor e.pod e.ip))
      (add64 cpu (pod_resources e.pod).0) (add64 mem (pod_resources e.pod).1)
    ∙ ap (register_each rest) (
        with_counts (trigger_snapshot (enter s e.uid (hydrated_actor e.pod e.ip)))
          (add64_assoc s.used_cpu cpu (pod_resources e.pod).0)
          (add64_assoc s.used_mem mem (pod_resources e.pod).1))

-- RegisterHydratedBatch leaves the store that RegisterHydrated of each entry in turn leaves, with
-- a signal to the aggregator even for an empty batch, if the counters are int64s.
pub register_hydrated_batch-register_each :
    (s : PodStore) (entries : List HydratedEntry)
    → InWord s
    → register_hydrated_batch s entries ≡ register_each entries (trigger_snapshot s)
unfolding register_hydrated_batch
register_hydrated_batch-register_each s entries (small_cpu, small_mem) =
    enter_all-charged entries s 0 0
    ∙ rw (add64_zero s.used_cpu small_cpu, add64_zero s.used_mem small_mem) refl

purge_all-refunded :
    (uids : List Bytes) (s : PodStore) (cpu mem : Int64)
    → refunded (purge_all uids s cpu mem) ≡ evict_each uids (refunded (s, cpu, mem))
unfolding purge_all evict_each evict_ghost
purge_all-refunded [] s cpu mem = refl
purge_all-refunded (uid ∷ rest) s cpu mem = elim (Option-cases (lookup uid s.pods)) [
  | inl e ↦ rw (e, purge_all, evict_ghost) (purge_all-refunded rest s cpu mem)
  | inr (ps, e) ↦
      let out : PodStore = record s {
        pods = delete uid s.pods;
        name_index = delete (full_name ps.pod) s.name_index;
      } in
      rw (e, purge_all, evict_ghost)
        (purge_all-refunded rest out (add64 cpu (pod_resources ps.pod).0)
            (add64 mem (pod_resources ps.pod).1)
          ∙ ap (evict_each rest) (
              with_counts (trigger_snapshot out)
                (sub64-add64 s.used_cpu cpu (pod_resources ps.pod).0)
                (sub64-add64 s.used_mem mem (pod_resources ps.pod).1)))
]

-- PurgeHydrated leaves the store that EvictGhost of each UID in turn leaves, with a signal to the
-- aggregator even for an empty list, if the counters are int64s.
pub purge_hydrated-evict_each :
    (s : PodStore) (uids : List Bytes)
    → InWord s
    → purge_hydrated s uids ≡ evict_each uids (trigger_snapshot s)
unfolding purge_hydrated
purge_hydrated-evict_each s uids (small_cpu, small_mem) =
    purge_all-refunded uids s 0 0
    ∙ rw (sub64_zero s.used_cpu small_cpu, sub64_zero s.used_mem small_mem) refl
