-- ===== src/PodStore/Edits.antt =====
-- node/podstore.go: the ways in which the methods change the registry, the counters and the snapshot.
use periapsis.Base.{
  ℕ, ◌%◌, ◌^◌, ◌≡◌, ◌⊎◌, inl, inr, refl, sym, ap, ◌∙◌, Bytes, str_eq, str_eq_iff, true, Option,
  none, some, Map, lookup, insert, delete, bytes_eq, Int32, total, IsDistinct, lookup-insert,
  Bool-cases,
}
use periapsis.PodStore.Types.{
  full_name, PodActor, PodStore, CompletedEntry, pod_resources, trigger_snapshot, new_pod_store,
}
use periapsis.PodStore.Registry.{put_actor, charge, refund, enter, is_stub}
use periapsis.PodStore.Queries.{snapshot_of, snapshots, aggregate, load_snapshot}

-- A change of the store. What a write to a pod's state keeps is said by the hypotheses: the name and
-- the resources of the pod, and, where no signal follows, what a snapshot shows.
pub data Edit : PodStore → PodStore → Type 0 where
  unchanged : {s : PodStore} → Edit s s
  wrote :
      {s : PodStore} (uid : Bytes) {ps : PodActor} (next : PodActor)
      → lookup uid s.pods ≡ some ps
      → full_name next.pod ≡ full_name ps.pod
      → pod_resources next.pod ≡ pod_resources ps.pod
      → Edit s (trigger_snapshot (put_actor s uid next))
  wrote_quietly :
      {s : PodStore} (uid : Bytes) {ps : PodActor} (next : PodActor)
      → lookup uid s.pods ≡ some ps
      → full_name next.pod ≡ full_name ps.pod
      → pod_resources next.pod ≡ pod_resources ps.pod
      → snapshot_of uid next ≡ snapshot_of uid ps
      → next.hydrated ≡ ps.hydrated
      → Edit s (put_actor s uid next)
  filled :
      {s : PodStore} (uid : Bytes) {ps : PodActor} (next : PodActor)
      → lookup uid s.pods ≡ some ps
      → full_name next.pod ≡ full_name ps.pod
      → is_stub ps ≡ true
      → Edit s (trigger_snapshot (charge (put_actor s uid next) next.pod))
  entered :
      {s : PodStore} (uid : Bytes) (ps : PodActor)
      → lookup uid s.pods ≡ none
      → Edit s (trigger_snapshot (charge (enter s uid ps) ps.pod))
  removed :
      {s : PodStore} (uid : Bytes) (ps : PodActor) (key : Bytes)
      → lookup uid s.pods ≡ some ps
      → key ≡ full_name ps.pod
      → Edit s (
          trigger_snapshot (
            refund
              (record s { pods = delete uid s.pods; name_index = delete key s.name_index })
              ps.pod))
  recorded :
      {s : PodStore} (n : Int32) (completed : Map Bytes CompletedEntry)
      → Edit s (record s { deleting_count = n; completed = completed })
  signalled : {s : PodStore} → Edit s (trigger_snapshot s)
  aggregated : {s : PodStore} → Edit s (aggregate s)
  both : {s t u : PodStore} → Edit s t → Edit t u → Edit s u

abbrev pub cpu_of : Bytes → PodActor → ℕ
cpu_of _ ps = (pod_resources ps.pod).0

abbrev pub mem_of : Bytes → PodActor → ℕ
mem_of _ ps = (pod_resources ps.pod).1

-- The index entry of `key` leads to a pod of that name.
abbrev pub Leads : Map Bytes PodActor → Bytes → Bytes → Type 0
Leads pods key uid = (ps : PodActor) × (lookup uid pods ≡ some ps) × (full_name ps.pod ≡ key)

-- The counters are the sums of what the pods request (as int64), each entry of the index leads to a
-- pod of that name, and the snapshot that readers get shows the pods as they are, unless a signal for
-- a new one is pending.
pub record IsAccounted (s : PodStore) : Type 0 where
  pub cpu : s.used_cpu ≡ total cpu_of s.pods % 2 ^ 64
  pub mem : s.used_mem ≡ total mem_of s.pods % 2 ^ 64
  pub distinct : IsDistinct s.pods
  pub index : (key uid : Bytes) → lookup key s.name_index ≡ some uid → Leads s.pods key uid
  pub replica : (s.triggered ≡ true) ⊎ (load_snapshot s ≡ snapshots s.pods)

pub new_pod_store-IsAccounted : IsAccounted new_pod_store
unfolding new_pod_store load_snapshot snapshots lookup
new_pod_store-IsAccounted = record {
  cpu = refl;
  mem = refl;
  distinct = tt;
  index = λ key uid e. cc;
  replica = inr refl;
}

-- A map with one value replaced by another of the same name.
pub Leads-insert :
    (pods : Map Bytes PodActor) (uid : Bytes) {ps : PodActor} (next : PodActor) (key u : Bytes)
    → lookup uid pods ≡ some ps
    → full_name next.pod ≡ full_name ps.pod
    → Leads pods key u
    → Leads (insert uid next pods) key u
Leads-insert pods uid {ps} next key u held same (ps0, at, named) =
    elim (Bool-cases (str_eq uid u)) [
      | inl e ↦
          let uid_u = (str_eq_iff uid u).0 e in
          let both_at : ◌≡◌ {A = Option PodActor} (some ps) (some ps0) =
            sym held ∙ rw (← uid_u) at at in
          let ps_ps0 : ps ≡ ps0 = cc in
          (
            next,
            rw e at (lookup-insert uid u next pods),
            same ∙ ap (λ (p : PodActor). full_name p.pod) ps_ps0 ∙ named,
          )
      | inr e ↦ (ps0, (rw e at (lookup-insert uid u next pods)) ∙ at, named)
    ]
