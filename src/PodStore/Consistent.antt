-- ===== src/PodStore/Consistent.antt =====
-- node/podstore.go: every edit keeps the counters, the index and the snapshot right.
use periapsis.Base.{
  ℕ, ◌%◌, ◌^◌, ◌≡◌, inl, inr, refl, sym, ap, ◌∙◌, Bytes, str_eq, str_eq_iff, true, Option, none,
  some, List, [], ◌∷◌, length, ==_iff, Map, lookup, insert, delete, bytes_eq, arith, total,
  total-insert_new, total-insert, total-delete, insert-IsDistinct, delete-IsDistinct, lookup-insert,
  lookup-delete, Bool-cases, if_cases,
}
use periapsis.PodStore.Types.{
  full_name, PodActor, PodStore, PodContainer, pod_resources, add_resources,
}
use periapsis.PodStore.Registry.{is_stub}
use periapsis.PodStore.Queries.{snapshot_of, snapshots, aggregate, load_snapshot}
use periapsis.PodStore.Edits.{
  Edit, unchanged, wrote, wrote_quietly, filled, entered, removed, recorded, signalled, aggregated,
  both, cpu_of, mem_of, Leads, Leads-insert, IsAccounted,
}

-- A write that changes nothing of what a snapshot shows.
snapshots-insert :
    (pods : Map Bytes PodActor) (uid : Bytes) {ps : PodActor} (next : PodActor)
    → lookup uid pods ≡ some ps
    → snapshot_of uid next ≡ snapshot_of uid ps
    → next.hydrated ≡ ps.hydrated
    → snapshots (insert uid next pods) ≡ snapshots pods
unfolding snapshots insert lookup
snapshots-insert [] uid next held shown same = cc
snapshots-insert ((u, p) ∷ m) uid {ps} next held shown same = elim (Bool-cases (str_eq u uid)) [
  | inl e ↦
      let found : ◌≡◌ {A = Option PodActor} (some p) (some ps) = rw e at held in
      let p_ps : p ≡ ps = cc in
      let u_uid = (str_eq_iff u uid).0 e in
      let shown' : snapshot_of uid next ≡ snapshot_of u p = cc in
      let same' : next.hydrated ≡ p.hydrated = cc in rw (e, shown', same') refl
  | inr e ↦
      let held' : lookup uid m ≡ some ps = rw e at held in
      rw (e, snapshots-insert m uid next held' shown same) refl
]

no_resources : (cs : List PodContainer) → length cs ≡ 0 → add_resources cs 0 0 ≡ (0, 0)
unfolding add_resources
no_resources [] e = refl
no_resources (c ∷ cs) e = absurd (omega (arith, e))

-- A pod without containers requests nothing.
stub_resources : (ps : PodActor) → is_stub ps ≡ true → pod_resources ps.pod ≡ (0, 0)
unfolding pod_resources
stub_resources ps h = no_resources ps.pod.containers ((==_iff _ _).0 h)

-- An entry of the index, once a pod that was not there has come in.
Leads-entered :
    (pods : Map Bytes PodActor) (index : Map Bytes Bytes) (uid : Bytes) (ps : PodActor)
    (key u : Bytes)
    → lookup uid pods ≡ none
    → ((k v : Bytes) → lookup k index ≡ some v → Leads pods k v)
    → lookup key (insert (full_name ps.pod) uid index) ≡ some u
    → Leads (insert uid ps pods) key u
Leads-entered pods index uid ps key u absent all e =
    elim (Bool-cases (str_eq (full_name ps.pod) key)) [
      | inl own ↦
          let name_key = (str_eq_iff (full_name ps.pod) key).0 own in
          let found : ◌≡◌ {A = Option Bytes} (some uid) (some u) =
            sym (rw own at (lookup-insert (full_name ps.pod) key uid index)) ∙ e in
          let uid_u : uid ≡ u = cc in
          (ps, ground (arith, lookup-insert uid u ps pods, uid_u, str_eq_iff uid u), name_key)
      | inr other ↦
          let old : lookup key index ≡ some u =
            sym (rw other at (lookup-insert (full_name ps.pod) key uid index)) ∙ e in
          let (ps0, at, named) = all key u old in
          elim (Bool-cases (str_eq uid u)) [
            | inl same ↦
                let uid_u = (str_eq_iff uid u).0 same in
                let gone : lookup u pods ≡ none = rw uid_u at absent in cc (gone, at)
            | inr differs ↦ (ps0, (rw differs at (lookup-insert uid u ps pods)) ∙ at, named)
          ]
    ]

-- An entry of the index, once a pod has gone, with the entry of its name.
Leads-removed :
    (pods : Map Bytes PodActor) (index : Map Bytes Bytes) (uid : Bytes) (ps : PodActor)
    (name key u : Bytes)
    → lookup uid pods ≡ some ps
    → name ≡ full_name ps.pod
    → ((k v : Bytes) → lookup k index ≡ some v → Leads pods k v)
    → lookup key (delete name index) ≡ some u
    → Leads (delete uid pods) key u
Leads-removed pods index uid ps name key u held own all e = elim (Bool-cases (str_eq name key)) [
  | inl same ↦ cc (rw same at (lookup-delete name key index), e)
  | inr other ↦
      let old : lookup key index ≡ some u = sym (rw other at (lookup-delete name key index)) ∙ e in
      let (ps0, at, named) = all key u old in
      elim (Bool-cases (str_eq uid u)) [
        | inl same ↦
            let uid_u = (str_eq_iff uid u).0 same in
            let at' : lookup uid pods ≡ some ps0 = rw (← uid_u) at at in
            let both_at : ◌≡◌ {A = Option PodActor} (some ps) (some ps0) = sym held ∙ at' in
            let ps_ps0 : ps ≡ ps0 = cc in
            let key_name : name ≡ key =
              own ∙ ap (λ (p : PodActor). full_name p.pod) ps_ps0 ∙ named in
            cc ((str_eq_iff name key).1 key_name, other)
        | inr differs ↦ (ps0, (rw differs at (lookup-delete uid u pods)) ∙ at, named)
      ]
]

-- A sum whose term is replaced by one of the same weight.
total_same :
    (w : Bytes → PodActor → ℕ) (uid : Bytes) (next : PodActor) (pods : Map Bytes PodActor)
    {ps : PodActor}
    → lookup uid pods ≡ some ps
    → w uid next ≡ w uid ps
    → total w (insert uid next pods) ≡ total w pods
total_same w uid next pods held same = omega (arith, total-insert w uid next pods held, same)

aggregate-IsAccounted : (s : PodStore) → IsAccounted s → IsAccounted (aggregate s)
unfolding aggregate load_snapshot
aggregate-IsAccounted s c =
    if_cases IsAccounted s.triggered
      (λ _. record {
        cpu = c.cpu;
        mem = c.mem;
        distinct = c.distinct;
        index = c.index;
        replica = inr refl;
      })
      (λ _. c)

-- Every edit keeps a consistent store consistent.
pub Edit-IsAccounted : {s t : PodStore} → Edit s t → IsAccounted s → IsAccounted t
unfolding load_snapshot
Edit-IsAccounted unchanged c = c
Edit-IsAccounted (wrote {s} uid {ps} next held named same) c = record {
  cpu =
      c.cpu
      ∙ ap (λ n. n % 2 ^ 64) (sym (total_same cpu_of uid next s.pods held (ap (λ r. r.0) same)));
  mem =
      c.mem
      ∙ ap (λ n. n % 2 ^ 64) (sym (total_same mem_of uid next s.pods held (ap (λ r. r.1) same)));
  distinct = insert-IsDistinct uid next s.pods c.distinct;
  index = λ key u e. Leads-insert s.pods uid next key u held named (c.index key u e);
  replica = inl refl;
}
Edit-IsAccounted (wrote_quietly {s} uid {ps} next held named same shown hydrated) c = record {
  cpu =
      c.cpu
      ∙ ap (λ n. n % 2 ^ 64) (sym (total_same cpu_of uid next s.pods held (ap (λ r. r.0) same)));
  mem =
      c.mem
      ∙ ap (λ n. n % 2 ^ 64) (sym (total_same mem_of uid next s.pods held (ap (λ r. r.1) same)));
  distinct = insert-IsDistinct uid next s.pods c.distinct;
  index = λ key u e. Leads-insert s.pods uid next key u held named (c.index key u e);
  replica = elim c.replica [
    | inl pending ↦ inl pending
    | inr fresh ↦ inr (fresh ∙ sym (snapshots-insert s.pods uid next held shown hydrated))
  ];
}
Edit-IsAccounted (filled {s} uid {ps} next held named stub) c =
    let none_before = stub_resources ps stub in
    record {
      cpu =
          omega (arith, c.cpu, total-insert cpu_of uid next s.pods held, ap (λ r. r.0) none_before);
      mem =
          omega (arith, c.mem, total-insert mem_of uid next s.pods held, ap (λ r. r.1) none_before);
      distinct = insert-IsDistinct uid next s.pods c.distinct;
      index = λ key u e. Leads-insert s.pods uid next key u held named (c.index key u e);
      replica = inl refl;
    }
Edit-IsAccounted (entered {s} uid ps absent) c = record {
  cpu = omega (arith, c.cpu, total-insert_new cpu_of uid ps s.pods absent);
  mem = omega (arith, c.mem, total-insert_new mem_of uid ps s.pods absent);
  distinct = insert-IsDistinct uid ps s.pods c.distinct;
  index = λ key u e. Leads-entered s.pods s.name_index uid ps key u absent c.index e;
  replica = inl refl;
}
Edit-IsAccounted (removed {s} uid ps key held own) c = record {
  cpu = omega (arith, c.cpu, total-delete cpu_of uid s.pods c.distinct held);
  mem = omega (arith, c.mem, total-delete mem_of uid s.pods c.distinct held);
  distinct = delete-IsDistinct uid s.pods c.distinct;
  index = λ k u e. Leads-removed s.pods s.name_index uid ps key k u held own c.index e;
  replica = inl refl;
}
Edit-IsAccounted (recorded {s} n completed) c = record {
  cpu = c.cpu;
  mem = c.mem;
  distinct = c.distinct;
  index = c.index;
  replica = c.replica;
}
Edit-IsAccounted (signalled {s}) c = record {
  cpu = c.cpu;
  mem = c.mem;
  distinct = c.distinct;
  index = c.index;
  replica = inl refl;
}
Edit-IsAccounted (aggregated {s}) c = aggregate-IsAccounted s c
Edit-IsAccounted (both e f) c = Edit-IsAccounted f (Edit-IsAccounted e c)
