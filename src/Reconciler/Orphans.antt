-- ===== src/Reconciler/Orphans.antt =====
-- node/reconciler.go: which machines are stopped and which pods synced, and the names of ghosts.
use periapsis.Base.{
  ℕ, ◌==◌, ==_iff, Bytes, bytes, true, false, some, List, [], ◌∷◌, ◌++◌, All, Any, here, there,
  if◌then◌else◌, ◌≡◌, ◌≢◌, ◌↔◌, ◌⊎◌, refl, inl, inr, Bool-cases,
}
use periapsis.PodStore.Types.{slash}
use periapsis.Reconciler.{
  Call, request_sync, teardown, Round, is_orphan, is_lost, clean_orphans, cut_slash, split_ns_name,
}
use periapsis.Reconciler.Rounds.{
  IsOrphan, IsLost, is_orphan_iff, is_lost_iff, Stops, Syncs, teardown-Stops, teardown-Syncs,
}

-- A predicate of the calls and one of the rounds, of which the calls are to be told.
module _ (P : Call → Type 0) (Q : Round → Type 0) where
  -- One round does to P what it does to Q.
  abbrev Keeps : Round → Type 0
  Keeps r =
      (on : List Call)
      → Any P (
          if is_lost r
          then request_sync r.machine.namespace r.machine.name ∷ on
          else if is_orphan r
          then teardown r.at_teardown r.machine ++ on
          else on)
        ↔ (Q r ⊎ Any P on)

  clean_orphans-Any :
      ((r : Round) → Keeps r) → (rounds : List Round) → Any P (clean_orphans rounds) ↔ Any Q rounds
  unfolding clean_orphans
  clean_orphans-Any one [] = (λ a. elim a [ ], λ a. elim a [ ])
  clean_orphans-Any one (r ∷ rounds) =
      let later = clean_orphans-Any one rounds in
      let now = one r (clean_orphans rounds) in
      (
        λ a. elim (now.0 a) [ inl q ↦ here q | inr b ↦ there (later.0 b) ],
        λ a. elim a [ here q ↦ now.1 (inl q) | there b ↦ now.1 (inr (later.1 b)) ],
      )

stop-Keeps : (uid c : Bytes) (r : Round) → Keeps (Stops uid c) (IsOrphan uid c) r
stop-Keeps uid c r on = elim (Bool-cases (is_lost r)) [
  | inl lost ↦
      let shown = ((is_lost_iff r).0 lost).1 in
      rw lost (
        λ a. elim a [ here e ↦ cc e | there b ↦ inr b ],
        λ t. elim t [ inl (_, _, _, hidden) ↦ absurd (hidden shown) | inr b ↦ there b ],
      )
  | inr kept ↦ elim (Bool-cases (is_orphan r)) [
    | inl orphan ↦
        let (unknown, hidden) = (is_orphan_iff r).0 orphan in
        let torn = teardown-Stops r.at_teardown r.machine on {uid = uid} {c = c} in
        rw (kept, orphan)
          (
            λ a. elim (torn.0 a) [ inl (e, f) ↦ inl (e, f, unknown, hidden) | inr b ↦ inr b ],
            λ t. elim t [ inl (e, f, _, _) ↦ torn.1 (inl (e, f)) | inr b ↦ torn.1 (inr b) ],
          )
    | inr spared ↦
        rw (kept, spared)
          (
            λ a. inr a,
            λ t. elim t [
              | inl (_, _, unknown, hidden) ↦ cc (spared, (is_orphan_iff r).1 (unknown, hidden))
              | inr b ↦ b
            ],
          )
  ]
]

sync-Keeps : (ns n : Bytes) (r : Round) → Keeps (Syncs ns n) (IsLost ns n) r
sync-Keeps ns n r on = elim (Bool-cases (is_lost r)) [
  | inl lost ↦
      let (unknown, shown) = (is_lost_iff r).0 lost in
      rw lost (
        λ a. elim a [ here e ↦ inl (cc e, cc e, unknown, shown) | there b ↦ inr b ],
        λ t. elim t [ inl (e, f, _, _) ↦ here (cc (e, f)) | inr b ↦ there b ],
      )
  | inr kept ↦
      let not_lost : IsLost ns n r → is_lost r ≡ true =
        λ (_, _, unknown, shown). (is_lost_iff r).1 (unknown, shown) in
      elim (Bool-cases (is_orphan r)) [
        | inl orphan ↦
            let torn = teardown-Syncs r.at_teardown r.machine on {ns = ns} {n = n} in
            rw (kept, orphan)
              (
                λ a. inr (torn.0 a),
                λ t. elim t [ inl l ↦ cc (kept, not_lost l) | inr b ↦ torn.1 b ],
              )
        | inr spared ↦
            rw (kept, spared)
              (λ a. inr a, λ t. elim t [ inl l ↦ cc (kept, not_lost l) | inr b ↦ b ])
      ]
]

-- Whatever others write to the pod store between the reads of cleanOrphans: it stops a machine
-- exactly if in the round of one with that UID and container the store had no worker on its pod,
-- then did not know it, and the list of pods was not read or does not have it; it asks for a sync
-- of a pod exactly if the same reads found nothing and the list has the pod.
pub clean_orphans-calls :
    (rounds : List Round) (a b : Bytes)
    → (Any (Stops a b) (clean_orphans rounds) ↔ Any (IsOrphan a b) rounds)
      × (Any (Syncs a b) (clean_orphans rounds) ↔ Any (IsLost a b) rounds)
clean_orphans-calls rounds a b = (
  clean_orphans-Any (Stops a b) (IsOrphan a b) (stop-Keeps a b) rounds,
  clean_orphans-Any (Syncs a b) (IsLost a b) (sync-Keeps a b) rounds,
)

-- A text without a slash.
abbrev pub NoSlash : Bytes → Type 0
NoSlash text = All (λ (b : ℕ). b ≢ b'/') text

cut_slash-slash :
    (namespace name : Bytes)
    → NoSlash namespace
    → cut_slash (slash namespace name) ≡ some (namespace, name)
unfolding cut_slash bytes
cut_slash-slash [] name h = refl
cut_slash-slash (b ∷ namespace) name (other, h) =
    let not_slash : (b == b'/') ≡ false = elim (Bool-cases (b == b'/')) [
      | inl e ↦ absurd (other ((==_iff b b'/').0 e))
      | inr e ↦ e
    ] in
    rw (not_slash, cut_slash-slash namespace name h) refl

-- splitNsName recovers the namespace and the name that PodUIDs has put together, if the namespace
-- has no slash.
pub split_ns_name-slash :
    (namespace name : Bytes)
    → NoSlash namespace
    → split_ns_name (slash namespace name) ≡ (namespace, name)
unfolding split_ns_name
split_ns_name-slash namespace name h = rw (cut_slash-slash namespace name h, split_ns_name) refl
