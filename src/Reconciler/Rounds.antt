-- ===== src/Reconciler/Rounds.antt =====
-- node/reconciler.go: one round of the loop of cleanOrphans, and the calls of teardown.
use periapsis.Base.{
  Bytes, true, false, List, [], ◌∷◌, ◌++◌, Any, here, there, str_eq, str_eq_iff, ◌≡◌, ◌↔◌, ◌⊎◌, inl,
  inr, Bool-cases, arith,
}
use periapsis.PodStore.Types.{PodStore}
use periapsis.PodStore.Queries.{is_in_flight, has_pod}
use periapsis.Reconciler.{
  PodMetadata, Listing, no_lister, list_failed, listed, has_uid, lists, Call, stop_machine,
  request_sync, teardown, Round, is_orphan, is_lost,
}

-- The list of pods was read and has the pod.
abbrev pub Shows : Listing → Bytes → Type 0
Shows no_lister uid = ⊥
Shows list_failed uid = ⊥
Shows (listed uids) uid = Any (λ (u : Bytes). u ≡ uid) uids

-- When it was asked, the store neither had a worker on the pod nor knew it.
abbrev pub IsUnknown : Round → Type 0
IsUnknown r =
    (is_in_flight r.at_in_flight r.machine.uid ≡ false)
    × (has_pod r.at_has_pod r.machine.uid ≡ false)

-- The machine of the round, which is to be stopped; and the pod of its machine, which is to be synced.
abbrev pub IsOrphan : Bytes → Bytes → Round → Type 0
IsOrphan uid container_name r =
    (r.machine.uid ≡ uid)
    × (r.machine.container_name ≡ container_name)
    × IsUnknown r
    × ¬ (Shows r.listing r.machine.uid)

abbrev pub IsLost : Bytes → Bytes → Round → Type 0
IsLost namespace name r =
    (r.machine.namespace ≡ namespace)
    × (r.machine.name ≡ name)
    × IsUnknown r
    × Shows r.listing r.machine.uid

has_uid-Any :
    (uid : Bytes) (uids : List Bytes)
    → (has_uid uid uids ≡ true) ↔ Any (λ (u : Bytes). u ≡ uid) uids
unfolding has_uid
has_uid-Any uid [] = (λ e. cc e, λ a. elim a [ ])
has_uid-Any uid (u ∷ uids) =
    let later = has_uid-Any uid uids in
    let same = str_eq_iff u uid in
    (
      λ e. elim (Bool-cases (str_eq u uid)) [
        | inl is ↦ here (same.0 is)
        | inr other ↦ there (later.0 (ground (arith, e, other)))
      ],
      λ a. elim a [ here e ↦ ground (arith, same.1 e) | there b ↦ ground (arith, later.1 b) ],
    )

lists-Shows : (l : Listing) (uid : Bytes) → (lists l uid ≡ true) ↔ Shows l uid
lists-Shows no_lister uid = (λ e. cc e, λ a. absurd a)
lists-Shows list_failed uid = (λ e. cc e, λ a. absurd a)
lists-Shows (listed uids) uid = has_uid-Any uid uids

pub is_orphan_iff :
    (r : Round) → (is_orphan r ≡ true) ↔ (IsUnknown r × ¬ (Shows r.listing r.machine.uid))
unfolding is_orphan
is_orphan_iff r =
    let shows = lists-Shows r.listing r.machine.uid in
    (
      λ e. (
        (ground (arith, e), ground (arith, e)),
        λ a. let shown = shows.1 a in ground (arith, e, shown),
      ),
      λ (unknown, hidden). elim (Bool-cases (lists r.listing r.machine.uid)) [
        | inl shown ↦ absurd (hidden (shows.0 shown))
        | inr e ↦ ground (arith, unknown.0, unknown.1, e)
      ],
    )

pub is_lost_iff : (r : Round) → (is_lost r ≡ true) ↔ (IsUnknown r × Shows r.listing r.machine.uid)
unfolding is_lost
is_lost_iff r =
    let shows = lists-Shows r.listing r.machine.uid in
    (
      λ e. ((ground (arith, e), ground (arith, e)), shows.0 (ground (arith, e))),
      λ (unknown, shown). let e = shows.1 shown in ground (arith, unknown.0, unknown.1, e),
    )

-- A call that stops the machine, and one that asks for the sync.
abbrev pub Stops : Bytes → Bytes → Call → Type 0
Stops uid container_name call = call ≡ stop_machine uid container_name

abbrev pub Syncs : Bytes → Bytes → Call → Type 0
Syncs namespace name call = call ≡ request_sync namespace name

pub teardown-Stops :
    (s : PodStore) (m : PodMetadata) (on : List Call) {uid c : Bytes}
    → Any (Stops uid c) (teardown s m ++ on)
      ↔ (((m.uid ≡ uid) × (m.container_name ≡ c)) ⊎ Any (Stops uid c) on)
unfolding teardown
teardown-Stops s m on {uid} {c} = (into, back)
  where
    into :
        Any (Stops uid c) (teardown s m ++ on)
        → ((m.uid ≡ uid) × (m.container_name ≡ c)) ⊎ Any (Stops uid c) on
    into (here e) = inl (cc e, cc e)
    into (there (here e)) = cc e
    into (there (there (here e))) = cc e
    into (there (there (there (here e)))) = cc e
    into (there (there (there (there (here e))))) = cc e
    into (there (there (there (there (there a))))) = inr a

    back :
        ((m.uid ≡ uid) × (m.container_name ≡ c)) ⊎ Any (Stops uid c) on
        → Any (Stops uid c) (teardown s m ++ on)
    back (inl (e, f)) = here (cc (e, f))
    back (inr a) = there (there (there (there (there a))))

pub teardown-Syncs :
    (s : PodStore) (m : PodMetadata) (on : List Call) {ns n : Bytes}
    → Any (Syncs ns n) (teardown s m ++ on) ↔ Any (Syncs ns n) on
unfolding teardown
teardown-Syncs s m on {ns} {n} = (into, λ a. there (there (there (there (there a)))))
  where
    into : Any (Syncs ns n) (teardown s m ++ on) → Any (Syncs ns n) on
    into (here e) = cc e
    into (there (here e)) = cc e
    into (there (there (here e))) = cc e
    into (there (there (there (here e)))) = cc e
    into (there (there (there (there (here e))))) = cc e
    into (there (there (there (there (there a))))) = a
