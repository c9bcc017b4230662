-- ===== src/Volumes/Refines.antt =====
-- node/voltracker.go: the two maps implement a list of mounts.
use periapsis.Base.{
  ℕ, suc, Bytes, bytes, str_eq, str_eq_iff, true, false, ◌||◌, none, List, [], ◌∷◌, ◌++◌, lookup,
  insert, bytes_eq, length, ◌==◌, arith, ◌≡◌, refl, sym, ◌∙◌, Bool-cases, Option-cases,
  lookup-insert, lookup-delete, inl, inr,
}
use mathlib.Core.List.{append-nil}
use mathlib.Core.Path.{subst}
use periapsis.Volumes.{
  Volume, VolumeMount, VolumeTracker, new_volume_tracker, or_nil, refs_at, ref_key, kind_of,
  mounts_of, add_refs, keys_of, track_mounts, track, untrack, refresh_config_map, refresh_secret,
}
use periapsis.Volumes.Mounts.{
  Mounted, with_key, unmounted, in_keys, has_pod_uid, refs_at-remove, refs_at-add, with_key-append,
  with_key-unmounted, without-has_no, has_pod_uid-append, has_pod_uid-without,
}

-- All mounts are of that pod.
abbrev pub Owned : Bytes → Mounted → Type 0
Owned uid ms =
    (k : Bytes) (other : Bytes)
    → has_pod_uid other (with_key k ms) ≡ true
    → (str_eq uid other ≡ true) × (in_keys k (keys_of ms) ≡ true)

mounts_of-Owned :
    (join : List Bytes → Bytes) (vt : VolumeTracker) (uid namespace : Bytes) (volumes : List Volume)
    → Owned uid (mounts_of join vt uid namespace volumes)
unfolding mounts_of has_pod_uid with_key keys_of in_keys
mounts_of-Owned join vt uid namespace [] k other h = cc
mounts_of-Owned join vt uid namespace (vol ∷ rest) k other h =
    let ih = mounts_of-Owned join vt uid namespace rest k other in
    elim (Option-cases (kind_of vol)) [
      | inl e ↦ rw e (ih (rw e at h))
      | inr ((kind, name), e) ↦ elim (Bool-cases (str_eq (ref_key kind namespace name) k)) [
        | inl at_k ↦ elim (Bool-cases (str_eq uid other)) [
          | inl same ↦ (same, rw (e, at_k) refl)
          | inr differ ↦
              let later : has_pod_uid other (with_key k (mounts_of join vt uid namespace rest))
                  ≡ true =
                rw (e, at_k, differ) at h in
              cc (differ, (ih later).0)
        ]
        | inr elsewhere ↦
            let later : has_pod_uid other (with_key k (mounts_of join vt uid namespace rest))
                ≡ true =
              rw (e, elsewhere) at h in
            ((ih later).0, rw (e, elsewhere) (ih later).1)
      ]
    ]

-- What the keys of a pod must cover.
abbrev pub Covered : VolumeTracker → Mounted → Type 0
Covered vt a =
    (uid key : Bytes)
    → has_pod_uid uid (with_key key a) ≡ true
    → in_keys key (or_nil (lookup uid vt.vol_refs_by_pod)) ≡ true

pub record Refines (vt : VolumeTracker) (a : Mounted) : Type 0 where
  pub mounts : (key : Bytes) → refs_at key vt.vol_refs ≡ with_key key a
  pub covered : Covered vt a

new_volume_tracker-Refines :
    (base_dir pawn_name : Bytes) → Refines (new_volume_tracker base_dir pawn_name) []
unfolding new_volume_tracker with_key has_pod_uid lookup
new_volume_tracker-Refines base_dir pawn_name = record {
  mounts = λ key. refl;
  covered = λ uid key h. cc h;
}

-- Track of a pod that has mounts.
abbrev with_mounts : VolumeTracker → Bytes → Mounted → VolumeTracker
with_mounts vt uid ms = record vt {
  vol_refs = add_refs ms vt.vol_refs;
  vol_refs_by_pod = insert uid (keys_of ms) vt.vol_refs_by_pod;
}

suc_not_zero : (n : ℕ) → (suc n == 0) ≡ false
suc_not_zero n = ground arith

track_mounts-none : (vt : VolumeTracker) (uid : Bytes) → track_mounts vt uid [] ≡ vt
unfolding track_mounts keys_of
track_mounts-none vt uid = refl

track_mounts-some :
    (vt : VolumeTracker) (uid k : Bytes) (m : VolumeMount) (ms : Mounted)
    → track_mounts vt uid ((k, m) ∷ ms) ≡ with_mounts vt uid ((k, m) ∷ ms)
unfolding track_mounts keys_of
track_mounts-some vt uid k m ms = rw (suc_not_zero (length (keys_of ms))) refl

with_mounts-Covered :
    (vt : VolumeTracker) (a : Mounted) (uid : Bytes) (ms : Mounted)
    → Covered vt a
    → Owned uid ms
    → lookup uid vt.vol_refs_by_pod ≡ none
    → Covered (with_mounts vt uid ms) (a ++ ms)
unfolding in_keys
with_mounts-Covered vt a uid ms covered owned new u key h =
    let either : (has_pod_uid u (with_key key a) || has_pod_uid u (with_key key ms)) ≡ true =
      rw (with_key-append key a ms, has_pod_uid-append u (with_key key a) (with_key key ms)) at h in
    let keys = lookup-insert ⦃e = bytes_eq⦄ uid u (keys_of ms) vt.vol_refs_by_pod in
    elim (Bool-cases (str_eq uid u)) [
      | inl e ↦
          let u_new : lookup u vt.vol_refs_by_pod ≡ none = rw (← (str_eq_iff uid u).0 e) new in
          elim (Bool-cases (has_pod_uid u (with_key key a))) [
            | inl in_a ↦ cc (rw u_new at (covered u key in_a))
            | inr not_a ↦ rw (keys, e) (owned key u (rw not_a at either)).1
          ]
      | inr e ↦ elim (Bool-cases (has_pod_uid u (with_key key a))) [
        | inl in_a ↦ rw (keys, e) (covered u key in_a)
        | inr not_a ↦ cc (e, (owned key u (rw not_a at either)).0)
      ]
    ]

track_mounts-Refines :
    (vt : VolumeTracker) (a : Mounted) (uid : Bytes) (ms : Mounted)
    → Refines vt a
    → Owned uid ms
    → lookup uid vt.vol_refs_by_pod ≡ none
    → Refines (track_mounts vt uid ms) (a ++ ms)
track_mounts-Refines vt a uid [] r owned new =
    rw (append-nil a) (subst (λ t. Refines t a) (sym (track_mounts-none vt uid)) r)
track_mounts-Refines vt a uid ((k, m) ∷ ms) r owned new =
    rw (track_mounts-some vt uid k m ms) (record {
      mounts = λ key.
          refs_at-add ((k, m) ∷ ms) vt.vol_refs key
          ∙ rw (with_key-append key a ((k, m) ∷ ms), r.mounts key) refl;
      covered = with_mounts-Covered vt a uid ((k, m) ∷ ms) r.covered owned new;
    })

no_mount :
    (vt : VolumeTracker) (a : Mounted) (uid key : Bytes)
    → Covered vt a
    → in_keys key (or_nil (lookup uid vt.vol_refs_by_pod)) ≡ false
    → has_pod_uid uid (with_key key a) ≡ false
no_mount vt a uid key covered e = elim (Bool-cases (has_pod_uid uid (with_key key a))) [
  | inl held ↦ cc (e, covered uid key held)
  | inr free ↦ free
]

untrack-Refines :
    (vt : VolumeTracker) (a : Mounted) (uid : Bytes)
    → Refines vt a
    → Refines (untrack vt uid) (unmounted uid a)
unfolding untrack
untrack-Refines vt a uid r =
    let absent = λ (key : Bytes) (e : in_keys key (or_nil (lookup uid vt.vol_refs_by_pod)) ≡ false).
      no_mount vt a uid key r.covered e in
    record {
      mounts = λ key.
          rw
            (
              refs_at-remove uid (or_nil (lookup uid vt.vol_refs_by_pod)) vt.vol_refs key,
              with_key-unmounted key uid a,
              r.mounts key,
            )
            (elim (Bool-cases (in_keys key (or_nil (lookup uid vt.vol_refs_by_pod)))) [
              | inl e ↦ rw e refl
              | inr e ↦ rw (e, without-has_no uid (with_key key a) (absent key e)) refl
            ]);
      covered = λ u key h.
          let (held, other) =
            has_pod_uid-without u uid (with_key key a) (rw (with_key-unmounted key uid a) at h) in
          rw (lookup-delete ⦃e = bytes_eq⦄ uid u vt.vol_refs_by_pod, other) (r.covered u key held);
    }

-- A tracker and what it stands for, after any calls in any order. A pod that Track is given is not being
-- tracked.
pub data Reach (join : List Bytes → Bytes) : VolumeTracker → Mounted → Type 0 where
  made : (base_dir pawn_name : Bytes) → Reach join (new_volume_tracker base_dir pawn_name) []
  tracked :
      {vt : VolumeTracker} {a : Mounted} (uid namespace : Bytes) (volumes : List Volume)
      → Reach join vt a
      → lookup uid vt.vol_refs_by_pod ≡ none
      → Reach join
          (track join vt uid namespace volumes)
          (a ++ mounts_of join vt uid namespace volumes)
  untracked :
      {vt : VolumeTracker} {a : Mounted} (uid : Bytes)
      → Reach join vt a
      → Reach join (untrack vt uid) (unmounted uid a)

Reach-Refines :
    {join : List Bytes → Bytes} {vt : VolumeTracker} {a : Mounted} → Reach join vt a → Refines vt a
unfolding track
Reach-Refines (made base_dir pawn_name) = new_volume_tracker-Refines base_dir pawn_name
Reach-Refines {join} (tracked {vt} {a} uid namespace volumes r new) =
    track_mounts-Refines vt a uid (mounts_of join vt uid namespace volumes) (Reach-Refines r)
      (mounts_of-Owned join vt uid namespace volumes) new
Reach-Refines (untracked {vt} {a} uid r) = untrack-Refines vt a uid (Reach-Refines r)

-- The two maps implement a list of mounts in the order in which they were tracked, where Track
-- appends the mounts of a pod that is not being tracked and Untrack takes out those of its pod:
-- after any such calls in any order, RefreshConfigMap and RefreshSecret are for exactly the
-- mounts of that ConfigMap or Secret in the list, in its order.
pub Reach-refresh :
    {join : List Bytes → Bytes} {vt : VolumeTracker} {a : Mounted} (namespace name : Bytes)
    → Reach join vt a
    → (refresh_config_map vt namespace name
        ≡ with_key (ref_key (bytes "configmap") namespace name) a)
      × (refresh_secret vt namespace name ≡ with_key (ref_key (bytes "secret") namespace name) a)
unfolding refresh_config_map refresh_secret
Reach-refresh namespace name r =
    let refines = Reach-Refines r in
    (
      refines.mounts (ref_key (bytes "configmap") namespace name),
      refines.mounts (ref_key (bytes "secret") namespace name),
    )
