-- ===== src/Volumes/Mounts.antt =====
-- node/voltracker.go: the loops of Track and Untrack as operations on lists of mounts.
use periapsis.Base.{
  Bytes, str_eq, str_eq_iff, Bool, true, false, ◌||◌, List, [], ◌∷◌, ◌++◌, if◌then◌else◌, Map,
  insert, bytes_eq, arith, ◌≡◌, refl, sym, ap, Bool-cases, lookup-insert, lookup-delete, inl, inr,
  if_cases,
}
use mathlib.Core.List.{append-nil, append_assoc}
use periapsis.Volumes.{VolumeMount, refs_at, add_refs, without, put_or_delete, remove_refs}

-- What the tracker stands for: the mounts with their keys, in the order in which they were tracked.
abbrev pub Mounted : Type 0
Mounted = List (Bytes × VolumeMount)

-- The mounts with that key.
unfoldable pub with_key : Bytes → Mounted → List VolumeMount
with_key key [] = []
with_key key ((k, m) ∷ rest) = let on = with_key key rest in if str_eq k key then m ∷ on else on

-- The mounts of the other pods, with their keys.
unfoldable pub unmounted : Bytes → Mounted → Mounted
unmounted uid [] = []
unmounted uid ((k, m) ∷ rest) =
    let on = unmounted uid rest in if str_eq m.pod_uid uid then on else (k, m) ∷ on

unfoldable pub in_keys : Bytes → List Bytes → Bool
in_keys key [] = false
in_keys key (k ∷ rest) = str_eq k key || in_keys key rest

refs_at-insert :
    (k key : Bytes) (l : List VolumeMount) (refs : Map Bytes (List VolumeMount))
    → refs_at key (insert k l refs) ≡ (if str_eq k key then l else refs_at key refs)
refs_at-insert k key l refs = rw (lookup-insert ⦃e = bytes_eq⦄ k key l refs) (ground arith)

refs_at-put :
    (k key : Bytes) (l : List VolumeMount) (refs : Map Bytes (List VolumeMount))
    → refs_at key (put_or_delete k l refs) ≡ (if str_eq k key then l else refs_at key refs)
refs_at-put k key [] refs = rw (lookup-delete ⦃e = bytes_eq⦄ k key refs) (ground arith)
refs_at-put k key (m ∷ l) refs = refs_at-insert k key (m ∷ l) refs

without_twice : (uid : Bytes) (l : List VolumeMount) → without uid (without uid l) ≡ without uid l
unfolding without
without_twice uid [] = refl
without_twice uid (m ∷ l) = elim (Bool-cases (str_eq m.pod_uid uid)) [
  | inl e ↦ rw e (without_twice uid l)
  | inr e ↦ rw (e, e) (ap (λ (t : List VolumeMount). m ∷ t) (without_twice uid l))
]

pub refs_at-remove :
    (uid : Bytes) (keys : List Bytes) (refs : Map Bytes (List VolumeMount)) (key : Bytes)
    → refs_at key (remove_refs uid keys refs)
      ≡ (if in_keys key keys then without uid (refs_at key refs) else refs_at key refs)
unfolding remove_refs in_keys
refs_at-remove uid [] refs key = refl
refs_at-remove uid (k ∷ keys) refs key =
    rw
      (
        refs_at-remove uid keys (put_or_delete k (without uid (refs_at k refs)) refs) key,
        refs_at-put k key (without uid (refs_at k refs)) refs,
      )
      (elim (Bool-cases (str_eq k key)) [
        | inl e ↦
            let key_k : k ≡ key = (str_eq_iff k key).0 e in
            rw (e, key_k, without_twice uid (refs_at key refs))
              (if_cases (λ (t : List VolumeMount). t ≡ without uid (refs_at key refs))
                (in_keys key keys) (λ _. refl) (λ _. refl))
        | inr e ↦ rw e refl
      ])

pub refs_at-add :
    (mounts : Mounted) (refs : Map Bytes (List VolumeMount)) (key : Bytes)
    → refs_at key (add_refs mounts refs) ≡ (refs_at key refs ++ with_key key mounts)
unfolding add_refs with_key
refs_at-add [] refs key = sym (append-nil (refs_at key refs))
refs_at-add ((k, m) ∷ mounts) refs key =
    rw
      (
        refs_at-add mounts (insert k (refs_at k refs ++ (m ∷ [])) refs) key,
        refs_at-insert k key (refs_at k refs ++ (m ∷ [])) refs,
      )
      (elim (Bool-cases (str_eq k key)) [
        | inl e ↦
            let key_k : k ≡ key = (str_eq_iff k key).0 e in
            rw (e, key_k) (append_assoc (refs_at key refs) (m ∷ []) (with_key key mounts))
        | inr e ↦ rw e refl
      ])

pub with_key-append :
    (key : Bytes) (a b : Mounted) → with_key key (a ++ b) ≡ (with_key key a ++ with_key key b)
unfolding with_key
with_key-append key [] b = refl
with_key-append key ((k, m) ∷ a) b = elim (Bool-cases (str_eq k key)) [
  | inl e ↦ rw (e, with_key-append key a b) refl
  | inr e ↦ rw (e, with_key-append key a b) refl
]

pub with_key-unmounted :
    (key uid : Bytes) (a : Mounted) → with_key key (unmounted uid a) ≡ without uid (with_key key a)
unfolding with_key unmounted without
with_key-unmounted key uid [] = refl
with_key-unmounted key uid ((k, m) ∷ a) =
    let ih = with_key-unmounted key uid a in
    elim (Bool-cases (str_eq k key)) [
      | inl e ↦ elim (Bool-cases (str_eq m.pod_uid uid)) [
        | inl u ↦ ground (arith, e, u, ih)
        | inr u ↦ ground (arith, e, u, ih)
      ]
      | inr e ↦ elim (Bool-cases (str_eq m.pod_uid uid)) [
        | inl u ↦ ground (arith, e, u, ih)
        | inr u ↦ ground (arith, e, u, ih)
      ]
    ]

-- Is there a mount of that pod?
unfoldable pub has_pod_uid : Bytes → List VolumeMount → Bool
has_pod_uid uid [] = false
has_pod_uid uid (m ∷ rest) = str_eq m.pod_uid uid || has_pod_uid uid rest

pub without-has_no :
    (uid : Bytes) (l : List VolumeMount) → has_pod_uid uid l ≡ false → without uid l ≡ l
unfolding without has_pod_uid
without-has_no uid [] h = refl
without-has_no uid (m ∷ l) h = elim (Bool-cases (str_eq m.pod_uid uid)) [
  | inl e ↦ cc (rw e at h)
  | inr e ↦ rw e (ap (λ (t : List VolumeMount). m ∷ t) (without-has_no uid l (rw e at h)))
]

pub has_pod_uid-append :
    (uid : Bytes) (a b : List VolumeMount)
    → has_pod_uid uid (a ++ b) ≡ (has_pod_uid uid a || has_pod_uid uid b)
unfolding has_pod_uid
has_pod_uid-append uid [] b = refl
has_pod_uid-append uid (m ∷ a) b = ground (arith, has_pod_uid-append uid a b)

pub has_pod_uid-without :
    (uid u : Bytes) (l : List VolumeMount)
    → has_pod_uid uid (without u l) ≡ true
    → (has_pod_uid uid l ≡ true) × (str_eq u uid ≡ false)
unfolding has_pod_uid without
has_pod_uid-without uid u [] h = cc
has_pod_uid-without uid u (m ∷ l) h =
    let ih = has_pod_uid-without uid u l in
    ground (arith, h, ih, str_eq_iff m.pod_uid u, str_eq_iff u uid, str_eq_iff m.pod_uid uid)
