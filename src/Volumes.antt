-- ===== src/Volumes.antt =====
-- node/voltracker.go: which pods have a ConfigMap or a Secret mounted. A method, which holds the lock, is
-- one step. The log and the rewriting of files are left out.
pub mod Mounts
pub mod Refines
pub mod Examples
use periapsis.Base.{
  ℕ, Bytes, bytes, str_eq, Bool, true, false, Option, none, some, List, [], ◌∷◌, ◌++◌,
  if◌then◌else◌, Map, lookup, insert, delete, bytes_eq, map, length, ◌==◌,
}

-- The fields of a corev1.Volume that are read: its name, ConfigMap.Name and Secret.SecretName.
pub record Volume : Type 0 where
  pub name : Bytes
  pub config_map : Option Bytes
  pub secret : Option Bytes

pub record VolumeMount : Type 0 where
  pub pod_uid : Bytes
  pub host_dir : Bytes
  pub vol : Volume

pub record VolumeTracker : Type 0 where
  pub vol_refs : Map Bytes (List VolumeMount)
  pub vol_refs_by_pod : Map Bytes (List Bytes)
  pub base_dir : Bytes
  pub pawn_name : Bytes

-- NewVolumeTracker
unfoldable pub new_volume_tracker : Bytes → Bytes → VolumeTracker
new_volume_tracker base_dir pawn_name = record {
  vol_refs = [];
  vol_refs_by_pod = [];
  base_dir = base_dir;
  pawn_name = pawn_name;
}

-- A slice in a map of slices: a key that is missing has the nil slice.
abbrev pub or_nil {ℓ} : {A : Type ℓ} → Option (List A) → List A
or_nil none = []
or_nil (some l) = l

abbrev pub refs_at : Bytes → Map Bytes (List VolumeMount) → List VolumeMount
refs_at key refs = or_nil (lookup key refs)

-- kind + ":" + namespace + "/" + name
abbrev pub ref_key : Bytes → Bytes → Bytes → Bytes
ref_key kind namespace name = kind ++ (bytes ":" ++ (namespace ++ (bytes "/" ++ name)))

-- The kind and the name that Track reads of a volume; `none` is `continue`.
unfoldable pub kind_of : Volume → Option (Bytes × Bytes)
kind_of vol = elim vol.config_map [
  | some name ↦ some (bytes "configmap", name)
  | none ↦ elim vol.secret [ some name ↦ some (bytes "secret", name) | none ↦ none ]
]

-- `join` is filepath.Join.
module _ (join : List Bytes → Bytes) where
  abbrev pub host_dir_of : VolumeTracker → Bytes → Bytes → Bytes → Bytes
  host_dir_of vt uid kind name = join (
      vt.base_dir
      ∷ bytes "pawns"
      ∷ vt.pawn_name
      ∷ bytes "pods"
      ∷ uid
      ∷ bytes "volumes"
      ∷ kind
      ∷ name
      ∷ [])

  abbrev pub add_mount :
      VolumeTracker
      → Bytes
      → Bytes
      → Volume
      → Option (Bytes × Bytes)
      → List (Bytes × VolumeMount)
      → List (Bytes × VolumeMount)
  add_mount vt uid namespace vol none rest = rest
  add_mount vt uid namespace vol (some (kind, name)) rest =
      (
        ref_key kind namespace name,
        record { pod_uid = uid; host_dir = host_dir_of vt uid kind vol.name; vol = vol },
      )
      ∷ rest

  -- The loop of Track over the volumes of the pod.
  unfoldable pub mounts_of :
      VolumeTracker → Bytes → Bytes → List Volume → List (Bytes × VolumeMount)
  mounts_of vt uid namespace [] = []
  mounts_of vt uid namespace (vol ∷ rest) =
      add_mount vt uid namespace vol (kind_of vol) (mounts_of vt uid namespace rest)

-- The loop of Track over the mounts.
unfoldable pub add_refs :
    List (Bytes × VolumeMount) → Map Bytes (List VolumeMount) → Map Bytes (List VolumeMount)
add_refs [] refs = refs
add_refs ((key, mount) ∷ rest) refs =
    add_refs rest (insert key (refs_at key refs ++ (mount ∷ [])) refs)

-- The keys of the mounts.
unfoldable pub keys_of : List (Bytes × VolumeMount) → List Bytes
keys_of [] = []
keys_of ((key, _) ∷ rest) = key ∷ keys_of rest

-- Track, given the mounts of the pod.
unfoldable pub track_mounts : VolumeTracker → Bytes → List (Bytes × VolumeMount) → VolumeTracker
track_mounts vt uid mounts = if length (keys_of mounts) == 0 then vt else record vt {
  vol_refs = add_refs mounts vt.vol_refs;
  vol_refs_by_pod = insert uid (keys_of mounts) vt.vol_refs_by_pod;
}

-- Track
unfoldable pub track :
    (List Bytes → Bytes) → VolumeTracker → Bytes → Bytes → List Volume → VolumeTracker
track join vt uid namespace volumes = track_mounts vt uid (mounts_of join vt uid namespace volumes)

-- The mounts of the other pods.
unfoldable pub without : Bytes → List VolumeMount → List VolumeMount
without uid [] = []
without uid (m ∷ rest) =
    let kept = without uid rest in if str_eq m.pod_uid uid then kept else m ∷ kept

-- One round of Untrack: a key without mounts is deleted.
abbrev pub put_or_delete :
    Bytes → List VolumeMount → Map Bytes (List VolumeMount) → Map Bytes (List VolumeMount)
put_or_delete key [] refs = delete key refs
put_or_delete key (m ∷ rest) refs = insert key (m ∷ rest) refs

-- The loop of Untrack.
unfoldable pub remove_refs :
    Bytes → List Bytes → Map Bytes (List VolumeMount) → Map Bytes (List VolumeMount)
remove_refs uid [] refs = refs
remove_refs uid (key ∷ rest) refs =
    remove_refs uid rest (put_or_delete key (without uid (refs_at key refs)) refs)

-- Untrack
unfoldable pub untrack : VolumeTracker → Bytes → VolumeTracker
untrack vt uid = record vt {
  vol_refs = remove_refs uid (or_nil (lookup uid vt.vol_refs_by_pod)) vt.vol_refs;
  vol_refs_by_pod = delete uid vt.vol_refs_by_pod;
}

-- RefreshConfigMap: the mounts whose files it rewrites, in order.
unfoldable pub refresh_config_map : VolumeTracker → Bytes → Bytes → List VolumeMount
refresh_config_map vt namespace name =
    refs_at (ref_key (bytes "configmap") namespace name) vt.vol_refs

-- RefreshSecret
unfoldable pub refresh_secret : VolumeTracker → Bytes → Bytes → List VolumeMount
refresh_secret vt namespace name = refs_at (ref_key (bytes "secret") namespace name) vt.vol_refs
