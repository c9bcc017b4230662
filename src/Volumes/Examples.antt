-- ===== src/Volumes/Examples.antt =====
-- node/voltracker.go: two pods, one of which goes.
use periapsis.Base.{
  Bytes, bytes, List, [], ◌∷◌, ◌++◌, ◌≡◌, refl, some, none, lookup, insert, bytes_eq, str_eq,
}
use periapsis.Volumes.{
  Volume, VolumeTracker, new_volume_tracker, kind_of, mounts_of, keys_of, track_mounts, track,
  untrack, refresh_config_map, refresh_secret, ref_key,
}
use periapsis.Volumes.Mounts.{Mounted, with_key, unmounted}
use periapsis.Volumes.Refines.{Reach, made, tracked, untracked, Reach-refresh}

-- A join for the examples: the parts between slashes.
unfoldable join : List Bytes → Bytes
join [] = []
join (part ∷ rest) = part ++ (bytes "/" ++ join rest)

abbrev settings : Volume
settings = record { name = bytes "settings"; config_map = some (bytes "app"); secret = none }

abbrev empty : VolumeTracker
empty = new_volume_tracker (bytes "/var") (bytes "pawn")

abbrev one : VolumeTracker
one = track join empty (bytes "u1") (bytes "ns") (settings ∷ [])

abbrev mounts : Bytes → VolumeTracker → Mounted
mounts uid vt = mounts_of join vt uid (bytes "ns") (settings ∷ [])

one-Reach : Reach join one (mounts (bytes "u1") empty)
unfolding new_volume_tracker lookup
one-Reach =
    tracked (bytes "u1") (bytes "ns") (settings ∷ []) (made (bytes "/var") (bytes "pawn")) refl

u2_new : lookup (bytes "u2") one.vol_refs_by_pod ≡ none
unfolding track track_mounts mounts_of kind_of keys_of new_volume_tracker insert lookup str_eq bytes
u2_new = refl

abbrev two : VolumeTracker
two = track join one (bytes "u2") (bytes "ns") (settings ∷ [])

left-Reach :
    Reach join
      (untrack two (bytes "u1"))
      (unmounted (bytes "u1") (mounts (bytes "u1") empty ++ mounts (bytes "u2") one))
left-Reach =
    untracked (bytes "u1") (tracked (bytes "u2") (bytes "ns") (settings ∷ []) one-Reach u2_new)

Reach-refresh_example :
    (refresh_config_map (untrack two (bytes "u1")) (bytes "ns") (bytes "app")
      ≡ with_key
          (ref_key (bytes "configmap") (bytes "ns") (bytes "app"))
          (unmounted (bytes "u1") (mounts (bytes "u1") empty ++ mounts (bytes "u2") one)))
    × (refresh_secret (untrack two (bytes "u1")) (bytes "ns") (bytes "app")
        ≡ with_key
            (ref_key (bytes "secret") (bytes "ns") (bytes "app"))
            (unmounted (bytes "u1") (mounts (bytes "u1") empty ++ mounts (bytes "u2") one)))
Reach-refresh_example = Reach-refresh (bytes "ns") (bytes "app") left-Reach
