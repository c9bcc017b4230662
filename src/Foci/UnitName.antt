-- ===== src/Foci/UnitName.antt =====
-- The names of systemd units: ParseContainerFromUnit of internal/foci/reduce.go, ParseUnitName of
-- node/gambit.go, and wrapperUnitName of internal/runtime/systemd/runtime.go, which makes them.
pub mod RoundTrip
use periapsis.Base.{
  ℕ, ◌+◌, ◌-◌, Bytes, bytes, has_prefix, has_suffix, index, Bool, true, false, not, ◌&&◌, ◌||◌,
  Option, none, some, List, [], ◌∷◌, ◌++◌, if◌then◌else◌, ltb, length, take, drop,
}

abbrev pub unit_prefix : Bytes
unit_prefix = bytes "perigeos-"

abbrev pub pod_infix : Bytes
pod_infix = bytes "-pod-"

abbrev pub unit_suffix : Bytes
unit_suffix = bytes ".service"

-- wrapperUnitName: the format "perigeos-%s-pod-%s-%s.service".
unfoldable pub wrapper_unit_name : Bytes → Bytes → Bytes → Bytes
wrapper_unit_name pawn_name pod_uid container_name =
    unit_prefix
    ++ (pawn_name ++ (pod_infix ++ (pod_uid ++ (bytes "-" ++ (container_name ++ unit_suffix)))))

-- The last steps of ParseContainerFromUnit, on what follows "-pod-".
after_pod : Bytes → Bytes
after_pod s =
    let inner = take (length s - length unit_suffix) s in
    if ltb (length inner) 38 then [] else drop 37 inner

-- ParseContainerFromUnit. Slicing past the end, which panics in Go, does not arise: the suffix was
-- tested on the whole name.
unfoldable pub parse_container_from_unit : Bytes → Bytes
unfolding after_pod
parse_container_from_unit unit_name =
    if not (has_suffix unit_name unit_suffix) then [] else elim (index unit_name unit_prefix) [
      | none ↦ []
      | some idx ↦
          let rest = drop (idx + length unit_prefix) unit_name in
          elim (index rest pod_infix) [
            | none ↦ []
            | some pod_idx ↦ after_pod (drop (pod_idx + 5) rest)
          ]
    ]

-- ParseUnitName: the pod's UID and the container's name.
unfoldable pub parse_unit_name : Bytes → Bytes → Bytes × Bytes
parse_unit_name pawn_name unit_name =
    let prefix = unit_prefix ++ (pawn_name ++ pod_infix) in
    if not (has_prefix unit_name prefix) || not (has_suffix unit_name unit_suffix)
    then ([], [])
    else (let inner =
          drop (length prefix) (take (length unit_name - length unit_suffix) unit_name) in
        if ltb (length inner) 38 then ([], []) else (take 36 inner, drop 37 inner))
