-- ===== src/Foci/UnitName/RoundTrip.antt =====
-- Parsing the unit name that wrapperUnitName makes.
use mathlib.Core.List.{append_assoc}
use periapsis.Base.{
  ◌+◌, ◌-◌, ◌≤◌, ◌≡◌, refl, ◌∙◌, Bytes, bytes, has_prefix, has_suffix, index, true, some, ◌++◌,
  arith, length, take, drop, length-append, drop-append, take-append, has_prefix-append,
  index-prefix, index-append, has_suffix-append, drop-add,
}
use periapsis.Foci.UnitName.{
  unit_prefix, pod_infix, unit_suffix, wrapper_unit_name, after_pod, parse_container_from_unit,
  parse_unit_name,
}

module _ (pawn uid name : Bytes) where
  -- What follows the prefix, what follows "-pod-", and that without the suffix.
  abbrev tail_of_prefix : Bytes
  tail_of_prefix = pawn ++ (pod_infix ++ (uid ++ (bytes "-" ++ (name ++ unit_suffix))))

  abbrev inner : Bytes
  inner = uid ++ (bytes "-" ++ name)

  abbrev tail_of_pod : Bytes
  tail_of_pod = uid ++ (bytes "-" ++ (name ++ unit_suffix))

  inner-suffix : inner ++ unit_suffix ≡ tail_of_pod
  inner-suffix = simp append_assoc

  unit-suffix :
      wrapper_unit_name pawn uid name
      ≡ (unit_prefix ++ (pawn ++ (pod_infix ++ inner))) ++ unit_suffix
  unfolding wrapper_unit_name
  unit-suffix = simp append_assoc

  length-dash : length (bytes "-") ≡ 1
  unfolding bytes
  length-dash = refl

  length-inner : length uid ≡ 36 → length inner ≡ 37 + length name
  length-inner h =
      omega
        (arith, length-append uid (bytes "-" ++ name), length-append (bytes "-") name, length-dash)

  drop-inner : length uid ≡ 36 → drop 37 inner ≡ name
  drop-inner h =
      let e : length (uid ++ bytes "-") ≡ 37 =
        omega (arith, length-append uid (bytes "-"), length-dash) in
      rw (← append_assoc) (rw (← e) (drop-append (uid ++ bytes "-") name))

  take-inner :
      (s : Bytes) → take (length (s ++ unit_suffix) - length unit_suffix) (s ++ unit_suffix) ≡ s
  take-inner s =
      let e : length (s ++ unit_suffix) - length unit_suffix ≡ length s =
        omega (arith, length-append s unit_suffix) in
      rw e (take-append s unit_suffix)

  after_pod_lem : length uid ≡ 36 → 1 ≤ length name → after_pod tail_of_pod ≡ name
  unfolding after_pod
  after_pod_lem h k =
      rw (← inner-suffix)
        (rw (take-inner inner) (rw (drop-inner h) (ground (arith, length-inner h))))

  suffix_lem : has_suffix (wrapper_unit_name pawn uid name) unit_suffix ≡ true
  suffix_lem = rw unit-suffix (has_suffix-append _ unit_suffix)

  index_prefix_lem : index (wrapper_unit_name pawn uid name) unit_prefix ≡ some 0
  unfolding wrapper_unit_name
  index_prefix_lem = index-prefix _ unit_prefix (has_prefix-append unit_prefix tail_of_prefix)

  drop_prefix_lem : drop (0 + length unit_prefix) (wrapper_unit_name pawn uid name) ≡ tail_of_prefix
  unfolding wrapper_unit_name
  drop_prefix_lem =
      let e : 0 + length unit_prefix ≡ length unit_prefix = omega arith in
      rw e (drop-append unit_prefix tail_of_prefix)

  index_pod_lem :
      index (pawn ++ pod_infix) pod_infix ≡ some (length pawn)
      → index tail_of_prefix pod_infix ≡ some (length pawn)
  index_pod_lem h = rw (← append_assoc) (index-append (pawn ++ pod_infix) tail_of_pod pod_infix h)

  drop_pod_lem : drop (length pawn + 5) tail_of_prefix ≡ tail_of_pod
  drop_pod_lem = drop-add pawn (pod_infix ++ tail_of_pod) 5 ∙ (unfold bytes in refl)

  -- ParseContainerFromUnit recovers the container's name from the unit name of any pawn in whose
  -- name "-pod-" does not begin before the end, if the UID has 36 bytes and the name is not
  -- empty.
  pub parse_container_from_unit-wrapper_unit_name :
      length uid ≡ 36
      → 1 ≤ length name
      → index (pawn ++ pod_infix) pod_infix ≡ some (length pawn)
      → parse_container_from_unit (wrapper_unit_name pawn uid name) ≡ name
  unfolding parse_container_from_unit
  parse_container_from_unit-wrapper_unit_name h k first =
      rw (suffix_lem, index_prefix_lem, parse_container_from_unit)
        (rw drop_prefix_lem (
          rw (index_pod_lem first, parse_container_from_unit)
            (rw (drop_prefix_lem, drop_pod_lem) (after_pod_lem h k))))

  -- The prefix that ParseUnitName tests.
  abbrev own_prefix : Bytes
  own_prefix = unit_prefix ++ (pawn ++ pod_infix)

  own_prefix_lem : wrapper_unit_name pawn uid name ≡ (own_prefix ++ inner) ++ unit_suffix
  unfolding wrapper_unit_name
  own_prefix_lem = simp append_assoc

  take_36 : length uid ≡ 36 → take 36 inner ≡ uid
  take_36 h = rw (← h) (take-append uid (bytes "-" ++ name))

  has_prefix_lem :
      has_prefix (wrapper_unit_name pawn uid name) (unit_prefix ++ (pawn ++ pod_infix)) ≡ true
  has_prefix_lem =
      rw own_prefix_lem (rw append_assoc (has_prefix-append own_prefix (inner ++ unit_suffix)))

  -- ParseUnitName recovers the UID and the container's name from the unit name of its own pawn,
  -- whatever the name of the pawn, if the UID has 36 bytes and the name is not empty.
  pub parse_unit_name-wrapper_unit_name :
      length uid ≡ 36
      → 1 ≤ length name
      → parse_unit_name pawn (wrapper_unit_name pawn uid name) ≡ (uid, name)
  unfolding parse_unit_name
  parse_unit_name-wrapper_unit_name h k =
      rw (has_prefix_lem, suffix_lem)
        (rw own_prefix_lem (
          rw (take-inner (own_prefix ++ inner)) (
            rw (drop-append own_prefix inner)
              (rw (take_36 h, drop-inner h) (ground (arith, length-inner h))))))
