-- ===== src/Base/Sums.antt =====
-- What the entries of a map weigh together, and that a map has one entry for each key.
use Prim.Native.Nat.{ℕ, ◌+◌, ◌≤◌}
use mathlib.Core.Path.{◌≡◌, refl}
use mathlib.Core.Logic.{inl, inr}
use mathlib.Core.Bool.{false}
use mathlib.Core.List.{[], ◌∷◌}
use mathlib.Core.Option.{Option, none, some}
use native.Mathlib.Omega.{arith}
use periapsis.Base.Tests.{if_cases, Bool-cases}
use periapsis.Base.Text.{Bytes, str_eq, str_eq_iff}
use periapsis.Base.Assoc.{Map, bytes_eq, lookup, insert, delete, lookup-insert, lookup-delete}

unequal_sym : (j k : Bytes) → str_eq j k ≡ false → str_eq k j ≡ false
unequal_sym j k e = ground (arith, e, str_eq_iff j k, str_eq_iff k j)

module _ {ℓ} {V : Type ℓ} where
  -- The sum of the weights of the entries.
  abbrev pub total : (Bytes → V → ℕ) → Map Bytes V → ℕ
  total w [] = 0
  total w ((k, v) ∷ m) = w k v + total w m

  -- No key has two entries.
  abbrev pub IsDistinct : Map Bytes V → Type ℓ
  IsDistinct [] = Unit
  IsDistinct ((k, _) ∷ m) = (lookup k m ≡ none) × IsDistinct m

  pub total-insert_new :
      (w : Bytes → V → ℕ) (k : Bytes) (v : V) (m : Map Bytes V)
      → lookup k m ≡ none
      → total w (insert k v m) ≡ w k v + total w m
  unfolding insert lookup
  total-insert_new w k v [] h = refl
  total-insert_new w k v ((j, u) ∷ m) h = elim (Bool-cases (str_eq j k)) [
    | inl e ↦ cc (rw e at h)
    | inr e ↦
        let h' : lookup k m ≡ none = rw e at h in rw e (omega (arith, total-insert_new w k v m h'))
  ]

  pub total-insert :
      (w : Bytes → V → ℕ) (k : Bytes) (v : V) (m : Map Bytes V) {old : V}
      → lookup k m ≡ some old
      → total w (insert k v m) + w k old ≡ w k v + total w m
  unfolding insert lookup
  total-insert w k v [] h = cc
  total-insert w k v ((j, u) ∷ m) {old} h = elim (Bool-cases (str_eq j k)) [
    | inl e ↦
        let found : ◌≡◌ {A = Option V} (some u) (some old) = rw e at h in
        let same : u ≡ old = cc in rw (e, (str_eq_iff j k).0 e, same) (omega arith)
    | inr e ↦
        let h' : lookup k m ≡ some old = rw e at h in rw e (omega (arith, total-insert w k v m h'))
  ]

  delete_absent : (k : Bytes) (m : Map Bytes V) → lookup k m ≡ none → delete k m ≡ m
  unfolding delete lookup
  delete_absent k [] h = refl
  delete_absent k ((j, u) ∷ m) h = elim (Bool-cases (str_eq j k)) [
    | inl e ↦ cc (rw e at h)
    | inr e ↦
        let h' : lookup k m ≡ none = rw e at h in
        let rest = delete_absent k m h' in rw (e, rest) refl
  ]

  pub total-delete :
      (w : Bytes → V → ℕ) (k : Bytes) (m : Map Bytes V) {v : V}
      → IsDistinct m
      → lookup k m ≡ some v
      → total w m ≡ w k v + total w (delete k m)
  unfolding delete lookup
  total-delete w k [] d h = cc
  total-delete w k ((j, u) ∷ m) {v} d h = elim (Bool-cases (str_eq j k)) [
    | inl e ↦
        let found : ◌≡◌ {A = Option V} (some u) (some v) = rw e at h in
        let u_v : u ≡ v = cc in
        let j_k = (str_eq_iff j k).0 e in
        let absent : lookup k m ≡ none = rw j_k at d.0 in
        rw (e, delete_absent k m absent, j_k, u_v) (omega arith)
    | inr e ↦
        let h' : lookup k m ≡ some v = rw e at h in rw e (omega (arith, total-delete w k m d.1 h'))
  ]

  pub insert-IsDistinct :
      (k : Bytes) (v : V) (m : Map Bytes V) → IsDistinct m → IsDistinct (insert k v m)
  unfolding insert lookup
  insert-IsDistinct k v [] d = (refl, tt)
  insert-IsDistinct k v ((j, u) ∷ m) d = elim (Bool-cases (str_eq j k)) [
    | inl e ↦ let j_k = (str_eq_iff j k).0 e in rw e ((rw j_k at d.0, d.1))
    | inr e ↦ rw e (
        (
          ground (arith, lookup-insert k j v m, unequal_sym j k e, d.0),
          insert-IsDistinct k v m d.1,
        ))
  ]

  pub delete-IsDistinct : (k : Bytes) (m : Map Bytes V) → IsDistinct m → IsDistinct (delete k m)
  unfolding delete
  delete-IsDistinct k [] d = tt
  delete-IsDistinct k ((j, u) ∷ m) d =
      let on = delete-IsDistinct k m d.1 in
      let absent : lookup j (delete k m) ≡ none = ground (arith, lookup-delete k j m, d.0) in
      if_cases IsDistinct (str_eq j k) (λ _. on) (λ _. (absent, on))

  pub lookup-total :
      (w : Bytes → V → ℕ) (k : Bytes) (m : Map Bytes V) {v : V}
      → lookup k m ≡ some v
      → w k v ≤ total w m
  unfolding lookup
  lookup-total w k [] h = cc
  lookup-total w k ((j, u) ∷ m) {v} h = elim (Bool-cases (str_eq j k)) [
    | inl e ↦
        let found : ◌≡◌ {A = Option V} (some u) (some v) = rw e at h in
        let u_v : u ≡ v = cc in rw ((str_eq_iff j k).0 e, u_v) (omega arith)
    | inr e ↦ let h' : lookup k m ≡ some v = rw e at h in omega (arith, lookup-total w k m h')
  ]
