-- ===== src/Base/Search.antt =====
-- Laws of the searches in strings.
use Prim.Native.Nat.{ℕ, suc, ◌+◌, ◌-◌, ◌≤◌}
use mathlib.Core.Path.{◌≡◌, refl, ap}
use mathlib.Core.Bool.{true, ◌&&◌}
use mathlib.Core.List.{[], ◌∷◌, ◌++◌}
use mathlib.Core.Logic.{inl, inr}
use mathlib.Core.Option.{some}
use native.Mathlib.Omega.{arith}
use periapsis.Base.Tests.{Bool-cases, Option-cases, ◌==◌}
use periapsis.Base.Lists.{length, drop, length-append, drop-append}
use periapsis.Base.Text.{Bytes, str_eq_refl, has_prefix, has_suffix, index}

pub has_prefix-append : (t r : Bytes) → has_prefix (t ++ r) t ≡ true
unfolding has_prefix
has_prefix-append [] r = refl
has_prefix-append (x ∷ t) r = ground (arith, has_prefix-append t r)

-- A text at least as long as the pattern decides alone.
has_prefix-longer : (s r t : Bytes) → length t ≤ length s → has_prefix (s ++ r) t ≡ has_prefix s t
unfolding has_prefix
has_prefix-longer s r [] h = refl
has_prefix-longer [] r (p ∷ t) h = absurd (omega arith)
has_prefix-longer (x ∷ s) r (p ∷ t) h = ap (◌&&◌ (x == p)) (has_prefix-longer s r t (omega arith))

has_prefix-length : (s t : Bytes) → has_prefix s t ≡ true → length t ≤ length s
unfolding has_prefix
has_prefix-length s [] h = omega arith
has_prefix-length [] (p ∷ t) h = cc
has_prefix-length (x ∷ s) (p ∷ t) h = omega (arith, has_prefix-length s t (ground arith))

index-length : (s t : Bytes) {i : ℕ} → index s t ≡ some i → length t ≤ length s
unfolding index
index-length [] t h = has_prefix-length [] t (ground arith)
index-length (x ∷ s) t h = elim (Bool-cases (has_prefix (x ∷ s) t)) [
  | inl e ↦ has_prefix-length (x ∷ s) t e
  | inr e ↦ elim (Option-cases (index s t)) [
    | inl n ↦ cc (rw (e, n) at h)
    | inr (j, f) ↦ omega (arith, index-length s t f)
  ]
]

pub index-prefix : (s t : Bytes) → has_prefix s t ≡ true → index s t ≡ some 0
unfolding index
index-prefix [] t h = rw h
index-prefix (x ∷ s) t h = rw h

-- What follows the text does not move the first occurrence.
pub index-append : (s r t : Bytes) {i : ℕ} → index s t ≡ some i → index (s ++ r) t ≡ some i
unfolding index has_prefix
index-append [] r [] h = rw (index-prefix r [] (has_prefix-append [] r)) h
index-append [] r (p ∷ t) h = cc
index-append (x ∷ s) r t h = elim (Bool-cases (has_prefix (x ∷ s) t)) [
  | inl e ↦ rw (has_prefix-longer (x ∷ s) r t (has_prefix-length (x ∷ s) t e), e) (rw e at h)
  | inr e ↦ elim (Option-cases (index s t)) [
    | inl n ↦ cc (rw (e, n) at h)
    | inr (j, f) ↦
        rw
          (
            has_prefix-longer (x ∷ s) r t (omega (arith, index-length s t f)),
            e,
            index-append s r t f,
          )
          (rw (e, f) at h)
  ]
]

pub has_suffix-append : (s t : Bytes) → has_suffix (s ++ t) t ≡ true
unfolding has_suffix
has_suffix-append s t = rw (length-append s t) (
    let e : length s + length t - length t ≡ length s = omega arith in
    rw (e, drop-append s t, str_eq_refl t) (ground arith))

pub drop-add : (xs ys : Bytes) (k : ℕ) → drop (length xs + k) (xs ++ ys) ≡ drop k ys
drop-add [] ys k = let e : 0 + k ≡ k = omega arith in rw e
drop-add (x ∷ xs) ys k =
    let e : suc (length xs) + k ≡ suc (length xs + k) = omega arith in rw e (drop-add xs ys k)
