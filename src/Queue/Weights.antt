-- ===== src/Queue/Weights.antt =====
-- internal/queue/queue.go: which keys the list and the map of the queue hold. Every key has a weight;
-- two collections hold the same keys when they weigh the same for all weights.
use periapsis.Base.{
  total, ℕ, ◌+◌, ◌<◌, ◌≡◌, refl, ap, inl, inr, Bytes, str_eq, str_eq_iff, none, List, [], ◌∷◌,
  if◌then◌else◌, Time, Map, lookup, bytes_eq, arith, Bool-cases, length,
}
use periapsis.Queue.Types.{QueueItem}
use periapsis.Queue.Items.{
  reverse_onto, place, insert_item, adjust_from, adjust_position, remove_item, update_item,
}

abbrev pub Weight : Type 0
Weight = Bytes → ℕ

unfoldable pub weigh : Weight → List QueueItem → ℕ
weigh w [] = 0
weigh w (x ∷ xs) = w x.key + weigh w xs

abbrev pub weigh_keys : Weight → Map Bytes (Unit {0}) → ℕ
weigh_keys w = total (λ k _. w k)

-- 1 for the key, 0 for the others
abbrev pub only : Bytes → Weight
only k j = if str_eq j k then 1 else 0

pub weigh-reverse_onto :
    (w : Weight) (before rest : List QueueItem)
    → weigh w (reverse_onto before rest) ≡ weigh w before + weigh w rest
unfolding weigh reverse_onto
weigh-reverse_onto w [] rest = omega arith
weigh-reverse_onto w (x ∷ before) rest = omega (arith, weigh-reverse_onto w before (x ∷ rest))

pub weigh-place :
    (w : Weight) (v : QueueItem) (before later : List QueueItem)
    → weigh w (place v before later) ≡ w v.key + weigh w before + weigh w later
unfolding weigh place
weigh-place w v [] later = omega arith
weigh-place w v (x ∷ before) later =
    let on = weigh-place w v before (x ∷ later) in
    let back = weigh-reverse_onto w before (x ∷ v ∷ later) in ground (arith, on, back)

pub weigh-insert_item :
    (w : Weight) (v : QueueItem) (xs : List QueueItem)
    → weigh w (insert_item v xs) ≡ w v.key + weigh w xs
unfolding weigh insert_item
weigh-insert_item w v xs =
    omega (arith, weigh-place w v (reverse_onto xs []) [], weigh-reverse_onto w xs [])

pub weigh-adjust_from :
    (w : Weight) (k : Bytes) (t : Time) (before xs : List QueueItem)
    → weigh w (adjust_from k t before xs) ≡ weigh w before + weigh w xs
unfolding weigh adjust_from
weigh-adjust_from w k t before [] = weigh-reverse_onto w before []
weigh-adjust_from w k t before (x ∷ xs) =
    let on = weigh-adjust_from w k t (x ∷ before) xs in
    let back = weigh-reverse_onto w before (x ∷ xs) in
    let put = weigh-place w (record x { planned_to_start_work_at = t }) before xs in
    ground (arith, on, back, put)

pub weigh-adjust_position :
    (w : Weight) (k : Bytes) (t : Time) (xs : List QueueItem)
    → weigh w (adjust_position k t xs) ≡ weigh w xs
unfolding weigh adjust_position
weigh-adjust_position w k t xs = omega (arith, weigh-adjust_from w k t [] xs)

pub weigh-update_item :
    (w : Weight) (k : Bytes) (f : QueueItem → QueueItem) (xs : List QueueItem)
    → ((x : QueueItem) → (f x).key ≡ x.key)
    → weigh w (update_item k f xs) ≡ weigh w xs
unfolding weigh update_item
weigh-update_item w k f [] h = refl
weigh-update_item w k f (x ∷ xs) h =
    let on = weigh-update_item w k f xs h in let same = ap w (h x) in ground (arith, on, same)

-- A key that the list holds is taken off once.
pub weigh-remove_item :
    (w : Weight) (k : Bytes) (xs : List QueueItem)
    → 0 < weigh (only k) xs
    → weigh w xs ≡ w k + weigh w (remove_item k xs)
unfolding weigh remove_item
weigh-remove_item w k [] h = omega arith
weigh-remove_item w k (x ∷ xs) h = elim (Bool-cases (str_eq x.key k)) [
  | inl e ↦ let same = ap w ((str_eq_iff x.key k).0 e) in rw e (omega (arith, same))
  | inr e ↦
      let h' : 0 < weigh (only k) xs = omega (arith, rw e at h) in
      let on = weigh-remove_item w k xs h' in rw e (omega (arith, on))
]

pub lookup-weigh_keys :
    (k : Bytes) (m : Map Bytes (Unit {0})) → lookup k m ≡ none → weigh_keys (only k) m ≡ 0
unfolding lookup
lookup-weigh_keys k [] h = refl
lookup-weigh_keys k ((j, _) ∷ m) h = elim (Bool-cases (str_eq j k)) [
  | inl e ↦ cc (rw e at h)
  | inr e ↦ let h' : lookup k m ≡ none = rw e at h in rw e (omega (arith, lookup-weigh_keys k m h'))
]

pub length-weigh : (xs : List QueueItem) → length xs ≡ weigh (λ _. 1) xs
unfolding weigh
length-weigh [] = refl
length-weigh (x ∷ xs) = omega (arith, length-weigh xs)

pub length-weigh_keys : (m : Map Bytes (Unit {0})) → length m ≡ weigh_keys (λ _. 1) m
length-weigh_keys [] = refl
length-weigh_keys ((k, _) ∷ m) = omega (arith, length-weigh_keys m)
