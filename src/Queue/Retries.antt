-- ===== src/Queue/Retries.antt =====
-- internal/queue/queue.go with DefaultRetryFunc: how often a key is tried again.
use periapsis.Base.{
  ℕ, ◌<◌, ◌≤◌, ◌≡◌, ◌∙◌, str_eq_iff, true, false, inl, inr, Bytes, str_eq, Option, some, List, [],
  ◌∷◌, ltb, if_cases, Time, Map, lookup, insert, delete, bytes_eq, arith, All, Bool-cases,
}
use periapsis.Queue.Types.{QueueItem, max_retries}
use mathlib.Core.Path.{subst}
use periapsis.Queue.Weights.{weigh, only}
use periapsis.Queue.Items.{reverse_onto, place, insert_item, adjust_from, remove_item, update_item}

-- What is kept of the items while the key `tracked` has been put back `n` times in a row.
module _ (tracked : Bytes) (n : ℕ) where
  -- Fewer than 20 tries are counted, and if it is the item of the key no fewer than there were.
  abbrev pub Few : QueueItem → Type 0
  Few x = (x.requeues < max_retries) × (str_eq x.key tracked ≡ true → n ≤ x.requeues)

  abbrev pub AllFew : List QueueItem → Type 0
  AllFew xs = All Few xs

  -- An item that is being processed stands under its own key.
  abbrev pub MapFew : Map Bytes QueueItem → Type 0
  MapFew m = All (λ (p : Bytes × QueueItem). (p.1.key ≡ p.0) × Few p.1) m

  pub reverse_onto-AllFew :
      (before rest : List QueueItem)
      → AllFew before
      → AllFew rest
      → AllFew (reverse_onto before rest)
  unfolding reverse_onto
  reverse_onto-AllFew [] rest b r = r
  reverse_onto-AllFew (x ∷ before) rest b r = reverse_onto-AllFew before (x ∷ rest) b.1 (b.0, r)

  pub place-AllFew :
      (v : QueueItem) (before later : List QueueItem)
      → Few v
      → AllFew before
      → AllFew later
      → AllFew (place v before later)
  unfolding place
  place-AllFew v [] later p b l = (p, l)
  place-AllFew v (x ∷ before) later p b l =
      let on = place-AllFew v before (x ∷ later) p b.1 (b.0, l) in
      if_cases AllFew (ltb x.planned_to_start_work_at v.planned_to_start_work_at)
        (λ _. reverse_onto-AllFew before (x ∷ v ∷ later) b.1 (b.0, (p, l))) (λ _. on)

  pub insert_item-AllFew :
      (v : QueueItem) (xs : List QueueItem) → Few v → AllFew xs → AllFew (insert_item v xs)
  unfolding insert_item
  insert_item-AllFew v xs p h =
      place-AllFew v (reverse_onto xs []) [] p (reverse_onto-AllFew xs [] h tt) tt

  pub adjust_from-AllFew :
      (k : Bytes) (t : Time) (before xs : List QueueItem)
      → AllFew before
      → AllFew xs
      → AllFew (adjust_from k t before xs)
  unfolding adjust_from
  adjust_from-AllFew k t before [] b h = reverse_onto-AllFew before [] b tt
  adjust_from-AllFew k t before (x ∷ xs) b h =
      let on = adjust_from-AllFew k t (x ∷ before) xs (h.0, b) h.1 in
      if_cases AllFew (str_eq x.key k)
        (λ _.
          if_cases AllFew (ltb x.planned_to_start_work_at t)
            (λ _. reverse_onto-AllFew before (x ∷ xs) b h)
            (λ _. place-AllFew (record x { planned_to_start_work_at = t }) before xs h.0 b h.1))
        (λ _. on)

  pub remove_item-AllFew : (k : Bytes) (xs : List QueueItem) → AllFew xs → AllFew (remove_item k xs)
  unfolding remove_item
  remove_item-AllFew k [] h = tt
  remove_item-AllFew k (x ∷ xs) h =
      let on = remove_item-AllFew k xs h.1 in
      if_cases AllFew (str_eq x.key k) (λ _. h.1) (λ _. (h.0, on))

  pub update_item-AllFew :
      (k : Bytes) (f : QueueItem → QueueItem) (xs : List QueueItem)
      → ((x : QueueItem) → Few x → Few (f x))
      → AllFew xs
      → AllFew (update_item k f xs)
  unfolding update_item
  update_item-AllFew k f [] keeps h = tt
  update_item-AllFew k f (x ∷ xs) keeps h =
      let on = update_item-AllFew k f xs keeps h.1 in
      if_cases AllFew (str_eq x.key k) (λ _. (keeps x h.0, h.1)) (λ _. (h.0, on))

  pub insert-MapFew :
      (k : Bytes) (v : QueueItem) (m : Map Bytes QueueItem)
      → v.key ≡ k
      → Few v
      → MapFew m
      → MapFew (insert k v m)
  unfolding insert
  insert-MapFew k v [] own p h = ((own, p), tt)
  insert-MapFew k v ((j, w) ∷ m) own p h =
      let on = insert-MapFew k v m own p h.1 in
      if_cases MapFew (str_eq j k) (λ _. ((own, p), h.1)) (λ _. (h.0, on))

  pub delete-MapFew : (k : Bytes) (m : Map Bytes QueueItem) → MapFew m → MapFew (delete k m)
  unfolding delete
  delete-MapFew k [] h = tt
  delete-MapFew k ((j, w) ∷ m) h =
      let on = delete-MapFew k m h.1 in if_cases MapFew (str_eq j k) (λ _. on) (λ _. (h.0, on))

  pub lookup-MapFew :
      (k : Bytes) (m : Map Bytes QueueItem) {v : QueueItem}
      → MapFew m
      → lookup k m ≡ some v
      → (v.key ≡ k) × Few v
  unfolding lookup
  lookup-MapFew k [] h e = cc
  lookup-MapFew k ((j, w) ∷ m) {v} h e = elim (Bool-cases (str_eq j k)) [
    | inl same ↦
        let found : ◌≡◌ {A = Option QueueItem} (some w) (some v) = rw same at e in
        let w_v : w ≡ v = cc in
        let j_k : j ≡ k = (str_eq_iff j k).0 same in
        subst (λ (x : QueueItem). (x.key ≡ k) × Few x) w_v (h.0.0 ∙ j_k, h.0.1)
    | inr other ↦ lookup-MapFew k m h.1 (rw other at e)
  ]

-- No item of the list has the key.
abbrev pub AllOther : Bytes → List QueueItem → Type 0
AllOther k xs = All (λ (x : QueueItem). str_eq x.key k ≡ false) xs

pub weigh-AllOther : (k : Bytes) (xs : List QueueItem) → weigh (only k) xs ≡ 0 → AllOther k xs
unfolding weigh
weigh-AllOther k [] e = tt
weigh-AllOther k (x ∷ xs) e = (ground (arith, e), weigh-AllOther k xs (ground (arith, e)))

-- The count may start again, or grow where no item of the key is left.
pub AllFew-fewer :
    (k : Bytes) {m n : ℕ} (xs : List QueueItem) → m ≤ n → AllFew k n xs → AllFew k m xs
AllFew-fewer k [] le h = tt
AllFew-fewer k (x ∷ xs) le h = ((h.0.0, λ e. omega (arith, le, h.0.1 e)), AllFew-fewer k xs le h.1)

pub MapFew-fewer :
    (k : Bytes) {m n : ℕ} (xs : Map Bytes QueueItem) → m ≤ n → MapFew k n xs → MapFew k m xs
MapFew-fewer k [] le h = tt
MapFew-fewer k ((j, w) ∷ xs) le h =
    ((h.0.0, (h.0.1.0, λ e. omega (arith, le, h.0.1.1 e))), MapFew-fewer k xs le h.1)

pub AllFew-other :
    (k : Bytes) (n m : ℕ) (xs : List QueueItem) → AllOther k xs → AllFew k n xs → AllFew k m xs
AllFew-other k n m [] other h = tt
AllFew-other k n m (x ∷ xs) other h =
    ((h.0.0, λ e. cc (e, other.0)), AllFew-other k n m xs other.1 h.1)

pub delete-MapFew_other :
    (k : Bytes) (n m : ℕ) (xs : Map Bytes QueueItem) → MapFew k n xs → MapFew k m (delete k xs)
unfolding delete
delete-MapFew_other k n m [] h = tt
delete-MapFew_other k n m ((j, w) ∷ xs) h =
    let on = delete-MapFew_other k n m xs h.1 in
    if_cases (MapFew k m) (str_eq j k) (λ _. on)
      (λ e. ((h.0.0, (h.0.1.0, λ f. cc (rw h.0.0 at f, e))), on))

-- An item of the key bounds the count.
pub weigh-Few :
    (k : Bytes) (n : ℕ) (xs : List QueueItem)
    → 0 < weigh (only k) xs
    → AllFew k n xs
    → n < max_retries
unfolding weigh
weigh-Few k n [] some_left h = omega (arith, some_left)
weigh-Few k n (x ∷ xs) some_left h = elim (Bool-cases (str_eq x.key k)) [
  | inl e ↦ omega (arith, h.0.0, h.0.1 e)
  | inr e ↦ weigh-Few k n xs (omega (arith, rw e at some_left)) h.1
]
