-- ===== src/Queue/Order.antt =====
-- internal/queue/queue.go: the list stays in the order of the planned times.
use periapsis.Base.{◌≤◌, ◌≡◌, refl, Bytes, str_eq, List, [], ◌∷◌, ltb, All, if_cases, Time, arith}
use periapsis.Queue.Types.{QueueItem}
use periapsis.Queue.Items.{
  reverse_onto, place, insert_item, adjust_from, adjust_position, remove_item, update_item,
}

-- Every item of the list is planned for `t` or later.
abbrev pub AllFrom : Time → List QueueItem → Type 0
AllFrom t xs = All (λ x. t ≤ x.planned_to_start_work_at) xs

unfoldable pub IsSorted : List QueueItem → Type 0
IsSorted [] = Unit
IsSorted (x ∷ xs) = AllFrom x.planned_to_start_work_at xs × IsSorted xs

pub AllFrom-trans : (s t : Time) (xs : List QueueItem) → s ≤ t → AllFrom t xs → AllFrom s xs
AllFrom-trans s t [] le h = tt
AllFrom-trans s t (x ∷ xs) le h = (omega (arith, le, h.0), AllFrom-trans s t xs le h.1)

pub reverse_onto-suffix :
    (before rest : List QueueItem) → IsSorted (reverse_onto before rest) → IsSorted rest
unfolding reverse_onto IsSorted
reverse_onto-suffix [] rest h = h
reverse_onto-suffix (x ∷ before) rest h = (reverse_onto-suffix before (x ∷ rest) h).1

-- The items before the cursor do not look at what follows it but for its bounds.
pub reverse_onto_mono :
    (before rest other : List QueueItem)
    → IsSorted (reverse_onto before rest)
    → IsSorted other
    → ((t : Time) → AllFrom t rest → AllFrom t other)
    → IsSorted (reverse_onto before other)
unfolding reverse_onto IsSorted
reverse_onto_mono [] rest other h s f = s
reverse_onto_mono (x ∷ before) rest other h s f =
    let here = reverse_onto-suffix before (x ∷ rest) h in
    reverse_onto_mono before (x ∷ rest) (x ∷ other) h (f x.planned_to_start_work_at here.0, s)
      (λ t a. (a.0, f t a.1))

pub place-IsSorted :
    (v : QueueItem) (before later : List QueueItem)
    → IsSorted (reverse_onto before later)
    → AllFrom v.planned_to_start_work_at later
    → IsSorted (place v before later)
unfolding reverse_onto place IsSorted
place-IsSorted v [] later h a = (a, h)
place-IsSorted v (x ∷ before) later h a =
    let here = reverse_onto-suffix before (x ∷ later) h in
    let on = λ (le : v.planned_to_start_work_at ≤ x.planned_to_start_work_at).
      place-IsSorted v before (x ∷ later) h (le, a) in
    if_cases IsSorted (ltb x.planned_to_start_work_at v.planned_to_start_work_at)
      (λ e.
        reverse_onto_mono before (x ∷ later) (x ∷ v ∷ later) h
          ((ground arith, AllFrom-trans _ _ later (ground arith) a), (a, here.1))
          (λ t b. (b.0, (ground arith, b.1))))
      (λ e. on (ground arith))

-- To the back of the list and to the front again.
pub reverse_onto-back :
    (xs before : List QueueItem) → reverse_onto (reverse_onto xs before) [] ≡ reverse_onto before xs
unfolding reverse_onto
reverse_onto-back [] before = refl
reverse_onto-back (x ∷ xs) before = reverse_onto-back xs (x ∷ before)

pub insert_item-IsSorted :
    (v : QueueItem) (xs : List QueueItem) → IsSorted xs → IsSorted (insert_item v xs)
unfolding insert_item reverse_onto
insert_item-IsSorted v xs h =
    place-IsSorted v (reverse_onto xs []) [] (rw (reverse_onto-back xs []) h) tt

pub remove_item-AllFrom :
    (t : Time) (k : Bytes) (xs : List QueueItem) → AllFrom t xs → AllFrom t (remove_item k xs)
unfolding remove_item
remove_item-AllFrom t k [] a = tt
remove_item-AllFrom t k (x ∷ xs) a =
    let on = remove_item-AllFrom t k xs a.1 in
    if_cases (λ (l : List QueueItem). AllFrom t l) (str_eq x.key k) (λ _. a.1) (λ _. (a.0, on))

pub remove_item-IsSorted :
    (k : Bytes) (xs : List QueueItem) → IsSorted xs → IsSorted (remove_item k xs)
unfolding remove_item IsSorted
remove_item-IsSorted k [] h = tt
remove_item-IsSorted k (x ∷ xs) h =
    let on = remove_item-IsSorted k xs h.1 in
    if_cases IsSorted (str_eq x.key k) (λ _. h.1)
      (λ _. (remove_item-AllFrom x.planned_to_start_work_at k xs h.0, on))

pub update_item-AllFrom :
    (t : Time) (k : Bytes) (f : QueueItem → QueueItem) (xs : List QueueItem)
    → ((x : QueueItem) → (f x).planned_to_start_work_at ≡ x.planned_to_start_work_at)
    → AllFrom t xs
    → AllFrom t (update_item k f xs)
unfolding update_item
update_item-AllFrom t k f [] same a = tt
update_item-AllFrom t k f (x ∷ xs) same a =
    let on = update_item-AllFrom t k f xs same a.1 in
    if_cases (λ (l : List QueueItem). AllFrom t l) (str_eq x.key k)
      (λ _. (omega (arith, same x, a.0), a.1)) (λ _. (a.0, on))

pub update_item-IsSorted :
    (k : Bytes) (f : QueueItem → QueueItem) (xs : List QueueItem)
    → ((x : QueueItem) → (f x).planned_to_start_work_at ≡ x.planned_to_start_work_at)
    → IsSorted xs
    → IsSorted (update_item k f xs)
unfolding update_item IsSorted
update_item-IsSorted k f [] same h = tt
update_item-IsSorted k f (x ∷ xs) same h =
    let on = update_item-IsSorted k f xs same h.1 in
    if_cases IsSorted (str_eq x.key k)
      (λ _. (AllFrom-trans _ _ xs (omega (arith, same x)) h.0, h.1))
      (λ _. (update_item-AllFrom x.planned_to_start_work_at k f xs same h.0, on))

pub adjust_from-IsSorted :
    (k : Bytes) (t : Time) (before xs : List QueueItem)
    → IsSorted (reverse_onto before xs)
    → IsSorted (adjust_from k t before xs)
unfolding adjust_from reverse_onto IsSorted
adjust_from-IsSorted k t before [] h = h
adjust_from-IsSorted k t before (x ∷ xs) h =
    let on = adjust_from-IsSorted k t (x ∷ before) xs h in
    let here = reverse_onto-suffix before (x ∷ xs) h in
    if_cases IsSorted (str_eq x.key k)
      (λ _.
        if_cases IsSorted (ltb x.planned_to_start_work_at t) (λ _. h)
          (λ e.
            place-IsSorted (record x { planned_to_start_work_at = t }) before xs
              (reverse_onto_mono before (x ∷ xs) xs h here.1 (λ s a. a.1))
              (AllFrom-trans t x.planned_to_start_work_at xs (ground arith) here.0)))
      (λ _. on)

-- A list in the order of the planned times is so after adjustPosition.
pub adjust_position-IsSorted :
    (k : Bytes) (t : Time) (xs : List QueueItem) → IsSorted xs → IsSorted (adjust_position k t xs)
unfolding adjust_position reverse_onto
adjust_position-IsSorted k t xs h = adjust_from-IsSorted k t [] xs h
