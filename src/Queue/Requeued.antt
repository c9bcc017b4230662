-- ===== src/Queue/Requeued.antt =====
-- internal/queue/queue.go: the item that is put back after a failure.
use periapsis.Base.{
  ℕ, ◌+◌, ◌<◌, ◌≤◌, ◌≡◌, refl, inl, inr, Bytes, str_eq, str_eq_refl, true, false, Option, none,
  some, List, [], ◌∷◌, ltb, Time, Clock, lookup, bytes_eq, Bool-cases, ap, ◌∙◌,
}
use periapsis.Queue.Types.{add_delay, Delay, QueueItem, Queue, RateLimiter, max_retries}
use periapsis.Queue.Items.{reverse_onto, place, insert_item, update_item}
use periapsis.Queue.Steps.{or_delay, new_item, add_new, insert_key, update_inserted, requeue_item}
use periapsis.Queue.Retries.{AllFew, MapFew, AllOther, insert_item-AllFew}
use periapsis.Queue.RetryBound.{RetriesFew, add-RetriesFew}

-- The write to the item that was put in last, when no other has its key.
module _ (k : Bytes) (f : QueueItem → QueueItem) where
  update_item-reverse_onto :
      (before rest : List QueueItem)
      → AllOther k before
      → update_item k f (reverse_onto before rest) ≡ reverse_onto before (update_item k f rest)
  unfolding reverse_onto update_item
  update_item-reverse_onto [] rest h = refl
  update_item-reverse_onto (x ∷ before) rest h =
      rw h.0 at (update_item-reverse_onto before (x ∷ rest) h.1)

  update_item-place :
      (v : QueueItem) (before later : List QueueItem)
      → str_eq v.key k ≡ true
      → (f v).planned_to_start_work_at ≡ v.planned_to_start_work_at
      → AllOther k before
      → update_item k f (place v before later) ≡ place (f v) before later
  unfolding place update_item
  update_item-place v [] later own same h = rw own refl
  update_item-place v (x ∷ before) later own same h =
      let on = update_item-place v before (x ∷ later) own same h.1 in
      let back = update_item-reverse_onto before (x ∷ v ∷ later) h.1 in
      elim (Bool-cases (ltb x.planned_to_start_work_at v.planned_to_start_work_at)) [
        | inl e ↦
            let e' = ap (ltb x.planned_to_start_work_at) same ∙ e in
            rw (e, e') (rw (h.0, own) at back)
        | inr e ↦ let e' = ap (ltb x.planned_to_start_work_at) same ∙ e in rw (e, e') on
      ]

AllOther-reverse_onto :
    (k : Bytes) (before rest : List QueueItem)
    → AllOther k before
    → AllOther k rest
    → AllOther k (reverse_onto before rest)
unfolding reverse_onto
AllOther-reverse_onto k [] rest b r = r
AllOther-reverse_onto k (x ∷ before) rest b r =
    AllOther-reverse_onto k before (x ∷ rest) b.1 (b.0, r)

update_item-insert_item :
    (k : Bytes) (f : QueueItem → QueueItem) (v : QueueItem) (xs : List QueueItem)
    → str_eq v.key k ≡ true
    → (f v).planned_to_start_work_at ≡ v.planned_to_start_work_at
    → AllOther k xs
    → update_item k f (insert_item v xs) ≡ insert_item (f v) xs
unfolding insert_item
update_item-insert_item k f v xs own same h =
    update_item-place k f v (reverse_onto xs []) [] own same (AllOther-reverse_onto k xs [] h tt)

update_inserted-waiting :
    {L : Type 0} (t : Queue L) (k : Bytes) (f : QueueItem → QueueItem)
    → lookup k t.items_being_processed ≡ none
    → update_inserted t k f ≡ record t { items = update_item k f t.items }
unfolding update_inserted
update_inserted-waiting t k f e = rw (e, update_inserted) refl

module _ {L : Type 0} (limiter : RateLimiter L) where
  insert_key-new :
      (q : Queue L) (k : Bytes) (delay : Option Delay) (now : Time)
      → lookup k q.items_being_processed ≡ none
      → lookup k q.items_in_queue ≡ none
      → insert_key limiter q k true delay now ≡ add_new limiter q k true delay now
  unfolding insert_key
  insert_key-new q k delay now e g = rw (e, insert_key) (rw g refl)

  -- A round that puts its item back: nothing else in the queue has the key, and the new item has
  -- counted the tries.
  pub requeue_item-RetriesFew :
      (tracked : Bytes) (n : ℕ) (q : Queue L) (qi : QueueItem) (delay : Option Delay)
      (clock : Clock)
      → lookup qi.key q.items_being_processed ≡ none
      → lookup qi.key q.items_in_queue ≡ none
      → AllOther qi.key q.items
      → AllFew tracked n q.items
      → MapFew tracked n q.items_being_processed
      → qi.requeues + 1 < max_retries
      → (str_eq qi.key tracked ≡ true → n ≤ qi.requeues + 1)
      → (str_eq qi.key tracked ≡ false → RetriesFew tracked n q)
      → RetriesFew tracked n (requeue_item limiter q qi delay clock)
  unfolding requeue_item add_new
  requeue_item-RetriesFew tracked n q qi delay clock e g others all m small own other =
      let waits = or_delay delay (limiter.when q.ratelimiter qi.key).0 in
      let v : QueueItem = new_item qi.key (add_delay (clock 0) waits) (clock 0) (some waits) in
      let f : QueueItem → QueueItem =
        λ x. record x { requeues = qi.requeues + 1; originally_added = qi.originally_added } in
      let put : update_item qi.key f (insert_item v q.items) ≡ insert_item (f v) q.items =
        update_item-insert_item qi.key f v q.items (str_eq_refl qi.key) refl others in
      let few : AllFew tracked n (update_item qi.key f (insert_item v q.items)) =
        rw put (insert_item-AllFew tracked n (f v) q.items (small, own) all) in
      rw
        (
          insert_key-new q qi.key delay (clock 0) e g,
          update_inserted-waiting (add_new limiter q qi.key true delay (clock 0)) qi.key f e,
        )
        (add-RetriesFew tracked n q _ qi.key _ few m other)
