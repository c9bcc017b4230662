-- ===== src/Queue/Workers.antt =====
-- internal/queue/queue.go: the callers and the workers, whose calls come in any order.
use periapsis.Base.{
  total-delete, delete-IsDistinct, suc, ◌+◌, ◌≤◌, ◌≡◌, refl, sym, ◌∙◌, inl, inr, Bytes, str_eq_refl,
  true, false, Option, none, some, List, [], ◌∷◌, ltb, if_cases, Time, Clock, lookup, insert,
  delete, bytes_eq, arith, lookup-insert, lookup-delete, Option-cases, length,
}
use periapsis.Queue.Types.{Delay, QueueItem, Queue, RateLimiter, RetryFunc, new_queue}
use periapsis.Queue.Steps.{
  enqueue, enqueue_without_rate_limit, enqueue_without_rate_limit_with_delay, settle_item,
  requeue_item, finish_item, Outcome, forget, next_of, next_item, len,
}
use periapsis.Queue.Weights.{weigh, only, lookup-weigh_keys, length-weigh, length-weigh_keys}
use periapsis.Queue.Order.{AllFrom, AllFrom-trans, IsSorted}
use periapsis.Queue.Consistent.{
  IsConsistent, new_queue-IsConsistent, insert_key-IsConsistent, update_inserted-IsConsistent,
  drop_processed-IsConsistent, set_limiter-IsConsistent, forget-IsConsistent,
}

module _ {L : Type 0} where
  -- The front of the list is in the map.
  pub front-queued :
      (q : Queue L) (qi : QueueItem) (rest : List QueueItem)
      → IsConsistent q
      → q.items ≡ qi ∷ rest
      → lookup qi.key q.items_in_queue ≡ some tt
  unfolding weigh
  front-queued q qi rest c e = elim (Option-cases (lookup qi.key q.items_in_queue)) [
    | inr (tt, h) ↦ h
    | inl h ↦
        let zero_weight = lookup-weigh_keys qi.key q.items_in_queue h in
        let own = rw (e, str_eq_refl) at (c.same_keys (only qi.key)) in
        ground (arith, own, zero_weight)
  ]

  pub take_front-IsConsistent :
      (q : Queue L) (qi : QueueItem) (rest : List QueueItem)
      → IsConsistent q
      → q.items ≡ qi ∷ rest
      → IsConsistent (record q {
        items_being_processed = insert qi.key qi q.items_being_processed;
        items = rest;
        items_in_queue = delete qi.key q.items_in_queue;
      })
  unfolding weigh IsSorted
  take_front-IsConsistent q qi rest c e =
      let held = front-queued q qi rest c e in
      let order : IsSorted (qi ∷ rest) = rw e at c.sorted in
      record {
        same_keys = λ w.
            let own = rw e at (c.same_keys w) in
            omega (arith, own, total-delete (λ k _. w k) qi.key q.items_in_queue c.distinct held);
        distinct = delete-IsDistinct qi.key q.items_in_queue c.distinct;
        apart = λ j h. ground (
          arith,
          lookup-delete qi.key j q.items_in_queue,
          lookup-insert qi.key j qi q.items_being_processed,
          c.apart j,
          h,
        );
        sorted = order.1;
      }

  -- What getNextItem does with the list: nothing is due, or the item that is due first is taken, and
  -- no worker has its key.
  abbrev pub Next : Queue L → Time → Option (QueueItem × Queue L) → Type 0
  Next q now none = AllFrom (suc now) q.items
  Next q now (some (qi, q')) =
      (q.items ≡ qi ∷ q'.items)
      × (qi.planned_to_start_work_at ≤ now)
      × AllFrom qi.planned_to_start_work_at q'.items
      × (lookup qi.key q.items_being_processed ≡ none)
      × (lookup qi.key q'.items_being_processed ≡ some qi)
      × IsConsistent q'

  pub next_of_lem :
      (xs : List QueueItem) (q : Queue L) (now : Time)
      → IsConsistent q
      → q.items ≡ xs
      → Next q now (next_of xs q now)
  unfolding next_of IsSorted
  next_of_lem [] q now c e = rw e tt
  next_of_lem (qi ∷ rest) q now c e =
      let order : IsSorted (qi ∷ rest) = rw e at c.sorted in
      let held = c.apart qi.key (front-queued q qi rest c e) in
      if_cases (Next q now) (ltb now qi.planned_to_start_work_at)
        (λ late. rw e ((ground arith, AllFrom-trans _ _ rest (ground arith) order.0)))
        (λ due. (
          e,
          ground arith,
          order.0,
          held,
          ground
              (arith, lookup-insert qi.key qi.key qi q.items_being_processed, str_eq_refl qi.key),
          take_front-IsConsistent q qi rest c e,
        ))

  -- One round of getNextItem on a consistent queue: it waits only when every item of the list is
  -- planned for later than now; otherwise it takes the front, which is planned for now or before
  -- and not later than any other, whose key no worker has, and the queue is consistent again.
  pub next_item_lem : (q : Queue L) (now : Time) → IsConsistent q → Next q now (next_item q now)
  unfolding next_item
  next_item_lem q now c = next_of_lem q.items q now c refl

  -- On a consistent queue Len does not panic: it returns the number of the items that wait and of
  -- those being processed.
  pub len-total :
      (q : Queue L)
      → IsConsistent q
      → len q ≡ some (length q.items + length q.items_being_processed)
  unfolding len
  len-total q c =
      let same : length q.items ≡ length q.items_in_queue =
        length-weigh q.items ∙ c.same_keys (λ _. 1) ∙ sym (length-weigh_keys q.items_in_queue) in
      ground (arith, same)

module _ {L : Type 0} (limiter : RateLimiter L) (retry : RetryFunc) where
  pub settle_item-IsConsistent :
      (q : Queue L) (qi : QueueItem) (clock : Clock)
      → IsConsistent q
      → IsConsistent (settle_item limiter q qi clock)
  unfolding settle_item
  settle_item-IsConsistent q qi clock c = elim (Option-cases qi.redirtied_at) [
    | inl e ↦ rw (e, settle_item) (set_limiter-IsConsistent q _ c)
    | inr (at, e) ↦
        rw (e, settle_item)
          (update_inserted-IsConsistent _ qi.key _ (λ _. refl) (λ _. refl)
            (insert_key-IsConsistent limiter _ qi.key qi.redirtied_with_ratelimit _ (clock 1)
              (set_limiter-IsConsistent q _ c)))
  ]

  pub requeue_item-IsConsistent :
      (q : Queue L) (qi : QueueItem) (delay : Option Delay) (clock : Clock)
      → IsConsistent q
      → IsConsistent (requeue_item limiter q qi delay clock)
  unfolding requeue_item
  requeue_item-IsConsistent q qi delay clock c =
      update_inserted-IsConsistent _ qi.key _ (λ _. refl) (λ _. refl)
        (insert_key-IsConsistent limiter q qi.key true delay (clock 0) c)

  abbrev EndsConsistent : Queue L × Outcome → Type 0
  EndsConsistent r = IsConsistent r.0

  -- However a worker's round ends, the queue is consistent.
  pub finish_item-IsConsistent :
      (q : Queue L) (qi : QueueItem) (err : Option Bytes) (clock : Clock)
      → IsConsistent q
      → IsConsistent (finish_item limiter retry q qi err clock).0
  unfolding finish_item
  finish_item-IsConsistent q qi err clock c =
      let c' = drop_processed-IsConsistent q qi.key c in
      if_cases EndsConsistent qi.forget (λ _. set_limiter-IsConsistent _ _ c')
        (λ _. elim (Option-cases err) [
          | inl fine ↦ rw fine (settle_item-IsConsistent _ qi clock c')
          | inr (text, wrong) ↦
              elim (Option-cases (retry qi.key (qi.requeues + 1) qi.originally_added text)) [
                | inl e ↦ rw (wrong, e) (settle_item-IsConsistent _ qi clock c')
                | inr (delay, e) ↦ rw (wrong, e) (requeue_item-IsConsistent _ qi delay clock c')
              ]
        ])

  -- The calls that the queue's users and workers make.
  pub data Step : Queue L → Queue L → Type 0 where
    enqueued : {q : Queue L} (key : Bytes) (now : Time) → Step q (enqueue limiter q key now)
    enqueued_now :
        {q : Queue L} (key : Bytes) (now : Time)
        → Step q (enqueue_without_rate_limit limiter q key now)
    enqueued_later :
        {q : Queue L} (key : Bytes) (delay : Delay) (now : Time)
        → Step q (enqueue_without_rate_limit_with_delay limiter q key delay now)
    forgotten : {q : Queue L} (key : Bytes) → Step q (forget q key)
    picked :
        {q q' : Queue L} (qi : QueueItem) (now : Time) → next_item q now ≡ some (qi, q') → Step q q'
    finished :
        {q : Queue L} (key : Bytes) (qi : QueueItem) (err : Option Bytes) (clock : Clock)
        → lookup key q.items_being_processed ≡ some qi
        → Step q (finish_item limiter retry q qi err clock).0

  -- The states of a queue that New has made.
  pub data Reach : Queue L → Type 0 where
    made : (l : L) → Reach (new_queue l)
    stepped : {q q' : Queue L} → Reach q → Step q q' → Reach q'

  pub Step-IsConsistent : {q q' : Queue L} → Step q q' → IsConsistent q → IsConsistent q'
  unfolding enqueue enqueue_without_rate_limit enqueue_without_rate_limit_with_delay
  Step-IsConsistent (enqueued {q} key now) c = insert_key-IsConsistent limiter q key true none now c
  Step-IsConsistent (enqueued_now {q} key now) c =
      insert_key-IsConsistent limiter q key false none now c
  Step-IsConsistent (enqueued_later {q} key delay now) c =
      insert_key-IsConsistent limiter q key false (some delay) now c
  Step-IsConsistent (forgotten {q} key) c = forget-IsConsistent q key c
  Step-IsConsistent (picked {q} {q'} qi now e) c =
      let n : Next q now (some (qi, q')) = rw e at (next_item_lem q now c) in n.5
  Step-IsConsistent (finished {q} key qi err clock e) c = finish_item-IsConsistent q qi err clock c

  -- Whatever calls the users and the workers have made, in whatever order, the list and the map
  -- hold the same keys, each once, no key that waits is being processed, and the list is in the
  -- order of the planned times.
  pub Reach-IsConsistent : {q : Queue L} → Reach q → IsConsistent q
  Reach-IsConsistent (made l) = new_queue-IsConsistent l
  Reach-IsConsistent (stepped r s) = Step-IsConsistent s (Reach-IsConsistent r)

  -- Whatever calls have been made, Len does not panic: it returns the number of the items that
  -- wait and of those being processed.
  pub Reach-len :
      {q : Queue L} → Reach q → len q ≡ some (length q.items + length q.items_being_processed)
  Reach-len {q} r = len-total q (Reach-IsConsistent r)
