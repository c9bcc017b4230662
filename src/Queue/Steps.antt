-- ===== src/Queue/Steps.antt =====
-- internal/queue/queue.go: the methods that hold the lock.
use periapsis.Base.{
  ◌==◌, ℕ, ◌+◌, Bytes, Bool, true, false, Option, none, some, List, [], ◌∷◌, ltb, if◌then◌else◌,
  Time, Clock, lookup, insert, delete, bytes_eq, length,
}
use periapsis.Queue.Types.{
  Delay, add_delay, until, duration_deref, QueueItem, Queue, RateLimiter, RetryFunc,
}
use periapsis.Queue.Items.{insert_item, adjust_position, remove_item, update_item}

-- The writes of insert to an item that is being processed.
unfoldable pub redirty : QueueItem → Bool → Time → QueueItem
redirty item ratelimit when = elim item.redirtied_at [
  | none ↦ record item {
    redirtied_at = some when;
    redirtied_with_ratelimit = ratelimit;
    forget = false;
  }
  | some at ↦
      if ltb when at
      then record item {
        redirtied_at = some when;
        redirtied_with_ratelimit = ratelimit;
        forget = false;
      }
      else record item { forget = false }
]

abbrev pub new_item : Bytes → Time → Time → Option Delay → QueueItem
new_item key planned now delayed = record {
  key = key;
  planned_to_start_work_at = planned;
  redirtied_at = none;
  redirtied_with_ratelimit = false;
  forget = false;
  requeues = 0;
  originally_added = now;
  added_via_redirty = false;
  delayed_via_rate_limit = delayed;
}

abbrev pub or_delay : Option Delay → Delay → Delay
or_delay none d = d
or_delay (some d) _ = d

-- How a round of a worker ends.
pub data Outcome : Type 0 where
  told_to_forget requeued succeeded gave_up : Outcome

module _ {L : Type 0} where
  -- A write through the pointer that insert has returned.
  unfoldable pub update_inserted : Queue L → Bytes → (QueueItem → QueueItem) → Queue L
  update_inserted q key f = elim (lookup key q.items_being_processed) [
    | some item ↦ record q { items_being_processed = insert key (f item) q.items_being_processed }
    | none ↦ record q { items = update_item key f q.items }
  ]

module _ {L : Type 0} (limiter : RateLimiter L) where
  -- The last part of insert: a key that is neither queued nor being processed.
  unfoldable pub add_new : Queue L → Bytes → Bool → Option Delay → Time → Queue L
  add_new q key true delay now =
      let (limited, l) = limiter.when q.ratelimiter key in
      let actual_delay = or_delay delay limited in
      record q {
        ratelimiter = l;
        items =
            insert_item (new_item key (add_delay now actual_delay) now (some actual_delay)) q.items;
        items_in_queue = insert key tt q.items_in_queue;
      }
  add_new q key false delay now = record q {
    items = insert_item (new_item key (add_delay now (duration_deref delay)) now none) q.items;
    items_in_queue = insert key tt q.items_in_queue;
  }

  -- insert; `now` is what q.clock.Now() returns.
  unfoldable pub insert_key : Queue L → Bytes → Bool → Option Delay → Time → Queue L
  insert_key q key ratelimit delay now =
      let when = add_delay now (duration_deref delay) in
      elim (lookup key q.items_being_processed) [
        | some item ↦ record q {
          items_being_processed = insert key (redirty item ratelimit when) q.items_being_processed;
        }
        | none ↦ elim (lookup key q.items_in_queue) [
          | some _ ↦ record q { items = adjust_position key when q.items }
          | none ↦ add_new q key ratelimit delay now
        ]
      ]

  -- Enqueue
  unfoldable pub enqueue : Queue L → Bytes → Time → Queue L
  enqueue q key now = insert_key q key true none now

  -- EnqueueWithoutRateLimit
  unfoldable pub enqueue_without_rate_limit : Queue L → Bytes → Time → Queue L
  enqueue_without_rate_limit q key now = insert_key q key false none now

  -- EnqueueWithoutRateLimitWithDelay
  unfoldable pub enqueue_without_rate_limit_with_delay : Queue L → Bytes → Delay → Time → Queue L
  enqueue_without_rate_limit_with_delay q key delay now = insert_key q key false (some delay) now

  -- The end of handleQueueItemObject: the limiter forgets the key, and a redirtied item is put back.
  unfoldable pub settle_item : Queue L → QueueItem → Clock → Queue L
  settle_item q qi clock =
      let q' : Queue L = record q { ratelimiter = limiter.forget_key q.ratelimiter qi.key } in
      elim qi.redirtied_at [
        | none ↦ q'
        | some at ↦
            update_inserted
              (insert_key q' qi.key qi.redirtied_with_ratelimit (some (until (clock 0) at))
                (clock 1))
              qi.key (λ item. record item { added_via_redirty = true })
      ]

  -- The end of handleQueueItemObject after a failure that is to be tried again.
  unfoldable pub requeue_item : Queue L → QueueItem → Option Delay → Clock → Queue L
  requeue_item q qi delay clock =
      update_inserted (insert_key q qi.key true delay (clock 0)) qi.key
        (λ item. record item { requeues = qi.requeues + 1; originally_added = qi.originally_added })

  -- handleQueueItemObject, from the return of the handler on: `err` is the text of the error
  -- that it returned, if it returned one, and `qi` is the item as it stands among those being processed.
  unfoldable pub finish_item :
      RetryFunc → Queue L → QueueItem → Option Bytes → Clock → Queue L × Outcome
  finish_item retry q qi err clock =
      let q' : Queue L = record q {
        items_being_processed = delete qi.key q.items_being_processed;
      } in
      if qi.forget
      then (record q' { ratelimiter = limiter.forget_key q'.ratelimiter qi.key }, told_to_forget)
      else elim err [
        | none ↦ (settle_item q' qi clock, succeeded)
        | some text ↦ elim (retry qi.key (qi.requeues + 1) qi.originally_added text) [
          | some delay ↦ (requeue_item q' qi delay clock, requeued)
          | none ↦ (settle_item q' qi clock, gave_up)
        ]
      ]

module _ {L : Type 0} where
  -- Forget
  unfoldable pub forget : Queue L → Bytes → Queue L
  forget q key = elim (lookup key q.items_in_queue) [
    | some _ ↦ record q {
      items_in_queue = delete key q.items_in_queue;
      items = remove_item key q.items;
    }
    | none ↦ elim (lookup key q.items_being_processed) [
      | some qi ↦ record q {
        items_being_processed = insert key (record qi { forget = true }) q.items_being_processed;
      }
      | none ↦ q
    ]
  ]

  -- The switch of getNextItem on the front of the list.
  unfoldable pub next_of : List QueueItem → Queue L → Time → Option (QueueItem × Queue L)
  next_of [] q now = none
  next_of (qi ∷ rest) q now =
      if ltb now qi.planned_to_start_work_at
      then none
      else some (
        qi,
        record q {
          items_being_processed = insert qi.key qi q.items_being_processed;
          items = rest;
          items_in_queue = delete qi.key q.items_in_queue;
        },
      )

  -- One round of the loop of getNextItem; `none` is a wait, for the timer or for a wakeup.
  unfoldable pub next_item : Queue L → Time → Option (QueueItem × Queue L)
  next_item q now = next_of q.items q now

  -- Len; `none` is the panic "Internally inconsistent state".
  unfoldable pub len : Queue L → Option ℕ
  len q =
      if length q.items == length q.items_in_queue
      then some (length q.items + length q.items_being_processed)
      else none

  -- UnprocessedLen
  unfoldable pub unprocessed_len : Queue L → Option ℕ
  unprocessed_len q =
      if length q.items == length q.items_in_queue then some (length q.items_in_queue) else none

  -- ItemsBeingProcessedLen
  unfoldable pub items_being_processed_len : Queue L → ℕ
  items_being_processed_len q = length q.items_being_processed
