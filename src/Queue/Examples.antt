-- ===== src/Queue/Examples.antt =====
-- internal/queue/queue.go: two keys, and a worker that takes one of them.
use periapsis.Base.{
  ℕ, suc, ◌<◌, ◌+◌, ◌≡◌, refl, Bytes, bytes, str_eq, false, Option, none, some, [], ◌∷◌, Time,
  Clock, length, bytes_eq, lookup, insert, delete,
}
use periapsis.Queue.Types.{
  Delay, ahead, QueueItem, Queue, RateLimiter, default_retry_func, max_retries, new_queue,
}
use periapsis.Queue.Items.{reverse_onto, place, insert_item}
use periapsis.Queue.Steps.{
  add_new, insert_key, enqueue, enqueue_without_rate_limit, next_of, next_item, len, finish_item,
}
use periapsis.Queue.PutBack.{put_back, put_back-bounded}
use periapsis.Queue.Consistent.{IsConsistent}
use periapsis.Queue.Workers.{
  Next, next_item_lem, enqueued, enqueued_now, picked, finished, Reach, made, stepped,
  Reach-IsConsistent, Reach-len,
}

-- A limiter that counts its calls and always gives five nanoseconds.
abbrev toy : RateLimiter ℕ
toy = record { when = λ l key. (ahead 5, suc l); forget_key = λ l key. 0 }

abbrev ticks : Clock
ticks n = 100 + n

abbrev key_a : Bytes
key_a = bytes "default/a"

abbrev key_b : Bytes
key_b = bytes "default/b"

abbrev item : Bytes → Time → Time → Option Delay → QueueItem
item key planned added delayed = record {
  key = key;
  planned_to_start_work_at = planned;
  redirtied_at = none;
  redirtied_with_ratelimit = false;
  forget = false;
  requeues = 0;
  originally_added = added;
  added_via_redirty = false;
  delayed_via_rate_limit = delayed;
}

abbrev two_keys : Queue ℕ
two_keys = enqueue_without_rate_limit toy (enqueue toy (new_queue 0) key_a 10) key_b 12

two_keys-Reach : Reach toy default_retry_func two_keys
two_keys-Reach = stepped (stepped (made 0) (enqueued key_a 10)) (enqueued_now key_b 12)

-- The key that was enqueued last is due first.
abbrev b_taken : Queue ℕ
b_taken = record {
  ratelimiter = 1;
  items = item key_a 15 10 (some (ahead 5)) ∷ [];
  items_in_queue = (key_a, tt) ∷ [];
  items_being_processed = (key_b, item key_b 12 12 none) ∷ [];
}

next_item_b : next_item two_keys 14 ≡ some (item key_b 12 12 none, b_taken)
unfolding next_item next_of enqueue enqueue_without_rate_limit insert_key add_new new_queue
    insert_item place reverse_onto lookup insert delete str_eq bytes
next_item_b = refl

b_taken-Reach : Reach toy default_retry_func b_taken
b_taken-Reach = stepped two_keys-Reach (picked (item key_b 12 12 none) 14 next_item_b)

b_held : lookup key_b b_taken.items_being_processed ≡ some (item key_b 12 12 none)
unfolding lookup str_eq bytes
b_held = refl

Reach-len_example : len b_taken ≡ some (length b_taken.items + length b_taken.items_being_processed)
Reach-len_example = Reach-len toy default_retry_func b_taken-Reach

Reach-IsConsistent_example : IsConsistent b_taken
Reach-IsConsistent_example = Reach-IsConsistent toy default_retry_func b_taken-Reach

next_item_lem_example : Next b_taken 20 (next_item b_taken 20)
next_item_lem_example =
    next_item_lem b_taken 20 (Reach-IsConsistent toy default_retry_func b_taken-Reach)

-- The handler fails for the key that was taken, which is put back.
tried_again-Reach :
    Reach toy default_retry_func
      (finish_item toy default_retry_func b_taken
        (item key_b 12 12 none)
        (some (bytes "no node"))
        ticks).0
tried_again-Reach =
    stepped b_taken-Reach
      (finished key_b (item key_b 12 12 none) (some (bytes "no node")) ticks b_held)

put_back-bounded_example : put_back toy key_b tried_again-Reach < max_retries
put_back-bounded_example = put_back-bounded toy key_b tried_again-Reach
