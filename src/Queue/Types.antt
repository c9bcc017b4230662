-- ===== src/Queue/Types.antt =====
-- The types of internal/queue/queue.go, and the instants and delays that it computes with.
use periapsis.Base.{
  ℕ, ◌+◌, ◌-◌, Bytes, Bool, Option, none, some, List, [], leb, ltb, if◌then◌else◌, Time, Map,
}

-- A time.Duration that is added to an instant: it may be negative.
pub data Delay : Type 0 where
  ahead back : ℕ → Delay

-- t.Add(d), for an instant that is not moved before the zero time.
abbrev pub add_delay : Time → Delay → Time
add_delay t (ahead d) = t + d
add_delay t (back d) = t - d

-- time.Until(t), at the instant `now`.
abbrev pub until : Time → Time → Delay
until now t = if leb now t then ahead (t - now) else back (now - t)

-- durationDeref(delay, 0)
abbrev pub duration_deref : Option Delay → Delay
duration_deref none = ahead 0
duration_deref (some d) = d

-- `redirtied_at` is `none` at the zero time.
pub record QueueItem : Type 0 where
  pub key : Bytes
  pub planned_to_start_work_at : Time
  pub redirtied_at : Option Time
  pub redirtied_with_ratelimit : Bool
  pub forget : Bool
  pub requeues : ℕ
  pub originally_added : Time
  pub added_via_redirty : Bool
  pub delayed_via_rate_limit : Option Delay

-- `L` is the state of the rate limiter. `items` has the front of the list first. An element of the
-- list is known by the key of its item: `items_in_queue` holds the keys of the map.
pub record Queue (L : Type 0) : Type 0 where
  pub ratelimiter : L
  pub items : List QueueItem
  pub items_in_queue : Map Bytes (Unit {0})
  pub items_being_processed : Map Bytes QueueItem

-- workqueue.TypedRateLimiter of client-go, as far as the queue calls it.
pub record RateLimiter (L : Type 0) : Type 0 where
  pub when : L → Bytes → Delay × L
  pub forget_key : L → Bytes → L

abbrev pub max_retries : ℕ
max_retries = 20

-- ShouldRetryFunc: from the key, the number of tries, the time of the first and the error, known by its text,
-- an optional delay for another try, or `none` for an error.
abbrev pub RetryFunc : Type 0
RetryFunc = Bytes → ℕ → Time → Bytes → Option (Option Delay)

-- DefaultRetryFunc
unfoldable pub default_retry_func : RetryFunc
default_retry_func key times_tried originally_added err =
    if ltb times_tried max_retries then some none else none

-- New
unfoldable pub new_queue : {L : Type 0} → L → Queue L
new_queue ratelimiter = record {
  ratelimiter = ratelimiter;
  items = [];
  items_in_queue = [];
  items_being_processed = [];
}
