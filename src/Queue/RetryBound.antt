-- ===== src/Queue/RetryBound.antt =====
-- internal/queue/queue.go with DefaultRetryFunc: what each call keeps of the counts of retries.
use periapsis.Base.{
  ℕ, ◌<◌, ◌≤◌, ◌≡◌, refl, inl, inr, Bytes, str_eq, str_eq_iff, Bool, true, false, Option, none,
  some, List, [], ◌∷◌, ltb, if_cases, Time, Clock, lookup, insert, delete, bytes_eq, arith,
  Option-cases, Bool-cases, lookup-insert, lookup-delete, ◌∙◌, sym,
}
use periapsis.Queue.Types.{Delay, QueueItem, Queue, RateLimiter, default_retry_func, max_retries}
use periapsis.Queue.Items.{adjust_position}
use periapsis.Queue.Steps.{
  redirty, new_item, add_new, insert_key, update_inserted, settle_item, forget, next_of,
}
use periapsis.Queue.Retries.{
  Few, AllFew, MapFew, insert_item-AllFew, adjust_from-AllFew, remove_item-AllFew,
  update_item-AllFew, insert-MapFew, delete-MapFew, lookup-MapFew,
}

pub default_retry_func-few :
    (key : Bytes) (times_tried : ℕ) (originally_added : Time) (err : Bytes) {delay : Option Delay}
    → default_retry_func key times_tried originally_added err ≡ some delay
    → times_tried < max_retries
unfolding default_retry_func
default_retry_func-few key times_tried originally_added err e = ground (arith, e)

module _ (tracked : Bytes) (n : ℕ) where
  -- The key has been put back n times in a row, or fewer: its item, in the list or being processed,
  -- has counted that, and where there is none nothing is counted.
  pub record RetriesFew {L : Type 0} (q : Queue L) : Type 0 where
    pub waiting : AllFew tracked n q.items
    pub processed : MapFew tracked n q.items_being_processed
    pub idle :
        lookup tracked q.items_in_queue ≡ none
        → lookup tracked q.items_being_processed ≡ none
        → n ≤ 0

  redirty-kept :
      (item : QueueItem) (ratelimit : Bool) (when : Time)
      → ((redirty item ratelimit when).key ≡ item.key)
        × (Few tracked n item → Few tracked n (redirty item ratelimit when))
  unfolding redirty
  redirty-kept item ratelimit when =
      let Kept : QueueItem → Type 0 =
        λ x. (x.key ≡ item.key) × (Few tracked n item → Few tracked n x) in
      elim (Option-cases item.redirtied_at) [
        | inl e ↦ rw e (refl, λ h. h)
        | inr (at, e) ↦
            rw e (if_cases Kept (ltb when at) (λ _. (refl, λ h. h)) (λ _. (refl, λ h. h)))
      ]

  module _ {L : Type 0} where
    -- A write to an item that is being processed.
    touch-RetriesFew :
        (q : Queue L) (k : Bytes) (item v : QueueItem)
        → RetriesFew q
        → lookup k q.items_being_processed ≡ some item
        → v.key ≡ k
        → Few tracked n v
        → RetriesFew (record q { items_being_processed = insert k v q.items_being_processed })
    touch-RetriesFew q k item v h e own p = record {
      waiting = h.waiting;
      processed = insert-MapFew tracked n k v q.items_being_processed own p h.processed;
      idle = λ a b. h.idle a (ground (arith, lookup-insert k tracked v q.items_being_processed, b));
    }

    pub set_limiter-RetriesFew :
        (q : Queue L) (l : L) → RetriesFew q → RetriesFew (record q { ratelimiter = l })
    set_limiter-RetriesFew q l h = record {
      waiting = h.waiting;
      processed = h.processed;
      idle = h.idle;
    }

    pub update_inserted-RetriesFew :
        (q : Queue L) (k : Bytes) (f : QueueItem → QueueItem)
        → ((x : QueueItem) → Few tracked n x → Few tracked n (f x))
        → ((x : QueueItem) → (f x).key ≡ x.key)
        → RetriesFew q
        → RetriesFew (update_inserted q k f)
    unfolding update_inserted
    update_inserted-RetriesFew q k f keeps same h =
        elim (Option-cases (lookup k q.items_being_processed)) [
          | inr (item, e) ↦
              let (own, few) = lookup-MapFew tracked n k q.items_being_processed h.processed e in
              rw (e, update_inserted)
                (touch-RetriesFew q k item (f item) h e (same item ∙ own) (keeps item few))
          | inl e ↦
              rw (e, update_inserted)
                (record {
                  waiting = update_item-AllFew tracked n k f q.items keeps h.waiting;
                  processed = h.processed;
                  idle = h.idle;
                })
        ]

    -- Forget of the tracked key starts its count again.
    pub forget-RetriesFew :
        (q : Queue L) (k : Bytes)
        → (str_eq k tracked ≡ true → n ≤ 0)
        → RetriesFew q
        → RetriesFew (forget q k)
    unfolding forget
    forget-RetriesFew q k again h = elim (Option-cases (lookup k q.items_in_queue)) [
      | inr (_, e) ↦
          rw (e, forget)
            (record {
              waiting = remove_item-AllFew tracked n k q.items h.waiting;
              processed = h.processed;
              idle = λ a b. elim (Bool-cases (str_eq k tracked)) [
                | inl same ↦ again same
                | inr other ↦
                    h.idle (rw other at (sym (lookup-delete k tracked q.items_in_queue) ∙ a)) b
              ];
            })
      | inl e ↦ elim (Option-cases (lookup k q.items_being_processed)) [
        | inr (item, g) ↦
            let (own, few) = lookup-MapFew tracked n k q.items_being_processed h.processed g in
            rw (e, forget) (rw g (touch-RetriesFew q k item _ h g own few))
        | inl g ↦ rw (e, forget) (rw g h)
      ]
    ]

    -- So does the end of a round, unless the item is put back.
    pub drop_processed-RetriesFew :
        (q : Queue L) (k : Bytes)
        → (str_eq k tracked ≡ true → n ≤ 0)
        → RetriesFew q
        → RetriesFew (record q { items_being_processed = delete k q.items_being_processed })
    drop_processed-RetriesFew q k again h = record {
      waiting = h.waiting;
      processed = delete-MapFew tracked n k q.items_being_processed h.processed;
      idle = λ a b. elim (Bool-cases (str_eq k tracked)) [
        | inl same ↦ again same
        | inr other ↦
            h.idle a (rw other at (sym (lookup-delete k tracked q.items_being_processed) ∙ b))
      ];
    }

    -- What a round of getNextItem leaves.
    abbrev pub NextFew : Option (QueueItem × Queue L) → Type 0
    NextFew none = Unit
    NextFew (some (qi, q)) = RetriesFew q

    pub next_of-RetriesFew :
        (xs : List QueueItem) (q : Queue L) (now : Time)
        → RetriesFew q
        → AllFew tracked n xs
        → NextFew (next_of xs q now)
    unfolding next_of
    next_of-RetriesFew [] q now h a = tt
    next_of-RetriesFew (qi ∷ rest) q now h a =
        if_cases NextFew (ltb now qi.planned_to_start_work_at) (λ _. tt)
          (λ _. record {
            waiting = a.1;
            processed =
                insert-MapFew tracked n qi.key qi q.items_being_processed refl a.0 h.processed;
            idle = λ b c.
                let put = lookup-insert qi.key tracked qi q.items_being_processed in
                elim (Bool-cases (str_eq qi.key tracked)) [
                  | inl same ↦ cc (rw same at put, c)
                  | inr other ↦
                      h.idle (rw other at (sym (lookup-delete qi.key tracked q.items_in_queue) ∙ b))
                        (rw other at (sym put ∙ c))
                ];
          })

    -- One more item, at its place in the list.
    pub add-RetriesFew :
        (q : Queue L) (l : L) (k : Bytes) (items : List QueueItem)
        → AllFew tracked n items
        → MapFew tracked n q.items_being_processed
        → (str_eq k tracked ≡ false → RetriesFew q)
        → RetriesFew (record q {
          ratelimiter = l;
          items = items;
          items_in_queue = insert k tt q.items_in_queue;
        })
    add-RetriesFew q l k items all m other = record {
      waiting = all;
      processed = m;
      idle = λ b c.
          let put = lookup-insert k tracked tt q.items_in_queue in
          elim (Bool-cases (str_eq k tracked)) [
            | inl same ↦ cc (rw same at put, b)
            | inr differ ↦ (other differ).idle (rw differ at (sym put ∙ b)) c
          ];
    }

  module _ {L : Type 0} (limiter : RateLimiter L) where
    add_new-RetriesFew :
        (q : Queue L) (k : Bytes) (ratelimit : Bool) (delay : Option Delay) (now : Time)
        → RetriesFew q
        → (str_eq k tracked ≡ true → n ≤ 0)
        → RetriesFew (add_new limiter q k ratelimit delay now)
    unfolding add_new
    add_new-RetriesFew q k true delay now h again =
        add-RetriesFew q _ k _
          (insert_item-AllFew tracked n (new_item k _ now _) q.items (omega arith, again) h.waiting)
          h.processed (λ _. h)
    add_new-RetriesFew q k false delay now h again =
        add-RetriesFew q q.ratelimiter k _
          (insert_item-AllFew tracked n (new_item k _ now none) q.items (omega arith, again)
            h.waiting)
          h.processed (λ _. h)

    pub insert_key-RetriesFew :
        (q : Queue L) (k : Bytes) (ratelimit : Bool) (delay : Option Delay) (now : Time)
        → RetriesFew q
        → RetriesFew (insert_key limiter q k ratelimit delay now)
    unfolding insert_key adjust_position
    insert_key-RetriesFew q k ratelimit delay now h =
        elim (Option-cases (lookup k q.items_being_processed)) [
          | inr (item, e) ↦
              let (own, few) = lookup-MapFew tracked n k q.items_being_processed h.processed e in
              let kept = redirty-kept item ratelimit _ in
              rw (e, insert_key) (touch-RetriesFew q k item _ h e (kept.0 ∙ own) (kept.1 few))
          | inl e ↦ elim (Option-cases (lookup k q.items_in_queue)) [
            | inr (_, g) ↦
                rw (e, insert_key)
                  (rw g (record {
                    waiting = adjust_from-AllFew tracked n k _ [] q.items tt h.waiting;
                    processed = h.processed;
                    idle = h.idle;
                  }))
            | inl g ↦
                let again : str_eq k tracked ≡ true → n ≤ 0 = λ same.
                  let k_tracked : k ≡ tracked = (str_eq_iff k tracked).0 same in
                  h.idle (rw k_tracked at g) (rw k_tracked at e) in
                rw (e, insert_key) (rw g (add_new-RetriesFew q k ratelimit delay now h again))
          ]
        ]

    pub settle_item-RetriesFew :
        (q : Queue L) (qi : QueueItem) (clock : Clock)
        → RetriesFew q
        → RetriesFew (settle_item limiter q qi clock)
    unfolding settle_item
    settle_item-RetriesFew q qi clock h = elim (Option-cases qi.redirtied_at) [
      | inl e ↦ rw (e, settle_item) (set_limiter-RetriesFew q _ h)
      | inr (at, e) ↦
          rw (e, settle_item)
            (update_inserted-RetriesFew _ qi.key _ (λ _ few. few) (λ _. refl)
              (insert_key-RetriesFew _ qi.key qi.redirtied_with_ratelimit _ (clock 1)
                (set_limiter-RetriesFew q _ h)))
    ]
