-- ===== src/Queue/PutBack.antt =====
-- internal/queue/queue.go with DefaultRetryFunc: how often a key is put back after failures.
use periapsis.Base.{
  ℕ, suc, ◌+◌, ◌<◌, ◌≤◌, ◌≡◌, inl, inr, Bytes, str_eq, str_eq_iff, str_eq_refl, true, false, Option,
  none, some, if_cases, if◌then◌else◌, Clock, lookup, delete, bytes_eq, arith, Option-cases,
  Bool-cases, lookup-delete, ◌∙◌, sym,
}
use mathlib.Core.Path.{subst}
use periapsis.Queue.Types.{
  Delay, QueueItem, Queue, RateLimiter, default_retry_func, max_retries, new_queue,
}
use periapsis.Queue.Steps.{
  Outcome, told_to_forget, requeued, succeeded, gave_up, enqueue, enqueue_without_rate_limit,
  enqueue_without_rate_limit_with_delay, requeue_item, finish_item, next_item,
}
use periapsis.Queue.Weights.{only, lookup-weigh_keys}
use periapsis.Queue.Consistent.{IsConsistent, queued-weigh}
use periapsis.Queue.Workers.{
  Step, enqueued, enqueued_now, enqueued_later, forgotten, picked, finished, Reach, made, stepped,
  Reach-IsConsistent,
}
use periapsis.Queue.Retries.{
  MapFew, AllOther, weigh-AllOther, AllFew-fewer, MapFew-fewer, AllFew-other, delete-MapFew_other,
  lookup-MapFew, weigh-Few,
}
use periapsis.Queue.RetryBound.{
  default_retry_func-few, RetriesFew, set_limiter-RetriesFew, forget-RetriesFew,
  drop_processed-RetriesFew, NextFew, next_of-RetriesFew, insert_key-RetriesFew,
  settle_item-RetriesFew,
}
use periapsis.Queue.Requeued.{requeue_item-RetriesFew}

-- How the end of a round changes the number of times in a row that its key has been put back.
unfoldable pub ended : Outcome → ℕ → ℕ
ended requeued n = suc n
ended told_to_forget n = 0
ended succeeded n = 0
ended gave_up n = 0

fewer-RetriesFew :
    {L : Type 0} (k : Bytes) {m n : ℕ} (q : Queue L) → m ≤ n → RetriesFew k n q → RetriesFew k m q
fewer-RetriesFew k q le h = record {
  waiting = AllFew-fewer k q.items le h.waiting;
  processed = MapFew-fewer k q.items_being_processed le h.processed;
  idle = λ a b. omega (arith, le, h.idle a b);
}

module _ {L : Type 0} (limiter : RateLimiter L) where
  -- How a call changes that number for the key k: Forget starts it again.
  abbrev pub tries : {q q' : Queue L} → Bytes → Step limiter default_retry_func q q' → ℕ → ℕ
  tries k (enqueued key now) n = n
  tries k (enqueued_now key now) n = n
  tries k (enqueued_later key delay now) n = n
  tries k (forgotten key) n = if str_eq key k then 0 else n
  tries k (picked qi now e) n = n
  tries k (finished {q} key qi err clock e) n =
      if str_eq key k then ended (finish_item limiter default_retry_func q qi err clock).1 n else n

  -- How many of the last rounds of the key k, since the last that ended otherwise and the last Forget
  -- of it, have put it back.
  unfoldable pub put_back : {q : Queue L} → Bytes → Reach limiter default_retry_func q → ℕ
  put_back k (made l) = 0
  put_back k (stepped r s) = tries k s (put_back k r)

  -- The number after a round of the worker of the item.
  abbrev after_round : Bytes → QueueItem → ℕ → Outcome → ℕ
  after_round k qi n o = if str_eq qi.key k then ended o n else n

  abbrev Ends : Bytes → QueueItem → ℕ → Queue L × Outcome → Type 0
  Ends k qi n r = RetriesFew k (after_round k qi n r.1) r.0

  -- A round that does not put the item back starts the count of its key again.
  dropped-RetriesFew :
      (k : Bytes) (n : ℕ) (q : Queue L) (qi : QueueItem)
      → RetriesFew k n q
      → RetriesFew k
          (if str_eq qi.key k then 0 else n)
          (record q { items_being_processed = delete qi.key q.items_being_processed })
  dropped-RetriesFew k n q qi h = elim (Bool-cases (str_eq qi.key k)) [
    | inl e ↦ rw e (
        drop_processed-RetriesFew k 0 q qi.key (λ _. omega arith)
          (fewer-RetriesFew k q (omega arith) h))
    | inr e ↦ rw e (drop_processed-RetriesFew k n q qi.key (λ f. cc (e, f)) h)
  ]

  -- A round that puts the item back adds one to the count of its key.
  put_back-RetriesFew :
      (k : Bytes) (n : ℕ) (q : Queue L) (qi : QueueItem) (delay : Option Delay) (clock : Clock)
      → IsConsistent q
      → lookup qi.key q.items_being_processed ≡ some qi
      → qi.requeues + 1 < max_retries
      → RetriesFew k n q
      → RetriesFew k (if str_eq qi.key k then suc n else n) (
          requeue_item limiter
            (record q { items_being_processed = delete qi.key q.items_being_processed })
            qi
            delay
            clock)
  put_back-RetriesFew k n q qi delay clock c held small h =
      let gone : lookup qi.key (delete qi.key q.items_being_processed) ≡ none =
        ground (arith, lookup-delete qi.key qi.key q.items_being_processed, str_eq_refl qi.key) in
      let not_queued : lookup qi.key q.items_in_queue ≡ none =
        elim (Option-cases (lookup qi.key q.items_in_queue)) [
          | inl e ↦ e
          | inr (tt, e) ↦ cc (c.apart qi.key e, held)
        ] in
      let others : AllOther qi.key q.items =
        weigh-AllOther qi.key q.items
          (c.same_keys (only qi.key) ∙ lookup-weigh_keys qi.key q.items_in_queue not_queued) in
      let few = lookup-MapFew k n qi.key q.items_being_processed h.processed held in
      elim (Bool-cases (str_eq qi.key k)) [
        | inl e ↦
            let same : qi.key ≡ k = (str_eq_iff qi.key k).0 e in
            let own : MapFew qi.key n q.items_being_processed =
              subst (λ (j : Bytes). MapFew j n q.items_being_processed) (sym same) h.processed in
            let raised : MapFew k (suc n) (delete qi.key q.items_being_processed) =
              subst (λ (j : Bytes). MapFew j (suc n) (delete qi.key q.items_being_processed)) same
                (delete-MapFew_other qi.key n (suc n) q.items_being_processed own) in
            let others_k : AllOther k q.items =
              subst (λ (j : Bytes). AllOther j q.items) same others in
            rw e (
              requeue_item-RetriesFew limiter k (suc n) _ qi delay clock gone not_queued others
                (AllFew-other k n (suc n) q.items others_k h.waiting) raised small
                (λ _. omega (arith, few.1.1 e)) (λ f. cc (e, f)))
        | inr e ↦
            let h' = drop_processed-RetriesFew k n q qi.key (λ f. cc (e, f)) h in
            rw e (
              requeue_item-RetriesFew limiter k n _ qi delay clock gone not_queued others h'.waiting
                h'.processed small (λ f. cc (e, f)) (λ _. h'))
      ]

  finish_item-RetriesFew :
      (k : Bytes) (n : ℕ) (q : Queue L) (qi : QueueItem) (err : Option Bytes) (clock : Clock)
      → IsConsistent q
      → lookup qi.key q.items_being_processed ≡ some qi
      → RetriesFew k n q
      → Ends k qi n (finish_item limiter default_retry_func q qi err clock)
  unfolding finish_item ended
  finish_item-RetriesFew k n q qi err clock c held h =
      let m = if str_eq qi.key k then 0 else n in
      let h' = dropped-RetriesFew k n q qi h in
      if_cases (Ends k qi n) qi.forget (λ _. set_limiter-RetriesFew k m _ _ h')
        (λ _. elim (Option-cases err) [
          | inl fine ↦ rw fine (settle_item-RetriesFew k m limiter _ qi clock h')
          | inr (text, wrong) ↦
              elim (Option-cases
                (default_retry_func qi.key (qi.requeues + 1) qi.originally_added text)) [
                  | inl e ↦ rw (wrong, e) (settle_item-RetriesFew k m limiter _ qi clock h')
                  | inr (delay, e) ↦
                      let small =
                        default_retry_func-few qi.key (qi.requeues + 1) qi.originally_added text
                          e in
                      rw (wrong, e) (put_back-RetriesFew k n q qi delay clock c held small h)
                ]
        ])

  Step-RetriesFew :
      (k : Bytes) (n : ℕ) {q q' : Queue L} (s : Step limiter default_retry_func q q')
      → IsConsistent q
      → RetriesFew k n q
      → RetriesFew k (tries k s n) q'
  unfolding enqueue enqueue_without_rate_limit enqueue_without_rate_limit_with_delay next_item
  Step-RetriesFew k n (enqueued {q} key now) c h =
      insert_key-RetriesFew k n limiter q key true none now h
  Step-RetriesFew k n (enqueued_now {q} key now) c h =
      insert_key-RetriesFew k n limiter q key false none now h
  Step-RetriesFew k n (enqueued_later {q} key delay now) c h =
      insert_key-RetriesFew k n limiter q key false (some delay) now h
  Step-RetriesFew k n (forgotten {q} key) c h = elim (Bool-cases (str_eq key k)) [
    | inl e ↦
        rw e (forget-RetriesFew k 0 q key (λ _. omega arith) (fewer-RetriesFew k q (omega arith) h))
    | inr e ↦ rw e (forget-RetriesFew k n q key (λ f. cc (e, f)) h)
  ]
  Step-RetriesFew k n (picked {q} {q'} qi now e) c h =
      let next : NextFew k n (some (qi, q')) =
        rw e at (next_of-RetriesFew k n q.items q now h h.waiting) in
      next
  Step-RetriesFew k n (finished {q} key qi err clock e) c h =
      let own = (lookup-MapFew k n key q.items_being_processed h.processed e).0 in
      let held : lookup qi.key q.items_being_processed ≡ some qi =
        subst (λ (j : Bytes). lookup j q.items_being_processed ≡ some qi) (sym own) e in
      let r = finish_item limiter default_retry_func q qi err clock in
      subst (λ (j : Bytes). RetriesFew k (if str_eq j k then ended r.1 n else n) r.0) own
        (finish_item-RetriesFew k n q qi err clock c held h)

  Reach-RetriesFew :
      (k : Bytes) {q : Queue L} (r : Reach limiter default_retry_func q)
      → RetriesFew k (put_back k r) q
  unfolding put_back new_queue
  Reach-RetriesFew k (made l) = record { waiting = tt; processed = tt; idle = λ _ _. omega arith }
  Reach-RetriesFew k (stepped r s) =
      Step-RetriesFew k (put_back k r) s (Reach-IsConsistent limiter default_retry_func r)
        (Reach-RetriesFew k r)

  -- With DefaultRetryFunc, whatever calls the users and the workers have made, in whatever order:
  -- the rounds of a key that have put it back after a failure, since its last round that ended
  -- otherwise and the last Forget of it, are fewer than 20.
  pub put_back-bounded :
      (k : Bytes) {q : Queue L} (r : Reach limiter default_retry_func q)
      → put_back k r < max_retries
  put_back-bounded k {q} r =
      let h = Reach-RetriesFew k r in
      let c = Reach-IsConsistent limiter default_retry_func r in
      elim (Option-cases (lookup k q.items_in_queue)) [
        | inr (tt, e) ↦ weigh-Few k (put_back k r) q.items (queued-weigh q k c e) h.waiting
        | inl e ↦ elim (Option-cases (lookup k q.items_being_processed)) [
          | inl f ↦ omega (arith, h.idle e f)
          | inr (qi, f) ↦
              let (own, few) =
                lookup-MapFew k (put_back k r) k q.items_being_processed h.processed f in
              omega (arith, few.0, few.1 (rw own (str_eq_refl k)))
        ]
      ]
