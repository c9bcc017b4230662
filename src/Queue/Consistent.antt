-- ===== src/Queue/Consistent.antt =====
-- internal/queue/queue.go: that the list, its map and the map of the items being processed agree.
use periapsis.Base.{
  IsDistinct, total-insert_new, total-delete, insert-IsDistinct, delete-IsDistinct, ◌<◌, ◌≡◌, refl,
  ◌∙◌, inl, inr, Bytes, str_eq, str_eq_iff, str_eq_refl, Bool, true, false, Option, none, some,
  Time, lookup, insert, delete, bytes_eq, arith, lookup-insert, lookup-delete, Option-cases,
  Bool-cases,
}
use periapsis.Queue.Types.{Delay, QueueItem, Queue, RateLimiter, new_queue}
use periapsis.Queue.Items.{insert_item}
use periapsis.Queue.Steps.{new_item, add_new, insert_key, update_inserted, forget}
use periapsis.Queue.Weights.{
  Weight, weigh, weigh_keys, only, weigh-insert_item, weigh-adjust_position, weigh-update_item,
  weigh-remove_item,
}
use periapsis.Queue.Order.{
  IsSorted, insert_item-IsSorted, remove_item-IsSorted, update_item-IsSorted,
  adjust_position-IsSorted,
}

-- The list and the map hold the same keys, each once; a key that is queued is not being processed;
-- the list is in the order of the planned times.
pub record IsConsistent {L : Type 0} (q : Queue L) : Type 0 where
  pub same_keys : (w : Weight) → weigh w q.items ≡ weigh_keys w q.items_in_queue
  pub distinct : IsDistinct q.items_in_queue
  pub apart :
      (k : Bytes) → lookup k q.items_in_queue ≡ some tt → lookup k q.items_being_processed ≡ none
  pub sorted : IsSorted q.items

module _ {L : Type 0} where
  pub new_queue-IsConsistent : (l : L) → IsConsistent (new_queue l)
  unfolding new_queue weigh IsSorted lookup
  new_queue-IsConsistent l = record {
    same_keys = λ w. refl;
    distinct = tt;
    apart = λ k h. refl;
    sorted = tt;
  }

  -- A key that the map holds weighs something in the list.
  pub queued-weigh :
      (q : Queue L) (k : Bytes)
      → IsConsistent q
      → lookup k q.items_in_queue ≡ some tt
      → 0 < weigh (only k) q.items
  queued-weigh q k c h =
      let own = total-delete (λ j _. only k j) k q.items_in_queue c.distinct h in
      omega (arith, c.same_keys (only k), rw str_eq_refl at own)

  -- A write to an item that is being processed.
  pub touch-IsConsistent :
      (q : Queue L) (k : Bytes) (item v : QueueItem)
      → IsConsistent q
      → lookup k q.items_being_processed ≡ some item
      → IsConsistent (record q { items_being_processed = insert k v q.items_being_processed })
  touch-IsConsistent q k item v c h = record {
    same_keys = c.same_keys;
    distinct = c.distinct;
    apart = λ j e.
        ground (arith, lookup-insert k j v q.items_being_processed, c.apart j e, h, str_eq_iff k j);
    sorted = c.sorted;
  }

  -- One more item, at its place in the list.
  pub add-IsConsistent :
      (q : Queue L) (l : L) (v : QueueItem)
      → IsConsistent q
      → lookup v.key q.items_in_queue ≡ none
      → lookup v.key q.items_being_processed ≡ none
      → IsConsistent (record q {
        ratelimiter = l;
        items = insert_item v q.items;
        items_in_queue = insert v.key tt q.items_in_queue;
      })
  add-IsConsistent q l v c h g = record {
    same_keys = λ w. omega (
      arith,
      weigh-insert_item w v q.items,
      total-insert_new (λ k _. w k) v.key tt q.items_in_queue h,
      c.same_keys w,
    );
    distinct = insert-IsDistinct v.key tt q.items_in_queue c.distinct;
    apart = λ j e. elim (Bool-cases (str_eq v.key j)) [
      | inl same ↦ rw (← (str_eq_iff v.key j).0 same) g
      | inr other ↦ c.apart j (cc (rw other at (lookup-insert v.key j tt q.items_in_queue), e))
    ];
    sorted = insert_item-IsSorted v q.items c.sorted;
  }

module _ {L : Type 0} (limiter : RateLimiter L) where
  pub add_new-IsConsistent :
      (q : Queue L) (key : Bytes) (ratelimit : Bool) (delay : Option Delay) (now : Time)
      → IsConsistent q
      → lookup key q.items_in_queue ≡ none
      → lookup key q.items_being_processed ≡ none
      → IsConsistent (add_new limiter q key ratelimit delay now)
  unfolding add_new
  add_new-IsConsistent q key true delay now c h g =
      add-IsConsistent q _ (new_item key _ now _) c h g
  add_new-IsConsistent q key false delay now c h g =
      add-IsConsistent q q.ratelimiter (new_item key _ now none) c h g

  -- insert keeps the queue consistent, whether the key is new, queued or being processed.
  pub insert_key-IsConsistent :
      (q : Queue L) (key : Bytes) (ratelimit : Bool) (delay : Option Delay) (now : Time)
      → IsConsistent q
      → IsConsistent (insert_key limiter q key ratelimit delay now)
  unfolding insert_key
  insert_key-IsConsistent q key ratelimit delay now c =
      elim (Option-cases (lookup key q.items_being_processed)) [
        | inr (item, e) ↦ rw (e, insert_key) (touch-IsConsistent q key item _ c e)
        | inl e ↦ elim (Option-cases (lookup key q.items_in_queue)) [
          | inr (_, g) ↦
              rw (e, insert_key)
                (rw g (record {
                  same_keys = λ w. weigh-adjust_position w key _ q.items ∙ c.same_keys w;
                  distinct = c.distinct;
                  apart = c.apart;
                  sorted = adjust_position-IsSorted key _ q.items c.sorted;
                }))
          | inl g ↦ rw (e, insert_key) (rw g (add_new-IsConsistent q key ratelimit delay now c g e))
        ]
      ]

module _ {L : Type 0} where
  pub update_inserted-IsConsistent :
      (q : Queue L) (key : Bytes) (f : QueueItem → QueueItem)
      → ((x : QueueItem) → (f x).key ≡ x.key)
      → ((x : QueueItem) → (f x).planned_to_start_work_at ≡ x.planned_to_start_work_at)
      → IsConsistent q
      → IsConsistent (update_inserted q key f)
  unfolding update_inserted
  update_inserted-IsConsistent q key f same when c =
      elim (Option-cases (lookup key q.items_being_processed)) [
        | inr (item, e) ↦ rw (e, update_inserted) (touch-IsConsistent q key item _ c e)
        | inl e ↦
            rw (e, update_inserted)
              (record {
                same_keys = λ w. weigh-update_item w key f q.items same ∙ c.same_keys w;
                distinct = c.distinct;
                apart = c.apart;
                sorted = update_item-IsSorted key f q.items when c.sorted;
              })
      ]

  pub drop_processed-IsConsistent :
      (q : Queue L) (key : Bytes)
      → IsConsistent q
      → IsConsistent (record q { items_being_processed = delete key q.items_being_processed })
  drop_processed-IsConsistent q key c = record {
    same_keys = c.same_keys;
    distinct = c.distinct;
    apart = λ j e. ground (arith, lookup-delete key j q.items_being_processed, c.apart j e);
    sorted = c.sorted;
  }

  pub set_limiter-IsConsistent :
      (q : Queue L) (l : L) → IsConsistent q → IsConsistent (record q { ratelimiter = l })
  set_limiter-IsConsistent q l c = record {
    same_keys = c.same_keys;
    distinct = c.distinct;
    apart = c.apart;
    sorted = c.sorted;
  }

  -- Forget keeps the queue consistent.
  pub forget-IsConsistent :
      (q : Queue L) (key : Bytes) → IsConsistent q → IsConsistent (forget q key)
  unfolding forget
  forget-IsConsistent q key c = elim (Option-cases (lookup key q.items_in_queue)) [
    | inr (_, e) ↦
        rw (e, forget)
          (record {
            same_keys = λ w. omega (
              arith,
              weigh-remove_item w key q.items (queued-weigh q key c e),
              total-delete (λ k _. w k) key q.items_in_queue c.distinct e,
              c.same_keys w,
            );
            distinct = delete-IsDistinct key q.items_in_queue c.distinct;
            apart = λ j h. c.apart j (ground (arith, lookup-delete key j q.items_in_queue, h));
            sorted = remove_item-IsSorted key q.items c.sorted;
          })
    | inl e ↦ elim (Option-cases (lookup key q.items_being_processed)) [
      | inr (item, g) ↦ rw (e, forget) (rw g (touch-IsConsistent q key item _ c g))
      | inl g ↦ rw (e, forget) (rw g c)
    ]
  ]
