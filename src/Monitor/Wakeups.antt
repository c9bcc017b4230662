-- ===== src/Monitor/Wakeups.antt =====
-- internal/lock/monitor.go: no change of the variable is missed.
use periapsis.Base.{
  ◌+◌, ◌<◌, ◌^◌, ◌≡◌, ◌≢◌, ◌⊎◌, ◌↔◌, inl, inr, refl, ==_iff, true, false, some, arith, add64,
}
use periapsis.Monitor.{
  is_in, is_closed, MonitorVariable, Subscription, set, subscribe, new_value_ready, value,
}
use periapsis.Monitor.Live.{
  IsOpen, after_set, after_subscribe, set-some, subscribe-cases, set-cases, after_set-IsOpen, Live,
  live_set, live_subscribed, Live-IsOpen,
}

module _ {V : Type 0} where
  -- Either there is a version to read and the channel is closed, or the last one has been read and the
  -- channel is the one that the next Set closes.
  abbrev pub Awaits : MonitorVariable V → Subscription → Type 0
  Awaits m s =
      ((is_closed s.last_version_read_invalidation_channel m.channels ≡ true)
        × (s.last_version_read < m.current_version))
      ⊎ ((s.last_version_read_invalidation_channel ≡ m.version_invalidation_channel)
          × (s.last_version_read ≡ m.current_version))

  -- A variable and one of its subscriptions, after any calls on either and on other subscriptions, whose
  -- Value changes nothing here.
  pub data Reach : MonitorVariable V → Subscription → Type 0 where
    taken :
        {m m' : MonitorVariable V} {s : Subscription}
        → Live m
        → subscribe m ≡ some (m', s)
        → Reach m' s
    others_set :
        {m m' : MonitorVariable V} {s : Subscription} (v : V)
        → Reach m s
        → m.current_version + 1 < 2 ^ 63
        → set v m ≡ some m'
        → Reach m' s
    others_subscribed :
        {m m' : MonitorVariable V} {s other : Subscription}
        → Reach m s
        → subscribe m ≡ some (m', other)
        → Reach m' s
    read : {m : MonitorVariable V} {s : Subscription} → Reach m s → Reach m (value m s).1

  pub Reach-Live : {m : MonitorVariable V} {s : Subscription} → Reach m s → Live m
  Reach-Live (taken l e) = live_subscribed l e
  Reach-Live (others_set v r small e) = live_set v (Reach-Live r) small e
  Reach-Live (others_subscribed r e) = live_subscribed (Reach-Live r) e
  Reach-Live (read r) = Reach-Live r

  after_set-closed :
      (v : V) (m : MonitorVariable V) (s : Subscription)
      → Awaits m s
      → is_closed s.last_version_read_invalidation_channel (after_set v m).channels ≡ true
  unfolding is_in
  after_set-closed v m s (inl (closed, older)) = ground (arith, closed)
  after_set-closed v m s (inr (same, last)) =
      ground (
        arith,
        same,
        ==_iff m.version_invalidation_channel s.last_version_read_invalidation_channel,
      )

  after_set-Awaits :
      (v : V) (m : MonitorVariable V) (s : Subscription)
      → IsOpen m
      → m.current_version + 1 < 2 ^ 63
      → Awaits m s
      → Awaits (after_set v m) s
  after_set-Awaits v m s o small w = inl (after_set-closed v m s w, older w)
    where
      older : Awaits m s → s.last_version_read < add64 m.current_version 1
      older (inl (_, less)) = omega (arith, less, small)
      older (inr (_, last)) = omega (arith, last, small)

  after_subscribe-Awaits :
      (m : MonitorVariable V) (s : Subscription) → Awaits m s → Awaits (after_subscribe m) s
  unfolding is_in
  after_subscribe-Awaits m s (inl (closed, older)) = inl (ground (arith, closed), older)
  after_subscribe-Awaits m s (inr h) = inr h

  Reach-Awaits : {m : MonitorVariable V} {s : Subscription} → Reach m s → Awaits m s
  unfolding is_in value
  Reach-Awaits (taken {m} {m'} {s} l e) =
      let o = Live-IsOpen l in
      subscribe-cases Awaits m o
        (λ has. inl (
          ground (arith, ==_iff m.channels.made m.channels.made),
          ground (arith, has, o.version_small),
        ))
        (λ has. inr (refl, ground (arith, has, o.version_small))) e
  Reach-Awaits (others_set {m} {m'} {s} v r small e) =
      let o = Live-IsOpen (Reach-Live r) in
      set-cases (λ (x : MonitorVariable V). Awaits x s) v m o
        (after_set-Awaits v m s o small (Reach-Awaits r)) e
  Reach-Awaits (others_subscribed {m} {m'} {s} {other} r e) =
      let w = Reach-Awaits r in
      subscribe-cases (λ (x : MonitorVariable V) (_ : Subscription). Awaits x s) m
        (Live-IsOpen (Reach-Live r)) (λ _. after_subscribe-Awaits m s w) (λ _. w) e
  Reach-Awaits (read r) = inr (refl, refl)

  -- On the same terms, the channel of a subscription is closed exactly if the version that it
  -- read last is not the current one.
  pub Reach-new_value_ready :
      {m : MonitorVariable V} {s : Subscription}
      → Reach m s
      → (is_closed (new_value_ready s) m.channels ≡ true)
        ↔ (s.last_version_read ≢ m.current_version)
  unfolding new_value_ready
  Reach-new_value_ready {m} {s} r = elim (Reach-Awaits r) [
    | inl (closed, older) ↦ (λ _ e. omega (arith, older, e), λ _. closed)
    | inr (same, last) ↦ (
      λ closed. cc (closed, rw (← same) at (Live-IsOpen (Reach-Live r)).open_channel),
      λ unread. absurd (unread last),
    )
  ]

  -- Whatever calls of Set, Subscribe and Value have been made, in whatever order, with fewer than
  -- 2 ^ 63 calls of Set: the next Set does not panic and closes the channel that a subscriber got
  -- from NewValueReady; Value then returns what was set, and after it NewValueReady gives a
  -- channel that is open.
  pub Reach-set :
      {m : MonitorVariable V} {s : Subscription} (v : V)
      → Reach m s
      → m.current_version + 1 < 2 ^ 63
      → (m' : MonitorVariable V) × (set v m ≡ some m')
        × (is_closed (new_value_ready s) m'.channels ≡ true)
        × ((value m' s).0.value ≡ some v)
        × (is_closed (new_value_ready (value m' s).1) m'.channels ≡ false)
  unfolding new_value_ready value
  Reach-set {m} {s} v r small =
      let o = Live-IsOpen (Reach-Live r) in
      (
        after_set v m,
        set-some v m o,
        after_set-closed v m s (Reach-Awaits r),
        refl,
        (after_set-IsOpen v m o small).open_channel,
      )
