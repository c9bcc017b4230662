-- ===== src/Monitor/Live.antt =====
-- internal/lock/monitor.go: what Set and Subscribe do to a variable whose channel is open, and the variables
-- that calls of them lead to.
use periapsis.Base.{
  ℕ, ◌+◌, ◌<◌, ◌^◌, ◌≡◌, inl, inr, refl, sym, ◌∙◌, ==_iff, true, false, Option, some, ◌∷◌,
  Bool-cases, arith, slt64, add64,
}
use mathlib.Core.Path.{subst}
use periapsis.Monitor.{
  Channels, is_in, is_closed, close_channel, MonitorVariable, Subscription, new_monitor_variable,
  renewed, set, subscribed, subscribe,
}

-- Every channel that is closed has been made.
abbrev pub Bounded : Channels → Type 0
Bounded c = (n : ℕ) → is_closed n c ≡ true → n < c.made

fresh_open : (c : Channels) → Bounded c → is_closed c.made c ≡ false
fresh_open c b = elim (Bool-cases (is_closed c.made c)) [
  | inl e ↦ absurd (omega (arith, b c.made e))
  | inr e ↦ e
]

abbrev pub first_subscription : ℕ → Subscription
first_subscription channel = record {
  last_version_read = 0;
  last_version_read_invalidation_channel = channel;
}

module _ {V : Type 0} where
  pub record IsOpen (m : MonitorVariable V) : Type 0 where
    pub open_channel : is_closed m.version_invalidation_channel m.channels ≡ false
    pub channel_made : m.version_invalidation_channel < m.channels.made
    pub bounded : Bounded m.channels
    pub version_small : m.current_version < 2 ^ 63

  -- The variable after Set, and after Subscribe with a value.
  abbrev pub after_set : V → MonitorVariable V → MonitorVariable V
  after_set v m = record {
    current_value = some v;
    current_version = add64 m.current_version 1;
    version_invalidation_channel = m.channels.made;
    channels = record {
      made = m.channels.made + 1;
      closed = m.version_invalidation_channel ∷ m.channels.closed;
    };
  }

  abbrev pub after_subscribe : MonitorVariable V → MonitorVariable V
  after_subscribe m = record m {
    channels = record { made = m.channels.made + 1; closed = m.channels.made ∷ m.channels.closed };
  }

  pub set-some : (v : V) (m : MonitorVariable V) → IsOpen m → set v m ≡ some (after_set v m)
  unfolding set renewed close_channel
  set-some v m o = rw o.open_channel refl

  subscribe-value :
      (m : MonitorVariable V)
      → IsOpen m
      → slt64 0 m.current_version ≡ true
      → subscribe m ≡ some (after_subscribe m, first_subscription m.channels.made)
  unfolding subscribe subscribed close_channel
  subscribe-value m o e = rw (e, fresh_open m.channels o.bounded) refl

  subscribe-no_value :
      (m : MonitorVariable V)
      → slt64 0 m.current_version ≡ false
      → subscribe m ≡ some (m, first_subscription m.version_invalidation_channel)
  unfolding subscribe subscribed
  subscribe-no_value m e = rw e refl

  pub subscribe-cases :
      (P : MonitorVariable V → Subscription → Type 0) (m : MonitorVariable V)
      {m' : MonitorVariable V} {s : Subscription}
      → IsOpen m
      → (slt64 0 m.current_version ≡ true
          → P (after_subscribe m) (first_subscription m.channels.made))
      → (slt64 0 m.current_version ≡ false
          → P m (first_subscription m.version_invalidation_channel))
      → subscribe m ≡ some (m', s)
      → P m' s
  subscribe-cases P m {m'} {s} o on off e = elim (Bool-cases (slt64 0 m.current_version)) [
    | inl has ↦
        let same : ◌≡◌ {A = Option (MonitorVariable V × Subscription)}
            (some (after_subscribe m, first_subscription m.channels.made)) (some (m', s)) =
          sym (subscribe-value m o has) ∙ e in
        let is : ◌≡◌ {A = MonitorVariable V × Subscription}
            (after_subscribe m, first_subscription m.channels.made) (m', s) =
          cc in
        subst (λ (p : MonitorVariable V × Subscription). P p.0 p.1) is (on has)
    | inr has ↦
        let same : ◌≡◌ {A = Option (MonitorVariable V × Subscription)}
            (some (m, first_subscription m.version_invalidation_channel)) (some (m', s)) =
          sym (subscribe-no_value m has) ∙ e in
        let is : ◌≡◌ {A = MonitorVariable V × Subscription}
            (m, first_subscription m.version_invalidation_channel) (m', s) =
          cc in
        subst (λ (p : MonitorVariable V × Subscription). P p.0 p.1) is (off has)
  ]

  pub set-cases :
      (P : MonitorVariable V → Type 0) (v : V) (m : MonitorVariable V) {m' : MonitorVariable V}
      → IsOpen m
      → P (after_set v m)
      → set v m ≡ some m'
      → P m'
  set-cases P v m {m'} o p e =
      let same : ◌≡◌ {A = Option (MonitorVariable V)} (some (after_set v m)) (some m') =
        sym (set-some v m o) ∙ e in
      let is : after_set v m ≡ m' = cc in subst P is p

  pub after_set-IsOpen :
      (v : V) (m : MonitorVariable V)
      → IsOpen m
      → m.current_version + 1 < 2 ^ 63
      → IsOpen (after_set v m)
  unfolding is_in
  after_set-IsOpen v m o small = record {
    open_channel = ground (
      arith,
      ==_iff m.version_invalidation_channel m.channels.made,
      o.channel_made,
      fresh_open m.channels o.bounded,
    );
    channel_made = omega arith;
    bounded = λ n e.
        ground (arith, e, ==_iff m.version_invalidation_channel n, o.bounded n, o.channel_made);
    version_small = omega (arith, small);
  }

  pub after_subscribe-IsOpen : (m : MonitorVariable V) → IsOpen m → IsOpen (after_subscribe m)
  unfolding is_in
  after_subscribe-IsOpen m o = record {
    open_channel = ground (
      arith,
      ==_iff m.channels.made m.version_invalidation_channel,
      o.channel_made,
      o.open_channel,
    );
    channel_made = omega (arith, o.channel_made);
    bounded = λ n e. ground (arith, e, ==_iff m.channels.made n, o.bounded n);
    version_small = o.version_small;
  }

  -- The variables that NewMonitorVariable makes, after any calls. There are fewer than 2 ^ 63 calls of Set.
  pub data Live : MonitorVariable V → Type 0 where
    made_new : (c : Channels) → Bounded c → Live (new_monitor_variable c)
    live_set :
        {m m' : MonitorVariable V} (v : V)
        → Live m
        → m.current_version + 1 < 2 ^ 63
        → set v m ≡ some m'
        → Live m'
    live_subscribed :
        {m m' : MonitorVariable V} {s : Subscription}
        → Live m
        → subscribe m ≡ some (m', s)
        → Live m'

  pub Live-IsOpen : {m : MonitorVariable V} → Live m → IsOpen m
  unfolding new_monitor_variable
  Live-IsOpen (made_new c b) = record {
    open_channel = fresh_open c b;
    channel_made = omega arith;
    bounded = λ n e. omega (arith, b n e);
    version_small = omega arith;
  }
  Live-IsOpen (live_set {m} {m'} v l small e) =
      let o = Live-IsOpen l in set-cases IsOpen v m o (after_set-IsOpen v m o small) e
  Live-IsOpen (live_subscribed {m} {m'} {s} l e) =
      let o = Live-IsOpen l in
      subscribe-cases (λ (x : MonitorVariable V) (_ : Subscription). IsOpen x) m o
        (λ _. after_subscribe-IsOpen m o) (λ _. o) e
