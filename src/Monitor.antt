-- ===== src/Monitor.antt =====
-- internal/lock/monitor.go: a variable whose changes can be waited for. A method, which holds the lock,
-- is one step.
pub mod Live
pub mod Wakeups
pub mod Examples
use periapsis.Base.{
  ℕ, ◌+◌, ◌==◌, ◌||◌, Bool, true, false, Option, none, some, List, [], ◌∷◌, if◌then◌else◌, Int64,
  add64, slt64,
}

-- Channels are numbers: those below `made` have been made, those in `closed` closed.
pub record Channels : Type 0 where
  pub made : ℕ
  pub closed : List ℕ

unfoldable pub is_in : ℕ → List ℕ → Bool
is_in n [] = false
is_in n (k ∷ rest) = (k == n) || is_in n rest

abbrev pub is_closed : ℕ → Channels → Bool
is_closed n c = is_in n c.closed

-- make(chan struct{})
abbrev pub make_channel : Channels → ℕ × Channels
make_channel c = (c.made, record c { made = c.made + 1 })

-- close(ch); `none` is the panic of a channel that is closed already.
unfoldable pub close_channel : ℕ → Channels → Option Channels
close_channel n c = if is_closed n c then none else some (record c { closed = n ∷ c.closed })

-- monitorVariable, and the channels of the program. The value is `none` while it is nil.
pub record MonitorVariable (V : Type 0) : Type 0 where
  pub current_value : Option V
  pub current_version : Int64
  pub version_invalidation_channel : ℕ
  pub channels : Channels

pub record Subscription : Type 0 where
  pub last_version_read : Int64
  pub last_version_read_invalidation_channel : ℕ

pub record Value (V : Type 0) : Type 0 where
  pub value : Option V
  pub version : Int64

-- subscription.NewValueReady
unfoldable pub new_value_ready : Subscription → ℕ
new_value_ready s = s.last_version_read_invalidation_channel

module _ {V : Type 0} where
  -- NewMonitorVariable
  unfoldable pub new_monitor_variable : Channels → MonitorVariable V
  new_monitor_variable c =
      let (channel, c') = make_channel c in
      record {
        current_value = none;
        current_version = 0;
        version_invalidation_channel = channel;
        channels = c';
      }

  -- Set, once the old channel has been closed
  unfoldable pub renewed : V → MonitorVariable V → Option Channels → Option (MonitorVariable V)
  renewed new_value m none = none
  renewed new_value m (some c) =
      let (channel, c') = make_channel c in
      some (record {
        current_value = some new_value;
        current_version = add64 m.current_version 1;
        version_invalidation_channel = channel;
        channels = c';
      })

  -- Set; `none` is a panic.
  unfoldable pub set : V → MonitorVariable V → Option (MonitorVariable V)
  set new_value m = renewed new_value m (close_channel m.version_invalidation_channel m.channels)

  -- Subscribe, after the channel for a variable that has a value is closed
  unfoldable pub subscribed :
      MonitorVariable V → ℕ → Option Channels → Option (MonitorVariable V × Subscription)
  subscribed m channel none = none
  subscribed m channel (some c) = some (
    record m { channels = c },
    record { last_version_read = 0; last_version_read_invalidation_channel = channel },
  )

  -- Subscribe; `none` is a panic.
  unfoldable pub subscribe : MonitorVariable V → Option (MonitorVariable V × Subscription)
  subscribe m =
      if slt64 0 m.current_version
      then (let (closed_ch, c) = make_channel m.channels in
          subscribed m closed_ch (close_channel closed_ch c))
      else subscribed m m.version_invalidation_channel (some m.channels)

  -- subscription.Value: the value, and the subscription after it
  unfoldable pub value : MonitorVariable V → Subscription → Value V × Subscription
  value m s = (
    record { value = m.current_value; version = m.current_version },
    record {
      last_version_read = m.current_version;
      last_version_read_invalidation_channel = m.version_invalidation_channel;
    },
  )
