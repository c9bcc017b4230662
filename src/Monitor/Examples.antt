-- ===== src/Monitor/Examples.antt =====
-- internal/lock/monitor.go: a variable that is set once.
use periapsis.Base.{ℕ, ◌≡◌, ◌<◌, ◌+◌, ◌^◌, true, false, some, [], refl, arith}
use periapsis.Monitor.{
  Channels, is_in, is_closed, MonitorVariable, new_monitor_variable, set, subscribe, subscribed,
  new_value_ready, value,
}
use periapsis.Monitor.Live.{Bounded, made_new, first_subscription}
use periapsis.Monitor.Wakeups.{Reach, taken, Reach-set}

abbrev no_channels : Channels
no_channels = record { made = 0; closed = [] }

no_channels-Bounded : Bounded no_channels
unfolding is_in
no_channels-Bounded n e = cc e

abbrev empty : MonitorVariable ℕ
empty = new_monitor_variable no_channels

subscribe-empty : subscribe empty ≡ some (empty, first_subscription 0)
unfolding subscribe subscribed new_monitor_variable
subscribe-empty = refl

empty-Reach : Reach empty (first_subscription 0)
empty-Reach = taken (made_new no_channels no_channels-Bounded) subscribe-empty

version_small : empty.current_version + 1 < 2 ^ 63
unfolding new_monitor_variable
version_small = omega arith

Reach-set_example :
    (m' : MonitorVariable ℕ) × (set 8 empty ≡ some m')
    × (is_closed (new_value_ready (first_subscription 0)) m'.channels ≡ true)
    × ((value m' (first_subscription 0)).0.value ≡ some 8)
    × (is_closed (new_value_ready (value m' (first_subscription 0)).1) m'.channels ≡ false)
Reach-set_example = Reach-set 8 empty-Reach version_small
