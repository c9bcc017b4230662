-- ===== src/Syzygy.antt =====
-- internal/syzygy/syzygy.go: the map of pod states, fed with facts, and the buffered channel of
-- effects. The Run loop processes the facts one at a time, in the order of the inbox; the effect
-- workers and the ticker are not modelled.
pub mod Untracked
pub mod Effects
pub mod States
pub mod Examples
use periapsis.Base.{
  ℕ, Bytes, is_empty, Bool, true, false, Option, none, some, List, [], ◌∷◌, ◌++◌, if◌then◌else◌,
  ltb, length, Clock, Map, lookup, insert, delete, bytes_eq,
}
use periapsis.Foci.Types.{Fact, fact_uid, Effect}
use periapsis.Foci.State.{PodState, zero_pod_state}
use periapsis.Foci.Reduce.{reduce}

-- The buffer of the effects channel.
abbrev pub effects_buf : ℕ
effects_buf = 16384

-- The buffer of the inbox.
abbrev pub inbox_buf : ℕ
inbox_buf = 2048

pub record Syzygy : Type 0 where
  pub inbox : List Fact
  pub effects : List Effect
  pub closed : Bool
  pub states : Map Bytes PodState

-- NewSyzygy
unfoldable pub new_syzygy : Syzygy
new_syzygy = record { inbox = []; effects = []; closed = false; states = [] }

-- A send on a buffered channel with a default case: what does not fit is dropped.
unfoldable pub offer {ℓ} : {A : Type ℓ} → ℕ → List A → A → List A × Bool
offer buf queue a = if ltb (length queue) buf then (queue ++ a ∷ [], true) else (queue, false)

-- Send
unfoldable pub send : Syzygy → Fact → Syzygy × Bool
unfolding offer
send s fact =
    if s.closed
    then (s, false)
    else (let (inbox', ok) = offer inbox_buf s.inbox fact in (record s { inbox = inbox' }, ok))

-- close
unfoldable pub close : Syzygy → Syzygy
close s = if s.closed then s else record s { closed = true }

abbrev pub or_zero : Option PodState → PodState
or_zero none = zero_pod_state
or_zero (some state) = state

-- The loop of processFact that pushes the effects.
unfoldable pub push_effects : List Effect → List Effect → List Effect
unfolding offer
push_effects queue [] = queue
push_effects queue (e ∷ es) = push_effects (offer effects_buf queue e).0 es

-- The update of the map: a state without a UID is removed.
unfoldable pub store_state : Bytes → PodState → Map Bytes PodState → Map Bytes PodState
store_state uid state states =
    if is_empty state.uid then delete uid states else insert uid state states

-- processFact
unfoldable pub process_fact : Syzygy → Fact → Clock → Syzygy
unfolding push_effects store_state
process_fact s fact clock =
    let uid = fact_uid fact in
    if is_empty uid
    then s
    else (let (new_state, effects) = reduce (or_zero (lookup uid s.states)) fact clock in
        record s {
          states = store_state uid new_state s.states;
          effects = push_effects s.effects effects;
        })

-- The facts that the Run loop receives, each with the clock readings of its round.
unfoldable pub process_facts : Syzygy → List (Fact × Clock) → Syzygy
process_facts s [] = s
process_facts s ((fact, clock) ∷ rest) = process_facts (process_fact s fact clock) rest
