-- ===== src/Syzygy/Effects.antt =====
-- The bounded channels: what is kept, and in which order.
use periapsis.Base.{
  ◌↔◌, ℕ, zero, suc, ◌-◌, ◌≤◌, ◌<◌, ◌≡◌, refl, sym, ◌∙◌, true, false, List, [], ◌∷◌, ◌++◌, arith,
  Bool-cases, ltb, length, if◌then◌else◌, take, length-append, inl, inr,
}
use mathlib.Core.List.{append-nil, append_assoc}
use periapsis.Foci.Types.{Fact, Effect}
use periapsis.Syzygy.{Syzygy, effects_buf, inbox_buf, offer, send, push_effects}

take-nil {ℓ} : {A : Type ℓ} (n : ℕ) → take {A = A} n [] ≡ []
take-nil zero = refl
take-nil (suc n) = refl

offer_room :
    (queue : List Effect) (e : Effect)
    → ltb (length queue) effects_buf ≡ true
    → (offer effects_buf queue e).0 ≡ queue ++ e ∷ []
unfolding offer
offer_room queue e room = rw room

offer_full :
    (queue : List Effect) (e : Effect)
    → ltb (length queue) effects_buf ≡ false
    → (offer effects_buf queue e).0 ≡ queue
unfolding offer
offer_full queue e full = rw full

-- Effects are taken in order until the channel is full, and the rest are dropped.
pub push_effects-take :
    (queue es : List Effect) → push_effects queue es ≡ queue ++ take (effects_buf - length queue) es
unfolding push_effects
push_effects-take queue [] = rw take-nil (sym (append-nil queue))
push_effects-take queue (e ∷ es) = elim (Bool-cases (ltb (length queue) effects_buf)) [
  | inl room ↦
      let n = effects_buf - length (queue ++ e ∷ []) in
      let step : effects_buf - length queue ≡ suc n =
        ground (arith, length-append queue (e ∷ [])) in
      rw (offer_room queue e room, step)
        (push_effects-take (queue ++ e ∷ []) es ∙ append_assoc queue (e ∷ []) (take n es))
  | inr full ↦
      let none_left : effects_buf - length queue ≡ 0 = ground arith in
      rw (offer_full queue e full) (push_effects-take queue es ∙ (rw none_left))
]

-- So the channel never holds more than its buffer.
pub length-push_effects :
    (queue es : List Effect)
    → length queue ≤ effects_buf
    → length (push_effects queue es) ≤ effects_buf
unfolding push_effects
length-push_effects queue [] h = h
length-push_effects queue (e ∷ es) h = elim (Bool-cases (ltb (length queue) effects_buf)) [
  | inl room ↦
      rw (offer_room queue e room)
        (length-push_effects (queue ++ e ∷ []) es (ground (arith, length-append queue (e ∷ []))))
  | inr full ↦ rw (offer_full queue e full) (length-push_effects queue es h)
]

send_state :
    (s : Syzygy) (fact : Fact)
    → (send s fact).0 ≡ (if (send s fact).1 then record s { inbox = s.inbox ++ fact ∷ [] } else s)
unfolding send offer
send_state s fact = elim (Bool-cases s.closed) [
  | inl e ↦ rw (e, send) refl
  | inr e ↦ elim (Bool-cases (ltb (length s.inbox) inbox_buf)) [
    | inl r ↦ rw (e, send) (rw r refl)
    | inr r ↦ rw (e, send) (rw r refl)
  ]
]

-- Send accepts a fact exactly if the machine is open and the inbox has room; then it is the last
-- of the inbox, and otherwise nothing changes.
pub send_lem :
    (s : Syzygy) (fact : Fact)
    → (((send s fact).1 ≡ true) ↔ ((s.closed ≡ false) × (length s.inbox < inbox_buf)))
      × ((send s fact).0
          ≡ (if (send s fact).1 then record s { inbox = s.inbox ++ fact ∷ [] } else s))
unfolding send offer
send_lem s fact = (ground arith, send_state s fact)
