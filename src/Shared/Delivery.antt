-- ===== src/Shared/Delivery.antt =====
-- What shared/events/producer.go and shared/events/consumer.go promise: events are published in
-- order and only if all can be serialised, and a message is acknowledged only if every handler
-- succeeded.
use Prim.Native.String.{String, ◌++◌ as ◌++ₛ◌}
use mathlib.Core.Path.{Σ_path}
use mathlib.Core.List.{append_assoc}
use scalemate.Prelude.{
  ◌≡◌, refl, ap, subst, ◌∙◌, ◌↔◌, true, List, [], ◌∷◌, ◌++◌, Option, none, some, arith,
  Option-cases, inl, inr,
}
use scalemate.Proto.{Event}
use scalemate.World.{Result-cases, Err, wrap, Result, ok, err}
use scalemate.Shared.Broker.{
  Message, Handler, publish_all, run_handlers, finish_message, handle_message,
}

module _ (publish : List Message → Message → Option Err) where
  publish_all-next :
      (sent : List Message) (m : Message) (ms : List Message)
      → publish sent m ≡ none
      → publish_all publish sent (m ∷ ms) ≡ publish_all publish (sent ++ m ∷ []) ms
  unfolding publish_all
  publish_all-next sent m ms p = ground arith

  publish_all-stop :
      (sent : List Message) (m : Message) (ms : List Message) {e : Err}
      → publish sent m ≡ some e
      → publish_all publish sent (m ∷ ms) ≡ (some (wrap e "NatsProducer.conn.Publish failed"), sent)
  unfolding publish_all
  publish_all-stop sent m ms p = ground arith

  -- What is published is a first part of what was to be published, all of it exactly when there is
  -- no error.
  pub publish_all-prefix :
      (sent ms : List Message)
      → (rest : List Message) × ((publish_all publish sent ms).1 ++ rest ≡ sent ++ ms)
        × ((publish_all publish sent ms).0 ≡ none ↔ rest ≡ [])
  publish_all-prefix sent [] = unfold publish_all in ([], refl, ((λ h. refl), (λ h. refl)))
  publish_all-prefix sent (m ∷ ms) = elim (Option-cases (publish sent m)) [
    | inl p ↦
        rw (publish_all-next sent m ms p, ← append_assoc sent (m ∷ []) ms)
          (publish_all-prefix (sent ++ m ∷ []) ms)
    | inr (e, p) ↦ rw (publish_all-stop sent m ms p) (m ∷ ms, refl, ((λ h. cc), (λ h. cc)))
  ]

-- The messages are the serialised events, one for each and in their order.
abbrev pub AreSerialised : (Event → Result Message) → List Event → List Message → Type 0
AreSerialised marshal [] [] = Unit
AreSerialised marshal (e ∷ es) (m ∷ ms) = (marshal e ≡ ok m) × AreSerialised marshal es ms
AreSerialised marshal _ _ = ⊥

module _ (event_text : Event → String) (marshal : Event → Result Message) where
  -- An event cannot be serialised, and those before it can; the error that is returned for it.
  pub data IsUnserialised : List Event → Err → Type 0 where
    fails :
        {e : Event} {es : List Event} {x : Err}
        → marshal e ≡ err x
        → IsUnserialised (e ∷ es) (wrap x ("proto.Marshal failed for event " ++ₛ event_text e))
    passes :
        {e : Event} {es : List Event} {m : Message} {x : Err}
        → marshal e ≡ ok m
        → IsUnserialised es x
        → IsUnserialised (e ∷ es) x

-- All the handlers succeed, one after the other, from the first world to the second.
pub data Succeed {W : Type 0} (event : Event) : List (Handler W) → W → W → Type 0 where
  done : {w : W} → Succeed event [] w w
  then :
      {handler : Handler W} {handlers : List (Handler W)} {u v w : W}
      → handler event u ≡ (none, v)
      → Succeed event handlers v w
      → Succeed event (handler ∷ handlers) u w

module _ {W : Type 0} where
  run_handlers-stop :
      (handler : Handler W) (handlers : List (Handler W)) (event : Event) (w : W) {e : Err}
      → (handler event w).0 ≡ some e
      → (run_handlers (handler ∷ handlers) event w).0 ≡ some (wrap e "handler.Handle failed")
  unfolding run_handlers
  run_handlers-stop handler handlers event w p = ground arith

  run_handlers-next :
      (handler : Handler W) (handlers : List (Handler W)) (event : Event) (w : W)
      → (handler event w).0 ≡ none
      → run_handlers (handler ∷ handlers) event w ≡ run_handlers handlers event (handler event w).1
  unfolding run_handlers
  run_handlers-next handler handlers event w p = ground arith

  Succeed-of_run :
      (handlers : List (Handler W)) (event : Event) (w : W)
      → (run_handlers handlers event w).0 ≡ none
      → Succeed event handlers w (run_handlers handlers event w).1
  Succeed-of_run [] event w h = unfold run_handlers in done
  Succeed-of_run (handler ∷ handlers) event w h = elim (Option-cases (handler event w).0) [
    | inl p ↦
        let step = run_handlers-next handler handlers event w p in
        rw step
          (then (Σ_path p refl) (Succeed-of_run handlers event (handler event w).1 (rw step at h)))
    | inr (e, p) ↦ absurd (cc (run_handlers-stop handler handlers event w p))
  ]

  run-of_Succeed :
      {event : Event} {handlers : List (Handler W)} {w w' : W}
      → Succeed event handlers w w'
      → run_handlers handlers event w ≡ (none, w')
  run-of_Succeed done = unfold run_handlers in refl
  run-of_Succeed {event} (then {handler} {handlers} {u} p rest) =
      run_handlers-next handler handlers event u (ap (λ (x : Option Err × W). x.0) p)
      ∙ ap (λ (x : Option Err × W). run_handlers handlers event x.1) p
      ∙ run-of_Succeed rest

  module _ (unmarshal : Message → Result Event) (ack : Option Err) where
    finish-acknowledged :
        (r : Option Err × W) → (finish_message unmarshal ack r).acknowledged ≡ true ↔ r.0 ≡ none
    unfolding finish_message
    finish-acknowledged r = ground arith

    finish-world : (r : Option Err × W) → (finish_message unmarshal ack r).world ≡ r.1
    unfolding finish_message
    finish-world r = ground arith

    handle_message-event :
        (handlers : List (Handler W)) (message : Message) (w : W) {event : Event}
        → unmarshal message ≡ ok event
        → handle_message unmarshal ack handlers message w
          ≡ finish_message unmarshal ack (run_handlers handlers event w)
    unfolding handle_message
    handle_message-event handlers message w p = ground arith

  -- A message is acknowledged exactly when it is an event and all the handlers succeed on it, one
  -- after the other; the world is then the one that the last of them leaves.
  pub handle_message-acknowledged :
      (unmarshal : Message → Result Event) (ack : Option Err) (handlers : List (Handler W))
      (message : Message) (w : W)
      → (handle_message unmarshal ack handlers message w).acknowledged ≡ true ↔ (
          (event : Event) × (unmarshal message ≡ ok event)
          × Succeed event handlers w (handle_message unmarshal ack handlers message w).world)
  unfolding handle_message
  handle_message-acknowledged unmarshal ack handlers message w =
      elim (Result-cases (unmarshal message)) [
        | inl (e, p) ↦ rw p ((λ h. cc), (λ (event, q, s). cc))
        | inr (event, p) ↦
            let r = run_handlers handlers event w in
            rw (handle_message-event unmarshal ack handlers message w p, p)
              (
                (λ h. (
                  event,
                  refl,
                  rw (finish-world unmarshal ack r)
                      (Succeed-of_run handlers event w ((finish-acknowledged unmarshal ack r).0 h)),
                )),
                (λ (event', q, s).
                    (finish-acknowledged unmarshal ack r).1
                      (ap (λ (x : Option Err × W). x.0) (run-of_Succeed (same event event' q s)))),
              )
      ]
    where
      same :
          {w' : W} (event event' : Event)
          → ok event ≡ ok event'
          → Succeed event' handlers w w'
          → Succeed event handlers w w'
      same {w'} event event' q s = subst (λ x. Succeed x handlers w w') (cc) s
