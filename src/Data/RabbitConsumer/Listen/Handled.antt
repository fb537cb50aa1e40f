-- ===== src/Data/RabbitConsumer/Listen/Handled.antt =====
-- data/rabbit_mq_consumer.go: which messages are handled and acknowledged.
use landau.Common.{
  ℕ, zero, suc, Bool, true, false, List, [], ◌∷◌, ◌++◌, Bytes, Option, some, ◌≡◌, refl, arith,
  append_assoc, map, All, All-append, ap, ap₂, ◌∙◌, sym, subst,
}
use mathlib.Core.List.{map-append}
use landau.Data.RabbitConsumer.{RabbitMqConsumer}
use landau.Data.RabbitConsumer.Listen.{
  Delivery, Attempt, refused, opened, Event, receiver_error, receiver_ready, panic_logged,
  called_back, acknowledged, slept, ack_event, call_events, handle_delivery, handle_all,
  start_listen, Handlers, Step, arrived, began, finished, on_call, on_end, begin_one, finish_one,
  run_handlers,
}

-- The messages that the callback was given, and the tags that were acknowledged.
abbrev pub call_of : Event → List Bytes
call_of (called_back m) = m ∷ []
call_of receiver_error = []
call_of receiver_ready = []
call_of (panic_logged m) = []
call_of (acknowledged tag v) = []
call_of (slept t) = []

abbrev pub calls : List Event → List Bytes
calls [] = []
calls (e ∷ events) = call_of e ++ calls events

abbrev pub ack_of : Event → List (ℕ × Bool)
ack_of (called_back m) = []
ack_of receiver_error = []
ack_of receiver_ready = []
ack_of (panic_logged m) = []
ack_of (acknowledged tag v) = (tag, v) ∷ []
ack_of (slept t) = []

abbrev pub acks : List Event → List (ℕ × Bool)
acks [] = []
acks (e ∷ events) = ack_of e ++ acks events

calls-append : (es fs : List Event) → calls (es ++ fs) ≡ calls es ++ calls fs
calls-append [] fs = refl
calls-append (e ∷ es) fs =
    ap (λ l. call_of e ++ l) (calls-append es fs)
    ∙ sym (append_assoc (call_of e) (calls es) (calls fs))

acks-append : (es fs : List Event) → acks (es ++ fs) ≡ acks es ++ acks fs
acks-append [] fs = refl
acks-append (e ∷ es) fs =
    ap (λ l. ack_of e ++ l) (acks-append es fs) ∙ sym (append_assoc (ack_of e) (acks es) (acks fs))

-- All deliveries of some attempts, in their order.
abbrev pub deliveries_of : List Attempt → List Delivery
deliveries_of [] = []
deliveries_of (refused ∷ attempts) = deliveries_of attempts
deliveries_of (opened ds ∷ attempts) = ds ++ deliveries_of attempts

abbrev pub bodies : List Delivery → List Bytes
bodies = map (λ d. d.body)

abbrev pub tags : Bool → List Delivery → List (ℕ × Bool)
tags value = map (λ d. (d.delivery_tag, value))

-- The turns of handlers that each end before the next delivery arrives.
abbrev pub in_turns : List Delivery → List Step
in_turns [] = []
in_turns (d ∷ ds) = arrived d ∷ began ∷ finished ∷ in_turns ds

abbrev pub idle : Option Delivery → Handlers
idle d = record { delivery = d; waiting = 0; running = 0 }

-- An event of the delivery `d` alone.
abbrev pub IsOf : Delivery → Event → Type 0
IsOf d (called_back m) = m ≡ d.body
IsOf d (panic_logged m) = m ≡ d.body
IsOf d (acknowledged tag v) = tag ≡ d.delivery_tag
IsOf d receiver_error = Unit
IsOf d receiver_ready = Unit
IsOf d (slept t) = Unit

abbrev pub is_arrival : Step → Bool
is_arrival (arrived d) = true
is_arrival began = false
is_arrival finished = false

module _ (panics : Bytes → Bool) (c : RabbitMqConsumer) where
  calls-handle_delivery : (d : Delivery) → calls (handle_delivery panics c d) ≡ d.body ∷ []
  unfolding handle_delivery
  calls-handle_delivery d = ground arith

  acks-handle_delivery :
      (d : Delivery)
      → c.delivery_auto_ack ≡ true
      → acks (handle_delivery panics c d) ≡ (d.delivery_tag, c.delivery_auto_ack_value) ∷ []
  unfolding handle_delivery
  acks-handle_delivery d h = ground arith

  calls-handle_all : (ds : List Delivery) → calls (handle_all panics c ds) ≡ bodies ds
  unfolding handle_all
  calls-handle_all [] = refl
  calls-handle_all (d ∷ ds) =
      calls-append (handle_delivery panics c d) (handle_all panics c ds)
      ∙ ap₂ ◌++◌ (calls-handle_delivery d) (calls-handle_all ds)

  acks-handle_all :
      (ds : List Delivery)
      → c.delivery_auto_ack ≡ true
      → acks (handle_all panics c ds) ≡ tags c.delivery_auto_ack_value ds
  unfolding handle_all
  acks-handle_all [] h = refl
  acks-handle_all (d ∷ ds) h =
      acks-append (handle_delivery panics c d) (handle_all panics c ds)
      ∙ ap₂ ◌++◌ (acks-handle_delivery d h) (acks-handle_all ds h)

  calls-start_listen :
      (attempts : List Attempt)
      → calls (start_listen panics c attempts) ≡ bodies (deliveries_of attempts)
  unfolding start_listen
  calls-start_listen [] = refl
  calls-start_listen (refused ∷ attempts) = calls-start_listen attempts
  calls-start_listen (opened ds ∷ attempts) =
      calls-append (handle_all panics c ds) (slept c.sleep_time ∷ start_listen panics c attempts)
      ∙ ap₂ ◌++◌ (calls-handle_all ds) (calls-start_listen attempts)
      ∙ sym (map-append (λ (d : Delivery). d.body) ds (deliveries_of attempts))

  acks-start_listen :
      (attempts : List Attempt)
      → c.delivery_auto_ack ≡ true
      → acks (start_listen panics c attempts)
        ≡ tags c.delivery_auto_ack_value (deliveries_of attempts)
  unfolding start_listen
  acks-start_listen [] h = refl
  acks-start_listen (refused ∷ attempts) h = acks-start_listen attempts h
  acks-start_listen (opened ds ∷ attempts) h =
      acks-append (handle_all panics c ds) (slept c.sleep_time ∷ start_listen panics c attempts)
      ∙ ap₂ ◌++◌ (acks-handle_all ds h) (acks-start_listen attempts h)
      ∙ sym (
          map-append (λ (d : Delivery). (d.delivery_tag, c.delivery_auto_ack_value)) ds
            (deliveries_of attempts))

  -- Where a delivery is handled before the next arrives, the callback is given each message once and in
  -- the order of arrival, over all receivers; and with automatic acknowledgement each delivery is
  -- acknowledged once and in that order, whatever messages the callback panics at.
  pub start_listen_once :
      (attempts : List Attempt)
      → c.delivery_auto_ack ≡ true
      → (calls (start_listen panics c attempts) ≡ bodies (deliveries_of attempts))
        × (acks (start_listen panics c attempts)
            ≡ tags c.delivery_auto_ack_value (deliveries_of attempts))
  start_listen_once attempts h = (calls-start_listen attempts, acks-start_listen attempts h)

  -- The handlers that run beside the loop do what the loop would do itself, if each of them ends before
  -- the next delivery arrives.
  pub run_handlers-handle_all :
      (ds : List Delivery) (last : Option Delivery)
      → (run_handlers panics c (in_turns ds) (idle last)).1 ≡ handle_all panics c ds
  unfolding run_handlers handle_all handle_delivery
  run_handlers-handle_all [] last = refl
  run_handlers-handle_all (d ∷ ds) last =
      sym (append_assoc (call_events panics c d.body) (ack_event c d) _)
      ∙ ap (λ l. handle_delivery panics c d ++ l) (run_handlers-handle_all ds (some d))

  call_events-IsOf : (d : Delivery) → All (IsOf d) (call_events panics c d.body)
  call_events-IsOf d = ground arith

  ack_event-IsOf : (d : Delivery) → All (IsOf d) (ack_event c d)
  ack_event-IsOf d = ground arith

  begin_one-IsOf :
      (n : ℕ) (b : Delivery) (s : Handlers)
      → s.delivery ≡ some b
      → ((begin_one panics c n s).0.delivery ≡ some b) × All (IsOf b) (begin_one panics c n s).1
  begin_one-IsOf zero b s h = (h, tt)
  begin_one-IsOf (suc n) b s h =
      (h, subst (λ o. All (IsOf b) (on_call panics c o)) (sym h) (call_events-IsOf b))

  finish_one-IsOf :
      (n : ℕ) (b : Delivery) (s : Handlers)
      → s.delivery ≡ some b
      → ((finish_one panics c n s).0.delivery ≡ some b) × All (IsOf b) (finish_one panics c n s).1
  finish_one-IsOf zero b s h = (h, tt)
  finish_one-IsOf (suc n) b s h =
      (h, subst (λ o. All (IsOf b) (on_end panics c o)) (sym h) (ack_event-IsOf b))

  run_handlers-IsOf :
      (steps : List Step) (b : Delivery) (s : Handlers)
      → s.delivery ≡ some b
      → All (λ t. is_arrival t ≡ false) steps
      → All (IsOf b) (run_handlers panics c steps s).1
  unfolding run_handlers
  run_handlers-IsOf [] b s h a = tt
  run_handlers-IsOf (arrived d ∷ steps) b s h (p, a) = cc
  run_handlers-IsOf (began ∷ steps) b s h (p, a) =
      let (kept, now) = begin_one-IsOf s.waiting b s h in
      All-append (IsOf b) (begin_one panics c s.waiting s).1 _ now
        (run_handlers-IsOf steps b (begin_one panics c s.waiting s).0 kept a)
  run_handlers-IsOf (finished ∷ steps) b s h (p, a) =
      let (kept, now) = finish_one-IsOf s.running b s h in
      All-append (IsOf b) (finish_one panics c s.running s).1 _ now
        (run_handlers-IsOf steps b (finish_one panics c s.running s).0 kept a)

  -- When a second delivery arrives before the handler of the first one begins, whatever the handlers
  -- then do, until a third arrives, is done with the second: the first message reaches no callback
  -- and is not acknowledged.
  pub run_handlers_overtaken :
      (first second : Delivery) (steps : List Step) (s : Handlers)
      → All (λ t. is_arrival t ≡ false) steps
      → All (IsOf second) (run_handlers panics c (arrived first ∷ arrived second ∷ steps) s).1
  unfolding run_handlers
  run_handlers_overtaken first second steps s a =
      run_handlers-IsOf steps second
        (record s { delivery = some second; waiting = suc (suc s.waiting) }) refl a
