-- ===== src/Data/RabbitConsumer/Listen.antt =====
-- data/rabbit_mq_consumer.go: `StartListen`. Each attempt at a receiver is refused, or gives the
-- deliveries that arrive until the channel closes. `panics` says which messages the callback panics at.
-- The loop never ends: its run is that of a finite number of attempts.
pub mod Handled
use landau.Common.{
  ℕ, zero, suc, Bool, true, false, List, [], ◌∷◌, ◌++◌, Bytes, if◌then◌else◌, Option, none, some,
}
use landau.Data.RabbitConsumer.{RabbitMqConsumer}

pub record Delivery : Type 0 where
  pub body : Bytes
  pub delivery_tag : ℕ

pub data Attempt : Type 0 where
  refused : Attempt
  opened : List Delivery → Attempt

-- What the loop does: a log of a refusal, of a receiver, of a message and of a panic; a call of the
-- callback, an acknowledgement with its value, and a sleep.
pub data Event : Type 0 where
  receiver_error : Event
  receiver_ready : Event
  panic_logged : Bytes → Event
  called_back : Bytes → Event
  acknowledged : ℕ → Bool → Event
  slept : ℕ → Event

abbrev pub ack_event : RabbitMqConsumer → Delivery → List Event
ack_event c d =
    if c.delivery_auto_ack then acknowledged d.delivery_tag c.delivery_auto_ack_value ∷ [] else []

-- With `deliveryAsync` each delivery starts a handler, which is given the address of the variable of
-- the loop. The module's language version has one variable for all rounds. A handler reads it when it
-- begins, and again when it acknowledges.
pub record Handlers : Type 0 where
  pub delivery : Option Delivery
  pub waiting : ℕ
  pub running : ℕ

pub data Step : Type 0 where
  arrived : Delivery → Step
  began : Step
  finished : Step

module _ (panics : Bytes → Bool) (c : RabbitMqConsumer) where
  abbrev pub call_events : Bytes → List Event
  call_events message =
      called_back message ∷ (if panics message then panic_logged message ∷ [] else [])

  -- The closure `handle`, with what it defers.
  unfoldable pub handle_delivery : Delivery → List Event
  handle_delivery d = call_events d.body ++ ack_event c d

  -- The deliveries of one receiver, where each is handled before the next arrives.
  unfoldable pub handle_all : List Delivery → List Event
  unfolding handle_delivery
  handle_all [] = []
  handle_all (d ∷ deliveries) = handle_delivery d ++ handle_all deliveries

  unfoldable pub start_listen : List Attempt → List Event
  unfolding handle_all
  start_listen [] = []
  start_listen (refused ∷ attempts) = receiver_error ∷ start_listen attempts
  start_listen (opened deliveries ∷ attempts) =
      receiver_ready ∷ handle_all deliveries ++ slept c.sleep_time ∷ start_listen attempts

  abbrev pub on_call : Option Delivery → List Event
  on_call none = []
  on_call (some d) = call_events d.body

  abbrev pub on_end : Option Delivery → List Event
  on_end none = []
  on_end (some d) = ack_event c d

  -- A handler begins if one waits, and ends if one runs.
  abbrev pub begin_one : ℕ → Handlers → Handlers × List Event
  begin_one zero s = (s, [])
  begin_one (suc n) s = (record s { waiting = n; running = suc s.running }, on_call s.delivery)

  abbrev pub finish_one : ℕ → Handlers → Handlers × List Event
  finish_one zero s = (s, [])
  finish_one (suc n) s = (record s { running = n }, on_end s.delivery)

  unfoldable pub step_handlers : Step → Handlers → Handlers × List Event
  step_handlers (arrived d) s = (record s { delivery = some d; waiting = suc s.waiting }, [])
  step_handlers began s = begin_one s.waiting s
  step_handlers finished s = finish_one s.running s

  unfoldable pub run_handlers : List Step → Handlers → Handlers × List Event
  unfolding step_handlers
  run_handlers [] s = (s, [])
  run_handlers (t ∷ steps) s =
      let (s', events) = step_handlers t s in
      let (s'', more) = run_handlers steps s' in (s'', events ++ more)
