-- ===== src/Data/RabbitConsumer/Tests.antt =====
-- data/rabbit_mq_consumer.go at concrete deliveries.
use landau.Common.{Bytes, codes, Bool, false, List, [], ◌∷◌, ◌≡◌, refl, ◌==◌, bytes_eq, none}
use landau.Data.RabbitConsumer.{default_rabbit_consumer, new_rabbit_consumer, set_exchange_name}
use landau.Data.RabbitConsumer.Listen.{
  Delivery, Attempt, refused, opened, handle_all, start_listen, run_handlers,
}
use landau.Data.RabbitConsumer.Listen.Handled.{
  calls, acks, in_turns, idle, start_listen_once, run_handlers-handle_all,
}

abbrev order : Delivery
order = record { body = codes "order"; delivery_tag = 1 }

abbrev payment : Delivery
payment = record { body = codes "payment"; delivery_tag = 2 }

-- The callback panics at a payment.
abbrev panics_at : Bytes → Bool
panics_at message = message == codes "payment"

start_listen_once_example :
    let a : List Attempt = refused ∷ opened (payment ∷ []) ∷ opened (order ∷ []) ∷ [] in
    (calls (start_listen panics_at default_rabbit_consumer a)
      ≡ codes "payment" ∷ codes "order" ∷ [])
    × (acks (start_listen panics_at default_rabbit_consumer a) ≡ (2, false) ∷ (1, false) ∷ [])
start_listen_once_example =
    start_listen_once panics_at default_rabbit_consumer
      (refused ∷ opened (payment ∷ []) ∷ opened (order ∷ []) ∷ []) refl

run_handlers-handle_all_example :
    (run_handlers panics_at default_rabbit_consumer (in_turns (order ∷ payment ∷ [])) (idle none)).1
    ≡ handle_all panics_at default_rabbit_consumer (order ∷ payment ∷ [])
run_handlers-handle_all_example =
    run_handlers-handle_all panics_at default_rabbit_consumer (order ∷ payment ∷ []) none

-- The options are set in their order.
named :
    (new_rabbit_consumer
      (set_exchange_name (codes "a") ∷ set_exchange_name (codes "b") ∷ [])).ex_options.name
    ≡ codes "b"
unfolding new_rabbit_consumer
named = refl
