-- ===== src/Data/RabbitConsumer.antt =====
-- data/rabbit_mq_consumer.go: the settings of a consumer of RabbitMQ messages, with the options of its
-- exchange, its consumer and its queue. A table of arguments is a list of keys and texts. An option
-- never fails.
pub mod Listen
mod Tests
use landau.Common.{ℕ, Bool, true, false, List, [], ◌∷◌, ◌++◌, Bytes, ℤ, pos, codes}

abbrev pub Table : Type 0
Table = List (Bytes × Bytes)

pub record NodeOptions : Type 0 where
  pub host : Bytes
  pub port : ℤ
  pub user : Bytes
  pub password : Bytes

pub record ExchangeOptions : Type 0 where
  pub name : Bytes
  pub kind : Bytes
  pub durable : Bool
  pub auto_delete : Bool
  pub internal : Bool
  pub no_wait : Bool
  pub arguments : Table

pub record ConsumerOptions : Type 0 where
  pub name : Bytes
  pub consumer_tag : Bytes
  pub no_local : Bool
  pub auto_ack : Bool
  pub exclusive : Bool
  pub no_wait : Bool
  pub arguments : Table

pub record QueueOptions : Type 0 where
  pub name : Bytes
  pub durable : Bool
  pub auto_delete : Bool
  pub exclusive : Bool
  pub no_wait : Bool
  pub arguments : Table

-- `RabbitMQConsumer` but for the client that it holds. Times are nanoseconds.
pub record RabbitMqConsumer : Type 0 where
  pub logger : Bytes
  pub nodes : List NodeOptions
  pub ex_options : ExchangeOptions
  pub consumer_options : ConsumerOptions
  pub queue_options : QueueOptions
  pub routing_key : Bytes
  pub qos_prefetch_count : ℤ
  pub qos_prefetch_size : ℤ
  pub qos_global : Bool
  pub sleep_time : ℕ
  pub delivery_auto_ack : Bool
  pub delivery_auto_ack_value : Bool
  pub delivery_async : Bool

-- One constructor for each function `SetRabbitMQConsumer…`.
pub data RabbitOption : Type 0 where
  set_delivery_auto_ack : Bool → RabbitOption
  set_delivery_auto_ack_value : Bool → RabbitOption
  set_retry_connect_time : ℕ → RabbitOption
  set_delivery_async : Bool → RabbitOption
  set_routing_key : Bytes → RabbitOption
  set_qos_prefetch_count : ℤ → RabbitOption
  set_qos_prefetch_size : ℤ → RabbitOption
  set_qos_global : Bool → RabbitOption
  set_node : Bytes → ℤ → Bytes → Bytes → RabbitOption
  set_exchange_name : Bytes → RabbitOption
  set_exchange_type : Bytes → RabbitOption
  set_exchange_durable : Bool → RabbitOption
  set_exchange_auto_delete : Bool → RabbitOption
  set_exchange_internal : Bool → RabbitOption
  set_exchange_no_wait : Bool → RabbitOption
  set_exchange_arguments : Table → RabbitOption
  set_name : Bytes → RabbitOption
  set_tag : Bytes → RabbitOption
  set_no_local : Bool → RabbitOption
  set_auto_ack : Bool → RabbitOption
  set_exclusive : Bool → RabbitOption
  set_no_wait : Bool → RabbitOption
  set_arguments : Table → RabbitOption
  set_queue_name : Bytes → RabbitOption
  set_queue_durable : Bool → RabbitOption
  set_queue_auto_delete : Bool → RabbitOption
  set_queue_exclusive : Bool → RabbitOption
  set_queue_no_wait : Bool → RabbitOption
  set_queue_arguments : Table → RabbitOption

unfoldable pub set_option : RabbitOption → RabbitMqConsumer → RabbitMqConsumer
set_option (set_delivery_auto_ack b) c = record c { delivery_auto_ack = b }
set_option (set_delivery_auto_ack_value b) c = record c { delivery_auto_ack_value = b }
set_option (set_retry_connect_time t) c = record c { sleep_time = t }
set_option (set_delivery_async b) c = record c { delivery_async = b }
set_option (set_routing_key s) c = record c { routing_key = s }
set_option (set_qos_prefetch_count n) c = record c { qos_prefetch_count = n }
set_option (set_qos_prefetch_size n) c = record c { qos_prefetch_size = n }
set_option (set_qos_global b) c = record c { qos_global = b }
set_option (set_node host port user password) c = record c {
  nodes = c.nodes ++ record { host = host; port = port; user = user; password = password } ∷ [];
}
set_option (set_exchange_name s) c = record c { ex_options = record c.ex_options { name = s } }
set_option (set_exchange_type s) c = record c { ex_options = record c.ex_options { kind = s } }
set_option (set_exchange_durable b) c = record c {
  ex_options = record c.ex_options { durable = b };
}
set_option (set_exchange_auto_delete b) c = record c {
  ex_options = record c.ex_options { auto_delete = b };
}
set_option (set_exchange_internal b) c = record c {
  ex_options = record c.ex_options { internal = b };
}
set_option (set_exchange_no_wait b) c = record c {
  ex_options = record c.ex_options { no_wait = b };
}
set_option (set_exchange_arguments t) c = record c {
  ex_options = record c.ex_options { arguments = t };
}
set_option (set_name s) c = record c { consumer_options = record c.consumer_options { name = s } }
set_option (set_tag s) c = record c {
  consumer_options = record c.consumer_options { consumer_tag = s };
}
set_option (set_no_local b) c = record c {
  consumer_options = record c.consumer_options { no_local = b };
}
set_option (set_auto_ack b) c = record c {
  consumer_options = record c.consumer_options { auto_ack = b };
}
set_option (set_exclusive b) c = record c {
  consumer_options = record c.consumer_options { exclusive = b };
}
set_option (set_no_wait b) c = record c {
  consumer_options = record c.consumer_options { no_wait = b };
}
set_option (set_arguments t) c = record c {
  consumer_options = record c.consumer_options { arguments = t };
}
set_option (set_queue_name s) c = record c { queue_options = record c.queue_options { name = s } }
set_option (set_queue_durable b) c = record c {
  queue_options = record c.queue_options { durable = b };
}
set_option (set_queue_auto_delete b) c = record c {
  queue_options = record c.queue_options { auto_delete = b };
}
set_option (set_queue_exclusive b) c = record c {
  queue_options = record c.queue_options { exclusive = b };
}
set_option (set_queue_no_wait b) c = record c {
  queue_options = record c.queue_options { no_wait = b };
}
set_option (set_queue_arguments t) c = record c {
  queue_options = record c.queue_options { arguments = t };
}

unfoldable pub set_options : List RabbitOption → RabbitMqConsumer → RabbitMqConsumer
unfolding set_option
set_options [] c = c
set_options (o ∷ options) c = set_options options (set_option o c)

abbrev pub default_rabbit_consumer : RabbitMqConsumer
default_rabbit_consumer = record {
  logger = codes "main";
  nodes = [];
  ex_options = record {
    name = [];
    kind = codes "topic";
    durable = true;
    auto_delete = false;
    internal = false;
    no_wait = false;
    arguments = [];
  };
  consumer_options = record {
    name = [];
    consumer_tag = [];
    no_local = false;
    auto_ack = false;
    exclusive = false;
    no_wait = false;
    arguments = [];
  };
  queue_options = record {
    name = [];
    durable = true;
    auto_delete = false;
    exclusive = false;
    no_wait = false;
    arguments = [];
  };
  routing_key = [];
  qos_prefetch_count = pos 15;
  qos_prefetch_size = pos 0;
  qos_global = false;
  sleep_time = 1000000000;
  delivery_auto_ack = true;
  delivery_auto_ack_value = false;
  delivery_async = true;
}

-- The settings that `NewRabbitConsumer` hands to the client.
unfoldable pub new_rabbit_consumer : List RabbitOption → RabbitMqConsumer
unfolding set_options
new_rabbit_consumer options = set_options options default_rabbit_consumer
