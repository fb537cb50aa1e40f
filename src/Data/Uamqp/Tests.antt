-- ===== src/Data/Uamqp/Tests.antt =====
-- data/uamqp at a broker with two nodes, of which one accepts connections.
use mathlib.Core.List.{Perm}
use landau.Common.{
  Bytes, codes, true, false, List, [], ◌∷◌, none, some, ◌≡◌, ◌==◌, bytes_eq, pos, ◌⊎◌, arith, refl,
}
use landau.Data.RabbitConsumer.{NodeOptions}
use landau.Data.Uamqp.{Broker, Consumer, Exchange, fine, create_receiver, refresh_conn}
use landau.Data.Uamqp.Receiver.{Outcome, create_receiver-Outcome, create_receiver_recovers}
use landau.Data.Uamqp.Shuffle.{is_live, refresh_conn_connects}

abbrev node_of : Bytes → NodeOptions
node_of host = record { host = host; port = pos 5672; user = []; password = [] }

abbrev two_nodes : List NodeOptions
two_nodes = node_of (codes "down") ∷ node_of (codes "up") ∷ []

abbrev well : Broker
well = record {
  dial = λ n. n.host == codes "up";
  open_channel = fine;
  declare_exchange = fine;
  declare_queue = fine;
  bind_queue = fine;
  qos = fine;
  consume = fine;
}

-- A connection that was lost, with no channel on it.
abbrev lost : Exchange
lost = record {
  conn = some (record { node = node_of (codes "up"); is_open = false; number = 3 });
  nodes = two_nodes;
}

abbrev consumer : Consumer
consumer = record { channel = none; exchange = lost; has_qos = true }

refresh_conn_connects_example :
    Perm (refresh_conn well (λ i. 0) lost).0.nodes two_nodes
    × (is_live (refresh_conn well (λ i. 0) lost).0.conn ≡ true)
refresh_conn_connects_example = refresh_conn_connects well (λ i. 0) lost

create_receiver-Outcome_example : Outcome (create_receiver well (λ i. 0) consumer)
create_receiver-Outcome_example = create_receiver-Outcome well (λ i. 0) consumer tt

-- A consumer whose channel is left from the connection before the last.
abbrev stale : Consumer
stale = record {
  channel = some (record { on_number = 2; channel_open = true; declared = true; bound = true });
  exchange = record {
    conn = some (record { node = node_of (codes "up"); is_open = true; number = 3 });
    nodes = two_nodes;
  };
  has_qos = true;
}

create_receiver_recovers_example :
    ((create_receiver well (λ i. 0) stale).1 ≡ fine)
    ⊎ ((create_receiver well (λ i. i) (create_receiver well (λ i. 0) stale).0).1 ≡ fine)
create_receiver_recovers_example =
    create_receiver_recovers well
      (record {
        opens = refl;
        declares = refl;
        declares_queue = refl;
        binds = refl;
        sets_qos = refl;
        consumes = refl;
      })
      (λ i. 0) (λ i. i) stale (omega arith)
