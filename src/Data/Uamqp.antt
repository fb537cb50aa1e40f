-- ===== src/Data/Uamqp.antt =====
-- data/uamqp: the connection to one of several RabbitMQ nodes, and the channel of a consumer. The
-- client library is a parameter: which nodes accept a connection, and what the calls of a channel
-- answer; a call on a closed connection answers that. `pick i` is the random index up to `i`.
pub mod Shuffle
pub mod Receiver
mod Tests
use landau.Common.{
  ℕ, zero, suc, ◌+◌, ◌-◌, ◌&&◌, ◌==◌, nat_eq, Bool, true, false, List, [], ◌∷◌, if◌then◌else◌,
  Option, none, some, ltb, length, get_elem?,
}
use landau.Data.RabbitConsumer.{NodeOptions}

-- A write out of bounds changes nothing.
abbrev pub set : List NodeOptions → ℕ → NodeOptions → List NodeOptions
set [] i v = []
set (x ∷ xs) zero v = v ∷ xs
set (x ∷ xs) (suc i) v = x ∷ set xs i v

abbrev pub swapped :
    ℕ → ℕ → Option NodeOptions → Option NodeOptions → List NodeOptions → List NodeOptions
swapped i j none b xs = xs
swapped i j (some a) none xs = xs
swapped i j (some a) (some b) xs = set (set xs i b) j a

abbrev pub swap : ℕ → ℕ → List NodeOptions → List NodeOptions
swap i j xs = swapped i j (get_elem? xs i) (get_elem? xs j) xs

-- The answer of a call: no error, `amqp.ErrClosed`, or another error.
pub data Reply : Type 0 where
  fine : Reply
  closed : Reply
  failed : Reply

pub record Broker : Type 0 where
  pub dial : NodeOptions → Bool
  pub open_channel : Reply
  pub declare_exchange : Reply
  pub declare_queue : Reply
  pub bind_queue : Reply
  pub qos : Reply
  pub consume : Reply

-- A connection, with a number that tells it from those that were there before it.
pub record Connection : Type 0 where
  pub node : NodeOptions
  pub is_open : Bool
  pub number : ℕ

-- A channel: the number of its connection, whether it is open, and what was done on it beyond the
-- declaration of the exchange.
pub record Channel : Type 0 where
  pub on_number : ℕ
  pub channel_open : Bool
  pub declared : Bool
  pub bound : Bool

pub record Exchange : Type 0 where
  pub conn : Option Connection
  pub nodes : List NodeOptions

pub record Consumer : Type 0 where
  pub channel : Option Channel
  pub exchange : Exchange
  pub has_qos : Bool

module _ (pick : ℕ → ℕ) where
  -- The rounds of `shuffleNodes` from the index `i` down to one.
  unfoldable pub shuffle_from : ℕ → List NodeOptions → List NodeOptions
  shuffle_from zero xs = xs
  shuffle_from (suc i) xs = shuffle_from i (swap (suc i) (pick (suc i)) xs)

  unfoldable pub shuffle_nodes : List NodeOptions → List NodeOptions
  unfolding shuffle_from
  shuffle_nodes xs = if ltb 1 (length xs) then shuffle_from (length xs - 1) xs else xs

abbrev pub close_conn : Option Connection → Option Connection
close_conn none = none
close_conn (some c) = some (record c { is_open = false })

module _ (b : Broker) where
  -- The loop over the nodes: the first that accepts.
  unfoldable pub dial_first : List NodeOptions → Option NodeOptions
  dial_first [] = none
  dial_first (n ∷ nodes) = if b.dial n then some n else dial_first nodes

  abbrev next_number : Option Connection → ℕ
  next_number none = 0
  next_number (some c) = c.number + 1

  abbrev pub dialed : Option NodeOptions → Option Connection → List NodeOptions → Exchange × Reply
  dialed none old nodes = (record { conn = old; nodes = nodes }, failed)
  dialed (some n) old nodes = (
    record {
      conn = some (record { node = n; is_open = true; number = next_number old });
      nodes = nodes;
    },
    fine,
  )

  -- `refreshConn`: where no node accepts, the closed connection stays.
  unfoldable pub refresh_conn : (ℕ → ℕ) → Exchange → Exchange × Reply
  unfolding dial_first shuffle_nodes
  refresh_conn pick ex =
      dialed (dial_first (shuffle_nodes pick ex.nodes)) (close_conn ex.conn)
        (shuffle_nodes pick ex.nodes)

  abbrev pub on_conn : Option Connection → Reply → Reply
  on_conn none r = closed
  on_conn (some c) r = if c.is_open then r else closed

  -- A call on a channel: on one that is closed, or that was opened on another connection than the
  -- present one, or whose connection is closed, it answers that.
  abbrev pub on_channel : Option Channel → Option Connection → Reply → Reply
  on_channel none k r = closed
  on_channel (some ch) none r = closed
  on_channel (some ch) (some k) r =
      if ch.channel_open && (ch.on_number == k.number) && k.is_open then r else closed

  -- The second half of `NewChannel`; the error of a declaration is wrapped in another.
  abbrev pub declared_exchange : Reply → Reply
  declared_exchange fine = fine
  declared_exchange closed = failed
  declared_exchange failed = failed

  abbrev pub opened_channel : Reply → Reply
  opened_channel fine = declared_exchange b.declare_exchange
  opened_channel closed = closed
  opened_channel failed = failed

  abbrev pub with_conn : Exchange × Reply → Exchange × Reply
  with_conn (ex, fine) = (ex, opened_channel (on_conn ex.conn b.open_channel))
  with_conn (ex, closed) = (ex, closed)
  with_conn (ex, failed) = (ex, failed)

  abbrev pub conn_or_refresh : (ℕ → ℕ) → Option Connection → Exchange → Exchange × Reply
  conn_or_refresh pick none ex = refresh_conn pick ex
  conn_or_refresh pick (some c) ex = (ex, fine)

  unfoldable pub new_channel : (ℕ → ℕ) → Exchange → Exchange × Reply
  unfolding refresh_conn
  new_channel pick ex = with_conn (conn_or_refresh pick ex.conn ex)

  abbrev number_of : Option Connection → ℕ
  number_of none = 0
  number_of (some k) = k.number

  -- A channel on the present connection.
  abbrev pub channel_on : Exchange → Bool → Bool → Bool → Channel
  channel_on ex channel_open declared bound = record {
    on_number = number_of ex.conn;
    channel_open = channel_open;
    declared = declared;
    bound = bound;
  }

  -- `getChannel` behind a new channel: the queue is declared, and then bound; the error of a call
  -- closes the channel.
  abbrev pub bound_queue : Exchange → Reply → Bool → Consumer × Reply
  bound_queue ex fine q =
      (record { channel = some (channel_on ex true true true); exchange = ex; has_qos = q }, fine)
  bound_queue ex closed q = (
    record { channel = some (channel_on ex false true false); exchange = ex; has_qos = q },
    closed,
  )
  bound_queue ex failed q = (
    record { channel = some (channel_on ex false true false); exchange = ex; has_qos = q },
    failed,
  )

  abbrev pub declared_queue : Exchange → Reply → Bool → Consumer × Reply
  declared_queue ex fine q = bound_queue ex b.bind_queue q
  declared_queue ex closed q = (
    record { channel = some (channel_on ex false false false); exchange = ex; has_qos = q },
    closed,
  )
  declared_queue ex failed q = (
    record { channel = some (channel_on ex false false false); exchange = ex; has_qos = q },
    failed,
  )

  abbrev pub made_channel : Exchange × Reply → Bool → Consumer × Reply
  made_channel (ex, fine) q = declared_queue ex b.declare_queue q
  made_channel (ex, closed) q = (record { channel = none; exchange = ex; has_qos = q }, closed)
  made_channel (ex, failed) q = (record { channel = none; exchange = ex; has_qos = q }, failed)

  abbrev pub channel_or_new : (ℕ → ℕ) → Option Channel → Consumer → Consumer × Reply
  channel_or_new pick (some ch) c = (c, fine)
  channel_or_new pick none c = made_channel (new_channel pick c.exchange) c.has_qos

  unfoldable pub get_channel : (ℕ → ℕ) → Consumer → Consumer × Reply
  unfolding new_channel
  get_channel pick c = channel_or_new pick c.channel c

  -- `CloseForErr`.
  unfoldable pub close_for_err : (ℕ → ℕ) → Reply → Consumer → Consumer
  unfolding refresh_conn
  close_for_err pick closed c = record c {
    channel = none;
    exchange = (refresh_conn pick c.exchange).0;
  }
  close_for_err pick fine c = record c { channel = none }
  close_for_err pick failed c = record c { channel = none }

  -- An error closes the channel and is returned.
  abbrev pub or_close : (ℕ → ℕ) → Consumer → Reply → Consumer × Reply
  or_close pick c fine = (c, fine)
  or_close pick c closed = (close_for_err pick closed c, closed)
  or_close pick c failed = (close_for_err pick failed c, failed)

  -- A step that the former one must have passed.
  abbrev pub and_then : (ℕ → ℕ) → Reply → Consumer × Reply → Consumer × Reply
  and_then pick r (c, fine) = or_close pick c (on_channel c.channel c.exchange.conn r)
  and_then pick r (c, closed) = (c, closed)
  and_then pick r (c, failed) = (c, failed)

  abbrev pub closed_on_error : (ℕ → ℕ) → Consumer × Reply → Consumer × Reply
  closed_on_error pick (c, r) = or_close pick c r

  abbrev pub qos_step : (ℕ → ℕ) → Bool → Consumer × Reply → Consumer × Reply
  qos_step pick true r = and_then pick b.qos r
  qos_step pick false r = r

  -- `CreateReceiver`.
  unfoldable pub create_receiver : (ℕ → ℕ) → Consumer → Consumer × Reply
  unfolding get_channel close_for_err
  create_receiver pick c =
      and_then pick b.consume (qos_step pick c.has_qos (closed_on_error pick (get_channel pick c)))
