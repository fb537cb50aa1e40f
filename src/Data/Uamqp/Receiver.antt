-- ===== src/Data/Uamqp/Receiver.antt =====
-- data/uamqp/consumer.go: what a call of `CreateReceiver` leaves, and how the next one recovers.
use landau.Common.{
  ℕ, ◌<◌, Bool, true, false, Option, none, some, ◌≡◌, refl, ◌&&◌, ◌==◌, nat_eq, beq_self, ◌⊎◌, inl,
  inr, Bool-cases, lt→ltb, ◌∙◌, ap, subst, sym,
}
use landau.Data.Uamqp.{
  Broker, Channel, Connection, Consumer, Exchange, Reply, fine, closed, failed, on_conn, on_channel,
  channel_on, or_close, and_then, closed_on_error, qos_step, close_for_err, get_channel,
  channel_or_new, made_channel, declared_queue, bound_queue, new_channel, with_conn,
  conn_or_refresh, opened_channel, refresh_conn, create_receiver,
}
use landau.Data.Uamqp.Shuffle.{
  accepting, is_live, is_live-refresh_conn, refresh_conn_fine, accepting-refresh_conn,
}

-- A channel that a consumer keeps has its queue declared and bound.
abbrev pub IsReady : Option Channel → Type 0
IsReady none = Unit
IsReady (some ch) = (ch.declared ≡ true) × (ch.bound ≡ true)

abbrev pub HasReady : Consumer → Type 0
HasReady c = (ch : Channel) × (c.channel ≡ some ch) × (ch.declared ≡ true) × (ch.bound ≡ true)

-- A success has such a channel, and an error has none.
abbrev pub Outcome : Consumer × Reply → Type 0
Outcome (c, fine) = HasReady c
Outcome (c, closed) = c.channel ≡ none
Outcome (c, failed) = c.channel ≡ none

-- Before the channel of an error is closed.
abbrev Pending : Consumer × Reply → Type 0
Pending (c, fine) = HasReady c
Pending (c, closed) = Unit
Pending (c, failed) = Unit

module _ (b : Broker) (pick : ℕ → ℕ) where
  bound_queue-Pending : (ex : Exchange) (r : Reply) (q : Bool) → Pending (bound_queue b ex r q)
  bound_queue-Pending ex fine q = (_, refl, refl, refl)
  bound_queue-Pending ex closed q = tt
  bound_queue-Pending ex failed q = tt

  declared_queue-Pending :
      (ex : Exchange) (r : Reply) (q : Bool) → Pending (declared_queue b ex r q)
  declared_queue-Pending ex fine q = bound_queue-Pending ex b.bind_queue q
  declared_queue-Pending ex closed q = tt
  declared_queue-Pending ex failed q = tt

  made_channel-Pending : (r : Exchange × Reply) (q : Bool) → Pending (made_channel b r q)
  made_channel-Pending (ex, fine) q = declared_queue-Pending ex b.declare_queue q
  made_channel-Pending (ex, closed) q = tt
  made_channel-Pending (ex, failed) q = tt

  channel_or_new-Pending :
      (o : Option Channel) (c : Consumer)
      → c.channel ≡ o
      → IsReady o
      → Pending (channel_or_new b pick o c)
  channel_or_new-Pending (some ch) c e (d, n) = (ch, e, d, n)
  channel_or_new-Pending none c e h = made_channel-Pending (new_channel b pick c.exchange) c.has_qos

  closed_on_error-Outcome : (r : Consumer × Reply) → Pending r → Outcome (closed_on_error b pick r)
  unfolding close_for_err
  closed_on_error-Outcome (c, fine) h = h
  closed_on_error-Outcome (c, closed) h = refl
  closed_on_error-Outcome (c, failed) h = refl

  or_close-Outcome : (c : Consumer) (r : Reply) → HasReady c → Outcome (or_close b pick c r)
  unfolding close_for_err
  or_close-Outcome c fine h = h
  or_close-Outcome c closed h = refl
  or_close-Outcome c failed h = refl

  and_then-Outcome : (r : Reply) (p : Consumer × Reply) → Outcome p → Outcome (and_then b pick r p)
  and_then-Outcome r (c, fine) h = or_close-Outcome c (on_channel b c.channel c.exchange.conn r) h
  and_then-Outcome r (c, closed) h = h
  and_then-Outcome r (c, failed) h = h

  qos_step-Outcome : (q : Bool) (p : Consumer × Reply) → Outcome p → Outcome (qos_step b pick q p)
  qos_step-Outcome true p h = and_then-Outcome b.qos p h
  qos_step-Outcome false p h = h

  -- Whatever the broker answers: a receiver is had on a channel whose queue is declared and bound, and
  -- after an error the consumer has no channel, if it had none or such a one before.
  pub create_receiver-Outcome :
      (c : Consumer) → IsReady c.channel → Outcome (create_receiver b pick c)
  unfolding create_receiver get_channel
  create_receiver-Outcome c h =
      and_then-Outcome b.consume
        (qos_step b pick c.has_qos (closed_on_error b pick (get_channel b pick c)))
        (qos_step-Outcome c.has_qos (closed_on_error b pick (get_channel b pick c)) (
          closed_on_error-Outcome (get_channel b pick c)
            (channel_or_new-Pending c.channel c refl h)))

-- A broker that answers every call on an open connection.
pub record IsWell (b : Broker) : Type 0 where
  pub opens : b.open_channel ≡ fine
  pub declares : b.declare_exchange ≡ fine
  pub declares_queue : b.declare_queue ≡ fine
  pub binds : b.bind_queue ≡ fine
  pub sets_qos : b.qos ≡ fine
  pub consumes : b.consume ≡ fine

module _ (b : Broker) (w : IsWell b) (pick : ℕ → ℕ) where
  abbrev CanDial : Consumer → Type 0
  CanDial c = 0 < accepting b c.exchange.nodes

  -- The result of a call to a broker that is well: the only error is that the connection or the channel
  -- was closed, and then there is a new connection and no channel.
  abbrev Mended : Consumer × Reply → Type 0
  Mended (c, fine) = CanDial c
  Mended (c, closed) = (is_live c.exchange.conn ≡ true) × (c.channel ≡ none)
  Mended (c, failed) = ⊥

  abbrev Dialable : Consumer × Reply → Type 0
  Dialable (c, fine) = CanDial c
  Dialable (c, closed) = CanDial c
  Dialable (c, failed) = ⊥

  close_for_err_live :
      (c : Consumer) → CanDial c → is_live (close_for_err b pick closed c).exchange.conn ≡ true
  unfolding close_for_err
  close_for_err_live c h =
      is_live-refresh_conn b pick c.exchange ∙ lt→ltb 0 (accepting b c.exchange.nodes) h

  closed_on_error-Mended : (r : Consumer × Reply) → Dialable r → Mended (closed_on_error b pick r)
  unfolding close_for_err
  closed_on_error-Mended (c, fine) h = h
  closed_on_error-Mended (c, closed) h = (close_for_err_live c h, refl)
  closed_on_error-Mended (c, failed) h = h

  or_close-Mended :
      (c : Consumer) (ch : Option Channel) (o : Option Connection) (r : Reply)
      → r ≡ fine
      → CanDial c
      → Mended (or_close b pick c (on_channel b ch o r))
  unfolding close_for_err
  or_close-Mended c none o r e h = (close_for_err_live c h, refl)
  or_close-Mended c (some ch) none r e h = (close_for_err_live c h, refl)
  or_close-Mended c (some ch) (some k) r e h =
      elim (Bool-cases (ch.channel_open && (ch.on_number == k.number) && k.is_open)) [
        | inl t ↦ rw (t, e) h
        | inr f ↦ rw f (close_for_err_live c h, refl)
      ]

  and_then-Mended :
      (r : Reply) (p : Consumer × Reply) → r ≡ fine → Mended p → Mended (and_then b pick r p)
  and_then-Mended r (c, fine) e h = or_close-Mended c c.channel c.exchange.conn r e h
  and_then-Mended r (c, closed) e h = h
  and_then-Mended r (c, failed) e h = h

  qos_step-Mended : (q : Bool) (p : Consumer × Reply) → Mended p → Mended (qos_step b pick q p)
  qos_step-Mended true p h = and_then-Mended b.qos p w.sets_qos h
  qos_step-Mended false p h = h

  abbrev Opened : Exchange × Reply → Type 0
  Opened (ex, fine) = 0 < accepting b ex.nodes
  Opened (ex, closed) = 0 < accepting b ex.nodes
  Opened (ex, failed) = ⊥

  made_channel-Dialable :
      (r : Exchange × Reply) (q : Bool) → Opened r → Dialable (made_channel b r q)
  made_channel-Dialable (ex, fine) q h = rw (w.declares_queue, w.binds) h
  made_channel-Dialable (ex, closed) q h = h
  made_channel-Dialable (ex, failed) q h = h

  opened_channel-Opened :
      (ex : Exchange) (o : Option Connection)
      → 0 < accepting b ex.nodes
      → Opened (ex, opened_channel b (on_conn b o b.open_channel))
  opened_channel-Opened ex none h = h
  opened_channel-Opened ex (some k) h = elim (Bool-cases k.is_open) [
    | inl t ↦ rw (t, w.opens, w.declares) h
    | inr f ↦ rw f h
  ]

  with_conn-Opened :
      (r : Exchange × Reply) → r.1 ≡ fine → 0 < accepting b r.0.nodes → Opened (with_conn b r)
  with_conn-Opened (ex, fine) e h = opened_channel-Opened ex ex.conn h
  with_conn-Opened (ex, closed) e h = cc
  with_conn-Opened (ex, failed) e h = cc

  new_channel-Opened :
      (o : Option Connection) (ex : Exchange)
      → 0 < accepting b ex.nodes
      → Opened (with_conn b (conn_or_refresh b pick o ex))
  new_channel-Opened none ex h =
      with_conn-Opened (refresh_conn b pick ex) (refresh_conn_fine b pick ex h)
        (subst (λ n. 0 < n) (sym (accepting-refresh_conn b pick ex)) h)
  new_channel-Opened (some k) ex h = with_conn-Opened (ex, fine) refl h

  channel_or_new-Dialable :
      (o : Option Channel) (c : Consumer) → CanDial c → Dialable (channel_or_new b pick o c)
  unfolding new_channel
  channel_or_new-Dialable (some ch) c h = h
  channel_or_new-Dialable none c h =
      made_channel-Dialable (new_channel b pick c.exchange) c.has_qos
        (new_channel-Opened c.exchange.conn c.exchange h)

  -- Where the broker answers every call on an open connection and a node accepts one, the only error is
  -- that the connection or the channel was closed, and then the consumer has an open connection and no
  -- channel.
  pub create_receiver-Mended : (c : Consumer) → CanDial c → Mended (create_receiver b pick c)
  unfolding create_receiver get_channel
  create_receiver-Mended c h =
      and_then-Mended b.consume
        (qos_step b pick c.has_qos (closed_on_error b pick (get_channel b pick c))) w.consumes
        (qos_step-Mended c.has_qos (closed_on_error b pick (get_channel b pick c))
          (closed_on_error-Mended (get_channel b pick c) (channel_or_new-Dialable c.channel c h)))

  -- Calls on the consumer's channel are answered by the broker.
  abbrev IsUsable : Consumer → Type 0
  IsUsable c = (r : Reply) → on_channel b c.channel c.exchange.conn r ≡ r

  -- A receiver is had, on such a channel.
  abbrev Live : Consumer × Reply → Type 0
  Live (c, fine) = IsUsable c
  Live (c, closed) = ⊥
  Live (c, failed) = ⊥

  on_conn_live :
      (o : Option Connection) (r : Reply) → is_live o ≡ true → r ≡ fine → on_conn b o r ≡ fine
  on_conn_live none r h e = cc
  on_conn_live (some k) r h e = rw h e

  or_close-Live : (c : Consumer) (r : Reply) → r ≡ fine → IsUsable c → Live (or_close b pick c r)
  or_close-Live c fine e h = h
  or_close-Live c closed e h = cc
  or_close-Live c failed e h = cc

  and_then-Live :
      (r : Reply) (p : Consumer × Reply) → r ≡ fine → Live p → Live (and_then b pick r p)
  and_then-Live r (c, fine) e h =
      or_close-Live c (on_channel b c.channel c.exchange.conn r) (h r ∙ e) h
  and_then-Live r (c, closed) e h = h
  and_then-Live r (c, failed) e h = h

  qos_step-Live : (q : Bool) (p : Consumer × Reply) → Live p → Live (qos_step b pick q p)
  qos_step-Live true p h = and_then-Live b.qos p w.sets_qos h
  qos_step-Live false p h = h

  closed_on_error-Live : (r : Consumer × Reply) → Live r → Live (closed_on_error b pick r)
  closed_on_error-Live (c, fine) h = h
  closed_on_error-Live (c, closed) h = h
  closed_on_error-Live (c, failed) h = h

  channel_on-IsUsable :
      (o : Option Connection) (ex : Exchange) (r : Reply)
      → ex.conn ≡ o
      → is_live o ≡ true
      → on_channel b (some (channel_on b ex true true true)) ex.conn r ≡ r
  channel_on-IsUsable none ex r e h = cc
  channel_on-IsUsable (some k) ex r e h = rw (e, beq_self k.number, h) refl

  made_channel-Live :
      (ex : Exchange) (r : Reply) (q : Bool)
      → r ≡ fine
      → is_live ex.conn ≡ true
      → Live (made_channel b (ex, r) q)
  made_channel-Live ex fine q e h =
      rw (w.declares_queue, w.binds) (λ r. channel_on-IsUsable ex.conn ex r refl h)
  made_channel-Live ex closed q e h = cc
  made_channel-Live ex failed q e h = cc

  channel_of-Live :
      (o : Option Connection) (ex : Exchange) (q : Bool)
      → ex.conn ≡ o
      → is_live o ≡ true
      → Live (made_channel b (with_conn b (conn_or_refresh b pick o ex)) q)
  channel_of-Live none ex q e h = cc
  channel_of-Live (some k) ex q e h =
      let live : is_live ex.conn ≡ true = ap is_live e ∙ h in
      let answer : opened_channel b (on_conn b ex.conn b.open_channel) ≡ fine =
        ap (opened_channel b) (on_conn_live ex.conn b.open_channel live w.opens)
        ∙ rw w.declares refl in
      made_channel-Live ex (opened_channel b (on_conn b ex.conn b.open_channel)) q answer live

  channel_or_new-Live :
      (o : Option Channel) (c : Consumer)
      → o ≡ none
      → is_live c.exchange.conn ≡ true
      → Live (channel_or_new b pick o c)
  unfolding new_channel
  channel_or_new-Live (some ch) c e h = cc
  channel_or_new-Live none c e h = channel_of-Live c.exchange.conn c.exchange c.has_qos refl h

  create_receiver-Live :
      (c : Consumer)
      → c.channel ≡ none
      → is_live c.exchange.conn ≡ true
      → Live (create_receiver b pick c)
  unfolding create_receiver get_channel
  create_receiver-Live c n h =
      and_then-Live b.consume
        (qos_step b pick c.has_qos (closed_on_error b pick (get_channel b pick c))) w.consumes
        (qos_step-Live c.has_qos (closed_on_error b pick (get_channel b pick c))
          (closed_on_error-Live (get_channel b pick c) (channel_or_new-Live c.channel c n h)))

  Live-fine : (p : Consumer × Reply) → Live p → p.1 ≡ fine
  Live-fine (c, fine) h = refl
  Live-fine (c, closed) h = absurd h
  Live-fine (c, failed) h = absurd h

module _ (b : Broker) (w : IsWell b) (pick next : ℕ → ℕ) where
  again :
      (p : Consumer × Reply)
      → Mended b w pick p
      → (p.1 ≡ fine) ⊎ ((create_receiver b next p.0).1 ≡ fine)
  again (c, fine) h = inl refl
  again (c, closed) (h, n) =
      inr (Live-fine b w next (create_receiver b next c) (create_receiver-Live b w next c n h))
  again (c, failed) h = absurd h

  -- Whatever became of the connection and the channel before, closed or left from an earlier connection:
  -- once the broker answers every call on an open channel of the present connection and a node accepts
  -- one, the next call gives a receiver, or the one after it does, whatever random order each of them
  -- tries the nodes in.
  pub create_receiver_recovers :
      (c : Consumer)
      → 0 < accepting b c.exchange.nodes
      → ((create_receiver b pick c).1 ≡ fine)
        ⊎ ((create_receiver b next (create_receiver b pick c).0).1 ≡ fine)
  create_receiver_recovers c h =
      again (create_receiver b pick c) (create_receiver-Mended b w pick c h)
