-- ===== src/Network/LongConnection/Status.antt =====
-- The status of the connection: one path into the disconnected state, and who is told of it.
use roc_im_sdk.Prelude.{◌≡◌, suc, Bool, true, false, ◌||◌, Option, Str, arith, codes}
use roc_im_sdk.Network.Message.{make_error, unexpected}
use roc_im_sdk.Network.LongConnection.{
  Client, Outcome, done, refused, thrown, State, connect_start, connect_finish, connect,
  disconnect_start, disconnect_finish, handle_transport_error, send_data, send_round, send_ping,
  receive_end, reconnect_end,
}

-- What a call or a coroutine does between two waits.
pub data Event : Type 0 where
  connect_starts : Event
  connect_finishes : Outcome → Event
  disconnect_starts : Event
  disconnect_finishes : Outcome → Event
  sends : Str → Event
  send_rounds : Outcome → Str → Event
  pings : Outcome → Event
  receive_ends : Option Str → Event
  reconnect_ends : Event

module _ {S : Type 0} (callback : Bool → Str → S → S) where
  pub step : Event → State callback → State callback
  unfolding connect_start connect_finish disconnect_start disconnect_finish send_data send_round
      send_ping receive_end reconnect_end
  step connect_starts s = (connect_start callback s).1
  step (connect_finishes o) s = (connect_finish callback o s).1
  step disconnect_starts s = (disconnect_start callback s).1
  step (disconnect_finishes o) s = (disconnect_finish callback o s).1
  step (sends buf) s = (send_data callback buf s).1
  step (send_rounds o buf) s = (send_round callback o buf s).1
  step (pings o) s = send_ping callback o s
  step (receive_ends what) s = receive_end callback what s
  step reconnect_ends s = reconnect_end callback s

-- The loops run on a connection only.
abbrev pub IsConsistent : Client → Type 0
IsConsistent c = c.running ≡ true → c.connected ≡ true

-- No reconnect has succeeded while disconnect was waiting for the close.
abbrev pub IsOrderly : Event → Client → Type 0
IsOrderly (disconnect_finishes _) c = c.running ≡ false
IsOrderly connect_starts c = Unit
IsOrderly (connect_finishes _) c = Unit
IsOrderly disconnect_starts c = Unit
IsOrderly (sends _) c = Unit
IsOrderly (send_rounds _ _) c = Unit
IsOrderly (pings _) c = Unit
IsOrderly (receive_ends _) c = Unit
IsOrderly reconnect_ends c = Unit

module _ {S : Type 0} (callback : Bool → Str → S → S) where
  -- However the coroutines interleave, the client never runs its loops while it is disconnected;
  -- the one condition is that nothing connects again while disconnect waits for the close.
  pub step-IsConsistent :
      (e : Event) (s : State callback)
      → IsOrderly e s.0
      → IsConsistent s.0
      → IsConsistent (step callback e s).0
  unfolding step handle_transport_error
  step-IsConsistent connect_starts (c, s) o v = ground arith
  step-IsConsistent (connect_finishes done) (c, s) o v = ground arith
  step-IsConsistent (connect_finishes (refused e)) (c, s) o v = v
  step-IsConsistent (connect_finishes (thrown what)) (c, s) o v = ground arith
  step-IsConsistent disconnect_starts (c, s) o v = ground arith
  step-IsConsistent (disconnect_finishes done) (c, s) o v = ground arith
  step-IsConsistent (disconnect_finishes (refused e)) (c, s) o v = ground arith
  step-IsConsistent (disconnect_finishes (thrown what)) (c, s) o v = ground arith
  step-IsConsistent (sends buf) (c, s) o v = ground arith
  step-IsConsistent (send_rounds q buf) (c, s) o v = ground arith
  step-IsConsistent (pings q) (c, s) o v = ground arith
  step-IsConsistent (receive_ends what) (c, s) o v = ground arith
  step-IsConsistent reconnect_ends (c, s) o v = ground arith

  -- The first report of a failure of a connection stops the client, tells the listener once, and
  -- starts the reconnect if it is enabled. Every later report changes nothing and tells nobody, so
  -- the failures of the receive loop, the send loop and the heartbeat count as one.
  pub transport_error_once :
      (reason again : Str) (c : Client) (s : S)
      → c.connected ≡ true
      → let t = handle_transport_error callback reason (c, s) in
        (t.0.connected ≡ false)
        × (t.0.running ≡ false)
        × (t.0.heartbeat_running ≡ false)
        × (t.0.auto_reconnect_running ≡ c.config.enable_auto_reconnect || c.auto_reconnect_running)
        × (t.0.queue ≡ c.queue)
        × (t.1 ≡ callback false reason s)
        × (handle_transport_error callback again t ≡ t)
  unfolding handle_transport_error
  transport_error_once reason again c s up = ground arith

  -- While disconnect waits for the close, the receive loop ends, takes that for a failure, and
  -- starts to reconnect: the client that was told to disconnect ends up reconnecting.
  pub disconnect_reconnects :
      (what : Option Str) (c : Client) (s : S)
      → c.connected ≡ true
      → c.config.enable_auto_reconnect ≡ true
      → let t =
          disconnect_finish callback done
            (receive_end callback what (disconnect_start callback (c, s)).1) in
        (t.1.0.connected ≡ false)
        × (t.1.0.auto_reconnect_running ≡ true)
        × (t.1.0.reconnect_loops ≡ suc c.reconnect_loops)
  unfolding disconnect_finish receive_end disconnect_start handle_transport_error
  disconnect_reconnects what c s up auto = ground arith

  -- If that reconnect succeeds before the close is done, the client is marked as running and as
  -- disconnected. Then connect and disconnect are both refused, and change nothing.
  pub disconnect_race_wedges :
      (what : Option Str) (o : Outcome) (c : Client) (s : S)
      → c.connected ≡ true
      → c.config.enable_auto_reconnect ≡ true
      → let t =
          (disconnect_finish callback done
            (connect callback done
              (receive_end callback what (disconnect_start callback (c, s)).1)).1).1 in
        (connect callback o t
          ≡ (unexpected (make_error 2002 (codes "Client is already running")), t))
        × (disconnect_start callback t ≡ (unexpected (make_error 2005 (codes "Not connected")), t))
  unfolding disconnect_finish receive_end disconnect_start handle_transport_error connect
  disconnect_race_wedges what o c s up auto = ground arith
