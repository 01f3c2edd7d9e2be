-- ===== src/Network/LongConnection.antt =====
-- LongConnectionClient (imsdk/base/network/LongConnectionClient.cc). A coroutine is cut at its
-- waits: what the WebSocket client answers is an argument. The status callback is a function on
-- the listener's state, so that a caller can put its own handler there. The loops that are started
-- are counted. `last_heartbeat_time_` and the timers themselves are left out: nothing reads the
-- first, and cancelling the second only ends a wait.
pub mod Status
pub mod Reconnect
mod Tests
use roc_im_sdk.Prelude.{
  ℕ, suc, ◌+◌, Bool, true, false, ◌&&◌, ◌||◌, not, List, [], ◌∷◌, ◌++◌, Option, none, some, Str,
  codes, ltb, if◌then◌else◌, length,
}
use roc_im_sdk.Network.Message.{
  Error, make_error, make_error_details, error_to_string, Expected, value, unexpected,
}

-- The part of LongConnectionConfig that steers the state machine.
pub record Config : Type 0 where
  pub enable_auto_reconnect : Bool
  pub max_reconnect_attempts : ℕ

pub record Client : Type 0 where
  pub config : Config
  pub connected : Bool
  pub running : Bool
  pub heartbeat_running : Bool
  pub auto_reconnect_running : Bool
  pub reconnect_attempts : ℕ
  pub queue : List Str
  pub heartbeat_loops : ℕ
  pub receive_loops : ℕ
  pub send_loops : ℕ
  pub reconnect_loops : ℕ
  pub backoff_waits : ℕ

unfoldable pub init : Config → Client
init config = record {
  config = config;
  connected = false;
  running = false;
  heartbeat_running = false;
  auto_reconnect_running = false;
  reconnect_attempts = 0;
  queue = [];
  heartbeat_loops = 0;
  receive_loops = 0;
  send_loops = 0;
  reconnect_loops = 0;
  backoff_waits = 0;
}

-- What a call of the WebSocket client comes to: a result, an error, or an exception.
pub data Outcome : Type 0 where
  done : Outcome
  refused : Error → Outcome
  thrown : Str → Outcome

pub start_heartbeat_timer : Client → Client
start_heartbeat_timer c =
    if c.heartbeat_running
    then c
    else record c { heartbeat_running = true; heartbeat_loops = suc c.heartbeat_loops }

unfoldable pub stop_heartbeat_timer : Client → Client
stop_heartbeat_timer c = record c { heartbeat_running = false }

unfoldable pub start_auto_reconnect : Client → Client
start_auto_reconnect c =
    if c.auto_reconnect_running
    then c
    else record c { auto_reconnect_running = true; reconnect_loops = suc c.reconnect_loops }

module _ {S : Type 0} (callback : Bool → Str → S → S) where
  abbrev pub State : Type 0
  State = Client × S

  unfoldable pub notify_connection_status : Bool → Str → State → State
  notify_connection_status connected reason (c, s) = (c, callback connected reason s)

  -- connect, up to its wait.
  pub connect_start : State → Expected (Unit {0}) × State
  connect_start (c, s) =
      if c.connected
      then (unexpected (make_error 2001 (codes "Already connected")), (c, s))
      else if c.running
      then (unexpected (make_error 2002 (codes "Client is already running")), (c, s))
      else (value tt, (record c { reconnect_attempts = 0 }, s))

  -- The loops of a new connection.
  pub start_loops : State → State
  unfolding start_heartbeat_timer
  start_loops (c, s) =
      let c' = start_heartbeat_timer c in
      (record c' { receive_loops = suc c.receive_loops; send_loops = suc c.send_loops }, s)

  -- connect, after its wait.
  pub connect_finish : Outcome → State → Expected Bool × State
  unfolding notify_connection_status start_loops
  connect_finish done (c, s) = (
    value true,
    start_loops (
        notify_connection_status true (codes "Connected successfully")
          (record c { connected = true; running = true }, s)),
  )
  connect_finish (refused e) (c, s) =
      (unexpected (make_error_details 2003 (codes "Failed to connect") (error_to_string e)), (c, s))
  connect_finish (thrown what) (c, s) = (
    unexpected (make_error_details 2004 (codes "Connection failed") what),
    (record c { connected = false; running = false }, s),
  )

  after_start : Outcome → Expected (Unit {0}) × State → Expected Bool × State
  unfolding connect_finish
  after_start outcome (value _, s) = connect_finish outcome s
  after_start outcome (unexpected e, s) = (unexpected e, s)

  pub connect : Outcome → State → Expected Bool × State
  unfolding connect_start after_start
  connect outcome s = after_start outcome (connect_start s)

  -- disconnect, up to its wait.
  pub disconnect_start : State → Expected (Unit {0}) × State
  unfolding stop_heartbeat_timer
  disconnect_start (c, s) =
      if c.connected
      then (
        value tt,
        (record (stop_heartbeat_timer c) { auto_reconnect_running = false; running = false }, s),
      )
      else (unexpected (make_error 2005 (codes "Not connected")), (c, s))

  -- disconnect, after its wait.
  pub disconnect_finish : Outcome → State → Expected Bool × State
  unfolding notify_connection_status
  disconnect_finish done (c, s) = (
    value true,
    notify_connection_status false (codes "Disconnected") (record c { connected = false }, s),
  )
  disconnect_finish (refused e) (c, s) = (
    unexpected (make_error_details 2006 (codes "Disconnect failed") (error_to_string e)),
    notify_connection_status false (codes "Disconnect failed: " ++ error_to_string e)
        (record c { connected = false }, s),
  )
  disconnect_finish (thrown what) (c, s) = (
    unexpected (make_error_details 2007 (codes "Disconnect failed") what),
    (record c { connected = false; running = false }, s),
  )

  -- p_handle_transport_error.
  unfoldable pub handle_transport_error : Str → State → State
  unfolding stop_heartbeat_timer notify_connection_status start_auto_reconnect
  handle_transport_error reason (c, s) =
      if c.connected
      then (let (c', s') =
            notify_connection_status false reason
              (stop_heartbeat_timer (record c { connected = false; running = false }), s) in
          (if c.config.enable_auto_reconnect then start_auto_reconnect c' else c', s'))
      else (c, s)

  -- is_connected: `ws_connected` is what the WebSocket client says.
  pub is_connected : Bool → State → Bool
  is_connected ws_connected (c, s) = c.connected && ws_connected

  -- send_data of a vector: it is put into the queue of the send loop. The wait for room in the
  -- queue, which holds ten buffers, is not modelled.
  unfoldable pub send_data : Str → State → Expected ℕ × State
  send_data buf (c, s) =
      if not c.running || not c.connected
      then (unexpected (make_error 2008 (codes "Not connected")), (c, s))
      else elim buf [
        | [] ↦ (unexpected (make_error 2009 (codes "Invalid data or size")), (c, s))
        | b ∷ bs ↦ (value (length (b ∷ bs)), (record c { queue = c.queue ++ (b ∷ bs) ∷ [] }, s))
      ]

  -- One round of p_send_loop on the next buffer: what is written, and whether the loop goes on.
  pub send_round : Outcome → Str → State → Bool × State
  unfolding handle_transport_error
  send_round done buf s = (true, s)
  send_round (refused e) buf s =
      (false, handle_transport_error (codes "send failed: " ++ error_to_string e) s)
  send_round (thrown what) buf s =
      (false, handle_transport_error (codes "send loop exception: " ++ what) s)

  -- p_send_ping.
  pub send_ping : Outcome → State → State
  unfolding handle_transport_error
  send_ping done s = s
  send_ping (refused e) (c, s) =
      if c.connected
      then handle_transport_error (codes "heartbeat failed: " ++ error_to_string e) (c, s)
      else (c, s)
  send_ping (thrown what) (c, s) =
      if c.connected
      then handle_transport_error (codes "heartbeat exception: " ++ what) (c, s)
      else (c, s)

  -- The end of p_receive_loop: an exception of the read, or the test of the loop.
  pub receive_end : Option Str → State → State
  unfolding handle_transport_error
  receive_end none s = handle_transport_error (codes "receive loop stopped") s
  receive_end (some []) s = handle_transport_error (codes "receive loop stopped") s
  receive_end (some (b ∷ bs)) s = handle_transport_error (b ∷ bs) s

  -- The test of p_auto_reconnect_loop.
  pub reconnect_test : Client → Bool
  reconnect_test c =
      c.auto_reconnect_running
      && (not c.connected && ltb c.reconnect_attempts c.config.max_reconnect_attempts)

  -- One round of its body, up to the next test: `true` is the break after a success.
  reconnect_result : Expected Bool × State → Bool × State
  reconnect_result (value _, (c, s)) = (true, (record c { reconnect_attempts = 0 }, s))
  reconnect_result (unexpected _, s) = (false, s)

  pub reconnect_round : Outcome → State → Bool × State
  unfolding connect reconnect_result
  reconnect_round outcome (c, s) =
      let attempts = suc c.reconnect_attempts in
      let waits = if ltb 1 attempts then suc c.backoff_waits else c.backoff_waits in
      reconnect_result
        (connect outcome (record c { reconnect_attempts = attempts; backoff_waits = waits }, s))

  -- After the loop.
  pub reconnect_end : State → State
  unfolding notify_connection_status
  reconnect_end (c, s) =
      let (c', s') =
        if c.connected
        then (c, s)
        else notify_connection_status false (codes "Max reconnection attempts reached") (c, s) in
      (record c' { auto_reconnect_running = false }, s')

  -- p_auto_reconnect_loop on the outcomes of its attempts, in order; where these end, the loop has
  -- not ended yet (`false`).
  pub auto_reconnect_loop : List Outcome → State → Bool × State
  unfolding reconnect_test reconnect_round reconnect_end
  auto_reconnect_loop [] s = if reconnect_test s.0 then (false, s) else (true, reconnect_end s)
  auto_reconnect_loop (o ∷ os) s =
      let next = reconnect_round o s in
      let ended : Bool × State = (true, reconnect_end s) in
      let broken : Bool × State = (true, reconnect_end next.1) in
      let rest = auto_reconnect_loop os next.1 in
      if reconnect_test s.0 then (if next.0 then broken else rest) else ended
