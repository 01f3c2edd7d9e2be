-- ===== src/Network/LongConnection/Tests.antt =====
-- Runs and instances of the connection; the listener keeps the list of what it was told.
use roc_im_sdk.Prelude.{◌≡◌, refl, Bool, true, false, List, [], ◌∷◌, none, Str, codes, arith}
use roc_im_sdk.Network.Message.{make_error, unexpected}
use roc_im_sdk.Network.LongConnection.{
  Config, Client, Outcome, done, refused, thrown, init, connect, connect_start, start_loops,
  connect_finish, disconnect_start, disconnect_finish, receive_end, auto_reconnect_loop,
}
use roc_im_sdk.Network.LongConnection.Status.{
  connect_finishes, step, IsConsistent, step-IsConsistent, disconnect_race_wedges,
}
use roc_im_sdk.Network.LongConnection.Reconnect.{IsReconnecting, reconnect_never_gives_up}

abbrev Log : Type 0
Log = List (Bool × Str)

abbrev log : Bool → Str → Log → Log
log connected reason l = (connected, reason) ∷ l

abbrev five : Config
five = record { enable_auto_reconnect = true; max_reconnect_attempts = 5 }

abbrev up : Client
up = record (init five) { connected = true; running = true; heartbeat_running = true }

abbrev down : Client
down = record (init five) { auto_reconnect_running = true }

abbrev refusals : List Outcome
refusals = refused (make_error 1002 (codes "Connection failed")) ∷ thrown (codes "closed") ∷ []

connect_run : (connect log done (init five, [])).1.1 ≡ (true, codes "Connected successfully") ∷ []
unfolding connect connect_start connect_finish start_loops init
connect_run = refl

step-IsConsistent_example : IsConsistent (step log (connect_finishes done) (init five, [])).0
unfolding init
step-IsConsistent_example =
    step-IsConsistent log (connect_finishes done) (init five, []) tt (λ e. cc)

disconnect_race_wedges_example :
    let t =
      (disconnect_finish log done
        (connect log done (receive_end log none (disconnect_start log (up, [])).1)).1).1 in
    disconnect_start log t ≡ (unexpected (make_error 2005 (codes "Not connected")), t)
unfolding init
disconnect_race_wedges_example = (disconnect_race_wedges log none done up [] refl refl).1

down-IsReconnecting : IsReconnecting down
unfolding init
down-IsReconnecting = record { down = refl; stopped = refl; reconnecting = refl; uncounted = refl }

reconnect_never_gives_up_example : auto_reconnect_loop log refusals (down, []) ≡ (false, (down, []))
unfolding init
reconnect_never_gives_up_example =
    reconnect_never_gives_up log refusals down [] (omega arith) down-IsReconnecting
      (refl, (refl, tt))
