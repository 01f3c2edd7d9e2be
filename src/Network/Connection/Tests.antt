-- ===== src/Network/Connection/Tests.antt =====
-- Runs and instances of the connection manager: one request is pending, and two listeners wait for
-- pushes. The parser that stands in takes the whole frame for the id of a response, or for a push
-- where it starts with '!'.
use roc_im_sdk.Prelude.{
  ℕ, ◌≡◌, refl, true, false, [], ◌∷◌, ◌++◌, none, some, Str, codes, pos, str_eq, nat_eq, str_beq,
  if◌then◌else◌, ◌==◌,
}
use roc_im_sdk.UnorderedMap.{find, assign}
use roc_im_sdk.Network.Message.{
  make_error, Expected, value, unexpected, FrontierMessage, empty_message,
}
use roc_im_sdk.Network.RequestTracker
use roc_im_sdk.Network.RequestTracker.{PendingRequest, Tracker, wait, pending_count}
use roc_im_sdk.Network.RequestTracker.Invariant.{Inv}
use roc_im_sdk.Network.RequestTracker.Preserve.{run-init-Inv}
use roc_im_sdk.Network.LongConnection.{Client, handle_transport_error}
use roc_im_sdk.Network.Connection.{
  Config, Link, on_status, disconnected_error, is_response, next_request_id, handle_message_frame,
  handle_data_received, find_newline, data_loop,
}
use roc_im_sdk.Network.Connection.Frames.{join_lines, handle_lines, handle_data_received_lines}
use roc_im_sdk.Network.Connection.Requests.{sent, request_gets_response, request_lost}

abbrev message : Str → Str → FrontierMessage
message id type = record (empty_message (pos 0)) { request_id = id; type = type }

abbrev parse : Str → Expected FrontierMessage
parse [] = unexpected (make_error 1002 (codes "empty"))
parse (c ∷ cs) =
    value (if c == 33 then message [] (codes "push") else message (c ∷ cs) (codes "response"))

abbrev old_id : Str
old_id = codes "7_u1_d1"

abbrev one : Tracker
one = RequestTracker.run (RequestTracker.tracks old_id ∷ []) RequestTracker.init

one-Inv : Inv one
one-Inv = run-init-Inv (RequestTracker.tracks old_id ∷ [])

abbrev old_request : PendingRequest
old_request = record { channel = 0; timer = 0 }

one_pending : find old_id one.pending ≡ some old_request
unfolding RequestTracker.run RequestTracker.init RequestTracker.step RequestTracker.track
    RequestTracker.take_pending find assign str_beq
one_pending = refl

abbrev link : Link
link = record {
  next_id = 8;
  tracker = one;
  status_callbacks = 0 ∷ [];
  push_callbacks = 0 ∷ 1 ∷ [];
  notified = [];
  pushed = [];
}

abbrev client : Client
client = record {
  config = record { enable_auto_reconnect = true; max_reconnect_attempts = 5 };
  connected = true;
  running = true;
  heartbeat_running = true;
  auto_reconnect_running = false;
  reconnect_attempts = 0;
  queue = [];
  heartbeat_loops = 1;
  receive_loops = 1;
  send_loops = 1;
  reconnect_loops = 0;
  backoff_waits = 0;
}

abbrev offline : Client
offline = record client { connected = false; running = false }

abbrev config : Config
config = record { user_id = codes "u1"; user_device_id = codes "d1" }

abbrev serialize : FrontierMessage → Str
serialize msg = 123 ∷ msg.request_id ++ 125 ∷ []

-- Two pushes and an empty line in one buffer.
two_pushes :
    (handle_data_received true parse (codes "!a" ++ 10 ∷ 10 ∷ codes "!b") link).pushed
    ≡ (0, message [] (codes "push"))
      ∷ (1, message [] (codes "push"))
      ∷ (0, message [] (codes "push"))
      ∷ (1, message [] (codes "push"))
      ∷ []
unfolding handle_data_received data_loop find_newline
two_pushes = refl

handle_data_received_lines_example :
    handle_data_received true parse (join_lines (codes "!a" ∷ [] ∷ []) (codes "7_u1_d1")) link
    ≡ handle_lines true parse (codes "!a" ∷ [] ∷ []) (codes "7_u1_d1") link
handle_data_received_lines_example =
    handle_data_received_lines parse (codes "!a" ∷ [] ∷ []) (codes "7_u1_d1") link
      ((refl, (refl, tt)), (tt, tt)) (refl, (refl, (refl, (refl, (refl, (refl, (refl, tt)))))))

request_gets_response_example :
    (channel : ℕ) × ((sent serialize config (pos 5) 1 (message [] []) (client, link)).0
      ≡ value channel)
    × (wait
          (some channel)
          (handle_message_frame true parse
            (next_request_id config 8)
            (sent serialize config (pos 5) 1 (message [] []) (client, link)).1.1).tracker
        ≡ some (value (message (next_request_id config 8) (codes "response"))))
    × ((j : Str)
        → find j
            (handle_message_frame true parse
              (next_request_id config 8)
              (sent serialize config (pos 5) 1 (message [] []) (client, link)).1.1).tracker.pending
          ≡ (if next_request_id config 8 == j then none else find j one.pending))
unfolding is_response str_beq next_request_id
request_gets_response_example =
    request_gets_response serialize config (pos 5) 1 parse (next_request_id config 8)
      (message (next_request_id config 8) (codes "response")) (message [] []) client link one-Inv
      refl refl (λ e. cc e) refl refl refl

request_lost_example :
    (channel : ℕ) × ((sent serialize config (pos 5) 1 (message [] []) (client, link)).0
      ≡ value channel)
    × (wait
          (some channel)
          (handle_transport_error
            (on_status true)
            (codes "eof")
            (sent serialize config (pos 5) 1 (message [] []) (client, link)).1).1.tracker
        ≡ some (unexpected (disconnected_error (codes "eof"))))
    × (pending_count
          (handle_transport_error
            (on_status true)
            (codes "eof")
            (sent serialize config (pos 5) 1 (message [] []) (client, link)).1).1.tracker
        ≡ 0)
request_lost_example =
    request_lost serialize config (pos 5) 1 (codes "eof") (message [] []) client link one-Inv refl
      refl (λ e. cc e)
