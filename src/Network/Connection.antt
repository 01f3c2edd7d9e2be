-- ===== src/Network/Connection.antt =====
-- SDKConnectionManager (imsdk/src/core/network/connection), between the long connection and the
-- request tracker. The status callback that it gives the client is `on_status`. Listeners are
-- named by numbers; what is posted to the sdk thread for them is recorded in order.
pub mod Frames
pub mod Requests
pub mod Routing
mod Tests
use roc_im_sdk.Prelude.{
  ℕ, zero, suc, Bool, true, false, ◌&&◌, ◌||◌, not, List, [], ◌∷◌, ◌++◌, map, Option, none, some,
  Str, codes, length, if◌then◌else◌, ◌==◌, nat_eq, str_eq, ℤ,
}
use roc_im_sdk.Decimal.{to_string}
use roc_im_sdk.UnorderedMap.{assign}
use roc_im_sdk.Network.Message.{
  Error, make_error, make_error_details, error_to_string, Expected, value, unexpected,
  FrontierMessage,
}
use roc_im_sdk.Network.RequestTracker.{Tracker, track, complete, cancel, fail_all}
use roc_im_sdk.Network.LongConnection.{Client, State, send_data}

pub data NetworkStatus : Type 0 where
  unknown connected disconnected : NetworkStatus

pub record Config : Type 0 where
  pub user_id : Str
  pub user_device_id : Str

-- The state of the manager beside its client, with the process-wide counter of request ids.
pub record Link : Type 0 where
  pub next_id : ℕ
  pub tracker : Tracker
  pub status_callbacks : List ℕ
  pub push_callbacks : List ℕ
  pub notified : List (ℕ × NetworkStatus)
  pub pushed : List (ℕ × FrontierMessage)

-- next_request_id.
pub next_request_id : Config → ℕ → Str
unfolding to_string
next_request_id config n =
    to_string n ++ (codes "_" ++ (config.user_id ++ (codes "_" ++ config.user_device_id)))

abbrev pub disconnected_error : Str → Error
disconnected_error detail = make_error_details 2102 (codes "connection disconnected") detail

abbrev pub status_of : Bool → NetworkStatus
status_of up = if up then connected else disconnected

-- The connection status callback of InitAndConnect; `alive` says that SDKRoot is there.
pub on_status : Bool → Bool → Str → Link → Link
on_status alive up detail l =
    if alive
    then record l {
      tracker = if up then l.tracker else fail_all (disconnected_error detail) l.tracker;
      notified = l.notified ++ map (λ callback. (callback, status_of up)) l.status_callbacks;
    }
    else l

-- OnNetworkStatusChange, and AddOnPushMessageCallback.
pub on_network_status_change : ℕ → Link → Link
on_network_status_change callback l = record l {
  status_callbacks = l.status_callbacks ++ callback ∷ [];
}

pub add_on_push_message_callback : ℕ → Link → Link
add_on_push_message_callback callback l = record l {
  push_callbacks = l.push_callbacks ++ callback ∷ [];
}

pub is_empty : Str → Bool
is_empty [] = true
is_empty (_ ∷ _) = false

-- The test of handleMessageFrame: an answer to a request.
pub is_response : FrontierMessage → Bool
unfolding is_empty
is_response msg =
    not (is_empty msg.request_id) && (msg.type == codes "response" || msg.type == codes "error")

-- handleMessageFrame, after the parse.
pub route : Expected FrontierMessage → Link → Link
unfolding is_response
route (unexpected e) l = l
route (value msg) l =
    if is_response msg
    then record l { tracker = (complete msg.request_id msg l.tracker).1 }
    else record l { pushed = l.pushed ++ map (λ callback. (callback, msg)) l.push_callbacks }

-- The text before the first newline, and the text after it.
pub find_newline : Str → Option (Str × Str)
find_newline [] = none
find_newline (c ∷ cs) =
    if c == 10
    then some ([], cs)
    else elim (find_newline cs) [ none ↦ none | some (frame, rest) ↦ some (c ∷ frame, rest) ]

module _ (alive : Bool) (parse : Str → Expected FrontierMessage) where
  -- handleMessageFrame.
  pub handle_message_frame : Str → Link → Link
  unfolding route
  handle_message_frame frame l = if alive then route (parse frame) l else l

  -- The call of handleDataReceived on one piece of the buffer.
  pub handle_frame : Str → Link → Link
  unfolding handle_message_frame
  handle_frame [] l = l
  handle_frame (c ∷ cs) l = handle_message_frame (c ∷ cs) l

  -- Its loop; each round that finds a newline shortens the rest of the buffer.
  pub data_loop : ℕ → Str → Link → Link
  unfolding handle_frame
  data_loop zero raw l = l
  data_loop (suc fuel) [] l = l
  data_loop (suc fuel) (c ∷ cs) l = elim (find_newline (c ∷ cs)) [
    | none ↦ handle_frame (c ∷ cs) l
    | some (frame, rest) ↦ data_loop fuel rest (handle_frame frame l)
  ]

  -- handleDataReceived.
  pub handle_data_received : Str → Link → Link
  unfolding data_loop
  handle_data_received raw l = if alive then data_loop (suc (length raw)) raw l else l

-- The message that SendRequest sends: `now` is the clock, `track_id` the number of the call.
pub stamp : Config → ℤ → ℕ → ℕ → FrontierMessage → FrontierMessage
unfolding next_request_id
stamp config now track_id n req = record req {
  type = codes "request";
  timestamp = now;
  request_id = next_request_id config n;
  metadata = assign (codes "track_id") (to_string track_id) req.metadata;
}

module _ (alive : Bool) (serialize : FrontierMessage → Str) where
  -- After send_data: a request that is not sent is cancelled; else SendRequest waits on the channel.
  pub after_send :
      Str → ℕ → Expected ℕ × State (on_status alive) → Expected ℕ × State (on_status alive)
  after_send id channel (value _, s) = (value channel, s)
  after_send id channel (unexpected e, (c, l)) = (
    unexpected (make_error_details 2103 (codes "send request failed") (error_to_string e)),
    (c, record l { tracker = cancel id l.tracker }),
  )

  send_stamped :
      FrontierMessage → ℕ × Tracker → State (on_status alive) → Expected ℕ × State (on_status alive)
  unfolding after_send send_data
  send_stamped req (channel, t) (c, l) =
      after_send req.request_id channel
        (send_data (on_status alive) (serialize req) (c, record l { tracker = t }))

  -- SendRequest, up to its wait for the response.
  pub send_request :
      Config
      → ℤ
      → ℕ
      → Option FrontierMessage
      → State (on_status alive)
      → Expected ℕ × State (on_status alive)
  unfolding stamp send_stamped
  send_request config now track_id none s = (
    if alive
        then unexpected (
            make_error_details 1001 (codes "request is null")
              (codes "SDKConnectionManager:send_request"))
        else unexpected (
            make_error_details 1000 (codes "root is expired")
              (codes "SDKConnectionManager:send_request")),
    s,
  )
  send_request config now track_id (some msg) (c, l) =
      if alive
      then (let req = stamp config now track_id l.next_id msg in
          let l' = record l { next_id = suc l.next_id } in
          send_stamped req (track req.request_id l.tracker) (c, l'))
      else (
        unexpected (
            make_error_details 1000 (codes "root is expired")
              (codes "SDKConnectionManager:send_request")),
        (c, l),
      )
