-- ===== src/Network/Connection/Routing.antt =====
-- Where a frame goes, and what a change of the connection's status does to the requests.
use roc_im_sdk.Prelude.{
  ◌≡◌, refl, true, false, ◌++◌, map, none, some, Str, if◌then◌else◌, ◌==◌, str_eq,
}
use roc_im_sdk.UnorderedMap.{find}
use roc_im_sdk.Network.Message.{Expected, value, unexpected, FrontierMessage}
use roc_im_sdk.Network.RequestTracker.{PendingRequest, wait, pending_count}
use roc_im_sdk.Network.RequestTracker.Invariant.{Inv}
use roc_im_sdk.Network.RequestTracker.Delivery.{complete_pending, complete_stale, fail_all_wakes}
use roc_im_sdk.Network.LongConnection.{Client, handle_transport_error}
use roc_im_sdk.Network.Connection.{
  Link, disconnected_error, disconnected, on_status, is_response, route, handle_message_frame,
}

-- While SDKRoot is there: an answer to a pending request completes that request and no other, and
-- is shown to no push listener.
pub response_reaches :
    (parse : Str → Expected FrontierMessage) (frame : Str) (msg : FrontierMessage)
    (p : PendingRequest) (l : Link)
    → Inv l.tracker
    → parse frame ≡ value msg
    → is_response msg ≡ true
    → find msg.request_id l.tracker.pending ≡ some p
    → let l' = handle_message_frame true parse frame l in
      (wait (some p.channel) l'.tracker ≡ some (value msg))
      × (l'.pushed ≡ l.pushed)
      × ((j : Str)
          → find j l'.tracker.pending
            ≡ (if msg.request_id == j then none else find j l.tracker.pending))
unfolding handle_message_frame
response_reaches parse frame msg p l v read answer hit =
    let (_, sent, _, others) = complete_pending msg.request_id msg l.tracker p v hit in
    rw read (unfold route in (rw answer (sent, refl, others)))

-- While SDKRoot is there: an answer to no pending request, and a frame that is no message, change
-- nothing.
pub stale_is_dropped :
    (parse : Str → Expected FrontierMessage) (frame : Str) (l : Link)
    → ((msg : FrontierMessage)
        → parse frame ≡ value msg
        → (is_response msg ≡ true) × (find msg.request_id l.tracker.pending ≡ none))
    → handle_message_frame true parse frame l ≡ l
unfolding handle_message_frame
stale_is_dropped parse frame l stale = dropped (parse frame) stale
  where
    dropped :
        (r : Expected FrontierMessage)
        → ((msg : FrontierMessage)
            → r ≡ value msg
            → (is_response msg ≡ true) × (find msg.request_id l.tracker.pending ≡ none))
        → route r l ≡ l
    dropped (unexpected e) h = unfold route in refl
    dropped (value msg) h =
        let (answer, miss) = h msg refl in
        unfold route in (rw answer (rw (complete_stale msg.request_id msg l.tracker miss)))

-- While SDKRoot is there: any other message is posted once to every push listener, in the order in
-- which they were added, and leaves the requests alone.
pub push_reaches_all :
    (parse : Str → Expected FrontierMessage) (frame : Str) (msg : FrontierMessage) (l : Link)
    → parse frame ≡ value msg
    → is_response msg ≡ false
    → let l' = handle_message_frame true parse frame l in
      (l'.pushed ≡ l.pushed ++ map (λ callback. (callback, msg)) l.push_callbacks)
      × (l'.tracker ≡ l.tracker)
unfolding handle_message_frame
push_reaches_all parse frame msg l read push = rw read (unfold route in (rw push (refl, refl)))

-- When a connected client of a manager whose SDKRoot is there reports a transport error, every
-- request that waits gets the error "connection disconnected" with the reason, none stays pending,
-- and every status listener is told once that the connection is down.
pub transport_error_wakes :
    (reason id : Str) (p : PendingRequest) (c : Client) (l : Link)
    → Inv l.tracker
    → c.connected ≡ true
    → find id l.tracker.pending ≡ some p
    → let l' = (handle_transport_error (on_status true) reason (c, l)).1 in
      (wait (some p.channel) l'.tracker ≡ some (unexpected (disconnected_error reason)))
      × (pending_count l'.tracker ≡ 0)
      × (l'.notified ≡ l.notified ++ map (λ callback. (callback, disconnected)) l.status_callbacks)
unfolding handle_transport_error on_status
transport_error_wakes reason id p c l v up hit =
    let (woken, empty) = fail_all_wakes (disconnected_error reason) l.tracker id p v hit in
    rw up (woken, empty, refl)
