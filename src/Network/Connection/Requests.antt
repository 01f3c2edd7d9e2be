-- ===== src/Network/Connection/Requests.antt =====
-- Sending a request and getting its response: the ids, the entry in the tracker, and the failures.
use roc_im_sdk.Prelude.{
  ℕ, suc, length, ◌≡◌, refl, ◌≢◌, Bool, true, false, [], ◌∷◌, ◌++◌, none, some, Str, All, arith,
  if◌then◌else◌, ◌==◌, str_eq, ◌∙◌, ap, ℤ, codes, str_beq_iff, inl, inr, Option-cases,
}
use roc_im_sdk.Decimal.{to_string, to_string-injective, to_string-All-IsDigit, IsDigit}
use roc_im_sdk.UnorderedMap.{find}
use roc_im_sdk.UnorderedMap.Laws.{find-erase, find-assign}
use roc_im_sdk.Network.Message.{
  Expected, value, unexpected, FrontierMessage, make_error, make_error_details, error_to_string,
}
use roc_im_sdk.Network.RequestTracker
use roc_im_sdk.Network.RequestTracker.{
  Tracker, PendingRequest, Response, track, take_pending, drop_pending, cancel, complete, wait,
  pending_count, step,
}
use roc_im_sdk.Network.RequestTracker.Invariant.{Inv}
use roc_im_sdk.Network.RequestTracker.Preserve.{step-Inv}
use roc_im_sdk.Network.LongConnection.{Client, State, send_data, handle_transport_error}
use roc_im_sdk.Network.Connection.{
  Config, Link, on_status, send_stamped, disconnected_error, next_request_id, stamp, send_request,
  after_send, is_response, handle_message_frame,
}
use roc_im_sdk.Network.Connection.Routing.{response_reaches, transport_error_wakes}

-- The digits before the first byte that is not one.
digits_eq :
    (xs ys : Str) (s t : Str)
    → All IsDigit xs
    → All IsDigit ys
    → xs ++ 95 ∷ s ≡ ys ++ 95 ∷ t
    → xs ≡ ys
digits_eq [] [] s t a b e = refl
digits_eq [] (y ∷ ys) s t a b e = ground arith
digits_eq (x ∷ xs) [] s t a b e = ground arith
digits_eq (x ∷ xs) (y ∷ ys) s t a b e =
    let heads : x ≡ y = ground arith in
    let rest : xs ++ 95 ∷ s ≡ ys ++ 95 ∷ t = ground arith in
    ground (arith, digits_eq xs ys s t a.1 b.1 rest)

-- Two requests that took different numbers from the counter have different ids, whoever the users
-- and their devices are.
pub next_request_id-injective :
    (config config' : Config) (n m : ℕ)
    → next_request_id config n ≡ next_request_id config' m
    → n ≡ m
unfolding next_request_id
next_request_id-injective config config' n m e = to_string-injective n m (
    digits_eq (to_string n) (to_string m) _ _ (to_string-All-IsDigit n) (to_string-All-IsDigit m) e)

find-take_pending :
    (id j : Str) (t : Tracker)
    → find j (take_pending id t).1.pending ≡ (if id == j then none else find j t.pending)
unfolding take_pending drop_pending
find-take_pending id j t = elim (Option-cases (find id t.pending)) [
  | inl miss ↦
      rw (miss, take_pending) (ground (arith, str_beq_iff id j, ap (λ (x : Str). find x t.pending)))
  | inr (p, hit) ↦ rw (hit, take_pending) (find-erase id j t.pending)
]

find-track :
    (id j : Str) (t : Tracker)
    → find j (track id t).1.pending
      ≡ (if id == j then some (record { channel = t.next; timer = t.next }) else find j t.pending)
unfolding track
find-track id j t = ground (
  arith,
  find-assign id j (record { channel = t.next; timer = t.next }) (take_pending id t).1.pending,
  find-take_pending id j t,
)

send_data_queues :
    {S : Type 0} (callback : Bool → Str → S → S) (buf : Str) (c : Client) (s : S)
    → c.connected ≡ true
    → c.running ≡ true
    → buf ≢ []
    → send_data callback buf (c, s)
      ≡ (value (length buf), (record c { queue = c.queue ++ buf ∷ [] }, s))
unfolding send_data
send_data_queues callback [] c s up runs ne = absurd (ne refl)
send_data_queues callback (b ∷ bs) c s up runs ne = rw (up, runs)

send_data_refused :
    {S : Type 0} (callback : Bool → Str → S → S) (buf : Str) (c : Client) (s : S)
    → c.connected ≡ false
    → send_data callback buf (c, s) ≡ (unexpected (make_error 2008 (codes "Not connected")), (c, s))
unfolding send_data
send_data_refused callback buf c s down = ground arith

-- A request waits under its id, and the others as before.
track_sent :
    (id : Str) (t : Tracker)
    → find id (track id t).1.pending ≡ some (record { channel = t.next; timer = t.next })
track_sent id t = ground (arith, find-track id id t, str_beq_iff id id)

track-Inv : (id : Str) (t : Tracker) → Inv t → Inv (track id t).1
unfolding step
track-Inv id t v = step-Inv (RequestTracker.tracks id) t v

module _ (serialize : FrontierMessage → Str) (config : Config) (now : ℤ) (track_id : ℕ) where
  abbrev pub sent : FrontierMessage → State (on_status true) → Expected ℕ × State (on_status true)
  sent msg s = send_request true serialize config now track_id (some msg) s

  -- What SendRequest comes to on a connected client: the buffer is queued, and the request waits
  -- under its id.
  send_connected :
      (msg : FrontierMessage) (c : Client) (l : Link)
      → c.connected ≡ true
      → c.running ≡ true
      → serialize (stamp config now track_id l.next_id msg) ≢ []
      → sent msg (c, l) ≡ (
        value l.tracker.next,
        (
          record c { queue = c.queue ++ serialize (stamp config now track_id l.next_id msg) ∷ [] },
          record l {
            next_id = suc l.next_id;
            tracker = (track (next_request_id config l.next_id) l.tracker).1;
          },
        ),
      )
  unfolding send_request send_stamped after_send stamp track
  send_connected msg c l up runs ne =
      let req = stamp config now track_id l.next_id msg in
      rw (send_data_queues (on_status true) (serialize req) c _ up runs ne)

  -- While the client is connected and SDKRoot is there, and the serialized message is not empty: a
  -- request that is sent and whose response comes in next gets that response, under the id that
  -- SendRequest gave it. Then the id is no longer pending, and the other requests are as before.
  pub request_gets_response :
      (parse : Str → Expected FrontierMessage) (frame : Str) (resp msg : FrontierMessage)
      (c : Client) (l : Link)
      → Inv l.tracker
      → c.connected ≡ true
      → c.running ≡ true
      → serialize (stamp config now track_id l.next_id msg) ≢ []
      → parse frame ≡ value resp
      → is_response resp ≡ true
      → resp.request_id ≡ next_request_id config l.next_id
      → (channel : ℕ) × ((sent msg (c, l)).0 ≡ value channel)
        × (wait (some channel) (handle_message_frame true parse frame (sent msg (c, l)).1.1).tracker
            ≡ some (value resp))
        × ((j : Str)
            → find j (handle_message_frame true parse frame (sent msg (c, l)).1.1).tracker.pending
              ≡ (if resp.request_id == j then none else find j l.tracker.pending))
  request_gets_response parse frame resp msg c l v up runs ne read answer same =
      let id = next_request_id config l.next_id in
      let t = (track id l.tracker).1 in
      let l' = record l { next_id = suc l.next_id; tracker = t } in
      let p : PendingRequest = record { channel = l.tracker.next; timer = l.tracker.next } in
      let hit : find resp.request_id t.pending ≡ some p =
        ap (λ i. find i t.pending) same ∙ track_sent id l.tracker in
      let (got, _, others) =
        response_reaches parse frame resp p l' (track-Inv id l.tracker v) read answer hit in
      rw (send_connected msg c l up runs ne)
        (l.tracker.next, refl, got, λ j. others j ∙ ground (arith, find-track id j l.tracker, same))

  -- While the client is connected and SDKRoot is there, and the serialized message is not empty: a
  -- request that is sent just before the connection breaks gets the error "connection
  -- disconnected" with the reason, and no request stays pending.
  pub request_lost :
      (reason : Str) (msg : FrontierMessage) (c : Client) (l : Link)
      → Inv l.tracker
      → c.connected ≡ true
      → c.running ≡ true
      → serialize (stamp config now track_id l.next_id msg) ≢ []
      → (channel : ℕ) × ((sent msg (c, l)).0 ≡ value channel)
        × (wait
              (some channel)
              (handle_transport_error (on_status true) reason (sent msg (c, l)).1).1.tracker
            ≡ some (unexpected (disconnected_error reason)))
        × (pending_count
              (handle_transport_error (on_status true) reason (sent msg (c, l)).1).1.tracker
            ≡ 0)
  request_lost reason msg c l v up runs ne =
      let id = next_request_id config l.next_id in
      let l' = record l { next_id = suc l.next_id; tracker = (track id l.tracker).1 } in
      let p : PendingRequest = record { channel = l.tracker.next; timer = l.tracker.next } in
      let c' = record c {
        queue = c.queue ++ serialize (stamp config now track_id l.next_id msg) ∷ [];
      } in
      let (woken, empty, _) =
        transport_error_wakes reason id p c' l' (track-Inv id l.tracker v) up
          (track_sent id l.tracker) in
      rw (send_connected msg c l up runs ne) (l.tracker.next, refl, woken, empty)

  -- While SDKRoot is there: on a client that is not connected, SendRequest fails with the error of
  -- the send, leaves the client alone, and leaves nothing behind under the id of the request.
  pub request_refused :
      (msg : FrontierMessage) (c : Client) (l : Link)
      → c.connected ≡ false
      → ((sent msg (c, l)).0
          ≡ unexpected (
              make_error_details 2103
                (codes "send request failed")
                (error_to_string (make_error 2008 (codes "Not connected")))))
        × ((sent msg (c, l)).1.0 ≡ c)
        × ((j : Str)
            → find j (sent msg (c, l)).1.1.tracker.pending
              ≡ (if next_request_id config l.next_id == j then none else find j l.tracker.pending))
  unfolding send_request send_stamped after_send stamp cancel
  request_refused msg c l down =
      let req = stamp config now track_id l.next_id msg in
      let id = next_request_id config l.next_id in
      rw (send_data_refused (on_status true) (serialize req) c _ down) (
        refl,
        refl,
        λ j.
            ground
              (arith, find-take_pending id j (track id l.tracker).1, find-track id j l.tracker),
      )
