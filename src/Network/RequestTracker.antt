-- ===== src/Network/RequestTracker.antt =====
-- RequestTracker (imsdk/src/core/network/connection/request). Channels and timers are named by the
-- number of the call of Track that made them. `timers` holds the coroutines of StartTimeout, which
-- wait on a timer; boost::asio keeps the outcome of a timer that has expired, so a later cancel
-- comes too late for it. `sends` holds the coroutines of Deliver, the newest first: each puts one
-- response into a channel of capacity one, where Wait finds it.
pub mod Invariant
pub mod Calls
pub mod Preserve
pub mod Delivery
pub mod Settled
mod Tests
use roc_im_sdk.Prelude.{
  ℕ, suc, Bool, true, false, List, [], ◌∷◌, Option, none, some, Str, length, codes, nat_eq,
  if◌then◌else◌, ◌==◌, str_eq,
}
use roc_im_sdk.UnorderedMap.{find, erase, assign}
use roc_im_sdk.Network.Message.{
  Error, make_error, make_error_details, Expected, value, unexpected, FrontierMessage,
}

abbrev pub Response : Type 0
Response = Expected FrontierMessage

pub record PendingRequest : Type 0 where
  pub channel : ℕ
  pub timer : ℕ

pub data TimerStatus : Type 0 where
  spawned waiting expired cancelled finished : TimerStatus

-- The coroutine of StartTimeout, which the event loop starts some time after it is spawned: the
-- request that it was started for, and its timer.
pub record Timer : Type 0 where
  pub request_id : Str
  pub status : TimerStatus

pub record Tracker : Type 0 where
  pub next : ℕ
  pub pending : List (Str × PendingRequest)
  pub timers : List (ℕ × Timer)
  pub sends : List (ℕ × Response)

unfoldable pub init : Tracker
init = record { next = 0; pending = []; timers = []; sends = [] }

abbrev pub timeout_error : Str → Error
timeout_error request_id = make_error_details 2101 (codes "request timeout") request_id

-- timer->cancel(): it ends the wait of the coroutine; it has no effect before that wait, and none once
-- the timer has expired.
unfoldable pub cancel_status : TimerStatus → TimerStatus
cancel_status spawned = spawned
cancel_status waiting = cancelled
cancel_status expired = expired
cancel_status cancelled = cancelled
cancel_status finished = finished

unfoldable pub set_status : (TimerStatus → TimerStatus) → ℕ → List (ℕ × Timer) → List (ℕ × Timer)
set_status f n timers = elim (find n timers) [
  | none ↦ timers
  | some timer ↦ assign n (record timer { status = f timer.status }) timers
]

unfoldable pub cancel_timer : ℕ → List (ℕ × Timer) → List (ℕ × Timer)
unfolding cancel_status set_status
cancel_timer n timers = set_status cancel_status n timers

-- Deliver.
unfoldable pub deliver : ℕ → Response → List (ℕ × Response) → List (ℕ × Response)
deliver channel response sends = (channel, response) ∷ sends

-- The entry of `request_id` leaves the map, and its timer is cancelled.
unfoldable pub drop_pending : Str → PendingRequest → Tracker → Tracker
unfolding cancel_timer
drop_pending request_id p t = record t {
  timers = cancel_timer p.timer t.timers;
  pending = erase request_id t.pending;
}

-- The part of Track, Complete, Fail and Cancel that finds the entry and takes it out.
unfoldable pub take_pending : Str → Tracker → Option PendingRequest × Tracker
unfolding drop_pending
take_pending request_id t = elim (find request_id t.pending) [
  | none ↦ (none, t)
  | some p ↦ (some p, drop_pending request_id p t)
]

-- Track, with StartTimeout.
unfoldable pub track : Str → Tracker → ℕ × Tracker
unfolding take_pending
track request_id t =
    let channel = t.next in
    let t' = (take_pending request_id t).1 in
    (
      channel,
      record t' {
        next = suc t.next;
        pending = assign request_id (record { channel = channel; timer = channel }) t'.pending;
        timers = assign channel (record { request_id = request_id; status = spawned }) t'.timers;
      },
    )

unfoldable pub finish : Response → Option PendingRequest × Tracker → Bool × Tracker
unfolding deliver
finish response (none, t) = (false, t)
finish response (some p, t) = (true, record t { sends = deliver p.channel response t.sends })

unfoldable pub complete : Str → FrontierMessage → Tracker → Bool × Tracker
unfolding take_pending finish
complete request_id response t = finish (value response) (take_pending request_id t)

pub fail : Str → Error → Tracker → Bool × Tracker
unfolding take_pending finish
fail request_id error t = finish (unexpected error) (take_pending request_id t)

unfoldable pub cancel_all : List (Str × PendingRequest) → List (ℕ × Timer) → List (ℕ × Timer)
unfolding cancel_timer
cancel_all [] timers = timers
cancel_all ((_, p) ∷ ps) timers = cancel_all ps (cancel_timer p.timer timers)

unfoldable pub deliver_all :
    List (Str × PendingRequest) → Response → List (ℕ × Response) → List (ℕ × Response)
unfolding deliver
deliver_all [] response sends = sends
deliver_all ((_, p) ∷ ps) response sends =
    deliver_all ps response (deliver p.channel response sends)

unfoldable pub fail_all : Error → Tracker → Tracker
unfolding cancel_all deliver_all
fail_all error t = record t {
  pending = [];
  timers = cancel_all t.pending t.timers;
  sends = deliver_all t.pending (unexpected error) t.sends;
}

unfoldable pub cancel : Str → Tracker → Tracker
unfolding take_pending
cancel request_id t = (take_pending request_id t).1

unfoldable pub pending_count : Tracker → ℕ
pending_count t = length t.pending

-- The event loop starts the coroutine, which waits on its timer; if that has expired, the wait is over
-- at once.
pub start_status : TimerStatus → TimerStatus
start_status spawned = waiting
start_status waiting = waiting
start_status expired = expired
start_status cancelled = cancelled
start_status finished = finished

pub begin : ℕ → Tracker → Tracker
unfolding start_status set_status
begin n t = record t { timers = set_status start_status n t.timers }

-- The clock reaches the expiry of a timer, whether the coroutine waits on it yet or not.
pub expire_status : TimerStatus → TimerStatus
expire_status spawned = expired
expire_status waiting = expired
expire_status expired = expired
expire_status cancelled = cancelled
expire_status finished = finished

pub expire : ℕ → Tracker → Tracker
unfolding expire_status set_status
expire n t = record t { timers = set_status expire_status n t.timers }

-- The coroutine of StartTimeout goes on after its wait: with no error code it calls Fail.
pub resume_timer : ℕ → Timer → TimerStatus → Tracker → Tracker
unfolding fail
resume_timer n timer spawned t = t
resume_timer n timer waiting t = t
resume_timer n timer finished t = t
resume_timer n timer cancelled t = record t {
  timers = assign n (record timer { status = finished }) t.timers;
}
resume_timer n timer expired t =
    (fail timer.request_id (timeout_error timer.request_id)
      (record t { timers = assign n (record timer { status = finished }) t.timers })).1

pub resume : ℕ → Tracker → Tracker
unfolding resume_timer
resume n t = elim (find n t.timers) [ none ↦ t | some timer ↦ resume_timer n timer timer.status t ]

-- A channel is a queue: the receive gets what was put in first.
unfoldable pub oldest : ℕ → List (ℕ × Response) → Option Response
oldest channel [] = none
oldest channel ((c, response) ∷ sends) = elim (oldest channel sends) [
  | some first ↦ some first
  | none ↦ if c == channel then some response else none
]

-- Wait: what the receive on a channel returns, if a response has been put into it. The error is
-- that of a null channel.
unfoldable pub wait : Option ℕ → Tracker → Option Response
unfolding oldest
wait none t = some (unexpected (make_error 2100 (codes "request channel is null")))
wait (some channel) t = oldest channel t.sends

-- The calls, and the three things that the event loop does.
pub data Event : Type 0 where
  tracks : Str → Event
  completes : Str → FrontierMessage → Event
  fails : Str → Error → Event
  fails_all : Error → Event
  cancels : Str → Event
  starts : ℕ → Event
  expires : ℕ → Event
  resumes : ℕ → Event

unfoldable pub step : Event → Tracker → Tracker
unfolding track complete fail fail_all cancel begin expire resume
step (tracks id) t = (track id t).1
step (completes id response) t = (complete id response t).1
step (fails id error) t = (fail id error t).1
step (fails_all error) t = fail_all error t
step (cancels id) t = cancel id t
step (starts n) t = begin n t
step (expires n) t = expire n t
step (resumes n) t = resume n t

unfoldable pub run : List Event → Tracker → Tracker
unfolding step
run [] t = t
run (e ∷ es) t = run es (step e t)
