-- ===== src/Network/RequestTracker/Tests.antt =====
-- Runs and instances of the tracker: two requests, of which the first is answered.
use roc_im_sdk.Prelude.{◌≡◌, refl, List, [], ◌∷◌, some, Str, codes, str_eq, nat_eq, pos}
use roc_im_sdk.UnorderedMap.{find, erase, assign, replace}
use roc_im_sdk.Prelude.{str_beq}
use roc_im_sdk.Network.Message.{
  Error, make_error, FrontierMessage, empty_message, value, unexpected,
}
use roc_im_sdk.Network.RequestTracker
use roc_im_sdk.Network.RequestTracker.{
  PendingRequest, Tracker, Event, init, step, run, complete, fail_all, wait, resume, expire,
  timeout_error, pending_count, track,
}
use roc_im_sdk.Network.RequestTracker.Invariant.{Inv}
use roc_im_sdk.Network.RequestTracker.Preserve.{step-Inv, run-init-Inv}
use roc_im_sdk.Network.RequestTracker.Delivery.{complete_pending}
use roc_im_sdk.Network.RequestTracker.Settled.{IsSettling, run-IsSettling, timeout_settles}

program : Unit {0}
unfolding run init wait find erase assign replace str_beq
program = tt

abbrev first : Str
first = codes "0_u_d"

abbrev second : Str
second = codes "1_u_d"

abbrev calls : List Event
calls = RequestTracker.tracks first ∷ RequestTracker.tracks second ∷ []

abbrev two : Tracker
two = run calls init

abbrev first_request : PendingRequest
first_request = record { channel = 0; timer = 0 }

abbrev second_request : PendingRequest
second_request = record { channel = 1; timer = 1 }

abbrev reply : FrontierMessage
reply = empty_message (pos 7)

abbrev lost : Error
lost = make_error 2102 (codes "connection disconnected")

-- After the answer, the late expiry of the first timer changes nothing that is pending.
answered_run :
    pending_count (
      run
        (RequestTracker.completes first reply
          ∷ RequestTracker.expires 0
          ∷ RequestTracker.resumes 0
          ∷ [])
        two)
    ≡ 1
unfolding program pending_count
answered_run = refl

-- A request is cancelled before the coroutine of its timer starts, and tracked again: the first timer
-- was not stopped, and fails the second request.
cancelled_too_early :
    wait (some 1) (
      run
        (RequestTracker.tracks first
          ∷ RequestTracker.cancels first
          ∷ RequestTracker.tracks first
          ∷ RequestTracker.starts 0
          ∷ RequestTracker.expires 0
          ∷ RequestTracker.resumes 0
          ∷ [])
        init)
    ≡ some (unexpected (timeout_error first))
unfolding program
cancelled_too_early = refl

two-Inv : Inv two
two-Inv = run-init-Inv calls

first_pending : find first two.pending ≡ some first_request
unfolding program
first_pending = refl

step-Inv_example : Inv (step (RequestTracker.completes first reply) two)
step-Inv_example = step-Inv (RequestTracker.completes first reply) two two-Inv

complete_pending_example : wait (some 0) (complete first reply two).1 ≡ some (value reply)
complete_pending_example = (complete_pending first reply two first_request two-Inv first_pending).1

answered : Tracker
answered = step (RequestTracker.completes first reply) two

answered-Inv : Inv answered
unfolding answered
answered-Inv = step-Inv (RequestTracker.completes first reply) two two-Inv

run-IsSettling_example :
    IsSettling first first_request
      (run (RequestTracker.tracks (codes "2_u_d") ∷ RequestTracker.expires 0 ∷ []) two)
unfolding program
run-IsSettling_example =
    run-IsSettling first first_request
      (RequestTracker.tracks (codes "2_u_d") ∷ RequestTracker.expires 0 ∷ []) two two-Inv
      first_pending (refl, (refl, tt))

timeout_settles_example :
    wait (some 0) (resume 0 (expire 0 two)) ≡ some (unexpected (timeout_error first))
timeout_settles_example = (timeout_settles first first_request two two-Inv first_pending).0
