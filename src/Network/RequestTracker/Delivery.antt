-- ===== src/Network/RequestTracker/Delivery.antt =====
-- Who gets which response: completion, the drop of stale responses, time-outs, and the end of the
-- connection.
use roc_im_sdk.Prelude.{
  ℕ, ◌≡◌, refl, ◌≢◌, inl, inr, true, false, List, [], ◌∷◌, none, some, Str, All, All-map, arith,
  nat_eq, str_eq, str_beq_iff, Bool-cases, Option-cases, if◌then◌else◌, ◌==◌, ap, ◌∙◌,
}
use roc_im_sdk.UnorderedMap.{find, IsDistinct}
use roc_im_sdk.UnorderedMap.Laws.{find-erase}
use roc_im_sdk.Network.Message.{Error, FrontierMessage, value, unexpected}
use roc_im_sdk.Network.RequestTracker
use roc_im_sdk.Network.RequestTracker.{
  Response, PendingRequest, TimerStatus, spawned, waiting, expired, cancelled, finished, Timer,
  Tracker, set_status, deliver, drop_pending, take_pending, track, finish, complete, fail,
  deliver_all, fail_all, cancel, begin, expire_status, expire, resume_timer, resume, Event, step,
  run, timeout_error, pending_count, oldest, wait,
}
use roc_im_sdk.Network.RequestTracker.Invariant.{IsLive, Inv}
use roc_im_sdk.Network.RequestTracker.Calls.{pending-IsLive}
use roc_im_sdk.Network.RequestTracker.Preserve.{step-Inv}

oldest-find :
    (c : ℕ) (sends : List (ℕ × Response)) → IsDistinct sends → oldest c sends ≡ find c sends
unfolding oldest find
oldest-find c [] d = refl
oldest-find c ((k, r) ∷ sends) d = ground (arith, oldest-find c sends d.1)

-- With one response in a channel at most, Wait returns it.
pub wait-find : (c : ℕ) (t : Tracker) → Inv t → wait (some c) t ≡ find c t.sends
unfolding wait
wait-find c t v = oldest-find c t.sends v.once

complete_hit :
    (id : Str) (response : FrontierMessage) (t : Tracker) (p : PendingRequest)
    → find id t.pending ≡ some p
    → ((complete id response t).0 ≡ true)
      × (find p.channel (complete id response t).1.sends ≡ some (value response))
      × ((j : Str)
          → find j (complete id response t).1.pending
            ≡ (if id == j then none else find j t.pending))
unfolding complete take_pending finish drop_pending deliver find
complete_hit id response t p hit =
    rw (hit, take_pending) (refl, ground arith, λ j. find-erase id j t.pending)

-- A response for a pending request is put into the channel of that request, and the request is no
-- longer pending; no other request changes.
pub complete_pending :
    (id : Str) (response : FrontierMessage) (t : Tracker) (p : PendingRequest)
    → Inv t
    → find id t.pending ≡ some p
    → ((complete id response t).0 ≡ true)
      × (wait (some p.channel) (complete id response t).1 ≡ some (value response))
      × (find id (complete id response t).1.pending ≡ none)
      × ((j : Str)
          → find j (complete id response t).1.pending
            ≡ (if id == j then none else find j t.pending))
unfolding step
complete_pending id response t p v hit =
    let (done, sent, free) = complete_hit id response t p hit in
    let w = step-Inv (RequestTracker.completes id response) t v in
    (
      done,
      wait-find p.channel (complete id response t).1 w ∙ sent,
      free id ∙ ground (arith, str_beq_iff id id),
      free,
    )

-- A response for a request that is not pending, since it has been answered, has timed out or never
-- was sent, is refused and changes nothing.
pub complete_stale :
    (id : Str) (response : FrontierMessage) (t : Tracker)
    → find id t.pending ≡ none
    → complete id response t ≡ (false, t)
unfolding complete take_pending finish
complete_stale id response t miss = rw (miss, take_pending)

-- What `finish` puts into the channels, on a tracker whose pending requests have empty channels.
finish_keeps :
    (id : Str) (response : Response) (t : Tracker) (c : ℕ) (r : Response)
    → ((p : PendingRequest) → find id t.pending ≡ some p → find p.channel t.sends ≡ none)
    → find c t.sends ≡ some r
    → find c (finish response (take_pending id t)).1.sends ≡ some r
unfolding take_pending finish drop_pending deliver find
finish_keeps id response t c r silent sent = elim (Option-cases (find id t.pending)) [
  | inl miss ↦ rw (miss, take_pending) sent
  | inr (p, hit) ↦ rw (hit, take_pending) (ground (arith, silent p hit))
]

deliver_all_keeps :
    (ps : List (Str × PendingRequest)) (response : Response) (sends : List (ℕ × Response)) (c : ℕ)
    (r : Response)
    → All (λ e. c ≢ e.1.channel) ps
    → find c sends ≡ some r
    → find c (deliver_all ps response sends) ≡ some r
unfolding deliver_all deliver find
deliver_all_keeps [] response sends c r ne sent = sent
deliver_all_keeps ((id, p) ∷ ps) response sends c r ne sent =
    deliver_all_keeps ps response ((p.channel, response) ∷ sends) c r ne.1 (ground (arith, ne.0))

deliver_all_again :
    (ps : List (Str × PendingRequest)) (response : Response) (sends : List (ℕ × Response)) (c : ℕ)
    → find c sends ≡ some response
    → find c (deliver_all ps response sends) ≡ some response
unfolding deliver_all deliver find
deliver_all_again [] response sends c sent = sent
deliver_all_again ((id, p) ∷ ps) response sends c sent =
    deliver_all_again ps response ((p.channel, response) ∷ sends) c (ground arith)

pub deliver_all_hit :
    (id : Str) (p : PendingRequest) (ps : List (Str × PendingRequest)) (response : Response)
    (sends : List (ℕ × Response))
    → find id ps ≡ some p
    → find p.channel (deliver_all ps response sends) ≡ some response
unfolding deliver_all deliver find
deliver_all_hit id p [] response sends hit = cc
deliver_all_hit id p ((j, q) ∷ ps) response sends hit = elim (Bool-cases (j == id)) [
  | inl same ↦
      let e : q ≡ p = ground arith in
      rw (← e) (deliver_all_again ps response _ q.channel (ground arith))
  | inr other ↦ deliver_all_hit id p ps response _ (ground arith)
]

-- When the connection is lost, FailAll puts the error into the channel of every pending request,
-- and leaves none pending: no caller waits for ever.
pub fail_all_wakes :
    (error : Error) (t : Tracker) (id : Str) (p : PendingRequest)
    → Inv t
    → find id t.pending ≡ some p
    → (wait (some p.channel) (fail_all error t) ≡ some (unexpected error))
      × (pending_count (fail_all error t) ≡ 0)
fail_all_wakes error t id p v hit = (
  wait-find p.channel (fail_all error t)
        (unfold step in (step-Inv (RequestTracker.fails_all error) t v))
      ∙ unfold fail_all in (deliver_all_hit id p t.pending (unexpected error) t.sends hit),
  unfold fail_all pending_count in refl,
)

-- The pending requests of a tracker have empty channels.
pub silent :
    (t : Tracker)
    → Inv t
    → (id : Str) (p : PendingRequest) → find id t.pending ≡ some p
    → find p.channel t.sends ≡ none
silent t v id p hit = (pending-IsLive id p t v hit).silent

silent-All :
    (t : Tracker) (c : ℕ) (r : Response) (ps : List (Str × PendingRequest))
    → find c t.sends ≡ some r
    → All (IsLive t.next t.timers t.sends) ps
    → All (λ e. c ≢ e.1.channel) ps
silent-All t c r ps sent =
    All-map _ _ ps (λ e m same. cc (sent, m.silent, ap (λ k. find k t.sends) same))

sends_take_pending : (id : Str) (t : Tracker) → (take_pending id t).1.sends ≡ t.sends
unfolding take_pending drop_pending
sends_take_pending id t = ground arith

resume_timer_keeps :
    (n : ℕ) (timer : Timer) (s : TimerStatus) (t : Tracker) (c : ℕ) (r : Response)
    → Inv t
    → find c t.sends ≡ some r
    → find c (resume_timer n timer s t).sends ≡ some r
unfolding resume_timer fail
resume_timer_keeps n timer spawned t c r v sent = sent
resume_timer_keeps n timer waiting t c r v sent = sent
resume_timer_keeps n timer finished t c r v sent = sent
resume_timer_keeps n timer cancelled t c r v sent = sent
resume_timer_keeps n timer expired t c r v sent =
    finish_keeps timer.request_id _ _ c r (silent t v timer.request_id) sent

-- What has been put into a channel stays there: no later call or event replaces it.
pub step_keeps :
    (e : Event) (t : Tracker) (c : ℕ) (r : Response)
    → Inv t
    → find c t.sends ≡ some r
    → find c (step e t).sends ≡ some r
unfolding step track complete fail fail_all cancel begin expire resume
step_keeps (RequestTracker.tracks id) t c r v sent = rw sends_take_pending sent
step_keeps (RequestTracker.completes id response) t c r v sent =
    finish_keeps id _ t c r (silent t v id) sent
step_keeps (RequestTracker.fails id error) t c r v sent =
    finish_keeps id _ t c r (silent t v id) sent
step_keeps (RequestTracker.fails_all error) t c r v sent =
    deliver_all_keeps t.pending _ t.sends c r (silent-All t c r t.pending sent v.live) sent
step_keeps (RequestTracker.cancels id) t c r v sent = rw sends_take_pending sent
step_keeps (RequestTracker.starts n) t c r v sent = sent
step_keeps (RequestTracker.expires n) t c r v sent = sent
step_keeps (RequestTracker.resumes n) t c r v sent = elim (Option-cases (find n t.timers)) [
  | inl miss ↦ rw (miss, resume) sent
  | inr (timer, hit) ↦ rw (hit, resume) (resume_timer_keeps n timer timer.status t c r v sent)
]
