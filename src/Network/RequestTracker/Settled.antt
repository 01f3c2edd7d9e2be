-- ===== src/Network/RequestTracker/Settled.antt =====
-- No request waits for ever: it stays pending until a response or an error reaches its channel, and
-- its timer alone is enough for that.
use roc_im_sdk.Prelude.{
  ℕ, ◌≡◌, ◌⊎◌, inl, inr, Bool, false, List, [], ◌∷◌, Option, none, some, Str, All, arith, nat_eq,
  str_eq, str_beq_iff, Bool-cases, Option-cases, ◌==◌, sym, ap, ◌∙◌,
}
use roc_im_sdk.UnorderedMap.{find}
use roc_im_sdk.UnorderedMap.Laws.{find-erase, find-assign}
use roc_im_sdk.Network.Message.{Error, unexpected}
use roc_im_sdk.Network.RequestTracker
use roc_im_sdk.Network.RequestTracker.{
  Response, PendingRequest, TimerStatus, spawned, waiting, expired, cancelled, finished, Timer,
  Tracker, set_status, deliver, drop_pending, take_pending, track, finish, complete, fail,
  deliver_all, fail_all, cancel, begin, expire_status, expire, resume_timer, resume, Event, step,
  run, timeout_error, wait,
}
use roc_im_sdk.Network.RequestTracker.Invariant.{IsLive, Inv, find-set_status_self}
use roc_im_sdk.Network.RequestTracker.Calls.{pending-IsLive}
use roc_im_sdk.Network.RequestTracker.Preserve.{step-Inv}
use roc_im_sdk.Network.RequestTracker.Delivery.{step_keeps, deliver_all_hit, wait-find}

-- The request waits in the map, or its channel has a response.
abbrev pub IsSettling : Str → PendingRequest → Tracker → Type 0
IsSettling id p t =
    (find id t.pending ≡ some p) ⊎ ((r : Response) × (find p.channel t.sends ≡ some r))

-- Cancel takes the entry away with no response, and so does a second Track of the same id.
abbrev pub abandons : Str → Event → Bool
abandons id (RequestTracker.tracks j) = j == id
abandons id (RequestTracker.cancels j) = j == id
abandons id (RequestTracker.completes _ _) = false
abandons id (RequestTracker.fails _ _) = false
abandons id (RequestTracker.fails_all _) = false
abandons id (RequestTracker.starts _) = false
abandons id (RequestTracker.expires _) = false
abandons id (RequestTracker.resumes _) = false

take_pending_other :
    (id j : Str) (t : Tracker)
    → (j == id) ≡ false
    → find id (take_pending j t).1.pending ≡ find id t.pending
unfolding take_pending drop_pending
take_pending_other id j t other = ground (arith, find-erase j id t.pending)

finish-IsSettling :
    (id j : Str) (response : Response) (t : Tracker) (p : PendingRequest)
    → find id t.pending ≡ some p
    → IsSettling id p (finish response (take_pending j t)).1
unfolding take_pending finish drop_pending deliver find
finish-IsSettling id j response t p hit = elim (Option-cases (find j t.pending)) [
  | inl miss ↦ rw (miss, take_pending) (inl hit)
  | inr (q, found) ↦
      rw (found, take_pending)
        (elim (Bool-cases (j == id)) [
          | inl same ↦
              let keys : j ≡ id = (str_beq_iff j id).0 same in
              let e : ◌≡◌ {A = Option PendingRequest} (some q) (some p) =
                sym found ∙ ap (λ k. find k t.pending) keys ∙ hit in
              inr (response, ground arith)
          | inr other ↦ inl (ground (arith, find-erase j id t.pending))
        ])
]

resume_timer-IsSettling :
    (id : Str) (p : PendingRequest) (n : ℕ) (timer : Timer) (s : TimerStatus) (t : Tracker)
    → find id t.pending ≡ some p
    → IsSettling id p (resume_timer n timer s t)
unfolding resume_timer fail
resume_timer-IsSettling id p n timer spawned t hit = inl hit
resume_timer-IsSettling id p n timer waiting t hit = inl hit
resume_timer-IsSettling id p n timer finished t hit = inl hit
resume_timer-IsSettling id p n timer cancelled t hit = inl hit
resume_timer-IsSettling id p n timer expired t hit = finish-IsSettling id timer.request_id _ _ p hit

step-IsSettling :
    (id : Str) (p : PendingRequest) (e : Event) (t : Tracker)
    → abandons id e ≡ false
    → find id t.pending ≡ some p
    → IsSettling id p (step e t)
unfolding step track complete fail fail_all cancel begin expire resume
step-IsSettling id p (RequestTracker.tracks j) t stays hit = inl (
    ground (
      arith,
      find-assign j id (record { channel = t.next; timer = t.next }) (take_pending j t).1.pending,
      take_pending_other id j t,
    ))
step-IsSettling id p (RequestTracker.completes j response) t stays hit =
    finish-IsSettling id j _ t p hit
step-IsSettling id p (RequestTracker.fails j error) t stays hit = finish-IsSettling id j _ t p hit
step-IsSettling id p (RequestTracker.fails_all error) t stays hit =
    inr (unexpected error, deliver_all_hit id p t.pending (unexpected error) t.sends hit)
step-IsSettling id p (RequestTracker.cancels j) t stays hit =
    inl (take_pending_other id j t stays ∙ hit)
step-IsSettling id p (RequestTracker.starts n) t stays hit = inl hit
step-IsSettling id p (RequestTracker.expires n) t stays hit = inl hit
step-IsSettling id p (RequestTracker.resumes n) t stays hit =
    elim (Option-cases (find n t.timers)) [
      | inl miss ↦ rw (miss, resume) (inl hit)
      | inr (timer, found) ↦
          rw (found, resume) (resume_timer-IsSettling id p n timer timer.status t hit)
    ]

settled-IsSettling :
    (id : Str) (p : PendingRequest) (es : List Event) (t : Tracker)
    → Inv t
    → All (λ e. abandons id e ≡ false) es
    → IsSettling id p t
    → IsSettling id p (run es t)
unfolding run
settled-IsSettling id p [] t v stays s = s
settled-IsSettling id p (e ∷ es) t v stays (inl hit) =
    settled-IsSettling id p es (step e t) (step-Inv e t v) stays.1
      (step-IsSettling id p e t stays.0 hit)
settled-IsSettling id p (e ∷ es) t v stays (inr (r, sent)) =
    settled-IsSettling id p es (step e t) (step-Inv e t v) stays.1
      (inr (r, step_keeps e t p.channel r v sent))

-- Whatever calls and events follow, a pending request is still pending under its channel, or that
-- channel has a response; unless it is cancelled or tracked again.
pub run-IsSettling :
    (id : Str) (p : PendingRequest) (es : List Event) (t : Tracker)
    → Inv t
    → find id t.pending ≡ some p
    → All (λ e. abandons id e ≡ false) es
    → IsSettling id p (run es t)
run-IsSettling id p es t v hit stays = settled-IsSettling id p es t v stays (inl hit)

fail_hit :
    (id : Str) (error : Error) (t : Tracker) (p : PendingRequest)
    → find id t.pending ≡ some p
    → (find p.channel (fail id error t).1.sends ≡ some (unexpected error))
      × (find id (fail id error t).1.pending ≡ none)
unfolding fail take_pending finish drop_pending deliver find
fail_hit id error t p hit =
    rw (hit, take_pending)
      (ground arith, ground (arith, find-erase id id t.pending, str_beq_iff id id))

resume_expired :
    (id : Str) (p : PendingRequest) (t : Tracker)
    → find id t.pending ≡ some p
    → find p.timer t.timers ≡ some (record { request_id = id; status = expired })
    → (find p.channel (resume p.timer t).sends ≡ some (unexpected (timeout_error id)))
      × (find id (resume p.timer t).pending ≡ none)
unfolding resume resume_timer
resume_expired id p t hit known = rw (known, resume) (fail_hit id (timeout_error id) _ p hit)

expired_timer :
    (next : ℕ) (timers : List (ℕ × Timer)) (sends : List (ℕ × Response)) (id : Str)
    (p : PendingRequest)
    → IsLive next timers sends (id, p)
    → find p.timer (set_status expire_status p.timer timers)
      ≡ some (record { request_id = id; status = expired })
unfolding expire_status
expired_timer next timers sends id p l =
    find-set_status_self next timers sends expire_status p.timer _ l.known ∙ ground (arith, l.armed)

-- When the timer of a pending request expires and its coroutine goes on, Wait gets the time-out
-- error, and the request is no longer pending.
pub timeout_settles :
    (id : Str) (p : PendingRequest) (t : Tracker)
    → Inv t
    → find id t.pending ≡ some p
    → (wait (some p.channel) (resume p.timer (expire p.timer t))
        ≡ some (unexpected (timeout_error id)))
      × (find id (resume p.timer (expire p.timer t)).pending ≡ none)
unfolding step expire
timeout_settles id p t v hit =
    let l = pending-IsLive id p t v hit in
    let known = expired_timer t.next t.timers t.sends id p l in
    let (sent, gone) = resume_expired id p (expire p.timer t) hit known in
    let w =
      step-Inv (RequestTracker.resumes p.timer) (expire p.timer t)
        (step-Inv (RequestTracker.expires p.timer) t v) in
    (wait-find p.channel (resume p.timer (expire p.timer t)) w ∙ sent, gone)
