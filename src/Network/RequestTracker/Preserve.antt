-- ===== src/Network/RequestTracker/Preserve.antt =====
-- Every call and every event keeps the invariant of the tracker.
use roc_im_sdk.Prelude.{
  ℕ, ◌≡◌, refl, ◌≢◌, inl, inr, false, List, [], ◌∷◌, Option, none, some, Str, All-map, arith,
  nat_eq, str_eq, str_beq_iff, Bool-cases, Option-cases, ◌==◌, sym, ap, ◌∙◌,
}
use roc_im_sdk.UnorderedMap.{find, assign}
use roc_im_sdk.UnorderedMap.Laws.{All-erase, All-absent, erase-IsDistinct}
use roc_im_sdk.Network.Message.{Error, value, unexpected}
use roc_im_sdk.Network.RequestTracker
use roc_im_sdk.Network.RequestTracker.{
  Response, PendingRequest, TimerStatus, spawned, waiting, expired, cancelled, finished, Timer,
  Tracker, init, set_status, cancel_timer, cancel_status, deliver, drop_pending, take_pending,
  track, finish, complete, fail, cancel_all, deliver_all, fail_all, cancel, start_status, begin,
  expire_status, expire, resume_timer, resume, Event, step, run, timeout_error,
}
use roc_im_sdk.Network.RequestTracker.Invariant.{
  IsArmed, IsLive, Inv, init-Inv, channel_ne, find-set_status_self, IsLive-set_status,
  IsLive-assign, timer_ne, IsLive-deliver,
}
use roc_im_sdk.Network.RequestTracker.Calls.{
  pending-IsLive, take_pending-Inv, finish_take-Inv, fail-Inv, track-Inv, fail_all-Inv,
}

-- A timer stays armed under a change that keeps it armed, and no other timer changes.
armed-IsLive :
    (f : TimerStatus → TimerStatus)
    → ((s : TimerStatus) → IsArmed s → IsArmed (f s))
    → (next : ℕ) (timers : List (ℕ × Timer)) (sends : List (ℕ × Response)) (n : ℕ)
      (entry : Str × PendingRequest)
    → IsLive next timers sends entry
    → IsLive next (set_status f n timers) sends entry
armed-IsLive f keeps next timers sends n entry m = elim (Bool-cases (n == entry.1.timer)) [
  | inl same ↦ record {
    status = f m.status;
    armed = keeps m.status m.armed;
    known =
        let e : n ≡ entry.1.timer = ground arith in
        rw e (
          find-set_status_self next timers sends f entry.1.timer
            (record { request_id = entry.0; status = m.status }) m.known);
    own_timer = m.own_timer;
    made = m.made;
    silent = m.silent;
  }
  | inr other ↦ IsLive-set_status next timers sends f n entry (ground arith) m
]

armed-Inv :
    (f : TimerStatus → TimerStatus)
    → ((s : TimerStatus) → IsArmed s → IsArmed (f s))
    → (n : ℕ) (t : Tracker) → Inv t
    → Inv (record t { timers = set_status f n t.timers })
armed-Inv f keeps n t v = record {
  distinct = v.distinct;
  live = All-map _ _ t.pending (armed-IsLive f keeps t.next t.timers t.sends n) v.live;
  once = v.once;
  fresh = v.fresh;
}

start-IsArmed : (s : TimerStatus) → IsArmed s → IsArmed (start_status s)
unfolding start_status
start-IsArmed s h = ground (arith, h)

expire-IsArmed : (s : TimerStatus) → IsArmed s → IsArmed (expire_status s)
unfolding expire_status
expire-IsArmed s h = ground (arith, h)

module _ (t : Tracker) (v : Inv t) (n : ℕ) (timer : Timer)
    (known : find n t.timers ≡ some timer) where
  done : List (ℕ × Timer)
  done = assign n (record timer { status = finished }) t.timers

  -- Only the request that a timer was started for has that timer.
  foreign_timer :
      (j : Str) (q : PendingRequest)
      → (timer.request_id == j) ≡ false
      → IsLive t.next t.timers t.sends (j, q)
      → n ≢ q.timer
  foreign_timer j q other m same =
      let e : ◌≡◌ {A = Option Timer} (some timer)
          (some (record { request_id = j; status = m.status })) =
        sym known ∙ ap (λ k. find k t.timers) same ∙ m.known in
      ground (arith, str_beq_iff timer.request_id j)

  foreign-IsLive :
      (j : Str) (q : PendingRequest)
      → (timer.request_id == j) ≡ false
      → IsLive t.next t.timers t.sends (j, q)
      → IsLive t.next done t.sends (j, q)
  unfolding done
  foreign-IsLive j q other m =
      IsLive-assign t.next t.timers t.sends _ n (j, q) (foreign_timer j q other m) m

  -- The timer that is done was not armed.
  cancelled-Inv : timer.status ≡ cancelled → Inv (record t { timers = done })
  unfolding done
  cancelled-Inv c = record {
    distinct = v.distinct;
    live =
        All-map _ _ t.pending
          (λ entry m. IsLive-assign t.next t.timers t.sends _ n entry (idle entry m) m) v.live;
    once = v.once;
    fresh = v.fresh;
  }
    where
      idle :
          (entry : Str × PendingRequest) → IsLive t.next t.timers t.sends entry → n ≢ entry.1.timer
      idle entry m same =
          let e : ◌≡◌ {A = Option Timer} (some timer)
              (some (record { request_id = entry.0; status = m.status })) =
            sym known ∙ ap (λ k. find k t.timers) same ∙ m.known in
          ground (arith, m.armed)

  timeout_miss : find timer.request_id t.pending ≡ none → Inv (record t { timers = done })
  timeout_miss miss = record {
    distinct = v.distinct;
    live = All-absent _ _ timer.request_id t.pending miss foreign-IsLive v.live;
    once = v.once;
    fresh = v.fresh;
  }

  timeout_hit :
      (response : Response) (p : PendingRequest)
      → find timer.request_id t.pending ≡ some p
      → Inv
          (finish response (some p, drop_pending timer.request_id p (record t { timers = done }))).1
  unfolding finish drop_pending deliver find cancel_timer
  timeout_hit response p hit =
      let l = pending-IsLive timer.request_id p t v hit in
      record {
        distinct = erase-IsDistinct timer.request_id t.pending v.distinct;
        live =
            All-erase _ _ timer.request_id t.pending
              (λ j q other m.
                unfold deliver in
                (IsLive-deliver t.next (cancel_timer p.timer done) t.sends response p.channel (j, q)
                  (channel_ne t.next t.timers t.sends timer.request_id p j q other l m)
                  (IsLive-set_status t.next done t.sends cancel_status p.timer (j, q)
                    (timer_ne t.next t.timers t.sends timer.request_id p j q other l m)
                    (foreign-IsLive j q other m))))
              v.live;
        once = (l.silent, v.once);
        fresh = λ c above. ground (arith, l.made, v.fresh c);
      }

  timeout-Inv : (error : Error) → Inv (fail timer.request_id error (record t { timers = done })).1
  unfolding fail take_pending finish
  timeout-Inv error = elim (Option-cases (find timer.request_id t.pending)) [
    | inl miss ↦ rw (miss, take_pending) (timeout_miss miss)
    | inr (p, hit) ↦ rw (hit, take_pending) (timeout_hit (unexpected error) p hit)
  ]

  resume_timer-Inv : (s : TimerStatus) → timer.status ≡ s → Inv (resume_timer n timer s t)
  unfolding resume_timer done
  resume_timer-Inv spawned e = v
  resume_timer-Inv waiting e = v
  resume_timer-Inv finished e = v
  resume_timer-Inv cancelled e = cancelled-Inv e
  resume_timer-Inv expired e = timeout-Inv (timeout_error timer.request_id)

resume-Inv : (n : ℕ) (t : Tracker) → Inv t → Inv (resume n t)
unfolding resume
resume-Inv n t v = elim (Option-cases (find n t.timers)) [
  | inl miss ↦ rw (miss, resume) v
  | inr (timer, hit) ↦ rw (hit, resume) (resume_timer-Inv t v n timer hit timer.status refl)
]

-- Every call and every event keeps the invariant: each pending request has its own timer, which has
-- not been cancelled, and a channel that is still empty; and no channel has got two responses.
pub step-Inv : (e : Event) (t : Tracker) → Inv t → Inv (step e t)
unfolding step complete cancel begin expire
step-Inv (RequestTracker.tracks id) t v = track-Inv id t v
step-Inv (RequestTracker.completes id response) t v = finish_take-Inv (value response) id t v
step-Inv (RequestTracker.fails id error) t v = fail-Inv id error t v
step-Inv (RequestTracker.fails_all error) t v = fail_all-Inv error t v
step-Inv (RequestTracker.cancels id) t v = take_pending-Inv id t v
step-Inv (RequestTracker.starts n) t v = armed-Inv start_status start-IsArmed n t v
step-Inv (RequestTracker.expires n) t v = armed-Inv expire_status expire-IsArmed n t v
step-Inv (RequestTracker.resumes n) t v = resume-Inv n t v

-- So the invariant holds after every sequence of calls and events, from the empty tracker on.
pub run-Inv : (es : List Event) (t : Tracker) → Inv t → Inv (run es t)
unfolding run
run-Inv [] t v = v
run-Inv (e ∷ es) t v = run-Inv es (step e t) (step-Inv e t v)

pub run-init-Inv : (es : List Event) → Inv (run es init)
run-init-Inv es = run-Inv es init init-Inv
