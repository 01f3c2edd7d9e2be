-- ===== src/Network/RequestTracker/Invariant.antt =====
-- The invariant of the tracker: every pending request has a live timer of its own and a channel
-- that nothing has been put into, and no channel gets two responses.
use roc_im_sdk.Prelude.{
  ℕ, suc, ◌≤◌, ◌<◌, ◌≡◌, refl, ◌≢◌, ◌⊎◌, inl, inr, false, List, Option, none, some, Str, All, arith,
  nat_eq, str_eq, str_beq_iff, Option-cases, ◌==◌, sym, ap, ◌∙◌,
}
use roc_im_sdk.UnorderedMap.{find, assign, IsDistinct}
use roc_im_sdk.UnorderedMap.Laws.{find-assign}
use roc_im_sdk.Network.RequestTracker.{
  Response, PendingRequest, TimerStatus, spawned, waiting, expired, Timer, Tracker, init,
  set_status, cancel_timer, cancel_status, deliver,
}

-- The coroutine is still to start, the timer can still expire, or it has expired.
abbrev pub IsArmed : TimerStatus → Type 0
IsArmed s = (s ≡ spawned) ⊎ (s ≡ waiting) ⊎ (s ≡ expired)

-- The entry of one request.
pub record IsLive (next : ℕ) (timers : List (ℕ × Timer)) (sends : List (ℕ × Response))
    (entry : Str × PendingRequest) : Type 0 where
  pub status : TimerStatus
  pub armed : IsArmed status
  pub known : find entry.1.timer timers ≡ some (record { request_id = entry.0; status = status })
  pub own_timer : entry.1.channel ≡ entry.1.timer
  pub made : entry.1.channel < next
  pub silent : find entry.1.channel sends ≡ none

pub record Inv (t : Tracker) : Type 0 where
  pub distinct : IsDistinct t.pending
  pub live : All (IsLive t.next t.timers t.sends) t.pending
  pub once : IsDistinct t.sends
  pub fresh : (c : ℕ) → t.next ≤ c → find c t.sends ≡ none

pub init-Inv : Inv init
unfolding init find
init-Inv = record { distinct = tt; live = tt; once = tt; fresh = λ c h. refl }

module _ (next : ℕ) (timers : List (ℕ × Timer)) (sends : List (ℕ × Response)) where
  -- Two live requests have two timers, and so two channels.
  pub timer_ne :
      (id : Str) (p : PendingRequest) (j : Str) (q : PendingRequest)
      → (id == j) ≡ false
      → IsLive next timers sends (id, p)
      → IsLive next timers sends (j, q)
      → p.timer ≢ q.timer
  timer_ne id p j q other l m same =
      let e : ◌≡◌ {A = Option Timer} (some (record { request_id = id; status = l.status }))
          (some (record { request_id = j; status = m.status })) =
        sym l.known ∙ ap (λ n. find n timers) same ∙ m.known in
      ground (arith, str_beq_iff id j)

  pub find-set_status :
      (f : TimerStatus → TimerStatus) (n c : ℕ)
      → n ≢ c
      → find c (set_status f n timers) ≡ find c timers
  unfolding set_status
  find-set_status f n c h = elim (Option-cases (find n timers)) [
    | inl e ↦ rw (e, set_status)
    | inr (v, e) ↦
        rw (e, set_status)
          (ground (arith, find-assign n c (record v { status = f v.status }) timers))
  ]

  pub find-set_status_self :
      (f : TimerStatus → TimerStatus) (n : ℕ) (v : Timer)
      → find n timers ≡ some v
      → find n (set_status f n timers) ≡ some (record v { status = f v.status })
  unfolding set_status
  find-set_status_self f n v e =
      rw (e, set_status) (ground (arith, find-assign n n (record v { status = f v.status }) timers))

  -- A request stays live when another timer changes.
  pub IsLive-set_status :
      (f : TimerStatus → TimerStatus) (n : ℕ) (entry : Str × PendingRequest)
      → n ≢ entry.1.timer
      → IsLive next timers sends entry
      → IsLive next (set_status f n timers) sends entry
  IsLive-set_status f n entry ne m = record {
    status = m.status;
    armed = m.armed;
    known = find-set_status f n entry.1.timer ne ∙ m.known;
    own_timer = m.own_timer;
    made = m.made;
    silent = m.silent;
  }

  pub IsLive-assign :
      (v : Timer) (n : ℕ) (entry : Str × PendingRequest)
      → n ≢ entry.1.timer
      → IsLive next timers sends entry
      → IsLive next (assign n v timers) sends entry
  IsLive-assign v n entry ne m = record {
    status = m.status;
    armed = m.armed;
    known = ground (arith, m.known, find-assign n entry.1.timer v timers);
    own_timer = m.own_timer;
    made = m.made;
    silent = m.silent;
  }

  -- The other requests stay live when one is taken out.
  pub IsLive-drop :
      (id : Str) (p : PendingRequest) (j : Str) (q : PendingRequest)
      → (id == j) ≡ false
      → IsLive next timers sends (id, p)
      → IsLive next timers sends (j, q)
      → IsLive next (cancel_timer p.timer timers) sends (j, q)
  unfolding cancel_timer
  IsLive-drop id p j q other l m =
      IsLive-set_status cancel_status p.timer (j, q) (timer_ne id p j q other l m) m

  pub channel_ne :
      (id : Str) (p : PendingRequest) (j : Str) (q : PendingRequest)
      → (id == j) ≡ false
      → IsLive next timers sends (id, p)
      → IsLive next timers sends (j, q)
      → p.channel ≢ q.channel
  channel_ne id p j q other l m same =
      timer_ne id p j q other l m (sym l.own_timer ∙ same ∙ m.own_timer)

  -- A request stays live when a response is put into another channel.
  pub IsLive-deliver :
      (response : Response) (c : ℕ) (entry : Str × PendingRequest)
      → c ≢ entry.1.channel
      → IsLive next timers sends entry
      → IsLive next timers (deliver c response sends) entry
  unfolding deliver find
  IsLive-deliver response c entry ne m = record {
    status = m.status;
    armed = m.armed;
    known = m.known;
    own_timer = m.own_timer;
    made = m.made;
    silent = ground (arith, m.silent);
  }

-- Any entry stays live when a new timer is added, or the number of the next channel grows.
pub IsLive-track :
    (next : ℕ) (timers : List (ℕ × Timer)) (sends : List (ℕ × Response)) (v : Timer)
    (entry : Str × PendingRequest)
    → IsLive next timers sends entry
    → IsLive (suc next) (assign next v timers) sends entry
IsLive-track next timers sends v entry m = record {
  status = m.status;
  armed = m.armed;
  known = ground (arith, m.known, m.own_timer, m.made, find-assign next entry.1.timer v timers);
  own_timer = m.own_timer;
  made = omega (arith, m.made);
  silent = m.silent;
}
