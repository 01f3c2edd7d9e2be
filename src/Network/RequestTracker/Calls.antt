-- ===== src/Network/RequestTracker/Calls.antt =====
-- Track, Complete, Fail, FailAll and Cancel keep the invariant of the tracker.
use roc_im_sdk.Prelude.{
  ℕ, suc, ◌≤◌, ◌≡◌, refl, inl, inr, List, [], ◌∷◌, none, some, Str, All, All-map, arith, nat_eq,
  str_eq, str_beq_iff, Option-cases,
}
use roc_im_sdk.UnorderedMap.{find, assign, IsDistinct}
use roc_im_sdk.UnorderedMap.Laws.{
  find-erase, find-assign, All-find, All-erase, All-absent, All-none, erase-IsDistinct,
  assign-IsDistinct,
}
use roc_im_sdk.Network.Message.{Error, unexpected}
use roc_im_sdk.Network.RequestTracker.{
  Response, PendingRequest, spawned, Timer, Tracker, cancel_timer, deliver, drop_pending,
  take_pending, track, finish, fail, deliver_all, fail_all,
}
use roc_im_sdk.Network.RequestTracker.Invariant.{
  IsLive, Inv, channel_ne, IsLive-drop, IsLive-deliver, IsLive-track,
}

module _ (id : Str) (p : PendingRequest) (t : Tracker) (v : Inv t)
    (hit : find id t.pending ≡ some p) where
  pub pending-IsLive : IsLive t.next t.timers t.sends (id, p)
  pending-IsLive = All-find _ id p t.pending v.live hit

  drop_pending-Inv : Inv (drop_pending id p t)
  unfolding drop_pending
  drop_pending-Inv = record {
    distinct = erase-IsDistinct id t.pending v.distinct;
    live =
        All-erase _ _ id t.pending
          (λ j q other m. IsLive-drop t.next t.timers t.sends id p j q other pending-IsLive m)
          v.live;
    once = v.once;
    fresh = v.fresh;
  }

  finish-Inv : (response : Response) → Inv (finish response (some p, drop_pending id p t)).1
  unfolding finish drop_pending deliver find
  finish-Inv response = record {
    distinct = erase-IsDistinct id t.pending v.distinct;
    live =
        All-erase _ _ id t.pending
          (λ j q other m.
            IsLive-deliver t.next (cancel_timer p.timer t.timers) t.sends response p.channel (j, q)
              (channel_ne t.next t.timers t.sends id p j q other pending-IsLive m)
              (IsLive-drop t.next t.timers t.sends id p j q other pending-IsLive m))
          v.live;
    once = (pending-IsLive.silent, v.once);
    fresh = λ c above. ground (arith, pending-IsLive.made, v.fresh c);
  }

pub take_pending-Inv : (id : Str) (t : Tracker) → Inv t → Inv (take_pending id t).1
unfolding take_pending
take_pending-Inv id t v = elim (Option-cases (find id t.pending)) [
  | inl miss ↦ rw (miss, take_pending) v
  | inr (p, hit) ↦ rw (hit, take_pending) (drop_pending-Inv id p t v hit)
]

pub finish_take-Inv :
    (response : Response) (id : Str) (t : Tracker)
    → Inv t
    → Inv (finish response (take_pending id t)).1
unfolding finish take_pending
finish_take-Inv response id t v = elim (Option-cases (find id t.pending)) [
  | inl miss ↦ rw (miss, take_pending) v
  | inr (p, hit) ↦ rw (hit, take_pending) (finish-Inv id p t v hit response)
]

pub fail-Inv : (id : Str) (error : Error) (t : Tracker) → Inv t → Inv (fail id error t).1
unfolding fail
fail-Inv id error t v = finish_take-Inv (unexpected error) id t v

-- After the old entry is taken out, the id is free.
find-take_pending : (id : Str) (t : Tracker) → find id (take_pending id t).1.pending ≡ none
unfolding take_pending drop_pending
find-take_pending id t = ground (arith, find-erase id id t.pending, str_beq_iff id id)

next_take_pending : (id : Str) (t : Tracker) → (take_pending id t).1.next ≡ t.next
unfolding take_pending drop_pending
next_take_pending id t = ground arith

-- What Track does to a tracker in which the id is free.
track_free-Inv :
    (id : Str) (t : Tracker)
    → find id t.pending ≡ none
    → Inv t
    → Inv (record t {
      next = suc t.next;
      pending = assign id (record { channel = t.next; timer = t.next }) t.pending;
      timers = assign t.next (record { request_id = id; status = spawned }) t.timers;
    })
track_free-Inv id t free v = record {
  distinct = assign-IsDistinct id _ t.pending v.distinct;
  live =
      All-none _ id _ t.pending free
        (record {
          status = spawned;
          armed = inl refl;
          known = ground (
            arith,
            find-assign t.next t.next (record { request_id = id; status = spawned }) t.timers,
          );
          own_timer = refl;
          made = omega arith;
          silent = v.fresh t.next (omega arith);
        })
        (All-map _ _ t.pending (λ entry m. IsLive-track t.next t.timers t.sends _ entry m) v.live);
  once = v.once;
  fresh = λ c above. v.fresh c (omega arith);
}

pub track-Inv : (id : Str) (t : Tracker) → Inv t → Inv (track id t).1
unfolding track
track-Inv id t v =
    let free =
      track_free-Inv id (take_pending id t).1 (find-take_pending id t) (take_pending-Inv id t v) in
    rw next_take_pending at free

abbrev Ps : Type 0
Ps = List (Str × PendingRequest)

module _ (next : ℕ) (timers : List (ℕ × Timer)) (response : Response) where
  -- The rest of the requests stay live when the first one gets its response.
  rest-IsLive :
      (sends : List (ℕ × Response)) (id : Str) (p : PendingRequest) (ps : Ps)
      → find id ps ≡ none
      → All (IsLive next timers sends) ((id, p) ∷ ps)
      → All (IsLive next timers (deliver p.channel response sends)) ps
  rest-IsLive sends id p ps absent live =
      All-absent _ _ id ps absent
        (λ j q other m.
          IsLive-deliver next timers sends response p.channel (j, q)
            (channel_ne next timers sends id p j q other live.0 m) m)
        live.1

  deliver_all-IsDistinct :
      (ps : Ps) (sends : List (ℕ × Response))
      → IsDistinct ps
      → All (IsLive next timers sends) ps
      → IsDistinct sends
      → IsDistinct (deliver_all ps response sends)
  unfolding deliver_all deliver
  deliver_all-IsDistinct [] sends d live once = once
  deliver_all-IsDistinct ((id, p) ∷ ps) sends d live once =
      deliver_all-IsDistinct ps ((p.channel, response) ∷ sends) d.1
        (unfold deliver in (rest-IsLive sends id p ps d.0 live)) (live.0.silent, once)

  deliver_all-fresh :
      (ps : Ps) (sends : List (ℕ × Response)) (c : ℕ)
      → IsDistinct ps
      → All (IsLive next timers sends) ps
      → next ≤ c
      → find c sends ≡ none
      → find c (deliver_all ps response sends) ≡ none
  unfolding deliver_all deliver find
  deliver_all-fresh [] sends c d live above h = h
  deliver_all-fresh ((id, p) ∷ ps) sends c d live above h =
      deliver_all-fresh ps ((p.channel, response) ∷ sends) c d.1
        (unfold deliver in (rest-IsLive sends id p ps d.0 live)) above (ground (arith, live.0.made))

pub fail_all-Inv : (error : Error) (t : Tracker) → Inv t → Inv (fail_all error t)
unfolding fail_all
fail_all-Inv error t v = record {
  distinct = tt;
  live = tt;
  once = deliver_all-IsDistinct t.next t.timers _ t.pending t.sends v.distinct v.live v.once;
  fresh = λ c above.
      deliver_all-fresh t.next t.timers _ t.pending t.sends c v.distinct v.live above
        (v.fresh c above);
}
