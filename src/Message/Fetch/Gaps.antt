-- ===== src/Message/Fetch/Gaps.antt =====
-- The requests for the gaps of a conversation.
use roc_im_sdk.Ranges.Cover.{Covers, Within}
use roc_im_sdk.Ranges.Gaps.{IsNonnegative, last_end}
use roc_im_sdk.Message.RangeStore.Gaps.{empty_message_range_exact}
use roc_im_sdk.Message.RangeStore.Update.{IsCoherent, Holds, or_nothing}
use roc_im_sdk.Message.RangeStore.{Json, Items, Ranges, ranges_json, array, message_range}
use roc_im_sdk.Storage.{Mmkv, Laws}
use roc_im_sdk.Prelude.{
  ℕ, zero, suc, ◌≤◌, ◌≡◌, refl, ◌∙◌, ap, sym, Bool, true, false, List, [], ◌∷◌, ◌++◌, Option, some,
  Str, arith, length, inl, inr, Option-cases, subst, ℤ, pos, ◌<ℤ◌, ◌≤ℤ◌, ◌↔◌, ◌⊎◌,
}
use roc_im_sdk.Ranges.{Range}
use roc_im_sdk.Message.Fetch.{
  Request, Answer, Fetch, make_request, handle, fetch_once, again, fetch_loop, fetch_for_range,
  fetch_ranges, fetch_conv_message_list,
}

abbrev pub replicate : ℕ → Request → List Request
replicate zero req = []
replicate (suc n) req = req ∷ replicate n req

replicate_suc :
    (n : ℕ) (req : Request) (rest : List Request)
    → replicate n req ++ (req ∷ rest) ≡ req ∷ (replicate n req ++ rest)
replicate_suc zero req rest = refl
replicate_suc (suc n) req rest = ap (λ l. req ∷ l) (replicate_suc n req rest)

fetch_once-sent :
    (req : Request) (answers : ℕ → Option Answer) (f : Fetch)
    → (fetch_once req answers f).sent ≡ req ∷ f.sent
unfolding fetch_once handle
fetch_once-sent req answers f = elim (Option-cases (answers (length f.sent))) [
  | inl e ↦ rw e refl
  | inr (a, e) ↦ rw e refl
]

-- The loop sends one request n times, for some n from 1 to cnt + 1.
abbrev Repeats : ℕ → Request → Fetch → Fetch → Type 0
Repeats cnt req f f' = (n : ℕ) × (n ≤ cnt) × (f'.sent ≡ replicate (suc n) req ++ f.sent)

again-Repeats :
    (cnt : ℕ) (req : Request) (f f' rest : Fetch) (b : Bool)
    → f'.sent ≡ req ∷ f.sent
    → Repeats cnt req f' rest
    → Repeats (suc cnt) req f (again b f' rest)
unfolding again
again-Repeats cnt req f f' rest false e r = (0, omega arith, e)
again-Repeats cnt req f f' rest true e (n, small, sent) = (
  suc n,
  omega (arith, small),
  sent ∙ ap (λ l. replicate (suc n) req ++ l) e ∙ ap (λ l. req ∷ l) (replicate_suc n req f.sent),
)

fetch_loop-Repeats :
    (cnt : ℕ) (req : Request) (answers : ℕ → Option Answer) (f : Fetch)
    → Repeats cnt req f (fetch_loop cnt req answers f)
unfolding fetch_loop
fetch_loop-Repeats zero req answers f = (0, omega arith, fetch_once-sent req answers f)
fetch_loop-Repeats (suc cnt) req answers f =
    let f' = fetch_once req answers f in
    again-Repeats cnt req f f' (fetch_loop cnt req answers f') f'.has_more
      (fetch_once-sent req answers f) (fetch_loop-Repeats cnt req answers f')

-- The requests for a list of ranges, the newest first: each range is asked for in one request, which
-- is sent from 1 to 11 times in a row before the next range.
abbrev pub Asks : Str → Str → List Range → List Request → List Request → Type 0
Asks user_id conv_id [] before sent = sent ≡ before
Asks user_id conv_id (range ∷ ranges) before sent =
    (n : ℕ) × (n ≤ 10)
    × Asks user_id conv_id ranges (replicate (suc n) (make_request user_id conv_id range) ++ before)
        sent

fetch_for_range-Repeats :
    (user_id conv_id : Str) (answers : ℕ → Option Answer) (range : Range) (f : Fetch)
    → Repeats 10
        (make_request user_id conv_id range)
        f
        (fetch_for_range user_id conv_id answers range f)
unfolding fetch_for_range
fetch_for_range-Repeats user_id conv_id answers range f =
    fetch_loop-Repeats 10 (make_request user_id conv_id range) answers
      (record f { has_more = true })

fetch_ranges-Asks :
    (user_id conv_id : Str) (answers : ℕ → Option Answer) (ranges : List Range) (f : Fetch)
    → Asks user_id conv_id ranges f.sent (fetch_ranges user_id conv_id answers ranges f).sent
unfolding fetch_ranges
fetch_ranges-Asks user_id conv_id answers [] f = refl
fetch_ranges-Asks user_id conv_id answers (range ∷ ranges) f =
    let f' = fetch_for_range user_id conv_id answers range f in
    let (n, small, sent) = fetch_for_range-Repeats user_id conv_id answers range f in
    (
      n,
      small,
      subst
          (λ before.
            Asks user_id conv_id ranges before
              (fetch_ranges user_id conv_id answers ranges f').sent)
          sent (fetch_ranges-Asks user_id conv_id answers ranges f'),
    )

-- The ranges of the requests.
abbrev pub asked : List Request → List Range
asked [] = []
asked (r ∷ rs) = r.range ∷ asked rs

Covers-replicate :
    (x : ℤ) (n : ℕ) (req : Request) (sent : List Request)
    → Covers x (asked (replicate (suc n) req ++ sent))
      ↔ (Within x req.range ⊎ Covers x (asked sent))
Covers-replicate x zero req sent = (λ h. h, λ h. h)
Covers-replicate x (suc n) req sent =
    let ih = Covers-replicate x n req sent in
    (
      (λ h. elim h [ inl a ↦ inl a | inr b ↦ ih.0 b ]),
      (λ h. elim h [ inl a ↦ inl a | inr b ↦ inr (ih.1 (inr b)) ]),
    )

-- What is asked for is what the ranges cover.
Covers-Asks :
    (user_id conv_id : Str) (x : ℤ) (ranges : List Range) (before sent : List Request)
    → Asks user_id conv_id ranges before sent
    → Covers x (asked sent) ↔ (Covers x ranges ⊎ Covers x (asked before))
Covers-Asks user_id conv_id x [] before sent e = (
  (λ h. inr (subst (λ l. Covers x (asked l)) e h)),
  (λ h. elim h [ inl b ↦ absurd b | inr c ↦ subst (λ l. Covers x (asked l)) (sym e) c ]),
)
Covers-Asks user_id conv_id x (range ∷ ranges) before sent (n, small, a) =
    let req = make_request user_id conv_id range in
    let rest = Covers-Asks user_id conv_id x ranges (replicate (suc n) req ++ before) sent a in
    let here : Covers x (asked (replicate (suc n) req ++ before))
        ↔ (Within x range ⊎ Covers x (asked before)) =
      unfold make_request in Covers-replicate x n req before in
    (
      (λ h. elim (rest.0 h) [
        | inl b ↦ inl (inr b)
        | inr c ↦ elim (here.0 c) [ inl w ↦ inl (inl w) | inr d ↦ inr d ]
      ]),
      (λ h. elim h [
        | inl (inl w) ↦ rest.1 (inr (here.1 (inl w)))
        | inl (inr b) ↦ rest.1 (inl b)
        | inr d ↦ rest.1 (inr (here.1 (inr d)))
      ]),
    )

abbrev pub new_fetch : Fetch
new_fetch = record { has_more = true; sent = []; handled = [] }

module _ (kv : Mmkv) (laws : Laws kv) (parse : Str → Option Json) (serialize : Items → Str)
    (read_back : (rs : List Range)
      → parse (serialize (ranges_json rs)) ≡ some (array (ranges_json rs)))
    (user_id : Str) where
  abbrev State : Type 0
  State = Ranges kv parse serialize user_id

  abbrev saved : Str → State → List Range
  saved d s = or_nothing (message_range kv parse serialize user_id d s.store)

  -- Where the stored ranges of a conversation begin at 0 or above, and the cache agrees with the
  -- store: whatever the server answers, the requests of a fetch of its messages ask for exactly
  -- the numbers from 1 up to the last stored one that the conversation does not hold, one gap after
  -- the other. For each gap there is one request, which is sent 11 times in a row at most: it stays
  -- the request for the whole gap, also where an answer brought a part of the messages.
  pub fetch_conv_message_list-Asks :
      (conv_id : Str) (answers : ℕ → Option Answer) (s : State)
      → IsCoherent kv laws parse serialize read_back user_id s
      → IsNonnegative (saved conv_id s)
      → (gaps : List Range) × (f : Fetch) × (s' : State) × (fetch_conv_message_list kv parse
            serialize user_id conv_id answers new_fetch s
          ≡ some (f, s'))
        × Asks user_id conv_id gaps [] f.sent
        × ((x : ℤ)
            → Covers x (asked f.sent) ↔ (
                (pos 0 <ℤ x)
                × (x ≤ℤ last_end (pos 0) (saved conv_id s))
                × (¬ Holds kv laws parse serialize read_back user_id conv_id x s)))
  unfolding fetch_conv_message_list
  fetch_conv_message_list-Asks conv_id answers s good nonnegative =
      let (gaps, s', e, _, _, missing) =
        empty_message_range_exact kv laws parse serialize read_back user_id conv_id s good
          nonnegative in
      let a = fetch_ranges-Asks user_id conv_id answers gaps new_fetch in
      (
        gaps,
        fetch_ranges user_id conv_id answers gaps new_fetch,
        s',
        rw (e, fetch_conv_message_list) refl,
        a,
        (λ x.
            let c =
              Covers-Asks user_id conv_id x gaps []
                (fetch_ranges user_id conv_id answers gaps new_fetch).sent a in
            let m = missing x in
            ((λ h. m.0 (elim (c.0 h) [ inl g ↦ g | inr b ↦ absurd b ])), (λ h. c.1 (inl (m.1 h))))),
      )
