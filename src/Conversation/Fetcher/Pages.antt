-- ===== src/Conversation/Fetcher/Pages.antt =====
-- A fetch whose answers come to an end.
use mathlib.Core.List.{append_assoc}
use roc_im_sdk.Prelude.{
  ℕ, zero, suc, ◌+◌, ◌≤◌, ◌≡◌, refl, ◌∙◌, Bool, true, false, List, [], ◌∷◌, ◌++◌, map, Option, some,
  Str, All, ℤ, pos, negsuc, ◌-ℤ◌, arith, length, if◌then◌else◌,
}
use roc_im_sdk.Storage.{Mmkv}
use roc_im_sdk.Conversation.Data.{ConversationData, Page}
use roc_im_sdk.Conversation.Fetcher.{
  reverse, Fetch, last, more, send, take_page, round, fetch_page, ends, repeat, fetch_loop, start,
  chats_cursor, set_chats_cursor, fetch_user_messages,
}

-- The answers to the n-th request and those after it.
abbrev pub Answers : (ℕ → Option Page) → ℕ → List Page → Type 0
Answers answers n [] = Unit {0}
Answers answers n (p ∷ ps) = (answers n ≡ some p) × Answers answers (suc n) ps

-- `right` after pages with more behind them.
abbrev pub right_after : ℤ → List Page → ℤ
right_after right [] = right
right_after right (p ∷ ps) = right_after (p.left -ℤ pos 1) ps

-- What a page gives to its handling.
abbrev pub handed : Page → List ConversationData
handed p = reverse p.conversations

fetch_page_lem :
    (user_id : Str) (answers : ℕ → Option Page) (f : Fetch) (p : Page)
    → answers (length f.sent) ≡ some p
    → fetch_page user_id answers f
      ≡ (if p.has_more then more else last, take_page p (send user_id f))
unfolding fetch_page round
fetch_page_lem user_id answers f p e = rw e refl

abbrev Result : List Page → Page → Fetch → Bool × Fetch → Type 0
Result ps p f r =
    (r.0 ≡ true)
    × (length r.1.sent ≡ length f.sent + suc (length ps))
    × (r.1.handled ≡ f.handled ++ map handed (ps ++ p ∷ []))
    × (r.1.right ≡ right_after f.right ps)

last_page :
    (user_id : Str) (f : Fetch) (p : Page)
    → p.has_more ≡ false
    → Result [] p f (true, take_page p (send user_id f))
unfolding take_page send
last_page user_id f p h = (refl, omega arith, refl, rw h refl)

-- A page with more behind it, and then the rest.
more_page :
    (user_id : Str) (f : Fetch) (q p : Page) (ps : List Page) (r : Bool × Fetch)
    → q.has_more ≡ true
    → Result ps p (take_page q (send user_id f)) r
    → Result (q ∷ ps) p f r
unfolding take_page send
more_page user_id f q p ps r h (ended, sent, handled, right) = (
  ended,
  omega (arith, sent),
  handled ∙ append_assoc f.handled (handed q ∷ []) (map handed (ps ++ p ∷ [])),
  right ∙ rw h refl,
)

ends_here :
    (cnt : ℕ) (user_id : Str) (answers : ℕ → Option Page) (f : Fetch) (p : Page)
    → answers (length f.sent) ≡ some p
    → p.has_more ≡ false
    → fetch_loop cnt user_id answers f ≡ (true, take_page p (send user_id f))
unfolding fetch_loop repeat ends
ends_here zero user_id answers f p e h = rw (fetch_page_lem user_id answers f p e, h) refl
ends_here (suc cnt) user_id answers f p e h = rw (fetch_page_lem user_id answers f p e, h) refl

goes_on :
    (cnt : ℕ) (user_id : Str) (answers : ℕ → Option Page) (f : Fetch) (p : Page)
    → answers (length f.sent) ≡ some p
    → p.has_more ≡ true
    → fetch_loop (suc cnt) user_id answers f
      ≡ fetch_loop cnt user_id answers (take_page p (send user_id f))
unfolding fetch_loop repeat
goes_on cnt user_id answers f p e h = rw (fetch_page_lem user_id answers f p e, h) refl

pages_read :
    (cnt : ℕ) (user_id : Str) (answers : ℕ → Option Page) (f : Fetch) (ps : List Page) (p : Page)
    → length ps ≤ cnt
    → Answers answers (length f.sent) (ps ++ p ∷ [])
    → All (λ q. q.has_more ≡ true) ps
    → p.has_more ≡ false
    → Result ps p f (fetch_loop cnt user_id answers f)
pages_read cnt user_id answers f [] p size a m h =
    rw (ends_here cnt user_id answers f p a.0 h) (last_page user_id f p h)
pages_read zero user_id answers f (q ∷ ps) p size a m h = absurd (omega (arith, size))
pages_read (suc cnt) user_id answers f (q ∷ ps) p size a m h =
    rw (goes_on cnt user_id answers f q a.0 m.0) (
      more_page user_id f q p ps (fetch_loop cnt user_id answers (take_page q (send user_id f))) m.0
        (pages_read cnt user_id answers (take_page q (send user_id f)) ps p (omega (arith, size))
          (unfold take_page send in a.1) m.1 h))

-- While is_pulling is not set: where at most 10 pages have more behind them and the next one has not, a fetch ends with one
-- request for each page, has handed over the conversations of every page, page by page, and saves as
-- the cursor the number below the last page that had more behind it, or -1 where there is none.
pub fetch_user_messages-pages :
    (kv : Mmkv) (user_id : Str) (answers : ℕ → Option Page) (s : kv.Store) (ps : List Page)
    (p : Page)
    → length ps ≤ 10
    → Answers answers 0 (ps ++ p ∷ [])
    → All (λ q. q.has_more ≡ true) ps
    → p.has_more ≡ false
    → (f : Fetch) × (fetch_user_messages kv user_id false answers s
        ≡ (some f, set_chats_cursor kv user_id (right_after (negsuc 0) ps) s))
      × (length f.sent ≡ suc (length ps))
      × (f.handled ≡ map handed (ps ++ p ∷ []))
unfolding fetch_user_messages start
fetch_user_messages-pages kv user_id answers s ps p size a m h =
    let f = start (chats_cursor kv user_id s) in
    let r = fetch_loop 10 user_id answers f in
    let done : Result ps p f r =
      pages_read 10 user_id answers f ps p size (unfold start in a) m h in
    let (ended, sent, handled, right) = done in
    (r.1, rw (ended, right) refl, omega (arith, sent), handled)
