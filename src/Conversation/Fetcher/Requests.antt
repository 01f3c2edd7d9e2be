-- ===== src/Conversation/Fetcher/Requests.antt =====
-- The requests that a fetch makes, and the cursor from which it starts.
use roc_im_sdk.Prelude.{
  ℕ, ◌≡◌, refl, ap, sym, Bool, true, false, List, [], ◌∷◌, ◌++◌, Option, none, some, Str, codes, ℤ,
  pos, negsuc, ◌+ℤ◌, ◌≤ℤ◌, arith, length, length-append, Bool-cases, inl, inr, str_eq, str_beq_iff,
  if◌then◌else◌, ◌==◌, ◌≢◌,
}
use roc_im_sdk.Storage.{Mmkv, Laws}
use roc_im_sdk.Conversation.Data.{Request, Page}
use roc_im_sdk.Conversation.Fetcher.{
  Fetch, fetch_loop, start, chats_cursor, set_chats_cursor, fetch_user_messages,
}

-- A log of requests, the newest first: the first one has mode 0 and no range, each later one has mode
-- 1, starts from the version of the one before it and has no smaller version.
abbrev pub IsLog : ℤ → List Request → Type 0
IsLog cursor [] = Unit {0}
IsLog cursor (r ∷ []) =
    (r.mode ≡ 0)
    × (r.version ≡ cursor +ℤ pos 1)
    × (r.low_version ≡ negsuc 0)
    × (r.upper_version ≡ negsuc 0)
IsLog cursor (r ∷ q ∷ rs) =
    (r.mode ≡ 1) × (r.low_version ≡ q.version) × (q.version ≤ℤ r.version) × IsLog cursor (q ∷ rs)

-- The locals before the next round fit the log.
abbrev IsReady : ℤ → Fetch → List Request → Type 0
IsReady cursor f [] =
    (f.mode ≡ 0) × (f.version ≡ cursor +ℤ pos 1) × (f.left ≡ negsuc 0) × (f.right ≡ negsuc 0)
IsReady cursor f (q ∷ rs) = (f.mode ≡ 1) × (f.left ≡ q.version) × (q.version ≤ℤ f.version)

-- The requests that a call of FetchUserMessages has sent.
abbrev pub requests : Option Fetch → List Request
requests none = []
requests (some f) = f.sent

-- The keys that the cursor is written to and read from are different.
cursor_keys : (user_id : Str) → user_id ++ codes "chats_cursor:" ≢ user_id ++ codes "chats_cursor"
cursor_keys user_id e = omega (
  arith,
  ap length e,
  length-append user_id (codes "chats_cursor:"),
  length-append user_id (codes "chats_cursor"),
)

module _ (kv : Mmkv) (laws : Laws kv) (user_id : Str) where
  chats_cursor-set_chats_cursor :
      (cursor : ℤ) (s : kv.Store)
      → chats_cursor kv user_id (set_chats_cursor kv user_id cursor s) ≡ chats_cursor kv user_id s
  unfolding chats_cursor set_chats_cursor
  chats_cursor-set_chats_cursor cursor s =
      let law =
        laws.get_set_int64 (user_id ++ codes "chats_cursor") (user_id ++ codes "chats_cursor:")
          cursor (pos 0) s in
      elim (Bool-cases ((user_id ++ codes "chats_cursor") == (user_id ++ codes "chats_cursor:"))) [
        | inl e ↦ absurd (
            cursor_keys user_id (
              sym (
                (str_beq_iff (user_id ++ codes "chats_cursor") (user_id ++ codes "chats_cursor:")).0
                  e)))
        | inr e ↦ rw law (rw e refl)
      ]

  saved :
      (ended : Bool) (cursor : ℤ) (s : kv.Store)
      → chats_cursor kv user_id (if ended then set_chats_cursor kv user_id cursor s else s)
        ≡ chats_cursor kv user_id s
  saved true cursor s = chats_cursor-set_chats_cursor cursor s
  saved false cursor s = refl

  -- Whatever a fetch writes, the cursor that the next fetch starts from is the one that it started
  -- from itself.
  pub chats_cursor-fetch_user_messages :
      (is_pulling : Bool) (answers : ℕ → Option Page) (s : kv.Store)
      → chats_cursor kv user_id (fetch_user_messages kv user_id is_pulling answers s).1
        ≡ chats_cursor kv user_id s
  unfolding fetch_user_messages
  chats_cursor-fetch_user_messages true answers s = refl
  chats_cursor-fetch_user_messages false answers s =
      let r = fetch_loop 10 user_id answers (start (chats_cursor kv user_id s)) in
      saved r.0 r.1.right s
