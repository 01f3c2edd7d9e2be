-- ===== src/Conversation/Fetcher.antt =====
-- UserMessageFetcher (imsdk/src/core/conversation/private/fetcher): the pages of the conversations
-- that are new to a user, and ChatsCursor and SetChatsCursor of DBOpt
-- (imsdk/src/core/conversation/private/db_opt). The answers of the server are a parameter: the answer
-- to the n-th request, which is none for an error of any kind. SDKRoot is alive: FetchUserMessages
-- holds it. The handling of a page is spawned and not waited for; it is logged here.
pub mod Requests
pub mod Handled
pub mod Pages
use roc_im_sdk.Prelude.{
  ℕ, zero, suc, ◌-◌, Bool, true, false, List, [], ◌∷◌, ◌++◌, map, Option, none, some, Str, codes, ℤ,
  pos, negsuc, ◌+ℤ◌, ◌-ℤ◌, max_ℤ, if◌then◌else◌, length,
}
use roc_im_sdk.Storage.{Mmkv}
use roc_im_sdk.Conversation.Data.{MessageData, ConversationData, Request, Page}

-- `ReleaseLast` until a list is empty takes it from its end.
unfoldable pub reverse : {A : Type 0} → List A → List A
reverse [] = []
reverse (x ∷ xs) = reverse xs ++ x ∷ []

-- The local variables of FetchUserMessages and what has been done: the requests, the newest first,
-- the ids of pulled_convs_ and the pages that are handled.
pub record Fetch : Type 0 where
  pub mode : ℕ
  pub left : ℤ
  pub right : ℤ
  pub version : ℤ
  pub sent : List Request
  pub pulled_convs : List Str
  pub handled : List (List ConversationData)

-- p_makeFetchUserMessageListReq.
unfoldable pub make_request : Str → ℕ → ℤ → ℤ → ℤ → Request
make_request user_id mode version left right = record {
  user_id = user_id;
  mode = mode;
  version = version;
  limit = 10;
  low_version = left;
  upper_version = right;
}

-- What a round of the loop comes to: an error, the last page, or a page with more behind it.
pub data Round : Type 0 where
  failed last more : Round

unfoldable pub send : Str → Fetch → Fetch
unfolding make_request
send user_id f = record f { sent = make_request user_id f.mode f.version f.left f.right ∷ f.sent }

unfoldable pub take_page : Page → Fetch → Fetch
unfolding reverse
take_page page f = record f {
  mode = 1;
  left = if page.has_more then f.version else f.left;
  right = if page.has_more then page.left -ℤ pos 1 else f.right;
  version = max_ℤ f.version page.right;
  pulled_convs = f.pulled_convs ++ map (λ c. c.conv_id) (reverse page.conversations);
  handled = f.handled ++ reverse page.conversations ∷ [];
}

unfoldable pub round : Option Page → Fetch → Round × Fetch
unfolding take_page
round none f = (failed, f)
round (some page) f = (if page.has_more then more else last, take_page page f)

-- The body of the loop.
unfoldable pub fetch_page : Str → (ℕ → Option Page) → Fetch → Round × Fetch
unfolding round send
fetch_page user_id answers f = round (answers (length f.sent)) (send user_id f)

-- Whether the loop is left at its end, where it is not repeated.
unfoldable pub ends : Round → Bool
ends failed = false
ends last = true
ends more = true

-- The condition of the loop, where `cnt` is positive.
unfoldable pub repeat : Round → Fetch → Bool × Fetch → Bool × Fetch
repeat failed f rest = (false, f)
repeat last f rest = (true, f)
repeat more f rest = rest

-- The do loop from a value of `cnt`, and whether it is left at its end.
unfoldable pub fetch_loop : ℕ → Str → (ℕ → Option Page) → Fetch → Bool × Fetch
unfolding fetch_page ends repeat
fetch_loop zero user_id answers f = let (r, f') = fetch_page user_id answers f in (ends r, f')
fetch_loop (suc cnt) user_id answers f =
    let (r, f') = fetch_page user_id answers f in
    let rest = fetch_loop cnt user_id answers f' in repeat r f' rest

-- The locals when the loop starts.
unfoldable pub start : ℤ → Fetch
start cursor = record {
  mode = 0;
  left = negsuc 0;
  right = negsuc 0;
  version = cursor +ℤ pos 1;
  sent = [];
  pulled_convs = [];
  handled = [];
}

module _ (kv : Mmkv) (user_id : Str) where
  open kv use {Store, set_int64, get_int64}

  -- ChatsCursor and SetChatsCursor.
  unfoldable pub chats_cursor : Store → ℤ
  chats_cursor s = get_int64 (user_id ++ codes "chats_cursor:") (pos 0) s

  unfoldable pub set_chats_cursor : ℤ → Store → Store
  set_chats_cursor cursor s = (set_int64 (user_id ++ codes "chats_cursor") cursor s).1

  -- FetchUserMessages.
  unfoldable pub fetch_user_messages : Bool → (ℕ → Option Page) → Store → Option Fetch × Store
  unfolding chats_cursor set_chats_cursor fetch_loop start
  fetch_user_messages is_pulling answers s =
      let (ended, f) = fetch_loop 10 user_id answers (start (chats_cursor s)) in
      if is_pulling then (none, s) else (some f, (if ended then set_chats_cursor f.right s else s))

-- p_handleFetchedUserMessage: the messages that go to HandleOfflineMessage, and the conversations,
-- which have lost them, that go to HandleReceiveConversation.
unfoldable pub collect_messages : List ConversationData → List MessageData
unfolding reverse
collect_messages [] = []
collect_messages (conv ∷ convs) = reverse conv.messages ++ collect_messages convs

unfoldable pub drop_messages : ConversationData → ConversationData
drop_messages conv = record conv { messages = [] }

unfoldable pub handle_fetched_user_message :
    List ConversationData → List MessageData × List ConversationData
unfolding collect_messages drop_messages
handle_fetched_user_message net_convs = (collect_messages net_convs, map drop_messages net_convs)
