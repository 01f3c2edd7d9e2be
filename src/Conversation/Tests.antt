-- ===== src/Conversation/Tests.antt =====
-- Runs of a fetch, and its theorems at concrete answers.
use roc_im_sdk.Prelude.{
  ℕ, zero, suc, ◌≡◌, refl, true, false, [], ◌∷◌, map, Option, none, some, codes, pos, ◌-ℤ◌, length,
  arith,
}
use roc_im_sdk.Storage.Instance.{lists, lists-Laws, nothing}
use roc_im_sdk.Conversation.Data.{MessageData, ConversationData, Page}
use roc_im_sdk.Conversation.Fetcher.{Fetch, chats_cursor, set_chats_cursor, fetch_user_messages}
use roc_im_sdk.Conversation.Fetcher.Requests.{chats_cursor-fetch_user_messages, requests}
use roc_im_sdk.Conversation.Fetcher.Pages.{handed, fetch_user_messages-pages}

abbrev message : MessageData
message = record {
  smessage_id = codes "s";
  cmessage_id = codes "c";
  send_time = pos 1;
  dstatus = 1;
}

abbrev conv : ConversationData
conv = record {
  conv_id = codes "v";
  conv_type = 1;
  name = [];
  avatar_url = [];
  unread_count = pos 0;
  last_message = none;
  members = [];
  is_muted = false;
  is_top = false;
  is_delete = false;
  is_blocked = false;
  sync_ext = [];
  messages = message ∷ [];
}

abbrev first_page : Page
first_page = record { has_more = true; left = pos 5; right = pos 9; conversations = conv ∷ [] }

abbrev last_page : Page
last_page = record { has_more = false; left = pos 1; right = pos 4; conversations = [] }

-- A server with two pages.
abbrev two : ℕ → Option Page
two zero = some first_page
two (suc n) = some last_page

-- A server that always has more.
abbrev endless : ℕ → Option Page
endless n = some first_page

endless_test :
    length (requests (fetch_user_messages lists (codes "u") false endless nothing).0) ≡ 11
unfolding fetch_user_messages
endless_test = refl

chats_cursor-fetch_user_messages_example :
    chats_cursor lists (codes "u") (fetch_user_messages lists (codes "u") false two nothing).1
    ≡ chats_cursor lists (codes "u") nothing
chats_cursor-fetch_user_messages_example =
    chats_cursor-fetch_user_messages lists lists-Laws (codes "u") false two nothing

fetch_user_messages-pages_example :
    (f : Fetch) × (fetch_user_messages lists (codes "u") false two nothing
      ≡ (some f, set_chats_cursor lists (codes "u") (pos 5 -ℤ pos 1) nothing))
    × (length f.sent ≡ 2)
    × (f.handled ≡ map handed (first_page ∷ last_page ∷ []))
fetch_user_messages-pages_example =
    fetch_user_messages-pages lists (codes "u") two nothing (first_page ∷ []) last_page
      (omega arith) (refl, (refl, tt)) (refl, tt) refl
