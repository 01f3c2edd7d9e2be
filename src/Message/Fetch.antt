-- ===== src/Message/Fetch.antt =====
-- ConvMessagesFetcher (imsdk/src/core/message/private/fetcher): the messages of a conversation that
-- are missing, one gap of its ranges after the other. The answers of the server are a parameter:
-- the answer to the n-th request, which is none for an error of any kind. SDKRoot is alive. The
-- handling of an answer is spawned and not waited for; it is logged here.
pub mod Gaps
mod Tests
use roc_im_sdk.Storage.{Mmkv}
use roc_im_sdk.Prelude.{
  ℕ, zero, suc, Bool, true, false, List, [], ◌∷◌, ◌++◌, Option, none, some, Str, ℤ, length,
}
use roc_im_sdk.Ranges.{Range}
use roc_im_sdk.Conversation.Data.{MessageData}
use roc_im_sdk.Conversation.Fetcher.{reverse}
use roc_im_sdk.Message.RangeStore.{Ranges, empty_message_range_for_conv_id, Json, Items}

-- FetchConvMessageListRequest.
pub record Request : Type 0 where
  pub user_id : Str
  pub conv_id : Str
  pub mode : ℕ
  pub range : Range

-- FetchConvMessageListResponse.
pub record Answer : Type 0 where
  pub has_more : Bool
  pub messages : List MessageData

-- The requests, the newest first, and the batches that go to HandleOfflineMessage.
pub record Fetch : Type 0 where
  pub has_more : Bool
  pub sent : List Request
  pub handled : List (List MessageData)

-- p_MakeFetchConvMessageListReq.
unfoldable pub make_request : Str → Str → Range → Request
make_request user_id conv_id range = record {
  user_id = user_id;
  conv_id = conv_id;
  mode = 1;
  range = range;
}

-- p_HandleFetchConvMessgaeListResp, with `has_more` before it.
unfoldable pub handle : Option Answer → Fetch → Fetch
unfolding reverse
handle none f = f
handle (some answer) f = record f {
  has_more = answer.has_more;
  handled = f.handled ++ reverse answer.messages ∷ [];
}

-- The body of the loop.
unfoldable pub fetch_once : Request → (ℕ → Option Answer) → Fetch → Fetch
unfolding handle
fetch_once req answers f = handle (answers (length f.sent)) (record f { sent = req ∷ f.sent })

unfoldable pub again : Bool → Fetch → Fetch → Fetch
again true f rest = rest
again false f rest = f

-- The do loop from a value of `cnt`.
unfoldable pub fetch_loop : ℕ → Request → (ℕ → Option Answer) → Fetch → Fetch
unfolding fetch_once again
fetch_loop zero req answers f = fetch_once req answers f
fetch_loop (suc cnt) req answers f =
    let f' = fetch_once req answers f in
    let rest = fetch_loop cnt req answers f' in again f'.has_more f' rest

-- FetchConvMessageListForRange.
unfoldable pub fetch_for_range : Str → Str → (ℕ → Option Answer) → Range → Fetch → Fetch
unfolding fetch_loop make_request
fetch_for_range user_id conv_id answers range f =
    fetch_loop 10 (make_request user_id conv_id range) answers (record f { has_more = true })

unfoldable pub fetch_ranges : Str → Str → (ℕ → Option Answer) → List Range → Fetch → Fetch
unfolding fetch_for_range
fetch_ranges user_id conv_id answers [] f = f
fetch_ranges user_id conv_id answers (range ∷ ranges) f =
    fetch_ranges user_id conv_id answers ranges (fetch_for_range user_id conv_id answers range f)

-- FetchConvMessageList; none where EmptyMessageRangeForConvId fails on the stored ranges.
module _ (kv : Mmkv) (parse : Str → Option Json) (serialize : Items → Str) (user_id : Str) where
  unfoldable pub fetch_conv_message_list :
      Str
      → (ℕ → Option Answer)
      → Fetch
      → Ranges kv parse serialize user_id
      → Option (Fetch × Ranges kv parse serialize user_id)
  unfolding fetch_ranges
  fetch_conv_message_list conv_id answers f s =
      elim (empty_message_range_for_conv_id kv parse serialize user_id true conv_id s) [
        | none ↦ none
        | some (ranges, s') ↦ some (fetch_ranges user_id conv_id answers ranges f, s')
      ]
