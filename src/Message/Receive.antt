-- ===== src/Message/Receive.antt =====
-- ReceiveMessage (imsdk/src/core/message/private/receive): the classification of the messages that
-- were received. A saved message is the number of its instance, with the id that the server gave it;
-- saving is SaveNetMessages of MessageDataSource.
pub mod Classify
mod Tests
use roc_im_sdk.Prelude.{
  ℕ, ◌≡◌, Bool, true, false, List, [], ◌∷◌, ◌++◌, Option, none, some, Str, eqb, if◌then◌else◌, ◌==◌,
  str_eq,
}
use roc_im_sdk.UnorderedMap.{find, assign}
use roc_im_sdk.Conversation.Data.{MessageData}

-- OnMessageResult.
pub record OnMessageResult : Type 0 where
  pub real_time_msgs : List ℕ
  pub offline_received_msgs : List ℕ
  pub offline_not_received_msgs : List ℕ

unfoldable pub or_empty : Option (List ℕ) → List ℕ
or_empty none = []
or_empty (some group) = group

-- group_by_key of imsdk/base/include/utils, on the messages as id and instance.
unfoldable pub group_by_key : List (Str × ℕ) → List (Str × List ℕ) → List (Str × List ℕ)
unfolding find assign or_empty
group_by_key [] groups = groups
group_by_key ((id, msg) ∷ msgs) groups =
    group_by_key msgs (assign id (or_empty (find id groups) ++ msg ∷ []) groups)

-- MsgDStatus: RealTime is 1, Received is 2.
unfoldable pub classify_one : Bool → MessageData → ℕ → OnMessageResult → OnMessageResult
classify_one online_push msg sdk_msg r =
    if online_push
    then record r { real_time_msgs = r.real_time_msgs ++ sdk_msg ∷ [] }
    else if eqb msg.dstatus 1
    then record r { real_time_msgs = r.real_time_msgs ++ sdk_msg ∷ [] }
    else if eqb msg.dstatus 2
    then record r { offline_received_msgs = r.offline_received_msgs ++ sdk_msg ∷ [] }
    else record r { offline_not_received_msgs = r.offline_not_received_msgs ++ sdk_msg ∷ [] }

unfoldable pub front : List ℕ → Option ℕ
front [] = none
front (msg ∷ _) = some msg

-- `(*it).second.front()`, where `it` is what find gave: none where that is the end.
unfoldable pub first_of : Option (List ℕ) → Option ℕ
unfolding front
first_of none = none
first_of (some group) = front group

unfoldable pub classify_next :
    Bool → MessageData → OnMessageResult → Option ℕ → Option OnMessageResult
unfolding classify_one
classify_next online_push msg r none = none
classify_next online_push msg r (some sdk_msg) = some (classify_one online_push msg sdk_msg r)

-- The loop of ClassifyMessage; none says that the end iterator is read.
unfoldable pub classify_loop :
    Bool → List MessageData → List (Str × List ℕ) → Option OnMessageResult → Option OnMessageResult
unfolding find first_of classify_next
classify_loop online_push [] sdk_msg_map r = r
classify_loop online_push (msg ∷ net_msgs) sdk_msg_map none = none
classify_loop online_push (msg ∷ net_msgs) sdk_msg_map (some r) =
    classify_loop online_push net_msgs sdk_msg_map
      (classify_next online_push msg r (first_of (find msg.smessage_id sdk_msg_map)))

abbrev pub no_messages : OnMessageResult
no_messages = record {
  real_time_msgs = [];
  offline_received_msgs = [];
  offline_not_received_msgs = [];
}

-- ClassifyMessage; `alive` says that SDKRoot is there.
unfoldable pub classify_message :
    Bool → Bool → List MessageData → List (Str × ℕ) → Option OnMessageResult
unfolding classify_loop group_by_key
classify_message alive online_push net_msgs sdk_msgs =
    if alive
    then classify_loop online_push net_msgs (group_by_key sdk_msgs []) (some no_messages)
    else some no_messages
