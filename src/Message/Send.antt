-- ===== src/Message/Send.antt =====
-- Sending a message (imsdk/src/core/message/private/send/SendMessage.cc), up to the request: the
-- check of the context, the ids of single conversations (imsdk/src/core/common/util.h), and the two
-- forms of the message, for the network and for the database. The time of sending, a double that is
-- only carried along, is a number. The protocol buffer is a record of
-- the fields that are set.
pub mod ConvId
pub mod Address
mod Tests
use roc_im_sdk.Prelude.{
  ℕ, Bool, true, false, ◌&&◌, not, List, [], ◌∷◌, ◌++◌, Option, none, some, Str, codes, ltb, eqb, ℤ,
  pos, if◌then◌else◌, ◌==◌, nat_eq, str_eq,
}
use roc_im_sdk.Storage.{Mmkv}
use roc_im_sdk.Message.Order.{next_msg_order_in_conv}

-- operator< of std::string.
pub str_ltb : Str → Str → Bool
str_ltb s [] = false
str_ltb [] (b ∷ t) = true
str_ltb (a ∷ s) (b ∷ t) =
    let rest = str_ltb s t in if ltb a b then true else if eqb a b then rest else false

abbrev pub prefix : Str
prefix = codes "0:1:"

-- GenerateSingleConvId.
pub generate_single_conv_id : Str → Str → Str
unfolding str_ltb
generate_single_conv_id user_id1 user_id2 =
    if str_ltb user_id1 user_id2
    then prefix ++ (user_id1 ++ 58 ∷ user_id2)
    else prefix ++ (user_id2 ++ 58 ∷ user_id1)

-- `conv_id.substr(4)` where the text begins with the prefix.
pub strip : Str → Str → Option Str
strip [] s = some s
strip (p ∷ ps) [] = none
strip (p ∷ ps) (c ∷ cs) = if p == c then strip ps cs else none

-- The text before the first colon, and the text after it.
pub split_colon : Str → Option (Str × Str)
split_colon [] = none
split_colon (c ∷ cs) =
    if c == 58
    then some ([], cs)
    else elim (split_colon cs) [ none ↦ none | some (a, b) ↦ some (c ∷ a, b) ]

pub empty : Str → Bool
empty [] = true
empty (_ ∷ _) = false

abbrev pub no_users : Str × Str
no_users = ([], [])

pub check_users : Option (Str × Str) → Str × Str
unfolding empty
check_users none = no_users
check_users (some (a, b)) = if empty a then no_users else if empty b then no_users else (a, b)

pub parse_rest : Option Str → Str × Str
unfolding check_users split_colon
parse_rest none = no_users
parse_rest (some rest) = check_users (split_colon rest)

-- ParseSingleConvId.
pub parse_single_conv_id : Str → Str × Str
unfolding parse_rest strip
parse_single_conv_id conv_id = parse_rest (strip prefix conv_id)

pub record SendMsgContext : Type 0 where
  pub content : Str
  pub sync_ext : Str
  pub local_ext : Str
  pub is_group_msg : Bool
  pub conv_id : Str
  pub to_user_id : Str
  pub from_user_id : Str

-- p_checkSendContext.
pub check_send_context : SendMsgContext → Bool
unfolding empty
check_send_context context =
    if empty context.content
    then false
    else if context.is_group_msg && empty context.conv_id
    then false
    else if not context.is_group_msg && (empty context.conv_id && empty context.to_user_id)
    then false
    else true

-- The receiver of a single conversation, for the user who is logged in.
pub receiver_of : Str → Str × Str → Str
receiver_of user_id (first, second) = if first == user_id then second else first

-- network::MessageData, as far as it is set.
pub record NetMessage : Type 0 where
  pub cmessaegid : Str
  pub content : Str
  pub sendid : Str
  pub sendtime : ℤ
  pub convtype : ℕ
  pub recvid : Str
  pub convid : Str

-- p_convertSendContextToSdkwsMessage while SDKRoot is there, which also fills in the context; the new message has an empty
-- receiver.
pub single_conv_id : Str → SendMsgContext → Str
unfolding generate_single_conv_id empty
single_conv_id user_id context =
    if empty context.conv_id
    then generate_single_conv_id user_id context.to_user_id
    else context.conv_id

pub convert_to_sdkws : Str → SendMsgContext → Str → ℤ → NetMessage × SendMsgContext
unfolding single_conv_id parse_single_conv_id receiver_of
convert_to_sdkws user_id context client_msg_id send_time =
    if context.is_group_msg
    then (
      record {
        cmessaegid = client_msg_id;
        content = context.content;
        sendid = user_id;
        sendtime = send_time;
        convtype = 2;
        recvid = [];
        convid = context.conv_id;
      },
      context,
    )
    else (let conv_id = single_conv_id user_id context in
        let receiver_id = receiver_of user_id (parse_single_conv_id conv_id) in
        (
          record {
            cmessaegid = client_msg_id;
            content = context.content;
            sendid = user_id;
            sendtime = send_time;
            convtype = 1;
            recvid = receiver_id;
            convid = conv_id;
          },
          record context { conv_id = conv_id; to_user_id = receiver_id; from_user_id = user_id },
        ))

-- MessageORM, as the send fills it in; the server's id and the properties stay empty.
pub record MessageOrm : Type 0 where
  pub content : Str
  pub client_msg_id : Str
  pub server_order_index : ℤ
  pub conversation_id : Str
  pub from_user_id : Str
  pub to_user_id : Str
  pub is_group_msg : Bool
  pub sync_ext : Str
  pub local_ext : Str
  pub status : ℕ
  pub is_pinned : Bool
  pub is_deleted : Bool
  pub is_recalled : Bool
  pub send_time : ℤ
  pub client_order_index : ℤ
  pub server_msg_id : Str
  pub propertys : Str

-- p_convertSendContextToMessageOrm: it takes the next order of the conversation. `none` is the null
-- pointer that it returns when SDKRoot is gone.
module _ (kv : Mmkv) (user_id : Str) (alive : Bool) where
  pub convert_to_orm : SendMsgContext → Str → ℤ → kv.Store → Option MessageOrm × kv.Store
  convert_to_orm context client_msg_id send_time s =
      if alive
      then (let (order, s') = next_msg_order_in_conv kv user_id alive context.conv_id s in
          (
            some (record {
              content = context.content;
              client_msg_id = client_msg_id;
              server_order_index = pos 0;
              conversation_id = context.conv_id;
              from_user_id = user_id;
              to_user_id = context.to_user_id;
              is_group_msg = context.is_group_msg;
              sync_ext = context.sync_ext;
              local_ext = context.local_ext;
              status = 0;
              is_pinned = false;
              is_deleted = false;
              is_recalled = false;
              send_time = send_time;
              client_order_index = order;
              server_msg_id = [];
              propertys = [];
            }),
            s',
          ))
      else (none, s)
