-- ===== src/Conversation/Model.antt =====
-- ConversationModel, and the conversion of a row into one
-- (imsdk/src/core/conversation/private/convert).
use roc_im_sdk.Prelude.{ℕ, Bool, false, ◌⊎◌, List, [], Option, none, Str, ℤ, pos, str_eq}
use roc_im_sdk.Message.JsonText.{JsonValue, map_parse_from_string, string_vector_parse_from_string}
use roc_im_sdk.Message.Table.{value_or_empty}
use roc_im_sdk.Conversation.Table.{ConversationOrm}

-- ConversationModel (imsdk/src/include/model/conversation/ConversationModel.h).
pub record ConvModel : Type 0 where
  pub type : ℕ
  pub name : Str
  pub unread_count : ℤ
  pub avatar_url : Str
  pub last_message_time : ℤ
  pub last_update_time : ℤ
  pub conversation_id : Str
  pub last_message_id : Str
  pub last_message_client_id : Str
  pub last_message_server_id : Str
  pub last_message : Option ℕ
  pub members : List Str
  pub is_top : Bool
  pub mask : ℤ
  pub is_muted : Bool
  pub is_deleted : Bool
  pub is_blocked : Bool
  pub draft : Str
  pub sync_ext : List (Str × Str)
  pub local_ext : List (Str × Str)

-- What move_from leaves in its source; ConvType::Single is 1.
abbrev pub moved_out : ConvModel
moved_out = record {
  type = 1;
  name = [];
  unread_count = pos 0;
  avatar_url = [];
  last_message_time = pos 0;
  last_update_time = pos 0;
  conversation_id = [];
  last_message_id = [];
  last_message_client_id = [];
  last_message_server_id = [];
  last_message = none;
  members = [];
  is_top = false;
  mask = pos 0;
  is_muted = false;
  is_deleted = false;
  is_blocked = false;
  draft = [];
  sync_ext = [];
  local_ext = [];
}

-- ConvertDbConvToSdkConv.
unfoldable pub convert_db_conv :
    (Str → Str ⊎ JsonValue) → (JsonValue → Str) → ConversationOrm → ConvModel
unfolding value_or_empty string_vector_parse_from_string map_parse_from_string
convert_db_conv parse serialize r = record {
  type = r.type;
  name = r.name;
  unread_count = r.unread_count;
  avatar_url = r.avatar_url;
  last_message_time = r.last_message_time;
  last_update_time = r.last_message_time;
  conversation_id = r.conversation_id;
  last_message_id = r.last_message_server_id;
  last_message_client_id = r.last_message_client_id;
  last_message_server_id = r.last_message_server_id;
  last_message = none;
  members = value_or_empty (string_vector_parse_from_string parse serialize r.members_json);
  is_top = r.is_top;
  mask = r.mask;
  is_muted = r.is_muted;
  is_deleted = r.is_deleted;
  is_blocked = r.is_blocked;
  draft = r.draft;
  sync_ext = value_or_empty (map_parse_from_string parse serialize r.sync_ext);
  local_ext = value_or_empty (map_parse_from_string parse serialize r.local_ext);
}
