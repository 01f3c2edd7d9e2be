-- ===== src/Conversation/Data.antt =====
-- The messages of the protocol that the conversations come in (sdkws.proto): the fields that the
-- code reads.
use roc_im_sdk.Prelude.{ℕ, Bool, List, Option, Str, ℤ}

pub record MessageData : Type 0 where
  pub smessage_id : Str
  pub cmessage_id : Str
  pub send_time : ℤ
  pub dstatus : ℕ

pub record ConversationData : Type 0 where
  pub conv_id : Str
  pub conv_type : ℕ
  pub name : Str
  pub avatar_url : Str
  pub unread_count : ℤ
  pub last_message : Option MessageData
  pub members : Str
  pub is_muted : Bool
  pub is_top : Bool
  pub is_delete : Bool
  pub is_blocked : Bool
  pub sync_ext : Str
  pub messages : List MessageData

-- FetchUserRecentConvListRequest.
pub record Request : Type 0 where
  pub user_id : Str
  pub mode : ℕ
  pub version : ℤ
  pub limit : ℕ
  pub low_version : ℤ
  pub upper_version : ℤ

-- FetchUserRecentConvListResponse.
pub record Page : Type 0 where
  pub has_more : Bool
  pub left : ℤ
  pub right : ℤ
  pub conversations : List ConversationData
