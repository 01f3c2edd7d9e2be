-- ===== src/Message/Incoming.antt =====
-- Messages of the network: their conversion into rows, which merges the fields that only the client
-- has (ConvertNetMsgToDbMsg of imsdk/src/core/message/private/convert/Convert.cc and
-- MessageMergeWithLocal of imsdk/src/core/message/private/db_opt/DBOpt.cc), and SaveNetMessages of
-- MessageDataSource, up to the ranges. `get_first` reads the first row with a client_msg_id.
pub mod Local
mod Tests
use roc_im_sdk.Prelude.{
  ℕ, ◌*◌, ◌-◌, ◌+◌, Bool, true, false, ◌⊎◌, List, [], ◌∷◌, map, Option, none, some, Str, ℤ, pos,
  negsuc, ltb_ℤ, eqb, if◌then◌else◌,
}
use roc_im_sdk.Message.JsonText.{JsonValue}
use roc_im_sdk.Message.Send.{MessageOrm}
use roc_im_sdk.Message.Table.{Database}
use roc_im_sdk.Message.Status.{Messages}
use roc_im_sdk.Message.Store.{save_to_db}

-- MessageData of sdkws.proto; the time of sending is as the cast truncates it.
pub record IncomingMessage : Type 0 where
  pub send_id : Str
  pub recv_id : Str
  pub conv_id : Str
  pub cmessage_id : Str
  pub smessage_id : Str
  pub conv_type : ℕ
  pub content : Str
  pub seq : ℤ
  pub send_time : ℤ
  pub status : ℕ
  pub is_deleted : Bool
  pub is_recalled : Bool
  pub is_pinned : Bool
  pub sync_ext : Str
  pub propertys : Str

-- One id, or the other where it is empty.
unfoldable pub or_other : Str → Str → Str
or_other [] other = other
or_other (c ∷ cs) other = c ∷ cs

-- `seq * 1000`.
unfoldable pub thousandfold : ℤ → ℤ
thousandfold (pos n) = pos (n * 1000)
thousandfold (negsuc n) = negsuc (n * 1000 + 999)

-- The row before the merge.
unfoldable pub network_row : IncomingMessage → MessageOrm
unfolding or_other thousandfold
network_row msg = record {
  content = msg.content;
  client_msg_id = or_other msg.cmessage_id msg.smessage_id;
  server_order_index = msg.seq;
  conversation_id = msg.conv_id;
  from_user_id = msg.send_id;
  to_user_id = msg.recv_id;
  is_group_msg = eqb msg.conv_type 2;
  sync_ext = msg.sync_ext;
  local_ext = [];
  status = msg.status;
  is_pinned = msg.is_pinned;
  is_deleted = msg.is_deleted;
  is_recalled = msg.is_recalled;
  send_time = msg.send_time;
  client_order_index = thousandfold msg.seq;
  server_msg_id = or_other msg.smessage_id msg.cmessage_id;
  propertys = msg.propertys;
}

unfoldable pub merge_row : Option MessageOrm → MessageOrm → MessageOrm
merge_row none row = row
merge_row (some old) row = record row {
  client_order_index =
      if ltb_ℤ (pos 0) old.client_order_index
      then old.client_order_index
      else row.client_order_index;
  local_ext = old.local_ext;
}

module _ (db : Database) (get_first : Str → db.Table → Option MessageOrm) (alive : Bool) where
  -- MessageMergeWithLocal.
  unfoldable pub message_merge_with_local : Str → MessageOrm → db.Table → MessageOrm
  unfolding merge_row
  message_merge_with_local msg_id row t = if alive then merge_row (get_first msg_id t) row else row

  -- ConvertNetMsgToDbMsg, while SDKRoot is there.
  unfoldable pub convert_net_msg_to_db_msg : IncomingMessage → db.Table → MessageOrm
  unfolding network_row message_merge_with_local
  convert_net_msg_to_db_msg msg t =
      message_merge_with_local (network_row msg).client_msg_id (network_row msg) t

  -- SaveNetMessages.
  unfoldable pub save_net_messages :
      (Str → Str ⊎ JsonValue)
      → (JsonValue → Str)
      → List IncomingMessage
      → Messages db
      → List ℕ × Messages db
  unfolding convert_net_msg_to_db_msg save_to_db
  save_net_messages parse serialize msgs d =
      if alive
      then save_to_db parse serialize db alive (map (λ m. convert_net_msg_to_db_msg m d.table) msgs)
          d
      else ([], d)
