-- ===== src/Conversation/Table.antt =====
-- The table of conversations: DBOpt (imsdk/src/core/conversation/private/db_opt) over WCDB, which is
-- a library, and the conversion of a conversation of the network into a row
-- (imsdk/src/core/conversation/private/convert).
pub mod Merge
pub mod Instance
use roc_im_sdk.Prelude.{
  ℕ, ◌≡◌, Bool, true, false, ◌&&◌, ◌⊎◌, List, [], ◌∷◌, map, Option, none, some, Str, ℤ, pos, negsuc,
  ltb_ℤ, leb_ℤ, if◌then◌else◌, ◌==◌, str_eq,
}
use roc_im_sdk.Network.Message.{Expected, value, unexpected}
use roc_im_sdk.Message.JsonText.{
  JsonValue, map_parse_from_string, map_serialize_as_string, to_int32,
}
use roc_im_sdk.Message.Table.{value_or_empty}
use roc_im_sdk.Message.Table.Extensions.{merge_ext}
use roc_im_sdk.Conversation.Data.{MessageData, ConversationData}

-- ConversationORM (imsdk/src/core/conversation/db_model).
pub record ConversationOrm : Type 0 where
  pub type : ℕ
  pub name : Str
  pub unread_count : ℤ
  pub avatar_url : Str
  pub last_message_time : ℤ
  pub conversation_id : Str
  pub last_message_client_id : Str
  pub last_message_server_id : Str
  pub members_json : Str
  pub is_top : Bool
  pub mask : ℤ
  pub is_muted : Bool
  pub is_deleted : Bool
  pub is_blocked : Bool
  pub draft : Str
  pub sync_ext : Str
  pub local_ext : Str

-- As for the messages: `update_object` writes fields of the rows with a conversation_id,
-- `get_all_objects` reads them and `get_first` the first of them, `get_ordered` reads with a
-- condition, from the largest last_message_server_id down, with a limit.
pub record ConvDatabase : Type 1 where
  pub Table : Type 0
  pub update_object : (ConversationOrm → ConversationOrm) → Str → Table → Bool × Table
  pub insert_or_replace_object : ConversationOrm → Table → Bool × Table
  pub run_transaction : (Table → Bool × Table) → Table → Bool × Table
  pub get_all_objects : Str → Table → Option (List ConversationOrm)
  pub get_first : Str → Table → Option ConversationOrm
  pub get_ordered : (ConversationOrm → Bool) → ℤ → Table → Option (List ConversationOrm)

abbrev pub map_rows :
    (ConversationOrm → ConversationOrm)
    → Option (List ConversationOrm)
    → Option (List ConversationOrm)
map_rows f none = none
map_rows f (some rows) = some (map f rows)

-- What a write changes is read back; one that fails changes nothing. conversation_id is the primary
-- key. A transaction that fails has changed nothing, one that succeeds has done what its body does.
pub record ConvLaws (db : ConvDatabase) : Type 0 where
  pub get_update :
      (f : ConversationOrm → ConversationOrm) (k j : Str) (t : db.Table)
      → ((r : ConversationOrm) → (f r).conversation_id ≡ r.conversation_id)
      → db.get_all_objects j (db.update_object f k t).1 ≡ (
          if (db.update_object f k t).0 && k == j
          then map_rows f (db.get_all_objects j t)
          else db.get_all_objects j t)
  pub get_insert :
      (r : ConversationOrm) (j : Str) (t : db.Table)
      → db.get_all_objects j (db.insert_or_replace_object r t).1 ≡ (
          if (db.insert_or_replace_object r t).0 && r.conversation_id == j
          then some (r ∷ [])
          else db.get_all_objects j t)
  pub first_row :
      (k : Str) (r : ConversationOrm) (rows : List ConversationOrm) (t : db.Table)
      → db.get_all_objects k t ≡ some (r ∷ rows)
      → db.get_first k t ≡ some r
  pub get_commit :
      (body : db.Table → Bool × db.Table) (j : Str) (t : db.Table)
      → (db.run_transaction body t).0 ≡ true
      → ((body t).0 ≡ true)
        × (db.get_all_objects j (db.run_transaction body t).1 ≡ db.get_all_objects j (body t).1)
  pub get_rollback :
      (body : db.Table → Bool × db.Table) (j : Str) (t : db.Table)
      → (db.run_transaction body t).0 ≡ false
      → db.get_all_objects j (db.run_transaction body t).1 ≡ db.get_all_objects j t

-- The condition of QueryConversations.
unfoldable pub is_in_page : ℤ → Bool → ConversationOrm → Bool
is_in_page cursor forward r =
    if leb_ℤ (pos 0) cursor
    then (if forward then ltb_ℤ r.last_message_time cursor else ltb_ℤ cursor r.last_message_time)
    else true

-- The fields of the last message, with what stands for it where there is none.
abbrev pub last_time : Option MessageData → ℤ
last_time none = pos 0
last_time (some m) = m.send_time

abbrev pub last_client_id : Option MessageData → Str
last_client_id none = []
last_client_id (some m) = m.cmessage_id

abbrev pub last_server_id : Option MessageData → Str
last_server_id none = []
last_server_id (some m) = m.smessage_id

-- The row of a conversation before the merge.
unfoldable pub network_row : ConversationData → ConversationOrm
unfolding to_int32
network_row conv = record {
  type = conv.conv_type;
  name = conv.name;
  unread_count = to_int32 conv.unread_count;
  avatar_url = conv.avatar_url;
  last_message_time = last_time conv.last_message;
  conversation_id = conv.conv_id;
  last_message_client_id = last_client_id conv.last_message;
  last_message_server_id = last_server_id conv.last_message;
  members_json = conv.members;
  is_top = conv.is_top;
  mask = pos 0;
  is_muted = conv.is_muted;
  is_deleted = conv.is_delete;
  is_blocked = conv.is_blocked;
  draft = [];
  sync_ext = conv.sync_ext;
  local_ext = [];
}

unfoldable pub merge_row : Option ConversationOrm → ConversationOrm → ConversationOrm
merge_row none row = row
merge_row (some old) row = record row { local_ext = old.local_ext; draft = old.draft }

module _ (db : ConvDatabase) (alive : Bool) where
  open db use {Table}

  unfoldable pub insert_all : List ConversationOrm → Table → Bool × Table
  insert_all [] t = (true, t)
  insert_all (row ∷ rows) t =
      let (ok, t') = db.insert_or_replace_object row t in
      let (rest, t'') = insert_all rows t' in (ok && rest, t'')

  -- InsertConversation.
  unfoldable pub insert_conversation : List ConversationOrm → Table → Bool × Table
  unfolding insert_all
  insert_conversation rows t = if alive then db.run_transaction (insert_all rows) t else (false, t)

  -- ConversationMergeWithLocal.
  unfoldable pub conversation_merge_with_local : Str → ConversationOrm → Table → ConversationOrm
  unfolding merge_row
  conversation_merge_with_local conv_id row t =
      if alive then merge_row (db.get_first conv_id t) row else row

  -- ConvertNetConvToDbConv, while SDKRoot is there.
  unfoldable pub convert_net_conv_to_db_conv : ConversationData → Table → ConversationOrm
  unfolding network_row conversation_merge_with_local
  convert_net_conv_to_db_conv conv t =
      conversation_merge_with_local conv.conv_id (network_row conv) t

  -- SetConversationTop, SetConversationMute and SetConversationBlock.
  unfoldable pub set_conversation_top : Str → Bool → Table → Bool × Table
  set_conversation_top conv_id is_top t =
      if alive then db.update_object (λ r. record r { is_top = is_top }) conv_id t else (false, t)

  unfoldable pub set_conversation_mute : Str → Bool → Table → Bool × Table
  set_conversation_mute conv_id is_mute t =
      if alive
      then db.update_object (λ r. record r { is_muted = is_mute }) conv_id t
      else (false, t)

  unfoldable pub set_conversation_block : Str → Bool → Table → Bool × Table
  set_conversation_block conv_id is_block t =
      if alive
      then db.update_object (λ r. record r { is_blocked = is_block }) conv_id t
      else (false, t)

  -- DeleteConversation.
  unfoldable pub delete_conversation : Str → Table → Bool × Table
  delete_conversation conv_id t =
      if alive then db.update_object (λ r. record r { is_deleted = true }) conv_id t else (false, t)

-- The entries of the first row of a text, or none where it cannot be parsed.
module _ (parse : Str → Str ⊎ JsonValue) (serialize : JsonValue → Str) where
  unfoldable pub existing_ext :
      (ConversationOrm → Str) → Option (List ConversationOrm) → List (Str × Str)
  unfolding value_or_empty map_parse_from_string
  existing_ext text none = []
  existing_ext text (some []) = []
  existing_ext text (some (r ∷ _)) = value_or_empty (map_parse_from_string parse serialize (text r))

  module _ (db : ConvDatabase) (alive : Bool) where
    unfoldable pub write_text :
        Expected Str → (Str → ConversationOrm → ConversationOrm) → Str → db.Table → Bool × db.Table
    write_text (value text) set conv_id t = db.update_object (set text) conv_id t
    write_text (unexpected _) set conv_id t = (false, t)

    -- SetConversationSyncExt.
    unfoldable pub set_conversation_sync_ext : Str → List (Str × Str) → db.Table → Bool × db.Table
    unfolding existing_ext merge_ext map_serialize_as_string write_text
    set_conversation_sync_ext conv_id sync_ext t =
        if alive
        then write_text
            (map_serialize_as_string parse serialize
              (merge_ext sync_ext (existing_ext (λ r. r.sync_ext) (db.get_all_objects conv_id t))))
            (λ text r. record r { sync_ext = text }) conv_id t
        else (false, t)

    -- SetConversationLocalExt.
    unfoldable pub set_conversation_local_ext : Str → List (Str × Str) → db.Table → Bool × db.Table
    unfolding existing_ext merge_ext map_serialize_as_string write_text
    set_conversation_local_ext conv_id local_ext t =
        if alive
        then write_text
            (map_serialize_as_string parse serialize (
              merge_ext local_ext (existing_ext (λ r. r.local_ext) (db.get_all_objects conv_id t))))
            (λ text r. record r { local_ext = text }) conv_id t
        else (false, t)
