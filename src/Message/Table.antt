-- ===== src/Message/Table.antt =====
-- The table of messages: a part of DBOpt (imsdk/src/core/message/private/db_opt/DBOpt.cc) over WCDB,
-- which is a library, and the conversion of a row (imsdk/src/core/message/private/convert/Convert.cc).
pub mod Extensions
pub mod Merge
pub mod Instance
use roc_im_sdk.Prelude.{
  ◌≡◌, ◌⊎◌, Bool, true, false, ◌&&◌, ℤ, pos, ltb_ℤ, All, List, [], ◌∷◌, map, Option, none, some,
  Str, ◌==◌, str_eq, if◌then◌else◌,
}
use roc_im_sdk.Network.Message.{Expected, value, unexpected}
use roc_im_sdk.Message.JsonText.{JsonValue, map_parse_from_string, int32_vector_parse_from_string}
use roc_im_sdk.Message.Cache.{Model}
use roc_im_sdk.Message.Send.{MessageOrm}

-- `updateObject` writes fields of the rows with a client_msg_id, given as a function on the row, and
-- returns whether it succeeded; `getAllObjects` reads the rows with a client_msg_id, and may fail.
-- With a condition, an order and a limit it is `get_ordered`: the order is that of
-- client_order_index, from the largest down.
pub record Database : Type 1 where
  pub Table : Type 0
  pub update_object : (MessageOrm → MessageOrm) → Str → Table → Bool × Table
  pub insert_or_replace_object : MessageOrm → Table → Bool × Table
  pub run_transaction : (Table → Bool × Table) → Table → Bool × Table
  pub get_all_objects : Str → Table → Option (List MessageOrm)
  pub get_ordered : (MessageOrm → Bool) → ℤ → Table → Option (List MessageOrm)

abbrev pub map_rows :
    (MessageOrm → MessageOrm) → Option (List MessageOrm) → Option (List MessageOrm)
map_rows f none = none
map_rows f (some rows) = some (map f rows)

-- An update that succeeds is read back in the rows that it is about, and the other rows stay; one
-- that fails changes nothing. So with an insertion, where client_msg_id is the primary key. A
-- transaction that succeeds has done what its body does, which then succeeded; one that fails has
-- changed nothing. The rows that are read have the id that was asked for, and the rows of an
-- ordered read are rows of the table that meet the condition.
pub record DatabaseLaws (db : Database) : Type 0 where
  pub get_update :
      (f : MessageOrm → MessageOrm) (k j : Str) (t : db.Table)
      → ((r : MessageOrm) → (f r).client_msg_id ≡ r.client_msg_id)
      → db.get_all_objects j (db.update_object f k t).1 ≡ (
          if k == j
          then (if (db.update_object f k t).0
              then map_rows f (db.get_all_objects j t)
              else db.get_all_objects j t)
          else db.get_all_objects j t)
  pub get_id :
      (k : Str) (r : MessageOrm) (rows : List MessageOrm) (t : db.Table)
      → db.get_all_objects k t ≡ some (r ∷ rows)
      → r.client_msg_id ≡ k
  pub get_insert :
      (r : MessageOrm) (j : Str) (t : db.Table)
      → db.get_all_objects j (db.insert_or_replace_object r t).1 ≡ (
          if (db.insert_or_replace_object r t).0 && r.client_msg_id == j
          then some (r ∷ [])
          else db.get_all_objects j t)
  pub get_commit :
      (body : db.Table → Bool × db.Table) (j : Str) (t : db.Table)
      → (db.run_transaction body t).0 ≡ true
      → ((body t).0 ≡ true)
        × (db.get_all_objects j (db.run_transaction body t).1 ≡ db.get_all_objects j (body t).1)
  pub get_rollback :
      (body : db.Table → Bool × db.Table) (j : Str) (t : db.Table)
      → (db.run_transaction body t).0 ≡ false
      → db.get_all_objects j (db.run_transaction body t).1 ≡ db.get_all_objects j t
  pub ordered_rows :
      (condition : MessageOrm → Bool) (limit : ℤ) (t : db.Table) (rows : List MessageOrm)
      → db.get_ordered condition limit t ≡ some rows
      → All
          (λ r. (condition r ≡ true) × (db.get_all_objects r.client_msg_id t ≡ some (r ∷ [])))
          rows

-- The value of a result, where the code leaves the field of a new message empty on an error.
unfoldable pub value_or_empty : {A : Type 0} → Expected (List A) → List A
value_or_empty (value v) = v
value_or_empty (unexpected _) = []

module _ (parse : Str → Str ⊎ JsonValue) (serialize : JsonValue → Str) where
  -- ConvertDbMsgToSdkMsgTmp.
  unfoldable pub convert_db_msg : MessageOrm → Model
  unfolding value_or_empty map_parse_from_string int32_vector_parse_from_string
  convert_db_msg r = record {
    status = r.status;
    is_pinned = r.is_pinned;
    is_deleted = r.is_deleted;
    is_recalled = r.is_recalled;
    is_group_msg = r.is_group_msg;
    content = r.content;
    to_user_id = r.to_user_id;
    from_user_id = r.from_user_id;
    client_msg_id = r.client_msg_id;
    server_msg_id = r.server_msg_id;
    conversation_id = r.conversation_id;
    client_order_index = r.client_order_index;
    server_order_index = r.server_order_index;
    send_time = r.send_time;
    sync_ext = value_or_empty (map_parse_from_string parse serialize r.sync_ext);
    local_ext = value_or_empty (map_parse_from_string parse serialize r.local_ext);
    propertys = value_or_empty (int32_vector_parse_from_string parse serialize r.propertys);
  }

  unfoldable pub first_message : Option (List MessageOrm) → Option Model
  unfolding convert_db_msg
  first_message none = none
  first_message (some []) = none
  first_message (some (r ∷ _)) = some (convert_db_msg r)

  -- MessageForId.
  unfoldable pub message_for_id : (db : Database) → Str → db.Table → Option Model
  unfolding first_message
  message_for_id db msg_id t = first_message (db.get_all_objects msg_id t)

-- SetMessagePin, SetMessageDeleted and SetMessageRecalled; `alive` says that SDKRoot and the
-- database are there.
module _ (db : Database) (alive : Bool) where
  unfoldable pub set_message_pin : Str → Bool → db.Table → Bool × db.Table
  set_message_pin msg_id is_pinned t =
      if alive
      then db.update_object (λ r. record r { is_pinned = is_pinned }) msg_id t
      else (false, t)

  unfoldable pub set_message_deleted : Str → Bool → db.Table → Bool × db.Table
  set_message_deleted msg_id is_deleted t =
      if alive
      then db.update_object (λ r. record r { is_deleted = is_deleted }) msg_id t
      else (false, t)

  unfoldable pub set_message_recalled : Str → Bool → db.Table → Bool × db.Table
  set_message_recalled msg_id is_recalled t =
      if alive
      then db.update_object (λ r. record r { is_recalled = is_recalled }) msg_id t
      else (false, t)

-- InsertOrReplaceMessage.
module _ (db : Database) (alive : Bool) where
  unfoldable pub insert_all : List MessageOrm → db.Table → Bool × db.Table
  insert_all [] t = (true, t)
  insert_all (message ∷ messages) t =
      let (ok, t') = db.insert_or_replace_object message t in
      let (rest, t'') = insert_all messages t' in (ok && rest, t'')

  unfoldable pub insert_or_replace_message : List MessageOrm → db.Table → Bool × db.Table
  unfolding insert_all
  insert_or_replace_message messages t =
      if alive then db.run_transaction (insert_all messages) t else (false, t)

-- The condition of QueryMessagesForConvId.
unfoldable pub is_in_page : Str → ℤ → Bool → MessageOrm → Bool
is_in_page conv_id cursor forward r =
    r.conversation_id == conv_id
    && (if ltb_ℤ (pos 0) cursor
        then (if forward
            then ltb_ℤ cursor r.client_order_index
            else ltb_ℤ r.client_order_index cursor)
        else true)

module _ (parse : Str → Str ⊎ JsonValue) (serialize : JsonValue → Str) (db : Database)
    (alive : Bool) where
  unfoldable pub convert_rows : Option (List MessageOrm) → List Model
  unfolding convert_db_msg
  convert_rows none = []
  convert_rows (some rows) = map (convert_db_msg parse serialize) rows

  -- QueryMessagesForConvId.
  unfoldable pub query_messages : Str → ℤ → ℤ → Bool → db.Table → List Model
  unfolding convert_rows is_in_page
  query_messages conv_id cursor limit forward t =
      if alive
      then convert_rows (db.get_ordered (is_in_page conv_id cursor forward) limit t)
      else []
