-- ===== src/Conversation/Store.antt =====
-- ConvDatasource (imsdk/src/core/conversation/private/datasource): the cache of the conversations
-- over their table, one instance of ConversationModel for each; and the conversion of a row
-- (imsdk/src/core/conversation/private/convert). A shared_ptr is the number of its object, and a new
-- copy is the next object. A call waits for the messages, and nothing else comes in between here.
-- What reads a null pointer has the result none.
pub mod Setting
pub mod Synced
pub mod Undelete
pub mod Lookup
mod Tests
use roc_im_sdk.Conversation.Model.{ConvModel, moved_out, convert_db_conv}
use roc_im_sdk.Message.Table.Extensions.{merge_ext}
use roc_im_sdk.Prelude.{
  ℕ, suc, Bool, true, false, ◌⊎◌, List, [], ◌∷◌, map, Option, none, some, Str, ℤ, pos, negsuc, eqb,
  if◌then◌else◌, str_eq,
}
use roc_im_sdk.UnorderedMap.{find, emplace}
use roc_im_sdk.Message.JsonText.{JsonValue, map_parse_from_string, string_vector_parse_from_string}
use roc_im_sdk.Message.Table.{Database, value_or_empty}
use roc_im_sdk.Message.Status.{Messages}
use roc_im_sdk.Message.Store.{sdk_msg_for_id}
use roc_im_sdk.Conversation.Data.{ConversationData}
use roc_im_sdk.Conversation.Table.{
  ConversationOrm, ConvDatabase, is_in_page, insert_conversation, convert_net_conv_to_db_conv,
  set_conversation_top, set_conversation_mute, set_conversation_block, delete_conversation,
  set_conversation_sync_ext, set_conversation_local_ext,
}

-- `next` is the number that the next new object gets; `messages` is what MessageForId works on.
pub record Conversations (db : ConvDatabase) (mdb : Database) : Type 0 where
  pub objects : ℕ → ConvModel
  pub cache : List (Str × ℕ)
  pub next : ℕ
  pub table : db.Table
  pub messages : Messages mdb

abbrev pub with_message : Option ℕ → ConvModel → ConvModel
with_message none m = m
with_message (some q) m = record m { last_message = some q }

module _ {db : ConvDatabase} {mdb : Database} where
  unfoldable pub set_object : ℕ → ConvModel → Conversations db mdb → Conversations db mdb
  set_object n v d = record d { objects = λ j. if eqb n j then v else d.objects j }

  -- ConversationModel::move_from (imsdk/src/wapper/model/ConversationModel.cpp).
  unfoldable pub move_from : ℕ → ℕ → Conversations db mdb → Conversations db mdb
  unfolding set_object
  move_from self source d =
      if eqb self source
      then d
      else set_object source moved_out (set_object self (d.objects source) d)

  -- `conv_cache_.at(id, copy)`, and the move into an instance that was there.
  unfoldable pub cache_one : ℕ → Conversations db mdb → ℕ × Conversations db mdb
  unfolding find emplace move_from
  cache_one copy d = elim (find (d.objects copy).conversation_id d.cache) [
    | none ↦ (copy, record d { cache = emplace (d.objects copy).conversation_id copy d.cache })
    | some cached ↦ (cached, move_from cached copy d)
  ]

  unfoldable pub make_copy : ConvModel → Conversations db mdb → Conversations db mdb
  unfolding set_object
  make_copy m d = record (set_object d.next m d) { next = suc d.next }

  -- A setter on the instance that `conv_cache_.at(conv_id)` finds, if any.
  unfoldable pub set_cached :
      Str → (ConvModel → ConvModel) → Conversations db mdb → Conversations db mdb
  unfolding find set_object
  set_cached conv_id f d = elim (find conv_id d.cache) [
    | none ↦ d
    | some q ↦ set_object q (f (d.objects q)) d
  ]

  unfoldable pub after_db :
      Str
      → (ConvModel → ConvModel)
      → Bool × db.Table
      → Conversations db mdb
      → Bool × Conversations db mdb
  unfolding set_cached
  after_db conv_id f (db_result, t) d =
      if db_result
      then (true, set_cached conv_id f (record d { table = t }))
      else (false, record d { table = t })

module _ (parse : Str → Str ⊎ JsonValue) (serialize : JsonValue → Str) (db : ConvDatabase)
    (mdb : Database) (alive : Bool) where
  abbrev pub State : Type 0
  State = Conversations db mdb

  -- One round of p_UpdateConvCache on a copy: its last message, then the cache.
  unfoldable pub update_one : ConvModel → State → ℕ × State
  unfolding sdk_msg_for_id make_copy cache_one
  update_one m d =
      let (sdk_msg, messages) =
        sdk_msg_for_id parse serialize mdb alive m.last_message_client_id d.messages in
      cache_one d.next (make_copy (with_message sdk_msg m) (record d { messages = messages }))

  unfoldable pub prepend : ℕ → Option (List ℕ × State) → Option (List ℕ × State)
  prepend q none = none
  prepend q (some (qs, d)) = some (q ∷ qs, d)

  -- The loop; a copy that is null is read.
  unfoldable pub update_loop : List (Option ConvModel) → State → Option (List ℕ × State)
  unfolding update_one prepend
  update_loop [] d = some ([], d)
  update_loop (none ∷ copies) d = none
  update_loop (some m ∷ copies) d =
      let (q, d') = update_one m d in prepend q (update_loop copies d')

  -- p_UpdateConvCache.
  unfoldable pub update_conv_cache : List (Option ConvModel) → State → Option (List ℕ × State)
  unfolding update_loop
  update_conv_cache copies d = if alive then update_loop copies d else some ([], d)

  -- SaveNetConversations: the result of InsertConversation is not looked at.
  unfoldable pub save_net_conversations : List ConversationData → State → Option (List ℕ × State)
  unfolding convert_net_conv_to_db_conv convert_db_conv insert_conversation update_conv_cache
  save_net_conversations convs d =
      let db_convs = map (λ c. convert_net_conv_to_db_conv db alive c d.table) convs in
      let copies = map (λ r. some (convert_db_conv parse serialize r)) db_convs in
      if alive
      then update_conv_cache copies
          (record d { table = (insert_conversation db alive db_convs d.table).1 })
      else some ([], d)

  -- QueryConversations.
  unfoldable pub query_conversations : ℤ → ℤ → Bool → db.Table → List ConvModel
  unfolding is_in_page convert_db_conv
  query_conversations cursor limit forward t =
      if alive
      then elim (db.get_ordered (is_in_page cursor forward) limit t) [
        | none ↦ []
        | some rows ↦ map (convert_db_conv parse serialize) rows
      ]
      else []

  unfoldable pub last_time_of : List ℕ → State → ℤ
  last_time_of [] d = negsuc 0
  last_time_of (q ∷ []) d = (d.objects q).last_message_time
  last_time_of (q ∷ p ∷ qs) d = last_time_of (p ∷ qs) d

  unfoldable pub load_result : Option (List ℕ × State) → Option (Option (List ℕ × ℤ) × State)
  unfolding last_time_of
  load_result none = none
  load_result (some (convs, d)) = some (some (convs, last_time_of convs d), d)

  -- LoadConvsFromDb: the conversations and the cursor; `has_more` is false.
  unfoldable pub load_convs_from_db : ℤ → ℤ → Bool → State → Option (Option (List ℕ × ℤ) × State)
  unfolding query_conversations update_conv_cache load_result
  load_convs_from_db cursor limit forward d =
      if alive
      then load_result
          (update_conv_cache (map some (query_conversations cursor limit forward d.table)) d)
      else some (none, d)

  unfoldable pub first_conversation : Option (List ConversationOrm) → Option ConvModel
  unfolding convert_db_conv
  first_conversation none = none
  first_conversation (some []) = none
  first_conversation (some (r ∷ _)) = some (convert_db_conv parse serialize r)

  -- ConversationForId.
  unfoldable pub conversation_for_id : Str → db.Table → Option ConvModel
  unfolding first_conversation
  conversation_for_id conv_id t =
      if alive then first_conversation (db.get_all_objects conv_id t) else none

  unfoldable pub front : Option (List ℕ × State) → Option (Option ℕ × State)
  front none = none
  front (some ([], d)) = some (none, d)
  front (some (q ∷ _, d)) = some (some q, d)

  -- SdkConvForId, where nothing comes between its two looks at the cache.
  unfoldable pub sdk_conv_for_id : Str → State → Option (Option ℕ × State)
  unfolding find conversation_for_id update_conv_cache front
  sdk_conv_for_id [] d = some (none, d)
  sdk_conv_for_id (c ∷ cs) d =
      if alive
      then elim (find (c ∷ cs) d.cache) [
        | some q ↦ some (some q, d)
        | none ↦ front (update_conv_cache (conversation_for_id (c ∷ cs) d.table ∷ []) d)
      ]
      else some (none, d)

module _ (db : ConvDatabase) (mdb : Database) (alive : Bool) where
  -- SdkConvForIdFromCache.
  unfoldable pub sdk_conv_for_id_from_cache : Str → Conversations db mdb → Option ℕ
  unfolding find
  sdk_conv_for_id_from_cache [] d = none
  sdk_conv_for_id_from_cache (c ∷ cs) d = if alive then find (c ∷ cs) d.cache else none

  -- UpdateConversationTopStatus, -MuteStatus, -BlockStatus and -DeletedStatus.
  unfoldable pub update_conversation_top_status :
      Str → Bool → Conversations db mdb → Bool × Conversations db mdb
  unfolding after_db set_conversation_top
  update_conversation_top_status conv_id is_top d =
      after_db conv_id (λ m. record m { is_top = is_top })
        (set_conversation_top db alive conv_id is_top d.table) d

  unfoldable pub update_conversation_mute_status :
      Str → Bool → Conversations db mdb → Bool × Conversations db mdb
  unfolding after_db set_conversation_mute
  update_conversation_mute_status conv_id is_mute d =
      after_db conv_id (λ m. record m { is_muted = is_mute })
        (set_conversation_mute db alive conv_id is_mute d.table) d

  unfoldable pub update_conversation_block_status :
      Str → Bool → Conversations db mdb → Bool × Conversations db mdb
  unfolding after_db set_conversation_block
  update_conversation_block_status conv_id is_block d =
      after_db conv_id (λ m. record m { is_blocked = is_block })
        (set_conversation_block db alive conv_id is_block d.table) d

  unfoldable pub update_conversation_deleted_status :
      Str → Bool → Conversations db mdb → Bool × Conversations db mdb
  unfolding after_db delete_conversation
  update_conversation_deleted_status conv_id is_deleted d =
      after_db conv_id (λ m. record m { is_deleted = is_deleted })
        (delete_conversation db alive conv_id d.table) d

-- UpdateConversationSyncExtStatus and -LocalExtStatus.
module _ (parse : Str → Str ⊎ JsonValue) (serialize : JsonValue → Str) (db : ConvDatabase)
    (mdb : Database) (alive : Bool) where
  unfoldable pub update_conversation_sync_ext_status :
      Str → List (Str × Str) → Conversations db mdb → Bool × Conversations db mdb
  unfolding after_db set_conversation_sync_ext merge_ext
  update_conversation_sync_ext_status conv_id sync_ext d =
      after_db conv_id (λ m. record m { sync_ext = merge_ext sync_ext m.sync_ext })
        (set_conversation_sync_ext parse serialize db alive conv_id sync_ext d.table) d

  unfoldable pub update_conversation_local_ext_status :
      Str → List (Str × Str) → Conversations db mdb → Bool × Conversations db mdb
  unfolding after_db set_conversation_local_ext merge_ext
  update_conversation_local_ext_status conv_id local_ext d =
      after_db conv_id (λ m. record m { local_ext = merge_ext local_ext m.local_ext })
        (set_conversation_local_ext parse serialize db alive conv_id local_ext d.table) d
