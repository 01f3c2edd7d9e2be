-- ===== src/Message/Store.antt =====
-- The reads and the saves of MessageDataSource (imsdk/src/core/message/private/data_source), and the
-- calls on messages as a whole. A new copy of a message is the next object of the heap. A call runs
-- on msg_strand or on the thread of the database without a wait in between, so a sequence of calls
-- is all there is. SaveDbMsgs goes on with the ranges and the orders of the conversations, on the
-- saved instances.
pub mod Same
pub mod Copies
pub mod Updates
pub mod Saves
pub mod Reads
pub mod Coherence
pub mod Lookup
mod Tests
use roc_im_sdk.Prelude.{
  ℕ, suc, ◌⊎◌, Bool, true, false, List, [], ◌∷◌, map, Option, none, some, Str, ℤ, pos, negsuc,
  str_eq, if◌then◌else◌,
}
use roc_im_sdk.UnorderedMap.{find}
use roc_im_sdk.Message.JsonText.{JsonValue}
use roc_im_sdk.Message.Cache.{Model, Heap, set_object, update_msg_cache}
use roc_im_sdk.Message.Send.{MessageOrm}
use roc_im_sdk.Message.Table.{
  Database, convert_db_msg, message_for_id, insert_or_replace_message, query_messages,
}
use roc_im_sdk.Message.Status.{Messages, Flag, update_status}
use roc_im_sdk.Message.Status.Extensions.{
  update_message_sync_ext_status, update_message_local_ext_status, update_message_propertys_status,
}

-- std::make_shared of the copies.
unfoldable pub make_copies :
    {db : Database} → List Model → Messages db → List (Option ℕ) × Messages db
unfolding set_object
make_copies [] d = ([], d)
make_copies (m ∷ ms) d =
    let (copies, d') =
      make_copies ms (record d { heap = set_object d.next m d.heap; next = suc d.next }) in
    (some d.next ∷ copies, d')

-- UpdateMsgCache on new copies.
unfoldable pub cache_copies :
    {db : Database} → Bool → List (Option ℕ) → Messages db → List ℕ × Messages db
unfolding update_msg_cache
cache_copies alive copies d =
    let (msgs, heap) = update_msg_cache alive copies d.heap in (msgs, record d { heap = heap })

unfoldable pub cache_models :
    {db : Database} → Bool → List Model → Messages db → List ℕ × Messages db
unfolding make_copies cache_copies
cache_models alive ms d = let (copies, d') = make_copies ms d in cache_copies alive copies d'

-- What SdkMsgForId returns before it goes to msg_strand, if it returns there.
unfoldable pub sdk_msg_at_once : Bool → Str → Heap → Option (Option ℕ)
unfolding find
sdk_msg_at_once false msg_id h = some none
sdk_msg_at_once true [] h = some none
sdk_msg_at_once true (c ∷ cs) h = elim (find (c ∷ cs) h.cache) [
  | none ↦ none
  | some q ↦ some (some q)
]

unfoldable pub front : List ℕ → Option ℕ
front [] = none
front (q ∷ _) = some q

-- `cursor` of LoadConvMessagesResult: the order of the last message.
unfoldable pub last_order : List ℕ → Heap → ℤ
last_order [] h = negsuc 0
last_order (q ∷ []) h = (h.objects q).client_order_index
last_order (q ∷ p ∷ qs) h = last_order (p ∷ qs) h

-- LoadConvMessagesResult, whose `has_more` is false.
pub record ConvMessages : Type 0 where
  pub messages : List ℕ
  pub cursor : ℤ
  pub has_more : Bool

-- The calls that change what is stored or cached.
pub data Call : Type 0 where
  saves : List MessageOrm → Call
  finds : Str → Call
  loads : Str → ℤ → ℤ → Bool → Call
  flags : Flag → Str → Bool → Call
  sets_sync_ext : Str → List (Str × Str) → Call
  sets_local_ext : Str → List (Str × Str) → Call
  sets_propertys : Str → List ℤ → Call

module _ (parse : Str → Str ⊎ JsonValue) (serialize : JsonValue → Str) (db : Database)
    (alive : Bool) where
  unfoldable pub cache_found : Option Model → Messages db → Option ℕ × Messages db
  unfolding cache_models front
  cache_found none d = (none, d)
  cache_found (some m) d = let (msgs, d') = cache_models alive (m ∷ []) d in (front msgs, d')

  -- The part of SdkMsgForId on msg_strand.
  unfoldable pub sdk_msg_on_strand : Str → Messages db → Option ℕ × Messages db
  unfolding find message_for_id cache_found
  sdk_msg_on_strand msg_id d =
      if alive
      then elim (find msg_id d.heap.cache) [
        | some q ↦ (some q, d)
        | none ↦ cache_found (message_for_id parse serialize db msg_id d.table) d
      ]
      else (none, d)

  -- SdkMsgForId, where nothing comes between its two parts.
  unfoldable pub sdk_msg_for_id : Str → Messages db → Option ℕ × Messages db
  unfolding sdk_msg_at_once sdk_msg_on_strand
  sdk_msg_for_id msg_id d = elim (sdk_msg_at_once alive msg_id d.heap) [
    | some r ↦ (r, d)
    | none ↦ sdk_msg_on_strand msg_id d
  ]

  -- LoadMessageFromDb.
  unfoldable pub load_message_from_db :
      Str → ℤ → ℤ → Bool → Messages db → Option ConvMessages × Messages db
  unfolding query_messages cache_models last_order
  load_message_from_db conv_id cursor limit forward d =
      let found = query_messages parse serialize db alive conv_id cursor limit forward d.table in
      let (msgs, d') = cache_models alive found d in
      if alive
      then (
        some (record { messages = msgs; cursor = last_order msgs d'.heap; has_more = false }),
        d',
      )
      else (none, d)

  unfoldable pub after_insert :
      Bool × db.Table → List (Option ℕ) → Messages db → List ℕ × Messages db
  unfolding cache_copies
  after_insert (ret, t) copies d =
      if ret
      then cache_copies alive copies (record d { table = t })
      else ([], record d { table = t })

  -- SaveDbMsgs up to its ranges.
  unfoldable pub save_to_db : List MessageOrm → Messages db → List ℕ × Messages db
  unfolding make_copies convert_db_msg insert_or_replace_message after_insert
  save_to_db db_msgs d =
      if alive
      then (let (copies, d') = make_copies (map (convert_db_msg parse serialize) db_msgs) d in
          after_insert (insert_or_replace_message db alive db_msgs d'.table) copies d')
      else ([], d)

  unfoldable pub step : Call → Messages db → Messages db
  unfolding save_to_db sdk_msg_for_id load_message_from_db update_status
      update_message_sync_ext_status update_message_local_ext_status update_message_propertys_status
  step (saves db_msgs) d = (save_to_db db_msgs d).1
  step (finds msg_id) d = (sdk_msg_for_id msg_id d).1
  step (loads conv_id cursor limit forward) d =
      (load_message_from_db conv_id cursor limit forward d).1
  step (flags flag msg_id b) d = (update_status db alive flag msg_id b d).1
  step (sets_sync_ext msg_id ext) d =
      (update_message_sync_ext_status parse serialize db alive msg_id ext d).1
  step (sets_local_ext msg_id ext) d =
      (update_message_local_ext_status parse serialize db alive msg_id ext d).1
  step (sets_propertys msg_id propertys) d =
      (update_message_propertys_status parse serialize db alive msg_id propertys d).1

  unfoldable pub run : List Call → Messages db → Messages db
  unfolding step
  run [] d = d
  run (c ∷ cs) d = run cs (step c d)
