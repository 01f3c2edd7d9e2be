-- ===== src/Message/Table/Extensions.antt =====
-- The writes of the extensions and the properties: SetMessageSyncExt, SetMessageLocalExt and
-- SetMessagePropertys of DBOpt. The first two merge the new entries into what the row has.
use roc_im_sdk.Prelude.{
  ◌⊎◌, Bool, false, List, [], ◌∷◌, Option, none, some, Str, ℤ, if◌then◌else◌, str_eq,
}
use roc_im_sdk.UnorderedMap.{assign}
use roc_im_sdk.Network.Message.{Expected, value, unexpected}
use roc_im_sdk.Message.JsonText.{
  JsonValue, map_serialize_as_string, map_parse_from_string, int32_vector_serialize_as_string,
}
use roc_im_sdk.Message.Send.{MessageOrm}
use roc_im_sdk.Message.Table.{Database, value_or_empty}

-- `merged[key] = value` for each entry.
unfoldable pub merge_ext : List (Str × Str) → List (Str × Str) → List (Str × Str)
merge_ext [] existing = existing
merge_ext ((key, v) ∷ ext) existing = merge_ext ext (assign key v existing)

unfoldable pub write_text :
    (db : Database)
    → Expected Str
    → (Str → MessageOrm → MessageOrm)
    → Str
    → db.Table
    → Bool × db.Table
write_text db (value text) set msg_id t = db.update_object (set text) msg_id t
write_text db (unexpected _) set msg_id t = (false, t)

module _ (parse : Str → Str ⊎ JsonValue) (serialize : JsonValue → Str) where
  -- The entries of the first row, or none where its text cannot be parsed.
  unfoldable pub existing_ext : (MessageOrm → Str) → Option (List MessageOrm) → List (Str × Str)
  unfolding value_or_empty map_parse_from_string
  existing_ext text none = []
  existing_ext text (some []) = []
  existing_ext text (some (r ∷ _)) = value_or_empty (map_parse_from_string parse serialize (text r))

  unfoldable pub merged_text :
      (MessageOrm → Str) → List (Str × Str) → Option (List MessageOrm) → Expected Str
  unfolding existing_ext merge_ext map_serialize_as_string
  merged_text text ext rows =
      map_serialize_as_string parse serialize (merge_ext ext (existing_ext text rows))

  module _ (db : Database) (alive : Bool) where
    -- SetMessageSyncExt.
    unfoldable pub set_message_sync_ext : Str → List (Str × Str) → db.Table → Bool × db.Table
    unfolding merged_text write_text
    set_message_sync_ext msg_id sync_ext t =
        if alive
        then write_text db (merged_text (λ r. r.sync_ext) sync_ext (db.get_all_objects msg_id t))
            (λ text r. record r { sync_ext = text }) msg_id t
        else (false, t)

    -- SetMessageLocalExt.
    unfoldable pub set_message_local_ext : Str → List (Str × Str) → db.Table → Bool × db.Table
    unfolding merged_text write_text
    set_message_local_ext msg_id local_ext t =
        if alive
        then write_text db (merged_text (λ r. r.local_ext) local_ext (db.get_all_objects msg_id t))
            (λ text r. record r { local_ext = text }) msg_id t
        else (false, t)

    -- SetMessagePropertys.
    unfoldable pub set_message_propertys : Str → List ℤ → db.Table → Bool × db.Table
    unfolding write_text int32_vector_serialize_as_string
    set_message_propertys msg_id propertys t =
        if alive
        then write_text db (int32_vector_serialize_as_string parse serialize propertys)
            (λ text r. record r { propertys = text }) msg_id t
        else (false, t)
