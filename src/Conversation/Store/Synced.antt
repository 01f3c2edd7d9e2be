-- ===== src/Conversation/Store/Synced.antt =====
-- The updates of the conversations keep their settings in agreement.
use roc_im_sdk.Conversation.Model.{ConvModel}
use roc_im_sdk.Network.Message.{Expected, value, unexpected}
use roc_im_sdk.Message.JsonText.{JsonValue, map_serialize_as_string}
use roc_im_sdk.Message.Table.Extensions.{merge_ext}
use roc_im_sdk.Prelude.{◌≡◌, refl, subst, Bool, true, false, List, [], ◌∷◌, Str, str_eq, ◌⊎◌}
use roc_im_sdk.Message.Table.{Database}
use roc_im_sdk.Conversation.Table.{
  ConversationOrm, ConvDatabase, ConvLaws, set_conversation_top, set_conversation_mute,
  set_conversation_block, delete_conversation, set_conversation_sync_ext,
  set_conversation_local_ext, existing_ext, write_text,
}
use roc_im_sdk.Conversation.Store.{
  Conversations, after_db, update_conversation_top_status, update_conversation_mute_status,
  update_conversation_block_status, update_conversation_deleted_status,
  update_conversation_sync_ext_status, update_conversation_local_ext_status,
}
use roc_im_sdk.Conversation.Store.Setting.{
  IsSynced, Setting, written, after_db-IsSynced, set_top, set_mute, set_block, set_deleted,
  set_sync_ext, set_local_ext,
}

-- The updates; a deletion is the update of the deleted status to true.
pub data Update : Type 0 where
  tops : Str → Bool → Update
  mutes : Str → Bool → Update
  blocks : Str → Bool → Update
  deletes : Str → Update
  sets_sync_ext : Str → List (Str × Str) → Update
  sets_local_ext : Str → List (Str × Str) → Update

module _ (parse : Str → Str ⊎ JsonValue) (serialize : JsonValue → Str) (db : ConvDatabase)
    (mdb : Database) (alive : Bool) where
  abbrev pub update : Update → Conversations db mdb → Conversations db mdb
  update (tops id b) d = (update_conversation_top_status db mdb alive id b d).1
  update (mutes id b) d = (update_conversation_mute_status db mdb alive id b d).1
  update (blocks id b) d = (update_conversation_block_status db mdb alive id b d).1
  update (deletes id) d = (update_conversation_deleted_status db mdb alive id true d).1
  update (sets_sync_ext id ext) d =
      (update_conversation_sync_ext_status parse serialize db mdb alive id ext d).1
  update (sets_local_ext id ext) d =
      (update_conversation_local_ext_status parse serialize db mdb alive id ext d).1

  abbrev pub run : List Update → Conversations db mdb → Conversations db mdb
  run [] d = d
  run (u ∷ us) d = run us (update u d)

module _ (db : ConvDatabase) (laws : ConvLaws db) (mdb : Database) where
  -- The write of a setting, and its move into the instance.
  setting-IsSynced :
      (s : Setting) (id : Str) (d : Conversations db mdb)
      → IsSynced db mdb d
      → IsSynced db mdb (after_db id s.model (db.update_object s.row id d.table) d).1
  setting-IsSynced s id d synced =
      after_db-IsSynced db laws mdb s id d synced (written db laws mdb s id d synced).0 refl

  -- The write of a text, where there is one.
  text-IsSynced :
      (parse : Str → Str ⊎ JsonValue) (serialize : JsonValue → Str) (e : Expected Str)
      (s : Str → Setting) (set : Str → ConversationOrm → ConversationOrm)
      (f : ConvModel → ConvModel) (id : Str) (d : Conversations db mdb)
      → ((text : Str) → (s text).row ≡ set text)
      → ((text : Str) → (s text).model ≡ f)
      → IsSynced db mdb d
      → IsSynced db mdb (after_db id f (write_text parse serialize db true e set id d.table) d).1
  unfolding write_text
  text-IsSynced parse serialize (value text) s set f id d p q synced =
      subst (λ g. IsSynced db mdb (after_db id f (db.update_object g id d.table) d).1) (p text)
        (subst (λ g. IsSynced db mdb (after_db id g (db.update_object (s text).row id d.table) d).1)
          (q text) (setting-IsSynced (s text) id d synced))
  text-IsSynced parse serialize (unexpected _) s set f id d p q synced = unfold after_db in synced

  module _ (parse : Str → Str ⊎ JsonValue) (serialize : JsonValue → Str) where
    update-IsSynced :
        (alive : Bool) (u : Update) (d : Conversations db mdb)
        → IsSynced db mdb d
        → IsSynced db mdb (update parse serialize db mdb alive u d)
    unfolding update_conversation_top_status update_conversation_mute_status
        update_conversation_block_status update_conversation_deleted_status set_conversation_top
        set_conversation_mute set_conversation_block delete_conversation
        update_conversation_sync_ext_status update_conversation_local_ext_status
        set_conversation_sync_ext set_conversation_local_ext
    update-IsSynced false (tops id b) d s = unfold after_db in s
    update-IsSynced false (mutes id b) d s = unfold after_db in s
    update-IsSynced false (blocks id b) d s = unfold after_db in s
    update-IsSynced false (deletes id) d s = unfold after_db in s
    update-IsSynced false (sets_sync_ext id ext) d s = unfold after_db in s
    update-IsSynced false (sets_local_ext id ext) d s = unfold after_db in s
    update-IsSynced true (tops id b) d s = setting-IsSynced (set_top b) id d s
    update-IsSynced true (mutes id b) d s = setting-IsSynced (set_mute b) id d s
    update-IsSynced true (blocks id b) d s = setting-IsSynced (set_block b) id d s
    update-IsSynced true (deletes id) d s = setting-IsSynced set_deleted id d s
    update-IsSynced true (sets_sync_ext id ext) d s =
        text-IsSynced parse serialize
          (map_serialize_as_string parse serialize (
            merge_ext ext
              (existing_ext parse serialize (λ r. r.sync_ext) (db.get_all_objects id d.table))))
          (λ text. set_sync_ext text ext) (λ text r. record r { sync_ext = text })
          (λ m. record m { sync_ext = merge_ext ext m.sync_ext }) id d (λ text. refl) (λ text. refl)
          s
    update-IsSynced true (sets_local_ext id ext) d s =
        text-IsSynced parse serialize
          (map_serialize_as_string parse serialize (
            merge_ext ext
              (existing_ext parse serialize (λ r. r.local_ext) (db.get_all_objects id d.table))))
          (λ text. set_local_ext text ext) (λ text r. record r { local_ext = text })
          (λ m. record m { local_ext = merge_ext ext m.local_ext }) id d (λ text. refl)
          (λ text. refl) s

    -- Any sequence of the updates of the top, mute and block status and of the extensions, and of
    -- deletions, whether SDKRoot is there and whether the table takes the writes: each instance in
    -- the cache stands under its id and has the four settings of its row, if this was so before.
    pub run-IsSynced :
        (alive : Bool) (us : List Update) (d : Conversations db mdb)
        → IsSynced db mdb d
        → IsSynced db mdb (run parse serialize db mdb alive us d)
    run-IsSynced alive [] d s = s
    run-IsSynced alive (u ∷ us) d s =
        run-IsSynced alive us (update parse serialize db mdb alive u d)
          (update-IsSynced alive u d s)
