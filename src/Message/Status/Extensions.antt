-- ===== src/Message/Status/Extensions.antt =====
-- The updates of the extensions and of the properties of a message. The merge is made twice: in the
-- table on what its text holds, and in the cache on what the instance holds.
use roc_im_sdk.Prelude.{◌⊎◌, Bool, List, Str, ℤ}
use roc_im_sdk.Message.JsonText.{JsonValue}
use roc_im_sdk.Message.Table.{Database}
use roc_im_sdk.Message.Table.Extensions.{
  merge_ext, set_message_sync_ext, set_message_local_ext, set_message_propertys,
}
use roc_im_sdk.Message.Status.{Messages, after_db}

module _ (parse : Str → Str ⊎ JsonValue) (serialize : JsonValue → Str) (db : Database)
    (alive : Bool) where
  unfoldable pub update_message_sync_ext_status :
      Str → List (Str × Str) → Messages db → Bool × Messages db
  unfolding after_db merge_ext set_message_sync_ext
  update_message_sync_ext_status msg_id sync_ext d =
      after_db db alive msg_id (λ m. record m { sync_ext = merge_ext sync_ext m.sync_ext })
        (set_message_sync_ext parse serialize db alive msg_id sync_ext d.table) d

  unfoldable pub update_message_local_ext_status :
      Str → List (Str × Str) → Messages db → Bool × Messages db
  unfolding after_db merge_ext set_message_local_ext
  update_message_local_ext_status msg_id local_ext d =
      after_db db alive msg_id (λ m. record m { local_ext = merge_ext local_ext m.local_ext })
        (set_message_local_ext parse serialize db alive msg_id local_ext d.table) d

  unfoldable pub update_message_propertys_status : Str → List ℤ → Messages db → Bool × Messages db
  unfolding after_db set_message_propertys
  update_message_propertys_status msg_id propertys d =
      after_db db alive msg_id (λ m. record m { propertys = propertys })
        (set_message_propertys parse serialize db alive msg_id propertys d.table) d
