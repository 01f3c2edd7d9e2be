-- ===== src/Message/Status.antt =====
-- The status updates of MessageDataSource (imsdk/src/core/message/private/data_source): the table
-- first, then the instance in the cache. Each runs on msg_strand, without a wait in between.
pub mod SetCached
pub mod Coherence
pub mod Extensions
use roc_im_sdk.Prelude.{ℕ, Bool, true, false, Str, Option, none, some, str_eq, if◌then◌else◌}
use roc_im_sdk.UnorderedMap.{find}
use roc_im_sdk.Message.Cache.{Model, Heap, set_object}
use roc_im_sdk.Message.Table.{Database, set_message_pin, set_message_deleted, set_message_recalled}

-- `next` is the number that the next new instance gets.
pub record Messages (db : Database) : Type 0 where
  pub heap : Heap
  pub table : db.Table
  pub next : ℕ

-- A setter of MessageModel, on the instance that `message_cache_.at(msg_id)` finds, if any.
unfoldable pub set_cached : Str → (Model → Model) → Heap → Heap
unfolding find set_object
set_cached msg_id f h = elim (find msg_id h.cache) [
  | none ↦ h
  | some q ↦ set_object q (f (h.objects q)) h
]

-- The three updates as one: the flag, and its value.
pub data Flag : Type 0 where
  pinned : Flag
  deleted : Flag
  recalled : Flag

module _ (db : Database) (alive : Bool) where
  unfoldable pub after_db :
      Str → (Model → Model) → Bool × db.Table → Messages db → Bool × Messages db
  unfolding set_cached
  after_db msg_id f (db_result, t) d =
      if db_result
      then (true, record d { heap = set_cached msg_id f d.heap; table = t })
      else (false, record d { table = t })

  unfoldable pub update_message_pin_status : Str → Bool → Messages db → Bool × Messages db
  unfolding after_db set_message_pin
  update_message_pin_status msg_id is_pinned d =
      after_db msg_id (λ m. record m { is_pinned = is_pinned })
        (set_message_pin db alive msg_id is_pinned d.table) d

  unfoldable pub update_message_deleted_status : Str → Bool → Messages db → Bool × Messages db
  unfolding after_db set_message_deleted
  update_message_deleted_status msg_id is_deleted d =
      after_db msg_id (λ m. record m { is_deleted = is_deleted })
        (set_message_deleted db alive msg_id is_deleted d.table) d

  unfoldable pub update_message_recalled_status : Str → Bool → Messages db → Bool × Messages db
  unfolding after_db set_message_recalled
  update_message_recalled_status msg_id is_recalled d =
      after_db msg_id (λ m. record m { is_recalled = is_recalled })
        (set_message_recalled db alive msg_id is_recalled d.table) d

  unfoldable pub update_status : Flag → Str → Bool → Messages db → Bool × Messages db
  unfolding update_message_pin_status update_message_deleted_status update_message_recalled_status
  update_status pinned msg_id b d = update_message_pin_status msg_id b d
  update_status deleted msg_id b d = update_message_deleted_status msg_id b d
  update_status recalled msg_id b d = update_message_recalled_status msg_id b d
