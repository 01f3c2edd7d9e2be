-- ===== src/Conversation/Store/Undelete.antt =====
-- The update of the deleted status to false.
use roc_im_sdk.Conversation.Model.{ConvModel}
use roc_im_sdk.Prelude.{
  ℕ, ◌≡◌, refl, ◌∙◌, ap, sym, subst, Bool, true, false, List, ◌∷◌, some, Str, str_eq, str_beq_iff,
  eqb_iff, map,
}
use roc_im_sdk.UnorderedMap.{find}
use roc_im_sdk.Message.Table.{Database}
use roc_im_sdk.Conversation.Table.{
  ConversationOrm, ConvDatabase, ConvLaws, map_rows, delete_conversation,
}
use roc_im_sdk.Conversation.Store.{
  Conversations, set_object, set_cached, after_db, update_conversation_deleted_status,
}
use roc_im_sdk.Conversation.Store.Setting.{IsSynced, written, reads_same, set_deleted}

module _ (db : ConvDatabase) (laws : ConvLaws db) (mdb : Database) where
  -- The row is marked as deleted, the instance is not.
  abbrev pub Differs : Str → ℕ → Conversations db mdb → Type 0
  Differs id q d' =
      ((d'.objects q).is_deleted ≡ false)
      × ((r : ConversationOrm) × (rows : List ConversationOrm) × (db.get_all_objects id d'.table
            ≡ some (r ∷ rows))
          × (r.is_deleted ≡ true))

  set_cached_found :
      (id : Str) (q : ℕ) (f : ConvModel → ConvModel) (d : Conversations db mdb)
      → find id d.cache ≡ some q
      → set_cached id f d ≡ set_object q (f (d.objects q)) d
  unfolding set_cached
  set_cached_found id q f d hit = rw (hit, set_cached) refl

  undelete_after :
      (d : Conversations db mdb) (id : Str) (q : ℕ) (ok : Bool) (s : IsSynced db mdb d)
      → find id d.cache ≡ some q
      → (written db laws mdb set_deleted id d s).0 ≡ ok
      → ok ≡ true
      → Differs id q
          (after_db id
            (λ m. record m { is_deleted = false })
            (ok, (written db laws mdb set_deleted id d s).1)
            d).1
  unfolding after_db
  undelete_after d id q false s hit e ok = cc ok
  undelete_after d id q true s hit e ok =
      let (r, rows, read, flags) = (s id q hit).1 in
      let t = (written db laws mdb set_deleted id d s).1 in
      subst (Differs id q)
        (sym (
          set_cached_found id q (λ m. record m { is_deleted = false }) (record d { table = t })
            hit))
        (unfold set_object in
          (
            rw ((eqb_iff q q).1 refl) refl,
            (
              set_deleted.row r,
              map set_deleted.row rows,
              reads_same db laws mdb set_deleted id d s id (rw (e, (str_beq_iff id id).1 refl) refl)
                  ∙ ap (map_rows set_deleted.row) read,
              refl,
            ),
          ))

  -- While SDKRoot is there, and where every cached instance has the settings of its row and one is
  -- cached for the conversation: if the table takes the write, the update of the deleted status to
  -- false marks the row as deleted, and the instance as not deleted.
  pub undelete-Differs :
      (d : Conversations db mdb) (id : Str) (q : ℕ)
      → IsSynced db mdb d
      → find id d.cache ≡ some q
      → (delete_conversation db true id d.table).0 ≡ true
      → Differs id q (update_conversation_deleted_status db mdb true id false d).1
  unfolding update_conversation_deleted_status delete_conversation
  undelete-Differs d id q s hit ok =
      undelete_after d id q (written db laws mdb set_deleted id d s).0 s hit refl ok
