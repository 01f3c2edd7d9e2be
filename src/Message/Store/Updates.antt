-- ===== src/Message/Store/Updates.antt =====
-- The updates of single messages keep a good state.
use roc_im_sdk.Prelude.{
  ◌≡◌, refl, ◌∙◌, sym, ap, ◌≢◌, ◌⊎◌, inl, inr, Bool, true, false, Bool-cases, List, [], ◌∷◌, Option,
  none, some, Str, ℤ, str_eq, ◌==◌, if◌then◌else◌, arith, All, ◌&&◌, subst, map, str_beq_iff,
}
use roc_im_sdk.UnorderedMap.{find, IsDistinct}
use roc_im_sdk.Message.JsonText.{
  JsonValue, JsonObject, array, object, end, put_all, int_items, map_serialize_as_string,
  int32_vector_serialize_as_string, int32_vector_parse_from_string,
}
use roc_im_sdk.Message.JsonText.Maps.{IsPrintable, texts_object}
use roc_im_sdk.Message.JsonText.Vectors.{IsInt32, vector_round_trip}
use roc_im_sdk.Message.Cache.{Model}
use roc_im_sdk.Message.Send.{MessageOrm}
use roc_im_sdk.Message.Table.{
  Database, DatabaseLaws, convert_db_msg, first_message, message_for_id, value_or_empty,
  set_message_pin, set_message_deleted, set_message_recalled,
}
use roc_im_sdk.Message.Table.Extensions.{
  merge_ext, existing_ext, merged_text, set_message_sync_ext, set_message_local_ext,
  set_message_propertys,
}
use roc_im_sdk.Message.Table.Merge.{find-merge_ext, find-merged_text, parsed, IsUtf8Object}
use roc_im_sdk.Message.Status.{
  Messages, set_cached, after_db, Flag, pinned, deleted, recalled, update_status,
}
use roc_im_sdk.Message.Status.SetCached.{set_cached-find, set_cached-objects}
use roc_im_sdk.Message.Status.Extensions.{
  update_message_sync_ext_status, update_message_local_ext_status, update_message_propertys_status,
}
use roc_im_sdk.Message.Store.Same.{Same, Stored, IsGood, IsGood-IsKeyed}

module _ (parse : Str → Str ⊎ JsonValue) (serialize : JsonValue → Str) (db : Database)
    (laws : DatabaseLaws db) where
  abbrev convert : MessageOrm → Model
  convert = convert_db_msg parse serialize

  abbrev Good : Messages db → Type 0
  Good = IsGood parse serialize db laws

  stored_row :
      (k : Str) (t : db.Table) (m : Model) (rows : Option (List MessageOrm))
      → db.get_all_objects k t ≡ rows
      → first_message parse serialize rows ≡ some m
      → (r : MessageOrm) × (rest : List MessageOrm) × (db.get_all_objects k t ≡ some (r ∷ rest))
        × (convert r ≡ m)
  unfolding first_message
  stored_row k t m none e h = absurd (cc h)
  stored_row k t m (some []) e h = absurd (cc h)
  stored_row k t m (some (r ∷ rest)) e h = (r, rest, e, cc h)

  -- A write to the rows of one message, and the change to its instance that goes with it.
  module _ (f : MessageOrm → MessageOrm) (g : Model → Model) (id : Str) (d : Messages db)
      (good : Good d) (keeps_id : (r : MessageOrm) → (f r).client_msg_id ≡ r.client_msg_id)
      (agree : (r : MessageOrm) (rest : List MessageOrm) (m : Model)
        → db.get_all_objects id d.table ≡ some (r ∷ rest)
        → Same (convert r) m
        → Same (convert (f r)) (g m)) where
    abbrev write : Bool × db.Table
    write = db.update_object f id d.table

    Stored-write :
        (ok : Bool) (k : Str) (v : Model)
        → write.0 ≡ ok
        → Stored parse serialize db laws k d.table v
        → Stored parse serialize db laws k write.1 (if ok && id == k then g v else v)
    unfolding message_for_id first_message
    Stored-write ok k v h (m, e, s) =
        let (r, rest, rows, c) = stored_row k d.table m (db.get_all_objects k d.table) refl e in
        elim (Bool-cases (ok && id == k)) [
          | inl both ↦
              let here : id ≡ k = ground (arith, str_beq_iff id k) in
              let at_id : db.get_all_objects id d.table ≡ some (r ∷ rest) =
                ap (λ j. db.get_all_objects j d.table) here ∙ rows in
              let after : db.get_all_objects k write.1 ≡ some (f r ∷ map f rest) =
                ground (arith, laws.get_update f id k d.table keeps_id, rows, h, both) in
              rw both (
                convert (f r),
                ap (first_message parse serialize) after,
                agree r rest v at_id (subst (λ x. Same x v) (sym c) s),
              )
          | inr neither ↦
              let after : db.get_all_objects k write.1 ≡ db.get_all_objects k d.table =
                ground (arith, laws.get_update f id k d.table keeps_id, h, neither) in
              rw neither (m, ap (first_message parse serialize) after ∙ e, s)
        ]

    after_write : (ok : Bool) → write.0 ≡ ok → Good (after_db db true id g (ok, write.1) d).1
    unfolding after_db
    after_write false h = record {
      synced = λ k q hit. Stored-write false k (d.heap.objects q) h (good.synced k q hit);
      below = good.below;
    }
    after_write true h = record {
      synced = λ k q hit.
          let there = sym (set_cached-find id g d.heap k) ∙ hit in
          let stored = Stored-write true k (d.heap.objects q) h (good.synced k q there) in
          let object : (if id == k then g (d.heap.objects q) else d.heap.objects q)
              ≡ (set_cached id g d.heap).objects q =
            ground (
              arith,
              set_cached-objects id g d.heap (IsGood-IsKeyed parse serialize db laws d good) k q
                  there,
            ) in
          subst (Stored parse serialize db laws k write.1) object stored;
      below = λ k q hit. good.below k q (sym (set_cached-find id g d.heap k) ∙ hit);
    }

    pub after_update : Good (after_db db true id g write d).1
    after_update = after_write write.0 refl

  pub flag-IsGood :
      (alive : Bool) (flag : Flag) (id : Str) (b : Bool) (d : Messages db)
      → Good d
      → Good (update_status db alive flag id b d).1
  unfolding update_status after_db set_message_pin set_message_deleted set_message_recalled
      convert_db_msg
  flag-IsGood false pinned id b d good = record { synced = good.synced; below = good.below }
  flag-IsGood false deleted id b d good = record { synced = good.synced; below = good.below }
  flag-IsGood false recalled id b d good = record { synced = good.synced; below = good.below }
  flag-IsGood true pinned id b d good =
      after_update (λ r. record r { is_pinned = b }) (λ m. record m { is_pinned = b }) id d good
        (λ r. refl) (λ r rest m e s. (ap (λ (x : Model). record x { is_pinned = b }) s.0, s.1, s.2))
  flag-IsGood true deleted id b d good =
      after_update (λ r. record r { is_deleted = b }) (λ m. record m { is_deleted = b }) id d good
        (λ r. refl)
        (λ r rest m e s. (ap (λ (x : Model). record x { is_deleted = b }) s.0, s.1, s.2))
  flag-IsGood true recalled id b d good =
      after_update (λ r. record r { is_recalled = b }) (λ m. record m { is_recalled = b }) id d good
        (λ r. refl)
        (λ r rest m e s. (ap (λ (x : Model). record x { is_recalled = b }) s.0, s.1, s.2))

  module _
      (map_back : (m : List (Str × Str))
        → IsDistinct m
        → IsPrintable m
        → parse (serialize (object (texts_object m))) ≡ inr (object (texts_object m)))
      (vector_back : (v : List ℤ)
        → All IsInt32 v
        → parse (serialize (array (int_items v))) ≡ inr (array (int_items v)))
      (reads_utf8 : (t : Str) (o : JsonObject)
        → parse t ≡ inr (object o)
        → IsUtf8Object parse serialize o)
      (inhabited : (v : JsonValue) → serialize v ≢ []) where
    -- The text that a merge writes into a row, read back, has the entries of the merge into an
    -- instance that has the entries of the row.
    merge_agrees :
        (text : MessageOrm → Str) (id : Str) (t : db.Table) (ext own : List (Str × Str))
        (r : MessageOrm) (rest : List MessageOrm)
        → IsPrintable ext
        → db.get_all_objects id t ≡ some (r ∷ rest)
        → ((k : Str) → find k (parsed parse serialize (text r)) ≡ find k own)
        → (k : Str)
        → find k (
            parsed parse serialize (
              serialize (
                object (
                  put_all
                    (merge_ext ext (existing_ext parse serialize text (db.get_all_objects id t)))
                    end))))
          ≡ find k (merge_ext ext own)
    unfolding existing_ext
    merge_agrees text id t ext own r rest p e same k = rw e (
        find-merged_text parse serialize map_back reads_utf8 inhabited k (text r) ext p
        ∙ find-merge_ext k ext (parsed parse serialize (text r)) own same)

    pub sync_ext-IsGood :
        (alive : Bool) (id : Str) (ext : List (Str × Str)) (d : Messages db)
        → IsPrintable ext
        → Good d
        → Good (update_message_sync_ext_status parse serialize db alive id ext d).1
    unfolding update_message_sync_ext_status set_message_sync_ext merged_text
        map_serialize_as_string convert_db_msg
    sync_ext-IsGood false id ext d p good = record { synced = good.synced; below = good.below }
    sync_ext-IsGood true id ext d p good =
        after_update _ (λ m. record m { sync_ext = merge_ext ext m.sync_ext }) id d good (λ r. refl)
          λ r rest m e s.
            (s.0, merge_agrees (λ x. x.sync_ext) id d.table ext m.sync_ext r rest p e s.1, s.2)

    pub local_ext-IsGood :
        (alive : Bool) (id : Str) (ext : List (Str × Str)) (d : Messages db)
        → IsPrintable ext
        → Good d
        → Good (update_message_local_ext_status parse serialize db alive id ext d).1
    unfolding update_message_local_ext_status set_message_local_ext merged_text
        map_serialize_as_string convert_db_msg
    local_ext-IsGood false id ext d p good = record { synced = good.synced; below = good.below }
    local_ext-IsGood true id ext d p good =
        after_update _ (λ m. record m { local_ext = merge_ext ext m.local_ext }) id d good
          (λ r. refl)
          λ r rest m e s.
            (s.0, s.1, merge_agrees (λ x. x.local_ext) id d.table ext m.local_ext r rest p e s.2)

    pub propertys-IsGood :
        (alive : Bool) (id : Str) (propertys : List ℤ) (d : Messages db)
        → All IsInt32 propertys
        → Good d
        → Good (update_message_propertys_status parse serialize db alive id propertys d).1
    unfolding update_message_propertys_status set_message_propertys int32_vector_serialize_as_string
        convert_db_msg value_or_empty
    propertys-IsGood false id vec d h good = record { synced = good.synced; below = good.below }
    propertys-IsGood true id vec d h good =
        let (text, printed, back) = vector_round_trip parse serialize vector_back inhabited vec h in
        let text_eq : serialize (array (int_items vec)) ≡ text = cc printed in
        let read_vec : value_or_empty
              (int32_vector_parse_from_string parse serialize (serialize (array (int_items vec))))
            ≡ vec =
          rw text_eq (ap value_or_empty back) in
        after_update _ (λ m. record m { propertys = vec }) id d good (λ r. refl)
          λ r rest m e s. (λ i. record (s.0 i) { propertys = read_vec i }, s.1, s.2)
