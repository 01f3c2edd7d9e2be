-- ===== src/Message/Status/Coherence.antt =====
-- The cache and the table agree, and stay in agreement.
use roc_im_sdk.Message.Status.SetCached.{set_cached-find, set_cached-objects}
use roc_im_sdk.Message.Cache.Overlay.{IsKeyed}
use roc_im_sdk.Prelude.{
  ◌≡◌, refl, ◌∙◌, sym, ap, ◌⊎◌, Bool, true, false, ◌&&◌, List, [], ◌∷◌, Option, none, some, Str,
  ◌==◌, str_eq, if◌then◌else◌, arith, ℕ,
}
use roc_im_sdk.UnorderedMap.{find}
use roc_im_sdk.Message.JsonText.{JsonValue}
use roc_im_sdk.Message.Cache.{Model}
use roc_im_sdk.Message.Send.{MessageOrm}
use roc_im_sdk.Message.Table.{
  Database, DatabaseLaws, map_rows, convert_db_msg, first_message, message_for_id, set_message_pin,
  set_message_deleted, set_message_recalled,
}
use roc_im_sdk.Message.Status.{Messages, after_db, Flag, pinned, deleted, recalled, update_status}

abbrev pub with_flag : Flag → Bool → Model → Model
with_flag pinned b m = record m { is_pinned = b }
with_flag deleted b m = record m { is_deleted = b }
with_flag recalled b m = record m { is_recalled = b }

abbrev row_flag : Flag → Bool → MessageOrm → MessageOrm
row_flag pinned b r = record r { is_pinned = b }
row_flag deleted b r = record r { is_deleted = b }
row_flag recalled b r = record r { is_recalled = b }

abbrev pub changed : (Model → Model) → Option Model → Option Model
changed g none = none
changed g (some m) = some (g m)

module _ (parse : Str → Str ⊎ JsonValue) (serialize : JsonValue → Str) (db : Database)
    (laws : DatabaseLaws db) where
  abbrev pub read : Str → db.Table → Option Model
  read j t = message_for_id parse serialize db j t

  -- Each instance in the cache is what the table has for its message.
  abbrev pub IsCoherent : Messages db → Type 0
  IsCoherent d =
      (k : Str) (q : ℕ) → find k d.heap.cache ≡ some q → read k d.table ≡ some (d.heap.objects q)

  convert-row_flag :
      (flag : Flag) (b : Bool) (r : MessageOrm)
      → convert_db_msg parse serialize (row_flag flag b r)
        ≡ with_flag flag b (convert_db_msg parse serialize r)
  unfolding convert_db_msg
  convert-row_flag pinned b r = refl
  convert-row_flag deleted b r = refl
  convert-row_flag recalled b r = refl

  first_message-map_rows :
      (flag : Flag) (b : Bool) (rows : Option (List MessageOrm))
      → first_message parse serialize (map_rows (row_flag flag b) rows)
        ≡ changed (with_flag flag b) (first_message parse serialize rows)
  unfolding first_message
  first_message-map_rows flag b none = refl
  first_message-map_rows flag b (some []) = refl
  first_message-map_rows flag b (some (r ∷ rows)) = ap some (convert-row_flag flag b r)

  row_flag_id :
      (flag : Flag) (b : Bool) (r : MessageOrm)
      → (row_flag flag b r).client_msg_id ≡ r.client_msg_id
  row_flag_id pinned b r = refl
  row_flag_id deleted b r = refl
  row_flag_id recalled b r = refl

  with_flag_id :
      (flag : Flag) (b : Bool) (m : Model) → (with_flag flag b m).client_msg_id ≡ m.client_msg_id
  with_flag_id pinned b m = refl
  with_flag_id deleted b m = refl
  with_flag_id recalled b m = refl

  -- The table's own write.
  abbrev written : Flag → Str → Bool → db.Table → Bool × db.Table
  written flag id b t = db.update_object (row_flag flag b) id t

  read-written :
      (flag : Flag) (id : Str) (b : Bool) (t : db.Table) (j : Str)
      → read j (written flag id b t).1 ≡ (
          if (written flag id b t).0 && id == j
          then changed (with_flag flag b) (read j t)
          else read j t)
  unfolding message_for_id
  read-written flag id b t j =
      ap (first_message parse serialize)
        (laws.get_update (row_flag flag b) id j t (row_flag_id flag b))
      ∙ ground (arith, first_message-map_rows flag b (db.get_all_objects j t))

  first_message_id :
      (k : Str) (t : db.Table) (m : Model) (rows : Option (List MessageOrm))
      → db.get_all_objects k t ≡ rows
      → first_message parse serialize rows ≡ some m
      → m.client_msg_id ≡ k
  unfolding first_message convert_db_msg
  first_message_id k t m none e h = cc h
  first_message_id k t m (some []) e h = cc h
  first_message_id k t m (some (r ∷ rows)) e h =
      let same : convert_db_msg parse serialize r ≡ m = ground arith in
      ap (λ n. n.client_msg_id) (sym same) ∙ laws.get_id k r rows t e

  pub read_id : (k : Str) (t : db.Table) (m : Model) → read k t ≡ some m → m.client_msg_id ≡ k
  unfolding message_for_id
  read_id k t m h = first_message_id k t m (db.get_all_objects k t) refl h

  abbrev after : Flag → Str → Bool → Messages db → Bool × Messages db
  after flag id b d = after_db db true id (with_flag flag b) (written flag id b d.table) d

  module _ (flag : Flag) (id : Str) (b : Bool) (d : Messages db) (coherent : IsCoherent d) where
    keyed : IsKeyed d.heap
    keyed k q hit = read_id k d.table (d.heap.objects q) (coherent k q hit)

    after_lem :
        (ok : Bool)
        → (written flag id b d.table).0 ≡ ok
        → IsCoherent
            (after_db db true id (with_flag flag b) (ok, (written flag id b d.table).1) d).1
    unfolding after_db
    after_lem false h k q hit = read-written flag id b d.table k ∙ rw h (coherent k q hit)
    after_lem true h k q hit =
        let there = sym (set_cached-find id (with_flag flag b) d.heap k) ∙ hit in
        read-written flag id b d.table k
        ∙ rw h (
            ground (
              arith,
              coherent k q there,
              set_cached-objects id (with_flag flag b) d.heap keyed k q there,
            ))

  -- What an update comes to.
  abbrev pub IsOutcome : Bool → Flag → Str → Bool → Messages db → Bool × Messages db → Type 0
  IsOutcome alive flag id b d r =
      IsCoherent r.1
      × (r.0 ≡ (alive && (written flag id b d.table).0))
      × ((j : Str)
          → read j r.1.table ≡ (
              if r.0 && id == j
              then changed (with_flag flag b) (read j d.table)
              else read j d.table))

  after-IsOutcome :
      (flag : Flag) (id : Str) (b : Bool) (d : Messages db) (ok : Bool)
      → IsCoherent d
      → (written flag id b d.table).0 ≡ ok
      → IsOutcome true flag id b d
          (after_db db true id (with_flag flag b) (ok, (written flag id b d.table).1) d)
  unfolding after_db
  after-IsOutcome flag id b d false coherent h = (
    after_lem flag id b d coherent false h,
    sym h,
    λ j. read-written flag id b d.table j ∙ rw h refl,
  )
  after-IsOutcome flag id b d true coherent h = (
    after_lem flag id b d coherent true h,
    sym h,
    λ j. read-written flag id b d.table j ∙ rw h refl,
  )

  -- An update of the pinned, deleted or recalled flag of a message, where every instance in the cache
  -- was what the table has for its message: this still holds afterwards; the update returns
  -- whether SDKRoot was there and the table took the write; and if it did, the table has the flag
  -- of that message with the new value and everything else as before, and if not, all as before.
  pub update_status_lem :
      (alive : Bool) (flag : Flag) (id : Str) (b : Bool) (d : Messages db)
      → IsCoherent d
      → IsOutcome alive flag id b d (update_status db alive flag id b d)
  unfolding update_status after_db set_message_pin set_message_deleted set_message_recalled
  update_status_lem false pinned id b d coherent = (coherent, refl, λ j. refl)
  update_status_lem false deleted id b d coherent = (coherent, refl, λ j. refl)
  update_status_lem false recalled id b d coherent = (coherent, refl, λ j. refl)
  update_status_lem true pinned id b d coherent =
      after-IsOutcome pinned id b d (written pinned id b d.table).0 coherent refl
  update_status_lem true deleted id b d coherent =
      after-IsOutcome deleted id b d (written deleted id b d.table).0 coherent refl
  update_status_lem true recalled id b d coherent =
      after-IsOutcome recalled id b d (written recalled id b d.table).0 coherent refl
