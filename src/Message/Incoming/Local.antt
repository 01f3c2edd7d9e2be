-- ===== src/Message/Incoming/Local.antt =====
-- The fields that only the client has, over a save of messages of the network.
use roc_im_sdk.Prelude.{
  ℕ, ◌≡◌, refl, ◌∙◌, ap, sym, Bool, true, false, ◌&&◌, ◌⊎◌, List, [], ◌∷◌, map, Option, none, some,
  Str, ℤ, pos, ltb_ℤ, All, ◌==◌, str_eq, str_beq_iff, Bool-cases, inl, inr, arith, subst,
}
use roc_im_sdk.Message.JsonText.{JsonValue}
use roc_im_sdk.Message.Send.{MessageOrm}
use roc_im_sdk.Message.Table.{
  Database, DatabaseLaws, convert_db_msg, insert_all, insert_or_replace_message,
}
use roc_im_sdk.Message.Status.{Messages}
use roc_im_sdk.Message.Store.{make_copies, cache_copies, after_insert, save_to_db}
use roc_im_sdk.Message.Store.Copies.{copied, copied-table}
use roc_im_sdk.Message.Incoming.{
  IncomingMessage, network_row, merge_row, message_merge_with_local, convert_net_msg_to_db_msg,
  save_net_messages,
}

merge_row_id :
    (o : Option MessageOrm) (row : MessageOrm) → (merge_row o row).client_msg_id ≡ row.client_msg_id
unfolding merge_row
merge_row_id none row = refl
merge_row_id (some old) row = refl

-- The message has a row with this order and this local extension.
abbrev pub HasLocal : (db : Database) → Str → ℤ → Str → db.Table → Type 0
HasLocal db id order local_ext t =
    (r : MessageOrm) × (rows : List MessageOrm) × (db.get_all_objects id t ≡ some (r ∷ rows))
    × (r.client_order_index ≡ order)
    × (r.local_ext ≡ local_ext)

module _ (db : Database) (laws : DatabaseLaws db) (get_first : Str → db.Table → Option MessageOrm)
    (first_row : (k : Str) (r : MessageOrm) (rows : List MessageOrm) (t : db.Table)
      → db.get_all_objects k t ≡ some (r ∷ rows)
      → get_first k t ≡ some r)
    (id : Str) (order : ℤ) (positive : ltb_ℤ (pos 0) order ≡ true) (local_ext : Str) where
  abbrev Has : db.Table → Type 0
  Has t = HasLocal db id order local_ext t

  -- A row that is to be inserted for the message has the fields.
  abbrev Merged : MessageOrm → Type 0
  Merged r = r.client_msg_id ≡ id → (r.client_order_index ≡ order) × (r.local_ext ≡ local_ext)

  insert_one :
      (r : MessageOrm) (t : db.Table) → Merged r → Has t → Has (db.insert_or_replace_object r t).1
  insert_one r t m (old, rows, read, o, l) =
      elim (Bool-cases ((db.insert_or_replace_object r t).0 && r.client_msg_id == id)) [
        | inl e ↦
            let same = (str_beq_iff r.client_msg_id id).0 (ground (arith, e)) in
            (r, [], laws.get_insert r id t ∙ rw e refl, (m same).0, (m same).1)
        | inr e ↦ (old, rows, laws.get_insert r id t ∙ rw e read, o, l)
      ]

  insert_all_keeps :
      (rs : List MessageOrm) (t : db.Table)
      → All Merged rs
      → Has t
      → Has (insert_all db true rs t).1
  unfolding insert_all
  insert_all_keeps [] t m h = h
  insert_all_keeps (r ∷ rs) t m h =
      insert_all_keeps rs (db.insert_or_replace_object r t).1 m.1 (insert_one r t m.0 h)

  inserted_keeps :
      (rs : List MessageOrm) (t : db.Table)
      → All Merged rs
      → Has t
      → Has (insert_or_replace_message db true rs t).1
  unfolding insert_or_replace_message
  inserted_keeps rs t m h = elim (Bool-cases (db.run_transaction (insert_all db true rs) t).0) [
    | inl e ↦
        let (r, rows, read, o, l) = insert_all_keeps rs t m h in
        (r, rows, (laws.get_commit (insert_all db true rs) id t e).1 ∙ read, o, l)
    | inr e ↦
        let (r, rows, read, o, l) = h in
        (r, rows, laws.get_rollback (insert_all db true rs) id t e ∙ read, o, l)
  ]

  convert-Merged :
      (msg : IncomingMessage) (t : db.Table)
      → Has t
      → Merged (convert_net_msg_to_db_msg db get_first true msg t)
  unfolding convert_net_msg_to_db_msg message_merge_with_local
  convert-Merged msg t (r, rows, read, o, l) e =
      let row = network_row msg in
      let same : row.client_msg_id ≡ id =
        sym (merge_row_id (get_first row.client_msg_id t) row) ∙ e in
      let first : get_first row.client_msg_id t ≡ some r =
        ap (λ k. get_first k t) same ∙ first_row id r rows t read in
      let keeps : ltb_ℤ (pos 0) r.client_order_index ≡ true =
        ap (λ n. ltb_ℤ (pos 0) n) o ∙ positive in
      unfold merge_row in
      (
        ap (λ q. (merge_row q row).client_order_index) first ∙ rw keeps o,
        ap (λ q. (merge_row q row).local_ext) first ∙ l,
      )

  module _ (parse : Str → Str ⊎ JsonValue) (serialize : JsonValue → Str) where
    after_insert-table :
        (r : Bool × db.Table) (copies : List (Option ℕ)) (d : Messages db)
        → (after_insert parse serialize db true r copies d).1.table ≡ r.1
    unfolding after_insert cache_copies
    after_insert-table (true, t) copies d = refl
    after_insert-table (false, t) copies d = refl

    save_to_db-table :
        (rows : List MessageOrm) (d : Messages db)
        → (save_to_db parse serialize db true rows d).1.table
          ≡ (insert_or_replace_message db true rows d.table).1
    unfolding save_to_db
    save_to_db-table rows d =
        let ms = map (convert_db_msg parse serialize) rows in
        after_insert-table (insert_or_replace_message db true rows (copied ms d).table)
          (make_copies ms d).0 (copied ms d)
        ∙ ap (λ t. (insert_or_replace_message db true rows t).1) (copied-table ms d)

    merged :
        (msgs : List IncomingMessage) (t : db.Table)
        → Has t
        → All Merged (map (λ m. convert_net_msg_to_db_msg db get_first true m t) msgs)
    merged [] t h = tt
    merged (m ∷ msgs) t h = (convert-Merged m t h, merged msgs t h)

    -- While SDKRoot is there, and where the first row is what the read of all rows begins with: a save
    -- of any batch of messages of the network, whether the table takes it or not, keeps the local
    -- extension and the order of every message that has a row with an order above 0.
    pub save_net_messages_keeps :
        (msgs : List IncomingMessage) (d : Messages db)
        → HasLocal db id order local_ext d.table
        → HasLocal db id order local_ext
            (save_net_messages db get_first true parse serialize msgs d).1.table
    unfolding save_net_messages
    save_net_messages_keeps msgs d h =
        let rows = map (λ m. convert_net_msg_to_db_msg db get_first true m d.table) msgs in
        subst (λ t. Has t) (sym (save_to_db-table rows d))
          (inserted_keeps rows d.table (merged msgs d.table h) h)
