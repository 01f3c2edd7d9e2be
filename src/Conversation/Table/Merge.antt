-- ===== src/Conversation/Table/Merge.antt =====
-- The fields that only the client has, over a save.
use roc_im_sdk.Prelude.{
  ◌≡◌, refl, ◌∙◌, ap, sym, true, ◌&&◌, List, [], ◌∷◌, map, Option, none, some, Str, All, ◌==◌,
  str_eq, str_beq_iff, Bool-cases, inl, inr, arith,
}
use roc_im_sdk.Conversation.Data.{ConversationData}
use roc_im_sdk.Conversation.Table.{
  ConversationOrm, ConvDatabase, ConvLaws, network_row, merge_row, insert_all, insert_conversation,
  conversation_merge_with_local, convert_net_conv_to_db_conv,
}

merge_row_id :
    (o : Option ConversationOrm) (row : ConversationOrm)
    → (merge_row o row).conversation_id ≡ row.conversation_id
unfolding merge_row
merge_row_id none row = refl
merge_row_id (some old) row = refl

-- The conversation has a row with these two fields.
abbrev pub HasLocal : (db : ConvDatabase) → Str → Str → Str → db.Table → Type 0
HasLocal db d local_ext draft t =
    (r : ConversationOrm) × (rows : List ConversationOrm) × (db.get_all_objects d t
      ≡ some (r ∷ rows))
    × (r.local_ext ≡ local_ext)
    × (r.draft ≡ draft)

module _ (db : ConvDatabase) (laws : ConvLaws db) (d local_ext draft : Str) where
  abbrev Has : db.Table → Type 0
  Has t = HasLocal db d local_ext draft t

  -- A row that is to be inserted for the conversation has the fields.
  abbrev Merged : ConversationOrm → Type 0
  Merged r = r.conversation_id ≡ d → (r.local_ext ≡ local_ext) × (r.draft ≡ draft)

  insert_one :
      (r : ConversationOrm) (t : db.Table)
      → Merged r
      → Has t
      → Has (db.insert_or_replace_object r t).1
  insert_one r t m (old, rows, read, l, dr) =
      elim (Bool-cases ((db.insert_or_replace_object r t).0 && r.conversation_id == d)) [
        | inl e ↦
            let same = (str_beq_iff r.conversation_id d).0 (ground (arith, e)) in
            (r, [], laws.get_insert r d t ∙ rw e refl, (m same).0, (m same).1)
        | inr e ↦ (old, rows, laws.get_insert r d t ∙ rw e read, l, dr)
      ]

  insert_all_keeps :
      (rs : List ConversationOrm) (t : db.Table)
      → All Merged rs
      → Has t
      → Has (insert_all db true rs t).1
  unfolding insert_all
  insert_all_keeps [] t m h = h
  insert_all_keeps (r ∷ rs) t m h =
      insert_all_keeps rs (db.insert_or_replace_object r t).1 m.1 (insert_one r t m.0 h)

  -- A transaction keeps what its body keeps.
  insert_conversation_keeps :
      (rs : List ConversationOrm) (t : db.Table)
      → All Merged rs
      → Has t
      → Has (insert_conversation db true rs t).1
  unfolding insert_conversation
  insert_conversation_keeps rs t m h =
      elim (Bool-cases (db.run_transaction (insert_all db true rs) t).0) [
        | inl e ↦
            let (r, rows, read, l, dr) = insert_all_keeps rs t m h in
            (r, rows, (laws.get_commit (insert_all db true rs) d t e).1 ∙ read, l, dr)
        | inr e ↦
            let (r, rows, read, l, dr) = h in
            (r, rows, laws.get_rollback (insert_all db true rs) d t e ∙ read, l, dr)
      ]

  convert-Merged :
      (conv : ConversationData) (t : db.Table)
      → Has t
      → Merged (convert_net_conv_to_db_conv db true conv t)
  unfolding convert_net_conv_to_db_conv conversation_merge_with_local network_row
  convert-Merged conv t (r, rows, read, l, dr) e =
      let same : conv.conv_id ≡ d =
        sym (merge_row_id (db.get_first conv.conv_id t) (network_row conv)) ∙ e in
      let first : db.get_first conv.conv_id t ≡ some r =
        ap (λ k. db.get_first k t) same ∙ laws.first_row d r rows t read in
      unfold merge_row in
      (
        ap (λ o. (merge_row o (network_row conv)).local_ext) first ∙ l,
        ap (λ o. (merge_row o (network_row conv)).draft) first ∙ dr,
      )

  -- The rows that a batch of conversations of the network is converted to and their insertion, whether
  -- it succeeds or not: a conversation that has a row keeps its draft and its local extension.
  pub insert-convert_keeps :
      (convs : List ConversationData) (t : db.Table)
      → Has t
      → Has
          (insert_conversation db true
            (map (λ c. convert_net_conv_to_db_conv db true c t) convs)
            t).1
  insert-convert_keeps convs t h = insert_conversation_keeps _ t (all convs) h
    where
      all :
          (cs : List ConversationData)
          → All Merged (map (λ c. convert_net_conv_to_db_conv db true c t) cs)
      all [] = tt
      all (c ∷ cs) = (convert-Merged c t h, all cs)
