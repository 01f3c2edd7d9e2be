-- ===== src/Conversation/Store/Lookup.antt =====
-- What a save keeps, and a lookup of a conversation that is nowhere.
use roc_im_sdk.Conversation.Model.{ConvModel, convert_db_conv}
use roc_im_sdk.Message.Store.{sdk_msg_for_id}
use roc_im_sdk.Prelude.{
  ℕ, ◌≡◌, refl, ◌∙◌, sym, subst, ◌⊎◌, true, List, [], ◌∷◌, map, Option, none, some, Str, str_eq,
  Option-cases, inl, inr, eqb, Bool-cases,
}
use roc_im_sdk.UnorderedMap.{find}
use roc_im_sdk.Message.JsonText.{JsonValue}
use roc_im_sdk.Message.Table.{Database}
use roc_im_sdk.Conversation.Data.{ConversationData}
use roc_im_sdk.Conversation.Table.{
  ConversationOrm, ConvDatabase, ConvLaws, insert_conversation, convert_net_conv_to_db_conv,
}
use roc_im_sdk.Conversation.Table.Merge.{HasLocal, insert-convert_keeps}
use roc_im_sdk.Conversation.Store.{
  Conversations, move_from, cache_one, set_object, make_copy, with_message, update_one, prepend,
  update_loop, update_conv_cache, save_net_conversations, conversation_for_id, first_conversation,
  front, sdk_conv_for_id,
}

module _ {db : ConvDatabase} {mdb : Database} where
  set_object-table :
      (n : ℕ) (m : ConvModel) (d : Conversations db mdb) → (set_object n m d).table ≡ d.table
  unfolding set_object
  set_object-table n m d = refl

  move_from-table :
      (self source : ℕ) (d : Conversations db mdb) → (move_from self source d).table ≡ d.table
  unfolding move_from set_object
  move_from-table self source d = elim (Bool-cases (eqb self source)) [
    | inl e ↦ rw e refl
    | inr e ↦ rw e refl
  ]

module _ (parse : Str → Str ⊎ JsonValue) (serialize : JsonValue → Str) (db : ConvDatabase)
    (mdb : Database) where
  abbrev State : Type 0
  State = Conversations db mdb

  cache_one-table : (q : ℕ) (d : State) → (cache_one q d).1.table ≡ d.table
  unfolding cache_one
  cache_one-table q d = elim (Option-cases (find (d.objects q).conversation_id d.cache)) [
    | inl miss ↦ rw (miss, cache_one) refl
    | inr (cached, hit) ↦ rw (hit, cache_one) (move_from-table cached q d)
  ]

  update_one-table :
      (m : ConvModel) (d : State) → (update_one parse serialize db mdb true m d).1.table ≡ d.table
  unfolding update_one
  update_one-table m d =
      let (sdk_msg, messages) =
        sdk_msg_for_id parse serialize mdb true m.last_message_client_id d.messages in
      let copied = make_copy (with_message sdk_msg m) (record d { messages = messages }) in
      cache_one-table d.next copied ∙ unfold make_copy set_object in refl

  -- Copies that are there are all cached, and the table stays.
  abbrev Cached : List (Option ConvModel) → State → Type 0
  Cached copies d =
      (r : List ℕ × State) × (update_loop parse serialize db mdb true copies d ≡ some r)
      × (r.1.table ≡ d.table)

  update_loop_lem :
      (rs : List ConversationOrm) (d : State)
      → Cached (map (λ r. some (convert_db_conv parse serialize r)) rs) d
  unfolding update_loop prepend
  update_loop_lem [] d = (([], d), refl, refl)
  update_loop_lem (r ∷ rs) d =
      let one = update_one parse serialize db mdb true (convert_db_conv parse serialize r) d in
      let (rest, e, t) = update_loop_lem rs one.1 in
      (
        (one.0 ∷ rest.0, rest.1),
        rw e refl,
        t ∙ update_one-table (convert_db_conv parse serialize r) d,
      )

  -- While SDKRoot is there, a save of any batch of conversations of the network, whether the table takes
  -- it or not, ends, and keeps the draft and the local extension of every conversation that has a
  -- row.
  pub save_net_conversations_keeps :
      (laws : ConvLaws db) (convs : List ConversationData) (d : State) (id local_ext draft : Str)
      → HasLocal db id local_ext draft d.table
      → (r : List ℕ × State) × (save_net_conversations parse serialize db mdb true convs d ≡ some r)
        × HasLocal db id local_ext draft r.1.table
  unfolding save_net_conversations update_conv_cache
  save_net_conversations_keeps laws convs d id local_ext draft h =
      let rows = map (λ c. convert_net_conv_to_db_conv db true c d.table) convs in
      let (r, e, t) =
        update_loop_lem rows (record d { table = (insert_conversation db true rows d.table).1 }) in
      (
        r,
        e,
        subst (HasLocal db id local_ext draft) (sym t)
            (insert-convert_keeps db laws id local_ext draft convs d.table h),
      )

  -- While SDKRoot is there: the lookup of a conversation, by an id that is not empty, which is neither
  -- in the cache nor in the table reads a null pointer.
  pub sdk_conv_for_id_absent :
      (c : ℕ) (cs : Str) (d : State)
      → find (c ∷ cs) d.cache ≡ none
      → db.get_all_objects (c ∷ cs) d.table ≡ some []
      → sdk_conv_for_id parse serialize db mdb true (c ∷ cs) d ≡ none
  unfolding sdk_conv_for_id conversation_for_id first_conversation update_conv_cache update_loop
      front
  sdk_conv_for_id_absent c cs d miss absent =
      rw (miss, sdk_conv_for_id) (rw (absent, first_conversation) refl)
