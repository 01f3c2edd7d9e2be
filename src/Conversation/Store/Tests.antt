-- ===== src/Conversation/Store/Tests.antt =====
-- The calls on conversations at a cached conversation and one that is nowhere.
use roc_im_sdk.Conversation.Model.{moved_out}
use roc_im_sdk.Prelude.{
  ℕ, ◌≡◌, refl, inl, inr, true, false, List, [], ◌∷◌, none, some, codes, pos, str_eq, str_beq,
  str_beq_iff, Bool-cases, if◌then◌else◌,
}
use roc_im_sdk.UnorderedMap.{find}
use roc_im_sdk.Message.JsonText.Instance.{serialize, parse}
use roc_im_sdk.Message.Cache
use roc_im_sdk.Message.Table.Instance.{entries_db}
use roc_im_sdk.Conversation.Data.{ConversationData}
use roc_im_sdk.Conversation.Table.{ConversationOrm, delete_conversation}
use roc_im_sdk.Conversation.Table.Merge.{HasLocal}
use roc_im_sdk.Conversation.Table.Instance.{rows_db, rows-ConvLaws}
use roc_im_sdk.Conversation.Store.{
  Conversations, save_net_conversations, sdk_conv_for_id, update_conversation_deleted_status,
}
use roc_im_sdk.Conversation.Store.Setting.{IsSynced}
use roc_im_sdk.Conversation.Store.Synced.{tops, deletes, sets_local_ext, run, run-IsSynced}
use roc_im_sdk.Conversation.Store.Undelete.{Differs, undelete-Differs}
use roc_im_sdk.Conversation.Store.Lookup.{save_net_conversations_keeps, sdk_conv_for_id_absent}

abbrev row : ConversationOrm
row = record {
  type = 1;
  name = codes "n";
  unread_count = pos 0;
  avatar_url = [];
  last_message_time = pos 3;
  conversation_id = codes "v";
  last_message_client_id = [];
  last_message_server_id = [];
  members_json = [];
  is_top = false;
  mask = pos 0;
  is_muted = false;
  is_deleted = false;
  is_blocked = false;
  draft = codes "hello";
  sync_ext = [];
  local_ext = [];
}

abbrev d : Conversations rows_db entries_db
d = record {
  objects = λ _. record moved_out { conversation_id = codes "v" };
  cache = (codes "v", 0) ∷ [];
  next = 1;
  table = λ k. if str_beq (codes "v") k then row ∷ [] else [];
  messages = record {
    heap = record { objects = λ _. Cache.moved_out; cache = [] };
    table = [];
    next = 0;
  };
}

abbrev conv : ConversationData
conv = record {
  conv_id = codes "v";
  conv_type = 2;
  name = codes "new";
  avatar_url = [];
  unread_count = pos 1;
  last_message = none;
  members = [];
  is_muted = true;
  is_top = true;
  is_delete = false;
  is_blocked = false;
  sync_ext = [];
  messages = [];
}

d-IsSynced : IsSynced rows_db entries_db d
unfolding find
d-IsSynced k q hit = elim (Bool-cases (str_beq (codes "v") k)) [
  | inl e ↦ ((str_beq_iff (codes "v") k).0 e, (row, [], rw e refl, (refl, refl, refl, refl)))
  | inr e ↦ absurd (cc (hit, e))
]

run-IsSynced_example : IsSynced rows_db entries_db (
    run parse serialize rows_db entries_db true
      (tops (codes "v") true
        ∷ sets_local_ext (codes "v") ((codes "a", codes "b") ∷ [])
        ∷ deletes (codes "v")
        ∷ [])
      d)
run-IsSynced_example =
    run-IsSynced rows_db rows-ConvLaws entries_db parse serialize true
      (tops (codes "v") true
        ∷ sets_local_ext (codes "v") ((codes "a", codes "b") ∷ [])
        ∷ deletes (codes "v")
        ∷ [])
      d d-IsSynced

undelete-Differs_example :
    Differs rows_db rows-ConvLaws entries_db
      (codes "v")
      0
      (update_conversation_deleted_status rows_db entries_db true (codes "v") false d).1
unfolding find str_beq delete_conversation
undelete-Differs_example =
    undelete-Differs rows_db rows-ConvLaws entries_db d (codes "v") 0 d-IsSynced refl refl

save_net_conversations_keeps_example :
    (r : List ℕ × Conversations rows_db entries_db) × (save_net_conversations parse serialize
        rows_db entries_db true
        (conv ∷ [])
        d
      ≡ some r)
    × HasLocal rows_db (codes "v") [] (codes "hello") r.1.table
unfolding str_beq
save_net_conversations_keeps_example =
    save_net_conversations_keeps parse serialize rows_db entries_db rows-ConvLaws (conv ∷ []) d
      (codes "v") [] (codes "hello") (row, [], refl, refl, refl)

sdk_conv_for_id_absent_example :
    sdk_conv_for_id parse serialize rows_db entries_db true (codes "w") d ≡ none
unfolding find str_beq
sdk_conv_for_id_absent_example =
    sdk_conv_for_id_absent parse serialize rows_db entries_db 119 [] d refl refl
