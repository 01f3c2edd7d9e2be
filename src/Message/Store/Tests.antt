-- ===== src/Message/Store/Tests.antt =====
-- Runs and instances of the calls on messages: a cached message, and calls that save another one,
-- change the first in four ways, look the other up and load the conversation.
use roc_im_sdk.Message.JsonText.{c_str}
use roc_im_sdk.Prelude.{
  refl, inl, inr, true, false, List, [], ◌∷◌, Str, codes, pos, ◌==◌, str_eq, str_beq, str_beq_iff,
  arith, Bool-cases, subst, All,
}
use roc_im_sdk.UnorderedMap.{find}
use roc_im_sdk.Message.JsonText.Instance.{
  serialize, parse, inhabited, map_back, vector_back, reads_utf8,
}
use roc_im_sdk.Message.Send.{MessageOrm}
use roc_im_sdk.Message.Table.{convert_db_msg, message_for_id}
use roc_im_sdk.Message.Table.Instance.{entries_db, entries-DatabaseLaws}
use roc_im_sdk.Message.Status.{Messages, pinned}
use roc_im_sdk.Message.Store.{
  Call, saves, finds, loads, flags, sets_sync_ext, sets_local_ext, sets_propertys, run,
  sdk_msg_for_id,
}
use roc_im_sdk.Message.Store.Same.{Stored, IsGood, Same-refl}
use roc_im_sdk.Message.Store.Coherence.{IsValidCall, run-IsGood}
use roc_im_sdk.Message.Store.Lookup.{IsFound, sdk_msg_for_id_lem}

abbrev row : Str → MessageOrm
row id = record {
  content = codes "hello";
  client_msg_id = id;
  server_order_index = pos 1;
  conversation_id = codes "c";
  from_user_id = codes "u";
  to_user_id = codes "v";
  is_group_msg = false;
  sync_ext = [];
  local_ext = [];
  status = 0;
  is_pinned = false;
  is_deleted = false;
  is_recalled = false;
  send_time = pos 9;
  client_order_index = pos 1000;
  server_msg_id = id;
  propertys = [];
}

abbrev m1 : Str
m1 = codes "m1"

abbrev m2 : Str
m2 = codes "m2"

abbrev start : Messages entries_db
start = record {
  heap = record { objects = λ _. convert_db_msg parse serialize (row m1); cache = (m1, 0) ∷ [] };
  table = (m1, row m1) ∷ [];
  next = 1;
}

abbrev calls : List Call
calls =
    saves (row m2 ∷ [])
    ∷ sets_sync_ext m1 ((codes "color", codes "red") ∷ [])
    ∷ flags pinned m1 true
    ∷ sets_propertys m1 (pos 7 ∷ [])
    ∷ sets_local_ext m1 ((codes "draft", []) ∷ [])
    ∷ finds m2
    ∷ loads (codes "c") (pos 0) (pos 10) true
    ∷ []

start-IsGood : IsGood parse serialize entries_db entries-DatabaseLaws start
unfolding message_for_id find str_beq
start-IsGood = record {
  synced = λ k q hit. elim (Bool-cases (m1 == k)) [
    | inl same ↦
        subst
          (λ j.
            Stored parse serialize entries_db entries-DatabaseLaws j start.table
              (start.heap.objects q))
          ((str_beq_iff m1 k).0 same)
          (
            convert_db_msg parse serialize (row m1),
            refl,
            Same-refl (convert_db_msg parse serialize (row m1)),
          )
    | inr differ ↦ absurd (ground (arith, hit, differ))
  ];
  below = λ k q hit. ground (arith, hit);
}

calls-IsValidCall : All IsValidCall calls
unfolding c_str
calls-IsValidCall = (
  tt,
  (
    ((refl, refl, refl), tt),
    (tt, (((omega arith, omega arith), tt), (((refl, refl, refl), tt), (tt, (tt, tt))))),
  ),
)

run-IsGood_example :
    IsGood parse serialize entries_db entries-DatabaseLaws
      (run parse serialize entries_db true calls start)
run-IsGood_example =
    run-IsGood parse serialize entries_db entries-DatabaseLaws map_back vector_back reads_utf8
      inhabited true calls start calls-IsValidCall start-IsGood

sdk_msg_for_id_lem_example :
    IsFound parse serialize entries_db entries-DatabaseLaws m1 start
      (sdk_msg_for_id parse serialize entries_db true m1 start)
sdk_msg_for_id_lem_example =
    sdk_msg_for_id_lem parse serialize entries_db entries-DatabaseLaws m1 start (λ e. cc e)
      start-IsGood
