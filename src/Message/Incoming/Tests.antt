-- ===== src/Message/Incoming/Tests.antt =====
-- A message that was sent from here comes back from the network.
use roc_im_sdk.Prelude.{
  ◌≡◌, refl, true, false, List, [], ◌∷◌, Option, none, some, Str, codes, pos, str_eq, str_beq,
  arith,
}
use roc_im_sdk.UnorderedMap.{find}
use roc_im_sdk.Message.JsonText.Instance.{serialize, parse}
use roc_im_sdk.Message.Cache.{moved_out}
use roc_im_sdk.Message.Send.{MessageOrm}
use roc_im_sdk.Message.Table.Instance.{Entries, rows_of, entries_db, entries-DatabaseLaws}
use roc_im_sdk.Message.Status.{Messages}
use roc_im_sdk.Message.Incoming.{IncomingMessage, save_net_messages}
use roc_im_sdk.Message.Incoming.Local.{HasLocal, save_net_messages_keeps}

abbrev sent : IncomingMessage
sent = record {
  send_id = codes "u";
  recv_id = codes "v";
  conv_id = codes "c";
  cmessage_id = codes "m";
  smessage_id = codes "s";
  conv_type = 1;
  content = codes "hi";
  seq = pos 4;
  send_time = pos 9;
  status = 2;
  is_deleted = false;
  is_recalled = false;
  is_pinned = false;
  sync_ext = [];
  propertys = [];
}

abbrev row : MessageOrm
row = record {
  content = codes "hi";
  client_msg_id = codes "m";
  server_order_index = pos 0;
  conversation_id = codes "c";
  from_user_id = codes "u";
  to_user_id = codes "v";
  is_group_msg = false;
  sync_ext = [];
  local_ext = codes "{}";
  status = 1;
  is_pinned = false;
  is_deleted = false;
  is_recalled = false;
  send_time = pos 9;
  client_order_index = pos 3001;
  server_msg_id = [];
  propertys = [];
}

abbrev d : Messages entries_db
d = record {
  heap = record { objects = λ _. moved_out; cache = [] };
  table = (codes "m", row) ∷ [];
  next = 0;
}

abbrev head : List MessageOrm → Option MessageOrm
head [] = none
head (r ∷ _) = some r

abbrev first : Str → Entries → Option MessageOrm
first k t = head (rows_of k t)

first_lem :
    (xs rows : List MessageOrm) (r : MessageOrm) → some xs ≡ some (r ∷ rows) → head xs ≡ some r
first_lem [] rows r h = cc h
first_lem (x ∷ xs) rows r h = ground arith

save_net_messages_keeps_example :
    HasLocal entries_db
      (codes "m")
      (pos 3001)
      (codes "{}")
      (save_net_messages entries_db first true parse serialize (sent ∷ []) d).1.table
unfolding find str_beq
save_net_messages_keeps_example =
    save_net_messages_keeps entries_db entries-DatabaseLaws first
      (λ k r rows t h. first_lem (rows_of k t) rows r h) (codes "m") (pos 3001) refl (codes "{}")
      parse serialize (sent ∷ []) d (row, [], refl, refl, refl)
