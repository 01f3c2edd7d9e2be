-- ===== src/Message/Cache.antt =====
-- The message cache of MessageDataSource (imsdk/src/core/message/private/data_source): one instance
-- of MessageModel for each message, which the interface has handed out and which is written in
-- place. Instances live in a heap, and a shared_ptr is the number of its instance. The cache and the
-- writes run on msg_strand or on the thread of the database, so a sequence of calls is all there is.
pub mod Overlay
pub mod Batch
mod Tests
use roc_im_sdk.Prelude.{
  ℕ, Bool, true, false, List, [], ◌∷◌, Option, none, some, Str, ℤ, pos, eqb, if◌then◌else◌, str_eq,
}
use roc_im_sdk.UnorderedMap.{find, emplace}

-- MessageModel (imsdk/src/include/model/message/MessageModel.h).
pub record Model : Type 0 where
  pub status : ℕ
  pub is_pinned : Bool
  pub is_deleted : Bool
  pub is_recalled : Bool
  pub is_group_msg : Bool
  pub content : Str
  pub to_user_id : Str
  pub from_user_id : Str
  pub client_msg_id : Str
  pub server_msg_id : Str
  pub conversation_id : Str
  pub client_order_index : ℤ
  pub server_order_index : ℤ
  pub send_time : ℤ
  pub sync_ext : List (Str × Str)
  pub local_ext : List (Str × Str)
  pub propertys : List ℤ

-- What move_from leaves in its source. The strings and containers that were moved from are empty, as
-- its comment says.
abbrev pub moved_out : Model
moved_out = record {
  status = 0;
  is_pinned = false;
  is_deleted = false;
  is_recalled = false;
  is_group_msg = false;
  content = [];
  to_user_id = [];
  from_user_id = [];
  client_msg_id = [];
  server_msg_id = [];
  conversation_id = [];
  client_order_index = pos 0;
  server_order_index = pos 0;
  send_time = pos 0;
  sync_ext = [];
  local_ext = [];
  propertys = [];
}

pub record Heap : Type 0 where
  pub objects : ℕ → Model
  pub cache : List (Str × ℕ)

unfoldable pub set_object : ℕ → Model → Heap → Heap
set_object n v h = record h { objects = λ j. if eqb n j then v else h.objects j }

-- MessageModel::move_from (imsdk/src/wapper/model/MessageModel.cpp).
unfoldable pub move_from : ℕ → ℕ → Heap → Heap
unfolding set_object
move_from self source h =
    if eqb self source
    then h
    else set_object source moved_out (set_object self (h.objects source) h)

-- One round of UpdateMsgCache on a copy that is not null: the instance that the cache has now.
unfoldable pub cache_one : ℕ → Heap → ℕ × Heap
unfolding move_from
cache_one copy h = elim (find (h.objects copy).client_msg_id h.cache) [
  | none ↦ (copy, record h { cache = emplace (h.objects copy).client_msg_id copy h.cache })
  | some cached ↦ (cached, move_from cached copy h)
]

unfoldable pub cache_loop : List (Option ℕ) → Heap → List ℕ × Heap
unfolding cache_one
cache_loop [] h = ([], h)
cache_loop (none ∷ copies) h = cache_loop copies h
cache_loop (some copy ∷ copies) h =
    let (first, h') = cache_one copy h in
    let (rest, h'') = cache_loop copies h' in (first ∷ rest, h'')

-- UpdateMsgCache; `alive` says that SDKRoot is there.
unfoldable pub update_msg_cache : Bool → List (Option ℕ) → Heap → List ℕ × Heap
unfolding cache_loop
update_msg_cache alive copies h = if alive then cache_loop copies h else ([], h)
