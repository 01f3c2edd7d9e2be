-- ===== src/Message/Order.antt =====
-- The order of the messages of a conversation: SetMsgOrderInConv and NextMsgOrderInConv of DBOpt
-- (imsdk/src/core/message/private/db_opt), over the MMKV store, and the loop of
-- UpdateMsgOrderInConv of MessageDataSource. Each runs under msg_order_mutex_, so a sequence of
-- calls is all that there is. The numbers are those of ℤ: a count of 2^63 messages is not reached.
pub mod Increase
mod Tests
use roc_im_sdk.Prelude.{
  ℕ, ◌≡◌, refl, Bool, true, false, List, [], ◌∷◌, ◌++◌, Str, codes, ℤ, pos, ◌+ℤ◌, ◌≤ℤ◌, ◌<ℤ◌, ◌&&◌,
  ltb_ℤ, if◌then◌else◌, ◌==◌, str_eq, str_beq_iff, arith, +ℤ_parts, All, Bool-cases, inl, inr,
}
use roc_im_sdk.Storage.{Mmkv, Laws}

-- KeyForUser (imsdk/src/core/common/util.h).
unfoldable pub key_for_user : Str → Str → Str
key_for_user user_id key = codes "k" ++ (user_id ++ (codes "_" ++ key))

-- p_OrderIndexKey.
unfoldable pub order_index_key : Str → Str → Str
unfolding key_for_user
order_index_key user_id conv_id =
    key_for_user user_id (codes "order_index" ++ (codes "_" ++ conv_id))

-- The calls that change the order of a conversation.
pub data Call : Type 0 where
  sets : Str → ℤ → Call
  nexts : Str → Call

-- `alive` says that the weak pointer to SDKRoot can be locked.
module _ (kv : Mmkv) (user_id : Str) (alive : Bool) where
  open kv use {Store, set_int64, get_int64}

  -- The largest order that the store knows of a conversation.
  pub max_order : Str → Store → ℤ
  max_order conv_id s = get_int64 (order_index_key user_id conv_id) (pos 0) s

  pub set_msg_order_in_conv : Str → ℤ → Store → Store
  unfolding max_order
  set_msg_order_in_conv conv_id order s =
      if alive && ltb_ℤ (max_order conv_id s) order
      then (set_int64 (order_index_key user_id conv_id) order s).1
      else s

  pub next_msg_order_in_conv : Str → Store → ℤ × Store
  unfolding max_order
  next_msg_order_in_conv conv_id s =
      let next = max_order conv_id s +ℤ pos 1 in
      if alive then (next, (set_int64 (order_index_key user_id conv_id) next s).1) else (pos 1, s)

  -- UpdateMsgOrderInConv: the messages as conversation and client_order_index.
  pub update_msg_order_in_conv : List (Str × ℤ) → Store → Store
  unfolding set_msg_order_in_conv
  update_msg_order_in_conv [] s = s
  update_msg_order_in_conv ((conv_id, order) ∷ msgs) s =
      update_msg_order_in_conv msgs (set_msg_order_in_conv conv_id order s)

  pub step : Call → Store → Store
  unfolding set_msg_order_in_conv next_msg_order_in_conv
  step (sets conv_id order) s = set_msg_order_in_conv conv_id order s
  step (nexts conv_id) s = (next_msg_order_in_conv conv_id s).1

  pub run : List Call → Store → Store
  unfolding step
  run [] s = s
  run (c ∷ cs) s = run cs (step c s)
