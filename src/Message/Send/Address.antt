-- ===== src/Message/Send/Address.antt =====
-- Whom a message goes to, and that its two forms agree.
use roc_im_sdk.Prelude.{
  ◌≡◌, refl, ◌∙◌, ◌≢◌, true, false, none, some, [], Str, str_eq, str_beq_iff, if◌then◌else◌, arith,
  ap, ℤ, pos,
}
use roc_im_sdk.Storage.{Mmkv}
use roc_im_sdk.Message.Order.{next_msg_order_in_conv}
use roc_im_sdk.Message.Send.{
  str_ltb, generate_single_conv_id, parse_single_conv_id, SendMsgContext, receiver_of,
  single_conv_id, MessageOrm, convert_to_sdkws, convert_to_orm,
}
use roc_im_sdk.Message.Send.ConvId.{IsPlain, parse-generate}

receiver_lem : (me to : Str) → receiver_of me (if str_ltb me to then (me, to) else (to, me)) ≡ to
unfolding receiver_of
receiver_lem me to = ground (arith, str_beq_iff me me, str_beq_iff to me)

-- The other user is the receiver of the conversation that the two make, if their ids are not empty
-- and have no colon in them.
receiver-generate :
    (me to : Str)
    → IsPlain me
    → IsPlain to
    → me ≢ []
    → to ≢ []
    → receiver_of me (parse_single_conv_id (generate_single_conv_id me to)) ≡ to
receiver-generate me to h k p q =
    ap (receiver_of me) (parse-generate me to h k p q) ∙ receiver_lem me to

module _ (kv : Mmkv) (user_id : Str) where
  -- A message to one user with no conversation given: if both ids are not empty and have no colon in
  -- them, the network form and the database form name that user as the receiver, whoever of the
  -- two has the smaller id; both name the conversation of the two and the sender; and the database
  -- form has the next order of that conversation and the server order 0. When SDKRoot is gone there
  -- is no database form, and no order is taken.
  pub send_addresses :
      (context : SendMsgContext) (id : Str) (time : ℤ) (s : kv.Store)
      → context.is_group_msg ≡ false
      → context.conv_id ≡ []
      → IsPlain user_id
      → IsPlain context.to_user_id
      → user_id ≢ []
      → context.to_user_id ≢ []
      → let (net, filled) = convert_to_sdkws user_id context id time in
        let conv = generate_single_conv_id user_id context.to_user_id in
        (orm : MessageOrm) × ((convert_to_orm kv user_id true filled id time s).0 ≡ some orm)
        × (convert_to_orm kv user_id false filled id time s ≡ (none, s))
        × (net.recvid ≡ context.to_user_id)
        × (orm.to_user_id ≡ context.to_user_id)
        × (net.convid ≡ conv)
        × (orm.conversation_id ≡ conv)
        × (net.sendid ≡ user_id)
        × (orm.from_user_id ≡ user_id)
        × (orm.client_order_index ≡ (next_msg_order_in_conv kv user_id true conv s).0)
        × (orm.server_order_index ≡ pos 0)
  unfolding convert_to_sdkws convert_to_orm
  send_addresses context id time s single blank h k p q =
      let receiver = receiver-generate user_id context.to_user_id h k p q in
      let conv : single_conv_id user_id context
          ≡ generate_single_conv_id user_id context.to_user_id =
        rw blank refl in
      rw single (rw conv (_, refl, refl, receiver, receiver, refl, refl, refl, refl, refl, refl))
