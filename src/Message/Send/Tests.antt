-- ===== src/Message/Send/Tests.antt =====
-- Runs and instances of the send.
use roc_im_sdk.Prelude.{
  ◌≡◌, refl, true, false, [], Str, codes, pos, str_eq, if◌then◌else◌, none, some,
}
use roc_im_sdk.Storage.Instance.{lists, nothing}
use roc_im_sdk.Message.Order.{next_msg_order_in_conv}
use roc_im_sdk.Message.Send.{
  str_ltb, generate_single_conv_id, parse_single_conv_id, SendMsgContext, convert_to_sdkws,
  MessageOrm, convert_to_orm, check_send_context,
}
use roc_im_sdk.Message.Send.ConvId.{parse-generate}
use roc_im_sdk.Message.Send.Address.{send_addresses}

abbrev ann : Str
ann = codes "ann"

abbrev bob : Str
bob = codes "bob"

abbrev to_ann : SendMsgContext
to_ann = record {
  content = codes "hello";
  sync_ext = [];
  local_ext = [];
  is_group_msg = false;
  conv_id = [];
  to_user_id = ann;
  from_user_id = [];
}

conv_of_two : generate_single_conv_id bob ann ≡ codes "0:1:ann:bob"
unfolding generate_single_conv_id
conv_of_two = refl

not_single : parse_single_conv_id (codes "0:2:ann") ≡ ([], [])
unfolding parse_single_conv_id
not_single = refl

to_ann_checks : check_send_context to_ann ≡ true
unfolding check_send_context
to_ann_checks = refl

parse-generate_example :
    parse_single_conv_id (generate_single_conv_id bob ann)
    ≡ (if str_ltb bob ann then (bob, ann) else (ann, bob))
parse-generate_example =
    parse-generate bob ann (refl, (refl, (refl, tt))) (refl, (refl, (refl, tt))) (λ e. cc e)
      (λ e. cc e)

send_addresses_example :
    let (net, filled) = convert_to_sdkws bob to_ann (codes "id") (pos 5) in
    let conv = generate_single_conv_id bob ann in
    (orm : MessageOrm) × ((convert_to_orm lists bob true filled (codes "id") (pos 5) nothing).0
      ≡ some orm)
    × (convert_to_orm lists bob false filled (codes "id") (pos 5) nothing ≡ (none, nothing))
    × (net.recvid ≡ ann)
    × (orm.to_user_id ≡ ann)
    × (net.convid ≡ conv)
    × (orm.conversation_id ≡ conv)
    × (net.sendid ≡ bob)
    × (orm.from_user_id ≡ bob)
    × (orm.client_order_index ≡ (next_msg_order_in_conv lists bob true conv nothing).0)
    × (orm.server_order_index ≡ pos 0)
send_addresses_example =
    send_addresses lists bob to_ann (codes "id") (pos 5) nothing refl refl
      (refl, (refl, (refl, tt))) (refl, (refl, (refl, tt))) (λ e. cc e) (λ e. cc e)
