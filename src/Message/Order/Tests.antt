-- ===== src/Message/Order/Tests.antt =====
-- Runs and instances for the order of messages, over the store of two association lists.
use roc_im_sdk.Prelude.{
  ◌≡◌, refl, true, List, [], ◌∷◌, Str, codes, pos, ◌<ℤ◌, ◌+ℤ◌, inl, inr, str_beq,
}
use roc_im_sdk.UnorderedMap.{find, assign}
use roc_im_sdk.Storage.Instance.{lists, lists-Laws, nothing}
use roc_im_sdk.Message.Order.{
  Call, sets, nexts, max_order, order_index_key, next_msg_order_in_conv, update_msg_order_in_conv,
  run,
}
use roc_im_sdk.Message.Order.Increase.{next_increases, next_above_saved}

abbrev me : Str
me = codes "u1"

abbrev conv : Str
conv = codes "single:u1:u2"

abbrev between : List Call
between = sets conv (pos 7) ∷ nexts conv ∷ nexts me ∷ []

after_run :
    (next_msg_order_in_conv lists me true conv (run lists me true between nothing)).0 ≡ pos 9
unfolding run max_order ◌+ℤ◌ find assign str_beq order_index_key
after_run = refl

next_increases_example :
    (next_msg_order_in_conv lists me true conv nothing).0
    <ℤ (next_msg_order_in_conv lists me true conv
        (run lists me true between (next_msg_order_in_conv lists me true conv nothing).1)).0
next_increases_example = next_increases lists lists-Laws me true conv between nothing refl refl

next_above_saved_example :
    pos 5
    <ℤ (next_msg_order_in_conv lists me true conv (
        run lists me true between
          (update_msg_order_in_conv lists me true ((me, pos 2) ∷ (conv, pos 5) ∷ []) nothing))).0
next_above_saved_example =
    next_above_saved lists lists-Laws me true conv (pos 5) ((me, pos 2) ∷ (conv, pos 5) ∷ [])
      between nothing refl (λ v u. refl) (inr (inl refl))
