-- ===== src/Message/Receive/Tests.antt =====
-- Runs of the classification, and its theorems at concrete batches.
use roc_im_sdk.Prelude.{
  ℕ, ◌≡◌, refl, true, false, List, [], ◌∷◌, none, some, Str, codes, pos, str_beq,
}
use roc_im_sdk.UnorderedMap.{find}
use roc_im_sdk.Conversation.Data.{MessageData}
use roc_im_sdk.Message.Receive.{classify_message}
use roc_im_sdk.Message.Receive.Classify.{parts, classify_message_lem, classify_message_lost}

abbrev received : MessageData
received = record {
  smessage_id = codes "a";
  cmessage_id = codes "c";
  send_time = pos 0;
  dstatus = 2;
}

-- A message that came without the server's id.
abbrev unnamed : MessageData
unnamed = record received { smessage_id = [] }

abbrev saved : List (Str × ℕ)
saved = (codes "b", 1) ∷ (codes "a", 2) ∷ (codes "a", 3) ∷ []

classify_test :
    classify_message true false (received ∷ []) saved
    ≡ some (record {
      real_time_msgs = [];
      offline_received_msgs = 2 ∷ [];
      offline_not_received_msgs = [];
    })
unfolding classify_message str_beq
classify_test = refl

classify_message_lem_example :
    classify_message true false (received ∷ []) saved ≡ some (parts false (received ∷ []) saved)
unfolding find str_beq
classify_message_lem_example =
    classify_message_lem false (received ∷ []) saved ((λ e. absurd (cc e)), tt)

classify_message_lost_example : classify_message true true (received ∷ unnamed ∷ []) saved ≡ none
unfolding find str_beq
classify_message_lost_example =
    classify_message_lost true (received ∷ []) unnamed [] saved ((λ e. absurd (cc e)), tt) refl
