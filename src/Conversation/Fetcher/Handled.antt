-- ===== src/Conversation/Fetcher/Handled.antt =====
-- What a fetch hands over to the messages and the conversations.
use roc_im_sdk.Prelude.{◌⊎◌, inl, inr, ◌↔◌, List, [], ◌∷◌, ◌++◌, In}
use roc_im_sdk.Conversation.Data.{MessageData, ConversationData}
use roc_im_sdk.Conversation.Fetcher.{reverse, collect_messages}

In-append : {A : Type 0} (x : A) (xs ys : List A) → In x (xs ++ ys) ↔ (In x xs ⊎ In x ys)
In-append x [] ys = (λ h. inr h, λ h. elim h [ inl b ↦ absurd b | inr q ↦ q ])
In-append x (y ∷ xs) ys =
    let ih = In-append x xs ys in
    (
      (λ h. elim h [
        | inl e ↦ inl (inl e)
        | inr q ↦ elim (ih.0 q) [ inl a ↦ inl (inr a) | inr b ↦ inr b ]
      ]),
      (λ h. elim h [
        | inl (inl e) ↦ inl e
        | inl (inr a) ↦ inr (ih.1 (inl a))
        | inr b ↦ inr (ih.1 (inr b))
      ]),
    )

In-reverse : {A : Type 0} (x : A) (xs : List A) → In x (reverse xs) ↔ In x xs
unfolding reverse
In-reverse x [] = (λ h. h, λ h. h)
In-reverse x (y ∷ xs) =
    let ih = In-reverse x xs in
    let both = In-append x (reverse xs) (y ∷ []) in
    (
      (λ h. elim (both.0 h) [
        | inl a ↦ inr (ih.0 a)
        | inr (inl e) ↦ inl e
        | inr (inr b) ↦ absurd b
      ]),
      (λ h. elim h [ inl e ↦ both.1 (inr (inl e)) | inr a ↦ both.1 (inl (ih.1 a)) ]),
    )

-- A message is in one of the conversations.
abbrev pub IsAmong : MessageData → List ConversationData → Type 0
IsAmong m [] = ⊥
IsAmong m (conv ∷ convs) = In m conv.messages ⊎ IsAmong m convs

-- p_handleFetchedUserMessage gives every message of every conversation of a page to the messages, and
-- no other.
pub In-collect_messages :
    (m : MessageData) (convs : List ConversationData)
    → In m (collect_messages convs) ↔ IsAmong m convs
unfolding collect_messages
In-collect_messages m [] = (λ h. h, λ h. h)
In-collect_messages m (conv ∷ convs) =
    let ih = In-collect_messages m convs in
    let both = In-append m (reverse conv.messages) (collect_messages convs) in
    let here = In-reverse m conv.messages in
    (
      (λ h. elim (both.0 h) [ inl a ↦ inl (here.0 a) | inr b ↦ inr (ih.0 b) ]),
      (λ h. elim h [ inl a ↦ both.1 (inl (here.1 a)) | inr b ↦ both.1 (inr (ih.1 b)) ]),
    )
