-- ===== src/Message/Receive/Classify.antt =====
-- Where each received message goes.
use mathlib.Core.List.{append_assoc, append-nil}
use roc_im_sdk.Prelude.{
  ℕ, ◌≡◌, refl, ◌∙◌, ap, ◌≢◌, inl, inr, Bool, true, false, not, ◌&&◌, ◌||◌, List, [], ◌∷◌, ◌++◌,
  Option, none, some, Str, All, eqb, if◌then◌else◌, ◌==◌, str_eq, Bool-cases, Option-cases,
  str_beq_iff,
}
use roc_im_sdk.UnorderedMap.{find, assign}
use roc_im_sdk.UnorderedMap.Laws.{find-assign}
use roc_im_sdk.Conversation.Data.{MessageData}
use roc_im_sdk.Message.Receive.{
  OnMessageResult, group_by_key, classify_one, front, first_of, classify_next, classify_loop,
  no_messages, classify_message, or_empty,
}

abbrev or_else : Option ℕ → Option ℕ → Option ℕ
or_else none o = o
or_else (some v) o = some v

or_else-none : (o : Option ℕ) → o ≡ or_else o none
or_else-none none = refl
or_else-none (some v) = refl

or_else-some : (o p : Option ℕ) (v : ℕ) → or_else (or_else o (some v)) p ≡ or_else o (some v)
or_else-some none p v = refl
or_else-some (some w) p v = refl

-- The first message of a group that has got one more at its end.
push_first :
    (o : Option (List ℕ)) (msg : ℕ)
    → first_of (some (or_empty o ++ msg ∷ [])) ≡ or_else (first_of o) (some msg)
unfolding first_of front or_empty
push_first none msg = refl
push_first (some []) msg = refl
push_first (some (x ∷ xs)) msg = refl

-- The first message of a group is the first one with its key.
first_of-group_by_key :
    (msgs : List (Str × ℕ)) (groups : List (Str × List ℕ)) (k : Str)
    → first_of (find k (group_by_key msgs groups))
      ≡ or_else (first_of (find k groups)) (find k msgs)
unfolding group_by_key find
first_of-group_by_key [] groups k = or_else-none (first_of (find k groups))
first_of-group_by_key ((id, msg) ∷ msgs) groups k =
    let group = or_empty (find id groups) ++ msg ∷ [] in
    let rest = first_of-group_by_key msgs (assign id group groups) k in
    let here = find-assign id k group groups in
    elim (Bool-cases (id == k)) [
      | inl e ↦
          let same = ap (λ j. first_of (find j groups)) ((str_beq_iff id k).0 e) in
          rest
          ∙ rw (here, e)
              (ap (λ o. or_else o (find k msgs)) (push_first (find id groups) msg)
                ∙ or_else-some (first_of (find id groups)) (find k msgs) msg
                ∙ ap (λ o. or_else o (some msg)) same)
      | inr e ↦ rest ∙ rw (here, e) refl
    ]

abbrev pub first_then : Option ℕ → List ℕ → List ℕ
first_then none rest = rest
first_then (some q) rest = q ∷ rest

-- The instances of the messages that pass a test, each the first saved one with the id.
abbrev pub chosen : (MessageData → Bool) → List MessageData → List (Str × ℕ) → List ℕ
chosen p [] saved = []
chosen p (msg ∷ msgs) saved =
    let rest = chosen p msgs saved in
    if p msg then first_then (find msg.smessage_id saved) rest else rest

abbrev pub is_real_time : Bool → MessageData → Bool
is_real_time online_push msg = online_push || eqb msg.dstatus 1

abbrev pub is_received : Bool → MessageData → Bool
is_received online_push msg = not (is_real_time online_push msg) && eqb msg.dstatus 2

abbrev pub is_new : Bool → MessageData → Bool
is_new online_push msg = not (is_real_time online_push msg) && not (eqb msg.dstatus 2)

abbrev joined : OnMessageResult → OnMessageResult → OnMessageResult
joined r r' = record {
  real_time_msgs = r.real_time_msgs ++ r'.real_time_msgs;
  offline_received_msgs = r.offline_received_msgs ++ r'.offline_received_msgs;
  offline_not_received_msgs = r.offline_not_received_msgs ++ r'.offline_not_received_msgs;
}

abbrev pub parts : Bool → List MessageData → List (Str × ℕ) → OnMessageResult
parts online_push msgs saved = record {
  real_time_msgs = chosen (is_real_time online_push) msgs saved;
  offline_received_msgs = chosen (is_received online_push) msgs saved;
  offline_not_received_msgs = chosen (is_new online_push) msgs saved;
}

abbrev pub IsSaved : List (Str × ℕ) → MessageData → Type 0
IsSaved saved msg = find msg.smessage_id saved ≢ none

classify_step :
    (online_push : Bool) (msg : MessageData) (msgs : List MessageData) (saved : List (Str × ℕ))
    (q : ℕ) (r : OnMessageResult)
    → find msg.smessage_id saved ≡ some q
    → joined (classify_one online_push msg q r) (parts online_push msgs saved)
      ≡ joined r (parts online_push (msg ∷ msgs) saved)
unfolding classify_one
classify_step true msg msgs saved q r e = rw e (simp append_assoc)
classify_step false msg msgs saved q r e = elim (Bool-cases (eqb msg.dstatus 1)) [
  | inl b ↦ rw (e, b) (simp append_assoc)
  | inr b ↦ elim (Bool-cases (eqb msg.dstatus 2)) [
    | inl c ↦ rw (e, b, c) (simp append_assoc)
    | inr c ↦ rw (e, b, c) (simp append_assoc)
  ]
]

saved_found :
    (saved : List (Str × ℕ)) (id : Str) → find id saved ≢ none → (q : ℕ) × (find id saved ≡ some q)
saved_found saved id h = elim (Option-cases (find id saved)) [
  | inl e ↦ absurd (h e)
  | inr found ↦ found
]

first_saved :
    (saved : List (Str × ℕ)) (id : Str) → first_of (find id (group_by_key saved [])) ≡ find id saved
unfolding find
first_saved saved id = first_of-group_by_key saved [] id ∙ unfold first_of in refl

classify_loop_next :
    (online_push : Bool) (msg : MessageData) (msgs : List MessageData) (saved : List (Str × ℕ))
    (q : ℕ) (r : OnMessageResult)
    → find msg.smessage_id saved ≡ some q
    → classify_loop online_push (msg ∷ msgs) (group_by_key saved []) (some r)
      ≡ classify_loop online_push msgs
          (group_by_key saved [])
          (some (classify_one online_push msg q r))
unfolding classify_loop classify_next
classify_loop_next online_push msg msgs saved q r e =
    rw (first_saved saved msg.smessage_id ∙ e) refl

joined_nil : (r : OnMessageResult) → some r ≡ some (joined r no_messages)
joined_nil r = simp append-nil

classify_loop_lem :
    (online_push : Bool) (msgs : List MessageData) (saved : List (Str × ℕ)) (r : OnMessageResult)
    → All (IsSaved saved) msgs
    → classify_loop online_push msgs (group_by_key saved []) (some r)
      ≡ some (joined r (parts online_push msgs saved))
classify_loop_lem online_push [] saved r a = unfold classify_loop in joined_nil r
classify_loop_lem online_push (msg ∷ msgs) saved r a =
    let (q, e) = saved_found saved msg.smessage_id a.0 in
    classify_loop_next online_push msg msgs saved q r e
    ∙ classify_loop_lem online_push msgs saved (classify_one online_push msg q r) a.1
    ∙ ap some (classify_step online_push msg msgs saved q r e)

-- While SDKRoot is there, and where every received message is among the saved ones: each goes to exactly one of the three lists,
-- in the order of receipt: to the real-time ones on a push or with status 1, to the received ones
-- with status 2, to the others else; what is listed is the first saved instance with its id.
pub classify_message_lem :
    (online_push : Bool) (msgs : List MessageData) (saved : List (Str × ℕ))
    → All (IsSaved saved) msgs
    → classify_message true online_push msgs saved ≡ some (parts online_push msgs saved)
unfolding classify_message
classify_message_lem online_push msgs saved a =
    classify_loop_lem online_push msgs saved no_messages a

-- The loop stays at the end iterator, once it has read it.
classify_loop-none :
    (online_push : Bool) (msgs : List MessageData) (groups : List (Str × List ℕ))
    → classify_loop online_push msgs groups none ≡ none
unfolding classify_loop
classify_loop-none online_push [] groups = refl
classify_loop-none online_push (msg ∷ msgs) groups = refl

lost_here :
    (online_push : Bool) (msg : MessageData) (msgs : List MessageData) (saved : List (Str × ℕ))
    (r : OnMessageResult)
    → find msg.smessage_id saved ≡ none
    → classify_loop online_push (msg ∷ msgs) (group_by_key saved []) (some r) ≡ none
unfolding classify_loop classify_next
lost_here online_push msg msgs saved r e =
    rw (first_saved saved msg.smessage_id ∙ e)
      (classify_loop-none online_push msgs (group_by_key saved []))

lost :
    (online_push : Bool) (msg : MessageData) (msgs before : List MessageData)
    (saved : List (Str × ℕ)) (r : OnMessageResult)
    → All (IsSaved saved) before
    → find msg.smessage_id saved ≡ none
    → classify_loop online_push (before ++ msg ∷ msgs) (group_by_key saved []) (some r) ≡ none
lost online_push msg msgs [] saved r a e = lost_here online_push msg msgs saved r e
lost online_push msg msgs (m ∷ before) saved r a e =
    let (q, found) = saved_found saved m.smessage_id a.0 in
    classify_loop_next online_push m (before ++ msg ∷ msgs) saved q r found
    ∙ lost online_push msg msgs before saved (classify_one online_push m q r) a.1 e

-- While SDKRoot is there: a received message that is not among the saved ones makes the classification read the end iterator
-- of the map: the first such message does, whatever comes after it.
pub classify_message_lost :
    (online_push : Bool) (before : List MessageData) (msg : MessageData) (msgs : List MessageData)
    (saved : List (Str × ℕ))
    → All (IsSaved saved) before
    → find msg.smessage_id saved ≡ none
    → classify_message true online_push (before ++ msg ∷ msgs) saved ≡ none
unfolding classify_message
classify_message_lost online_push before msg msgs saved a e =
    lost online_push msg msgs before saved no_messages a e
