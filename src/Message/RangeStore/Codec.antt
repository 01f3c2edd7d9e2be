-- ===== src/Message/RangeStore/Codec.antt =====
-- The ranges as JSON and back, and the keys of the store.
use roc_im_sdk.Prelude.{
  ◌≡◌, refl, List, [], ◌∷◌, ◌++◌, Str, codes, str_eq, ◌==◌, str_beq_iff, ap, arith, Bool-cases, inl,
  inr,
}
use roc_im_sdk.Ranges.{Range}
use roc_im_sdk.Message.Order.{key_for_user}
use roc_im_sdk.Message.RangeStore.{ranges_json, read_ranges, message_range_key}

pub read_ranges-ranges_json : (rs : List Range) → read_ranges (ranges_json rs) ≡ rs
unfolding read_ranges ranges_json
read_ranges-ranges_json [] = refl
read_ranges-ranges_json ((a, b) ∷ rs) = ap (λ t. (a, b) ∷ t) (read_ranges-ranges_json rs)

append_cancel : (p a b : Str) → p ++ a ≡ p ++ b → a ≡ b
append_cancel [] a b e = e
append_cancel (x ∷ p) a b e = append_cancel p a b (ground arith)

message_range_key-injective :
    (user_id c d : Str) → message_range_key user_id c ≡ message_range_key user_id d → c ≡ d
unfolding message_range_key key_for_user
message_range_key-injective user_id c d e =
    append_cancel (codes "messageRange_") c d
      (append_cancel (codes "_") _ _ (append_cancel user_id _ _ (append_cancel (codes "k") _ _ e)))

-- Two conversations have two keys.
pub message_range_key_eq :
    (user_id c d : Str) → (message_range_key user_id c == message_range_key user_id d) ≡ (c == d)
message_range_key_eq user_id c d =
    let names = str_beq_iff c d in
    let keys = str_beq_iff (message_range_key user_id c) (message_range_key user_id d) in
    elim (Bool-cases (c == d)) [
      | inl same ↦ rw same (keys.1 (ap (message_range_key user_id) (names.0 same)))
      | inr differ ↦
          elim (Bool-cases (message_range_key user_id c == message_range_key user_id d)) [
            | inl one ↦
                let e = names.1 (message_range_key-injective user_id c d (keys.0 one)) in cc e
            | inr two ↦ rw differ two
          ]
    ]
