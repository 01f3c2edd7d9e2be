-- ===== src/Message/JsonText/Vectors.antt =====
-- Vectors of int32_t as texts.
use roc_im_sdk.Prelude.{
  ◌≤◌, ◌<◌, ◌≡◌, refl, ap, ◌≢◌, ◌⊎◌, inr, List, [], ◌∷◌, Str, ℤ, pos, negsuc, pos_part, neg_part,
  arith, All,
}
use Prim.Native.Nat.{◌%◌}
use roc_im_sdk.Network.Message.{value}
use roc_im_sdk.Message.JsonText.{
  JsonValue, array, JsonArray, to_int32, read_ints, int_items, ints_from_value,
  int32_vector_serialize_as_string, int32_vector_parse_from_string,
}

-- The values of int32_t.
abbrev pub IsInt32 : ℤ → Type 0
IsInt32 n = (pos_part n < 2147483648) × (neg_part n ≤ 2147483648)

to_int32_lem : (n : ℤ) → IsInt32 n → to_int32 n ≡ n
unfolding to_int32
to_int32_lem (pos n) h = let low : n % 4294967296 ≡ n = omega arith in rw low (ground arith)
to_int32_lem (negsuc n) h = let low : n % 4294967296 ≡ n = omega arith in rw low (ground arith)

read_ints-int_items : (vec : List ℤ) → All IsInt32 vec → read_ints (int_items vec) ≡ vec
unfolding read_ints int_items
read_ints-int_items [] h = refl
read_ints-int_items (n ∷ vec) h = λ i. to_int32_lem n h.0 i ∷ read_ints-int_items vec h.1 i

module _ (parse : Str → Str ⊎ JsonValue) (serialize : JsonValue → Str) where
  parsed_array :
      (text : Str)
      → text ≢ []
      → (items : JsonArray) → parse text ≡ inr (array items)
      → int32_vector_parse_from_string parse serialize text ≡ value (read_ints items)
  unfolding int32_vector_parse_from_string ints_from_value
  parsed_array [] ne items h = absurd (ne refl)
  parsed_array (c ∷ cs) ne items h = ap ints_from_value h

  -- Where a printed array of int32_t values is parsed to that array and no printed text is empty: a
  -- vector of int32_t is serialized, and the same vector is parsed from the text.
  pub vector_round_trip :
      ((v : List ℤ)
        → All IsInt32 v
        → parse (serialize (array (int_items v))) ≡ inr (array (int_items v)))
      → ((v : JsonValue) → serialize v ≢ [])
      → (vec : List ℤ) → All IsInt32 vec
      → (text : Str) × (int32_vector_serialize_as_string parse serialize vec ≡ value text)
        × (int32_vector_parse_from_string parse serialize text ≡ value vec)
  unfolding int32_vector_serialize_as_string
  vector_round_trip read_back inhabited vec h =
      let items = int_items vec in
      (
        serialize (array items),
        refl,
        rw
            (parsed_array (serialize (array items)) (inhabited (array items)) items
              (read_back vec h))
            (ap value (read_ints-int_items vec h)),
      )
