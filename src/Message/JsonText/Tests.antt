-- ===== src/Message/JsonText/Tests.antt =====
-- Runs and instances of the texts, with the coding that stands in for JSON: a text is its codes, each
-- raised by one, and an end.
use roc_im_sdk.Prelude.{◌≡◌, refl, inr, List, [], ◌∷◌, Str, codes, pos, negsuc, str_eq, str_beq}
use roc_im_sdk.UnorderedMap.{find, emplace}
use roc_im_sdk.Network.Message.{value}
use roc_im_sdk.Message.JsonText.{
  int64, object, end, member, to_int32, c_str, map_serialize_as_string, map_parse_from_string,
}
use roc_im_sdk.Message.JsonText.Instance.{serialize, parse, inhabited, map_back}
use roc_im_sdk.Message.JsonText.Maps.{map_round_trip}

abbrev ext : List (Str × Str)
ext = (codes "color", codes "red") ∷ (codes "size", []) ∷ []

narrowed : to_int32 (pos 4294967295) ≡ negsuc 0
unfolding to_int32
narrowed = refl

not_a_string :
    map_parse_from_string
      (λ s. inr (object (member (codes "n") (int64 (pos 7)) end)))
      serialize
      (codes "{}")
    ≡ value ((codes "n", 3 ∷ []) ∷ [])
unfolding map_parse_from_string c_str find emplace
not_a_string = refl

map_round_trip_example :
    (text : Str) × (result : List (Str × Str)) × (map_serialize_as_string parse serialize ext
      ≡ value text)
    × (map_parse_from_string parse serialize text ≡ value result)
    × ((k : Str) → find k result ≡ find k ext)
unfolding find str_beq c_str
map_round_trip_example =
    map_round_trip parse serialize map_back inhabited ext (refl, (refl, tt))
      ((refl, refl, refl), ((refl, refl, refl), tt))
