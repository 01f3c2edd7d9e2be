-- ===== src/Network/Json/Tests.antt =====
-- Runs and instances of the serializer. The coding that stands in for base64 shifts each byte past
-- the white space.
use roc_im_sdk.Prelude.{
  ℕ, ◌+◌, ◌-◌, ◌≡◌, refl, ◌≢◌, ◌∙◌, false, Str, List, [], ◌∷◌, map, arith, All, codes, pos, str_eq,
  str_beq, ap, if◌then◌else◌, eqb_ℤ,
}
use roc_im_sdk.UnorderedMap.{find}
use roc_im_sdk.Network.Message.{FrontierMessage, value, unexpected, make_error, empty_message}
use roc_im_sdk.Network.Json.{string, int64, object, end, member, is_space, from_json, to_json, at}
use roc_im_sdk.Network.Json.RoundTrip.{json_round_trip}

abbrev shift : Str → Str
shift = map (λ b. b + 33)

abbrev unshift : Str → Str
unshift = map (λ b. b - 33)

shift_solid : (p : Str) → All (λ c. is_space c ≡ false) (shift p)
unfolding is_space
shift_solid [] = tt
shift_solid (b ∷ bs) = (ground arith, shift_solid bs)

shift_inhabited : (p : Str) → p ≢ [] → shift p ≢ []
shift_inhabited [] ne = ne
shift_inhabited (b ∷ bs) ne = λ e. cc e

shift_inverse : (p : Str) → unshift (shift p) ≡ p
shift_inverse [] = refl
shift_inverse (b ∷ bs) =
    ap (λ t. (b + 33 - 33) ∷ t) (shift_inverse bs) ∙ ap (λ (c : ℕ). c ∷ bs) (omega arith)

abbrev hello : FrontierMessage
hello = record {
  request_id = codes "0_u1_d1";
  type = codes "request";
  service = codes "sdkws";
  method = [];
  payload = 0 ∷ 255 ∷ [];
  error = [];
  timestamp = pos 1700;
  metadata = (codes "track_id", codes "7") ∷ [];
}

written :
    to_json shift unshift (empty_message (pos 5))
    ≡ object (member (codes "timestamp") (int64 (pos 5)) end)
unfolding to_json
written = refl

bad_timestamp :
    from_json shift unshift (pos 0) (object (member (codes "timestamp") (string (codes "5")) end))
    ≡ unexpected (make_error 1004 (codes "Invalid timestamp format"))
unfolding from_json at str_beq
bad_timestamp = refl

json_round_trip_example :
    (metadata : List (Str × Str)) × (from_json shift unshift (pos 9) (to_json shift unshift hello)
      ≡ value (record hello {
        timestamp = if eqb_ℤ (pos 1700) (pos 0) then pos 9 else pos 1700;
        metadata = metadata;
      }))
    × ((j : Str) → find j metadata ≡ find j hello.metadata)
unfolding find
json_round_trip_example =
    json_round_trip shift unshift shift_solid shift_inhabited shift_inverse (pos 9) hello (refl, tt)
