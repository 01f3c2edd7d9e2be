-- ===== src/Network/Json/RoundTrip.antt =====
-- Serializing a message and reading it back.
use roc_im_sdk.Prelude.{
  ◌≡◌, refl, ◌≢◌, false, Option, none, some, Str, List, [], ◌∷◌, ◌==◌, str_eq, str_beq,
  if◌then◌else◌, arith, ℤ, pos, eqb_ℤ, codes, All, ap,
}
use roc_im_sdk.UnorderedMap.{find, IsDistinct}
use roc_im_sdk.Network.Message.{FrontierMessage, value}
use roc_im_sdk.Network.Json.{
  Value, string, int64, object, Object, at, put_text, put_timestamp, put_metadata, text_or,
  is_space, remove_spaces, read_timestamp, read_metadata, read_payload, base64_to_payload,
  check_decoded, payload_to_base64, metadata_to_json_object, to_json, from_object, from_json,
}
use roc_im_sdk.Network.Json.Members.{at-put, metadata_round_trip}

-- The member that is written for a text, a timestamp, the metadata.
abbrev text_member : Str → Option Value → Option Value
text_member [] d = d
text_member (c ∷ cs) d = some (string (c ∷ cs))

abbrev timestamp_member : ℤ → Option Value → Option Value
timestamp_member t d = if eqb_ℤ t (pos 0) then d else some (int64 t)

abbrev metadata_member : List (Str × Str) → Option Value → Option Value
metadata_member [] d = d
metadata_member (e ∷ es) d = some (object (metadata_to_json_object (e ∷ es)))

at-put_text :
    (k j s : Str) (o : Object)
    → at j (put_text k s o) ≡ (if k == j then text_member s (at j o) else at j o)
unfolding put_text
at-put_text k j [] o = ground arith
at-put_text k j (c ∷ cs) o = at-put k j (string (c ∷ cs)) o

at-put_timestamp :
    (j : Str) (t : ℤ) (o : Object)
    → at j (put_timestamp t o)
      ≡ (if codes "timestamp" == j then timestamp_member t (at j o) else at j o)
unfolding put_timestamp
at-put_timestamp j t o = ground (arith, at-put (codes "timestamp") j (int64 t) o)

at-put_metadata :
    (j : Str) (m : List (Str × Str)) (o : Object)
    → at j (put_metadata m o)
      ≡ (if codes "metadata" == j then metadata_member m (at j o) else at j o)
unfolding put_metadata
at-put_metadata j [] o = ground arith
at-put_metadata j (e ∷ es) o = at-put (codes "metadata") j _ o

read_text : (s : Str) → text_or (text_member s none) [] ≡ s
unfolding text_or
read_text [] = refl
read_text (c ∷ cs) = refl

read_time :
    (t unset : ℤ)
    → read_timestamp (timestamp_member t none) unset ≡ value (if eqb_ℤ t (pos 0) then unset else t)
unfolding read_timestamp
read_time t unset = ground arith

read_meta :
    (m : List (Str × Str)) (j : Str)
    → IsDistinct m
    → find j (read_metadata (metadata_member m none)) ≡ find j m
unfolding read_metadata
read_meta [] j d = refl
read_meta (e ∷ es) j d = metadata_round_trip (e ∷ es) j d

remove_spaces_none : (s : Str) → All (λ c. is_space c ≡ false) s → remove_spaces s ≡ s
unfolding remove_spaces
remove_spaces_none [] a = refl
remove_spaces_none (c ∷ cs) a = rw a.0 (ap (λ t. c ∷ t) (remove_spaces_none cs a.1))

read_solid :
    (encode decode : Str → Str) (s p : Str)
    → All (λ c. is_space c ≡ false) s
    → s ≢ []
    → p ≢ []
    → decode s ≡ p
    → read_payload encode decode (text_member s none) ≡ value p
unfolding read_payload base64_to_payload check_decoded
read_solid encode decode [] p a s-ne p-ne e = absurd (s-ne refl)
read_solid encode decode (c ∷ cs) [] a s-ne p-ne e = absurd (p-ne refl)
read_solid encode decode (c ∷ cs) (b ∷ bs) a s-ne p-ne e =
    let clean = remove_spaces_none (c ∷ cs) a in rw clean (rw (e, check_decoded))

-- What is known of base64: the text of some bytes is not empty and has no space in it, and decodes
-- to those bytes.
module _ (encode decode : Str → Str) (solid : (p : Str) → All (λ c. is_space c ≡ false) (encode p))
    (inhabited : (p : Str) → p ≢ [] → encode p ≢ [])
    (inverse : (p : Str) → decode (encode p) ≡ p) where
  read_pay :
      (p : Str)
      → read_payload encode decode (text_member (payload_to_base64 encode decode p) none) ≡ value p
  unfolding read_payload payload_to_base64
  read_pay [] = refl
  read_pay (b ∷ bs) =
      let ne : (b ∷ bs) ≢ [] = λ e. cc e in
      read_solid encode decode (encode (b ∷ bs)) (b ∷ bs) (solid (b ∷ bs)) (inhabited (b ∷ bs) ne)
        ne (inverse (b ∷ bs))

  -- A message that is serialized to a JSON value and read back is the message, with two
  -- exceptions: the metadata have the same entries, perhaps in another order, and a timestamp of
  -- zero comes back as whatever the uninitialised field of the new message holds.
  pub json_round_trip :
      (unset : ℤ) (msg : FrontierMessage)
      → IsDistinct msg.metadata
      → (metadata : List (Str × Str)) × (from_json encode decode unset (to_json encode decode msg)
          ≡ value (record msg {
            timestamp = if eqb_ℤ msg.timestamp (pos 0) then unset else msg.timestamp;
            metadata = metadata;
          }))
        × ((j : Str) → find j metadata ≡ find j msg.metadata)
  unfolding from_json from_object to_json str_beq at
  json_round_trip unset msg d = (
    read_metadata (metadata_member msg.metadata none),
    simp (at-put_metadata, at-put_timestamp, at-put_text, read_text, read_time, read_pay),
    λ j. read_meta msg.metadata j d,
  )
