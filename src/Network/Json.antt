-- ===== src/Network/Json.antt =====
-- FrontierMessageJsonSerializer (imsdk/src/core/network/connection). boost::json and the base64 of
-- boost::beast are libraries: a JSON value is what the code reads of one, and parsing, printing and
-- base64 are parameters. An object keeps its members in the order in which they were added.
pub mod Members
pub mod RoundTrip
mod Tests
use roc_im_sdk.Prelude.{
  ℕ, Bool, true, false, ◌&&◌, ◌||◌, List, [], ◌∷◌, ◌++◌, Option, none, some, Str, codes, leb, ltb,
  ℤ, pos, ◌-ℤ◌, ◌==◌, nat_eq, str_eq, eqb_ℤ, if◌then◌else◌,
}
use roc_im_sdk.UnorderedMap.{assign}
use roc_im_sdk.Network.Message.{
  Error, make_error, Expected, value, unexpected, FrontierMessage, empty_message,
}

-- `other` is a value of a kind that the code does not ask for.
mutual
  pub data Value : Type 0 where
    null : Value
    string : Str → Value
    int64 : ℤ → Value
    uint64 : ℕ → Value
    object : Object → Value
    other : Value

  pub data Object : Type 0 where
    end : Object
    member : Str → Value → Object → Object

-- `obj.contains(key)` and `obj.at(key)`.
pub at : Str → Object → Option Value
at key end = none
at key (member k v o) = if k == key then some v else at key o

-- `obj[key] = v`.
pub put : Str → Value → Object → Object
put key v end = member key v end
put key v (member k w o) =
    let rest = put key v o in if k == key then member k v o else member k w rest

-- std::isspace in the "C" locale.
pub is_space : ℕ → Bool
is_space c = c == 32 || (leb 9 c && leb c 13)

pub remove_spaces : Str → Str
unfolding is_space
remove_spaces [] = []
remove_spaces (c ∷ cs) = if is_space c then remove_spaces cs else c ∷ remove_spaces cs

-- MetadataToJsonObject.
pub metadata_loop : List (Str × Str) → Object → Object
unfolding put
metadata_loop [] o = o
metadata_loop ((key, v) ∷ metadata) o = metadata_loop metadata (put key (string v) o)

pub metadata_to_json_object : List (Str × Str) → Object
unfolding metadata_loop
metadata_to_json_object metadata = metadata_loop metadata end

-- JsonObjectToMetadata: members that are not strings are skipped.
pub add_metadata : Str → Value → List (Str × Str) → List (Str × Str)
add_metadata key (string v) metadata = assign key v metadata
add_metadata key null metadata = metadata
add_metadata key (int64 _) metadata = metadata
add_metadata key (uint64 _) metadata = metadata
add_metadata key (object _) metadata = metadata
add_metadata key other metadata = metadata

pub object_loop : Object → List (Str × Str) → List (Str × Str)
unfolding add_metadata
object_loop end metadata = metadata
object_loop (member key v o) metadata = object_loop o (add_metadata key v metadata)

pub json_object_to_metadata : Object → List (Str × Str)
unfolding object_loop
json_object_to_metadata o = object_loop o []

-- `if (!text.empty()) obj[key] = text`.
pub put_text : Str → Str → Object → Object
unfolding put
put_text key [] o = o
put_text key (c ∷ cs) o = put key (string (c ∷ cs)) o

pub put_timestamp : ℤ → Object → Object
unfolding put
put_timestamp t o = if eqb_ℤ t (pos 0) then o else put (codes "timestamp") (int64 t) o

pub put_metadata : List (Str × Str) → Object → Object
unfolding put metadata_to_json_object
put_metadata [] o = o
put_metadata (e ∷ es) o = put (codes "metadata") (object (metadata_to_json_object (e ∷ es))) o

-- The string under a key, where there is one; else what the field holds already.
pub text_or : Option Value → Str → Str
text_or none d = d
text_or (some (string s)) d = s
text_or (some null) d = d
text_or (some (int64 _)) d = d
text_or (some (uint64 _)) d = d
text_or (some (object _)) d = d
text_or (some other) d = d

-- The timestamp: `static_cast<int64_t>` wraps a number of 2^63 and more.
pub to_int64 : ℕ → ℤ
to_int64 n = if ltb n 9223372036854775808 then pos n else pos n -ℤ pos 18446744073709551616

pub read_timestamp : Option Value → ℤ → Expected ℤ
unfolding to_int64
read_timestamp none d = value d
read_timestamp (some (int64 n)) d = value n
read_timestamp (some (uint64 n)) d = value (to_int64 n)
read_timestamp (some null) d = unexpected (make_error 1004 (codes "Invalid timestamp format"))
read_timestamp (some (string _)) d = unexpected (make_error 1004 (codes "Invalid timestamp format"))
read_timestamp (some (object _)) d = unexpected (make_error 1004 (codes "Invalid timestamp format"))
read_timestamp (some other) d = unexpected (make_error 1004 (codes "Invalid timestamp format"))

pub read_metadata : Option Value → List (Str × Str)
unfolding json_object_to_metadata
read_metadata none = []
read_metadata (some (object o)) = json_object_to_metadata o
read_metadata (some null) = []
read_metadata (some (string _)) = []
read_metadata (some (int64 _)) = []
read_metadata (some (uint64 _)) = []
read_metadata (some other) = []

-- Errors pass through.
infixl 5 ◌>>=◌
abbrev pub ◌>>=◌ : {A B : Type 0} → Expected A → (A → Expected B) → Expected B
value a >>= f = f a
unexpected e >>= f = unexpected e

-- base64::encode, and the bytes that base64::decode writes.
module _ (encode decode : Str → Str) where
  -- PayloadToBase64String.
  pub payload_to_base64 : Str → Str
  payload_to_base64 [] = []
  payload_to_base64 (b ∷ bs) = encode (b ∷ bs)

  -- The end of Base64StringToPayload: no byte at all is an error.
  pub check_decoded : Str → Str → Expected Str
  check_decoded base64 [] =
      unexpected
        (make_error 1006 (codes "Failed to decode base64 payload: invalid data, str = " ++ base64))
  check_decoded base64 (b ∷ bs) = value (b ∷ bs)

  pub decode_cleaned : Str → Str → Expected Str
  unfolding check_decoded
  decode_cleaned base64 [] = value []
  decode_cleaned base64 (c ∷ cs) = check_decoded base64 (decode (c ∷ cs))

  -- Base64StringToPayload.
  pub base64_to_payload : Str → Expected Str
  unfolding decode_cleaned remove_spaces
  base64_to_payload [] = value []
  base64_to_payload (c ∷ cs) = decode_cleaned (c ∷ cs) (remove_spaces (c ∷ cs))

  pub read_payload : Option Value → Expected Str
  unfolding base64_to_payload
  read_payload none = value []
  read_payload (some (string s)) = base64_to_payload s
  read_payload (some null) = value []
  read_payload (some (int64 _)) = value []
  read_payload (some (uint64 _)) = value []
  read_payload (some (object _)) = value []
  read_payload (some other) = value []

  -- ToJson.
  pub to_json : FrontierMessage → Value
  unfolding put_text payload_to_base64 put_timestamp put_metadata
  to_json msg = object (
      put_metadata msg.metadata (
        put_timestamp msg.timestamp (
          put_text (codes "error") msg.error (
            put_text (codes "payload") (payload_to_base64 msg.payload) (
              put_text (codes "method") msg.method (
                put_text (codes "service") msg.service (
                  put_text (codes "type") msg.type
                    (put_text (codes "requestID") msg.request_id end))))))))

  -- FromJson of an object; `unset` is what the uninitialised timestamp of the message holds.
  pub from_object : ℤ → Object → Expected FrontierMessage
  unfolding at text_or read_payload read_timestamp read_metadata
  from_object unset o = read_payload (at (codes "payload") o) >>= λ payload.
      read_timestamp (at (codes "timestamp") o) unset >>= λ timestamp. value (record {
        request_id = text_or (at (codes "requestID") o) [];
        type = text_or (at (codes "type") o) [];
        service = text_or (at (codes "service") o) [];
        method = text_or (at (codes "method") o) [];
        payload = payload;
        error = text_or (at (codes "error") o) [];
        timestamp = timestamp;
        metadata = read_metadata (at (codes "metadata") o);
      })

  -- FromJson.
  pub from_json : ℤ → Value → Expected FrontierMessage
  unfolding from_object
  from_json unset (object o) = from_object unset o
  from_json unset null = unexpected (make_error 1002 (codes "JSON value is not an object"))
  from_json unset (string _) = unexpected (make_error 1002 (codes "JSON value is not an object"))
  from_json unset (int64 _) = unexpected (make_error 1002 (codes "JSON value is not an object"))
  from_json unset (uint64 _) = unexpected (make_error 1002 (codes "JSON value is not an object"))
  from_json unset other = unexpected (make_error 1002 (codes "JSON value is not an object"))

-- What boost::json::parse makes of a text: a value, or an exception with its text.
pub data Parsed : Type 0 where
  parsed : Value → Parsed
  invalid : Str → Parsed

module _ (encode decode : Str → Str) (parse : Str → Parsed) where
  pub from_parsed : ℤ → Parsed → Expected FrontierMessage
  unfolding from_json
  from_parsed unset (parsed v) = from_json encode decode unset v
  from_parsed unset (invalid what) =
      unexpected (make_error 1002 (codes "Failed to parse JSON: " ++ what))

  -- FromJsonBuffer.
  pub from_json_buffer : ℤ → Str → Expected FrontierMessage
  unfolding from_parsed
  from_json_buffer unset [] =
      unexpected (make_error 1001 (codes "Invalid buffer: data is null or size is zero"))
  from_json_buffer unset (c ∷ cs) = from_parsed unset (parse (c ∷ cs))
