-- ===== src/Message/JsonText.antt =====
-- The texts in which the tables keep maps and vectors (imsdk/src/core/common/json_util.cc).
-- boost::json is a library: a value is what the code reads of one, parsing and printing are
-- parameters, and a failure to parse carries the text of its exception. An object keeps its members
-- in the order in which they were added. Printing throws only when memory runs out, which is not
-- modelled.
pub mod Utf8
pub mod Maps
pub mod Vectors
pub mod Instance
mod Tests
use roc_im_sdk.Prelude.{
  ℕ, ◌-◌, ◌⊎◌, inl, inr, Bool, List, [], ◌∷◌, Str, codes, ℤ, pos, negsuc, ltb, if◌then◌else◌, ◌==◌,
  str_eq, nat_eq,
}
use Prim.Native.Nat.{◌%◌}
use roc_im_sdk.UnorderedMap.{emplace}
use roc_im_sdk.Network.Message.{Error, make_error, make_error_details, Expected, value, unexpected}

-- `real` is a number that is no int64_t, as the cast to int32_t truncates it.
mutual
  pub data JsonValue : Type 0 where
    null : JsonValue
    bool : Bool → JsonValue
    string : Str → JsonValue
    int64 : ℤ → JsonValue
    real : ℤ → JsonValue
    array : JsonArray → JsonValue
    object : JsonObject → JsonValue

  pub data JsonArray : Type 0 where
    nil : JsonArray
    cons : JsonValue → JsonArray → JsonArray

  pub data JsonObject : Type 0 where
    end : JsonObject
    member : Str → JsonValue → JsonObject → JsonObject

-- `json_obj[key] = v`.
unfoldable pub put_member : Str → JsonValue → JsonObject → JsonObject
put_member key v end = member key v end
put_member key v (member k w o) =
    let rest = put_member key v o in if k == key then member k v o else member k w rest

-- The loop of MapSerializeAsString.
unfoldable pub put_all : List (Str × Str) → JsonObject → JsonObject
unfolding put_member
put_all [] o = o
put_all ((key, v) ∷ ext_map) o = put_all ext_map (put_member key (string v) o)

-- The text that a `const char *` stands for: up to the first NUL.
unfoldable pub c_str : Str → Str
c_str [] = []
c_str (c ∷ cs) = let rest = c_str cs in if c == 0 then [] else c ∷ rest

-- `static_cast<int32_t>` of an int64_t.
unfoldable pub to_int32 : ℤ → ℤ
to_int32 (pos n) =
    let low = n % 4294967296 in if ltb low 2147483648 then pos low else negsuc (4294967295 - low)
to_int32 (negsuc n) =
    let low = n % 4294967296 in if ltb low 2147483648 then negsuc low else pos (4294967295 - low)

-- The loop of Int32VectorParseFromString, and of Int32VectorSerializeAsString.
unfoldable pub read_ints : JsonArray → List ℤ
unfolding to_int32
read_ints nil = []
read_ints (cons (int64 n) items) = to_int32 n ∷ read_ints items
read_ints (cons (real n) items) = n ∷ read_ints items
read_ints (cons null items) = read_ints items
read_ints (cons (bool _) items) = read_ints items
read_ints (cons (string _) items) = read_ints items
read_ints (cons (array _) items) = read_ints items
read_ints (cons (object _) items) = read_ints items

unfoldable pub int_items : List ℤ → JsonArray
int_items [] = nil
int_items (n ∷ vec) = cons (int64 n) (int_items vec)

unfoldable pub ints_from_value : Str ⊎ JsonValue → Expected (List ℤ)
unfolding read_ints
ints_from_value (inl what) =
    unexpected (make_error_details 3007 (codes "Failed to parse int32 vector string") what)
ints_from_value (inr (array items)) = value (read_ints items)
ints_from_value (inr null) = unexpected (make_error 3007 (codes "JSON is not an array"))
ints_from_value (inr (bool _)) = unexpected (make_error 3007 (codes "JSON is not an array"))
ints_from_value (inr (string _)) = unexpected (make_error 3007 (codes "JSON is not an array"))
ints_from_value (inr (int64 _)) = unexpected (make_error 3007 (codes "JSON is not an array"))
ints_from_value (inr (real _)) = unexpected (make_error 3007 (codes "JSON is not an array"))
ints_from_value (inr (object _)) = unexpected (make_error 3007 (codes "JSON is not an array"))

-- The loops of StringVectorParseFromString and StringVectorSerializeAsString.
unfoldable pub read_strings : JsonArray → List Str
read_strings nil = []
read_strings (cons (string s) items) = s ∷ read_strings items
read_strings (cons (int64 _) items) = read_strings items
read_strings (cons (real _) items) = read_strings items
read_strings (cons null items) = read_strings items
read_strings (cons (bool _) items) = read_strings items
read_strings (cons (array _) items) = read_strings items
read_strings (cons (object _) items) = read_strings items

unfoldable pub string_items : List Str → JsonArray
string_items [] = nil
string_items (s ∷ vec) = cons (string s) (string_items vec)

unfoldable pub strings_from_value : Str ⊎ JsonValue → Expected (List Str)
unfolding read_strings
strings_from_value (inl what) =
    unexpected (make_error_details 3009 (codes "Failed to parse string vector string") what)
strings_from_value (inr (array items)) = value (read_strings items)
strings_from_value (inr null) = unexpected (make_error 3009 (codes "JSON is not an array"))
strings_from_value (inr (bool _)) = unexpected (make_error 3009 (codes "JSON is not an array"))
strings_from_value (inr (string _)) = unexpected (make_error 3009 (codes "JSON is not an array"))
strings_from_value (inr (int64 _)) = unexpected (make_error 3009 (codes "JSON is not an array"))
strings_from_value (inr (real _)) = unexpected (make_error 3009 (codes "JSON is not an array"))
strings_from_value (inr (object _)) = unexpected (make_error 3009 (codes "JSON is not an array"))

module _ (parse : Str → Str ⊎ JsonValue) (serialize : JsonValue → Str) where
  -- MapSerializeAsString.
  unfoldable pub map_serialize_as_string : List (Str × Str) → Expected Str
  unfolding put_all
  map_serialize_as_string ext_map = value (serialize (object (put_all ext_map end)))

  -- The text of a member that is not a string is its JSON.
  unfoldable pub text_of : JsonValue → Str
  text_of (string s) = s
  text_of null = serialize null
  text_of (bool b) = serialize (bool b)
  text_of (int64 n) = serialize (int64 n)
  text_of (real n) = serialize (real n)
  text_of (array items) = serialize (array items)
  text_of (object o) = serialize (object o)

  unfoldable pub emplace_all : JsonObject → List (Str × Str) → List (Str × Str)
  unfolding text_of c_str
  emplace_all end result = result
  emplace_all (member key v o) result = emplace_all o (emplace (c_str key) (text_of v) result)

  unfoldable pub map_from_value : Str ⊎ JsonValue → Expected (List (Str × Str))
  unfolding emplace_all
  map_from_value (inl what) =
      unexpected (make_error_details 3006 (codes "Failed to parse ext string") what)
  map_from_value (inr (object o)) = value (emplace_all o [])
  map_from_value (inr null) = unexpected (make_error 3006 (codes "JSON is not an object"))
  map_from_value (inr (bool _)) = unexpected (make_error 3006 (codes "JSON is not an object"))
  map_from_value (inr (string _)) = unexpected (make_error 3006 (codes "JSON is not an object"))
  map_from_value (inr (int64 _)) = unexpected (make_error 3006 (codes "JSON is not an object"))
  map_from_value (inr (real _)) = unexpected (make_error 3006 (codes "JSON is not an object"))
  map_from_value (inr (array _)) = unexpected (make_error 3006 (codes "JSON is not an object"))

  -- MapParseFromString.
  unfoldable pub map_parse_from_string : Str → Expected (List (Str × Str))
  unfolding map_from_value
  map_parse_from_string [] = value []
  map_parse_from_string (c ∷ cs) = map_from_value (parse (c ∷ cs))

  -- Int32VectorSerializeAsString and Int32VectorParseFromString.
  unfoldable pub int32_vector_serialize_as_string : List ℤ → Expected Str
  unfolding int_items
  int32_vector_serialize_as_string vec = value (serialize (array (int_items vec)))

  unfoldable pub int32_vector_parse_from_string : Str → Expected (List ℤ)
  unfolding ints_from_value
  int32_vector_parse_from_string [] = value []
  int32_vector_parse_from_string (c ∷ cs) = ints_from_value (parse (c ∷ cs))

  -- StringVectorSerializeAsString and StringVectorParseFromString.
  unfoldable pub string_vector_serialize_as_string : List Str → Expected Str
  unfolding string_items
  string_vector_serialize_as_string vec = value (serialize (array (string_items vec)))

  unfoldable pub string_vector_parse_from_string : Str → Expected (List Str)
  unfolding strings_from_value
  string_vector_parse_from_string [] = value []
  string_vector_parse_from_string (c ∷ cs) = strings_from_value (parse (c ∷ cs))
