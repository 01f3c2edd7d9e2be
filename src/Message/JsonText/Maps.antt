-- ===== src/Message/JsonText/Maps.antt =====
-- Maps as texts.
use roc_im_sdk.Prelude.{
  ◌≡◌, refl, ◌∙◌, ap, ◌≢◌, ◌⊎◌, inr, List, [], ◌∷◌, ◌++◌, none, some, Str, str_eq, str_beq_iff,
  ◌==◌, if◌then◌else◌, arith, All,
}
use roc_im_sdk.Message.JsonText.Utf8.{IsUtf8}
use roc_im_sdk.UnorderedMap.{find, emplace, IsDistinct}
use roc_im_sdk.UnorderedMap.Laws.{find-emplace}
use roc_im_sdk.Network.Message.{value}
use roc_im_sdk.Message.JsonText.{
  JsonValue, string, object, JsonObject, end, member, put_member, put_all, c_str, emplace_all,
  map_serialize_as_string, map_from_value, map_parse_from_string,
}

-- The object with these members, all of them texts.
abbrev pub texts_object : List (Str × Str) → JsonObject
texts_object [] = end
texts_object ((k, v) ∷ m) = member k (string v) (texts_object m)

put_member_new :
    (k v : Str) (m : List (Str × Str))
    → find k m ≡ none
    → put_member k (string v) (texts_object m) ≡ texts_object (m ++ (k, v) ∷ [])
unfolding put_member find
put_member_new k v [] h = refl
put_member_new k v ((j, w) ∷ m) h = ground (arith, put_member_new k v m)

find_append :
    (j k v : Str) (m : List (Str × Str))
    → find j (m ++ (k, v) ∷ [])
      ≡ elim (find j m) [ none ↦ (if k == j then some v else none) | some w ↦ some w ]
unfolding find
find_append j k v [] = refl
find_append j k v ((i, w) ∷ m) = ground (arith, find_append j k v m)

abbrev Absent : List (Str × Str) → List (Str × Str) → Type 0
Absent acc m = All (λ e. find e.0 acc ≡ none) m

Absent-next :
    (k v : Str) (acc m : List (Str × Str))
    → find k m ≡ none
    → Absent acc m
    → Absent (acc ++ (k, v) ∷ []) m
unfolding find
Absent-next k v acc [] h a = tt
Absent-next k v acc ((j, w) ∷ m) h a = (
  ground (arith, find_append j k v acc, str_beq_iff j k, str_beq_iff k j, a.0),
  Absent-next k v acc m (ground (arith)) a.1,
)

append_assoc :
    (acc : List (Str × Str)) (e : Str × Str) (m : List (Str × Str))
    → (acc ++ e ∷ []) ++ m ≡ acc ++ e ∷ m
append_assoc [] e m = refl
append_assoc (d ∷ acc) e m = ap (λ t. d ∷ t) (append_assoc acc e m)

put_all_texts :
    (m acc : List (Str × Str))
    → IsDistinct m
    → Absent acc m
    → put_all m (texts_object acc) ≡ texts_object (acc ++ m)
unfolding put_all
put_all_texts [] acc d a = ap texts_object (append_nil acc)
  where
    append_nil : (xs : List (Str × Str)) → xs ≡ xs ++ []
    append_nil [] = refl
    append_nil (x ∷ xs) = ap (λ t. x ∷ t) (append_nil xs)
put_all_texts ((k, v) ∷ m) acc d a =
    ap (put_all m) (put_member_new k v acc a.0)
    ∙ put_all_texts m (acc ++ (k, v) ∷ []) d.1 (Absent-next k v acc m d.0 a.1)
    ∙ ap texts_object (append_assoc acc (k, v) m)

nothing-Absent : (m : List (Str × Str)) → Absent [] m
unfolding find
nothing-Absent [] = tt
nothing-Absent (e ∷ m) = (refl, nothing-Absent m)

-- An entry of texts in UTF-8 whose key has no NUL, and a map of such entries.
abbrev pub IsText : Str × Str → Type 0
IsText (k, v) = (c_str k ≡ k) × IsUtf8 k × IsUtf8 v

abbrev pub IsPrintable : List (Str × Str) → Type 0
IsPrintable = All IsText

module _ (parse : Str → Str ⊎ JsonValue) (serialize : JsonValue → Str) where
  find-emplace_all :
      (k : Str) (m acc : List (Str × Str))
      → IsPrintable m
      → find k (emplace_all parse serialize (texts_object m) acc)
        ≡ elim (find k acc) [ none ↦ find k m | some v ↦ some v ]
  unfolding emplace_all find
  find-emplace_all k [] acc p = ground arith
  find-emplace_all k ((j, w) ∷ m) acc p =
      let ih = find-emplace_all k m (emplace (c_str j) w acc) p.1 in
      ih ∙ rw p.0.0 (ground (arith, find-emplace j k w acc, str_beq_iff j k))

  parsed_text :
      (text : Str)
      → text ≢ []
      → (o : JsonObject) → parse text ≡ inr (object o)
      → map_parse_from_string parse serialize text ≡ value (emplace_all parse serialize o [])
  unfolding map_parse_from_string map_from_value
  parsed_text [] ne o h = absurd (ne refl)
  parsed_text (c ∷ cs) ne o h = ap (map_from_value parse serialize) h

  -- Where a printed object of UTF-8 texts, with no NUL in its keys, is parsed to that object, and no
  -- printed text is empty: a map of such texts whose keys are distinct is serialized, and what is
  -- parsed from the text has the same value under every key.
  pub map_round_trip :
      ((m : List (Str × Str))
        → IsDistinct m
        → IsPrintable m
        → parse (serialize (object (texts_object m))) ≡ inr (object (texts_object m)))
      → ((v : JsonValue) → serialize v ≢ [])
      → (m : List (Str × Str)) → IsDistinct m
      → IsPrintable m
      → (text : Str) × (result : List (Str × Str)) × (map_serialize_as_string parse serialize m
          ≡ value text)
        × (map_parse_from_string parse serialize text ≡ value result)
        × ((k : Str) → find k result ≡ find k m)
  unfolding map_serialize_as_string find
  map_round_trip read_back inhabited m d p =
      let o = texts_object m in
      let same : put_all m end ≡ o = put_all_texts m [] d (nothing-Absent m) in
      (
        serialize (object o),
        emplace_all parse serialize o [],
        ap (λ t. value (serialize (object t))) same,
        parsed_text (serialize (object o)) (inhabited (object o)) o (read_back m d p),
        λ k. find-emplace_all k m [] p,
      )
