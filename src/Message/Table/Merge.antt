-- ===== src/Message/Table/Merge.antt =====
-- The merge of an extension: what it finds, and that its text is read back.
use roc_im_sdk.Prelude.{
  ◌≡◌, refl, ◌∙◌, ap, sym, subst, ◌≢◌, ◌⊎◌, inl, inr, Bool-cases, Option-cases, List, [], ◌∷◌, Str,
  str_eq, nat_eq, ◌==◌, arith, All, true, str_beq_iff,
}
use roc_im_sdk.UnorderedMap.{find, assign, replace, emplace, IsDistinct}
use roc_im_sdk.UnorderedMap.Laws.{find-assign, assign-IsDistinct, emplace-IsDistinct}
use roc_im_sdk.Message.JsonText.{
  JsonValue, null, bool, string, int64, real, array, object, JsonObject, end, member, put_all,
  c_str, text_of, emplace_all, map_from_value, map_parse_from_string, map_serialize_as_string,
}
use roc_im_sdk.Message.JsonText.Utf8.{IsUtf8, IsUtf8-c_str}
use roc_im_sdk.Message.JsonText.Maps.{IsText, IsPrintable, texts_object, map_round_trip}
use roc_im_sdk.Message.Table.{value_or_empty}
use roc_im_sdk.Message.Table.Extensions.{merge_ext}

pub find-merge_ext :
    (k : Str) (ext a b : List (Str × Str))
    → ((j : Str) → find j a ≡ find j b)
    → find k (merge_ext ext a) ≡ find k (merge_ext ext b)
unfolding merge_ext
find-merge_ext k [] a b same = same k
find-merge_ext k ((j, v) ∷ ext) a b same =
    find-merge_ext k ext (assign j v a) (assign j v b)
      λ i. find-assign j i v a ∙ ground (arith, same i, find-assign j i v b)

All-replace :
    (P : Str × Str → Type 0) (k v : Str) (m : List (Str × Str))
    → ((j : Str) → (j == k) ≡ true → P (j, v))
    → All P m
    → All P (replace k v m)
unfolding replace
All-replace P k v [] p a = tt
All-replace P k v ((j, w) ∷ m) p a = elim (Bool-cases (j == k)) [
  | inl same ↦ rw same (p j same, All-replace P k v m p a.1)
  | inr differ ↦ rw differ (a.0, All-replace P k v m p a.1)
]

IsPrintable-assign :
    (k v : Str) (m : List (Str × Str)) → IsText (k, v) → IsPrintable m → IsPrintable (assign k v m)
unfolding assign
IsPrintable-assign k v m p a = elim (Option-cases (find k m)) [
  | inl miss ↦ rw (miss, assign) (p, a)
  | inr (w, hit) ↦
      rw (hit, assign)
        (All-replace IsText k v m
          (λ j same. subst (λ i. IsText (i, v)) (sym ((str_beq_iff j k).0 same)) p) a)
]

IsPrintable-emplace :
    (k v : Str) (m : List (Str × Str)) → IsText (k, v) → IsPrintable m → IsPrintable (emplace k v m)
unfolding emplace
IsPrintable-emplace k v m p a = elim (Option-cases (find k m)) [
  | inl miss ↦ rw (miss, emplace) (p, a)
  | inr (w, hit) ↦ rw (hit, emplace) a
]

merge_ext-IsDistinct : (ext m : List (Str × Str)) → IsDistinct m → IsDistinct (merge_ext ext m)
unfolding merge_ext
merge_ext-IsDistinct [] m d = d
merge_ext-IsDistinct ((k, v) ∷ ext) m d =
    merge_ext-IsDistinct ext (assign k v m) (assign-IsDistinct k v m d)

merge_ext-IsPrintable :
    (ext m : List (Str × Str)) → IsPrintable ext → IsPrintable m → IsPrintable (merge_ext ext m)
unfolding merge_ext
merge_ext-IsPrintable [] m p a = a
merge_ext-IsPrintable ((k, v) ∷ ext) m p a =
    merge_ext-IsPrintable ext (assign k v m) p.1 (IsPrintable-assign k v m p.0 a)

c_str-c_str : (s : Str) → c_str (c_str s) ≡ c_str s
unfolding c_str
c_str-c_str [] = refl
c_str-c_str (c ∷ cs) = elim (Bool-cases (c == 0)) [
  | inl nul ↦ rw nul refl
  | inr other ↦ rw other (rw other (ap (λ t. c ∷ t) (c_str-c_str cs)))
]

abbrev IsClean : List (Str × Str) → Type 0
IsClean m = IsDistinct m × IsPrintable m

module _ (parse : Str → Str ⊎ JsonValue) (serialize : JsonValue → Str) where
  -- The members, read as texts, are UTF-8.
  abbrev pub IsUtf8Object : JsonObject → Type 0
  IsUtf8Object end = Unit {0}
  IsUtf8Object (member k v o) = IsUtf8 k × IsUtf8 (text_of parse serialize v) × IsUtf8Object o

  emplace_all-IsClean :
      (o : JsonObject) (m : List (Str × Str))
      → IsUtf8Object o
      → IsClean m
      → IsClean (emplace_all parse serialize o m)
  unfolding emplace_all
  emplace_all-IsClean end m u c = c
  emplace_all-IsClean (member k v o) m (key_utf8, value_utf8, u) (d, p) =
      let w = text_of parse serialize v in
      let text : IsText (c_str k, w) = (c_str-c_str k, IsUtf8-c_str k key_utf8, value_utf8) in
      emplace_all-IsClean o (emplace (c_str k) w m) u
        (emplace-IsDistinct (c_str k) w m d, IsPrintable-emplace (c_str k) w m text p)

  map_from_value-IsClean :
      (r : Str ⊎ JsonValue)
      → ((o : JsonObject) → r ≡ inr (object o) → IsUtf8Object o)
      → IsClean (value_or_empty (map_from_value parse serialize r))
  unfolding map_from_value value_or_empty
  map_from_value-IsClean (inl what) u = (tt, tt)
  map_from_value-IsClean (inr null) u = (tt, tt)
  map_from_value-IsClean (inr (bool _)) u = (tt, tt)
  map_from_value-IsClean (inr (string _)) u = (tt, tt)
  map_from_value-IsClean (inr (int64 _)) u = (tt, tt)
  map_from_value-IsClean (inr (real _)) u = (tt, tt)
  map_from_value-IsClean (inr (array _)) u = (tt, tt)
  map_from_value-IsClean (inr (object o)) u = emplace_all-IsClean o [] (u o refl) (tt, tt)

  abbrev pub parsed : Str → List (Str × Str)
  parsed text = value_or_empty (map_parse_from_string parse serialize text)

  parsed-IsClean :
      ((t : Str) (o : JsonObject) → parse t ≡ inr (object o) → IsUtf8Object o)
      → (text : Str) → IsClean (parsed text)
  unfolding map_parse_from_string value_or_empty
  parsed-IsClean u [] = (tt, tt)
  parsed-IsClean u (c ∷ cs) = map_from_value-IsClean (parse (c ∷ cs)) (λ o e. u (c ∷ cs) o e)

  module _
      (read_back : (m : List (Str × Str))
        → IsDistinct m
        → IsPrintable m
        → parse (serialize (object (texts_object m))) ≡ inr (object (texts_object m)))
      (reads_utf8 : (t : Str) (o : JsonObject) → parse t ≡ inr (object o) → IsUtf8Object o)
      (inhabited : (v : JsonValue) → serialize v ≢ []) where
    -- The text of a merge is read back as the merge.
    pub find-merged_text :
        (k text : Str) (ext : List (Str × Str))
        → IsPrintable ext
        → find k (parsed (serialize (object (put_all (merge_ext ext (parsed text)) end))))
          ≡ find k (merge_ext ext (parsed text))
    unfolding map_serialize_as_string value_or_empty
    find-merged_text k text ext p =
        let m = merge_ext ext (parsed text) in
        let (distinct, printable) = parsed-IsClean reads_utf8 text in
        let (t, result, printed, back, same) =
          map_round_trip parse serialize read_back inhabited m
            (merge_ext-IsDistinct ext (parsed text) distinct)
            (merge_ext-IsPrintable ext (parsed text) p printable) in
        let text_eq : serialize (object (put_all m end)) ≡ t = cc printed in
        rw text_eq (rw back (same k))
