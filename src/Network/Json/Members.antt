-- ===== src/Network/Json/Members.antt =====
-- What is found under a key of an object, and the metadata of a message as an object and back.
use roc_im_sdk.Prelude.{
  ◌≡◌, refl, ◌∙◌, inl, inr, Option, none, some, Str, List, [], ◌∷◌, ◌==◌, str_eq, str_beq_iff,
  if◌then◌else◌, arith, Bool-cases, subst,
}
use roc_im_sdk.UnorderedMap.{find, IsDistinct}
use roc_im_sdk.UnorderedMap.Laws.{find-assign}
use roc_im_sdk.Network.Json.{
  Value, null, string, int64, uint64, object, other, Object, end, member, at, put, metadata_loop,
  add_metadata, object_loop, metadata_to_json_object, json_object_to_metadata,
}

pub at-put :
    (k j : Str) (v : Value) (o : Object) → at j (put k v o) ≡ (if k == j then some v else at j o)
unfolding at put
at-put k j v end = refl
at-put k j v (member i w o) =
    ground (arith, str_beq_iff k j, str_beq_iff i k, str_beq_iff i j, at-put k j v o)

-- A key stands in one member at most.
abbrev Members : Object → Type 0
Members end = Unit {0}
Members (member k v o) = (at k o ≡ none) × Members o

put-Members : (k : Str) (v : Value) (o : Object) → Members o → Members (put k v o)
unfolding put at
put-Members k v end m = (refl, tt)
put-Members k v (member j w o) m =
    ground (arith, str_beq_iff k j, str_beq_iff j k, at-put k j v o, put-Members k v o)

-- The text of a string.
abbrev text_of : Option Value → Option Str → Option Str
text_of none d = d
text_of (some (string s)) d = some s
text_of (some null) d = d
text_of (some (int64 _)) d = d
text_of (some (uint64 _)) d = d
text_of (some (object _)) d = d
text_of (some other) d = d

metadata_loop-Members :
    (metadata : List (Str × Str)) (o : Object) → Members o → Members (metadata_loop metadata o)
unfolding metadata_loop
metadata_loop-Members [] o m = m
metadata_loop-Members ((k, v) ∷ metadata) o m =
    metadata_loop-Members metadata (put k (string v) o) (put-Members k (string v) o m)

at-metadata_loop :
    (metadata : List (Str × Str)) (o : Object) (j : Str)
    → IsDistinct metadata
    → text_of (at j (metadata_loop metadata o)) none
      ≡ elim (find j metadata) [ none ↦ text_of (at j o) none | some v ↦ some v ]
unfolding metadata_loop find
at-metadata_loop [] o j d = refl
at-metadata_loop ((k, v) ∷ metadata) o j d =
    let ih = at-metadata_loop metadata (put k (string v) o) in
    elim (Bool-cases (k == j)) [
      | inl same ↦
          let own : text_of (at k (metadata_loop metadata (put k (string v) o))) none ≡ some v =
            ground (arith, ih k d.1, at-put k k (string v) o, str_beq_iff k k) in
          rw same (
            subst (λ i. text_of (at i (metadata_loop metadata (put k (string v) o))) none ≡ some v)
              ((str_beq_iff k j).0 same) own)
      | inr differs ↦ ground (arith, ih j d.1, at-put k j (string v) o)
    ]

find-add_metadata :
    (k j : Str) (v : Value) (acc : List (Str × Str))
    → find j (add_metadata k v acc) ≡ (if k == j then text_of (some v) (find j acc) else find j acc)
unfolding add_metadata
find-add_metadata k j (string v) acc = find-assign k j v acc
find-add_metadata k j null acc = ground arith
find-add_metadata k j (int64 _) acc = ground arith
find-add_metadata k j (uint64 _) acc = ground arith
find-add_metadata k j (object _) acc = ground arith
find-add_metadata k j other acc = ground arith

find-object_loop :
    (o : Object) (acc : List (Str × Str)) (j : Str)
    → Members o
    → find j (object_loop o acc) ≡ text_of (at j o) (find j acc)
unfolding object_loop at
find-object_loop end acc j m = refl
find-object_loop (member k v o) acc j m =
    find-object_loop o (add_metadata k v acc) j m.1 ∙ elim (Bool-cases (k == j)) [
      | inl same ↦
          let gone : at j o ≡ none = subst (λ i. at i o ≡ none) ((str_beq_iff k j).0 same) m.0 in
          rw (same, gone) (ground (arith, find-add_metadata k j v acc))
      | inr differs ↦ ground (arith, find-add_metadata k j v acc)
    ]

-- Written into an object and read back, a metadata map has the same entries.
pub metadata_round_trip :
    (metadata : List (Str × Str)) (j : Str)
    → IsDistinct metadata
    → find j (json_object_to_metadata (metadata_to_json_object metadata)) ≡ find j metadata
unfolding json_object_to_metadata metadata_to_json_object find
metadata_round_trip metadata j d =
    find-object_loop (metadata_loop metadata end) [] j (metadata_loop-Members metadata end tt)
    ∙ at-metadata_loop metadata end j d
    ∙ unfold at in ground arith
