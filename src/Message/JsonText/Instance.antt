-- ===== src/Message/JsonText/Instance.antt =====
-- A coding that stands in for JSON and is read back: a text is its codes, each raised by one, and an
-- end. It serves the instances of theorems.
use roc_im_sdk.Prelude.{
  ℕ, suc, zero, ◌≡◌, refl, ◌≢◌, ◌∙◌, ap, ◌⊎◌, inl, inr, Bool, true, false, ◌&&◌, if◌then◌else◌,
  codes, All, arith, Bool-cases, subst, List, [], ◌∷◌, Str, ℤ, pos, negsuc, str_eq,
}
use roc_im_sdk.UnorderedMap.{find, IsDistinct}
use roc_im_sdk.Message.JsonText.{
  JsonValue, null, bool, string, int64, real, array, object, JsonArray, nil, cons, JsonObject, end,
  member, int_items, text_of,
}
use roc_im_sdk.Message.JsonText.Utf8.{utf8}
use roc_im_sdk.Message.JsonText.Vectors.{IsInt32}
use roc_im_sdk.Message.Table.Merge.{IsUtf8Object}
use roc_im_sdk.Message.JsonText.Maps.{texts_object, IsPrintable}

abbrev coded : Str → Str → Str
coded [] rest = 0 ∷ rest
coded (c ∷ cs) rest = suc c ∷ coded cs rest

abbrev coded_object : JsonObject → Str
coded_object end = []
coded_object (member k (string v) o) = coded k (coded v (coded_object o))
coded_object (member k null o) = coded_object o
coded_object (member k (bool _) o) = coded_object o
coded_object (member k (int64 _) o) = coded_object o
coded_object (member k (real _) o) = coded_object o
coded_object (member k (array _) o) = coded_object o
coded_object (member k (object _) o) = coded_object o

abbrev grow : ℕ → List Str → List Str
grow c [] = (c ∷ []) ∷ []
grow c (t ∷ ts) = (c ∷ t) ∷ ts

abbrev texts : Str → List Str
texts [] = []
texts (zero ∷ cs) = [] ∷ texts cs
texts (suc c ∷ cs) = grow c (texts cs)

abbrev paired : List Str → List (Str × Str)
paired [] = []
paired (k ∷ []) = []
paired (k ∷ v ∷ ts) = (k, v) ∷ paired ts

texts-coded : (s rest : Str) → texts (coded s rest) ≡ s ∷ texts rest
texts-coded [] rest = refl
texts-coded (c ∷ cs) rest = ap (grow c) (texts-coded cs rest)

paired_coded : (m : List (Str × Str)) → paired (texts (coded_object (texts_object m))) ≡ m
paired_coded [] = refl
paired_coded ((k, v) ∷ m) =
    let both =
      texts-coded k (coded v (coded_object (texts_object m)))
      ∙ ap (λ t. k ∷ t) (texts-coded v (coded_object (texts_object m))) in
    ap paired both ∙ ap (λ t. (k, v) ∷ t) (paired_coded m)

abbrev coded_ints : JsonArray → Str
coded_ints nil = []
coded_ints (cons (int64 (pos n)) a) = 0 ∷ n ∷ coded_ints a
coded_ints (cons (int64 (negsuc n)) a) = 1 ∷ n ∷ coded_ints a
coded_ints (cons null a) = coded_ints a
coded_ints (cons (bool _) a) = coded_ints a
coded_ints (cons (string _) a) = coded_ints a
coded_ints (cons (real _) a) = coded_ints a
coded_ints (cons (array _) a) = coded_ints a
coded_ints (cons (object _) a) = coded_ints a

abbrev ints : Str → List ℤ
ints [] = []
ints (s ∷ []) = []
ints (zero ∷ n ∷ cs) = pos n ∷ ints cs
ints (suc _ ∷ n ∷ cs) = negsuc n ∷ ints cs

ints_coded : (v : List ℤ) → ints (coded_ints (int_items v)) ≡ v
unfolding int_items
ints_coded [] = refl
ints_coded (pos n ∷ v) = ap (λ t. pos n ∷ t) (ints_coded v)
ints_coded (negsuc n ∷ v) = ap (λ t. negsuc n ∷ t) (ints_coded v)

abbrev pub serialize : JsonValue → Str
serialize (object o) = 1 ∷ coded_object o
serialize (array a) = 2 ∷ coded_ints a
serialize null = 3 ∷ []
serialize (bool _) = 3 ∷ []
serialize (string _) = 3 ∷ []
serialize (int64 _) = 3 ∷ []
serialize (real _) = 3 ∷ []

abbrev are_utf8 : List (Str × Str) → Bool
are_utf8 [] = true
are_utf8 ((k, v) ∷ m) = utf8 128 191 0 k && utf8 128 191 0 v && are_utf8 m

abbrev object_of : List (Str × Str) → Str ⊎ JsonValue
object_of m = if are_utf8 m then inr (object (texts_object m)) else inl (codes "syntax error")

abbrev pub parse : Str → Str ⊎ JsonValue
parse [] = inr null
parse (zero ∷ cs) = inr null
parse (suc zero ∷ cs) = object_of (paired (texts cs))
parse (suc (suc _) ∷ cs) = inr (array (int_items (ints cs)))

pub inhabited : (v : JsonValue) → serialize v ≢ []
inhabited null e = cc e
inhabited (bool _) e = cc e
inhabited (string _) e = cc e
inhabited (int64 _) e = cc e
inhabited (real _) e = cc e
inhabited (array _) e = cc e
inhabited (object _) e = cc e

printable_are_utf8 : (m : List (Str × Str)) → IsPrintable m → are_utf8 m ≡ true
printable_are_utf8 [] p = refl
printable_are_utf8 ((k, v) ∷ m) p = ground (arith, p, printable_are_utf8 m p.1)

all_three : (a b c : Bool) → (a && b && c) ≡ true → (a ≡ true) × (b ≡ true) × (c ≡ true)
all_three true true true h = (refl, refl, refl)
all_three true true false h = absurd (cc h)
all_three true false c h = absurd (cc h)
all_three false b c h = absurd (cc h)

are_utf8-object :
    (m : List (Str × Str)) → are_utf8 m ≡ true → IsUtf8Object parse serialize (texts_object m)
unfolding text_of
are_utf8-object [] h = tt
are_utf8-object ((k, v) ∷ m) h =
    let (key, text, rest) = all_three (utf8 128 191 0 k) (utf8 128 191 0 v) (are_utf8 m) h in
    (key, text, are_utf8-object m rest)

object_of_utf8 :
    (m : List (Str × Str)) (o : JsonObject)
    → object_of m ≡ inr (object o)
    → IsUtf8Object parse serialize o
object_of_utf8 m o e = elim (Bool-cases (are_utf8 m)) [
  | inl good ↦
      subst (λ x. IsUtf8Object parse serialize x) (ground (arith, e, good)) (are_utf8-object m good)
  | inr bad ↦ absurd (ground (arith, e, bad))
]

pub map_back :
    (m : List (Str × Str))
    → IsDistinct m
    → IsPrintable m
    → parse (serialize (object (texts_object m))) ≡ inr (object (texts_object m))
unfolding find
map_back m d p = ap object_of (paired_coded m) ∙ rw (printable_are_utf8 m p) refl

pub reads_utf8 :
    (t : Str) (o : JsonObject) → parse t ≡ inr (object o) → IsUtf8Object parse serialize o
reads_utf8 [] o e = absurd (cc e)
reads_utf8 (zero ∷ cs) o e = absurd (cc e)
reads_utf8 (suc zero ∷ cs) o e = object_of_utf8 (paired (texts cs)) o e
reads_utf8 (suc (suc _) ∷ cs) o e = absurd (cc e)

pub vector_back :
    (v : List ℤ)
    → All IsInt32 v
    → parse (serialize (array (int_items v))) ≡ inr (array (int_items v))
vector_back v h = ap (λ t. inr (array (int_items t))) (ints_coded v)
