-- ===== src/Http/Builder/Query.antt =====
-- What build_url appends.
use mathlib.Core.List.{append_assoc}
use roc_im_sdk.Prelude.{
  ℕ, ◌≡◌, refl, ◌∙◌, ◌≢◌, true, false, List, [], ◌∷◌, ◌++◌, Str, codes, All, Bool-cases, inl, inr,
}
use roc_im_sdk.Http.Url.{is_unreserved, url_encode}
use roc_im_sdk.Http.Builder.{HttpRequestBuilder, contains, append_params, build_url}

-- The parameters as one text: key=value, with '&' between.
abbrev pub query_text : List (Str × Str) → Str
query_text [] = []
query_text ((k, v) ∷ []) = url_encode k ++ (61 ∷ url_encode v)
query_text ((k, v) ∷ p ∷ ps) = url_encode k ++ (61 ∷ (url_encode v ++ (38 ∷ query_text (p ∷ ps))))

append_params-false :
    (p : Str × Str) (ps : List (Str × Str)) (u : Str)
    → append_params false (p ∷ ps) u ≡ u ++ (38 ∷ query_text (p ∷ ps))
unfolding append_params
append_params-false (k, v) [] u = append_assoc u (38 ∷ []) (url_encode k ++ (61 ∷ url_encode v))
append_params-false (k, v) (p ∷ ps) u =
    append_params-false p ps ((u ++ 38 ∷ []) ++ (url_encode k ++ (61 ∷ url_encode v)))
    ∙ rw
        (
          append_assoc u (38 ∷ []) (url_encode k ++ (61 ∷ url_encode v)),
          append_assoc u (38 ∷ url_encode k ++ (61 ∷ url_encode v)) (38 ∷ query_text (p ∷ ps)),
          append_assoc (url_encode k) (61 ∷ url_encode v) (38 ∷ query_text (p ∷ ps)),
        )
        refl

append_params_lem :
    (p : Str × Str) (ps : List (Str × Str)) (u : Str)
    → append_params true (p ∷ ps) u ≡ u ++ query_text (p ∷ ps)
unfolding append_params
append_params_lem (k, v) [] u = refl
append_params_lem (k, v) (p ∷ ps) u =
    append_params-false p ps (u ++ (url_encode k ++ (61 ∷ url_encode v)))
    ∙ rw
        (
          append_assoc u (url_encode k ++ (61 ∷ url_encode v)) (38 ∷ query_text (p ∷ ps)),
          append_assoc (url_encode k) (61 ∷ url_encode v) (38 ∷ query_text (p ∷ ps)),
        )
        refl

-- A URL without a query gets '?' and the parameters.
pub build_url_lem :
    (b : HttpRequestBuilder) (p : Str × Str) (ps : List (Str × Str))
    → b.query_params ≡ p ∷ ps
    → contains 63 b.url ≡ false
    → build_url b ≡ b.url ++ (63 ∷ query_text (p ∷ ps))
unfolding build_url
build_url_lem b p ps e c =
    rw (e, c)
      (append_params_lem p ps (b.url ++ codes "?")
        ∙ append_assoc b.url (63 ∷ []) (query_text (p ∷ ps)))

pub All-append : (P : ℕ → Type 0) (xs ys : Str) → All P xs → All P ys → All P (xs ++ ys)
All-append P [] ys a b = b
All-append P (x ∷ xs) ys a b = (a.0, All-append P xs ys a.1 b)

url_encode-All : (P : ℕ → Type 0) (s : Str) → P 37 → P 48 → All P s → All P (url_encode s)
unfolding url_encode
url_encode-All P [] h z a = tt
url_encode-All P (c ∷ cs) h z a = elim (Bool-cases (is_unreserved c)) [
  | inl e ↦ rw e (a.0, url_encode-All P cs h z a.1)
  | inr e ↦ rw e (h, (z, (a.0, url_encode-All P cs h z a.1)))
]

-- The marks that the text of the parameters adds.
abbrev pub Marks : (ℕ → Type 0) → Type 0
Marks P = P 37 × P 48 × P 61 × P 38

abbrev pub AllParams : (ℕ → Type 0) → List (Str × Str) → Type 0
AllParams P = All (λ p. All P p.0 × All P p.1)

pub query_text-All :
    (P : ℕ → Type 0) (ps : List (Str × Str)) → Marks P → AllParams P ps → All P (query_text ps)
query_text-All P [] m a = tt
query_text-All P ((k, v) ∷ []) m a =
    All-append P (url_encode k) (61 ∷ url_encode v) (url_encode-All P k m.0 m.1 a.0.0)
      (m.2, url_encode-All P v m.0 m.1 a.0.1)
query_text-All P ((k, v) ∷ p ∷ ps) m a =
    All-append P (url_encode k) (61 ∷ (url_encode v ++ (38 ∷ query_text (p ∷ ps))))
      (url_encode-All P k m.0 m.1 a.0.0)
      (
        m.2,
        All-append P (url_encode v) (38 ∷ query_text (p ∷ ps)) (url_encode-All P v m.0 m.1 a.0.1)
            (m.3, query_text-All P (p ∷ ps) m a.1),
      )

pub append_cons : (xs : Str) (y : ℕ) (ys : Str) → xs ++ (y ∷ ys) ≢ []
append_cons [] y ys e = cc e
append_cons (x ∷ xs) y ys e = cc e

pub query_text-nonempty : (p : Str × Str) (ps : List (Str × Str)) → query_text (p ∷ ps) ≢ []
query_text-nonempty (k, v) [] = append_cons (url_encode k) 61 (url_encode v)
query_text-nonempty (k, v) (p ∷ ps) =
    append_cons (url_encode k) 61 (url_encode v ++ (38 ∷ query_text (p ∷ ps)))
