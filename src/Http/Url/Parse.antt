-- ===== src/Http/Url/Parse.antt =====
-- What is read from a URL, and what a URL without a path comes to.
use roc_im_sdk.Prelude.{
  ℕ, ◌≡◌, refl, ◌∙◌, ap, ◌≢◌, Bool, true, false, [], ◌∷◌, ◌++◌, some, Str, codes, eqb,
  if◌then◌else◌, All, In, inl, inr, Bool-cases, All-map,
}
use roc_im_sdk.Http.Url.{
  is_unreserved, url_encode, value, UrlParts, is_white, is_host, is_digit, is_path, has_white, span,
  after_prefix, port_of, split_port, query_of, or_default, with_query, make_parts, parse_host,
  parse_scheme, parse_url,
}

-- The rest does not go on with a character that passes the test.
abbrev Stops : (ℕ → Bool) → Str → Type 0
Stops p [] = Unit {0}
Stops p (c ∷ cs) = p c ≡ false

span_lem :
    (p : ℕ → Bool) (xs ys : Str)
    → All (λ c. p c ≡ true) xs
    → Stops p ys
    → span p (xs ++ ys) ≡ (xs, ys)
unfolding span
span_lem p [] [] a s = refl
span_lem p [] (y ∷ ys) a s = rw s refl
span_lem p (x ∷ xs) ys a s = rw a.0 (ap (λ r. (x ∷ r.0, r.1)) (span_lem p xs ys a.1 s))

-- Every byte of a text is a byte of what url_encode makes of it, so it hides none of those that it
-- is to hide, such as '&', '=' and '#'.
pub url_encode_hides_nothing : (c : ℕ) (s : Str) → In c s → In c (url_encode s)
unfolding url_encode
url_encode_hides_nothing c [] h = h
url_encode_hides_nothing c (x ∷ xs) h = elim (Bool-cases (is_unreserved x)) [
  | inl e ↦ rw e (elim h [ inl p ↦ inl p | inr q ↦ inr (url_encode_hides_nothing c xs q) ])
  | inr e ↦ rw e (elim h [
    | inl p ↦ inr (inr (inl p))
    | inr q ↦ inr (inr (inr (url_encode_hides_nothing c xs q)))
  ])
]

-- ":" and the port, and "?" and the query, where there is one.
abbrev pub after : ℕ → Str → Str
after mark [] = []
after mark (c ∷ cs) = mark ∷ c ∷ cs

abbrev pub scheme : Bool → Str
scheme true = codes "https://"
scheme false = codes "http://"

abbrev pub url_text : Bool → Str → Str → Str → Str → Str
url_text is_ssl host port path query =
    scheme is_ssl ++ (host ++ (after 58 port ++ (path ++ after 63 query)))

abbrev pub default_port : Bool → Str
default_port is_ssl = if is_ssl then codes "443" else codes "80"

abbrev pub IsHost : Str → Type 0
IsHost host = (host ≢ []) × All (λ c. is_host c ≡ true) host

abbrev pub IsPort : Str → Type 0
IsPort = All (λ c. is_digit c ≡ true)

abbrev pub IsPath : Str → Type 0
IsPath [] = Unit {0}
IsPath (c ∷ cs) = (c ≡ 47) × All (λ x. (is_path x ≡ true) × (is_white x ≡ false)) cs

abbrev pub IsQuery : Str → Type 0
IsQuery = All (λ c. is_white c ≡ false)

parse_scheme_lem :
    (is_ssl : Bool) (rest : Str)
    → parse_scheme (scheme is_ssl ++ rest) ≡ parse_host is_ssl (span is_host rest)
unfolding parse_scheme after_prefix
parse_scheme_lem true rest = refl
parse_scheme_lem false rest = refl

split_port_lem :
    (port target : Str)
    → IsPort port
    → (port ≢ [] → Stops is_digit target)
    → (port ≡ [] → Stops (λ c. eqb c 58) target)
    → split_port (after 58 port ++ target) ≡ (port, target)
unfolding split_port port_of
split_port_lem [] [] a d c = refl
split_port_lem [] (x ∷ xs) a d c = rw (c refl) refl
split_port_lem (p ∷ ps) target a d c =
    rw (span_lem is_digit (p ∷ ps) target a (d (λ e. absurd (cc e)))) refl

has_white_append :
    (xs ys : Str)
    → All (λ c. is_white c ≡ false) xs
    → has_white ys ≡ false
    → has_white (xs ++ ys) ≡ false
unfolding has_white
has_white_append [] ys a h = h
has_white_append (x ∷ xs) ys a h = rw a.0 (has_white_append xs ys a.1 h)

path_not_white : (path : Str) → IsPath path → All (λ c. is_white c ≡ false) path
unfolding is_white
path_not_white [] a = tt
path_not_white (c ∷ cs) a = (
  rw (a.0) refl,
  All-map (λ x. (is_path x ≡ true) × (is_white x ≡ false)) (λ x. is_white x ≡ false) cs (λ x p. p.1)
      a.1,
)

path_no_query : (path : Str) → IsPath path → All (λ c. is_path c ≡ true) path
unfolding is_path
path_no_query [] a = tt
path_no_query (c ∷ cs) a = (
  rw (a.0) refl,
  All-map (λ x. (is_path x ≡ true) × (is_white x ≡ false)) (λ x. is_path x ≡ true) cs (λ x p. p.0)
      a.1,
)

not_white : (xs : Str) → All (λ c. is_white c ≡ false) xs → has_white xs ≡ false
unfolding has_white
not_white [] a = refl
not_white (x ∷ xs) a = rw a.0 (not_white xs a.1)

query_not_white : (query : Str) → IsQuery query → has_white (after 63 query) ≡ false
unfolding has_white is_white
query_not_white [] a = refl
query_not_white (c ∷ cs) a = not_white (c ∷ cs) a

query-after : (query : Str) → query_of (after 63 query) ≡ query
unfolding query_of
query-after [] = refl
query-after (c ∷ cs) = refl

-- What stands after the host, or after the port, does not go on with it.
target-Stops :
    (p : ℕ → Bool) (path query : Str)
    → IsPath path
    → p 47 ≡ false
    → p 63 ≡ false
    → Stops p (path ++ after 63 query)
target-Stops p [] [] a s q = tt
target-Stops p [] (c ∷ cs) a s q = q
target-Stops p (c ∷ cs) query a s q = rw (a.0) s

query-Stops : (query : Str) → Stops is_path (after 63 query)
unfolding is_path
query-Stops [] = tt
query-Stops (c ∷ cs) = refl

host-Stops :
    (port path query : Str)
    → IsPath path
    → (path ≡ [] → port ≡ [] → query ≡ [])
    → Stops is_host (after 58 port ++ (path ++ after 63 query))
unfolding is_host is_white
host-Stops (p ∷ ps) path query a h = refl
host-Stops [] (c ∷ cs) query a h = rw (a.0) refl
host-Stops [] [] [] a h = tt
host-Stops [] [] (c ∷ cs) a h = absurd (cc (h refl refl))

parse_host_lem :
    (is_ssl : Bool) (host port path query : Str)
    → host ≢ []
    → IsPort port
    → IsPath path
    → IsQuery query
    → parse_host is_ssl (host, after 58 port ++ (path ++ after 63 query))
      ≡ some (make_parts is_ssl host port (path, after 63 query))
unfolding parse_host is_digit is_path
parse_host_lem is_ssl [] port path query h p a q = absurd (h refl)
parse_host_lem is_ssl (c ∷ cs) port path query h p a q =
    rw
      (split_port_lem port (path ++ after 63 query) p
        (λ _. target-Stops is_digit path query a refl refl)
        (λ _. target-Stops (λ x. eqb x 58) path query a refl refl))
      (rw (has_white_append path (after 63 query) (path_not_white path a) (query_not_white query q))
        (rw (span_lem is_path path (after 63 query) (path_no_query path a) (query-Stops query))
          refl))

parse_url_lem :
    (url : Str) (parts : UrlParts) → parse_scheme url ≡ some parts → parse_url url ≡ value parts
unfolding parse_url
parse_url_lem url parts h = cc h

-- A URL with a host, then a port, a path that starts with '/' and a query, or only some of these, is
-- read as its parts, with the scheme's port and the path '/' where it has none; a query needs a path
-- or a port before it.
pub parse_url-text :
    (is_ssl : Bool) (host port path query : Str)
    → IsHost host
    → IsPort port
    → IsPath path
    → IsQuery query
    → (path ≡ [] → port ≡ [] → query ≡ [])
    → parse_url (url_text is_ssl host port path query)
      ≡ value (record {
        host = host;
        port = or_default (default_port is_ssl) port;
        path = with_query (or_default (codes "/") path) query;
        is_ssl = is_ssl;
      })
parse_url-text is_ssl host port path query h p a q end =
    let read =
      parse_scheme_lem is_ssl (host ++ (after 58 port ++ (path ++ after 63 query)))
      ∙ ap (parse_host is_ssl) (
          span_lem is_host host (after 58 port ++ (path ++ after 63 query)) h.1
            (host-Stops port path query a end))
      ∙ parse_host_lem is_ssl host port path query h.0 p a q in
    parse_url_lem (url_text is_ssl host port path query) _
      (read ∙ unfold make_parts in rw (query-after query) refl)
