-- ===== src/Http/Url.antt =====
-- url_encode, and parse_url of HttpClientImpl with its regular expression
-- ^(https?)://([^:/\s]+)(?::(\d+))?([^?\s]*)?(?:\?([^\s]*))?$
-- The match is read from left to right: each part takes as much as it can, and no other choice lets
-- the rest match where this one does not, since only white space makes it fail.
pub mod Parse
use roc_im_sdk.Prelude.{
  ℕ, Bool, true, false, ◌&&◌, ◌||◌, not, List, [], ◌∷◌, ◌++◌, Option, none, some, Str, codes, leb,
  eqb, if◌then◌else◌,
}

-- std::isalnum in the "C" locale.
unfoldable pub is_alnum : ℕ → Bool
is_alnum c = leb 48 c && leb c 57 || (leb 65 c && leb c 90 || leb 97 c && leb c 122)

unfoldable pub is_unreserved : ℕ → Bool
unfolding is_alnum
is_unreserved c = is_alnum c || (eqb c 45 || (eqb c 95 || (eqb c 46 || eqb c 126)))

-- An unsigned char is written to the stream as a character, to the width of two: `std::hex` has no
-- effect on it.
unfoldable pub url_encode : Str → Str
unfolding is_unreserved
url_encode [] = []
url_encode (c ∷ cs) =
    let rest = url_encode cs in if is_unreserved c then c ∷ rest else 37 ∷ 48 ∷ c ∷ rest

pub data HttpErrorCode : Type 0 where
  network_error timeout invalid_url ssl_error cancelled : HttpErrorCode

pub record HttpError : Type 0 where
  pub code : HttpErrorCode
  pub message : Str

-- std::expected with HttpError.
pub data HttpResult (A : Type 0) : Type 0 where
  value : A → HttpResult A
  unexpected : HttpError → HttpResult A

pub record UrlParts : Type 0 where
  pub host : Str
  pub port : Str
  pub path : Str
  pub is_ssl : Bool

unfoldable pub is_white : ℕ → Bool
is_white c = eqb c 32 || leb 9 c && leb c 13

-- `[^:/\s]`, `\d` and `[^?]`.
unfoldable pub is_host : ℕ → Bool
unfolding is_white
is_host c = not (eqb c 58 || (eqb c 47 || is_white c))

unfoldable pub is_digit : ℕ → Bool
is_digit c = leb 48 c && leb c 57

unfoldable pub is_path : ℕ → Bool
is_path c = not (eqb c 63)

unfoldable pub has_white : Str → Bool
unfolding is_white
has_white [] = false
has_white (c ∷ cs) = is_white c || has_white cs

-- The longest prefix whose characters pass the test, and the rest.
unfoldable pub span : (ℕ → Bool) → Str → Str × Str
span p [] = ([], [])
span p (c ∷ cs) = let (xs, ys) = span p cs in if p c then (c ∷ xs, ys) else ([], c ∷ cs)

unfoldable pub after_prefix : Str → Str → Option Str
after_prefix [] s = some s
after_prefix (p ∷ ps) [] = none
after_prefix (p ∷ ps) (c ∷ cs) = if eqb p c then after_prefix ps cs else none

-- The port after a colon, if there is a digit.
unfoldable pub port_of : Str → Str × Str → Str × Str
port_of whole ([], _) = ([], whole)
port_of whole (d ∷ ds, rest) = (d ∷ ds, rest)

unfoldable pub split_port : Str → Str × Str
unfolding span is_digit port_of
split_port [] = ([], [])
split_port (c ∷ cs) = if eqb c 58 then port_of (c ∷ cs) (span is_digit cs) else ([], c ∷ cs)

unfoldable pub query_of : Str → Str
query_of [] = []
query_of (_ ∷ query) = query

unfoldable pub or_default : Str → Str → Str
or_default d [] = d
or_default d (c ∷ cs) = c ∷ cs

unfoldable pub with_query : Str → Str → Str
with_query path [] = path
with_query path (c ∷ cs) = path ++ 63 ∷ c ∷ cs

unfoldable pub make_parts : Bool → Str → Str → Str × Str → UrlParts
unfolding or_default with_query query_of
make_parts is_ssl host port (path, rest) = record {
  host = host;
  port = or_default (if is_ssl then codes "443" else codes "80") port;
  path = with_query (or_default (codes "/") path) (query_of rest);
  is_ssl = is_ssl;
}

unfoldable pub parse_host : Bool → Str × Str → Option UrlParts
unfolding split_port span is_path has_white make_parts
parse_host is_ssl ([], _) = none
parse_host is_ssl (c ∷ cs, rest) =
    let (port, target) = split_port rest in
    if has_white target then none else some (make_parts is_ssl (c ∷ cs) port (span is_path target))

unfoldable pub parse_scheme : Str → Option UrlParts
unfolding after_prefix parse_host is_host
parse_scheme url = elim (after_prefix (codes "https://") url) [
  | some rest ↦ parse_host true (span is_host rest)
  | none ↦ elim (after_prefix (codes "http://") url) [
    | some rest ↦ parse_host false (span is_host rest)
    | none ↦ none
  ]
]

-- parse_url.
unfoldable pub parse_url : Str → HttpResult UrlParts
unfolding parse_scheme
parse_url url = elim (parse_scheme url) [
  | some parts ↦ value parts
  | none ↦ unexpected (record { code = invalid_url; message = codes "Invalid URL: " ++ url })
]
