-- ===== src/Http/Builder.antt =====
-- HttpRequestBuilder: the setters, the requests that HttpClient starts from, and build_url. The
-- parameters of the query stand in the order in which the unordered map gives them.
pub mod Query
use roc_im_sdk.Prelude.{
  ℕ, Bool, true, false, ◌||◌, List, [], ◌∷◌, ◌++◌, Option, none, some, Str, codes, eqb,
  if◌then◌else◌, ◌==◌, str_eq, ℤ, ◌⊎◌, inl, inr,
}
use roc_im_sdk.UnorderedMap.{assign}
use roc_im_sdk.Message.JsonText.{JsonValue, null, bool, string, int64, real, array, object, c_str}
use roc_im_sdk.Http.Url.{url_encode}
use roc_im_sdk.Http.Base64.{base64_encode}

pub data HttpMethod : Type 0 where
  get post put delete patch head options : HttpMethod

-- `timeout_` is in milliseconds; `has_client` tells whether `client_` is set.
pub record HttpRequestBuilder : Type 0 where
  pub url : Str
  pub method : HttpMethod
  pub headers : List (Str × Str)
  pub query_params : List (Str × Str)
  pub body : Str
  pub timeout : ℕ
  pub has_client : Bool

unfoldable pub set_header : Str → Str → HttpRequestBuilder → HttpRequestBuilder
unfolding assign
set_header key v b = record b { headers = assign key v b.headers }

unfoldable pub query_param : Str → Str → HttpRequestBuilder → HttpRequestBuilder
unfolding assign
query_param key v b = record b { query_params = assign key v b.query_params }

unfoldable pub body_text : Str → HttpRequestBuilder → HttpRequestBuilder
body_text content b = record b { body = content }

-- `serialized` is what boost::json::serialize gives.
unfoldable pub body_json : Str → HttpRequestBuilder → HttpRequestBuilder
unfolding set_header
body_json serialized b =
    set_header (codes "Content-Type") (codes "application/json") (record b { body = serialized })

unfoldable pub body_binary : Str → HttpRequestBuilder → HttpRequestBuilder
unfolding set_header
body_binary bytes b =
    set_header (codes "Content-Type") (codes "application/octet-stream") (record b { body = bytes })

unfoldable pub set_timeout : ℕ → HttpRequestBuilder → HttpRequestBuilder
set_timeout ms b = record b { timeout = ms }

unfoldable pub basic_auth : Str → Str → HttpRequestBuilder → HttpRequestBuilder
unfolding set_header
basic_auth username password b =
    set_header (codes "Authorization")
      (codes "Basic " ++ base64_encode (username ++ (58 ∷ password))) b

unfoldable pub bearer_token : Str → HttpRequestBuilder → HttpRequestBuilder
unfolding set_header
bearer_token token b = set_header (codes "Authorization") (codes "Bearer " ++ token) b

-- `result.find('?') != npos`.
unfoldable pub contains : ℕ → Str → Bool
contains c [] = false
contains c (x ∷ xs) = eqb x c || contains c xs

-- The loop over the parameters.
unfoldable pub append_params : Bool → List (Str × Str) → Str → Str
unfolding url_encode
append_params first [] result = result
append_params first ((key, v) ∷ params) result =
    append_params false params
      ((if first then result else result ++ 38 ∷ []) ++ (url_encode key ++ (61 ∷ url_encode v)))

unfoldable pub build_url : HttpRequestBuilder → Str
unfolding contains append_params
build_url b = elim b.query_params [
  | [] ↦ b.url
  | param ∷ params ↦
      append_params true (param ∷ params)
        (b.url ++ (if contains 63 b.url then codes "&" else codes "?"))
]

-- HttpClient::get, post, put, delete_request, patch, head and options.
unfoldable pub request : HttpMethod → Str → HttpRequestBuilder
request method url = record {
  url = url;
  method = method;
  headers = [];
  query_params = [];
  body = [];
  timeout = 30000;
  has_client = true;
}

unfoldable pub http_method_to_string : HttpMethod → Str
http_method_to_string get = codes "GET"
http_method_to_string post = codes "POST"
http_method_to_string put = codes "PUT"
http_method_to_string delete = codes "DELETE"
http_method_to_string patch = codes "PATCH"
http_method_to_string head = codes "HEAD"
http_method_to_string options = codes "OPTIONS"

-- The loop of get_json over the members: `inl` is the exception of as_double on a number that is an
-- int64; `to_string` is std::to_string of a double.
unfoldable pub json_params :
    (ℤ → Str) → List (Str × JsonValue) → HttpRequestBuilder → Str ⊎ HttpRequestBuilder
unfolding query_param c_str
json_params to_string [] b = inr b
json_params to_string ((key, string v) ∷ o) b =
    json_params to_string o (query_param key (c_str v) b)
json_params to_string ((key, real n) ∷ o) b =
    json_params to_string o (query_param key (to_string n) b)
json_params to_string ((key, int64 n) ∷ o) b = inl (codes "not a double")
json_params to_string ((key, bool v) ∷ o) b =
    json_params to_string o (query_param key (if v then codes "true" else codes "false") b)
json_params to_string ((key, null) ∷ o) b = json_params to_string o b
json_params to_string ((key, array a) ∷ o) b = json_params to_string o b
json_params to_string ((key, object m) ∷ o) b = json_params to_string o b
