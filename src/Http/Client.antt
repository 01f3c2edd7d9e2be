-- ===== src/Http/Client.antt =====
-- HttpClient and HttpClientImpl: the request that is made of a builder, and what comes back. The
-- transfer (send_http_request, send_https_request) is boost::beast: it is the parameter `transfer`,
-- which takes the request, the host, the port, whether TLS is used and the timeout.
pub mod Requests
use roc_im_sdk.Prelude.{
  ℕ, Bool, true, false, ◌&&◌, List, [], ◌∷◌, Option, none, some, Str, codes, leb, ltb,
  if◌then◌else◌, str_eq, ◌⊎◌, inl, inr, ℤ,
}
use roc_im_sdk.UnorderedMap.{assign, find}
use roc_im_sdk.Message.JsonText.{JsonValue}
use roc_im_sdk.Http.Url.{
  HttpErrorCode, network_error, cancelled, HttpError, HttpResult, value, unexpected, UrlParts,
  parse_url,
}
use roc_im_sdk.Http.Builder.{
  HttpMethod, get, post, put, HttpRequestBuilder, build_url, request, body_json, json_params,
}

pub record HttpClientConfig : Type 0 where
  pub default_timeout : ℕ
  pub verify_ssl_certificates : Bool
  pub user_agent : Str

pub record HttpClient : Type 0 where
  pub config : HttpClientConfig
  pub is_shutdown : Bool

unfoldable pub update_config : HttpClientConfig → HttpClient → HttpClient
update_config config c = record c { config = config }

unfoldable pub shutdown : HttpClient → HttpClient
shutdown c = record c { is_shutdown = true }

-- A beast request: the fields as the calls of `set` name them, in their order.
pub record HttpRequest : Type 0 where
  pub verb : HttpMethod
  pub target : Str
  pub fields : List (Str × Str)
  pub body : Str
  pub is_prepared : Bool

unfoldable pub is_empty : Str → Bool
is_empty [] = true
is_empty (_ ∷ _) = false

unfoldable pub build_http_request : HttpClientConfig → HttpRequestBuilder → Str → Str → HttpRequest
unfolding is_empty
build_http_request config b host path = record {
  verb = b.method;
  target = path;
  fields = (codes "Host", host) ∷ (codes "User-Agent", config.user_agent) ∷ b.headers;
  body = b.body;
  is_prepared = if is_empty b.body then false else true;
}

-- What beast gives of a response.
pub record BeastResponse : Type 0 where
  pub result_int : ℕ
  pub reason : Str
  pub fields : List (Str × Str)
  pub body : Str

pub record HttpResponse : Type 0 where
  pub status_code : ℕ
  pub status_message : Str
  pub headers : List (Str × Str)
  pub body : Str

unfoldable pub copy_headers : List (Str × Str) → List (Str × Str) → List (Str × Str)
unfolding assign
copy_headers [] headers = headers
copy_headers ((name, v) ∷ fields) headers = copy_headers fields (assign name v headers)

unfoldable pub make_response : BeastResponse → HttpResponse
unfolding copy_headers
make_response r = record {
  status_code = r.result_int;
  status_message = r.reason;
  headers = copy_headers r.fields [];
  body = r.body;
}

-- HttpResponse::header.
unfoldable pub header : Str → HttpResponse → Option Str
unfolding find
header key r = find key r.headers

unfoldable pub is_success : HttpResponse → Bool
is_success r = leb 200 r.status_code && ltb r.status_code 300

unfoldable pub is_redirect : HttpResponse → Bool
is_redirect r = leb 300 r.status_code && ltb r.status_code 400

unfoldable pub is_client_error : HttpResponse → Bool
is_client_error r = leb 400 r.status_code && ltb r.status_code 500

unfoldable pub is_server_error : HttpResponse → Bool
is_server_error r = leb 500 r.status_code && ltb r.status_code 600

abbrev pub Transfer : Type 0
Transfer = HttpRequest → Str → Str → Bool → ℕ → HttpResult BeastResponse

unfoldable pub finish : HttpResult BeastResponse → HttpResult HttpResponse
unfolding make_response
finish (value r) = value (make_response r)
finish (unexpected e) = unexpected e

unfoldable pub send_to :
    Transfer → HttpClientConfig → HttpRequestBuilder → HttpResult UrlParts → HttpResult HttpResponse
unfolding finish build_http_request
send_to transfer config b (unexpected e) = unexpected e
send_to transfer config b (value u) =
    finish (transfer (build_http_request config b u.host u.path) u.host u.port u.is_ssl b.timeout)

-- HttpClientImpl::execute_request.
unfoldable pub execute_request :
    Transfer → HttpClient → HttpRequestBuilder → HttpResult HttpResponse
unfolding send_to
execute_request transfer c b =
    if c.is_shutdown
    then unexpected (record { code = cancelled; message = codes "Client shutdown" })
    else send_to transfer c.config b (parse_url (build_url b))

-- HttpRequestBuilder::execute.
unfoldable pub execute : Transfer → HttpClient → HttpRequestBuilder → HttpResult HttpResponse
unfolding execute_request
execute transfer c b =
    if b.has_client
    then execute_request transfer c b
    else unexpected (record { code = network_error; message = codes "No client associated" })

-- get_json with an object of parameters; `inl` is the exception that leaves the coroutine.
unfoldable pub get_json :
    (ℤ → Str) → Transfer → HttpClient → Str → List (Str × JsonValue) → Str ⊎ HttpResult HttpResponse
unfolding execute json_params request
get_json to_string transfer c url params = elim (json_params to_string params (request get url)) [
  | inl e ↦ inl e
  | inr b ↦ inr (execute transfer c b)
]

unfoldable pub post_json : Transfer → HttpClient → Str → Str → HttpResult HttpResponse
unfolding execute body_json request
post_json transfer c url serialized = execute transfer c (body_json serialized (request post url))

unfoldable pub put_json : Transfer → HttpClient → Str → Str → HttpResult HttpResponse
unfolding execute body_json request
put_json transfer c url serialized = execute transfer c (body_json serialized (request put url))
