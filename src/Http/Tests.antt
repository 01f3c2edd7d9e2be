-- ===== src/Http/Tests.antt =====
-- Runs of the HTTP client, and the theorems at concrete requests.
use roc_im_sdk.Prelude.{◌≡◌, refl, true, false, [], ◌∷◌, ◌++◌, codes, In, inl, inr, arith}
use roc_im_sdk.Http.Base64.{base64_encode, char_at}
use roc_im_sdk.Http.Base64.Rfc4648.{rfc4648, base64_encode-rfc4648}
use roc_im_sdk.Http.Url.{is_white, is_host, is_path, url_encode, value, or_default, parse_url}
use roc_im_sdk.Http.Url.Parse.{url_encode_hides_nothing, default_port}
use roc_im_sdk.Http.Builder.{HttpRequestBuilder, get, contains}
use roc_im_sdk.Http.Builder.Query.{query_text}
use roc_im_sdk.Http.Client.{HttpClient, build_http_request, Transfer, finish, execute}
use roc_im_sdk.Http.Client.Requests.{execute-query, execute-host}

base64_test : base64_encode (codes "light w") ≡ codes "bGlnaHQgdw=="
unfolding base64_encode char_at
base64_test = refl

base64_encode-rfc4648_example : base64_encode (codes "ab") ≡ rfc4648 (codes "ab")
base64_encode-rfc4648_example = base64_encode-rfc4648 (codes "ab") (omega arith, (omega arith, tt))

-- A line feed comes out as "%0" and the line feed.
url_encode_test : url_encode (10 ∷ 65 ∷ []) ≡ 37 ∷ 48 ∷ 10 ∷ 65 ∷ []
unfolding url_encode
url_encode_test = refl

url_encode_hides_nothing_example : In 38 (url_encode (codes "a&b"))
url_encode_hides_nothing_example = url_encode_hides_nothing 38 (codes "a&b") (inr (inl refl))

parse_url_test :
    parse_url (codes "http://h:81x?q")
    ≡ value (record { host = codes "h"; port = codes "81"; path = codes "x?q"; is_ssl = false })
unfolding parse_url
parse_url_test = refl

abbrev client : HttpClient
client = record {
  config = record { default_timeout = 5; verify_ssl_certificates = true; user_agent = codes "u" };
  is_shutdown = false;
}

-- A network that answers with the host that it is asked for.
abbrev echo : Transfer
echo q host port is_ssl timeout =
    value (record { result_int = 200; reason = codes "OK"; fields = q.fields; body = host })

abbrev with_path : HttpRequestBuilder
with_path = record {
  url = codes "http://h/a";
  method = get;
  headers = [];
  query_params = (codes "k", codes "v") ∷ [];
  body = [];
  timeout = 30000;
  has_client = true;
}

abbrev without_path : HttpRequestBuilder
without_path = record with_path { url = codes "https://h" }

execute-query_example :
    execute echo client with_path
    ≡ finish (
        echo
          (build_http_request client.config with_path
            (codes "h")
            (codes "/a" ++ (63 ∷ query_text ((codes "k", codes "v") ∷ []))))
          (codes "h")
          (or_default (default_port false) [])
          false
          30000)
unfolding contains is_host is_white is_path
execute-query_example =
    execute-query echo client with_path false (codes "h") [] (codes "/a") (codes "k", codes "v") []
      refl refl refl refl refl ((λ e. absurd (cc e)), (refl, tt)) tt (refl, ((refl, refl), tt))
      (λ e. absurd (cc e)) (((refl, tt), (refl, tt)), tt)

execute-host_example :
    execute echo client without_path
    ≡ finish (
        echo
          (build_http_request client.config without_path
            (codes "h" ++ (63 ∷ query_text ((codes "k", codes "v") ∷ [])))
            (codes "/"))
          (codes "h" ++ (63 ∷ query_text ((codes "k", codes "v") ∷ [])))
          (codes "443")
          true
          30000)
unfolding contains is_host is_white
execute-host_example =
    execute-host echo client without_path true (codes "h") (codes "k", codes "v") [] refl refl refl
      refl refl ((λ e. absurd (cc e)), (refl, tt)) (((refl, tt), (refl, tt)), tt)
