-- ===== src/Http/Client/Requests.antt =====
-- Where the requests of a client go.
use mathlib.Core.List.{append_assoc, append-nil}
use roc_im_sdk.Prelude.{
  ℕ, ◌≡◌, refl, ◌∙◌, ap, sym, ◌≢◌, Bool, true, false, List, [], ◌∷◌, ◌++◌, Str, codes,
}
use roc_im_sdk.Http.Url.{value, UrlParts, is_white, is_host, or_default, with_query, parse_url}
use roc_im_sdk.Http.Url.Parse.{
  scheme, url_text, default_port, IsHost, IsPort, IsPath, parse_url-text, after,
}
use roc_im_sdk.Http.Builder.{HttpRequestBuilder, contains, build_url}
use roc_im_sdk.Http.Builder.Query.{
  query_text, build_url_lem, AllParams, query_text-All, All-append, query_text-nonempty,
  append_cons,
}
use roc_im_sdk.Http.Client.{
  HttpClient, build_http_request, Transfer, finish, send_to, execute_request, execute,
}

-- execute, once its URL is read.
execute_lem :
    (transfer : Transfer) (c : HttpClient) (b : HttpRequestBuilder) (u : UrlParts)
    → c.is_shutdown ≡ false
    → b.has_client ≡ true
    → parse_url (build_url b) ≡ value u
    → execute transfer c b
      ≡ finish
          (transfer (build_http_request c.config b u.host u.path) u.host u.port u.is_ssl b.timeout)
unfolding execute execute_request send_to
execute_lem transfer c b u run has e = rw (e, run, has) refl

-- A text with a character in it, after a mark.
after_lem : (mark : ℕ) (s : Str) → s ≢ [] → after mark s ≡ mark ∷ s
after_lem mark [] h = absurd (h refl)
after_lem mark (c ∷ cs) h = refl

with_query_lem : (path q : Str) → q ≢ [] → with_query path q ≡ path ++ (63 ∷ q)
unfolding with_query
with_query_lem path [] h = absurd (h refl)
with_query_lem path (c ∷ cs) h = refl

or_default_lem : (d path : Str) → path ≢ [] → or_default d path ≡ path
unfolding or_default
or_default_lem d [] h = absurd (h refl)
or_default_lem d (c ∷ cs) h = refl

url_text-query :
    (is_ssl : Bool) (host port path q : Str)
    → q ≢ []
    → url_text is_ssl host port path [] ++ (63 ∷ q) ≡ url_text is_ssl host port path q
url_text-query is_ssl host port path q h =
    rw
      (
        after_lem 63 q h,
        append_assoc (scheme is_ssl) (host ++ (after 58 port ++ (path ++ []))) (63 ∷ q),
        append_assoc host (after 58 port ++ (path ++ [])) (63 ∷ q),
        append_assoc (after 58 port) (path ++ []) (63 ∷ q),
        append_assoc path [] (63 ∷ q),
      )
      refl

-- While the client is not shut down, and for a builder of a client, whatever the configuration is:
-- parameters without white space, added to a URL that is made of a host, perhaps a port, and a path,
-- and has no '?'. The request goes to that host and port, with the timeout of the builder, and its
-- target is the path, '?' and the parameters.
pub execute-query :
    (transfer : Transfer) (c : HttpClient) (b : HttpRequestBuilder) (is_ssl : Bool)
    (host port path : Str) (p : Str × Str) (ps : List (Str × Str))
    → c.is_shutdown ≡ false
    → b.has_client ≡ true
    → b.url ≡ url_text is_ssl host port path []
    → b.query_params ≡ p ∷ ps
    → contains 63 b.url ≡ false
    → IsHost host
    → IsPort port
    → IsPath path
    → path ≢ []
    → AllParams (λ x. is_white x ≡ false) (p ∷ ps)
    → execute transfer c b
      ≡ finish (
          transfer
            (build_http_request c.config b host (path ++ (63 ∷ query_text (p ∷ ps))))
            host
            (or_default (default_port is_ssl) port)
            is_ssl
            b.timeout)
execute-query transfer c b is_ssl host port path p ps run has url params no_query h po pa ne w =
    let read =
      ap parse_url (
        build_url_lem b p ps params no_query
        ∙ ap (λ u. u ++ (63 ∷ query_text (p ∷ ps))) url
        ∙ url_text-query is_ssl host port path (query_text (p ∷ ps)) (query_text-nonempty p ps))
      ∙ parse_url-text is_ssl host port path (query_text (p ∷ ps)) h po pa
          (query_text-All (λ x. is_white x ≡ false) (p ∷ ps)
            (unfold is_white in (refl, refl, refl, refl)) w)
          (λ e. absurd (ne e)) in
    execute_lem transfer c b _ run has read
    ∙ rw
        (
          or_default_lem (codes "/") path ne,
          with_query_lem path (query_text (p ∷ ps)) (query_text-nonempty p ps),
        )
        refl

-- While the client is not shut down, and for a builder of a client: parameters added to a URL of a
-- scheme and a host only, which has no '?', become a part of the host. The request goes to the host
-- that is followed by '?' and the parameters, and its target is '/'. The characters of the
-- parameters are those that a host may have for parse_url: no white space, ':' and '/'.
pub execute-host :
    (transfer : Transfer) (c : HttpClient) (b : HttpRequestBuilder) (is_ssl : Bool) (host : Str)
    (p : Str × Str) (ps : List (Str × Str))
    → c.is_shutdown ≡ false
    → b.has_client ≡ true
    → b.url ≡ scheme is_ssl ++ host
    → b.query_params ≡ p ∷ ps
    → contains 63 b.url ≡ false
    → IsHost host
    → AllParams (λ x. is_host x ≡ true) (p ∷ ps)
    → execute transfer c b
      ≡ finish (
          transfer
            (build_http_request c.config b (host ++ (63 ∷ query_text (p ∷ ps))) (codes "/"))
            (host ++ (63 ∷ query_text (p ∷ ps)))
            (default_port is_ssl)
            is_ssl
            b.timeout)
execute-host transfer c b is_ssl host p ps run has url params no_query h w =
    let whole = host ++ (63 ∷ query_text (p ∷ ps)) in
    let read =
      ap parse_url (
        build_url_lem b p ps params no_query
        ∙ ap (λ u. u ++ (63 ∷ query_text (p ∷ ps))) url
        ∙ append_assoc (scheme is_ssl) host (63 ∷ query_text (p ∷ ps))
        ∙ ap (λ t. scheme is_ssl ++ t) (sym (append-nil whole)))
      ∙ parse_url-text is_ssl whole [] [] []
          (
            (λ e. append_cons host 63 (query_text (p ∷ ps)) e),
            All-append (λ x. is_host x ≡ true) host (63 ∷ query_text (p ∷ ps)) h.1
                (
                  unfold is_host is_white in refl,
                  query_text-All (λ x. is_host x ≡ true) (p ∷ ps)
                      (unfold is_host is_white in (refl, refl, refl, refl)) w,
                ),
          )
          tt tt tt (λ _ _. refl) in
    execute_lem transfer c b _ run has read ∙ unfold or_default with_query in refl
