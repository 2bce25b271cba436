-- ===== src/Log/Tests/Middleware.antt =====
-- The theorems on clients, servers and adapters, applied to concrete calls.
use clue.Base.{ℕ, suc, ◌≡◌, refl, true, false, Option, none, some, [], ◌∷◌, Bytes, codes, arith}
use clue.Log.Value.{string, kv_list}
use clue.Log.Logger.{Context, Store}
use clue.Log.Operations.{print}
use clue.Log.Clients.{
  HttpPlatform, buffered, answered, RoundTripper, client_options, with_log_body_on_error,
  round_trip, GrpcPlatform, default_grpc_options, unary_client_interceptor,
  stream_client_interceptor,
}
use clue.Log.Clients.Reports.{Reported, http_call, grpc_call, clients-Reported}
use clue.Log.Servers.{Handler, request_id_key, serve_http, serve_call, serve_stream}
use clue.Log.Servers.Requests.{Prepared, requests-Prepared}
use clue.Log.Adapters.{goa_log}
use clue.Log.Adapters.Pairs.{goa_log_lem}
use clue.Log.Tests.{doubling, some_store, some_context, some_store-IsReady}

-- The odd last key of three values.
goa_log_lem_example :
    goa_log
      (λ v. codes "k")
      some_store
      some_context
      9
      (string (codes "a") ∷ (string (codes "b") ∷ (string (codes "c") ∷ [])))
    ≡ some (
        print some_store some_context 9 (
          kv_list (
            record { key = codes "k"; val = string (codes "b") }
            ∷ (record { key = codes "k"; val = string (codes "MISSING") } ∷ []))
          ∷ []))
goa_log_lem_example =
    goa_log_lem (λ v. codes "k") some_store some_context 9
      (string (codes "a") ∷ (string (codes "b") ∷ (string (codes "c") ∷ [])))

abbrev request_context : Context
request_context = record { logger = none; values = (request_id_key, string (codes "r1")) ∷ [] }

abbrev handler : Handler Bytes Context
handler st ctx req = ctx

requests-Prepared_example :
    (st' : Store) × (ctx' : Context) × Prepared some_store 0 request_context
      (some (string (codes "r1")))
      st'
      ctx'
    × (serve_http
          ((λ path. false) ∷ [])
          some_context
          (λ path. path)
          handler
          some_store
          request_context
          (codes "/a")
        ≡ ctx')
    × (serve_call some_context handler some_store request_context (codes "/a") ≡ ctx')
    × (serve_stream some_context (λ st (srv stream : ℕ) ctx. ctx) some_store 1 2 request_context
        ≡ ctx')
requests-Prepared_example =
    requests-Prepared some_store 0 request_context some_context ((λ path. false) ∷ [])
      (λ path. path) handler (codes "/a") (λ st (srv stream : ℕ) ctx. ctx) 1 2 refl
      some_store-IsReady (omega arith)

abbrev web : HttpPlatform ℕ Bytes ℕ
web = record {
  context = λ req. some_context;
  method = λ req. codes "GET";
  url = λ req. req;
  errorf = λ text. text;
  read_all = λ w body. (w, codes "gone", none);
  now = λ w. w;
  time_since = λ w start. 2000000;
}

-- A server that answers 404.
abbrev transport : RoundTripper ℕ Bytes ℕ
transport st w req = (
  st,
  suc w,
  answered (record { status = codes "404 Not Found"; status_code = 404; body = buffered [] }),
)

abbrev rpc : GrpcPlatform ℕ ℕ
rpc = record {
  code = code_of;
  code_text = λ c. codes "code";
  status_message = λ err. [];
  error_text = λ err. codes "error";
  dir = λ path. path;
  base = λ path. path;
  now = λ w. w;
  time_since = λ w start. w;
}
  where
    code_of : Option ℕ → ℕ
    code_of none = 0
    code_of (some c) = c

abbrev method : Bytes
method = codes "/Weather/Get"

abbrev opened : ℕ
opened = 5

abbrev ok : Option ℕ
ok = none

abbrev unavailable : Option ℕ
unavailable = some 14

-- The round trip and the opening of the stream fail; the call does not.
clients-Reported_example :
    (Reported some_store 0 some_context true
        (http_call (codes "GET") (codes "/a"))
        (round_trip web
          (client_options (with_log_body_on_error ∷ []))
          transport
          some_store
          3
          (codes "/a")).0
      × ((round_trip web
            (client_options (with_log_body_on_error ∷ []))
            transport
            some_store
            3
            (codes "/a")).2
          ≡ answered (record {
            status = codes "404 Not Found";
            status_code = 404;
            body = buffered (codes "gone");
          })))
    × (Reported some_store 0 some_context false
          (grpc_call (codes "finished client unary call") (codes "Weather/Get") method)
          (unary_client_interceptor rpc default_grpc_options some_store 3 some_context method
            (λ st w ctx name. (st, w, none))).0
        × (ok ≡ none))
    × (Reported some_store 0 some_context true
          (grpc_call (codes "finished client streaming call") (codes "Weather/Get") method)
          (stream_client_interceptor rpc {S = ℕ} default_grpc_options some_store 3 some_context
            method
            (λ st w ctx name. (st, w, 5, some 14))).0
        × (opened ≡ 5)
        × (unavailable ≡ some 14))
clients-Reported_example =
    clients-Reported {S = ℕ} 0 some_store 3 web (client_options (with_log_body_on_error ∷ []))
      transport (codes "/a") rpc default_grpc_options some_context method
      (λ st w ctx name. (st, w, none)) (λ st w ctx name. (st, w, 5, some 14)) refl
      some_store-IsReady refl some_store-IsReady some_store-IsReady
