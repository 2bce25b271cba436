-- ===== src/Log/Clients.antt =====
-- The clients of log/http.go and log/grpc.go, which log the calls that they make. The call itself, a
-- round trip or an invocation, is an argument, which may log and change the world.
pub mod Reports
use clue.Base.{
  apply_all, ℕ, ◌/◌, ◌==◌, not, Bool, true, false, Option, none, some, List, [], ◌∷◌, Bytes, codes,
  drop, if◌then◌else◌, leb,
}
use clue.Base.Int.{pos}
use clue.Log.Value.{Value, string, integer, int64, other, Pair, Fielder, kv}
use clue.Log.Memory.{Runtime}
use clue.Log.Logger.{Context, Store}
use clue.Log.Operations.{message, print, error}

abbrev pub pair : Bytes → Value → Fielder
pair key val = kv (record { key = key; val = val })

-- KV{key, ms} for a duration in nanoseconds.
abbrev pub ms_pair : Bytes → ℕ → Fielder
ms_pair key elapsed = pair key (integer int64 (pos (elapsed / 1000000)))

-- `httpClientOptions`
pub record HttpClientOptions : Type 0 where
  pub iserr : ℕ → Bool
  pub log_err_body : Bool

abbrev pub HttpClientLogOption : Type 0
HttpClientLogOption = HttpClientOptions → HttpClientOptions

abbrev pub with_error_status : ℕ → HttpClientLogOption
with_error_status status o = record o { iserr = λ s. s == status }

abbrev pub with_log_body_on_error : HttpClientLogOption
with_log_body_on_error o = record o { log_err_body = true }

abbrev pub apply_client_options : HttpClientOptions → List HttpClientLogOption → HttpClientOptions
apply_client_options o opts = apply_all o opts

-- The options of `Client`.
abbrev pub client_options : List HttpClientLogOption → HttpClientOptions
client_options opts =
    apply_client_options (record { iserr = λ status. leb 400 status; log_err_body = false }) opts

-- The body of a response: one of the transport's, or bytes that were read before.
pub data ResponseBody (B : Type 0) : Type 0 where
  streamed : B → ResponseBody B
  buffered : Bytes → ResponseBody B

pub record Response (B : Type 0) : Type 0 where
  pub status : Bytes
  pub status_code : ℕ
  pub body : ResponseBody B

-- What a round trip returns: the text of an error, or a response.
pub data Answer (B : Type 0) : Type 0 where
  failed : Bytes → Answer B
  answered : Response B → Answer B

-- A request `Q` in its context, fmt.Errorf of a text without arguments, io.ReadAll with the text of
-- its error, and the clock in nanoseconds.
pub record HttpPlatform (W Q B : Type 0) : Type 0 where
  pub context : Q → Context
  pub method : Q → Bytes
  pub url : Q → Bytes
  pub errorf : Bytes → Bytes
  pub read_all : W → ResponseBody B → W × Bytes × Option Bytes
  pub now : W → ℕ
  pub time_since : W → ℕ → ℕ

abbrev pub RoundTripper : Type 0 → Type 0 → Type 0 → Type 0
RoundTripper W Q B = Store → W → Q → Store × W × Answer B

module _ ⦃rt : Runtime⦄ {W Q B : Type 0} (platform : HttpPlatform W Q B) where
  abbrev pub request_pairs : Q → List Fielder → List Fielder
  request_pairs req more =
      pair (codes "msg") (string (codes "finished client HTTP request"))
      ∷ (pair (codes "http.method") (string (platform.method req))
          ∷ (pair (codes "http.url") (string (platform.url req)) ∷ more))

  abbrev pub status_pairs : Response B → ℕ → List Fielder → List Fielder
  status_pairs resp elapsed more =
      pair (codes "http.status") (string resp.status)
      ∷ (ms_pair (codes "http.time_ms") elapsed ∷ more)

  -- The branch of `logErrBody`.
  abbrev pub log_err_body : Store → W → Q → Response B → ℕ → Store × W × Answer B
  log_err_body st w req resp elapsed =
      let (w', body, err) = platform.read_all w resp.body in
      elim err [
        | some text ↦ (
          error st (platform.context req) (platform.now w') (some text)
              (request_pairs req (status_pairs resp elapsed [])),
          w',
          answered resp,
        )
        | none ↦ (
          error st (platform.context req) (platform.now w') (some (platform.errorf resp.status)) (
              request_pairs req
                (status_pairs resp elapsed (pair (codes "http.body") (string body) ∷ []))),
          w',
          answered (record resp { body = buffered body }),
        )
      ]

  abbrev pub log_response :
      HttpClientOptions → Store → W → Q → Response B → ℕ → Store × W × Answer B
  log_response options st w req resp elapsed =
      if options.iserr resp.status_code
      then if options.log_err_body then log_err_body st w req resp elapsed else (
        error st (platform.context req) (platform.now w) (some (platform.errorf resp.status))
            (request_pairs req (status_pairs resp elapsed [])),
        w,
        answered resp,
      )
      else (
        print st (platform.context req) (platform.now w)
            (request_pairs req (status_pairs resp elapsed [])),
        w,
        answered resp,
      )

  abbrev pub log_answer : HttpClientOptions → Q → ℕ → Store × W × Answer B → Store × W × Answer B
  log_answer options req start (st, w, failed text) = (
    error st (platform.context req) (platform.now w) (some text) (request_pairs req []),
    w,
    failed text,
  )
  log_answer options req start (st, w, answered resp) =
      log_response options st w req resp (platform.time_since w start)

  -- `RoundTrip`
  abbrev pub round_trip : HttpClientOptions → RoundTripper W Q B → RoundTripper W Q B
  round_trip options transport st w req =
      log_answer options req (platform.now w) (transport st w req)

-- `grpcOptions`
pub record GrpcOptions : Type 0 where
  pub iserr : ℕ → Bool

abbrev pub default_grpc_options : GrpcOptions
default_grpc_options = record { iserr = λ c. not (c == 0) }

abbrev pub with_error_func : (ℕ → Bool) → GrpcOptions → GrpcOptions
with_error_func iserr o = record o { iserr = iserr }

abbrev pub apply_grpc_options : GrpcOptions → List (GrpcOptions → GrpcOptions) → GrpcOptions
apply_grpc_options o opts = apply_all o opts

-- The code and the message of the status of an error or none, with the text of a code; the text of an
-- error; the package path, whose `Dir` is never empty; and the clock in nanoseconds.
pub record GrpcPlatform (W E : Type 0) : Type 0 where
  pub code : Option E → ℕ
  pub code_text : ℕ → Bytes
  pub status_message : Option E → Bytes
  pub error_text : E → Bytes
  pub dir : Bytes → Bytes
  pub base : Bytes → Bytes
  pub now : W → ℕ
  pub time_since : W → ℕ → ℕ

module _ ⦃rt : Runtime⦄ {W E : Type 0} (platform : GrpcPlatform W E) where
  abbrev pub text_of : Option E → Option Bytes
  text_of none = none
  text_of (some err) = some (platform.error_text err)

  abbrev pub call_pairs : Bytes → Bytes → List Fielder → List Fielder
  call_pairs msg full_method more =
      pair (codes "msg") (string msg)
      ∷ (pair (codes "grpc.service") (string (drop 1 (platform.dir full_method)))
          ∷ (pair (codes "grpc.method") (string (platform.base full_method)) ∷ more))

  abbrev pub code_pairs : ℕ → ℕ → List Fielder
  code_pairs code elapsed =
      pair (codes "grpc.code") (other (platform.code_text code))
      ∷ (ms_pair (codes "grpc.time_ms") elapsed ∷ [])

  -- What both interceptors log after the call.
  abbrev pub log_call : GrpcOptions → Bytes → Context → Bytes → ℕ → Store → W → Option E → Store
  log_call o msg ctx full_method start st w err =
      let code = platform.code err in
      let elapsed = platform.time_since w start in
      if o.iserr code
      then error st ctx (platform.now w) (text_of err) (
          call_pairs msg full_method (
            pair (codes "grpc.status") (string (platform.status_message err))
            ∷ code_pairs code elapsed))
      else print st ctx (platform.now w) (call_pairs msg full_method (code_pairs code elapsed))

  -- `UnaryClientInterceptor`, given the invoker with the request and the reply that it fills.
  abbrev pub unary_client_interceptor :
      GrpcOptions
      → Store
      → W
      → Context
      → Bytes
      → (Store → W → Context → Bytes → Store × W × Option E)
      → Store × W × Option E
  unary_client_interceptor o st w ctx full_method invoker =
      let (st', w', err) = invoker st w ctx full_method in
      (
        log_call o (codes "finished client unary call") ctx full_method (platform.now w) st' w' err,
        w',
        err,
      )

  -- `StreamClientInterceptor`, given the streamer.
  abbrev pub stream_client_interceptor :
      {S : Type 0}
      → GrpcOptions
      → Store
      → W
      → Context
      → Bytes
      → (Store → W → Context → Bytes → Store × W × S × Option E)
      → Store × W × S × Option E
  stream_client_interceptor o st w ctx full_method streamer =
      let (st', w', stream, err) = streamer st w ctx full_method in
      (
        log_call o (codes "finished client streaming call") ctx full_method (platform.now w) st' w'
            err,
        w',
        stream,
        err,
      )
