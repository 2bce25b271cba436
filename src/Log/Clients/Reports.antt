-- ===== src/Log/Clients/Reports.antt =====
-- That each client logs each call once (log/http.go, log/grpc.go).
use clue.Base.{
  Option-cases, ℕ, ◌≡◌, refl, inl, inr, Bool, true, false, Bool-cases, Option, none, some, List, [],
  ◌∷◌, ◌++◌, map, Bytes, codes, if◌then◌else◌, drop,
}
use clue.Log.Value.{Fielder, kv, string}
use clue.Log.Memory.{Runtime}
use clue.Log.Logger.{
  Severity, severity_info, severity_error, Line, Context, Options, Store, options_of,
}
use clue.Log.Logger.Journal.{Journal, written, journal_flush}
use clue.Log.Logger.Ready.{IsReady, journal}
use clue.Log.Logger.Refinement.{call_line}
use clue.Log.Operations.{print, error}
use clue.Log.Operations.Effects.{waiting, error_pairs, print_lem, error-Refined}
use clue.Log.Clients.{
  HttpClientOptions, Response, Answer, failed, answered, buffered, HttpPlatform, RoundTripper,
  request_pairs, log_answer, log_response, log_err_body, round_trip, GrpcOptions, GrpcPlatform,
  call_pairs, log_call, unary_client_interceptor, stream_client_interceptor,
}

abbrev pub report_severity : Bool → Severity
report_severity true = severity_error
report_severity false = severity_info

-- The journal after the line of a call: that of a failure follows all lines that wait, and ends the
-- buffering; that of a success is written in front of them, unless debug is on.
abbrev pub reported : Options → Journal → Bool → Line → Journal
reported o j true ln = record {
  output = (j.output ++ map (written o) (waiting j)) ++ written o ln ∷ [];
  pending = if j.flushed then j.pending else [];
  flushed = true;
}
reported o j false ln =
    let j' = if o.debug then journal_flush o j else j in
    record j' { output = j'.output ++ written o ln ∷ [] }

module _ ⦃rt : Runtime⦄ where
  -- One line is logged, an error exactly if the call has failed, whose pairs after the error are these
  -- first.
  abbrev pub Reported : Store → ℕ → Context → Bool → (List Fielder → List Fielder) → Store → Type 0
  Reported st p ctx fails pairs st' =
      (now : ℕ) × (err : Option Bytes) × (more : List Fielder) × IsReady st' p
      × (journal st' p
          ≡ reported (options_of st p) (journal st p) fails
              (call_line st p ctx now (report_severity fails) (error_pairs err (pairs more))))

  module _ (st : Store) (p : ℕ) (ctx : Context) (carries : ctx.logger ≡ some p) (r : IsReady st p)
      (pairs : List Fielder → List Fielder) (now : ℕ) (more : List Fielder) where
    print-Reported : Reported st p ctx false pairs (print st ctx now (pairs more))
    print-Reported =
        let (ready, journals) = print_lem st p ctx carries r now (pairs more) in
        (now, none, more, ready, journals)

    error-Reported :
        (err : Option Bytes) → Reported st p ctx true pairs (error st ctx now err (pairs more))
    error-Reported err =
        let a = error-Refined st p ctx carries r now err (pairs more) in
        (now, err, more, a.ready, a.journals)

  -- Whether a round trip counts as failed.
  abbrev pub answer_fails : {B : Type 0} → HttpClientOptions → Answer B → Bool
  answer_fails options (failed text) = true
  answer_fails options (answered resp) = options.iserr resp.status_code

  -- The pairs that name the call of an HTTP request, and a gRPC call.
  abbrev pub http_call : Bytes → Bytes → List Fielder → List Fielder
  http_call method url more =
      kv (record { key = codes "msg"; val = string (codes "finished client HTTP request") })
      ∷ kv (record { key = codes "http.method"; val = string method })
      ∷ kv (record { key = codes "http.url"; val = string url })
      ∷ more

  abbrev pub grpc_call : Bytes → Bytes → Bytes → List Fielder → List Fielder
  grpc_call msg service method more =
      kv (record { key = codes "msg"; val = string msg })
      ∷ kv (record { key = codes "grpc.service"; val = string service })
      ∷ kv (record { key = codes "grpc.method"; val = string method })
      ∷ more

  -- The answer, with a body that can be read: the one that came, or all bytes of it if it was read, as
  -- it is for a failed status with the option to log the body, and this gave no error.
  module _ {W Q B : Type 0} (web : HttpPlatform W Q B) where
    abbrev pub with_body_read : W → Response B → Option Bytes → Answer B
    with_body_read w resp (some err) = answered resp
    with_body_read w resp none = answered (record {
      status = resp.status;
      status_code = resp.status_code;
      body = buffered (web.read_all w resp.body).1;
    })

    abbrev pub handed_on : HttpClientOptions → W → Answer B → Answer B
    handed_on options w (failed text) = failed text
    handed_on options w (answered resp) =
        if options.iserr resp.status_code
        then (if options.log_err_body
            then with_body_read w resp (web.read_all w resp.body).2
            else answered resp)
        else answered resp

  module _ {W Q B : Type 0} (web : HttpPlatform W Q B) (options : HttpClientOptions) (p : ℕ)
      (req : Q) (carries : (web.context req).logger ≡ some p) where
    abbrev AnswerReported : Store → W → Answer B → Store × W × Answer B → Type 0
    AnswerReported st w got end =
        Reported st p (web.context req) (answer_fails options got)
          (http_call (web.method req) (web.url req)) end.0
        × (end.2 ≡ handed_on web options w got)

    body_lem :
        (st : Store) (w : W) (resp : Response B) (elapsed : ℕ)
        → IsReady st p
        → Reported st p
            (web.context req)
            true
            (request_pairs web req)
            (log_err_body web st w req resp elapsed).0
          × ((log_err_body web st w req resp elapsed).2
              ≡ with_body_read web w resp (web.read_all w resp.body).2)
    body_lem st w resp elapsed r = elim (Option-cases (web.read_all w resp.body).2) [
      | inl e ↦
          rw (log_err_body, e) (error-Reported st p _ carries r (request_pairs web req) _ _ _, refl)
      | inr (text, e) ↦
          rw (log_err_body, e) (error-Reported st p _ carries r (request_pairs web req) _ _ _, refl)
    ]

    response_lem :
        (st : Store) (w : W) (resp : Response B) (elapsed : ℕ)
        → IsReady st p
        → AnswerReported st w (answered resp) (log_response web options st w req resp elapsed)
    response_lem st w resp elapsed r = elim (Bool-cases (options.iserr resp.status_code)) [
      | inr e ↦ rw e (print-Reported st p _ carries r (request_pairs web req) _ _, refl)
      | inl e ↦ rw e (elim (Bool-cases options.log_err_body) [
        | inl e' ↦ rw e' (body_lem st w resp elapsed r)
        | inr e' ↦ rw e' (error-Reported st p _ carries r (request_pairs web req) _ _ _, refl)
      ])
    ]

    answer_lem :
        (start : ℕ) (got : Store × W × Answer B)
        → IsReady got.0 p
        → AnswerReported got.0 got.1 got.2 (log_answer web options req start got)
    answer_lem start (st, w, failed text) r =
        (error-Reported st p _ carries r (request_pairs web req) _ _ _, refl)
    answer_lem start (st, w, answered resp) r = response_lem st w resp (web.time_since w start) r

  module _ {W E : Type 0} (rpc : GrpcPlatform W E) (o : GrpcOptions) (p : ℕ) (ctx : Context)
      (carries : ctx.logger ≡ some p) where
    call_lem :
        (msg full_method : Bytes) (start : ℕ) (st : Store) (w : W) (err : Option E)
        → IsReady st p
        → Reported st p ctx
            (o.iserr (rpc.code err))
            (call_pairs rpc msg full_method)
            (log_call rpc o msg ctx full_method start st w err)
    call_lem msg full_method start st w err r = elim (Bool-cases (o.iserr (rpc.code err))) [
      | inl e ↦ rw e (error-Reported st p ctx carries r (call_pairs rpc msg full_method) _ _ _)
      | inr e ↦ rw e (print-Reported st p ctx carries r (call_pairs rpc msg full_method) _ _)
    ]

  -- The HTTP client, the unary one and the one for streams log each call once, after it has ended, as
  -- an error exactly if it has failed by their options or the round trip had an error, with the pairs
  -- that name the call in front; and they return what the call has returned. If the HTTP client reads
  -- a body to log it, and this gives no error, then the response that it returns has a body of all the
  -- bytes that were read in its place. The logger of the call's context is in order after the call itself.
  pub clients-Reported :
      {W Q B E S : Type 0} (p : ℕ) (st : Store) (w : W) (web : HttpPlatform W Q B)
      (options : HttpClientOptions) (transport : RoundTripper W Q B) (req : Q)
      (rpc : GrpcPlatform W E) (o : GrpcOptions) (ctx : Context) (full_method : Bytes)
      (invoker : Store → W → Context → Bytes → Store × W × Option E)
      (streamer : Store → W → Context → Bytes → Store × W × S × Option E)
      → (web.context req).logger ≡ some p
      → IsReady (transport st w req).0 p
      → ctx.logger ≡ some p
      → IsReady (invoker st w ctx full_method).0 p
      → IsReady (streamer st w ctx full_method).0 p
      → let got = transport st w req in
        let end = round_trip web options transport st w req in
        let unary = invoker st w ctx full_method in
        let unary_end = unary_client_interceptor rpc o st w ctx full_method invoker in
        let stream = streamer st w ctx full_method in
        let stream_end = stream_client_interceptor rpc o st w ctx full_method streamer in
        (Reported got.0 p
            (web.context req)
            (answer_fails options got.2)
            (http_call (web.method req) (web.url req))
            end.0
          × (end.2 ≡ handed_on web options got.1 got.2))
        × (Reported unary.0 p ctx
              (o.iserr (rpc.code unary.2))
              (grpc_call
                (codes "finished client unary call")
                (drop 1 (rpc.dir full_method))
                (rpc.base full_method))
              unary_end.0
            × (unary_end.2 ≡ unary.2))
        × (Reported stream.0 p ctx
              (o.iserr (rpc.code stream.3))
              (grpc_call
                (codes "finished client streaming call")
                (drop 1 (rpc.dir full_method))
                (rpc.base full_method))
              stream_end.0
            × (stream_end.2 ≡ stream.2)
            × (stream_end.3 ≡ stream.3))
  clients-Reported p st w web options transport req rpc o ctx full_method invoker streamer carries r
        carries' r' r'' =
      let unary = invoker st w ctx full_method in
      let stream = streamer st w ctx full_method in
      (
        answer_lem web options p req carries (web.now w) (transport st w req) r,
        (call_lem rpc o p ctx carries' _ full_method (rpc.now w) unary.0 unary.1 unary.2 r', refl),
        (
          call_lem rpc o p ctx carries' _ full_method (rpc.now w) stream.0 stream.1 stream.3 r'',
          refl,
          refl,
        ),
      )
