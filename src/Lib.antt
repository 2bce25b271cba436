-- ===== src/Lib.antt =====
-- clue, the instrumentation of microservices: its structured logger (log/), its health
-- checks (health/), its traces (trace/), its metrics (metrics/), its debug aids (debug/), its mocks
-- (mock/) with their generator (mock/cmd/cmg/), and an example (example/weather/).
--
-- Parts. `Log` models the package log. A program keeps a logger in a context; `Context` makes or
-- configures it, `With` derives a context whose logger has more pairs, and `Debug`, `Print`, `Info`,
-- `Error` and `Fatal` make entries, which wait in the logger's buffer until buffering ends or are
-- written at once. `Mock` models mock/mock.go, which the mocks made by its generator are built on;
-- it does not use the package log. `Health` models the package health: a checker pings a list of
-- dependencies, logs each failure by `Error`, and its handler answers with the result.
-- `Trace` models the package trace: a context carries a bag with the stack of its active spans, which
-- a trace or the middleware of a request puts there; its ids go into logs by `Log` of trace/log.go.
-- `Metrics` models the package metrics: a context carries a bag with its Prometheus metrics, made once,
-- and middleware counts, times and measures HTTP requests, unary calls and streams.
-- `Generator` models the generator of mocks, mock/cmd/cmg/pkg: from the syntax of loaded packages to their
-- interfaces, the names of types and imports and the texts of methods in the mocks, and the command that
-- writes their files, which logs what it does.
-- `Weather` models the services of the example application and their clients of two web services: front
-- asks the locator for the location of an address and the forecaster for the forecast there.
-- `Debug` models the package debug: an endpoint switches debug logs on and off, which its middleware
-- applies to the logger of each request by `Context` of log, and LogPayloads logs by `Debug` of log.
--
-- Files, and the code that they are about:
--   Log/Value.antt            KV, Fielder and the values of entries (log/fields.go)
--   Log/Memory.antt           kvList as slices over shared arrays, merge (log/fields.go); its child
--                             Laws has what an append does to all slices
--   Log/Truncate.antt         truncate and limitWriter (log/log.go); Cells, Laws and Bounds prove
--   Log/Logger.antt           Severity, Entry, logger, options, flush and log (log/log.go)
--   Log/Logger/Gather.antt    the pairs of an entry
--   Log/Logger/Journal.antt   the abstract logger: writes, waiting lines and a flag, with no memory
--   Log/Logger/Ready.antt     loggers in order, and their flush
--   Log/Logger/Refinement.antt  loggers implement journals
--   Log/Operations.antt       the functions on contexts (log/log.go, log/context.go, log/options.go);
--                             Histories, Effects, Children, Contexts and Sharing prove
--   Log/Location.antt         WithFileLocation and defaultOptions (log/options.go)
--   Log/Clients.antt          RoundTrip and the client interceptors (log/http.go, log/grpc.go); its
--                             child Reports proves
--   Log/Servers.antt          the server middleware (log/http.go, log/grpc.go); Requests proves
--   Log/Adapters.antt         loggers for other libraries (log/adapt.go); Pairs proves
--   Log/Formats.antt          FormatText, FormatJSON, FormatTerminal and writeJSON (log/format.go); its
--                             child Json has a grammar of JSON and proves
--   Mock.antt                 Mock, New, Next, Add, Set and HasMore (mock/mock.go)
--   Mock/Script.antt          the abstract mock: an ordered script of named mocks
--   Mock/Refinement.antt, Mock/Histories.antt  mocks implement scripts, over all histories of calls
--   Health/Pinger.antt        Pinger, its client and options (health/pinger.go)
--   Health/Checker.antt       Check (health/checker.go); its child Answers has its result, Logs what
--                             it logs
--   Health/Handler.antt       the HTTP handler (health/handler.go)
--   Trace/Span.antt           spans (trace/span.go, trace/log.go) and stateBag (trace/context.go); its
--                             children Balance and Histories prove
--   Trace/Setup.antt          options, Context and the sampler (trace/options.go, trace/context.go,
--                             trace/sampler.go); Laws proves
--   Trace/Middleware.antt     trace/http.go and trace/grpc.go; Transports proves
--   Metrics/Options.antt      metrics/options.go
--   Metrics/Registry.antt     stateBag and its metrics (metrics/context.go); Kept and Laws prove
--   Metrics/Length.antt       lengthReader (metrics/http.go); Counts proves
--   Metrics/Http.antt         the other parts of metrics/http.go
--   Metrics/Rpc.antt          the interceptors and streamWrapper (metrics/grpc.go)
--   Metrics/Grpc.antt         parseAddr and parseGRPCFullMethodName (metrics/grpc.go)
--   Metrics/Handler.antt      metrics/handler.go and metrics/logger.go
--   Metrics/Gauge.antt, Metrics/Names.antt  prove of all middleware of metrics; Names has children
--                             Registered and Uses
--   Debug/Options.antt        debug/options.go
--   Debug/Mounts.antt         MountPprofHandlers (debug/debug.go) and debug/goa.go
--   Debug/Switch.antt         MountDebugLogEnabler (debug/debug.go), debug/http.go and debug/grpc.go;
--                             Follows proves
--   Debug/Payloads.antt       LogPayloads (debug/debug.go); Lines proves
--   Generator/Imports.antt    import.go of mock/cmd/cmg/pkg/generate; its children Names and Unique prove
--   Generator/Methods.antt    the texts of method.go and interface.go there; Vars proves
--   Generator/Types.antt      type.go there; Structs has the parts of a struct, Spelled says what its
--                             texts are and Kept that they stay so;
--                             Steps, Parts, Named, Zeros, Finds and Added prove
--   Generator/Mocks.antt      NewMocks, newInterface and newMethod (mocks.go, interface.go and method.go
--                             there); Methods and Complete prove
--   Generator/Parse.antt      the packages that are read (mock/cmd/cmg/pkg/parse); Lookups proves
--   Generator/Command.antt    Generate (mock/cmd/cmg/pkg/generate.go); Events, Runs, Files
--                             and Generated prove
--   Generator/Version.antt    Version (mock/cmd/cmg/pkg/version.go)
--   Generator/Main.antt       main (mock/cmd/cmg/main.go)
--   Generator/Names.antt      lists of names and numbered names
--   Weather/Net.antt          requests, responses and bodies, as the clients of web services use them;
--                             Counts has what is proved of both
--   Weather/Weathergov.antt   the client of Weather.gov (example/weather/services/forecaster/clients/
--                             weathergov); Retries and Bodies prove
--   Weather/Ipapi.antt        the client of ip-api.com (example/weather/services/locator/clients/ipapi);
--                             Cache proves
--   Weather/Front.antt        the services locator, forecaster and front, and front's clients of the other
--                             two (example/weather/services); Forecasts proves
--   Base.antt                 shared names; Base/Lists, Base/Tests, Base/Text, Base/Results and
--                             Base/Int
--   Log/Tests.antt with its child Middleware, Mock/Tests.antt, Health/Tests.antt, Metrics/Tests.antt,
--   Trace/Tests.antt, Debug/Tests.antt, Generator/Tests.antt with its children Types, Mocks and Command,
--   Weather/Tests.antt        the theorems applied to concrete states
--
-- State. A pointer is an address in the record `Store`: arrays of pairs, options, loggers, what was
-- written in order, and the code of os.Exit. A slice is an address, a length and a capacity, so two
-- slices may share an array, and `append` writes into spare capacity as Go's does. What the runtime
-- decides, the capacity of a grown array, is the instance argument `Runtime`. A method that holds a
-- logger's or a mock's mutex is one step. The text of fmt.Sprintf and of err.Error(), the time and
-- what defaultOptions returns are arguments; so are the layout of a time, json.Marshal and the logfmt
-- encoder, and for health the HTTP client, http.NewRequest and the quotation of %q, over a type of
-- worlds that each ping may change. The calls of the OpenTelemetry SDK are recorded in order, and what
-- it returns for them is the instance argument `Sdk`; what is done to Prometheus' metrics is recorded
-- as well. A type of go/types is a pointer to a node in a heap, since the generator compares and keeps
-- types by their pointers; a hypothesis ranks what the name of a type reads. The operations of the
-- generator on files and the requests of the example are events, answered by a parameter from a state of
-- the world; the body of a response is a handle. Maps are association lists, or functions of a pointer.
-- A text is modelled as ASCII: its bytes are its code points.
--
-- Fuel. The digits of a number count fuel, one more than the number, which has no more digits. So does
-- the search of an alias for an import: one more than there are imports, since their aliases differ,
-- and the search of a variable, one more than there are parameters. The loops are recursive on their
-- list or on the number of their rounds or retries, but for the one of the Close of a body, which counts
-- fuel: more than the bytes that are left is enough, since a read without an error takes some. The name
-- of a type counts fuel for its depth, more than its rank, and a zero value two steps, since the
-- underlying type of a named type is not a named one.
--
-- Not modelled: IsTracing and IsTerminal, which ask a trace library and the terminal; of the generator
-- of mocks, the text template, the loading of packages and the parsing of flags, which are the
-- library's; the test services and, of the example, the code that goa generates, the generated mocks and
-- the main functions. A maximal size (WithMaxSize of log and of debug) is a natural number: a negative
-- one, at which log's truncation panics, is left out. A request ID is a text or missing: that of
-- another type, on which the assertion in trace/http.go and trace/grpc.go panics, is left out, as are
-- functions that are nil among the options, and that HTTP of metrics/http.go changes the caller's
-- endpoint details in place.
pub mod Base
pub mod Mock
pub mod Log
pub mod Debug
pub mod Health
pub mod Metrics
pub mod Trace
pub mod Generator
pub mod Weather
