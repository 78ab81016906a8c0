-- ===== src/Lib.antt =====
-- linhub: the parts of the Go library that decide what a service answers.
--
-- The parts and how they meet:
--   * errx (errx/errx.go, errx/code.go) has the business error codes, their HTTP and gRPC statuses
--     and the error values. Errx.Codes has the codes and statuses, Errx.Errors the values. A pointer
--     to an error is an index into a heap, so that two holders of one error are seen to share it.
--   * core (core/core.go) binds, completes, validates and handles a request and writes its reply by
--     errx. Core has ReadRequest, FinalizeRequest, HandleRequest and the Write functions; the binder,
--     the handler and the validators are arguments that may change the request and the heap.
--     Core.All has ShouldBindAll and HandleAllRequest over Bind of package binding
--     (binding/binding.go).
--   * id and rid (id/code.go, id/options.go, rid/rid.go) turn a counter into a short identifier. Id
--     has NewCode with its two loops, Rid has (ResourceID).New, which calls it.
--   * store/where (store/where/where.go) has the query options. Where has the options and what
--     builds them, Where.Chained the chained methods that append and the functions of the package,
--     Where.Apply the calls they make on a database handle.
--   * store (store/store.go) has the generic store: Store has its methods and TxFromContext,
--     Store.Transactions has TxRunner. Its queries are those of Where.
--   * token (token/token.go) signs and reads tokens. Token has the configuration and the requests,
--     Token.Signing has Sign and SignWithClaims, Token.Parsing has ParseIdentity, ParseRequest and
--     the functions that return claims, Token.Paths the patterns of the skip list.
--   * util/version and version (util/version/version.go, version/dynamic.go) have version numbers.
--     Version has the record, its text and the comparison, Version.Parse reads a text,
--     Version.Highest has HighestSupportedVersion and Version.Dynamic the version that a running
--     program may be given.
--   * authn (authn/jwt/jwt.go, authn/jwt/store/redis/redis.go) signs, destroys and reads tokens.
--     Authn has the authenticator over the interface of a store, Authn.Redis the store that fills it.
--   * otelslog (otelslog/handler.go, otelslog/convert.go) is a handler of slog. Otelslog converts
--     values, Otelslog.Handler has the handler and the record it makes, Otelslog.Config its options,
--     Otelslog.Groups the nesting that slog asks for.
--   * log (log/log.go, log/options.go, log/gorm.go, log/fanout.go): Log has the levels and the logger
--     of GORM, Log.Logger the making of a logger, Init and the fields of a context, Log.Fanout the
--     handler that gives a record to several handlers.
--   * middleware (middleware/gin, middleware/grpc) stands around the handlers of a service.
--     Middleware.Paths has the patterns of requests that are skipped, Middleware.Capture the copies of
--     the bodies, Middleware.Tracing the trace in a response, Middleware.Observability the middleware
--     of gin that is made of them and Middleware.Unary the interceptor of gRPC. Middleware.Recovery
--     answers panics by the errors of errx. The handlers of a request are a tree of calls on the
--     writer, each of which goes on with its answer.
--   * options (options/, db/mysql.go): Settings.Flags has AddFlags over a set of flags, Settings.Tls
--     the TLS options with the loop over certificates, Settings.Kafka and Settings.Clients the options
--     of Kafka, MySQL, PostgreSQL and Redis, Settings.Otel those of the log and of telemetry,
--     Settings.Otel.Providers Apply and Shutdown, and Settings.Serving the check of an address and the
--     options of the servers and of JSON Web Tokens.
--   * app (app/app.go): App has the options of an application and runCommand, which sets up the logger
--     of log.
--   * util/strings and store/registry: Util.Lists has the functions on lists of strings, which the
--     check of Kafka uses, Util.Registry the models that are migrated.
-- Base has what they share: tests on numbers, lists, integers and strings.
--
-- Go's integers: a uint64 and a byte wrap at 2 ^ 64 and 2 ^ 8, which is written out; an int is an
-- integer of either sign, and the products that can overflow go through int64. Strings are lists of
-- bytes; of the runes outside ASCII, ToUpper and ToLower know those whose other case is an ASCII letter,
-- since their results are compared with ASCII words. A panic is `none`. The loops of the code are structural, over the list or the number of rounds
-- that the code loops over, but for two. The digits of a number are counted by fuel, which is the number
-- itself and one more. The loop of TLSConfig over the certificates of a file has a number of rounds that
-- it may take: one is enough for every run of the code that ends.
--
-- What is a parameter: GORM (what a handle becomes under a chained call and what the final calls do
-- to the world), the jwt library and the clock, the text and the gRPC status of an error of another
-- package, the salt of the machine, the values of OpenTelemetry, the client of Redis, a handler of
-- slog, the writer of gin, the metadata of gRPC, a set of flags of pflag, files, certificates and
-- exporters, and what viper reads. The hypotheses about them stand with the theorems.
--
-- What is not modelled: generated code, the set-up of servers and databases, and the packages that
-- only call a library. Of the packages above: time, in the logs of middleware; NewDB, NewClient,
-- CreateListener, the dialer of Kafka and the resource of telemetry; the cobra command of an
-- application; the wrappers of HandleRequest that name a binder of gin, the response headers, the
-- sonyflake generator, the one-letter names of store/where, the logger behind the handler of otelslog
-- and what append shares between its buffers, and the methods of log that only pass a message on. Locks
-- are left out: each operation is one step.
pub mod App
pub mod Authn
pub mod Base
pub mod Errx
pub mod Core
pub mod Id
pub mod Rid
pub mod Settings
pub mod Store
pub mod Token
pub mod Util
pub mod Version
pub mod Log
pub mod Middleware
pub mod Otelslog
pub mod Where
