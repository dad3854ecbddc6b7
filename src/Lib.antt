-- ===== src/Lib.antt =====
-- A verification library for logtailr, a program that tails logs from files, containers and the
-- journal, filters and aggregates their lines, raises alerts and writes the lines to outputs.
--
-- How the program is put together. The tailers send lines to the pipeline (cmd/pipeline.go). It
-- parses a line, hands it to the alert engine (internal/alert), drops what the filter
-- (internal/filter) does not pass, counts repetitions in the aggregator (internal/aggregator), and
-- writes what is left through the output manager (cmd/output_manager.go) to a writer
-- (internal/output). Tailers report to the health monitor (internal/health), which tells the alert
-- engine of changes. The configuration is checked once (internal/config), or imported into a store of
-- PostgreSQL and loaded from it (internal/config/loader.go, internal/store). Requests to the outside
-- only go where internal/ssrf allows, and cmd/alerts.go turns the configured rules into an engine. A
-- server (internal/api) checks the token of a request, limits the requests of an address, and hands the
-- lines to the clients of its hub.
--
-- Which module models which part:
--   Base               shared helpers: tests, lists, dictionaries, texts, integers, results
--   Logline            pkg/logline/logline.go: LogLine, LogLevels
--   Bookmark           internal/bookmark/bookmark.go: Load, Save, Delete; Kept is what stays in the file
--   Parser             internal/parser: Parser with its helpers; Object, Logfmt and Text are its three
--                      formats
--   Filter             internal/filter/filter.go: RegexFilter, ByLevel, ByRegex, Apply
--   Aggregator         internal/aggregator/aggregator.go: Process, Flush and the flush loop; Loop is
--                      the aggregator with its channel and the pipeline that reads it
--   Health             internal/health/health.go: Monitor and its operations
--   Alert.RateLimit    internal/alert/ratelimit.go: Allow
--   Alert.Evaluator    internal/alert/engine.go: the four evaluators, compileRule
--   Alert.Engine       internal/alert/engine.go: Engine; process_round is one round of processLoop
--   Ssrf               internal/ssrf/ssrf.go: ValidateExternalURL, RedirectGuard
--   Config             internal/config/config.go: the records; Sources, Outputs, Alerts and Valid are
--                      the parts of ValidateConfig, ByteSize is ParseByteSize
--   Config.Codec       what internal/config/loader.go calls of JSON and of the store
--   Config.Loader      internal/config/loader.go: LoadFromStore
--   Config.Import      internal/config/loader.go: ImportToStore
--   Store              internal/store/store.go: Store, WithTx; Rows, Table, Sources, Outputs, AlertRules
--                      and Settings are its tables
--   Api.Auth           internal/api/middleware.go: withAuth
--   Api.RateLimit      internal/api/middleware.go: withRateLimit and its clean-up
--   Api.Chain          internal/api/server.go: withCORS and the order of the middlewares
--   Hub                internal/api/hub.go, websocket.go: Hub; a round of Run takes one case of its select
--   Output.File        internal/output/file_writer.go: FileWriter
--   Output.Webhook     internal/output/webhook_writer.go: WebhookWriter
--   Output.Multi       internal/output/multi_writer.go: MultiWriter
--   Output.OpenSearch  internal/output/opensearch_writer.go: the configuration and a request; Flush
--                      has the attempts, flush, Write and finalFlush
--   Cmd.OutputManager  cmd/output_manager.go: OutputManager; turn is one round of writerLoop
--   Cmd.AlertRules     cmd/alerts.go: convertAlertRules
--   Cmd.Pipeline       cmd/pipeline.go: runPipeline; Steps and Shutdown follow the lines to the writer
--   Cmd.Writers        cmd/writers.go: createWriter; Asked and Applied say which writers and options
--                      the configuration gives
--   Cmd.Tailers        cmd/tailer_manager.go: TailerManager, and createTailer of cmd/tail.go; Running has
--                      the tailers that are started and stopped
-- Under each, child modules named for what they prove hold the theorems, and Tests tries them.
--
-- Conventions. A method is a function from the state before to the result and the state after; a
-- goroutine is a function that does one round of its loop, and interleavings are lists of calls and
-- rounds; calls that the source lets overlap, as two flushes of one writer, come one after the other.
-- `now` is what time.Now returns, in nanoseconds; durations are signed integers. Numbers are
-- unbounded where the source cannot reach a bound; where it can, `to_int64` writes the wrap out.
-- Loops are structural recursion, so none needs fuel but the printing of decimals, whose fuel is the
-- number itself plus one, more than it has digits. The number of attempts of a bulk request is the
-- writer's own bound.
--
-- A statement of SQL is read as an operation on lists of rows, with the UNIQUE and CHECK
-- constraints of the migrations; a database answers every statement, and an error inside a
-- transaction aborts it. The statements on alert_rules name the column window without quotes;
-- whether the database reserves that word, as PostgreSQL does, is part of the Codec. Files are
-- lists of the texts written to them, and no other program writes them.
--
-- Parameters stand for what the source only calls: regular expressions (Regexp), the texts of
-- durations and quotes (Library), the resolver and the classes of addresses (Network),
-- time.ParseDuration and os.Stat (Checkers), the tailers (Tailing), the parser and the flags of the
-- pipeline (Settings), the OpenSearch cluster with its clock and encoder (Cluster), the writers
-- (Writers), and the creation of a writer (Outputs). The parser takes decoding and the parsing of
-- times and numbers as its Library; the store takes JSON, the order of texts and what JSONB keeps
-- of a text as a Codec; the webhook writer takes its encoder and the request as a Network of its
-- own, and the bookmarks their Encoding; the file writer and the bookmarks take the Answers of the
-- operating system.
--
-- Not modelled: the tailers, the bookmarks in the store, the watcher of the configuration, the
-- handlers of the HTTP interface, the tables of events, searches and the audit, discovery, the
-- notifiers, the writers to the console and as JSON, the compression of rotated files, the command
-- line and the web frontend: they print, run commands or pass requests on. Logged texts and metrics
-- are left out everywhere.
pub mod Base
pub mod Logline
pub mod Bookmark
pub mod Parser
pub mod Store
pub mod Api
pub mod Hub
pub mod Filter
pub mod Aggregator
pub mod Health
pub mod Alert
pub mod Ssrf
pub mod Config
pub mod Output
pub mod Cmd
