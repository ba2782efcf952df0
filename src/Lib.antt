-- ===== src/Lib.antt =====
-- A model of SafeMySQLMcpServer, the MCP server that lets a language model run SQL on MySQL
-- clusters behind a security policy.
--
-- A request is let in by internal/server/http.go if it carries a token that internal/auth accepts,
-- and internal/server/ratelimit.go has room for it.
--
-- The way of a statement. The tool `query` (internal/mcp/tools.go) checks its arguments
-- (internal/validation), hands the text to the TiDB parser and summarises the first statement
-- (internal/security/parser.go), lets the checker decide (internal/security/checker.go), lets the
-- rewriter bound an UPDATE or DELETE with no WHERE clause (internal/security/rewriter.go), sends the
-- text to the cluster of its database (internal/database/router.go over internal/database/pool.go),
-- reads the rows, and writes an audit entry (internal/audit/logger.go). The rules, the clusters and
-- the settings of the log come from internal/config and can be replaced while the server runs.
--
-- Files.
--   Base          texts, integers, maps, decimal numerals, Boolean tests
--   Config        internal/config/config.go: the structs and the look-ups in the rules; Defaults is
--                 setDefaults, Loading is Load, LoadSecurity and expandEnv, Validation is
--                 internal/config/validation.go; Reloadable is ReloadableConfig of
--                 internal/config/watcher.go, and Watcher the rest of that file; Watcher/Overlap has
--                 the parts of overlapping reloads
--   Security      Parser, Checker and Rewriter are the files of internal/security; Ast is the part of
--                 TiDB's syntax tree that they read
--   Validation    internal/validation/validator.go
--   Audit         internal/audit/logger.go
--   Database      Pool and Router are the files of internal/database; Pool/Waiting is the end of
--                 UpdateConfig, with its times
--   Mcp           internal/mcp/tools.go: Handler is the state of the tools and their settings, Rows the
--                 loop over the rows, Query, Explain and Search the tools `query`, `explain` and
--                 `search_tables`, Catalog the other four, and Tools their registration, also with
--                 internal/mcp/server.go, and the calls of them
--   Auth          internal/auth/jwt.go, and what the authentication middleware of
--                 internal/server/http.go decides; Context is the user of a request, and
--                 GenerateToken, and Generator is pkg/token/main.go
--   Metrics       internal/metrics/metrics.go
--   Server        internal/server/http.go: how the parts are put together, UpdateConfig and Shutdown;
--                 Serving is the chain of middleware, RateLimit is internal/server/ratelimit.go,
--                 Main is cmd/server/main.go, Requests puts these together, and Interleaved has the
--                 calls of `query` and of UpdateConfig in steps, Interleaved/Overlap two reloads at once
--   Constants     internal/constants/constants.go
--   Examples      sample data, tests, and an instance of each result that has conditions
-- A module below one of these, such as Mcp/Query/Steps, holds proofs about it.
--
-- How the code is modelled.
--   Strings are lists of bytes; upper case, EqualFold and white space are those of ASCII.
--   A Go map is an association list, whose order stands for the order of one iteration.
--   An `int` is an integer; only the reference count of a handle, an int32, wraps around. The parser
--   of decimal numerals refuses what does not fit 64 bits. The LIMIT of a statement is a value that
--   the syntax tree holds as an integer of some kind, a float64 or something else.
--   A mutex makes a call atomic: the call is a function from the state to the state. UpdateConfig of
--   the pool lets go of its mutex in between; Database/Pool/Interleaved has its phases as steps.
--   Pointers to the rules are options, none for nil.
--   A panic is a value of the tool's reply.
--   A call of the router gives the pool afterwards, the statements it sent on each handle, and its
--   result. Connections taken by `db.Conn` are counted, and one that is asked for when all are in use
--   fails at its deadline.
--   Every loop but one runs over a list. The wait for the users of a handle runs on fuel, one unit for
--   each read of the count: 201 are enough, since the deadline is ten seconds and the reads are 50
--   milliseconds apart. How long a handle takes to close is a parameter.
--   The goroutines of the watcher, the main loop and the requests take turns: each round of a loop and
--   each call of a tool is one step, and a run is any list of them. A round looks at the files at three
--   moments, when it polls, reads them, and asks for their times. A request goes through the middleware
--   and its tools in one step, and what the SDK makes of it, the calls of the tools and the response, is
--   part of the event. Finer steps are in three modules: Server/Interleaved lets a reload and other calls
--   run between the check of a statement, its rewriting and its execution, and between the updates of a
--   reload; Config/Watcher/Overlap splits reload where it begins to ask for the times; and
--   Database/Pool/Interleaved splits UpdateConfig of the pool, and Get into its look-up and its count.
--   The parser and json.Marshal are the same functions for all the calls of a run.
--   The statements that a run is said to have sent are those of Query and Exec of the router, that is
--   of the tools `query` and `explain`. `list_tables`, `describe_table`, `show_create_table` and
--   `search_tables` send statements of a fixed form on the handle itself, which the state keeps
--   apart.
--   A tool runs with the user of the request in whose context the SDK calls it. If a session keeps the
--   context of the request that created it, its later calls belong to that request.
--   The paths of the two files are absolute already; that of an event is what filepath.Abs makes of it.
--   The metrics are the list of the calls of the Prometheus library, the latest first.
--
-- Parameters stand for what is not in the repository: TiDB's parser, the jwt library, rate.Limiter,
-- net.ParseIP, net.SplitHostPort, json.Marshal, os.MkdirAll, sql.Open, the answers of the database
-- server, the file system, the environment, the YAML library, fsnotify, the handler of the
-- MCP SDK, time.ParseDuration and the days of a token read as a float, the clock, and the texts of
-- errors. lumberjack's file is the list of the lines that were handed to it,
-- whether or not its Write fails.
--
-- Not modelled: logging, flags and the parsing of durations (cmd/server); the listening of the HTTP
-- server, the dispatch of a request to a tool and the reading of its arguments (net/http and the MCP
-- SDK); and the handler of /metrics.
pub mod Base
pub mod Config
pub mod Security
pub mod Validation
pub mod Audit
pub mod Database
pub mod Mcp
pub mod Metrics
pub mod Constants
pub mod Examples
pub mod Auth
pub mod Server
